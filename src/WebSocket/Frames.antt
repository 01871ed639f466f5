-- ===== src/WebSocket/Frames.antt =====
-- The bytes of a WebSocket frame, and what sending one puts on the wire.
use cpp_linux_server.Base.{
  ℕ, zero, suc, ◌+◌, ◌/◌, ◌%◌, ◌^◌, ◌≤◌, ◌<◌, ◌≡◌, refl, sym, ap, ◌∙◌, List, [], ◌∷◌, ◌++◌, length,
  Bool, true, false, not, ltb, if◌then◌else◌, Option, none, some, All, arith, append_assoc,
  append-nil, length-append, get_elem?, le→ltb, lt→ltb, le-cases, inl, inr,
}
use cpp_linux_server.Base.Bits.{bit_xor_twice}
use cpp_linux_server.ByteArray.Fixed.{to_bytes, byteswap}
use cpp_linux_server.ByteArray.Fixed.RoundTrip.{IsByte, length-to_bytes}
use cpp_linux_server.Stream.{Link, write_fix_size, close}
use cpp_linux_server.Stream.Delivery.{IsWilling, Sent, write_fix_size-Sent}
use cpp_linux_server.WebSocket.{
  Config, FrameHead, bit, bit_of, head_bytes, head_of, head, key_at, mask_from, Message,
  payload_field, length_bytes, then_write, send_message,
}

-- The masking of data is undone by masking again, and keeps bytes and their number.
key_at-IsByte : (key : List ℕ) (i : ℕ) → All IsByte key → IsByte (key_at key i)
key_at-IsByte key i h = at key (i % 4) h
  where
    at :
        (ks : List ℕ) (n : ℕ)
        → All IsByte ks
        → IsByte (elim (get_elem? ks n) [ none ↦ 0 | some k ↦ k ])
    at [] n h = omega arith
    at (k ∷ ks) zero h = h.0
    at (k ∷ ks) (suc n) h = at ks n h.1

pub mask_from-mask_from :
    (key : List ℕ) (i : ℕ) (bytes : List ℕ)
    → All IsByte key
    → All IsByte bytes
    → mask_from key i (mask_from key i bytes) ≡ bytes
unfolding mask_from
mask_from-mask_from key i [] k h = refl
mask_from-mask_from key i (b ∷ bs) k h =
    rw
      (
        bit_xor_twice 8 b (key_at key i) h.0 (key_at-IsByte key i k),
        mask_from-mask_from key (suc i) bs k h.1,
      )
      refl

pub length-mask_from :
    (key : List ℕ) (i : ℕ) (bytes : List ℕ) → length (mask_from key i bytes) ≡ length bytes
unfolding mask_from
length-mask_from key i [] = refl
length-mask_from key i (b ∷ bs) = ap suc (length-mask_from key (suc i) bs)

-- The parts of the bytes x and y.
parts :
    (x y opcode payload : ℕ) (fin mask : Bool)
    → x ≡ opcode + bit 128 fin
    → y ≡ payload + bit 128 mask
    → opcode < 16
    → payload < 128
    → head_of (x ∷ y ∷ []) ≡ head opcode fin payload mask
unfolding head_of
parts x y opcode payload fin mask e f small field =
    rw
      (
        low fin e,
        clear 16 (at_16 fin e),
        clear 32 (at_32 fin e),
        clear 64 (at_64 fin e),
        top x opcode fin e (omega arith),
        field_of mask f,
        top y payload mask f field,
      )
      refl
  where
    low : (b : Bool) → x ≡ opcode + bit 128 b → x % 16 ≡ opcode
    low true e = omega arith
    low false e = omega arith

    at_16 : (b : Bool) → x ≡ opcode + bit 128 b → x / 16 % 2 ≡ 0
    at_16 true e = omega arith
    at_16 false e = omega arith

    at_32 : (b : Bool) → x ≡ opcode + bit 128 b → x / 32 % 2 ≡ 0
    at_32 true e = omega arith
    at_32 false e = omega arith

    at_64 : (b : Bool) → x ≡ opcode + bit 128 b → x / 64 % 2 ≡ 0
    at_64 true e = omega arith
    at_64 false e = omega arith

    clear : (v : ℕ) → x / v % 2 ≡ 0 → bit_of v x ≡ false
    clear v e = rw e refl

    field_of : (b : Bool) → y ≡ payload + bit 128 b → y % 128 ≡ payload
    field_of true f = omega arith
    field_of false f = omega arith

    top : (z n : ℕ) (b : Bool) → z ≡ n + bit 128 b → n < 128 → bit_of 128 z ≡ b
    top z n true e h = let one : z / 128 % 2 ≡ 1 = omega arith in rw one refl
    top z n false e h = let none_there : z / 128 % 2 ≡ 0 = omega arith in rw none_there refl

-- The two bytes of a head are read as that head.
pub head_of-head_bytes :
    (opcode payload : ℕ) (fin mask : Bool)
    → opcode < 16
    → payload < 128
    → head_of (head_bytes (head opcode fin payload mask)) ≡ head opcode fin payload mask
unfolding head_bytes
head_of-head_bytes opcode payload fin mask small field =
    parts _ _ opcode payload fin mask (omega arith) (omega arith) small field

-- The data as it is on the wire, and the whole frame.
abbrev pub wire_data : Bool → List ℕ → List ℕ → List ℕ
wire_data client key content = if client then mask_from key 0 content else content

abbrev pub wire_key : Bool → List ℕ → List ℕ
wire_key client key = if client then key else []

unfoldable pub frame : Bool → List ℕ → ℕ → Bool → List ℕ → List ℕ
frame client key opcode fin content =
    head_bytes (head opcode fin (payload_field (length content)) client)
    ++ (length_bytes (length content) ++ (wire_key client key ++ wire_data client key content))

-- A write, after others, of what is not too long; or none of nothing, where none is needed.
then_write-Sent :
    (cfg : Config) (needed : Bool) (before bytes out : List ℕ) (l : Link) (r : Bool × Link)
    → 0 < cfg.max_len
    → IsWilling (length (before ++ out)) l
    → Sent before l r
    → (if needed then (out ≡ bytes) × (0 < length bytes) else (out ≡ []))
    → length bytes < 2 ^ 31
    → Sent (before ++ out) l (then_write cfg needed bytes r)
then_write-Sent cfg needed before bytes out l (false, l') pos w s h small = absurd (cc s.result_eq)
then_write-Sent cfg false before bytes out l (true, l') pos w s h small =
    rw (h, append-nil before) s
then_write-Sent cfg true before bytes out l (true, l') pos w s h small =
    let long : length (before ++ out) ≡ length before + length bytes =
      length-append {0} before out ∙ ap (λ (ys : List ℕ). length before + length ys) h.0 in
    let t : Sent bytes l' (write_fix_size cfg.max_len bytes l') =
      write_fix_size-Sent cfg.max_len bytes l' pos h.1 small
        (s.willing, omega (arith, w.1, s.cost, long)) in
    record {
      result_eq = t.result_eq;
      outgoing_eq =
          t.outgoing_eq
          ∙ ap (λ (ys : List ℕ). ys ++ bytes) s.outgoing_eq
          ∙ append_assoc l.outgoing before bytes
          ∙ ap (λ (ys : List ℕ). l.outgoing ++ (before ++ ys)) (sym h.0);
      willing = t.willing;
      cost = omega (arith, s.cost, t.cost, long, length-append {0} before out);
      incoming_eq = t.incoming_eq ∙ s.incoming_eq;
      closed_eq = t.closed_eq ∙ s.closed_eq;
    }

-- The length behind the head is written where there is one.
length_bytes-needed :
    (size : ℕ)
    → if not (ltb size 126)
      then (length_bytes size ≡ length_bytes size) × (0 < length (length_bytes size))
      else (length_bytes size ≡ [])
length_bytes-needed size = elim (le-cases 126 size) [
  | inl long ↦ rw (le→ltb size 126 long) (refl, some_bytes (ltb size 65536))
  | inr short ↦ rw (lt→ltb size 126 short) refl
]
  where
    some_bytes :
        (b : Bool)
        → 0 < length (if b then to_bytes 2 (byteswap 2 size) else to_bytes 8 (byteswap 8 size))
    some_bytes true = omega (arith, length-to_bytes 2 (byteswap 2 size))
    some_bytes false = omega (arith, length-to_bytes 8 (byteswap 8 size))

length_bytes-short : (size : ℕ) → length (length_bytes size) < 2 ^ 31
length_bytes-short size = short (ltb size 126) (ltb size 65536)
  where
    short :
        (a b : Bool)
        → length (
            if a
            then []
            else if b
            then to_bytes 2 (byteswap 2 size)
            else to_bytes 8 (byteswap 8 size))
          < 2 ^ 31
    short true b = omega arith
    short false true = omega (arith, length-to_bytes 2 (byteswap 2 size))
    short false false = omega (arith, length-to_bytes 8 (byteswap 8 size))

key-needed :
    (client : Bool) (key : List ℕ)
    → length key ≡ 4
    → if client then (wire_key client key ≡ key) × (0 < length key) else (wire_key client key ≡ [])
key-needed true key four = (refl, omega (arith, four))
key-needed false key four = refl

pub length-wire_data :
    (client : Bool) (key content : List ℕ) → length (wire_data client key content) ≡ length content
length-wire_data true key content = length-mask_from key 0 content
length-wire_data false key content = refl

-- What sending a frame of a message makes of a link.
pub record SentFrame (bytes : List ℕ) (size : ℕ) (l : Link) (r : Option ℕ × Message × Link)
    : Type 0 where
  pub result_eq : r.0 ≡ some (size + 2)
  pub outgoing_eq : r.2.outgoing ≡ l.outgoing ++ bytes
  pub willing : All (λ (q : ℕ). 0 < q) r.2.quota
  pub cost : length l.quota ≤ length r.2.quota + length bytes
  pub closed_eq : r.2.closed ≡ l.closed

pub length-head_bytes : (h : FrameHead) → length (head_bytes h) ≡ 2
unfolding head_bytes
length-head_bytes h = refl

ended :
    (bytes : List ℕ) (size : ℕ) (l : Link) (m : Message) (r : Bool × Link)
    → Sent bytes l r
    → SentFrame bytes size l
        (if r.0 then some (size + 2) else none, m, if r.0 then r.1 else close r.1)
ended bytes size l m (false, l') s = absurd (cc s.result_eq)
ended bytes size l m (true, l') s = record {
  result_eq = refl;
  outgoing_eq = s.outgoing_eq;
  willing = s.willing;
  cost = s.cost;
  closed_eq = s.closed_eq;
}

-- WSSendMessage of 1 to 2^31 - 1 bytes, with a masking key of four bytes, where every write takes a byte at
-- least: the frame is put out whole and in order, and the result is the size of the data and the
-- head.
pub send_message-SentFrame :
    (cfg : Config) (key : List ℕ) (msg : Message) (client fin : Bool) (l : Link)
    → 0 < cfg.max_len
    → length key ≡ 4
    → 0 < length msg.content
    → length msg.content < 2 ^ 31
    → IsWilling (length (frame client key msg.opcode fin msg.content)) l
    → SentFrame
        (frame client key msg.opcode fin msg.content)
        (length msg.content)
        l
        (send_message cfg key msg client fin l)
unfolding send_message frame
send_message-SentFrame cfg key msg client fin l pos four some_bytes small w =
    let size : ℕ = length msg.content in
    let hs : List ℕ = head_bytes (head msg.opcode fin (payload_field size) client) in
    let ls : List ℕ = length_bytes size in
    let ks : List ℕ = wire_key client key in
    let ds : List ℕ = wire_data client key msg.content in
    let long : length ds ≡ size = length-wire_data client key msg.content in
    let same : frame client key msg.opcode fin msg.content ≡ ((hs ++ ls) ++ ks) ++ ds =
      sym (append_assoc (hs ++ ls) ks ds ∙ append_assoc hs ls (ks ++ ds)) in
    let a : length (((hs ++ ls) ++ ks) ++ ds) ≡ length ((hs ++ ls) ++ ks) + length ds =
      length-append {0} ((hs ++ ls) ++ ks) ds in
    let b : length ((hs ++ ls) ++ ks) ≡ length (hs ++ ls) + length ks =
      length-append {0} (hs ++ ls) ks in
    let c : length (hs ++ ls) ≡ length hs + length ls = length-append {0} hs ls in
    let room : length (((hs ++ ls) ++ ks) ++ ds) ≤ length l.quota = rw same at w.1 in
    let two : length hs ≡ 2 = length-head_bytes _ in
    let s₁ : Sent hs l (write_fix_size cfg.max_len hs l) =
      write_fix_size-Sent cfg.max_len hs l pos (omega (arith, two)) (omega (arith, two))
        (w.0, omega (arith, room, a, b, c)) in
    let s₂ =
      then_write-Sent cfg (not (ltb size 126)) hs ls ls l _ pos (w.0, omega (arith, room, a, b, c))
        s₁ (length_bytes-needed size) (length_bytes-short size) in
    let s₃ =
      then_write-Sent cfg client (hs ++ ls) key ks l _ pos (w.0, omega (arith, room, a, b, c)) s₂
        (key-needed client key four) (omega (arith, four)) in
    let s₄ =
      then_write-Sent cfg true ((hs ++ ls) ++ ks) ds ds l _ pos (w.0, room) s₃
        (refl, omega (arith, long)) (omega (arith, long)) in
    rw same (ended _ size l _ _ s₄)
