-- ===== src/WebSocket/Fragments.antt =====
-- WSRecvMessage on the frames of a message.
use cpp_linux_server.Base.{
  ℕ, ◌+◌, ◌%◌, ◌^◌, ◌≤◌, ◌<◌, ◌≡◌, refl, sym, ap, ◌∙◌, List, [], ◌∷◌, ◌++◌, length, Bool, true,
  false, not, ltb, if◌then◌else◌, Option, none, some, All, arith, concat, append_assoc,
  length-append, le→ltb, lt→ltb, le-cases, inl, inr, lt→leb, le→leb, below→==,
}
use cpp_linux_server.ByteArray.Fixed.{to_bytes, of_bytes, byteswap}
use cpp_linux_server.ByteArray.Fixed.RoundTrip.{
  IsByte, length-to_bytes, of_bytes-to_bytes, byteswap-lt, byteswap-byteswap,
}
use cpp_linux_server.Stream.{Link, read_fix_size}
use cpp_linux_server.Stream.Delivery.{IsOpen, Received, read_fix_size-Received}
use cpp_linux_server.WebSocket.Limits.{cur_len-small}
use cpp_linux_server.WebSocket.{
  Config, FrameHead, head_bytes, head, mask_from, payload_field, length_bytes, Round, finished,
  going, then_round, with_bytes, with_length, with_key, opcode_of, data_frame, handle, round,
}
use cpp_linux_server.WebSocket.Frames.{
  mask_from-mask_from, head_of-head_bytes, wire_data, wire_key, frame, length-wire_data,
  length-head_bytes,
}

-- The link l' is l with `rest` left to read.
pub record At (rest : List ℕ) (l l' : Link) : Type 0 where
  pub rest_eq : concat l'.incoming ≡ rest
  pub is_open : IsOpen l'
  pub outgoing_eq : l'.outgoing ≡ l.outgoing
  pub closed_eq : l'.closed ≡ l.closed

split_front :
    (xs ys zs ws : List ℕ) → length xs ≡ length ys → xs ++ zs ≡ ys ++ ws → (xs ≡ ys) × (zs ≡ ws)
split_front [] [] zs ws n e = (refl, e)
split_front [] (y ∷ ys) zs ws n e = absurd (omega (arith, n))
split_front (x ∷ xs) [] zs ws n e = absurd (omega (arith, n))
split_front (x ∷ xs) (y ∷ ys) zs ws n e =
    let (p, q) = split_front xs ys zs ws (omega (arith, n)) (cc e) in
    let h : x ≡ y = cc e in (rw (h, p) refl, q)

-- A read of the n bytes in front.
with_bytes-then :
    (P : Round → Type 0) (cfg : Config) (n : ℕ) (bytes rest : List ℕ) (l₀ l : Link)
    (k : List ℕ → Link → Round)
    → 0 < cfg.max_len
    → length bytes ≡ n
    → 0 < n
    → n < 2 ^ 31
    → At (bytes ++ rest) l₀ l
    → ((l' : Link) → At rest l₀ l' → P (k bytes l'))
    → P (with_bytes cfg n l k)
unfolding with_bytes
with_bytes-then P cfg n bytes rest l₀ l k pos long some_bytes small a next =
    finish (read_fix_size cfg.max_len n l) (
      read_fix_size-Received cfg.max_len n l pos some_bytes small a.is_open
        (omega (arith, ap length a.rest_eq, length-append {0} bytes rest, long)))
  where
    finish : (r : Option (List ℕ) × Link) → Received n l r → P (then_round r k)
    finish (none, l') r = absurd (cc r.result_eq)
    finish (some got, l') r =
        let (front, behind) =
          split_front r.bytes bytes _ _ (r.size_eq ∙ sym long) (sym r.order_eq ∙ a.rest_eq) in
        let same : got ≡ bytes = cc (r.result_eq, front) in
        rw same (
          next l' (record {
            rest_eq = behind;
            is_open = r.is_open;
            outgoing_eq = r.outgoing_eq ∙ a.outgoing_eq;
            closed_eq = r.closed_eq ∙ a.closed_eq;
          }))

length_back :
    (w size : ℕ) → size < 256 ^ w → byteswap w (of_bytes (to_bytes w (byteswap w size))) ≡ size
length_back w size h =
    ap (byteswap w) (of_bytes-to_bytes w (byteswap w size) (byteswap-lt w size))
    ∙ byteswap-byteswap w size h

with_length-then :
    (P : Round → Type 0) (cfg : Config) (size : ℕ) (rest : List ℕ) (l₀ l : Link)
    (k : ℕ → Link → Round)
    → 0 < cfg.max_len
    → size < 2 ^ 31
    → At (length_bytes size ++ rest) l₀ l
    → ((l' : Link) → At rest l₀ l' → P (k size l'))
    → P (with_length cfg (payload_field size) l k)
unfolding with_length
with_length-then P cfg size rest l₀ l k pos small a next = elim (le-cases 126 size) [
  | inr short ↦
      rw (lt→ltb size 126 short, below→== size 126 short, below→== size 127 (omega arith))
        (next l (rw (lt→ltb size 126 short) at a))
  | inl long ↦ elim (le-cases 65536 size) [
    | inr middle ↦
        rw (le→ltb size 126 long, lt→ltb size 65536 middle)
          (with_bytes-then P cfg 2 (to_bytes 2 (byteswap 2 size)) rest l₀ l _ pos
            (length-to_bytes 2 (byteswap 2 size)) (omega arith) (omega arith)
            (rw (le→ltb size 126 long, lt→ltb size 65536 middle) at a)
            (λ l' b. rw (length_back 2 size middle) (next l' b)))
    | inl large ↦
        rw (le→ltb size 126 long, le→ltb size 65536 large)
          (with_bytes-then P cfg 8 (to_bytes 8 (byteswap 8 size)) rest l₀ l _ pos
            (length-to_bytes 8 (byteswap 8 size)) (omega arith) (omega arith)
            (rw (le→ltb size 126 long, le→ltb size 65536 large) at a)
            (λ l' b. rw (length_back 8 size (omega arith)) (next l' b)))
  ]
]

with_key-then :
    (P : Round → Type 0) (cfg : Config) (masked : Bool) (key rest : List ℕ) (l₀ l : Link)
    (k : List ℕ → Link → Round)
    → 0 < cfg.max_len
    → length key ≡ 4
    → At (wire_key masked key ++ rest) l₀ l
    → ((l' : Link)
        → At rest l₀ l'
        → (key' : List ℕ) → (if masked then (key' ≡ key) else Unit {0})
        → P (k key' l'))
    → P (with_key cfg masked l k)
unfolding with_key
with_key-then P cfg true key rest l₀ l k pos four a next =
    with_bytes-then P cfg 4 key rest l₀ l k pos four (omega arith) (omega arith) a
      (λ l' b. next l' b key refl)
with_key-then P cfg false key rest l₀ l k pos four a next = next l a _ tt

-- What a frame of data comes to; `total` is the data with that of the frame.
unfoldable pub arrived : Bool → ℕ → List ℕ → Link → Round
arrived fin opcode total l =
    if fin then finished (record { opcode = opcode; content = total }) l else going opcode total l

unmasked :
    (masked : Bool) (key key' bytes : List ℕ)
    → All IsByte key
    → All IsByte bytes
    → (if masked then (key' ≡ key) else Unit {0})
    → (if masked then mask_from key' 0 (wire_data masked key bytes) else wire_data masked key bytes)
      ≡ bytes
unmasked true key key' bytes k h same = rw same (mask_from-mask_from key 0 bytes k h)
unmasked false key key' bytes k h same = refl

data_frame-then :
    (P : Round → Type 0) (cfg : Config) (fin masked : Bool) (key : List ℕ) (opcode op : ℕ)
    (content data' rest : List ℕ) (l₀ l : Link)
    → 0 < cfg.max_len
    → length key ≡ 4
    → All IsByte key
    → All IsByte data'
    → 0 < length data'
    → length content + length data' < cfg.max_size
    → cfg.max_size < 2 ^ 31
    → At
        (length_bytes (length data')
          ++ (wire_key masked key ++ (wire_data masked key data' ++ rest)))
        l₀
        l
    → ((l' : Link) → At rest l₀ l' → P (arrived fin (opcode_of opcode op) (content ++ data') l'))
    → P (data_frame cfg (head op fin (payload_field (length data')) masked) opcode content l)
unfolding data_frame arrived
data_frame-then P cfg fin masked key opcode op content data' rest l₀ l pos four key_bytes data_bytes
      some_data fits limit a next =
    with_length-then P cfg (length data') _ l₀ l _ pos (omega arith) a (λ l₁ b.
      rw
        (
          cur_len-small content (omega arith),
          lt→leb cfg.max_size ((length content + length data') % 2 ^ 64) (omega arith),
        )
        (with_key-then P cfg masked key _ l₀ l₁ _ pos four b (λ l₂ c key' same.
          rw (lt→leb (2 ^ 31) (length content) (omega arith)) (
            with_bytes-then P cfg (length data') (wire_data masked key data') rest l₀ l₂ _ pos
              (length-wire_data masked key data') some_data (omega arith) c
              (λ l₃ d.
                rw (unmasked masked key key' data' key_bytes data_bytes same) (next l₃ d))))))

-- A frame as its sender has it.
pub record Fragment : Type 0 where
  pub key : List ℕ
  pub opcode : ℕ
  pub content : List ℕ

-- A masking key of four bytes, one of the opcodes of data, and at least a byte of it.
pub record IsFragment (f : Fragment) : Type 0 where
  pub four : length f.key ≡ 4
  pub key_bytes : All IsByte f.key
  pub data_opcode : f.opcode ≤ 2
  pub some_data : 0 < length f.content
  pub data_bytes : All IsByte f.content

payload_field-lt : (size : ℕ) → payload_field size < 128
payload_field-lt size = elim (le-cases 126 size) [
  | inr short ↦ rw (lt→ltb size 126 short) (omega arith)
  | inl long ↦ rw (le→ltb size 126 long) (of_two (ltb size 65536))
]
  where
    of_two : (b : Bool) → (if b then 126 else 127) < 128
    of_two true = omega arith
    of_two false = omega arith

handle-data :
    (cfg : Config) (client fin : Bool) (op payload opcode : ℕ) (content : List ℕ) (l : Link)
    → op ≤ 2
    → handle cfg client (head op fin payload (not client)) opcode content l
      ≡ data_frame cfg (head op fin payload (not client)) opcode content l
unfolding handle
handle-data cfg true fin op payload opcode content l h =
    rw (below→== op 9 (omega arith), below→== op 10 (omega arith), le→leb op 2 h) refl
handle-data cfg false fin op payload opcode content l h =
    rw (below→== op 9 (omega arith), below→== op 10 (omega arith), le→leb op 2 h) refl

-- A round on a frame of data that the peer sent, which masks where the receiver is the server.
pub round-then :
    (P : Round → Type 0) (cfg : Config) (client fin : Bool) (f : Fragment) (opcode : ℕ)
    (content rest : List ℕ) (l₀ l : Link)
    → 0 < cfg.max_len
    → cfg.max_size < 2 ^ 31
    → IsFragment f
    → length content + length f.content < cfg.max_size
    → At (frame (not client) f.key f.opcode fin f.content ++ rest) l₀ l
    → ((l' : Link)
        → At rest l₀ l'
        → P (arrived fin (opcode_of opcode f.opcode) (content ++ f.content) l'))
    → P (round cfg client opcode content l)
unfolding round frame
round-then P cfg client fin f opcode content rest l₀ l pos limit ok fits a next =
    let size : ℕ = length f.content in
    let h : FrameHead = head f.opcode fin (payload_field size) (not client) in
    let ls : List ℕ = length_bytes size in
    let ks : List ℕ = wire_key (not client) f.key in
    let ds : List ℕ = wire_data (not client) f.key f.content in
    let split : (head_bytes h ++ (ls ++ (ks ++ ds))) ++ rest
        ≡ head_bytes h ++ (ls ++ (ks ++ (ds ++ rest))) =
      append_assoc (head_bytes h) (ls ++ (ks ++ ds)) rest
      ∙ ap (λ (ys : List ℕ). head_bytes h ++ ys)
          (append_assoc ls (ks ++ ds) rest
            ∙ ap (λ (ys : List ℕ). ls ++ ys) (append_assoc ks ds rest)) in
    with_bytes-then P cfg 2 (head_bytes h) _ l₀ l _ pos (length-head_bytes h) (omega arith)
      (omega arith) (rw split at a)
      (λ l₁ b.
        rw
          (
            head_of-head_bytes f.opcode (payload_field size) fin (not client)
                (omega (arith, ok.data_opcode)) (payload_field-lt size),
            handle-data cfg client fin f.opcode (payload_field size) opcode content l₁
                ok.data_opcode,
          )
          (data_frame-then P cfg fin (not client) f.key opcode f.opcode content f.content rest l₀ l₁
            pos ok.four ok.key_bytes ok.data_bytes ok.some_data fits limit b next))
