-- ===== src/WebSocket/Limits.antt =====
-- WSRecvMessage on any bytes: the limit on a message, and what a failure leaves.
use cpp_linux_server.Base.{
  ℕ, zero, suc, ◌+◌, ◌%◌, ◌^◌, ◌≤◌, ◌<◌, ◌≡◌, ◌⊎◌, refl, ap, List, [], ◌∷◌, ◌++◌, length, Bool,
  true, false, not, leb, ◌==◌, ◌&&◌, if◌then◌else◌, Option, none, some, arith, length-append, inl,
  inr, le-cases, lt→leb, le→leb, lt→ltb,
}
use cpp_linux_server.Stream.{Link, close}
use cpp_linux_server.WebSocket.{
  Config, FrameHead, head_of, mask_from, Message, Round, finished, going, broken, overrun,
  opcode_of, end_frame, cur_len, data_frame, ponged, pong, handle, round, after, recv_rounds,
  recv_message,
}
use cpp_linux_server.WebSocket.Reads.{with_bytes-any, with_length-any, with_key-any}
use cpp_linux_server.WebSocket.Frames.{length-mask_from}

-- The data so far stay below the limit.
Safe : ℕ → Round → Type 0
Safe max_size (finished m l) = length m.content < max_size
Safe max_size (going opcode content l) = length content < max_size
Safe max_size (broken l) = Unit {0}
Safe max_size (overrun r) = ⊥

end_frame-Safe :
    (max_size : ℕ) (h : FrameHead) (opcode : ℕ) (content : List ℕ) (l : Link)
    → length content < max_size
    → Safe max_size (end_frame h opcode content l)
unfolding Safe
end_frame-Safe max_size h opcode content l below = by_fin h.fin
  where
    by_fin :
        (b : Bool)
        → Safe max_size (
            if b
            then finished (record { opcode = opcode_of opcode h.opcode; content = content }) l
            else going (opcode_of opcode h.opcode) content l)
    by_fin true = below
    by_fin false = below

-- Below 2 ^ 31 bytes cur_len is their number.
pub cur_len-small : (content : List ℕ) → length content < 2 ^ 31 → cur_len content ≡ length content
unfolding cur_len
cur_len-small content h =
    let same : length content % 2 ^ 32 ≡ length content = omega arith in
    rw (same, lt→ltb (length content) (2 ^ 31) h) refl

-- The sum of the guard wraps only for sizes of which nothing is read.
data_frame-Safe :
    (cfg : Config) (h : FrameHead) (opcode : ℕ) (content : List ℕ) (l : Link)
    → h.payload < 128
    → cfg.max_size ≤ 2 ^ 31
    → length content < cfg.max_size
    → Safe cfg.max_size (data_frame cfg h opcode content l)
unfolding data_frame Safe
data_frame-Safe cfg h opcode content l field limit below =
    let S : Round → Type 0 = Safe cfg.max_size in
    with_length-any S cfg h.payload l _ field (λ _. tt)
      (λ size l₁ wide _.
        rw (cur_len-small content (omega arith))
          (elim (le-cases cfg.max_size ((length content + size) % 2 ^ 64)) [
            | inl large ↦ rw (le→leb cfg.max_size _ large) tt
            | inr small ↦ rw (lt→leb cfg.max_size _ small) (
                with_key-any S cfg h.mask l₁ _ (λ _. tt)
                  (λ key l₂ _. rw (lt→leb (2 ^ 31) (length content) (omega arith)) (
                    with_bytes-any S cfg size l₂ _ (λ _. tt)
                      (λ bytes l₃ f _. end_frame-Safe cfg.max_size h opcode _ l₃ (
                        fits _ bytes size content (length-unmasked h.mask key bytes) below small
                          wide f)))))
          ]))
  where
    length-unmasked :
        (b : Bool) (key bytes : List ℕ)
        → length (if b then mask_from key 0 bytes else bytes) ≡ length bytes
    length-unmasked true key bytes = length-mask_from key 0 bytes
    length-unmasked false key bytes = refl

    fits :
        (more bytes : List ℕ) (size : ℕ) (content : List ℕ)
        → length more ≡ length bytes
        → length content < cfg.max_size
        → (length content + size) % 2 ^ 64 < cfg.max_size
        → size < 2 ^ 64
        → ((size < 2 ^ 63) × (length bytes ≡ size)) ⊎ ((2 ^ 63 ≤ size) × (bytes ≡ []))
        → length (content ++ more) < cfg.max_size
    fits more bytes size content e below small wide (inl (h, f)) =
        omega (arith, length-append {0} content more, e, f, h, small)
    fits more bytes size content e below small wide (inr (h, f)) =
        omega (arith, length-append {0} content more, e, ap length f)

handle-Safe :
    (cfg : Config) (client : Bool) (h : FrameHead) (opcode : ℕ) (content : List ℕ) (l : Link)
    → h.payload < 128
    → cfg.max_size ≤ 2 ^ 31
    → length content < cfg.max_size
    → Safe cfg.max_size (handle cfg client h opcode content l)
unfolding handle Safe
handle-Safe cfg client h opcode content l field limit below =
    by_opcode (h.opcode == 9) (h.opcode == 10) (leb h.opcode 2) (not client && not h.mask)
  where
    after_pong : (r : Bool × Link) → Safe cfg.max_size (ponged opcode content r)
    after_pong (true, l') = below
    after_pong (false, l') = tt

    by_opcode :
        (a b c d : Bool)
        → Safe cfg.max_size (
            if a
            then ponged opcode content (pong cfg l)
            else if b
            then going opcode content l
            else if c
            then (if d then broken l else data_frame cfg h opcode content l)
            else going opcode content l)
    by_opcode true b c d = after_pong (pong cfg l)
    by_opcode false true c d = below
    by_opcode false false true true = tt
    by_opcode false false true false = data_frame-Safe cfg h opcode content l field limit below
    by_opcode false false false d = below

pub payload-lt : (bytes : List ℕ) → (head_of bytes).payload < 128
unfolding head_of
payload-lt [] = omega arith
payload-lt (a ∷ []) = omega arith
payload-lt (a ∷ b ∷ bs) = omega arith

round-Safe :
    (cfg : Config) (client : Bool) (opcode : ℕ) (content : List ℕ) (l : Link)
    → cfg.max_size ≤ 2 ^ 31
    → length content < cfg.max_size
    → Safe cfg.max_size (round cfg client opcode content l)
unfolding round Safe
round-Safe cfg client opcode content l limit below =
    with_bytes-any (Safe cfg.max_size) cfg 2 l _ (λ _. tt)
      (λ bytes l' f _.
        handle-Safe cfg client (head_of bytes) opcode content l' (payload-lt bytes) limit below)

-- What a call of WSRecvMessage comes to: a message below the limit, or a closed stream.
abbrev pub Bounded : ℕ → Option Message × Link → Type 0
Bounded max_size (some m, l) = length m.content < max_size
Bounded max_size (none, l) = l.closed ≡ true

after-Bounded :
    (max_size : ℕ) (more : ℕ → List ℕ → Link → Option Message × Link) (r : Round)
    → ((opcode : ℕ) (content : List ℕ) (l : Link)
        → length content < max_size
        → Bounded max_size (more opcode content l))
    → Safe max_size r
    → Bounded max_size (after more r)
unfolding Safe close
after-Bounded max_size more (finished m l) h s = s
after-Bounded max_size more (going opcode content l) h s = h opcode content l s
after-Bounded max_size more (broken l) h s = refl
after-Bounded max_size more (overrun r) h s = absurd s

recv_rounds-Bounded :
    (cfg : Config) (client : Bool) (rounds opcode : ℕ) (content : List ℕ) (l : Link)
    → cfg.max_size ≤ 2 ^ 31
    → length content < cfg.max_size
    → Bounded cfg.max_size (recv_rounds cfg client rounds opcode content l)
unfolding recv_rounds close
recv_rounds-Bounded cfg client zero opcode content l limit below = refl
recv_rounds-Bounded cfg client (suc rounds) opcode content l limit below =
    after-Bounded cfg.max_size (recv_rounds cfg client rounds) (round cfg client opcode content l)
      (λ op c l' h. recv_rounds-Bounded cfg client rounds op c l' limit h)
      (round-Safe cfg client opcode content l limit below)

-- WSRecvMessage on whatever bytes the peer sends, cut up in any way, where websocket.message.max_size is
-- above 0 and at most 2^31: it returns either a message with less data than that, or nothing, and then the
-- stream is closed; and this holds whatever a write outside of its data comes to.
pub recv_message-Bounded :
    (cfg : Config) (client : Bool) (l : Link)
    → 0 < cfg.max_size
    → cfg.max_size ≤ 2 ^ 31
    → Bounded cfg.max_size (recv_message cfg client l)
unfolding recv_message
recv_message-Bounded cfg client l some_room limit =
    recv_rounds-Bounded cfg client _ 0 [] l limit some_room
