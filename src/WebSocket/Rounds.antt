-- ===== src/WebSocket/Rounds.antt =====
-- The do loop of WSRecvMessage ends.
use cpp_linux_server.Base.{
  ℕ, zero, suc, ◌+◌, ◌≤◌, ◌<◌, ◌≡◌, refl, ap, ◌∙◌, min, drop, ◌⊎◌, List, [], length, concat, Bool,
  true, false, not, ◌&&◌, ◌==◌, leb, if◌then◌else◌, arith, inl, inr, Option, take, ◌%◌, ◌^◌,
}
use cpp_linux_server.Stream.{Link, transmit, write_rounds, write_fix_size, close}
use cpp_linux_server.WebSocket.{
  Config, head, op_pong, head_bytes, FrameHead, head_of, Message, Round, finished, going, broken,
  overrun, opcode_of, end_frame, cur_len, data_frame, ponged, pong, handle, round, after,
  recv_rounds, recv_message,
}
use cpp_linux_server.WebSocket.Limits.{payload-lt}
use cpp_linux_server.WebSocket.Reads.{pending, with_bytes-any, with_length-any, with_key-any}

write_rounds-incoming :
    (max_len rounds : ℕ) (bytes : List ℕ) (l : Link)
    → (write_rounds max_len rounds bytes l).1.incoming ≡ l.incoming
unfolding write_rounds transmit
write_rounds-incoming max_len zero bytes l = refl
write_rounds-incoming max_len (suc rounds) bytes l =
    let r = transmit (take (min (length bytes) max_len) bytes) l in
    let more = write_rounds max_len rounds (drop r.0 bytes) r.1 in
    by_tests (length bytes == 0) (r.0 == 0) r.1 more refl
      (write_rounds-incoming max_len rounds (drop r.0 bytes) r.1)
  where
    by_tests :
        (a b : Bool) (l' : Link) (more : Bool × Link)
        → l'.incoming ≡ l.incoming
        → more.1.incoming ≡ l'.incoming
        → (if a then (true, l) else if b then (false, l') else more).1.incoming ≡ l.incoming
    by_tests true b l' more h i = refl
    by_tests false true l' more h i = h
    by_tests false false l' more h i = i ∙ h

pong-incoming : (cfg : Config) (l : Link) → (pong cfg l).1.incoming ≡ l.incoming
unfolding pong write_fix_size close
pong-incoming cfg l =
    let r = write_fix_size cfg.max_len (head_bytes (head op_pong true 0 false)) l in
    by_result r.0 r.1 (write_rounds-incoming cfg.max_len _ _ l)
  where
    by_result :
        (b : Bool) (l' : Link)
        → l'.incoming ≡ l.incoming
        → (if b then l' else close l').incoming ≡ l.incoming
    by_result true l' h = h
    by_result false l' h = h

-- A round that goes on leaves fewer than n bytes.
Fewer : ℕ → Round → Type 0
Fewer n (finished m l) = Unit {0}
Fewer n (going opcode content l) = pending l < n
Fewer n (broken l) = Unit {0}
Fewer n (overrun r) = Unit {0}

end_frame-Fewer :
    (n : ℕ) (h : FrameHead) (opcode : ℕ) (content : List ℕ) (l : Link)
    → pending l < n
    → Fewer n (end_frame h opcode content l)
unfolding Fewer
end_frame-Fewer n h opcode content l fewer = by_fin h.fin
  where
    by_fin :
        (b : Bool)
        → Fewer n (
            if b
            then finished (record { opcode = opcode_of opcode h.opcode; content = content }) l
            else going (opcode_of opcode h.opcode) content l)
    by_fin true = tt
    by_fin false = fewer

data_frame-Fewer :
    (n : ℕ) (cfg : Config) (h : FrameHead) (opcode : ℕ) (content : List ℕ) (l : Link)
    → h.payload < 128
    → pending l < n
    → Fewer n (data_frame cfg h opcode content l)
unfolding data_frame Fewer
data_frame-Fewer n cfg h opcode content l field fewer =
    with_length-any (Fewer n) cfg h.payload l _ field (λ _. tt)
      (λ size l₁ _ a. guarded (leb cfg.max_size ((cur_len content + size) % 2 ^ 64)) l₁ _ (
        with_key-any (Fewer n) cfg h.mask l₁ _ (λ _. tt)
          (λ key l₂ b. inside (leb (2 ^ 31) (length content)) (cfg.undefined l₂) _ (
            with_bytes-any (Fewer n) cfg size l₂ _ (λ _. tt)
              (λ bytes l₃ _ c. end_frame-Fewer n h opcode _ l₃ (omega (arith, fewer, a, b, c)))))))
  where
    guarded : (b : Bool) (l' : Link) (r : Round) → Fewer n r → Fewer n (if b then broken l' else r)
    guarded true l' r f = tt
    guarded false l' r f = f

    inside :
        (b : Bool) (u : Option Message × Link) (r : Round)
        → Fewer n r
        → Fewer n (if b then overrun u else r)
    inside true u r f = tt
    inside false u r f = f

handle-Fewer :
    (n : ℕ) (cfg : Config) (client : Bool) (h : FrameHead) (opcode : ℕ) (content : List ℕ)
    (l : Link)
    → h.payload < 128
    → pending l < n
    → Fewer n (handle cfg client h opcode content l)
unfolding handle Fewer
handle-Fewer n cfg client h opcode content l field fewer =
    by_opcode (h.opcode == 9) (h.opcode == 10) (leb h.opcode 2) (not client && not h.mask)
  where
    after_pong : (r : Bool × Link) → r.1.incoming ≡ l.incoming → Fewer n (ponged opcode content r)
    after_pong (true, l') e = omega (arith, ap (λ (ss : List (List ℕ)). length (concat ss)) e)
    after_pong (false, l') e = tt

    by_opcode :
        (a b c d : Bool)
        → Fewer n (
            if a
            then ponged opcode content (pong cfg l)
            else if b
            then going opcode content l
            else if c
            then (if d then broken l else data_frame cfg h opcode content l)
            else going opcode content l)
    by_opcode true b c d = after_pong (pong cfg l) (pong-incoming cfg l)
    by_opcode false true c d = fewer
    by_opcode false false true true = tt
    by_opcode false false true false = data_frame-Fewer n cfg h opcode content l field fewer
    by_opcode false false false d = fewer

round-Fewer :
    (cfg : Config) (client : Bool) (opcode : ℕ) (content : List ℕ) (l : Link)
    → Fewer (pending l) (round cfg client opcode content l)
unfolding round Fewer
round-Fewer cfg client opcode content l =
    with_bytes-any (Fewer (pending l)) cfg 2 l _ (λ _. tt)
      (λ bytes l' f h.
        handle-Fewer (pending l) cfg client (head_of bytes) opcode content l' (payload-lt bytes)
          (shorter bytes l' f h))
  where
    shorter :
        (bytes : List ℕ) (l' : Link)
        → ((2 < 2 ^ 63) × (length bytes ≡ 2)) ⊎ ((2 ^ 63 ≤ 2) × (bytes ≡ []))
        → pending l' + length bytes ≤ pending l
        → pending l' < pending l
    shorter bytes l' (inl (_, e)) h = omega (arith, e, h)
    shorter bytes l' (inr (e, _)) h = absurd (omega (arith, e))

after-same :
    (n : ℕ) (f g : ℕ → List ℕ → Link → Option Message × Link) (r : Round)
    → ((opcode : ℕ) (content : List ℕ) (l : Link)
        → pending l < n
        → f opcode content l ≡ g opcode content l)
    → Fewer n r
    → after f r ≡ after g r
unfolding Fewer
after-same n f g (finished m l) h s = refl
after-same n f g (going opcode content l) h s = h opcode content l s
after-same n f g (broken l) h s = refl
after-same n f g (overrun r) h s = refl

rounds-same :
    (cfg : Config) (client : Bool) (a b opcode : ℕ) (content : List ℕ) (l : Link)
    → pending l < a
    → pending l < b
    → recv_rounds cfg client a opcode content l ≡ recv_rounds cfg client b opcode content l
unfolding recv_rounds
rounds-same cfg client zero b opcode content l h i = absurd (omega arith)
rounds-same cfg client (suc a) zero opcode content l h i = absurd (omega arith)
rounds-same cfg client (suc a) (suc b) opcode content l h i =
    after-same (pending l) (recv_rounds cfg client a) (recv_rounds cfg client b)
      (round cfg client opcode content l)
      (λ op c l' fewer. rounds-same cfg client a b op c l' (omega arith) (omega arith))
      (round-Fewer cfg client opcode content l)

-- The do loop of WSRecvMessage ends, whatever the peer sends: any number of rounds above the number of
-- bytes to come has the same result.
pub recv_message-ends :
    (cfg : Config) (client : Bool) (rounds : ℕ) (l : Link)
    → pending l < rounds
    → recv_rounds cfg client rounds 0 [] l ≡ recv_message cfg client l
unfolding recv_message
recv_message-ends cfg client rounds l enough =
    rounds-same cfg client rounds _ 0 [] l enough (omega arith)
