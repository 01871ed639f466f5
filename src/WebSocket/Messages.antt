-- ===== src/WebSocket/Messages.antt =====
-- Messages between a client and a server: WSSendMessage for each fragment, WSRecvMessage for all.
use cpp_linux_server.Base.{
  ℕ, zero, suc, ◌+◌, ◌^◌, ◌≤◌, ◌<◌, ◌≡◌, ◌≢◌, lt→==, refl, ap, ◌∙◌, List, [], ◌∷◌, ◌++◌, length,
  Bool, true, false, not, if◌then◌else◌, Option, none, some, All, arith, concat, append_assoc,
  append-nil, length-append,
}
use cpp_linux_server.Stream.{Link, close}
use cpp_linux_server.Stream.Delivery.{IsOpen, IsWilling, fix_size_zero}
use cpp_linux_server.WebSocket.{
  Config, Message, opcode_of, after, recv_rounds, recv_message, send_message, Round, head_bytes,
  then_write, mask_from,
}
use cpp_linux_server.WebSocket.Frames.{frame, send_message-SentFrame}
use cpp_linux_server.WebSocket.Fragments.{At, Fragment, IsFragment, arrived, round-then}

-- The frames of a message, of which the last is marked.
unfoldable pub frames : Bool → Fragment → List Fragment → List ℕ
frames masked f [] = frame masked f.key f.opcode true f.content
frames masked f (g ∷ gs) = frame masked f.key f.opcode false f.content ++ frames masked g gs

-- The message in fragments, of which `opcode` and `content` came before.
unfoldable pub message_from : ℕ → List ℕ → List Fragment → Message
message_from opcode content [] = record { opcode = opcode; content = content }
message_from opcode content (f ∷ fs) =
    message_from (opcode_of opcode f.opcode) (content ++ f.content) fs

abbrev pub total : List Fragment → ℕ
total [] = 0
total (f ∷ fs) = length f.content + total fs

-- The message was received, and the bytes behind it are still to be read.
pub record Delivered (m : Message) (rest : List ℕ) (l : Link) (r : Option Message × Link)
    : Type 0 where
  pub message_eq : r.0 ≡ some m
  pub left : At rest l r.1

recv_rounds-Delivered :
    (cfg : Config) (client : Bool) (rounds : ℕ) (f : Fragment) (fs : List Fragment) (opcode : ℕ)
    (content rest : List ℕ) (l₀ l : Link)
    → 0 < cfg.max_len
    → cfg.max_size < 2 ^ 31
    → All IsFragment (f ∷ fs)
    → length fs < rounds
    → length content + total (f ∷ fs) < cfg.max_size
    → At (frames (not client) f fs ++ rest) l₀ l
    → Delivered
        (message_from opcode content (f ∷ fs))
        rest
        l₀
        (recv_rounds cfg client rounds opcode content l)
unfolding recv_rounds frames message_from arrived
recv_rounds-Delivered cfg client zero f fs opcode content rest l₀ l pos limit ok enough fits a =
    absurd (omega arith)
recv_rounds-Delivered cfg client (suc rounds) f [] opcode content rest l₀ l pos limit ok enough fits
      a =
    round-then
      (λ (r : Round).
        Delivered (message_from opcode content (f ∷ [])) rest l₀
          (after (recv_rounds cfg client rounds) r))
      cfg client true f opcode content rest l₀ l pos limit ok.0 (omega arith) a
      (λ l' b. record { message_eq = refl; left = b })
recv_rounds-Delivered cfg client (suc rounds) f (g ∷ gs) opcode content rest l₀ l pos limit ok
      enough fits a =
    round-then
      (λ (r : Round).
        Delivered (message_from opcode content (f ∷ g ∷ gs)) rest l₀
          (after (recv_rounds cfg client rounds) r))
      cfg client false f opcode content (frames (not client) g gs ++ rest) l₀ l pos limit ok.0
      (omega arith)
      (rw
        (append_assoc (frame (not client) f.key f.opcode false f.content) (frames (not client) g gs)
          rest)
        at a)
      (λ l' b.
        recv_rounds-Delivered cfg client rounds g gs (opcode_of opcode f.opcode)
          (content ++ f.content) rest l₀ l' pos limit ok.1 (omega arith)
          (omega (arith, length-append {0} content f.content)) b)

-- The data of the fragments, in order.
unfoldable pub contents : List Fragment → List ℕ
contents [] = []
contents (f ∷ fs) = f.content ++ contents fs

message_from_lem :
    (opcode : ℕ) (content : List ℕ) (fs : List Fragment)
    → opcode ≢ 0
    → message_from opcode content fs ≡ record { opcode = opcode; content = content ++ contents fs }
unfolding message_from contents
message_from_lem opcode content [] h = rw (append-nil content) refl
message_from_lem opcode content (f ∷ fs) h =
    rw
      (
        kept opcode f.opcode h,
        message_from_lem opcode (content ++ f.content) fs h,
        append_assoc content f.content (contents fs),
      )
      refl
  where
    kept : (n op : ℕ) → n ≢ 0 → opcode_of n op ≡ n
    kept zero op h = absurd (h refl)
    kept (suc n) op h = rw (lt→== 0 (suc n) (omega arith)) refl

opcode_of-first : (op : ℕ) → opcode_of 0 op ≡ op
opcode_of-first zero = refl
opcode_of-first (suc op) = rw (lt→== 0 (suc op) (omega arith)) refl

first :
    (f : Fragment) (fs : List Fragment)
    → f.opcode ≢ 0
    → message_from 0 [] (f ∷ fs) ≡ record { opcode = f.opcode; content = contents (f ∷ fs) }
unfolding message_from contents
first f fs h = rw (opcode_of-first f.opcode) (message_from_lem f.opcode f.content fs h)

length-frame :
    (masked : Bool) (key : List ℕ) (opcode : ℕ) (fin : Bool) (content : List ℕ)
    → 1 ≤ length (frame masked key opcode fin content)
unfolding frame head_bytes
length-frame masked key opcode fin content = omega arith

length-frames :
    (masked : Bool) (f : Fragment) (fs : List Fragment) → length fs ≤ length (frames masked f fs)
unfolding frames
length-frames masked f [] = omega arith
length-frames masked f (g ∷ gs) = omega (
  arith,
  length-append {0} (frame masked f.key f.opcode false f.content) (frames masked g gs),
  length-frame masked f.key f.opcode false f.content,
  length-frames masked g gs,
)

-- WSRecvMessage where the frames of a message have arrived, in whatever pieces: a first frame with the
-- opcode of a text or binary message, further frames, masked where the receiver is the server, at
-- least a byte of data in each, and in all less than the limit, which is below 2^31. The result has the
-- opcode of the first and the data of all, in order; the bytes behind the last stay.
pub recv_message-Delivered :
    (cfg : Config) (client : Bool) (f : Fragment) (fs : List Fragment) (rest : List ℕ) (l : Link)
    → 0 < cfg.max_len
    → cfg.max_size < 2 ^ 31
    → All IsFragment (f ∷ fs)
    → f.opcode ≢ 0
    → total (f ∷ fs) < cfg.max_size
    → IsOpen l
    → concat l.incoming ≡ frames (not client) f fs ++ rest
    → Delivered
        (record { opcode = f.opcode; content = contents (f ∷ fs) })
        rest
        l
        (recv_message cfg client l)
unfolding recv_message
recv_message-Delivered cfg client f fs rest l pos limit ok some_opcode fits o e =
    rw (← first f fs some_opcode) (
      recv_rounds-Delivered cfg client _ f fs 0 [] rest l l pos limit ok
        (omega (
          arith,
          ap length e,
          length-append {0} (frames (not client) f fs) rest,
          length-frames (not client) f fs,
        ))
        (omega arith) (record { rest_eq = e; is_open = o; outgoing_eq = refl; closed_eq = refl }))

-- The calls of sendMessage for the fragments of a message.
unfoldable pub send_fragments : Config → Bool → Fragment → List Fragment → Link → Link
send_fragments cfg client f [] l =
    (send_message cfg f.key (record { opcode = f.opcode; content = f.content }) client true l).2
send_fragments cfg client f (g ∷ gs) l =
    send_fragments cfg client g gs
      (send_message cfg f.key (record { opcode = f.opcode; content = f.content }) client false l).2

send_fragments-frames :
    (cfg : Config) (client : Bool) (f : Fragment) (fs : List Fragment) (l : Link)
    → 0 < cfg.max_len
    → All IsFragment (f ∷ fs)
    → total (f ∷ fs) < 2 ^ 31
    → IsWilling (length (frames client f fs)) l
    → (send_fragments cfg client f fs l).outgoing ≡ l.outgoing ++ frames client f fs
unfolding send_fragments frames
send_fragments-frames cfg client f [] l pos ok small w =
    (send_message-SentFrame cfg f.key (record { opcode = f.opcode; content = f.content }) client
      true l pos ok.0.four ok.0.some_data (omega arith) w).outgoing_eq
send_fragments-frames cfg client f (g ∷ gs) l pos ok small w =
    let bytes : List ℕ = frame client f.key f.opcode false f.content in
    let long : length (bytes ++ frames client g gs) ≡ length bytes + length (frames client g gs) =
      length-append {0} bytes (frames client g gs) in
    let s =
      send_message-SentFrame cfg f.key (record { opcode = f.opcode; content = f.content }) client
        false l pos ok.0.four ok.0.some_data (omega arith) (w.0, omega (arith, w.1, long)) in
    send_fragments-frames cfg client g gs _ pos ok.1 (omega arith)
      (s.willing, omega (arith, w.1, long, s.cost))
    ∙ ap (λ (ys : List ℕ). ys ++ frames client g gs) s.outgoing_eq
    ∙ append_assoc l.outgoing bytes (frames client g gs)

-- A client and a server, either way round. One side sends a message in fragments, each with at least a
-- byte of data and the first with the opcode of a text or binary message, over a link that takes a byte
-- at least at each write; the bytes arrive at the other side in any pieces, and the data of all are less
-- than its limit, which is below 2^31. It receives the opcode of the first fragment and the data of all,
-- in order, and nothing is left to read.
pub send_fragments-recv_message :
    (cfg cfg' : Config) (client : Bool) (f : Fragment) (fs : List Fragment) (out into : Link)
    → 0 < cfg.max_len
    → 0 < cfg'.max_len
    → cfg'.max_size < 2 ^ 31
    → All IsFragment (f ∷ fs)
    → f.opcode ≢ 0
    → total (f ∷ fs) < cfg'.max_size
    → out.outgoing ≡ []
    → IsWilling (length (frames client f fs)) out
    → IsOpen into
    → concat into.incoming ≡ (send_fragments cfg client f fs out).outgoing
    → Delivered
        (record { opcode = f.opcode; content = contents (f ∷ fs) })
        []
        into
        (recv_message cfg' (not client) into)
send_fragments-recv_message cfg cfg' client f fs out into pos pos' limit ok some_opcode fits fresh w
      o e =
    recv_message-Delivered cfg' (not client) f fs [] into pos' limit ok some_opcode fits o (
      e
      ∙ send_fragments-frames cfg client f fs out pos ok (omega arith) w
      ∙ rw (fresh, other client, append-nil (frames client f fs)) refl)
  where
    other : (b : Bool) → not (not b) ≡ b
    other true = refl
    other false = refl

-- A write of nothing fails, wherever it comes.
then_write-empty :
    (cfg : Config) (bytes : List ℕ) (r : Bool × Link)
    → bytes ≡ []
    → (then_write cfg true bytes r).0 ≡ false
then_write-empty cfg bytes (false, l) e = refl
then_write-empty cfg bytes (true, l) e = rw e (fix_size_zero cfg.max_len l).1

failed :
    (size : ℕ) (m : Message) (r : Bool × Link)
    → r.0 ≡ false
    → ((if r.0 then some size else none) ≡ none) × ((if r.0 then r.1 else close r.1).closed ≡ true)
unfolding close
failed size m (true, l) e = absurd (cc e)
failed size m (false, l) e = (refl, refl)

-- WSSendMessage of a message without data, whatever the link takes: -1, and the stream is closed.
pub send_message-empty :
    (cfg : Config) (key : List ℕ) (opcode : ℕ) (client fin : Bool) (l : Link)
    → ((send_message cfg key (record { opcode = opcode; content = [] }) client fin l).0 ≡ none)
      × ((send_message cfg key (record { opcode = opcode; content = [] }) client fin l).2.closed
          ≡ true)
unfolding send_message
send_message-empty cfg key opcode client fin l =
    failed 2 (record { opcode = opcode; content = [] }) _
      (then_write-empty cfg _ _ (nothing client))
  where
    nothing : (b : Bool) → (if b then mask_from key 0 [] else []) ≡ []
    nothing true = unfold mask_from in refl
    nothing false = refl
