-- ===== src/WebSocket.antt =====
-- chat/http/ws_session.h and ws_session.cc: the frames of a WebSocket and the messages in them.
--
-- rand() is an argument, as the four bytes of a masking key; the handshake and logging are left
-- out. A received message is its opcode and data, `none` the null pointer.
pub mod Frames
pub mod Fragments
pub mod Messages
mod Reads
pub mod Limits
pub mod Rounds
mod Runs
use cpp_linux_server.Base.{
  ℕ, zero, suc, ◌+◌, ◌-◌, ◌*◌, ◌/◌, ◌%◌, ◌^◌, List, [], ◌∷◌, ◌++◌, length, get_elem?, concat, Bool,
  true, false, not, ◌&&◌, leb, ltb, ◌==◌, if◌then◌else◌, Option, none, some, bit_xor,
}
use cpp_linux_server.ByteArray.Fixed.{to_bytes, of_bytes, byteswap}
use cpp_linux_server.Stream.{Link, read_fix_size, write_fix_size, close}

pub record Message : Type 0 where
  pub opcode : ℕ
  pub content : List ℕ

-- socket.buff_size, websocket.message.max_size (a uint32_t), and what a call of WSRecvMessage comes to that
-- writes outside of its data: the behaviour is undefined, so it is a parameter.
pub record Config : Type 0 where
  pub max_len : ℕ
  pub max_size : ℕ
  pub undefined : Link → Option Message × Link

pub record FrameHead : Type 0 where
  pub opcode : ℕ
  pub rsv3 : Bool
  pub rsv2 : Bool
  pub rsv1 : Bool
  pub fin : Bool
  pub payload : ℕ
  pub mask : Bool

abbrev pub bit : ℕ → Bool → ℕ
bit value b = if b then value else 0

-- The two bytes of the packed struct, the first field lowest.
unfoldable pub head_bytes : FrameHead → List ℕ
head_bytes h =
    (h.opcode % 16 + bit 16 h.rsv3 + bit 32 h.rsv2 + bit 64 h.rsv1 + bit 128 h.fin)
    ∷ (h.payload % 128 + bit 128 h.mask)
    ∷ []

abbrev pub bit_of : ℕ → ℕ → Bool
bit_of value b = not (b / value % 2 == 0)

unfoldable pub head_of : List ℕ → FrameHead
head_of [] = record {
  opcode = 0;
  rsv3 = false;
  rsv2 = false;
  rsv1 = false;
  fin = false;
  payload = 0;
  mask = false;
}
head_of (a ∷ []) = record {
  opcode = 0;
  rsv3 = false;
  rsv2 = false;
  rsv1 = false;
  fin = false;
  payload = 0;
  mask = false;
}
head_of (a ∷ b ∷ _) = record {
  opcode = a % 16;
  rsv3 = bit_of 16 a;
  rsv2 = bit_of 32 a;
  rsv1 = bit_of 64 a;
  fin = bit_of 128 a;
  payload = b % 128;
  mask = bit_of 128 b;
}

abbrev pub head : ℕ → Bool → ℕ → Bool → FrameHead
head opcode fin payload mask = record {
  opcode = opcode;
  rsv3 = false;
  rsv2 = false;
  rsv1 = false;
  fin = fin;
  payload = payload;
  mask = mask;
}

abbrev pub op_ping : ℕ
op_ping = 9

abbrev pub op_pong : ℕ
op_pong = 10

-- `mask[i % 4]`
abbrev pub key_at : List ℕ → ℕ → ℕ
key_at key i = elim (get_elem? key (i % 4)) [ none ↦ 0 | some k ↦ k ]

-- The xor loop over the data, from the index i on.
unfoldable pub mask_from : List ℕ → ℕ → List ℕ → List ℕ
mask_from key i [] = []
mask_from key i (b ∷ bs) = bit_xor b (key_at key i) ∷ mask_from key (suc i) bs

-- How a round of the do loop of WSRecvMessage ends: with a message, with the next round, by break, or with
-- a write outside of the data.
pub data Round : Type 0 where
  finished : Message → Link → Round
  going : ℕ → List ℕ → Link → Round
  broken : Link → Round
  overrun : Option Message × Link → Round

abbrev pub then_round : Option (List ℕ) × Link → (List ℕ → Link → Round) → Round
then_round (none, l) k = broken l
then_round (some bytes, l) k = k bytes l

-- `if(stream->readFixSize(...) <= 0) break;`
unfoldable pub with_bytes : Config → ℕ → Link → (List ℕ → Link → Round) → Round
with_bytes cfg size l k = then_round (read_fix_size cfg.max_len size l) k

-- The length by the payload field.
unfoldable pub with_length : Config → ℕ → Link → (ℕ → Link → Round) → Round
with_length cfg payload l k =
    if payload == 126
    then with_bytes cfg 2 l (λ bytes l'. k (byteswap 2 (of_bytes bytes)) l')
    else if payload == 127
    then with_bytes cfg 8 l (λ bytes l'. k (byteswap 8 (of_bytes bytes)) l')
    else k payload l

-- The masking key, where the frame has one.
unfoldable pub with_key : Config → Bool → Link → (List ℕ → Link → Round) → Round
with_key cfg true l k = with_bytes cfg 4 l k
with_key cfg false l k = k (0 ∷ 0 ∷ 0 ∷ 0 ∷ []) l

-- The first opcode that is not CONTINUE.
abbrev pub opcode_of : ℕ → ℕ → ℕ
opcode_of opcode op = if (opcode == 0) && not (op == 0) then op else opcode

-- The data behind the payload of a frame.
abbrev pub end_frame : FrameHead → ℕ → List ℕ → Link → Round
end_frame h opcode content l =
    if h.fin
    then finished (record { opcode = opcode_of opcode h.opcode; content = content }) l
    else going (opcode_of opcode h.opcode) content l

-- cur_len, an int that counts the data so far, converted to a uint64_t: from 2 ^ 31 bytes on it is negative.
unfoldable pub cur_len : List ℕ → ℕ
cur_len content =
    let n : ℕ = length content % 2 ^ 32 in if ltb n (2 ^ 31) then n else n + (2 ^ 64 - 2 ^ 32)

-- A frame of data, behind its head. Where cur_len is negative, `&data[cur_len]` is outside of the data.
unfoldable pub data_frame : Config → FrameHead → ℕ → List ℕ → Link → Round
data_frame cfg h opcode content l = with_length cfg h.payload l (λ size l₁.
    if leb cfg.max_size ((cur_len content + size) % 2 ^ 64)
    then broken l₁
    else with_key cfg h.mask l₁ (λ key l₂.
      if leb (2 ^ 31) (length content)
      then overrun (cfg.undefined l₂)
      else with_bytes cfg size l₂ (λ bytes l₃.
        end_frame h opcode (content ++ (if h.mask then mask_from key 0 bytes else bytes)) l₃)))

abbrev pub ponged : ℕ → List ℕ → Bool × Link → Round
ponged opcode content (true, l) = going opcode content l
ponged opcode content (false, l) = broken (close l)

-- WSPing and WSPong, which close the stream where they fail.
unfoldable pub ping : Config → Link → Bool × Link
ping cfg l =
    let (ok, l') = write_fix_size cfg.max_len (head_bytes (head op_ping true 0 false)) l in
    (ok, if ok then l' else close l')

unfoldable pub pong : Config → Link → Bool × Link
pong cfg l =
    let (ok, l') = write_fix_size cfg.max_len (head_bytes (head op_pong true 0 false)) l in
    (ok, if ok then l' else close l')

-- A round, behind the two bytes of the head.
unfoldable pub handle : Config → Bool → FrameHead → ℕ → List ℕ → Link → Round
handle cfg client h opcode content l =
    if h.opcode == op_ping
    then ponged opcode content (pong cfg l)
    else if h.opcode == op_pong
    then going opcode content l
    else if leb h.opcode 2
    then (if not client && not h.mask then broken l else data_frame cfg h opcode content l)
    else going opcode content l

unfoldable pub round : Config → Bool → ℕ → List ℕ → Link → Round
round cfg client opcode content l =
    with_bytes cfg 2 l (λ bytes l'. handle cfg client (head_of bytes) opcode content l')

-- What a round leads to, with `more` for the rounds behind it.
abbrev pub after : (ℕ → List ℕ → Link → Option Message × Link) → Round → Option Message × Link
after more (finished m l) = (some m, l)
after more (going opcode content l) = more opcode content l
after more (broken l) = (none, close l)
after more (overrun r) = r

-- The do loop, for as many rounds; each but the last reads two bytes at least.
unfoldable pub recv_rounds : Config → Bool → ℕ → ℕ → List ℕ → Link → Option Message × Link
recv_rounds cfg client zero opcode content l = (none, close l)
recv_rounds cfg client (suc rounds) opcode content l =
    after (recv_rounds cfg client rounds) (round cfg client opcode content l)

-- WSRecvMessage
unfoldable pub recv_message : Config → Bool → Link → Option Message × Link
recv_message cfg client l = recv_rounds cfg client (suc (length (concat l.incoming))) 0 [] l

-- The payload field of a size, and the length behind the head.
abbrev pub payload_field : ℕ → ℕ
payload_field size = if ltb size 126 then size else if ltb size 65536 then 126 else 127

abbrev pub length_bytes : ℕ → List ℕ
length_bytes size =
    if ltb size 126
    then []
    else if ltb size 65536
    then to_bytes 2 (byteswap 2 size)
    else to_bytes 8 (byteswap 8 size)

-- The next write, where those before it succeeded; none of nothing where `written` is false.
abbrev pub then_write : Config → Bool → List ℕ → Bool × Link → Bool × Link
then_write cfg true bytes (true, l) = write_fix_size cfg.max_len bytes l
then_write cfg false bytes (true, l) = (true, l)
then_write cfg needed bytes (false, l) = (false, l)

-- WSSendMessage: the size with the head, or `none` for -1; and what it leaves of the message, whose
-- data a client masks in place.
unfoldable pub send_message :
    Config → List ℕ → Message → Bool → Bool → Link → Option ℕ × Message × Link
send_message cfg key msg client fin l =
    let size : ℕ = length msg.content in
    let sent : List ℕ = if client then mask_from key 0 msg.content else msg.content in
    let h : FrameHead = head msg.opcode fin (payload_field size) client in
    let r₁ = write_fix_size cfg.max_len (head_bytes h) l in
    let r₂ = then_write cfg (not (ltb size 126)) (length_bytes size) r₁ in
    let r₃ = then_write cfg client key r₂ in
    let (ok, l') = then_write cfg true sent r₃ in
    (
      if ok then some (size + 2) else none,
      record msg { content = if r₂.0 then sent else msg.content },
      if ok then l' else close l',
    )
