-- ===== src/WebSocket/Runs.antt =====
-- A client and a server at concrete inputs.
use cpp_linux_server.Base.{ℕ, ◌≡◌, refl, sym, List, [], ◌∷◌, length, true, false, none, some, arith}
use cpp_linux_server.Stream.{
  Link, receive, transmit, read_rounds, read_fix_size, write_rounds, write_fix_size,
}
use cpp_linux_server.Stream.Delivery.{IsWilling}
use cpp_linux_server.WebSocket.{
  Config, Message, head_bytes, head_of, mask_from, with_bytes, with_length, with_key, data_frame,
  cur_len, pong, handle, round, recv_rounds, recv_message, send_message,
}
use cpp_linux_server.WebSocket.Frames.{frame}
use cpp_linux_server.WebSocket.Fragments.{Fragment, IsFragment}
use cpp_linux_server.WebSocket.Rounds.{recv_message-ends}
use cpp_linux_server.WebSocket.Limits.{Bounded, recv_message-Bounded}
use cpp_linux_server.WebSocket.Messages.{
  send_message-empty, frames, contents, Delivered, send_fragments, send_fragments-recv_message,
}

abbrev limits : Config
limits = record { max_len = 1024; max_size = 1000; undefined = λ l. (none, l) }

-- A text in two fragments.
abbrev hel : Fragment
hel = record { key = 9 ∷ 200 ∷ 0 ∷ 255 ∷ []; opcode = 1; content = 104 ∷ 101 ∷ 108 ∷ [] }

abbrev lo : Fragment
lo = record { key = 1 ∷ 2 ∷ 3 ∷ 4 ∷ []; opcode = 0; content = 108 ∷ 111 ∷ [] }

abbrev bytes_per_write : List ℕ
bytes_per_write = 1 ∷ 1 ∷ 1 ∷ 1 ∷ 1 ∷ 1 ∷ 1 ∷ 1 ∷ 1 ∷ 1 ∷ 1 ∷ 1 ∷ 1 ∷ 1 ∷ 1 ∷ 1 ∷ 1 ∷ 1 ∷ []

abbrev out : Link
out = record { incoming = []; quota = bytes_per_write; outgoing = []; closed = false }

abbrev wire : List ℕ
wire = 1 ∷ 131 ∷ 9 ∷ 200 ∷ 0 ∷ 255 ∷ 97 ∷ 173 ∷ 108 ∷ 128 ∷ 130 ∷ 1 ∷ 2 ∷ 3 ∷ 4 ∷ 109 ∷ 109 ∷ []

sent_wire : (send_fragments limits true hel (lo ∷ []) out).outgoing ≡ wire
unfolding send_fragments send_message write_fix_size write_rounds transmit head_bytes mask_from
sent_wire = refl

abbrev into : Link
into = record { incoming = wire ∷ []; quota = []; outgoing = []; closed = false }

hel-IsFragment : IsFragment hel
hel-IsFragment = record {
  four = refl;
  key_bytes = (omega arith, (omega arith, (omega arith, (omega arith, tt))));
  data_opcode = omega arith;
  some_data = omega arith;
  data_bytes = (omega arith, (omega arith, (omega arith, tt)));
}

lo-IsFragment : IsFragment lo
lo-IsFragment = record {
  four = refl;
  key_bytes = (omega arith, (omega arith, (omega arith, (omega arith, tt))));
  data_opcode = omega arith;
  some_data = omega arith;
  data_bytes = (omega arith, (omega arith, tt));
}

willing : IsWilling (length (frames true hel (lo ∷ []))) out
unfolding frames frame head_bytes mask_from
willing = (
  (
    omega arith,
    (
      omega arith,
      (
        omega arith,
        (
          omega arith,
          (
            omega arith,
            (
              omega arith,
              (
                omega arith,
                (
                  omega arith,
                  (
                    omega arith,
                    (
                      omega arith,
                      (
                        omega arith,
                        (
                          omega arith,
                          (
                            omega arith,
                            (
                              omega arith,
                              (omega arith, (omega arith, (omega arith, (omega arith, tt)))),
                            ),
                          ),
                        ),
                      ),
                    ),
                  ),
                ),
              ),
            ),
          ),
        ),
      ),
    ),
  ),
  omega arith,
)

send_fragments-recv_message_example :
    Delivered
      (record { opcode = 1; content = contents (hel ∷ lo ∷ []) })
      []
      into
      (recv_message limits false into)
send_fragments-recv_message_example =
    send_fragments-recv_message limits limits true hel (lo ∷ []) out into (omega arith)
      (omega arith) (omega arith) (hel-IsFragment, (lo-IsFragment, tt))
      (λ e. absurd (omega (arith, e))) (omega arith) refl willing (omega arith, tt) (sym sent_wire)

abbrev text : Message
text = record { opcode = 1; content = 104 ∷ 105 ∷ [] }

send_message-empty_example :
    ((send_message limits
        (1 ∷ 2 ∷ 3 ∷ 4 ∷ [])
        (record { opcode = 1; content = [] })
        false
        true
        out).0
      ≡ none)
    × ((send_message limits
          (1 ∷ 2 ∷ 3 ∷ 4 ∷ [])
          (record { opcode = 1; content = [] })
          false
          true
          out).2.closed
        ≡ true)
send_message-empty_example = send_message-empty limits (1 ∷ 2 ∷ 3 ∷ 4 ∷ []) 1 false true out

recv_message-Bounded_example : Bounded 1000 (recv_message limits false into)
recv_message-Bounded_example = recv_message-Bounded limits false into (omega arith) (omega arith)

-- The data of a client's message are masked in place.
masked_in_place :
    (send_message limits (1 ∷ 2 ∷ 3 ∷ 4 ∷ []) text true true out).1.content ≡ 105 ∷ 107 ∷ []
unfolding send_message write_fix_size write_rounds transmit head_bytes mask_from
masked_in_place = refl

-- A PING with the two bytes of data 129 and 1, which are taken for the head of a text.
ping_data :
    (recv_message limits true
      (record into { incoming = (137 ∷ 2 ∷ 129 ∷ 1 ∷ 65 ∷ []) ∷ []; quota = 2 ∷ [] })).0
    ≡ some (record { opcode = 1; content = 65 ∷ [] })
unfolding recv_message recv_rounds round handle pong data_frame cur_len with_bytes with_length
    with_key read_fix_size read_rounds receive write_fix_size write_rounds transmit head_bytes
    head_of
ping_data = refl

recv_message-ends_example : recv_rounds limits false 100 0 [] into ≡ recv_message limits false into
recv_message-ends_example = recv_message-ends limits false 100 into (omega arith)
