-- ===== src/Stream/Runs.antt =====
-- Concrete links, and the theorems at concrete inputs.
use cpp_linux_server.Base.{◌≡◌, refl, [], ◌∷◌, false, none, some, arith}
use cpp_linux_server.Stream.{
  Link, receive, transmit, read_rounds, read_fix_size, write_rounds, write_fix_size,
}
use cpp_linux_server.Stream.Delivery.{Received, Sent, read_fix_size-Received, write_fix_size-Sent}

-- Six bytes in three pieces, then an error.
abbrev pieces : Link
pieces = record {
  incoming = (1 ∷ []) ∷ (2 ∷ 3 ∷ 4 ∷ []) ∷ (5 ∷ 6 ∷ []) ∷ [];
  quota = 2 ∷ 1 ∷ 9 ∷ [];
  outgoing = 7 ∷ [];
  closed = false;
}

-- Four bytes at most two at a time; then more than there are.
four_bytes : (read_fix_size 2 4 pieces).0 ≡ some (1 ∷ 2 ∷ 3 ∷ 4 ∷ [])
unfolding read_fix_size read_rounds receive
four_bytes = refl

seven_bytes : (read_fix_size 2 7 pieces).0 ≡ none
unfolding read_fix_size read_rounds receive
seven_bytes = refl

three_written : (write_fix_size 9 (1 ∷ 2 ∷ 3 ∷ []) pieces).1.outgoing ≡ 7 ∷ 1 ∷ 2 ∷ 3 ∷ []
unfolding write_fix_size write_rounds transmit
three_written = refl

read_fix_size-Received_example : Received 4 pieces (read_fix_size 2 4 pieces)
read_fix_size-Received_example =
    read_fix_size-Received 2 4 pieces (omega arith) (omega arith) (omega arith)
      (omega arith, (omega arith, (omega arith, tt))) (omega arith)

write_fix_size-Sent_example :
    Sent (1 ∷ 2 ∷ 3 ∷ []) pieces (write_fix_size 9 (1 ∷ 2 ∷ 3 ∷ []) pieces)
write_fix_size-Sent_example =
    write_fix_size-Sent 9 (1 ∷ 2 ∷ 3 ∷ []) pieces (omega arith) (omega arith) (omega arith)
      ((omega arith, (omega arith, (omega arith, tt))), omega arith)
