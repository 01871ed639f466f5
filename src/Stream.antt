-- ===== src/Stream.antt =====
-- chat/stream.cc: reading and writing a fixed size over a stream that takes part of it at a time.
--
-- The socket below is a Link: what each read gives and what each write takes is up to the peer. A
-- result that is not positive, which every caller tests for, is `none` or false.
pub mod Delivery
mod Runs
use cpp_linux_server.Base.{
  ℕ, zero, suc, ◌+◌, ◌-◌, ◌%◌, ◌^◌, List, [], ◌∷◌, ◌++◌, length, take, drop, Bool, true, false, not,
  ◌&&◌, leb, ltb, ◌==◌, if◌then◌else◌, Option, none, some, min,
}

-- `incoming` has one segment for each arrival, where an empty segment is an error or the end;
-- `quota` is how many bytes the coming writes take at most, where the end of it is an error.
pub record Link : Type 0 where
  pub incoming : List (List ℕ)
  pub quota : List ℕ
  pub outgoing : List ℕ
  pub closed : Bool

-- What is left of the first segment stays in front.
abbrev pub unread : List ℕ → List (List ℕ) → List (List ℕ)
unread [] segments = segments
unread (b ∷ bs) segments = (b ∷ bs) ∷ segments

abbrev pub arrive : ℕ → List (List ℕ) → List ℕ × List (List ℕ)
arrive len [] = ([], [])
arrive len (s ∷ ss) = (take len s, unread (drop len s) ss)

-- read: at most `len` bytes of one segment.
unfoldable pub receive : ℕ → Link → List ℕ × Link
receive len l = let (got, ss) = arrive len l.incoming in (got, record l { incoming = ss })

abbrev pub accept : List ℕ → List ℕ → ℕ × List ℕ
accept bytes [] = (0, [])
accept bytes (q ∷ qs) = (min (length bytes) q, qs)

-- write: how many of the bytes are taken.
unfoldable pub transmit : List ℕ → Link → ℕ × Link
transmit bytes l =
    let (n, qs) = accept bytes l.quota in
    (n, record l { quota = qs; outgoing = l.outgoing ++ take n bytes })

abbrev pub prefixed : List ℕ → Option (List ℕ) × Link → Option (List ℕ) × Link
prefixed got (none, l) = (none, l)
prefixed got (some more, l) = (some (got ++ more), l)

-- The loop of readFixSize on `left` bytes, with MAX_LEN. A round reads a byte at least, so `left`
-- rounds are enough.
unfoldable pub read_rounds : ℕ → ℕ → ℕ → Link → Option (List ℕ) × Link
read_rounds max_len zero left l = (if left == 0 then some [] else none, l)
read_rounds max_len (suc rounds) left l =
    let (got, l') = receive (min left max_len) l in
    let more : Option (List ℕ) × Link = read_rounds max_len rounds (left - length got) l' in
    if left == 0 then (some [], l) else if length got == 0 then (none, l') else prefixed got more

-- (int)length is positive.
abbrev pub positive_int : ℕ → Bool
positive_int size = ltb 0 (size % 2 ^ 32) && ltb (size % 2 ^ 32) (2 ^ 31)

-- What a caller that tests for a positive result sees.
abbrev pub checked : ℕ → Option (List ℕ) × Link → Option (List ℕ) × Link
checked size (r, l) = (if positive_int size then r else none, l)

-- readFixSize; as an int64_t, a size of 2^63 or more is negative, and nothing is read.
unfoldable pub read_fix_size : ℕ → ℕ → Link → Option (List ℕ) × Link
read_fix_size max_len size l =
    checked size (if leb (2 ^ 63) size then (some [], l) else read_rounds max_len size size l)

unfoldable pub write_rounds : ℕ → ℕ → List ℕ → Link → Bool × Link
write_rounds max_len zero bytes l = (length bytes == 0, l)
write_rounds max_len (suc rounds) bytes l =
    let (n, l') = transmit (take (min (length bytes) max_len) bytes) l in
    let more : Bool × Link = write_rounds max_len rounds (drop n bytes) l' in
    if length bytes == 0 then (true, l) else if n == 0 then (false, l') else more

-- writeFixSize of less than 2^31 bytes: whether the result is positive.
unfoldable pub write_fix_size : ℕ → List ℕ → Link → Bool × Link
write_fix_size max_len bytes l =
    let (ok, l') = write_rounds max_len (length bytes) bytes l in
    (ok && positive_int (length bytes), l')

unfoldable pub close : Link → Link
close l = record l { closed = true }
