-- ===== src/Http2/Hpack.antt =====
-- chat/http2/hpack.cc: header compression; here its prefixed integers.
--
-- The prefix is a number of bits from 1 to 8, as at every call of the source.
pub mod Varint
pub mod RoundTrip
pub mod Fields
pub mod Sync
mod Runs
use cpp_linux_server.Base.{
  ℕ, zero, suc, ◌+◌, ◌-◌, ◌*◌, ◌/◌, ◌%◌, ◌^◌, Bool, true, false, not, ltb, leb, ◌==◌, if◌then◌else◌,
  bit_and, bit_or,
}
use cpp_linux_server.ByteArray.{ByteArray, M, ret, fault, return, ◌>>=◌, ◌>>◌, get_read_size}
use cpp_linux_server.ByteArray.Fixed.{write_fuint8, read_fuint8}

-- `(1 << prefix) - 1`
abbrev pub mask : ℕ → ℕ
mask prefix = 2 ^ prefix - 1

-- The while loop of WriteVarInt and the byte behind it. A uint64_t takes at most ten rounds.
unfoldable pub write_tail : ℕ → ℕ → M (Unit {0})
write_tail zero value = write_fuint8 (value % 256)
write_tail (suc rounds) value =
    let more : M (Unit {0}) = write_tail rounds (value / 2 ^ 7) in
    if leb 128 value
    then (write_fuint8 (bit_or 0x8 (bit_and value 0x7f)) >> more)
    else write_fuint8 (value % 256)

-- WriteVarInt, less the count of bytes that it returns.
unfoldable pub write_varint : ℕ → ℕ → ℕ → M (Unit {0})
write_varint prefix value flags =
    if ltb value (mask prefix)
    then write_fuint8 (bit_or value flags % 256)
    else (write_fuint8 (bit_or (mask prefix) flags % 256) >> write_tail 10 (value - mask prefix))

-- The do loop of ReadVarInt, on a uint64_t; it is left when the bytes are, by their exception. A
-- shift by 64 or more is undefined.
unfoldable pub read_tail : ℕ → ℕ → ℕ → M ℕ
read_tail zero iv m = λ ba. fault
read_tail (suc rounds) iv m = do
  b ← read_fuint8
  let next = (iv + bit_and b 0x7f * 2 ^ m % 2 ^ 64) % 2 ^ 64
  let more = read_tail rounds next (m + 7)
  if bit_and b 0x80 == 0 then return next else more

-- ReadVarInt with the first byte at hand. Ten rounds shift by 0, 7, ..., 63.
unfoldable pub read_varint_from : ℕ → ℕ → M ℕ
read_varint_from prefix b =
    if ltb (bit_and b (mask prefix)) (mask prefix)
    then return (bit_and b (mask prefix))
    else read_tail 10 (bit_and b (mask prefix)) 0

-- ReadVarInt
unfoldable pub read_varint : ℕ → M ℕ
read_varint prefix = do b ← read_fuint8; read_varint_from prefix b
