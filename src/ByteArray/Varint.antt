-- ===== src/ByteArray/Varint.antt =====
-- The variable-length integers, zigzag integers and strings of bytearray.cc.
pub mod RoundTrip
pub mod Zigzag
pub mod Strings
use cpp_linux_server.Base.{
  ℕ, zero, suc, ◌+◌, ◌-◌, ◌*◌, ◌/◌, ◌%◌, ◌^◌, List, [], ◌∷◌, length, ltb, leb, if◌then◌else◌,
  Option, none, some, bit_and, bit_or, bit_xor,
}
use cpp_linux_server.ByteArray.{ByteArray, M, return, fault, write, read, ◌>>=◌, ◌>>◌}
use cpp_linux_server.ByteArray.Fixed.{
  read_fuint8, write_fuint, write_fuint16, write_fuint32, write_fuint64, read_fuint16, read_fuint32,
  read_fuint64,
}

abbrev prepend : ℕ → Option (List ℕ) → Option (List ℕ)
prepend b none = none
prepend b (some bs) = some (b ∷ bs)

-- The loop that fills `tmp`, whose size is the fuel: `none` is a write behind its end.
unfoldable pub varint_bytes : ℕ → ℕ → Option (List ℕ)
varint_bytes zero v = none
varint_bytes (suc room) v =
    let rest : Option (List ℕ) = varint_bytes room (v / 128) in
    if leb 0x80 v then prepend (bit_or (bit_and v 0x7f) 0x80) rest else some ((v % 256) ∷ [])

abbrev put : Option (List ℕ) → M (Unit {0})
put none ba = fault
put (some bs) ba = write bs ba

unfoldable pub write_uint32 : ℕ → M (Unit {0})
write_uint32 v = put (varint_bytes 5 v)

unfoldable pub write_uint64 : ℕ → M (Unit {0})
write_uint64 v = put (varint_bytes 10 v)

-- `x << i` in an integer of w bits.
abbrev pub shl : ℕ → ℕ → ℕ → ℕ
shl w x i = x * 2 ^ i % 2 ^ w

-- `for(i = 0; i < w; i += 7)`, by the rounds that are left.
unfoldable pub read_varint : ℕ → ℕ → ℕ → ℕ → M ℕ
read_varint w zero i result = return result
read_varint w (suc rounds) i result = do
  b ← read_fuint8
  let more = read_varint w rounds (i + 7) (bit_or result (shl w (bit_and b 0x7f) i))
  if ltb b 0x80 then return (bit_or result (shl w b i)) else more

unfoldable pub read_uint32 : M ℕ
read_uint32 = read_varint 32 5 0 0

unfoldable pub read_uint64 : M ℕ
read_uint64 = read_varint 64 10 0 0

-- EncodeZigzag32 and EncodeZigzag64 on bit patterns, with the wrap-around of the machine.
unfoldable pub encode_zigzag32 : ℕ → ℕ
encode_zigzag32 v =
    if leb (2 ^ 31) v then ((2 ^ 32 - v) % 2 ^ 32 * 2 + 2 ^ 32 - 1) % 2 ^ 32 else v * 2 % 2 ^ 32

unfoldable pub encode_zigzag64 : ℕ → ℕ
encode_zigzag64 v =
    if leb (2 ^ 63) v then ((2 ^ 64 - v) % 2 ^ 64 * 2 + 2 ^ 64 - 1) % 2 ^ 64 else v * 2 % 2 ^ 64

-- `(v >> 1) ^ -(v & 1)`
unfoldable pub decode_zigzag32 : ℕ → ℕ
decode_zigzag32 v = bit_xor (v / 2) ((2 ^ 32 - bit_and v 1) % 2 ^ 32)

unfoldable pub decode_zigzag64 : ℕ → ℕ
decode_zigzag64 v = bit_xor (v / 2) ((2 ^ 64 - bit_and v 1) % 2 ^ 64)

unfoldable pub write_int32 : ℕ → M (Unit {0})
write_int32 v = write_uint32 (encode_zigzag32 v)

unfoldable pub write_int64 : ℕ → M (Unit {0})
write_int64 v = write_uint64 (encode_zigzag64 v)

unfoldable pub read_int32 : M ℕ
read_int32 = do v ← read_uint32; return (decode_zigzag32 v)

unfoldable pub read_int64 : M ℕ
read_int64 = do v ← read_uint64; return (decode_zigzag64 v)

unfoldable pub write_string_f16 : List ℕ → M (Unit {0})
write_string_f16 s = do write_fuint16 (length s % 2 ^ 16); write s

unfoldable pub write_string_f32 : List ℕ → M (Unit {0})
write_string_f32 s = do write_fuint32 (length s % 2 ^ 32); write s

unfoldable pub write_string_f64 : List ℕ → M (Unit {0})
write_string_f64 s = do write_fuint64 (length s % 2 ^ 64); write s

unfoldable pub write_string_vint : List ℕ → M (Unit {0})
write_string_vint s = do write_uint64 (length s % 2 ^ 64); write s

unfoldable pub write_string_without_length : List ℕ → M (Unit {0})
write_string_without_length s = write s

unfoldable pub read_string_f16 : M (List ℕ)
read_string_f16 = do n ← read_fuint16; read n

unfoldable pub read_string_f32 : M (List ℕ)
read_string_f32 = do n ← read_fuint32; read n

unfoldable pub read_string_f64 : M (List ℕ)
read_string_f64 = do n ← read_fuint64; read n

unfoldable pub read_string_vint : M (List ℕ)
read_string_vint = do n ← read_uint64; read n
