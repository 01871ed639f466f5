-- ===== src/ByteArray/Fixed.antt =====
-- The fixed-width integers of bytearray.cc, with endian.h. A signed integer is its bit pattern.
pub mod RoundTrip
use cpp_linux_server.Base.{
  ℕ, zero, suc, ◌+◌, ◌*◌, ◌/◌, ◌%◌, ◌^◌, ◌≤◌, ◌<◌, ◌≡◌, refl, ap, sym, ◌∙◌, List, [], ◌∷◌, ◌++◌,
  reverse, length, arith,
}
use cpp_linux_server.ByteArray.{
  ByteArray, M, Endian, little_endian, big_endian, ret, return, write, read, ◌>>=◌,
}

-- The bytes of a w-byte integer in the memory of a little-endian host, and back.
unfoldable pub to_bytes : ℕ → ℕ → List ℕ
to_bytes zero v = []
to_bytes (suc w) v = (v % 256) ∷ to_bytes w (v / 256)

unfoldable pub of_bytes : List ℕ → ℕ
of_bytes [] = 0
of_bytes (b ∷ bs) = b + 256 * of_bytes bs

-- byteswap of a w-byte integer, by bswap_16, bswap_32 or bswap_64.
unfoldable pub byteswap : ℕ → ℕ → ℕ
unfolding to_bytes of_bytes
byteswap w v = of_bytes (reverse (to_bytes w v))

-- CHAT_BYTE_ORDER of the hosts that fcontext, libco and libaco support.
abbrev pub host_order : Endian
host_order = little_endian

-- `if(m_endian != CHAT_BYTE_ORDER) value = byteswap(value)`
unfoldable pub to_order : ℕ → Endian → ℕ → ℕ
unfolding byteswap
to_order w little_endian v = v
to_order w big_endian v = byteswap w v

unfoldable pub write_fuint8 : ℕ → M (Unit {0})
write_fuint8 v = write (to_bytes 1 v)

-- The body that the wider write functions share.
unfoldable pub write_fuint : ℕ → ℕ → M (Unit {0})
write_fuint w v ba = write (to_bytes w (to_order w ba.endian v)) ba

unfoldable pub write_fuint16 : ℕ → M (Unit {0})
write_fuint16 = write_fuint 2

unfoldable pub write_fuint32 : ℕ → M (Unit {0})
write_fuint32 = write_fuint 4

unfoldable pub write_fuint64 : ℕ → M (Unit {0})
write_fuint64 = write_fuint 8

-- The macro XX of the read functions.
unfoldable pub read_fuint : ℕ → M ℕ
read_fuint w = do bytes ← read w; λ ba. ret (to_order w ba.endian (of_bytes bytes)) ba

unfoldable pub read_fuint8 : M ℕ
read_fuint8 = do bytes ← read 1; return (of_bytes bytes)

unfoldable pub read_fuint16 : M ℕ
read_fuint16 = read_fuint 2

unfoldable pub read_fuint32 : M ℕ
read_fuint32 = read_fuint 4

unfoldable pub read_fuint64 : M ℕ
read_fuint64 = read_fuint 8
