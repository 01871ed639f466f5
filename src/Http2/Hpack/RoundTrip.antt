-- ===== src/Http2/Hpack/RoundTrip.antt =====
-- Which values survive WriteVarInt and ReadVarInt.
use cpp_linux_server.Base.{
  ℕ, ◌+◌, ◌-◌, ◌*◌, ◌/◌, ◌%◌, ◌^◌, ◌≤◌, ◌<◌, ◌≡◌, refl, ap, ◌∙◌, List, [], ◌∷◌, ◌++◌, length,
  bit_and, bit_or, arith, le-cases, inl, inr, lt→ltb, le→ltb, lt→leb, le→leb, subst,
}
use cpp_linux_server.ByteArray.{ByteArray, ret}
use cpp_linux_server.ByteArray.Stream.{view}
use cpp_linux_server.ByteArray.Effects.{IsNetwork, Read, Reads}
use cpp_linux_server.Http2.Hpack.{mask, read_varint}
use cpp_linux_server.Http2.Hpack.Varint.{
  prefixed_bytes, tail_bytes, IsPrefix, Reads-one, Reads-two, marked_lt,
}

Reads-short :
    (prefix f value : ℕ)
    → IsPrefix prefix f
    → value < mask prefix + 128
    → Reads (prefixed_bytes prefix value (f * 2 ^ prefix)) value (read_varint prefix)
Reads-short prefix f value v small = elim (le-cases (mask prefix) value) [
  | inr fits ↦ rw (lt→ltb value (mask prefix) fits) (Reads-one prefix f value v fits)
  | inl full ↦
      let rest : ℕ = value - mask prefix in
      let byte : rest % 256 ≡ rest = omega arith in
      let sum : mask prefix + rest ≡ value = omega arith in
      rw (le→ltb value (mask prefix) full, lt→leb 128 rest (omega arith), byte)
        (subst
          (λ x.
            Reads (bit_or (mask prefix) (f * 2 ^ prefix) % 256 ∷ rest ∷ []) x (read_varint prefix))
          sum (Reads-two prefix f rest v (omega arith)))
]

-- A value below 2^prefix - 1 + 128, written behind flags that leave the prefix free, is read back,
-- where its bytes stand behind the cursor, short of the end of the capacity.
pub read_varint-prefixed_bytes :
    (prefix f value : ℕ) (rest : List ℕ) (ba : ByteArray)
    → IsPrefix prefix f
    → value < mask prefix + 128
    → IsNetwork ba
    → (view ba).after ≡ prefixed_bytes prefix value (f * 2 ^ prefix) ++ rest
    → ba.position + length (prefixed_bytes prefix value (f * 2 ^ prefix)) < ba.capacity
    → (ba' : ByteArray) × (read_varint prefix ba ≡ ret value ba')
      × Read (prefixed_bytes prefix value (f * 2 ^ prefix)) rest ba ba'
read_varint-prefixed_bytes prefix f value rest ba v small n e room =
    Reads-short prefix f value v small ba rest n e room

-- The bytes of a larger value: the second has no continuation bit.
large_bytes :
    (prefix f value : ℕ)
    → mask prefix + 128 ≤ value
    → prefixed_bytes prefix value (f * 2 ^ prefix)
      ≡ bit_or (mask prefix) (f * 2 ^ prefix) % 256
        ∷ bit_or 0x8 (bit_and (value - mask prefix) 0x7f)
        ∷ tail_bytes 9 ((value - mask prefix) / 2 ^ 7)
large_bytes prefix f value large =
    rw (le→ltb value (mask prefix) (omega arith), le→leb 128 (value - mask prefix) (omega arith))
      refl

-- A value from 2^prefix - 1 + 128 on is never read back: ReadVarInt stops at the second byte, and
-- what it returns is smaller.
pub read_varint-smaller :
    (prefix f value : ℕ) (rest : List ℕ) (ba : ByteArray)
    → IsPrefix prefix f
    → mask prefix + 128 ≤ value
    → IsNetwork ba
    → (view ba).after ≡ prefixed_bytes prefix value (f * 2 ^ prefix) ++ rest
    → ba.position + 2 < ba.capacity
    → (got : ℕ) × (ba' : ByteArray) × (read_varint prefix ba ≡ ret got ba') × (got < value)
read_varint-smaller prefix f value rest ba v large n e room =
    let c : ℕ = bit_or 0x8 (bit_and (value - mask prefix) 0x7f) in
    let here : (view ba).after
        ≡ bit_or (mask prefix) (f * 2 ^ prefix) % 256
          ∷ c
          ∷ (tail_bytes 9 ((value - mask prefix) / 2 ^ 7) ++ rest) =
      e ∙ ap (λ (bs : List ℕ). bs ++ rest) (large_bytes prefix f value large) in
    let (ba', r, _) =
      Reads-two prefix f c v (marked_lt (value - mask prefix)) ba
        (tail_bytes 9 ((value - mask prefix) / 2 ^ 7) ++ rest) n here room in
    (mask prefix + c, ba', r, omega (arith, marked_lt (value - mask prefix)))
