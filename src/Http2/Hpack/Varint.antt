-- ===== src/Http2/Hpack/Varint.antt =====
-- What ReadVarInt makes of the bytes of WriteVarInt.
use cpp_linux_server.Base.{
  ℕ, zero, suc, ◌+◌, ◌-◌, ◌*◌, ◌/◌, ◌%◌, ◌^◌, ◌≤◌, ◌<◌, ◌≡◌, ◌∙◌, List, [], ◌∷◌, ltb, leb,
  if◌then◌else◌, bit_and, bit_or, arith, le-cases, inl, inr, lt→ltb, le→ltb, lt→leb, le→leb, subst,
}
use cpp_linux_server.Base.Bits.{
  bit_or_shifted, bit_and_mask, pow_pos, bit_and-below, bit_or_lt, mod_shifted,
}
use cpp_linux_server.ByteArray.{return}
use cpp_linux_server.ByteArray.Fixed.{write_fuint8, read_fuint8}
use cpp_linux_server.ByteArray.Effects.{
  Writes, Reads, Writes-bind, Writes-fuint8, Reads-bind, Reads-return, Reads-fuint8,
}
use cpp_linux_server.Http2.Hpack.{
  mask, write_tail, write_varint, read_tail, read_varint_from, read_varint,
}

-- The bytes of WriteVarInt.
abbrev pub tail_bytes : ℕ → ℕ → List ℕ
tail_bytes zero value = value % 256 ∷ []
tail_bytes (suc rounds) value =
    let more : List ℕ = tail_bytes rounds (value / 2 ^ 7) in
    if leb 128 value then bit_or 0x8 (bit_and value 0x7f) ∷ more else value % 256 ∷ []

abbrev pub prefixed_bytes : ℕ → ℕ → ℕ → List ℕ
prefixed_bytes prefix value flags =
    if ltb value (mask prefix)
    then bit_or value flags % 256 ∷ []
    else bit_or (mask prefix) flags % 256 ∷ tail_bytes 10 (value - mask prefix)

low_bits :
    (prefix value f : ℕ)
    → value < 2 ^ prefix
    → value + f * 2 ^ prefix < 256
    → bit_and (bit_or value (f * 2 ^ prefix) % 256) (mask prefix) ≡ value
low_bits prefix value f h small =
    let joined : bit_or value (f * 2 ^ prefix) % 256 ≡ value + f * 2 ^ prefix =
      omega (arith, bit_or_shifted prefix value f h) in
    rw joined (bit_and_mask prefix (value + f * 2 ^ prefix) ∙ mod_shifted prefix value f h)

-- A byte that the loop of WriteVarInt puts has no continuation bit, for it sets 0x8.
pub marked_lt : (value : ℕ) → bit_or 0x8 (bit_and value 0x7f) < 128
marked_lt value =
    bit_or_lt 7 0x8 (bit_and value 0x7f) (omega arith) (omega (arith, bit_and_mask 7 value))

pub Writes-write_tail :
    (rounds value : ℕ) → Writes (tail_bytes rounds value) (write_tail rounds value)
unfolding write_tail
Writes-write_tail zero value = Writes-fuint8 (value % 256) (omega arith)
Writes-write_tail (suc rounds) value = elim (le-cases 128 value) [
  | inl large ↦ rw (le→leb 128 value large) (
      Writes-bind (write_fuint8 (bit_or 0x8 (bit_and value 0x7f)))
        (write_tail rounds (value / 2 ^ 7))
        (Writes-fuint8 (bit_or 0x8 (bit_and value 0x7f)) (omega (arith, marked_lt value)))
        (Writes-write_tail rounds (value / 2 ^ 7)))
  | inr small ↦ rw (lt→leb 128 value small) (Writes-fuint8 (value % 256) (omega arith))
]

pub Writes-write_varint :
    (prefix value flags : ℕ)
    → Writes (prefixed_bytes prefix value flags) (write_varint prefix value flags)
unfolding write_varint
Writes-write_varint prefix value flags = elim (le-cases (mask prefix) value) [
  | inl large ↦ rw (le→ltb value (mask prefix) large) (
      Writes-bind (write_fuint8 (bit_or (mask prefix) flags % 256))
        (write_tail 10 (value - mask prefix))
        (Writes-fuint8 (bit_or (mask prefix) flags % 256) (omega arith))
        (Writes-write_tail 10 (value - mask prefix)))
  | inr small ↦
      rw (lt→ltb value (mask prefix) small) (Writes-fuint8 (bit_or value flags % 256) (omega arith))
]

-- One byte without a continuation bit ends the loop of ReadVarInt.
Reads-read_tail : (iv c : ℕ) → c < 128 → iv < 256 → Reads (c ∷ []) (iv + c) (read_tail 10 iv 0)
unfolding read_tail
Reads-read_tail iv c small low = Reads-bind read_fuint8 _ (Reads-fuint8 c) (
    rw (bit_and-below 7 c small)
      (subst (λ x. Reads [] (iv + c) (return x)) sum (Reads-return (iv + c))))
  where
    sum : iv + c ≡ (iv + bit_and c 0x7f * 2 ^ 0 % 2 ^ 64) % 2 ^ 64
    sum = omega (arith, bit_and_mask 7 c)

-- The prefix is 1 to 8 bits, and the flags leave it free.
abbrev pub IsPrefix : ℕ → ℕ → Type 0
IsPrefix prefix f = (0 < prefix) × (prefix ≤ 8) × (mask prefix + f * 2 ^ prefix < 256)

pub Reads-one :
    (prefix f value : ℕ)
    → IsPrefix prefix f
    → value < mask prefix
    → Reads (bit_or value (f * 2 ^ prefix) % 256 ∷ []) value (read_varint prefix)
unfolding read_varint read_varint_from
Reads-one prefix f value v small =
    let low : bit_and (bit_or value (f * 2 ^ prefix) % 256) (mask prefix) ≡ value =
      low_bits prefix value f (omega (arith, v.2)) (omega (arith, v.2)) in
    Reads-bind read_fuint8 _ (Reads-fuint8 (bit_or value (f * 2 ^ prefix) % 256))
      (rw (low, lt→ltb value (mask prefix) small) (Reads-return value))

-- A full prefix and one byte more.
pub Reads-two :
    (prefix f c : ℕ)
    → IsPrefix prefix f
    → c < 128
    → Reads
        (bit_or (mask prefix) (f * 2 ^ prefix) % 256 ∷ c ∷ [])
        (mask prefix + c)
        (read_varint prefix)
unfolding read_varint read_varint_from
Reads-two prefix f c v small =
    let low : bit_and (bit_or (mask prefix) (f * 2 ^ prefix) % 256) (mask prefix) ≡ mask prefix =
      low_bits prefix (mask prefix) f (omega (arith, pow_pos prefix)) v.2 in
    Reads-bind read_fuint8 _ (Reads-fuint8 (bit_or (mask prefix) (f * 2 ^ prefix) % 256)) (
      rw (low, le→ltb (mask prefix) (mask prefix) (omega arith))
        (Reads-read_tail (mask prefix) c small (omega (arith, v.2))))
