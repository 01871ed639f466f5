-- ===== src/ByteArray/Varint/Zigzag.antt =====
-- The zigzag map and its inverse.
use cpp_linux_server.Base.{
  ℕ, ◌+◌, ◌-◌, ◌*◌, ◌/◌, ◌%◌, ◌^◌, ◌<◌, ◌≡◌, arith, inl, inr, le-cases, le→leb, lt→leb, bit_and,
}
use cpp_linux_server.Base.Bits.{bit_and_mask, bit_xor_ones, bit_xor-zero}
use cpp_linux_server.ByteArray.Varint.{
  encode_zigzag32, encode_zigzag64, decode_zigzag32, decode_zigzag64,
}

decode_even32 : (v n : ℕ) → v ≡ 2 * n → decode_zigzag32 v ≡ n
unfolding decode_zigzag32
decode_even32 v n h =
    let bit : bit_and v 1 ≡ 0 = omega (arith, bit_and_mask 1 v) in
    let half : v / 2 ≡ n = omega arith in rw (bit, half, bit_xor-zero n)

decode_odd32 : (v n : ℕ) → v ≡ 2 * n + 1 → n < 2 ^ 31 → decode_zigzag32 v ≡ 2 ^ 32 - 1 - n
unfolding decode_zigzag32
decode_odd32 v n h b =
    let bit : bit_and v 1 ≡ 1 = omega (arith, bit_and_mask 1 v) in
    let half : v / 2 ≡ n = omega arith in rw (bit, half) (bit_xor_ones 32 n (omega arith))

-- Every int32_t pattern is restored by DecodeZigzag32 from EncodeZigzag32.
pub decode-encode_zigzag32 : (v : ℕ) → v < 2 ^ 32 → decode_zigzag32 (encode_zigzag32 v) ≡ v
unfolding encode_zigzag32
decode-encode_zigzag32 v h = elim (le-cases (2 ^ 31) v) [
  | inl neg ↦ rw (le→leb (2 ^ 31) v neg) (
      omega (
        arith,
        decode_odd32 (((2 ^ 32 - v) % 2 ^ 32 * 2 + 2 ^ 32 - 1) % 2 ^ 32) (2 ^ 32 - 1 - v)
            (omega arith) (omega arith),
      ))
  | inr pos ↦ rw (lt→leb (2 ^ 31) v pos) (decode_even32 (v * 2 % 2 ^ 32) v (omega arith))
]

decode_even64 : (v n : ℕ) → v ≡ 2 * n → decode_zigzag64 v ≡ n
unfolding decode_zigzag64
decode_even64 v n h =
    let bit : bit_and v 1 ≡ 0 = omega (arith, bit_and_mask 1 v) in
    let half : v / 2 ≡ n = omega arith in rw (bit, half, bit_xor-zero n)

decode_odd64 : (v n : ℕ) → v ≡ 2 * n + 1 → n < 2 ^ 63 → decode_zigzag64 v ≡ 2 ^ 64 - 1 - n
unfolding decode_zigzag64
decode_odd64 v n h b =
    let bit : bit_and v 1 ≡ 1 = omega (arith, bit_and_mask 1 v) in
    let half : v / 2 ≡ n = omega arith in rw (bit, half) (bit_xor_ones 64 n (omega arith))

-- Every int64_t pattern is restored by DecodeZigzag64 from EncodeZigzag64.
pub decode-encode_zigzag64 : (v : ℕ) → v < 2 ^ 64 → decode_zigzag64 (encode_zigzag64 v) ≡ v
unfolding encode_zigzag64
decode-encode_zigzag64 v h = elim (le-cases (2 ^ 63) v) [
  | inl neg ↦ rw (le→leb (2 ^ 63) v neg) (
      omega (
        arith,
        decode_odd64 (((2 ^ 64 - v) % 2 ^ 64 * 2 + 2 ^ 64 - 1) % 2 ^ 64) (2 ^ 64 - 1 - v)
            (omega arith) (omega arith),
      ))
  | inr pos ↦ rw (lt→leb (2 ^ 63) v pos) (decode_even64 (v * 2 % 2 ^ 64) v (omega arith))
]
