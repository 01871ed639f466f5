-- ===== src/ByteArray/Varint/RoundTrip.antt =====
-- Variable-length integers: the length, and reading back what was written.
use cpp_linux_server.Base.{
  ℕ, zero, suc, ◌+◌, ◌*◌, ◌/◌, ◌%◌, ◌^◌, ◌≤◌, ◌<◌, ◌≡◌, refl, ap, ◌∙◌, List, [], ◌∷◌, ◌++◌, length,
  arith, if◌then◌else◌, ltb, some, inl, inr, le-cases, le→leb, lt→leb, lt→ltb, le→ltb, bit_and,
  bit_or,
}
use cpp_linux_server.Base.Bits.{bit_and_mask, bit_or_shifted}
use cpp_linux_server.ByteArray.{ByteArray, ret, bind-ret, set_position}
use cpp_linux_server.ByteArray.Stream.{IsValid, view}
use cpp_linux_server.ByteArray.Replay.{Took, replay}
use cpp_linux_server.ByteArray.Fixed.{read_fuint8}
use cpp_linux_server.ByteArray.Fixed.RoundTrip.{read_fuint8_lem}
use cpp_linux_server.ByteArray.Varint.{
  varint_bytes, read_varint, shl, write_uint32, write_uint64, read_uint32, read_uint64,
}
use native.Mathlib.Numerals.{towards_suc}
use native.Mathlib.Nat.{mod-eq_of_lt, div-add-mod}

group : (v : ℕ) → bit_or (bit_and v 0x7f) 0x80 ≡ v % 128 + 128
group v = rw (bit_and_mask 7 v) (bit_or_shifted 7 (v % 128) 1 (omega arith))

pow_128 : (k : ℕ) → 128 ^ suc (suc k) ≡ 128 * 128 ^ suc k
pow_128 k = omega arith

pow_seven : (i : ℕ) → 2 ^ (i + 7) ≡ 128 * 2 ^ i
pow_seven i = simp towards_suc (omega arith)

-- The groups of seven bits of v, lowest first, each but the last with the top bit.
pub varint : ℕ → ℕ → List ℕ
varint zero v = v ∷ []
varint (suc k) v =
    let rest : List ℕ = varint k (v / 128) in if ltb v 128 then v ∷ [] else (v % 128 + 128) ∷ rest

varint_small : (k v : ℕ) → v < 128 → varint k v ≡ v ∷ []
unfolding varint
varint_small zero v h = refl
varint_small (suc k) v h = rw (lt→ltb v 128 h)

varint_big : (k v : ℕ) → 128 ≤ v → varint (suc k) v ≡ (v % 128 + 128) ∷ varint k (v / 128)
unfolding varint
varint_big k v h = rw (le→ltb v 128 h)

bytes_small : (k v : ℕ) → v < 128 → varint_bytes (suc k) v ≡ some (v ∷ [])
unfolding varint_bytes
bytes_small k v h = let same : v % 256 ≡ v = omega arith in rw (lt→leb 0x80 v h, same)

bytes_big :
    (k v : ℕ) (bs : List ℕ)
    → 128 ≤ v
    → varint_bytes k (v / 128) ≡ some bs
    → varint_bytes (suc k) v ≡ some ((v % 128 + 128) ∷ bs)
unfolding varint_bytes
bytes_big k v bs h e = rw (le→leb 0x80 v h, e, group v)

-- The buffer `tmp` is large enough.
pub varint_bytes_lem : (k v : ℕ) → v < 128 ^ suc k → varint_bytes (suc k) v ≡ some (varint k v)
varint_bytes_lem zero v h = rw (varint_small 0 v (omega arith)) (bytes_small 0 v (omega arith))
varint_bytes_lem (suc k) v h = elim (le-cases 128 v) [
  | inl big ↦ rw (varint_big k v big) (
      bytes_big (suc k) v (varint k (v / 128)) big
        (varint_bytes_lem k (v / 128) (omega (arith, pow_128 k))))
  | inr small ↦ rw (varint_small (suc k) v small) (bytes_small (suc k) v small)
]

pub length-varint : (k v : ℕ) → (0 < length (varint k v)) × (length (varint k v) ≤ suc k)
unfolding varint
length-varint zero v = omega arith
length-varint (suc k) v = ground (arith, length-varint k (v / 128))

-- One round on a last byte, and on a byte with the top bit.
read_last :
    (w rounds i result b : ℕ) (rest : List ℕ) (ba : ByteArray)
    → IsValid ba
    → (view ba).after ≡ b ∷ rest
    → b < 128
    → result < 2 ^ i
    → result + b * 2 ^ i < 2 ^ w
    → (ba' : ByteArray) × (read_varint w (suc rounds) i result ba ≡ ret (result + b * 2 ^ i) ba')
      × Took (b ∷ []) rest ba ba'
unfolding read_varint
read_last w rounds i result b rest ba v e small low fits =
    let (ba', r, t) = read_fuint8_lem b rest ba v e in
    let shifted : shl w b i ≡ b * 2 ^ i = mod-eq_of_lt (omega arith) in
    (
      ba',
      bind-ret read_fuint8 _ r ∙ rw (lt→ltb b 128 small, shifted, bit_or_shifted i result b low),
      t,
    )

read_more :
    (w rounds i result g : ℕ) (rest : List ℕ) (ba : ByteArray)
    → IsValid ba
    → (view ba).after ≡ (g + 128) ∷ rest
    → g < 128
    → result < 2 ^ i
    → result + g * 2 ^ i < 2 ^ w
    → (ba' : ByteArray) × (read_varint w (suc rounds) i result ba
        ≡ read_varint w rounds (i + 7) (result + g * 2 ^ i) ba')
      × Took ((g + 128) ∷ []) rest ba ba'
unfolding read_varint
read_more w rounds i result g rest ba v e small low fits =
    let (ba', r, t) = read_fuint8_lem (g + 128) rest ba v e in
    let masked : bit_and (g + 128) 0x7f ≡ g = bit_and_mask 7 (g + 128) ∙ omega arith in
    let shifted : shl w g i ≡ g * 2 ^ i = mod-eq_of_lt (omega arith) in
    (
      ba',
      bind-ret read_fuint8 _ r
          ∙ rw (le→ltb (g + 128) 128 (omega arith), masked, shifted, bit_or_shifted i result g low),
      t,
    )

-- v in two parts, shifted by i.
regroup : (v i result : ℕ) → result + v % 128 * 2 ^ i + v / 128 * 2 ^ (i + 7) ≡ result + v * 2 ^ i
regroup v i result = omega (
  arith,
  ap (λ (t : ℕ). t * 2 ^ i) (div-add-mod v 128),
  ap (λ (t : ℕ). v / 128 * t) (pow_seven i),
)

below_next : (g i result : ℕ) → g < 128 → result < 2 ^ i → result + g * 2 ^ i < 2 ^ (i + 7)
below_next g i result h low =
    let most : g * 2 ^ i ≤ 127 * 2 ^ i = grind arith in omega (arith, pow_seven i)

-- Where the groups of v are behind the cursor, the loop adds v, shifted, to its result.
pub read_varint_lem :
    (w k rounds i result v : ℕ) (rest : List ℕ) (ba : ByteArray)
    → IsValid ba
    → v < 128 ^ suc k
    → k < rounds
    → result < 2 ^ i
    → result + v * 2 ^ i < 2 ^ w
    → (view ba).after ≡ varint k v ++ rest
    → (ba' : ByteArray) × (read_varint w rounds i result ba ≡ ret (result + v * 2 ^ i) ba')
      × IsValid ba'
      × ((view ba').after ≡ rest)
read_varint_lem w k zero i result v rest ba valid h r low fits e = absurd (omega arith)
read_varint_lem w zero (suc rounds) i result v rest ba valid h r low fits e =
    let single : (view ba).after ≡ v ∷ rest =
      e ∙ ap (λ bs. bs ++ rest) (varint_small 0 v (omega arith)) in
    let (ba', q, t) = read_last w rounds i result v rest ba valid single (omega arith) low fits in
    (ba', q, t.valid, t.after_eq)
read_varint_lem w (suc k) (suc rounds) i result v rest ba valid h r low fits e =
    elim (le-cases 128 v) [
      | inr small ↦
          let single : (view ba).after ≡ v ∷ rest =
            e ∙ ap (λ bs. bs ++ rest) (varint_small (suc k) v small) in
          let (ba', q, t) = read_last w rounds i result v rest ba valid single small low fits in
          (ba', q, t.valid, t.after_eq)
      | inl big ↦
          let first : (view ba).after ≡ (v % 128 + 128) ∷ (varint k (v / 128) ++ rest) =
            e ∙ ap (λ bs. bs ++ rest) (varint_big k v big) in
          let bound : result + v % 128 * 2 ^ i < 2 ^ w = omega (arith, regroup v i result) in
          let (ba', q, t) =
            read_more w rounds i result (v % 128) (varint k (v / 128) ++ rest) ba valid first
              (omega arith) low bound in
          let (ba'', q', valid'', rest') =
            read_varint_lem w k rounds (i + 7) (result + v % 128 * 2 ^ i) (v / 128) rest ba' t.valid
              (omega (arith, pow_128 k)) (omega arith)
              (below_next (v % 128) i result (omega arith) low) (omega (arith, regroup v i result))
              t.after_eq in
          (ba'', q ∙ q' ∙ ap (λ (n : ℕ). ret n ba'') (regroup v i result), valid'', rest')
    ]

-- On a valid array a uint32_t that writeUint32 writes is read back by readUint32 from the position
-- where it was put.
pub uint32-roundtrip :
    (v : ℕ) (ba : ByteArray)
    → IsValid ba
    → v < 2 ^ 32
    → (ba₁ : ByteArray) × (ba₂ : ByteArray) × (ba₃ : ByteArray) × (write_uint32 v ba ≡ ret tt ba₁)
      × (set_position ba.position ba₁ ≡ ret tt ba₂)
      × (read_uint32 ba₂ ≡ ret v ba₃)
unfolding write_uint32 read_uint32
uint32-roundtrip v ba valid h =
    let (ba₁, ba₂, e, r) = replay (varint 4 v) ba valid in
    let (ba₃, q, _, _) =
      read_varint_lem 32 4 5 0 0 v _ ba₂ r.valid (omega arith) (omega arith) (omega arith)
        (omega arith) r.after_eq in
    let value : 0 + v * 2 ^ 0 ≡ v = omega arith in
    (
      ba₁,
      ba₂,
      ba₃,
      rw (varint_bytes_lem 4 v (omega arith)) e,
      r.seeks,
      q ∙ ap (λ (n : ℕ). ret n ba₃) value,
    )

-- On a valid array a uint64_t that writeUint64 writes is read back by readUint64 from the position
-- where it was put.
pub uint64-roundtrip :
    (v : ℕ) (ba : ByteArray)
    → IsValid ba
    → v < 2 ^ 64
    → (ba₁ : ByteArray) × (ba₂ : ByteArray) × (ba₃ : ByteArray) × (write_uint64 v ba ≡ ret tt ba₁)
      × (set_position ba.position ba₁ ≡ ret tt ba₂)
      × (read_uint64 ba₂ ≡ ret v ba₃)
unfolding write_uint64 read_uint64
uint64-roundtrip v ba valid h =
    let (ba₁, ba₂, e, r) = replay (varint 9 v) ba valid in
    let (ba₃, q, _, _) =
      read_varint_lem 64 9 10 0 0 v _ ba₂ r.valid (omega arith) (omega arith) (omega arith)
        (omega arith) r.after_eq in
    let value : 0 + v * 2 ^ 0 ≡ v = omega arith in
    (
      ba₁,
      ba₂,
      ba₃,
      rw (varint_bytes_lem 9 v (omega arith)) e,
      r.seeks,
      q ∙ ap (λ (n : ℕ). ret n ba₃) value,
    )
