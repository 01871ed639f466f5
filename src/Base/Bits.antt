-- ===== src/Base/Bits.antt =====
-- Masks, shifts and disjunctions on native numbers, as arithmetic.
use Prim.Native.Nat.{ℕ, zero, suc, ◌+◌, ◌-◌, ◌*◌, ◌/◌, ◌%◌, ◌^◌, ◌≤◌, ◌<◌, min, max}
use Prim.Native.Nat.{bit_and, bit_or, bit_xor, digits, bitwise, differ}
use Prim.Native.Nat.{bit_and-bitwise, bit_or-bitwise, bit_xor-bitwise}
use mathlib.Core.Path.{◌≡◌, refl, ap, ◌∙◌}
use native.Mathlib.Nat.{mod-lt, mod-eq_of_lt, div-add-mod, add-mul-mod_self_right}
use native.Mathlib.Omega.{arith}

-- The recursion on digits, for a count of digits that is at least the number.
module _ (z : ℕ → ℕ) (f : ℕ → ℕ → ℕ) where
  surplus : (a b count : ℕ) → a ≤ count → digits z f (suc count) a b ≡ digits z f count a b
  surplus zero b zero h = refl
  surplus zero b (suc count) h = refl
  surplus (suc a) b zero h = absurd (omega arith)
  surplus (suc a) b (suc count) h = omega (arith, surplus (suc a / 2) (b / 2) count (omega arith))

  trim : (a b extra count : ℕ) → count ≡ extra + a → digits z f count a b ≡ bitwise z f a b
  trim a b zero count h = ap (λ (n : ℕ). digits z f n a b) (omega arith)
  trim a b (suc extra) zero h = absurd (omega arith)
  trim a b (suc extra) (suc count) h =
      surplus a b count (omega arith) ∙ trim a b extra count (omega arith)

  -- The lowest digit of an operation that is such a recursion.
  lowest :
      (op : ℕ → ℕ → ℕ)
      → ((a b : ℕ) → op a b ≡ bitwise z f a b)
      → ((b : ℕ) → z b ≡ z (b / 2) * 2 + f 0 (b % 2))
      → (a b : ℕ) → op a b ≡ op (a / 2) (b / 2) * 2 + f (a % 2) (b % 2)
  lowest op law empty zero b = omega (arith, law 0 b, law 0 (b / 2), empty b)
  lowest op law empty (suc a) b =
      let half : ℕ = suc a / 2 in
      omega (arith, law (suc a) b, law half (b / 2), trim half (b / 2) (a - half) a (omega arith))

bit_or_step : (a b : ℕ) → bit_or a b ≡ bit_or (a / 2) (b / 2) * 2 + max (a % 2) (b % 2)
bit_or_step = lowest (λ b. b) max bit_or (λ a b. bit_or-bitwise a b) (λ b. omega arith)

bit_and_step : (a b : ℕ) → bit_and a b ≡ bit_and (a / 2) (b / 2) * 2 + min (a % 2) (b % 2)
bit_and_step = lowest (λ b. 0) min bit_and (λ a b. bit_and-bitwise a b) (λ b. omega arith)

bit_xor_step : (a b : ℕ) → bit_xor a b ≡ bit_xor (a / 2) (b / 2) * 2 + differ (a % 2) (b % 2)
bit_xor_step = lowest (λ b. b) differ bit_xor (λ a b. bit_xor-bitwise a b) (λ b. omega arith)

zero-bit_or : (b : ℕ) → bit_or 0 b ≡ b
zero-bit_or b = bit_or-bitwise 0 b

zero-bit_and : (b : ℕ) → bit_and 0 b ≡ 0
zero-bit_and b = bit_and-bitwise 0 b

-- 2 ^ (k + 1) in the form that omega reads.
pub pow_suc : (k : ℕ) → 2 ^ suc k ≡ 2 * 2 ^ k
pow_suc k = omega arith

pub pow_pos : (k : ℕ) → 1 ≤ 2 ^ k
pow_pos zero = omega arith
pow_pos (suc k) = omega (arith, pow_suc k, pow_pos k)

-- `a | (b << k)` adds where the low k bits are a's.
pub bit_or_shifted : (k a b : ℕ) → a < 2 ^ k → bit_or a (b * 2 ^ k) ≡ a + b * 2 ^ k
bit_or_shifted zero a b h =
    let e : a ≡ 0 = omega arith in rw (e, zero-bit_or (b * 2 ^ 0)) (omega arith)
bit_or_shifted (suc k) a b h =
    let double : b * 2 ^ suc k ≡ b * (2 * 2 ^ k) = ap (λ (t : ℕ). b * t) (pow_suc k) in
    let half : b * 2 ^ suc k / 2 ≡ b * 2 ^ k = omega (arith, double) in
    let halved : bit_or (a / 2) (b * 2 ^ suc k / 2) ≡ a / 2 + b * 2 ^ k =
      rw half (bit_or_shifted k (a / 2) b (omega (arith, pow_suc k))) in
    omega (arith, bit_or_step a (b * 2 ^ suc k), halved, double)

lt_pow : (a : ℕ) → a < 2 ^ a
lt_pow zero = omega arith
lt_pow (suc a) = omega (arith, pow_suc a, lt_pow a)

-- Of a number with k digits.
bit_and-nothing : (k a : ℕ) → a < 2 ^ k → bit_and a 0 ≡ 0
bit_and-nothing zero a h = let e : a ≡ 0 = omega arith in rw e (zero-bit_and 0)
bit_and-nothing (suc k) a h =
    omega (arith, bit_and_step a 0, bit_and-nothing k (a / 2) (omega (arith, pow_suc k)))

mod_double : (m a : ℕ) → 1 ≤ m → a % (2 * m) ≡ a / 2 % m * 2 + a % 2
mod_double m a h =
    let r : ℕ = a / 2 % m * 2 + a % 2 in
    let bound : a / 2 % m < m = mod-lt (a / 2) (omega arith) in
    let split : a ≡ r + a / 2 / m * (2 * m) = omega (arith, div-add-mod (a / 2) m) in
    ap (λ (t : ℕ). t % (2 * m)) split
    ∙ add-mul-mod_self_right r (a / 2 / m) (2 * m)
    ∙ mod-eq_of_lt {n = r} {m = 2 * m} (omega arith)

-- Bit k of a number below 2^k.
pub bit_and-below : (k a : ℕ) → a < 2 ^ k → bit_and a (2 ^ k) ≡ 0
bit_and-below zero a h = let e : a ≡ 0 = omega arith in rw (e, zero-bit_and (2 ^ 0)) refl
bit_and-below (suc k) a h =
    let half : 2 ^ suc k / 2 ≡ 2 ^ k = omega (arith, pow_suc k) in
    let even : 2 ^ suc k % 2 ≡ 0 = omega (arith, pow_suc k) in
    let halved : bit_and (a / 2) (2 ^ suc k / 2) ≡ 0 =
      rw half (bit_and-below k (a / 2) (omega (arith, pow_suc k))) in
    omega (arith, bit_and_step a (2 ^ suc k), halved, even)

pub bit_or_lt : (k a b : ℕ) → a < 2 ^ k → b < 2 ^ k → bit_or a b < 2 ^ k
bit_or_lt zero a b h i =
    let e : a ≡ 0 = omega arith in
    let f : b ≡ 0 = omega arith in rw (e, f) (omega (arith, zero-bit_or 0))
bit_or_lt (suc k) a b h i = omega (
  arith,
  pow_suc k,
  bit_or_step a b,
  bit_or_lt k (a / 2) (b / 2) (omega (arith, pow_suc k)) (omega (arith, pow_suc k)),
)

-- `(a | (f << k)) & (2^k - 1)` is a.
pub mod_shifted : (k a f : ℕ) → a < 2 ^ k → (a + f * 2 ^ k) % 2 ^ k ≡ a
mod_shifted k a f h =
    add-mul-mod_self_right a f (2 ^ k) ∙ mod-eq_of_lt {n = a} {m = 2 ^ k} (omega arith)

-- `a & (2^k - 1)` keeps the low k bits.
pub bit_and_mask : (k a : ℕ) → bit_and a (2 ^ k - 1) ≡ a % 2 ^ k
bit_and_mask zero a = omega (arith, bit_and-nothing a a (lt_pow a))
bit_and_mask (suc k) a =
    let half : (2 ^ suc k - 1) / 2 ≡ 2 ^ k - 1 = omega (arith, pow_suc k, pow_pos k) in
    let halved : bit_and (a / 2) ((2 ^ suc k - 1) / 2) ≡ a / 2 % 2 ^ k =
      rw half (bit_and_mask k (a / 2)) in
    omega (
      arith,
      bit_and_step a (2 ^ suc k - 1),
      halved,
      pow_suc k,
      pow_pos k,
      mod_double (2 ^ k) a (pow_pos k),
      ap (λ (t : ℕ). a % t) (pow_suc k),
    )

digit_alone : (r : ℕ) → differ r 0 ≡ r
digit_alone zero = refl
digit_alone (suc r) = refl

bit_xor-nothing : (k a : ℕ) → a < 2 ^ k → bit_xor a 0 ≡ a
bit_xor-nothing zero a h = let e : a ≡ 0 = omega arith in rw e (bit_xor-bitwise 0 0)
bit_xor-nothing (suc k) a h = omega (
  arith,
  bit_xor_step a 0,
  digit_alone (a % 2),
  bit_xor-nothing k (a / 2) (omega (arith, pow_suc k)),
)

pub bit_xor-zero : (a : ℕ) → bit_xor a 0 ≡ a
bit_xor-zero a = bit_xor-nothing a a (lt_pow a)

differ_one : (r : ℕ) → r < 2 → differ r 1 ≡ 1 - r
differ_one zero h = refl
differ_one (suc zero) h = refl
differ_one (suc (suc r)) h = absurd (omega arith)

-- `a ^ (2^k - 1)` complements k bits.
pub bit_xor_ones : (k a : ℕ) → a < 2 ^ k → bit_xor a (2 ^ k - 1) ≡ 2 ^ k - 1 - a
bit_xor_ones zero a h = omega (arith, bit_xor-zero a)
bit_xor_ones (suc k) a h =
    let half : (2 ^ suc k - 1) / 2 ≡ 2 ^ k - 1 = omega (arith, pow_suc k, pow_pos k) in
    let odd : (2 ^ suc k - 1) % 2 ≡ 1 = omega (arith, pow_suc k, pow_pos k) in
    let last : differ (a % 2) ((2 ^ suc k - 1) % 2) ≡ 1 - a % 2 =
      rw odd (differ_one (a % 2) (omega arith)) in
    let halved : bit_xor (a / 2) ((2 ^ suc k - 1) / 2) ≡ 2 ^ k - 1 - a / 2 =
      rw half (bit_xor_ones k (a / 2) (omega (arith, pow_suc k))) in
    omega (arith, bit_xor_step a (2 ^ suc k - 1), last, halved, pow_suc k, pow_pos k)

differ_lt : (r s : ℕ) → r < 2 → s < 2 → differ r s < 2
differ_lt zero s h i = i
differ_lt (suc r) zero h i = h
differ_lt (suc r) (suc s) h i = differ_lt r s (omega arith) (omega arith)

differ_twice : (r s : ℕ) → r < 2 → s < 2 → differ (differ r s) s ≡ r
differ_twice zero zero h i = refl
differ_twice zero (suc zero) h i = refl
differ_twice (suc zero) zero h i = refl
differ_twice (suc zero) (suc zero) h i = refl
differ_twice r (suc (suc s)) h i = absurd (omega arith)
differ_twice (suc (suc r)) s h i = absurd (omega arith)

-- `(a ^ b) ^ b` is a.
pub bit_xor_twice : (k a b : ℕ) → a < 2 ^ k → b < 2 ^ k → bit_xor (bit_xor a b) b ≡ a
bit_xor_twice zero a b h i =
    let e : a ≡ 0 = omega arith in let f : b ≡ 0 = omega arith in rw (e, f) refl
bit_xor_twice (suc k) a b h i =
    let r : ℕ = a % 2 in
    let s : ℕ = b % 2 in
    let small : differ r s < 2 = differ_lt r s (omega arith) (omega arith) in
    let x : ℕ = bit_xor a b in
    let half : x / 2 ≡ bit_xor (a / 2) (b / 2) = omega (arith, bit_xor_step a b, small) in
    let last : x % 2 ≡ differ r s = omega (arith, bit_xor_step a b, small) in
    let high : bit_xor (x / 2) (b / 2) ≡ a / 2 =
      rw half
        (bit_xor_twice k (a / 2) (b / 2) (omega (arith, pow_suc k)) (omega (arith, pow_suc k))) in
    let low : differ (x % 2) s ≡ r = rw last (differ_twice r s (omega arith) (omega arith)) in
    omega (arith, bit_xor_step x b, high, low)
