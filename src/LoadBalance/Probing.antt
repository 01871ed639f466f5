-- ===== src/LoadBalance/Probing.antt =====
-- The loop that looks for a valid item.
use cpp_linux_server.Base.{
  ℕ, zero, suc, ◌+◌, ◌-◌, ◌%◌, ◌<◌, ◌≡◌, refl, ap, sym, ◌∙◌, List, length, get_elem?, Bool, true,
  false, if◌then◌else◌, Option, some, arith, Bool-cases, inl, inr, ◌⊎◌, le-cases, get_elem?-exists,
}
use native.Mathlib.Nat.{mod-lt, mod-eq_of_lt, add-mod_right}
use cpp_linux_server.LoadBalance.{LoadBalanceItem, is_valid, probe}

-- The result is an item of the list, and valid.
abbrev pub Found : (ℕ → Bool) → List LoadBalanceItem → Option LoadBalanceItem → Type 0
Found connected is r =
    (k : ℕ) × (h : LoadBalanceItem) × (r ≡ some h)
    × (get_elem? is k ≡ some h)
    × (is_valid connected h ≡ true)

probe-steps :
    (connected : ℕ → Bool) (is : List LoadBalanceItem) (i : LoadBalanceItem) (steps r d : ℕ)
    → get_elem? is ((r + d) % length is) ≡ some i
    → is_valid connected i ≡ true
    → 0 < length is
    → d < steps
    → Found connected is (probe connected is r steps)
unfolding probe
probe-steps connected is i zero r d at valid some_items near = absurd (omega arith)
probe-steps connected is i (suc steps) r d at valid some_items near =
    let (h, here) = get_elem?-exists {0} is (r % length is) (mod-lt r some_items) in
    rw here (
      by_validity h here
        (λ more.
          probe-steps connected is i steps (suc r) (d - 1)
            (ap (λ (n : ℕ). get_elem? is (n % length is)) (onward more) ∙ at) valid some_items
            (omega arith))
        (Bool-cases (is_valid connected h)))
  where
    onward : 0 < d → suc r + (d - 1) ≡ r + d
    onward more = omega arith

    further :
        (h : LoadBalanceItem)
        → get_elem? is (r % length is) ≡ some h
        → is_valid connected h ≡ false
        → 0 < d
    further h here bad = elim (le-cases 1 d) [
      | inl more ↦ more
      | inr none_left ↦
          let same : r + d ≡ r = omega arith in
          let same_item : i ≡ h =
            cc (sym at ∙ ap (λ (n : ℕ). get_elem? is (n % length is)) same ∙ here) in
          absurd (cc (sym valid ∙ ap (is_valid connected) same_item ∙ bad))
    ]

    by_validity :
        (h : LoadBalanceItem)
        → get_elem? is (r % length is) ≡ some h
        → (0 < d → Found connected is (probe connected is (suc r) steps))
        → (is_valid connected h ≡ true) ⊎ (is_valid connected h ≡ false)
        → Found connected is
            (if is_valid connected h then some h else probe connected is (suc r) steps)
    by_validity h here next (inl good) = rw good (r % length is, h, refl, here, good)
    by_validity h here next (inr bad) = rw bad (next (further h here bad))

-- A round from any index finds a valid item where there is one.
pub probe-Found :
    (connected : ℕ → Bool) (is : List LoadBalanceItem) (r j : ℕ) (i : LoadBalanceItem)
    → r < length is
    → j < length is
    → get_elem? is j ≡ some i
    → is_valid connected i ≡ true
    → Found connected is (probe connected is r (length is))
probe-Found connected is r j i inside there at valid = elim (le-cases r j) [
  | inl after ↦
      let sum : r + (j - r) ≡ j = omega arith in
      probe-steps connected is i (length is) r (j - r)
        (ap (λ (n : ℕ). get_elem? is (n % length is)) sum
          ∙ ap (get_elem? is) (mod-eq_of_lt {n = j} {m = length is} there)
          ∙ at)
        valid (omega arith) (omega arith)
  | inr before ↦
      let sum : r + (j + length is - r) ≡ j + length is = omega arith in
      probe-steps connected is i (length is) r (j + length is - r)
        (ap (λ (n : ℕ). get_elem? is (n % length is)) sum
          ∙ ap (get_elem? is)
              (add-mod_right j (length is) ∙ mod-eq_of_lt {n = j} {m = length is} there)
          ∙ at)
        valid (omega arith) (omega arith)
]
