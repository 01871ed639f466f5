-- ===== src/LoadBalance/Choice.antt =====
-- Which item the balancers choose.
use cpp_linux_server.Base.{
  ℕ, zero, suc, ◌+◌, ◌%◌, ◌≤◌, ◌<◌, ◌≡◌, refl, ap, ◌∙◌, List, [], ◌∷◌, length, get_elem?, take,
  Bool, true, Option, some, arith, inl, inr, le-cases, lt→ltb, le→ltb, lt→==, below→==,
}
use native.Mathlib.Nat.{mod-lt}
use cpp_linux_server.LoadBalance.{
  LoadBalanceItem, LoadBalance, is_valid, sums, probe, value_or, round_robin_get, upper_bound,
  last_of, idx_of, get_idx, weight_get,
}
use cpp_linux_server.LoadBalance.Probing.{Found, probe-Found}

get_elem?-lt :
    (is : List LoadBalanceItem) (j : ℕ) (i : LoadBalanceItem)
    → get_elem? is j ≡ some i
    → j < length is
get_elem?-lt [] j i e = absurd (cc e)
get_elem?-lt (x ∷ is) zero i e = omega arith
get_elem?-lt (x ∷ is) (suc j) i e = omega (arith, get_elem?-lt is j i e)

-- RoundRobinLoadBalance::get, from any index: where an item of m_items is valid, it finds one of
-- them that is.
pub round_robin_get-Found :
    (connected : ℕ → Bool) (v : Option ℕ) (rand j : ℕ) (i : LoadBalanceItem) (b : LoadBalance)
    → get_elem? b.items j ≡ some i
    → is_valid connected i ≡ true
    → Found connected b.items (round_robin_get connected v rand b)
unfolding round_robin_get
round_robin_get-Found connected v rand j i b at valid =
    let inside : j < length b.items = get_elem?-lt b.items j i at in
    rw (lt→== 0 (length b.items) (omega arith)) (
      probe-Found connected b.items (value_or v rand % length b.items) j i
        (mod-lt (value_or v rand) (omega arith)) inside at valid)

-- The weight of all items.
unfoldable pub total_weight : (LoadBalanceItem → ℕ) → List LoadBalanceItem → ℕ
total_weight weight [] = 0
total_weight weight (i ∷ is) = weight i + total_weight weight is

last_of-sums :
    (weight : LoadBalanceItem → ℕ) (t w : ℕ) (is : List LoadBalanceItem)
    → w ≡ t
    → last_of w (sums weight t is) ≡ t + total_weight weight is
unfolding sums total_weight
last_of-sums weight t w [] e = omega arith
last_of-sums weight t w (i ∷ is) e =
    omega (arith, last_of-sums weight (t + weight i) (t + weight i) is refl)

length-sums :
    (weight : LoadBalanceItem → ℕ) (t : ℕ) (is : List LoadBalanceItem)
    → length (sums weight t is) ≡ length is
unfolding sums
length-sums weight t [] = refl
length-sums weight t (i ∷ is) = ap suc (length-sums weight (t + weight i) is)

-- The item whose share of the total has dis in it.
pub record Chosen (weight : LoadBalanceItem → ℕ) (t dis : ℕ) (is : List LoadBalanceItem) (idx : ℕ)
    : Type 0 where
  pub item : LoadBalanceItem
  pub item_eq : get_elem? is idx ≡ some item
  pub not_before : t + total_weight weight (take idx is) ≤ dis
  pub within : dis < t + total_weight weight (take idx is) + weight item

upper_bound-Chosen :
    (weight : LoadBalanceItem → ℕ) (t dis : ℕ) (is : List LoadBalanceItem)
    → t ≤ dis
    → dis < t + total_weight weight is
    → Chosen weight t dis is (upper_bound dis (sums weight t is))
unfolding upper_bound sums total_weight
upper_bound-Chosen weight t dis [] low high = absurd (omega arith)
upper_bound-Chosen weight t dis (i ∷ is) low high = elim (le-cases (t + weight i) dis) [
  | inr here ↦
      rw (lt→ltb dis (t + weight i) here)
        (record { item = i; item_eq = refl; not_before = omega arith; within = omega arith })
  | inl later ↦
      let c = upper_bound-Chosen weight (t + weight i) dis is later (omega arith) in
      rw (le→ltb dis (t + weight i) later) (record {
        item = c.item;
        item_eq = c.item_eq;
        not_before = omega (arith, c.not_before);
        within = omega (arith, c.within);
      })
]

idx_of-Chosen :
    (weight : LoadBalanceItem → ℕ) (total value : ℕ) (is : List LoadBalanceItem)
    → total ≡ total_weight weight is
    → 0 < total
    → (idx : ℕ) × (idx_of total value (sums weight 0 is) ≡ some (some idx))
      × (idx < length is)
      × Chosen weight 0 (value % total) is idx
idx_of-Chosen weight total value is sum some_weight =
    let c =
      upper_bound-Chosen weight 0 (value % total) is (omega arith)
        (omega (arith, mod-lt value some_weight, sum)) in
    let idx : ℕ = upper_bound (value % total) (sums weight 0 is) in
    let inside : idx < length is = get_elem?-lt is idx c.item c.item_eq in
    (
      idx,
      rw (lt→== 0 total some_weight, length-sums weight 0 is, below→== idx (length is) inside) refl,
      inside,
      c,
    )

-- getIdx on the weights of initNolock that are not all zero: the index of an item, the one in whose
-- share of the total weight, in the order of the items, the remainder of the value falls.
pub get_idx-Chosen :
    (weight : LoadBalanceItem → ℕ) (v : Option ℕ) (rand : ℕ) (is : List LoadBalanceItem)
    → 0 < total_weight weight is
    → (idx : ℕ) × (get_idx v rand (sums weight 0 is) ≡ some (some idx))
      × (idx < length is)
      × Chosen weight 0 (value_or v rand % total_weight weight is) is idx
unfolding get_idx
get_idx-Chosen weight v rand [] some_weight = absurd (omega (arith, nothing))
  where
    nothing : total_weight weight [] ≡ 0
    nothing = unfold total_weight in refl
get_idx-Chosen weight v rand (i ∷ is) some_weight =
    let total : ℕ = total_weight weight (i ∷ is) in
    let (idx, e, inside, c) =
      idx_of-Chosen weight total (value_or v rand) (i ∷ is) refl some_weight in
    (idx, as_idx_of ∙ e, inside, c)
  where
    as_idx_of :
        get_idx v rand (sums weight 0 (i ∷ is))
        ≡ idx_of (total_weight weight (i ∷ is)) (value_or v rand) (sums weight 0 (i ∷ is))
    as_idx_of =
        unfold sums total_weight in
        ap (λ (n : ℕ). idx_of n (value_or v rand) ((0 + weight i) ∷ sums weight (0 + weight i) is))
          (last_of-sums weight (0 + weight i) (0 + weight i) is refl ∙ omega arith)

-- WeightLoadBalance::get on the items and weights of initNolock, not all zero: where an item is still
-- valid, it returns one that is.
pub weight_get-Found :
    (connected : ℕ → Bool) (weight : LoadBalanceItem → ℕ) (v : Option ℕ) (rand j : ℕ)
    (i : LoadBalanceItem) (b : LoadBalance)
    → b.weights ≡ sums weight 0 b.items
    → 0 < total_weight weight b.items
    → get_elem? b.items j ≡ some i
    → is_valid connected i ≡ true
    → (r : Option LoadBalanceItem) × (weight_get connected v rand b ≡ some r)
      × Found connected b.items r
unfolding weight_get
weight_get-Found connected weight v rand j i b same some_weight at valid =
    let (idx, e, inside, c) = get_idx-Chosen weight v rand b.items some_weight in
    (
      probe connected b.items idx (length b.items),
      rw (same, e) refl,
      probe-Found connected b.items idx j i inside (get_elem?-lt b.items j i at) at valid,
    )
