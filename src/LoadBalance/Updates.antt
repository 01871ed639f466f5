-- ===== src/LoadBalance/Updates.antt =====
-- What add, del and update make of the items.
use cpp_linux_server.Base.{
  ℕ, ◌≡◌, ◌≢◌, refl, ap, sym, ◌∙◌, List, [], ◌∷◌, Bool, true, false, ◌==◌, if◌then◌else◌, Option,
  none, some, map, Bool-cases, inl, inr, ◌⊎◌, ==_iff, arith,
}
use cpp_linux_server.LoadBalance.{
  LoadBalanceItem, Items, find, assign, erase, LoadBalance, valid_items, sums, init_nolock,
  get_by_id, take_out, assign_all, update_items,
}

-- A map: no id twice.
unfoldable pub IsMap : Items → Type 0
IsMap [] = Unit {0}
IsMap ((k, v) ∷ rest) = (find k rest ≡ none) × IsMap rest

abbrev pub first_of : Option LoadBalanceItem → Option LoadBalanceItem → Option LoadBalanceItem
first_of none y = y
first_of (some x) y = some x

test : (a b : ℕ) → ((a ≡ b) × ((a == b) ≡ true)) ⊎ ((a ≢ b) × ((a == b) ≡ false))
test a b = elim (Bool-cases (a == b)) [
  | inl t ↦ inl ((==_iff a b).0 t, t)
  | inr f ↦ inr ((λ e. absurd (cc (f, (==_iff a b).1 e))), f)
]

find-assign :
    (id k : ℕ) (v : LoadBalanceItem) (ds : Items)
    → find id (assign k v ds) ≡ (if k == id then some v else find id ds)
unfolding find assign
find-assign id k v [] = refl
find-assign id k v ((j, w) ∷ ds) = ground (arith, find-assign id k v ds)

find-erase :
    (id k : ℕ) (ds : Items)
    → IsMap ds
    → find id (erase k ds) ≡ (if k == id then none else find id ds)
unfolding find erase IsMap
find-erase id k [] m = ground arith
find-erase id k ((j, w) ∷ ds) m = ground (arith, find-erase id k ds m.1, m.0)

assign-IsMap : (k : ℕ) (v : LoadBalanceItem) (ds : Items) → IsMap ds → IsMap (assign k v ds)
unfolding find assign IsMap
assign-IsMap k v [] m = (refl, tt)
assign-IsMap k v ((j, w) ∷ ds) m = elim (test j k) [
  | inl (same, t) ↦ rw t m
  | inr (other, t) ↦ rw t (ground (arith, find-assign j k v ds, m.0, t), assign-IsMap k v ds m.1)
]

erase-IsMap : (k : ℕ) (ds : Items) → IsMap ds → IsMap (erase k ds)
unfolding find erase IsMap
erase-IsMap k [] m = tt
erase-IsMap k ((j, w) ∷ ds) m = elim (test j k) [
  | inl (same, t) ↦ rw t m.1
  | inr (other, t) ↦ rw t (ground (arith, find-erase j k ds m.1, m.0, t), erase-IsMap k ds m.1)
]

assign_all-IsMap : (adds ds : Items) → IsMap ds → IsMap (assign_all adds ds)
unfolding assign_all
assign_all-IsMap [] ds m = m
assign_all-IsMap ((k, v) ∷ adds) ds m =
    assign_all-IsMap adds (assign k v ds) (assign-IsMap k v ds m)

find-assign_all :
    (id : ℕ) (adds ds : Items)
    → IsMap adds
    → find id (assign_all adds ds) ≡ first_of (find id adds) (find id ds)
unfolding assign_all find IsMap
find-assign_all id [] ds m = refl
find-assign_all id ((k, v) ∷ adds) ds m = elim (test k id) [
  | inl (same, t) ↦ rw t (
      find-assign_all id adds (assign k v ds) m.1
      ∙ rw (ap (λ (i : ℕ). find i adds) (sym same) ∙ m.0, find-assign id k v ds, t) refl)
  | inr (other, t) ↦
      rw t (find-assign_all id adds (assign k v ds) m.1 ∙ rw (find-assign id k v ds, t) refl)
]

abbrev pub contains : List ℕ → ℕ → Bool
contains [] id = false
contains (k ∷ ks) id = if k == id then true else contains ks id

-- Ids without a repetition.
unfoldable pub NoRepeat : List ℕ → Type 0
NoRepeat [] = Unit {0}
NoRepeat (k ∷ ks) = (contains ks k ≡ false) × NoRepeat ks

step-IsMap :
    (k : ℕ) (o : Option LoadBalanceItem) (ds : Items)
    → IsMap ds
    → IsMap (elim o [ none ↦ ds | some _ ↦ erase k ds ])
step-IsMap k none ds m = m
step-IsMap k (some _) ds m = erase-IsMap k ds m

take_out-IsMap : (ids : List ℕ) (ds : Items) → IsMap ds → IsMap (take_out ids ds).1
unfolding take_out
take_out-IsMap [] ds m = m
take_out-IsMap (k ∷ ids) ds m = take_out-IsMap ids _ (step-IsMap k (find k ds) ds m)

-- Whatever find says, the item of the id is not there behind the step.
find-step :
    (id k : ℕ) (ds : Items)
    → IsMap ds
    → find id (elim (find k ds) [ none ↦ ds | some _ ↦ erase k ds ])
      ≡ (if k == id then none else find id ds)
find-step id k ds m = by_find (find k ds) refl
  where
    by_find :
        (o : Option LoadBalanceItem)
        → find k ds ≡ o
        → find id (elim o [ none ↦ ds | some _ ↦ erase k ds ])
          ≡ (if k == id then none else find id ds)
    by_find (some _) e = find-erase id k ds m
    by_find none e = elim (test k id) [
      | inl (same, t) ↦ rw t (ap (λ (i : ℕ). find i ds) (sym same) ∙ e)
      | inr (other, t) ↦ rw t refl
    ]

find-take_out :
    (id : ℕ) (ids : List ℕ) (ds : Items)
    → IsMap ds
    → find id (take_out ids ds).1 ≡ (if contains ids id then none else find id ds)
unfolding take_out
find-take_out id [] ds m = refl
find-take_out id (k ∷ ids) ds m =
    find-take_out id ids _ (step-IsMap k (find k ds) ds m)
    ∙ ap (λ (o : Option LoadBalanceItem). if contains ids id then none else o) (find-step id k ds m)
    ∙ nested (k == id) (contains ids id) (find id ds)
  where
    nested :
        (a b : Bool) (o : Option LoadBalanceItem)
        → (if b then none else (if a then none else o))
          ≡ (if (if a then true else b) then none else o)
    nested true true o = refl
    nested true false o = refl
    nested false b o = refl

-- An id and what is there for it.
abbrev pub present : Items → ℕ → ℕ × Option LoadBalanceItem
present ds k = (k, find k ds)

present-step :
    (k : ℕ) (ids : List ℕ) (ds : Items)
    → IsMap ds
    → contains ids k ≡ false
    → map (present (elim (find k ds) [ none ↦ ds | some _ ↦ erase k ds ])) ids
      ≡ map (present ds) ids
present-step k [] ds m h = refl
present-step k (j ∷ ids) ds m h = elim (test j k) [
  | inl (_, t) ↦ absurd (cc (rw t at h))
  | inr (other, t) ↦
      let apart : (k == j) ≡ false = ground (arith, t) in
      rw (present-step k ids ds m (rw t at h), find-step j k ds m, apart) refl
]

take_out-present :
    (ids : List ℕ) (ds : Items)
    → IsMap ds
    → NoRepeat ids
    → (take_out ids ds).0 ≡ map (present ds) ids
unfolding take_out NoRepeat
take_out-present [] ds m n = refl
take_out-present (k ∷ ids) ds m n =
    ap (λ (r : List (ℕ × Option LoadBalanceItem)). (k, find k ds) ∷ r)
      (take_out-present ids _ (step-IsMap k (find k ds) ds m) n.1 ∙ present-step k ids ds m n.0)

-- m_items and m_weights are those of m_datas.
pub record IsReady (connected : ℕ → Bool) (weight : LoadBalanceItem → ℕ) (b : LoadBalance)
    : Type 0 where
  pub map_datas : IsMap b.datas
  pub items_eq : b.items ≡ valid_items connected b.datas
  pub weights_eq : b.weights ≡ sums weight 0 b.items

-- update, on maps adds and dels: dels is filled with what was there, behind it an id leads to its item
-- of adds, to none where it is only in dels, and else where it led before; m_items and m_weights follow.
pub update_items_lem :
    (connected : ℕ → Bool) (weight : LoadBalanceItem → ℕ) (adds : Items) (dels : List ℕ)
    (b : LoadBalance)
    → IsMap b.datas
    → IsMap adds
    → NoRepeat dels
    → ((update_items connected weight adds dels b).0 ≡ map (λ k. (k, get_by_id k b)) dels)
      × ((id : ℕ)
          → get_by_id id (update_items connected weight adds dels b).1
            ≡ first_of (find id adds) (if contains dels id then none else get_by_id id b))
      × IsReady connected weight (update_items connected weight adds dels b).1
unfolding update_items get_by_id init_nolock
update_items_lem connected weight adds dels b m n d = (
  take_out-present dels b.datas m d,
  λ id.
      find-assign_all id adds (take_out dels b.datas).1 n
      ∙ ap (first_of (find id adds)) (find-take_out id dels b.datas m),
  record {
    map_datas = assign_all-IsMap adds (take_out dels b.datas).1 (take_out-IsMap dels b.datas m);
    items_eq = refl;
    weights_eq = refl;
  },
)
