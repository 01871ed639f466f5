-- ===== src/LoadBalance/Mirrors.antt =====
-- The balancer of a service follows the discovered services.
use cpp_linux_server.Base.{
  ℕ, ◌≡◌, refl, ap, sym, ◌∙◌, List, [], ◌∷◌, Bool, true, false, not, ◌&&◌, ◌||◌, ◌==◌,
  if◌then◌else◌, Option, none, some, arith,
}
use cpp_linux_server.LoadBalance.{
  LoadBalanceItem, Items, find, LoadBalance, get_by_id, take_out, assign_all, init_nolock,
  update_items,
}
use cpp_linux_server.LoadBalance.Discovery.{
  Infos, has_id, del_infos, add_infos, is_nil, closed_items, on_service_change,
}
use cpp_linux_server.LoadBalance.Updates.{IsMap, NoRepeat, contains, first_of, update_items_lem}

-- Whether an info of the type has the id.
unfoldable pub listed : ℕ → ℕ → Infos → Bool
listed type id [] = false
listed type id ((k, t) ∷ rest) = ((k == id) && (t == type)) || listed type id rest

abbrev pub is_some : Option LoadBalanceItem → Bool
is_some none = false
is_some (some _) = true

-- No id twice.
unfoldable pub DistinctIds : Infos → Type 0
DistinctIds [] = Unit {0}
DistinctIds ((k, t) ∷ rest) = (has_id k rest ≡ false) × DistinctIds rest

contains-del_infos :
    (type id : ℕ) (old new : Infos)
    → contains (del_infos type old new) id ≡ (listed type id old && not (has_id id new))
unfolding del_infos listed
contains-del_infos type id [] new = refl
contains-del_infos type id ((k, t) ∷ old) new = ground (arith, contains-del_infos type id old new)

listed-has_id :
    (type id : ℕ) (infos : Infos) → has_id id infos ≡ false → listed type id infos ≡ false
unfolding listed has_id
listed-has_id type id [] h = refl
listed-has_id type id ((k, t) ∷ infos) h = ground (arith, listed-has_id type id infos)

NoRepeat-del_infos :
    (type : ℕ) (old new : Infos) → DistinctIds old → NoRepeat (del_infos type old new)
unfolding del_infos DistinctIds NoRepeat
NoRepeat-del_infos type [] new d = tt
NoRepeat-del_infos type ((k, t) ∷ old) new d =
    by_flag ((t == type) && not (has_id k new))
      (contains-del_infos type k old new ∙ rw (listed-has_id type k old d.0) refl)
      (NoRepeat-del_infos type old new d.1)
  where
    by_flag :
        (b : Bool)
        → contains (del_infos type old new) k ≡ false
        → NoRepeat (del_infos type old new)
        → NoRepeat (if b then k ∷ del_infos type old new else del_infos type old new)
    by_flag true h n = (h, n)
    by_flag false h n = n

is_some-add_infos :
    (make : ℕ → Option ℕ) (stream : ℕ → ℕ) (type id : ℕ) (old new : Infos)
    → ((k : ℕ) → make k ≡ some (stream k))
    → is_some (find id (add_infos make type old new)) ≡ (listed type id new && not (has_id id old))
unfolding add_infos listed find
is_some-add_infos make stream type id old [] made = refl
is_some-add_infos make stream type id old ((k, t) ∷ new) made =
    rw (made k) (ground (arith, is_some-add_infos make stream type id old new made))

not-some : (o : Option LoadBalanceItem) → is_some o ≡ false → o ≡ none
not-some none h = refl
not-some (some i) h = absurd (cc h)

add_infos-IsMap :
    (make : ℕ → Option ℕ) (stream : ℕ → ℕ) (type : ℕ) (old new : Infos)
    → ((k : ℕ) → make k ≡ some (stream k))
    → DistinctIds new
    → IsMap (add_infos make type old new)
unfolding add_infos DistinctIds IsMap
add_infos-IsMap make stream type old [] made d = tt
add_infos-IsMap make stream type old ((k, t) ∷ new) made d = rw (made k) (
    by_flag ((t == type) && not (has_id k old))
      (not-some (find k (add_infos make type old new)) (
        is_some-add_infos make stream type k old new made ∙ rw (listed-has_id type k new d.0) refl))
      (add_infos-IsMap make stream type old new made d.1))
  where
    by_flag :
        (b : Bool)
        → find k (add_infos make type old new) ≡ none
        → IsMap (add_infos make type old new)
        → IsMap (
            if b
            then (k, record { id = k; stream = some (stream k) }) ∷ add_infos make type old new
            else add_infos make type old new)
    by_flag true h m = (h, m)
    by_flag false h m = m

is_some-first_of :
    (x y : Option LoadBalanceItem) → is_some (first_of x y) ≡ (is_some x || is_some y)
is_some-first_of none y = refl
is_some-first_of (some i) y = refl

is_some-unless :
    (b : Bool) (o : Option LoadBalanceItem) → is_some (if b then none else o) ≡ (not b && is_some o)
is_some-unless true o = refl
is_some-unless false o = refl

-- Empty changes change nothing.
no_change :
    (connected : ℕ → Bool) (weight : LoadBalanceItem → ℕ) (adds : Items) (dels : List ℕ) (id : ℕ)
    (b : LoadBalance)
    → (is_nil adds && is_nil dels) ≡ true
    → get_by_id id (update_items connected weight adds dels b).1 ≡ get_by_id id b
unfolding update_items take_out assign_all init_nolock get_by_id
no_change connected weight [] [] id b h = refl
no_change connected weight [] (k ∷ dels) id b h = absurd (cc h)
no_change connected weight (a ∷ adds) dels id b h = absurd (cc h)

on_service_change-updates :
    (connected : ℕ → Bool) (weight : LoadBalanceItem → ℕ) (make : ℕ → Option ℕ) (type : ℕ)
    (old new : Infos) (id : ℕ) (b : LoadBalance)
    → get_by_id id (on_service_change connected weight make type old new b).1
      ≡ get_by_id id
          (update_items connected weight (add_infos make type old new) (del_infos type old new) b).1
unfolding on_service_change
on_service_change-updates connected weight make type old new id b = by_change _ refl
  where
    adds : Items
    adds = add_infos make type old new

    dels : List ℕ
    dels = del_infos type old new

    chosen : Bool → List LoadBalanceItem × LoadBalance
    chosen x = if x then ([], b) else (
      closed_items (update_items connected weight adds dels b).0,
      (update_items connected weight adds dels b).1,
    )

    by_change :
        (x : Bool)
        → (is_nil adds && is_nil dels) ≡ x
        → get_by_id id (chosen x).1 ≡ get_by_id id (update_items connected weight adds dels b).1
    by_change true e = sym (no_change connected weight adds dels id b e)
    by_change false e = refl

-- SDLoadBalance::onServiceChange from the infos old to the infos new of a service, where m_cb gives a
-- stream for every info and no id is twice in either list or in the balancer. For an id that has the same
-- type where it is in both: if the balancer has an item for it exactly where the old infos of the type have it,
-- then afterwards exactly where the new ones do.
pub on_service_change-follows :
    (connected : ℕ → Bool) (weight : LoadBalanceItem → ℕ) (make : ℕ → Option ℕ) (stream : ℕ → ℕ)
    (type : ℕ) (old new : Infos) (id : ℕ) (b : LoadBalance)
    → ((k : ℕ) → make k ≡ some (stream k))
    → DistinctIds old
    → DistinctIds new
    → IsMap b.datas
    → is_some (get_by_id id b) ≡ listed type id old
    → (has_id id old ≡ true → has_id id new ≡ true → listed type id old ≡ listed type id new)
    → is_some (get_by_id id (on_service_change connected weight make type old new b).1)
      ≡ listed type id new
on_service_change-follows connected weight make stream type old new id b made dold dnew m mirrors
      same =
    let adds : Items = add_infos make type old new in
    let dels : List ℕ = del_infos type old new in
    let (_, lookup, _) =
      update_items_lem connected weight adds dels b m
        (add_infos-IsMap make stream type old new made dnew)
        (NoRepeat-del_infos type old new dold) in
    ap is_some (on_service_change-updates connected weight make type old new id b ∙ lookup id)
    ∙ is_some-first_of (find id adds) (if contains dels id then none else get_by_id id b)
    ∙ rw
        (
          is_some-add_infos make stream type id old new made,
          is_some-unless (contains dels id) (get_by_id id b),
          contains-del_infos type id old new,
          mirrors,
        )
        (decide (listed type id old) (listed type id new) (has_id id old) (has_id id new)
          (listed-has_id type id old) (listed-has_id type id new) same)
  where
    decide :
        (lo ln ho hn : Bool)
        → (ho ≡ false → lo ≡ false)
        → (hn ≡ false → ln ≡ false)
        → (ho ≡ true → hn ≡ true → lo ≡ ln)
        → ((ln && not ho) || (not (lo && not hn) && lo)) ≡ ln
    decide lo ln false hn f g h = rw (f refl) (when_old ln)
      where
        when_old : (x : Bool) → ((x && true) || false) ≡ x
        when_old true = refl
        when_old false = refl
    decide lo ln true false f g h = rw (g refl) (gone lo)
      where
        gone : (x : Bool) → (not (x && true) && x) ≡ false
        gone true = refl
        gone false = refl
    decide lo ln true true f g h = rw (h refl refl) (stays ln)
      where
        stays : (x : Bool) → ((x && false) || (not (x && false) && x)) ≡ x
        stays true = refl
        stays false = refl
