-- ===== src/Timer/Expiry.antt =====
-- listExpiredCb: which timers expire, what is called, and what the set is afterwards.
use cpp_linux_server.Base.{
  ℕ, suc, ◌+◌, ◌%◌, ◌^◌, ◌≤◌, ◌<◌, ◌≡◌, ◌≢◌, refl, sym, ap, ◌∙◌, List, [], ◌∷◌, ◌++◌, map, Bool,
  true, false, ◌==◌, if◌then◌else◌, Option, none, arith, All, Bool-cases, inl, inr, subst, ==_iff,
  lt→ltb, le→ltb, le-cases,
}
use cpp_linux_server.Timer.{
  Timer, Heap, store, earlier, less, insert, TimerManager, take_equal, split_expired, fire, due,
  expire, detect_clock_rollover, list_expired_cb,
}
use cpp_linux_server.Timer.Order.{
  Sorted, store_other, All-imp, All-insert, insert-Sorted, store-Sorted,
}

-- The timers up to `now` and those after it, in order.
pub record Split (h : Heap) (now : ℕ) (xs expired rest : List ℕ) : Type 0 where
  pub whole : expired ++ rest ≡ xs
  pub past : All (λ a. (h a).next ≤ now) expired
  pub future : All (λ a. now < (h a).next) rest

earlier-false : (n a m b : ℕ) → earlier n a m b ≡ false → m ≤ n
earlier-false n a m b p = ground arith

earlier-true : (n a m b : ℕ) → earlier n a m b ≡ true → n ≤ m
earlier-true n a m b p = ground arith

Split-keep :
    (h : Heap) (now a : ℕ) (xs l r : List ℕ)
    → (h a).next ≤ now
    → Split h now xs l r
    → Split h now (a ∷ xs) (a ∷ l) r
Split-keep h now a xs l r e s = record {
  whole = ap (λ (ys : List ℕ). a ∷ ys) s.whole;
  past = (e, s.past);
  future = s.future;
}

-- From the first timer on that is not before `now`, the rest is not.
from_then :
    (h : Heap) (k a : ℕ) (xs : List ℕ)
    → k ≤ (h a).next
    → All (λ b. less h a b ≡ true) xs
    → All (λ b. k ≤ (h b).next) xs
from_then h k a xs e s =
    All-imp xs (λ b l. omega (arith, earlier-true (h a).next a (h b).next b l)) s

take_equal_lem :
    (h : Heap) (now : ℕ) (xs : List ℕ)
    → Sorted h xs
    → All (λ a. now ≤ (h a).next) xs
    → Split h now xs (take_equal h now xs).0 (take_equal h now xs).1
unfolding take_equal
take_equal_lem h now [] s f = record { whole = refl; past = tt; future = tt }
take_equal_lem h now (a ∷ xs) s f = elim (Bool-cases ((h a).next == now)) [
  | inl e ↦
      let same : (h a).next ≡ now = (==_iff (h a).next now).0 e in
      rw e (
        Split-keep h now a xs (take_equal h now xs).0 (take_equal h now xs).1 (omega arith)
          (take_equal_lem h now xs s.1 f.1))
  | inr e ↦
      let later : suc now ≤ (h a).next = ground arith in
      rw e
        (record { whole = refl; past = tt; future = (later, from_then h (suc now) a xs later s.0) })
]

split_expired_lem :
    (h : Heap) (now probe : ℕ) (xs : List ℕ)
    → Sorted h xs
    → Split h now xs (split_expired h now probe xs).0 (split_expired h now probe xs).1
unfolding split_expired
split_expired_lem h now probe [] s = record { whole = refl; past = tt; future = tt }
split_expired_lem h now probe (a ∷ xs) s = elim (Bool-cases (earlier (h a).next a now probe)) [
  | inl e ↦ rw e (
      Split-keep h now a xs (split_expired h now probe xs).0 (split_expired h now probe xs).1
        (earlier-true (h a).next a now probe e) (split_expired_lem h now probe xs s.1))
  | inr e ↦
      let here : now ≤ (h a).next = earlier-false (h a).next a now probe e in
      rw e (take_equal_lem h now (a ∷ xs) s (here, from_then h now a xs here s.0))
]

-- No timer of the one list is in the other.
abbrev Apart : List ℕ → List ℕ → Type 0
Apart xs ys = All (λ x. All (λ y. x ≢ y) ys) xs

less-differ : (h : Heap) (a b : ℕ) → less h a b ≡ true → a ≢ b
less-differ h a b e d = absurd (ground (arith, ap (λ x. less h a x) d))

All-split {ℓ} : (P : ℕ → Type ℓ) (xs ys : List ℕ) → All P (xs ++ ys) → All P xs × All P ys
All-split P [] ys p = (tt, p)
All-split P (x ∷ xs) ys p = let (l, r) = All-split P xs ys p.1 in ((p.0, l), r)

Sorted-split :
    (h : Heap) (xs ys : List ℕ) → Sorted h (xs ++ ys) → Sorted h xs × Sorted h ys × Apart xs ys
Sorted-split h [] ys s = (tt, s, tt)
Sorted-split h (x ∷ xs) ys s =
    let (l, r) = All-split (λ y. less h x y ≡ true) xs ys s.0 in
    let (s₁, s₂, d) = Sorted-split h xs ys s.1 in
    ((l, s₁), s₂, (All-imp ys (λ y e. less-differ h x y e) r, d))

callbacks-store :
    (h : Heap) (a : ℕ) (t : Timer) (xs : List ℕ)
    → All (λ b. b ≢ a) xs
    → map (λ b. (store h a t b).cb) xs ≡ map (λ b. (h b).cb) xs
callbacks-store h a t [] d = refl
callbacks-store h a t (b ∷ xs) d =
    rw (store_other h a b t d.0)
      (ap (λ (ys : List (Option ℕ)). (h b).cb ∷ ys) (callbacks-store h a t xs d.1))

-- What the loop over the expired timers leaves.
abbrev Fired : ℕ → List ℕ → Heap → List ℕ → List (Option ℕ) × (Heap × List ℕ) → Type 0
Fired now xs h ts r = (r.0 ≡ map (λ b. (h b).cb) xs) × Sorted r.1.0 r.1.1

apart_sym : (a : ℕ) (xs : List ℕ) → All (λ b. a ≢ b) xs → All (λ b. b ≢ a) xs
apart_sym a xs d = All-imp xs (λ b n e. n (sym e)) d

either :
    (b : Bool) (cs : List (Option ℕ)) (p q : List (Option ℕ) × (Heap × List ℕ))
    → (p.0 ≡ cs) × Sorted p.1.0 p.1.1
    → (q.0 ≡ cs) × Sorted q.1.0 q.1.1
    → ((if b then p else q).0 ≡ cs) × Sorted (if b then p else q).1.0 (if b then p else q).1.1
either true cs p q x y = x
either false cs p q x y = y

fire-Fired :
    (now : ℕ) (xs : List ℕ) (h : Heap) (ts : List ℕ)
    → Sorted h xs
    → Sorted h ts
    → Apart xs ts
    → Fired now xs h ts (fire now xs h ts)
unfolding fire
fire-Fired now [] h ts s₁ s₂ d = (refl, s₂)
fire-Fired now (a ∷ xs) h ts s₁ s₂ d =
    let others : All (λ b. b ≢ a) xs = All-imp xs (λ b e q. less-differ h a b e (sym q)) s₁.0 in
    let again : Timer = record (h a) { next = (now + (h a).ms) % 2 ^ 64 } in
    let over : Timer = record (h a) { cb = none } in
    let g : Heap = store h a again in
    let k : Heap = store h a over in
    let (c, s) =
      fire-Fired now xs g (insert g a ts) (store-Sorted h a again xs others s₁.1)
        (insert-Sorted g a ts d.0 (store-Sorted h a again ts (apart_sym a ts d.0) s₂))
        (apart_insert g ts xs others d.1) in
    let (c', s') =
      fire-Fired now xs k ts (store-Sorted h a over xs others s₁.1)
        (store-Sorted h a over ts (apart_sym a ts d.0) s₂) d.1 in
    let rest : List (Option ℕ) = map (λ b. (h b).cb) xs in
    let (e, f) =
      either (h a).recurring rest (fire now xs g (insert g a ts)) (fire now xs k ts)
        (c ∙ callbacks-store h a again xs others, s)
        (c' ∙ callbacks-store h a over xs others, s') in
    (ap (λ (ys : List (Option ℕ)). (h a).cb ∷ ys) e, f)
  where
    apart_insert :
        (g : Heap) (ts xs : List ℕ) → All (λ b. b ≢ a) xs → Apart xs ts → Apart xs (insert g a ts)
    apart_insert g ts [] o d = tt
    apart_insert g ts (x ∷ xs) o d =
        (All-insert (λ y. x ≢ y) g a ts o.0 d.0, apart_insert g ts xs o.1 d.1)

detect-Sorted :
    (now : ℕ) (m : TimerManager)
    → Sorted m.heap m.timers
    → Sorted (detect_clock_rollover now m).1.heap (detect_clock_rollover now m).1.timers
unfolding detect_clock_rollover
detect-Sorted now m s = s

expire_lem :
    (now probe : ℕ) (m m' : TimerManager) (xs : List ℕ)
    → Sorted m.heap xs
    → Sorted m.heap m.timers
    → Sorted m'.heap m'.timers
    → (expired : List ℕ) × (rest : List ℕ) × Split m.heap now xs expired rest
      × ((expire false now probe m m' xs).0 ≡ map (λ a. (m.heap a).cb) expired)
      × Sorted (expire false now probe m m' xs).1.heap (expire false now probe m m' xs).1.timers
unfolding expire due
expire_lem now probe m m' [] s t t' =
    ([], [], record { whole = refl; past = tt; future = tt }, refl, t)
expire_lem now probe m m' (a ∷ xs) s t t' = elim (le-cases (m.heap a).next now) [
  | inr later ↦ rw (lt→ltb now (m.heap a).next later) (
    [],
    a ∷ xs,
    record { whole = refl; past = tt; future = (later, from_then m.heap (suc now) a xs later s.0) },
    refl,
    t',
  )
  | inl past ↦
      let r : List ℕ × List ℕ = split_expired m.heap now probe (a ∷ xs) in
      let split : Split m.heap now (a ∷ xs) r.0 r.1 =
        split_expired_lem m.heap now probe (a ∷ xs) s in
      let (s₁, s₂, d) =
        Sorted-split m.heap r.0 r.1 (subst (λ ys. Sorted m.heap ys) (sym split.whole) s) in
      let (c, s₃) = fire-Fired now r.0 m.heap r.1 s₁ s₂ d in
      rw (le→ltb now (m.heap a).next past) (r.0, r.1, split, c, s₃)
]

-- listExpiredCb of a set in order, where the clock has not gone back by more than an hour: it calls
-- the callbacks of exactly the timers with m_next up to `now`, in the order of the set, and the set
-- that it leaves is in order.
pub list_expired_cb_lem :
    (now probe : ℕ) (m : TimerManager)
    → Sorted m.heap m.timers
    → (detect_clock_rollover now m).0 ≡ false
    → (expired : List ℕ) × (rest : List ℕ) × Split m.heap now m.timers expired rest
      × ((list_expired_cb now probe m).0 ≡ map (λ a. (m.heap a).cb) expired)
      × Sorted (list_expired_cb now probe m).1.heap (list_expired_cb now probe m).1.timers
unfolding list_expired_cb
list_expired_cb_lem now probe m s e =
    rw e
      (expire_lem now probe m (detect_clock_rollover now m).1 m.timers s s (detect-Sorted now m s))
