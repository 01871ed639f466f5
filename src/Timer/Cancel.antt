-- ===== src/Timer/Cancel.antt =====
-- Timer::cancel: what it removes, and a second call.
use cpp_linux_server.Base.{
  ℕ, ◌≡◌, refl, ap, ◌∙◌, List, [], ◌∷◌, ◌++◌, true, false, ◌==◌, none, some, arith, All, Bool-cases,
  inl, inr, subst, ==_iff,
}
use cpp_linux_server.Timer.{Timer, Heap, store, earlier, less, remove, TimerManager, cancel}
use cpp_linux_server.Timer.Order.{Sorted, store_same}

earlier_asym : (n a m b : ℕ) → earlier n a m b ≡ true → earlier m b n a ≡ false
earlier_asym n a m b p = ground arith

earlier_self : (n a : ℕ) → earlier n a n a ≡ false
earlier_self n a = ground arith

-- The timers before `a` come first in the order.
All-before :
    (h : Heap) (b a : ℕ) (ls rs : List ℕ)
    → All (λ c. less h b c ≡ true) (ls ++ (a ∷ rs))
    → less h b a ≡ true
All-before h b a [] rs p = p.0
All-before h b a (l ∷ ls) rs p = All-before h b a ls rs p.1

remove-append :
    (h : Heap) (a : ℕ) (ls rs : List ℕ)
    → Sorted h (ls ++ (a ∷ rs))
    → remove h a (ls ++ (a ∷ rs)) ≡ some (ls ++ rs)
unfolding remove
remove-append h a [] rs s = rw (earlier_self (h a).next a) refl
remove-append h a (l ∷ ls) rs s =
    let e : less h l a ≡ true = All-before h l a ls rs s.0 in
    rw (e, earlier_asym (h l).next l (h a).next a e, remove-append h a ls rs s.1) refl

All-without : (P : ℕ → Type 0) (a : ℕ) (ls rs : List ℕ) → All P (ls ++ (a ∷ rs)) → All P (ls ++ rs)
All-without P a [] rs p = p.1
All-without P a (l ∷ ls) rs p = (p.0, All-without P a ls rs p.1)

Sorted-without :
    (h : Heap) (a : ℕ) (ls rs : List ℕ) → Sorted h (ls ++ (a ∷ rs)) → Sorted h (ls ++ rs)
Sorted-without h a [] rs s = s.1
Sorted-without h a (l ∷ ls) rs s =
    (All-without (λ b. less h l b ≡ true) a ls rs s.0, Sorted-without h a ls rs s.1)

-- Heaps with the same times have the same order.
Sorted-same :
    (g h : Heap) (xs : List ℕ) → ((b : ℕ) → (g b).next ≡ (h b).next) → Sorted h xs → Sorted g xs
Sorted-same g h [] e s = tt
Sorted-same g h (x ∷ xs) e s = (go xs s.0, Sorted-same g h xs e s.1)
  where
    go : (ys : List ℕ) → All (λ b. less h x b ≡ true) ys → All (λ b. less g x b ≡ true) ys
    go [] p = tt
    go (y ∷ ys) p = (rw (e x, e y) p.0, go ys p.1)

silent_next : (h : Heap) (a b : ℕ) → (store h a (record (h a) { cb = none }) b).next ≡ (h b).next
silent_next h a b = elim (Bool-cases (b == a)) [
  | inl e ↦
      let same : b ≡ a = (==_iff b a).0 e in
      rw same (ap (λ (t : Timer). t.next) (store_same h a (record (h a) { cb = none })))
  | inr e ↦ rw e refl
]

cancel-none : (a : ℕ) (m : TimerManager) → (m.heap a).cb ≡ none → cancel a m ≡ some (false, m)
unfolding cancel
cancel-none a m c = rw (c, cancel) refl

cancel-some :
    (a f : ℕ) (xs : List ℕ) (m : TimerManager)
    → (m.heap a).cb ≡ some f
    → remove (store m.heap a (record (m.heap a) { cb = none })) a m.timers ≡ some xs
    → cancel a m
      ≡ some
          (true, record m { heap = store m.heap a (record (m.heap a) { cb = none }); timers = xs })
unfolding cancel
cancel-some a f xs m c e = rw (c, cancel) (rw e refl)

-- cancel of a timer that is in the set, in order, and has a callback: it returns true, takes that
-- timer and no other out of the set, which stays in order; and a second cancel returns false and
-- changes nothing.
pub cancel_lem :
    (a f : ℕ) (ls rs : List ℕ) (m : TimerManager)
    → m.timers ≡ ls ++ (a ∷ rs)
    → Sorted m.heap m.timers
    → (m.heap a).cb ≡ some f
    → (m' : TimerManager) × (cancel a m ≡ some (true, m'))
      × (m'.timers ≡ ls ++ rs)
      × Sorted m'.heap m'.timers
      × (cancel a m' ≡ some (false, m'))
cancel_lem a f ls rs m e s c =
    let g : Heap = store m.heap a (record (m.heap a) { cb = none }) in
    let m' : TimerManager = record m { heap = g; timers = ls ++ rs } in
    let order : Sorted g (ls ++ (a ∷ rs)) =
      Sorted-same g m.heap (ls ++ (a ∷ rs)) (silent_next m.heap a)
        (subst (λ xs. Sorted m.heap xs) e s) in
    let gone : remove g a m.timers ≡ some (ls ++ rs) =
      ap (λ xs. remove g a xs) e ∙ remove-append g a ls rs order in
    (
      m',
      cancel-some a f (ls ++ rs) m c gone,
      refl,
      Sorted-without g a ls rs order,
      cancel-none a m'
          (ap (λ (t : Timer). t.cb) (store_same m.heap a (record (m.heap a) { cb = none }))),
    )
