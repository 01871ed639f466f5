-- ===== src/Timer/Order.antt =====
-- The order of the set of timers, and that insert and remove keep it.
use cpp_linux_server.Base.{
  ℕ, ◌≡◌, ◌≢◌, refl, List, [], ◌∷◌, true, false, ◌==◌, arith, All, Bool-cases, inl, inr, ==_iff,
}
use cpp_linux_server.Timer.{Timer, Heap, store, earlier, less, insert}

earlier_trans :
    (n a m b k c : ℕ) → earlier n a m b ≡ true → earlier m b k c ≡ true → earlier n a k c ≡ true
earlier_trans n a m b k c p q = ground arith

earlier_total : (n a m b : ℕ) → a ≢ b → earlier n a m b ≡ false → earlier m b n a ≡ true
earlier_total n a m b d p = ground arith

-- Each timer before all that follow it.
abbrev pub Sorted : Heap → List ℕ → Type 0
Sorted h [] = Unit {0}
Sorted h (a ∷ xs) = All (λ b. less h a b ≡ true) xs × Sorted h xs

pub store_same : (h : Heap) (a : ℕ) (t : Timer) → store h a t a ≡ t
store_same h a t = rw ((==_iff a a).1 refl) refl

pub store_other : (h : Heap) (a b : ℕ) (t : Timer) → b ≢ a → store h a t b ≡ h b
store_other h a b t d = elim (Bool-cases (b == a)) [
  | inl e ↦ absurd (d ((==_iff b a).0 e))
  | inr e ↦ rw e refl
]

pub All-imp {ℓ κ} :
    {P : ℕ → Type ℓ} {Q : ℕ → Type κ} (xs : List ℕ) → ((x : ℕ) → P x → Q x) → All P xs → All Q xs
All-imp [] f h = tt
All-imp (x ∷ xs) f h = (f x h.0, All-imp xs f h.1)

pub All-insert {ℓ} :
    (P : ℕ → Type ℓ) (h : Heap) (a : ℕ) (xs : List ℕ) → P a → All P xs → All P (insert h a xs)
unfolding insert
All-insert P h a [] p q = (p, tt)
All-insert P h a (b ∷ bs) p q = elim (Bool-cases (less h a b)) [
  | inl e ↦ rw e (p, q)
  | inr e ↦ elim (Bool-cases (less h b a)) [
    | inl f ↦ rw (e, f) (q.0, All-insert P h a bs p q.1)
    | inr f ↦ rw (e, f) q
  ]
]

pub insert-Sorted :
    (h : Heap) (a : ℕ) (xs : List ℕ) → All (λ b. a ≢ b) xs → Sorted h xs → Sorted h (insert h a xs)
unfolding insert
insert-Sorted h a [] d s = (tt, tt)
insert-Sorted h a (b ∷ bs) d s = elim (Bool-cases (less h a b)) [
  | inl e ↦
      rw e
        ((e, All-imp bs (λ c q. earlier_trans (h a).next a (h b).next b (h c).next c e q) s.0), s)
  | inr e ↦
      let f : less h b a ≡ true = earlier_total (h a).next a (h b).next b d.0 e in
      rw (e, f) (All-insert (λ c. less h b c ≡ true) h a bs f s.0, insert-Sorted h a bs d.1 s.1)
]

-- A change at an address that is not in the set.
pub store-Sorted :
    (h : Heap) (a : ℕ) (t : Timer) (xs : List ℕ)
    → All (λ b. b ≢ a) xs
    → Sorted h xs
    → Sorted (store h a t) xs
store-Sorted h a t [] d s = tt
store-Sorted h a t (b ∷ bs) d s = (go bs d.1 s.0, store-Sorted h a t bs d.1 s.1)
  where
    go :
        (cs : List ℕ)
        → All (λ c. c ≢ a) cs
        → All (λ c. less h b c ≡ true) cs
        → All (λ c. less (store h a t) b c ≡ true) cs
    go [] d' s' = tt
    go (c ∷ cs) d' s' =
        (rw (store_other h a b t d.0, store_other h a c t d'.0) s'.0, go cs d'.1 s'.1)
