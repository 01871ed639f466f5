-- ===== src/LoadBalance/Stats.antt =====
-- The ring of statistics: a slot for each of the last seconds.
use cpp_linux_server.Base.{
  ℕ, zero, suc, ◌+◌, ◌-◌, ◌/◌, ◌%◌, ◌≤◌, ◌<◌, ◌≡◌, ◌≢◌, ◌^◌, refl, ap, sym, ◌∙◌, List, [], ◌∷◌,
  length, get_elem?, set, Bool, true, false, leb, if◌then◌else◌, some, arith, inl, inr, le-cases,
  le→leb, lt→leb, lt→ltb, length-set,
}
use native.Mathlib.Nat.{mod-lt, div-add-mod, add-mul-mod_self_right}
use cpp_linux_server.LoadBalance.{HolderStats, cleared, HolderStatsSet, clear_from, init_stats}

set-same :
    (xs : List HolderStats) (i : ℕ) → i < length xs → get_elem? (set xs i cleared) i ≡ some cleared
set-same [] i h = absurd (omega arith)
set-same (x ∷ xs) zero h = refl
set-same (x ∷ xs) (suc i) h = set-same xs i (omega arith)

set-cleared :
    (xs : List HolderStats) (i j : ℕ)
    → get_elem? xs j ≡ some cleared
    → get_elem? (set xs i cleared) j ≡ some cleared
set-cleared [] i j e = e
set-cleared (x ∷ xs) zero zero e = refl
set-cleared (x ∷ xs) zero (suc j) e = e
set-cleared (x ∷ xs) (suc i) zero e = e
set-cleared (x ∷ xs) (suc i) (suc j) e = set-cleared xs i j e

set-other :
    (xs : List HolderStats) (i j : ℕ) → i ≢ j → get_elem? (set xs i cleared) j ≡ get_elem? xs j
set-other [] i j h = refl
set-other (x ∷ xs) zero zero h = absurd (h refl)
set-other (x ∷ xs) zero (suc j) h = refl
set-other (x ∷ xs) (suc i) zero h = refl
set-other (x ∷ xs) (suc i) (suc j) h = set-other xs i j (λ e. h (ap suc e))

clear_from-cleared :
    (now t steps i : ℕ) (xs : List HolderStats)
    → get_elem? xs i ≡ some cleared
    → get_elem? (clear_from now t steps xs) i ≡ some cleared
unfolding clear_from
clear_from-cleared now t zero i xs e = e
clear_from-cleared now t (suc steps) i xs e =
    by_time (leb t now)
      (clear_from-cleared now (suc t % 2 ^ 32) steps i _ (set-cleared xs (t % length xs) i e))
  where
    by_time :
        (b : Bool)
        → get_elem? (clear_from now (suc t % 2 ^ 32) steps (set xs (t % length xs) cleared)) i
          ≡ some cleared
        → get_elem?
            (if b
              then clear_from now (suc t % 2 ^ 32) steps (set xs (t % length xs) cleared)
              else xs)
            i
          ≡ some cleared
    by_time true h = h
    by_time false h = e

clear_from-hits :
    (now t steps d : ℕ) (xs : List HolderStats)
    → now < 2 ^ 32 - 1
    → 0 < length xs
    → d < steps
    → t + d ≤ now
    → get_elem? (clear_from now t steps xs) ((t + d) % length xs) ≡ some cleared
unfolding clear_from
clear_from-hits now t zero d xs early some_slots near h = absurd (omega arith)
clear_from-hits now t (suc steps) zero xs early some_slots near h =
    let same : t + 0 ≡ t = omega arith in
    rw (same, le→leb t now (omega arith))
      (clear_from-cleared now (suc t % 2 ^ 32) steps (t % length xs) _
        (set-same xs (t % length xs) (mod-lt t some_slots)))
clear_from-hits now t (suc steps) (suc d) xs early some_slots near h =
    let long : length (set xs (t % length xs) cleared) ≡ length xs =
      length-set {0} xs (t % length xs) cleared in
    let onward : suc t + d ≡ t + suc d = omega arith in
    let up : suc t % 2 ^ 32 ≡ suc t = omega arith in
    rw (le→leb t now (omega arith), up)
      (rw (long, onward) at
        (clear_from-hits now (suc t) steps d (set xs (t % length xs) cleared) early
          (omega (arith, long)) (omega arith) (omega arith)))

clear_from-others :
    (now t steps i : ℕ) (xs : List HolderStats)
    → now < 2 ^ 32 - 1
    → ((u : ℕ) → t ≤ u → u ≤ now → u % length xs ≢ i)
    → get_elem? (clear_from now t steps xs) i ≡ get_elem? xs i
unfolding clear_from
clear_from-others now t zero i xs small apart = refl
clear_from-others now t (suc steps) i xs small apart = elim (le-cases t now) [
  | inl early ↦
      let long : length (set xs (t % length xs) cleared) ≡ length xs =
        length-set {0} xs (t % length xs) cleared in
      let up : suc t % 2 ^ 32 ≡ suc t = omega arith in
      rw (le→leb t now early, up)
        (clear_from-others now (suc t) steps i (set xs (t % length xs) cleared) small
            (λ u from to. rw long (apart u (omega arith) to))
          ∙ set-other xs (t % length xs) i (apart t (omega arith) early))
  | inr late ↦ rw (lt→leb t now late) refl
]

-- HolderStatsSet::init of at least one slot, at a time after the last and before the second 2^32 - 1: the slot of
-- every second from then to now, however many they are, is cleared, and a slot that is of none of them is
-- not changed.
pub init_stats_lem :
    (now u i : ℕ) (s : HolderStatsSet)
    → now < 2 ^ 32 - 1
    → 0 < length s.stats
    → s.last_update_time < u
    → u ≤ now
    → ((w : ℕ) → s.last_update_time < w → w ≤ now → w % length s.stats ≢ i)
    → (get_elem? (init_stats now s).stats (u % length s.stats) ≡ some cleared)
      × (get_elem? (init_stats now s).stats i ≡ get_elem? s.stats i)
unfolding init_stats
init_stats_lem now u i s early some_slots from to apart =
    let n : ℕ = length s.stats in
    let t : ℕ = suc s.last_update_time in
    let d : ℕ = (u - t) % n in
    let round : (t + d) % n ≡ u % n = sym (
      ap (λ (x : ℕ). x % n) (omega (arith, div-add-mod (u - t) n))
      ∙ add-mul-mod_self_right (t + d) ((u - t) / n) n) in
    let up : t % 2 ^ 32 ≡ t = omega arith in
    rw (lt→ltb s.last_update_time now (omega arith), up)
      (
        rw round at (
            clear_from-hits now t n d s.stats early some_slots (mod-lt (u - t) some_slots)
              (omega (arith, div-add-mod (u - t) n))),
        clear_from-others now t n i s.stats early (λ w a b. apart w (omega arith) b),
      )
