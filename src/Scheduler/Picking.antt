-- ===== src/Scheduler/Picking.antt =====
-- Which entry of the queue a thread takes.
use cpp_linux_server.Base.{
  ℕ, suc, ◌≡◌, ◌≢◌, refl, ap, ◌∙◌, List, [], ◌∷◌, ◌++◌, length, none, some, All, inl, inr, ◌⊎◌,
}
use cpp_linux_server.Scheduler.{
  FiberState, FiberAndThread, Verdict, elsewhere, running, taken, verdict, Picked, passed,
  pick_loop,
}

-- The entry waits for another thread, or its fiber runs.
abbrev pub IsPassed : ℕ → (ℕ → FiberState) → FiberAndThread → Type 0
IsPassed me states t = verdict me states t ≢ taken

-- The entry that was taken, with what stands before and behind it.
pub record Took (me : ℕ) (states : ℕ → FiberState) (ts : List FiberAndThread) (p : Picked)
    : Type 0 where
  pub before : List FiberAndThread
  pub entry : FiberAndThread
  pub behind : List FiberAndThread
  pub queue_eq : ts ≡ before ++ (entry ∷ behind)
  pub entry_eq : p.entry ≡ some entry
  pub left_eq : p.left ≡ before ++ behind
  pub may_run : verdict me states entry ≡ taken
  pub first : All (IsPassed me states) before

-- Every entry was passed.
pub record TookNone (me : ℕ) (states : ℕ → FiberState) (ts : List FiberAndThread) (p : Picked)
    : Type 0 where
  pub entry_eq : p.entry ≡ none
  pub left_eq : p.left ≡ ts
  pub all_passed : All (IsPassed me states) ts

Verdict-cases :
    (v : Verdict)
    → (v ≡ taken)
      ⊎ ((v ≢ taken)
          × ((t : FiberAndThread) (ts : List FiberAndThread) (p : Picked)
              → ((passed t v ts p).entry ≡ p.entry) × ((passed t v ts p).left ≡ t ∷ p.left)))
Verdict-cases taken = inl refl
Verdict-cases elsewhere = inr ((λ e. absurd (cc e)), λ t ts p. (refl, refl))
Verdict-cases running = inr ((λ e. absurd (cc e)), λ t ts p. (refl, refl))

-- The loop over m_fibers takes the first entry that is for any thread or for this one and whose fiber does
-- not run, and leaves the others in their order; it takes none only where there is no such entry.
pub pick_loop-Took :
    (me : ℕ) (states : ℕ → FiberState) (ts : List FiberAndThread)
    → Took me states ts (pick_loop me states ts) ⊎ TookNone me states ts (pick_loop me states ts)
unfolding pick_loop
pick_loop-Took me states [] = inr (record { entry_eq = refl; left_eq = refl; all_passed = tt })
pick_loop-Took me states (t ∷ ts) = elim (Verdict-cases (verdict me states t)) [
  | inl here ↦ rw here (
      inl (record {
        before = [];
        entry = t;
        behind = ts;
        queue_eq = refl;
        entry_eq = refl;
        left_eq = refl;
        may_run = here;
        first = tt;
      }))
  | inr (not_here, same) ↦
      onward not_here (same t ts (pick_loop me states ts)) (pick_loop-Took me states ts)
]
  where
    onward :
        IsPassed me states t
        → ((passed t (verdict me states t) ts (pick_loop me states ts)).entry
            ≡ (pick_loop me states ts).entry)
          × ((passed t (verdict me states t) ts (pick_loop me states ts)).left
              ≡ t ∷ (pick_loop me states ts).left)
        → Took me states ts (pick_loop me states ts)
          ⊎ TookNone me states ts (pick_loop me states ts)
        → Took me states (t ∷ ts) (passed t (verdict me states t) ts (pick_loop me states ts))
          ⊎ TookNone me states (t ∷ ts) (passed t (verdict me states t) ts (pick_loop me states ts))
    onward not_here (e, l) (inl k) = inl (record {
      before = t ∷ k.before;
      entry = k.entry;
      behind = k.behind;
      queue_eq = ap (λ (us : List FiberAndThread). t ∷ us) k.queue_eq;
      entry_eq = e ∙ k.entry_eq;
      left_eq = l ∙ ap (λ (us : List FiberAndThread). t ∷ us) k.left_eq;
      may_run = k.may_run;
      first = (not_here, k.first);
    })
    onward not_here (e, l) (inr k) = inr (record {
      entry_eq = e ∙ k.entry_eq;
      left_eq = l ∙ ap (λ (us : List FiberAndThread). t ∷ us) k.left_eq;
      all_passed = (not_here, k.all_passed);
    })

-- Where an entry that may be taken stands in the queue, it is taken itself, or one before it is and it moves up.
pub moves_up :
    (me : ℕ) (states : ℕ → FiberState) (before : List FiberAndThread) (t : FiberAndThread)
    (behind : List FiberAndThread)
    → verdict me states t ≡ taken
    → ((pick_loop me states (before ++ (t ∷ behind))).entry ≡ some t)
      ⊎ ((before' : List FiberAndThread) × (u : FiberAndThread) × ((pick_loop me states
              (before ++ (t ∷ behind))).entry
            ≡ some u)
          × ((pick_loop me states (before ++ (t ∷ behind))).left ≡ before' ++ (t ∷ behind))
          × (length before ≡ suc (length before')))
unfolding pick_loop
moves_up me states [] t behind may = inl (rw may refl)
moves_up me states (u ∷ before) t behind may = elim (Verdict-cases (verdict me states u)) [
  | inl here ↦ rw here (inr (before, u, refl, refl, refl))
  | inr (not_here, same) ↦
      further (same u (before ++ (t ∷ behind)) (pick_loop me states (before ++ (t ∷ behind))))
        (moves_up me states before t behind may)
]
  where
    rest : Picked
    rest = pick_loop me states (before ++ (t ∷ behind))

    further :
        ((passed u (verdict me states u) (before ++ (t ∷ behind)) rest).entry ≡ rest.entry)
          × ((passed u (verdict me states u) (before ++ (t ∷ behind)) rest).left ≡ u ∷ rest.left)
        → (rest.entry ≡ some t)
          ⊎ ((before' : List FiberAndThread) × (w : FiberAndThread) × (rest.entry ≡ some w)
              × (rest.left ≡ before' ++ (t ∷ behind))
              × (length before ≡ suc (length before')))
        → ((passed u (verdict me states u) (before ++ (t ∷ behind)) rest).entry ≡ some t)
          ⊎ ((before' : List FiberAndThread) × (w : FiberAndThread) × ((passed u
                  (verdict me states u)
                  (before ++ (t ∷ behind))
                  rest).entry
                ≡ some w)
              × ((passed u (verdict me states u) (before ++ (t ∷ behind)) rest).left
                  ≡ before' ++ (t ∷ behind))
              × (suc (length before) ≡ suc (length before')))
    further (e, l) (inl k) = inl (e ∙ k)
    further (e, l) (inr (before', w, f, g, h)) =
        inr (u ∷ before', w, e ∙ f, l ∙ ap (λ (us : List FiberAndThread). u ∷ us) g, ap suc h)
