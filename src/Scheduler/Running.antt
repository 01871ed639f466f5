-- ===== src/Scheduler/Running.antt =====
-- What a round of run makes of the queue and of the counts.
use cpp_linux_server.Base.{
  ℕ, suc, ◌+◌, ◌-◌, ◌≡◌, refl, ap, sym, ◌∙◌, List, [], ◌∷◌, ◌++◌, length, Bool, true, false, ◌&&◌,
  if◌then◌else◌, Option, none, some, arith, inl, inr, ◌⊎◌, append_assoc, append-nil,
}
use cpp_linux_server.Scheduler.{
  FiberState, ran_fiber, fiber_init, hold, exec, term, ready, except, is_over, FiberAndThread,
  Scheduler, set_state, schedule_no_lock, schedule_all, verdict, taken, Picked, pick_loop, pick,
  counted, act, is_none, swap_in, no_longer_active, settle, settle_cb, run_cb_part, run_entry,
  run_idle, run_round,
}
use cpp_linux_server.Scheduler.Picking.{moves_up}

-- Entries were added at the end of the queue, and `down` threads are no longer active.
pub record Grew (down : ℕ) (s s' : Scheduler) : Type 0 where
  pub more : List FiberAndThread
  pub fibers_eq : s'.fibers ≡ s.fibers ++ more
  pub active_eq : s'.active_thread_count ≡ s.active_thread_count - down
  pub idle_eq : s'.idle_thread_count ≡ s.idle_thread_count

Grew-then : {a b : ℕ} {s₁ s₂ s₃ : Scheduler} → Grew a s₁ s₂ → Grew b s₂ s₃ → Grew (a + b) s₁ s₃
Grew-then {s₁ = s₁} g h = record {
  more = g.more ++ h.more;
  fibers_eq =
      h.fibers_eq
      ∙ ap (λ (us : List FiberAndThread). us ++ h.more) g.fibers_eq
      ∙ append_assoc s₁.fibers g.more h.more;
  active_eq = omega (arith, g.active_eq, h.active_eq);
  idle_eq = h.idle_eq ∙ g.idle_eq;
}

Grew-same :
    (s s' : Scheduler)
    → s'.fibers ≡ s.fibers
    → s'.active_thread_count ≡ s.active_thread_count
    → s'.idle_thread_count ≡ s.idle_thread_count
    → Grew 0 s s'
Grew-same s s' e f g = record {
  more = [];
  fibers_eq = e ∙ sym (append-nil s.fibers);
  active_eq = omega (arith, f);
  idle_eq = g;
}

schedule_no_lock-Grew : (t : FiberAndThread) (s : Scheduler) → Grew 0 s (schedule_no_lock t s).1
unfolding schedule_no_lock
schedule_no_lock-Grew t s = by_content (is_none t.fiber) (is_none t.cb)
  where
    by_content :
        (a b : Bool) → Grew 0 s (if a && b then s else record s { fibers = s.fibers ++ (t ∷ []) })
    by_content true true = Grew-same s s refl refl refl
    by_content true false = record {
      more = t ∷ [];
      fibers_eq = refl;
      active_eq = omega arith;
      idle_eq = refl;
    }
    by_content false b = record {
      more = t ∷ [];
      fibers_eq = refl;
      active_eq = omega arith;
      idle_eq = refl;
    }

schedule_all-Grew : (ts : List FiberAndThread) (s : Scheduler) → Grew 0 s (schedule_all ts s).1
unfolding schedule_all
schedule_all-Grew [] s = Grew-same s s refl refl refl
schedule_all-Grew (t ∷ ts) s =
    Grew-then (schedule_no_lock-Grew t s) (schedule_all-Grew ts (schedule_no_lock t s).1)

swap_in-Grew :
    (f : ℕ) (left_in : FiberState) (ts : List FiberAndThread) (s : Scheduler)
    → Grew 0 s (swap_in f left_in ts s)
swap_in-Grew f left_in ts s =
    let g = schedule_all-Grew ts (record s { states = set_state f exec s.states }) in
    record { more = g.more; fibers_eq = g.fibers_eq; active_eq = g.active_eq; idle_eq = g.idle_eq }

settle-Grew : (f : ℕ) (left_in : FiberState) (s : Scheduler) → Grew 0 s (settle f left_in s)
settle-Grew f ready s =
    schedule_no_lock-Grew (record { fiber = some f; cb = none; thread = none }) s
settle-Grew f term s = Grew-same s s refl refl refl
settle-Grew f except s = Grew-same s s refl refl refl
settle-Grew f fiber_init s = Grew-same s _ refl refl refl
settle-Grew f hold s = Grew-same s _ refl refl refl
settle-Grew f exec s = Grew-same s _ refl refl refl

settle_cb-Grew : (f : ℕ) (left_in : FiberState) (s : Scheduler) → Grew 0 s (settle_cb f left_in s)
settle_cb-Grew f ready s =
    schedule_no_lock-Grew (record { fiber = some f; cb = none; thread = none }) s
settle_cb-Grew f term s = Grew-same s _ refl refl refl
settle_cb-Grew f except s = Grew-same s _ refl refl refl
settle_cb-Grew f fiber_init s = Grew-same s _ refl refl refl
settle_cb-Grew f hold s = Grew-same s _ refl refl refl
settle_cb-Grew f exec s = Grew-same s _ refl refl refl

no_longer_active-Grew : (s : Scheduler) → Grew 1 s (no_longer_active s)
no_longer_active-Grew s = record {
  more = [];
  fibers_eq = sym (append-nil s.fibers);
  active_eq = refl;
  idle_eq = refl;
}

run_cb_part-Grew :
    (cb_fiber : ℕ) (left_in : FiberState) (ts : List FiberAndThread) (t : FiberAndThread)
    (s : Scheduler)
    → Grew 1 s (run_cb_part cb_fiber left_in ts t s).1
run_cb_part-Grew cb_fiber left_in ts t s = by_cb t.cb
  where
    by_cb : (o : Option ℕ) → Grew 1 s (run_cb_part cb_fiber left_in ts (record t { cb = o }) s).1
    by_cb none = no_longer_active-Grew s
    by_cb (some c) =
        Grew-then
          (Grew-then (swap_in-Grew cb_fiber left_in ts s)
            (no_longer_active-Grew (swap_in cb_fiber left_in ts s)))
          (settle_cb-Grew cb_fiber left_in (no_longer_active (swap_in cb_fiber left_in ts s)))

run_entry-Grew :
    (cb_fiber : ℕ) (left_in : FiberState) (ts : List FiberAndThread) (t : FiberAndThread)
    (s : Scheduler)
    → Grew 1 s (run_entry cb_fiber left_in ts t s).1
unfolding run_entry
run_entry-Grew cb_fiber left_in ts t s = by_fiber t.fiber
  where
    by_over :
        (f : ℕ) (u : FiberAndThread) (b : Bool)
        → Grew 1 s
            (if b
              then run_cb_part cb_fiber left_in ts u s
              else (ran_fiber f, settle f left_in (no_longer_active (swap_in f left_in ts s)))).1
    by_over f u true = run_cb_part-Grew cb_fiber left_in ts u s
    by_over f u false =
        Grew-then
          (Grew-then (swap_in-Grew f left_in ts s) (no_longer_active-Grew (swap_in f left_in ts s)))
          (settle-Grew f left_in (no_longer_active (swap_in f left_in ts s)))

    by_fiber :
        (o : Option ℕ) → Grew 1 s (run_entry cb_fiber left_in ts (record t { fiber = o }) s).1
    by_fiber none = run_cb_part-Grew cb_fiber left_in ts (record t { fiber = none }) s
    by_fiber (some f) = by_over f (record t { fiber = some f }) (is_over (s.states f))

run_idle-Grew : (ts : List FiberAndThread) (s : Scheduler) → Grew 0 s (run_idle ts s)
run_idle-Grew ts s =
    let g = schedule_all-Grew ts (record s { idle_thread_count = s.idle_thread_count + 1 }) in
    record {
      more = g.more;
      fibers_eq = g.fibers_eq;
      active_eq = g.active_eq;
      idle_eq = omega (arith, g.idle_eq);
    }

-- What a round leaves of the queue: the entry that is taken is gone, new ones come at the end.
abbrev pub Balanced : Scheduler → Scheduler → Type 0
Balanced s s' =
    (s'.active_thread_count ≡ s.active_thread_count) × (s'.idle_thread_count ≡ s.idle_thread_count)

-- The end of a round, on the queue `ts` behind the loop.
act-Grew :
    (cb_fiber : ℕ) (left_in : FiberState) (scheduled : List FiberAndThread)
    (o : Option FiberAndThread) (ts : List FiberAndThread) (s : Scheduler)
    → ((more : List FiberAndThread) × ((act cb_fiber left_in scheduled o (counted o ts s)).1.fibers
          ≡ ts ++ more))
      × Balanced s (act cb_fiber left_in scheduled o (counted o ts s)).1
act-Grew cb_fiber left_in scheduled none ts s =
    let g = run_idle-Grew scheduled (counted none ts s) in
    ((g.more, g.fibers_eq), (omega (arith, g.active_eq), g.idle_eq))
act-Grew cb_fiber left_in scheduled (some t) ts s =
    let g = run_entry-Grew cb_fiber left_in scheduled t (counted (some t) ts s) in
    ((g.more, g.fibers_eq), (omega (arith, g.active_eq), g.idle_eq))

-- A round of run on a thread that may take the entry t of the queue, whatever the fiber that runs does and
-- schedules: it takes t, or an entry before t, and then t is one place further up in the queue. In either
-- case the counts of active and of idle threads are behind the round what they were before.
pub run_round-moves_up :
    (me cb_fiber : ℕ) (left_in : FiberState) (scheduled : List FiberAndThread)
    (before : List FiberAndThread) (t : FiberAndThread) (behind : List FiberAndThread)
    (s : Scheduler)
    → s.fibers ≡ before ++ (t ∷ behind)
    → verdict me s.states t ≡ taken
    → (((pick_loop me s.states s.fibers).entry ≡ some t)
        ⊎ ((before' : List FiberAndThread) × (behind' : List FiberAndThread) × ((run_round me
                cb_fiber left_in scheduled s).1.fibers
              ≡ before' ++ (t ∷ behind'))
            × (length before ≡ suc (length before'))))
      × Balanced s (run_round me cb_fiber left_in scheduled s).1
unfolding run_round pick
run_round-moves_up me cb_fiber left_in scheduled before t behind s queue may =
    let p : Picked = pick_loop me s.states s.fibers in
    let (grew, balanced) = act-Grew cb_fiber left_in scheduled p.entry p.left s in
    let same : pick_loop me s.states (before ++ (t ∷ behind)) ≡ p =
      ap (pick_loop me s.states) (sym queue) in
    (moved grew same (moves_up me s.states before t behind may), balanced)
  where
    moved :
        ((more : List FiberAndThread) × ((run_round me cb_fiber left_in scheduled s).1.fibers
            ≡ (pick_loop me s.states s.fibers).left ++ more))
        → pick_loop me s.states (before ++ (t ∷ behind)) ≡ pick_loop me s.states s.fibers
        → ((pick_loop me s.states (before ++ (t ∷ behind))).entry ≡ some t)
          ⊎ ((before' : List FiberAndThread) × (u : FiberAndThread) × ((pick_loop me s.states
                  (before ++ (t ∷ behind))).entry
                ≡ some u)
              × ((pick_loop me s.states (before ++ (t ∷ behind))).left ≡ before' ++ (t ∷ behind))
              × (length before ≡ suc (length before')))
        → ((pick_loop me s.states s.fibers).entry ≡ some t)
          ⊎ ((before' : List FiberAndThread) × (behind' : List FiberAndThread) × ((run_round me
                  cb_fiber left_in scheduled s).1.fibers
                ≡ before' ++ (t ∷ behind'))
              × (length before ≡ suc (length before')))
    moved (more, grew) same (inl e) = inl (sym (ap (λ (p : Picked). p.entry) same) ∙ e)
    moved (more, grew) same (inr (before', u, _, e, shorter)) = inr (
      before',
      behind ++ more,
      grew
          ∙ ap (λ (us : List FiberAndThread). us ++ more)
              (sym (ap (λ (p : Picked). p.left) same) ∙ e)
          ∙ append_assoc before' (t ∷ behind) more,
      shorter,
    )
