-- ===== src/IoManager/Operations.antt =====
-- The operations keep the table in order, and never reach a null pointer or a failed assertion.
use cpp_linux_server.Base.{
  ℕ, ◌^◌, ◌≤◌, ◌<◌, ◌≡◌, refl, ap, ◌∙◌, List, [], length, get_elem?, Bool, true, false, not,
  if◌then◌else◌, Option, some, arith, Bool-cases, inl, inr, ◌⊎◌, le-cases, get_elem?-exists,
}
use cpp_linux_server.IoManager.{
  Event, read_event, write_event, Events, no_events, has_event, with_event, reset_context,
  FdContext, new_fd_context, get_context, Task, IoManager, waiting, decrement, op_left, unused,
  then_trigger, triggered, commit, register, entered, add_event, del_event, cancel_event,
}
use cpp_linux_server.IoManager.Table.{
  events_of, IsWellFormed, registered-le, registered-at, IsConsistent-at, commit-IsWellFormed,
  in_table-small, in_table-large,
}
use cpp_linux_server.IoManager.Growth.{resize-IsWellFormed}
use cpp_linux_server.IoManager.Sequences.{waiting_for, start, then_trigger-Chain}
use cpp_linux_server.IoManager.Triggers.{
  without, with_waiting, get_context-Fits, without-IsConsistent, with_waiting-IsConsistent,
  without-events, with_waiting-events, count-without, count-with, is_empty-has, op_left-IsLegal,
  op_with-IsLegal, decrement_lem, increment_lem,
}

below_limit : (m : IoManager) → IsWellFormed m → m.pending_event_count ≤ 2 ^ 34
below_limit m w = omega (arith, w.pending_eq, registered-le m.contexts, w.size_lt)

-- Taking the event e out of the context c at fd, by delEvent or by a trigger.
taken-IsWellFormed :
    (fd : ℕ) (e : Event) (c : FdContext) (ts : List Task) (m : IoManager)
    → IsWellFormed m
    → get_elem? m.contexts fd ≡ some c
    → has_event e c.events ≡ true
    → IsWellFormed (
        commit fd
          (without e c)
          (op_left (with_event e false c.events))
          (with_event e false c.events)
          (decrement m.pending_event_count)
          ts
          m)
taken-IsWellFormed fd e c ts m w at h =
    commit-IsWellFormed fd _ c (without e c) _ (with_event e false c.events) ts m w at
      (without-IsConsistent e c (IsConsistent-at m.contexts fd c w.consistent at))
      (without-events e c)
      (op_left-IsLegal c.events (with_event e false c.events) (is_empty-has e c.events h))
      (omega (
        arith,
        count-without e c.events h,
        decrement_lem m.pending_event_count
            (omega
              (arith, w.pending_eq, registered-at m.contexts fd c at, count-without e c.events h))
            (below_limit m w),
        w.pending_eq,
      ))

-- An operation ends, and the table is in order behind it.
abbrev pub Keeps : Option (Bool × IoManager) → Type 0
Keeps r = (ok : Bool) × (m : IoManager) × (r ≡ some (ok, m)) × IsWellFormed m

unused-reset : (x : _) → x ≡ reset_context → unused x ≡ true
unused-reset x e = rw e refl

pub register-Keeps :
    (fd : ℕ) (e : Event) (cb : Option ℕ) (s f : ℕ) (ok : Bool) (c : FdContext) (m : IoManager)
    → IsWellFormed m
    → get_elem? m.contexts fd ≡ some c
    → has_event e c.events ≡ false
    → Keeps (register fd e cb (some s) f ok c m)
unfolding register with_waiting
register-Keeps fd e cb s f false c m w at free = (false, m, rw free refl, w)
register-Keeps fd e cb s f true c m w at free =
    let fits : get_context e c ≡ reset_context =
      rw free at (get_context-Fits e c (IsConsistent-at m.contexts fd c w.consistent at)) in
    (
      true,
      entered fd e cb (some s) f c m,
      rw (free, unused-reset (get_context e c) fits) refl,
      commit-IsWellFormed fd _ c (with_waiting e (waiting (some s) f cb) c) _
          (with_event e true c.events) [] m w at
          (with_waiting-IsConsistent e s f cb c (IsConsistent-at m.contexts fd c w.consistent at))
          (with_waiting-events e (waiting (some s) f cb) c) (op_with-IsLegal e c.events)
          (omega (
            arith,
            count-with e c.events free,
            increment_lem m.pending_event_count (below_limit m w),
            w.pending_eq,
          )),
    )

pub del_event-Keeps :
    (fd : ℕ) (e : Event) (ok : Bool) (m : IoManager) → IsWellFormed m → Keeps (del_event fd e ok m)
unfolding del_event without
del_event-Keeps fd e ok m w = elim (le-cases (length m.contexts) fd) [
  | inl long ↦ rw (in_table-large fd m w long) (false, m, refl, w)
  | inr short ↦
      let (c, at) = get_elem?-exists {0} m.contexts fd short in
      rw (in_table-small fd m w short, at) (by_event c at (Bool-cases (has_event e c.events)) ok)
]
  where
    by_event :
        (c : FdContext)
        → get_elem? m.contexts fd ≡ some c
        → (has_event e c.events ≡ true) ⊎ (has_event e c.events ≡ false)
        → (ok : Bool)
        → Keeps (
            if not (has_event e c.events)
            then some (false, m)
            else if not ok
            then some (false, m)
            else some (
              true,
              commit fd
                  (without e c)
                  (op_left (with_event e false c.events))
                  (with_event e false c.events)
                  (decrement m.pending_event_count)
                  []
                  m,
            ))
    by_event c at (inr h) ok = rw h (false, m, refl, w)
    by_event c at (inl h) false = rw h (false, m, refl, w)
    by_event c at (inl h) true = (true, _, rw h refl, taken-IsWellFormed fd e c [] m w at h)

pub cancel_event-Keeps :
    (fd : ℕ) (e : Event) (ok : Bool) (m : IoManager)
    → IsWellFormed m
    → Keeps (cancel_event fd e ok m)
unfolding cancel_event
cancel_event-Keeps fd e ok m w = elim (le-cases (length m.contexts) fd) [
  | inl long ↦ rw (in_table-large fd m w long) (false, m, refl, w)
  | inr short ↦
      let (c, at) = get_elem?-exists {0} m.contexts fd short in
      rw (in_table-small fd m w short, at) (by_event c at (Bool-cases (has_event e c.events)) ok)
]
  where
    by_event :
        (c : FdContext)
        → get_elem? m.contexts fd ≡ some c
        → (has_event e c.events ≡ true) ⊎ (has_event e c.events ≡ false)
        → (ok : Bool)
        → Keeps (
            if not (has_event e c.events)
            then some (false, m)
            else if not ok
            then some (false, m)
            else triggered fd
                (op_left (with_event e false c.events))
                (with_event e false c.events)
                m
                (then_trigger true e (some ([], m.pending_event_count, c))))
    by_event c at (inr h) ok = rw h (false, m, refl, w)
    by_event c at (inl h) false = rw h (false, m, refl, w)
    by_event c at (inl h) true =
        let (step, s) =
          then_trigger-Chain c m.pending_event_count true e [] _ c (start fd c m w at) (λ _. h) in
        let left : Events = with_event e false c.events in
        let run : Option (Bool × IoManager) =
          triggered fd (op_left left) left m
            (then_trigger true e (some ([], m.pending_event_count, c))) in
        let reached : (if not (has_event e c.events)
              then some (false, m)
              else if not true
              then some (false, m)
              else run)
            ≡ run =
          rw h refl in
        (
          true,
          commit fd (without e c) (op_left (with_event e false c.events))
              (with_event e false c.events) (decrement m.pending_event_count) (waiting_for e c) m,
          reached ∙ ap (triggered fd (op_left left) left m) step,
          taken-IsWellFormed fd e c _ m w at h,
        )

pub add_event-Keeps :
    (fd : ℕ) (e : Event) (cb : Option ℕ) (s f : ℕ) (ok : Bool) (m : IoManager)
    → IsWellFormed m
    → fd < 1431655766
    → has_event e (events_of (get_elem? m.contexts fd)) ≡ false
    → Keeps (add_event fd e cb (some s) f ok m)
unfolding add_event
add_event-Keeps fd e cb s f ok m w small free = elim (le-cases (length m.contexts) fd) [
  | inl long ↦
      let (w', at) = resize-IsWellFormed fd m w long small in
      rw (in_table-large fd m w long, at)
        (register-Keeps fd e cb s f ok new_fd_context _ w' at (no_event e))
  | inr short ↦
      let (c, at) = get_elem?-exists {0} m.contexts fd short in
      rw (in_table-small fd m w short, at) (register-Keeps fd e cb s f ok c m w at (rw at at free))
]
  where
    no_event : (e : Event) → has_event e no_events ≡ false
    no_event read_event = unfold has_event in refl
    no_event write_event = unfold has_event in refl
