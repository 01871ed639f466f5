-- ===== src/IoManager/Cancelling.antt =====
-- cancelAll keeps the table in order and schedules all that waits for a descriptor.
use cpp_linux_server.Base.{
  ℕ, ◌≡◌, refl, ap, sym, ◌∙◌, List, [], ◌++◌, get_elem?, Bool, true, false, not, ◌&&◌,
  if◌then◌else◌, some, Bool-cases, inl, inr, le-cases, get_elem?-exists, length,
}
use cpp_linux_server.IoManager.{
  read_event, write_event, Events, no_events, has_event, with_event, FdContext, set_context,
  ctl_del, Task, IoManager, is_empty, decrement, then_trigger, then_registered, all_left, triggered,
  cancel_all,
}
use cpp_linux_server.IoManager.Table.{
  events_of, IsWellFormed, in_table-small, in_table-large, in_table-at,
}
use cpp_linux_server.IoManager.Sequences.{
  waiting_for, tasks_of, remaining, behind-events, start, then_trigger-Chain, triggers-Chain,
  triggered-IsWellFormed,
}
use cpp_linux_server.IoManager.Triggers.{without}
use cpp_linux_server.IoManager.Operations.{Keeps}

none-remaining : (s : Events) → remaining s.readable s.writable s ≡ no_events
none-remaining s = rw (nothing s.readable, nothing s.writable) refl
  where
    nothing : (b : Bool) → (b && not b) ≡ false
    nothing true = refl
    nothing false = refl

all-tasks :
    (c : FdContext)
    → tasks_of c.events.readable c.events.writable c
      ≡ waiting_for read_event c ++ waiting_for write_event c
unfolding has_event
all-tasks c = rw (once c.events.readable _, once c.events.writable _) refl
  where
    once :
        (b : Bool) (ts : List Task)
        → (if b then (if b then ts else []) else []) ≡ (if b then ts else [])
    once true ts = refl
    once false ts = refl

-- The triggers of cancelAll are those of the events that were registered before.
cancelled :
    (fd : ℕ) (c : FdContext) (m : IoManager)
    → IsWellFormed m
    → get_elem? m.contexts fd ≡ some c
    → all_left (
        then_registered write_event
          (then_registered read_event (some ([], m.pending_event_count, c))))
      ≡ then_trigger c.events.writable write_event
          (then_trigger c.events.readable read_event (some ([], m.pending_event_count, c)))
unfolding has_event
cancelled fd c m w at =
    let a : Bool = c.events.readable in
    let b : Bool = c.events.writable in
    let n : ℕ = m.pending_event_count in
    let s₀ = start fd c m w at in
    let (e, s) = triggers-Chain a b n c s₀ (λ h. h) (λ h. h) in
    let (e₁, s₁) = then_trigger-Chain c n a read_event [] n c s₀ (λ h. h) in
    ap (λ r. all_left (then_registered write_event r)) e₁
    ∙ ap
        (λ (x : Bool). all_left (
          then_trigger x write_event (
            some (
              if a then [] ++ waiting_for read_event c else [],
              if a then decrement n else n,
              if a then without read_event c else c,
            ))))
        (still a)
    ∙ ap (λ r. all_left (then_trigger b write_event r)) (sym e₁)
    ∙ ap all_left e
    ∙ rw (ap is_empty (behind-events a b c ∙ none-remaining c.events)) refl
    ∙ sym e
  where
    still : (x : Bool) → (if x then without read_event c else c).events.writable ≡ c.events.writable
    still true = unfold without set_context with_event in refl
    still false = refl

-- cancelAll of a descriptor with events, where epoll_ctl succeeds: what waits for them is scheduled, READ first,
-- the descriptor has none left and the table is in order.
pub cancel_all_lem :
    (fd : ℕ) (c : FdContext) (m : IoManager)
    → IsWellFormed m
    → get_elem? m.contexts fd ≡ some c
    → is_empty c.events ≡ false
    → (m' : IoManager) × (cancel_all fd true m ≡ some (true, m'))
      × IsWellFormed m'
      × (m'.tasks ≡ m.tasks ++ (waiting_for read_event c ++ waiting_for write_event c))
      × (events_of (get_elem? m'.contexts fd) ≡ no_events)
unfolding cancel_all
cancel_all_lem fd c m w at some_event =
    let (m', e, w', ts, gone) =
      triggered-IsWellFormed fd c.events.readable c.events.writable ctl_del c m w at (λ h. h)
        (λ h. h) (some_event, none-remaining c.events) in
    (
      m',
      rw (in_table-at fd c m w at, at, some_event)
          (ap (triggered fd ctl_del no_events m) (cancelled fd c m w at)
            ∙ rw (← none-remaining c.events) e),
      w',
      ts ∙ ap (λ (us : List Task). m.tasks ++ us) (all-tasks c),
      gone ∙ none-remaining c.events,
    )

pub cancel_all-Keeps :
    (fd : ℕ) (ok : Bool) (m : IoManager) → IsWellFormed m → Keeps (cancel_all fd ok m)
unfolding cancel_all
cancel_all-Keeps fd ok m w = elim (le-cases (length m.contexts) fd) [
  | inl long ↦ rw (in_table-large fd m w long) (false, m, refl, w)
  | inr short ↦
      let (c, at) = get_elem?-exists {0} m.contexts fd short in
      elim (Bool-cases (is_empty c.events)) [
        | inl none_there ↦ rw (in_table-small fd m w short, at, none_there) (false, m, refl, w)
        | inr some_event ↦ by_result ok c at some_event
      ]
]
  where
    by_result :
        (b : Bool) (c : FdContext)
        → get_elem? m.contexts fd ≡ some c
        → is_empty c.events ≡ false
        → Keeps (cancel_all fd b m)
    by_result true c at some_event =
        let (m', e, w', _, _) = cancel_all_lem fd c m w at some_event in (true, m', e, w')
    by_result false c at some_event =
        rw (in_table-at fd c m w at, at, some_event) (false, m, refl, w)
