-- ===== src/IoManager/Reachability.antt =====
-- The states that the operations lead to, and a report that is out of date.
use cpp_linux_server.Base.{
  ℕ, ◌+◌, ◌<◌, ◌≡◌, refl, ap, sym, subst, ◌∙◌, [], ◌∷◌, get_elem?, Bool, true, false, not, ◌&&◌,
  Option, some, arith,
}
use cpp_linux_server.IoManager.{
  Event, read_event, write_event, Events, has_event, with_event, FdContext, IoManager,
  new_io_manager, context_resize, trigger_event, then_trigger, after_trigger, triggered, decrement,
  op_left, commit, add_event, del_event, cancel_event, cancel_all, Report, dispatch, get_context,
}
use cpp_linux_server.IoManager.Table.{
  Fits, count, registered, events_of, interest_of, AllLegal, IsWellFormed, registered-set,
  registered-le, IsConsistent-at,
}
use cpp_linux_server.IoManager.Growth.{fresh-IsConsistent, events-fresh}
use cpp_linux_server.IoManager.Triggers.{
  without, task_of, get_context-Fits, trigger_event-missing, trigger_event-waiting, count-without,
  without-events,
}
use cpp_linux_server.IoManager.Operations.{
  Keeps, add_event-Keeps, del_event-Keeps, cancel_event-Keeps,
}
use cpp_linux_server.IoManager.Cancelling.{cancel_all-Keeps}
use cpp_linux_server.IoManager.Reports.{IsCurrent, dispatch-Keeps}

new_io_manager-IsWellFormed : IsWellFormed new_io_manager
unfolding new_io_manager context_resize registered interest_of AllLegal
new_io_manager-IsWellFormed = record {
  size_ge = omega arith;
  size_lt = omega arith;
  consistent = fresh-IsConsistent 32;
  pending_eq = refl;
  synced = λ fd. sym (events-fresh [] 32 fd);
  legal = tt;
}

-- One operation, under its lock. An event is added where it is not registered, by a thread that has a
-- scheduler, on a descriptor of which half as much again is an int; a report is of registered events.
pub data Step : IoManager → IoManager → Type 0 where
  adds :
      (fd : ℕ) (e : Event) (cb : Option ℕ) (s f : ℕ) (ok done : Bool) (m m' : IoManager)
      → fd < 1431655766
      → has_event e (events_of (get_elem? m.contexts fd)) ≡ false
      → add_event fd e cb (some s) f ok m ≡ some (done, m')
      → Step m m'
  deletes :
      (fd : ℕ) (e : Event) (ok done : Bool) (m m' : IoManager)
      → del_event fd e ok m ≡ some (done, m')
      → Step m m'
  cancels :
      (fd : ℕ) (e : Event) (ok done : Bool) (m m' : IoManager)
      → cancel_event fd e ok m ≡ some (done, m')
      → Step m m'
  cancels_all :
      (fd : ℕ) (ok done : Bool) (m m' : IoManager)
      → cancel_all fd ok m ≡ some (done, m')
      → Step m m'
  dispatches :
      (fd : ℕ) (r : Report) (c : FdContext) (ok done : Bool) (m m' : IoManager)
      → get_elem? m.contexts fd ≡ some c
      → IsCurrent r c.events
      → dispatch fd r ok m ≡ some (done, m')
      → Step m m'

pub data Reachable : IoManager → Type 0 where
  initial : Reachable new_io_manager
  then_step : (m m' : IoManager) → Reachable m → Step m m' → Reachable m'

kept :
    (r : Option (Bool × IoManager)) (done : Bool) (m' : IoManager)
    → Keeps r
    → r ≡ some (done, m')
    → IsWellFormed m'
kept r done m' (ok, m, e, w) f = let same : m ≡ m' = cc (e, f) in subst IsWellFormed same w

Step-IsWellFormed : (m m' : IoManager) → IsWellFormed m → Step m m' → IsWellFormed m'
Step-IsWellFormed m m' w (adds fd e cb s f ok done _ _ small free h) =
    kept _ done m' (add_event-Keeps fd e cb s f ok m w small free) h
Step-IsWellFormed m m' w (deletes fd e ok done _ _ h) =
    kept _ done m' (del_event-Keeps fd e ok m w) h
Step-IsWellFormed m m' w (cancels fd e ok done _ _ h) =
    kept _ done m' (cancel_event-Keeps fd e ok m w) h
Step-IsWellFormed m m' w (cancels_all fd ok done _ _ h) =
    kept _ done m' (cancel_all-Keeps fd ok m w) h
Step-IsWellFormed m m' w (dispatches fd r c ok done _ _ at current h) =
    kept _ done m' (dispatch-Keeps fd r c ok m w at current) h

-- In every state that is reached from the new table by addEvent, on threads with a scheduler, of events
-- that are not registered on descriptors below 1431655766, by delEvent, cancelEvent, cancelAll and reports
-- of registered events, whatever epoll_ctl returns: the table has at least 32 contexts and fewer than 2^31,
-- m_pendingEventCount is the number of registered events, epoll waits for exactly those, each of its calls
-- was legal, and the context of an event has a scheduler and a fiber or a callback exactly where the event
-- is registered.
pub Reachable-IsWellFormed : (m : IoManager) → Reachable m → IsWellFormed m
Reachable-IsWellFormed m initial = new_io_manager-IsWellFormed
Reachable-IsWellFormed m (then_step m₀ _ r s) =
    Step-IsWellFormed m₀ m (Reachable-IsWellFormed m₀ r) s

abbrev pub in_and_out : Report
in_and_out = record { epollin = true; epollout = true; failure = false }

-- A report that is out of date, as when another thread took READ back between epoll_wait and the lock:
-- it has EPOLLIN and EPOLLOUT, and only WRITE is registered. Both events are counted off, so
-- m_pendingEventCount is one below the number of registered events, and 2^64 - 1 where there are none.
pub dispatch-outdated :
    (fd : ℕ) (c : FdContext) (m : IoManager)
    → IsWellFormed m
    → get_elem? m.contexts fd ≡ some c
    → c.events.readable ≡ false
    → c.events.writable ≡ true
    → (m' : IoManager) × (dispatch fd in_and_out true m ≡ some (true, m'))
      × (registered m'.contexts + 1 ≡ registered m.contexts)
      × (m'.pending_event_count ≡ decrement (registered m'.contexts))
unfolding dispatch has_event without with_event
dispatch-outdated fd c m w at no_read has_write =
    let fits : Fits true (get_context write_event c) =
      subst (λ (b : Bool). Fits b (get_context write_event c)) has_write
        (get_context-Fits write_event c (IsConsistent-at m.contexts fd c w.consistent at)) in
    let (s, f, cb, x) = fits in
    let first : trigger_event read_event c ≡ some ([], c) =
      trigger_event-missing read_event c no_read in
    let second : trigger_event write_event c ≡ some (task_of s f cb ∷ [], without write_event c) =
      trigger_event-waiting write_event c s f cb has_write x in
    let left : Events = record {
      readable = c.events.readable && false;
      writable = c.events.writable && false;
    } in
    let m' : IoManager =
      commit fd (without write_event c) (op_left left) left
        (decrement (decrement m.pending_event_count)) (task_of s f cb ∷ []) m in
    let total : registered m'.contexts + 1 ≡ registered m.contexts = omega (
      arith,
      registered-set m.contexts fd c (without write_event c) at,
      count-without write_event c.events has_write,
      ap count (without-events write_event c),
    ) in
    (
      m',
      rw (at, due c.events.readable)
          (ap
              (λ r.
                triggered fd (op_left left) left m
                  (then_trigger true write_event (after_trigger [] m.pending_event_count r)))
              first
            ∙ ap
                (λ r.
                  triggered fd (op_left left) left m
                    (after_trigger [] (decrement m.pending_event_count) r))
                second),
      total,
      ap decrement (omega (arith, w.pending_eq, total, registered-le m.contexts, w.size_lt)),
    )
  where
    due : (b : Bool) → (not (b && true) && not (c.events.writable && true)) ≡ false
    due true = refl
    due false = rw has_write refl
