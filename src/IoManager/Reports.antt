-- ===== src/IoManager/Reports.antt =====
-- A report of registered events keeps the table in order and schedules what waits for them.
use cpp_linux_server.Base.{
  ℕ, ◌≡◌, refl, ◌++◌, get_elem?, Bool, true, false, not, ◌&&◌, ◌||◌, if◌then◌else◌, some,
  Bool-cases, inl, inr,
}
use cpp_linux_server.IoManager.{
  Events, FdContext, IoManager, op_left, Report, real_events, dispatch,
}
use cpp_linux_server.IoManager.Table.{events_of, IsWellFormed}
use cpp_linux_server.IoManager.Sequences.{tasks_of, remaining, triggered-IsWellFormed}
use cpp_linux_server.IoManager.Triggers.{op_left-IsLegal}
use cpp_linux_server.IoManager.Operations.{Keeps}

-- The report has no event that is not registered.
abbrev pub IsCurrent : Report → Events → Type 0
IsCurrent r s =
    ((r.epollin ≡ true) → (s.readable ≡ true)) × ((r.epollout ≡ true) → (s.writable ≡ true))

-- A report with an event that is registered.
abbrev pub is_due : Report → Events → Bool
is_due r s = s.readable && (real_events r s).readable || s.writable && (real_events r s).writable

real-registered :
    (reported failure present : Bool)
    → (reported ≡ true → present ≡ true)
    → (reported || failure && present) ≡ true
    → present ≡ true
real-registered true failure present h e = h refl
real-registered false true present h e = e
real-registered false false present h e = absurd (cc e)

pub dispatch_lem :
    (fd : ℕ) (r : Report) (c : FdContext) (m : IoManager)
    → IsWellFormed m
    → get_elem? m.contexts fd ≡ some c
    → IsCurrent r c.events
    → is_due r c.events ≡ true
    → (m' : IoManager) × (dispatch fd r true m ≡ some (true, m'))
      × IsWellFormed m'
      × (m'.tasks
          ≡ m.tasks
            ++ tasks_of (real_events r c.events).readable (real_events r c.events).writable c)
      × (events_of (get_elem? m'.contexts fd)
          ≡ remaining (real_events r c.events).readable (real_events r c.events).writable c.events)
unfolding dispatch
dispatch_lem fd r c m w at current due =
    let real : Events = real_events r c.events in
    let (m', e, w', ts, left) =
      triggered-IsWellFormed fd real.readable real.writable
        (op_left (remaining real.readable real.writable c.events)) c m w at
        (real-registered r.epollin r.failure c.events.readable current.0)
        (real-registered r.epollout r.failure c.events.writable current.1)
        (op_left-IsLegal c.events (remaining real.readable real.writable c.events)
          (some-event c.events.readable c.events.writable _ _ due)) in
    (
      m',
      rw (at, acted (c.events.readable && real.readable) (c.events.writable && real.writable) due)
          e,
      w',
      ts,
      left,
    )
  where
    acted : (a b : Bool) → (a || b) ≡ true → (not a && not b) ≡ false
    acted true b h = refl
    acted false true h = refl
    acted false false h = absurd (cc h)

    some-event : (a b x y : Bool) → (a && x || b && y) ≡ true → (not a && not b) ≡ false
    some-event true b x y h = refl
    some-event false true x y h = refl
    some-event false false x y h = absurd (cc h)

pub dispatch-Keeps :
    (fd : ℕ) (r : Report) (c : FdContext) (ok : Bool) (m : IoManager)
    → IsWellFormed m
    → get_elem? m.contexts fd ≡ some c
    → IsCurrent r c.events
    → Keeps (dispatch fd r ok m)
unfolding dispatch
dispatch-Keeps fd r c ok m w at current = elim (Bool-cases (is_due r c.events)) [
  | inl due ↦ by_result ok due
  | inr idle ↦ rw (at, quiet _ _ idle) (false, m, refl, w)
]
  where
    quiet : (a b : Bool) → (a || b) ≡ false → (not a && not b) ≡ true
    quiet true b h = absurd (cc h)
    quiet false true h = absurd (cc h)
    quiet false false h = refl

    by_result : (b : Bool) → is_due r c.events ≡ true → Keeps (dispatch fd r b m)
    by_result true due =
        let (m', e, w', _, _) = dispatch_lem fd r c m w at current due in (true, m', e, w')
    by_result false due = rw at (refused _)
      where
        refused : (x : Bool) → Keeps (if x then some (false, m) else some (false, m))
        refused true = (false, m, refl, w)
        refused false = (false, m, refl, w)
