-- ===== src/IoManager/Triggers.antt =====
-- One event of a context: registering it, taking it back and triggering it.
use cpp_linux_server.Base.{
  ℕ, suc, ◌+◌, ◌^◌, ◌≤◌, ◌≡◌, refl, [], ◌∷◌, Bool, true, false, not, ◌&&◌, if◌then◌else◌, Option,
  none, some, arith, Bool-cases, inl, inr,
}
use cpp_linux_server.IoManager.{
  Event, read_event, write_event, Events, no_events, has_event, with_event, EventContext,
  reset_context, FdContext, get_context, set_context, ctl_add, ctl_mod, Task, run_cb, run_fiber,
  trigger_event, waiting, is_empty, increment, decrement, op_left,
}
use cpp_linux_server.IoManager.Table.{Fits, IsConsistent, count, IsLegal}

-- The task of what waits in a context.
abbrev pub task_of : ℕ → ℕ → Option ℕ → Task
task_of s f cb = elim cb [ some g ↦ run_cb s g | none ↦ run_fiber s f ]

-- The context without an event, and the context with one that waits.
unfoldable pub without : Event → FdContext → FdContext
without e c = set_context e reset_context (record c { events = with_event e false c.events })

unfoldable pub with_waiting : Event → EventContext → FdContext → FdContext
with_waiting e x c = set_context e x (record c { events = with_event e true c.events })

pub get_context-Fits :
    (e : Event) (c : FdContext) → IsConsistent c → Fits (has_event e c.events) (get_context e c)
unfolding has_event get_context
get_context-Fits read_event c ok = ok.0
get_context-Fits write_event c ok = ok.1

pub without-IsConsistent : (e : Event) (c : FdContext) → IsConsistent c → IsConsistent (without e c)
unfolding without set_context with_event
without-IsConsistent read_event c ok = (refl, ok.1)
without-IsConsistent write_event c ok = (ok.0, refl)

pub with_waiting-IsConsistent :
    (e : Event) (s f : ℕ) (cb : Option ℕ) (c : FdContext)
    → IsConsistent c
    → IsConsistent (with_waiting e (waiting (some s) f cb) c)
unfolding with_waiting set_context with_event
with_waiting-IsConsistent read_event s f cb c ok = ((s, f, cb, refl), ok.1)
with_waiting-IsConsistent write_event s f cb c ok = (ok.0, (s, f, cb, refl))

pub without-events :
    (e : Event) (c : FdContext) → (without e c).events ≡ with_event e false c.events
unfolding without set_context
without-events read_event c = refl
without-events write_event c = refl

pub with_waiting-events :
    (e : Event) (x : EventContext) (c : FdContext)
    → (with_waiting e x c).events ≡ with_event e true c.events
unfolding with_waiting set_context
with_waiting-events read_event x c = refl
with_waiting-events write_event x c = refl

pub count-without :
    (e : Event) (s : Events) → has_event e s ≡ true → count s ≡ suc (count (with_event e false s))
unfolding has_event with_event
count-without read_event s h = rw h (omega arith)
count-without write_event s h = rw h (omega arith)

pub count-with :
    (e : Event) (s : Events) → has_event e s ≡ false → count (with_event e true s) ≡ suc (count s)
unfolding has_event with_event
count-with read_event s h = rw h (omega arith)
count-with write_event s h = rw h (omega arith)

pub is_empty-has : (e : Event) (s : Events) → has_event e s ≡ true → is_empty s ≡ false
unfolding has_event
is_empty-has read_event s h = rw h refl
is_empty-has write_event s h = by_readable s.readable
  where
    by_readable : (b : Bool) → (not b && not s.writable) ≡ false
    by_readable true = refl
    by_readable false = rw h refl

has-with : (e : Event) (s : Events) → has_event e (with_event e true s) ≡ true
unfolding has_event with_event
has-with read_event s = refl
has-with write_event s = refl

empty-no_events : (s : Events) → is_empty s ≡ true → s ≡ no_events
empty-no_events s h = by_flags s.readable s.writable h
  where
    by_flags :
        (a b : Bool) → (not a && not b) ≡ true → record { readable = a; writable = b } ≡ no_events
    by_flags true b h = absurd (cc h)
    by_flags false true h = absurd (cc h)
    by_flags false false h = refl

-- epoll_ctl is told of the rest with DEL where there is none.
pub op_left-IsLegal : (s left : Events) → is_empty s ≡ false → IsLegal (op_left left) s left
op_left-IsLegal s left h = elim (Bool-cases (is_empty left)) [
  | inl e ↦ rw e (h, empty-no_events left e)
  | inr e ↦ rw e (h, e)
]

pub op_with-IsLegal :
    (e : Event) (s : Events)
    → IsLegal (if is_empty s then ctl_add else ctl_mod) s (with_event e true s)
op_with-IsLegal e s = elim (Bool-cases (is_empty s)) [
  | inl h ↦ rw h (empty-no_events s h, is_empty-has e (with_event e true s) (has-with e s))
  | inr h ↦ rw h (h, is_empty-has e (with_event e true s) (has-with e s))
]

-- A trigger of a registered event schedules what waits, once, and empties the context.
pub trigger_event-waiting :
    (e : Event) (c : FdContext) (s f : ℕ) (cb : Option ℕ)
    → has_event e c.events ≡ true
    → get_context e c ≡ waiting (some s) f cb
    → trigger_event e c ≡ some (task_of s f cb ∷ [], without e c)
unfolding trigger_event without
trigger_event-waiting e c s f none h x = rw (h, x) refl
trigger_event-waiting e c s f (some g) h x = rw (h, x) refl

-- A trigger of an event that is not registered does nothing.
pub trigger_event-missing :
    (e : Event) (c : FdContext) → has_event e c.events ≡ false → trigger_event e c ≡ some ([], c)
unfolding trigger_event
trigger_event-missing e c h = rw h refl

pub decrement_lem : (n : ℕ) → 1 ≤ n → n ≤ 2 ^ 34 → decrement n + 1 ≡ n
decrement_lem n h i = omega arith

pub increment_lem : (n : ℕ) → n ≤ 2 ^ 34 → increment n ≡ n + 1
increment_lem n h = omega arith
