-- ===== src/IoManager/Sequences.antt =====
-- Triggers in sequence: cancelEvent, cancelAll and the reports of epoll_wait.
use cpp_linux_server.Base.{
  ℕ, suc, ◌+◌, ◌^◌, ◌≤◌, ◌≡◌, refl, ap, sym, ◌∙◌, List, [], ◌∷◌, ◌++◌, get_elem?, Bool, true, false,
  not, ◌&&◌, if◌then◌else◌, Option, none, some, arith, append-nil,
}
use cpp_linux_server.IoManager.{
  Event, read_event, write_event, Events, has_event, with_event, EventContext, FdContext,
  get_context, set_context, Task, IoManager, work, waiting, decrement, then_trigger, after_trigger,
  triggered, commit,
}
use cpp_linux_server.IoManager.Table.{
  Fits, IsConsistent, one, count, IsLegal, IsWellFormed, registered-le, registered-at, events_of,
  events-set-same, IsConsistent-at, commit-IsWellFormed,
}
use cpp_linux_server.IoManager.Triggers.{
  task_of, without, get_context-Fits, without-IsConsistent, without-events, count-without,
  trigger_event-waiting, decrement_lem,
}

-- The task that waits for an event of a context.
abbrev pub work_of : EventContext → List Task
work_of x = elim x.scheduler [ none ↦ [] | some s ↦ (work s x).0 ]

abbrev pub waiting_for : Event → FdContext → List Task
waiting_for e c = if has_event e c.events then work_of (get_context e c) else []

-- The count n and the context c, behind some triggers of c₀ with the count n₀.
pub record Chain (c₀ : FdContext) (n₀ n : ℕ) (c : FdContext) : Type 0 where
  pub consistent : IsConsistent c
  pub sum : n + count c₀.events ≡ n₀ + count c.events
  pub room : count c₀.events ≤ n₀
  pub bound : n₀ ≤ 2 ^ 33

pub start :
    (fd : ℕ) (c : FdContext) (m : IoManager)
    → IsWellFormed m
    → get_elem? m.contexts fd ≡ some c
    → Chain c m.pending_event_count m.pending_event_count c
start fd c m w at = record {
  consistent = IsConsistent-at m.contexts fd c w.consistent at;
  sum = refl;
  room = omega (arith, w.pending_eq, registered-at m.contexts fd c at);
  bound = omega (arith, w.pending_eq, registered-le m.contexts, w.size_lt);
}

waiting_for-waiting :
    (e : Event) (c : FdContext) (s f : ℕ) (cb : Option ℕ)
    → has_event e c.events ≡ true
    → get_context e c ≡ waiting (some s) f cb
    → waiting_for e c ≡ task_of s f cb ∷ []
waiting_for-waiting e c s f none h x = rw (h, x) refl
waiting_for-waiting e c s f (some g) h x = rw (h, x) refl

count-le : (s : Events) → count s ≤ 2
count-le s = omega (arith, small s.readable, small s.writable)
  where
    small : (b : Bool) → one b ≤ 1
    small true = omega arith
    small false = omega arith

-- A trigger in a sequence, of an event that is registered.
pub then_trigger-Chain :
    (c₀ : FdContext) (n₀ : ℕ) (b : Bool) (e : Event) (ts : List Task) (n : ℕ) (c : FdContext)
    → Chain c₀ n₀ n c
    → (b ≡ true → has_event e c.events ≡ true)
    → (then_trigger b e (some (ts, n, c))
        ≡ some (
          if b then ts ++ waiting_for e c else ts,
          if b then decrement n else n,
          if b then without e c else c,
        ))
      × Chain c₀ n₀ (if b then decrement n else n) (if b then without e c else c)
then_trigger-Chain c₀ n₀ false e ts n c s h = (refl, s)
then_trigger-Chain c₀ n₀ true e ts n c s h =
    let there : has_event e c.events ≡ true = h refl in
    let fits : Fits true (get_context e c) = (rw there at (get_context-Fits e c s.consistent)) in
    let (sch, f, cb, x) = fits in
    let one_less : count c.events ≡ suc (count (with_event e false c.events)) =
      count-without e c.events there in
    let lower : decrement n + 1 ≡ n =
      decrement_lem n (omega (arith, s.sum, s.room, one_less))
        (omega (arith, s.sum, s.bound, s.room, count-le c.events)) in
    (
      ap (after_trigger ts n) (trigger_event-waiting e c sch f cb there x)
          ∙ ap (λ (us : List Task). some (ts ++ us, decrement n, without e c))
              (sym (waiting_for-waiting e c sch f cb there x)),
      record {
        consistent = without-IsConsistent e c s.consistent;
        sum = omega (arith, s.sum, lower, one_less, ap count (without-events e c));
        room = s.room;
        bound = s.bound;
      },
    )

-- The triggers of READ and of WRITE, in this order, each where its flag says so.
abbrev pub behind : Bool → Bool → FdContext → FdContext
behind a b c =
    let c₁ : FdContext = if a then without read_event c else c in
    if b then without write_event c₁ else c₁

abbrev pub tasks_of : Bool → Bool → FdContext → List Task
tasks_of a b c =
    (if a then waiting_for read_event c else []) ++ (if b then waiting_for write_event c else [])

abbrev pub fewer : Bool → Bool → ℕ → ℕ
fewer a b n = let n₁ : ℕ = if a then decrement n else n in if b then decrement n₁ else n₁

pub triggers-Chain :
    (a b : Bool) (n : ℕ) (c : FdContext)
    → Chain c n n c
    → (a ≡ true → c.events.readable ≡ true)
    → (b ≡ true → c.events.writable ≡ true)
    → (then_trigger b write_event (then_trigger a read_event (some ([], n, c)))
        ≡ some (tasks_of a b c, fewer a b n, behind a b c))
      × Chain c n (fewer a b n) (behind a b c)
unfolding has_event without set_context with_event get_context
triggers-Chain false b n c s h i = then_trigger-Chain c n b write_event [] n c s i
triggers-Chain true false n c s h i =
    let (e, s₁) = then_trigger-Chain c n true read_event [] n c s h in
    (
      ap (then_trigger false write_event) e
          ∙ ap (λ (us : List Task). some (us, decrement n, without read_event c))
              (sym (append-nil (waiting_for read_event c))),
      s₁,
    )
triggers-Chain true true n c s h i =
    let (e₁, s₁) = then_trigger-Chain c n true read_event [] n c s h in
    let (e₂, s₂) =
      then_trigger-Chain c n true write_event (waiting_for read_event c) (decrement n)
        (without read_event c) s₁ i in
    (ap (then_trigger true write_event) e₁ ∙ e₂, s₂)

-- What is left of the events.
abbrev pub remaining : Bool → Bool → Events → Events
remaining a b s = record { readable = s.readable && not a; writable = s.writable && not b }

and_true : (b : Bool) → (b && true) ≡ b
and_true true = refl
and_true false = refl

and_false : (b : Bool) → (b && false) ≡ false
and_false true = refl
and_false false = refl

pub behind-events : (a b : Bool) (c : FdContext) → (behind a b c).events ≡ remaining a b c.events
unfolding without set_context with_event
behind-events true true c = rw (and_false c.events.readable, and_false c.events.writable) refl
behind-events true false c = rw (and_false c.events.readable, and_true c.events.writable) refl
behind-events false true c = rw (and_true c.events.readable, and_false c.events.writable) refl
behind-events false false c = rw (and_true c.events.readable, and_true c.events.writable) refl

-- The triggers of registered events, with what epoll is told: the table is in order behind them,
-- and what waited for them is scheduled, once.
pub triggered-IsWellFormed :
    (fd : ℕ) (a b : Bool) (op : _) (c : FdContext) (m : IoManager)
    → IsWellFormed m
    → get_elem? m.contexts fd ≡ some c
    → (a ≡ true → c.events.readable ≡ true)
    → (b ≡ true → c.events.writable ≡ true)
    → IsLegal op c.events (remaining a b c.events)
    → (m' : IoManager) × (triggered fd op (remaining a b c.events) m (
          then_trigger b write_event
            (then_trigger a read_event (some ([], m.pending_event_count, c))))
        ≡ some (true, m'))
      × IsWellFormed m'
      × (m'.tasks ≡ m.tasks ++ tasks_of a b c)
      × (events_of (get_elem? m'.contexts fd) ≡ remaining a b c.events)
triggered-IsWellFormed fd a b op c m w at h i legal =
    let n : ℕ = m.pending_event_count in
    let left : Events = remaining a b c.events in
    let (e, s) = triggers-Chain a b n c (start fd c m w at) h i in
    (
      commit fd (behind a b c) op left (fewer a b n) (tasks_of a b c) m,
      ap (triggered fd op left m) e,
      commit-IsWellFormed fd (fewer a b n) c (behind a b c) op left (tasks_of a b c) m w at
          s.consistent (behind-events a b c) legal
          (omega (arith, s.sum, w.pending_eq, ap count (behind-events a b c))),
      refl,
      events-set-same m.contexts fd c (behind a b c) at ∙ behind-events a b c,
    )
