-- ===== src/IoManager.antt =====
-- chat/iomanager.h and iomanager.cc: the events that fibers wait for, as a table of descriptors.
--
-- A descriptor is its index, an int that is not negative; a scheduler, a fiber and a callback are
-- numbers. The result of each epoll_ctl is an argument, as is what epoll_wait reports; the calls that
-- succeed are kept in `ctl`, the latest first.
-- `none` is an access outside of m_fdcontexts, a null pointer or a failed CHAT_ASSERT.
pub mod Table
pub mod Triggers
mod Growth
pub mod Sequences
pub mod Operations
pub mod Cancelling
pub mod Reports
pub mod Reachability
mod Runs
use cpp_linux_server.Base.{
  ℕ, zero, suc, ◌+◌, ◌-◌, ◌*◌, ◌/◌, ◌%◌, ◌^◌, List, [], ◌∷◌, ◌++◌, length, get_elem?, set, take,
  replicate, Bool, true, false, not, ◌&&◌, ◌||◌, ltb, ◌==◌, if◌then◌else◌, Option, none, some,
}

-- The events READ and WRITE, and a set of them.
pub data Event : Type 0 where
  read_event : Event
  write_event : Event

pub record Events : Type 0 where
  pub readable : Bool
  pub writable : Bool

abbrev pub no_events : Events
no_events = record { readable = false; writable = false }

-- `events & event`, `events | event` and `events & ~event`
unfoldable pub has_event : Event → Events → Bool
has_event read_event s = s.readable
has_event write_event s = s.writable

unfoldable pub with_event : Event → Bool → Events → Events
with_event read_event b s = record s { readable = b }
with_event write_event b s = record s { writable = b }

pub record EventContext : Type 0 where
  pub scheduler : Option ℕ
  pub fiber : Option ℕ
  pub cb : Option ℕ

abbrev pub reset_context : EventContext
reset_context = record { scheduler = none; fiber = none; cb = none }

pub record FdContext : Type 0 where
  pub read_context : EventContext
  pub write_context : EventContext
  pub events : Events

abbrev pub new_fd_context : FdContext
new_fd_context = record {
  read_context = reset_context;
  write_context = reset_context;
  events = no_events;
}

unfoldable pub get_context : Event → FdContext → EventContext
get_context read_event c = c.read_context
get_context write_event c = c.write_context

unfoldable pub set_context : Event → EventContext → FdContext → FdContext
set_context read_event x c = record c { read_context = x }
set_context write_event x c = record c { write_context = x }

-- An entry of Scheduler::m_fibers, with the scheduler that has it.
pub data Task : Type 0 where
  run_cb : ℕ → ℕ → Task
  run_fiber : ℕ → ℕ → Task

pub data Op : Type 0 where
  ctl_add : Op
  ctl_mod : Op
  ctl_del : Op

pub record Ctl : Type 0 where
  pub op : Op
  pub fd : ℕ
  pub interest : Events

pub record IoManager : Type 0 where
  pub contexts : List FdContext
  pub pending_event_count : ℕ
  pub tasks : List Task
  pub ctl : List Ctl

-- contextResize, and the constructor's table.
unfoldable pub context_resize : ℕ → List FdContext → List FdContext
context_resize size cs = take size cs ++ replicate (size - length cs) new_fd_context

unfoldable pub new_io_manager : IoManager
new_io_manager = record {
  contexts = context_resize 32 [];
  pending_event_count = 0;
  tasks = [];
  ctl = [];
}

-- What `schedule(&ctx.cb)` or `schedule(&ctx.fiber)` puts in m_fibers, and leaves of the context.
abbrev pub work : ℕ → EventContext → List Task × EventContext
work s x = elim x.cb [
  | some f ↦ (run_cb s f ∷ [], record x { cb = none; scheduler = none })
  | none ↦ elim x.fiber [
    | some f ↦ (run_fiber s f ∷ [], record x { fiber = none; scheduler = none })
    | none ↦ ([], record x { scheduler = none })
  ]
]

abbrev pub released : Event → FdContext → EventContext → Option (List Task × FdContext)
released e c x = elim x.scheduler [
  | none ↦ none
  | some s ↦
      let (ts, x') = work s x in
      some (ts, set_context e x' (record c { events = with_event e false c.events }))
]

-- triggerEvent: an event that is not registered is only logged.
unfoldable pub trigger_event : Event → FdContext → Option (List Task × FdContext)
trigger_event e c =
    if not (has_event e c.events) then some ([], c) else released e c (get_context e c)

-- `++m_pendingEventCount` and `--m_pendingEventCount`
abbrev pub increment : ℕ → ℕ
increment n = (n + 1) % 2 ^ 64

abbrev pub decrement : ℕ → ℕ
decrement n = (n + (2 ^ 64 - 1)) % 2 ^ 64

abbrev pub is_empty : Events → Bool
is_empty s = not s.readable && not s.writable

-- A context of m_fdcontexts replaced, with what epoll was told.
abbrev pub commit : ℕ → FdContext → Op → Events → ℕ → List Task → IoManager → IoManager
commit fd c op interest count ts m = record {
  contexts = set m.contexts fd c;
  pending_event_count = count;
  tasks = m.tasks ++ ts;
  ctl = record { op = op; fd = fd; interest = interest } ∷ m.ctl;
}

-- `(int)m_fdcontexts.size() > fd`: the size modulo 2 ^ 32, negative from 2 ^ 31 on.
unfoldable pub in_table : ℕ → List FdContext → Bool
in_table fd cs = let size : ℕ = length cs % 2 ^ 32 in ltb size (2 ^ 31) && ltb fd size

-- The context of an event that addEvent finds empty.
abbrev pub unused : EventContext → Bool
unused x =
    elim x.scheduler [ none ↦ true | some _ ↦ false ]
    && elim x.fiber [ none ↦ true | some _ ↦ false ]
    && elim x.cb [ none ↦ true | some _ ↦ false ]

-- What waits: the scheduler is Scheduler::GetThis(), which is null on a thread without one.
abbrev pub waiting : Option ℕ → ℕ → Option ℕ → EventContext
waiting scheduler fiber cb = elim cb [
  | some f ↦ record { scheduler = scheduler; fiber = none; cb = some f }
  | none ↦ record { scheduler = scheduler; fiber = some fiber; cb = none }
]

abbrev pub context_at {ℓ} : {A : Type ℓ} → Option FdContext → (FdContext → Option A) → Option A
context_at none k = none
context_at (some c) k = k c

-- What addEvent stores where epoll_ctl succeeds.
abbrev pub entered : ℕ → Event → Option ℕ → Option ℕ → ℕ → FdContext → IoManager → IoManager
entered fd e cb scheduler fiber c m =
    let interest : Events = with_event e true c.events in
    let op : Op = if is_empty c.events then ctl_add else ctl_mod in
    commit fd (set_context e (waiting scheduler fiber cb) (record c { events = interest })) op
      interest (increment m.pending_event_count) [] m

-- addEvent behind the choice of the context, with the current scheduler and fiber.
unfoldable pub register :
    ℕ → Event → Option ℕ → Option ℕ → ℕ → Bool → FdContext → IoManager → Option (Bool × IoManager)
register fd e cb scheduler fiber ok c m =
    if has_event e c.events
    then none
    else if not ok
    then some (false, m)
    else if not (unused (get_context e c))
    then none
    else some (true, entered fd e cb scheduler fiber c m)

-- addEvent: whether the result is 0.
unfoldable pub add_event :
    ℕ → Event → Option ℕ → Option ℕ → ℕ → Bool → IoManager → Option (Bool × IoManager)
add_event fd e cb scheduler fiber ok m =
    let cs : List FdContext =
      if in_table fd m.contexts then m.contexts else context_resize (fd * 3 / 2) m.contexts in
    context_at (get_elem? cs fd)
      (λ c. register fd e cb scheduler fiber ok c (record m { contexts = cs }))

abbrev pub op_left : Events → Op
op_left s = if is_empty s then ctl_del else ctl_mod

-- The context of a descriptor in the table; outside of it the operation ends with false.
abbrev pub or_missing :
    ℕ → IoManager → (FdContext → Option (Bool × IoManager)) → Option (Bool × IoManager)
or_missing fd m k =
    if not (in_table fd m.contexts) then some (false, m) else context_at (get_elem? m.contexts fd) k

unfoldable pub del_event : ℕ → Event → Bool → IoManager → Option (Bool × IoManager)
del_event fd e ok m = or_missing fd m (λ c.
    if not (has_event e c.events)
    then some (false, m)
    else if not ok
    then some (false, m)
    else let left : Events = with_event e false c.events in
      some (
        true,
        commit fd (set_context e reset_context (record c { events = left })) (op_left left) left
            (decrement m.pending_event_count) [] m,
      ))

abbrev pub after_trigger :
    List Task → ℕ → Option (List Task × FdContext) → Option (List Task × ℕ × FdContext)
after_trigger ts n none = none
after_trigger ts n (some (us, c)) = some (ts ++ us, decrement n, c)

-- triggerEvent in a sequence of them.
abbrev pub then_trigger :
    Bool → Event → Option (List Task × ℕ × FdContext) → Option (List Task × ℕ × FdContext)
then_trigger b e none = none
then_trigger false e (some r) = some r
then_trigger true e (some (ts, n, c)) = after_trigger ts n (trigger_event e c)

abbrev pub triggered :
    ℕ → Op → Events → IoManager → Option (List Task × ℕ × FdContext) → Option (Bool × IoManager)
triggered fd op interest m none = none
triggered fd op interest m (some (ts, n, c)) = some (true, commit fd c op interest n ts m)

unfoldable pub cancel_event : ℕ → Event → Bool → IoManager → Option (Bool × IoManager)
cancel_event fd e ok m = or_missing fd m (λ c.
    if not (has_event e c.events)
    then some (false, m)
    else if not ok
    then some (false, m)
    else let left : Events = with_event e false c.events in
      triggered fd (op_left left) left m
        (then_trigger true e (some ([], m.pending_event_count, c))))

-- `CHAT_ASSERT(fd_ctx->m_events == 0)`
abbrev pub all_left : Option (List Task × ℕ × FdContext) → Option (List Task × ℕ × FdContext)
all_left none = none
all_left (some (ts, n, c)) = if is_empty c.events then some (ts, n, c) else none

-- The two `if` of cancelAll test m_events as the triggers before them left it.
abbrev pub then_registered :
    Event → Option (List Task × ℕ × FdContext) → Option (List Task × ℕ × FdContext)
then_registered e none = none
then_registered e (some (ts, n, c)) = then_trigger (has_event e c.events) e (some (ts, n, c))

unfoldable pub cancel_all : ℕ → Bool → IoManager → Option (Bool × IoManager)
cancel_all fd ok m = or_missing fd m (λ c.
    if is_empty c.events
    then some (false, m)
    else if not ok
    then some (false, m)
    else triggered fd ctl_del no_events m (
        all_left (
          then_registered write_event
            (then_registered read_event (some ([], m.pending_event_count, c))))))

-- What epoll_wait reports: EPOLLIN, EPOLLOUT, and EPOLLERR or EPOLLHUP.
pub record Report : Type 0 where
  pub epollin : Bool
  pub epollout : Bool
  pub failure : Bool

-- real_events
abbrev pub real_events : Report → Events → Events
real_events r s = record {
  readable = r.epollin || r.failure && s.readable;
  writable = r.epollout || r.failure && s.writable;
}

-- The body of the loop over the reports in idle; the flag says whether the report was acted on.
unfoldable pub dispatch : ℕ → Report → Bool → IoManager → Option (Bool × IoManager)
dispatch fd r ok m = context_at (get_elem? m.contexts fd) (λ c.
    let real : Events = real_events r c.events in
    let left : Events = record {
      readable = c.events.readable && not real.readable;
      writable = c.events.writable && not real.writable;
    } in
    if not (c.events.readable && real.readable) && not (c.events.writable && real.writable)
    then some (false, m)
    else if not ok
    then some (false, m)
    else triggered fd (op_left left) left m (
        then_trigger real.writable write_event
          (then_trigger real.readable read_event (some ([], m.pending_event_count, c)))))

-- IOManager::stopping, with the test of the timers and of the scheduler.
unfoldable pub stopping : Bool → Bool → IoManager → Bool
stopping no_timer scheduler_stopping m =
    no_timer && (m.pending_event_count == 0) && scheduler_stopping
