-- ===== src/Scheduler.antt =====
-- chat/scheduler.h and scheduler.cc: the queue of fibers and callbacks, and the loop of a thread that runs
-- them; the states of chat/fiber.cc.
--
-- Fibers and callbacks are numbers. What a fiber does while it runs is an argument: the state it is left in and
-- what it schedules meanwhile.
pub mod Picking
pub mod Running
mod Runs
use cpp_linux_server.Base.{
  ℕ, zero, suc, ◌+◌, ◌-◌, List, [], ◌∷◌, ◌++◌, Bool, true, false, not, ◌&&◌, ◌||◌, ◌==◌,
  if◌then◌else◌, Option, none, some,
}

-- Fiber::State; a fiber that was made is in the state INIT.
pub data FiberState : Type 0 where
  fiber_init : FiberState
  hold : FiberState
  exec : FiberState
  term : FiberState
  ready : FiberState
  except : FiberState

abbrev pub is_exec : FiberState → Bool
is_exec exec = true
is_exec _ = false

-- `state == TERM || state == EXCEPT`
abbrev pub is_over : FiberState → Bool
is_over term = true
is_over except = true
is_over _ = false

-- `thread` is `none` where any thread may run it.
pub record FiberAndThread : Type 0 where
  pub fiber : Option ℕ
  pub cb : Option ℕ
  pub thread : Option ℕ

pub record Scheduler : Type 0 where
  pub fibers : List FiberAndThread
  pub states : ℕ → FiberState
  pub active_thread_count : ℕ
  pub idle_thread_count : ℕ
  pub auto_stop : Bool
  pub is_stopping : Bool

abbrev pub set_state : ℕ → FiberState → (ℕ → FiberState) → ℕ → FiberState
set_state f s states g = if g == f then s else states g

abbrev pub is_none : Option ℕ → Bool
is_none none = true
is_none (some _) = false

-- scheduleNoLock: whether a tickle is needed, and the scheduler; an empty entry is dropped.
unfoldable pub schedule_no_lock : FiberAndThread → Scheduler → Bool × Scheduler
schedule_no_lock t s = (
  elim s.fibers [ [] ↦ true | _ ∷ _ ↦ false ],
  if is_none t.fiber && is_none t.cb then s else record s { fibers = s.fibers ++ (t ∷ []) },
)

-- schedule of several entries: one tickle for all, where the queue was empty.
unfoldable pub schedule_all : List FiberAndThread → Scheduler → Bool × Scheduler
schedule_all [] s = (false, s)
schedule_all (t ∷ ts) s =
    let (tickle, s') = schedule_no_lock t s in
    let (tickles, s'') = schedule_all ts s' in (tickle || tickles, s'')

-- The tests of an entry in the loop of run: it is of another thread, its fiber runs somewhere, or it is taken.
pub data Verdict : Type 0 where
  elsewhere : Verdict
  running : Verdict
  taken : Verdict

abbrev pub verdict : ℕ → (ℕ → FiberState) → FiberAndThread → Verdict
verdict me states t =
    if elim t.thread [ none ↦ false | some n ↦ not (n == me) ]
    then elsewhere
    else if elim t.fiber [ none ↦ false | some f ↦ is_exec (states f) ]
    then running
    else taken

pub record Picked : Type 0 where
  pub entry : Option FiberAndThread
  pub left : List FiberAndThread
  pub tickle_me : Bool

abbrev pub passed : FiberAndThread → Verdict → List FiberAndThread → Picked → Picked
passed t taken ts p = record { entry = some t; left = ts; tickle_me = false }
passed t elsewhere ts p = record { entry = p.entry; left = t ∷ p.left; tickle_me = true }
passed t running ts p = record { entry = p.entry; left = t ∷ p.left; tickle_me = p.tickle_me }

-- The loop over m_fibers.
unfoldable pub pick_loop : ℕ → (ℕ → FiberState) → List FiberAndThread → Picked
pick_loop me states [] = record { entry = none; left = []; tickle_me = false }
pick_loop me states (t ∷ ts) = passed t (verdict me states t) ts (pick_loop me states ts)

abbrev pub any : List FiberAndThread → Bool
any [] = false
any (_ ∷ _) = true

-- The queue behind the loop, with the thread counted as active where it took an entry.
abbrev pub counted : Option FiberAndThread → List FiberAndThread → Scheduler → Scheduler
counted none ts s = record s { fibers = ts }
counted (some _) ts s = record s { fibers = ts; active_thread_count = s.active_thread_count + 1 }

-- The block under the lock: the entry, whether to tickle, and the scheduler.
unfoldable pub pick : ℕ → Scheduler → Picked × Scheduler
pick me s =
    let p : Picked = pick_loop me s.states s.fibers in
    (record p { tickle_me = p.tickle_me || any p.left }, counted p.entry p.left s)

-- swapIn until the fiber swaps out again: it is in EXEC, then in the state that it was left in.
abbrev pub swap_in : ℕ → FiberState → List FiberAndThread → Scheduler → Scheduler
swap_in f left_in scheduled s =
    let s' : Scheduler = record s { states = set_state f exec s.states } in
    let (_, s'') = schedule_all scheduled s' in
    record s'' { states = set_state f left_in s''.states }

abbrev pub no_longer_active : Scheduler → Scheduler
no_longer_active s = record s { active_thread_count = s.active_thread_count - 1 }

-- A fiber behind its run: scheduled again in READY, left alone where it is over, and else in HOLD.
abbrev pub settle : ℕ → FiberState → Scheduler → Scheduler
settle f ready s = (schedule_no_lock (record { fiber = some f; cb = none; thread = none }) s).1
settle f term s = s
settle f except s = s
settle f fiber_init s = record s { states = set_state f hold s.states }
settle f hold s = record s { states = set_state f hold s.states }
settle f exec s = record s { states = set_state f hold s.states }

-- The same of cb_fiber, which in the end is reset to INIT where it is over.
abbrev pub settle_cb : ℕ → FiberState → Scheduler → Scheduler
settle_cb f ready s = (schedule_no_lock (record { fiber = some f; cb = none; thread = none }) s).1
settle_cb f term s = record s { states = set_state f fiber_init s.states }
settle_cb f except s = record s { states = set_state f fiber_init s.states }
settle_cb f fiber_init s = record s { states = set_state f hold s.states }
settle_cb f hold s = record s { states = set_state f hold s.states }
settle_cb f exec s = record s { states = set_state f hold s.states }

-- What a round of run does with the entry that it took.
pub data Ran : Type 0 where
  ran_fiber : ℕ → Ran
  ran_cb : ℕ → Ran
  ran_nothing : Ran
  ran_idle : Ran

abbrev pub run_cb_part :
    ℕ → FiberState → List FiberAndThread → FiberAndThread → Scheduler → Ran × Scheduler
run_cb_part cb_fiber left_in scheduled t s = elim t.cb [
  | some c ↦ (
    ran_cb c,
    settle_cb cb_fiber left_in (no_longer_active (swap_in cb_fiber left_in scheduled s)),
  )
  | none ↦ (ran_nothing, no_longer_active s)
]

-- The branches of run on the entry, with the fiber for callbacks.
unfoldable pub run_entry :
    ℕ → FiberState → List FiberAndThread → FiberAndThread → Scheduler → Ran × Scheduler
run_entry cb_fiber left_in scheduled t s = elim t.fiber [
  | some f ↦
      if is_over (s.states f)
      then run_cb_part cb_fiber left_in scheduled t s
      else (ran_fiber f, settle f left_in (no_longer_active (swap_in f left_in scheduled s)))
  | none ↦ run_cb_part cb_fiber left_in scheduled t s
]

-- The idle fiber, between the two changes of m_idleThreadCount.
abbrev pub run_idle : List FiberAndThread → Scheduler → Scheduler
run_idle scheduled s =
    let (_, s') =
      schedule_all scheduled (record s { idle_thread_count = s.idle_thread_count + 1 }) in
    record s' { idle_thread_count = s'.idle_thread_count - 1 }

abbrev pub act :
    ℕ → FiberState → List FiberAndThread → Option FiberAndThread → Scheduler → Ran × Scheduler
act cb_fiber left_in scheduled (some t) s = run_entry cb_fiber left_in scheduled t s
act cb_fiber left_in scheduled none s = (ran_idle, run_idle scheduled s)

-- A round of the loop of run on the thread `me`.
unfoldable pub run_round : ℕ → ℕ → FiberState → List FiberAndThread → Scheduler → Ran × Scheduler
run_round me cb_fiber left_in scheduled s =
    let (p, s') = pick me s in act cb_fiber left_in scheduled p.entry s'

-- Scheduler::stopping
unfoldable pub scheduler_stopping : Scheduler → Bool
scheduler_stopping s =
    s.is_stopping && s.auto_stop && not (any s.fibers) && (s.active_thread_count == 0)
