-- ===== src/Scheduler/Runs.antt =====
-- A concrete queue, and the theorems at concrete inputs.
use cpp_linux_server.Base.{
  ℕ, true, false, ◌≡◌, refl, List, [], ◌∷◌, ◌++◌, length, suc, none, some, ◌⊎◌, ◌==◌, if◌then◌else◌,
}
use cpp_linux_server.Scheduler.{
  FiberState, hold, exec, ready, FiberAndThread, Scheduler, pick_loop, pick, run_entry, run_round,
  schedule_all, schedule_no_lock,
}
use cpp_linux_server.Scheduler.Picking.{Took, TookNone, pick_loop-Took}
use cpp_linux_server.Scheduler.Running.{Balanced, run_round-moves_up}

-- Fiber 1 is of thread 5, fiber 2 runs, then callback 9 and fiber 3.
abbrev of_thread_five : FiberAndThread
of_thread_five = record { fiber = some 1; cb = none; thread = some 5 }

abbrev runs_already : FiberAndThread
runs_already = record { fiber = some 2; cb = none; thread = none }

abbrev callback : FiberAndThread
callback = record { fiber = none; cb = some 9; thread = none }

abbrev waits : FiberAndThread
waits = record { fiber = some 3; cb = none; thread = some 4 }

abbrev two_runs : ℕ → FiberState
two_runs f = if f == 2 then exec else hold

abbrev queue : List FiberAndThread
queue = of_thread_five ∷ runs_already ∷ callback ∷ waits ∷ []

abbrev busy_scheduler : Scheduler
busy_scheduler = record {
  fibers = queue;
  states = two_runs;
  active_thread_count = 1;
  idle_thread_count = 0;
  auto_stop = false;
  is_stopping = true;
}

callback_taken : (pick_loop 4 two_runs queue).entry ≡ some callback
unfolding pick_loop
callback_taken = refl

-- Callback 9 yields in READY in the fiber 20, which is scheduled again.
yielded :
    (run_round 4 20 ready [] busy_scheduler).1.fibers
    ≡ of_thread_five
      ∷ runs_already
      ∷ waits
      ∷ record { fiber = some 20; cb = none; thread = none }
      ∷ []
unfolding run_round run_entry pick pick_loop schedule_all schedule_no_lock
yielded = refl

pick_loop-Took_example :
    Took 4 two_runs queue (pick_loop 4 two_runs queue)
    ⊎ TookNone 4 two_runs queue (pick_loop 4 two_runs queue)
pick_loop-Took_example = pick_loop-Took 4 two_runs queue

run_round-moves_up_example :
    (((pick_loop 4 two_runs queue).entry ≡ some waits)
      ⊎ ((before' : List FiberAndThread) × (behind' : List FiberAndThread) × ((run_round 4 20 ready
              [] busy_scheduler).1.fibers
            ≡ before' ++ (waits ∷ behind'))
          × (3 ≡ suc (length before'))))
    × Balanced busy_scheduler (run_round 4 20 ready [] busy_scheduler).1
run_round-moves_up_example =
    run_round-moves_up 4 20 ready [] (of_thread_five ∷ runs_already ∷ callback ∷ []) waits []
      busy_scheduler refl refl
