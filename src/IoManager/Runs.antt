-- ===== src/IoManager/Runs.antt =====
-- A concrete table of events, and the theorems at concrete inputs.
use cpp_linux_server.Base.{
  ◌+◌, ◌≡◌, refl, [], ◌∷◌, ◌++◌, get_elem?, true, false, none, some, arith, replicate, set,
}
use cpp_linux_server.IoManager.{
  read_event, write_event, no_events, has_event, with_event, FdContext, get_context, set_context,
  run_cb, run_fiber, in_table, IoManager, new_io_manager, context_resize, register, add_event,
  del_event, cancel_all, Report, dispatch, decrement, new_fd_context, ctl_add, ctl_mod,
}
use cpp_linux_server.IoManager.Table.{IsWellFormed, registered, events_of}
use cpp_linux_server.IoManager.Sequences.{waiting_for}
use cpp_linux_server.IoManager.Cancelling.{cancel_all_lem}
use cpp_linux_server.IoManager.Reachability.{
  adds, deletes, Reachable, initial, then_step, Reachable-IsWellFormed, in_and_out,
  dispatch-outdated,
}

-- Fiber 7 of scheduler 1 waits to read from descriptor 3, and callback 9 to write to it.
abbrev waiting_to_read : FdContext
waiting_to_read = record {
  read_context = record { scheduler = some 1; fiber = some 7; cb = none };
  write_context = record { scheduler = none; fiber = none; cb = none };
  events = record { readable = true; writable = false };
}

abbrev waiting_for_both : FdContext
waiting_for_both = record waiting_to_read {
  write_context = record { scheduler = some 1; fiber = none; cb = some 9 };
  events = record { readable = true; writable = true };
}

-- The table after each addEvent, and after the second is taken back by delEvent of READ.
abbrev one_event : IoManager
one_event = record {
  contexts = set (replicate 32 new_fd_context) 3 waiting_to_read;
  pending_event_count = 1;
  tasks = [];
  ctl = record { op = ctl_add; fd = 3; interest = waiting_to_read.events } ∷ [];
}

abbrev two_events : IoManager
two_events = record {
  contexts = set (replicate 32 new_fd_context) 3 waiting_for_both;
  pending_event_count = 2;
  tasks = [];
  ctl = record { op = ctl_mod; fd = 3; interest = waiting_for_both.events } ∷ one_event.ctl;
}

abbrev waiting_to_write : FdContext
waiting_to_write = record waiting_for_both {
  read_context = record { scheduler = none; fiber = none; cb = none };
  events = record { readable = false; writable = true };
}

abbrev write_left : IoManager
write_left = record {
  contexts = set (replicate 32 new_fd_context) 3 waiting_to_write;
  pending_event_count = 1;
  tasks = [];
  ctl = record { op = ctl_mod; fd = 3; interest = waiting_to_write.events } ∷ two_events.ctl;
}

first_add : add_event 3 read_event none (some 1) 7 true new_io_manager ≡ some (true, one_event)
unfolding add_event in_table register has_event with_event get_context set_context new_io_manager
    context_resize
first_add = refl

second_add : add_event 3 write_event (some 9) (some 1) 7 true one_event ≡ some (true, two_events)
unfolding add_event in_table register has_event with_event get_context set_context
second_add = refl

read_deleted : del_event 3 read_event true two_events ≡ some (true, write_left)
unfolding del_event in_table has_event with_event set_context
read_deleted = refl

two_events-Reachable : Reachable two_events
unfolding new_io_manager context_resize has_event
two_events-Reachable =
    then_step one_event two_events
      (then_step new_io_manager one_event initial (
        adds 3 read_event none 1 7 true true new_io_manager one_event (omega arith) refl first_add))
      (adds 3 write_event (some 9) 1 7 true true one_event two_events (omega arith) refl second_add)

write_left-Reachable : Reachable write_left
write_left-Reachable =
    then_step two_events write_left two_events-Reachable
      (deletes 3 read_event true true two_events write_left read_deleted)

Reachable-IsWellFormed_example : IsWellFormed write_left
Reachable-IsWellFormed_example = Reachable-IsWellFormed write_left write_left-Reachable

two_events-IsWellFormed : IsWellFormed two_events
two_events-IsWellFormed = Reachable-IsWellFormed two_events two_events-Reachable

write_left-IsWellFormed : IsWellFormed write_left
write_left-IsWellFormed = Reachable-IsWellFormed write_left write_left-Reachable

cancel_all_lem_example :
    (m' : IoManager) × (cancel_all 3 true two_events ≡ some (true, m'))
    × IsWellFormed m'
    × (m'.tasks
        ≡ []
          ++ (waiting_for read_event waiting_for_both ++ waiting_for write_event waiting_for_both))
    × (events_of (get_elem? m'.contexts 3) ≡ no_events)
cancel_all_lem_example =
    cancel_all_lem 3 waiting_for_both two_events two_events-IsWellFormed refl refl

both_scheduled :
    waiting_for read_event waiting_for_both ++ waiting_for write_event waiting_for_both
    ≡ run_fiber 1 7 ∷ run_cb 1 9 ∷ []
unfolding has_event get_context
both_scheduled = refl

-- An error on the descriptor wakes both.
abbrev error_report : Report
error_report = record { epollin = false; epollout = false; failure = true }

dispatch-outdated_example :
    (m' : IoManager) × (dispatch 3 in_and_out true write_left ≡ some (true, m'))
    × (registered m'.contexts + 1 ≡ registered write_left.contexts)
    × (m'.pending_event_count ≡ decrement (registered m'.contexts))
dispatch-outdated_example =
    dispatch-outdated 3 waiting_to_write write_left write_left-IsWellFormed refl refl refl
