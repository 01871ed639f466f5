-- ===== src/Timer/Runs.antt =====
-- A concrete manager, and the theorems at concrete inputs.
use cpp_linux_server.Base.{
  ℕ, ◌≡◌, refl, List, [], ◌∷◌, ◌++◌, map, true, false, none, some, ◌*◌, ◌==◌,
}
use cpp_linux_server.Timer.{
  Heap, TimerManager, insert, cancel, reset, list_expired_cb, expire, due, split_expired,
  take_equal, fire, detect_clock_rollover,
}
use cpp_linux_server.Timer.Order.{Sorted}
use cpp_linux_server.Timer.Expiry.{Split, list_expired_cb_lem}
use cpp_linux_server.Timer.Cancel.{cancel_lem}

-- The timer at the address a is due at 100 a, with the callback a; that at 1 recurs.
abbrev hundreds : Heap
hundreds a = record { ms = 50; next = 100 * a; cb = some a; recurring = a == 1 }

abbrev three : TimerManager
three = record { heap = hundreds; timers = 1 ∷ 2 ∷ 3 ∷ []; tickled = false; previous_time = 0 }

three-Sorted : Sorted three.heap three.timers
three-Sorted = ((refl, (refl, tt)), ((refl, tt), (tt, tt)))

-- At 200 the first two are due; the recurring one is in the set again, before the third.
expired_at_200 : (list_expired_cb 200 7 three).0 ≡ some 1 ∷ some 2 ∷ []
unfolding list_expired_cb expire due split_expired take_equal fire detect_clock_rollover insert
expired_at_200 = refl

left_at_200 : (list_expired_cb 200 7 three).1.timers ≡ 1 ∷ 3 ∷ []
unfolding list_expired_cb expire due split_expired take_equal fire detect_clock_rollover insert
left_at_200 = refl

list_expired_cb_lem_example :
    (expired : List ℕ) × (rest : List ℕ) × Split hundreds 200 (1 ∷ 2 ∷ 3 ∷ []) expired rest
    × ((list_expired_cb 200 7 three).0 ≡ map (λ a. (hundreds a).cb) expired)
    × Sorted (list_expired_cb 200 7 three).1.heap (list_expired_cb 200 7 three).1.timers
unfolding detect_clock_rollover
list_expired_cb_lem_example = list_expired_cb_lem 200 7 three three-Sorted refl

cancel_lem_example :
    (m' : TimerManager) × (cancel 2 three ≡ some (true, m'))
    × (m'.timers ≡ (1 ∷ []) ++ (3 ∷ []))
    × Sorted m'.heap m'.timers
    × (cancel 2 m' ≡ some (false, m'))
cancel_lem_example = cancel_lem 2 2 (1 ∷ []) (3 ∷ []) three refl three-Sorted refl

-- A timer without a callback is in no set, and reset to its own interval reports success.
reset_of_cancelled :
    (reset 50 false 0 2
      (record three { heap = λ a. record (hundreds a) { cb = none }; timers = [] })).0
    ≡ (true, false)
unfolding reset
reset_of_cancelled = refl
