-- ===== src/Timer.antt =====
-- chat/timer.h and timer.cc: the timers and their manager.
--
-- The heap gives the Timer at each address; m_timers is a list of addresses in the order of the
-- set. A callback is a number, `none` the empty function. The clock is an argument; locking is
-- left out, each operation is one step.
pub mod Order
pub mod Expiry
pub mod Cancel
mod Runs
use cpp_linux_server.Base.{
  ℕ, zero, suc, ◌+◌, ◌-◌, ◌*◌, ◌%◌, ◌^◌, List, [], ◌∷◌, Bool, true, false, not, ◌&&◌, ltb, leb,
  ◌==◌, if◌then◌else◌, Option, none, some, sub64,
}

pub record Timer : Type 0 where
  pub ms : ℕ
  pub next : ℕ
  pub cb : Option ℕ
  pub recurring : Bool

abbrev pub Heap : Type 0
Heap = ℕ → Timer

abbrev pub store : Heap → ℕ → Timer → Heap
store h a t b = if b == a then t else h b

pub record TimerManager : Type 0 where
  pub heap : Heap
  pub timers : List ℕ
  pub tickled : Bool
  pub previous_time : ℕ

-- Timer::Comparator on (m_next, address).
abbrev pub earlier : ℕ → ℕ → ℕ → ℕ → Bool
earlier n a m b = if ltb n m then true else if ltb m n then false else ltb a b

abbrev pub less : Heap → ℕ → ℕ → Bool
less h a b = earlier (h a).next a (h b).next b

-- std::set::insert
unfoldable pub insert : Heap → ℕ → List ℕ → List ℕ
insert h a [] = a ∷ []
insert h a (b ∷ bs) =
    let rest : List ℕ = insert h a bs in
    if less h a b then a ∷ b ∷ bs else if less h b a then b ∷ rest else b ∷ bs

-- std::set::find and erase: `none` where find gives end().
unfoldable pub remove : Heap → ℕ → List ℕ → Option (List ℕ)
remove h a [] = none
remove h a (b ∷ bs) =
    let rest : Option (List ℕ) = remove h a bs in
    if not (less h a b) && not (less h b a)
    then some bs
    else elim rest [ none ↦ none | some xs ↦ some (b ∷ xs) ]

-- TimerManager::addTimer with the lock: whether onTimerInsertedAtFront is called.
unfoldable pub add : ℕ → TimerManager → Bool × TimerManager
add a m =
    let xs : List ℕ = insert m.heap a m.timers in
    let at_front : Bool = elim xs [ [] ↦ false | x ∷ _ ↦ (x == a) && not m.tickled ] in
    (at_front, record m { timers = xs; tickled = if at_front then true else m.tickled })

-- addTimer: `a` is the address of the new timer.
unfoldable pub add_timer : ℕ → Option ℕ → Bool → ℕ → ℕ → TimerManager → Bool × TimerManager
add_timer ms cb recurring now a m = add a (record m {
  heap =
      store m.heap a
        (record { ms = ms; next = (now + ms) % 2 ^ 64; cb = cb; recurring = recurring });
})

-- Timer::cancel; `none` is an erase of end().
unfoldable pub cancel : ℕ → TimerManager → Option (Bool × TimerManager)
cancel a m = elim (m.heap a).cb [
  | none ↦ some (false, m)
  | some _ ↦
      let h : Heap = store m.heap a (record (m.heap a) { cb = none }) in
      elim (remove h a m.timers) [
        | none ↦ none
        | some xs ↦ some (true, record m { heap = h; timers = xs })
      ]
]

-- Timer::refresh
unfoldable pub refresh : ℕ → ℕ → TimerManager → Bool × TimerManager
refresh now a m = elim (m.heap a).cb [
  | none ↦ (false, m)
  | some _ ↦ elim (remove m.heap a m.timers) [
    | none ↦ (false, m)
    | some xs ↦
        let t : Timer = m.heap a in
        let h : Heap = store m.heap a (record t { next = (now + t.ms) % 2 ^ 64 }) in
        (true, record m { heap = h; timers = insert h a xs })
  ]
]

-- Timer::reset: the result, and whether onTimerInsertedAtFront is called.
unfoldable pub reset : ℕ → Bool → ℕ → ℕ → TimerManager → (Bool × Bool) × TimerManager
reset ms from_now now a m =
    let t : Timer = m.heap a in
    let start : ℕ = if from_now then now else sub64 t.next t.ms in
    let changed : Heap = store m.heap a (record t { ms = ms; next = (start + ms) % 2 ^ 64 }) in
    if (ms == t.ms) && not from_now then ((true, false), m) else elim t.cb [
      | none ↦ ((false, false), m)
      | some _ ↦ elim (remove m.heap a m.timers) [
        | none ↦ ((false, false), m)
        | some xs ↦
            let r : Bool × TimerManager = add a (record m { heap = changed; timers = xs }) in
            ((true, r.0), r.1)
      ]
    ]

unfoldable pub has_timer : TimerManager → Bool
has_timer m = elim m.timers [ [] ↦ false | _ ∷ _ ↦ true ]

unfoldable pub get_next_timer : ℕ → TimerManager → ℕ × TimerManager
get_next_timer now m = (
  elim m.timers [
    | [] ↦ 2 ^ 64 - 1
    | a ∷ _ ↦ if leb (m.heap a).next now then 0 else (m.heap a).next - now
  ],
  record m { tickled = false },
)

unfoldable pub detect_clock_rollover : ℕ → TimerManager → Bool × TimerManager
detect_clock_rollover now m = (
  ltb now m.previous_time && ltb now (sub64 m.previous_time (60 * 60 * 1000)),
  record m { previous_time = now },
)

abbrev pub keep : ℕ → List ℕ × List ℕ → List ℕ × List ℕ
keep a (xs, ys) = (a ∷ xs, ys)

-- The while loop over the timers of this very time.
unfoldable pub take_equal : Heap → ℕ → List ℕ → List ℕ × List ℕ
take_equal h now [] = ([], [])
take_equal h now (a ∷ xs) =
    let rest : List ℕ × List ℕ = take_equal h now xs in
    if (h a).next == now then keep a rest else ([], a ∷ xs)

-- lower_bound of a timer at `now` with the address `probe`, and that loop: the two sides of `it`.
unfoldable pub split_expired : Heap → ℕ → ℕ → List ℕ → List ℕ × List ℕ
split_expired h now probe [] = ([], [])
split_expired h now probe (a ∷ xs) =
    let rest : List ℕ × List ℕ = split_expired h now probe xs in
    if earlier (h a).next a now probe then keep a rest else take_equal h now (a ∷ xs)

-- The for loop over the expired timers: what they call, and heap and set behind it.
unfoldable pub fire : ℕ → List ℕ → Heap → List ℕ → List (Option ℕ) × (Heap × List ℕ)
fire now [] h ts = ([], (h, ts))
fire now (a ∷ xs) h ts =
    let again : Heap = store h a (record (h a) { next = (now + (h a).ms) % 2 ^ 64 }) in
    let over : Heap = store h a (record (h a) { cb = none }) in
    let r : List (Option ℕ) × (Heap × List ℕ) =
      if (h a).recurring then fire now xs again (insert again a ts) else fire now xs over ts in
    ((h a).cb ∷ r.0, r.1)

-- The expired timers and the others, where not all count as expired.
unfoldable pub due : Bool → Heap → ℕ → ℕ → List ℕ → List ℕ × List ℕ
due true h now probe xs = (xs, [])
due false h now probe xs = split_expired h now probe xs

-- What follows detectClockRollover, on the timers of `m`.
unfoldable pub expire :
    Bool → ℕ → ℕ → TimerManager → TimerManager → List ℕ → List (Option ℕ) × TimerManager
expire rollover now probe m m' [] = ([], m)
expire rollover now probe m m' (a ∷ xs) =
    let (expired, rest) = due rollover m.heap now probe (a ∷ xs) in
    let r : List (Option ℕ) × (Heap × List ℕ) = fire now expired m.heap rest in
    if not rollover && ltb now (m.heap a).next
    then ([], m')
    else (r.0, record m' { heap = r.1.0; timers = r.1.1 })

-- `probe` is the address of now_timer.
unfoldable pub list_expired_cb : ℕ → ℕ → TimerManager → List (Option ℕ) × TimerManager
list_expired_cb now probe m =
    let (rollover, m') = detect_clock_rollover now m in expire rollover now probe m m' m.timers
