-- ===== src/IoManager/Table.antt =====
-- What holds of the table of events between two operations, and replacing one of its contexts.
use cpp_linux_server.Base.{
  ℕ, zero, suc, ◌+◌, ◌*◌, ◌^◌, ◌≤◌, ◌≡◌, ◌≢◌, refl, ap, sym, subst, ◌∙◌, List, [], ◌∷◌, length,
  get_elem?, set, Bool, true, false, ◌==◌, if◌then◌else◌, Option, none, some, All, arith,
  length-set, ==_iff, Bool-cases, inl, inr, ◌⊎◌, ◌%◌, ◌<◌, lt→ltb, le→ltb,
}
use cpp_linux_server.IoManager.{
  Events, no_events, EventContext, reset_context, FdContext, Op, ctl_add, ctl_mod, ctl_del, Ctl,
  Task, IoManager, waiting, is_empty, commit, in_table,
}

-- The context of an event is in use where the event is registered, and empty otherwise.
abbrev pub Fits : Bool → EventContext → Type 0
Fits true x = (s : ℕ) × (f : ℕ) × (cb : Option ℕ) × (x ≡ waiting (some s) f cb)
Fits false x = x ≡ reset_context

abbrev pub IsConsistent : FdContext → Type 0
IsConsistent c = Fits c.events.readable c.read_context × Fits c.events.writable c.write_context

-- The number of registered events.
abbrev pub one : Bool → ℕ
one true = 1
one false = 0

abbrev pub count : Events → ℕ
count s = one s.readable + one s.writable

unfoldable pub registered : List FdContext → ℕ
registered [] = 0
registered (c ∷ cs) = count c.events + registered cs

abbrev pub events_of : Option FdContext → Events
events_of none = no_events
events_of (some c) = c.events

-- What epoll waits for on a descriptor, by the last call that told it.
unfoldable pub interest_of : List Ctl → ℕ → Events
interest_of [] fd = no_events
interest_of (k ∷ ks) fd = if k.fd == fd then k.interest else interest_of ks fd

-- As documented for epoll_ctl: ADD of a descriptor that is not there, MOD and DEL of one that is;
-- a descriptor without events is not kept.
abbrev pub IsLegal : Op → Events → Events → Type 0
IsLegal ctl_add before now = (before ≡ no_events) × (is_empty now ≡ false)
IsLegal ctl_mod before now = (is_empty before ≡ false) × (is_empty now ≡ false)
IsLegal ctl_del before now = (is_empty before ≡ false) × (now ≡ no_events)

unfoldable pub AllLegal : List Ctl → Type 0
AllLegal [] = Unit {0}
AllLegal (k ∷ ks) = IsLegal k.op (interest_of ks k.fd) k.interest × AllLegal ks

-- The size is that of the constructor at least and is an int, the contexts fit their events, the count of pending events is the number of registered ones,
-- and epoll was told of exactly those, by legal calls.
pub record IsWellFormed (m : IoManager) : Type 0 where
  pub size_ge : 32 ≤ length m.contexts
  pub size_lt : length m.contexts < 2 ^ 31
  pub consistent : All IsConsistent m.contexts
  pub pending_eq : m.pending_event_count ≡ registered m.contexts
  pub synced : (fd : ℕ) → interest_of m.ctl fd ≡ events_of (get_elem? m.contexts fd)
  pub legal : AllLegal m.ctl

pub registered-le : (cs : List FdContext) → registered cs ≤ 2 * length cs
unfolding registered
registered-le [] = omega arith
registered-le (c ∷ cs) =
    omega (arith, registered-le cs, small c.events.readable, small c.events.writable)
  where
    small : (b : Bool) → one b ≤ 1
    small true = omega arith
    small false = omega arith

pub registered-set :
    (cs : List FdContext) (fd : ℕ) (c c' : FdContext)
    → get_elem? cs fd ≡ some c
    → registered (set cs fd c') + count c.events ≡ registered cs + count c'.events
unfolding registered
registered-set [] fd c c' e = absurd (cc e)
registered-set (x ∷ cs) zero c c' e = let same : x ≡ c = cc e in rw same (omega arith)
registered-set (x ∷ cs) (suc fd) c c' e = omega (arith, registered-set cs fd c c' e)

pub IsConsistent-at :
    (cs : List FdContext) (fd : ℕ) (c : FdContext)
    → All IsConsistent cs
    → get_elem? cs fd ≡ some c
    → IsConsistent c
IsConsistent-at [] fd c h e = absurd (cc e)
IsConsistent-at (x ∷ cs) zero c h e = let same : x ≡ c = cc e in subst IsConsistent same h.0
IsConsistent-at (x ∷ cs) (suc fd) c h e = IsConsistent-at cs fd c h.1 e

IsConsistent-set :
    (cs : List FdContext) (fd : ℕ) (c : FdContext)
    → All IsConsistent cs
    → IsConsistent c
    → All IsConsistent (set cs fd c)
IsConsistent-set [] fd c h i = tt
IsConsistent-set (x ∷ cs) zero c h i = (i, h.1)
IsConsistent-set (x ∷ cs) (suc fd) c h i = (h.0, IsConsistent-set cs fd c h.1 i)

pub events-set-same :
    (cs : List FdContext) (fd : ℕ) (c c' : FdContext)
    → get_elem? cs fd ≡ some c
    → events_of (get_elem? (set cs fd c') fd) ≡ c'.events
events-set-same [] fd c c' e = absurd (cc e)
events-set-same (x ∷ cs) zero c c' e = refl
events-set-same (x ∷ cs) (suc fd) c c' e = events-set-same cs fd c c' e

events-set-other :
    (cs : List FdContext) (fd fd' : ℕ) (c : FdContext)
    → fd ≢ fd'
    → events_of (get_elem? (set cs fd c) fd') ≡ events_of (get_elem? cs fd')
events-set-other [] fd fd' c h = refl
events-set-other (x ∷ cs) zero zero c h = absurd (h refl)
events-set-other (x ∷ cs) zero (suc fd') c h = refl
events-set-other (x ∷ cs) (suc fd) zero c h = refl
events-set-other (x ∷ cs) (suc fd) (suc fd') c h = events-set-other cs fd fd' c (λ e. h (ap suc e))

-- A context that fits its new events is put in, and epoll is told of these by a legal call.
pub commit-IsWellFormed :
    (fd n : ℕ) (c c' : FdContext) (op : Op) (interest : Events) (ts : List Task) (m : IoManager)
    → IsWellFormed m
    → get_elem? m.contexts fd ≡ some c
    → IsConsistent c'
    → c'.events ≡ interest
    → IsLegal op c.events interest
    → n + count c.events ≡ registered m.contexts + count interest
    → IsWellFormed (commit fd c' op interest n ts m)
unfolding interest_of AllLegal
commit-IsWellFormed fd n c c' op interest ts m w e ok told legal sum = record {
  size_ge = omega (arith, w.size_ge, length-set {0} m.contexts fd c');
  size_lt = omega (arith, w.size_lt, length-set {0} m.contexts fd c');
  consistent = IsConsistent-set m.contexts fd c' w.consistent ok;
  pending_eq = omega (arith, registered-set m.contexts fd c c' e, sum, ap count told);
  synced = λ fd'. by_fd fd' (Bool-cases (fd == fd'));
  legal = (
    subst (λ (s : Events). IsLegal op s interest) (sym (w.synced fd ∙ ap events_of e)) legal,
    w.legal,
  );
}
  where
    by_fd :
        (fd' : ℕ)
        → ((fd == fd') ≡ true) ⊎ ((fd == fd') ≡ false)
        → (if fd == fd' then interest else interest_of m.ctl fd')
          ≡ events_of (get_elem? (set m.contexts fd c') fd')
    by_fd fd' (inl t) = rw t (
        sym told
        ∙ sym (events-set-same m.contexts fd c c' e)
        ∙ ap (λ (i : ℕ). events_of (get_elem? (set m.contexts fd c') i)) ((==_iff fd fd').0 t))
    by_fd fd' (inr f) = rw f (
        w.synced fd'
        ∙ sym (events-set-other m.contexts fd fd' c' (λ i. absurd (cc (f, (==_iff fd fd').1 i)))))

pub registered-at :
    (cs : List FdContext) (fd : ℕ) (c : FdContext)
    → get_elem? cs fd ≡ some c
    → count c.events ≤ registered cs
unfolding registered
registered-at [] fd c e = absurd (cc e)
registered-at (x ∷ cs) zero c e = let same : x ≡ c = cc e in rw same (omega arith)
registered-at (x ∷ cs) (suc fd) c e = omega (arith, registered-at cs fd c e)

pub in_table-small :
    (fd : ℕ) (m : IoManager)
    → IsWellFormed m
    → fd < length m.contexts
    → in_table fd m.contexts ≡ true
unfolding in_table
in_table-small fd m w h =
    let same : length m.contexts % 2 ^ 32 ≡ length m.contexts = omega (arith, w.size_lt) in
    rw (same, lt→ltb (length m.contexts) (2 ^ 31) w.size_lt, lt→ltb fd (length m.contexts) h) refl

pub in_table-large :
    (fd : ℕ) (m : IoManager)
    → IsWellFormed m
    → length m.contexts ≤ fd
    → in_table fd m.contexts ≡ false
unfolding in_table
in_table-large fd m w h =
    let same : length m.contexts % 2 ^ 32 ≡ length m.contexts = omega (arith, w.size_lt) in
    rw (same, lt→ltb (length m.contexts) (2 ^ 31) w.size_lt, le→ltb fd (length m.contexts) h) refl

get_elem?-lt :
    (cs : List FdContext) (fd : ℕ) (c : FdContext) → get_elem? cs fd ≡ some c → fd < length cs
get_elem?-lt [] fd c e = absurd (cc e)
get_elem?-lt (x ∷ cs) zero c e = omega arith
get_elem?-lt (x ∷ cs) (suc fd) c e = omega (arith, get_elem?-lt cs fd c e)

-- A context of a table in order is found behind the test of the size.
pub in_table-at :
    (fd : ℕ) (c : FdContext) (m : IoManager)
    → IsWellFormed m
    → get_elem? m.contexts fd ≡ some c
    → in_table fd m.contexts ≡ true
in_table-at fd c m w at = in_table-small fd m w (get_elem?-lt m.contexts fd c at)
