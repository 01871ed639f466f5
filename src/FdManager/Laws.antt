-- ===== src/FdManager/Laws.antt =====
-- What get, del and the accessors of a context promise.
use cpp_linux_server.Base.{
  ℕ, zero, suc, ◌≤◌, ◌<◌, ◌≡◌, ◌≢◌, ◌⊎◌, refl, ap, ◌∙◌, List, [], ◌∷◌, length, get_elem?,
  get_elem?-exists, set, Bool, true, false, ◌==◌, if◌then◌else◌, Option, none, some, arith, inl,
  inr, le-cases, le→leb, lt→leb, length-set,
}
use cpp_linux_server.FdManager.{
  FdCtx, Kernel, init, new_ctx, get_sys_nonblock, set_timeout, get_timeout, so_rcvtimeo, FdManager,
  got, outside, create_ctx, get_slot, get, del,
}

get_elem?-set :
    {A : Type 0} (xs : List A) (i : ℕ) (v : A) → i < length xs → get_elem? (set xs i v) i ≡ some v
get_elem?-set [] i v h = absurd (omega arith)
get_elem?-set (x ∷ xs) zero v h = refl
get_elem?-set (x ∷ xs) (suc i) v h = get_elem?-set xs i v (omega arith)

get_elem?-set_other :
    {A : Type 0} (xs : List A) (i j : ℕ) (v : A) → i ≢ j → get_elem? (set xs i v) j ≡ get_elem? xs j
get_elem?-set_other [] i j v h = refl
get_elem?-set_other (x ∷ xs) zero zero v h = absurd (h refl)
get_elem?-set_other (x ∷ xs) zero (suc j) v h = refl
get_elem?-set_other (x ∷ xs) (suc i) zero v h = refl
get_elem?-set_other (x ∷ xs) (suc i) (suc j) v h = get_elem?-set_other xs i j v (λ e. h (ap suc e))

get_inside :
    (k : Kernel) (fd : ℕ) (auto : Bool) (m : FdManager)
    → fd < length m.datas
    → get k (some fd) auto m ≡ get_slot k fd auto m (get_elem? m.datas fd)
unfolding get
get_inside k fd auto m h = rw (lt→leb (length m.datas) fd h) refl

create_ctx_inside :
    (k : Kernel) (fd : ℕ) (m : FdManager)
    → fd < length m.datas
    → create_ctx k fd m
      ≡ got (some (new_ctx k fd)) (record m { datas = set m.datas fd (some (new_ctx k fd)) })
unfolding create_ctx
create_ctx_inside k fd m h = rw (lt→leb (length m.datas) fd h) refl

-- A descriptor whose slot is there and empty gets a new context, and the next get of it, with or
-- without auto_create, returns that context.
pub get-get :
    (k : Kernel) (fd : ℕ) (again : Bool) (m : FdManager)
    → get_elem? m.datas fd ≡ some none
    → fd < length m.datas
    → (m' : FdManager) × (get k (some fd) true m ≡ got (some (new_ctx k fd)) m')
      × (get k (some fd) again m' ≡ got (some (new_ctx k fd)) m')
unfolding get_slot
get-get k fd again m e h =
    let c : FdCtx = new_ctx k fd in
    let m' : FdManager = record m { datas = set m.datas fd (some c) } in
    let long : length m'.datas ≡ length m.datas = length-set {0} m.datas fd (some c) in
    (
      m',
      get_inside k fd true m h ∙ ap (λ s. get_slot k fd true m s) e ∙ create_ctx_inside k fd m h,
      get_inside k fd again m' (omega (arith, long))
          ∙ ap (λ s. get_slot k fd again m' s) (get_elem?-set m.datas fd (some c) h),
    )

-- get with auto_create on any descriptor: below the size of m_datas it returns a context; from
-- there on (64, for nothing resizes m_datas) it accesses m_datas outside of its elements.
pub get-cases :
    (k : Kernel) (fd : ℕ) (m : FdManager)
    → ((fd < length m.datas)
        × ((c : FdCtx) × (m' : FdManager) × (get k (some fd) true m ≡ got (some c) m')))
      ⊎ ((length m.datas ≤ fd) × (get k (some fd) true m ≡ outside))
unfolding get create_ctx get_slot
get-cases k fd m = elim (le-cases (length m.datas) fd) [
  | inl h ↦ inr (h, rw (le→leb (length m.datas) fd h) refl)
  | inr h ↦
      let (slot, e) = get_elem?-exists {0} m.datas fd h in
      let (c, m', p) = from_slot slot h in
      inl (h, (c, m', get_inside k fd true m h ∙ ap (λ s. get_slot k fd true m s) e ∙ p))
]
  where
    from_slot :
        (slot : Option FdCtx)
        → fd < length m.datas
        → (c : FdCtx) × (m' : FdManager) × (get_slot k fd true m (some slot) ≡ got (some c) m')
    from_slot (some c) h = (c, m, refl)
    from_slot none h = (new_ctx k fd, _, create_ctx_inside k fd m h)

-- After del of a descriptor with a slot the slot is empty, and no other slot is changed.
pub del-get :
    (k : Kernel) (fd other : ℕ) (m : FdManager)
    → fd ≢ other
    → fd < length m.datas
    → (get k (some fd) false (del fd m) ≡ got none (del fd m))
      × (get_elem? (del fd m).datas other ≡ get_elem? m.datas other)
unfolding del get_slot
del-get k fd other m n h =
    let m' : FdManager = record m { datas = set m.datas fd none } in
    let long : length m'.datas ≡ length m.datas = length-set {0} m.datas fd none in
    rw (lt→leb (length m.datas) fd h) (
      get_inside k fd false m' (omega (arith, long))
          ∙ ap (λ s. get_slot k fd false m' s) (get_elem?-set m.datas fd none h),
      get_elem?-set_other m.datas fd other none n,
    )

-- The context of a socket: m_sysNonblock is true, and getSysNonblock returns false.
pub get_sys_nonblock-new_ctx :
    (k : Kernel) (fd : ℕ)
    → k.fstat fd ≡ some true
    → ((new_ctx k fd).sys_nonblock ≡ true) × (get_sys_nonblock (new_ctx k fd) ≡ false)
unfolding new_ctx init get_sys_nonblock
get_sys_nonblock-new_ctx k fd h = rw h (refl, refl)

-- setTimeout of one kind is read back by getTimeout of that kind, and another kind is as it was,
-- where one of the two is SO_RCVTIMEO.
pub get_timeout-set_timeout :
    (type other v : ℕ) (c : FdCtx)
    → (type == so_rcvtimeo) ≢ (other == so_rcvtimeo)
    → (get_timeout type (set_timeout type v c) ≡ v)
      × (get_timeout other (set_timeout type v c) ≡ get_timeout other c)
unfolding get_timeout set_timeout
get_timeout-set_timeout type other v c n = go (type == so_rcvtimeo) (other == so_rcvtimeo) n
  where
    go :
        (a b : Bool)
        → a ≢ b
        → ((let c' = if a then record c { recv_timeout = v } else record c { send_timeout = v } in
              if a then c'.recv_timeout else c'.send_timeout)
            ≡ v)
          × ((let c' = if a then record c { recv_timeout = v } else record c { send_timeout = v } in
                if b then c'.recv_timeout else c'.send_timeout)
              ≡ (if b then c.recv_timeout else c.send_timeout))
    go true true n = absurd (n refl)
    go true false n = (refl, refl)
    go false true n = (refl, refl)
    go false false n = absurd (n refl)
