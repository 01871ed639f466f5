-- ===== src/FdManager/Runs.antt =====
-- A concrete kernel and manager, and the theorems at concrete inputs.
use cpp_linux_server.Base.{
  ◌≤◌, ◌<◌, ◌≡◌, ◌≢◌, ◌⊎◌, refl, [], ◌∷◌, true, false, ◌==◌, none, some, arith, inl, inr,
}
use cpp_linux_server.FdManager.{
  FdCtx, Kernel, new_ctx, get_sys_nonblock, so_rcvtimeo, FdManager, got, outside, get, new_manager,
}
use cpp_linux_server.FdManager.Laws.{get-cases, get_sys_nonblock-new_ctx}

-- Every descriptor is an open socket in blocking mode.
abbrev sockets : Kernel
sockets = record { fstat = λ fd. some true; nonblocking = λ fd. false }

abbrev two_slots : FdManager
two_slots = record { datas = none ∷ none ∷ [] }

get_64_outside : get sockets (some 64) true new_manager ≡ outside
unfolding new_manager
get_64_outside = elim (get-cases sockets 64 new_manager) [
  | inl p ↦ absurd (omega (arith, p.0))
  | inr p ↦ p.1
]

get-cases_example :
    ((2 < 2)
      × ((c : FdCtx) × (m' : FdManager) × (get sockets (some 2) true two_slots ≡ got (some c) m')))
    ⊎ ((2 ≤ 2) × (get sockets (some 2) true two_slots ≡ outside))
get-cases_example = get-cases sockets 2 two_slots

get_sys_nonblock-new_ctx_example :
    ((new_ctx sockets 1).sys_nonblock ≡ true) × (get_sys_nonblock (new_ctx sockets 1) ≡ false)
get_sys_nonblock-new_ctx_example = get_sys_nonblock-new_ctx sockets 1 refl

kinds_differ : (20 == so_rcvtimeo) ≢ (21 == so_rcvtimeo)
kinds_differ e = absurd (cc e)
