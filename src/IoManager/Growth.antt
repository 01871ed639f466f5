-- ===== src/IoManager/Growth.antt =====
-- Making the table of events longer.
use cpp_linux_server.Base.{
  ℕ, zero, suc, ◌+◌, ◌-◌, ◌*◌, ◌/◌, ◌≤◌, ◌<◌, ◌≡◌, refl, ap, sym, ◌∙◌, List, [], ◌∷◌, ◌++◌, length,
  get_elem?, some, arith, All, All-append, take, replicate, length-append,
}
use cpp_linux_server.IoManager.{FdContext, new_fd_context, IoManager, context_resize}
use cpp_linux_server.IoManager.Table.{IsConsistent, registered, events_of, IsWellFormed}

take-all : (n : ℕ) (cs : List FdContext) → length cs ≤ n → take n cs ≡ cs
take-all zero [] h = refl
take-all zero (c ∷ cs) h = absurd (omega arith)
take-all (suc n) [] h = refl
take-all (suc n) (c ∷ cs) h = ap (λ (ds : List FdContext). c ∷ ds) (take-all n cs (omega arith))

abbrev pub fresh : ℕ → List FdContext
fresh k = replicate k new_fd_context

length-fresh : (k : ℕ) → length (fresh k) ≡ k
length-fresh zero = refl
length-fresh (suc k) = ap suc (length-fresh k)

pub fresh-IsConsistent : (k : ℕ) → All IsConsistent (fresh k)
fresh-IsConsistent zero = tt
fresh-IsConsistent (suc k) = ((refl, refl), fresh-IsConsistent k)

registered-fresh : (cs : List FdContext) (k : ℕ) → registered (cs ++ fresh k) ≡ registered cs
unfolding registered
registered-fresh [] zero = refl
registered-fresh [] (suc k) = omega (arith, registered-fresh [] k)
registered-fresh (c ∷ cs) k = omega (arith, registered-fresh cs k)

pub events-fresh :
    (cs : List FdContext) (k i : ℕ)
    → events_of (get_elem? (cs ++ fresh k) i) ≡ events_of (get_elem? cs i)
events-fresh [] zero i = refl
events-fresh [] (suc k) zero = refl
events-fresh [] (suc k) (suc i) = events-fresh [] k i
events-fresh (c ∷ cs) k zero = refl
events-fresh (c ∷ cs) k (suc i) = events-fresh cs k i

get-fresh :
    (cs : List FdContext) (k i : ℕ)
    → length cs ≤ i
    → i < length cs + k
    → get_elem? (cs ++ fresh k) i ≡ some new_fd_context
get-fresh [] zero i h l = absurd (omega arith)
get-fresh [] (suc k) zero h l = refl
get-fresh [] (suc k) (suc i) h l = get-fresh [] k i (omega arith) (omega arith)
get-fresh (c ∷ cs) k zero h l = absurd (omega arith)
get-fresh (c ∷ cs) k (suc i) h l = get-fresh cs k i (omega arith) (omega arith)

-- The resize of addEvent for a descriptor outside of the table makes room for it; from 1431655766 on, half
-- as much again is no int.
pub resize-IsWellFormed :
    (fd : ℕ) (m : IoManager)
    → IsWellFormed m
    → length m.contexts ≤ fd
    → fd < 1431655766
    → IsWellFormed (record m { contexts = context_resize (fd * 3 / 2) m.contexts })
      × (get_elem? (context_resize (fd * 3 / 2) m.contexts) fd ≡ some new_fd_context)
unfolding context_resize
resize-IsWellFormed fd m w long small =
    let cs : List FdContext = m.contexts in
    let k : ℕ = fd * 3 / 2 - length cs in
    let total : length (cs ++ fresh k) ≡ length cs + k =
      length-append {0} cs (fresh k) ∙ ap (λ (n : ℕ). length cs + n) (length-fresh k) in
    rw (take-all (fd * 3 / 2) cs (omega arith)) (
      record {
        size_ge = omega (arith, w.size_ge, total);
        size_lt = omega (arith, total, w.size_lt);
        consistent = All-append IsConsistent cs (fresh k) w.consistent (fresh-IsConsistent k);
        pending_eq = omega (arith, w.pending_eq, registered-fresh cs k);
        synced = λ i. w.synced i ∙ sym (events-fresh cs k i);
        legal = w.legal;
      },
      get-fresh cs k fd long (omega (arith, w.size_ge)),
    )
