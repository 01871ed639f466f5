-- ===== src/LoadBalance/Discovery.antt =====
-- SDLoadBalance::onServiceChange of chat/streams/load_balance.cc: what a change of the discovered services
-- makes of the balancer of a service.
--
-- An info is its id and its type; the stream that m_cb makes of it, if any, is an argument. A balancer that is not
-- there yet is an empty one.
use cpp_linux_server.Base.{
  ℕ, List, [], ◌∷◌, Bool, true, false, not, ◌&&◌, ◌||◌, ◌==◌, if◌then◌else◌, Option, none, some,
}
use cpp_linux_server.LoadBalance.{LoadBalanceItem, Items, LoadBalance, update_items}

abbrev pub Infos : Type 0
Infos = List (ℕ × ℕ)

-- `find(id) != end()`
unfoldable pub has_id : ℕ → Infos → Bool
has_id id [] = false
has_id id ((k, _) ∷ rest) = (k == id) || has_id id rest

-- del_infos: the ids of the old infos of the type that are not in the new ones.
unfoldable pub del_infos : ℕ → Infos → Infos → List ℕ
del_infos type [] new = []
del_infos type ((k, t) ∷ old) new =
    let rest : List ℕ = del_infos type old new in
    if (t == type) && not (has_id k new) then k ∷ rest else rest

abbrev pub with_stream : ℕ → Option ℕ → Items → Items
with_stream k none rest = rest
with_stream k (some s) rest = (k, record { id = k; stream = some s }) ∷ rest

-- add_infos: items of the new infos of the type that are not in the old ones, where there is a stream.
unfoldable pub add_infos : (ℕ → Option ℕ) → ℕ → Infos → Infos → Items
add_infos make type old [] = []
add_infos make type old ((k, t) ∷ new) =
    let rest : Items = add_infos make type old new in
    if (t == type) && not (has_id k old) then with_stream k (make k) rest else rest

-- The items that are closed.
unfoldable pub closed_items : List (ℕ × Option LoadBalanceItem) → List LoadBalanceItem
closed_items [] = []
closed_items ((_, none) ∷ rest) = closed_items rest
closed_items ((_, some i) ∷ rest) = i ∷ closed_items rest

abbrev pub is_nil {ℓ} : {A : Type ℓ} → List A → Bool
is_nil [] = true
is_nil (_ ∷ _) = false

-- The items to close, and the balancer.
unfoldable pub on_service_change :
    (ℕ → Bool)
    → (LoadBalanceItem → ℕ)
    → (ℕ → Option ℕ)
    → ℕ
    → Infos
    → Infos
    → LoadBalance
    → List LoadBalanceItem × LoadBalance
on_service_change connected weight make type old new b =
    let adds : Items = add_infos make type old new in
    let dels : List ℕ = del_infos type old new in
    let (found, b') = update_items connected weight adds dels b in
    if is_nil adds && is_nil dels then ([], b) else (closed_items found, b')
