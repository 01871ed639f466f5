-- ===== src/LoadBalance.antt =====
-- chat/streams/load_balance.h and load_balance.cc: the connections of a service and the choice of one.
--
-- Which streams are connected, the weight of an item (which the fair balancer computes from its statistics in floating point)
-- and rand() are arguments; weights are not negative. m_datas is a list of pairs without an order that
-- matters. `none` as a fault is a division by zero or a failed CHAT_ASSERT.
mod Probing
pub mod Discovery
pub mod Mirrors
pub mod Choice
pub mod Updates
pub mod Stats
mod Runs
use cpp_linux_server.Base.{
  ℕ, zero, suc, ◌+◌, ◌-◌, ◌%◌, ◌^◌, List, [], ◌∷◌, ◌++◌, length, get_elem?, set, Bool, true, false,
  not, ◌&&◌, ltb, leb, ◌==◌, if◌then◌else◌, Option, none, some,
}

pub record LoadBalanceItem : Type 0 where
  pub id : ℕ
  pub stream : Option ℕ

-- LoadBalanceItem::isValid
unfoldable pub is_valid : (ℕ → Bool) → LoadBalanceItem → Bool
is_valid connected i = elim i.stream [ none ↦ false | some s ↦ connected s ]

abbrev pub Items : Type 0
Items = List (ℕ × LoadBalanceItem)

-- `m_datas.find`, `m_datas[id] = v` and `m_datas.erase`
unfoldable pub find : ℕ → Items → Option LoadBalanceItem
find id [] = none
find id ((k, v) ∷ rest) = if k == id then some v else find id rest

unfoldable pub assign : ℕ → LoadBalanceItem → Items → Items
assign id v [] = (id, v) ∷ []
assign id v ((k, w) ∷ rest) =
    let others : Items = assign id v rest in if k == id then (k, v) ∷ rest else (k, w) ∷ others

unfoldable pub erase : ℕ → Items → Items
erase id [] = []
erase id ((k, w) ∷ rest) =
    let others : Items = erase id rest in if k == id then rest else (k, w) ∷ others

pub record LoadBalance : Type 0 where
  pub datas : Items
  pub items : List LoadBalanceItem
  pub weights : List ℕ

-- RoundRobinLoadBalance::initNolock
unfoldable pub valid_items : (ℕ → Bool) → Items → List LoadBalanceItem
valid_items connected [] = []
valid_items connected ((_, v) ∷ rest) =
    let others : List LoadBalanceItem = valid_items connected rest in
    if is_valid connected v then v ∷ others else others

-- The sums of the weights so far.
unfoldable pub sums : (LoadBalanceItem → ℕ) → ℕ → List LoadBalanceItem → List ℕ
sums weight total [] = []
sums weight total (i ∷ is) = (total + weight i) ∷ sums weight (total + weight i) is

-- WeightLoadBalance::initNolock; the other balancer leaves the weights alone.
unfoldable pub init_nolock : (ℕ → Bool) → (LoadBalanceItem → ℕ) → LoadBalance → LoadBalance
init_nolock connected weight b =
    let is : List LoadBalanceItem = valid_items connected b.datas in
    record b { items = is; weights = sums weight 0 is }

unfoldable pub get_by_id : ℕ → LoadBalance → Option LoadBalanceItem
get_by_id id b = find id b.datas

-- add, del and update
unfoldable pub add_item :
    (ℕ → Bool) → (LoadBalanceItem → ℕ) → LoadBalanceItem → LoadBalance → LoadBalance
add_item connected weight v b =
    init_nolock connected weight (record b { datas = assign v.id v b.datas })

unfoldable pub del_item :
    (ℕ → Bool) → (LoadBalanceItem → ℕ) → LoadBalanceItem → LoadBalance → LoadBalance
del_item connected weight v b =
    init_nolock connected weight (record b { datas = erase v.id b.datas })

-- The first loop of update, over the ids of dels, with the items that it finds.
unfoldable pub take_out : List ℕ → Items → List (ℕ × Option LoadBalanceItem) × Items
take_out [] ds = ([], ds)
take_out (id ∷ ids) ds =
    let found : Option LoadBalanceItem = find id ds in
    let (rest, ds') = take_out ids (elim found [ none ↦ ds | some _ ↦ erase id ds ]) in
    ((id, found) ∷ rest, ds')

unfoldable pub assign_all : Items → Items → Items
assign_all [] ds = ds
assign_all ((id, v) ∷ rest) ds = assign_all rest (assign id v ds)

unfoldable pub update_items :
    (ℕ → Bool)
    → (LoadBalanceItem → ℕ)
    → Items
    → List ℕ
    → LoadBalance
    → List (ℕ × Option LoadBalanceItem) × LoadBalance
update_items connected weight adds dels b =
    let (found, ds) = take_out dels b.datas in
    (found, init_nolock connected weight (record b { datas = assign_all adds ds }))

-- `if(h->isValid()) return h;`
abbrev pub or_next :
    (ℕ → Bool) → Option LoadBalanceItem → Option LoadBalanceItem → Option LoadBalanceItem
or_next connected none rest = none
or_next connected (some h) rest = if is_valid connected h then some h else rest

-- The loop over items from an index on, for as many steps.
unfoldable pub probe : (ℕ → Bool) → List LoadBalanceItem → ℕ → ℕ → Option LoadBalanceItem
probe connected is r zero = none
probe connected is r (suc steps) =
    or_next connected (get_elem? is (r % length is)) (probe connected is (suc r) steps)

-- `v == (uint64_t)-1 ? rand() : v`
abbrev pub value_or : Option ℕ → ℕ → ℕ
value_or none rand = rand
value_or (some v) rand = v

-- RoundRobinLoadBalance::get
unfoldable pub round_robin_get : (ℕ → Bool) → Option ℕ → ℕ → LoadBalance → Option LoadBalanceItem
round_robin_get connected v rand b =
    if length b.items == 0
    then none
    else probe connected b.items (value_or v rand % length b.items) (length b.items)

-- std::upper_bound: the index of the first sum above dis.
unfoldable pub upper_bound : ℕ → List ℕ → ℕ
upper_bound dis [] = 0
upper_bound dis (w ∷ ws) = let rest : ℕ = upper_bound dis ws in if ltb dis w then 0 else suc rest

abbrev pub last_of : ℕ → List ℕ → ℕ
last_of w [] = w
last_of w (v ∷ vs) = last_of v vs

-- An index of the weights by a value; `some none` is -1.
abbrev pub idx_of : ℕ → ℕ → List ℕ → Option (Option ℕ)
idx_of total value ws =
    if total == 0
    then none
    else let idx : ℕ = upper_bound (value % total) ws in
      if idx == length ws then none else some (some idx)

-- WeightLoadBalance::getIdx
unfoldable pub get_idx : Option ℕ → ℕ → List ℕ → Option (Option ℕ)
get_idx v rand [] = some none
get_idx v rand (w ∷ ws) = idx_of (last_of w ws) (value_or v rand) (w ∷ ws)

-- WeightLoadBalance::get
abbrev pub item_at :
    (ℕ → Bool) → List LoadBalanceItem → Option (Option ℕ) → Option (Option LoadBalanceItem)
item_at connected is none = none
item_at connected is (some none) = some none
item_at connected is (some (some idx)) = some (probe connected is idx (length is))

unfoldable pub weight_get :
    (ℕ → Bool) → Option ℕ → ℕ → LoadBalance → Option (Option LoadBalanceItem)
weight_get connected v rand b = item_at connected b.items (get_idx v rand b.weights)

-- HolderStats: the counters of a second.
pub record HolderStats : Type 0 where
  pub used_time : ℕ
  pub total : ℕ
  pub doing : ℕ
  pub timeouts : ℕ
  pub oks : ℕ
  pub errs : ℕ

abbrev pub cleared : HolderStats
cleared = record { used_time = 0; total = 0; doing = 0; timeouts = 0; oks = 0; errs = 0 }

pub record HolderStatsSet : Type 0 where
  pub last_update_time : ℕ
  pub stats : List HolderStats

-- The loop of HolderStatsSet::init from t on, a uint32_t, for as many steps.
unfoldable pub clear_from : ℕ → ℕ → ℕ → List HolderStats → List HolderStats
clear_from now t zero stats = stats
clear_from now t (suc steps) stats =
    let rest : List HolderStats =
      clear_from now (suc t % 2 ^ 32) steps (set stats (t % length stats) cleared) in
    if leb t now then rest else stats

unfoldable pub init_stats : ℕ → HolderStatsSet → HolderStatsSet
init_stats now s =
    if ltb s.last_update_time now
    then record {
      last_update_time = now;
      stats = clear_from now (suc s.last_update_time % 2 ^ 32) (length s.stats) s.stats;
    }
    else s

-- HolderStatsSet::get: the index of the slot, and the set.
unfoldable pub get_stats : ℕ → HolderStatsSet → ℕ × HolderStatsSet
get_stats now s = let s' : HolderStatsSet = init_stats now s in (now % length s'.stats, s')
