-- ===== src/LoadBalance/Runs.antt =====
-- A concrete service, and the theorems at concrete inputs.
use cpp_linux_server.Base.{
  ℕ, ◌%◌, ◌<◌, ◌≡◌, refl, [], ◌∷◌, get_elem?, Bool, ◌==◌, if◌then◌else◌, none, some, map, arith,
  replicate, ◌+◌,
}
use cpp_linux_server.LoadBalance.{
  LoadBalanceItem, is_valid, find, LoadBalance, sums, get_by_id, update_items, round_robin_get,
  upper_bound, get_idx, cleared, HolderStats, HolderStatsSet, init_stats, assign, erase,
  valid_items, init_nolock, take_out, assign_all,
}
use cpp_linux_server.LoadBalance.Probing.{Found}
use cpp_linux_server.LoadBalance.Choice.{
  round_robin_get-Found, total_weight, Chosen, get_idx-Chosen,
}
use cpp_linux_server.LoadBalance.Discovery.{
  has_id, add_infos, del_infos, closed_items, on_service_change,
}
use cpp_linux_server.LoadBalance.Mirrors.{is_some, listed, DistinctIds, on_service_change-follows}
use cpp_linux_server.LoadBalance.Updates.{
  IsMap, NoRepeat, first_of, contains, IsReady, update_items_lem,
}
use cpp_linux_server.LoadBalance.Stats.{init_stats_lem}

abbrev item : ℕ → LoadBalanceItem
item n = record { id = n; stream = some n }

-- Items 1 to 3; only the stream of 3 is still connected.
abbrev three : LoadBalance
three = record {
  datas = (1, item 1) ∷ (2, item 2) ∷ (3, item 3) ∷ [];
  items = item 1 ∷ item 2 ∷ item 3 ∷ [];
  weights = 10 ∷ 30 ∷ 60 ∷ [];
}

abbrev only_three : ℕ → Bool
only_three n = n == 3

abbrev tens : LoadBalanceItem → ℕ
tens i = if i.id == 1 then 10 else if i.id == 2 then 20 else 30

round_robin_get-Found_example :
    Found only_three three.items (round_robin_get only_three (some 7) 0 three)
unfolding is_valid
round_robin_get-Found_example =
    round_robin_get-Found only_three (some 7) 0 2 (item 3) three refl refl

second_of_weights : get_idx (some 145) 0 three.weights ≡ some (some 1)
unfolding get_idx upper_bound
second_of_weights = refl

-- All weights 0: a division by zero.
no_weight : get_idx (some 5) 0 (0 ∷ 0 ∷ []) ≡ none
unfolding get_idx
no_weight = refl

get_idx-Chosen_example :
    (idx : ℕ) × (get_idx (some 145) 0 (sums tens 0 three.items) ≡ some (some idx))
    × (idx < 3)
    × Chosen tens 0 (145 % total_weight tens three.items) three.items idx
unfolding total_weight
get_idx-Chosen_example = get_idx-Chosen tens (some 145) 0 three.items (omega arith)

update_items_lem_example :
    ((update_items only_three tens ((4, item 4) ∷ []) (2 ∷ 9 ∷ []) three).0
      ≡ map (λ k. (k, get_by_id k three)) (2 ∷ 9 ∷ []))
    × ((id : ℕ)
        → get_by_id id (update_items only_three tens ((4, item 4) ∷ []) (2 ∷ 9 ∷ []) three).1
          ≡ first_of
              (find id ((4, item 4) ∷ []))
              (if contains (2 ∷ 9 ∷ []) id then none else get_by_id id three))
    × IsReady only_three tens (update_items only_three tens ((4, item 4) ∷ []) (2 ∷ 9 ∷ []) three).1
unfolding IsMap NoRepeat find
update_items_lem_example =
    update_items_lem only_three tens ((4, item 4) ∷ []) (2 ∷ 9 ∷ []) three
      (refl, (refl, (refl, tt))) (refl, tt) (refl, (refl, tt))

-- Five slots, last updated in second 12, and second 14.
abbrev busy : HolderStats
busy = record { used_time = 5; total = 4; doing = 1; timeouts = 0; oks = 3; errs = 0 }

abbrev ring : HolderStatsSet
ring = record { last_update_time = 12; stats = replicate 5 busy }

init_stats_lem_example :
    (get_elem? (init_stats 14 ring).stats (13 % 5) ≡ some cleared)
    × (get_elem? (init_stats 14 ring).stats 2 ≡ get_elem? ring.stats 2)
init_stats_lem_example =
    init_stats_lem 14 13 2 ring (omega arith) (omega arith) (omega arith) (omega arith)
      (λ w from to e. absurd (omega (arith, e)))

-- Items 1 and 2 of type 7 before; 1 goes and 4 comes.
abbrev two_items : LoadBalance
two_items = record { datas = (1, item 1) ∷ (2, item 2) ∷ []; items = []; weights = [] }

on_service_change-follows_example :
    is_some (
      get_by_id 4
        (on_service_change only_three tens
          (λ k. some (k + 100))
          7
          ((1, 7) ∷ (2, 7) ∷ (3, 8) ∷ [])
          ((2, 7) ∷ (3, 8) ∷ (4, 7) ∷ [])
          two_items).1)
    ≡ listed 7 4 ((2, 7) ∷ (3, 8) ∷ (4, 7) ∷ [])
unfolding IsMap DistinctIds find get_by_id listed has_id
on_service_change-follows_example =
    on_service_change-follows only_three tens (λ k. some (k + 100)) (λ k. k + 100) 7
      ((1, 7) ∷ (2, 7) ∷ (3, 8) ∷ []) ((2, 7) ∷ (3, 8) ∷ (4, 7) ∷ []) 4 two_items (λ k. refl)
      (refl, (refl, (refl, tt))) (refl, (refl, (refl, tt))) (refl, (refl, tt)) refl
      (λ h i. absurd (cc h))

one_closed :
    (on_service_change only_three tens
      (λ k. some (k + 100))
      7
      ((1, 7) ∷ (2, 7) ∷ (3, 8) ∷ [])
      ((2, 7) ∷ (3, 8) ∷ (4, 7) ∷ [])
      two_items).0
    ≡ item 1 ∷ []
unfolding on_service_change update_items take_out assign_all init_nolock add_infos del_infos has_id
    find erase assign valid_items sums is_valid closed_items
one_closed = refl
