-- ===== src/Scheduler/Tests/Stores.antt =====
-- Four stores, and the choice of one for another peer of a region (schedule/selector, schedule/checker).
use tiny_kv_practice.Prelude.{
  ℕ, ◌≡◌, ◌⊎◌, inl, refl, Option, none, some, [], ◌∷◌, if◌then◌else◌, arith,
}
use tiny_kv_practice.Prelude.Maps.{lookup, insert}
use tiny_kv_practice.Scheduler.Tree.Shape.{In}
use tiny_kv_practice.Scheduler.Regions.{
  get_followers, followers_of, clone, stores_of, get_store_ids,
}
use tiny_kv_practice.Scheduler.Operators.{
  Operator, op_replica, high_priority, on_region, new_operator, set_priority_level,
  create_add_peer_operator, transfer_leader, add_peer, remove_peer, create_offline_peer_operator,
  transfer_leader_step, transfer_leader_to_suitable_steps, find_available_store,
}
use tiny_kv_practice.Scheduler.Stores.{
  StoreState, up, offline, StoreInfo, StoresInfo, apply_options, new_store_info, with_region_size,
  set_last_heartbeat_ts, get_id, get_stores, is_available,
}
use tiny_kv_practice.Scheduler.Filters.{
  Options, state_filter, health_filter, any_of, target, target_by,
}
use tiny_kv_practice.Scheduler.Selector.{best_of, select_target}
use tiny_kv_practice.Scheduler.Selector.Best.{IsBest, select_target_lem}
use tiny_kv_practice.Scheduler.ReplicaChecker.{
  make_up_replica, replace_offline_replica, select_best_replacement_store, fix_peer,
  select_best_store_to_add_replica, offline_in, check_offline_peer, check,
}
use tiny_kv_practice.Scheduler.ReplicaChecker.Choices.{CanTake, NoneCan, check-adds}
use tiny_kv_practice.Scheduler.Operators.Moves.{IsSafe}
use tiny_kv_practice.Scheduler.ReplicaChecker.Safe.{check-Safe}
use tiny_kv_practice.Scheduler.Tests.Regions.{peer, first}

abbrev store : ℕ → StoreState → ℕ → StoreInfo
store id state size =
    new_store_info (record { id = id; address = []; state = state })
      (with_region_size size ∷ set_last_heartbeat_ts 1000 ∷ [])

abbrev stores : StoresInfo
stores =
    (1, store 1 up 10)
    ∷ (2, store 2 up 20)
    ∷ (3, store 3 up 40)
    ∷ (4, store 4 offline 5)
    ∷ (5, store 5 up 30)
    ∷ []

abbrev opt : Options
opt = record { max_store_down_time = 500; max_replicas = 3; now = 1200 }

select_target_lem_example :
    ((IsBest (λ s. target_by opt s (state_filter ∷ [])) (λ s. In s (get_stores stores)) none)
      × (select_target (health_filter ∷ []) opt (get_stores stores) (state_filter ∷ []) ≡ none))
    ⊎ ((best : StoreInfo) × IsBest
          (λ s. target_by opt s (state_filter ∷ []))
          (λ s. In s (get_stores stores))
          (some best)
        × (select_target (health_filter ∷ []) opt (get_stores stores) (state_filter ∷ [])
            ≡ (if target_by opt best (health_filter ∷ []) then none else some best)))
select_target_lem_example =
    select_target_lem (health_filter ∷ []) opt (get_stores stores) (state_filter ∷ [])

-- The region has peers on stores 1 and 2; store 4 is offline, and store 5 has the smallest regions left.
chosen_run : select_best_store_to_add_replica stores opt first [] ≡ 5
unfolding select_best_store_to_add_replica select_target best_of any_of target get_stores
    get_store_ids stores_of new_store_info apply_options lookup insert is_available
chosen_run = refl

check-adds_example :
    ((check stores opt (some 30) (some 31) 7 first ≡ none)
      × (NoneCan stores opt first
          ⊎ ((s : StoreInfo) × In s (get_stores stores) × (get_id s ≡ 0))
          ⊎ (◌≡◌ {A = Option ℕ} (some 31) none)))
    ⊎ ((s : StoreInfo) × (id : ℕ) × CanTake stores opt first s
        × (◌≡◌ {A = Option ℕ} (some 31) (some id))
        × (check stores opt (some 30) (some 31) 7 first
            ≡ some (create_add_peer_operator 7 make_up_replica first id (get_id s) op_replica)))
unfolding check_offline_peer offline_in lookup new_store_info apply_options
check-adds_example = check-adds stores opt (some 30) (some 31) 7 first refl refl

-- The store of the leader goes offline: its peer moves from store 1 to store 5, and the leadership to store 2.
abbrev leaving : StoresInfo
leaving =
    (1, store 1 offline 10) ∷ (2, store 2 up 20) ∷ (3, store 3 up 40) ∷ (5, store 5 up 30) ∷ []

abbrev replacing : Operator
replacing = set_priority_level high_priority (
    on_region 7 replace_offline_replica first 19
      (transfer_leader 1 2 ∷ add_peer 5 31 ∷ remove_peer 1 ∷ []))

leaving_run : check leaving opt (some 31) (some 32) 7 first ≡ some replacing
unfolding check check_offline_peer offline_in fix_peer select_best_replacement_store clone
    create_offline_peer_operator transfer_leader_step transfer_leader_to_suitable_steps
    find_available_store get_followers followers_of new_operator select_best_store_to_add_replica
    select_target best_of any_of target get_stores get_store_ids stores_of new_store_info
    apply_options lookup insert is_available
leaving_run = refl

check-Safe_example : IsSafe replacing.steps 1 (1 ∷ 2 ∷ [])
check-Safe_example =
    check-Safe leaving opt (some 31) (some 32) 7 first (peer 1) refl (inl refl)
      (((λ e. omega (arith, e)), tt), (tt, tt)) refl leaving_run
