-- ===== src/Scheduler/ReplicaChecker.antt =====
-- scheduler/server/schedule/checker/replica_checker.go: the operators that give each region its number of
-- peers, on stores that are up. A check allocates at most two ids, unless the allocation fails: `fix_id` for
-- the peer that replaces an offline one, and, if that comes to nothing, `alloc_id` for a peer to add. What
-- is logged is left out.
pub mod Choices
pub mod Safe
use tiny_kv_practice.Prelude.{
  ℕ, not, Option, none, some, List, [], ◌∷◌, ◌++◌, ltb, ◌==◌, if◌then◌else◌, length, ◌>>=◌,
}
use tiny_kv_practice.Kv.Checks.{Peer}
use tiny_kv_practice.Scheduler.TypeUtil.{Bytes}
use tiny_kv_practice.Scheduler.Regions.{
  RegionInfo, clone, get_store_ids, get_store_peer, with_remove_store_peer,
}
use tiny_kv_practice.Scheduler.Operators.{
  Operator, op_replica, high_priority, set_priority_level, create_add_peer_operator,
  create_remove_peer_operator, create_offline_peer_operator,
}
use tiny_kv_practice.Scheduler.Stores.{
  StoreInfo, StoresInfo, get_id, get_store, get_stores, get_region_stores, is_up,
}
use tiny_kv_practice.Scheduler.Filters.{Filter, Options, excluded, state_filter, health_filter}
use tiny_kv_practice.Scheduler.Selector.{select_source, select_target}

-- The filters of NewReplicaChecker
abbrev pub own_filters : List Filter
own_filters = health_filter ∷ []

abbrev pub id_or_zero : Option StoreInfo → ℕ
id_or_zero none = 0
id_or_zero (some s) = get_id s

-- The texts that name an operator
abbrev pub make_up_replica : Bytes
make_up_replica =
    b'm' ∷ b'a' ∷ b'k' ∷ b'e' ∷ b'-' ∷ b'u' ∷ b'p' ∷ b'-' ∷ b'r' ∷ b'e' ∷ b'p' ∷ b'l' ∷ b'i' ∷ b'c'
    ∷ b'a' ∷ []

abbrev pub remove_extra_replica : Bytes
remove_extra_replica =
    b'r' ∷ b'e' ∷ b'm' ∷ b'o' ∷ b'v' ∷ b'e' ∷ b'-' ∷ b'e' ∷ b'x' ∷ b't' ∷ b'r' ∷ b'a' ∷ b'-' ∷ b'r'
    ∷ b'e' ∷ b'p' ∷ b'l' ∷ b'i' ∷ b'c' ∷ b'a' ∷ []

abbrev pub remove_extra_offline_replica : Bytes
remove_extra_offline_replica =
    b'r' ∷ b'e' ∷ b'm' ∷ b'o' ∷ b'v' ∷ b'e' ∷ b'-' ∷ b'e' ∷ b'x' ∷ b't' ∷ b'r' ∷ b'a' ∷ b'-' ∷ b'o'
    ∷ b'f' ∷ b'f' ∷ b'l' ∷ b'i' ∷ b'n' ∷ b'e' ∷ b'-' ∷ b'r' ∷ b'e' ∷ b'p' ∷ b'l' ∷ b'i' ∷ b'c'
    ∷ b'a' ∷ []

abbrev pub replace_offline_replica : Bytes
replace_offline_replica =
    b'r' ∷ b'e' ∷ b'p' ∷ b'l' ∷ b'a' ∷ b'c' ∷ b'e' ∷ b'-' ∷ b'o' ∷ b'f' ∷ b'f' ∷ b'l' ∷ b'i' ∷ b'n'
    ∷ b'e' ∷ b'-' ∷ b'r' ∷ b'e' ∷ b'p' ∷ b'l' ∷ b'i' ∷ b'c' ∷ b'a' ∷ []

-- The filters given, those of the checker, and those that any store has to pass
abbrev pub must_pass : RegionInfo → List Filter → List Filter
must_pass region filters =
    (filters ++ own_filters) ++ state_filter ∷ excluded [] (get_store_ids region) ∷ []

-- `AllocPeer` of cluster.go, where the allocator answers with an id or fails
abbrev pub alloc_peer : Option ℕ → ℕ → Option Peer
alloc_peer allocated store = do id ← allocated; some (record { id = id; store_id = store })

module _ (stores : StoresInfo) (opt : Options) where
  unfoldable pub select_best_store_to_add_replica : RegionInfo → List Filter → ℕ
  unfolding get_stores select_target
  select_best_store_to_add_replica region filters =
      id_or_zero (select_target own_filters opt (get_stores stores) (must_pass region filters))

  unfoldable pub select_best_replacement_store : RegionInfo → Peer → List Filter → ℕ
  unfolding select_best_store_to_add_replica clone
  select_best_replacement_store region old_peer filters =
      select_best_store_to_add_replica
        (clone region (with_remove_store_peer old_peer.store_id ∷ []))
        (filters ++ excluded [] (get_store_ids region) ∷ [])

  unfoldable pub select_worst_peer : RegionInfo → Option Peer
  unfolding get_region_stores select_source
  select_worst_peer region = do
    worst ← select_source own_filters opt (get_region_stores stores region)
    get_store_peer region (get_id worst)

  module _ (fix_id alloc_id : Option ℕ) (now : ℕ) where
    unfoldable pub select_best_peer_to_add_replica : RegionInfo → List Filter → Option Peer
    unfolding select_best_store_to_add_replica
    select_best_peer_to_add_replica region filters =
        if select_best_store_to_add_replica region filters == 0
        then none
        else alloc_peer alloc_id (select_best_store_to_add_replica region filters)

    abbrev pub remove_on : Bytes → RegionInfo → ℕ → Option Operator
    remove_on desc region store =
        create_remove_peer_operator (get_store stores) now desc op_replica region store

    -- `fixPeer`, which is only called for a store that is offline
    unfoldable pub fix_peer : RegionInfo → Peer → Option Operator
    unfolding create_remove_peer_operator create_offline_peer_operator select_best_replacement_store
    fix_peer region peer =
        if ltb opt.max_replicas (length region.meta.peers)
        then remove_on remove_extra_offline_replica region peer.store_id
        else if select_best_replacement_store region peer [] == 0
        then none
        else (alloc_peer fix_id (select_best_replacement_store region peer []) >>= λ new_peer.
            create_offline_peer_operator (get_store stores) now replace_offline_replica region
              op_replica peer.store_id new_peer.store_id new_peer.id)

    -- One round of the loop of `checkOfflinePeer`, by the store of the peer; `rest` are the later rounds.
    abbrev pub at_store : RegionInfo → Peer → Option Operator → Option StoreInfo → Option Operator
    at_store region peer rest none = none
    at_store region peer rest (some store) = if is_up store then rest else fix_peer region peer

    unfoldable pub offline_in : RegionInfo → List Peer → Option Operator
    unfolding fix_peer
    offline_in region [] = none
    offline_in region (peer ∷ peers) =
        at_store region peer (offline_in region peers) (get_store stores peer.store_id)

    unfoldable pub check_offline_peer : RegionInfo → Option Operator
    unfolding offline_in
    check_offline_peer region =
        if not (length region.learners == 0) then none else offline_in region region.meta.peers

    unfoldable pub check_replicas : RegionInfo → Option Operator
    unfolding select_best_peer_to_add_replica select_worst_peer create_remove_peer_operator
    check_replicas region =
        if ltb (length region.meta.peers) opt.max_replicas
        then (select_best_peer_to_add_replica region [] >>= λ new_peer. some (
            create_add_peer_operator now make_up_replica region new_peer.id new_peer.store_id
              op_replica))
        else if ltb opt.max_replicas (length region.voters)
        then (select_worst_peer region >>= λ old_peer.
            remove_on remove_extra_replica region old_peer.store_id)
        else none

    abbrev pub or_replicas : RegionInfo → Option Operator → Option Operator
    or_replicas region (some op) = some (set_priority_level high_priority op)
    or_replicas region none = check_replicas region

    unfoldable pub check : RegionInfo → Option Operator
    unfolding check_offline_peer check_replicas
    check region = or_replicas region (check_offline_peer region)
