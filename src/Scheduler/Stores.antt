-- ===== src/Scheduler/Stores.antt =====
-- scheduler/server/core/store.go and store_option.go, and the store calls of basic_cluster.go: what the
-- scheduler knows of each store. A `StoreInfo` is not changed after it is made, so that a pointer to one
-- is its value. Counts and sizes are not negative. A weight is the bits of a float64, which nothing here
-- computes with.
use tiny_kv_practice.Prelude.{
  ℕ, ◌+◌, ◌*◌, ◌^◌, Bool, true, false, Option, none, some, List, [], ◌∷◌, ltb, if◌then◌else◌,
  length,
}
use tiny_kv_practice.Prelude.Maps.{lookup, insert, erase}
use tiny_kv_practice.Kv.Checks.{Peer}
use tiny_kv_practice.Scheduler.TypeUtil.{Bytes, zero_time}
use tiny_kv_practice.Scheduler.Regions.{RegionInfo, get_store_ids, get_followers}

pub data StoreState : Type 0 where
  up offline tombstone : StoreState

pub record Store : Type 0 where
  pub id : ℕ
  pub address : Bytes
  pub state : StoreState

-- The statistics that the scheduler reads
pub record StoreStats : Type 0 where
  pub capacity : ℕ
  pub available : ℕ
  pub used_size : ℕ
  pub is_busy : Bool
  pub start_time : ℕ

-- `available` is what the function of a store limit answers at the time.
pub record StoreInfo : Type 0 where
  pub meta : Store
  pub stats : StoreStats
  pub blocked : Bool
  pub leader_count : ℕ
  pub region_count : ℕ
  pub leader_size : ℕ
  pub region_size : ℕ
  pub pending_peer_count : ℕ
  pub last_heartbeat_ts : ℕ
  pub leader_weight : ℕ
  pub region_weight : ℕ
  pub available : Option Bool

-- A `StoreCreateOption` changes the store that is being made.
abbrev pub CreateOption : Type 0
CreateOption = StoreInfo → StoreInfo

unfoldable pub apply_options : List CreateOption → StoreInfo → StoreInfo
apply_options [] store = store
apply_options (opt ∷ opts) store = apply_options opts (opt store)

abbrev pub empty_stats : StoreStats
empty_stats = record { capacity = 0; available = 0; used_size = 0; is_busy = false; start_time = 0 }

-- The bits of 1.0
abbrev pub weight_one : ℕ
weight_one = 4607182418800017408

unfoldable pub new_store_info : Store → List CreateOption → StoreInfo
unfolding apply_options
new_store_info store opts = apply_options opts (record {
  meta = store;
  stats = empty_stats;
  blocked = false;
  leader_count = 0;
  region_count = 0;
  leader_size = 0;
  region_size = 0;
  pending_peer_count = 0;
  last_heartbeat_ts = zero_time;
  leader_weight = weight_one;
  region_weight = weight_one;
  available = none;
})

unfoldable pub clone : StoreInfo → List CreateOption → StoreInfo
unfolding apply_options
clone s opts = apply_options opts s

abbrev pub set_store_address : Bytes → CreateOption
set_store_address address s = record s { meta = record s.meta { address = address } }

abbrev pub set_store_state : StoreState → CreateOption
set_store_state state s = record s { meta = record s.meta { state = state } }

abbrev pub set_store_block : CreateOption
set_store_block s = record s { blocked = true }

abbrev pub set_store_un_block : CreateOption
set_store_un_block s = record s { blocked = false }

abbrev pub with_leader_count : ℕ → CreateOption
with_leader_count n s = record s { leader_count = n }

abbrev pub with_region_count : ℕ → CreateOption
with_region_count n s = record s { region_count = n }

abbrev pub with_pending_peer_count : ℕ → CreateOption
with_pending_peer_count n s = record s { pending_peer_count = n }

abbrev pub with_leader_size : ℕ → CreateOption
with_leader_size n s = record s { leader_size = n }

abbrev pub with_region_size : ℕ → CreateOption
with_region_size n s = record s { region_size = n }

abbrev pub set_last_heartbeat_ts : ℕ → CreateOption
set_last_heartbeat_ts t s = record s { last_heartbeat_ts = t }

abbrev pub set_store_stats : StoreStats → CreateOption
set_store_stats stats s = record s { stats = stats }

abbrev pub set_available_func : Bool → CreateOption
set_available_func answer s = record s { available = some answer }

abbrev pub get_id : StoreInfo → ℕ
get_id s = s.meta.id

abbrev answer_or_true : Option Bool → Bool
answer_or_true none = true
answer_or_true (some answer) = answer

unfoldable pub is_available : StoreInfo → Bool
is_available s = answer_or_true s.available

abbrev pub is_up_state : StoreState → Bool
is_up_state up = true
is_up_state offline = false
is_up_state tombstone = false

abbrev pub is_offline_state : StoreState → Bool
is_offline_state up = false
is_offline_state offline = true
is_offline_state tombstone = false

abbrev pub is_tombstone_state : StoreState → Bool
is_tombstone_state up = false
is_tombstone_state offline = false
is_tombstone_state tombstone = true

abbrev pub is_up : StoreInfo → Bool
is_up s = is_up_state s.meta.state

abbrev pub is_offline : StoreInfo → Bool
is_offline s = is_offline_state s.meta.state

abbrev pub is_tombstone : StoreInfo → Bool
is_tombstone s = is_tombstone_state s.meta.state

-- `DownTime() > d`, for a duration d below the largest one
abbrev pub is_down_for : ℕ → ℕ → StoreInfo → Bool
is_down_for now d s = ltb (s.last_heartbeat_ts + d) now

abbrev pub store_disconnect_duration : ℕ
store_disconnect_duration = 20 * 10 ^ 9

abbrev pub store_unhealth_duration : ℕ
store_unhealth_duration = 600 * 10 ^ 9

abbrev pub is_disconnected : ℕ → StoreInfo → Bool
is_disconnected now s = is_down_for now store_disconnect_duration s

abbrev pub is_unhealth : ℕ → StoreInfo → Bool
is_unhealth now s = is_down_for now store_unhealth_duration s

pub data StoreError : Type 0 where
  store_not_found store_blocked : ℕ → StoreError

-- `StoresInfo`
abbrev pub StoresInfo : Type 0
StoresInfo = List (ℕ × StoreInfo)

abbrev pub get_store : StoresInfo → ℕ → Option StoreInfo
get_store s id = lookup id s

unfoldable pub set_store : StoresInfo → StoreInfo → StoresInfo
set_store s store = insert (get_id store) store s

-- Put a changed copy under the id, if there is a store.
abbrev clone_at : StoresInfo → ℕ → List CreateOption → Option StoreInfo → StoresInfo
clone_at s id opts none = s
clone_at s id opts (some store) = insert id (clone store opts) s

abbrev block_found : StoresInfo → ℕ → Option StoreInfo → StoresInfo × Option StoreError
block_found s id none = (s, some (store_not_found id))
block_found s id (some store) =
    if store.blocked
    then (s, some (store_blocked id))
    else (insert id (clone store (set_store_block ∷ [])) s, none)

unfoldable pub block_store : StoresInfo → ℕ → StoresInfo × Option StoreError
unfolding clone
block_store s id = block_found s id (lookup id s)

abbrev unblock_found : StoresInfo → ℕ → Option StoreInfo → Option StoresInfo
unblock_found s id none = none
unblock_found s id (some store) = some (insert id (clone store (set_store_un_block ∷ [])) s)

-- It ends the process (log.Fatal) where the store is not found.
unfoldable pub unblock_store : StoresInfo → ℕ → Option StoresInfo
unfolding clone
unblock_store s id = unblock_found s id (lookup id s)

unfoldable pub attach_available_func : StoresInfo → ℕ → Bool → StoresInfo
unfolding clone
attach_available_func s id answer = clone_at s id (set_available_func answer ∷ []) (lookup id s)

unfoldable pub get_stores : StoresInfo → List StoreInfo
get_stores [] = []
get_stores ((id, store) ∷ s) = store ∷ get_stores s

unfoldable pub get_meta_stores : StoresInfo → List Store
get_meta_stores [] = []
get_meta_stores ((id, store) ∷ s) = store.meta ∷ get_meta_stores s

unfoldable pub delete_store : StoresInfo → StoreInfo → StoresInfo
delete_store s store = erase (get_id store) s

abbrev pub get_store_count : StoresInfo → ℕ
get_store_count s = length s

unfoldable pub set_leader_count : StoresInfo → ℕ → ℕ → StoresInfo
unfolding clone
set_leader_count s id n = clone_at s id (with_leader_count n ∷ []) (lookup id s)

unfoldable pub set_region_count : StoresInfo → ℕ → ℕ → StoresInfo
unfolding clone
set_region_count s id n = clone_at s id (with_region_count n ∷ []) (lookup id s)

unfoldable pub set_pending_peer_count : StoresInfo → ℕ → ℕ → StoresInfo
unfolding clone
set_pending_peer_count s id n = clone_at s id (with_pending_peer_count n ∷ []) (lookup id s)

unfoldable pub set_leader_size : StoresInfo → ℕ → ℕ → StoresInfo
unfolding clone
set_leader_size s id n = clone_at s id (with_leader_size n ∷ []) (lookup id s)

unfoldable pub set_region_size : StoresInfo → ℕ → ℕ → StoresInfo
unfolding clone
set_region_size s id n = clone_at s id (with_region_size n ∷ []) (lookup id s)

abbrev status_found : StoresInfo → List CreateOption → Option StoreInfo → StoresInfo
status_found s opts none = s
status_found s opts (some store) = set_store s (clone store opts)

-- The copy is put under its own id.
unfoldable pub update_store_status : StoresInfo → ℕ → ℕ → ℕ → ℕ → ℕ → ℕ → StoresInfo
unfolding clone set_store
update_store_status s id leader_count region_count pending_peer_count leader_size region_size =
    status_found s
      (with_leader_count leader_count
        ∷ with_region_count region_count
        ∷ with_pending_peer_count pending_peer_count
        ∷ with_leader_size leader_size
        ∷ with_region_size region_size
        ∷ [])
      (lookup id s)

-- The stores of the given ids, as GetRegionStores and GetFollowerStores collect them
unfoldable pub stores_at {ℓ} : {V : Type ℓ} → StoresInfo → List (ℕ × V) → List StoreInfo
stores_at s [] = []
stores_at s ((id, v) ∷ ids) =
    let rest = stores_at s ids in elim (lookup id s) [ some store ↦ store ∷ rest | none ↦ rest ]

unfoldable pub get_region_stores : StoresInfo → RegionInfo → List StoreInfo
unfolding stores_at
get_region_stores s region = stores_at s (get_store_ids region)

unfoldable pub get_follower_stores : StoresInfo → RegionInfo → List StoreInfo
unfolding stores_at
get_follower_stores s region = stores_at s (get_followers region)

abbrev leader_store_id : Option Peer → ℕ
leader_store_id none = 0
leader_store_id (some p) = p.store_id

abbrev pub get_leader_store : StoresInfo → RegionInfo → Option StoreInfo
get_leader_store s region = lookup (leader_store_id region.leader) s
