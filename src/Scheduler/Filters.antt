-- ===== src/Scheduler/Filters.antt =====
-- scheduler/server/schedule/filter/filters.go and pkg/slice/slice.go: which stores a schedule must not use.
-- The names of filters (scopes and types), which only are reported, are left out.
use tiny_kv_practice.Prelude.{
  ℕ, Bool, true, false, not, ◌&&◌, ◌||◌, Option, none, some, List, [], ◌∷◌, if◌then◌else◌, select,
}
use tiny_kv_practice.Prelude.Maps.{lookup}
use tiny_kv_practice.Scheduler.Stores.{
  StoreInfo, get_id, is_available, is_up, is_offline, is_tombstone, is_down_for, is_disconnected,
}

-- What the filters read of `opt.Options`, and the time
pub record Options : Type 0 where
  pub max_store_down_time : ℕ
  pub max_replicas : ℕ
  pub now : ℕ

-- The filters of the source: the stores of two sets, stores that are not up, stores that are busy or down,
-- and `StoreStateFilter` with its fields transfer_leader and move_region
pub data Filter : Type 0 where
  excluded : List (ℕ × Unit {0}) → List (ℕ × Unit {0}) → Filter
  state_filter health_filter : Filter
  store_state : Bool → Bool → Filter

abbrev pub is_down : Options → StoreInfo → Bool
is_down opt s = is_down_for opt.now opt.max_store_down_time s

abbrev pub is_member : Option (Unit {0}) → Bool
is_member none = false
is_member (some u) = true

abbrev pub health_filtered : Options → StoreInfo → Bool
health_filtered opt s = if s.stats.is_busy then true else is_down opt s

abbrev pub filter_move_region : StoreInfo → Bool
filter_move_region s = if s.stats.is_busy then true else not (is_available s)

unfoldable pub source : Filter → Options → StoreInfo → Bool
unfolding is_available
source (excluded sources targets) opt s = is_member (lookup (get_id s) sources)
source state_filter opt s = is_tombstone s
source health_filter opt s = health_filtered opt s
source (store_state transfer move) opt s =
    if is_tombstone s || is_down opt s
    then true
    else if transfer && (is_disconnected opt.now s || s.blocked)
    then true
    else move && filter_move_region s

unfoldable pub target : Filter → Options → StoreInfo → Bool
unfolding is_available
target (excluded sources targets) opt s = is_member (lookup (get_id s) targets)
target state_filter opt s = not (is_up s)
target health_filter opt s = health_filtered opt s
target (store_state transfer move) opt s =
    if is_tombstone s || is_offline s || is_down opt s
    then true
    else if transfer && (is_disconnected opt.now s || s.blocked || s.stats.is_busy)
    then true
    else move && filter_move_region s

-- `slice.AnyOf` over the filters, and the loops of `Source` and `Target`
unfoldable pub any_of : (Filter → Bool) → List Filter → Bool
any_of p [] = false
any_of p (f ∷ filters) = let rest = any_of p filters in if p f then true else rest

abbrev pub source_by : Options → StoreInfo → List Filter → Bool
source_by opt s filters = any_of (λ f. source f opt s) filters

abbrev pub target_by : Options → StoreInfo → List Filter → Bool
target_by opt s filters = any_of (λ f. target f opt s) filters

abbrev pub select_source_stores : List StoreInfo → List Filter → Options → List StoreInfo
select_source_stores stores filters opt = select (λ s. not (source_by opt s filters)) stores

abbrev pub select_target_stores : List StoreInfo → List Filter → Options → List StoreInfo
select_target_stores stores filters opt = select (λ s. not (target_by opt s filters)) stores
