-- ===== src/Scheduler/Regions.antt =====
-- scheduler/server/core/region.go and region_option.go: what the scheduler knows of one region. The
-- code never changes a `RegionInfo` that it has made, so that a pointer to one is its value, and
-- proto.Clone is the value itself. A size is an int64, as its bits.
use tiny_kv_practice.Prelude.{
  ℕ, ◌/◌, ◌^◌, Bool, false, not, ◌&&◌, ◌||◌, Option, none, some, List, [], ◌∷◌, ◌++◌, ltb, ◌==◌,
  if◌then◌else◌, length, select, add64,
}
use tiny_kv_practice.Prelude.Maps.{insert}
use tiny_kv_practice.Keys.Trees.{Key}
use tiny_kv_practice.Kv.Checks.{Peer, RegionEpoch, Region}

pub record RegionInfo : Type 0 where
  pub meta : Region
  pub learners : List Peer
  pub voters : List Peer
  pub leader : Option Peer
  pub pending_peers : List Peer
  pub approximate_size : ℕ

-- A `RegionCreateOption` changes the region that is being made.
abbrev pub CreateOption : Type 0
CreateOption = RegionInfo → RegionInfo

unfoldable pub apply_options : List CreateOption → RegionInfo → RegionInfo
apply_options [] region = region
apply_options (opt ∷ opts) region = apply_options opts (opt region)

unfoldable pub classify_voter_and_learner : RegionInfo → RegionInfo
classify_voter_and_learner region = record region { voters = region.meta.peers }

unfoldable pub new_region_info : Region → Option Peer → List CreateOption → RegionInfo
unfolding apply_options classify_voter_and_learner
new_region_info region leader opts = classify_voter_and_learner (
    apply_options opts (record {
      meta = region;
      learners = [];
      voters = [];
      leader = leader;
      pending_peers = [];
      approximate_size = 0;
    }))

abbrev pub empty_region_approximate_size : ℕ
empty_region_approximate_size = 1

-- The fields of a `schedulerpb.RegionHeartbeatRequest` that are read.
pub record Heartbeat : Type 0 where
  pub region : Region
  pub leader : Option Peer
  pub pending_peers : List Peer
  pub approximate_size : ℕ

unfoldable pub region_from_heartbeat : Heartbeat → RegionInfo
unfolding classify_voter_and_learner
region_from_heartbeat h =
    let size = h.approximate_size / 2 ^ 20 in
    classify_voter_and_learner (record {
      meta = h.region;
      learners = [];
      voters = [];
      leader = h.leader;
      pending_peers = h.pending_peers;
      approximate_size =
          if ltb size empty_region_approximate_size then empty_region_approximate_size else size;
    })

-- The clone has no learners.
unfoldable pub clone : RegionInfo → List CreateOption → RegionInfo
unfolding apply_options classify_voter_and_learner
clone r opts =
    classify_voter_and_learner (apply_options opts (record r { learners = []; voters = [] }))

unfoldable pub peer_with_id : ℕ → List Peer → Option Peer
peer_with_id id [] = none
peer_with_id id (p ∷ peers) = if p.id == id then some p else peer_with_id id peers

unfoldable pub peer_on_store : ℕ → List Peer → Option Peer
peer_on_store store [] = none
peer_on_store store (p ∷ peers) = if p.store_id == store then some p else peer_on_store store peers

abbrev pub get_peer : RegionInfo → ℕ → Option Peer
get_peer r id = peer_with_id id r.meta.peers

abbrev pub get_down_learner : RegionInfo → ℕ → Option Peer
get_down_learner r id = none

abbrev pub get_pending_peer : RegionInfo → ℕ → Option Peer
get_pending_peer r id = peer_with_id id r.pending_peers

abbrev pub get_pending_voter : RegionInfo → ℕ → Option Peer
get_pending_voter r id = peer_with_id id r.pending_peers

abbrev pub get_pending_learner : RegionInfo → ℕ → Option Peer
get_pending_learner r id = none

abbrev pub get_store_peer : RegionInfo → ℕ → Option Peer
get_store_peer r store = peer_on_store store r.meta.peers

abbrev pub get_store_voter : RegionInfo → ℕ → Option Peer
get_store_voter r store = peer_on_store store r.voters

abbrev pub get_store_learner : RegionInfo → ℕ → Option Peer
get_store_learner r store = peer_on_store store r.learners

unfoldable pub stores_of : List Peer → List (ℕ × Unit {0}) → List (ℕ × Unit {0})
stores_of [] stores = stores
stores_of (p ∷ peers) stores = stores_of peers (insert p.store_id tt stores)

unfoldable pub get_store_ids : RegionInfo → List (ℕ × Unit {0})
unfolding stores_of
get_store_ids r = stores_of r.meta.peers []

abbrev pub is_leader_id : Option Peer → Peer → Bool
is_leader_id none p = false
is_leader_id (some l) p = l.id == p.id

unfoldable pub followers_of : Option Peer → List Peer → List (ℕ × Peer) → List (ℕ × Peer)
followers_of leader [] m = m
followers_of leader (p ∷ peers) m =
    followers_of leader peers (if is_leader_id leader p then m else insert p.store_id p m)

unfoldable pub get_followers : RegionInfo → List (ℕ × Peer)
unfolding followers_of
get_followers r = followers_of r.leader r.voters []

unfoldable pub first_follower : Option Peer → List Peer → Option Peer
first_follower leader [] = none
first_follower leader (p ∷ peers) =
    if is_leader_id leader p then first_follower leader peers else some p

unfoldable pub get_follower : RegionInfo → Option Peer
unfolding first_follower
get_follower r = first_follower r.leader r.voters

unfoldable pub has_follower_on : ℕ → List (ℕ × Peer) → Bool
has_follower_on store [] = false
has_follower_on store ((_, o) ∷ m) = store == o.store_id || has_follower_on store m

unfoldable pub diff_followers : List (ℕ × Peer) → List (ℕ × Peer) → List Peer
diff_followers [] other = []
diff_followers ((_, p) ∷ m) other =
    let rest = diff_followers m other in if has_follower_on p.store_id other then rest else p ∷ rest

unfoldable pub get_diff_followers : RegionInfo → RegionInfo → List Peer
unfolding diff_followers has_follower_on get_followers
get_diff_followers r other = diff_followers (get_followers r) (get_followers other)

abbrev pub get_id : RegionInfo → ℕ
get_id r = r.meta.id

abbrev pub start_of : RegionInfo → Key
start_of r = r.meta.start_key

abbrev pub end_of : RegionInfo → Key
end_of r = r.meta.end_key

-- `RegionOption` and `RegionCreateOption` of region_option.go
unfoldable pub health_region : RegionInfo → Bool
health_region r = length r.pending_peers == 0 && length r.learners == 0

unfoldable pub health_region_allow_pending : RegionInfo → Bool
health_region_allow_pending r = length r.learners == 0

abbrev pub with_pending_peers : List Peer → CreateOption
with_pending_peers peers r = record r { pending_peers = peers }

abbrev pub with_leader : Option Peer → CreateOption
with_leader leader r = record r { leader = leader }

abbrev pub with_learners : List Peer → CreateOption
with_learners new r = record r { learners = r.learners ++ new }

abbrev pub with_start_key : Key → CreateOption
with_start_key key r = record r { meta = record r.meta { start_key = key } }

abbrev pub with_end_key : Key → CreateOption
with_end_key key r = record r { meta = record r.meta { end_key = key } }

abbrev pub with_epoch : RegionEpoch → CreateOption
with_epoch e r = record r { meta = record r.meta { region_epoch = e } }

abbrev pub with_inc_version : CreateOption
with_inc_version r =
    with_epoch (record r.meta.region_epoch { version = add64 r.meta.region_epoch.version 1 }) r

abbrev pub with_inc_conf_ver : CreateOption
with_inc_conf_ver r =
    with_epoch (record r.meta.region_epoch { conf_ver = add64 r.meta.region_epoch.conf_ver 1 }) r

abbrev pub set_peers : List Peer → CreateOption
set_peers peers r = record r { meta = record r.meta { peers = peers } }

abbrev pub with_remove_store_peer : ℕ → CreateOption
with_remove_store_peer store r = set_peers (select (λ p. not (p.store_id == store)) r.meta.peers) r

abbrev pub set_approximate_size : ℕ → CreateOption
set_approximate_size v r = record r { approximate_size = v }

abbrev pub with_add_peer : Peer → CreateOption
with_add_peer peer r =
    let wider = set_peers (r.meta.peers ++ peer ∷ []) r in
    record wider { voters = r.voters ++ peer ∷ [] }
