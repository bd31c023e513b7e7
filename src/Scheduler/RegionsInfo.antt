-- ===== src/Scheduler/RegionsInfo.antt =====
-- scheduler/server/core/region.go, from regionMap on: all regions, in a tree by their keys, in a map by
-- their ids, and for each store in trees of those that it leads, follows, learns or has pending.
-- Sizes are int64, as their bits. `none` is a panic, where a region that is nil is removed.
pub mod Parts
pub mod Consistent
pub mod Changes
use tiny_kv_practice.Prelude.{
  ℕ, zero, suc, ◌+◌, ◌-◌, ◌/◌, ◌^◌, ◌<◌, Bool, true, false, not, ◌&&◌, Option, none, some, List, [],
  ◌∷◌, ◌++◌, ltb, leb, ◌==◌, if◌then◌else◌, length, u64_mod, add64, sub64, ◌>>=◌,
}
use tiny_kv_practice.Prelude.Maps.{lookup, insert, erase}
use tiny_kv_practice.Keys.{is_below}
use tiny_kv_practice.Keys.Trees.{Key, OrderedTree}
use tiny_kv_practice.Kv.Checks.{Peer, Region}
use tiny_kv_practice.Scheduler.Regions.{RegionInfo, get_id, start_of, end_of}
use tiny_kv_practice.Scheduler.Tree.{
  find, get_overlaps, update, remove, search, search_prev, scan_range, random_region,
}

pub record RegionMap : Type 0 where
  pub m : List (ℕ × RegionInfo)
  pub total_size : ℕ

abbrev pub new_region_map : RegionMap
new_region_map = record { m = []; total_size = 0 }

abbrev pub len_map : RegionMap → ℕ
len_map rm = length rm.m

abbrev pub get : RegionMap → ℕ → Option RegionInfo
get rm id = lookup id rm.m

abbrev pub size_of : Option RegionInfo → ℕ
size_of none = 0
size_of (some r) = r.approximate_size

unfoldable pub put : RegionMap → RegionInfo → RegionMap
put rm region = record {
  m = insert (get_id region) region rm.m;
  total_size =
      add64 (sub64 rm.total_size (size_of (lookup (get_id region) rm.m))) region.approximate_size;
}

unfoldable pub delete : RegionMap → ℕ → RegionMap
delete rm id = record {
  m = erase id rm.m;
  total_size = sub64 rm.total_size (size_of (lookup id rm.m));
}

unfoldable pub total_size : RegionMap → ℕ
total_size rm = if len_map rm == 0 then 0 else rm.total_size

module _ (b : OrderedTree start_of) where
  -- `regionSubTree`
  pub record SubTree : Type 0 where
    pub tree : b.Tree
    pub total_size : ℕ

  abbrev pub new_sub_tree : SubTree
  new_sub_tree = record { tree = b.new; total_size = 0 }

  -- The methods of a `*regionSubTree` allow nil.
  abbrev pub sub_length : Option SubTree → ℕ
  sub_length none = 0
  sub_length (some s) = b.len s.tree

  unfoldable pub sub_total_size : Option SubTree → ℕ
  sub_total_size none = 0
  sub_total_size (some s) = if b.len s.tree == 0 then 0 else s.total_size

  unfoldable pub scan_ranges : SubTree → List RegionInfo
  scan_ranges s = if b.len s.tree == 0 then [] else scan_range b s.tree []

  -- A region that holds the start is replaced in its place, by a write through the pointer.
  unfoldable pub sub_update : SubTree → RegionInfo → SubTree
  sub_update s region = elim (find b s.tree (start_of region)) [
    | some r ↦ record {
      tree = b.assign (start_of r) region s.tree;
      total_size = add64 s.total_size (sub64 region.approximate_size r.approximate_size);
    }
    | none ↦ record {
      tree = (update b s.tree region).0;
      total_size = add64 s.total_size region.approximate_size;
    }
  ]

  unfoldable pub sub_remove : SubTree → RegionInfo → SubTree
  sub_remove s region = if b.len s.tree == 0 then s else record s { tree = remove b s.tree region }

  unfoldable pub sub_random_region : Option SubTree → Key → Key → (ℕ → ℕ) → Option RegionInfo
  sub_random_region none start end draw = none
  sub_random_region (some s) start end draw = random_region b s.tree start end draw

  pub record RegionsInfo : Type 0 where
    pub tree : b.Tree
    pub regions : RegionMap
    pub leaders : List (ℕ × SubTree)
    pub followers : List (ℕ × SubTree)
    pub learners : List (ℕ × SubTree)
    pub pending_peers : List (ℕ × SubTree)

  abbrev pub new_regions_info : RegionsInfo
  new_regions_info = record {
    tree = b.new;
    regions = new_region_map;
    leaders = [];
    followers = [];
    learners = [];
    pending_peers = [];
  }

  abbrev pub get_region : RegionsInfo → ℕ → Option RegionInfo
  get_region r id = get r.regions id

  abbrev pub or_new : Option SubTree → SubTree
  or_new none = new_sub_tree
  or_new (some s) = s

  unfoldable pub update_on : ℕ → RegionInfo → List (ℕ × SubTree) → List (ℕ × SubTree)
  unfolding sub_update
  update_on store region trees =
      insert store (sub_update (or_new (lookup store trees)) region) trees

  abbrev pub leader_id : RegionInfo → ℕ
  leader_id region = elim region.leader [ none ↦ 0 | some p ↦ p.id ]

  unfoldable pub add_voter : RegionInfo → Peer → RegionsInfo → RegionsInfo
  unfolding update_on
  add_voter region p r =
      if p.id == leader_id region
      then record r { leaders = update_on p.store_id region r.leaders }
      else record r { followers = update_on p.store_id region r.followers }

  unfoldable pub add_voters : RegionInfo → List Peer → RegionsInfo → RegionsInfo
  unfolding add_voter
  add_voters region [] r = r
  add_voters region (p ∷ peers) r = add_voters region peers (add_voter region p r)

  unfoldable pub update_all : RegionInfo → List Peer → List (ℕ × SubTree) → List (ℕ × SubTree)
  unfolding update_on
  update_all region [] trees = trees
  update_all region (p ∷ peers) trees = update_all region peers (update_on p.store_id region trees)

  unfoldable pub remove_on : ℕ → RegionInfo → List (ℕ × SubTree) → List (ℕ × SubTree)
  unfolding sub_remove
  remove_on store region trees = elim (lookup store trees) [
    | none ↦ trees
    | some s ↦ insert store (sub_remove s region) trees
  ]

  unfoldable pub remove_peers : RegionInfo → List Peer → RegionsInfo → RegionsInfo
  unfolding remove_on
  remove_peers region [] r = r
  remove_peers region (p ∷ peers) r = remove_peers region peers (record r {
    leaders = remove_on p.store_id region r.leaders;
    followers = remove_on p.store_id region r.followers;
    learners = remove_on p.store_id region r.learners;
    pending_peers = remove_on p.store_id region r.pending_peers;
  })

  unfoldable pub remove_region : RegionsInfo → RegionInfo → RegionsInfo
  unfolding remove_peers
  remove_region r region =
      remove_peers region region.meta.peers
        (record r { tree = remove b r.tree region; regions = delete r.regions (get_id region) })

  unfoldable pub remove_overlaps : List RegionInfo → RegionsInfo → Option RegionsInfo
  unfolding remove_region
  remove_overlaps [] r = some r
  remove_overlaps (item ∷ overlaps) r = do
    old ← get_region r (get_id item)
    remove_overlaps overlaps (remove_region r old)

  unfoldable pub add_peers : RegionInfo → RegionsInfo → RegionsInfo
  unfolding add_voters update_all
  add_peers region r =
      let voted = add_voters region region.voters r in
      record voted {
        learners = update_all region region.learners voted.learners;
        pending_peers = update_all region region.pending_peers voted.pending_peers;
      }

  unfoldable pub add_region : RegionsInfo → RegionInfo → Option (RegionsInfo × List RegionInfo)
  unfolding remove_overlaps add_peers
  add_region r region = do
    let updated = update b r.tree region
    cleared ← remove_overlaps updated.1 (record r { tree = updated.0 })
    some (add_peers region (record cleared { regions = put cleared.regions region }), updated.1)

  abbrev pub remove_origin : Option RegionInfo → RegionsInfo → RegionsInfo
  remove_origin none r = r
  remove_origin (some origin) r = remove_region r origin

  unfoldable pub set_region : RegionsInfo → RegionInfo → Option (RegionsInfo × List RegionInfo)
  unfolding add_region
  set_region r region = add_region (remove_origin (get_region r (get_id region)) r) region

  -- By the id of the region that the tree finds, the region of the map.
  unfoldable pub search_region : RegionsInfo → Key → Option RegionInfo
  search_region r key = do region ← search b r.tree key; get_region r (get_id region)

  unfoldable pub search_prev_region : RegionsInfo → Key → Option RegionInfo
  search_prev_region r key = do region ← search_prev b r.tree key; get_region r (get_id region)

  unfoldable pub regions_of : List (ℕ × RegionInfo) → List RegionInfo
  regions_of [] = []
  regions_of ((_, region) ∷ m) = region ∷ regions_of m

  abbrev pub get_regions : RegionsInfo → List RegionInfo
  get_regions r = regions_of r.regions.m

  unfoldable pub metas_of : List (ℕ × RegionInfo) → List Region
  metas_of [] = []
  metas_of ((_, region) ∷ m) = region.meta ∷ metas_of m

  abbrev pub get_meta_regions : RegionsInfo → List Region
  get_meta_regions r = metas_of r.regions.m

  abbrev pub scan_or_nothing : Option SubTree → List RegionInfo
  scan_or_nothing none = []
  scan_or_nothing (some s) = scan_ranges s

  unfoldable pub get_store_regions : RegionsInfo → ℕ → List RegionInfo
  unfolding scan_ranges
  get_store_regions r store =
      scan_or_nothing (lookup store r.leaders) ++ scan_or_nothing (lookup store r.followers)

  unfoldable pub get_store_region_size : RegionsInfo → ℕ → ℕ
  unfolding sub_total_size
  get_store_region_size r store =
      add64
        (add64 (sub_total_size (lookup store r.leaders))
          (sub_total_size (lookup store r.followers)))
        (sub_total_size (lookup store r.learners))

  unfoldable pub get_store_region_count : RegionsInfo → ℕ → ℕ
  get_store_region_count r store =
      sub_length (lookup store r.leaders)
      + sub_length (lookup store r.followers)
      + sub_length (lookup store r.learners)

  -- What `ScanRange` collects; a limit of 0 (or below) is none.
  unfoldable pub collect : RegionsInfo → Key → ℕ → ℕ → List RegionInfo → List (Option RegionInfo)
  collect r end limit taken [] = []
  collect r end limit taken (region ∷ visited) =
      let rest = collect r end limit (taken + 1) visited in
      if not (length end == 0) && not (is_below (start_of region) end)
      then []
      else if ltb 0 limit && leb limit taken
      then []
      else get_region r (get_id region) ∷ rest

  unfoldable pub scan_range_by : RegionsInfo → Key → Key → ℕ → List (Option RegionInfo)
  unfolding collect
  scan_range_by r start end limit = collect r end limit 0 (scan_range b r.tree start)

  -- TotalSize() / int64(len) of Go, which rounds towards 0.
  unfoldable pub get_average_region_size : RegionsInfo → ℕ
  unfolding total_size
  get_average_region_size r =
      let size = total_size r.regions in
      let count = len_map r.regions in
      if count == 0
      then 0
      else if ltb size (2 ^ 63)
      then size / count
      else sub64 0 ((u64_mod - size) / count)

  -- `randRegion` with the draws of its rounds: the first region that all options accept.
  unfoldable pub accepts : List (RegionInfo → Bool) → RegionInfo → Bool
  accepts [] region = true
  accepts (opt ∷ opts) region = opt region && accepts opts region

  unfoldable pub rand_region :
      ℕ → ((ℕ → ℕ) → Option RegionInfo) → (ℕ → ℕ → ℕ) → List (RegionInfo → Bool) → Option RegionInfo
  unfolding accepts
  rand_region zero pick draw opts = none
  rand_region (suc rounds) pick draw opts =
      let again = rand_region rounds pick draw opts in
      elim (pick (draw rounds)) [
        | none ↦ none
        | some region ↦ if accepts opts region then some region else again
      ]
