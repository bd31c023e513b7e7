-- ===== src/Scheduler/Tree.antt =====
-- scheduler/server/core/region_tree.go: the regions in an ordered tree, by their start keys. The items
-- of the tree are pointers to a `regionItem`, which holds a region: the model has the region itself.
pub mod Shape
pub mod Overlaps
pub mod Updates
pub mod Removals
use tiny_kv_practice.Prelude.{
  ℕ, ◌+◌, ◌-◌, Bool, false, not, ◌&&◌, ◌||◌, Option, none, some, List, [], ◌∷◌, leb, ◌==◌,
  if◌then◌else◌, length, ◌>>=◌,
}
use tiny_kv_practice.Keys.{is_below, is_at_most}
use tiny_kv_practice.Keys.Trees.{Key, head?, OrderedTree}
use tiny_kv_practice.Scheduler.Regions.{RegionInfo, get_id, start_of, end_of}

unfoldable pub contains : RegionInfo → Key → Bool
contains r key =
    not (is_below key (start_of r)) && (length (end_of r) == 0 || is_below key (end_of r))

-- len(region.GetEndKey()) > 0 && bytes.Compare(region.GetEndKey(), over.GetStartKey()) <= 0
abbrev pub ends_before : RegionInfo → RegionInfo → Bool
ends_before region over =
    not (length (end_of region) == 0) && is_at_most (end_of region) (start_of over)

-- What the function of `getOverlaps` collects until it stops the visit.
unfoldable pub overlaps_in : RegionInfo → List RegionInfo → List RegionInfo
overlaps_in region [] = []
overlaps_in region (over ∷ visited) =
    let rest = overlaps_in region visited in if ends_before region over then [] else over ∷ rest

-- The first item that has another start key; `getAdjacentRegions` skips those with the same one.
unfoldable pub first_other : Key → List RegionInfo → Option RegionInfo
first_other start [] = none
first_other start (r ∷ visited) =
    if is_below start (start_of r) || is_below (start_of r) start
    then some r
    else first_other start visited

abbrev pub holding : Option RegionInfo → Key → Option RegionInfo
holding none key = none
holding (some r) key = if contains r key then some r else none

abbrev pub start_or : Option RegionInfo → Key → Key
start_or none key = key
start_or (some r) key = start_of r

module _ (b : OrderedTree start_of) where
  open b use {Tree}

  -- `find` by a start key, which is all that it reads of the region.
  unfoldable pub find : Tree → Key → Option RegionInfo
  find t key = holding (head? (b.descend key t)) key

  unfoldable pub get_overlaps : Tree → RegionInfo → List RegionInfo
  unfolding overlaps_in find
  get_overlaps t region =
      overlaps_in region (b.ascend (start_or (find t (start_of region)) (start_of region)) t)

  unfoldable pub delete_all : List RegionInfo → Tree → Tree
  delete_all [] t = t
  delete_all (item ∷ overlaps) t = delete_all overlaps (b.delete (start_of item) t)

  -- The new tree, and the regions that had to go.
  unfoldable pub update : Tree → RegionInfo → Tree × List RegionInfo
  unfolding get_overlaps delete_all
  update t region =
      let overlaps = get_overlaps t region in
      (b.replace_or_insert region (delete_all overlaps t), overlaps)

  unfoldable pub remove : Tree → RegionInfo → Tree
  unfolding find
  remove t region = if b.len t == 0 then t else elim (find t (start_of region)) [
    | none ↦ t
    | some r ↦ if get_id r == get_id region then b.delete (start_of r) t else t
  ]

  unfoldable pub search : Tree → Key → Option RegionInfo
  unfolding find
  search t key = find t key

  -- The previous and the next region of the one that starts at a key.
  unfoldable pub get_adjacent_regions : Tree → Key → Option RegionInfo × Option RegionInfo
  unfolding first_other
  get_adjacent_regions t start =
      (first_other start (b.descend start t), first_other start (b.ascend start t))

  abbrev pub if_adjoining : RegionInfo → Option RegionInfo → Option RegionInfo
  if_adjoining cur none = none
  if_adjoining cur (some prev) =
      if is_below (end_of prev) (start_of cur) || is_below (start_of cur) (end_of prev)
      then none
      else some prev

  unfoldable pub search_prev : Tree → Key → Option RegionInfo
  unfolding find get_adjacent_regions
  search_prev t key = do
    cur ← find t key
    if_adjoining cur (get_adjacent_regions t (start_of cur)).0

  -- The regions that `scanRange` goes through, until its function stops it.
  unfoldable pub scan_range : Tree → Key → List RegionInfo
  unfolding find
  scan_range t key = b.ascend (start_or (find t key) key) t

  abbrev pub contains_at : Tree → ℕ → Key → Bool
  contains_at t i key = elim (b.get_at i t) [ none ↦ false | some r ↦ contains r key ]

  -- Where the draw of `RandomRegion` begins and where it ends; `draw n` is rand.Intn(n).
  unfoldable pub start_index : Tree → Key → ℕ
  start_index t start =
      let i = b.index_of start t in
      elim (b.get start t) [
        | some _ ↦ i
        | none ↦ if not (i == 0) && contains_at t (i - 1) start then i - 1 else i
      ]

  unfoldable pub end_index : Tree → Key → ℕ
  end_index t end = if length end == 0 then b.len t else b.index_of end t

  unfoldable pub random_region : Tree → Key → Key → (ℕ → ℕ) → Option RegionInfo
  unfolding start_index end_index
  random_region t start end draw =
      let lo = start_index t start in
      let hi = end_index t end in
      if b.len t == 0 then none else if leb hi lo then none else b.get_at (draw (hi - lo) + lo) t
