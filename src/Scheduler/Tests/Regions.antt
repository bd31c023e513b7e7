-- ===== src/Scheduler/Tests/Regions.antt =====
-- Three regions, and a fourth one that overlaps two of them (scheduler/server/core).
use mathlib.Core.Option.{some-injective}
use tiny_kv_practice.Prelude.{
  ℕ, ◌*◌, ◌==◌, ◌≡◌, ◌≢◌, ◌↔◌, ◌⊎◌, inl, inr, refl, true, false, some, List, [], ◌∷◌, select, subst,
  if-cases, arith,
}
use tiny_kv_practice.Prelude.Maps.{lookup}
use tiny_kv_practice.Keys.{compare_bytes}
use tiny_kv_practice.Keys.Trees.{Key, OrderedTree, sorted_lists}
use tiny_kv_practice.Kv.Checks.{Peer}
use tiny_kv_practice.Scheduler.Regions.{RegionInfo, get_id, start_of}
use tiny_kv_practice.Scheduler.Tree.{contains, update}
use tiny_kv_practice.Scheduler.Tree.Shape.{IsProper, IsDisjoint, In}
use tiny_kv_practice.Scheduler.Tree.Overlaps.{overlap}
use tiny_kv_practice.Scheduler.Tree.Updates.{update_lem}
use tiny_kv_practice.Scheduler.RegionsInfo.{RegionsInfo, search_region, set_region}
use tiny_kv_practice.Scheduler.RegionsInfo.Consistent.{IsConsistent, search_region_iff}
use tiny_kv_practice.Scheduler.RegionsInfo.Changes.{Outcome, set_region-Outcome}

abbrev trees : OrderedTree start_of
trees = sorted_lists start_of

abbrev pub peer : ℕ → Peer
peer store = record { id = store * 10; store_id = store }

abbrev pub region : ℕ → Key → Key → RegionInfo
region id start end = record {
  meta = record {
    id = id;
    start_key = start;
    end_key = end;
    region_epoch = record { conf_ver = 1; version = 1 };
    peers = peer 1 ∷ peer 2 ∷ [];
  };
  learners = [];
  voters = peer 1 ∷ peer 2 ∷ [];
  leader = some (peer 1);
  pending_peers = [];
  approximate_size = 10;
}

abbrev pub first : RegionInfo
first = region 1 [] (b'c' ∷ [])

abbrev second : RegionInfo
second = region 2 (b'c' ∷ []) (b'f' ∷ [])

abbrev third : RegionInfo
third = region 3 (b'f' ∷ []) []

abbrev wide : RegionInfo
wide = region 4 (b'b' ∷ []) (b'e' ∷ [])

abbrev three : List RegionInfo
three = first ∷ second ∷ third ∷ []

three-IsDisjoint : IsDisjoint three
unfolding compare_bytes
three-IsDisjoint = (refl, (refl, (refl, tt)), (refl, (refl, tt), (refl, tt, tt)))

wide-IsProper : IsProper wide
unfolding compare_bytes
wide-IsProper = refl

update_lem_example :
    IsDisjoint (update trees three wide).0
    × ((r : RegionInfo)
        → In r (update trees three wide).0 ↔ ((r ≡ wide) ⊎ (In r three × (overlap wide r ≡ false))))
    × ((update trees three wide).1 ≡ select (overlap wide) three)
update_lem_example = update_lem trees three wide three-IsDisjoint wide-IsProper

abbrev known : RegionsInfo trees
known = record {
  tree = three;
  regions = record { m = (1, first) ∷ (2, second) ∷ (3, third) ∷ []; total_size = 30 };
  leaders = [];
  followers = [];
  learners = [];
  pending_peers = [];
}

found :
    (id : ℕ) (x r : RegionInfo)
    → (get_id r == id) ≡ true
    → some r ≡ some x
    → In r three
    → (get_id x ≡ id) × In x three
found id x r same e i =
    let is_r : r ≡ x = some-injective _ _ e in
    subst (λ y. (get_id y ≡ id) × In y three) is_r (ground (arith, same), i)

known-IsConsistent : IsConsistent trees known
unfolding lookup
known-IsConsistent = record {
  disjoint = three-IsDisjoint;
  listed = λ x i. elim i [
    | inl e ↦ rw e refl
    | inr j ↦ elim j [ inl e ↦ rw e refl | inr k ↦ elim k [ inl e ↦ rw e refl | inr l ↦ absurd l ] ]
  ];
  stored = λ id x h. elim (if-cases (1 == id) h) [
    | inl (same, e) ↦ found id x first same e (inl refl)
    | inr (_, h1) ↦ elim (if-cases (2 == id) h1) [
      | inl (same, e) ↦ found id x second same e (inr (inl refl))
      | inr (_, h2) ↦ elim (if-cases (3 == id) h2) [
        | inl (same, e) ↦ found id x third same e (inr (inr (inl refl)))
        | inr (_, none_left) ↦ cc
      ]
    ]
  ];
}

search_region_iff_example :
    (search_region trees known (b'd' ∷ []) ≡ some second)
    ↔ (In second three × (contains second (b'd' ∷ []) ≡ true))
search_region_iff_example = search_region_iff trees known known-IsConsistent (b'd' ∷ []) second

set_region-Outcome_example :
    Outcome trees known wide
      (set_region trees known wide)
      (λ x. (get_id x ≢ get_id wide) × (overlap wide x ≡ false))
set_region-Outcome_example = set_region-Outcome trees known wide known-IsConsistent wide-IsProper
