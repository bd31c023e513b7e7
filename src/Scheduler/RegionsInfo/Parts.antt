-- ===== src/Scheduler/RegionsInfo/Parts.antt =====
-- The loops over stores and overlaps in scheduler/server/core/region.go change only their own part.
use mathlib.Core.Option.{some-injective}
use tiny_kv_practice.Prelude.{
  ℕ, ◌≡◌, ◌≢◌, ◌↔◌, inl, inr, refl, sym, ap, subst, ◌∙◌, true, Option, none, some, List, [], ◌∷◌,
  ◌==◌, if◌then◌else◌, All, All-map, arith, Bool-cases, if-cases,
}
use tiny_kv_practice.Prelude.Maps.{lookup, lookup-erase}
use tiny_kv_practice.Keys.{is_below, is_below_irrefl}
use tiny_kv_practice.Keys.Trees.{IsSorted, OrderedTree}
use tiny_kv_practice.Kv.Checks.{Peer}
use tiny_kv_practice.Scheduler.Regions.{RegionInfo, get_id, start_of}
use tiny_kv_practice.Scheduler.Tree.{remove}
use tiny_kv_practice.Scheduler.RegionsInfo.{
  RegionMap, RegionsInfo, delete, leader_id, add_voter, add_voters, add_peers, remove_peers,
  remove_region, remove_overlaps,
}

All-both :
    {P Q R : RegionInfo → Type 0} (l : List RegionInfo)
    → All P l
    → All Q l
    → ((z : RegionInfo) → P z → Q z → R z)
    → All R l
All-both [] p q f = tt
All-both (z ∷ l) p q f = (f z p.0 q.0, All-both l p.1 q.1 f)

pub lookup-delete :
    (rm : RegionMap) (k id : ℕ)
    → lookup id (delete rm k).m ≡ (if k == id then none else lookup id rm.m)
unfolding delete
lookup-delete rm k id = lookup-erase k id rm.m

-- Two regions of a map under their ids, of which one starts earlier, have different ids.
still :
    (m : List (ℕ × RegionInfo)) (y z : RegionInfo)
    → is_below (start_of y) (start_of z) ≡ true
    → lookup (get_id y) m ≡ some y
    → lookup (get_id z) m ≡ some z
    → (if get_id y == get_id z then none else lookup (get_id z) m) ≡ some z
still m y z lt known found = elim (Bool-cases (get_id y == get_id z)) [
  | inr other ↦ rw other found
  | inl same ↦
      let ids : get_id y ≡ get_id z = ground (arith, same) in
      let equal : y ≡ z = some-injective _ _ (sym known ∙ ap (λ id. lookup id m) ids ∙ found) in
      absurd (not_below_itself z (subst (λ x. is_below (start_of x) (start_of z) ≡ true) equal lt))
]
  where
    not_below_itself : (z : RegionInfo) → is_below (start_of z) (start_of z) ≡ true → ⊥
    not_below_itself z h = ground (arith, h, is_below_irrefl (start_of z))

kept :
    (k id : ℕ) (o : Option RegionInfo) {x : RegionInfo}
    → (if k == id then none else o) ≡ some x
    → (k ≢ id) × (o ≡ some x)
kept k id o h = elim (if-cases (k == id) h) [
  | inl (same, e) ↦ absurd (cc)
  | inr (other, e) ↦ (λ same. ground (arith, other, same), e)
]

module _ (b : OrderedTree start_of) where
  -- Two states with the same tree and the same map.
  abbrev pub SameCore : RegionsInfo b → RegionsInfo b → Type 0
  SameCore r s = (r.tree ≡ s.tree) × (r.regions ≡ s.regions)

  add_voter-SameCore :
      (region : RegionInfo) (p : Peer) (r : RegionsInfo b) → SameCore (add_voter b region p r) r
  unfolding add_voter
  add_voter-SameCore region p r = elim (Bool-cases (p.id == leader_id b region)) [
    | inl leads ↦ rw leads (refl, refl)
    | inr follows ↦ rw follows (refl, refl)
  ]

  add_voters-SameCore :
      (region : RegionInfo) (peers : List Peer) (r : RegionsInfo b)
      → SameCore (add_voters b region peers r) r
  unfolding add_voters
  add_voters-SameCore region [] r = (refl, refl)
  add_voters-SameCore region (p ∷ peers) r =
      let (tree, regions) = add_voters-SameCore region peers (add_voter b region p r) in
      let (tree_1, regions_1) = add_voter-SameCore region p r in
      (tree ∙ tree_1, regions ∙ regions_1)

  pub add_peers-SameCore :
      (region : RegionInfo) (r : RegionsInfo b) → SameCore (add_peers b region r) r
  unfolding add_peers
  add_peers-SameCore region r = add_voters-SameCore region region.voters r

  remove_peers-SameCore :
      (region : RegionInfo) (peers : List Peer) (r : RegionsInfo b)
      → SameCore (remove_peers b region peers r) r
  unfolding remove_peers
  remove_peers-SameCore region [] r = (refl, refl)
  remove_peers-SameCore region (p ∷ peers) r = remove_peers-SameCore region peers _

  pub remove_region-core :
      (r : RegionsInfo b) (region : RegionInfo)
      → ((remove_region b r region).tree ≡ remove b r.tree region)
        × ((remove_region b r region).regions ≡ delete r.regions (get_id region))
  unfolding remove_region
  remove_region-core r region = remove_peers-SameCore region region.meta.peers _

  -- The map without the ids of some regions.
  abbrev pub Without : List RegionInfo → List (ℕ × RegionInfo) → List (ℕ × RegionInfo) → Type 0
  Without ys old new =
      (id : ℕ) (x : RegionInfo)
      → (lookup id new ≡ some x) ↔ ((lookup id old ≡ some x) × All (λ y. get_id y ≢ id) ys)

  -- Overlapping regions that the tree does not have any more leave the map, and no other one does.
  pub remove_overlaps_lem :
      (ys : List RegionInfo) (r : RegionsInfo b)
      → IsSorted start_of ys
      → All (λ y. lookup (get_id y) r.regions.m ≡ some y) ys
      → All (λ y. remove b r.tree y ≡ r.tree) ys
      → (s : RegionsInfo b) × (remove_overlaps b ys r ≡ some s)
        × (s.tree ≡ r.tree)
        × Without ys r.regions.m s.regions.m
  unfolding remove_overlaps
  remove_overlaps_lem [] r sorted known gone = (r, refl, refl, λ id x. (λ h. (h, tt), λ (h, _). h))
  remove_overlaps_lem (y ∷ ys) r sorted known gone =
      let next = remove_region b r y in
      let (tree_eq, map_eq) = remove_region-core r y in
      let same_tree : next.tree ≡ r.tree = tree_eq ∙ gone.0 in
      let lookups : (id : ℕ)
          → lookup id next.regions.m ≡ (if get_id y == id then none else lookup id r.regions.m) =
        λ id. ap (λ rm. lookup id rm.m) map_eq ∙ lookup-delete r.regions (get_id y) id in
      let known_next : All (λ z. lookup (get_id z) next.regions.m ≡ some z) ys =
        All-both ys sorted.0 known.1
          (λ z lt found. lookups (get_id z) ∙ still r.regions.m y z lt known.0 found) in
      let gone_next : All (λ z. remove b next.tree z ≡ next.tree) ys =
        All-map ys (λ z h. subst (λ t. remove b t z ≡ t) (sym same_tree) h) gone.1 in
      let (s, runs, tree_s, without) = remove_overlaps_lem ys next sorted.1 known_next gone_next in
      (
        s,
        rw known.0 runs,
        tree_s ∙ same_tree,
        λ id x.
            let (out, in_) = without id x in
            (
              λ h.
                  let (k, others) = out h in
                  let (ne, old) =
                    kept (get_id y) id (lookup id r.regions.m) (sym (lookups id) ∙ k) in
                  (old, (ne, others)),
              λ (old, (ne, others)). in_ (lookups id ∙ ground (arith, ne, old), others),
            ),
      )
