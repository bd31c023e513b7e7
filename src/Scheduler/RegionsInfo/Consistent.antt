-- ===== src/Scheduler/RegionsInfo/Consistent.antt =====
-- The tree and the map of scheduler/server/core/region.go hold the same regions, and keep doing so.
use mathlib.Core.Option.{some-injective}
use tiny_kv_practice.Prelude.{
  ℕ, ◌≡◌, ◌≢◌, ◌↔◌, inl, inr, refl, sym, ap, subst, ◌∙◌, true, false, none, some, List, [], ◌∷◌,
  ◌==◌, if◌then◌else◌, All, arith, Option-cases, if-cases, ◌>>=◌,
}
use tiny_kv_practice.Prelude.Maps.{lookup}
use tiny_kv_practice.Keys.Trees.{Key, OrderedTree}
use tiny_kv_practice.Scheduler.Regions.{RegionInfo, get_id, start_of}
use tiny_kv_practice.Scheduler.Tree.{contains, search}
use tiny_kv_practice.Scheduler.Tree.Shape.{IsDisjoint, In, search_iff}
use tiny_kv_practice.Scheduler.Tree.Removals.{
  IsDisjoint-IsProper, contains_start, is_taken, remove_lem,
}
use tiny_kv_practice.Scheduler.RegionsInfo.{RegionsInfo, get_region, remove_region, search_region}
use tiny_kv_practice.Scheduler.RegionsInfo.Parts.{remove_region-core, lookup-delete}

-- The tree holds disjoint regions, and the map has exactly these, under their ids.
pub record IsConsistent (b : OrderedTree start_of) (r : RegionsInfo b) : Type 0 where
  pub disjoint : IsDisjoint (b.items r.tree)
  pub listed : (x : RegionInfo) → In x (b.items r.tree) → lookup (get_id x) r.regions.m ≡ some x
  pub stored :
      (id : ℕ) (x : RegionInfo)
      → lookup id r.regions.m ≡ some x
      → (get_id x ≡ id) × In x (b.items r.tree)

pub All-of-In :
    {P : RegionInfo → Type 0} (l : List RegionInfo) → ((x : RegionInfo) → In x l → P x) → All P l
All-of-In [] f = tt
All-of-In (x ∷ l) f = (f x (inl refl), All-of-In l (λ y i. f y (inr i)))

module _ (b : OrderedTree start_of) (r : RegionsInfo b) (c : IsConsistent b r) where
  -- In a consistent state, SearchRegion finds a region exactly if it is in the tree and contains the key.
  pub search_region_iff :
      (key : Key) (x : RegionInfo)
      → (search_region b r key ≡ some x) ↔ (In x (b.items r.tree) × (contains x key ≡ true))
  unfolding search_region
  search_region_iff key x = (
    λ h. elim (Option-cases (search b r.tree key)) [
      | inl missing ↦ absurd (none_found missing h)
      | inr (y, found) ↦
          let (i, inside) = (search_iff b r.tree key y c.disjoint).0 found in
          let same : y ≡ x = some-injective _ _ (sym (c.listed y i) ∙ at_found y found h) in
          subst (λ z. In z (b.items r.tree) × (contains z key ≡ true)) same (i, inside)
    ],
    λ (i, inside). rw ((search_iff b r.tree key x c.disjoint).1 (i, inside)) (c.listed x i),
  )
    where
      none_found :
          search b r.tree key ≡ none
          → (search b r.tree key >>= λ region. get_region b r (get_id region)) ≡ some x
          → ⊥
      none_found missing h = cc (sym (rw missing at h))

      at_found :
          (y : RegionInfo)
          → search b r.tree key ≡ some y
          → (search b r.tree key >>= λ region. get_region b r (get_id region)) ≡ some x
          → lookup (get_id y) r.regions.m ≡ some x
      at_found y found h = rw found at h

  -- Regions with the same id are the same.
  same_id :
      (x y : RegionInfo)
      → In x (b.items r.tree)
      → In y (b.items r.tree)
      → get_id x ≡ get_id y
      → x ≡ y
  same_id x y i j e =
      some-injective _ _ (sym (c.listed x i) ∙ ap (λ id. lookup id r.regions.m) e ∙ c.listed y j)

  module _ (o : RegionInfo) (here : In o (b.items r.tree)) where
    taken_iff :
        (x : RegionInfo) → In x (b.items r.tree) → (is_taken o x ≡ false) ↔ (get_id x ≢ get_id o)
    taken_iff x i = (
      λ free same.
          let e = same_id x o i here same in
          absurd (self_taken (subst (λ z. is_taken o z ≡ false) e free)),
      λ ne. ground (arith, ne),
    )
      where
        self_taken : is_taken o o ≡ false → ⊥
        self_taken h =
            ground
              (arith, h, contains_start o (IsDisjoint-IsProper (b.items r.tree) o c.disjoint here))

    pub remove_region_iff :
        (x : RegionInfo)
        → In x (b.items (remove_region b r o).tree)
          ↔ (In x (b.items r.tree) × (get_id x ≢ get_id o))
    remove_region_iff x =
        let (tree_eq, _) = remove_region-core b r o in
        let (out, in_) = (remove_lem b r.tree o c.disjoint).1 x in
        (
          λ i.
              let (j, free) = out (subst (λ t. In x (b.items t)) tree_eq i) in
              (j, (taken_iff x j).0 free),
          λ (j, ne). subst (λ t. In x (b.items t)) (sym tree_eq) (in_ (j, (taken_iff x j).1 ne)),
        )

    pub remove_region-IsConsistent : IsConsistent b (remove_region b r o)
    remove_region-IsConsistent =
        let (tree_eq, map_eq) = remove_region-core b r o in
        let lookups : (id : ℕ)
            → lookup id (remove_region b r o).regions.m
              ≡ (if get_id o == id then none else lookup id r.regions.m) =
          λ id. ap (λ rm. lookup id rm.m) map_eq ∙ lookup-delete r.regions (get_id o) id in
        record {
          disjoint =
              subst (λ t. IsDisjoint (b.items t)) (sym tree_eq)
                (remove_lem b r.tree o c.disjoint).0;
          listed = λ x i.
              let (j, ne) = (remove_region_iff x).0 i in
              lookups (get_id x) ∙ ground (arith, ne, c.listed x j);
          stored = λ id x h. elim (if-cases (get_id o == id) (sym (lookups id) ∙ h)) [
            | inl (same, e) ↦ absurd (cc)
            | inr (other, e) ↦
                let (id_eq, j) = c.stored id x e in
                (id_eq, (remove_region_iff x).1 (j, λ eq. ground (arith, other, id_eq, eq)))
          ];
        }
