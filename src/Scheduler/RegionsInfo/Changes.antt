-- ===== src/Scheduler/RegionsInfo/Changes.antt =====
-- What AddRegion and SetRegion of scheduler/server/core/region.go do to the regions.
use mathlib.Core.Option.{some-injective}
use tiny_kv_practice.Prelude.{
  ℕ, ◌≡◌, ◌≢◌, ◌↔◌, ◌⊎◌, inl, inr, refl, sym, ap, subst, ◌∙◌, true, false, Option, none, some, List,
  ◌==◌, if◌then◌else◌, All, arith, Bool-cases, Option-cases, if-cases,
}
use tiny_kv_practice.Prelude.Maps.{lookup, lookup-insert}
use tiny_kv_practice.Keys.Trees.{OrderedTree}
use tiny_kv_practice.Scheduler.Regions.{RegionInfo, get_id, start_of}
use tiny_kv_practice.Scheduler.Tree.{update, remove}
use tiny_kv_practice.Scheduler.Tree.Shape.{IsProper, IsDisjoint, In, All-In, IsDisjoint-IsSorted}
use tiny_kv_practice.Scheduler.Tree.Overlaps.{overlap}
use tiny_kv_practice.Scheduler.Tree.Updates.{In-select, select-IsDisjoint, update_lem}
use tiny_kv_practice.Scheduler.Tree.Removals.{
  IsDisjoint-IsProper, contains_start, contains_unique, is_taken, remove_untaken,
}
use tiny_kv_practice.Scheduler.RegionsInfo.{
  RegionMap, RegionsInfo, get_region, put, remove_region, remove_origin, add_peers, add_region,
  set_region,
}
use tiny_kv_practice.Scheduler.RegionsInfo.Parts.{Without, add_peers-SameCore, remove_overlaps_lem}
use tiny_kv_practice.Scheduler.RegionsInfo.Consistent.{
  IsConsistent, All-of-In, remove_region_iff, remove_region-IsConsistent,
}

-- The state after a region is put among those that pass a test, and what came of the others.
pub record Outcome (b : OrderedTree start_of) (r : RegionsInfo b) (region : RegionInfo)
    (o : Option (RegionsInfo b × List RegionInfo)) (Stays : RegionInfo → Type 0) : Type 0 where
  pub next : RegionsInfo b
  pub overlaps : List RegionInfo
  pub runs : o ≡ some (next, overlaps)
  pub consistent : IsConsistent b next
  pub members :
      (x : RegionInfo)
      → In x (b.items next.tree) ↔ ((x ≡ region) ⊎ (In x (b.items r.tree) × Stays x))
  pub overlapping :
      (x : RegionInfo) → In x overlaps → In x (b.items r.tree) × (overlap region x ≡ true)

module _ (b : OrderedTree start_of) (r : RegionsInfo b) (region : RegionInfo) (c : IsConsistent b r)
    (proper : IsProper region)
    (fresh : (x : RegionInfo) → In x (b.items r.tree) → get_id x ≢ get_id region) where
  abbrev ys : List RegionInfo
  ys = (update b r.tree region).1

  abbrev new_tree : b.Tree
  new_tree = (update b r.tree region).0

  In-ys : (y : RegionInfo) → In y ys ↔ (In y (b.items r.tree) × (overlap region y ≡ true))
  In-ys y =
      subst (λ l. In y l ↔ (In y (b.items r.tree) × (overlap region y ≡ true)))
        (sym (update_lem b r.tree region c.disjoint proper).2)
        (In-select (overlap region) (b.items r.tree) y)

  ys-IsDisjoint : IsDisjoint ys
  ys-IsDisjoint =
      subst IsDisjoint (sym (update_lem b r.tree region c.disjoint proper).2)
        (select-IsDisjoint (overlap region) (b.items r.tree) c.disjoint)

  -- The new tree has no region that the removal of an overlapping one could take.
  free : (y x : RegionInfo) → In y ys → In x (b.items new_tree) → is_taken y x ≡ false
  free y x i j =
      let (old, overlaps) = (In-ys y).0 i in
      elim (((update_lem b r.tree region c.disjoint proper).1 x).0 j) [
        | inl is_new ↦ other_id y x (fresh y old) is_new
        | inr (old_x, clear) ↦ elim (Bool-cases (is_taken y x)) [
          | inr no_matter ↦ no_matter
          | inl taken ↦
              let same : x ≡ y =
                contains_unique (b.items r.tree) x y (start_of y) c.disjoint old_x old
                  (ground (arith, taken))
                  (contains_start y (IsDisjoint-IsProper (b.items r.tree) y c.disjoint old)) in
              cc (subst (λ z. overlap region z ≡ false) same clear, overlaps)
        ]
      ]
    where
      other_id : (y x : RegionInfo) → get_id y ≢ get_id region → x ≡ region → is_taken y x ≡ false
      other_id y x ne e =
          let ids : get_id x ≡ get_id region = ap get_id e in ground (arith, ne, ids)

  known : All (λ y. lookup (get_id y) r.regions.m ≡ some y) ys
  known = All-of-In ys (λ y i. c.listed y ((In-ys y).0 i).0)

  gone : All (λ y. remove b new_tree y ≡ new_tree) ys
  gone = All-of-In ys (λ y i.
      remove_untaken b new_tree y (update_lem b r.tree region c.disjoint proper).0
        (λ x j. free y x i j))

  lookup-put :
      (rm : RegionMap) (id : ℕ)
      → lookup id (put rm region).m ≡ (if get_id region == id then some region else lookup id rm.m)
  unfolding put
  lookup-put rm id = lookup-insert (get_id region) id region rm.m

  -- A region that stays is not under the id of an overlapping one.
  ids_apart :
      (x : RegionInfo)
      → In x (b.items r.tree)
      → overlap region x ≡ false
      → All (λ y. get_id y ≢ get_id x) ys
  ids_apart x i clear = All-of-In ys (λ y j same.
      let (old, overlaps) = (In-ys y).0 j in
      let equal : y ≡ x =
        some-injective _ _
          (sym (c.listed y old) ∙ ap (λ id. lookup id r.regions.m) same ∙ c.listed x i) in
      absurd (not_both (sym (subst (λ z. overlap region z ≡ true) equal overlaps) ∙ clear)))
    where
      not_both : true ≡ false → ⊥
      not_both h = cc

  abbrev added : RegionsInfo b → RegionsInfo b
  added s = add_peers b region (record s { regions = put s.regions region })

  module _ (s : RegionsInfo b) (tree_s : s.tree ≡ new_tree)
      (without : Without b ys r.regions.m s.regions.m) where
    tree_eq : (added s).tree ≡ new_tree
    tree_eq = (add_peers-SameCore b region (record s { regions = put s.regions region })).0 ∙ tree_s

    lookups :
        (id : ℕ)
        → lookup id (added s).regions.m
          ≡ (if get_id region == id then some region else lookup id s.regions.m)
    lookups id =
        ap (λ rm. lookup id rm.m)
          (add_peers-SameCore b region (record s { regions = put s.regions region })).1
        ∙ lookup-put s.regions id

    member_iff :
        (x : RegionInfo)
        → In x (b.items (added s).tree)
          ↔ ((x ≡ region) ⊎ (In x (b.items r.tree) × (overlap region x ≡ false)))
    member_iff x =
        subst
          (λ t.
            In x (b.items t)
            ↔ ((x ≡ region) ⊎ (In x (b.items r.tree) × (overlap region x ≡ false))))
          (sym tree_eq) ((update_lem b r.tree region c.disjoint proper).1 x)

    -- What the map has under an id that is not the new region's.
    stored_old :
        (id : ℕ) (x : RegionInfo)
        → lookup id s.regions.m ≡ some x
        → (get_id x ≡ id) × In x (b.items (added s).tree)
    stored_old id x h =
        let (old, others) = (without id x).0 h in
        let (id_eq, i) = c.stored id x old in
        (
          id_eq,
          (member_iff x).1 (
              inr (
                i,
                elim (Bool-cases (overlap region x)) [
                  | inr clear ↦ clear
                  | inl overlaps ↦
                      absurd
                        (All-In (λ y. get_id y ≢ id) ys others ((In-ys x).1 (i, overlaps)) id_eq)
                ],
              )),
        )

    added-IsConsistent : IsConsistent b (added s)
    added-IsConsistent = record {
      disjoint =
          subst (λ t. IsDisjoint (b.items t)) (sym tree_eq)
            (update_lem b r.tree region c.disjoint proper).0;
      listed = λ x i. elim ((member_iff x).0 i) [
        | inl e ↦
            subst (λ z. lookup (get_id z) (added s).regions.m ≡ some z) (sym e)
              (lookups (get_id region) ∙ ground arith)
        | inr (j, clear) ↦
            let kept = (without (get_id x) x).1 (c.listed x j, ids_apart x j clear) in
            lookups (get_id x) ∙ ground (arith, fresh x j, kept)
      ];
      stored = λ id x h. elim (if-cases (get_id region == id) (sym (lookups id) ∙ h)) [
        | inl (same, e) ↦
            let is_new : x ≡ region = some-injective _ _ (sym e) in
            (ap get_id is_new ∙ ground (arith, same), (member_iff x).1 (inl is_new))
        | inr (other, e) ↦ stored_old id x e
      ];
    }

  add_region-Outcome : Outcome b r region (add_region b r region) (λ x. overlap region x ≡ false)
  unfolding add_region
  add_region-Outcome =
      let (s, runs, tree_s, without) =
        remove_overlaps_lem b ys (record r { tree = new_tree })
          (IsDisjoint-IsSorted ys ys-IsDisjoint) known gone in
      record {
        next = added s;
        overlaps = ys;
        runs = rw runs refl;
        consistent = added-IsConsistent s tree_s without;
        members = member_iff s tree_s without;
        overlapping = λ x i. (In-ys x).0 i;
      }

module _ (b : OrderedTree start_of) (r : RegionsInfo b) (region : RegionInfo) (c : IsConsistent b r)
    (proper : IsProper region) where
  abbrev Set : Type 0
  Set =
      Outcome b r region (set_region b r region)
        (λ x. (get_id x ≢ get_id region) × (overlap region x ≡ false))

  set_new : get_region b r (get_id region) ≡ none → set_region b r region ≡ add_region b r region
  unfolding set_region
  set_new missing = ap (λ o. add_region b (remove_origin b o r) region) missing

  set_known :
      (origin : RegionInfo)
      → get_region b r (get_id region) ≡ some origin
      → set_region b r region ≡ add_region b (remove_region b r origin) region
  unfolding set_region
  set_known origin found = ap (λ o. add_region b (remove_origin b o r) region) found

  of_new : get_region b r (get_id region) ≡ none → Set
  of_new missing =
      let fresh = λ (x : RegionInfo) (i : In x (b.items r.tree)) (same : get_id x ≡ get_id region).
        absurd (
          absent x (get_region b r (get_id region)) missing
            (ap (λ id. get_region b r id) (sym same) ∙ c.listed x i)) in
      let a = add_region-Outcome b r region c proper fresh in
      record {
        next = a.next;
        overlaps = a.overlaps;
        runs = set_new missing ∙ a.runs;
        consistent = a.consistent;
        members = λ x. (
          λ i. elim ((a.members x).0 i) [
            | inl e ↦ inl e
            | inr (j, clear) ↦ inr (j, (fresh x j, clear))
          ],
          λ h. (a.members x).1 (elim h [ inl e ↦ inl e | inr (j, (ne, clear)) ↦ inr (j, clear) ]),
        );
        overlapping = a.overlapping;
      }
    where
      absent : (x : RegionInfo) (o : Option RegionInfo) → o ≡ none → o ≡ some x → ⊥
      absent x o h k = cc

  of_known : (origin : RegionInfo) → get_region b r (get_id region) ≡ some origin → Set
  of_known origin found =
      let (id_eq, i) = c.stored (get_id region) origin found in
      let rest = remove_region_iff b r c origin i in
      let fresh =
        λ (x : RegionInfo) (j : In x (b.items (remove_region b r origin).tree))
            (same : get_id x ≡ get_id region).
          absurd (((rest x).0 j).1 (same ∙ sym id_eq)) in
      let a =
        add_region-Outcome b (remove_region b r origin) region
          (remove_region-IsConsistent b r c origin i) proper fresh in
      record {
        next = a.next;
        overlaps = a.overlaps;
        runs = set_known origin found ∙ a.runs;
        consistent = a.consistent;
        members = λ x. (
          λ k. elim ((a.members x).0 k) [
            | inl e ↦ inl e
            | inr (j, clear) ↦ inr (((rest x).0 j).0, (fresh x j, clear))
          ],
          λ h. (a.members x).1 (elim h [
            | inl e ↦ inl e
            | inr (j, (ne, clear)) ↦ inr ((rest x).1 (j, λ same. ne (same ∙ id_eq)), clear)
          ]),
        );
        overlapping = λ x j. let (k, overlaps) = a.overlapping x j in (((rest x).0 k).0, overlaps);
      }

-- SetRegion with a proper region on a state whose map of regions and main tree are consistent does not
-- panic, and leaves the two consistent; the trees of single stores are not covered. The state holds
-- that region, and exactly those others that have another id and do not overlap it. The regions that it
-- returns were there and overlap.
pub set_region-Outcome :
    (b : OrderedTree start_of) (r : RegionsInfo b) (region : RegionInfo)
    → IsConsistent b r
    → IsProper region
    → Outcome b r region
        (set_region b r region)
        (λ x. (get_id x ≢ get_id region) × (overlap region x ≡ false))
set_region-Outcome b r region c proper = elim (Option-cases (get_region b r (get_id region))) [
  | inl missing ↦ of_new b r region c proper missing
  | inr (origin, found) ↦ of_known b r region c proper origin found
]
