-- ===== src/Scheduler/Tree/Overlaps.antt =====
-- The regions that overlap a new one (`getOverlaps` of scheduler/server/core/region_tree.go).

use tiny_kv_practice.Prelude.{
  ◌≡◌, inl, inr, refl, sym, ap, ◌∙◌, Bool, true, false, not, ◌&&◌, List, [], ◌∷◌, All, All-map,
  select, arith, Bool-cases, Option-cases,
}
use tiny_kv_practice.Keys.{
  is_below, is_at_most_lem, is_below_irrefl, is_below_trans, is_below_asymm, is_below_of_lt_le,
}
use tiny_kv_practice.Keys.Trees.{Key, from, OrderedTree}
use tiny_kv_practice.Scheduler.Regions.{RegionInfo, start_of, end_of}
use tiny_kv_practice.Scheduler.Tree.{contains, ends_before, start_or, overlaps_in, get_overlaps}
use tiny_kv_practice.Scheduler.Tree.Shape.{
  IsProper, IsDisjoint, All-In, ends_before-lt, IsDisjoint-IsSorted, first_containing,
  first_containing-later, first_containing-some, later_starts, find_lem,
}

-- Two regions overlap if neither ends before the other one.
abbrev pub overlap : RegionInfo → RegionInfo → Bool
overlap a b = not (ends_before a b) && not (ends_before b a)

-- A region that ends before another one ends before all that start later.
pub ends_before-later :
    (a b c : RegionInfo)
    → ends_before a b ≡ true
    → is_below (start_of b) (start_of c) ≡ true
    → ends_before a c ≡ true
ends_before-later a b c e lt = ground (
  arith,
  is_at_most_lem (end_of a) (start_of b),
  is_at_most_lem (end_of a) (start_of c),
  is_below_trans (start_of b) (start_of c) (end_of a),
)

-- A region that a later start lies behind does not end before it.
pub not-ends_before :
    (a b : RegionInfo)
    → IsProper a
    → is_below (start_of a) (start_of b) ≡ false
    → ends_before a b ≡ false
not-ends_before a b p lt = ground (
  arith,
  is_at_most_lem (end_of a) (start_of b),
  is_below_of_lt_le (start_of a) (end_of a) (start_of b),
)

contains-ends_before : (a b : RegionInfo) → contains a (start_of b) ≡ true → ends_before a b ≡ false
unfolding contains
contains-ends_before a b c = ground (arith, is_at_most_lem (end_of a) (start_of b))

-- A region that starts at a key or before it and does not contain it ends before it.
ends_before_of_not_contained :
    (a b : RegionInfo)
    → is_below (start_of b) (start_of a) ≡ false
    → contains a (start_of b) ≡ false
    → ends_before a b ≡ true
unfolding contains
ends_before_of_not_contained a b h c = ground (arith, is_at_most_lem (end_of a) (start_of b))

module _ (region : RegionInfo) where
  select-none :
      (l : List RegionInfo)
      → All (λ y. ends_before region y ≡ true) l
      → select (overlap region) l ≡ []
  select-none [] a = refl
  select-none (y ∷ l) a = rw a.0 (select-none l a.1)

  -- Among regions that do not end before it, the overlapping ones come first.
  overlaps_in_lem :
      (l : List RegionInfo)
      → IsDisjoint l
      → All (λ y. ends_before y region ≡ false) l
      → overlaps_in region l ≡ select (overlap region) l
  unfolding overlaps_in
  overlaps_in_lem [] d a = refl
  overlaps_in_lem (y ∷ l) d a = elim (Bool-cases (ends_before region y)) [
    | inl stops ↦ rw stops (
        sym (
          select-none l (
            All-map l (λ z. ends_before-later region y z stops) (IsDisjoint-IsSorted (y ∷ l) d).0)))
    | inr goes_on ↦ rw (goes_on, a.0) (ap (◌∷◌ y) (overlaps_in_lem l d.2 a.1))
  ]

  from-start :
      (k : Key) (y : RegionInfo) (l : List RegionInfo)
      → is_below (start_of y) k ≡ false
      → from start_of k (y ∷ l) ≡ y ∷ l
  unfolding from
  from-start k y l h = rw h refl

  from-skip :
      (k : Key) (y : RegionInfo) (l : List RegionInfo)
      → is_below (start_of y) k ≡ true
      → from start_of k (y ∷ l) ≡ from start_of k l
  unfolding from
  from-skip k y l h = rw h refl

  from-nil : (k : Key) → overlaps_in region (from start_of k []) ≡ []
  unfolding from overlaps_in
  from-nil k = refl

  -- No proper region that starts behind the start of the region ends before it.
  later_ends :
      (y : RegionInfo) (l : List RegionInfo)
      → IsDisjoint (y ∷ l)
      → is_below (start_of y) (start_of region) ≡ false
      → All (λ z. ends_before z region ≡ false) (y ∷ l)
  later_ends y [] d h = (not-ends_before y region d.0 h, tt)
  later_ends y (z ∷ l) d h =
      let lt = ends_before-lt y z d.0 d.1.0 in
      (
        not-ends_before y region d.0 h,
        later_ends z l d.2
            (ground (arith, is_below_trans (start_of y) (start_of z) (start_of region), lt, h)),
      )

  tail_ends :
      (y : RegionInfo) (l : List RegionInfo)
      → IsDisjoint (y ∷ l)
      → contains y (start_of region) ≡ true
      → All (λ z. ends_before z region ≡ false) l
  unfolding contains
  tail_ends y [] d c = tt
  tail_ends y (z ∷ l) d c = later_ends z l d.2 (
      ground (
        arith,
        d.1.0,
        c,
        is_at_most_lem (end_of y) (start_of z),
        is_below_trans (start_of z) (start_of region) (end_of y),
      ))

  overlap_ended : (y : RegionInfo) → ends_before y region ≡ true → overlap region y ≡ false
  overlap_ended y e = ground arith

  -- A visit from the region that contains the start, or from the start, collects what overlaps.
  visit_lem :
      (l : List RegionInfo)
      → IsDisjoint l
      → overlaps_in region
          (from start_of (start_or (first_containing (start_of region) l) (start_of region)) l)
        ≡ select (overlap region) l
  visit_lem [] d = from-nil _
  visit_lem (y ∷ l) d = elim (Bool-cases (contains y (start_of region))) [
    | inl here ↦
        rw (here, from-start (start_of y) y l (is_below_irrefl (start_of y)))
          (overlaps_in_lem (y ∷ l) d (contains-ends_before y region here, tail_ends y l d here))
    | inr other ↦ elim (Bool-cases (is_below (start_of region) (start_of y))) [
      | inl early ↦
          let later =
            first_containing-later (start_of region) l
              (later_starts (start_of region) y l early d) in
          let behind = is_below_asymm (start_of region) (start_of y) early in
          rw (other, later, from-start (start_of region) y l behind)
            (overlaps_in_lem (y ∷ l) d (later_ends y l d behind))
      | inr at ↦
          let ended = ends_before_of_not_contained y region at other in
          let skipped : is_below (start_of y)
                (start_or (first_containing (start_of region) l) (start_of region))
              ≡ true =
            elim (Option-cases (first_containing (start_of region) l)) [
              | inl no_region ↦ rw no_region (ends_before-lt y region d.0 ended)
              | inr (r, found) ↦ rw found (
                  All-In (λ z. is_below (start_of y) (start_of z) ≡ true) l
                    (IsDisjoint-IsSorted (y ∷ l) d).0
                    (first_containing-some (start_of region) l found).0)
            ] in
          rw (other, from-skip _ y l skipped, overlap_ended y ended) (visit_lem l d.2)
    ]
  ]

  module _ (b : OrderedTree start_of) (t : b.Tree) (d : IsDisjoint (b.items t)) where
    pub get_overlaps_lem : get_overlaps b t region ≡ select (overlap region) (b.items t)
    unfolding get_overlaps
    get_overlaps_lem =
        ap (overlaps_in region) (
          b.ascend_lem _ t (IsDisjoint-IsSorted (b.items t) d)
          ∙ ap (λ o. from start_of (start_or o (start_of region)) (b.items t))
              (find_lem b t d (start_of region)))
        ∙ visit_lem (b.items t) d
