-- ===== src/Scheduler/Tree/Updates.antt =====
-- What `update` of scheduler/server/core/region_tree.go does to the regions in the tree.
use tiny_kv_practice.Prelude.{
  ◌≡◌, ◌↔◌, ◌⊎◌, inl, inr, refl, sym, ap, subst, ◌∙◌, Bool, true, false, not, List, [], ◌∷◌, All,
  All-map, select, arith, Bool-cases,
}
use tiny_kv_practice.Keys.{is_below, is_below_irrefl, is_below_asymm}
use tiny_kv_practice.Keys.Trees.{Key, put, cut, IsSorted, OrderedTree}
use tiny_kv_practice.Scheduler.Regions.{RegionInfo, start_of}
use tiny_kv_practice.Scheduler.Tree.{ends_before, get_overlaps, delete_all, update}
use tiny_kv_practice.Scheduler.Tree.Shape.{
  IsProper, IsDisjoint, In, ends_before-lt, IsDisjoint-IsSorted,
}
use tiny_kv_practice.Scheduler.Tree.Overlaps.{overlap, get_overlaps_lem, ends_before-later}

cut_all : List RegionInfo → List RegionInfo → List RegionInfo
cut_all [] l = l
cut_all (y ∷ ys) l = cut_all ys (cut start_of (start_of y) l)

cut-All :
    (P : RegionInfo → Type 0) (k : Key) (l : List RegionInfo) → All P l → All P (cut start_of k l)
unfolding cut
cut-All P k [] a = tt
cut-All P k (x ∷ l) a = elim (Bool-cases (is_below (start_of x) k)) [
  | inl below ↦ rw below (a.0, cut-All P k l a.1)
  | inr other ↦ elim (Bool-cases (is_below k (start_of x))) [
    | inl above ↦ rw (other, above) a
    | inr same ↦ rw (other, same) a.1
  ]
]

cut-IsSorted :
    (k : Key) (l : List RegionInfo) → IsSorted start_of l → IsSorted start_of (cut start_of k l)
unfolding cut
cut-IsSorted k [] s = tt
cut-IsSorted k (x ∷ l) s = elim (Bool-cases (is_below (start_of x) k)) [
  | inl below ↦
      rw below
        (cut-All (λ y. is_below (start_of x) (start_of y) ≡ true) k l s.0, cut-IsSorted k l s.1)
  | inr other ↦ elim (Bool-cases (is_below k (start_of x))) [
    | inl above ↦ rw (other, above) s
    | inr same ↦ rw (other, same) s.1
  ]
]

cut_self : (x : RegionInfo) (l : List RegionInfo) → cut start_of (start_of x) (x ∷ l) ≡ l
unfolding cut
cut_self x l = rw (is_below_irrefl (start_of x)) refl

cut_later :
    (k : Key) (x : RegionInfo) (l : List RegionInfo)
    → is_below (start_of x) k ≡ true
    → cut start_of k (x ∷ l) ≡ x ∷ cut start_of k l
unfolding cut
cut_later k x l below = rw below refl

cut_all-later :
    (ys : List RegionInfo) (x : RegionInfo) (l : List RegionInfo)
    → All (λ y. is_below (start_of x) (start_of y) ≡ true) ys
    → cut_all ys (x ∷ l) ≡ x ∷ cut_all ys l
unfolding cut_all
cut_all-later [] x l a = refl
cut_all-later (y ∷ ys) x l a =
    rw (cut_later (start_of y) x l a.0) (cut_all-later ys x (cut start_of (start_of y) l) a.1)

pub select-All :
    (P : RegionInfo → Type 0) (p : RegionInfo → Bool) (l : List RegionInfo)
    → All P l
    → All P (select p l)
select-All P p [] a = tt
select-All P p (x ∷ l) a = elim (Bool-cases (p x)) [
  | inl kept ↦ rw kept (a.0, select-All P p l a.1)
  | inr dropped ↦ rw dropped (select-All P p l a.1)
]

pub select-passes :
    (p : RegionInfo → Bool) (l : List RegionInfo) → All (λ x. p x ≡ true) (select p l)
select-passes p [] = tt
select-passes p (x ∷ l) = elim (Bool-cases (p x)) [
  | inl kept ↦ rw kept (kept, select-passes p l)
  | inr dropped ↦ rw dropped (select-passes p l)
]

pub In-select :
    (p : RegionInfo → Bool) (l : List RegionInfo) (r : RegionInfo)
    → In r (select p l) ↔ (In r l × (p r ≡ true))
In-select p [] r = (λ i. absurd i, λ (i, h). absurd i)
In-select p (x ∷ l) r =
    let (there, back) = In-select p l r in
    elim (Bool-cases (p x)) [
      | inl kept ↦ rw kept (
        λ i. elim i [ inl e ↦ (inl e, rw e kept) | inr j ↦ (inr (there j).0, (there j).1) ],
        λ (i, h). elim i [ inl e ↦ inl e | inr j ↦ inr (back (j, h)) ],
      )
      | inr dropped ↦ rw dropped (
        λ i. (inr (there i).0, (there i).1),
        λ (i, h). elim i [ inl e ↦ cc | inr j ↦ back (j, h) ],
      )
    ]

pub select-IsDisjoint :
    (p : RegionInfo → Bool) (l : List RegionInfo) → IsDisjoint l → IsDisjoint (select p l)
select-IsDisjoint p [] d = tt
select-IsDisjoint p (x ∷ l) d = elim (Bool-cases (p x)) [
  | inl kept ↦
      rw kept (d.0, select-All (λ s. ends_before x s ≡ true) p l d.1, select-IsDisjoint p l d.2)
  | inr dropped ↦ rw dropped (select-IsDisjoint p l d.2)
]

-- Deleting the members that pass a test leaves the others.
cut_all-select :
    (p : RegionInfo → Bool) (l : List RegionInfo)
    → IsSorted start_of l
    → cut_all (select p l) l ≡ select (λ x. not (p x)) l
unfolding cut_all
cut_all-select p [] s = refl
cut_all-select p (x ∷ l) s = elim (Bool-cases (p x)) [
  | inl gone ↦ rw gone (ap (cut_all (select p l)) (cut_self x l) ∙ cut_all-select p l s.1)
  | inr kept ↦
      rw (kept, cut_all-later (select p l) x l (select-All _ p l s.0))
        (ap (◌∷◌ x) (cut_all-select p l s.1))
]

put-All :
    (P : RegionInfo → Type 0) (x : RegionInfo) (l : List RegionInfo)
    → P x
    → All P l
    → All P (put start_of x l)
unfolding put
put-All P x [] h a = (h, tt)
put-All P x (y ∷ l) h a = elim (Bool-cases (is_below (start_of y) (start_of x))) [
  | inl below ↦ rw below (a.0, put-All P x l h a.1)
  | inr other ↦ elim (Bool-cases (is_below (start_of x) (start_of y))) [
    | inl above ↦ rw (other, above) (h, a)
    | inr same ↦ rw (other, same) (h, a.1)
  ]
]

module _ (x : RegionInfo) (proper : IsProper x) where
  -- Which of two regions that do not overlap ends before the other one.
  apart :
      (y : RegionInfo)
      → IsProper y
      → overlap x y ≡ false
      → ((is_below (start_of y) (start_of x) ≡ true) × (ends_before y x ≡ true))
        ⊎ ((is_below (start_of y) (start_of x) ≡ false)
            × (is_below (start_of x) (start_of y) ≡ true)
            × (ends_before x y ≡ true))
  apart y p o = elim (Bool-cases (ends_before x y)) [
    | inl before ↦
        let lt = ends_before-lt x y proper before in
        inr (is_below_asymm (start_of x) (start_of y) lt, lt, before)
    | inr other ↦
        let before : ends_before y x ≡ true = ground arith in
        inl (ends_before-lt y x p before, before)
  ]

  put-IsDisjoint :
      (l : List RegionInfo)
      → IsDisjoint l
      → All (λ y. overlap x y ≡ false) l
      → IsDisjoint (put start_of x l)
  unfolding put
  put-IsDisjoint [] d a = (proper, tt, tt)
  put-IsDisjoint (y ∷ l) d a = elim (apart y d.0 a.0) [
    | inl (below, before) ↦
        rw below
          (d.0, put-All (λ s. ends_before y s ≡ true) x l before d.1, put-IsDisjoint l d.2 a.1)
    | inr (other, above, before) ↦
        rw (other, above)
          (
            proper,
            (
              before,
              All-map l (λ s. ends_before-later x y s before) (IsDisjoint-IsSorted (y ∷ l) d).0,
            ),
            d,
          )
  ]

  In-put :
      (l : List RegionInfo) (r : RegionInfo)
      → IsDisjoint l
      → All (λ y. overlap x y ≡ false) l
      → In r (put start_of x l) ↔ ((r ≡ x) ⊎ In r l)
  unfolding put
  In-put [] r d a = (λ i. i, λ i. i)
  In-put (y ∷ l) r d a = elim (apart y d.0 a.0) [
    | inl (below, before) ↦
        let (there, back) = In-put l r d.2 a.1 in
        rw below (
          λ i. elim i [
            | inl e ↦ inr (inl e)
            | inr j ↦ elim (there j) [ inl e ↦ inl e | inr k ↦ inr (inr k) ]
          ],
          λ i. elim i [
            | inl e ↦ inr (back (inl e))
            | inr j ↦ elim j [ inl e ↦ inl e | inr k ↦ inr (back (inr k)) ]
          ],
        )
    | inr (other, above, before) ↦ rw (other, above) (λ i. i, λ i. i)
  ]

items-delete_all :
    (b : OrderedTree start_of) (ys : List RegionInfo) (t : b.Tree)
    → IsSorted start_of (b.items t)
    → b.items (delete_all b ys t) ≡ cut_all ys (b.items t)
unfolding delete_all cut_all
items-delete_all b [] t s = refl
items-delete_all b (y ∷ ys) t s =
    let cut_one = b.items-delete (start_of y) t s in
    items-delete_all b ys (b.delete (start_of y) t)
      (subst (IsSorted start_of) (sym cut_one) (cut-IsSorted (start_of y) (b.items t) s))
    ∙ ap (cut_all ys) cut_one

abbrev pub apart_from : RegionInfo → List RegionInfo → List RegionInfo
apart_from region l = select (λ r. not (overlap region r)) l

pub apart_from-All :
    (region : RegionInfo) (l : List RegionInfo)
    → All (λ r. overlap region r ≡ false) (apart_from region l)
apart_from-All region l =
    All-map (apart_from region l) (λ r h. ground arith)
      (select-passes (λ r. not (overlap region r)) l)

module _ (b : OrderedTree start_of) (t : b.Tree) (region : RegionInfo)
    (d : IsDisjoint (b.items t)) where
  pub items-update :
      b.items (update b t region).0 ≡ put start_of region (apart_from region (b.items t))
  unfolding update
  items-update =
      let sorted = IsDisjoint-IsSorted (b.items t) d in
      let deleted : b.items (delete_all b (get_overlaps b t region) t)
          ≡ apart_from region (b.items t) =
        items-delete_all b (get_overlaps b t region) t sorted
        ∙ ap (λ ys. cut_all ys (b.items t)) (get_overlaps_lem region b t d)
        ∙ cut_all-select (overlap region) (b.items t) sorted in
      let kept = select-IsDisjoint (λ r. not (overlap region r)) (b.items t) d in
      b.items-replace_or_insert region (delete_all b (get_overlaps b t region) t)
        (subst (IsSorted start_of) (sym deleted) (IsDisjoint-IsSorted _ kept))
      ∙ ap (put start_of region) deleted

-- In a tree of disjoint regions, an update with a proper region leaves disjoint regions: that region, and
-- those that do not overlap it. It returns those that do, in the order of their keys.
pub update_lem :
    (b : OrderedTree start_of) (t : b.Tree) (region : RegionInfo)
    → IsDisjoint (b.items t)
    → IsProper region
    → IsDisjoint (b.items (update b t region).0)
      × ((r : RegionInfo)
          → In r (b.items (update b t region).0)
            ↔ ((r ≡ region) ⊎ (In r (b.items t) × (overlap region r ≡ false))))
      × ((update b t region).1 ≡ select (overlap region) (b.items t))
unfolding update
update_lem b t region d proper =
    let items = items-update b t region d in
    let others = apart_from region (b.items t) in
    let kept = select-IsDisjoint (λ r. not (overlap region r)) (b.items t) d in
    let clear = apart_from-All region (b.items t) in
    (
      subst IsDisjoint (sym items) (put-IsDisjoint region proper others kept clear),
      λ r.
          let (there, back) = In-put region proper others r kept clear in
          let (out, in_) = In-select (λ r. not (overlap region r)) (b.items t) r in
          (
            λ i. elim (there (subst (In r) items i)) [
              | inl e ↦ inl e
              | inr j ↦ inr ((out j).0, ground (arith, (out j).1))
            ],
            λ i.
                subst (In r) (sym items)
                  (back (elim i [ inl e ↦ inl e | inr (j, h) ↦ inr (in_ (j, ground arith)) ])),
          ),
      get_overlaps_lem region b t d,
    )
