-- ===== src/Scheduler/Tree/Removals.antt =====
-- What `remove` of scheduler/server/core/region_tree.go does to the regions in the tree.
use tiny_kv_practice.Prelude.{
  ◌≡◌, ◌↔◌, inl, inr, refl, sym, ap, subst, ◌∙◌, Bool, true, false, ◌&&◌, ◌||◌, some, List, [], ◌∷◌,
  ◌==◌, length, All, All-map, select, arith, Bool-cases, Option-cases,
}
use mathlib.Core.Option.{some-injective}
use tiny_kv_practice.Keys.{is_below, is_below_irrefl, is_below_antisymm, is_below_of_le_lt}
use tiny_kv_practice.Keys.Trees.{Key, cut, IsSorted, OrderedTree}
use tiny_kv_practice.Scheduler.Regions.{RegionInfo, get_id, start_of}
use tiny_kv_practice.Scheduler.Tree.{contains, find, remove}
use tiny_kv_practice.Scheduler.Tree.Shape.{
  IsProper, IsDisjoint, In, IsDisjoint-IsSorted, find_lem, first_containing-In,
  first_containing-some,
}
use tiny_kv_practice.Scheduler.Tree.Updates.{In-select, select-IsDisjoint}

pub IsDisjoint-IsProper :
    (l : List RegionInfo) (r : RegionInfo) → IsDisjoint l → In r l → IsProper r
IsDisjoint-IsProper [] r d i = absurd i
IsDisjoint-IsProper (x ∷ l) r d (inl e) = rw e d.0
IsDisjoint-IsProper (x ∷ l) r d (inr i) = IsDisjoint-IsProper l r d.2 i

pub contains_start : (r : RegionInfo) → IsProper r → contains r (start_of r) ≡ true
unfolding contains
contains_start r p = rw (is_below_irrefl (start_of r)) p

-- Two of disjoint regions that contain one key are the same.
pub contains_unique :
    (l : List RegionInfo) (r s : RegionInfo) (key : Key)
    → IsDisjoint l
    → In r l
    → In s l
    → contains r key ≡ true
    → contains s key ≡ true
    → r ≡ s
contains_unique l r s key d i j c e =
    some-injective _ _ (sym (first_containing-In key l d i c) ∙ first_containing-In key l d j e)

-- Whether a region starts elsewhere.
abbrev elsewhere : Key → RegionInfo → Bool
elsewhere k r = is_below (start_of r) k || is_below k (start_of r)

select-all :
    (p : RegionInfo → Bool) (l : List RegionInfo) → All (λ r. p r ≡ true) l → select p l ≡ l
select-all p [] a = refl
select-all p (x ∷ l) a = rw a.0 (ap (◌∷◌ x) (select-all p l a.1))

cut-select :
    (k : Key) (l : List RegionInfo)
    → IsSorted start_of l
    → cut start_of k l ≡ select (elsewhere k) l
unfolding cut
cut-select k [] s = refl
cut-select k (x ∷ l) s = elim (Bool-cases (is_below (start_of x) k)) [
  | inl below ↦ rw below (ap (◌∷◌ x) (cut-select k l s.1))
  | inr other ↦
      let later : All (λ y. elsewhere k y ≡ true) l =
        All-map l (λ y lt. ground (arith, is_below_of_le_lt k (start_of x) (start_of y), lt, other))
          s.0 in
      elim (Bool-cases (is_below k (start_of x))) [
        | inl above ↦ rw (other, above) (ap (◌∷◌ x) (sym (select-all (elsewhere k) l later)))
        | inr same ↦ rw (other, same) (sym (select-all (elsewhere k) l later))
      ]
]

-- Whether a removal takes a region: it has the id, and contains the start.
abbrev pub is_taken : RegionInfo → RegionInfo → Bool
is_taken region r = contains r (start_of region) && get_id r == get_id region

module _ (l : List RegionInfo) (d : IsDisjoint l) (region : RegionInfo) where
  -- None is taken.
  untaken :
      ((r : RegionInfo) → In r l → is_taken region r ≡ false)
      → (r : RegionInfo) → In r l ↔ (In r l × (is_taken region r ≡ false))
  untaken none_taken r = (λ i. (i, none_taken r i), λ (i, _). i)

  -- The one that contains the start is taken.
  taken_elsewhere :
      (s : RegionInfo)
      → In s l
      → contains s (start_of region) ≡ true
      → get_id s ≡ get_id region
      → (r : RegionInfo)
      → In r (cut start_of (start_of s) l) ↔ (In r l × (is_taken region r ≡ false))
  taken_elsewhere s i c e r =
      let (out, in_) = In-select (elsewhere (start_of s)) l r in
      let cut_eq = cut-select (start_of s) l (IsDisjoint-IsSorted l d) in
      (
        λ j.
            let (k, other) = out (subst (In r) cut_eq j) in
            (
              k,
              elim (Bool-cases (contains r (start_of region))) [
                | inl at ↦
                    let same = contains_unique l r s (start_of region) d k i at c in
                    absurd (
                      here_and_elsewhere s
                        (subst (λ x. elsewhere (start_of s) x ≡ true) same other))
                | inr off ↦ rw off refl
              ],
            ),
        λ (k, free). subst (In r) (sym cut_eq) (
            in_ (
              k,
              elim (Bool-cases (elsewhere (start_of s) r)) [
                | inl off ↦ off
                | inr at ↦
                    let starts : start_of r ≡ start_of s =
                      ground (arith, is_below_antisymm (start_of r) (start_of s), at) in
                    let same =
                      contains_unique l r s (start_of r) d k i
                        (contains_start r (IsDisjoint-IsProper l r d k))
                        (subst (λ key. contains s key ≡ true) (sym starts)
                          (contains_start s (IsDisjoint-IsProper l s d i))) in
                    cc (subst (λ x. is_taken region x ≡ false) same free, taken_self s c e)
              ],
            )),
      )
    where
      here_and_elsewhere : (s : RegionInfo) → elsewhere (start_of s) s ≡ true → ⊥
      here_and_elsewhere s h = ground (arith, h, is_below_irrefl (start_of s))

      taken_self :
          (s : RegionInfo)
          → contains s (start_of region) ≡ true
          → get_id s ≡ get_id region
          → is_taken region s ≡ true
      taken_self s c e = ground (arith, c, e)

empty-In : (l : List RegionInfo) (r : RegionInfo) → (length l == 0) ≡ true → In r l → ⊥
empty-In [] r h i = i
empty-In (x ∷ l) r h i = absurd (ground (arith, h))

taken-contains :
    (region r : RegionInfo) → is_taken region r ≡ true → contains r (start_of region) ≡ true
taken-contains region r h = ground arith

module _ (b : OrderedTree start_of) (t : b.Tree) (region : RegionInfo)
    (d : IsDisjoint (b.items t)) where
  -- A removal that takes no region changes nothing.
  pub remove_untaken :
      ((r : RegionInfo) → In r (b.items t) → is_taken region r ≡ false) → remove b t region ≡ t
  unfolding remove
  remove_untaken none_taken = elim (Bool-cases (b.len t == 0)) [
    | inl empty ↦ rw empty refl
    | inr some_region ↦ elim (Option-cases (find b t (start_of region))) [
      | inl missing ↦ rw (some_region, missing) refl
      | inr (s, found) ↦
          let (i, c) =
            first_containing-some (start_of region) (b.items t)
              (sym (find_lem b t d (start_of region)) ∙ found) in
          let other : (get_id s == get_id region) ≡ false = ground (arith, none_taken s i, c) in
          rw (some_region, found, other) refl
    ]
  ]

  remove_found :
      (s : RegionInfo)
      → (b.len t == 0) ≡ false
      → find b t (start_of region) ≡ some s
      → (get_id s == get_id region) ≡ true
      → b.items (remove b t region) ≡ cut start_of (start_of s) (b.items t)
  unfolding remove
  remove_found s some_region found same =
      rw (some_region, found, same)
        (b.items-delete (start_of s) t (IsDisjoint-IsSorted (b.items t) d))

  abbrev Removed : Type 0
  Removed =
      IsDisjoint (b.items (remove b t region))
      × ((r : RegionInfo)
          → In r (b.items (remove b t region)) ↔ (In r (b.items t) × (is_taken region r ≡ false)))

  unchanged : ((r : RegionInfo) → In r (b.items t) → is_taken region r ≡ false) → Removed
  unchanged none_taken = rw (remove_untaken none_taken) (d, untaken (b.items t) d region none_taken)

  taken_first :
      (r : RegionInfo)
      → In r (b.items t)
      → is_taken region r ≡ true
      → find b t (start_of region) ≡ some r
  taken_first r i h =
      find_lem b t d (start_of region)
      ∙ first_containing-In (start_of region) (b.items t) d i (taken-contains region r h)

  -- A removal takes the region that contains the start, if it has the id, and keeps the others apart.
  pub remove_lem : Removed
  remove_lem = elim (Bool-cases (b.len t == 0)) [
    | inl empty ↦ unchanged (λ r i.
        absurd (empty-In (b.items t) r (subst (λ n. (n == 0) ≡ true) (b.len_lem t) empty) i))
    | inr some_region ↦ elim (Option-cases (find b t (start_of region))) [
      | inl missing ↦ unchanged (λ r i. elim (Bool-cases (is_taken region r)) [
        | inl taken ↦ cc (taken_first r i taken, missing)
        | inr free ↦ free
      ])
      | inr (s, found) ↦
          let (i, c) =
            first_containing-some (start_of region) (b.items t)
              (sym (find_lem b t d (start_of region)) ∙ found) in
          elim (Bool-cases (get_id s == get_id region)) [
            | inl same ↦
                let items_eq = remove_found s some_region found same in
                (
                  subst IsDisjoint
                      (sym (
                        items_eq
                        ∙ cut-select (start_of s) (b.items t) (IsDisjoint-IsSorted (b.items t) d)))
                      (select-IsDisjoint (elsewhere (start_of s)) (b.items t) d),
                  subst
                      (λ l.
                        (r : RegionInfo)
                        → In r l ↔ (In r (b.items t) × (is_taken region r ≡ false)))
                      (sym items_eq)
                      (taken_elsewhere (b.items t) d region s i c (ground (arith, same))),
                )
            | inr other ↦ unchanged (λ r j. elim (Bool-cases (is_taken region r)) [
              | inl taken ↦
                  let first : r ≡ s = some-injective _ _ (sym (taken_first r j taken) ∙ found) in
                  absurd (wrong_id r s taken first other)
              | inr free ↦ free
            ])
          ]
    ]
  ]
    where
      wrong_id :
          (r s : RegionInfo)
          → is_taken region r ≡ true
          → r ≡ s
          → (get_id s == get_id region) ≡ false
          → ⊥
      wrong_id r s taken same other =
          let at : is_taken region s ≡ true = subst (λ x. is_taken region x ≡ true) same taken in
          ground (arith, at, other)
