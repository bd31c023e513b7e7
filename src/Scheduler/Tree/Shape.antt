-- ===== src/Scheduler/Tree/Shape.antt =====
-- The order of the regions in the tree (scheduler/server/core/region_tree.go), and what `find` finds.
use mathlib.Core.List.{reverse, reverse-cons}
use tiny_kv_practice.Prelude.{
  ◌≡◌, ◌↔◌, inl, inr, refl, sym, ap, ◌∙◌, true, false, ◌||◌, Option, none, some, List, [], ◌∷◌,
  ◌++◌, ◌==◌, if◌then◌else◌, length, All, All-map, arith, Bool-cases, if-cases,
}
pub use tiny_kv_practice.Prelude.Lists.{In, All-In}
use tiny_kv_practice.Keys.{is_below, is_at_most_lem, is_below_trans, is_below_of_lt_le}
use tiny_kv_practice.Keys.Trees.{Key, head?, upto, IsSorted, OrderedTree}
use tiny_kv_practice.Scheduler.Regions.{RegionInfo, start_of, end_of}
use tiny_kv_practice.Scheduler.Tree.{contains, ends_before, holding, find, search}

-- A region that has no end or one behind its start.
abbrev pub IsProper : RegionInfo → Type 0
IsProper r = (length (end_of r) == 0 || is_below (start_of r) (end_of r)) ≡ true

-- Each region ends before the next ones.
abbrev pub IsDisjoint : List RegionInfo → Type 0
IsDisjoint [] = Unit
IsDisjoint (r ∷ l) = IsProper r × All (λ s. ends_before r s ≡ true) l × IsDisjoint l

pub ends_before-lt :
    (r s : RegionInfo)
    → IsProper r
    → ends_before r s ≡ true
    → is_below (start_of r) (start_of s) ≡ true
ends_before-lt r s p e = ground (
  arith,
  is_at_most_lem (end_of r) (start_of s),
  is_below_of_lt_le (start_of r) (end_of r) (start_of s),
)

pub IsDisjoint-IsSorted : (l : List RegionInfo) → IsDisjoint l → IsSorted start_of l
IsDisjoint-IsSorted [] d = tt
IsDisjoint-IsSorted (r ∷ l) (proper, before, rest) =
    (All-map l (λ s. ends_before-lt r s proper) before, IsDisjoint-IsSorted l rest)

-- The first region that contains a key.
abbrev pub first_containing : Key → List RegionInfo → Option RegionInfo
first_containing key [] = none
first_containing key (r ∷ l) = if contains r key then some r else first_containing key l

abbrev last? : List RegionInfo → Option RegionInfo
last? [] = none
last? (r ∷ []) = some r
last? (r ∷ s ∷ l) = last? (s ∷ l)

head?-append :
    (l : List RegionInfo) (m : List RegionInfo) (r s : RegionInfo)
    → head? ((l ++ r ∷ []) ++ m) ≡ head? (l ++ r ∷ [])
head?-append [] m r s = refl
head?-append (x ∷ l) m r s = refl

head?-reverse : (l : List RegionInfo) → head? (reverse l) ≡ last? l
head?-reverse [] = refl
head?-reverse (r ∷ []) = refl
head?-reverse (r ∷ s ∷ l) =
    ap head? (reverse-cons r (s ∷ l))
    ∙ ap (λ m. head? (m ++ r ∷ [])) (reverse-cons s l)
    ∙ head?-append (reverse l) (r ∷ []) s r
    ∙ ap head? (sym (reverse-cons s l))
    ∙ head?-reverse (s ∷ l)

pub not_contained :
    (r : RegionInfo) (key : Key) → is_below key (start_of r) ≡ true → contains r key ≡ false
unfolding contains
not_contained r key below = rw below refl

-- A region does not contain the start of a later one, nor what is behind that.
pub ends_before-contains :
    (r s : RegionInfo) (key : Key)
    → ends_before r s ≡ true
    → is_below key (start_of s) ≡ false
    → contains r key ≡ false
unfolding contains
ends_before-contains r s key e behind =
    ground
      (arith, is_at_most_lem (end_of r) (start_of s), is_below_of_lt_le key (end_of r) (start_of s))

pub first_containing-later :
    (key : Key) (l : List RegionInfo)
    → All (λ s. is_below key (start_of s) ≡ true) l
    → first_containing key l ≡ none
first_containing-later key [] a = refl
first_containing-later key (r ∷ l) a =
    rw (not_contained r key a.0) (first_containing-later key l a.1)

pub later_starts :
    (key : Key) (r : RegionInfo) (l : List RegionInfo)
    → is_below key (start_of r) ≡ true
    → IsDisjoint (r ∷ l)
    → All (λ s. is_below key (start_of s) ≡ true) l
later_starts key r l below d =
    All-map l (λ s. is_below_trans key (start_of r) (start_of s) below)
      (IsDisjoint-IsSorted (r ∷ l) d).0

-- The last region that starts at a key or before it is the only one that can contain it.
holding_last :
    (key : Key) (l : List RegionInfo)
    → IsDisjoint l
    → holding (last? (upto start_of key l)) key ≡ first_containing key l
unfolding upto
holding_last key [] d = refl
holding_last key (r ∷ []) d = elim (Bool-cases (is_below key (start_of r))) [
  | inl below ↦ rw (below, not_contained r key below) refl
  | inr behind ↦ rw behind refl
]
holding_last key (r ∷ s ∷ l) d = elim (Bool-cases (is_below key (start_of r))) [
  | inl below ↦
      rw (below, not_contained r key below)
        (sym (first_containing-later key (s ∷ l) (later_starts key r (s ∷ l) below d)))
  | inr behind ↦
      let ih = holding_last key (s ∷ l) d.2 in
      elim (Bool-cases (is_below key (start_of s))) [
        | inl below ↦
            rw
              (
                behind,
                below,
                first_containing-later key (s ∷ l) (below, later_starts key s l below d.2),
              )
              refl
        | inr behind_next ↦
            rw (behind, behind_next, ends_before-contains r s key d.1.0 behind_next)
              (rw behind_next at ih)
      ]
]

module _ (b : OrderedTree start_of) (t : b.Tree) (d : IsDisjoint (b.items t)) where
  pub find_lem : (key : Key) → find b t key ≡ first_containing key (b.items t)
  unfolding find
  find_lem key =
      ap (λ l. holding (head? l) key) (b.descend_lem key t (IsDisjoint-IsSorted (b.items t) d))
      ∙ ap (λ o. holding o key) (head?-reverse (upto start_of key (b.items t)))
      ∙ holding_last key (b.items t) d

pub first_containing-some :
    (key : Key) (l : List RegionInfo) {r : RegionInfo}
    → first_containing key l ≡ some r
    → In r l × (contains r key ≡ true)
first_containing-some key [] h = cc
first_containing-some key (s ∷ l) h = elim (if-cases (contains s key) h) [
  | inl (here, e) ↦ (inl (cc), cc)
  | inr (other, rest) ↦ let (i, c) = first_containing-some key l rest in (inr i, c)
]

-- Of disjoint regions only one contains a key.
pub first_containing-In :
    (key : Key) (l : List RegionInfo) {r : RegionInfo}
    → IsDisjoint l
    → In r l
    → contains r key ≡ true
    → first_containing key l ≡ some r
first_containing-In key [] d i c = absurd i
first_containing-In key (s ∷ l) d (inl e) c = rw (← e, c) refl
first_containing-In key (s ∷ l) {r} d (inr i) c =
    let after = All-In (λ r. ends_before s r ≡ true) l d.1 i in
    let behind = Bool-cases (is_below key (start_of r)) in
    elim behind [
      | inl below ↦ cc (not_contained r key below)
      | inr at ↦ rw (ends_before-contains s r key after at) (first_containing-In key l d.2 i c)
    ]

-- In a tree of disjoint regions, the search by a key finds a region exactly if it is in the tree and
-- contains the key.
pub search_iff :
    (b : OrderedTree start_of) (t : b.Tree) (key : Key) (r : RegionInfo)
    → IsDisjoint (b.items t)
    → (search b t key ≡ some r) ↔ (In r (b.items t) × (contains r key ≡ true))
unfolding search
search_iff b t key r d = (
  λ h. first_containing-some key (b.items t) (sym (find_lem b t d key) ∙ h),
  λ (i, c). find_lem b t d key ∙ first_containing-In key (b.items t) d i c,
)
