-- ===== src/Kv/RawApi/Scans.antt =====
-- What RawScan (kv/server/raw_api.go) returns over the storage in memory.
use mathlib.Core.List.{append_assoc}
use tiny_kv_practice.Prelude.{
  ℕ, zero, suc, ◌+◌, ◌-◌, ◌≤◌, ◌<◌, ◌≡◌, ◌≢◌, refl, sym, ap, ◌∙◌, subst, true, false, Option, none,
  some, List, [], ◌∷◌, ◌++◌, map, inl, inr, leb, length, take, All, Bool-cases, Option-cases, arith,
  length-append,
}
use tiny_kv_practice.Keys.{is_below, is_below_irrefl}
use tiny_kv_practice.Keys.Trees.{Key, head?, IsSorted, from, OrderedTree}
use tiny_kv_practice.Kv.MemStorage.{
  Bytes, Cf, MemItem, or_empty, key_of, or_empty_item, second?, MemStorage, tree_of, MemIter,
  new_reader, iter_in, iter_cf, valid, next, seek, close,
}
use tiny_kv_practice.Kv.RawApi.{KvPair, scan_from, scan_opened, raw_scan}
use tiny_kv_practice.Kv.RawApi.Maps.{Sorted, items_of, items-IsSorted}

abbrev pub pair_of : MemItem → KvPair
pair_of item = record { key = item.key; value = item.value }

-- The items that a list of items ends with.
abbrev pub EndsIn : List MemItem → List MemItem → Type 0
EndsIn items l = (front : List MemItem) × (items ≡ front ++ l)

from-ends : (k : Key) (items : List MemItem) → EndsIn items (from key_of k items)
unfolding from
from-ends k [] = ([], refl)
from-ends k (x ∷ items) = elim (Bool-cases (is_below (key_of x) k)) [
  | inl below ↦ let (front, e) = from-ends k items in rw below (x ∷ front, ap (◌∷◌ x) e)
  | inr here ↦ rw here ([], refl)
]

-- From the key of an item on, a sorted list goes on with that item.
from_item :
    (front : List MemItem) (x : MemItem) (l : List MemItem)
    → IsSorted key_of (front ++ x ∷ l)
    → from key_of (key_of x) (front ++ x ∷ l) ≡ x ∷ l
unfolding from
from_item [] x l s = rw (is_below_irrefl (key_of x)) refl
from_item (y ∷ front) x l s = rw (member front s.0) (from_item front x l s.1)
  where
    member :
        (front : List MemItem)
        → All (λ z. is_below (key_of y) (key_of z) ≡ true) (front ++ x ∷ l)
        → is_below (key_of y) (key_of x) ≡ true
    member [] a = a.0
    member (z ∷ front) a = member front a.1

All-end :
    (front l : List MemItem) → All (λ x. x.key ≢ none) (front ++ l) → All (λ x. x.key ≢ none) l
All-end [] l a = a
All-end (y ∷ front) l a = All-end front l a.1

module _ (b : OrderedTree key_of) (t : b.Tree) (sorted : IsSorted key_of (b.items t)) where
  -- The iterator at the first of some items, or at the end.
  abbrev at : List MemItem → MemIter b
  at l = record { tree = t; item = or_empty_item (head? l) }

  next-at :
      (x : MemItem) (l : List MemItem) → EndsIn (b.items t) (x ∷ l) → next b (at (x ∷ l)) ≡ at l
  unfolding next
  next-at x l (front, e) =
      ap (λ m. record { tree = t; item = or_empty_item (second? m) })
        (b.ascend_lem (key_of x) t sorted
          ∙ ap (from key_of (key_of x)) e
          ∙ from_item front x l (subst (IsSorted key_of) e sorted))

  ends_later : (x : MemItem) (l : List MemItem) → EndsIn (b.items t) (x ∷ l) → EndsIn (b.items t) l
  ends_later x l (front, e) = (front ++ x ∷ [], e ∙ sym (append_assoc front (x ∷ []) l))

  valid-at : (x : MemItem) (l : List MemItem) → x.key ≢ none → valid b (at (x ∷ l)) ≡ true
  unfolding valid
  valid-at x l keyed = elim (Option-cases x.key) [
    | inl nil ↦ absurd (keyed nil)
    | inr (k, has_key) ↦ rw has_key refl
  ]

  valid-end : valid b (at []) ≡ false
  unfolding valid
  valid-end = refl

  scan_end :
      (rounds limit taken : ℕ) (it : MemIter b)
      → valid b it ≡ false
      → scan_from b (suc rounds) limit taken it ≡ []
  unfolding scan_from
  scan_end rounds limit taken it h = rw h refl

  scan_full :
      (rounds limit taken : ℕ) (it : MemIter b)
      → valid b it ≡ true
      → leb limit taken ≡ true
      → scan_from b (suc rounds) limit taken it ≡ []
  unfolding scan_from
  scan_full rounds limit taken it h full = rw (h, full) refl

  scan_more :
      (rounds limit taken : ℕ) (it : MemIter b)
      → valid b it ≡ true
      → leb limit taken ≡ false
      → scan_from b (suc rounds) limit taken it
        ≡ pair_of it.item ∷ scan_from b rounds limit (taken + 1) (next b it)
  unfolding scan_from
  scan_more rounds limit taken it h more = rw (h, more) refl

  take_nil : (n : ℕ) → [] ≡ take n (map pair_of [])
  take_nil zero = refl
  take_nil (suc n) = refl

  -- With enough rounds the loop takes the items in order, up to the limit.
  scan_from_lem :
      (rounds limit taken : ℕ) (l : List MemItem)
      → EndsIn (b.items t) l
      → All (λ x. x.key ≢ none) l
      → length l < rounds
      → scan_from b rounds limit taken (at l) ≡ take (limit - taken) (map pair_of l)
  scan_from_lem zero limit taken l ends keyed enough = absurd (omega arith)
  scan_from_lem (suc rounds) limit taken [] ends keyed enough =
      scan_end rounds limit taken (at []) valid-end ∙ take_nil (limit - taken)
  scan_from_lem (suc rounds) limit taken (x ∷ l) ends keyed enough =
      let here = valid-at x l keyed.0 in
      elim (Bool-cases (leb limit taken)) [
        | inl full ↦
            let none_left : limit - taken ≡ 0 = ground (arith, full) in
            scan_full rounds limit taken (at (x ∷ l)) here full
            ∙ sym (ap (λ n. take n (map pair_of (x ∷ l))) none_left)
        | inr more ↦
            let one_more : limit - taken ≡ suc (limit - (taken + 1)) = ground (arith, more) in
            scan_more rounds limit taken (at (x ∷ l)) here more
            ∙ ap (λ it. pair_of x ∷ scan_from b rounds limit (taken + 1) it) (next-at x l ends)
            ∙ ap (◌∷◌ (pair_of x)) (
                scan_from_lem rounds limit (taken + 1) l (ends_later x l ends) keyed.1
                  (omega arith))
            ∙ sym (ap (λ n. take n (map pair_of (x ∷ l))) one_more)
      ]

  seek-at :
      (start : Option Bytes) (it : MemIter b)
      → it.tree ≡ t
      → seek b it start ≡ at (from key_of (or_empty start) (b.items t))
  unfolding seek
  seek-at start it e =
      ap (λ u. record { tree = u; item = or_empty_item (head? (b.ascend (or_empty start) u)) }) e
      ∙ ap (λ l. record { tree = t; item = or_empty_item (head? l) })
          (b.ascend_lem (or_empty start) t sorted)

  -- The whole loop, from a sought key.
  scan_lem :
      (start : Option Bytes) (limit : ℕ) (it : MemIter b)
      → it.tree ≡ t
      → All (λ x. x.key ≢ none) (b.items t)
      → scan_from b (b.len t + 1) limit 0 (seek b it start)
        ≡ take limit (map pair_of (from key_of (or_empty start) (b.items t)))
  scan_lem start limit it e keyed =
      let ends = from-ends (or_empty start) (b.items t) in
      let shorter : length (from key_of (or_empty start) (b.items t)) ≤ length (b.items t) = omega (
        arith,
        ap length ends.1,
        length-append ends.0 (from key_of (or_empty start) (b.items t)),
      ) in
      ap (scan_from b (b.len t + 1) limit 0) (seek-at start it e)
      ∙ scan_from_lem (b.len t + 1) limit 0 (from key_of (or_empty start) (b.items t)) ends
          (All-end ends.0 _ (subst (All (λ x. x.key ≢ none)) ends.1 keyed))
          (omega (arith, b.len_lem t, shorter))
      ∙ ap (λ n. take n (map pair_of (from key_of (or_empty start) (b.items t)))) (omega arith)

-- RawScan of a column family that exists and has no item of a nil key, over trees in order, does not
-- panic. It returns the pairs from the start key on, in the order of their keys, and as many as the
-- limit allows.
pub raw_scan_lem :
    (b : OrderedTree key_of) (s : MemStorage b) (cf : Cf) (start : Option Bytes) (limit : ℕ)
    {t : b.Tree}
    → Sorted b s
    → tree_of b cf s ≡ some t
    → All (λ x. x.key ≢ none) (b.items t)
    → raw_scan b s cf start limit
      ≡ some (take limit (map pair_of (from key_of (or_empty start) (b.items t))))
unfolding raw_scan iter_cf close
raw_scan_lem b s cf start limit {t} h e keyed =
    let sorted : IsSorted key_of (b.items t) =
      subst (λ o. IsSorted key_of (items_of b o)) e (items-IsSorted b s cf h) in
    ap (λ o. scan_opened b start limit (iter_in b (new_reader b s) o)) e
    ∙ ap some (scan_lem b t sorted start limit _ refl keyed)
