-- ===== src/Keys.antt =====
-- Byte strings in their order, which keys of the store and of regions have (bytes.Compare). Trees is
-- the interface of the ordered trees that hold items by such keys.
pub mod Trees
pub mod Sorted
use Prim.Native.Nat.{compare, Ordering}
use tiny_kv_practice.Prelude.{
  ℕ, ◌<◌, ◌≡◌, refl, sym, ap, Bool, true, false, not, List, [], ◌∷◌, arith,
}

-- The second result, if the first is that there is no difference.
abbrev pub and_then : Ordering → Ordering → Ordering
and_then Ordering.lt o = Ordering.lt
and_then Ordering.eq o = o
and_then Ordering.gt o = Ordering.gt

-- `bytes.Compare` of the Go library: the order of the first difference, and a prefix comes first.
unfoldable pub compare_bytes : List ℕ → List ℕ → Ordering
compare_bytes [] [] = Ordering.eq
compare_bytes [] (y ∷ ys) = Ordering.lt
compare_bytes (x ∷ xs) [] = Ordering.gt
compare_bytes (x ∷ xs) (y ∷ ys) = and_then (compare x y) (compare_bytes xs ys)

-- bytes.Compare(a, b) < 0 and bytes.Compare(a, b) <= 0
abbrev pub is_below : List ℕ → List ℕ → Bool
is_below a b = elim (compare_bytes a b) [ Ordering.lt ↦ true | _ ↦ false ]

abbrev pub is_at_most : List ℕ → List ℕ → Bool
is_at_most a b = elim (compare_bytes a b) [ Ordering.gt ↦ false | _ ↦ true ]

pub compare_refl : (x : ℕ) → compare x x ≡ Ordering.eq
compare_refl x = ground arith

abbrev pub flip : Ordering → Ordering
flip Ordering.lt = Ordering.gt
flip Ordering.eq = Ordering.eq
flip Ordering.gt = Ordering.lt

compare-flip : (x y : ℕ) → compare y x ≡ flip (compare x y)
compare-flip x y = ground arith

flip-and_then : (o p : Ordering) → flip (and_then o p) ≡ and_then (flip o) (flip p)
flip-and_then Ordering.lt p = refl
flip-and_then Ordering.eq p = refl
flip-and_then Ordering.gt p = refl

pub compare_bytes-flip : (xs ys : List ℕ) → compare_bytes ys xs ≡ flip (compare_bytes xs ys)
unfolding compare_bytes
compare_bytes-flip [] [] = refl
compare_bytes-flip [] (y ∷ ys) = refl
compare_bytes-flip (x ∷ xs) [] = refl
compare_bytes-flip (x ∷ xs) (y ∷ ys) =
    rw (compare-flip x y, compare_bytes-flip xs ys)
      (sym (flip-and_then (compare x y) (compare_bytes xs ys)))

pub and_then_assoc : (o p q : Ordering) → and_then (and_then o p) q ≡ and_then o (and_then p q)
and_then_assoc Ordering.lt p q = refl
and_then_assoc Ordering.eq p q = refl
and_then_assoc Ordering.gt p q = refl

pub compare_bytes_refl : (a : List ℕ) → compare_bytes a a ≡ Ordering.eq
unfolding compare_bytes
compare_bytes_refl [] = refl
compare_bytes_refl (x ∷ a) = rw (compare_refl x) (compare_bytes_refl a)

eq_of_compare_bytes : (a b : List ℕ) → compare_bytes a b ≡ Ordering.eq → a ≡ b
unfolding compare_bytes
eq_of_compare_bytes [] [] h = refl
eq_of_compare_bytes [] (y ∷ b) h = cc
eq_of_compare_bytes (x ∷ a) [] h = cc
eq_of_compare_bytes (x ∷ a) (y ∷ b) h = ground (arith, eq_of_compare_bytes a b)

lt_trans :
    (a b c : List ℕ)
    → compare_bytes a b ≡ Ordering.lt
    → compare_bytes b c ≡ Ordering.lt
    → compare_bytes a c ≡ Ordering.lt
unfolding compare_bytes
lt_trans [] [] c h k = cc
lt_trans [] (y ∷ b) [] h k = cc
lt_trans [] (y ∷ b) (z ∷ c) h k = refl
lt_trans (x ∷ a) [] c h k = cc
lt_trans (x ∷ a) (y ∷ b) [] h k = cc
lt_trans (x ∷ a) (y ∷ b) (z ∷ c) h k = ground (arith, lt_trans a b c)

-- No string is below itself or below the empty one.
pub is_below_irrefl : (a : List ℕ) → is_below a a ≡ false
is_below_irrefl a = ground (arith, compare_bytes_refl a)

pub is_below-nil : (a : List ℕ) → is_below a [] ≡ false
unfolding compare_bytes
is_below-nil [] = refl
is_below-nil (x ∷ a) = refl

pub is_below_trans :
    (a b c : List ℕ) → is_below a b ≡ true → is_below b c ≡ true → is_below a c ≡ true
is_below_trans a b c h k = ground (arith, lt_trans a b c)

pub is_below_antisymm : (a b : List ℕ) → is_below a b ≡ false → is_below b a ≡ false → a ≡ b
is_below_antisymm a b h k = ground (arith, eq_of_compare_bytes a b, compare_bytes-flip a b)

pub is_below_asymm : (a b : List ℕ) → is_below a b ≡ true → is_below b a ≡ false
is_below_asymm a b h = ground (arith, compare_bytes-flip a b)

-- a ≤ b < c, and a < b ≤ c
pub is_below_of_le_lt :
    (a b c : List ℕ) → is_below b a ≡ false → is_below b c ≡ true → is_below a c ≡ true
is_below_of_le_lt a b c h k =
    ground (arith, lt_trans a b c, compare_bytes-flip a b, eq_of_compare_bytes a b)

pub is_below_of_lt_le :
    (a b c : List ℕ) → is_below a b ≡ true → is_below c b ≡ false → is_below a c ≡ true
is_below_of_lt_le a b c h k =
    ground (arith, lt_trans a b c, compare_bytes-flip b c, eq_of_compare_bytes b c)

pub is_at_most_lem : (a b : List ℕ) → is_at_most a b ≡ not (is_below b a)
is_at_most_lem a b = ground (arith, compare_bytes-flip a b)
