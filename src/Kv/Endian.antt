-- ===== src/Kv/Endian.antt =====
-- Numbers as bytes, the most significant first: `binary.BigEndian` of the Go library.
use Prim.Native.Nat.{compare, Ordering}
use tiny_kv_practice.Prelude.{
  ℕ, zero, suc, ◌+◌, ◌*◌, ◌/◌, ◌%◌, ◌<◌, ◌≡◌, refl, sym, ap, ◌∙◌, List, [], ◌∷◌, ◌++◌, arith,
  length, length-append,
}
use tiny_kv_practice.Keys.{and_then, and_then_assoc, compare_bytes}

-- The `n` bytes of a number.
unfoldable pub be_bytes : ℕ → ℕ → List ℕ
be_bytes zero v = []
be_bytes (suc n) v = be_bytes n (v / 256) ++ v % 256 ∷ []

-- The number that bytes are, behind those that make `acc`.
unfoldable pub be_number : ℕ → List ℕ → ℕ
be_number acc [] = acc
be_number acc (b ∷ bs) = be_number (acc * 256 + b) bs

-- 256 to the power of `n`
abbrev pub limit : ℕ → ℕ
limit zero = 1
limit (suc n) = 256 * limit n

pub length-be_bytes : (n v : ℕ) → length (be_bytes n v) ≡ n
unfolding be_bytes
length-be_bytes zero v = refl
length-be_bytes (suc n) v =
    omega (arith, length-append (be_bytes n (v / 256)) (v % 256 ∷ []), length-be_bytes n (v / 256))

be_number-append :
    (acc : ℕ) (bs : List ℕ) (b : ℕ) → be_number acc (bs ++ b ∷ []) ≡ be_number acc bs * 256 + b
unfolding be_number
be_number-append acc [] b = refl
be_number-append acc (x ∷ bs) b = be_number-append (acc * 256 + x) bs b

pub be_number-be_bytes : (n v : ℕ) → v < limit n → be_number 0 (be_bytes n v) ≡ v
unfolding be_bytes be_number
be_number-be_bytes zero v h = omega arith
be_number-be_bytes (suc n) v h =
    be_number-append 0 (be_bytes n (v / 256)) (v % 256)
    ∙ omega (arith, be_number-be_bytes n (v / 256) (omega arith))

and_then_eq : (o : Ordering) → and_then o Ordering.eq ≡ o
and_then_eq Ordering.lt = refl
and_then_eq Ordering.eq = refl
and_then_eq Ordering.gt = refl

compare_bytes-append :
    (xs ys : List ℕ) (x y : ℕ)
    → length xs ≡ length ys
    → compare_bytes (xs ++ x ∷ []) (ys ++ y ∷ []) ≡ and_then (compare_bytes xs ys) (compare x y)
unfolding compare_bytes
compare_bytes-append [] [] x y h = and_then_eq (compare x y)
compare_bytes-append [] (z ∷ ys) x y h = absurd (omega arith)
compare_bytes-append (z ∷ xs) [] x y h = absurd (omega arith)
compare_bytes-append (z ∷ xs) (w ∷ ys) x y h =
    ap (and_then (compare z w)) (compare_bytes-append xs ys x y (omega arith))
    ∙ sym (and_then_assoc (compare z w) _ _)

digits :
    (v w : ℕ) → and_then (compare (v / 256) (w / 256)) (compare (v % 256) (w % 256)) ≡ compare v w
digits v w = ground arith

-- Bytes of the same number compare as the numbers do.
pub compare_bytes-be_bytes :
    (n v w : ℕ)
    → v < limit n
    → w < limit n
    → compare_bytes (be_bytes n v) (be_bytes n w) ≡ compare v w
unfolding be_bytes compare_bytes
compare_bytes-be_bytes zero v w h k = ground arith
compare_bytes-be_bytes (suc n) v w h k =
    compare_bytes-append (be_bytes n (v / 256)) (be_bytes n (w / 256)) (v % 256) (w % 256)
      (length-be_bytes n (v / 256) ∙ sym (length-be_bytes n (w / 256)))
    ∙ rw (compare_bytes-be_bytes n (v / 256) (w / 256) (omega arith) (omega arith)) (digits v w)
