-- ===== src/Kv/Codec/Order.antt =====
-- Encoded byte strings (kv/util/codec/codec.go) compare as the strings do.
use Prim.Native.Nat.{compare, Ordering}
use mathlib.Core.List.{append_assoc}
use tiny_kv_practice.Prelude.{
  ℕ, zero, suc, ◌-◌, ◌≤◌, ◌<◌, ◌≡◌, refl, sym, ap, ◌∙◌, List, [], ◌∷◌, ◌++◌, arith, replicate,
  dec_lt,
}
use tiny_kv_practice.Keys.{
  and_then, and_then_assoc, compare_bytes, compare_refl, flip, compare_bytes-flip,
}
use tiny_kv_practice.Kv.Codec.{encode_bytes}
use tiny_kv_practice.Kv.Codec.Groups.{spread, encode_bytes_lem}

same_head : (x : ℕ) (xs ys : List ℕ) → compare_bytes (x ∷ xs) (x ∷ ys) ≡ compare_bytes xs ys
unfolding compare_bytes
same_head x xs ys = rw (compare_refl x) refl

same_front : (zs xs ys : List ℕ) → compare_bytes (zs ++ xs) (zs ++ ys) ≡ compare_bytes xs ys
same_front [] xs ys = refl
same_front (z ∷ zs) xs ys = same_head z (zs ++ xs) (zs ++ ys) ∙ same_front zs xs ys

less_head : (x y : ℕ) (xs ys : List ℕ) → x < y → compare_bytes (x ∷ xs) (y ∷ ys) ≡ Ordering.lt
unfolding compare_bytes
less_head x y xs ys h = let less : compare x y ≡ Ordering.lt = ground arith in rw less refl

more_head : (x y : ℕ) (xs ys : List ℕ) → x < y → compare_bytes (y ∷ ys) (x ∷ xs) ≡ Ordering.gt
unfolding compare_bytes
more_head x y xs ys h = let more : compare y x ≡ Ordering.gt = ground arith in rw more refl

-- The padding and the marker of a string that has ended come before a string that goes on.
ended-lt :
    (room k : ℕ) (ys s t : List ℕ)
    → room < k
    → k ≤ 8
    → compare_bytes (replicate room 0 ++ (255 - k) ∷ s) (spread room ys ++ t) ≡ Ordering.lt
unfolding spread
ended-lt zero k [] s t h i = less_head (255 - k) 255 s _ (omega arith)
ended-lt zero k (y ∷ ys) s t h i = less_head (255 - k) 255 s _ (omega arith)
ended-lt (suc room) k [] s t h i =
    let pads : List ℕ = replicate room 0 in
    same_head 0 (pads ++ (255 - k) ∷ s) ((pads ++ (255 - suc room) ∷ []) ++ t)
    ∙ ap (compare_bytes (pads ++ (255 - k) ∷ s)) (append_assoc pads ((255 - suc room) ∷ []) t)
    ∙ same_front pads ((255 - k) ∷ s) ((255 - suc room) ∷ t)
    ∙ less_head (255 - k) (255 - suc room) s t (omega arith)
ended-lt (suc room) k (y ∷ ys) s t h i = elim (dec_lt 0 y) [
  | yes positive ↦ less_head 0 y _ _ positive
  | no zero_byte ↦
      let here : y ≡ 0 = omega arith in
      rw here (same_head 0 _ _ ∙ ended-lt room k ys s t (omega arith) i)
]

-- A string that ends in a group, and one that goes on.
ends-lt :
    (room : ℕ) (y : ℕ) (ys s t : List ℕ)
    → room < 8
    → compare_bytes (spread (suc room) [] ++ s) (spread (suc room) (y ∷ ys) ++ t) ≡ Ordering.lt
unfolding spread
ends-lt room y ys s t h =
    let pads : List ℕ = replicate (suc room) 0 in
    ap (λ xs. compare_bytes xs (y ∷ spread room ys ++ t))
      (append_assoc pads ((255 - suc room) ∷ []) s)
    ∙ elim (dec_lt 0 y)
        as (λ _.
          compare_bytes (pads ++ (255 - suc room) ∷ s) (y ∷ spread room ys ++ t) ≡ Ordering.lt) [
            | yes positive ↦ less_head 0 y _ _ positive
            | no zero_byte ↦
                let here : y ≡ 0 = omega arith in
                rw here
                  (same_head 0 _ _ ∙ ended-lt room (suc room) ys s t (omega arith) (omega arith))
          ]

order_from :
    (room : ℕ) (xs ys s t : List ℕ)
    → room ≤ 8
    → compare_bytes (spread room xs ++ s) (spread room ys ++ t)
      ≡ and_then (compare_bytes xs ys) (compare_bytes s t)
unfolding spread compare_bytes
order_from zero [] [] s t h = refl
order_from zero [] (y ∷ ys) s t h = ends-lt 7 y ys s t (omega arith)
order_from zero (x ∷ xs) [] s t h =
    compare_bytes-flip (spread 8 [] ++ t) (x ∷ spread 7 xs ++ s)
    ∙ ap flip (ends-lt 7 x xs t s (omega arith))
order_from zero (x ∷ xs) (y ∷ ys) s t h =
    ap (and_then (compare x y)) (order_from 7 xs ys s t (omega arith))
    ∙ sym (and_then_assoc (compare x y) _ _)
order_from (suc room) [] [] s t h =
    let pads : List ℕ = replicate (suc room) 0 in
    ap (λ zs. compare_bytes zs ((pads ++ (255 - suc room) ∷ []) ++ t))
      (append_assoc pads ((255 - suc room) ∷ []) s)
    ∙ ap (compare_bytes (pads ++ (255 - suc room) ∷ s))
        (append_assoc pads ((255 - suc room) ∷ []) t)
    ∙ same_front pads ((255 - suc room) ∷ s) ((255 - suc room) ∷ t)
    ∙ same_head (255 - suc room) s t
order_from (suc room) [] (y ∷ ys) s t h = ends-lt room y ys s t h
order_from (suc room) (x ∷ xs) [] s t h =
    compare_bytes-flip (spread (suc room) [] ++ t) (x ∷ spread room xs ++ s)
    ∙ ap flip (ends-lt room x xs t s h)
order_from (suc room) (x ∷ xs) (y ∷ ys) s t h =
    ap (and_then (compare x y)) (order_from room xs ys s t (omega arith))
    ∙ sym (and_then_assoc (compare x y) _ _)

-- Encodings with any bytes behind them compare as the strings do, and if the strings are the same as the
-- bytes behind them do. So the encodings are in the order of the strings.
pub compare_bytes-encode_bytes :
    (xs ys s t : List ℕ)
    → compare_bytes (encode_bytes xs ++ s) (encode_bytes ys ++ t)
      ≡ and_then (compare_bytes xs ys) (compare_bytes s t)
compare_bytes-encode_bytes xs ys s t =
    rw (encode_bytes_lem xs, encode_bytes_lem ys) (order_from 8 xs ys s t (omega arith))
