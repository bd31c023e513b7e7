-- ===== src/Kv/Codec/Groups.antt =====
-- The encoding of kv/util/codec/codec.go byte by byte.
use mathlib.Core.List.{append-nil}
use tiny_kv_practice.Prelude.{
  ℕ, zero, suc, ◌+◌, ◌-◌, ◌/◌, ◌≤◌, ◌<◌, ◌≡◌, refl, sym, ap, ◌∙◌, false, List, [], ◌∷◌, ◌++◌, arith,
  length, take, drop, replicate, leb, length-drop, le→leb,
}
use tiny_kv_practice.Kv.Codec.{encode_groups, encode_bytes}

-- The encoding from inside a group in which `room` bytes are left.
unfoldable pub spread : ℕ → List ℕ → List ℕ
spread zero [] = 255 ∷ replicate 8 0 ++ 247 ∷ []
spread zero (x ∷ xs) = 255 ∷ x ∷ spread 7 xs
spread (suc room) [] = replicate (suc room) 0 ++ (255 - suc room) ∷ []
spread (suc room) (x ∷ xs) = x ∷ spread room xs

spread-zero : (xs : List ℕ) → spread zero xs ≡ 255 ∷ spread 8 xs
unfolding spread
spread-zero [] = refl
spread-zero (x ∷ xs) = refl

pub spread_full :
    (room : ℕ) (xs : List ℕ)
    → room ≤ length xs
    → spread room xs ≡ take room xs ++ 255 ∷ spread 8 (drop room xs)
unfolding spread
spread_full zero xs h = spread-zero xs
spread_full (suc room) [] h = absurd (omega arith)
spread_full (suc room) (x ∷ xs) h = ap (◌∷◌ x) (spread_full room xs (omega arith))

pub spread_short :
    (room : ℕ) (xs : List ℕ)
    → length xs < room
    → spread room xs
      ≡ take room xs ++ replicate (room - length xs) 0 ++ (255 - (room - length xs)) ∷ []
unfolding spread
spread_short zero xs h = absurd (omega arith)
spread_short (suc room) [] h = let all : suc room - 0 ≡ suc room = omega arith in rw all refl
spread_short (suc room) (x ∷ xs) h =
    let same : suc room - suc (length xs) ≡ room - length xs = omega arith in
    rw same (ap (◌∷◌ x) (spread_short room xs (omega arith)))

full_group :
    (rounds : ℕ) (xs : List ℕ)
    → 8 ≤ length xs
    → encode_groups (suc rounds) xs ≡ take 8 xs ++ 255 ∷ encode_groups rounds (drop 8 xs)
unfolding encode_groups
full_group rounds xs h =
    rw (le→leb 8 (length xs) h)
      (ap (λ ys. ys ++ 255 ∷ encode_groups rounds (drop 8 xs)) (append-nil (take 8 xs)))

pub nothing : (xs : List ℕ) → encode_groups zero xs ≡ []
unfolding encode_groups
nothing xs = refl

last_group :
    (rounds : ℕ) (xs : List ℕ)
    → length xs < 8
    → encode_groups (suc rounds) xs
      ≡ take 8 xs
        ++ replicate (8 - length xs) 0
        ++ (255 - (8 - length xs)) ∷ encode_groups rounds (drop 8 xs)
unfolding encode_groups
last_group rounds xs h = let short : leb 8 (length xs) ≡ false = ground arith in rw short refl

encode_groups_lem :
    (rounds : ℕ) (xs : List ℕ)
    → rounds ≡ length xs / 8
    → encode_groups (suc rounds) xs ≡ spread 8 xs
encode_groups_lem zero xs h =
    last_group zero xs (omega arith)
    ∙ ap (λ ys. take 8 xs ++ replicate (8 - length xs) 0 ++ (255 - (8 - length xs)) ∷ ys)
        (nothing (drop 8 xs))
    ∙ sym (spread_short 8 xs (omega arith))
encode_groups_lem (suc rounds) xs h =
    full_group (suc rounds) xs (omega arith)
    ∙ ap (λ ys. take 8 xs ++ 255 ∷ ys)
        (encode_groups_lem rounds (drop 8 xs) (omega (arith, length-drop 8 xs)))
    ∙ sym (spread_full 8 xs (omega arith))

-- The loop of `EncodeBytes` computes the encoding.
pub encode_bytes_lem : (xs : List ℕ) → encode_bytes xs ≡ spread 8 xs
unfolding encode_bytes
encode_bytes_lem xs =
    let count : length xs / 8 + 1 ≡ suc (length xs / 8) = omega arith in
    rw count (encode_groups_lem (length xs / 8) xs refl)
