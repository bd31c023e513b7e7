-- ===== src/Kv/Codec/RoundTrip.antt =====
-- Decoding what was encoded (kv/util/codec/codec.go).
use mathlib.Core.List.{append_assoc}
use tiny_kv_practice.Prelude.{
  ℕ, zero, suc, ◌+◌, ◌-◌, ◌*◌, ◌/◌, ◌≤◌, ◌<◌, ◌≡◌, refl, ap, ◌∙◌, true, List, [], ◌∷◌, ◌++◌, arith,
  length, take, drop, replicate, length-drop, length-take, length-append, dec_le,
  take-length-append, drop-length-append, take_of_length-le, take-append-drop,
}
use tiny_kv_practice.Kv.Codec.{encode_bytes, ok, all_pads, decode_groups, decode_bytes}
use tiny_kv_practice.Kv.Codec.Groups.{spread, spread_full, spread_short, encode_bytes_lem}

all_pads-replicate : (n : ℕ) → all_pads (replicate n 0) ≡ true
unfolding all_pads
all_pads-replicate zero = refl
all_pads-replicate (suc n) = all_pads-replicate n

length-replicate : (n : ℕ) → length (replicate {A = ℕ} n 0) ≡ n
length-replicate zero = refl
length-replicate (suc n) = ap suc (length-replicate n)

take_split : (n : ℕ) (xs ys : List ℕ) → length xs ≡ n → take n (xs ++ ys) ≡ xs
take_split n xs ys h = rw (← h) (take-length-append xs ys)

drop_split : (n : ℕ) (xs ys : List ℕ) → length xs ≡ n → drop n (xs ++ ys) ≡ ys
drop_split n xs ys h = rw (← h) (drop-length-append xs ys)

-- A group of eight bytes and its marker.
group_full :
    (rounds : ℕ) (bytes group rest : List ℕ)
    → length group ≡ 8
    → decode_groups (suc rounds) bytes (group ++ 255 ∷ rest)
      ≡ decode_groups rounds (bytes ++ group) rest
unfolding decode_groups
group_full rounds bytes group rest h =
    rw (decode_groups, drop_split 8 group (255 ∷ rest) h, take_split 8 group (255 ∷ rest) h)
      (ap (λ g. decode_groups rounds (bytes ++ g) rest) (take_of_length-le 8 group (omega arith)))

-- The last group: fewer bytes, padded.
group_last :
    (rounds : ℕ) (bytes last rest : List ℕ)
    → length last < 8
    → decode_groups
        (suc rounds)
        bytes
        ((last ++ replicate (8 - length last) 0) ++ (255 - (8 - length last)) ∷ rest)
      ≡ ok (rest, bytes ++ last)
unfolding decode_groups
group_last rounds bytes last rest h =
    let group = last ++ replicate (8 - length last) 0 in
    let full : length group ≡ 8 = omega (
      arith,
      length-append last (replicate (8 - length last) 0),
      length-replicate (8 - length last),
    ) in
    let pad : 255 - (255 - (8 - length last)) ≡ 8 - length last = omega arith in
    let real : 8 - (8 - length last) ≡ length last = omega arith in
    let marker = 255 - (8 - length last) in
    rw
      (
        decode_groups,
        drop_split 8 group (marker ∷ rest) full,
        take_split 8 group (marker ∷ rest) full,
        pad,
        real,
        take-length-append last (replicate (8 - length last) 0),
        drop-length-append last (replicate (8 - length last) 0),
        all_pads-replicate (8 - length last),
      )
      (ground arith)

last_spread :
    (rounds : ℕ) (bytes xs rest : List ℕ)
    → length xs < 8
    → decode_groups (suc rounds) bytes (spread 8 xs ++ rest) ≡ ok (rest, bytes ++ xs)
last_spread rounds bytes xs rest h =
    let pads : List ℕ = replicate (8 - length xs) 0 in
    let marker = 255 - (8 - length xs) in
    let form =
      spread_short 8 xs h
      ∙ ap (λ ys. (ys ++ pads) ++ marker ∷ []) (take_of_length-le 8 xs (omega arith)) in
    ap (λ ys. decode_groups (suc rounds) bytes (ys ++ rest)) form
    ∙ ap (decode_groups (suc rounds) bytes) (append_assoc (xs ++ pads) (marker ∷ []) rest)
    ∙ group_last rounds bytes xs rest h

decode_spread :
    (rounds : ℕ) (bytes xs rest : List ℕ)
    → length xs / 8 ≤ rounds
    → decode_groups (suc rounds) bytes (spread 8 xs ++ rest) ≡ ok (rest, bytes ++ xs)
decode_spread zero bytes xs rest h = last_spread zero bytes xs rest (omega arith)
decode_spread (suc rounds) bytes xs rest h = elim (dec_le 8 (length xs)) [
  | no short ↦ last_spread (suc rounds) bytes xs rest (omega arith)
  | yes long ↦
      let group = take 8 xs in
      let after = drop 8 xs in
      let full : length group ≡ 8 = omega (arith, length-take 8 xs) in
      ap (λ ys. decode_groups (suc (suc rounds)) bytes (ys ++ rest)) (spread_full 8 xs long)
      ∙ ap (decode_groups (suc (suc rounds)) bytes) (append_assoc group (255 ∷ spread 8 after) rest)
      ∙ group_full (suc rounds) bytes group (spread 8 after ++ rest) full
      ∙ decode_spread rounds (bytes ++ group) after rest (omega (arith, length-drop 8 xs))
      ∙ ap (λ ys. ok (rest, ys))
          (append_assoc bytes group after ∙ ap (λ ys. bytes ++ ys) (take-append-drop 8 xs))
]

length-spread-ge :
    (rounds : ℕ) (xs : List ℕ) → rounds ≡ length xs / 8 → 9 * (rounds + 1) ≤ length (spread 8 xs)
length-spread-ge zero xs h =
    let pads : List ℕ = replicate (8 - length xs) 0 in
    omega (
      arith,
      ap length (spread_short 8 xs (omega arith)),
      length-append (take 8 xs ++ pads) ((255 - (8 - length xs)) ∷ []),
      length-append (take 8 xs) pads,
      length-take 8 xs,
      length-replicate (8 - length xs),
    )
length-spread-ge (suc rounds) xs h = omega (
  arith,
  ap length (spread_full 8 xs (omega arith)),
  length-append (take 8 xs) (255 ∷ spread 8 (drop 8 xs)),
  length-take 8 xs,
  length-spread-ge rounds (drop 8 xs) (omega (arith, length-drop 8 xs)),
)

-- `DecodeBytes` of an encoding, with any bytes behind it, returns the bytes behind it and the data.
pub decode_bytes-encode_bytes :
    (bytes rest : List ℕ) → decode_bytes (encode_bytes bytes ++ rest) ≡ ok (rest, bytes)
unfolding decode_bytes
decode_bytes-encode_bytes bytes rest =
    let all = spread 8 bytes ++ rest in
    let enough = length-spread-ge (length bytes / 8) bytes refl in
    let rounds : length all / 9 ≡ suc (length all / 9 - 1) =
      omega (arith, enough, length-append (spread 8 bytes) rest) in
    rw (encode_bytes_lem bytes, rounds)
      (decode_spread (length all / 9 - 1) [] bytes rest
        (omega (arith, enough, length-append (spread 8 bytes) rest)))
