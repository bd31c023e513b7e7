-- ===== src/Kv/Mvcc/Keys.antt =====
-- Keys with a timestamp (kv/transaction/mvcc/transaction.go).
use Prim.Native.Nat.{compare}
use tiny_kv_practice.Prelude.{
  ℕ, ◌<◌, ◌≡◌, refl, ap, ◌∙◌, some, List, arith, u64_mod, take_of_length-le,
}
use tiny_kv_practice.Kv.Codec.RoundTrip.{decode_bytes-encode_bytes}
use tiny_kv_practice.Keys.{and_then, compare_bytes}
use tiny_kv_practice.Kv.Codec.Order.{compare_bytes-encode_bytes}
use tiny_kv_practice.Kv.Endian.{
  be_bytes, length-be_bytes, be_number-be_bytes, compare_bytes-be_bytes,
}
use tiny_kv_practice.Kv.Mvcc.{complement, encode_key, decode_user_key, decode_timestamp}

compare-complement :
    (t u : ℕ) → t < u64_mod → u < u64_mod → compare (complement t) (complement u) ≡ compare u t
compare-complement t u h k = ground arith

-- Encoded keys are in the order of the user keys, and for the same user key the later timestamp comes
-- first.
pub compare_bytes-encode_key :
    (k l : List ℕ) (t u : ℕ)
    → t < u64_mod
    → u < u64_mod
    → compare_bytes (encode_key k t) (encode_key l u) ≡ and_then (compare_bytes k l) (compare u t)
unfolding encode_key
compare_bytes-encode_key k l t u h i =
    compare_bytes-encode_bytes k l (be_bytes 8 (complement t)) (be_bytes 8 (complement u))
    ∙ ap (and_then (compare_bytes k l)) (
        compare_bytes-be_bytes 8 (complement t) (complement u) (omega arith) (omega arith)
        ∙ compare-complement t u h i)

-- An encoded key gives back its user key and its timestamp.
pub decode-encode_key :
    (k : List ℕ) (t : ℕ)
    → t < u64_mod
    → (decode_user_key (encode_key k t) ≡ some k) × (decode_timestamp (encode_key k t) ≡ some t)
unfolding encode_key decode_user_key decode_timestamp
decode-encode_key k t h =
    let run = decode_bytes-encode_bytes k (be_bytes 8 (complement t)) in
    let count = length-be_bytes 8 (complement t) in
    let all = take_of_length-le 8 (be_bytes 8 (complement t)) (omega (arith, count)) in
    let back : complement (complement t) ≡ t = omega arith in
    (
      rw (decode_user_key, run) refl,
      rw
          (
            decode_timestamp,
            run,
            count,
            all,
            be_number-be_bytes 8 (complement t) (omega arith),
            back,
          )
          refl,
    )
