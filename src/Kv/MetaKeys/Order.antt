-- ===== src/Kv/MetaKeys/Order.antt =====
-- The keys of kv/raftstore/meta/keys.go in their order, and read back.
use Prim.Native.Nat.{compare}
use tiny_kv_practice.Prelude.{
  ℕ, ◌&&◌, zero, suc, ◌^◌, ◌<◌, none, not, ◌==◌, if◌then◌else◌, length-append, take_of_length-le,
  ◌≡◌, refl, sym, ap, ◌∙◌, true, some, List, [], ◌∷◌, ◌++◌, length, take, drop, arith,
}
use tiny_kv_practice.Keys.{and_then, compare_bytes, and_then_assoc}
use tiny_kv_practice.Kv.Endian.{
  be_bytes, be_number, length-be_bytes, be_number-be_bytes, compare_bytes-be_bytes,
}
use tiny_kv_practice.Kv.MetaKeys.{
  make_region_key, make_region_prefix, raft_log_key, raft_log_index, apply_state_key,
  is_raft_state_key,
}

-- Strings of the same length compare before what is behind them.
compare_bytes-append_same :
    (a b c d : List ℕ)
    → length a ≡ length b
    → compare_bytes (a ++ c) (b ++ d) ≡ and_then (compare_bytes a b) (compare_bytes c d)
unfolding compare_bytes
compare_bytes-append_same [] [] c d h = refl
compare_bytes-append_same [] (y ∷ b) c d h = absurd (omega (arith, h))
compare_bytes-append_same (x ∷ a) [] c d h = absurd (omega (arith, h))
compare_bytes-append_same (x ∷ a) (y ∷ b) c d h =
    ap (and_then (compare x y)) (compare_bytes-append_same a b c d (omega (arith, h)))
    ∙ sym (and_then_assoc (compare x y) (compare_bytes a b) (compare_bytes c d))

drop_past : (xs : List ℕ) (n y : ℕ) (ys : List ℕ) → length xs ≡ n → drop (suc n) (xs ++ y ∷ ys) ≡ ys
drop_past [] zero y ys h = refl
drop_past [] (suc n) y ys h = absurd (omega (arith, h))
drop_past (x ∷ xs) zero y ys h = absurd (omega (arith, h))
drop_past (x ∷ xs) (suc n) y ys h = drop_past xs n y ys (omega (arith, h))

raft_log_index-raft_log_key : (r i : ℕ) → i < 2 ^ 64 → raft_log_index (raft_log_key r i) ≡ some i
unfolding raft_log_index raft_log_key make_region_key
raft_log_index-raft_log_key r i hi =
    let count : length (1 ∷ 2 ∷ (be_bytes 8 r ++ 1 ∷ be_bytes 8 i)) ≡ 19 = omega (
      arith,
      length-append (be_bytes 8 r) (1 ∷ be_bytes 8 i),
      length-be_bytes 8 r,
      length-be_bytes 8 i,
    ) in
    let tail : drop 9 (be_bytes 8 r ++ 1 ∷ be_bytes 8 i) ≡ be_bytes 8 i =
      drop_past (be_bytes 8 r) 8 1 (be_bytes 8 i) (length-be_bytes 8 r) in
    ap
      (λ n.
        if not (n == 19)
        then none
        else some (be_number 0 (take 8 (drop 9 (be_bytes 8 r ++ 1 ∷ be_bytes 8 i)))))
      count
    ∙ ap (λ l. some (be_number 0 (take 8 l))) tail
    ∙ ap (λ l. some (be_number 0 l))
        (take_of_length-le 8 (be_bytes 8 i) (omega (arith, length-be_bytes 8 i)))
    ∙ ap some (be_number-be_bytes 8 i (omega arith))

-- The keys of logs compare by the region first, and for one region by the index. The index is read back.
pub compare_bytes-raft_log_key :
    (r s i j : ℕ)
    → r < 2 ^ 64
    → s < 2 ^ 64
    → i < 2 ^ 64
    → j < 2 ^ 64
    → (compare_bytes (raft_log_key r i) (raft_log_key s j) ≡ and_then (compare r s) (compare i j))
      × (raft_log_index (raft_log_key r i) ≡ some i)
unfolding raft_log_key make_region_key compare_bytes
compare_bytes-raft_log_key r s i j hr hs hi hj = (
  compare_bytes-append_same (be_bytes 8 r) (be_bytes 8 s) (1 ∷ be_bytes 8 i) (1 ∷ be_bytes 8 j)
        (length-be_bytes 8 r ∙ sym (length-be_bytes 8 s))
      ∙ ap (λ o. and_then o (compare_bytes (be_bytes 8 i) (be_bytes 8 j)))
          (compare_bytes-be_bytes 8 r s (omega arith) (omega arith))
      ∙ ap (and_then (compare r s)) (compare_bytes-be_bytes 8 i j (omega arith) (omega arith)),
  raft_log_index-raft_log_key r i hi,
)

-- The test for the key of a raft state does not look at the suffix: the key of an apply state passes it too.
pub is_raft_state_key-apply_state_key : (r : ℕ) → is_raft_state_key (apply_state_key r) ≡ true
unfolding is_raft_state_key apply_state_key make_region_prefix
is_raft_state_key-apply_state_key r =
    let count : length (1 ∷ 2 ∷ (be_bytes 8 r ++ 3 ∷ [])) ≡ 11 =
      omega (arith, length-append (be_bytes 8 r) (3 ∷ []), length-be_bytes 8 r) in
    ap (λ n. n == 11 && true) count
