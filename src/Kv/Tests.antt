-- ===== src/Kv/Tests.antt =====
-- The theorems on kv/ at concrete byte strings, keys, regions and latches.
mod Raw
use Prim.Native.Nat.{compare}
use tiny_kv_practice.Prelude.{ℕ, ◌+◌, ◌≤◌, ◌≡◌, ◌⊎◌, refl, some, none, List, [], ◌∷◌, ◌++◌, arith}
use tiny_kv_practice.Kv.Codec.{encode_bytes, decode_bytes, ok}
use tiny_kv_practice.Kv.Codec.RoundTrip.{decode_bytes-encode_bytes}
use tiny_kv_practice.Keys.{and_then, compare_bytes}
use tiny_kv_practice.Kv.Codec.Order.{compare_bytes-encode_bytes}
use tiny_kv_practice.Kv.Mvcc.{encode_key}
use tiny_kv_practice.Kv.Mvcc.Keys.{compare_bytes-encode_key}
use tiny_kv_practice.Kv.Checks.{Region, key_not_in_region, check_key_in_region}
use tiny_kv_practice.Kv.Checks.Keys.{left_of, right_of, check_key_in_region-split}
use tiny_kv_practice.Kv.MetaKeys.{raft_log_key, raft_log_index}
use tiny_kv_practice.Kv.MetaKeys.Order.{compare_bytes-raft_log_key}
use tiny_kv_practice.Kv.Latches.{
  new_latches, same_key, group_of, first_latched, latch_all, put, acquire_latches,
}
use tiny_kv_practice.Kv.Latches.Keys.{is_latched}
use tiny_kv_practice.Kv.Latches.Exclusion.{
  World, acquire, Reachable, at_start, move, one, holders, Reachable-exclusive,
}

abbrev short_key : List ℕ
short_key = 97 ∷ 98 ∷ []

abbrev long_key : List ℕ
long_key = 97 ∷ 98 ∷ 0 ∷ 0 ∷ 0 ∷ 0 ∷ 0 ∷ 0 ∷ 99 ∷ []

decode_bytes-encode_bytes_example :
    decode_bytes (encode_bytes long_key ++ 7 ∷ []) ≡ ok (7 ∷ [], long_key)
decode_bytes-encode_bytes_example = decode_bytes-encode_bytes long_key (7 ∷ [])

compare_bytes-encode_bytes_example :
    compare_bytes (encode_bytes short_key ++ 9 ∷ []) (encode_bytes long_key ++ 1 ∷ [])
    ≡ and_then (compare_bytes short_key long_key) (compare_bytes (9 ∷ []) (1 ∷ []))
compare_bytes-encode_bytes_example = compare_bytes-encode_bytes short_key long_key (9 ∷ []) (1 ∷ [])

compare_bytes-raft_log_key_example :
    (compare_bytes (raft_log_key 1 256) (raft_log_key 1 5) ≡ and_then (compare 1 1) (compare 256 5))
    × (raft_log_index (raft_log_key 1 256) ≡ some 256)
compare_bytes-raft_log_key_example =
    compare_bytes-raft_log_key 1 1 256 5 (omega arith) (omega arith) (omega arith) (omega arith)

compare_bytes-encode_key_example :
    compare_bytes (encode_key short_key 5) (encode_key short_key 4)
    ≡ and_then (compare_bytes short_key short_key) (compare 4 5)
compare_bytes-encode_key_example =
    compare_bytes-encode_key short_key short_key 5 4 (omega arith) (omega arith)

abbrev region : Region
region = record {
  id = 1;
  start_key = 97 ∷ [];
  end_key = 122 ∷ [];
  region_epoch = record { conf_ver = 2; version = 3 };
  peers = (record { id = 11; store_id = 1 }) ∷ (record { id = 12; store_id = 2 }) ∷ [];
}

check_key_in_region-split_example :
    ((check_key_in_region short_key (left_of region (109 ∷ [])) ≡ none)
      × (check_key_in_region short_key (right_of region (109 ∷ []))
          ≡ some (key_not_in_region short_key (right_of region (109 ∷ [])))))
    ⊎ ((check_key_in_region short_key (left_of region (109 ∷ []))
          ≡ some (key_not_in_region short_key (left_of region (109 ∷ []))))
        × (check_key_in_region short_key (right_of region (109 ∷ [])) ≡ none))
unfolding check_key_in_region compare_bytes
check_key_in_region-split_example =
    check_key_in_region-split region short_key (109 ∷ []) (λ p. cc) refl

-- One holder has two keys, and another one.
abbrev held_once : World
held_once = record {
  latches = (acquire_latches new_latches (short_key ∷ long_key ∷ [])).0;
  held = (short_key ∷ long_key ∷ []) ∷ [];
}

abbrev held_twice : World
held_twice = record {
  latches = (acquire_latches held_once.latches ((1 ∷ []) ∷ [])).0;
  held = ((1 ∷ []) ∷ []) ∷ (short_key ∷ long_key ∷ []) ∷ [];
}

held_twice_reached : Reachable held_twice
unfolding acquire_latches first_latched group_of same_key latch_all put
held_twice_reached =
    move {w = held_once} (move at_start (acquire (short_key ∷ long_key ∷ []) refl))
      (acquire ((1 ∷ []) ∷ []) refl)

Reachable-exclusive_example :
    (holders short_key held_twice.held ≡ one (is_latched short_key held_twice.latches.latch_map))
    × (holders short_key held_twice.held ≤ 1)
Reachable-exclusive_example = Reachable-exclusive short_key held_twice_reached
