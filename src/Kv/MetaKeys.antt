-- ===== src/Kv/MetaKeys.antt =====
-- kv/raftstore/meta/keys.go: the keys under which a store keeps the logs and the states of its regions.
pub mod Order
use tiny_kv_practice.Prelude.{
  ℕ, ◌+◌, ◌-◌, Bool, false, not, ◌&&◌, Option, none, some, [], ◌∷◌, ◌++◌, ◌==◌, if◌then◌else◌,
  length, take, drop, get_elem?,
}
use tiny_kv_practice.Keys.Trees.{Key}
use tiny_kv_practice.Keys.Sorted.{same}
use tiny_kv_practice.Kv.Endian.{be_bytes, be_number}

abbrev pub local_prefix : ℕ
local_prefix = 1

abbrev pub region_raft_prefix : ℕ
region_raft_prefix = 2

abbrev pub region_meta_prefix : ℕ
region_meta_prefix = 3

abbrev pub region_raft_log_len : ℕ
region_raft_log_len = 19

abbrev pub raft_log_suffix : ℕ
raft_log_suffix = 1

abbrev pub raft_state_suffix : ℕ
raft_state_suffix = 2

abbrev pub apply_state_suffix : ℕ
apply_state_suffix = 3

abbrev pub region_state_suffix : ℕ
region_state_suffix = 1

abbrev pub region_meta_min_key : Key
region_meta_min_key = local_prefix ∷ region_meta_prefix ∷ []

unfoldable pub make_region_prefix : ℕ → ℕ → Key
unfolding be_bytes
make_region_prefix region_id suffix =
    local_prefix ∷ region_raft_prefix ∷ (be_bytes 8 region_id ++ suffix ∷ [])

unfoldable pub make_region_key : ℕ → ℕ → ℕ → Key
unfolding be_bytes
make_region_key region_id suffix sub_id =
    local_prefix ∷ region_raft_prefix ∷ (be_bytes 8 region_id ++ suffix ∷ be_bytes 8 sub_id)

unfoldable pub region_raft_prefix_key : ℕ → Key
unfolding be_bytes
region_raft_prefix_key region_id = local_prefix ∷ region_raft_prefix ∷ be_bytes 8 region_id

unfoldable pub raft_log_key : ℕ → ℕ → Key
unfolding make_region_key
raft_log_key region_id index = make_region_key region_id raft_log_suffix index

unfoldable pub raft_state_key : ℕ → Key
unfolding make_region_prefix
raft_state_key region_id = make_region_prefix region_id raft_state_suffix

unfoldable pub apply_state_key : ℕ → Key
unfolding make_region_prefix
apply_state_key region_id = make_region_prefix region_id apply_state_suffix

abbrev pub is_at : Option ℕ → ℕ → Bool
is_at none b = false
is_at (some c) b = c == b

unfoldable pub is_raft_state_key : Key → Bool
is_raft_state_key key =
    length key == 11
    && (is_at (get_elem? key 0) local_prefix && is_at (get_elem? key 1) region_raft_prefix)

pub data KeyError : Type 0 where
  bad_length bad_prefix : KeyError

-- The region and the suffix, or an error; key[len(key)-1] is there.
pub data MetaKey : Type 0 where
  meta_key : ℕ → ℕ → MetaKey
  bad_key : KeyError → MetaKey

abbrev or_zero : Option ℕ → ℕ
or_zero none = 0
or_zero (some b) = b

unfoldable pub decode_region_meta_key : Key → MetaKey
unfolding be_number
decode_region_meta_key key =
    if not (2 + 8 + 1 == length key)
    then bad_key bad_length
    else if not (same (take 2 key) region_meta_min_key)
    then bad_key bad_prefix
    else meta_key (be_number 0 (take 8 (drop 2 key))) (or_zero (get_elem? key (length key - 1)))

unfoldable pub region_meta_prefix_key : ℕ → Key
unfolding be_bytes
region_meta_prefix_key region_id = local_prefix ∷ region_meta_prefix ∷ be_bytes 8 region_id

unfoldable pub region_state_key : ℕ → Key
unfolding be_bytes
region_state_key region_id =
    local_prefix ∷ region_meta_prefix ∷ (be_bytes 8 region_id ++ region_state_suffix ∷ [])

unfoldable pub raft_log_index : Key → Option ℕ
unfolding be_number
raft_log_index key =
    if not (length key == region_raft_log_len)
    then none
    else some (be_number 0 (take 8 (drop (region_raft_log_len - 8) key)))
