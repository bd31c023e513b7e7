-- ===== src/Kv/Tests/Raw.antt =====
-- A storage in memory with three items in one column family, and the raw interface over it.
use tiny_kv_practice.Prelude.{
  ℕ, ◌≡◌, ◌&&◌, false, none, some, List, [], ◌∷◌, map, take, refl, if◌then◌else◌,
}
use tiny_kv_practice.Keys.{compare_bytes}
use tiny_kv_practice.Keys.Trees.{OrderedTree, from, sorted_lists}
use tiny_kv_practice.Keys.Sorted.{same}
use tiny_kv_practice.Kv.MemStorage.{Bytes, default_cf, MemItem, key_of, MemStorage, new_mem_storage}
use tiny_kv_practice.Kv.RawApi.{raw_get, raw_put, raw_delete, raw_scan}
use tiny_kv_practice.Kv.RawApi.Maps.{same_cf, Sorted, response, raw_get-lookup}
use tiny_kv_practice.Kv.RawApi.Scans.{pair_of, raw_scan_lem}

abbrev trees : OrderedTree key_of
trees = sorted_lists key_of

abbrev item : ℕ → MemItem
item b = record { key = some (b ∷ []); value = some (b ∷ b ∷ []); fresh = false }

abbrev items : List MemItem
items = item b'a' ∷ item b'c' ∷ item b'e' ∷ []

abbrev stored : MemStorage trees
stored = record (new_mem_storage trees) { cf_default = items }

stored-Sorted : Sorted trees stored
unfolding compare_bytes
stored-Sorted = record {
  default_sorted = ((refl, (refl, tt)), ((refl, tt), (tt, tt)));
  lock_sorted = tt;
  write_sorted = tt;
}

abbrev key : Bytes
key = b'c' ∷ []

raw_get-lookup_example :
    Sorted trees (raw_put trees stored default_cf (some key) (some key))
    × Sorted trees (raw_delete trees stored default_cf (some key))
    × (raw_get trees (raw_put trees stored default_cf (some key) (some key)) default_cf (some key)
        ≡ (if same_cf default_cf default_cf && same key key
            then some (response trees (some key))
            else raw_get trees stored default_cf (some key)))
    × (raw_get trees (raw_delete trees stored default_cf (some key)) default_cf (some key) ≡ (
        if same_cf default_cf default_cf && same key key
        then some (response trees none)
        else raw_get trees stored default_cf (some key)))
raw_get-lookup_example =
    raw_get-lookup trees stored default_cf default_cf (some key) (some key) (some key) stored-Sorted

raw_scan_lem_example :
    raw_scan trees stored default_cf (some key) 5
    ≡ some (take 5 (map pair_of (from key_of key items)))
raw_scan_lem_example =
    raw_scan_lem trees stored default_cf (some key) 5 stored-Sorted refl
      ((λ e. cc), ((λ e. cc), ((λ e. cc), tt)))
