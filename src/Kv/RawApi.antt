-- ===== src/Kv/RawApi.antt =====
-- kv/server/raw_api.go over the storage in memory of kv/storage/mem_storage.go. `none` is a panic. The
-- storage in memory returns no error but that for a bad column family, which RawGet drops.
pub mod Maps
pub mod Scans
use tiny_kv_practice.Prelude.{
  ℕ, zero, suc, ◌+◌, Bool, true, false, Option, none, some, List, [], ◌∷◌, ◌++◌, leb, length,
  if◌then◌else◌, ◌>>=◌, ◌>>◌,
}
use tiny_kv_practice.Keys.Trees.{Key, OrderedTree}
use tiny_kv_practice.Kv.MemStorage.{
  Bytes, Cf, MemItem, key_of, put_data, delete_data, MemStorage, write, MemReader, new_reader,
  get_cf, MemIter, iter_cf, valid, next, seek, close_iter, close,
}

pub record GetResponse : Type 0 where
  pub value : Option Bytes
  pub not_found : Bool

pub record KvPair : Type 0 where
  pub key : Option Bytes
  pub value : Option Bytes

abbrev pub is_nil : Option Bytes → Bool
is_nil none = true
is_nil (some _) = false

-- The value that comes with an error is nil.
abbrev pub or_nil : Option (Option Bytes) → Option Bytes
or_nil none = none
or_nil (some value) = value

module _ (b : OrderedTree key_of) where
  unfoldable pub raw_get : MemStorage b → Cf → Option Bytes → Option GetResponse
  raw_get s cf key = do
    let value = or_nil (get_cf b (new_reader b s) cf key)
    close b (new_reader b s)
    some (record { value = value; not_found = is_nil value })

  unfoldable pub raw_put : MemStorage b → Cf → Option Bytes → Option Bytes → MemStorage b
  raw_put s cf key value = write b s (put_data cf key value ∷ [])

  unfoldable pub raw_delete : MemStorage b → Cf → Option Bytes → MemStorage b
  raw_delete s cf key = write b s (delete_data cf key ∷ [])

  -- The loop of RawScan, which has `taken` pairs; each round passes an item, and there are `rounds`.
  unfoldable pub scan_from : ℕ → ℕ → ℕ → MemIter b → List KvPair
  scan_from zero limit taken it = []
  scan_from (suc rounds) limit taken it =
      let rest = scan_from rounds limit (taken + 1) (next b it) in
      if valid b it
      then (if leb limit taken
          then []
          else record { key = it.item.key; value = it.item.value } ∷ rest)
      else []

  -- A nil iterator panics at Seek. The two deferred calls close the iterator and the reader.
  abbrev pub scan_opened :
      Option Bytes → ℕ → MemReader b × Option (MemIter b) → Option (List KvPair)
  scan_opened start limit opened = do
    it ← opened.1
    let kvs = scan_from (b.len it.tree + 1) limit 0 (seek b it start)
    close b (close_iter b opened.0)
    some kvs

  unfoldable pub raw_scan : MemStorage b → Cf → Option Bytes → ℕ → Option (List KvPair)
  unfolding scan_from
  raw_scan s cf start limit = scan_opened start limit (iter_cf b (new_reader b s) cf)
