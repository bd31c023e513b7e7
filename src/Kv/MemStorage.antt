-- ===== src/Kv/MemStorage.antt =====
-- kv/storage/mem_storage.go: a storage in memory, one ordered tree for each column family. The trees
-- (github.com/petar/GoLLRB) are a parameter. A slice that may be nil is an `Option`.
use tiny_kv_practice.Prelude.{
  ℕ, ◌+◌, ◌-◌, Bool, true, false, not, Option, none, some, List, [], ◌∷◌, ◌==◌, if◌then◌else◌,
}
use tiny_kv_practice.Keys.Trees.{Key, head?, OrderedTree}

abbrev pub Bytes : Type 0
Bytes = List ℕ

-- The names of the column families in kv/util/engine_util, and any other name.
pub data Cf : Type 0 where
  default_cf lock_cf write_cf : Cf
  bad_cf : Bytes → Cf

pub record MemItem : Type 0 where
  pub key : Option Bytes
  pub value : Option Bytes
  pub fresh : Bool

-- bytes.Compare takes nil for the empty slice.
abbrev pub or_empty : Option Bytes → Bytes
or_empty none = []
or_empty (some bytes) = bytes

abbrev pub key_of : MemItem → Key
key_of item = or_empty item.key

abbrev pub empty_item : MemItem
empty_item = record { key = none; value = none; fresh = false }

abbrev pub value_of : Option MemItem → Option Bytes
value_of none = none
value_of (some item) = item.value

abbrev pub or_empty_item : Option MemItem → MemItem
or_empty_item none = empty_item
or_empty_item (some item) = item

abbrev pub second? : List MemItem → Option MemItem
second? [] = none
second? (x ∷ l) = head? l

-- `Modify` of kv/storage/modify.go
pub data Modify : Type 0 where
  put_data : Cf → Option Bytes → Option Bytes → Modify
  delete_data : Cf → Option Bytes → Modify

module _ (b : OrderedTree key_of) where
  pub record MemStorage : Type 0 where
    pub cf_default : b.Tree
    pub cf_lock : b.Tree
    pub cf_write : b.Tree

  abbrev pub new_mem_storage : MemStorage
  new_mem_storage = record { cf_default = b.new; cf_lock = b.new; cf_write = b.new }

  -- The tree of a column family, and a change of it; a bad name has none.
  abbrev pub tree_of : Cf → MemStorage → Option b.Tree
  tree_of default_cf s = some s.cf_default
  tree_of lock_cf s = some s.cf_lock
  tree_of write_cf s = some s.cf_write
  tree_of (bad_cf name) s = none

  abbrev pub change : Cf → (b.Tree → b.Tree) → MemStorage → MemStorage
  change default_cf f s = record s { cf_default = f s.cf_default }
  change lock_cf f s = record s { cf_lock = f s.cf_lock }
  change write_cf f s = record s { cf_write = f s.cf_write }
  change (bad_cf name) f s = s

  unfoldable pub write_one : MemStorage → Modify → MemStorage
  write_one s (put_data cf key value) =
      change cf (b.replace_or_insert (record { key = key; value = value; fresh = false })) s
  write_one s (delete_data cf key) = change cf (b.delete (or_empty key)) s

  unfoldable pub write : MemStorage → List Modify → MemStorage
  unfolding write_one
  write s [] = s
  write s (m ∷ batch) = write (write_one s m) batch

  abbrev pub item_in : Option b.Tree → Option Bytes → Option MemItem
  item_in none key = none
  item_in (some t) key = b.get (or_empty key) t

  unfoldable pub get : MemStorage → Cf → Option Bytes → Option Bytes
  get s cf key = value_of (item_in (tree_of cf s) key)

  unfoldable pub set : MemStorage → Cf → Option Bytes → Option Bytes → MemStorage
  set s cf key value =
      change cf (b.replace_or_insert (record { key = key; value = value; fresh = true })) s

  unfoldable pub has_changed : MemStorage → Cf → Option Bytes → Bool
  has_changed s cf key = elim (item_in (tree_of cf s) key) [
    | none ↦ true
    | some item ↦ not item.fresh
  ]

  -- -1 for a bad name is `none`.
  unfoldable pub len : MemStorage → Cf → Option ℕ
  len s cf = elim (tree_of cf s) [ none ↦ none | some t ↦ some (b.len t) ]

  -- `memReader`: the storage that it reads, and the number of its open iterators.
  pub record MemReader : Type 0 where
    pub inner : MemStorage
    pub iter_count : ℕ

  abbrev pub new_reader : MemStorage → MemReader
  new_reader s = record { inner = s; iter_count = 0 }

  -- `GetCF`: no result is the error for a bad name.
  unfoldable pub get_cf : MemReader → Cf → Option Bytes → Option (Option Bytes)
  get_cf r cf key = elim (tree_of cf r.inner) [
    | none ↦ none
    | some t ↦ some (value_of (b.get (or_empty key) t))
  ]

  -- `memIter`: the tree and the item that it stands at.
  pub record MemIter : Type 0 where
    pub tree : b.Tree
    pub item : MemItem

  -- `Min` is the first item of a visit from the empty key. No iterator is nil, for a bad name.
  abbrev pub iter_in : MemReader → Option b.Tree → MemReader × Option MemIter
  iter_in r none = (r, none)
  iter_in r (some t) = (
    record r { iter_count = r.iter_count + 1 },
    some (record { tree = t; item = or_empty_item (head? (b.ascend [] t)) }),
  )

  unfoldable pub iter_cf : MemReader → Cf → MemReader × Option MemIter
  iter_cf r cf = iter_in r (tree_of cf r.inner)

  unfoldable pub valid : MemIter → Bool
  valid it = elim it.item.key [ none ↦ false | some _ ↦ true ]

  -- The first item of the visit, which is the current one, is passed over.
  unfoldable pub next : MemIter → MemIter
  next it = record it { item = or_empty_item (second? (b.ascend (key_of it.item) it.tree)) }

  unfoldable pub seek : MemIter → Option Bytes → MemIter
  seek it key = record it { item = or_empty_item (head? (b.ascend (or_empty key) it.tree)) }

  abbrev pub close_iter : MemReader → MemReader
  close_iter r = record r { iter_count = r.iter_count - 1 }

  -- `Close`: a panic while an iterator is open
  unfoldable pub close : MemReader → Option (Unit {0})
  close r = if r.iter_count == 0 then some tt else none
