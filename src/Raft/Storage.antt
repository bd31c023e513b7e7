-- ===== src/Raft/Storage.antt =====
-- raft/storage.go: the interface through which the node reads what is persisted, and the storage in
-- memory that implements it. The mutex orders whole calls, so each method is one function on the
-- state. `none` in front of a result is a panic.
pub mod Shape
pub mod Compaction
pub mod Changes
use tiny_kv_practice.Prelude.{
  ℕ, ◌+◌, ◌^◌, Bool, true, false, not, ◌&&◌, Option, none, some, List, [], ◌∷◌, ◌++◌, ltb, leb,
  ◌==◌, if◌then◌else◌, length, get_elem?, slice, take, drop, add64, sub64, ◌>>=◌, ◌>>◌, check,
}
use tiny_kv_practice.Raft.Types.{
  Entry, no_entry, HardState, ConfState, SnapshotMetadata, Snapshot, Error, compacted, unavailable,
  snap_out_of_date,
}

-- `Storage`: what a node can ask. Each answer is a Go pair of a value and an error.
pub record Storage : Type 0 where
  pub initial_state : Option (HardState × ConfState × Option Error)
  pub entries : ℕ → ℕ → Option (List Entry × Option Error)
  pub term : ℕ → Option (ℕ × Option Error)
  pub last_index : Option (ℕ × Option Error)
  pub first_index : Option (ℕ × Option Error)
  pub snapshot : Option (Snapshot × Option Error)

-- `MemoryStorage`. `ents` holds a dummy first, and then the entries after the snapshot.
pub record MemoryStorage : Type 0 where
  pub hard_state : HardState
  pub snapshot : Snapshot
  pub ents : List Entry

abbrev pub new_memory_storage : MemoryStorage
new_memory_storage = record {
  hard_state = record { term = 0; vote = 0; commit = 0 };
  snapshot = record {
    payload = [];
    metadata = some (record { conf_state = some (record { nodes = [] }); index = 0; term = 0 });
  };
  ents = no_entry ∷ [];
}

-- int(n) >= k for an uint64 n and a length k: from 2^63 on, int(n) is negative.
unfoldable pub int_ge : ℕ → ℕ → Bool
int_ge n k = ltb n (2 ^ 63) && leb k n

unfoldable pub initial_state : MemoryStorage → Option (HardState × ConfState × Option Error)
initial_state ms = do d ← ms.snapshot.metadata; c ← d.conf_state; some (ms.hard_state, c, none)

unfoldable pub set_hard_state : MemoryStorage → HardState → MemoryStorage
set_hard_state ms st = record ms { hard_state = st }

unfoldable pub last_index : MemoryStorage → Option ℕ
last_index ms = do e ← get_elem? ms.ents 0; some (sub64 (add64 e.index (length ms.ents)) 1)

unfoldable pub first_index : MemoryStorage → Option ℕ
first_index ms = do e ← get_elem? ms.ents 0; some (add64 e.index 1)

-- The part of `Entries` behind the bounds checks.
unfoldable pub entries_in : MemoryStorage → ℕ → ℕ → Option (List Entry × Option Error)
entries_in ms lo hi = do
  ents ← slice ms.ents lo hi
  if length ms.ents == 1 && not (length ents == 0)
      then some ([], some unavailable)
      else some (ents, none)

unfoldable pub entries : MemoryStorage → ℕ → ℕ → Option (List Entry × Option Error)
entries ms lo hi = do
  e ← get_elem? ms.ents 0
  last ← last_index ms
  if leb lo e.index
      then some ([], some compacted)
      else if ltb (add64 last 1) hi
      then none
      else entries_in ms (sub64 lo e.index) (sub64 hi e.index)

unfoldable pub term : MemoryStorage → ℕ → Option (ℕ × Option Error)
term ms i = do
  e ← get_elem? ms.ents 0
  if ltb i e.index
      then some (0, some compacted)
      else if int_ge (sub64 i e.index) (length ms.ents)
      then some (0, some unavailable)
      else do x ← get_elem? ms.ents (sub64 i e.index); some (x.term, none)

-- What a node sees of a storage in memory.
unfoldable pub to_storage : MemoryStorage → Storage
to_storage ms = record {
  initial_state = initial_state ms;
  entries = entries ms;
  term = term ms;
  last_index = (do i ← last_index ms; some (i, none));
  first_index = (do i ← first_index ms; some (i, none));
  snapshot = some (ms.snapshot, none);
}

unfoldable pub apply_snapshot : MemoryStorage → Snapshot → Option (MemoryStorage × Option Error)
apply_snapshot ms snap = do
  old ← ms.snapshot.metadata
  new ← snap.metadata
  if leb new.index old.index
      then some (ms, some snap_out_of_date)
      else some (
        record ms {
          snapshot = snap;
          ents = record no_entry { term = new.term; index = new.index } ∷ [];
        },
        none,
      )

unfoldable pub create_snapshot :
    MemoryStorage → ℕ → Option ConfState → List ℕ → Option (MemoryStorage × Snapshot × Option Error)
create_snapshot ms i cs bytes = do
  d ← ms.snapshot.metadata
  if leb i d.index
      then some (ms, record { payload = []; metadata = none }, some snap_out_of_date)
      else do
        e ← get_elem? ms.ents 0
        last ← last_index ms
        check (leb i last)
        x ← get_elem? ms.ents (sub64 i e.index)
        let conf : Option ConfState = elim cs [ none ↦ d.conf_state | some c ↦ some c ]
        let snap = record ms.snapshot {
          payload = bytes;
          metadata = some (record d { index = i; term = x.term; conf_state = conf });
        }
        some (record ms { snapshot = snap }, snap, none)

unfoldable pub compact : MemoryStorage → ℕ → Option (MemoryStorage × Option Error)
compact ms compact_index = do
  e ← get_elem? ms.ents 0
  last ← last_index ms
  if leb compact_index e.index then some (ms, some compacted) else do
    check (leb compact_index last)
    let i = sub64 compact_index e.index
    x ← get_elem? ms.ents i
    some (
      record ms {
        ents = record no_entry { index = x.index; term = x.term } ∷ drop (i + 1) ms.ents;
      },
      none,
    )

-- The part of `Append` behind the truncation of compacted entries: `offset` is the place in `ents`
-- of the first of `new`.
unfoldable pub append_at : MemoryStorage → ℕ → List Entry → Option (MemoryStorage × Option Error)
append_at ms offset new =
    if ltb offset (length ms.ents)
    then some (record ms { ents = take offset ms.ents ++ new }, none)
    else if length ms.ents == offset
    then some (record ms { ents = ms.ents ++ new }, none)
    else none

unfoldable pub append : MemoryStorage → List Entry → Option (MemoryStorage × Option Error)
append ms [] = some (ms, none)
append ms (a ∷ rest) = do
  first ← first_index ms
  let new = a ∷ rest
  let last = sub64 (add64 a.index (length new)) 1
  if ltb last first then some (ms, none) else do
    kept ← if ltb a.index first then slice new (sub64 first a.index) (length new) else some new
    k ← get_elem? kept 0
    e ← get_elem? ms.ents 0
    append_at ms (sub64 k.index e.index) kept
