-- ===== src/Raft/Log.antt =====
-- raft/log.go: the node's view of the log. `maybeCompact` has no body yet.
pub mod Shape
pub mod Windows
use tiny_kv_practice.Prelude.{
  ℕ, ◌-◌, Bool, true, false, Option, none, some, List, [], ◌∷◌, ltb, leb, ◌==◌, if◌then◌else◌,
  length, get_elem?, slice, drop, add64, sub64, ◌>>=◌, ◌>>◌,
}
use tiny_kv_practice.Raft.Types.{Entry, Snapshot, Error, unavailable}
use tiny_kv_practice.Raft.Storage.{Storage}

pub record RaftLog : Type 0 where
  pub storage : Storage
  pub committed : ℕ
  pub applied : ℕ
  pub stabled : ℕ
  pub entries : List Entry
  pub pending_snapshot : Option Snapshot

-- The errors of the storage are dropped, as in the source.
unfoldable pub new_log : Storage → Option RaftLog
new_log storage = do
  (first, _) ← storage.first_index
  (last, _) ← storage.last_index
  (entries, _) ← storage.entries first (add64 last 1)
  some (record {
    storage = storage;
    committed = sub64 first 1;
    applied = sub64 first 1;
    stabled = last;
    entries = entries;
    pending_snapshot = none;
  })

unfoldable pub maybe_compact : RaftLog → RaftLog
maybe_compact l = l

unfoldable pub all_entries : RaftLog → List Entry
all_entries l = elim l.entries [ [] ↦ [] | e ∷ es ↦ if e.index == 0 then es else e ∷ es ]

-- `lastIdx` for a log whose first entry is `e`: the index of the last entry.
unfoldable pub last_entry_index : List Entry → Option ℕ
last_entry_index es = do e ← get_elem? es (length es - 1); some e.index

-- `LastIndex` by the entries. A pending snapshot without metadata is a nil dereference.
unfoldable pub last_index_by : List Entry → Option Snapshot → ℕ → Option ℕ
last_index_by (e ∷ es) pending stabled = last_entry_index (e ∷ es)
last_index_by [] (some sp) stabled = do d ← sp.metadata; some d.index
last_index_by [] none stabled = some stabled

unfoldable pub last_index : RaftLog → Option ℕ
last_index l = last_index_by l.entries l.pending_snapshot l.stabled

-- `unstableEntries` by the entries and `stabled`.
unfoldable pub unstable_by : List Entry → ℕ → Option (List Entry)
unstable_by [] stabled = some []
unstable_by (e ∷ es) stabled = do
  last ← last_entry_index (e ∷ es)
  if leb last stabled
      then some []
      else if ltb stabled e.index
      then some (e ∷ es)
      else slice (e ∷ es) (add64 (sub64 stabled e.index) 1) (length (e ∷ es))

unfoldable pub unstable_entries : RaftLog → Option (List Entry)
unfolding unstable_by
unstable_entries l = unstable_by l.entries l.stabled

-- `nextEnts` by the entries, `applied` and `committed`.
unfoldable pub next_by : List Entry → ℕ → ℕ → Option (List Entry)
next_by [] applied committed = some []
next_by (e ∷ es) applied committed =
    let next = add64 applied 1 in
    let start = if leb next e.index then e.index else next in
    if ltb committed start
    then some []
    else slice (e ∷ es) (sub64 start e.index) (add64 (sub64 committed e.index) 1)

unfoldable pub next_ents : RaftLog → Option (List Entry)
unfolding next_by
next_ents l = next_by l.entries l.applied l.committed

-- The case of `Term` for an index that is not past the end.
unfoldable pub term_within : RaftLog → List Entry → ℕ → Option (ℕ × Option Error)
term_within l [] i = l.storage.term i
term_within l (e ∷ es) i =
    if leb e.index i
    then (do x ← get_elem? (e ∷ es) (sub64 i e.index); some (x.term, none))
    else l.storage.term i

unfoldable pub term : RaftLog → ℕ → Option (ℕ × Option Error)
term l i = do
  last ← last_index l
  if ltb last i then some (0, some unavailable) else term_within l l.entries i
