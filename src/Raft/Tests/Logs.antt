-- ===== src/Raft/Tests/Logs.antt =====
-- The theorems on logs and storages at concrete ones.
use tiny_kv_practice.Prelude.{inl, true, ℕ, ◌+◌, ◌-◌, ◌≡◌, refl, some, none, [], ◌∷◌, arith}
use tiny_kv_practice.Prelude.Maps.{lookup}
use tiny_kv_practice.Raft.Storage.{MemoryStorage, append}
use tiny_kv_practice.Raft.Storage.Shape.{IsOrdered, to_storage-IsCompacted}
use tiny_kv_practice.Raft.Storage.Changes.{append_lem, appended}
use tiny_kv_practice.Raft.Log.{term as log_term, next_ents}
use tiny_kv_practice.Raft.Log.Windows.{between, next_ents-eq-between}
use tiny_kv_practice.Raft.Node.{Raft, new_raft, validate, send_append, follower}
use tiny_kv_practice.Raft.Node.Valid.{IsValid, with_msgs}
use tiny_kv_practice.Raft.Node.Sends.{append_for, send_append-some}
use tiny_kv_practice.Raft.Node.Starts.{new_raft-IsValid}
use tiny_kv_practice.Raft.Step.Rounds.{Merged, append_entries-merge}
use tiny_kv_practice.Raft.Tests.Nodes.{
  entry, two_entries, storage, storage-IsOrdered, config, log, log-IsWf, progress, leading, entries,
}

next_ents-eq-between_example : next_ents log ≡ some (between 0 1 log.entries)
next_ents-eq-between_example = next_ents-eq-between 0 log log-IsWf (omega arith) (omega arith)

append_lem_example :
    (ms' : MemoryStorage) × (o' : IsOrdered 0 ms') × (append storage (entry 2 2 ∷ entry 3 2 ∷ [])
      ≡ some (ms', none))
    × (o'.rest ≡ appended 0 1 two_entries (entry 2 2 ∷ entry 3 2 ∷ []))
append_lem_example =
    append_lem 0 1 storage (entry 2 2 ∷ entry 3 2 ∷ []) storage-IsOrdered (refl, (refl, tt))
      (λ p. cc) (omega arith) (omega arith)

new_raft-IsValid_example :
    (r : Raft) × (new_raft config (λ n. n) ≡ some r)
    × IsValid 0 r
    × (r.state ≡ follower)
    × (r.term ≡ 2)
    × (r.vote ≡ 3)
    × (r.raft_log.entries ≡ two_entries)
    × (r.raft_log.stabled ≡ 0 + 2)
unfolding validate
new_raft-IsValid_example =
    new_raft-IsValid 0 config (λ n. n) storage storage-IsOrdered refl refl (inl refl) refl refl
      (omega arith)

append_entries-merge_example : Merged 0 1 log entries.entries
append_entries-merge_example =
    append_entries-merge 0 1 log entries.entries log-IsWf (omega arith) (refl, (refl, (refl, tt)))
      (omega arith)

send_append-some_example :
    (prev_term : ℕ) × (log_term log (3 - 1) ≡ some (prev_term, none))
    × (send_append leading 2
        ≡ some (with_msgs leading (append_for 0 leading 2 (progress 1 3) prev_term ∷ []), true))
unfolding lookup
send_append-some_example =
    send_append-some 0 leading 2 (progress 1 3) log-IsWf (to_storage-IsCompacted storage-IsOrdered)
      refl (omega arith) (omega arith) (omega arith)
