-- ===== src/Raft/Node/Starts.antt =====
-- A node that starts from a storage (`newLog` of raft/log.go and `newRaft` of raft/raft.go).
use tiny_kv_practice.Prelude.{
  ℕ, ◌+◌, ◌-◌, ◌≤◌, ◌<◌, ◌≡◌, refl, ◌∙◌, some, none, List, [], ◌∷◌, arith, length,
  take_of_length-le, u64_mod, add64, sub64, add64_exact, sub64_exact, ◌==◌, All, ◌⊎◌, Bool-cases,
  inl, inr, ==_iff,
}
use tiny_kv_practice.Prelude.Maps.{lookup, insert, lookup-insert, All-insert}
use tiny_kv_practice.Raft.Types.{HardState, ConfState, SnapshotMetadata}
use tiny_kv_practice.Raft.Storage.{Storage, MemoryStorage, to_storage, initial_state}
use tiny_kv_practice.Raft.Storage.Shape.{
  IsOrdered, last_index_lem, first_index_lem, entries_lem, to_storage-IsCompacted,
}
use tiny_kv_practice.Raft.Log.{RaftLog, new_log}
use tiny_kv_practice.Raft.Node.{
  Config, Progress, Raft, follower, no_node, validate, new_progress, initial_node, start, new_raft,
  become_follower,
}
use tiny_kv_practice.Raft.Node.Valid.{IsValid}

-- `newLog` takes over all entries after the snapshot.
new_log_lem :
    (base : ℕ) (ms : MemoryStorage) (o : IsOrdered base ms)
    → new_log (to_storage ms)
      ≡ some (record {
        storage = to_storage ms;
        committed = base;
        applied = base;
        stabled = base + length o.rest;
        entries = o.rest;
        pending_snapshot = none;
      })
unfolding new_log to_storage
new_log_lem base ms o =
    let hi : add64 (base + length o.rest) 1 ≡ base + length o.rest + 1 =
      add64_exact _ 1 (omega (arith, o.small)) in
    let before : sub64 (base + 1) 1 ≡ base =
      sub64_exact (base + 1) 1 (omega arith) (omega (arith, o.small)) ∙ omega arith in
    let lo : base + 1 - base - 1 ≡ 0 = omega arith in
    let count : base + length o.rest + 1 - base - 1 ≡ length o.rest = omega arith in
    rw
      (
        first_index_lem o,
        last_index_lem o,
        hi,
        entries_lem o (base + 1) (base + length o.rest + 1) (omega arith) (omega arith)
            (omega arith),
        before,
        lo,
        count,
        take_of_length-le (length o.rest) o.rest (omega arith),
      )
      refl

lookup-new_progress :
    (id : ℕ) (peers : List ℕ) (prs : List (ℕ × Progress)) {pr : Progress}
    → lookup id prs ≡ some pr
    → (own : Progress) × (lookup id (new_progress peers prs) ≡ some own)
unfolding new_progress
lookup-new_progress id [] prs {pr} h = (pr, h)
lookup-new_progress id (peer ∷ peers) prs {pr} h =
    let fresh : Progress = record { match_index = 0; next = 1 } in
    elim (Bool-cases (peer == id)) [
      | inl same ↦
          lookup-new_progress id peers (insert peer fresh prs) {pr = fresh}
            (lookup-insert peer id fresh prs ∙ rw same refl)
      | inr other ↦
          lookup-new_progress id peers (insert peer fresh prs) {pr = pr}
            (lookup-insert peer id fresh prs ∙ rw other h)
    ]

-- A node that is named among the peers.
abbrev pub IsPeer : ℕ → List ℕ → Type 0
IsPeer id [] = ⊥
IsPeer id (peer ∷ peers) = (peer ≡ id) ⊎ IsPeer id peers

peer-new_progress :
    (id : ℕ) (peers : List ℕ) (prs : List (ℕ × Progress))
    → IsPeer id peers
    → (own : Progress) × (lookup id (new_progress peers prs) ≡ some own)
unfolding new_progress
peer-new_progress id [] prs h = absurd h
peer-new_progress id (peer ∷ peers) prs (inl same) =
    let fresh : Progress = record { match_index = 0; next = 1 } in
    lookup-new_progress id peers (insert peer fresh prs) {pr = fresh}
      (lookup-insert peer id fresh prs ∙ rw ((==_iff peer id).1 same) refl)
peer-new_progress id (peer ∷ peers) prs (inr rest) =
    peer-new_progress id peers (insert peer (record { match_index = 0; next = 1 }) prs) rest

new_progress-words :
    (peers : List ℕ) (prs : List (ℕ × Progress))
    → All (λ e. e.1.next < u64_mod) prs
    → All (λ e. e.1.next < u64_mod) (new_progress peers prs)
unfolding new_progress
new_progress-words [] prs a = a
new_progress-words (peer ∷ peers) prs a =
    new_progress-words peers _ (All-insert (λ e. e.1.next < u64_mod) peer _ prs (omega arith) a)

start_run :
    (c : Config) (rand : ℕ → ℕ) (s : Storage) {hard : HardState} {conf : ConfState} {log : RaftLog}
    → c.storage ≡ some s
    → s.initial_state ≡ some (hard, conf, none)
    → new_log s ≡ some log
    → start c rand ≡ some (become_follower (initial_node c hard log rand) hard.term no_node)
unfolding start initial_node
start_run c rand s from reads opens = rw (from, opens, reads) refl

initial_state_lem :
    (ms : MemoryStorage) {d : SnapshotMetadata} {conf : ConfState}
    → ms.snapshot.metadata ≡ some d
    → d.conf_state ≡ some conf
    → (to_storage ms).initial_state ≡ some (ms.hard_state, conf, none)
unfolding to_storage initial_state
initial_state_lem ms has_d has_conf = rw (has_d, has_conf) refl

-- A configuration that `validate` accepts and that has its id among its peers, over a storage in order
-- that has a snapshot with a configuration and whose commit index is not past its last entry, starts a
-- valid follower: it has the term and the vote of the storage, its log is the storage's, and all of it
-- counts as stable.
pub new_raft-IsValid :
    (base : ℕ) (c : Config) (rand : ℕ → ℕ) (ms : MemoryStorage) {d : SnapshotMetadata}
    {conf : ConfState}
    → (o : IsOrdered base ms) → c.storage ≡ some (to_storage ms)
    → validate c ≡ none
    → IsPeer c.id c.peers
    → ms.snapshot.metadata ≡ some d
    → d.conf_state ≡ some conf
    → ms.hard_state.commit ≤ base + length o.rest
    → (r : Raft) × (new_raft c rand ≡ some r)
      × IsValid base r
      × (r.state ≡ follower)
      × (r.term ≡ ms.hard_state.term)
      × (r.vote ≡ ms.hard_state.vote)
      × (r.raft_log.entries ≡ o.rest)
      × (r.raft_log.stabled ≡ base + length o.rest)
unfolding new_raft initial_node become_follower
new_raft-IsValid base c rand ms {d} {conf} o from fine peer has_d has_conf reached =
    let (own, found) = peer-new_progress c.id c.peers [] peer in
    let log : RaftLog = record {
      storage = to_storage ms;
      committed = base;
      applied = base;
      stabled = base + length o.rest;
      entries = o.rest;
      pending_snapshot = none;
    } in
    let r = initial_node c ms.hard_state log rand in
    let valid : IsValid base (become_follower r r.term no_node) = record {
      wf = record {
        consecutive = o.consecutive;
        base-le = omega arith;
        stabled-le = omega arith;
        no_pending = refl;
        small = omega (arith, o.small);
      };
      compacted = to_storage-IsCompacted o;
      committed-le = reached;
      own = own;
      own_eq = found;
      active_term = λ active. absurd (active refl);
      next_words = new_progress-words c.peers [] tt;
    } in
    let run =
      start_run c rand (to_storage ms) from (initial_state_lem ms has_d has_conf)
        (new_log_lem base ms o) in
    (
      become_follower r r.term no_node,
      rw (new_raft, fine) run,
      valid,
      refl,
      ground arith,
      ground arith,
      refl,
      refl,
    )
