-- ===== src/Raft/Election/Kept.antt =====
-- What a node does with its log (raft/raft.go) leaves its ballot as it is.
use tiny_kv_practice.Prelude.{
  ℕ, ◌≡◌, ◌==◌, sym, ap, ◌∙◌, some, add64, >>=-eq-some, if-cases, inl, inr, ltb, leb, length,
}
use tiny_kv_practice.Prelude.Maps.{keys, lookup}
use mathlib.Core.Option.{some-injective}
use tiny_kv_practice.Raft.Types.{Message}
use tiny_kv_practice.Raft.Log.{last_index, term}
use tiny_kv_practice.Raft.Node.{Raft, send_append, set_progress, commit_or_replicate}
use tiny_kv_practice.Raft.Step.{
  append_entries, accept_entries, handle_append_entries, handle_propose, handle_heartbeat_response,
  quorum_match, commit_quorum, handle_append_response,
}
use tiny_kv_practice.Raft.Election.{ballot}
use tiny_kv_practice.Raft.Election.Outbox.{Adds, send_append-Adds, broadcast_append-Adds}

-- What keeps the ballot.
pub Adds-ballot : (r : Raft) {r' : Raft} → Adds r r' → ballot r' ≡ ballot r
Adds-ballot r (sent, p) = ap ballot p

pub set_progress-ballot :
    (r : Raft) (id m n : ℕ) {r' : Raft} → set_progress r id m n ≡ some r' → (ballot r' ≡ ballot r)
unfolding set_progress
set_progress-ballot r id m n h =
    let (pr, found, g) = >>=-eq-some (lookup id r.prs) _ h in ap ballot (sym (some-injective _ _ g))

pub commit_or_replicate-ballot :
    (r : Raft) (index : ℕ) {r' : Raft}
    → commit_or_replicate r index ≡ some r'
    → ballot r' ≡ ballot r
unfolding commit_or_replicate
commit_or_replicate-ballot r index h = elim (if-cases (length r.prs == 1) h) [
  | inl (_, commits) ↦ ap ballot (sym (some-injective _ _ commits))
  | inr (_, sends) ↦ Adds-ballot r (broadcast_append-Adds r (keys r.prs) sends)
]

pub accept_entries-ballot :
    (r : Raft) (m : Message) {r' : Raft} → accept_entries r m ≡ some r' → ballot r' ≡ ballot r
unfolding accept_entries
accept_entries-ballot r m h =
    let (l, run, g) = >>=-eq-some (append_entries r.raft_log m.entries) _ h in
    ap ballot (sym (some-injective _ _ g))

pub handle_append_entries-ballot :
    (r : Raft) (m : Message) {r' : Raft}
    → handle_append_entries r m ≡ some r'
    → ballot r' ≡ ballot r
unfolding handle_append_entries
handle_append_entries-ballot r m h =
    let (last, known, g) = >>=-eq-some (last_index r.raft_log) _ h in
    elim (if-cases (ltb last m.index) g) [
      | inl (_, refuses) ↦ ap ballot (sym (some-injective _ _ refuses))
      | inr (_, inside) ↦
          let (t, at, k) = >>=-eq-some (term r.raft_log m.index) _ inside in
          elim (if-cases (t.0 == m.log_term) k) [
            | inl (_, accepts) ↦ accept_entries-ballot r m accepts
            | inr (_, refuses) ↦ ap ballot (sym (some-injective _ _ refuses))
          ]
    ]

pub handle_propose-ballot :
    (r : Raft) (m : Message) {r' : Raft} → handle_propose r m ≡ some r' → ballot r' ≡ ballot r
unfolding handle_propose
handle_propose-ballot r m h =
    let (last, known, g) = >>=-eq-some (last_index r.raft_log) _ h in
    let (end, ends, k) = >>=-eq-some (last_index _) _ g in
    let (s, moved, sends) = >>=-eq-some (set_progress _ r.id end (add64 end 1)) _ k in
    commit_or_replicate-ballot s end sends ∙ set_progress-ballot _ r.id end (add64 end 1) moved

pub handle_heartbeat_response-ballot :
    (r : Raft) (m : Message) {r' : Raft}
    → handle_heartbeat_response r m ≡ some r'
    → ballot r' ≡ ballot r
unfolding handle_heartbeat_response
handle_heartbeat_response-ballot r m h =
    let (pr, found, g) = >>=-eq-some (lookup m.from r.prs) _ h in
    let (last, known, k) = >>=-eq-some (last_index r.raft_log) _ g in
    elim (if-cases (leb pr.next last) k) [
      | inl (_, lags) ↦
          let (out, sends, e) = >>=-eq-some (send_append r m.from) _ lags in
          ap ballot (sym (some-injective _ _ e)) ∙ Adds-ballot r (send_append-Adds r m.from sends)
      | inr (_, stays) ↦ ap ballot (sym (some-injective _ _ stays))
    ]

pub commit_quorum-ballot : (r : Raft) {r' : Raft} → commit_quorum r ≡ some r' → ballot r' ≡ ballot r
unfolding commit_quorum
commit_quorum-ballot r h =
    let (c, found, g) = >>=-eq-some (quorum_match r.prs) _ h in
    elim (if-cases (ltb r.raft_log.committed c) g) [
      | inr (_, stays) ↦ ap ballot (sym (some-injective _ _ stays))
      | inl (_, new) ↦
          let (t, known, k) = >>=-eq-some (term r.raft_log c) _ new in
          elim (if-cases (t.0 == r.term) k) [
            | inr (_, stays) ↦ ap ballot (sym (some-injective _ _ stays))
            | inl (_, sends) ↦ Adds-ballot _ (broadcast_append-Adds _ (keys r.prs) sends)
          ]
    ]

pub handle_append_response-ballot :
    (r : Raft) (m : Message) {r' : Raft}
    → handle_append_response r m ≡ some r'
    → ballot r' ≡ ballot r
unfolding handle_append_response
handle_append_response-ballot r m h = elim (if-cases m.reject h) [
  | inl (_, refused) ↦
      let (pr, found, g) = >>=-eq-some (lookup m.from r.prs) _ refused in
      let (s, moved, k) = >>=-eq-some (set_progress r m.from pr.match_index _) _ g in
      let (out, sends, e) = >>=-eq-some (send_append s m.from) _ k in
      ap ballot (sym (some-injective _ _ e))
      ∙ Adds-ballot s (send_append-Adds s m.from sends)
      ∙ set_progress-ballot r m.from pr.match_index _ moved
  | inr (_, accepted) ↦
      let (s, moved, k) =
        >>=-eq-some (set_progress r m.from m.index (add64 m.index 1)) _ accepted in
      commit_quorum-ballot s k ∙ set_progress-ballot r m.from m.index (add64 m.index 1) moved
]
