-- ===== src/Raft/Election/Appends.antt =====
-- A leader only appends to its log (raft/raft.go).
use mathlib.Core.List.{append-nil}
use tiny_kv_practice.Prelude.{
  ℕ, ◌+◌, ◌<◌, ◌≡◌, ◌==◌, refl, sym, ap, subst, ◌∙◌, some, List, [], ◌++◌, arith, length,
  >>=-eq-some, if-cases, inl, inr, add64, ltb, u64_mod, leb,
}
use mathlib.Core.Option.{some-injective}
use tiny_kv_practice.Prelude.Maps.{keys, lookup}
use tiny_kv_practice.Raft.Types.{
  Entry, Message, MessageType, msg_beat, msg_propose, msg_append, msg_append_response,
  msg_request_vote, msg_heartbeat, msg_heartbeat_response,
}
use tiny_kv_practice.Raft.Log.{RaftLog, last_index, term}
use tiny_kv_practice.Raft.Node.{
  follower, leader, Raft, set_progress, become_follower, no_node, commit_or_replicate,
  broadcast_heartbeat,
}
use tiny_kv_practice.Raft.Step.{
  quorum_match, commit_quorum, handle_append_response, handle_propose, number_entries,
  handle_heartbeat_response, handle_heartbeat, on_leader, step_leader, dispatch_as, dispatch, step,
  is_term_free,
}
use tiny_kv_practice.Raft.Step.Elections.{broadcast_heartbeat_adds}
use tiny_kv_practice.Raft.Election.Kept.{handle_append_entries-ballot}
use tiny_kv_practice.Raft.Election.Elected.{not_leader, role_of, role_of_some, heartbeat_role}
use tiny_kv_practice.Raft.Election.Refines.{dispatch_as-Takes, later_term}
use tiny_kv_practice.Raft.Election.Promises.{Turn-term-le}
use tiny_kv_practice.Raft.Election.Commits.{
  set_progress-raft_log, Adds-raft_log, send_append-raft_log, refused-raft_log,
}
use tiny_kv_practice.Raft.Election.Outbox.{broadcast_append-Adds}

-- The entries of a log, and more after them.
abbrev pub Extends : Raft → Raft → Type 0
Extends r r' = (new : List Entry) × (r'.raft_log.entries ≡ r.raft_log.entries ++ new)

same_log-Extends : (r r' : Raft) → r'.raft_log ≡ r.raft_log → Extends r r'
same_log-Extends r r' p =
    ([], ap (λ (l : RaftLog). l.entries) p ∙ sym (append-nil r.raft_log.entries))

commit_or_replicate-entries :
    (r : Raft) (index : ℕ) {r' : Raft}
    → commit_or_replicate r index ≡ some r'
    → r'.raft_log.entries ≡ r.raft_log.entries
unfolding commit_or_replicate
commit_or_replicate-entries r index h = elim (if-cases (length r.prs == 1) h) [
  | inl (_, commits) ↦ ap (λ (x : Raft). x.raft_log.entries) (sym (some-injective _ _ commits))
  | inr (_, sends) ↦
      ap (λ (l : RaftLog). l.entries) (Adds-raft_log r (broadcast_append-Adds r (keys r.prs) sends))
]

handle_propose-Extends :
    (r : Raft) (m : Message) {r' : Raft} → handle_propose r m ≡ some r' → Extends r r'
unfolding handle_propose
handle_propose-Extends r m h =
    let (last, known, g) = >>=-eq-some (last_index r.raft_log) _ h in
    let (end, ends, k) = >>=-eq-some (last_index _) _ g in
    let (s, moved, sends) = >>=-eq-some (set_progress _ r.id end (add64 end 1)) _ k in
    (
      number_entries r.term last m.entries,
      commit_or_replicate-entries s end sends
          ∙ ap (λ (l : RaftLog). l.entries) (set_progress-raft_log _ r.id end (add64 end 1) moved),
    )

handle_heartbeat_response-raft_log :
    (r : Raft) (m : Message) {r' : Raft}
    → handle_heartbeat_response r m ≡ some r'
    → r'.raft_log ≡ r.raft_log
unfolding handle_heartbeat_response
handle_heartbeat_response-raft_log r m h =
    let (pr, found, g) = >>=-eq-some (lookup m.from r.prs) _ h in
    let (last, known, k) = >>=-eq-some (last_index r.raft_log) _ g in
    elim (if-cases (leb pr.next last) k) [
      | inl (_, lags) ↦ send_append-raft_log r m.from lags
      | inr (_, stays) ↦ ap (λ (x : Raft). x.raft_log) (sym (some-injective _ _ stays))
    ]

commit_quorum-entries :
    (r : Raft) {r' : Raft} → commit_quorum r ≡ some r' → r'.raft_log.entries ≡ r.raft_log.entries
unfolding commit_quorum
commit_quorum-entries r {r'} h =
    let (c, found, g) = >>=-eq-some (quorum_match r.prs) _ h in
    elim (if-cases (ltb r.raft_log.committed c) g) [
      | inr (_, stays) ↦ ap (λ (x : Raft). x.raft_log.entries) (sym (some-injective _ _ stays))
      | inl (_, k) ↦
          let (t, known, e) = >>=-eq-some (term r.raft_log c) _ k in
          elim (if-cases (t.0 == r.term) e) [
            | inr (_, stays) ↦
                ap (λ (x : Raft). x.raft_log.entries) (sym (some-injective _ _ stays))
            | inl (_, sends) ↦
                ap (λ (l : RaftLog). l.entries)
                  (Adds-raft_log _ (broadcast_append-Adds _ (keys r.prs) sends))
          ]
    ]

handle_append_response-entries :
    (r : Raft) (m : Message) {r' : Raft}
    → handle_append_response r m ≡ some r'
    → r'.raft_log.entries ≡ r.raft_log.entries
unfolding handle_append_response
handle_append_response-entries r m h = elim (if-cases m.reject h) [
  | inl (_, refused) ↦
      let (pr, found, g) = >>=-eq-some (lookup m.from r.prs) _ refused in
      ap (λ (l : RaftLog). l.entries) (refused-raft_log r m.from pr.match_index _ g)
  | inr (_, accepts) ↦
      let (s, moved, g) = >>=-eq-some (set_progress r m.from m.index (add64 m.index 1)) _ accepts in
      commit_quorum-entries s g
      ∙ ap (λ (l : RaftLog). l.entries) (set_progress-raft_log r m.from m.index _ moved)
]

same_entries-Extends : (r r' : Raft) → r'.raft_log.entries ≡ r.raft_log.entries → Extends r r'
same_entries-Extends r r' p = ([], p ∙ sym (append-nil r.raft_log.entries))

same_node-Extends : (r r' s : Raft) → some s ≡ some r' → s.raft_log ≡ r.raft_log → Extends r r'
same_node-Extends r r' s h p =
    same_log-Extends r r' (ap (λ (x : Raft). x.raft_log) (sym (some-injective _ _ h)) ∙ p)

on_leader-Extends :
    (t : MessageType) (r : Raft) (m : Message) {r' : Raft}
    → on_leader t r m ≡ some r'
    → r'.state ≡ leader
    → Extends r r'
unfolding on_leader become_follower
on_leader-Extends msg_beat r m {r'} h leads =
    same_node-Extends r r' (broadcast_heartbeat r (keys r.prs)) h
      (Adds-raft_log r (broadcast_heartbeat_adds r (keys r.prs)))
on_leader-Extends msg_request_vote r m {r'} h leads = same_node-Extends r r' _ h refl
on_leader-Extends msg_heartbeat r m {r'} h leads =
    let s = become_follower r m.term m.from in
    not_leader follower
      (sym (role_of_some (handle_heartbeat s m) r' h ∙ heartbeat_role s m) ∙ leads) (λ p. cc)
on_leader-Extends msg_heartbeat_response r m {r'} h leads =
    same_log-Extends r r' (handle_heartbeat_response-raft_log r m h)
on_leader-Extends msg_propose r m h leads = handle_propose-Extends r m h
on_leader-Extends msg_append_response r m {r'} h leads =
    same_entries-Extends r r' (handle_append_response-entries r m h)
on_leader-Extends msg_append r m {r'} h leads =
    not_leader follower
      (sym (role_of (become_follower r m.term m.from) r' (handle_append_entries-ballot _ m h))
        ∙ leads)
      (λ p. cc)
on_leader-Extends _ r m {r'} h leads = same_node-Extends r r' r h refl

dispatch-Extends :
    (r : Raft) (m : Message) {r' : Raft}
    → dispatch r m ≡ some r'
    → r.state ≡ leader
    → r'.state ≡ leader
    → Extends r r'
unfolding dispatch dispatch_as step_leader
dispatch-Extends r m {r'} h role leads =
    on_leader-Extends m.msg_type r m (subst (λ st. dispatch_as st r m ≡ some r') role h) leads

-- A leader never changes or removes an entry of its log: as long as it stays the leader of its term, each
-- step leaves the log as it is or appends to it.
pub step-appends :
    (r : Raft) (m : Message) {r' : Raft}
    → r.term + 1 < u64_mod
    → m.term + 1 < u64_mod
    → step r m ≡ some r'
    → r.state ≡ leader
    → r'.state ≡ leader
    → r'.term ≡ r.term
    → (new : List Entry) × (r'.raft_log.entries ≡ r.raft_log.entries ++ new)
unfolding step dispatch become_follower
step-appends r m {r'} word message_word h role leads same =
    elim (if-cases (is_term_free m.msg_type) h) [
      | inl (_, g) ↦ dispatch-Extends r m g role leads
      | inr (_, g) ↦ elim (if-cases (ltb r.term m.term) g) [
        | inl (later, k) ↦
            let s = become_follower r m.term no_node in
            let grows = Turn-term-le (
              dispatch_as-Takes s m (ground (arith, later)) (λ p. later_term r m later) s.state refl
                k) in
            absurd (ground (arith, later, grows))
        | inr (_, k) ↦ elim (if-cases (ltb m.term r.term) k) [
          | inl (_, stale) ↦ same_node-Extends r r' r stale refl
          | inr (_, g) ↦ dispatch-Extends r m g role leads
        ]
      ]
    ]
