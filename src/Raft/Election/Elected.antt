-- ===== src/Raft/Election/Elected.antt =====
-- When a node of raft/raft.go becomes the leader.
use tiny_kv_practice.Prelude.{
  ◌/◌, ◌<◌, ◌≡◌, ◌≢◌, ◌==◌, refl, sym, ap, ◌∙◌, true, false, not, ◌&&◌, some, arith, ==_iff,
  >>=-eq-some, if-cases, sym, Bool-cases, ◌⊎◌, inl, inr, ltb, ltb→lt, length,
}
use tiny_kv_practice.Prelude.Maps.{insert}
use mathlib.Core.Option.{some-injective}
use tiny_kv_practice.Raft.Types.{
  Message, MessageType, msg_hup, msg_append, msg_request_vote, msg_request_vote_response,
  msg_heartbeat,
}
use tiny_kv_practice.Raft.Log.{last_index, term}
use tiny_kv_practice.Raft.Node.{
  no_node, StateType, follower, candidate, leader, Raft, become_follower, start_campaign,
  become_candidate,
}
use tiny_kv_practice.Raft.Step.{
  campaign, log_up_to_date, handle_request_vote, on_follower, step_follower, count_votes,
  handle_vote_response, on_candidate, step_candidate, is_term_free, dispatch_as, dispatch, step,
  handle_heartbeat,
}
use tiny_kv_practice.Raft.Election.{Ballot, ballot}
use tiny_kv_practice.Raft.Election.Kept.{handle_append_entries-ballot}
use tiny_kv_practice.Raft.Election.Refines.{ask_votes-ballot, handle_heartbeat-ballot}

-- The vote in `m` makes a majority of the peers for `r`.
abbrev pub IsDecisive : Raft → Message → Type 0
IsDecisive r m =
    (r.state ≡ candidate)
    × (m.msg_type ≡ msg_request_vote_response)
    × (length r.prs / 2 < count_votes true (insert m.from (not m.reject) r.votes))

pub role_of : (r r' : Raft) → ballot r' ≡ ballot r → r'.state ≡ r.state
role_of r r' p = ap (λ (b : Ballot). b.role) p

pub heartbeat_role : (r : Raft) (m : Message) → (handle_heartbeat r m).state ≡ r.state
heartbeat_role r m = role_of r (handle_heartbeat r m) (handle_heartbeat-ballot r m)

pub role_of_some : (s r' : Raft) → some s ≡ some r' → r'.state ≡ s.state
role_of_some s r' h = ap (λ (x : Raft). x.state) (sym (some-injective _ _ h))

pub not_leader {ℓ} : {A : Type ℓ} (s : StateType) → s ≡ leader → s ≢ leader → A
not_leader s p q = absurd (q p)

campaign-elected :
    (r : Raft) {r' : Raft} → campaign r ≡ some r' → r'.state ≡ leader → length r.prs ≡ 1
unfolding campaign become_candidate start_campaign
campaign-elected r {r'} h leads =
    let (s, stands, g) = >>=-eq-some (become_candidate r) _ h in
    let same = role_of s r' (ask_votes-ballot s.state s g) in
    elim (if-cases (length r.prs == 1) stands) [
      | inl (alone, _) ↦ (==_iff (length r.prs) 1).0 alone
      | inr (_, waits) ↦
          let stood = role_of_some (start_campaign r) s waits in
          not_leader s.state (sym same ∙ leads) (λ p. cc)
    ]

handle_request_vote-role :
    (r : Raft) (m : Message) {r' : Raft} → handle_request_vote r m ≡ some r' → r'.state ≡ r.state
unfolding handle_request_vote
handle_request_vote-role r m {r'} h =
    elim (if-cases (not (r.vote == no_node) && not (r.vote == m.from)) h) [
      | inl (_, refuses) ↦ role_of_some _ r' refuses
      | inr (free, g) ↦
          let (last, known, k) = >>=-eq-some (last_index r.raft_log) _ g in
          let (t, at, e) = >>=-eq-some (term r.raft_log last) _ k in
          elim (if-cases (log_up_to_date m last t.0) e) [
            | inl (_, grants) ↦ role_of_some _ r' grants
            | inr (_, refuses) ↦ role_of_some _ r' refuses
          ]
    ]

on_follower-elected :
    (t : MessageType) (r : Raft) (m : Message) {r' : Raft}
    → r.state ≢ leader
    → on_follower t r m ≡ some r'
    → r'.state ≡ leader
    → length r.prs ≡ 1
unfolding on_follower
on_follower-elected msg_hup r m role h leads = campaign-elected r h leads
on_follower-elected msg_request_vote r m {r'} role h leads =
    not_leader r.state (sym (handle_request_vote-role r m h) ∙ leads) role
on_follower-elected msg_heartbeat r m {r'} role h leads =
    not_leader r.state (sym (role_of_some (handle_heartbeat r m) r' h ∙ heartbeat_role r m) ∙ leads)
      role
on_follower-elected msg_append r m {r'} role h leads =
    not_leader r.state
      (sym (
          role_of (record r { election_elapsed = 0; lead = m.from }) r'
            (handle_append_entries-ballot _ m h))
        ∙ leads)
      role
on_follower-elected _ r m {r'} role h leads =
    not_leader r.state (sym (role_of_some r r' h) ∙ leads) role

handle_vote_response-elected :
    (r : Raft) (m : Message) {r' : Raft}
    → r.state ≢ leader
    → handle_vote_response r m ≡ some r'
    → r'.state ≡ leader
    → length r.prs / 2 < count_votes true (insert m.from (not m.reject) r.votes)
unfolding handle_vote_response become_follower
handle_vote_response-elected r m {r'} role h leads =
    let s : Raft = record r { votes = insert m.from (not m.reject) r.votes } in
    elim (if-cases (ltb (length r.prs / 2) (count_votes true s.votes)) h) [
      | inl (most, _) ↦ ltb→lt _ _ most
      | inr (_, g) ↦ elim (if-cases (ltb (length r.prs / 2) (count_votes false s.votes)) g) [
        | inl (_, falls) ↦
            not_leader follower
              (sym (role_of_some (become_follower s r.term no_node) r' falls) ∙ leads) (λ p. cc)
        | inr (_, waits) ↦ not_leader r.state (sym (role_of_some s r' waits) ∙ leads) role
      ]
    ]

on_candidate-elected :
    (t : MessageType) (r : Raft) (m : Message) {r' : Raft}
    → r.state ≡ candidate
    → m.msg_type ≡ t
    → on_candidate t r m ≡ some r'
    → r'.state ≡ leader
    → (length r.prs ≡ 1) ⊎ IsDecisive r m
unfolding on_candidate become_follower
on_candidate-elected msg_hup r m role is h leads = inl (campaign-elected r h leads)
on_candidate-elected msg_request_vote r m {r'} role is h leads =
    elim (Bool-cases (m.from == r.id)) [
      | inl own ↦ not_leader candidate (sym (role_of_some _ r' h ∙ rw own role) ∙ leads) (λ p. cc)
      | inr other ↦
          not_leader candidate (sym (role_of_some _ r' h ∙ rw other role) ∙ leads) (λ p. cc)
    ]
on_candidate-elected msg_request_vote_response r m role is h leads =
    inr (role, is, handle_vote_response-elected r m (λ p. cc) h leads)
on_candidate-elected msg_heartbeat r m {r'} role is h leads =
    not_leader follower
      (sym (
          role_of_some (handle_heartbeat (become_follower r m.term m.from) m) r' h
          ∙ heartbeat_role (become_follower r m.term m.from) m)
        ∙ leads)
      (λ p. cc)
on_candidate-elected msg_append r m {r'} role is h leads =
    not_leader follower (sym (role_of_some (become_follower r m.term m.from) r' h) ∙ leads)
      (λ p. cc)
on_candidate-elected _ r m {r'} role is h leads =
    not_leader candidate (sym (role_of_some r r' h ∙ role) ∙ leads) (λ p. cc)

dispatch_as-elected :
    (st : StateType) (r : Raft) (m : Message) {r' : Raft}
    → r.state ≡ st
    → r.state ≢ leader
    → dispatch_as st r m ≡ some r'
    → r'.state ≡ leader
    → (length r.prs ≡ 1) ⊎ IsDecisive r m
unfolding dispatch_as step_follower step_candidate
dispatch_as-elected follower r m is role h leads =
    inl (on_follower-elected m.msg_type r m role h leads)
dispatch_as-elected candidate r m is role h leads =
    on_candidate-elected m.msg_type r m is refl h leads
dispatch_as-elected leader r m is role h leads = absurd (role is)

-- A node that becomes the leader is alone in its cluster, or was a candidate that handles a vote response of
-- its term, with which its list of votes has more granted ones than half the number of its peers.
-- That the voters are peers is not said: `Step` enters the vote of any sender, and RawNode.Step drops those
-- of unknown nodes.
pub step-elected :
    (r : Raft) (m : Message) {r' : Raft}
    → step r m ≡ some r'
    → r.state ≢ leader
    → r'.state ≡ leader
    → (length r.prs ≡ 1) ⊎ (IsDecisive r m × (m.term ≡ r.term))
unfolding step dispatch become_follower is_term_free
step-elected r m {r'} h role leads = elim (if-cases (is_term_free m.msg_type) h) [
  | inl (local, g) ↦ elim (dispatch_as-elected r.state r m refl role g leads) [
    | inl alone ↦ inl alone
    | inr (_, is, _) ↦ let clash : false ≡ true = ap is_term_free (sym is) ∙ local in cc
  ]
  | inr (_, g) ↦ elim (if-cases (ltb r.term m.term) g) [
    | inl (_, k) ↦
        elim (dispatch_as-elected follower (become_follower r m.term no_node) m refl (λ p. cc) k
          leads) [
            | inl alone ↦ inl alone
            | inr (is, _, _) ↦ let clash : follower ≡ candidate = is in cc
          ]
    | inr (not_later, k) ↦ elim (if-cases (ltb m.term r.term) k) [
      | inl (_, stale) ↦ not_leader r.state (sym (role_of_some r r' stale) ∙ leads) role
      | inr (not_stale, same) ↦ elim (dispatch_as-elected r.state r m refl role same leads) [
        | inl alone ↦ inl alone
        | inr decides ↦ inr (decides, ground arith)
      ]
    ]
  ]
]
