-- ===== src/Raft/Election/Refines.antt =====
-- Each step of raft/raft.go takes turns of the election protocol.
use tiny_kv_practice.Prelude.{
  ℕ, ◌+◌, ◌/◌, ◌<◌, ◌≡◌, ◌≢◌, ◌==◌, refl, sym, ap, subst, ◌∙◌, true, false, not, ◌&&◌, some, List,
  [], ◌∷◌, arith, u64_mod, add64, add64_exact, >>=-eq-some, if-cases, Bool-cases, inl, inr, ltb,
  ltb→lt, length, ◌≤◌, ◌⊎◌,
}
use tiny_kv_practice.Prelude.Maps.{keys, insert}
use mathlib.Core.Option.{some-injective}
use tiny_kv_practice.Raft.Types.{
  Message, MessageType, msg_hup, msg_beat, msg_propose, msg_append, msg_append_response,
  msg_request_vote, msg_request_vote_response, msg_heartbeat, msg_heartbeat_response,
}
use tiny_kv_practice.Raft.Log.{last_index, term}
use tiny_kv_practice.Raft.Node.{
  no_node, StateType, follower, candidate, leader, Raft, become_follower, set_progress, lead_term,
  become_leader, start_campaign, become_candidate, broadcast_heartbeat,
}
use tiny_kv_practice.Raft.Step.{
  handle_heartbeat, ask_votes, campaign, log_up_to_date, handle_request_vote, on_follower,
  step_follower, count_votes, handle_vote_response, on_candidate, step_candidate, on_leader,
  step_leader, is_term_free, dispatch_as, dispatch, step,
}
use tiny_kv_practice.Raft.Step.Votes.{free_vote}
use tiny_kv_practice.Raft.Step.Elections.{request_votes_adds, broadcast_heartbeat_adds}
use tiny_kv_practice.Raft.Election.{
  Ballot, ballot, standing, won, fallen, observed, Turn, keep, stand, stand_alone, grant, win, lose,
  count, yield, Turns, at_once, later,
}
use tiny_kv_practice.Raft.Election.Kept.{
  Adds-ballot, set_progress-ballot, commit_or_replicate-ballot, handle_append_entries-ballot,
  handle_propose-ballot, handle_heartbeat_response-ballot, handle_append_response-ballot,
}

-- The turns of a node `r` that lead to `r'`, at the message `m`
abbrev pub Takes : Message → Raft → Raft → Type 0
Takes m r r' = Turn r.id (length r.prs) m (ballot r) (ballot r')

keeps : (m : Message) (r r' : Raft) → ballot r' ≡ ballot r → Takes m r r'
keeps m r r' p = subst (Turn r.id (length r.prs) m (ballot r)) (sym p) keep

stays :
    (m : Message) (r r' : Raft) {s : Raft} → some s ≡ some r' → ballot s ≡ ballot r → Takes m r r'
stays m r r' h p = keeps m r r' (ap ballot (sym (some-injective _ _ h)) ∙ p)

-- A turn, and the ballot of the node that it leads to
leads_to :
    (m : Message) (r r' : Raft) {b : Ballot}
    → Turn r.id (length r.prs) m (ballot r) b
    → ballot r' ≡ b
    → Takes m r r'
leads_to m r r' t p = subst (Turn r.id (length r.prs) m (ballot r)) (sym p) t

become_leader-ballot :
    (r : Raft) {r' : Raft} → become_leader r ≡ some r' → ballot r' ≡ won (ballot r)
unfolding become_leader lead_term
become_leader-ballot r h =
    let (last, known, g) = >>=-eq-some (last_index r.raft_log) _ h in
    let (s, moved, k) = >>=-eq-some (set_progress (lead_term r last) r.id _ _) _ g in
    commit_or_replicate-ballot s (add64 last 1) k
    ∙ set_progress-ballot (lead_term r last) r.id _ _ moved

not_more : (m n : ℕ) → ltb m n ≡ false → n ≤ m
not_more m n h = ground (arith, h)

pub ask_votes-ballot :
    (st : StateType) (r : Raft) {r' : Raft} → ask_votes st r ≡ some r' → ballot r' ≡ ballot r
unfolding ask_votes
ask_votes-ballot candidate r h =
    let (last, known, g) = >>=-eq-some (last_index r.raft_log) _ h in
    let (t, at, k) = >>=-eq-some (term r.raft_log last) _ g in
    ap ballot (sym (some-injective _ _ k))
    ∙ Adds-ballot r (request_votes_adds r last t.0 (keys r.prs))
ask_votes-ballot _ r h = ap ballot (sym (some-injective _ _ h))

start_campaign-ballot :
    (r : Raft) → r.term + 1 < u64_mod → ballot (start_campaign r) ≡ standing r.id (ballot r)
unfolding start_campaign
start_campaign-ballot r word = λ i. record {
  term = add64_exact r.term 1 word i;
  vote = r.id;
  role = candidate;
  votes = (r.id, true) ∷ [];
}

become_candidate-Takes :
    (m : Message) (r : Raft) {r' : Raft}
    → m.msg_type ≡ msg_hup
    → r.state ≢ leader
    → r.term + 1 < u64_mod
    → become_candidate r ≡ some r'
    → Takes m r r'
unfolding become_candidate start_campaign
become_candidate-Takes m r {r'} is role word h =
    let run = start_campaign-ballot r word in
    elim (if-cases (length r.prs == 1) h) [
      | inr (others, stands) ↦
          leads_to m r r' (stand is role (ground (arith, others)))
            (ap ballot (sym (some-injective _ _ stands)) ∙ run)
      | inl (alone, wins) ↦
          leads_to m r r' (stand_alone is role (ground (arith, alone)))
            (become_leader-ballot (start_campaign r) wins ∙ ap won run)
    ]

campaign-Takes :
    (m : Message) (r : Raft) {r' : Raft}
    → m.msg_type ≡ msg_hup
    → r.state ≢ leader
    → r.term + 1 < u64_mod
    → campaign r ≡ some r'
    → Takes m r r'
unfolding campaign
campaign-Takes m r is role word h =
    let (s, stands, g) = >>=-eq-some (become_candidate r) _ h in
    subst (Turn r.id (length r.prs) m (ballot r)) (sym (ask_votes-ballot s.state s g))
      (become_candidate-Takes m r is role word stands)

handle_request_vote-Takes :
    (r : Raft) (m : Message) {r' : Raft}
    → m.msg_type ≡ msg_request_vote
    → m.term ≡ r.term
    → r.state ≡ follower
    → handle_request_vote r m ≡ some r'
    → Takes m r r'
unfolding handle_request_vote
handle_request_vote-Takes r m {r'} is now role h =
    elim (if-cases (not (r.vote == no_node) && not (r.vote == m.from)) h) [
      | inl (_, refuses) ↦ stays m r r' refuses refl
      | inr (free, g) ↦
          let (last, known, k) = >>=-eq-some (last_index r.raft_log) _ g in
          let (t, at, e) = >>=-eq-some (term r.raft_log last) _ k in
          elim (if-cases (log_up_to_date m last t.0) e) [
            | inr (_, refuses) ↦ stays m r r' refuses refl
            | inl (_, grants) ↦
                leads_to m r r' (grant is now role (free_vote r.vote m.from free))
                  (ap ballot (sym (some-injective _ _ grants)))
          ]
    ]

-- A node that becomes a follower in its own term
become_follower-fallen :
    (r : Raft) (t lead : ℕ) → t ≡ r.term → ballot (become_follower r t lead) ≡ fallen (ballot r)
unfolding become_follower
become_follower-fallen r t lead now =
    let same : ltb r.term t ≡ false = ground (arith, now) in rw same refl

handle_vote_response-Takes :
    (r : Raft) (m : Message) {r' : Raft}
    → m.msg_type ≡ msg_request_vote_response
    → m.term ≡ r.term
    → r.state ≡ candidate
    → handle_vote_response r m ≡ some r'
    → Takes m r r'
unfolding handle_vote_response
handle_vote_response-Takes r m {r'} is now role h =
    let s : Raft = record r { votes = insert m.from (not m.reject) r.votes } in
    let half = length r.prs / 2 in
    elim (if-cases (ltb half (count_votes true s.votes)) h) [
      | inl (most, wins) ↦
          leads_to m r r' (win is now role (ltb→lt half _ most)) (become_leader-ballot s wins)
      | inr (few, g) ↦ elim (if-cases (ltb half (count_votes false s.votes)) g) [
        | inl (most, falls) ↦
            leads_to m r r' (lose is now role (not_more half _ few) (ltb→lt half _ most)) (
              ap ballot (sym (some-injective _ _ falls))
              ∙ become_follower-fallen s r.term no_node refl)
        | inr (undecided, waits) ↦
            leads_to m r r' (count is now role (not_more half _ few) (not_more half _ undecided))
              (ap ballot (sym (some-injective _ _ waits)))
      ]
    ]

pub handle_heartbeat-ballot : (r : Raft) (m : Message) → ballot (handle_heartbeat r m) ≡ ballot r
unfolding handle_heartbeat
handle_heartbeat-ballot r m = refl

pub broadcast_heartbeat-ballot :
    (r : Raft) (ids : List ℕ) → ballot (broadcast_heartbeat r ids) ≡ ballot r
broadcast_heartbeat-ballot r ids = Adds-ballot r (broadcast_heartbeat_adds r ids)

-- The type of a message whose term is compared
compared :
    (m : Message) (t : MessageType)
    → m.msg_type ≡ t
    → is_term_free t ≡ false
    → is_term_free m.msg_type ≡ false
compared m t is h = ap is_term_free is ∙ h

-- The leader of the term has sent an append or a heartbeat.
yields :
    (m : Message) (r r' : Raft)
    → (m.msg_type ≡ msg_append) ⊎ (m.msg_type ≡ msg_heartbeat)
    → m.term ≡ r.term
    → r.state ≢ follower
    → ballot r' ≡ ballot (become_follower r m.term m.from)
    → Takes m r r'
yields m r r' is same role p =
    leads_to m r r' (yield is same role) (p ∙ become_follower-fallen r m.term m.from same)

module _ (r : Raft) (m : Message) {r' : Raft} (word : r.term + 1 < u64_mod)
    (now : is_term_free m.msg_type ≡ false → m.term ≡ r.term) where
  on_follower-Takes :
      (t : MessageType)
      → m.msg_type ≡ t
      → r.state ≡ follower
      → on_follower t r m ≡ some r'
      → Takes m r r'
  unfolding on_follower is_term_free
  on_follower-Takes msg_hup is role h = campaign-Takes m r is (λ p. cc) word h
  on_follower-Takes msg_request_vote is role h =
      handle_request_vote-Takes r m is (now (compared m msg_request_vote is refl)) role h
  on_follower-Takes msg_heartbeat is role h = stays m r r' h (handle_heartbeat-ballot r m)
  on_follower-Takes msg_append is role h = keeps m r r' (handle_append_entries-ballot _ m h)
  on_follower-Takes _ is role h = stays m r r' h refl

  on_candidate-Takes :
      (t : MessageType)
      → m.msg_type ≡ t
      → r.state ≡ candidate
      → on_candidate t r m ≡ some r'
      → Takes m r r'
  unfolding on_candidate is_term_free
  on_candidate-Takes msg_hup is role h = campaign-Takes m r is (λ p. cc) word h
  on_candidate-Takes msg_request_vote is role h = elim (Bool-cases (m.from == r.id)) [
    | inl own ↦ stays m r r' h (rw own refl)
    | inr other ↦ stays m r r' h (rw other refl)
  ]
  on_candidate-Takes msg_request_vote_response is role h =
      handle_vote_response-Takes r m is (now (compared m msg_request_vote_response is refl)) role h
  on_candidate-Takes msg_heartbeat is role h =
      yields m r r' (inr is) (now (compared m msg_heartbeat is refl)) (λ p. cc)
        (ap ballot (sym (some-injective _ _ h)) ∙ handle_heartbeat-ballot _ m)
  on_candidate-Takes msg_append is role h =
      yields m r r' (inl is) (now (compared m msg_append is refl)) (λ p. cc)
        (ap ballot (sym (some-injective _ _ h)))
  on_candidate-Takes _ is role h = stays m r r' h refl

  on_leader-Takes :
      (t : MessageType)
      → m.msg_type ≡ t
      → r.state ≡ leader
      → on_leader t r m ≡ some r'
      → Takes m r r'
  unfolding on_leader is_term_free
  on_leader-Takes msg_beat is role h = stays m r r' h (broadcast_heartbeat-ballot r (keys r.prs))
  on_leader-Takes msg_request_vote is role h = stays m r r' h refl
  on_leader-Takes msg_heartbeat is role h =
      yields m r r' (inr is) (now (compared m msg_heartbeat is refl)) (λ p. cc)
        (ap ballot (sym (some-injective _ _ h)) ∙ handle_heartbeat-ballot _ m)
  on_leader-Takes msg_heartbeat_response is role h =
      keeps m r r' (handle_heartbeat_response-ballot r m h)
  on_leader-Takes msg_propose is role h = keeps m r r' (handle_propose-ballot r m h)
  on_leader-Takes msg_append_response is role h = keeps m r r' (handle_append_response-ballot r m h)
  on_leader-Takes msg_append is role h =
      yields m r r' (inl is) (now (compared m msg_append is refl)) (λ p. cc)
        (handle_append_entries-ballot _ m h)
  on_leader-Takes _ is role h = stays m r r' h refl

  pub dispatch_as-Takes :
      (st : StateType) → r.state ≡ st → dispatch_as st r m ≡ some r' → Takes m r r'
  unfolding dispatch_as step_follower step_candidate step_leader
  dispatch_as-Takes follower role h = on_follower-Takes m.msg_type refl role h
  dispatch_as-Takes candidate role h = on_candidate-Takes m.msg_type refl role h
  dispatch_as-Takes leader role h = on_leader-Takes m.msg_type refl role h

becomes_observed :
    (r : Raft) (m : Message)
    → ltb r.term m.term ≡ true
    → ballot (become_follower r m.term no_node) ≡ observed m
unfolding become_follower
becomes_observed r m ahead = rw ahead refl

pub later_term :
    (r : Raft) (m : Message)
    → ltb r.term m.term ≡ true
    → m.term ≡ (become_follower r m.term no_node).term
unfolding become_follower
later_term r m ahead = rw ahead refl

in_later :
    (r : Raft) (m : Message) {r' : Raft}
    → m.term + 1 < u64_mod
    → ltb r.term m.term ≡ true
    → dispatch_as (become_follower r m.term no_node).state (become_follower r m.term no_node) m
      ≡ some r'
    → Turn r.id (length r.prs) m (observed m) (ballot r')
unfolding become_follower
in_later r m {r'} message_word ahead k =
    let s = become_follower r m.term no_node in
    subst (λ b. Turn r.id (length r.prs) m b (ballot r')) (becomes_observed r m ahead)
      (dispatch_as-Takes s m (ground (arith, ahead)) (λ p. later_term r m ahead) s.state refl k)

-- Whatever `Step` does to the term, the vote, the role and the votes of a node at a message, is a turn of
-- the election protocol that this message allows, in the node's term or in the later one that the
-- message shows, if the terms of the node and of the message do not overflow.
pub step-Turns :
    (r : Raft) (m : Message) {r' : Raft}
    → r.term + 1 < u64_mod
    → m.term + 1 < u64_mod
    → step r m ≡ some r'
    → Turns r.id (length r.prs) m (ballot r) (ballot r')
unfolding step dispatch
step-Turns r m {r'} word message_word h = elim (if-cases (is_term_free m.msg_type) h) [
  | inl (local, l) ↦ at_once (dispatch_as-Takes r m word (λ p. cc) r.state refl l)
  | inr (compares, g) ↦ elim (if-cases (ltb r.term m.term) g) [
    | inl (ahead, k) ↦ later compares (ltb→lt _ _ ahead) (in_later r m message_word ahead k)
    | inr (not_later, k) ↦ elim (if-cases (ltb m.term r.term) k) [
      | inl (_, stale) ↦ at_once (stays m r r' stale refl)
      | inr (not_stale, same) ↦
          at_once (
            dispatch_as-Takes r m word (λ p. ground (arith, not_later, not_stale)) r.state refl
              same)
    ]
  ]
]
