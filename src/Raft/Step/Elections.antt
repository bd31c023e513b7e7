-- ===== src/Raft/Step/Elections.antt =====
-- Campaigns, votes and heartbeats (raft/raft.go) do not panic, and keep the state of a node valid.
use tiny_kv_practice.Prelude.{
  ℕ, ◌+◌, ◌/◌, ◌<◌, ◌≡◌, ◌∙◌, true, false, not, ◌&&◌, some, List, [], ◌∷◌, length, u64_mod, ltb,
  ◌==◌, Bool-cases, inl, inr,
}
use tiny_kv_practice.Prelude.Maps.{insert, keys}
use tiny_kv_practice.Raft.Types.{Message, message, msg_request_vote, msg_heartbeat}
use tiny_kv_practice.Raft.Log.Shape.{last_index_lem}
use tiny_kv_practice.Raft.Node.{
  no_node, StateType, candidate, Raft, push_msg, become_follower, become_candidate,
  broadcast_heartbeat, send_heartbeat,
}
use tiny_kv_practice.Raft.Node.Valid.{
  IsValid, touched-IsValid, touched-Evolves, Runs-if, Evolves, Evolves-refl, Evolves-trans, Runs,
  Runs-pure, Runs-bind, Runs-from, with_msgs, with_msgs-IsValid, with_msgs-nil, with_msgs-append,
}
use tiny_kv_practice.Raft.Node.Sends.{HasRoom}
use tiny_kv_practice.Raft.Node.Roles.{
  with_msgs-Evolves, become_follower-IsValid, become_follower-Evolves, become_leader-Runs,
  become_candidate-Runs,
}
use tiny_kv_practice.Raft.Step.{
  handle_heartbeat, request_votes, ask_votes, campaign, handle_request_vote, log_up_to_date,
  count_votes, vote_response, handle_vote_response,
}
use tiny_kv_practice.Raft.Step.Append.{term_total}

-- A state that differs in its outbox and its timers, its leader, vote or votes only.
pub push_msg-Runs :
    {base : ℕ} {r s : Raft} (m : Message)
    → IsValid base s
    → Evolves r s
    → Runs base r (some (push_msg s m))
push_msg-Runs {s} m v e =
    Runs-pure (push_msg s m) (with_msgs-IsValid (m ∷ []) v)
      (Evolves-trans e (with_msgs-Evolves s (m ∷ [])))

pub request_votes_adds :
    (r : Raft) (last last_term : ℕ) (ids : List ℕ)
    → (sent : List Message) × (request_votes r last last_term ids ≡ with_msgs r sent)
unfolding request_votes
request_votes_adds r last last_term [] = ([], with_msgs-nil r)
request_votes_adds r last last_term (id ∷ ids) = elim (Bool-cases (id == r.id)) [
  | inl self ↦ rw self (request_votes_adds r last last_term ids)
  | inr other ↦
      let request = record (message msg_request_vote id r.id r.term) {
        index = last;
        log_term = last_term;
      } in
      let (sent, run) = request_votes_adds (push_msg r request) last last_term ids in
      (request ∷ sent, rw other (run ∙ with_msgs-append r (request ∷ []) sent))
]

ask_votes-Runs :
    {base : ℕ} {r : Raft} (st : StateType) → IsValid base r → Runs base r (ask_votes st r)
unfolding ask_votes
ask_votes-Runs {base} {r} candidate v =
    let last = base + length r.raft_log.entries in
    let (t, err, known) = term_total base last r.raft_log v.wf v.compacted in
    let (sent, ask) = request_votes_adds r last t (keys r.prs) in
    rw (last_index_lem base r.raft_log v.wf, known, ask)
      (Runs-pure (with_msgs r sent) (with_msgs-IsValid sent v) (with_msgs-Evolves r sent))
ask_votes-Runs {base} {r} _ v = Runs-pure r v (Evolves-refl r)

-- A campaign, while the term does not overflow.
pub campaign-Runs :
    {base : ℕ} {r : Raft}
    → IsValid base r
    → HasRoom base r 2
    → r.term + 1 < u64_mod
    → Runs base r (campaign r)
unfolding campaign
campaign-Runs {base} {r} v room word =
    let a = become_candidate-Runs v room word in
    Runs-bind (become_candidate r) _ a (ask_votes-Runs a.next.state a.valid)

-- A vote is granted or refused.
pub handle_request_vote-Runs :
    {base : ℕ} {r : Raft} (m : Message) → IsValid base r → Runs base r (handle_request_vote r m)
unfolding handle_request_vote
handle_request_vote-Runs {base} {r} m v =
    let last = base + length r.raft_log.entries in
    let (t, err, known) = term_total base last r.raft_log v.wf v.compacted in
    let refused : Runs base r (some (push_msg r (vote_response r m true))) =
      push_msg-Runs (vote_response r m true) v (Evolves-refl r) in
    rw (last_index_lem base r.raft_log v.wf, known)
      (Runs-if (not (r.vote == no_node) && not (r.vote == m.from)) refused (
        Runs-if (log_up_to_date m last t)
          (push_msg-Runs (vote_response r m false)
            (touched-IsValid m.from r.votes r.lead r.election_elapsed r.heartbeat_elapsed v)
            (touched-Evolves r m.from r.votes r.lead r.election_elapsed r.heartbeat_elapsed))
          refused))

-- A vote that makes a majority ends the campaign.
pub handle_vote_response-Runs :
    {base : ℕ} {r : Raft} (m : Message)
    → IsValid base r
    → HasRoom base r 2
    → 0 < r.term
    → Runs base r (handle_vote_response r m)
unfolding handle_vote_response
handle_vote_response-Runs {base} {r} m v room active =
    let votes = insert m.from (not m.reject) r.votes in
    let s : Raft = record r { votes = votes } in
    let valid = touched-IsValid r.vote votes r.lead r.election_elapsed r.heartbeat_elapsed v in
    let e : Evolves r s =
      touched-Evolves r r.vote votes r.lead r.election_elapsed r.heartbeat_elapsed in
    Runs-if (ltb (length r.prs / 2) (count_votes true votes))
      (Runs-from s e (become_leader-Runs valid room active))
      (Runs-if (ltb (length r.prs / 2) (count_votes false votes))
        (Runs-pure (become_follower s r.term no_node) (become_follower-IsValid r.term no_node valid)
          (Evolves-trans e (become_follower-Evolves s r.term no_node)))
        (Runs-pure s valid e))

-- A heartbeat is answered.
pub handle_heartbeat-Runs :
    {base : ℕ} {r s : Raft} (m : Message)
    → IsValid base s
    → Evolves r s
    → Runs base r (some (handle_heartbeat s m))
unfolding handle_heartbeat
handle_heartbeat-Runs {s} m v e =
    push_msg-Runs _ (touched-IsValid s.vote s.votes m.from 0 s.heartbeat_elapsed v)
      (Evolves-trans e (touched-Evolves s s.vote s.votes m.from 0 s.heartbeat_elapsed))

-- The heartbeats of a leader.
pub broadcast_heartbeat_adds :
    (r : Raft) (ids : List ℕ)
    → (sent : List Message) × (broadcast_heartbeat r ids ≡ with_msgs r sent)
unfolding broadcast_heartbeat send_heartbeat
broadcast_heartbeat_adds r [] = ([], with_msgs-nil r)
broadcast_heartbeat_adds r (id ∷ ids) = elim (Bool-cases (id == r.id)) [
  | inl self ↦ rw self (broadcast_heartbeat_adds r ids)
  | inr other ↦
      let beat = record (message msg_heartbeat id r.id r.term) { commit = r.raft_log.committed } in
      let (sent, run) = broadcast_heartbeat_adds (push_msg r beat) ids in
      (beat ∷ sent, rw other (run ∙ with_msgs-append r (beat ∷ []) sent))
]

pub broadcast_heartbeat-Runs :
    {base : ℕ} {r : Raft} → IsValid base r → Runs base r (some (broadcast_heartbeat r (keys r.prs)))
broadcast_heartbeat-Runs {base} {r} v =
    let (sent, run) = broadcast_heartbeat_adds r (keys r.prs) in
    rw run (Runs-pure (with_msgs r sent) (with_msgs-IsValid sent v) (with_msgs-Evolves r sent))
