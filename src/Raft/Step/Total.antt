-- ===== src/Raft/Step/Total.antt =====
-- No message and no tick makes a node panic (raft/raft.go), and each keeps its state valid.
use tiny_kv_practice.Prelude.{
  ℕ, ◌+◌, ◌<◌, ◌≡◌, ◌==◌, refl, true, Option, some, arith, length, u64_mod, ltb, leb, Bool-cases,
  inl, inr,
}
use tiny_kv_practice.Prelude.Maps.{lookup}
use tiny_kv_practice.Raft.Types.{
  Message, message, MessageType, msg_hup, msg_beat, msg_propose, msg_append, msg_append_response,
  msg_request_vote, msg_request_vote_response, msg_heartbeat, msg_heartbeat_response,
}
use tiny_kv_practice.Raft.Node.{
  no_node, StateType, follower, candidate, leader, tick_election, tick_heartbeat, TickFn, Progress,
  Raft, become_follower,
}
use tiny_kv_practice.Raft.Node.Valid.{
  IsValid, Evolves, Evolves-refl, Runs, Runs-pure, Runs-from, Runs-if, touched, touched-IsValid,
  touched-Evolves,
}
use tiny_kv_practice.Raft.Node.Sends.{HasRoom}
use tiny_kv_practice.Raft.Node.Roles.{become_follower-IsValid, become_follower-Evolves}
use tiny_kv_practice.Raft.Step.{
  vote_response, handle_heartbeat, on_follower, on_candidate, on_leader, dispatch_as, step_follower,
  step_candidate, step_leader, dispatch, is_term_free, step, election_tick, heartbeat_tick, tick,
}
use tiny_kv_practice.Raft.Step.Append.{AppendFits, handle_append_entries-Runs}
use tiny_kv_practice.Raft.Step.Elections.{
  push_msg-Runs, campaign-Runs, handle_request_vote-Runs, handle_vote_response-Runs,
  handle_heartbeat-Runs, broadcast_heartbeat-Runs,
}
use tiny_kv_practice.Raft.Step.Replication.{
  handle_propose-Runs, handle_heartbeat_response-Runs, handle_append_response-Runs,
}

-- What a message of a type needs: a peer as the sender of a leader's response, and entries that fit
-- the log.
abbrev pub Needs : ℕ → Raft → Message → MessageType → Type 0
Needs base r m msg_append = AppendFits base r.raft_log m
Needs base r m msg_append_response = (pr : Progress) × (lookup m.from r.prs ≡ some pr)
Needs base r m msg_heartbeat_response = (pr : Progress) × (lookup m.from r.prs ≡ some pr)
Needs base r m _ = Unit

-- And room for a new term and for its entries.
pub record Fits (base : ℕ) (r : Raft) (m : Message) : Type 0 where
  pub room : HasRoom base r (length m.entries + 2)
  pub next_term : r.term + 1 < u64_mod
  pub message_term : m.term + 1 < u64_mod
  pub needs : Needs base r m m.msg_type

module _ {base : ℕ} {r : Raft} (m : Message) (v : IsValid base r)
    (room : HasRoom base r (length m.entries + 2)) (word : r.term + 1 < u64_mod) where
  stay : Runs base r (some r)
  stay = Runs-pure r v (Evolves-refl r)

  heartbeat_as_follower : Runs base r (some (handle_heartbeat (become_follower r m.term m.from) m))
  heartbeat_as_follower =
      handle_heartbeat-Runs m (become_follower-IsValid m.term m.from v)
        (become_follower-Evolves r m.term m.from)

  on_follower-Runs : (t : MessageType) → Needs base r m t → Runs base r (on_follower t r m)
  unfolding on_follower
  on_follower-Runs msg_hup n = campaign-Runs v (omega arith) word
  on_follower-Runs msg_request_vote n = handle_request_vote-Runs m v
  on_follower-Runs msg_heartbeat n = handle_heartbeat-Runs m v (Evolves-refl r)
  on_follower-Runs msg_append n =
      Runs-from (touched r r.vote r.votes m.from 0 r.heartbeat_elapsed)
        (touched-Evolves r r.vote r.votes m.from 0 r.heartbeat_elapsed)
        (handle_append_entries-Runs m
          (touched-IsValid r.vote r.votes m.from 0 r.heartbeat_elapsed v) n)
  on_follower-Runs _ n = stay

  on_candidate-Runs :
      0 < r.term → (t : MessageType) → Needs base r m t → Runs base r (on_candidate t r m)
  unfolding on_candidate
  on_candidate-Runs active msg_hup n = campaign-Runs v (omega arith) word
  on_candidate-Runs active msg_request_vote n = elim (Bool-cases (m.from == r.id)) [
    | inl self ↦ rw self stay
    | inr other ↦ rw other (push_msg-Runs (vote_response r m true) v (Evolves-refl r))
  ]
  on_candidate-Runs active msg_request_vote_response n =
      handle_vote_response-Runs m v (omega arith) active
  on_candidate-Runs active msg_heartbeat n = heartbeat_as_follower
  on_candidate-Runs active msg_append n =
      Runs-pure (become_follower r m.term m.from) (become_follower-IsValid m.term m.from v)
        (become_follower-Evolves r m.term m.from)
  on_candidate-Runs active _ n = stay

  on_leader-Runs : 0 < r.term → (t : MessageType) → Needs base r m t → Runs base r (on_leader t r m)
  unfolding on_leader become_follower
  on_leader-Runs active msg_beat n = broadcast_heartbeat-Runs v
  on_leader-Runs active msg_request_vote n =
      push_msg-Runs (vote_response r m true) v (Evolves-refl r)
  on_leader-Runs active msg_heartbeat n = heartbeat_as_follower
  on_leader-Runs active msg_heartbeat_response n =
      handle_heartbeat_response-Runs m v (omega arith) n.1
  on_leader-Runs active msg_propose n = handle_propose-Runs m v (omega arith)
  on_leader-Runs active msg_append_response n =
      handle_append_response-Runs m v (omega arith) active n.1
  on_leader-Runs active msg_append n =
      Runs-from (become_follower r m.term m.from) (become_follower-Evolves r m.term m.from)
        (handle_append_entries-Runs m (become_follower-IsValid m.term m.from v) n)
  on_leader-Runs active _ n = stay

  dispatch_as-Runs :
      (st : StateType) → r.state ≡ st → Needs base r m m.msg_type → Runs base r (dispatch_as st r m)
  unfolding dispatch_as step_follower step_candidate step_leader
  dispatch_as-Runs follower p n = on_follower-Runs m.msg_type n
  dispatch_as-Runs candidate p n = on_candidate-Runs (v.active_term (λ q. cc)) m.msg_type n
  dispatch_as-Runs leader p n = on_leader-Runs (v.active_term (λ q. cc)) m.msg_type n

  dispatch-Runs : Needs base r m m.msg_type → Runs base r (dispatch r m)
  unfolding dispatch
  dispatch-Runs n = dispatch_as-Runs r.state refl n

-- `Step` on a valid node does not panic, in every role and for every type of message, if the message fits:
-- a MsgAppend does not begin before the compacted prefix, its entries follow one another and agree with the
-- committed ones, responses to appends and heartbeats come from known peers, and indices and terms have
-- room in 64 bits. It ends in a valid
-- state with the same identity and peers, a term that is not lower, and an outbox that only grew.
pub step-Runs :
    {base : ℕ} {r : Raft} (m : Message) → IsValid base r → Fits base r m → Runs base r (step r m)
unfolding step become_follower
step-Runs {base} {r} m v f =
    let same = dispatch-Runs m v f.room f.next_term f.needs in
    let later =
      dispatch-Runs m (become_follower-IsValid m.term no_node v) f.room
        (ground (arith, f.message_term, f.next_term)) f.needs in
    Runs-if (is_term_free m.msg_type) same (
      Runs-if (ltb r.term m.term)
        (Runs-from (become_follower r m.term no_node) (become_follower-Evolves r m.term no_node)
          later)
        (Runs-if (ltb m.term r.term) (Runs-pure r v (Evolves-refl r)) same))

module _ {base : ℕ} {r : Raft} (v : IsValid base r) (room : HasRoom base r 2)
    (word : r.term + 1 < u64_mod) where
  timed :
      (election heartbeat : ℕ) → IsValid base (touched r r.vote r.votes r.lead election heartbeat)
  timed election heartbeat = touched-IsValid r.vote r.votes r.lead election heartbeat v

  passes : (election heartbeat : ℕ) → Evolves r (touched r r.vote r.votes r.lead election heartbeat)
  passes election heartbeat = touched-Evolves r r.vote r.votes r.lead election heartbeat

  election_tick-Runs : Runs base r (election_tick r)
  unfolding election_tick
  election_tick-Runs =
      Runs-if (leb r.election_timeout (r.election_elapsed + 1))
        (Runs-from (record r { election_elapsed = 0 }) (passes 0 r.heartbeat_elapsed)
          (step-Runs (message msg_hup r.id r.id 0) (timed 0 r.heartbeat_elapsed) (record {
            room = omega arith;
            next_term = word;
            message_term = omega arith;
            needs = tt;
          })))
        (Runs-pure (record r { election_elapsed = r.election_elapsed + 1 })
          (timed (r.election_elapsed + 1) r.heartbeat_elapsed)
          (passes (r.election_elapsed + 1) r.heartbeat_elapsed))

  heartbeat_tick-Runs : Runs base r (heartbeat_tick r)
  unfolding heartbeat_tick
  heartbeat_tick-Runs =
      Runs-if (leb r.heartbeat_timeout (r.heartbeat_elapsed + 1))
        (Runs-from (record r { heartbeat_elapsed = 0 }) (passes r.election_elapsed 0)
          (step-Runs (message msg_beat r.id r.id 0) (timed r.election_elapsed 0) (record {
            room = omega arith;
            next_term = word;
            message_term = omega arith;
            needs = tt;
          })))
        (Runs-pure (record r { heartbeat_elapsed = r.heartbeat_elapsed + 1 })
          (timed r.election_elapsed (r.heartbeat_elapsed + 1))
          (passes r.election_elapsed (r.heartbeat_elapsed + 1)))

  tick_by :
      (f : TickFn)
      → Runs base r (elim f as (λ _. Option Raft) [
        | tick_election ↦ election_tick r
        | tick_heartbeat ↦ heartbeat_tick r
      ])
  tick_by tick_election = election_tick-Runs
  tick_by tick_heartbeat = heartbeat_tick-Runs

-- A tick of a valid node whose term and last index have room in 64 bits does not panic: it ends in a
-- valid state with the same identity and peers, a term that is not lower, and an outbox that only grew.
pub tick-Runs :
    {base : ℕ} {r : Raft}
    → IsValid base r
    → HasRoom base r 2
    → r.term + 1 < u64_mod
    → Runs base r (tick r)
unfolding tick
tick-Runs {base} {r} v room word = tick_by v room word r.tick_fn
