-- ===== src/Raft/Tests/Steps.antt =====
-- The theorems on the steps of a node at concrete nodes and messages.
use tiny_kv_practice.Prelude.{
  ◌+◌, ◌*◌, ◌≤◌, ◌<◌, ◌≡◌, ◌↔◌, ◌⊎◌, refl, true, false, some, none, [], ◌∷◌, arith, length, take,
  get_elem?, add64, sub64,
}
use tiny_kv_practice.Prelude.Maps.{lookup}
use tiny_kv_practice.Raft.Types.{Entry, Message, message, msg_append_response}
use tiny_kv_practice.Raft.Log.{last_entry_index, last_index_by, last_index, term_within, term}
use tiny_kv_practice.Raft.Node.{Raft, push_msg, leader, follower}
use tiny_kv_practice.Raft.Node.Valid.{Runs}
use tiny_kv_practice.Raft.Step
use tiny_kv_practice.Raft.Step.{
  insert_sorted, sort, quorum_match, vote_response, handle_request_vote, handle_append_entries,
  append_response, truncate_append, append_entry, append_entries, advance_commit, accept_entries,
  tick, matches,
}
use tiny_kv_practice.Raft.Util.{min64}
use tiny_kv_practice.Prelude.Panics.{slice}
use tiny_kv_practice.Raft.Step.Accepts.{
  Continues, accepted-matches, accepted_committed_prefix, accepted-lowers_iff,
}
use tiny_kv_practice.Raft.Step.Quorum.{at_least, quorum_match-majority}
use tiny_kv_practice.Raft.Step.Total.{Fits, step-Runs, tick-Runs}
use tiny_kv_practice.Raft.Step.Votes.{CanVote, handle_request_vote_lem}
use tiny_kv_practice.Raft.RawNode.{step}
use tiny_kv_practice.Raft.RawNode.Total.{RunsRaw, step-RunsRaw}
use tiny_kv_practice.Raft.Tests.Nodes.{
  entry, log, progress, leading, following, node_in-IsValid, ack, request, entries,
}

ack-Fits : Fits 0 leading ack
unfolding lookup
ack-Fits = record {
  room = omega arith;
  next_term = omega arith;
  message_term = omega arith;
  needs = (progress 1 3, refl);
}

step-Runs_example : Runs 0 leading (Step.step leading ack)
step-Runs_example = step-Runs ack (node_in-IsValid leader 2 0 (omega arith)) ack-Fits

tick-Runs_example : Runs 0 following (tick following)
tick-Runs_example =
    tick-Runs (node_in-IsValid follower 2 3 (omega arith)) (omega arith) (omega arith)

-- An answer of a node that is no peer.
abbrev stray : Message
stray = message msg_append_response 1 7 2

step-RunsRaw_example : RunsRaw 0 leading (step leading stray)
step-RunsRaw_example = step-RunsRaw stray (node_in-IsValid leader 2 0 (omega arith)) (record {
  room = omega arith;
  next_term = omega arith;
  message_term = omega arith;
  entries_fit = λ p. cc;
})

quorum_match-majority_example :
    (length leading.prs < 2 * at_least 1 (matches leading.prs))
    × (2 * at_least 2 (matches leading.prs) ≤ length leading.prs)
unfolding quorum_match sort insert_sorted
quorum_match-majority_example = quorum_match-majority leading.prs 2 refl (omega arith)

handle_request_vote_lem_example :
    (CanVote following request 3 2
      × (handle_request_vote following request
          ≡ some
              (push_msg (record following { vote = 3 }) (vote_response following request false))))
    ⊎ ((¬ CanVote following request 3 2)
        × (handle_request_vote following request
            ≡ some (push_msg following (vote_response following request true))))
unfolding term last_index last_index_by last_entry_index term_within sub64
handle_request_vote_lem_example =
    handle_request_vote_lem following request (node_in-IsValid follower 2 3 (omega arith)) refl

-- The follower with the entries that it accepts.
abbrev accepting : Raft
accepting =
    push_msg
      (record following {
        raft_log = record log {
          entries = entry 1 1 ∷ entry 2 1 ∷ entry 3 1 ∷ entry 4 2 ∷ [];
          committed = 2;
        };
      })
      (append_response following entries false 4)

accepting_run : handle_append_entries following entries ≡ some accepting
unfolding handle_append_entries accept_entries append_entries append_entry truncate_append
    advance_commit min64 term last_index last_index_by last_entry_index term_within sub64 add64
    slice
accepting_run = refl

entries_continue : Continues 0 following entries
unfolding term last_index last_index_by last_entry_index term_within sub64
entries_continue = record {
  valid = node_in-IsValid follower 2 3 (omega arith);
  fits = record {
    base-le = omega arith;
    consecutive = (refl, (refl, (refl, tt)));
    room = omega arith;
    agrees = tt;
  };
  inside = omega arith;
  error = none;
  matching = refl;
}

accepted-matches_example :
    (x : Entry) × (get_elem? accepting.raft_log.entries 2 ≡ some x) × (x.index ≡ 3) × (x.term ≡ 1)
accepted-matches_example = accepted-matches 1 entries_continue accepting_run refl

accepted_committed_prefix_example : take 1 accepting.raft_log.entries ≡ take 1 log.entries
accepted_committed_prefix_example = accepted_committed_prefix entries_continue accepting_run

accepted-lowers_iff_example : (2 < 1) ↔ ((1 + 3 < 1) × (1 < 2))
accepted-lowers_iff_example = accepted-lowers_iff entries_continue accepting_run
