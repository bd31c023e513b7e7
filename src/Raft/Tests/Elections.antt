-- ===== src/Raft/Tests/Elections.antt =====
-- The theorems on elections and commits at concrete nodes and messages.
use tiny_kv_practice.Prelude.{
  ◌<◌, ◌≡◌, ◌≢◌, ◌⊎◌, inl, inr, refl, not, Option, some, none, List, ◌++◌, arith, length, add64,
  sub64,
}
use tiny_kv_practice.Prelude.Maps.{lookup, insert, keys}
use tiny_kv_practice.Raft.Types.{Entry}
use tiny_kv_practice.Raft.Log.{last_entry_index, last_index_by, last_index, term_within, term}
use tiny_kv_practice.Raft.Node.{
  Raft, follower, candidate, leader, copy_entries, append_message, send_append, append_to_other,
  broadcast_append, set_progress, reset_progress, commit_or_replicate, lead_term, become_leader,
}
use tiny_kv_practice.Raft.Step.{
  insert_sorted, sort, quorum_match, handle_request_vote, log_up_to_date, on_follower,
  step_follower, count_votes, handle_vote_response, on_candidate, step_candidate, commit_quorum,
  handle_append_response, on_leader, step_leader, is_term_free, dispatch_as, dispatch, step,
}
use tiny_kv_practice.Raft.Election.{ballot, Turns}
use tiny_kv_practice.Raft.Election.Refines.{step-Turns}
use tiny_kv_practice.Raft.Election.Promises.{step-vote_kept}
use tiny_kv_practice.Raft.Election.Majority.{HasElectorate, HasMajority, step-elected_by_peers}
use tiny_kv_practice.Raft.Election.Commits.{IsCommitted, handle_append_response-IsCommitted}
use tiny_kv_practice.Raft.Election.Appends.{step-appends}
use tiny_kv_practice.Raft.Election.Histories.{
  HasLed, Reaches, here, receive, Reaches-IsValid, Reaches-vote_kept,
}
use tiny_kv_practice.Raft.Step.Total.{Fits}
use tiny_kv_practice.Raft.Node.Valid.{IsValid, Evolves}
use tiny_kv_practice.Raft.Tests.Nodes.{
  log, leading, standing, following, node_in-IsValid, ack, vote, request,
}

abbrev result : Option Raft → Raft
result none = leading
result (some r) = r

abbrev elected : Raft
elected = result (step standing vote)

elected_run : step standing vote ≡ some elected
unfolding step is_term_free dispatch dispatch_as step_candidate on_candidate handle_vote_response
    count_votes insert lookup become_leader lead_term reset_progress set_progress
    commit_or_replicate broadcast_append append_to_other send_append append_message copy_entries
    term term_within last_index last_index_by last_entry_index add64 sub64
elected_run = refl

elected_leads : elected.state ≡ leader
unfolding step is_term_free dispatch dispatch_as step_candidate on_candidate handle_vote_response
    count_votes insert lookup become_leader lead_term reset_progress set_progress
    commit_or_replicate broadcast_append append_to_other send_append append_message copy_entries
    term term_within last_index last_index_by last_entry_index add64 sub64
elected_leads = refl

electorate : HasElectorate (keys standing.prs) standing.votes
electorate = record { differ = (tt, tt); are_peers = (inl refl, tt) }

step-elected_by_peers_example :
    (length standing.prs ≡ 1)
    ⊎ ((standing.state ≡ candidate)
        × (vote.term ≡ standing.term)
        × HasMajority (keys standing.prs) (insert vote.from (not vote.reject) standing.votes))
step-elected_by_peers_example =
    step-elected_by_peers standing vote electorate (λ e. inr (inl refl)) elected_run (λ p. cc)
      elected_leads

step-Turns_example : Turns 1 3 vote (ballot standing) (ballot elected)
step-Turns_example = step-Turns standing vote (omega arith) (omega arith) elected_run

abbrev voted : Raft
voted = result (step following request)

voted_run : (step following request ≡ some voted) × (voted.term ≡ 2)
unfolding step is_term_free dispatch dispatch_as step_follower on_follower handle_request_vote
    log_up_to_date term term_within last_index last_index_by last_entry_index sub64
voted_run = (refl, refl)

step-vote_kept_example : (voted.vote ≡ 3) ⊎ ((following.state ≡ candidate) × (voted.state ≡ leader))
step-vote_kept_example =
    step-vote_kept following request (omega arith) (omega arith) voted_run.0 (λ p. cc) voted_run.1

following-IsValid : IsValid 0 following
following-IsValid = node_in-IsValid follower 2 3 (omega arith)

request-Fits : Fits 0 following request
request-Fits = record {
  room = omega arith;
  next_term = omega arith;
  message_term = omega arith;
  needs = tt;
}

one_request : Reaches 0 following voted
one_request = receive request here request-Fits voted_run.0

Reaches-IsValid_example : IsValid 0 voted × Evolves following voted
Reaches-IsValid_example = Reaches-IsValid following-IsValid one_request

Reaches-vote_kept_example : (voted.vote ≡ 3) ⊎ HasLed one_request
Reaches-vote_kept_example = Reaches-vote_kept following-IsValid one_request (λ p. cc) voted_run.1

abbrev committing : Raft
committing = result (step leading ack)

committing_run :
    (step leading ack ≡ some committing)
    × (handle_append_response leading ack ≡ some committing)
    × (committing.term ≡ 2)
    × (committing.state ≡ leader)
    × (committing.raft_log.committed ≢ 1)
unfolding step is_term_free dispatch dispatch_as step_leader on_leader handle_append_response
    commit_quorum quorum_match sort insert_sorted insert lookup set_progress broadcast_append
    append_to_other send_append append_message copy_entries term term_within last_index
    last_index_by last_entry_index add64 sub64
committing_run = (refl, refl, refl, refl, λ p. cc)

handle_append_response-IsCommitted_example :
    (1 < committing.raft_log.committed) × IsCommitted committing
handle_append_response-IsCommitted_example =
    handle_append_response-IsCommitted leading ack committing_run.1 committing_run.4

step-appends_example : (new : List Entry) × (committing.raft_log.entries ≡ log.entries ++ new)
step-appends_example =
    step-appends leading ack (omega arith) (omega arith) committing_run.0 refl committing_run.3
      committing_run.2
