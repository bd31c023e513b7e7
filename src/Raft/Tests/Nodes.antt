-- ===== src/Raft/Tests/Nodes.antt =====
-- A storage of two entries, and three nodes over it: a follower, a candidate and a leader.
use tiny_kv_practice.Prelude.{ℕ, ◌<◌, refl, true, some, none, List, [], ◌∷◌, arith}
use tiny_kv_practice.Prelude.Maps.{lookup}
use tiny_kv_practice.Raft.Types.{
  Entry, no_entry, Message, message, msg_append, msg_append_response, msg_request_vote_response,
  msg_request_vote,
}
use tiny_kv_practice.Raft.Storage.{MemoryStorage, new_memory_storage, to_storage}
use tiny_kv_practice.Raft.Storage.Shape.{IsOrdered, to_storage-IsCompacted}
use tiny_kv_practice.Raft.Log.{RaftLog}
use tiny_kv_practice.Raft.Log.Shape.{IsWf}
use tiny_kv_practice.Raft.Node.{
  Progress, Raft, StateType, follower, candidate, leader, tick_election, Config,
}
use tiny_kv_practice.Raft.Node.Valid.{IsValid}

abbrev pub entry : ℕ → ℕ → Entry
entry index term = record no_entry { index = index; term = term }

abbrev pub two_entries : List Entry
two_entries = entry 1 1 ∷ entry 2 1 ∷ []

abbrev pub storage : MemoryStorage
storage = record new_memory_storage {
  hard_state = record { term = 2; vote = 3; commit = 1 };
  ents = no_entry ∷ two_entries;
}

abbrev pub storage-IsOrdered : IsOrdered 0 storage
storage-IsOrdered = record {
  dummy = no_entry;
  rest = two_entries;
  ents_eq = refl;
  dummy_index = refl;
  consecutive = (refl, (refl, tt));
  small = omega arith;
}

abbrev pub config : Config
config = record {
  id = 1;
  peers = 1 ∷ 2 ∷ 3 ∷ [];
  election_tick = 10;
  heartbeat_tick = 1;
  storage = some (to_storage storage);
  applied = 0;
}

-- Three entries, two of them stable, one committed.
abbrev pub log : RaftLog
log = record {
  storage = to_storage storage;
  committed = 1;
  applied = 0;
  stabled = 2;
  entries = entry 1 1 ∷ entry 2 1 ∷ entry 3 2 ∷ [];
  pending_snapshot = none;
}

pub log-IsWf : IsWf 0 log
log-IsWf = record {
  consecutive = (refl, (refl, (refl, tt)));
  base-le = omega arith;
  stabled-le = omega arith;
  no_pending = refl;
  small = omega arith;
}

abbrev pub progress : ℕ → ℕ → Progress
progress m n = record { match_index = m; next = n }

abbrev pub node_in : StateType → ℕ → ℕ → Raft
node_in state term vote = record {
  id = 1;
  term = term;
  vote = vote;
  raft_log = log;
  prs = (1, progress 3 4) ∷ (2, progress 1 3) ∷ (3, progress 0 9) ∷ [];
  state = state;
  votes = (1, true) ∷ [];
  msgs = [];
  lead = 0;
  heartbeat_timeout = 1;
  election_timeout_base = 10;
  election_timeout = 10;
  heartbeat_elapsed = 0;
  election_elapsed = 9;
  tick_fn = tick_election;
  lead_transferee = 0;
  pending_conf_index = 0;
  rand = λ n. n;
  drawn = 0;
}

pub node_in-IsValid :
    (state : StateType) (term vote : ℕ) → 0 < term → IsValid 0 (node_in state term vote)
unfolding lookup
node_in-IsValid state term vote positive = record {
  wf = log-IsWf;
  compacted = to_storage-IsCompacted storage-IsOrdered;
  committed-le = omega arith;
  own = progress 3 4;
  own_eq = refl;
  active_term = λ active. positive;
  next_words = (omega arith, (omega arith, (omega arith, tt)));
}

abbrev pub leading : Raft
leading = node_in leader 2 0

abbrev pub standing : Raft
standing = node_in candidate 3 1

abbrev pub following : Raft
following = node_in follower 2 3

-- A follower's answer to entries, an answer to a request for a vote, such a request, and entries.
abbrev pub ack : Message
ack = record (message msg_append_response 1 2 2) { index = 3 }

abbrev pub vote : Message
vote = message msg_request_vote_response 1 2 3

abbrev pub request : Message
request = record (message msg_request_vote 1 3 2) { index = 3; log_term = 2 }

abbrev pub entries : Message
entries = record (message msg_append 1 3 2) {
  index = 1;
  log_term = 1;
  entries = entry 2 1 ∷ entry 3 1 ∷ entry 4 2 ∷ [];
  commit = 2;
}
