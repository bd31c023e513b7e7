-- ===== src/Raft/Node.antt =====
-- raft/raft.go: the state of a node, how it is created, what it sends, and how it changes its role.
--
-- The Go `int` counters of ticks are numbers: `validate` makes the timeouts positive, and a counter
-- is reset when it reaches its timeout. `rand.Intn(n)` is the next number of an arbitrary sequence
-- `rand`, modulo `n`. The closure `tickFn` is the name of the method that it holds.
pub mod Valid
pub mod Sends
pub mod Roles
pub mod Starts
use tiny_kv_practice.Prelude.{
  ℕ, zero, suc, ◌+◌, ◌-◌, ◌%◌, Bool, true, false, not, Option, none, some, List, [], ◌∷◌, ◌++◌, ltb,
  leb, ◌==◌, if◌then◌else◌, length, get_elem?, add64, sub64, ◌>>=◌, ◌>>◌, check,
}
use tiny_kv_practice.Prelude.Maps.{lookup, insert, keys}
use tiny_kv_practice.Raft.Types.{
  Entry, entry_normal, no_entry, Message, message, msg_append, msg_heartbeat, HardState, Error,
  none_as_id, heartbeat_tick_not_positive, election_tick_too_small, storage_nil,
}
use tiny_kv_practice.Raft.Storage.{Storage}
use tiny_kv_practice.Raft.Log.{RaftLog, new_log, last_index, term}

-- `None`
abbrev pub no_node : ℕ
no_node = 0

pub data StateType : Type 0 where
  follower candidate leader : StateType

pub data TickFn : Type 0 where
  tick_election tick_heartbeat : TickFn

pub record Progress : Type 0 where
  pub match_index : ℕ
  pub next : ℕ

pub record Config : Type 0 where
  pub id : ℕ
  pub peers : List ℕ
  pub election_tick : ℕ
  pub heartbeat_tick : ℕ
  pub storage : Option Storage
  pub applied : ℕ

pub record Raft : Type 0 where
  pub id : ℕ
  pub term : ℕ
  pub vote : ℕ
  pub raft_log : RaftLog
  pub prs : List (ℕ × Progress)
  pub state : StateType
  pub votes : List (ℕ × Bool)
  pub msgs : List Message
  pub lead : ℕ
  pub heartbeat_timeout : ℕ
  pub election_timeout_base : ℕ
  pub election_timeout : ℕ
  pub heartbeat_elapsed : ℕ
  pub election_elapsed : ℕ
  pub tick_fn : TickFn
  pub lead_transferee : ℕ
  pub pending_conf_index : ℕ
  -- the sequence behind math/rand, and how many of its numbers have been drawn
  pub rand : ℕ → ℕ
  pub drawn : ℕ

-- The error of a configuration that cannot be used.
unfoldable pub validate : Config → Option Error
validate c =
    if c.id == no_node
    then some none_as_id
    else if leb c.heartbeat_tick 0
    then some heartbeat_tick_not_positive
    else if leb c.election_tick c.heartbeat_tick
    then some election_tick_too_small
    else elim c.storage [ none ↦ some storage_nil | some s ↦ none ]

-- r.electionTimeoutBase + rand.Intn(r.electionTimeoutBase)
abbrev pub random_timeout : Raft → ℕ
random_timeout r = r.election_timeout_base + r.rand r.drawn % r.election_timeout_base

unfoldable pub become_follower : Raft → ℕ → ℕ → Raft
become_follower r term lead = record r {
  state = follower;
  term = if ltb r.term term then term else r.term;
  vote = if ltb r.term term then no_node else r.vote;
  lead = lead;
  votes = [];
  election_elapsed = 0;
  heartbeat_elapsed = 0;
  tick_fn = tick_election;
  election_timeout = random_timeout r;
  drawn = r.drawn + 1;
}

abbrev pub push_msg : Raft → Message → Raft
push_msg r m = record r { msgs = r.msgs ++ m ∷ [] }

-- The loop of `sendAppend`: `rounds` copies of entries from the index `i` on. The entry type is not
-- copied.
unfoldable pub copy_entries : List Entry → ℕ → ℕ → Option (List Entry)
copy_entries log zero i = some []
copy_entries log (suc rounds) i = do
  first ← get_elem? log 0
  e ← get_elem? log (sub64 i first.index)
  rest ← copy_entries log rounds (add64 i 1)
  some ((record no_entry { index = e.index; term = e.term; payload = e.payload }) ∷ rest)

-- The message of `sendAppend`, if the previous term is known.
unfoldable pub append_message : Raft → ℕ → Progress → ℕ → ℕ → Option Message
append_message r to pr prev_log_index prev_log_term = do
  last ← last_index r.raft_log
  entries ← copy_entries r.raft_log.entries (last + 1 - pr.next) pr.next
  some (record (message msg_append to r.id r.term) {
    index = prev_log_index;
    log_term = prev_log_term;
    entries = entries;
    commit = r.raft_log.committed;
  })

-- True if a message was sent. A peer that is not in `prs` is a nil dereference.
unfoldable pub send_append : Raft → ℕ → Option (Raft × Bool)
send_append r to = do
  pr ← lookup to r.prs
  let prev_log_index = sub64 pr.next 1
  (prev_log_term, err) ← term r.raft_log prev_log_index
  elim err [
    | some e ↦ some (r, false)
    | none ↦ (do m ← append_message r to pr prev_log_index prev_log_term; some (push_msg r m, true))
  ]

unfoldable pub send_heartbeat : Raft → ℕ → Raft
send_heartbeat r to =
    push_msg r (record (message msg_heartbeat to r.id r.term) { commit = r.raft_log.committed })

-- if id != r.id { r.sendAppend(id) }
unfoldable pub append_to_other : Raft → ℕ → Option Raft
append_to_other r id = if id == r.id then some r else (do (r', sent) ← send_append r id; some r')

-- for id := range r.Prs { if id != r.id { r.sendAppend(id) } }
unfoldable pub broadcast_append : Raft → List ℕ → Option Raft
broadcast_append r [] = some r
broadcast_append r (id ∷ ids) = do r' ← append_to_other r id; broadcast_append r' ids

-- for id := range r.Prs { if id != r.id { r.sendHeartbeat(id) } }
unfoldable pub broadcast_heartbeat : Raft → List ℕ → Raft
broadcast_heartbeat r [] = r
broadcast_heartbeat r (id ∷ ids) =
    broadcast_heartbeat (if id == r.id then r else send_heartbeat r id) ids

-- r.Prs[id].Match = match; r.Prs[id].Next = next
unfoldable pub set_progress : Raft → ℕ → ℕ → ℕ → Option Raft
set_progress r id m n = do
  pr ← lookup id r.prs
  some (record r { prs = insert id (record { match_index = m; next = n }) r.prs })

-- The progress of every peer, reset.
unfoldable pub reset_progress : ℕ → List (ℕ × Progress) → List (ℕ × Progress)
reset_progress next [] = []
reset_progress next ((id, pr) ∷ prs) =
    (id, record { match_index = 0; next = next }) ∷ reset_progress next prs

-- The end of `becomeLeader` and of a proposal: a single node commits, any other replicates.
unfoldable pub commit_or_replicate : Raft → ℕ → Option Raft
commit_or_replicate r index =
    if length r.prs == 1
    then some (record r { raft_log = record r.raft_log { committed = index } })
    else broadcast_append r (keys r.prs)

-- The assignments of `becomeLeader` before the no-op entry is sent.
unfoldable pub lead_term : Raft → ℕ → Raft
lead_term r last =
    let noop = record no_entry { term = r.term; index = add64 last 1 } in
    record r {
      state = leader;
      lead = r.id;
      vote = no_node;
      votes = [];
      election_elapsed = 0;
      heartbeat_elapsed = 0;
      tick_fn = tick_heartbeat;
      prs = reset_progress (add64 last 1) r.prs;
      raft_log = record r.raft_log { entries = r.raft_log.entries ++ noop ∷ [] };
    }

unfoldable pub become_leader : Raft → Option Raft
become_leader r = do
  last ← last_index r.raft_log
  r' ← set_progress (lead_term r last) r.id (add64 last 1) (add64 (add64 last 1) 1)
  commit_or_replicate r' (add64 last 1)

-- The assignments of `becomeCandidate`.
unfoldable pub start_campaign : Raft → Raft
start_campaign r = record r {
  state = candidate;
  term = add64 r.term 1;
  lead = no_node;
  vote = r.id;
  votes = (r.id, true) ∷ [];
  election_elapsed = 0;
  heartbeat_elapsed = 0;
  tick_fn = tick_election;
  election_timeout = random_timeout r;
  drawn = r.drawn + 1;
}

-- A node alone in its cluster is a leader at once.
unfoldable pub become_candidate : Raft → Option Raft
become_candidate r =
    if length r.prs == 1 then become_leader (start_campaign r) else some (start_campaign r)

-- r.Prs of a new node: `peers` may name a node twice.
unfoldable pub new_progress : List ℕ → List (ℕ × Progress) → List (ℕ × Progress)
new_progress [] prs = prs
new_progress (peer ∷ peers) prs =
    new_progress peers (insert peer (record { match_index = 0; next = 1 }) prs)

-- The struct that `newRaft` fills in.
unfoldable pub initial_node : Config → HardState → RaftLog → (ℕ → ℕ) → Raft
initial_node c hard log rand = record {
  id = c.id;
  term = hard.term;
  vote = hard.vote;
  raft_log = record log { committed = hard.commit };
  prs = new_progress c.peers [];
  state = follower;
  votes = [];
  msgs = [];
  lead = no_node;
  heartbeat_timeout = c.heartbeat_tick;
  election_timeout_base = c.election_tick;
  election_timeout = 0;
  heartbeat_elapsed = 0;
  election_elapsed = 0;
  tick_fn = tick_election;
  lead_transferee = no_node;
  pending_conf_index = 0;
  rand = rand;
  drawn = 0;
}

-- `newRaft` behind the test of the configuration. `applied` is not used.
unfoldable pub start : Config → (ℕ → ℕ) → Option Raft
start c rand = do
  storage ← c.storage
  (hard, conf, err) ← storage.initial_state
  log ← new_log storage
  let r = initial_node c hard log rand
  some (become_follower r r.term no_node)

-- A configuration that `validate` refuses panics.
unfoldable pub new_raft : Config → (ℕ → ℕ) → Option Raft
new_raft c rand = elim (validate c) [ some err ↦ none | none ↦ start c rand ]
