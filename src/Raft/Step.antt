-- ===== src/Raft/Step.antt =====
-- raft/raft.go: what a node does with a message and with a tick of the clock.
-- `handleSnapshot`, `addNode` and `removeNode` have no body yet. The error that `Step` returns is
-- always nil and is left out.
pub mod Merge
pub mod Rounds
pub mod Append
pub mod Accepts
pub mod Votes
pub mod Quorum
pub mod Elections
pub mod Replication
pub mod Total
use tiny_kv_practice.Prelude.{
  ℕ, zero, suc, ◌+◌, ◌-◌, ◌/◌, Bool, true, false, not, ◌&&◌, ◌||◌, Option, none, some, List, [],
  ◌∷◌, ◌++◌, ltb, leb, ◌==◌, if◌then◌else◌, length, get_elem?, slice, take, add64, sub64, ◌>>=◌,
  ◌>>◌,
}
use tiny_kv_practice.Prelude.Maps.{lookup, insert, keys}
use tiny_kv_practice.Raft.Types.{
  Entry, Message, message, MessageType, msg_hup, msg_beat, msg_propose, msg_append,
  msg_append_response, msg_request_vote, msg_request_vote_response, msg_heartbeat,
  msg_heartbeat_response,
}
use tiny_kv_practice.Raft.Util.{min64}
use tiny_kv_practice.Raft.Log.{RaftLog, last_index, term}
use tiny_kv_practice.Raft.Node.{
  no_node, StateType, follower, candidate, leader, tick_election, tick_heartbeat, Progress, Raft,
  become_follower, push_msg, send_append, broadcast_append, broadcast_heartbeat, set_progress,
  commit_or_replicate, become_leader, become_candidate,
}

-- `handleHeartbeat`
unfoldable pub handle_heartbeat : Raft → Message → Raft
handle_heartbeat r m =
    push_msg (record r { election_elapsed = 0; lead = m.from })
      (message msg_heartbeat_response m.from r.id r.term)

-- The case of a conflict at the entry `e`: the log is cut before `e`, and `stabled` with it.
unfoldable pub truncate_append : RaftLog → Entry → Option RaftLog
truncate_append l e = do
  first ← get_elem? l.entries 0
  kept ← slice l.entries 0 (sub64 e.index first.index)
  some (record l {
    entries = kept ++ e ∷ [];
    stabled = if leb e.index l.stabled then sub64 e.index 1 else l.stabled;
  })

-- One round of the loop of `handleAppendEntries`.
unfoldable pub append_entry : RaftLog → Entry → Option RaftLog
append_entry l e = do
  last ← last_index l
  if leb e.index last
      then (do
        (local_term, _) ← term l e.index
        if local_term == e.term then some l else truncate_append l e)
      else some (record l { entries = l.entries ++ e ∷ [] })

-- The loop of `handleAppendEntries`.
unfoldable pub append_entries : RaftLog → List Entry → Option RaftLog
append_entries l [] = some l
append_entries l (e ∷ es) = do l' ← append_entry l e; append_entries l' es

-- The reply of `handleAppendEntries`.
abbrev pub append_response : Raft → Message → Bool → ℕ → Message
append_response r m reject index = record (message msg_append_response m.from r.id r.term) {
  reject = reject;
  index = index;
}

-- if m.Commit > committed { committed = min(m.Commit, lastNewIndex) }
unfoldable pub advance_commit : ℕ → ℕ → ℕ → ℕ
advance_commit committed commit last_new =
    if ltb committed commit then min64 commit last_new else committed

-- The part of `handleAppendEntries` behind the consistency check.
unfoldable pub accept_entries : Raft → Message → Option Raft
accept_entries r m = do
  l ← append_entries r.raft_log m.entries
  let last_new = add64 m.index (length m.entries)
  let l' = record l { committed = advance_commit l.committed m.commit last_new }
  some (push_msg (record r { raft_log = l' }) (append_response r m false last_new))

-- `handleAppendEntries`
unfoldable pub handle_append_entries : Raft → Message → Option Raft
handle_append_entries r m = do
  last ← last_index r.raft_log
  if ltb last m.index then some (push_msg r (append_response r m true (add64 last 1))) else (do
    (t, _) ← term r.raft_log m.index
    if t == m.log_term then accept_entries r m else some (push_msg r (append_response r m true 0)))

-- The loop that asks every other peer for its vote.
unfoldable pub request_votes : Raft → ℕ → ℕ → List ℕ → Raft
request_votes r last last_term [] = r
request_votes r last last_term (id ∷ ids) =
    let request = record (message msg_request_vote id r.id r.term) {
      index = last;
      log_term = last_term;
    } in
    request_votes (if id == r.id then r else push_msg r request) last last_term ids

-- A node that became the leader at once asks nobody.
unfoldable pub ask_votes : StateType → Raft → Option Raft
ask_votes candidate r = do
  last ← last_index r.raft_log
  (last_term, _) ← term r.raft_log last
  some (request_votes r last last_term (keys r.prs))
ask_votes _ r = some r

-- MsgHup at a follower or a candidate: a new campaign.
unfoldable pub campaign : Raft → Option Raft
campaign r = do r' ← become_candidate r; ask_votes r'.state r'

abbrev pub vote_response : Raft → Message → Bool → Message
vote_response r m reject = record (message msg_request_vote_response m.from r.id r.term) {
  reject = reject;
}

-- The candidate's log is at least as new as the voter's, which ends at `last` in the term `last_term`.
unfoldable pub log_up_to_date : Message → ℕ → ℕ → Bool
log_up_to_date m last last_term =
    not (ltb m.log_term last_term) && not (m.log_term == last_term && ltb m.index last)

-- MsgRequestVote at a follower.
unfoldable pub handle_request_vote : Raft → Message → Option Raft
handle_request_vote r m =
    if not (r.vote == no_node) && not (r.vote == m.from)
    then some (push_msg r (vote_response r m true))
    else (do
      last ← last_index r.raft_log
      (last_term, _) ← term r.raft_log last
      if log_up_to_date m last last_term
          then some (push_msg (record r { vote = m.from }) (vote_response r m false))
          else some (push_msg r (vote_response r m true)))

-- The cases of `stepFollower`, by the type of the message.
unfoldable pub on_follower : MessageType → Raft → Message → Option Raft
on_follower msg_hup r m = campaign r
on_follower msg_request_vote r m = handle_request_vote r m
on_follower msg_heartbeat r m = some (handle_heartbeat r m)
on_follower msg_append r m =
    handle_append_entries (record r { election_elapsed = 0; lead = m.from }) m
on_follower _ r m = some r

unfoldable pub step_follower : Raft → Message → Option Raft
unfolding on_follower
step_follower r m = on_follower m.msg_type r m

-- The votes of one kind.
unfoldable pub count_votes : Bool → List (ℕ × Bool) → ℕ
count_votes b [] = 0
count_votes b ((_, v) ∷ votes) =
    (if v then (if b then 1 else 0) else (if b then 0 else 1)) + count_votes b votes

-- MsgRequestVoteResponse at a candidate.
unfoldable pub handle_vote_response : Raft → Message → Option Raft
handle_vote_response r m =
    let votes = insert m.from (not m.reject) r.votes in
    let r' = record r { votes = votes } in
    if ltb (length r.prs / 2) (count_votes true votes)
    then become_leader r'
    else if ltb (length r.prs / 2) (count_votes false votes)
    then some (become_follower r' r.term no_node)
    else some r'

-- The cases of `stepCandidate`, by the type of the message.
unfoldable pub on_candidate : MessageType → Raft → Message → Option Raft
on_candidate msg_hup r m = campaign r
on_candidate msg_request_vote r m =
    some (if m.from == r.id then r else push_msg r (vote_response r m true))
on_candidate msg_request_vote_response r m = handle_vote_response r m
on_candidate msg_heartbeat r m = some (handle_heartbeat (become_follower r m.term m.from) m)
on_candidate msg_append r m = some (become_follower r m.term m.from)
on_candidate _ r m = some r

unfoldable pub step_candidate : Raft → Message → Option Raft
unfolding on_candidate
step_candidate r m = on_candidate m.msg_type r m

-- The entries of a proposal, with the term of the leader and the indices after `last`.
unfoldable pub number_entries : ℕ → ℕ → List Entry → List Entry
number_entries term last [] = []
number_entries term last (e ∷ es) =
    record e { term = term; index = add64 last 1 } ∷ number_entries term (add64 last 1) es

-- MsgPropose at a leader.
unfoldable pub handle_propose : Raft → Message → Option Raft
handle_propose r m = do
  last ← last_index r.raft_log
  let entries = r.raft_log.entries ++ number_entries r.term last m.entries
  let r1 = record r { raft_log = record r.raft_log { entries = entries } }
  last' ← last_index r1.raft_log
  r2 ← set_progress r1 r.id last' (add64 last' 1)
  commit_or_replicate r2 last'

-- MsgHeartbeatResponse at a leader.
unfoldable pub handle_heartbeat_response : Raft → Message → Option Raft
handle_heartbeat_response r m = do
  pr ← lookup m.from r.prs
  last ← last_index r.raft_log
  if leb pr.next last then (do (r', sent) ← send_append r m.from; some r') else some r

-- sort.Slice of numbers, ascending.
unfoldable pub insert_sorted : ℕ → List ℕ → List ℕ
insert_sorted x [] = x ∷ []
insert_sorted x (y ∷ ys) = let rest = insert_sorted x ys in if ltb y x then y ∷ rest else x ∷ y ∷ ys

unfoldable pub sort : List ℕ → List ℕ
sort [] = []
sort (x ∷ xs) = insert_sorted x (sort xs)

abbrev pub matches : List (ℕ × Progress) → List ℕ
matches [] = []
matches ((_, pr) ∷ prs) = pr.match_index ∷ matches prs

-- matches[(len(matches)-1)/2] of the sorted matches
unfoldable pub quorum_match : List (ℕ × Progress) → Option ℕ
quorum_match prs = get_elem? (sort (matches prs)) ((length prs - 1) / 2)

-- The commit of the index that a quorum holds, if it is new and of the leader's term.
unfoldable pub commit_quorum : Raft → Option Raft
commit_quorum r = do
  new_commit ← quorum_match r.prs
  if ltb r.raft_log.committed new_commit
      then (do
        (t, _) ← term r.raft_log new_commit
        if t == r.term
            then broadcast_append
                (record r { raft_log = record r.raft_log { committed = new_commit } }) (keys r.prs)
            else some r)
      else some r

-- MsgAppendResponse at a leader.
unfoldable pub handle_append_response : Raft → Message → Option Raft
handle_append_response r m =
    if m.reject
    then (do
      pr ← lookup m.from r.prs
      r' ← set_progress r m.from pr.match_index (sub64 pr.next 1)
      (r'', sent) ← send_append r' m.from
      some r'')
    else (do r' ← set_progress r m.from m.index (add64 m.index 1); commit_quorum r')

-- The cases of `stepLeader`, by the type of the message.
unfoldable pub on_leader : MessageType → Raft → Message → Option Raft
on_leader msg_beat r m = some (broadcast_heartbeat r (keys r.prs))
on_leader msg_request_vote r m = some (push_msg r (vote_response r m true))
on_leader msg_heartbeat r m = some (handle_heartbeat (become_follower r m.term m.from) m)
on_leader msg_heartbeat_response r m = handle_heartbeat_response r m
on_leader msg_propose r m = handle_propose r m
on_leader msg_append_response r m = handle_append_response r m
on_leader msg_append r m = handle_append_entries (become_follower r m.term m.from) m
on_leader _ r m = some r

unfoldable pub step_leader : Raft → Message → Option Raft
unfolding on_leader
step_leader r m = on_leader m.msg_type r m

-- Messages that a node sends to itself, whose term is not compared.
unfoldable pub is_term_free : MessageType → Bool
is_term_free msg_hup = true
is_term_free msg_beat = true
is_term_free msg_propose = true
is_term_free _ = false

-- The switch of `Step` on the role.
unfoldable pub dispatch_as : StateType → Raft → Message → Option Raft
dispatch_as follower r m = step_follower r m
dispatch_as candidate r m = step_candidate r m
dispatch_as leader r m = step_leader r m

unfoldable pub dispatch : Raft → Message → Option Raft
unfolding dispatch_as
dispatch r m = dispatch_as r.state r m

-- `Step`
unfoldable pub step : Raft → Message → Option Raft
step r m =
    if is_term_free m.msg_type
    then dispatch r m
    else if ltb r.term m.term
    then dispatch (become_follower r m.term no_node) m
    else if ltb m.term r.term
    then some r
    else dispatch r m

-- `tickElection`
unfoldable pub election_tick : Raft → Option Raft
election_tick r =
    let elapsed = r.election_elapsed + 1 in
    if leb r.election_timeout elapsed
    then step (record r { election_elapsed = 0 }) (message msg_hup r.id r.id 0)
    else some (record r { election_elapsed = elapsed })

-- `tickHeartbeat`
unfoldable pub heartbeat_tick : Raft → Option Raft
heartbeat_tick r =
    let elapsed = r.heartbeat_elapsed + 1 in
    if leb r.heartbeat_timeout elapsed
    then step (record r { heartbeat_elapsed = 0 }) (message msg_beat r.id r.id 0)
    else some (record r { heartbeat_elapsed = elapsed })

-- `tick`: the method that `tickFn` holds.
unfoldable pub tick : Raft → Option Raft
tick r = elim r.tick_fn [ tick_election ↦ election_tick r | tick_heartbeat ↦ heartbeat_tick r ]
