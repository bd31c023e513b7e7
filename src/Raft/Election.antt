-- ===== src/Raft/Election.antt =====
-- The election protocol that raft/raft.go carries out at one node, without its log and its messages:
-- the term, the vote, the role and the votes received, and the turns that these may take.
pub mod Outbox
pub mod Kept
pub mod Refines
pub mod Promises
pub mod Elected
pub mod Majority
pub mod Commits
pub mod Appends
pub mod Histories
use tiny_kv_practice.Prelude.{
  ℕ, ◌+◌, ◌/◌, ◌≤◌, ◌<◌, ◌≡◌, ◌≢◌, ◌⊎◌, Bool, true, false, not, List, [], ◌∷◌,
}
use tiny_kv_practice.Prelude.Maps.{insert}
use tiny_kv_practice.Raft.Node.{no_node, StateType, follower, candidate, leader, Raft}
use tiny_kv_practice.Raft.Types.{
  Message, msg_hup, msg_append, msg_request_vote, msg_request_vote_response, msg_heartbeat,
}
use tiny_kv_practice.Raft.Step.{count_votes, is_term_free}

pub record Ballot : Type 0 where
  pub term : ℕ
  pub vote : ℕ
  pub role : StateType
  pub votes : List (ℕ × Bool)

abbrev pub ballot : Raft → Ballot
ballot r = record { term = r.term; vote = r.vote; role = r.state; votes = r.votes }

abbrev pub standing : ℕ → Ballot → Ballot
standing own b = record {
  term = b.term + 1;
  vote = own;
  role = candidate;
  votes = (own, true) ∷ [];
}

abbrev pub won : Ballot → Ballot
won b = record b { vote = no_node; role = leader; votes = [] }

abbrev pub fallen : Ballot → Ballot
fallen b = record b { role = follower; votes = [] }

-- The ballot with the vote that the message `m` brings
abbrev pub counted : Message → Ballot → Ballot
counted m b = record b { votes = insert m.from (not m.reject) b.votes }

-- The ballot of a follower of the later term that the message `m` shows
abbrev pub observed : Message → Ballot
observed m = record { term = m.term; vote = no_node; role = follower; votes = [] }

-- What one message lets the node `own`, in a cluster of `n` peers, do within a term.
pub data Turn (own n : ℕ) (m : Message) (b : Ballot) : Ballot → Type 0 where
  keep : Turn own n m b b
  -- an election timeout, or a request to campaign
  stand : m.msg_type ≡ msg_hup → b.role ≢ leader → n ≢ 1 → Turn own n m b (standing own b)
  stand_alone :
      m.msg_type ≡ msg_hup → b.role ≢ leader → n ≡ 1 → Turn own n m b (won (standing own b))
  -- the sender asks for a vote that is still free, or was given to it
  grant :
      m.msg_type ≡ msg_request_vote
      → m.term ≡ b.term
      → b.role ≡ follower
      → (b.vote ≡ no_node) ⊎ (b.vote ≡ m.from)
      → Turn own n m b (record b { vote = m.from })
  -- the vote of the sender, after which more than half of the votes are given, or refused, or neither
  win :
      m.msg_type ≡ msg_request_vote_response
      → m.term ≡ b.term
      → b.role ≡ candidate
      → n / 2 < count_votes true (counted m b).votes
      → Turn own n m b (won b)
  lose :
      m.msg_type ≡ msg_request_vote_response
      → m.term ≡ b.term
      → b.role ≡ candidate
      → count_votes true (counted m b).votes ≤ n / 2
      → n / 2 < count_votes false (counted m b).votes
      → Turn own n m b (fallen b)
  count :
      m.msg_type ≡ msg_request_vote_response
      → m.term ≡ b.term
      → b.role ≡ candidate
      → count_votes true (counted m b).votes ≤ n / 2
      → count_votes false (counted m b).votes ≤ n / 2
      → Turn own n m b (counted m b)
  -- the leader of this term has sent
  yield :
      (m.msg_type ≡ msg_append) ⊎ (m.msg_type ≡ msg_heartbeat)
      → m.term ≡ b.term
      → b.role ≢ follower
      → Turn own n m b (fallen b)

-- What one message lets the node do: a turn in its term, or in the later term that the message shows.
pub data Turns (own n : ℕ) (m : Message) (b : Ballot) : Ballot → Type 0 where
  at_once : {c : Ballot} → Turn own n m b c → Turns own n m b c
  later :
      {c : Ballot}
      → is_term_free m.msg_type ≡ false
      → b.term < m.term
      → Turn own n m (observed m) c
      → Turns own n m b c
