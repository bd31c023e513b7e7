-- ===== src/Raft/Util.antt =====
-- raft/util.go: tests on messages and states. `diffu`, `mustTemp` and `ltoa` print and are left out.
use tiny_kv_practice.Prelude.{
  ℕ, ◌≡◌, Bool, true, false, ◌&&◌, Option, none, some, arith, ltb, ◌==◌, if◌then◌else◌,
}
use tiny_kv_practice.Raft.Types.{
  HardState, Snapshot, Error, MessageType, msg_hup, msg_beat, msg_append_response,
  msg_request_vote_response, msg_heartbeat_response,
}

-- `min` and `max` of two uint64.
unfoldable pub min64 : ℕ → ℕ → ℕ
min64 a b = if ltb b a then b else a

unfoldable pub max64 : ℕ → ℕ → ℕ
max64 a b = if ltb b a then a else b

pub is_hard_state_equal : HardState → HardState → Bool
is_hard_state_equal a b = a.term == b.term && a.vote == b.vote && a.commit == b.commit

abbrev pub no_hard_state : HardState
no_hard_state = record { term = 0; vote = 0; commit = 0 }

pub is_empty_hard_state : HardState → Bool
unfolding is_hard_state_equal
is_empty_hard_state st = is_hard_state_equal st no_hard_state

-- The argument is nil, has no metadata, or has the index 0.
pub is_empty_snap : Option Snapshot → Bool
is_empty_snap none = true
is_empty_snap (some sp) = elim sp.metadata [ none ↦ true | some d ↦ d.index == 0 ]

-- The term, or a panic if there was an error.
pub must_term : ℕ → Option Error → Option ℕ
must_term term none = some term
must_term term (some err) = none

unfoldable pub is_local_msg : MessageType → Bool
is_local_msg msg_hup = true
is_local_msg msg_beat = true
is_local_msg _ = false

unfoldable pub is_response_msg : MessageType → Bool
is_response_msg msg_append_response = true
is_response_msg msg_request_vote_response = true
is_response_msg msg_heartbeat_response = true
is_response_msg _ = false

-- Two hard states pass the test exactly when they are the same.
pub is_hard_state_equal_iff :
    (a b : HardState)
    → (is_hard_state_equal a b ≡ true → a ≡ b) × (a ≡ b → is_hard_state_equal a b ≡ true)
unfolding is_hard_state_equal
is_hard_state_equal_iff a b = ground arith
