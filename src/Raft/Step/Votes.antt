-- ===== src/Raft/Step/Votes.antt =====
-- To whom a follower gives its vote (MsgRequestVote in raft/raft.go).
use tiny_kv_practice.Prelude.{
  ℕ, ◌+◌, ◌≤◌, ◌<◌, ◌≡◌, ◌==◌, refl, ◌⊎◌, inl, inr, true, false, not, ◌&&◌, Option, some, arith,
  length, ℕ_discrete, dec_lt, Bool-cases,
}
use tiny_kv_practice.Raft.Types.{Message, Error}
use tiny_kv_practice.Raft.Log.{term}
use tiny_kv_practice.Raft.Log.Shape.{last_index_lem}
use tiny_kv_practice.Raft.Node.{no_node, Raft, push_msg}
use tiny_kv_practice.Raft.Node.Valid.{IsValid}
use tiny_kv_practice.Raft.Step.{vote_response, log_up_to_date, handle_request_vote}

-- The log that ends at the index `i` in the term `t` is at least as new as one that ends at `j` in `u`.
abbrev pub IsNewer : ℕ → ℕ → ℕ → ℕ → Type 0
IsNewer t i u j = (u < t) ⊎ ((u ≡ t) × (j ≤ i))

-- The vote is free, or is the candidate's already, and the candidate's log is new enough.
abbrev pub CanVote : Raft → Message → ℕ → ℕ → Type 0
CanVote r m last last_term =
    ((r.vote ≡ no_node) ⊎ (r.vote ≡ m.from)) × IsNewer m.log_term m.index last_term last

log_up_to_date-cases :
    (m : Message) (last last_term : ℕ)
    → ((log_up_to_date m last last_term ≡ true) × IsNewer m.log_term m.index last_term last)
      ⊎ ((log_up_to_date m last last_term ≡ false) × ¬ IsNewer m.log_term m.index last_term last)
unfolding log_up_to_date
log_up_to_date-cases m last last_term = elim (dec_lt last_term m.log_term) [
  | yes later ↦ inl (ground arith, inl later)
  | no not_later ↦ elim (ℕ_discrete last_term m.log_term) [
    | no older ↦ inr (ground arith, λ h. ground arith)
    | yes same ↦ elim (dec_lt m.index last) [
      | yes shorter ↦ inr (ground arith, λ h. ground arith)
      | no as_long ↦ inl (ground arith, inr (same, omega arith))
    ]
  ]
]

-- What the test for a vote given to another node says.
pub free_vote : (v c : ℕ) → (not (v == no_node) && not (v == c)) ≡ false → (v ≡ no_node) ⊎ (v ≡ c)
free_vote v c h = elim (ℕ_discrete v no_node) [
  | yes none_yet ↦ inl none_yet
  | no other ↦ inr (ground arith)
]

-- A follower answers a request for its vote in one of two ways. It gives the vote, and notes it, exactly
-- if it has not voted for another node in the term and the candidate's log is as new as its own, which
-- ends at the index `last` in the term `t`. Otherwise it refuses, and nothing but the outbox changes.
pub handle_request_vote_lem :
    {base : ℕ} (r : Raft) (m : Message) {t : ℕ} {err : Option Error}
    → IsValid base r
    → term r.raft_log (base + length r.raft_log.entries) ≡ some (t, err)
    → (CanVote r m (base + length r.raft_log.entries) t
        × (handle_request_vote r m
            ≡ some (push_msg (record r { vote = m.from }) (vote_response r m false))))
      ⊎ ((¬ CanVote r m (base + length r.raft_log.entries) t)
          × (handle_request_vote r m ≡ some (push_msg r (vote_response r m true))))
unfolding handle_request_vote
handle_request_vote_lem {base} r m {t} v known =
    let end = last_index_lem base r.raft_log v.wf in
    elim (Bool-cases (not (r.vote == no_node) && not (r.vote == m.from))) [
      | inl taken ↦ inr ((λ can. ground (arith, taken, can.0)), rw taken refl)
      | inr free ↦ elim (log_up_to_date-cases m (base + length r.raft_log.entries) t) [
        | inl (yes_new, newer) ↦
            inl ((free_vote r.vote m.from free, newer), rw (free, end, known, yes_new) refl)
        | inr (no_new, older) ↦ inr ((λ can. older can.1), rw (free, end, known, no_new) refl)
      ]
    ]
