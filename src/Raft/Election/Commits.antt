-- ===== src/Raft/Election/Commits.antt =====
-- What a leader commits, and how its log grows (raft/raft.go).
use tiny_kv_practice.Prelude.{
  ℕ, ◌+◌, ◌*◌, ◌<◌, ◌≡◌, ◌≢◌, ◌==◌, refl, sym, ap, subst, ◌∙◌, Option, some, List, arith, length,
  >>=-eq-some, if-cases, inl, inr, add64, ltb, ltb→lt, ==_iff, ◌>>=◌,
}
use mathlib.Core.Option.{some-injective}
use tiny_kv_practice.Prelude.Maps.{keys, lookup}
use tiny_kv_practice.Raft.Types.{Message, Error}
use tiny_kv_practice.Raft.Log.{RaftLog, last_index, term, term_within}
use tiny_kv_practice.Raft.Node.{Progress, Raft, send_append, set_progress}
use tiny_kv_practice.Raft.Step.{matches, quorum_match, commit_quorum, handle_append_response}
use tiny_kv_practice.Raft.Step.Quorum.{at_least, quorum_match-majority}
use tiny_kv_practice.Raft.Election.Outbox.{Adds, send_append-Adds, broadcast_append-Adds}

-- More than half of the peers hold the commit index, and the entry there is of the node's term.
pub record IsCommitted (r : Raft) : Type 0 where
  pub majority : length r.prs < 2 * at_least r.raft_log.committed (matches r.prs)
  pub error : Option Error
  pub own_term : term r.raft_log r.raft_log.committed ≡ some (r.term, error)

committed_of : (s r' : Raft) → some s ≡ some r' → r'.raft_log.committed ≡ s.raft_log.committed
committed_of s r' h = ap (λ (x : Raft). x.raft_log.committed) (sym (some-injective _ _ h))

quorum_count :
    (prs : List (ℕ × Progress)) {c : ℕ}
    → quorum_match prs ≡ some c
    → length prs < 2 * at_least c (matches prs)
quorum_count prs {c} h = (quorum_match-majority prs (c + 1) h (omega arith)).0

-- The commit index is not read by `Term`.
set_committed_term : (l : RaftLog) (c i : ℕ) → term (record l { committed = c }) i ≡ term l i
unfolding term last_index term_within
set_committed_term l c i = refl

commit_quorum-IsCommitted :
    (r : Raft) {r' : Raft}
    → commit_quorum r ≡ some r'
    → r'.raft_log.committed ≢ r.raft_log.committed
    → (r.raft_log.committed < r'.raft_log.committed) × IsCommitted r'
unfolding commit_quorum
commit_quorum-IsCommitted r {r'} h moved =
    let (c, found, g) = >>=-eq-some (quorum_match r.prs) _ h in
    elim (if-cases (ltb r.raft_log.committed c) g) [
      | inr (_, stays) ↦ absurd (moved (committed_of r r' stays))
      | inl (new, k) ↦
          let ((t, err), known, e) = >>=-eq-some (term r.raft_log c) _ k in
          elim (if-cases (t == r.term) e) [
            | inr (_, stays) ↦ absurd (moved (committed_of r r' stays))
            | inl (own, sends) ↦
                let (sent, p) = broadcast_append-Adds _ (keys r.prs) sends in
                subst (λ s. (r.raft_log.committed < s.raft_log.committed) × IsCommitted s) (sym p)
                  (
                    ltb→lt _ _ new,
                    record {
                      majority = quorum_count r.prs found;
                      error = err;
                      own_term =
                          set_committed_term r.raft_log c c
                          ∙ known
                          ∙ ap (λ u. some (u, err)) ((==_iff t r.term).0 own);
                    },
                  )
          ]
    ]

pub set_progress-raft_log :
    (r : Raft) (id m n : ℕ) {r' : Raft} → set_progress r id m n ≡ some r' → r'.raft_log ≡ r.raft_log
unfolding set_progress
set_progress-raft_log r id m n h =
    let (pr, found, g) = >>=-eq-some (lookup id r.prs) _ h in
    ap (λ (x : Raft). x.raft_log) (sym (some-injective _ _ g))

pub Adds-raft_log : (r : Raft) {r' : Raft} → Adds r r' → r'.raft_log ≡ r.raft_log
Adds-raft_log r (sent, p) = ap (λ (x : Raft). x.raft_log) p

pub send_append-raft_log :
    (r : Raft) (to : ℕ) {r' : Raft}
    → (send_append r to >>= λ x. some x.0) ≡ some r'
    → r'.raft_log ≡ r.raft_log
send_append-raft_log r to h =
    let (out, sends, g) = >>=-eq-some (send_append r to) _ h in
    ap (λ (x : Raft). x.raft_log) (sym (some-injective _ _ g))
    ∙ Adds-raft_log r (send_append-Adds r to sends)

pub refused-raft_log :
    (r : Raft) (from m n : ℕ) {r' : Raft}
    → (set_progress r from m n >>= λ s. send_append s from >>= λ x. some x.0) ≡ some r'
    → r'.raft_log ≡ r.raft_log
refused-raft_log r from m n h =
    let (s, moved, g) = >>=-eq-some (set_progress r from m n) _ h in
    send_append-raft_log s from g ∙ set_progress-raft_log r from m n moved

-- A response of a follower moves the commit index of a leader forward only, and only to an index that
-- more than half of the peers hold and whose entry is of the leader's own term.
pub handle_append_response-IsCommitted :
    (r : Raft) (m : Message) {r' : Raft}
    → handle_append_response r m ≡ some r'
    → r'.raft_log.committed ≢ r.raft_log.committed
    → (r.raft_log.committed < r'.raft_log.committed) × IsCommitted r'
unfolding handle_append_response
handle_append_response-IsCommitted r m {r'} h moves = elim (if-cases m.reject h) [
  | inl (_, refused) ↦
      let (pr, found, g) = >>=-eq-some (lookup m.from r.prs) _ refused in
      absurd
        (moves (ap (λ (l : RaftLog). l.committed) (refused-raft_log r m.from pr.match_index _ g)))
  | inr (_, accepts) ↦
      let (s, moved, g) = >>=-eq-some (set_progress r m.from m.index (add64 m.index 1)) _ accepts in
      let same =
        ap (λ (l : RaftLog). l.committed) (set_progress-raft_log r m.from m.index _ moved) in
      rw (← same) (commit_quorum-IsCommitted s g (λ p. moves (p ∙ same)))
]
