-- ===== src/Raft/Step/Replication.antt =====
-- Proposals and the replies of followers (raft/raft.go) do not panic at a leader, and keep its state
-- valid.
use tiny_kv_practice.Prelude.{
  ℕ, suc, ◌+◌, ◌≤◌, ◌<◌, ◌≡◌, refl, ap, subst, ◌∙◌, true, Option, some, List, [], ◌∷◌, ◌++◌, arith,
  length, u64_mod, add64, sub64, add64_exact, add64-lt, sub64-lt, ltb, leb, ◌==◌, Bool-cases, inl,
  inr, length-append, ◌>>=◌, dec_lt,
}
use tiny_kv_practice.Prelude.Maps.{lookup, lookup-length, lookup-insert_self, keys, lookup-keys}
use tiny_kv_practice.Raft.Types.{Entry, Message, Error}
use tiny_kv_practice.Raft.Log.{term}
use tiny_kv_practice.Raft.Log.Shape.{IsConsecutive, append-IsWf, last_index_lem, term_beyond}
use tiny_kv_practice.Raft.Node.{Progress, Raft, send_append}
use tiny_kv_practice.Raft.Node.Valid.{
  IsValid, Runs-if, Evolves, Evolves-quiet, Evolves-refl, Evolves-trans, Runs, Runs-pure, Runs-from,
  with_msgs, with_msgs-IsValid, set_committed, set_committed-IsValid,
}
use tiny_kv_practice.Raft.Node.Sends.{HasRoom, send_append_adds, broadcast_append_adds}
use tiny_kv_practice.Raft.Node.Roles.{
  with_msgs-Evolves, with_progress, set_progress_lem, with_progress-IsValid, with_progress-Evolves,
  commit_or_replicate-Runs,
}
use tiny_kv_practice.Raft.Step.{
  number_entries, handle_propose, handle_heartbeat_response, handle_append_response, commit_quorum,
}
use tiny_kv_practice.Raft.Step.Append.{term_total}
use tiny_kv_practice.Raft.Step.Quorum.{quorum_match-some}

number_entries-IsConsecutive :
    (term last : ℕ) (es : List Entry)
    → last + length es < u64_mod
    → IsConsecutive last (number_entries term last es)
unfolding number_entries
number_entries-IsConsecutive term last [] h = tt
number_entries-IsConsecutive term last (e ∷ es) h =
    let exact = add64_exact last 1 (omega arith) in
    (
      omega (arith, exact),
      subst (λ n. IsConsecutive n (number_entries term (add64 last 1) es)) (exact ∙ omega arith)
          (number_entries-IsConsecutive term (add64 last 1) es (omega (arith, exact))),
    )

length-number_entries :
    (term last : ℕ) (es : List Entry) → length (number_entries term last es) ≡ length es
unfolding number_entries
length-number_entries term last [] = refl
length-number_entries term last (e ∷ es) = ap suc (length-number_entries term (add64 last 1) es)

-- A proposal is appended and replicated.
pub handle_propose-Runs :
    {base : ℕ} {r : Raft} (m : Message)
    → IsValid base r
    → HasRoom base r (length m.entries + 1)
    → Runs base r (handle_propose r m)
unfolding handle_propose
handle_propose-Runs {base} {r} m v room =
    let last = base + length r.raft_log.entries in
    let new = number_entries r.term last m.entries in
    let count = length-number_entries r.term last m.entries in
    let total = length-append r.raft_log.entries new in
    let s : Raft = record r {
      raft_log = record r.raft_log { entries = r.raft_log.entries ++ new };
    } in
    let valid : IsValid base s = record {
      wf =
          append-IsWf base r.raft_log new v.wf
            (number_entries-IsConsecutive r.term last m.entries (omega arith))
            (omega (arith, count));
      compacted = v.compacted;
      committed-le = omega (arith, v.committed-le, total);
      own = v.own;
      own_eq = v.own_eq;
      active_term = v.active_term;
      next_words = v.next_words;
    } in
    let end = base + length s.raft_log.entries in
    let e : Evolves r s = Evolves-quiet refl refl (omega arith) refl in
    rw
      (
        last_index_lem base r.raft_log v.wf,
        last_index_lem base s.raft_log valid.wf,
        set_progress_lem s r.id end (add64 end 1) v.own_eq,
      )
      (Runs-from (with_progress s r.id end (add64 end 1))
        (Evolves-trans e (with_progress-Evolves s r.id end (add64 end 1) v.own_eq))
        (commit_or_replicate-Runs end
          (with_progress-IsValid r.id end (add64 end 1) valid (add64-lt end 1))
          (omega (arith, total, count)) (omega arith)))

send_append-Runs :
    {base : ℕ} {r s : Raft} (to : ℕ) {pr : Progress}
    → IsValid base s
    → HasRoom base s 1
    → Evolves r s
    → lookup to s.prs ≡ some pr
    → Runs base r (send_append s to >>= λ x. some x.0)
send_append-Runs {base} {r} {s} to {pr} v room e found =
    let (sent, done, sends) = send_append_adds base s to pr v room found in
    rw sends (
      Runs-pure (with_msgs s sent) (with_msgs-IsValid sent v)
        (Evolves-trans e (with_msgs-Evolves s sent)))

-- A peer that lags is sent what it lacks.
pub handle_heartbeat_response-Runs :
    {base : ℕ} {r : Raft} (m : Message) {pr : Progress}
    → IsValid base r
    → HasRoom base r 1
    → lookup m.from r.prs ≡ some pr
    → Runs base r (handle_heartbeat_response r m)
unfolding handle_heartbeat_response
handle_heartbeat_response-Runs {base} {r} m {pr} v room found =
    rw (found, last_index_lem base r.raft_log v.wf)
      (Runs-if (leb pr.next (base + length r.raft_log.entries))
        (send_append-Runs m.from v room (Evolves-refl r) found) (Runs-pure r v (Evolves-refl r)))

-- Past the end `Term` answers 0, which is no leader's term.
within :
    (base c : ℕ) (r : Raft) (t : ℕ) {err : Option Error}
    → term r.raft_log c ≡ some (t, err)
    → (t == r.term) ≡ true
    → IsValid base r
    → 0 < r.term
    → c ≤ base + length r.raft_log.entries
within base c r t known own v active = elim (dec_lt (base + length r.raft_log.entries) c) [
  | no inside ↦ omega arith
  | yes past ↦ ground (arith, term_beyond base c r.raft_log v.wf past)
]

-- The commit of a quorum's index at a node with a positive term stays inside the log.
commit_quorum-Runs :
    {base : ℕ} {r : Raft}
    → IsValid base r
    → HasRoom base r 1
    → 0 < r.term
    → Runs base r (commit_quorum r)
unfolding commit_quorum
commit_quorum-Runs {base} {r} v room active =
    let last = base + length r.raft_log.entries in
    let (c, found) = quorum_match-some r.prs (lookup-length r.id r.prs v.own_eq) in
    let (t, err, known) = term_total base c r.raft_log v.wf v.compacted in
    let stay : Runs base r (some r) = Runs-pure r v (Evolves-refl r) in
    rw found (elim (Bool-cases (ltb r.raft_log.committed c)) [
      | inr old ↦ rw old stay
      | inl new ↦
          rw (new, known)
            (elim (Bool-cases (t == r.term)) [
              | inr foreign ↦ rw foreign stay
              | inl own ↦
                  let bound : c ≤ last = within base c r t known own v active in
                  let s = set_committed r c in
                  let valid = set_committed-IsValid c v bound in
                  let (sent, run) =
                    broadcast_append_adds base s (keys r.prs) valid room (lookup-keys r.prs) in
                  rw (own, run)
                    (Runs-pure (with_msgs s sent) (with_msgs-IsValid sent valid) (
                      Evolves-trans (Evolves-quiet refl refl (omega arith) refl)
                        (with_msgs-Evolves s sent)))
            ])
    ])

-- A peer's reply moves its progress, and may commit.
pub handle_append_response-Runs :
    {base : ℕ} {r : Raft} (m : Message) {pr : Progress}
    → IsValid base r
    → HasRoom base r 1
    → 0 < r.term
    → lookup m.from r.prs ≡ some pr
    → Runs base r (handle_append_response r m)
unfolding handle_append_response
handle_append_response-Runs {base} {r} m {pr} v room active found = elim (Bool-cases m.reject) [
  | inl refused ↦
      let back = sub64 pr.next 1 in
      let s = with_progress r m.from pr.match_index back in
      let again : lookup m.from s.prs
          ≡ some (record { match_index = pr.match_index; next = back }) =
        lookup-insert_self m.from _ r.prs in
      rw (refused, found, set_progress_lem r m.from pr.match_index back found)
        (send_append-Runs m.from
          (with_progress-IsValid m.from pr.match_index back v (sub64-lt pr.next 1)) room
          (with_progress-Evolves r m.from pr.match_index back found) again)
  | inr accepted ↦
      let next = add64 m.index 1 in
      rw (accepted, set_progress_lem r m.from m.index next found)
        (Runs-from (with_progress r m.from m.index next)
          (with_progress-Evolves r m.from m.index next found)
          (commit_quorum-Runs (with_progress-IsValid m.from m.index next v (add64-lt m.index 1))
            room active))
]
