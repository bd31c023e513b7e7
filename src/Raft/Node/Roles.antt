-- ===== src/Raft/Node/Roles.antt =====
-- Changing the role of a node (raft/raft.go) does not panic and keeps its state valid.
use tiny_kv_practice.Prelude.{
  ℕ, ◌+◌, ◌≤◌, ◌<◌, ◌≡◌, refl, ap, ◌∙◌, some, List, [], ◌∷◌, ◌++◌, arith, length, u64_mod, add64,
  add64_exact, add64-lt, ◌==◌, if◌then◌else◌, All, Bool-cases, inl, inr, length-append,
}
use tiny_kv_practice.Prelude.Maps.{
  lookup, insert, keys, lookup-insert, keys-insert, All-insert, lookup-keys,
}
use tiny_kv_practice.Raft.Types.{Message, no_entry}
use tiny_kv_practice.Raft.Log.Shape.{append-IsWf, last_index_lem}
use tiny_kv_practice.Raft.Node.{
  Progress, Raft, become_follower, set_progress, reset_progress, commit_or_replicate, lead_term,
  become_leader, start_campaign, become_candidate,
}
use tiny_kv_practice.Raft.Node.Valid.{
  IsValid, Evolves, Evolves-quiet, set_committed, set_committed-IsValid, Evolves-trans, Runs,
  Runs-pure, Runs-from, with_msgs, with_msgs-IsValid,
}
use tiny_kv_practice.Raft.Node.Sends.{HasRoom, broadcast_append_adds}

pub become_follower-IsValid :
    {base : ℕ} {r : Raft} (term lead : ℕ)
    → IsValid base r
    → IsValid base (become_follower r term lead)
unfolding become_follower
become_follower-IsValid term lead v = record {
  wf = v.wf;
  compacted = v.compacted;
  committed-le = v.committed-le;
  own = v.own;
  own_eq = v.own_eq;
  active_term = λ h. absurd (h refl);
  next_words = v.next_words;
}

pub become_follower-Evolves : (r : Raft) (term lead : ℕ) → Evolves r (become_follower r term lead)
unfolding become_follower
become_follower-Evolves r term lead = Evolves-quiet refl refl (ground arith) refl

-- A change that keeps the identity and the peers, and sends messages.
pub adds :
    {r r' : Raft} (sent : List Message)
    → r'.id ≡ r.id
    → keys r'.prs ≡ keys r.prs
    → r.term ≤ r'.term
    → r'.msgs ≡ r.msgs ++ sent
    → Evolves r r'
adds sent i p t m = record { id_eq = i; peers_eq = p; term-le = t; sent = sent; msgs_eq = m }

-- Messages in the outbox are an evolution.
pub with_msgs-Evolves : (r : Raft) (sent : List Message) → Evolves r (with_msgs r sent)
with_msgs-Evolves r sent = adds sent refl refl (omega arith) refl

-- `r.Prs[id]`, set.
abbrev pub with_progress : Raft → ℕ → ℕ → ℕ → Raft
with_progress r id m n = record r { prs = insert id (record { match_index = m; next = n }) r.prs }

pub set_progress_lem :
    (r : Raft) (id m n : ℕ) {pr : Progress}
    → lookup id r.prs ≡ some pr
    → set_progress r id m n ≡ some (with_progress r id m n)
unfolding set_progress
set_progress_lem r id m n found = rw found

pub with_progress-IsValid :
    {base : ℕ} {r : Raft} (id m n : ℕ)
    → IsValid base r
    → n < u64_mod
    → IsValid base (with_progress r id m n)
with_progress-IsValid {base} {r} id m n v word =
    let new : Progress = record { match_index = m; next = n } in
    record {
      wf = v.wf;
      compacted = v.compacted;
      committed-le = v.committed-le;
      own = if id == r.id then new else v.own;
      own_eq = lookup-insert id r.id new r.prs ∙ ground (arith, v.own_eq);
      active_term = v.active_term;
      next_words = All-insert (λ e. e.1.next < u64_mod) id new r.prs word v.next_words;
    }

pub with_progress-Evolves :
    (r : Raft) (id m n : ℕ) {pr : Progress}
    → lookup id r.prs ≡ some pr
    → Evolves r (with_progress r id m n)
with_progress-Evolves r id m n {pr} found =
    Evolves-quiet refl (keys-insert id _ pr r.prs found) (omega arith) refl

-- A single node commits `index`; a member of a group replicates.
pub commit_or_replicate-Runs :
    {base : ℕ} {r : Raft} (index : ℕ)
    → IsValid base r
    → HasRoom base r 1
    → index ≤ base + length r.raft_log.entries
    → Runs base r (commit_or_replicate r index)
unfolding commit_or_replicate
commit_or_replicate-Runs {base} {r} index v room bound = elim (Bool-cases (length r.prs == 1)) [
  | inl single ↦ rw single (
      Runs-pure (set_committed r index) (set_committed-IsValid index v bound)
        (Evolves-quiet refl refl (omega arith) refl))
  | inr group ↦
      let (sent, run) = broadcast_append_adds base r (keys r.prs) v room (lookup-keys r.prs) in
      rw (group, run)
        (Runs-pure (with_msgs r sent) (with_msgs-IsValid sent v) (with_msgs-Evolves r sent))
]

lookup-reset_progress :
    (next id : ℕ) (prs : List (ℕ × Progress)) {pr : Progress}
    → lookup id prs ≡ some pr
    → lookup id (reset_progress next prs) ≡ some (record { match_index = 0; next = next })
unfolding lookup reset_progress
lookup-reset_progress next id [] h = cc
lookup-reset_progress next id ((j, p) ∷ prs) h = elim (Bool-cases (j == id)) [
  | inl here ↦ rw here
  | inr other ↦ rw other (lookup-reset_progress next id prs (rw other at h))
]

keys-reset_progress :
    (next : ℕ) (prs : List (ℕ × Progress)) → keys (reset_progress next prs) ≡ keys prs
unfolding reset_progress
keys-reset_progress next [] = refl
keys-reset_progress next ((j, p) ∷ prs) = ap (◌∷◌ j) (keys-reset_progress next prs)

All-reset_progress :
    (next : ℕ) (prs : List (ℕ × Progress))
    → next < u64_mod
    → All (λ e. e.1.next < u64_mod) (reset_progress next prs)
unfolding reset_progress
All-reset_progress next [] h = tt
All-reset_progress next ((j, p) ∷ prs) h = (h, All-reset_progress next prs h)

lead_term-IsValid :
    {base : ℕ} {r : Raft}
    → IsValid base r
    → HasRoom base r 2
    → 0 < r.term
    → IsValid base (lead_term r (base + length r.raft_log.entries))
unfolding lead_term
lead_term-IsValid {base} {r} v room active =
    let last = base + length r.raft_log.entries in
    let exact = add64_exact last 1 (omega arith) in
    record {
      wf = append-IsWf base r.raft_log _ v.wf (omega (arith, exact), tt) (omega arith);
      compacted = v.compacted;
      committed-le = omega (
        arith,
        v.committed-le,
        length-append r.raft_log.entries
            (record no_entry { term = r.term; index = add64 last 1 } ∷ []),
      );
      own = record { match_index = 0; next = add64 last 1 };
      own_eq = lookup-reset_progress (add64 last 1) r.id r.prs v.own_eq;
      active_term = λ _. active;
      next_words = All-reset_progress (add64 last 1) r.prs (add64-lt last 1);
    }

-- `becomeLeader` of a node with a positive term.
pub become_leader-Runs :
    {base : ℕ} {r : Raft}
    → IsValid base r
    → HasRoom base r 2
    → 0 < r.term
    → Runs base r (become_leader r)
unfolding become_leader lead_term
become_leader-Runs {base} {r} v room active =
    let last = base + length r.raft_log.entries in
    let led = lead_term r last in
    let next = add64 last 1 in
    let valid = lead_term-IsValid v room active in
    let total =
      length-append r.raft_log.entries (record no_entry { term = r.term; index = next } ∷ []) in
    let exact = add64_exact last 1 (omega arith) in
    rw
      (
        last_index_lem base r.raft_log v.wf,
        set_progress_lem led r.id next (add64 next 1) valid.own_eq,
      )
      (Runs-from (with_progress led r.id next (add64 next 1))
        (Evolves-trans (Evolves-quiet refl (keys-reset_progress next r.prs) (omega arith) refl)
          (with_progress-Evolves led r.id next (add64 next 1) valid.own_eq))
        (commit_or_replicate-Runs next
          (with_progress-IsValid r.id next (add64 next 1) valid (add64-lt _ 1))
          (omega (arith, total)) (omega (arith, total, exact))))

start_campaign-IsValid :
    {base : ℕ} {r : Raft} → IsValid base r → r.term + 1 < u64_mod → IsValid base (start_campaign r)
unfolding start_campaign
start_campaign-IsValid {base} {r} v word = record {
  wf = v.wf;
  compacted = v.compacted;
  committed-le = v.committed-le;
  own = v.own;
  own_eq = v.own_eq;
  active_term = λ _. omega (arith, add64_exact r.term 1 word);
  next_words = v.next_words;
}

-- `becomeCandidate`, while the term does not overflow.
pub become_candidate-Runs :
    {base : ℕ} {r : Raft}
    → IsValid base r
    → HasRoom base r 2
    → r.term + 1 < u64_mod
    → Runs base r (become_candidate r)
unfolding become_candidate start_campaign
become_candidate-Runs {base} {r} v room word =
    let s = start_campaign r in
    let valid = start_campaign-IsValid v word in
    let exact = add64_exact r.term 1 word in
    let e : Evolves r s = Evolves-quiet refl refl (omega (arith, exact)) refl in
    elim (Bool-cases (length r.prs == 1)) [
      | inl single ↦
          rw single (Runs-from s e (become_leader-Runs valid room (omega (arith, exact))))
      | inr group ↦ rw group (Runs-pure s valid e)
    ]
