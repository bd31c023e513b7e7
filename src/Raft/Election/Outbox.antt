-- ===== src/Raft/Election/Outbox.antt =====
-- What sending changes (raft/raft.go): whatever is sent, only the outbox grows.
use tiny_kv_practice.Prelude.{
  ℕ, ◌≡◌, refl, ap, subst, ◌∙◌, Bool, true, false, Option, none, some, List, [], ◌∷◌, ◌++◌, ◌>>=◌,
  >>=-eq-some, ◌==◌, sub64, if-cases, inl, inr,
}
use mathlib.Core.Option.{some-injective}
use tiny_kv_practice.Prelude.Maps.{lookup}
use tiny_kv_practice.Raft.Types.{Message, Error}
use tiny_kv_practice.Raft.Log.{term}
use tiny_kv_practice.Raft.Node.{
  Progress, Raft, push_msg, append_message, send_append, append_to_other, broadcast_append,
}
use tiny_kv_practice.Raft.Node.Valid.{with_msgs, with_msgs-nil, with_msgs-append}

abbrev pub Adds : Raft → Raft → Type 0
Adds r r' = (sent : List Message) × (r' ≡ with_msgs r sent)

pub Adds-refl : (r : Raft) → Adds r r
Adds-refl r = ([], with_msgs-nil r)

pub Adds-trans : (r : Raft) {s t : Raft} → Adds r s → Adds s t → Adds r t
Adds-trans r (a, p) (b, q) = (a ++ b, q ∙ ap (λ x. with_msgs x b) p ∙ with_msgs-append r a b)

send_by :
    (r : Raft) (to : ℕ) (pr : Progress) (prev t : ℕ) (err : Option Error) {out : Raft × Bool}
    → (elim err as (λ _. Option (Raft × Bool)) [
      | some e ↦ some (r, false)
      | none ↦ append_message r to pr prev t >>= λ m. some (push_msg r m, true)
    ])
      ≡ some out
    → Adds r out.0
send_by r to pr prev t (some e) h = subst (λ x. Adds r x.0) (some-injective _ _ h) (Adds-refl r)
send_by r to pr prev t none h =
    let (m, made, g) = >>=-eq-some (append_message r to pr prev t) _ h in
    subst (λ x. Adds r x.0) (some-injective _ _ g) (m ∷ [], refl)

pub send_append-Adds :
    (r : Raft) (to : ℕ) {out : Raft × Bool} → send_append r to ≡ some out → Adds r out.0
unfolding send_append
send_append-Adds r to h =
    let (pr, found, g) = >>=-eq-some (lookup to r.prs) _ h in
    let (a, known, k) = >>=-eq-some (term r.raft_log (sub64 pr.next 1)) _ g in
    send_by r to pr (sub64 pr.next 1) a.0 a.1 k

append_to_other-Adds : (r : Raft) (id : ℕ) {r' : Raft} → append_to_other r id ≡ some r' → Adds r r'
unfolding append_to_other
append_to_other-Adds r id {r'} h = elim (if-cases (id == r.id) h) [
  | inl (_, stays) ↦ subst (Adds r) (some-injective _ _ stays) (Adds-refl r)
  | inr (_, sends) ↦
      let (out, sent, g) = >>=-eq-some (send_append r id) _ sends in
      subst (Adds r) (some-injective _ _ g) (send_append-Adds r id sent)
]

pub broadcast_append-Adds :
    (r : Raft) (ids : List ℕ) {r' : Raft} → broadcast_append r ids ≡ some r' → Adds r r'
unfolding broadcast_append
broadcast_append-Adds r [] h = subst (Adds r) (some-injective _ _ h) (Adds-refl r)
broadcast_append-Adds r (id ∷ ids) h =
    let (s, first, g) = >>=-eq-some (append_to_other r id) _ h in
    Adds-trans r (append_to_other-Adds r id first) (broadcast_append-Adds s ids g)
