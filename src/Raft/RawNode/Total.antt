-- ===== src/Raft/RawNode/Total.antt =====
-- No call of raft/rawnode.go makes a valid node panic.
use tiny_kv_practice.Prelude.{
  ℕ, ◌+◌, ◌<◌, ◌≡◌, refl, false, Option, none, some, length, u64_mod, Bool-cases, Option-cases, inl,
  inr, ◌>>=◌,
}
use tiny_kv_practice.Prelude.Maps.{lookup}
use tiny_kv_practice.Raft.Types.{
  Message, MessageType, msg_append, msg_append_response, msg_heartbeat_response, Error,
  step_local_msg, step_peer_not_found,
}
use tiny_kv_practice.Raft.Util.{is_local_msg, is_response_msg}
use tiny_kv_practice.Raft.Node.{Progress, Raft}
use tiny_kv_practice.Raft.Node.Valid.{IsValid, Evolves, Evolves-refl, Runs}
use tiny_kv_practice.Raft.Node.Sends.{HasRoom}
use tiny_kv_practice.Raft.Step.Append.{AppendFits}
use tiny_kv_practice.Raft.Step.Total.{Needs, step-Runs}
use tiny_kv_practice.Raft.RawNode.{step}

-- A message that may come from outside: only the entries of a leader need to fit.
pub record FitsRaw (base : ℕ) (r : Raft) (m : Message) : Type 0 where
  pub room : HasRoom base r (length m.entries + 2)
  pub next_term : r.term + 1 < u64_mod
  pub message_term : m.term + 1 < u64_mod
  pub entries_fit : m.msg_type ≡ msg_append → AppendFits base r.raft_log m

-- A call that ends in a valid state, with or without an error.
pub record RunsRaw (base : ℕ) (r : Raft) (o : Option (Raft × Option Error)) : Type 0 where
  pub next : Raft
  pub error : Option Error
  pub runs : o ≡ some (next, error)
  pub valid : IsValid base next
  pub evolves : Evolves r next

needs :
    (base : ℕ) (r : Raft) (m : Message) (t : MessageType) {pr : Progress}
    → (t ≡ msg_append → AppendFits base r.raft_log m)
    → lookup m.from r.prs ≡ some pr
    → Needs base r m t
needs base r m msg_append {pr} f p = f refl
needs base r m msg_append_response {pr} f p = (pr, p)
needs base r m msg_heartbeat_response {pr} f p = (pr, p)
needs base r m _ f p = tt

needs_no_peer :
    (base : ℕ) (r : Raft) (m : Message) (t : MessageType)
    → (t ≡ msg_append → AppendFits base r.raft_log m)
    → is_response_msg t ≡ false
    → Needs base r m t
unfolding is_response_msg
needs_no_peer base r m msg_append f p = f refl
needs_no_peer base r m msg_append_response f p = cc
needs_no_peer base r m msg_heartbeat_response f p = cc
needs_no_peer base r m _ f p = tt

raw :
    {base : ℕ} {r : Raft} {o : Option Raft}
    → Runs base r o
    → RunsRaw base r (o >>= λ s. some (s, none))
raw a = record {
  next = a.next;
  error = none;
  runs = rw a.runs refl;
  valid = a.valid;
  evolves = a.evolves;
}

refuse : {base : ℕ} {r : Raft} (e : Error) → IsValid base r → RunsRaw base r (some (r, some e))
refuse {r} e v = record {
  next = r;
  error = some e;
  runs = refl;
  valid = v;
  evolves = Evolves-refl r;
}

-- `RawNode.Step` on a valid node does not panic, whoever sent the message and whatever its type, if the
-- entries of a leader fit the log: it ends in a valid state.
pub step-RunsRaw :
    {base : ℕ} {r : Raft} (m : Message)
    → IsValid base r
    → FitsRaw base r m
    → RunsRaw base r (step r m)
unfolding step
step-RunsRaw {base} {r} m v f =
    let runs = λ (n : Needs base r m m.msg_type). raw (
      step-Runs m v (record {
        room = f.room;
        next_term = f.next_term;
        message_term = f.message_term;
        needs = n;
      })) in
    elim (Bool-cases (is_local_msg m.msg_type)) [
      | inl local ↦ rw local (refuse step_local_msg v)
      | inr remote ↦ elim (Option-cases (lookup m.from r.prs)) [
        | inr (pr, found) ↦
            rw (remote, found) (runs (needs base r m m.msg_type {pr = pr} f.entries_fit found))
        | inl unknown ↦ elim (Bool-cases (is_response_msg m.msg_type)) [
          | inl response ↦ rw (remote, unknown, response) (refuse step_peer_not_found v)
          | inr request ↦
              rw (remote, unknown, request)
                (runs (needs_no_peer base r m m.msg_type f.entries_fit request))
        ]
      ]
    ]
