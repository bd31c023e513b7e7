-- ===== src/Raft/Node/Valid.antt =====
-- What a node's state always satisfies, and how a transition may change it.
use mathlib.Core.List.{append-nil, append_assoc}
use tiny_kv_practice.Prelude.{
  ℕ, ◌+◌, ◌≤◌, ◌<◌, ◌≡◌, ◌≢◌, refl, sym, ap, ◌∙◌, Option, some, List, [], ◌++◌, arith, length, All,
  u64_mod, ◌>>=◌, Bool, true, false, if◌then◌else◌,
}
use tiny_kv_practice.Prelude.Maps.{lookup, keys}
use tiny_kv_practice.Raft.Types.{Message}
use tiny_kv_practice.Raft.Log.Shape.{IsWf, IsCompacted, set_committed-IsWf}
use tiny_kv_practice.Raft.Node.{Progress, Raft, follower}

-- `base` is the index up to which the storage is compacted.
pub record IsValid (base : ℕ) (r : Raft) : Type 0 where
  pub wf : IsWf base r.raft_log
  pub compacted : IsCompacted base r.raft_log.storage
  pub committed-le : r.raft_log.committed ≤ base + length r.raft_log.entries
  pub own : Progress
  pub own_eq : lookup r.id r.prs ≡ some own
  pub active_term : r.state ≢ follower → 0 < r.term
  pub next_words : All (λ e. e.1.next < u64_mod) r.prs

-- A transition keeps the identity and the peers, never lowers the term, and adds to the outbox.
pub record Evolves (r r' : Raft) : Type 0 where
  pub id_eq : r'.id ≡ r.id
  pub peers_eq : keys r'.prs ≡ keys r.prs
  pub term-le : r.term ≤ r'.term
  pub sent : List Message
  pub msgs_eq : r'.msgs ≡ r.msgs ++ sent

pub Evolves-quiet :
    {r r' : Raft}
    → r'.id ≡ r.id
    → keys r'.prs ≡ keys r.prs
    → r.term ≤ r'.term
    → r'.msgs ≡ r.msgs
    → Evolves r r'
Evolves-quiet {r} i p t m = record {
  id_eq = i;
  peers_eq = p;
  term-le = t;
  sent = [];
  msgs_eq = m ∙ sym (append-nil r.msgs);
}

pub Evolves-refl : (r : Raft) → Evolves r r
Evolves-refl r = Evolves-quiet refl refl (omega arith) refl

pub Evolves-trans : {r s t : Raft} → Evolves r s → Evolves s t → Evolves r t
Evolves-trans {r} a b = record {
  id_eq = b.id_eq ∙ a.id_eq;
  peers_eq = b.peers_eq ∙ a.peers_eq;
  term-le = omega (arith, a.term-le, b.term-le);
  sent = a.sent ++ b.sent;
  msgs_eq = b.msgs_eq ∙ ap (λ ms. ms ++ b.sent) a.msgs_eq ∙ append_assoc r.msgs a.sent b.sent;
}

-- The computation `o` from the state `r` does not panic, and ends in a valid state.
pub record Runs (base : ℕ) (r : Raft) (o : Option Raft) : Type 0 where
  pub next : Raft
  pub runs : o ≡ some next
  pub valid : IsValid base next
  pub evolves : Evolves r next

-- The messages `sent` are added to the outbox, and nothing else changes.
abbrev pub with_msgs : Raft → List Message → Raft
with_msgs r sent = record r { msgs = r.msgs ++ sent }

pub with_msgs-nil : (r : Raft) → r ≡ with_msgs r []
with_msgs-nil r = λ i. record r { msgs = sym (append-nil r.msgs) i }

pub with_msgs-append :
    (r : Raft) (a b : List Message) → with_msgs (with_msgs r a) b ≡ with_msgs r (a ++ b)
with_msgs-append r a b = λ i. record r { msgs = append_assoc r.msgs a b i }

pub with_msgs-IsValid :
    {base : ℕ} {r : Raft} (sent : List Message) → IsValid base r → IsValid base (with_msgs r sent)
with_msgs-IsValid sent v = record {
  wf = v.wf;
  compacted = v.compacted;
  committed-le = v.committed-le;
  own = v.own;
  own_eq = v.own_eq;
  active_term = v.active_term;
  next_words = v.next_words;
}

pub Runs-pure :
    {base : ℕ} {r : Raft} (r' : Raft) → IsValid base r' → Evolves r r' → Runs base r (some r')
Runs-pure r' v e = record { next = r'; runs = refl; valid = v; evolves = e }

-- A later computation, from the state in which an earlier one ended.
pub Runs-bind :
    {base : ℕ} {r : Raft} (o : Option Raft) (f : Raft → Option Raft) (a : Runs base r o)
    → Runs base a.next (f a.next)
    → Runs base r (o >>= f)
Runs-bind o f a b = record {
  next = b.next;
  runs = rw a.runs b.runs;
  valid = b.valid;
  evolves = Evolves-trans a.evolves b.evolves;
}

-- A computation that begins in another state, which the first one reaches without a panic.
pub Runs-from :
    {base : ℕ} {r : Raft} (s : Raft) {o : Option Raft} → Evolves r s → Runs base s o → Runs base r o
Runs-from s e a = record {
  next = a.next;
  runs = a.runs;
  valid = a.valid;
  evolves = Evolves-trans e a.evolves;
}

abbrev pub set_committed : Raft → ℕ → Raft
set_committed r c = record r { raft_log = record r.raft_log { committed = c } }

pub set_committed-IsValid :
    {base : ℕ} {r : Raft} (c : ℕ)
    → IsValid base r
    → c ≤ base + length r.raft_log.entries
    → IsValid base (set_committed r c)
set_committed-IsValid c v h = record {
  wf = set_committed-IsWf c v.wf;
  compacted = v.compacted;
  committed-le = h;
  own = v.own;
  own_eq = v.own_eq;
  active_term = v.active_term;
  next_words = v.next_words;
}

-- The vote, the votes, the leader and the counters are no part of validity.
abbrev pub touched : Raft → ℕ → List (ℕ × Bool) → ℕ → ℕ → ℕ → Raft
touched r vote votes lead election heartbeat = record r {
  vote = vote;
  votes = votes;
  lead = lead;
  election_elapsed = election;
  heartbeat_elapsed = heartbeat;
}

pub touched-IsValid :
    {base : ℕ} {r : Raft} (vote : ℕ) (votes : List (ℕ × Bool)) (lead election heartbeat : ℕ)
    → IsValid base r
    → IsValid base (touched r vote votes lead election heartbeat)
touched-IsValid vote votes lead election heartbeat v = record {
  wf = v.wf;
  compacted = v.compacted;
  committed-le = v.committed-le;
  own = v.own;
  own_eq = v.own_eq;
  active_term = v.active_term;
  next_words = v.next_words;
}

pub touched-Evolves :
    (r : Raft) (vote : ℕ) (votes : List (ℕ × Bool)) (lead election heartbeat : ℕ)
    → Evolves r (touched r vote votes lead election heartbeat)
touched-Evolves r vote votes lead election heartbeat = Evolves-quiet refl refl (omega arith) refl

-- A branch, whatever its test.
pub Runs-if :
    {base : ℕ} {r : Raft} (b : Bool) {x y : Option Raft}
    → Runs base r x
    → Runs base r y
    → Runs base r (if b then x else y)
Runs-if true f g = f
Runs-if false f g = g
