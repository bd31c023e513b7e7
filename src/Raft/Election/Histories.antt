-- ===== src/Raft/Election/Histories.antt =====
-- A node over a whole history of messages and ticks (raft/raft.go).
use tiny_kv_practice.Prelude.{
  ℕ, ◌+◌, ◌<◌, ◌≡◌, ◌≢◌, refl, sym, ap, subst, ◌∙◌, ◌⊎◌, inl, inr, Option, some, arith, u64_mod,
  if-cases, leb,
}
use mathlib.Core.Option.{some-injective}
use tiny_kv_practice.Raft.Types.{Message, message, msg_hup, msg_beat}
use tiny_kv_practice.Raft.Node.{no_node, leader, tick_election, tick_heartbeat, TickFn, Raft}
use tiny_kv_practice.Raft.Node.Valid.{IsValid, Evolves, Evolves-refl, Evolves-trans, Runs}
use tiny_kv_practice.Raft.Node.Sends.{HasRoom}
use tiny_kv_practice.Raft.Step.{step, election_tick, heartbeat_tick, tick}
use tiny_kv_practice.Raft.Step.Total.{Fits, step-Runs, tick-Runs}
use tiny_kv_practice.Raft.Election.Promises.{step-vote_kept}

-- The states that a node reaches from `r`, by messages that fit and by ticks.
pub data Reaches (base : ℕ) (r : Raft) : Raft → Type 0 where
  here : Reaches base r r
  receive :
      {s t : Raft} (m : Message)
      → Reaches base r s
      → Fits base s m
      → step s m ≡ some t
      → Reaches base r t
  wait :
      {s t : Raft}
      → Reaches base r s
      → HasRoom base s 2
      → s.term + 1 < u64_mod
      → tick s ≡ some t
      → Reaches base r t

after :
    {base : ℕ} {r s t : Raft} {o : Option Raft}
    → Evolves r s
    → Runs base s o
    → o ≡ some t
    → IsValid base t × Evolves r t
after {base} {r} e a h =
    subst (λ x. IsValid base x × Evolves r x) (some-injective _ _ (sym a.runs ∙ h))
      (a.valid, Evolves-trans e a.evolves)

-- Every state that a valid node reaches, by messages that fit and by ticks, is valid again. It has the
-- same identity and peers, its term is not lower, and its outbox only grew.
pub Reaches-IsValid :
    {base : ℕ} {r s : Raft} → IsValid base r → Reaches base r s → IsValid base s × Evolves r s
Reaches-IsValid {r} v here = (v, Evolves-refl r)
Reaches-IsValid v (receive m before fits steps) =
    let (now, evolves) = Reaches-IsValid v before in after evolves (step-Runs m now fits) steps
Reaches-IsValid v (wait before room word ticks) =
    let (now, evolves) = Reaches-IsValid v before in after evolves (tick-Runs now room word) ticks

-- Ticks keep a vote as steps do.
abbrev Keeps : Raft → Raft → Type 0
Keeps r t = (t.vote ≡ r.vote) ⊎ (t.state ≡ leader)

same_vote : (r : Raft) {t : Raft} (s : Raft) → s.vote ≡ r.vote → some s ≡ some t → Keeps r t
same_vote r s e h = inl (ap (λ (x : Raft). x.vote) (sym (some-injective _ _ h)) ∙ e)

step-Keeps :
    (r : Raft) (m : Message) {t : Raft}
    → r.term + 1 < u64_mod
    → m.term + 1 < u64_mod
    → step r m ≡ some t
    → r.vote ≢ no_node
    → t.term ≡ r.term
    → Keeps r t
step-Keeps r m word message_word h given same =
    elim (step-vote_kept r m word message_word h given same) [
      | inl kept ↦ inl kept
      | inr (_, leads) ↦ inr leads
    ]

election_tick-Keeps :
    (r : Raft) {t : Raft}
    → r.term + 1 < u64_mod
    → election_tick r ≡ some t
    → r.vote ≢ no_node
    → t.term ≡ r.term
    → Keeps r t
unfolding election_tick
election_tick-Keeps r {t} word h given same =
    elim (if-cases (leb r.election_timeout (r.election_elapsed + 1)) h) [
      | inl (_, fires) ↦
          step-Keeps (record r { election_elapsed = 0 }) (message msg_hup r.id r.id 0) word
            (omega arith) fires given same
      | inr (_, waits) ↦ same_vote r _ refl waits
    ]

heartbeat_tick-Keeps :
    (r : Raft) {t : Raft}
    → r.term + 1 < u64_mod
    → heartbeat_tick r ≡ some t
    → r.vote ≢ no_node
    → t.term ≡ r.term
    → Keeps r t
unfolding heartbeat_tick
heartbeat_tick-Keeps r {t} word h given same =
    elim (if-cases (leb r.heartbeat_timeout (r.heartbeat_elapsed + 1)) h) [
      | inl (_, fires) ↦
          step-Keeps (record r { heartbeat_elapsed = 0 }) (message msg_beat r.id r.id 0) word
            (omega arith) fires given same
      | inr (_, waits) ↦ same_vote r _ refl waits
    ]

tick-Keeps_by :
    (f : TickFn) (r : Raft) {t : Raft}
    → r.term + 1 < u64_mod
    → (elim f as (λ _. Option Raft) [
      | tick_election ↦ election_tick r
      | tick_heartbeat ↦ heartbeat_tick r
    ])
      ≡ some t
    → r.vote ≢ no_node
    → t.term ≡ r.term
    → Keeps r t
tick-Keeps_by tick_election r word h given same = election_tick-Keeps r word h given same
tick-Keeps_by tick_heartbeat r word h given same = heartbeat_tick-Keeps r word h given same

tick-Keeps :
    (r : Raft) {t : Raft}
    → r.term + 1 < u64_mod
    → tick r ≡ some t
    → r.vote ≢ no_node
    → t.term ≡ r.term
    → Keeps r t
unfolding tick
tick-Keeps r word h given same = tick-Keeps_by r.tick_fn r word h given same

-- The node was the leader at some time of the history, after its beginning.
abbrev pub HasLed : {base : ℕ} {r s : Raft} → Reaches base r s → Type 0
HasLed here = ⊥
HasLed (receive {t} m before fits steps) = (t.state ≡ leader) ⊎ HasLed before
HasLed (wait {t} before room word ticks) = (t.state ≡ leader) ⊎ HasLed before

-- One more state in the same term
extend_kept :
    (r s t : Raft) (Led : Type 0)
    → (s.vote ≡ r.vote) ⊎ Led
    → r.vote ≢ no_node
    → (s.vote ≢ no_node → Keeps s t)
    → (t.vote ≡ r.vote) ⊎ ((t.state ≡ leader) ⊎ Led)
extend_kept r s t Led (inr led) given keeps = inr (inr led)
extend_kept r s t Led (inl kept) given keeps = elim (keeps (λ e. given (sym kept ∙ e))) [
  | inl same ↦ inl (same ∙ kept)
  | inr leads ↦ inr (inl leads)
]

-- Over a whole history that stays in one term, a valid node keeps the vote that it has given, unless it
-- was the leader in one of the states of that history.
pub Reaches-vote_kept :
    {base : ℕ} {r s : Raft}
    → IsValid base r
    → (history : Reaches base r s) → r.vote ≢ no_node
    → s.term ≡ r.term
    → (s.vote ≡ r.vote) ⊎ HasLed history
Reaches-vote_kept v here given same = inl refl
Reaches-vote_kept {base} {r} v (receive {s} {t} m before fits steps) given same =
    let (now, evolves) = Reaches-IsValid v before in
    let moves = (after (Evolves-refl s) (step-Runs m now fits) steps).1 in
    let first : s.term ≡ r.term = omega (arith, evolves.term-le, moves.term-le, same) in
    extend_kept r s t (HasLed before) (Reaches-vote_kept v before given first) given
      (λ voted. step-Keeps s m fits.next_term fits.message_term steps voted (same ∙ sym first))
Reaches-vote_kept {base} {r} v (wait {s} {t} before room word ticks) given same =
    let (now, evolves) = Reaches-IsValid v before in
    let moves = (after (Evolves-refl s) (tick-Runs now room word) ticks).1 in
    let first : s.term ≡ r.term = omega (arith, evolves.term-le, moves.term-le, same) in
    extend_kept r s t (HasLed before) (Reaches-vote_kept v before given first) given
      (λ voted. tick-Keeps s word ticks voted (same ∙ sym first))
