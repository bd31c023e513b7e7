-- ===== src/Raft/Election/Promises.antt =====
-- What the turns of the election protocol promise, and so the steps of raft/raft.go.
use tiny_kv_practice.Prelude.{
  ℕ, ◌+◌, ◌≤◌, ◌<◌, ◌≡◌, ◌≢◌, refl, sym, ◌⊎◌, inl, inr, arith, u64_mod, some,
}
use tiny_kv_practice.Raft.Types.{Message}
use tiny_kv_practice.Raft.Node.{no_node, candidate, leader, Raft}
use tiny_kv_practice.Raft.Step.{step}
use tiny_kv_practice.Raft.Election.{
  Ballot, Turn, keep, stand, stand_alone, grant, win, lose, count, yield, Turns, at_once, later,
}
use tiny_kv_practice.Raft.Election.Refines.{step-Turns}

pub Turn-term-le : {own n : ℕ} {m : Message} {b c : Ballot} → Turn own n m b c → b.term ≤ c.term
Turn-term-le keep = omega arith
Turn-term-le (stand is role more) = omega arith
Turn-term-le (stand_alone is role alone) = omega arith
Turn-term-le (grant is now role free) = omega arith
Turn-term-le (win is now role most) = omega arith
Turn-term-le (lose is now role few most) = omega arith
Turn-term-le (count is now role few less) = omega arith
Turn-term-le (yield is now role) = omega arith

-- A vote that was given is kept by each turn of the same term, but the one in which a candidate wins.
Turn-vote_kept :
    {own n : ℕ} {m : Message} {b c : Ballot}
    → Turn own n m b c
    → b.vote ≢ no_node
    → c.term ≡ b.term
    → (c.vote ≡ b.vote) ⊎ ((b.role ≡ candidate) × (c.role ≡ leader))
Turn-vote_kept keep given same = inl refl
Turn-vote_kept (stand is role more) given same = absurd (omega arith)
Turn-vote_kept (stand_alone is role alone) given same = absurd (omega arith)
Turn-vote_kept (grant is now role (inl free)) given same = absurd (given free)
Turn-vote_kept (grant is now role (inr again)) given same = inl (sym again)
Turn-vote_kept (win is now role most) given same = inr (role, refl)
Turn-vote_kept (lose is now role few most) given same = inl refl
Turn-vote_kept (count is now role few less) given same = inl refl
Turn-vote_kept (yield is now role) given same = inl refl

pub Turns-vote_kept :
    {own n : ℕ} {m : Message} {b c : Ballot}
    → Turns own n m b c
    → b.vote ≢ no_node
    → c.term ≡ b.term
    → (c.vote ≡ b.vote) ⊎ ((b.role ≡ candidate) × (c.role ≡ leader))
Turns-vote_kept (at_once t) given same = Turn-vote_kept t given same
Turns-vote_kept (later compares ahead t) given same =
    absurd (omega (arith, ahead, Turn-term-le t, same))

-- In one term a node keeps the vote that it has given, whatever message it handles: a step that ends in
-- the same term leaves the vote as it is, or it is the one in which the node, a candidate, becomes
-- the leader.
pub step-vote_kept :
    (r : Raft) (m : Message) {r' : Raft}
    → r.term + 1 < u64_mod
    → m.term + 1 < u64_mod
    → step r m ≡ some r'
    → r.vote ≢ no_node
    → r'.term ≡ r.term
    → (r'.vote ≡ r.vote) ⊎ ((r.state ≡ candidate) × (r'.state ≡ leader))
step-vote_kept r m word message_word h given same =
    Turns-vote_kept (step-Turns r m word message_word h) given same
