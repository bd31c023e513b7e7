-- ===== src/Raft/Election/Majority.antt =====
-- The votes that a node of raft/raft.go has when it wins an election, as votes of its peers.
use tiny_kv_practice.Prelude.{
  ℕ, suc, ◌+◌, ◌/◌, ◌<◌, ◌≡◌, ◌≢◌, ◌==◌, refl, subst, ap, Bool, true, false, not, some, List, [],
  ◌∷◌, arith, Bool-cases, ◌⊎◌, inl, inr, length, All, In, All-In, u64_mod,
}
use tiny_kv_practice.Prelude.Maps.{insert, keys, All-insert}
use tiny_kv_practice.Raft.Types.{Message, msg_request_vote_response}
use tiny_kv_practice.Raft.Node.{candidate, leader, Raft}
use tiny_kv_practice.Raft.Step.{count_votes, step}
use tiny_kv_practice.Raft.Election.{
  Ballot, Turn, keep, stand, stand_alone, grant, win, lose, count, yield, Turns, at_once, later,
}
use tiny_kv_practice.Raft.Election.Refines.{step-Turns}
use tiny_kv_practice.Raft.Election.Elected.{step-elected}

abbrev Differ : List ℕ → Type 0
Differ [] = Unit
Differ (x ∷ xs) = All (λ y. y ≢ x) xs × Differ xs

-- The nodes whose votes have been entered are different peers.
pub record HasElectorate (peers : List ℕ) (votes : List (ℕ × Bool)) : Type 0 where
  pub differ : Differ (keys votes)
  pub are_peers : All (λ v. In v.0 peers) votes

abbrev granted : List (ℕ × Bool) → List ℕ
granted [] = []
granted ((k, true) ∷ votes) = k ∷ granted votes
granted ((k, false) ∷ votes) = granted votes

length-granted : (votes : List (ℕ × Bool)) → length (granted votes) ≡ count_votes true votes
unfolding count_votes
length-granted [] = refl
length-granted ((k, true) ∷ votes) = omega (arith, length-granted votes)
length-granted ((k, false) ∷ votes) = omega (arith, length-granted votes)

granted-All :
    {P : ℕ → Type 0} (votes : List (ℕ × Bool))
    → ((k : ℕ) → In (k, true) votes → P k)
    → All P (granted votes)
granted-All [] f = tt
granted-All ((k, true) ∷ votes) f = (f k (inl refl), granted-All votes (λ j i. f j (inr i)))
granted-All ((k, false) ∷ votes) f = granted-All votes (λ j i. f j (inr i))

granted-keys :
    (P : ℕ → Type 0) (votes : List (ℕ × Bool)) → All P (keys votes) → All P (granted votes)
granted-keys P [] a = tt
granted-keys P ((k, true) ∷ votes) a = (a.0, granted-keys P votes a.1)
granted-keys P ((k, false) ∷ votes) a = granted-keys P votes a.1

granted-Differ : (votes : List (ℕ × Bool)) → Differ (keys votes) → Differ (granted votes)
granted-Differ [] d = tt
granted-Differ ((k, true) ∷ votes) d =
    (granted-keys (λ y. y ≢ k) votes d.0, granted-Differ votes d.1)
granted-Differ ((k, false) ∷ votes) d = granted-Differ votes d.1

All-keys-insert :
    (P : ℕ → Type 0) (k : ℕ) (v : Bool) (votes : List (ℕ × Bool))
    → P k
    → All P (keys votes)
    → All P (keys (insert k v votes))
unfolding insert
All-keys-insert P k v [] p a = (p, tt)
All-keys-insert P k v ((j, w) ∷ votes) p a = elim (Bool-cases (j == k)) [
  | inl same ↦ rw same (p, a.1)
  | inr other ↦ rw other (a.0, All-keys-insert P k v votes p a.1)
]

insert-Differ :
    (k : ℕ) (v : Bool) (votes : List (ℕ × Bool))
    → Differ (keys votes)
    → Differ (keys (insert k v votes))
unfolding insert
insert-Differ k v [] d = (tt, tt)
insert-Differ k v ((j, w) ∷ votes) d = elim (Bool-cases (j == k)) [
  | inl same ↦ rw same (subst (λ i. All (λ y. y ≢ i) (keys votes)) (ground (arith, same)) d.0, d.1)
  | inr other ↦ rw other (
    All-keys-insert (λ y. y ≢ j) k v votes (ground (arith, other)) d.0,
    insert-Differ k v votes d.1,
  )
]

-- A vote of a peer is added.
insert-HasElectorate :
    {peers : List ℕ} (k : ℕ) (v : Bool) (votes : List (ℕ × Bool))
    → In k peers
    → HasElectorate peers votes
    → HasElectorate peers (insert k v votes)
insert-HasElectorate k v votes peer h = record {
  differ = insert-Differ k v votes h.differ;
  are_peers = All-insert (λ v. In v.0 _) k v votes peer h.are_peers;
}

-- More than half of the peers, all different, with a granting vote each among those given
pub record HasMajority (peers : List ℕ) (votes : List (ℕ × Bool)) : Type 0 where
  pub voters : List ℕ
  pub differ : Differ voters
  pub are_peers : All (λ k. In k peers) voters
  pub granted : All (λ k. In (k, true) votes) voters
  pub majority : length peers / 2 < length voters

length-keys : {V : Type 0} (l : List (ℕ × V)) → length (keys l) ≡ length l
length-keys [] = refl
length-keys (v ∷ l) = ap suc (length-keys l)

HasElectorate-HasMajority :
    {peers : List ℕ} (votes : List (ℕ × Bool))
    → HasElectorate peers votes
    → length peers / 2 < count_votes true votes
    → HasMajority peers votes
HasElectorate-HasMajority {peers} votes h enough = record {
  voters = granted votes;
  differ = granted-Differ votes h.differ;
  are_peers = granted-All votes (λ k i. All-In (λ v. In v.0 peers) votes h.are_peers i);
  granted = granted-All votes (λ k i. i);
  majority = omega (arith, enough, length-granted votes);
}

module _ (own n : ℕ) (m : Message) (peers : List ℕ) (is_own : In own peers)
    (sender : m.msg_type ≡ msg_request_vote_response → In m.from peers) where
  nobody : HasElectorate peers []
  nobody = record { differ = tt; are_peers = tt }

  Turn-HasElectorate :
      {b c : Ballot} → Turn own n m b c → HasElectorate peers b.votes → HasElectorate peers c.votes
  Turn-HasElectorate keep h = h
  Turn-HasElectorate (stand _ _ _) h = record { differ = (tt, tt); are_peers = (is_own, tt) }
  Turn-HasElectorate (stand_alone _ _ _) h = nobody
  Turn-HasElectorate (grant _ _ _ _) h = h
  Turn-HasElectorate (win _ _ _ _) h = nobody
  Turn-HasElectorate (lose _ _ _ _ _) h = nobody
  Turn-HasElectorate {b} (count word _ _ _ _) h =
      insert-HasElectorate m.from (not m.reject) b.votes (sender word) h
  Turn-HasElectorate (yield _ _ _) h = nobody

  Turns-HasElectorate :
      {b c : Ballot} → Turns own n m b c → HasElectorate peers b.votes → HasElectorate peers c.votes
  Turns-HasElectorate (at_once t) h = Turn-HasElectorate t h
  Turns-HasElectorate (later _ _ t) h = Turn-HasElectorate t nobody

module _ (r : Raft) (m : Message) {r' : Raft} (electorate : HasElectorate (keys r.prs) r.votes)
    (sender : m.msg_type ≡ msg_request_vote_response → In m.from (keys r.prs))
    (steps : step r m ≡ some r') where
  -- That the votes entered are those of different peers is kept by a step, if the node is a peer itself, and
  -- so is the sender of a vote response.
  pub step-HasElectorate :
      r.term + 1 < u64_mod
      → m.term + 1 < u64_mod
      → In r.id (keys r.prs)
      → HasElectorate (keys r.prs) r'.votes
  step-HasElectorate word message_word is_own =
      Turns-HasElectorate r.id (length r.prs) m (keys r.prs) is_own sender
        (step-Turns r m word message_word steps) electorate

  -- Where the votes entered so far are those of different peers, as steps keep it, and the sender of a vote
  -- response is a peer, as RawNode.Step sees to: a node that becomes the leader is alone in its cluster, or it
  -- was a candidate of the message's term, and with the vote in the message more than half of the peers
  -- have granted it theirs.
  pub step-elected_by_peers :
      r.state ≢ leader
      → r'.state ≡ leader
      → (length r.prs ≡ 1)
        ⊎ ((r.state ≡ candidate)
            × (m.term ≡ r.term)
            × HasMajority (keys r.prs) (insert m.from (not m.reject) r.votes))
  step-elected_by_peers role leads = elim (step-elected r m steps role leads) [
    | inl alone ↦ inl alone
    | inr ((is, response, enough), same) ↦ inr (
      is,
      same,
      HasElectorate-HasMajority (insert m.from (not m.reject) r.votes)
          (insert-HasElectorate m.from (not m.reject) r.votes (sender response) electorate)
          (omega (arith, enough, length-keys r.prs)),
    )
  ]
