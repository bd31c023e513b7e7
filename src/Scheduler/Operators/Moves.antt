-- ===== src/Scheduler/Operators/Moves.antt =====
-- The operators that move or remove a peer (scheduler/server/schedule/operator/operator.go), step by step.
use tiny_kv_practice.Prelude.{
  ℕ, ◌≡◌, ◌≢◌, inl, inr, refl, sym, ap, ◌∙◌, subst, false, not, some, List, [], ◌∷◌, ◌==◌, select,
  All, arith, Bool-cases,
}
use tiny_kv_practice.Prelude.Maps.{insert, keys}
use tiny_kv_practice.Kv.Checks.{Peer}
use tiny_kv_practice.Scheduler.Tree.Shape.{In, All-In}
use tiny_kv_practice.Scheduler.Regions.{followers_of}
use tiny_kv_practice.Scheduler.Operators.{OpStep, transfer_leader, add_peer, remove_peer}

abbrev pub stores : List Peer → List ℕ
stores [] = []
stores (p ∷ peers) = p.store_id ∷ stores peers

abbrev pub without : ℕ → List ℕ → List ℕ
without store l = select (λ s. not (s == store)) l

-- The store of the leader and the stores of the peers after steps that are carried out in order.
abbrev pub run : List OpStep → ℕ → List ℕ → ℕ × List ℕ
run [] leader l = (leader, l)
run (transfer_leader from_store to_store ∷ steps) leader l = run steps to_store l
run (add_peer to_store peer_id ∷ steps) leader l = run steps leader (to_store ∷ l)
run (remove_peer from_store ∷ steps) leader l = run steps leader (without from_store l)

-- The leader goes from its store to one that has a peer, a peer is added where there is none, and the peer
-- that is removed is not the leader.
abbrev pub IsSafe : List OpStep → ℕ → List ℕ → Type 0
IsSafe [] leader l = Unit
IsSafe (transfer_leader from_store to_store ∷ steps) leader l =
    (from_store ≡ leader) × In to_store l × IsSafe steps to_store l
IsSafe (add_peer to_store peer_id ∷ steps) leader l =
    (In to_store l → ⊥) × IsSafe steps leader (to_store ∷ l)
IsSafe (remove_peer from_store ∷ steps) leader l =
    (from_store ≢ leader) × In from_store l × IsSafe steps leader (without from_store l)

-- No two peers are on one store.
abbrev pub IsSpread : List Peer → Type 0
IsSpread [] = Unit
IsSpread (p ∷ peers) = All (λ q. q.store_id ≢ p.store_id) peers × IsSpread peers

spread-same :
    (peers : List Peer) {p q : Peer}
    → IsSpread peers
    → In p peers
    → In q peers
    → p.store_id ≡ q.store_id
    → p ≡ q
spread-same [] s i j h = absurd i
spread-same (x ∷ peers) s (inl e) (inl f) h = e ∙ sym f
spread-same (x ∷ peers) {p} {q} s (inl e) (inr j) h =
    absurd (All-In (λ q. q.store_id ≢ x.store_id) peers s.0 j (sym h ∙ ap (λ p. p.store_id) e))
spread-same (x ∷ peers) {p} {q} s (inr i) (inl f) h =
    absurd (All-In (λ q. q.store_id ≢ x.store_id) peers s.0 i (h ∙ ap (λ p. p.store_id) f))
spread-same (x ∷ peers) s (inr i) (inr j) h = spread-same peers s.1 i j h

In-stores : (peers : List Peer) (p : Peer) → In p peers → In p.store_id (stores peers)
In-stores [] p i = absurd i
In-stores (x ∷ peers) p (inl e) = inl (ap (λ p. p.store_id) e)
In-stores (x ∷ peers) p (inr i) = inr (In-stores peers p i)

-- The store of a voter other than the leader
abbrev pub IsFollower : Peer → List Peer → ℕ → Type 0
IsFollower l voters store =
    (p : Peer) × In p voters × ((l.id == p.id) ≡ false) × (p.store_id ≡ store)

All-keys-insert :
    (P : ℕ → Type 0) {V : Type 0} (k : ℕ) (v : V) (m : List (ℕ × V))
    → P k
    → All P (keys m)
    → All P (keys (insert k v m))
unfolding insert
All-keys-insert P k v [] h a = (h, tt)
All-keys-insert P k v ((j, w) ∷ m) h a = elim (Bool-cases (j == k)) [
  | inl same ↦ rw same (h, a.1)
  | inr other ↦ rw other (a.0, All-keys-insert P k v m h a.1)
]

pub followers_of-All :
    (l : Peer) (voters peers : List Peer) (m : List (ℕ × Peer))
    → ((p : Peer) → In p peers → In p voters)
    → All (IsFollower l voters) (keys m)
    → All (IsFollower l voters) (keys (followers_of (some l) peers m))
unfolding followers_of
followers_of-All l voters [] m sub a = a
followers_of-All l voters (p ∷ peers) m sub a = elim (Bool-cases (l.id == p.id)) [
  | inl leader ↦ rw leader (followers_of-All l voters peers m (λ q i. sub q (inr i)) a)
  | inr other ↦ rw other (
      followers_of-All l voters peers _ (λ q i. sub q (inr i))
        (All-keys-insert (IsFollower l voters) p.store_id p m (p, sub p (inl refl), other, refl) a))
]

-- A follower is on another store than the leader.
pub follower_elsewhere :
    (voters : List Peer) (l : Peer) (t : ℕ)
    → IsSpread voters
    → In l voters
    → IsFollower l voters t
    → t ≢ l.store_id
follower_elsewhere voters l t s i (p, j, other, on) same =
    let e : p ≡ l = spread-same voters s j i (on ∙ same) in
    absurd (ground (arith, other, ap (λ p. p.id) e))

pub follower_on :
    (voters : List Peer) (l : Peer) (t : ℕ) → IsFollower l voters t → In t (stores voters)
follower_on voters l t (p, j, other, on) =
    subst (λ t. In t (stores voters)) on (In-stores voters p j)
