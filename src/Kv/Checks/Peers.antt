-- ===== src/Kv/Checks/Peers.antt =====
-- The peers of a region (kv/raftstore/util/util.go).
use tiny_kv_practice.Prelude.{ℕ, ◌≡◌, ◌≢◌, refl, ap, none, List, [], ◌∷◌, arith, ℕ_discrete}
use tiny_kv_practice.Kv.Checks.{Peer, Region, find_in, find_peer, remove_from, remove_peer}

find_in-remove_from :
    (peers : List Peer) (store other : ℕ)
    → other ≢ store
    → find_in (remove_from peers store) other ≡ find_in peers other
unfolding find_in remove_from
find_in-remove_from [] store other h = refl
find_in-remove_from (peer ∷ peers) store other h = elim (ℕ_discrete peer.store_id store) [
  | yes here ↦ ground arith
  | no elsewhere ↦ ground (arith, find_in-remove_from peers store other h)
]

-- The stores of the peers are different.
abbrev pub IsDistinct : List Peer → Type 0
IsDistinct [] = Unit
IsDistinct (peer ∷ peers) = (find_in peers peer.store_id ≡ none) × IsDistinct peers

find_in-removed :
    (peers : List Peer) (store : ℕ)
    → IsDistinct peers
    → find_in (remove_from peers store) store ≡ none
unfolding find_in remove_from
find_in-removed [] store d = refl
find_in-removed (peer ∷ peers) store d = elim (ℕ_discrete peer.store_id store) [
  | yes here ↦ ground (arith, ap (find_in peers) here, d.0)
  | no elsewhere ↦ ground (arith, find_in-removed peers store d.1)
]

-- In a region with one peer on each store, `RemovePeer` returns the peer that `FindPeer` finds. Afterwards
-- no peer of that store is found, and those of any other store as before.
pub find_peer-remove_peer :
    (region : Region) (store other : ℕ)
    → IsDistinct region.peers
    → other ≢ store
    → ((remove_peer region store).1 ≡ find_peer region store)
      × (find_peer (remove_peer region store).0 store ≡ none)
      × (find_peer (remove_peer region store).0 other ≡ find_peer region other)
unfolding find_peer remove_peer
find_peer-remove_peer region store other d h =
    (refl, find_in-removed region.peers store d, find_in-remove_from region.peers store other h)
