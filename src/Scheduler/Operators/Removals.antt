-- ===== src/Scheduler/Operators/Removals.antt =====
-- The operators that remove a peer, or replace one of an offline store
-- (scheduler/server/schedule/operator/operator.go).
use mathlib.Core.Option.{some-injective}
use tiny_kv_practice.Prelude.{
  ℕ, ◌≡◌, ◌≢◌, ◌⊎◌, inl, inr, refl, sym, ap, ◌∙◌, subst, false, not, Option, some, List, [], ◌∷◌,
  ◌++◌, ◌==◌, if◌then◌else◌, All, arith, Option-cases, if-cases, >>=-eq-some,
}
use tiny_kv_practice.Kv.Checks.{Peer}
use tiny_kv_practice.Scheduler.TypeUtil.{Bytes}
use tiny_kv_practice.Scheduler.Tree.Shape.{In, All-In}
use tiny_kv_practice.Scheduler.Regions.{RegionInfo, get_followers}
use tiny_kv_practice.Scheduler.Operators.{
  OpStep, transfer_leader, remove_peer, Operator, new_operator, get_region_follower_ids,
  find_available_store, transfer_leader_to_suitable_steps, transfer_leader_step, remove_peer_steps,
  is_on, create_remove_peer_operator, create_offline_peer_operator,
}
use tiny_kv_practice.Scheduler.Operators.Moves.{
  stores, IsSafe, IsSpread, IsFollower, followers_of-All, follower_elsewhere, follower_on,
}

Followers-All :
    (region : RegionInfo) (l : Peer)
    → region.leader ≡ some l
    → All (IsFollower l region.voters) (get_region_follower_ids region)
unfolding get_followers
Followers-All region l led =
    rw led (followers_of-All l region.voters region.voters [] (λ p i. i) tt)

module _ {Store : Type 0} (get_store : ℕ → Option Store) where
  found-In :
      (ids : List ℕ)
      → (find_available_store get_store ids == 0) ≡ false
      → In (find_available_store get_store ids) ids
  unfolding find_available_store
  found-In [] h = cc
  found-In (id ∷ ids) h = elim (Option-cases (get_store id)) [
    | inl unknown ↦
        let same : find_available_store get_store ids ≡ find_available_store get_store (id ∷ ids) =
          rw (unknown, find_available_store) refl in
        subst (λ t. In t (id ∷ ids)) same (inr (found-In ids (ap (λ t. t == 0) same ∙ h)))
    | inr (s, known) ↦ rw (known, find_available_store) (inl refl)
  ]

  -- The steps before the removal: none, if the leader is elsewhere, or the hand-over to a follower.
  pub record Before (region : RegionInfo) (l : Peer) (store : ℕ) (steps : List OpStep)
      : Type 0 where
    pub handed :
        ((steps ≡ []) × (store ≢ l.store_id))
        ⊎ ((t : ℕ) × (steps ≡ transfer_leader store t ∷ [])
            × (store ≡ l.store_id)
            × In t (stores region.voters)
            × (store ≢ t))

  transfer_leader_step-Before :
      (region : RegionInfo) (l : Peer) (store : ℕ) {k : ℕ} {steps : List OpStep}
      → region.leader ≡ some l
      → In l region.voters
      → IsSpread region.voters
      → transfer_leader_step get_store region store (get_region_follower_ids region)
        ≡ some (k, steps)
      → Before region l store steps
  unfolding transfer_leader_step transfer_leader_to_suitable_steps
  transfer_leader_step-Before region l store led i spread h =
      let ids = get_region_follower_ids region in
      let run =
        ap
          (λ o.
            if is_on get_store store o
            then transfer_leader_to_suitable_steps get_store store ids
            else some (0, []))
          (sym led)
        ∙ h in
      elim (if-cases (l.store_id == store) run) [
        | inl (same, e) ↦ elim (if-cases (not (find_available_store get_store ids == 0)) e) [
          | inl (real, there) ↦
              let here : store ≡ l.store_id = ground (arith, same) in
              let f =
                All-In (IsFollower l region.voters) ids (Followers-All region l led)
                  (found-In ids (ground (arith, real))) in
              record {
                handed = inr (
                  find_available_store get_store ids,
                  sym (ap (λ p. p.1) (some-injective _ _ there)),
                  here,
                  follower_on region.voters l _ f,
                  λ e. follower_elsewhere region.voters l _ spread i f (sym e ∙ here),
                );
              }
          | inr (_, absurdity) ↦ cc
        ]
        | inr (other, e) ↦ record {
          handed = inl (
            sym (ap (λ p. p.1) (some-injective _ _ e)),
            λ here. absurd (ground (arith, other, here)),
          );
        }
      ]

  module _ (now : ℕ) (desc : Bytes) (kind : ℕ) (region : RegionInfo) (l : Peer)
      (led : region.leader ≡ some l) (i : In l region.voters)
      (spread : IsSpread region.voters) where
    -- CreateRemovePeerOperator hands the leadership over first if it is on the store.
    pub create_remove_peer_operator-IsSafe :
        (store : ℕ) {o : Operator}
        → In store (stores region.voters)
        → create_remove_peer_operator get_store now desc kind region store ≡ some o
        → IsSafe o.steps l.store_id (stores region.voters)
    unfolding create_remove_peer_operator remove_peer_steps new_operator
    create_remove_peer_operator-IsSafe store {o} at h =
        let ((rk, all), e, made) =
          >>=-eq-some (remove_peer_steps get_store region store (get_region_follower_ids region)) _
            h in
        let ((k, steps), step, joined) =
          >>=-eq-some (transfer_leader_step get_store region store (get_region_follower_ids region))
            _ e in
        let is_all : steps ++ remove_peer store ∷ [] ≡ all =
          ap (λ p. p.1) (some-injective _ _ joined) in
        let is_steps : steps ++ remove_peer store ∷ [] ≡ o.steps =
          is_all ∙ ap (λ o. o.steps) (some-injective _ _ made) in
        subst (λ x. IsSafe x l.store_id (stores region.voters)) is_steps
          (elim (transfer_leader_step-Before region l store led i spread step).handed [
            | inl (nothing, elsewhere) ↦ rw nothing (elsewhere, at, tt)
            | inr (t, handing, here, reached, away) ↦ rw handing (here, reached, (away, at, tt))
          ])

    -- CreateOfflinePeerOperator hands the leadership over, adds the new peer, and removes the old one.
    pub create_offline_peer_operator-IsSafe :
        (old new id : ℕ) {o : Operator}
        → In old (stores region.voters)
        → (In new (stores region.voters) → ⊥)
        → create_offline_peer_operator get_store now desc region kind old new id ≡ some o
        → IsSafe o.steps l.store_id (stores region.voters)
    unfolding create_offline_peer_operator new_operator
    create_offline_peer_operator-IsSafe old new id {o} at clear h =
        let ((k, steps), step, made) =
          >>=-eq-some (transfer_leader_step get_store region old (get_region_follower_ids region)) _
            h in
        subst (λ x. IsSafe x l.store_id (stores region.voters))
          (ap (λ o. o.steps) (some-injective _ _ made))
          (elim (transfer_leader_step-Before region l old led i spread step).handed [
            | inl (nothing, elsewhere) ↦ rw nothing (clear, (elsewhere, inr at, tt))
            | inr (t, handing, here, reached, away) ↦
                rw handing (here, reached, (clear, (away, inr at, tt)))
          ])
