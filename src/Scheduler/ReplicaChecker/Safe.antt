-- ===== src/Scheduler/ReplicaChecker/Safe.antt =====
-- The operators of the replica checker (scheduler/server/schedule/checker/replica_checker.go) are safe for
-- the leader of the region.
use mathlib.Core.Option.{some-injective}
use tiny_kv_practice.Prelude.{
  ℕ, ◌≡◌, inl, inr, refl, sym, ap, ◌∙◌, subst, false, not, Option, none, some, List, [], ◌∷◌, ◌++◌,
  ltb, ◌==◌, if◌then◌else◌, length, arith, Bool-cases, Option-cases, if-cases, ◌>>=◌, >>=-eq-some,
}
use tiny_kv_practice.Prelude.Maps.{lookup}
use tiny_kv_practice.Kv.Checks.{Peer}
use tiny_kv_practice.Scheduler.Tree.Shape.{In}
use tiny_kv_practice.Scheduler.Regions.{
  RegionInfo, peer_on_store, clone, get_store_ids, get_store_peer, with_remove_store_peer,
}
use tiny_kv_practice.Scheduler.Operators.{
  Operator, op_replica, create_offline_peer_operator, new_operator,
}
use tiny_kv_practice.Scheduler.TypeUtil.{Bytes}
use tiny_kv_practice.Scheduler.Operators.Moves.{stores, IsSafe, IsSpread}
use tiny_kv_practice.Scheduler.Operators.Removals.{
  create_remove_peer_operator-IsSafe, create_offline_peer_operator-IsSafe,
}
use tiny_kv_practice.Scheduler.Stores.{
  StoresInfo, get_id, get_store, get_stores, get_region_stores, is_up,
}
use tiny_kv_practice.Scheduler.Filters.{Options, excluded, state_filter, any_of, target, target_by}
use tiny_kv_practice.Scheduler.Selector.{select_source}
use tiny_kv_practice.Scheduler.Selector.Best.{select_target_lem}
use tiny_kv_practice.Scheduler.ReplicaChecker.{
  own_filters, id_or_zero, must_pass, remove_extra_replica, remove_extra_offline_replica,
  replace_offline_replica, select_best_store_to_add_replica, select_best_replacement_store,
  select_worst_peer, alloc_peer, remove_on, fix_peer, at_store, offline_in, check_offline_peer,
  check_replicas, or_replicas, check,
}
use tiny_kv_practice.Scheduler.ReplicaChecker.Choices.{
  any_of-cons, stores_of-none, is_listed, check-adds,
}

absent-stores :
    (id : ℕ) (peers : List Peer) → peer_on_store id peers ≡ none → In id (stores peers) → ⊥
unfolding peer_on_store
absent-stores id [] h i = i
absent-stores id (p ∷ peers) h i = elim (if-cases (p.store_id == id) h) [
  | inl (_, found) ↦ cc
  | inr (other, rest) ↦ elim i [
    | inl same ↦ absurd (ground (arith, other, same))
    | inr j ↦ absent-stores id peers rest j
  ]
]

peer_on_store-In :
    (id : ℕ) (peers : List Peer) {p : Peer}
    → peer_on_store id peers ≡ some p
    → In p.store_id (stores peers)
unfolding peer_on_store
peer_on_store-In id [] h = cc
peer_on_store-In id (q ∷ peers) h = elim (if-cases (q.store_id == id) h) [
  | inl (_, found) ↦ inl (sym (ap (λ p. p.store_id) (some-injective _ _ found)))
  | inr (_, rest) ↦ inr (peer_on_store-In id peers rest)
]

module _ (info : StoresInfo) (opt : Options) where
  -- A replacement is never on a store of the region.
  replacement-absent :
      (region : RegionInfo) (peer : Peer)
      → (select_best_replacement_store info opt region peer [] == 0) ≡ false
      → get_store_peer region (select_best_replacement_store info opt region peer []) ≡ none
  unfolding select_best_replacement_store select_best_store_to_add_replica target get_store_ids
      any_of
  replacement-absent region peer h =
      let others = clone region (with_remove_store_peer peer.store_id ∷ []) in
      let extra = excluded [] (get_store_ids region) in
      elim (select_target_lem own_filters opt (get_stores info) (must_pass others (extra ∷ []))) [
        | inl (_, missing) ↦ absurd (not_zero (ap id_or_zero missing) h)
        | inr (best, (i, kept, _), e) ↦ elim (Bool-cases (target_by opt best own_filters)) [
          | inl failing ↦
              absurd
                (not_zero (ap id_or_zero (e ∙ ap (λ c. if c then none else some best) failing)) h)
          | inr passing ↦
              let is_best = ap id_or_zero (e ∙ ap (λ c. if c then none else some best) passing) in
              let (apart, _) =
                any_of-cons (λ f. target f opt best) extra
                  (own_filters ++ state_filter ∷ excluded [] (get_store_ids others) ∷ []) kept in
              ap (get_store_peer region) is_best
              ∙ (stores_of-none (get_id best) region.meta.peers []
                  (is_listed (lookup (get_id best) (get_store_ids region)) apart)).1
        ]
      ]
    where
      not_zero : {n : ℕ} → n ≡ 0 → (n == 0) ≡ false → ⊥
      not_zero e h = ground (arith, e, h)

  module _ (fix_id alloc_id : Option ℕ) (now : ℕ) (region : RegionInfo) (l : Peer)
      (led : region.leader ≡ some l) (i : In l region.voters) (spread : IsSpread region.voters)
      (classified : region.voters ≡ region.meta.peers) where
    abbrev Safe : Operator → Type 0
    Safe o = IsSafe o.steps l.store_id (stores region.voters)

    voter : (p : ℕ) → In p (stores region.meta.peers) → In p (stores region.voters)
    voter p j = subst (λ peers. In p (stores peers)) (sym classified) j

    not_voter : (p : ℕ) → peer_on_store p region.meta.peers ≡ none → In p (stores region.voters) → ⊥
    not_voter p h j =
        absent-stores p region.meta.peers h (subst (λ peers. In p (stores peers)) classified j)

    remove_on-Safe :
        (desc : Bytes) (store : ℕ) {o : Operator}
        → In store (stores region.voters)
        → remove_on info opt fix_id alloc_id now desc region store ≡ some o
        → Safe o
    remove_on-Safe desc store at h =
        create_remove_peer_operator-IsSafe (get_store info) now desc op_replica region l led i
          spread store at h

    replaced-Safe :
        (peer : Peer) {o : Operator}
        → In peer.store_id (stores region.voters)
        → (select_best_replacement_store info opt region peer [] == 0) ≡ false
        → (alloc_peer fix_id (select_best_replacement_store info opt region peer []) >>= λ p.
            create_offline_peer_operator
              (get_store info)
              now
              replace_offline_replica
              region
              op_replica
              peer.store_id
              p.store_id
              p.id)
          ≡ some o
        → Safe o
    replaced-Safe peer at real h =
        let new = select_best_replacement_store info opt region peer [] in
        let (p, given, made) = >>=-eq-some (alloc_peer fix_id new) _ h in
        let (id, _, built) = >>=-eq-some fix_id _ given in
        let is_new : new ≡ p.store_id = ap (λ p. p.store_id) (some-injective _ _ built) in
        create_offline_peer_operator-IsSafe (get_store info) now replace_offline_replica op_replica
          region l led i spread peer.store_id p.store_id p.id at
          (not_voter p.store_id
            (ap (get_store_peer region) (sym is_new) ∙ replacement-absent region peer real))
          made

    fix_peer-Safe :
        (peer : Peer) {o : Operator}
        → In peer.store_id (stores region.voters)
        → fix_peer info opt fix_id alloc_id now region peer ≡ some o
        → Safe o
    unfolding fix_peer
    fix_peer-Safe peer at h = elim (if-cases (ltb opt.max_replicas (length region.meta.peers)) h) [
      | inl (_, removed) ↦ remove_on-Safe remove_extra_offline_replica peer.store_id at removed
      | inr (_, rest) ↦
          elim (if-cases (select_best_replacement_store info opt region peer [] == 0) rest) [
            | inl (_, absurdity) ↦ cc
            | inr (real, replaced) ↦ replaced-Safe peer at real replaced
          ]
    ]

    offline_in-Safe :
        (peers : List Peer) {o : Operator}
        → ((id : ℕ) → In id (stores peers) → In id (stores region.voters))
        → offline_in info opt fix_id alloc_id now region peers ≡ some o
        → Safe o
    unfolding offline_in
    offline_in-Safe [] sub h = cc
    offline_in-Safe (peer ∷ peers) {o} sub h = elim (Option-cases (get_store info peer.store_id)) [
      | inl lost ↦ cc
      | inr (s, found) ↦
          let run =
            ap
              (at_store info opt fix_id alloc_id now region peer
                (offline_in info opt fix_id alloc_id now region peers))
              (sym found)
            ∙ h in
          elim (if-cases (is_up s) run) [
            | inl (_, rest) ↦ offline_in-Safe peers (λ id j. sub id (inr j)) rest
            | inr (_, fixed) ↦ fix_peer-Safe peer (sub peer.store_id (inl refl)) fixed
          ]
    ]

    check_offline_peer-Safe :
        {o : Operator} → check_offline_peer info opt fix_id alloc_id now region ≡ some o → Safe o
    unfolding check_offline_peer
    check_offline_peer-Safe h = elim (if-cases (not (length region.learners == 0)) h) [
      | inl (_, absurdity) ↦ cc
      | inr (_, found) ↦ offline_in-Safe region.meta.peers voter found
    ]

    worst-Safe :
        {o : Operator}
        → (select_worst_peer info opt region >>= λ p.
            remove_on info opt fix_id alloc_id now remove_extra_replica region p.store_id)
          ≡ some o
        → Safe o
    unfolding select_worst_peer
    worst-Safe h =
        let (p, worst, removed) = >>=-eq-some (select_worst_peer info opt region) _ h in
        let (s, _, on) =
          >>=-eq-some (select_source own_filters opt (get_region_stores info region)) _ worst in
        remove_on-Safe remove_extra_replica p.store_id
          (voter p.store_id (peer_on_store-In (get_id s) region.meta.peers on)) removed

    -- With voters on different stores, one of them the leader: every operator that the replica checker makes
    -- hands over the leadership before it removes the leader's peer, and adds a peer only on a
    -- store that has none.
    pub check-Safe : {o : Operator} → check info opt fix_id alloc_id now region ≡ some o → Safe o
    unfolding check check_replicas new_operator
    check-Safe {o} h =
        elim (Option-cases (check_offline_peer info opt fix_id alloc_id now region)) [
          | inr (op, found) ↦
              let is_op =
                some-injective _ _
                  (ap (or_replicas info opt fix_id alloc_id now region) (sym found) ∙ h) in
              subst Safe is_op (check_offline_peer-Safe found)
          | inl nothing ↦ elim (Bool-cases (ltb (length region.meta.peers) opt.max_replicas)) [
            | inl few ↦ elim (check-adds info opt fix_id alloc_id now region nothing few) [
              | inl (idle, _) ↦ let both = sym idle ∙ h in cc
              | inr (s, id, can, _, made) ↦
                  subst Safe (some-injective _ _ (sym made ∙ h))
                    (not_voter (get_id s) can.without_peer, tt)
            ]
            | inr enough ↦
                let run = ap (or_replicas info opt fix_id alloc_id now region) (sym nothing) ∙ h in
                elim (if-cases (ltb (length region.meta.peers) opt.max_replicas) run) [
                  | inl (few, _) ↦ cc
                  | inr (_, rest) ↦
                      elim (if-cases (ltb opt.max_replicas (length region.voters)) rest) [
                        | inl (_, extra) ↦ worst-Safe extra
                        | inr (_, absurdity) ↦ cc
                      ]
                ]
          ]
        ]
