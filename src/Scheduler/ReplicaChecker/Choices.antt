-- ===== src/Scheduler/ReplicaChecker/Choices.antt =====
-- The stores on which the replica checker puts a new peer
-- (scheduler/server/schedule/checker/replica_checker.go).
use tiny_kv_practice.Prelude.{
  ℕ, ◌≡◌, ◌⊎◌, inl, inr, refl, sym, ap, ◌∙◌, Bool, true, false, not, Option, none, some, List, [],
  ◌∷◌, ◌++◌, ltb, ◌==◌, if◌then◌else◌, length, arith, Bool-cases, Option-cases, if-cases, ◌>>=◌,
}
use tiny_kv_practice.Prelude.Maps.{lookup, insert, lookup-insert}
use tiny_kv_practice.Kv.Checks.{Peer}
use tiny_kv_practice.Scheduler.Tree.Shape.{In}
use tiny_kv_practice.Scheduler.Regions.{
  RegionInfo, peer_on_store, stores_of, get_store_ids, get_store_peer,
}
use tiny_kv_practice.Scheduler.Operators.{Operator, op_replica, create_add_peer_operator}
use tiny_kv_practice.Scheduler.Stores.{StoreInfo, StoresInfo, get_id, get_stores, is_up}
use tiny_kv_practice.Scheduler.Filters.{
  Filter, Options, excluded, state_filter, health_filter, any_of, target, target_by, is_down,
  is_member,
}
use tiny_kv_practice.Scheduler.Selector.Best.{select_target_lem}
use tiny_kv_practice.Scheduler.ReplicaChecker.{
  own_filters, id_or_zero, must_pass, make_up_replica, select_best_store_to_add_replica,
  select_best_peer_to_add_replica, check_offline_peer, check_replicas, check, alloc_peer,
  or_replicas,
}

any_of-append :
    (p : Filter → Bool) (xs ys : List Filter) → any_of p (xs ++ ys) ≡ false → any_of p ys ≡ false
unfolding any_of
any_of-append p [] ys h = h
any_of-append p (f ∷ xs) ys h = elim (if-cases (p f) h) [
  | inl (_, absurdity) ↦ cc
  | inr (_, rest) ↦ any_of-append p xs ys rest
]

pub any_of-cons :
    (p : Filter → Bool) (f : Filter) (filters : List Filter)
    → any_of p (f ∷ filters) ≡ false
    → (p f ≡ false) × (any_of p filters ≡ false)
unfolding any_of
any_of-cons p f filters h = elim (if-cases (p f) h) [
  | inl (_, absurdity) ↦ cc
  | inr (passed, rest) ↦ (passed, rest)
]

any_of-appended :
    (p : Filter → Bool) (xs ys : List Filter) → any_of p (xs ++ ys) ≡ false → any_of p xs ≡ false
unfolding any_of
any_of-appended p [] ys h = refl
any_of-appended p (f ∷ xs) ys h = elim (if-cases (p f) h) [
  | inl (_, absurdity) ↦ cc
  | inr (passed, rest) ↦ rw passed (any_of-appended p xs ys rest)
]

-- A store that is not among the stores of the peers has none of them.
pub stores_of-none :
    (id : ℕ) (peers : List Peer) (m : List (ℕ × Unit {0}))
    → lookup id (stores_of peers m) ≡ none
    → (lookup id m ≡ none) × (peer_on_store id peers ≡ none)
unfolding stores_of peer_on_store
stores_of-none id [] m h = (h, refl)
stores_of-none id (p ∷ peers) m h =
    let (later, rest) = stores_of-none id peers (insert p.store_id tt m) h in
    let now = sym (lookup-insert p.store_id id tt m) ∙ later in
    elim (Bool-cases (p.store_id == id)) [
      | inl same ↦ absurd (found (sym (ap (λ c. if c then some tt else lookup id m) same) ∙ now))
      | inr other ↦ (sym (ap (λ c. if c then some tt else lookup id m) other) ∙ now, rw other rest)
    ]
  where
    found : ◌≡◌ {A = Option (Unit {0})} (some tt) none → ⊥
    found e = cc

-- A store that can take a new peer of the region
pub record CanTake (stores : StoresInfo) (opt : Options) (region : RegionInfo) (s : StoreInfo)
    : Type 0 where
  pub listed : In s (get_stores stores)
  pub up_now : is_up s ≡ true
  pub not_busy : s.stats.is_busy ≡ false
  pub not_down : is_down opt s ≡ false
  pub without_peer : get_store_peer region (get_id s) ≡ none

pub is_listed : (o : Option (Unit {0})) → is_member o ≡ false → o ≡ none
is_listed none h = refl
is_listed (some u) h = cc

not-false : (b : Bool) → not b ≡ false → b ≡ true
not-false true h = refl
not-false false h = cc

module _ (stores : StoresInfo) (opt : Options) where
  passed-CanTake :
      (region : RegionInfo) (filters : List Filter) (s : StoreInfo)
      → In s (get_stores stores)
      → target_by opt s (must_pass region filters) ≡ false
      → CanTake stores opt region s
  unfolding target get_store_ids
  passed-CanTake region filters s i h =
      let p : Filter → Bool = λ f. target f opt s in
      let last = state_filter ∷ excluded [] (get_store_ids region) ∷ [] in
      let (up, after_state) =
        any_of-cons p state_filter (excluded [] (get_store_ids region) ∷ [])
          (any_of-append p (filters ++ own_filters) last h) in
      let (apart, _) = any_of-cons p (excluded [] (get_store_ids region)) [] after_state in
      let (healthy, _) =
        any_of-cons p health_filter [] (
          any_of-append p filters own_filters
            (any_of-appended p (filters ++ own_filters) last h)) in
      let (busy, down) = health s.stats.is_busy (is_down opt s) healthy in
      record {
        listed = i;
        up_now = not-false (is_up s) up;
        not_busy = busy;
        not_down = down;
        without_peer =
            (stores_of-none (get_id s) region.meta.peers []
              (is_listed (lookup (get_id s) (get_store_ids region)) apart)).1;
      }
    where
      health :
          (busy down : Bool)
          → (if busy then true else down) ≡ false
          → (busy ≡ false) × (down ≡ false)
      health true down h = cc
      health false down h = (refl, h)

  -- No store passes the filters for a new peer.
  abbrev pub NoneCan : RegionInfo → Type 0
  NoneCan region =
      (s : StoreInfo) → In s (get_stores stores) → target_by opt s (must_pass region []) ≡ true

  passes_own :
      (region : RegionInfo) (s : StoreInfo)
      → target_by opt s (must_pass region []) ≡ false
      → target_by opt s own_filters ≡ false
  passes_own region s h =
      any_of-appended (λ f. target f opt s) own_filters
        (state_filter ∷ excluded [] (get_store_ids region) ∷ []) h

  -- The store chosen for a new peer can take it; none is chosen only if no store passes the filters.
  chosen-CanTake :
      (region : RegionInfo)
      → NoneCan region × (select_best_store_to_add_replica stores opt region [] ≡ 0)
        ⊎ ((s : StoreInfo) × (select_best_store_to_add_replica stores opt region [] ≡ get_id s)
            × CanTake stores opt region s)
  unfolding select_best_store_to_add_replica
  chosen-CanTake region =
      elim (select_target_lem own_filters opt (get_stores stores) (must_pass region [])) [
        | inl (nobody, missing) ↦ inl (nobody, ap id_or_zero missing)
        | inr (best, (i, kept, _), e) ↦ inr (
          best,
          ap id_or_zero (e ∙ ap (λ c. if c then none else some best) (passes_own region best kept)),
          passed-CanTake region [] best i kept,
        )
      ]

  module _ (fix_id alloc_id : Option ℕ) (now : ℕ) where
    -- The answer for a region with too few peers, by the store that is chosen
    abbrev answer : RegionInfo → ℕ → Option Operator
    answer region store = (if store == 0 then none else alloc_peer alloc_id store) >>= λ p.
        some (create_add_peer_operator now make_up_replica region p.id p.store_id op_replica)

    check-answer :
        (region : RegionInfo)
        → check_offline_peer stores opt fix_id alloc_id now region ≡ none
        → ltb (length region.meta.peers) opt.max_replicas ≡ true
        → check stores opt fix_id alloc_id now region
          ≡ answer region (select_best_store_to_add_replica stores opt region [])
    unfolding check check_replicas select_best_peer_to_add_replica
    check-answer region no_offline few =
        ap (or_replicas stores opt fix_id alloc_id now region) no_offline ∙ rw few refl

    answer-zero :
        (region : RegionInfo) (store : ℕ) → (store == 0) ≡ true → answer region store ≡ none
    answer-zero region store h = rw h refl

    answer-some :
        (region : RegionInfo) (store : ℕ) {id : ℕ}
        → (store == 0) ≡ false
        → alloc_id ≡ some id
        → answer region store
          ≡ some (create_add_peer_operator now make_up_replica region id store op_replica)
    answer-some region store h e = rw h (rw e refl)

    answer-failed : (region : RegionInfo) (store : ℕ) → alloc_id ≡ none → answer region store ≡ none
    answer-failed region store e = elim (Bool-cases (store == 0)) [
      | inl h ↦ rw h refl
      | inr h ↦ rw h (rw e refl)
    ]

    -- For a region with too few peers for which checkOfflinePeer makes no operator (as it is with all
    -- its peers on stores that are up), the checker adds one peer, with the id that the allocator
    -- gives, on a store that is up, not busy, not down, and without a peer of the region. It does
    -- nothing only if no store passes the filters, if a store has the id 0, or if there is no new id.
    pub check-adds :
        (region : RegionInfo)
        → check_offline_peer stores opt fix_id alloc_id now region ≡ none
        → ltb (length region.meta.peers) opt.max_replicas ≡ true
        → ((check stores opt fix_id alloc_id now region ≡ none)
            × (NoneCan region
                ⊎ ((s : StoreInfo) × In s (get_stores stores) × (get_id s ≡ 0))
                ⊎ (alloc_id ≡ none)))
          ⊎ ((s : StoreInfo) × (id : ℕ) × CanTake stores opt region s
              × (alloc_id ≡ some id)
              × (check stores opt fix_id alloc_id now region
                  ≡ some (
                      create_add_peer_operator now make_up_replica region id
                        (get_id s)
                        op_replica)))
    check-adds region no_offline few =
        let run = check-answer region no_offline few in
        elim (chosen-CanTake region) [
          | inl (nobody, e) ↦ inl (run ∙ ap (answer region) e, inl nobody)
          | inr (s, e, can) ↦ elim (Bool-cases (get_id s == 0)) [
            | inl no_id ↦ inl (
              run ∙ ap (answer region) e ∙ answer-zero region (get_id s) no_id,
              inr (inl (s, can.listed, ground (arith, no_id))),
            )
            | inr id ↦ elim (Option-cases alloc_id) [
              | inl failed ↦ inl (run ∙ answer-failed region _ failed, inr (inr failed))
              | inr (new, given) ↦ inr (
                s,
                new,
                can,
                given,
                run ∙ ap (answer region) e ∙ answer-some region (get_id s) id given,
              )
            ]
          ]
        ]
