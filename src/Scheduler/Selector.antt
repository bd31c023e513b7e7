-- ===== src/Scheduler/Selector.antt =====
-- scheduler/server/schedule/selector/selector.go: the choice of a store among those that pass filters.
pub mod Best
use tiny_kv_practice.Prelude.{
  ℕ, ◌%◌, Bool, true, false, not, Option, none, some, List, [], ◌∷◌, ◌++◌, ltb, ◌==◌, if◌then◌else◌,
  length, select, get_elem?,
}
use tiny_kv_practice.Scheduler.Stores.{StoreInfo}
use tiny_kv_practice.Scheduler.Filters.{Filter, Options, source_by, target_by}

-- `compareStoreScore(a, b) > 0` and `< 0`: a store with smaller regions is better.
abbrev pub is_better : StoreInfo → StoreInfo → Bool
is_better a b = ltb a.region_size b.region_size

abbrev pub is_worse : StoreInfo → StoreInfo → Bool
is_worse a b = ltb b.region_size a.region_size

-- best == nil || compareStoreScore(store, best) is on the wanted side
abbrev pub is_first_or : (StoreInfo → StoreInfo → Bool) → StoreInfo → Option StoreInfo → Bool
is_first_or wins store none = true
is_first_or wins store (some best) = wins store best

-- The loop over the stores: `skips` are not looked at.
unfoldable pub best_of :
    (StoreInfo → StoreInfo → Bool)
    → (StoreInfo → Bool)
    → List StoreInfo
    → Option StoreInfo
    → Option StoreInfo
best_of wins skips [] best = best
best_of wins skips (store ∷ stores) best =
    best_of wins skips stores
      (if skips store then best else if is_first_or wins store best then some store else best)

abbrev pub unless : (StoreInfo → Bool) → Option StoreInfo → Option StoreInfo
unless fails none = none
unless fails (some best) = if fails best then none else some best

-- A `ReplicaSelector` has only its filters that it uses.
unfoldable pub select_source : List Filter → Options → List StoreInfo → Option StoreInfo
unfolding best_of
select_source own opt stores =
    unless (λ s. source_by opt s own) (best_of is_worse (λ s. false) stores none)

unfoldable pub select_target :
    List Filter → Options → List StoreInfo → List Filter → Option StoreInfo
unfolding best_of
select_target own opt stores filters =
    unless (λ s. target_by opt s own) (best_of is_better (λ s. target_by opt s filters) stores none)

-- `RandomSelector`; `random` is the number that rand.Int returns.
unfoldable pub rand_store : ℕ → List StoreInfo → Option StoreInfo
rand_store random stores =
    if length stores == 0 then none else get_elem? stores (random % length stores)

unfoldable pub random_source : List Filter → Options → ℕ → List StoreInfo → Option StoreInfo
unfolding rand_store
random_source own opt random stores =
    rand_store random (select (λ s. not (source_by opt s own)) stores)

unfoldable pub random_target :
    List Filter → Options → ℕ → List StoreInfo → List Filter → Option StoreInfo
unfolding rand_store
random_target own opt random stores filters =
    rand_store random (select (λ s. not (target_by opt s (filters ++ own))) stores)
