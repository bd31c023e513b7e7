-- ===== src/Prelude/Maps.antt =====
-- Go maps with numeric keys, as association lists. The order of the list is one of the orders in
-- which `range` may visit the map.
use Prim.Native.Nat.{ℕ, ◌<◌}
use mathlib.Core.Path.{◌≡◌, refl, subst}
use mathlib.Core.List.{List, [], ◌∷◌}
use mathlib.Core.Option.{Option, none, some}
use native.Mathlib.Omega.{arith}
use tiny_kv_practice.Prelude.Tests.{◌==◌, if◌then◌else◌, Bool-cases, ==-refl}
use tiny_kv_practice.Prelude.Lists.{length, All, All-map}
use mathlib.Core.Logic.{inl, inr}
use native.Mathlib.Decide.{ℕ_discrete}

module _ {ℓ} {V : Type ℓ} where
  -- m[k], or the absence of k
  unfoldable pub lookup : ℕ → List (ℕ × V) → Option V
  lookup k [] = none
  lookup k ((j, v) ∷ m) = if j == k then some v else lookup k m

  -- m[k] = v
  unfoldable pub insert : ℕ → V → List (ℕ × V) → List (ℕ × V)
  insert k v [] = (k, v) ∷ []
  insert k v ((j, w) ∷ m) = if j == k then (k, v) ∷ m else (j, w) ∷ insert k v m

  -- delete(m, k)
  unfoldable pub erase : ℕ → List (ℕ × V) → List (ℕ × V)
  erase k [] = []
  erase k ((j, v) ∷ m) = let rest = erase k m in if j == k then rest else (j, v) ∷ rest

  abbrev pub keys : List (ℕ × V) → List ℕ
  keys [] = []
  keys ((k, v) ∷ m) = k ∷ keys m

  pub lookup-insert :
      (i k : ℕ) (new : V) (l : List (ℕ × V))
      → lookup k (insert i new l) ≡ (if i == k then some new else lookup k l)
  unfolding insert lookup
  lookup-insert i k new [] = refl
  lookup-insert i k new ((j, old) ∷ l) = ground (arith, lookup-insert i k new l)

  pub keys-insert :
      (k : ℕ) (v w : V) (m : List (ℕ × V)) → lookup k m ≡ some w → keys (insert k v m) ≡ keys m
  unfolding lookup insert
  keys-insert k v w [] h = cc
  keys-insert k v w ((j, x) ∷ m) h = ground (arith, keys-insert k v w m)

  -- What holds of every pair holds of the pair that a lookup finds.
  pub All-lookup {κ} :
      (P : ℕ × V → Type κ) (k : ℕ) (m : List (ℕ × V)) {v : V}
      → All P m
      → lookup k m ≡ some v
      → P (k, v)
  unfolding lookup
  All-lookup P k [] a h = cc
  All-lookup P k ((j, w) ∷ m) a h = elim (ℕ_discrete j k) [
    | yes same ↦ subst P (ground (arith, h, same)) a.0
    | no other ↦ All-lookup P k m a.1 (ground (arith, h))
  ]

  pub All-insert {κ} :
      (P : ℕ × V → Type κ) (k : ℕ) (v : V) (m : List (ℕ × V))
      → P (k, v)
      → All P m
      → All P (insert k v m)
  unfolding insert
  All-insert P k v [] p a = (p, tt)
  All-insert P k v ((j, w) ∷ m) p a = elim (Bool-cases (j == k)) [
    | inl same ↦ rw same (p, a.1)
    | inr other ↦ rw other (a.0, All-insert P k v m p a.1)
  ]

  -- Every key of a map is found.
  pub lookup-keys : (m : List (ℕ × V)) → All (λ k. (v : V) × (lookup k m ≡ some v)) (keys m)
  unfolding lookup
  lookup-keys [] = tt
  lookup-keys ((k, v) ∷ m) = (
    (v, rw (==-refl k)),
    All-map (keys m)
        (λ j (w, found). elim (Bool-cases (k == j)) [
          | inl same ↦ (v, rw same)
          | inr other ↦ (w, rw other found)
        ])
        (lookup-keys m),
  )

  pub lookup-length : (k : ℕ) (m : List (ℕ × V)) {v : V} → lookup k m ≡ some v → 0 < length m
  unfolding lookup
  lookup-length k [] h = cc
  lookup-length k (e ∷ m) h = omega arith

  pub lookup-insert_self : (k : ℕ) (v : V) (m : List (ℕ × V)) → lookup k (insert k v m) ≡ some v
  lookup-insert_self k v m = rw (lookup-insert, ==-refl k)

  pub lookup-erase :
      (i k : ℕ) (l : List (ℕ × V)) → lookup k (erase i l) ≡ (if i == k then none else lookup k l)
  unfolding erase lookup
  lookup-erase i k [] = ground arith
  lookup-erase i k ((j, v) ∷ l) = ground (arith, lookup-erase i k l)
