-- ===== src/Raft/Step/Quorum.antt =====
-- The index that `MsgAppendResponse` may commit (raft/raft.go): the lower median of what the peers
-- hold, taken from the sorted matches.
use tiny_kv_practice.Prelude.{
  ℕ, zero, suc, ◌+◌, ◌-◌, ◌*◌, ◌/◌, ◌≤◌, ◌<◌, ◌≡◌, refl, ap, subst, ◌∙◌, some, List, [], ◌∷◌, arith,
  length, get_elem?, get_elem?_lt, get_elem?-lt-length, ltb, leb, if◌then◌else◌, All, All-map,
  Bool-cases, inl, inr, ltb→lt,
}
use mathlib.Core.Option.{some-injective}
use tiny_kv_practice.Raft.Node.{Progress}
use tiny_kv_practice.Raft.Step.{insert_sorted, sort, matches, quorum_match}

-- How many numbers are at least `v`.
unfoldable pub at_least : ℕ → List ℕ → ℕ
at_least v [] = 0
at_least v (x ∷ xs) = (if leb v x then 1 else 0) + at_least v xs

abbrev pub IsSorted : List ℕ → Type 0
IsSorted [] = Unit
IsSorted (x ∷ xs) = All (λ y. x ≤ y) xs × IsSorted xs

All-insert_sorted :
    (a x : ℕ) (ys : List ℕ) → a ≤ x → All (λ y. a ≤ y) ys → All (λ y. a ≤ y) (insert_sorted x ys)
unfolding insert_sorted
All-insert_sorted a x [] h k = (h, tt)
All-insert_sorted a x (y ∷ ys) h k = elim (Bool-cases (ltb y x)) [
  | inl less ↦ rw less (k.0, All-insert_sorted a x ys h k.1)
  | inr not_less ↦ rw not_less (h, (k.0, k.1))
]

insert_sorted-IsSorted : (x : ℕ) (ys : List ℕ) → IsSorted ys → IsSorted (insert_sorted x ys)
unfolding insert_sorted
insert_sorted-IsSorted x [] s = (tt, tt)
insert_sorted-IsSorted x (y ∷ ys) s = elim (Bool-cases (ltb y x)) [
  | inl less ↦ rw less (
    All-insert_sorted y x ys (omega (arith, ltb→lt y x less)) s.0,
    insert_sorted-IsSorted x ys s.1,
  )
  | inr not_less ↦
      let x-le : x ≤ y = ground (arith, not_less) in
      rw not_less ((x-le, All-map ys (λ z h. omega arith) s.0), s)
]

pub sort-IsSorted : (xs : List ℕ) → IsSorted (sort xs)
unfolding sort
sort-IsSorted [] = tt
sort-IsSorted (x ∷ xs) = insert_sorted-IsSorted x (sort xs) (sort-IsSorted xs)

at_least-insert_sorted :
    (v x : ℕ) (ys : List ℕ) → at_least v (insert_sorted x ys) ≡ at_least v (x ∷ ys)
unfolding at_least insert_sorted
at_least-insert_sorted v x [] = refl
at_least-insert_sorted v x (y ∷ ys) = ground (arith, at_least-insert_sorted v x ys)

-- Sorting keeps every count.
pub at_least-sort : (v : ℕ) (xs : List ℕ) → at_least v (sort xs) ≡ at_least v xs
unfolding at_least sort
at_least-sort v [] = refl
at_least-sort v (x ∷ xs) = omega (arith, at_least-insert_sorted v x (sort xs), at_least-sort v xs)

length-insert_sorted : (x : ℕ) (ys : List ℕ) → length (insert_sorted x ys) ≡ suc (length ys)
unfolding insert_sorted
length-insert_sorted x [] = refl
length-insert_sorted x (y ∷ ys) = ground (arith, length-insert_sorted x ys)

pub length-sort : (xs : List ℕ) → length (sort xs) ≡ length xs
unfolding sort
length-sort [] = refl
length-sort (x ∷ xs) = omega (arith, length-insert_sorted x (sort xs), length-sort xs)

pub length-matches : (prs : List (ℕ × Progress)) → length (matches prs) ≡ length prs
length-matches [] = refl
length-matches ((id, pr) ∷ prs) = ap suc (length-matches prs)

at_least-le : (v : ℕ) (xs : List ℕ) → at_least v xs ≤ length xs
unfolding at_least
at_least-le v [] = omega arith
at_least-le v (x ∷ xs) = ground (arith, at_least-le v xs)

at_least-All : (v : ℕ) (xs : List ℕ) → All (λ x. v ≤ x) xs → at_least v xs ≡ length xs
unfolding at_least
at_least-All v [] h = refl
at_least-All v (x ∷ xs) h = ground (arith, h.0, at_least-All v xs h.1)

-- In a sorted list all from a place on are at least the number there.
at_least_from :
    (xs : List ℕ) (i : ℕ) {c : ℕ}
    → IsSorted xs
    → get_elem? xs i ≡ some c
    → length xs ≤ i + at_least c xs
unfolding at_least
at_least_from [] i s h = cc
at_least_from (x ∷ xs) zero {c} s h =
    let here : x ≡ c = some-injective _ _ h in rw (← here) (ground (arith, at_least-All x xs s.0))
at_least_from (x ∷ xs) (suc i) {c} s h = ground (arith, at_least_from xs i s.1 h)

All-get_elem? :
    (a : ℕ) (xs : List ℕ) (i : ℕ) {c : ℕ} → All (λ x. a ≤ x) xs → get_elem? xs i ≡ some c → a ≤ c
All-get_elem? a [] i k h = cc
All-get_elem? a (x ∷ xs) zero k h = subst (λ y. a ≤ y) (some-injective _ _ h) k.0
All-get_elem? a (x ∷ xs) (suc i) k h = All-get_elem? a xs i k.1 h

-- And those up to the place are below any larger number.
at_least_above :
    (xs : List ℕ) (i v : ℕ) {c : ℕ}
    → IsSorted xs
    → get_elem? xs i ≡ some c
    → c < v
    → at_least v xs + suc i ≤ length xs
unfolding at_least
at_least_above [] i v s h k = cc
at_least_above (x ∷ xs) zero v {c} s h k =
    let here : x ≡ c = some-injective _ _ h in ground (arith, here, at_least-le v xs)
at_least_above (x ∷ xs) (suc i) v s h k =
    ground (arith, All-get_elem? x xs i s.0 h, at_least_above xs i v s.1 h k)

-- The index `c` that the leader may commit is the largest that a majority of the peers hold: more
-- than half of them match `c`, and a larger index `v` is matched by no more than half.
pub quorum_match-majority :
    (prs : List (ℕ × Progress)) (v : ℕ) {c : ℕ}
    → quorum_match prs ≡ some c
    → c < v
    → (length prs < 2 * at_least c (matches prs)) × (2 * at_least v (matches prs) ≤ length prs)
unfolding quorum_match
quorum_match-majority prs v {c} h k =
    let ms = matches prs in
    let i = (length prs - 1) / 2 in
    let count = length-sort ms ∙ length-matches prs in
    let inside = get_elem?-lt-length (sort ms) i h in
    let from_c = at_least_from (sort ms) i (sort-IsSorted ms) h in
    let above = at_least_above (sort ms) i v (sort-IsSorted ms) h k in
    (
      omega (arith, from_c, at_least-sort c ms, count, inside),
      omega (arith, above, at_least-sort v ms, count, inside),
    )

-- A node with peers has such an index.
pub quorum_match-some :
    (prs : List (ℕ × Progress)) → 0 < length prs → (c : ℕ) × (quorum_match prs ≡ some c)
unfolding quorum_match
quorum_match-some prs h =
    get_elem?_lt (sort (matches prs)) ((length prs - 1) / 2)
      (omega (arith, length-sort (matches prs), length-matches prs))
