-- ===== src/Scheduler/Ids/Windows.antt =====
-- The windows of ids that the members hold, of which none overlaps another one or the ids given out
-- (scheduler/server/id/id.go).
use tiny_kv_practice.Prelude.{
  ℕ, ◌≤◌, ◌<◌, ◌≡◌, ◌≢◌, ◌⊎◌, inl, inr, false, List, [], ◌∷◌, ◌==◌, if◌then◌else◌, All, All-map,
  arith, Bool-cases,
}
use tiny_kv_practice.Scheduler.Ids.{Allocator}

-- A value of a family replaced at one index.
abbrev pub set_at {ℓ} : {A : Type ℓ} → ℕ → A → (ℕ → A) → ℕ → A
set_at i x f j = if i == j then x else f j

abbrev pub Distinct : List ℕ → Type 0
Distinct [] = Unit
Distinct (x ∷ xs) = All (λ y. y ≢ x) xs × Distinct xs

-- An id that an allocator still has.
abbrev pub Has : Allocator → ℕ → Type 0
Has a x = (a.base < x) × (x ≤ a.end)

pub record Windows (top : ℕ) (who : ℕ → Allocator) (issued : List ℕ) : Type 0 where
  pub ordered : (i : ℕ) → (who i).base ≤ (who i).end
  pub below : (i : ℕ) → (who i).end ≤ top
  pub apart : (i j x : ℕ) → i ≢ j → Has (who i) x → Has (who j) x → ⊥
  pub spent : (i x : ℕ) → Has (who i) x → All (λ y. y ≢ x) issued
  pub given : All (λ y. y ≤ top) issued
  pub distinct : Distinct issued

pub Windows-raise :
    {top new : ℕ} {who : ℕ → Allocator} {issued : List ℕ}
    → top ≤ new
    → Windows top who issued
    → Windows new who issued
Windows-raise {issued} le w = record {
  ordered = w.ordered;
  below = λ i. omega (arith, w.below i);
  apart = w.apart;
  spent = w.spent;
  given = All-map issued (λ y h. omega arith) w.given;
  distinct = w.distinct;
}

-- A member gives out an id of its window, or of new ones above the top, and keeps others of these.
module _ {top new : ℕ} {who : ℕ → Allocator} {issued : List ℕ} (i id : ℕ) (a : Allocator)
    (w : Windows top who issued) (le : top ≤ new) (ordered : a.base ≤ a.end) (below : a.end ≤ new)
    (id_below : id ≤ new) (owned : Has (who i) id ⊎ (top < id))
    (keeps : (x : ℕ) → Has a x → (x ≢ id) × (Has (who i) x ⊎ (top < x))) where
  -- What another member has is not what this one has now.
  foreign : (j x : ℕ) → i ≢ j → Has a x → Has (who j) x → ⊥
  foreign j x ne mine other = elim ((keeps x mine).1) [
    | inl old ↦ w.apart i j x ne old other
    | inr high ↦ omega (arith, w.below j, other.1, high)
  ]

  unissued : (x : ℕ) → Has (who i) x ⊎ (top < x) → All (λ y. y ≢ x) issued
  unissued x (inl old) = w.spent i x old
  unissued x (inr high) = All-map issued (λ y h same. omega (arith, h, high, same)) w.given

  other_spent : (j x : ℕ) → i ≢ j → Has (who j) x → id ≢ x
  other_spent j x ne other same = elim owned [
    | inl old ↦ w.apart i j x ne (omega (arith, old, same)) other
    | inr high ↦ omega (arith, w.below j, other.1, high, same)
  ]

  pub issue-Windows : Windows new (set_at i a who) (id ∷ issued)
  issue-Windows = record {
    ordered = λ j. elim (Bool-cases (i == j)) [
      | inl here ↦ rw here ordered
      | inr there ↦ rw there (w.ordered j)
    ];
    below = λ j. elim (Bool-cases (i == j)) [
      | inl here ↦ rw here below
      | inr there ↦ rw there (omega (arith, w.below j))
    ];
    apart = λ j k x ne. elim (Bool-cases (i == j)) [
      | inl here ↦
          let not_k : (i == k) ≡ false = ground (arith, here, ne) in
          rw (here, not_k) (λ p q. foreign k x (λ e. ground (arith, not_k, e)) p q)
      | inr there ↦ elim (Bool-cases (i == k)) [
        | inl at_k ↦ rw (there, at_k) (λ p q. foreign j x (λ e. ground (arith, there, e)) q p)
        | inr not_k ↦ rw (there, not_k) (w.apart j k x ne)
      ]
    ];
    spent = λ j x. elim (Bool-cases (i == j)) [
      | inl here ↦
          rw here (λ p. (λ same. (keeps x p).0 (omega (arith, same)), unissued x (keeps x p).1))
      | inr there ↦
          rw there (λ p. (other_spent j x (λ e. ground (arith, there, e)) p, w.spent j x p))
    ];
    given = (id_below, All-map issued (λ y h. omega arith) w.given);
    distinct = (unissued id owned, w.distinct);
  }
