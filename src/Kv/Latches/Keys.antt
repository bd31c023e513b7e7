-- ===== src/Kv/Latches/Keys.antt =====
-- Which keys are in the map of latches (kv/transaction/latches/latches.go) after each change.
use tiny_kv_practice.Prelude.{
  ℕ, ◌≡◌, refl, sym, ap, ◌∙◌, Bool, true, false, ◌&&◌, ◌||◌, not, none, some, List, [], ◌∷◌, arith,
  Bool-cases, Option-cases, if-cases, inl, inr, ℕ_discrete,
}
use tiny_kv_practice.Kv.Latches.{
  same_key, contains, group_of, first_latched, latch_all, put, delete, delete_all,
}

-- A key of the map.
unfoldable pub is_latched : List ℕ → List (List ℕ × ℕ) → Bool
is_latched key [] = false
is_latched key ((k, wg) ∷ latches) = same_key k key || is_latched key latches

absorb : (s l : Bool) → (l && not s) ≡ ((s || l) && not s)
absorb true true = refl
absorb true false = refl
absorb false l = refl

twice : (s l : Bool) → (s || l) ≡ (s || (s || l))
twice true l = refl
twice false l = refl

exchange : (j k l : Bool) → (j || (k || l)) ≡ (k || (j || l))
exchange true true l = refl
exchange true false l = refl
exchange false k l = refl

regroup : (c k l : Bool) → (c || (k || l)) ≡ ((k || c) || l)
regroup true true l = refl
regroup true false l = refl
regroup false true l = refl
regroup false false l = refl

and_true : (l : Bool) → (l && true) ≡ l
and_true true = refl
and_true false = refl

deleted : (l k c : Bool) → ((l && not k) && not c) ≡ (l && not (k || c))
deleted true true c = refl
deleted true false c = refl
deleted false k c = refl

same_key_refl : (k : List ℕ) → same_key k k ≡ true
unfolding same_key
same_key_refl [] = refl
same_key_refl (a ∷ k) = ground (arith, same_key_refl k)

same_key-eq : (j k : List ℕ) → same_key j k ≡ true → j ≡ k
unfolding same_key
same_key-eq [] [] h = refl
same_key-eq [] (b ∷ k) h = cc
same_key-eq (a ∷ j) [] h = cc
same_key-eq (a ∷ j) (b ∷ k) h = elim (ℕ_discrete a b) [
  | yes p ↦ let q = same_key-eq j k (ground (arith, h, p)) in rw (p, q) refl
  | no differs ↦ absurd (ground (arith, h))
]

-- The same key twice is the same key for any other.
same_key-left : (j k key : List ℕ) → same_key j k ≡ true → same_key j key ≡ same_key k key
same_key-left j k key h = ap (λ x. same_key x key) (same_key-eq j k h)

different-keys :
    (j k key : List ℕ) → same_key j k ≡ false → same_key j key ≡ true → same_key k key ≡ false
different-keys j k key h p = elim (Bool-cases (same_key k key)) [
  | inr other ↦ other
  | inl same ↦
      let back =
        same_key-left k key j same
        ∙ ap (λ x. same_key x j) (sym (same_key-eq j key p))
        ∙ same_key_refl j in
      let forth =
        ap (λ x. same_key j x) (same_key-eq k key same ∙ sym (same_key-eq j key p))
        ∙ same_key_refl j in
      absurd (let clash : false ≡ true = sym h ∙ forth in cc)
]

is_latched-delete :
    (key k : List ℕ) (latches : List (List ℕ × ℕ))
    → is_latched key (delete k latches) ≡ (is_latched key latches && not (same_key k key))
unfolding is_latched delete
is_latched-delete key k [] = refl
is_latched-delete key k ((j, wg) ∷ latches) =
    let ih = is_latched-delete key k latches in
    elim (Bool-cases (same_key j k)) [
      | inl same ↦
          rw (same, same_key-left j k key same, ih)
            (absorb (same_key k key) (is_latched key latches))
      | inr other ↦ elim (Bool-cases (same_key j key)) [
        | inl here ↦ rw (other, here, different-keys j k key other here) refl
        | inr elsewhere ↦ rw (other, elsewhere, ih) refl
      ]
    ]

is_latched-put :
    (key k : List ℕ) (wg : ℕ) (latches : List (List ℕ × ℕ))
    → is_latched key (put k wg latches) ≡ (same_key k key || is_latched key latches)
unfolding is_latched put
is_latched-put key k wg [] = refl
is_latched-put key k wg ((j, old) ∷ latches) =
    let ih = is_latched-put key k wg latches in
    elim (Bool-cases (same_key j k)) [
      | inl same ↦
          rw (same, same_key-left j k key same) (twice (same_key k key) (is_latched key latches))
      | inr other ↦
          rw (other, ih) (exchange (same_key j key) (same_key k key) (is_latched key latches))
    ]

pub is_latched-latch_all :
    (key : List ℕ) (keys : List (List ℕ)) (wg : ℕ) (latches : List (List ℕ × ℕ))
    → is_latched key (latch_all keys wg latches) ≡ (contains key keys || is_latched key latches)
unfolding latch_all contains
is_latched-latch_all key [] wg latches = refl
is_latched-latch_all key (k ∷ keys) wg latches =
    is_latched-latch_all key keys wg (put k wg latches)
    ∙ ap (λ b. contains key keys || b) (is_latched-put key k wg latches)
    ∙ regroup (contains key keys) (same_key k key) (is_latched key latches)

pub is_latched-delete_all :
    (key : List ℕ) (keys : List (List ℕ)) (latches : List (List ℕ × ℕ))
    → is_latched key (delete_all keys latches) ≡ (is_latched key latches && not (contains key keys))
unfolding delete_all contains
is_latched-delete_all key [] latches = sym (and_true (is_latched key latches))
is_latched-delete_all key (k ∷ keys) latches =
    is_latched-delete_all key keys (delete k latches)
    ∙ ap (λ b. b && not (contains key keys)) (is_latched-delete key k latches)
    ∙ deleted (is_latched key latches) (same_key k key) (contains key keys)

-- What is acquired was not latched.
group_of-none :
    (key : List ℕ) (latches : List (List ℕ × ℕ))
    → group_of key latches ≡ none
    → is_latched key latches ≡ false
unfolding group_of is_latched
group_of-none key [] h = refl
group_of-none key ((k, wg) ∷ latches) h = elim (if-cases (same_key k key) h) [
  | inl (same, found) ↦ cc
  | inr (other, rest) ↦ rw other (group_of-none key latches rest)
]

pub first_latched-none :
    (key : List ℕ) (keys : List (List ℕ)) (latches : List (List ℕ × ℕ))
    → first_latched keys latches ≡ none
    → contains key keys ≡ true
    → is_latched key latches ≡ false
unfolding first_latched contains
first_latched-none key [] latches h c = cc
first_latched-none key (k ∷ keys) latches h c = elim (Option-cases (group_of k latches)) [
  | inr (wg, found) ↦
      let taken : first_latched (k ∷ keys) latches ≡ some wg = rw (first_latched, found) refl in
      absurd (let clash : some wg ≡ none = sym taken ∙ h in cc)
  | inl free ↦
      let rest : first_latched (k ∷ keys) latches ≡ first_latched keys latches =
        rw (first_latched, free) refl in
      elim (Bool-cases (same_key k key)) [
        | inl same ↦
            ap (λ x. is_latched x latches) (sym (same_key-eq k key same))
            ∙ group_of-none k latches free
        | inr other ↦
            first_latched-none key keys latches (sym rest ∙ h)
              (sym (ap (λ b. b || contains key keys) other) ∙ c)
      ]
]
