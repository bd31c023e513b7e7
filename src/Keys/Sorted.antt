-- ===== src/Keys/Sorted.antt =====
-- Lookups in a sorted list of items after an insertion and a deletion.
use tiny_kv_practice.Prelude.{
  ◌≡◌, ◌⊎◌, inl, inr, refl, sym, ap, ◌∙◌, Bool, true, false, not, ◌&&◌, Option, none, some, List,
  [], ◌∷◌, All, All-map, if◌then◌else◌, arith, Bool-cases,
}
use tiny_kv_practice.Keys.{
  is_below, is_below_trans, is_below_asymm, is_below_of_le_lt, is_below_of_lt_le,
}
use tiny_kv_practice.Keys.Trees.{Key, IsSorted, find_key, put, cut}

-- Neither of two keys is below the other one.
abbrev pub same : Key → Key → Bool
same a b = not (is_below a b) && not (is_below b a)

module _ {I : Type 0} (key : I → Key) where
  put-All : (P : I → Type 0) (x : I) (l : List I) → P x → All P l → All P (put key x l)
  unfolding put
  put-All P x [] h a = (h, tt)
  put-All P x (y ∷ l) h a = elim (Bool-cases (is_below (key y) (key x))) [
    | inl below ↦ rw below (a.0, put-All P x l h a.1)
    | inr other ↦ elim (Bool-cases (is_below (key x) (key y))) [
      | inl above ↦ rw (other, above) (h, a)
      | inr equal ↦ rw (other, equal) (h, a.1)
    ]
  ]

  cut-All : (P : I → Type 0) (k : Key) (l : List I) → All P l → All P (cut key k l)
  unfolding cut
  cut-All P k [] a = tt
  cut-All P k (x ∷ l) a = elim (Bool-cases (is_below (key x) k)) [
    | inl below ↦ rw below (a.0, cut-All P k l a.1)
    | inr other ↦ elim (Bool-cases (is_below k (key x))) [
      | inl above ↦ rw (other, above) a
      | inr equal ↦ rw (other, equal) a.1
    ]
  ]

  pub put-IsSorted : (x : I) (l : List I) → IsSorted key l → IsSorted key (put key x l)
  unfolding put
  put-IsSorted x [] s = (tt, tt)
  put-IsSorted x (y ∷ l) s = elim (Bool-cases (is_below (key y) (key x))) [
    | inl below ↦
        rw below
          (put-All (λ z. is_below (key y) (key z) ≡ true) x l below s.0, put-IsSorted x l s.1)
    | inr other ↦ elim (Bool-cases (is_below (key x) (key y))) [
      | inl above ↦
          rw (other, above)
            ((above, All-map l (λ z. is_below_trans (key x) (key y) (key z) above) s.0), s)
      | inr equal ↦
          rw (other, equal)
            (All-map l (λ z. is_below_of_le_lt (key x) (key y) (key z) other) s.0, s.1)
    ]
  ]

  pub cut-IsSorted : (k : Key) (l : List I) → IsSorted key l → IsSorted key (cut key k l)
  unfolding cut
  cut-IsSorted k [] s = tt
  cut-IsSorted k (x ∷ l) s = elim (Bool-cases (is_below (key x) k)) [
    | inl below ↦
        rw below (cut-All (λ y. is_below (key x) (key y) ≡ true) k l s.0, cut-IsSorted k l s.1)
    | inr other ↦ elim (Bool-cases (is_below k (key x))) [
      | inl above ↦ rw (other, above) s
      | inr equal ↦ rw (other, equal) s.1
    ]
  ]

  find_key-later :
      (k : Key) (l : List I) → All (λ y. is_below k (key y) ≡ true) l → find_key key k l ≡ none
  unfolding find_key
  find_key-later k [] a = refl
  find_key-later k (y ∷ l) a = rw (is_below_asymm k (key y) a.0, a.0) refl

  not_same : (a b : Key) → (is_below a b ≡ true) ⊎ (is_below b a ≡ true) → same a b ≡ false
  not_same a b (inl h) = rw h refl
  not_same a b (inr h) = ground (arith, h)

  found_below :
      (k : Key) (y : I) (l : List I)
      → is_below (key y) k ≡ true
      → find_key key k (y ∷ l) ≡ find_key key k l
  unfolding find_key
  found_below k y l h = rw h refl

  found_here :
      (k : Key) (y : I) (l : List I)
      → is_below (key y) k ≡ false
      → is_below k (key y) ≡ false
      → find_key key k (y ∷ l) ≡ some y
  unfolding find_key
  found_here k y l h g = rw (h, g) refl

  found_above :
      (k : Key) (y : I) (l m : List I)
      → is_below (key y) k ≡ false
      → find_key key k (y ∷ l) ≡ find_key key k (y ∷ m)
  unfolding find_key
  found_above k y l m h = rw h refl

  missed :
      (k : Key) (y : I) (l : List I) → is_below k (key y) ≡ true → find_key key k (y ∷ l) ≡ none
  unfolding find_key
  missed k y l h = rw (is_below_asymm k (key y) h, h) refl

  find_nil : (k : Key) → find_key key k [] ≡ none
  unfolding find_key
  find_nil k = refl

  -- A lookup in a list that begins with an item, if what follows is like `m` for keys behind the item,
  -- and `m` has no key before it.
  find_head :
      (x : I) (k : Key) (l m : List I)
      → (is_below (key x) k ≡ true → find_key key k l ≡ find_key key k m)
      → (is_below k (key x) ≡ true → find_key key k m ≡ none)
      → find_key key k (x ∷ l) ≡ (if same (key x) k then some x else find_key key k m)
  find_head x k l m behind before = elim (Bool-cases (is_below (key x) k)) [
    | inl below ↦ rw (not_same (key x) k (inl below)) (found_below k x l below ∙ behind below)
    | inr other ↦ elim (Bool-cases (is_below k (key x))) [
      | inl above ↦ rw (not_same (key x) k (inr above)) (missed k x l above ∙ sym (before above))
      | inr equal ↦ rw (other, equal) (found_here k x l other equal)
    ]
  ]

  put_below :
      (x y : I) (l : List I) → is_below (key y) (key x) ≡ true → put key x (y ∷ l) ≡ y ∷ put key x l
  unfolding put
  put_below x y l h = rw h refl

  put_above :
      (x y : I) (l : List I)
      → is_below (key y) (key x) ≡ false
      → is_below (key x) (key y) ≡ true
      → put key x (y ∷ l) ≡ x ∷ y ∷ l
  unfolding put
  put_above x y l h g = rw (h, g) refl

  put_equal :
      (x y : I) (l : List I)
      → is_below (key y) (key x) ≡ false
      → is_below (key x) (key y) ≡ false
      → put key x (y ∷ l) ≡ x ∷ l
  unfolding put
  put_equal x y l h g = rw (h, g) refl

  put_nil : (x : I) → put key x [] ≡ x ∷ []
  unfolding put
  put_nil x = refl

  -- A lookup after an insertion.
  pub find_key-put :
      (x : I) (k : Key) (l : List I)
      → find_key key k (put key x l) ≡ (if same (key x) k then some x else find_key key k l)
  find_key-put x k [] =
      ap (find_key key k) (put_nil x) ∙ find_head x k [] [] (λ h. refl) (λ h. find_nil k)
  find_key-put x k (y ∷ l) = elim (Bool-cases (is_below (key y) (key x))) [
    | inl below ↦
        ap (find_key key k) (put_below x y l below)
        ∙ elim (Bool-cases (is_below (key y) k))
            as (λ _.
              find_key key k (y ∷ put key x l)
              ≡ (if same (key x) k then some x else find_key key k (y ∷ l))) [
                | inl behind ↦
                    rw (found_below k y (put key x l) behind, found_below k y l behind)
                      (find_key-put x k l)
                | inr not_behind ↦
                    let before = is_below_of_le_lt k (key y) (key x) not_behind below in
                    rw (not_same (key x) k (inr before))
                      (found_above k y (put key x l) l not_behind)
              ]
    | inr other ↦ elim (Bool-cases (is_below (key x) (key y))) [
      | inl above ↦
          ap (find_key key k) (put_above x y l other above)
          ∙ find_head x k (y ∷ l) (y ∷ l) (λ h. refl)
              (λ h. missed k y l (is_below_trans k (key x) (key y) h above))
      | inr equal ↦
          ap (find_key key k) (put_equal x y l other equal)
          ∙ find_head x k l (y ∷ l)
              (λ h. sym (found_below k y l (is_below_of_le_lt (key y) (key x) k equal h)))
              (λ h. missed k y l (is_below_of_lt_le k (key x) (key y) h other))
    ]
  ]

  cut_below :
      (k : Key) (y : I) (l : List I)
      → is_below (key y) k ≡ true
      → cut key k (y ∷ l) ≡ y ∷ cut key k l
  unfolding cut
  cut_below k y l h = rw h refl

  cut_above :
      (k : Key) (y : I) (l : List I)
      → is_below (key y) k ≡ false
      → is_below k (key y) ≡ true
      → cut key k (y ∷ l) ≡ y ∷ l
  unfolding cut
  cut_above k y l h g = rw (h, g) refl

  cut_equal :
      (k : Key) (y : I) (l : List I)
      → is_below (key y) k ≡ false
      → is_below k (key y) ≡ false
      → cut key k (y ∷ l) ≡ l
  unfolding cut
  cut_equal k y l h g = rw (h, g) refl

  cut_nil : (k : Key) → cut key k [] ≡ []
  unfolding cut
  cut_nil k = refl

  -- What holds of a list that has no key like `j`.
  missing :
      (j k : Key) (l : List I)
      → (same j k ≡ true → find_key key k l ≡ none)
      → find_key key k l ≡ (if same j k then none else find_key key k l)
  missing j k l h = elim (Bool-cases (same j k)) [
    | inl equal ↦ rw equal (h equal)
    | inr other ↦ rw other refl
  ]

  -- A lookup after a deletion.
  pub find_key-cut :
      (j k : Key) (l : List I)
      → IsSorted key l
      → find_key key k (cut key j l) ≡ (if same j k then none else find_key key k l)
  find_key-cut j k [] s = ap (find_key key k) (cut_nil j) ∙ missing j k [] (λ h. find_nil k)
  find_key-cut j k (y ∷ l) s = elim (Bool-cases (is_below (key y) j)) [
    | inl below ↦
        ap (find_key key k) (cut_below j y l below)
        ∙ elim (Bool-cases (is_below (key y) k))
            as (λ _.
              find_key key k (y ∷ cut key j l)
              ≡ (if same j k then none else find_key key k (y ∷ l))) [
                | inl behind ↦
                    rw (found_below k y (cut key j l) behind, found_below k y l behind)
                      (find_key-cut j k l s.1)
                | inr not_behind ↦
                    let before = is_below_of_le_lt k (key y) j not_behind below in
                    rw (not_same j k (inr before)) (found_above k y (cut key j l) l not_behind)
              ]
    | inr other ↦ elim (Bool-cases (is_below j (key y))) [
      | inl above ↦
          ap (find_key key k) (cut_above j y l other above)
          ∙ missing j k (y ∷ l)
              (λ h. missed k y l (is_below_of_le_lt k j (key y) (ground (arith, h)) above))
      | inr equal ↦
          ap (find_key key k) (cut_equal j y l other equal) ∙ after_equal j k y l s other equal
    ]
  ]
    where
      by_either : {o : Option I} (b : Bool) → o ≡ none → none ≡ (if b then none else o)
      by_either true h = refl
      by_either false h = sym h

      after_equal :
          (j k : Key) (y : I) (l : List I)
          → IsSorted key (y ∷ l)
          → is_below (key y) j ≡ false
          → is_below j (key y) ≡ false
          → find_key key k l ≡ (if same j k then none else find_key key k (y ∷ l))
      after_equal j k y l s other equal = elim (Bool-cases (is_below (key y) k)) [
        | inl behind ↦
            rw (not_same j k (inl (is_below_of_le_lt j (key y) k other behind)))
              (sym (found_below k y l behind))
        | inr not_behind ↦
            let gone =
              find_key-later k l
                (All-map l (λ z. is_below_of_le_lt k (key y) (key z) not_behind) s.0) in
            elim (Bool-cases (is_below k (key y))) [
              | inl before ↦ gone ∙ by_either (same j k) (missed k y l before)
              | inr at ↦
                  let equal_keys : same j k ≡ true = ground (
                    arith,
                    is_below_of_lt_le j k (key y),
                    is_below_of_lt_le k j (key y),
                    equal,
                    at,
                    other,
                    not_behind,
                  ) in
                  rw equal_keys gone
            ]
      ]
