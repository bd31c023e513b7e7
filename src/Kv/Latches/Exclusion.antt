-- ===== src/Kv/Latches/Exclusion.antt =====
-- The latches of kv/transaction/latches/latches.go exclude each other.
use tiny_kv_practice.Prelude.{
  ℕ, ◌+◌, ◌≤◌, ◌≡◌, refl, sym, ap, ◌∙◌, Bool, true, false, ◌&&◌, ◌||◌, not, Option, none, some,
  List, [], ◌∷◌, ◌++◌, arith, Option-cases, inl, inr, >>=-eq-some, check,
}
use mathlib.Core.Option.{some-injective}
use tiny_kv_practice.Kv.Latches.{
  contains, Latches, new_latches, group_of, first_latched, latch_all, acquire_latches, delete_all,
  is_open, release_latches,
}
use tiny_kv_practice.Kv.Latches.Keys.{
  is_latched, first_latched-none, is_latched-latch_all, is_latched-delete_all,
}

-- The latches, and the key lists that were acquired and not yet released.
pub record World : Type 0 where
  pub latches : Latches
  pub held : List (List (List ℕ))

-- A holder acquires its latches, or releases the ones that it holds.
pub data Move : World → World → Type 0 where
  acquire :
      {l l' : Latches} {held : List (List (List ℕ))} (keys : List (List ℕ))
      → acquire_latches l keys ≡ (l', none)
      → Move (record { latches = l; held = held }) (record { latches = l'; held = keys ∷ held })
  release :
      {l l' : Latches} (before after : List (List (List ℕ))) (keys : List (List ℕ))
      → release_latches l keys ≡ some l'
      → Move
          (record { latches = l; held = before ++ keys ∷ after })
          (record { latches = l'; held = before ++ after })

pub data Reachable : World → Type 0 where
  at_start : Reachable (record { latches = new_latches; held = [] })
  move : {w w' : World} → Reachable w → Move w w' → Reachable w'

abbrev pub one : Bool → ℕ
one true = 1
one false = 0

-- How many of the lists hold a key.
unfoldable pub holders : List ℕ → List (List (List ℕ)) → ℕ
holders key [] = 0
holders key (keys ∷ held) = one (contains key keys) + holders key held

holders-append :
    (key : List ℕ) (xs ys : List (List (List ℕ)))
    → holders key (xs ++ ys) ≡ holders key xs + holders key ys
unfolding holders
holders-append key [] ys = omega arith
holders-append key (x ∷ xs) ys = omega (arith, holders-append key xs ys)

-- The latches after an acquisition that did not have to wait.
acquired :
    (l l' : Latches) (keys : List (List ℕ))
    → acquire_latches l keys ≡ (l', none)
    → (first_latched keys l.latch_map ≡ none)
      × (l'.latch_map ≡ latch_all keys l.next_group l.latch_map)
unfolding acquire_latches
acquired l l' keys h = elim (Option-cases (first_latched keys l.latch_map)) [
  | inr (wg, found) ↦
      let waits : acquire_latches l keys ≡ (l, some wg) = rw (acquire_latches, found) refl in
      absurd (let clash : some wg ≡ none = ap (λ x. x.1) (sym waits ∙ h) in cc)
  | inl free ↦
      let next : Latches = record {
        latch_map = latch_all keys l.next_group l.latch_map;
        open_groups = l.next_group ∷ l.open_groups;
        next_group = l.next_group + 1;
      } in
      let latches : acquire_latches l keys ≡ (next, none) = rw (acquire_latches, free) refl in
      (free, ap (λ (x : Latches × Option ℕ). x.0.latch_map) (sym h ∙ latches))
]

released :
    (l l' : Latches) (keys : List (List ℕ))
    → release_latches l keys ≡ some l'
    → l'.latch_map ≡ delete_all keys l.latch_map
unfolding release_latches delete_all
released l l' [] h = ap (λ (x : Latches). x.latch_map) (sym (some-injective _ _ h))
released l l' (key ∷ keys) h =
    let (wg, found, g) = >>=-eq-some (group_of key l.latch_map) _ h in
    let (_, opened, k) = >>=-eq-some (check (is_open wg l.open_groups)) _ g in
    ap (λ (x : Latches). x.latch_map) (sym (some-injective _ _ k))

-- Each key is held by one list if it is latched, and by none otherwise.
abbrev IsExclusive : List ℕ → World → Type 0
IsExclusive key w = holders key w.held ≡ one (is_latched key w.latches.latch_map)

one_more : (c l : Bool) → (c ≡ true → l ≡ false) → one c + one l ≡ one (c || l)
one_more true true h = let clash : true ≡ false = h refl in cc
one_more true false h = refl
one_more false true h = refl
one_more false false h = refl

one_less :
    (before after : ℕ) (c l : Bool)
    → before + (one c + after) ≡ one l
    → before + after ≡ one (l && not c)
one_less before after true true h = omega arith
one_less before after true false h = absurd (omega arith)
one_less before after false true h = omega arith
one_less before after false false h = omega arith

Move-IsExclusive :
    (key : List ℕ) {w w' : World} → Move w w' → IsExclusive key w → IsExclusive key w'
unfolding holders
Move-IsExclusive key (acquire {l} {l'} {held} keys h) ih =
    let (free, now) = acquired l l' keys h in
    ap (λ n. one (contains key keys) + n) ih
    ∙ one_more (contains key keys) (is_latched key l.latch_map)
        (first_latched-none key keys l.latch_map free)
    ∙ ap one
        (sym (ap (is_latched key) now ∙ is_latched-latch_all key keys l.next_group l.latch_map))
Move-IsExclusive key (release {l} {l'} before after keys h) ih =
    holders-append key before after
    ∙ one_less (holders key before) (holders key after) (contains key keys)
        (is_latched key l.latch_map) (sym (holders-append key before (keys ∷ after)) ∙ ih)
    ∙ ap one (
        sym
          (ap (is_latched key) (released l l' keys h) ∙ is_latched-delete_all key keys l.latch_map))

at_most_one : (n : ℕ) (b : Bool) → n ≡ one b → n ≤ 1
at_most_one n true h = omega arith
at_most_one n false h = omega arith

-- In every state that acquisitions and releases of held latches can reach, a key is held once if it is in
-- the map of latches, and is not held otherwise: no two holders have a key in common.
pub Reachable-exclusive :
    (key : List ℕ) {w : World}
    → Reachable w
    → (holders key w.held ≡ one (is_latched key w.latches.latch_map)) × (holders key w.held ≤ 1)
unfolding holders is_latched
Reachable-exclusive key at_start = (refl, omega arith)
Reachable-exclusive key (move before step) =
    let now = Move-IsExclusive key step (Reachable-exclusive key before).0 in
    (now, at_most_one (holders key _) (is_latched key _) now)
