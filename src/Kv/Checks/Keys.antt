-- ===== src/Kv/Checks/Keys.antt =====
-- Which keys belong to a region (kv/raftstore/util/util.go).
use tiny_kv_practice.Prelude.{
  ℕ, ◌≡◌, ◌≢◌, ◌==◌, refl, Bool, true, false, not, ◌&&◌, ◌||◌, none, some, List, [], ◌∷◌, ◌⊎◌, inl,
  inr, arith, length, Bool-cases,
}
use tiny_kv_practice.Keys.{is_below}
use tiny_kv_practice.Kv.Checks.{
  Region, key_not_in_region, is_endless, unless_inside, check_key_in_region,
}

-- The two halves of a region that is split at a key.
abbrev pub left_of : Region → List ℕ → Region
left_of region at = record region { end_key = at }

abbrev pub right_of : Region → List ℕ → Region
right_of region at = record region { start_key = at }

inside-true :
    (b : Bool) (key : List ℕ) (region : Region) → unless_inside b key region ≡ none → b ≡ true
inside-true true key region h = refl
inside-true false key region h = cc

and-true : (a b : Bool) → (a && b) ≡ true → (a ≡ true) × (b ≡ true)
and-true true b h = (refl, h)
and-true false b h = cc

-- When a region is split at a key that is not empty, each key of the region is in exactly one half.
pub check_key_in_region-split :
    (region : Region) (key at : List ℕ)
    → at ≢ []
    → check_key_in_region key region ≡ none
    → ((check_key_in_region key (left_of region at) ≡ none)
        × (check_key_in_region key (right_of region at)
            ≡ some (key_not_in_region key (right_of region at))))
      ⊎ ((check_key_in_region key (left_of region at)
            ≡ some (key_not_in_region key (left_of region at)))
          × (check_key_in_region key (right_of region at) ≡ none))
unfolding check_key_in_region
check_key_in_region-split region key [] some_at h = absurd (some_at refl)
check_key_in_region-split region key (b ∷ at) some_at h =
    let (start, end) =
      and-true (not (is_below key region.start_key))
        (is_endless region || is_below key region.end_key) (inside-true _ key region h) in
    let has_end : (length (b ∷ at) == 0) ≡ false = ground arith in
    elim (Bool-cases (is_below key (b ∷ at))) [
      | inl below ↦ inl (rw (start, has_end, below) refl, rw below refl)
      | inr not_below ↦ inr (rw (start, has_end, not_below) refl, rw (not_below, end) refl)
    ]
