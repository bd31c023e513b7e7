-- ===== src/Kv/Latches.antt =====
-- kv/transaction/latches/latches.go: latches on keys. The mutex orders whole calls. A wait group is a
-- number, and `open_groups` are those whose counter is 1; a second `Done`, which makes it negative, is a
-- panic, and so is `Done` of a nil wait group.
pub mod Keys
pub mod Exclusion
use tiny_kv_practice.Prelude.{
  ℕ, ◌+◌, Bool, true, false, ◌&&◌, ◌||◌, not, Option, none, some, List, [], ◌∷◌, ◌==◌,
  if◌then◌else◌, ◌>>=◌, ◌>>◌, check,
}

unfoldable pub same_key : List ℕ → List ℕ → Bool
same_key [] [] = true
same_key [] (b ∷ k) = false
same_key (a ∷ j) [] = false
same_key (a ∷ j) (b ∷ k) = a == b && same_key j k

unfoldable pub contains : List ℕ → List (List ℕ) → Bool
contains key [] = false
contains key (k ∷ keys) = same_key k key || contains key keys

-- `latchMap`, and the wait groups.
pub record Latches : Type 0 where
  pub latch_map : List (List ℕ × ℕ)
  pub open_groups : List ℕ
  pub next_group : ℕ

abbrev pub new_latches : Latches
new_latches = record { latch_map = []; open_groups = []; next_group = 0 }

-- l.latchMap[key]
unfoldable pub group_of : List ℕ → List (List ℕ × ℕ) → Option ℕ
group_of key [] = none
group_of key ((k, wg) ∷ latches) = if same_key k key then some wg else group_of key latches

-- The wait group of the first key that is latched.
unfoldable pub first_latched : List (List ℕ) → List (List ℕ × ℕ) → Option ℕ
first_latched [] latches = none
first_latched (key ∷ keys) latches = elim (group_of key latches) [
  | some wg ↦ some wg
  | none ↦ first_latched keys latches
]

-- l.latchMap[string(key)] = wg
unfoldable pub put : List ℕ → ℕ → List (List ℕ × ℕ) → List (List ℕ × ℕ)
put key wg [] = (key, wg) ∷ []
put key wg ((k, old) ∷ latches) =
    if same_key k key then (key, wg) ∷ latches else (k, old) ∷ put key wg latches

unfoldable pub latch_all : List (List ℕ) → ℕ → List (List ℕ × ℕ) → List (List ℕ × ℕ)
latch_all [] wg latches = latches
latch_all (key ∷ keys) wg latches = latch_all keys wg (put key wg latches)

-- `AcquireLatches`: the wait group to wait for, or `none` if all keys are latched now.
unfoldable pub acquire_latches : Latches → List (List ℕ) → Latches × Option ℕ
acquire_latches l keys = elim (first_latched keys l.latch_map) [
  | some wg ↦ (l, some wg)
  | none ↦ (
    record {
      latch_map = latch_all keys l.next_group l.latch_map;
      open_groups = l.next_group ∷ l.open_groups;
      next_group = l.next_group + 1;
    },
    none,
  )
]

-- delete(l.latchMap, string(key))
unfoldable pub delete : List ℕ → List (List ℕ × ℕ) → List (List ℕ × ℕ)
delete key [] = []
delete key ((k, wg) ∷ latches) =
    let rest = delete key latches in if same_key k key then rest else (k, wg) ∷ rest

unfoldable pub delete_all : List (List ℕ) → List (List ℕ × ℕ) → List (List ℕ × ℕ)
delete_all [] latches = latches
delete_all (key ∷ keys) latches = delete_all keys (delete key latches)

unfoldable pub is_open : ℕ → List ℕ → Bool
is_open wg [] = false
is_open wg (g ∷ groups) = g == wg || is_open wg groups

unfoldable pub close : ℕ → List ℕ → List ℕ
close wg [] = []
close wg (g ∷ groups) = let rest = close wg groups in if g == wg then rest else g ∷ rest

-- `ReleaseLatches`: `Done` for the wait group of the first key.
unfoldable pub release_latches : Latches → List (List ℕ) → Option Latches
release_latches l [] = some l
release_latches l (key ∷ keys) = do
  wg ← group_of key l.latch_map
  check (is_open wg l.open_groups)
  some (record l {
    latch_map = delete_all (key ∷ keys) l.latch_map;
    open_groups = close wg l.open_groups;
  })
