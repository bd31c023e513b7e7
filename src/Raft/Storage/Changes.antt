-- ===== src/Raft/Storage/Changes.antt =====
-- Appending to a storage in memory (raft/storage.go).
use tiny_kv_practice.Prelude.{
  ℕ, suc, ◌+◌, ◌-◌, ◌^◌, ◌≤◌, ◌<◌, ◌≡◌, ◌≢◌, refl, sym, ap, subst, ◌∙◌, true, false, none, some,
  List, [], ◌∷◌, ◌++◌, arith, length, get_elem?, slice_exact, take, drop, get_elem?_lt, length-take,
  length-drop, length-append, add64, sub64, add64_exact, sub64_exact, ltb, if◌then◌else◌,
  take_of_length-le, dec_lt, lt→ltb,
}
use tiny_kv_practice.Raft.Types.{Entry}
use tiny_kv_practice.Raft.Log.Shape.{
  IsConsecutive, IsConsecutive-get_elem?, IsConsecutive-append, IsConsecutive-take,
  IsConsecutive-drop,
}
use tiny_kv_practice.Raft.Storage.{MemoryStorage, append_at, append}
use tiny_kv_practice.Raft.Storage.Shape.{IsOrdered, first_index_lem}

-- The entries after the dummy, when `es`, which follow the index `k`, have been appended.
abbrev pub appended : ℕ → ℕ → List Entry → List Entry → List Entry
appended base k rest es =
    if ltb base (k + length es) then take (k - base) rest ++ drop (base - k) es else rest

append_at_lem :
    (base j : ℕ) (ms : MemoryStorage) (new : List Entry) (o : IsOrdered base ms)
    → j ≤ length o.rest
    → append_at ms (suc j) new ≡ some (record ms { ents = o.dummy ∷ take j o.rest ++ new }, none)
unfolding append_at
append_at_lem base j ms new o h = ground (arith, o.ents_eq, take_of_length-le j o.rest)

-- The storage with other entries after the dummy.
abbrev with_rest : {base : ℕ} {ms : MemoryStorage} → IsOrdered base ms → List Entry → MemoryStorage
with_rest {ms} o rest = record ms { ents = o.dummy ∷ rest }

with_rest-IsOrdered :
    (base : ℕ) (ms : MemoryStorage) (o : IsOrdered base ms) (rest : List Entry)
    → IsConsecutive base rest
    → base + length rest + 1 < 2 ^ 63
    → IsOrdered base (with_rest o rest)
with_rest-IsOrdered base ms o rest c small = record {
  dummy = o.dummy;
  rest = rest;
  ents_eq = refl;
  dummy_index = o.dummy_index;
  consecutive = c;
  small = small;
}

-- Nothing new: all of the entries are in the snapshot.
append_old :
    (base k : ℕ) (ms : MemoryStorage) (a : Entry) (new : List Entry) (o : IsOrdered base ms)
    → a.index ≡ k + 1
    → k + length (a ∷ new) ≤ base
    → append ms (a ∷ new) ≡ some (ms, none)
unfolding append
append_old base k ms a new o p old = rw (first_index_lem o) (
    ground (
      arith,
      p,
      o.small,
      add64_exact a.index (suc (length new)),
      sub64_exact (a.index + suc (length new)) 1,
    ))

-- The entries follow an index of the storage.
append_follow :
    (base k : ℕ) (ms : MemoryStorage) (a : Entry) (new : List Entry) (o : IsOrdered base ms)
    → a.index ≡ k + 1
    → base ≤ k
    → k ≤ base + length o.rest
    → k + length (a ∷ new) + 1 < 2 ^ 63
    → append ms (a ∷ new) ≡ some (with_rest o (take (k - base) o.rest ++ a ∷ new), none)
unfolding append
append_follow base k ms a new o p lo hi small =
    let place : sub64 a.index o.dummy.index ≡ suc (k - base) =
      sub64_exact a.index o.dummy.index (omega (arith, o.dummy_index)) (omega arith)
      ∙ omega (arith, o.dummy_index) in
    rw (first_index_lem o, o.ents_eq)
      (ground (
        arith,
        p,
        place,
        append_at_lem base (k - base) ms (a ∷ new) o,
        add64_exact a.index (suc (length new)),
        sub64_exact (a.index + suc (length new)) 1,
      ))

-- Some of the entries are in the snapshot.
append_overlap :
    (base k : ℕ) (ms : MemoryStorage) (a : Entry) (new : List Entry) (o : IsOrdered base ms)
    → IsConsecutive k (a ∷ new)
    → k < base
    → base < k + length (a ∷ new)
    → k + length (a ∷ new) + 1 < 2 ^ 63
    → append ms (a ∷ new) ≡ some (with_rest o (drop (base - k) (a ∷ new)), none)
unfolding append
append_overlap base k ms a new o c lo hi small =
    let skip : sub64 (base + 1) a.index ≡ base - k =
      sub64_exact (base + 1) a.index (omega (arith, c.0)) (omega (arith, o.small))
      ∙ omega (arith, c.0) in
    let (b, at) =
      get_elem?_lt (drop (base - k) (a ∷ new)) 0
        (omega (arith, length-drop (base - k) (a ∷ new))) in
    let index =
      IsConsecutive-get_elem? (k + (base - k)) (drop (base - k) (a ∷ new)) 0
        (IsConsecutive-drop k (base - k) (a ∷ new) c) at in
    let first : sub64 b.index o.dummy.index ≡ 1 =
      sub64_exact b.index o.dummy.index (omega (arith, index, o.dummy_index)) (omega (arith, index))
      ∙ omega (arith, index, o.dummy_index) in
    let cut =
      slice_exact (a ∷ new) (base - k) (length (a ∷ new)) (omega arith) (omega arith)
      ∙ ap (λ l. some (drop (base - k) l))
          (take_of_length-le (length (a ∷ new)) (a ∷ new) (omega arith)) in
    let newer : ltb (sub64 (add64 a.index (length (a ∷ new))) 1) (base + 1) ≡ false = ground (
      arith,
      c.0,
      add64_exact a.index (suc (length new)),
      sub64_exact (a.index + suc (length new)) 1,
    ) in
    let early : ltb a.index (base + 1) ≡ true = lt→ltb _ _ (omega (arith, c.0)) in
    let dummy : get_elem? ms.ents 0 ≡ some o.dummy = ap (λ l. get_elem? l 0) o.ents_eq in
    rw (first_index_lem o, newer, early, skip, cut, at, dummy, first)
      (append_at_lem base 0 ms (drop (base - k) (a ∷ new)) o (omega arith))

-- Appending entries that follow the index `k`, which is not past the end, succeeds. What the storage
-- held up to `k` stays, what it held after `k` is replaced, what is in the snapshot is skipped, and the
-- storage stays in order.
pub append_lem :
    (base k : ℕ) (ms : MemoryStorage) (es : List Entry) (o : IsOrdered base ms)
    → IsConsecutive k es
    → es ≢ []
    → k ≤ base + length o.rest
    → k + length es + 1 < 2 ^ 63
    → (ms' : MemoryStorage) × (o' : IsOrdered base ms') × (append ms es ≡ some (ms', none))
      × (o'.rest ≡ appended base k o.rest es)
unfolding with_rest-IsOrdered
append_lem base k ms [] o c some_new hi small = absurd (some_new refl)
append_lem base k ms (a ∷ new) o c some_new hi small = elim (dec_lt base (k + length (a ∷ new))) [
  | no old ↦ (ms, o, append_old base k ms a new o (omega (arith, c.0)) (omega arith), ground arith)
  | yes newer ↦ elim (dec_lt k base) [
    | yes overlap ↦
        let rest = drop (base - k) (a ∷ new) in
        let place : k - base ≡ 0 = omega arith in
        let c' : IsConsecutive base rest =
          subst (λ b. IsConsecutive b rest) (omega arith)
            (IsConsecutive-drop k (base - k) (a ∷ new) c) in
        (
          with_rest o rest,
          with_rest-IsOrdered base ms o rest c' (omega (arith, length-drop (base - k) (a ∷ new))),
          append_overlap base k ms a new o c overlap newer small,
          sym (rw (lt→ltb _ _ newer, place) refl),
        )
    | no follow ↦
        let front = take (k - base) o.rest in
        let rest = front ++ a ∷ new in
        let kept : length front ≡ k - base = omega (arith, length-take (k - base) o.rest) in
        let place : base - k ≡ 0 = omega arith in
        let c' : IsConsecutive base rest =
          IsConsecutive-append base front (a ∷ new)
            (IsConsecutive-take base (k - base) o.rest o.consecutive)
            (subst (λ b. IsConsecutive b (a ∷ new)) (omega (arith, kept)) c) in
        (
          with_rest o rest,
          with_rest-IsOrdered base ms o rest c'
              (omega (arith, kept, length-append front (a ∷ new))),
          append_follow base k ms a new o (omega (arith, c.0)) (omega arith) hi small,
          sym (rw (lt→ltb _ _ newer, place) refl),
        )
  ]
]
