-- ===== src/Raft/Storage/Shape.antt =====
-- A storage in memory (raft/storage.go) that is in order: a dummy entry at `base`, and consecutive
-- entries after it. What its methods answer, and that they keep it in order.
use tiny_kv_practice.Prelude.{
  ℕ, suc, ◌+◌, ◌-◌, ◌^◌, ◌≤◌, ◌<◌, ◌≡◌, ap, ◌∙◌, none, some, List, ◌∷◌, arith, length, get_elem?,
  slice_exact, take, drop, get_elem?-lt-length, length-take, length-drop, sub64, add64_exact,
  sub64_exact,
}
use tiny_kv_practice.Raft.Types.{Entry, compacted}
use tiny_kv_practice.Raft.Log.Shape.{IsConsecutive, IsCompacted}
use tiny_kv_practice.Raft.Storage.{
  MemoryStorage, int_ge, last_index, first_index, entries_in, entries, term, to_storage,
}

-- Indices stay below 2^63, so that their differences are no negative `int`.
pub record IsOrdered (base : ℕ) (ms : MemoryStorage) : Type 0 where
  pub dummy : Entry
  pub rest : List Entry
  pub ents_eq : ms.ents ≡ dummy ∷ rest
  pub dummy_index : dummy.index ≡ base
  pub consecutive : IsConsecutive base rest
  pub small : base + length rest + 1 < 2 ^ 63

module _ {base : ℕ} {ms : MemoryStorage} (o : IsOrdered base ms) where
  pub last_index_lem : last_index ms ≡ some (base + length o.rest)
  unfolding last_index
  last_index_lem = rw o.ents_eq (
      ground (
        arith,
        o.dummy_index,
        o.small,
        add64_exact o.dummy.index (suc (length o.rest)),
        sub64_exact (o.dummy.index + suc (length o.rest)) 1,
      ))

  pub first_index_lem : first_index ms ≡ some (base + 1)
  unfolding first_index
  first_index_lem =
      rw o.ents_eq (ground (arith, o.dummy_index, o.small, add64_exact o.dummy.index 1))

  -- `Term` below the dummy, at it, and after it.
  pub term_below : (i : ℕ) → i < base → term ms i ≡ some (0, some compacted)
  unfolding term
  term_below i h = rw o.ents_eq (ground (arith, o.dummy_index))

  pub term_at_base : term ms base ≡ some (o.dummy.term, none)
  unfolding term int_ge
  term_at_base =
      rw o.ents_eq (ground (arith, o.dummy_index, sub64_exact base o.dummy.index, o.small))

  pub term_above :
      (i : ℕ) {e : Entry}
      → get_elem? o.rest i ≡ some e
      → base + i + 1 < 2 ^ 63
      → term ms (base + i + 1) ≡ some (e.term, none)
  unfolding term int_ge
  term_above i {e} h k =
      let place : sub64 (base + i + 1) o.dummy.index ≡ suc i =
        sub64_exact (base + i + 1) o.dummy.index (omega (arith, o.dummy_index)) (omega arith)
        ∙ omega (arith, o.dummy_index) in
      rw (o.ents_eq, place) (ground (arith, o.dummy_index, h, get_elem?-lt-length o.rest i h))

  -- So for an index after the base.
  pub term_after :
      (i : ℕ) {e : Entry}
      → base < i
      → get_elem? o.rest (i - base - 1) ≡ some e
      → term ms i ≡ some (e.term, none)
  term_after i h at =
      ap (term ms) (omega arith)
      ∙ term_above (i - base - 1) at
          (omega (arith, o.small, get_elem?-lt-length o.rest (i - base - 1) at))

  pub to_storage-IsCompacted : IsCompacted base (to_storage ms)
  unfolding to_storage
  to_storage-IsCompacted = record {
    below = term_below;
    base_term = o.dummy.term;
    at_base = term_at_base;
  }

  -- `Entries` returns the entries with lo ≤ index < hi.
  pub entries_lem :
      (lo hi : ℕ)
      → base < lo
      → lo ≤ hi
      → hi ≤ base + length o.rest + 1
      → entries ms lo hi ≡ some (drop (lo - base - 1) (take (hi - base - 1) o.rest), none)
  unfolding entries entries_in
  entries_lem lo hi a b c =
      let i = lo - base - 1 in
      let j = hi - base - 1 in
      let from : sub64 lo o.dummy.index ≡ suc i =
        sub64_exact lo o.dummy.index (omega (arith, o.dummy_index)) (omega (arith, o.small))
        ∙ omega (arith, o.dummy_index) in
      let to : sub64 hi o.dummy.index ≡ suc j =
        sub64_exact hi o.dummy.index (omega (arith, o.dummy_index)) (omega (arith, o.small))
        ∙ omega (arith, o.dummy_index) in
      let cut = slice_exact (o.dummy ∷ o.rest) (suc i) (suc j) (omega arith) (omega arith) in
      rw (last_index_lem, o.ents_eq, from, to, cut)
        (ground (
          arith,
          o.dummy_index,
          o.small,
          add64_exact (base + length o.rest) 1,
          length-drop i (take j o.rest),
          length-take j o.rest,
        ))
