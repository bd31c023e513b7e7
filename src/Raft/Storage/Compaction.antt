-- ===== src/Raft/Storage/Compaction.antt =====
-- Compacting a storage in memory (raft/storage.go).
use tiny_kv_practice.Prelude.{
  ℕ, suc, ◌+◌, ◌-◌, ◌≤◌, ◌<◌, ◌≡◌, refl, sym, ap, subst, ◌∙◌, none, some, ◌∷◌, arith, length,
  get_elem?, drop, get_elem?_lt, length-drop, get_elem?-drop, sub64, sub64_exact, dec_lt,
}
use tiny_kv_practice.Raft.Types.{Entry, no_entry}
use tiny_kv_practice.Raft.Log.Shape.{IsConsecutive, IsConsecutive-get_elem?, IsConsecutive-drop}
use tiny_kv_practice.Raft.Storage.{MemoryStorage, last_index, term, compact}
use tiny_kv_practice.Raft.Storage.Shape.{IsOrdered, last_index_lem, term_at_base, term_after}

compact_run :
    (base c : ℕ) (ms : MemoryStorage) {x : Entry} (o : IsOrdered base ms)
    → base < c
    → c ≤ base + length o.rest
    → get_elem? o.rest (c - base - 1) ≡ some x
    → compact ms c
      ≡ some (
        record ms {
          ents = record no_entry { index = x.index; term = x.term } ∷ drop (c - base) o.rest;
        },
        none,
      )
unfolding compact
compact_run base c ms {x} o lo hi at =
    let place : sub64 c o.dummy.index ≡ suc (c - base - 1) =
      sub64_exact c o.dummy.index (omega (arith, o.dummy_index)) (omega (arith, o.small))
      ∙ omega (arith, o.dummy_index) in
    let count : suc (c - base - 1) + 1 ≡ suc (c - base) = omega arith in
    rw (last_index_lem o, o.ents_eq, place, count) (ground (arith, o.dummy_index, at))

compact-IsOrdered :
    (base c : ℕ) (ms : MemoryStorage) {x : Entry} (o : IsOrdered base ms)
    → base < c
    → c ≤ base + length o.rest
    → get_elem? o.rest (c - base - 1) ≡ some x
    → IsOrdered c (record ms {
      ents = record no_entry { index = x.index; term = x.term } ∷ drop (c - base) o.rest;
    })
compact-IsOrdered base c ms {x} o lo hi at = record {
  dummy = record no_entry { index = x.index; term = x.term };
  rest = drop (c - base) o.rest;
  ents_eq = refl;
  dummy_index = omega (arith, IsConsecutive-get_elem? base o.rest (c - base - 1) o.consecutive at);
  consecutive =
      subst (λ b. IsConsecutive b (drop (c - base) o.rest)) (omega arith)
        (IsConsecutive-drop base (c - base) o.rest o.consecutive);
  small = omega (arith, o.small, length-drop (c - base) o.rest);
}

-- `Term` at the new dummy and after it is what it was.
compact_term :
    (base c i : ℕ) (ms ms' : MemoryStorage) (o : IsOrdered base ms) (o' : IsOrdered c ms')
    {x : Entry}
    → base < c
    → o'.rest ≡ drop (c - base) o.rest
    → o'.dummy.term ≡ x.term
    → get_elem? o.rest (c - base - 1) ≡ some x
    → c ≤ i
    → i ≤ base + length o.rest
    → term ms' i ≡ term ms i
compact_term base c i ms ms' o o' {x} lo form head at from to = elim (dec_lt c i) [
  | no here ↦
      subst (λ j. term ms' j ≡ term ms j) (omega arith)
        (term_at_base o' ∙ ap (λ t. some (t, none)) head ∙ sym (term_after o c lo at))
  | yes after ↦
      let (e, found) = get_elem?_lt o.rest (i - base - 1) (omega arith) in
      let found' =
        ap (λ l. get_elem? l (i - c - 1)) form
        ∙ get_elem?-drop (c - base) o.rest (i - c - 1)
        ∙ ap (get_elem? o.rest) (omega arith)
        ∙ found in
      term_after o' i after found' ∙ sym (term_after o i (omega arith) found)
]

-- Compacting to an index `c` inside the log succeeds: the storage is then in order from `c` on, it
-- still ends at the same index, and the term of an index `i` from `c` to the end is what it was.
pub compact_lem :
    (base c i : ℕ) (ms : MemoryStorage) (o : IsOrdered base ms)
    → base < c
    → c ≤ i
    → i ≤ base + length o.rest
    → (ms' : MemoryStorage) × (compact ms c ≡ some (ms', none))
      × IsOrdered c ms'
      × (last_index ms' ≡ last_index ms)
      × (term ms' i ≡ term ms i)
unfolding compact-IsOrdered
compact_lem base c i ms o lo from to =
    let (x, at) = get_elem?_lt o.rest (c - base - 1) (omega arith) in
    let o' = compact-IsOrdered base c ms o lo (omega arith) at in
    (
      _,
      compact_run base c ms o lo (omega arith) at,
      o',
      last_index_lem o'
          ∙ ap some (omega (arith, length-drop (c - base) o.rest))
          ∙ sym (last_index_lem o),
      compact_term base c i ms _ o o' lo refl refl at from to,
    )
