-- ===== src/Raft/Step/Merge.antt =====
-- What the loop of `handleAppendEntries` (raft/raft.go) does to a log: it lays the leader's entries
-- over the node's own, and cuts at the first conflict.
use mathlib.Core.List.{append_assoc}
use tiny_kv_practice.Prelude.{
  ℕ, zero, suc, ◌≤◌, ◌≡◌, ◌≢◌, refl, ap, ◌∙◌, some, List, [], ◌∷◌, ◌++◌, arith, ◌==◌, if◌then◌else◌,
  length, get_elem?, take, drop, drop_step, take_step, take_of_length-le, drop_of_length-le, ==_iff,
  Bool-cases, inl, inr,
}
use mathlib.Core.Option.{some-injective}
use tiny_kv_practice.Raft.Types.{Entry}

-- The leader's entries `es` laid over the own entries `ls`, both from the same index on: what agrees
-- in its term is kept, and from the first conflict on only the leader's entries remain.
unfoldable pub merge : List Entry → List Entry → List Entry
merge ls [] = ls
merge [] (e ∷ es) = e ∷ es
merge (l ∷ ls) (e ∷ es) = if l.term == e.term then l ∷ merge ls es else e ∷ es

-- The first `n` of the own entries have the terms of the leader's.
abbrev pub Agrees : ℕ → List Entry → List Entry → Type 0
Agrees zero ls es = Unit
Agrees (suc n) [] es = Unit
Agrees (suc n) (l ∷ ls) [] = Unit
Agrees (suc n) (l ∷ ls) (e ∷ es) = (l.term ≡ e.term) × Agrees n ls es

pub length-merge-ge : (ls es : List Entry) → length es ≤ length (merge ls es)
unfolding merge
length-merge-ge ls [] = omega arith
length-merge-ge [] (e ∷ es) = omega arith
length-merge-ge (l ∷ ls) (e ∷ es) = ground (arith, length-merge-ge ls es)

-- Agreeing entries survive the merge.
pub length-merge_agree :
    (n : ℕ) (ls es : List Entry) → Agrees n ls es → n ≤ length ls → n ≤ length (merge ls es)
unfolding merge
length-merge_agree zero ls es a h = omega arith
length-merge_agree (suc n) [] es a h = absurd (omega arith)
length-merge_agree (suc n) (l ∷ ls) [] a h = h
length-merge_agree (suc n) (l ∷ ls) (e ∷ es) a h =
    ground (arith, a.0, length-merge_agree n ls es a.1)

-- After the merge, the log has the terms of the leader's entries.
pub merge_terms :
    (ls es : List Entry) (i : ℕ) {e : Entry}
    → get_elem? es i ≡ some e
    → (x : Entry) × (get_elem? (merge ls es) i ≡ some x) × (x.term ≡ e.term)
unfolding merge
merge_terms ls [] i h = cc
merge_terms [] (e ∷ es) i {e = f} h = (f, h, refl)
merge_terms (l ∷ ls) (e ∷ es) zero {e = f} h = elim (Bool-cases (l.term == e.term)) [
  | inr differs ↦ rw differs (f, h, refl)
  | inl same ↦
      rw same
        (l, refl, (==_iff l.term e.term).0 same ∙ ap (λ (x : Entry). x.term) (some-injective _ _ h))
]
merge_terms (l ∷ ls) (e ∷ es) (suc i) {e = f} h = elim (Bool-cases (l.term == e.term)) [
  | inr differs ↦ rw differs (f, h, refl)
  | inl same ↦ rw same (merge_terms ls es i h)
]

pub merge-nil : (es : List Entry) → merge [] es ≡ es
unfolding merge
merge-nil [] = refl
merge-nil (e ∷ es) = refl

-- Behind the last own entry, only the leader's entries remain.
pub merge_at_end :
    (k : ℕ) (p es : List Entry) → length p ≡ k → take k p ++ merge (drop k p) es ≡ p ++ es
merge_at_end k p es h =
    rw (take_of_length-le k p (omega arith), drop_of_length-le k p (omega arith), merge-nil es)

pub merge_same :
    (k : ℕ) (ls es : List Entry) (e : Entry) {x : Entry}
    → get_elem? ls k ≡ some x
    → x.term ≡ e.term
    → take k ls ++ merge (drop k ls) (e ∷ es) ≡ take (suc k) ls ++ merge (drop (suc k) ls) es
unfolding merge
merge_same k ls es e {x} g p =
    rw (drop_step ls k g, take_step ls k g, (==_iff x.term e.term).1 p, append_assoc)

pub merge_conflict :
    (k : ℕ) (ls es : List Entry) (e : Entry) {x : Entry}
    → get_elem? ls k ≡ some x
    → x.term ≢ e.term
    → take k ls ++ merge (drop k ls) (e ∷ es) ≡ (take k ls ++ e ∷ []) ++ es
unfolding merge
merge_conflict k ls es e {x} g p = rw (drop_step ls k g, append_assoc) (ground arith)

pub merge_past :
    (ls es : List Entry) (e : Entry)
    → take (length ls) ls ++ merge (drop (length ls) ls) (e ∷ es) ≡ (ls ++ e ∷ []) ++ es
merge_past ls es e = rw (merge_at_end (length ls) ls (e ∷ es) refl, append_assoc)
