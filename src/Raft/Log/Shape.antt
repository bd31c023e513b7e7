-- ===== src/Raft/Log/Shape.antt =====
-- The shape of a log: consecutive entries after a compacted prefix that ends at `base`. What
-- `LastIndex` and `Term` of raft/log.go answer for such a log.
use tiny_kv_practice.Prelude.{
  ℕ, zero, suc, ◌+◌, ◌-◌, ◌≤◌, ◌<◌, ◌≡◌, refl, ap, subst, none, some, List, [], ◌∷◌, ◌++◌, arith,
  length, get_elem?, take, drop, length-append, get_elem?_lt, u64_mod, sub64, sub64_exact, lt→ltb,
}
use tiny_kv_practice.Raft.Types.{Entry, compacted, unavailable}
use tiny_kv_practice.Raft.Storage.{Storage}
use tiny_kv_practice.Raft.Log.{
  RaftLog, last_entry_index, last_index_by, last_index, term_within, term,
}

-- The entries have the indices base + 1, base + 2 and so on.
abbrev pub IsConsecutive : ℕ → List Entry → Type 0
IsConsecutive base [] = Unit
IsConsecutive base (e ∷ es) = (e.index ≡ suc base) × IsConsecutive (suc base) es

pub record IsWf (base : ℕ) (l : RaftLog) : Type 0 where
  pub consecutive : IsConsecutive base l.entries
  pub base-le : base ≤ l.stabled
  pub stabled-le : l.stabled ≤ base + length l.entries
  pub no_pending : l.pending_snapshot ≡ none
  pub small : base + length l.entries < u64_mod

-- What a storage that is compacted up to `base` answers there and below.
pub record IsCompacted (base : ℕ) (s : Storage) : Type 0 where
  pub below : (i : ℕ) → i < base → s.term i ≡ some (0, some compacted)
  pub base_term : ℕ
  pub at_base : s.term base ≡ some (base_term, none)

pub IsConsecutive-get_elem? :
    (base : ℕ) (es : List Entry) (i : ℕ) {e : Entry}
    → IsConsecutive base es
    → get_elem? es i ≡ some e
    → e.index ≡ base + i + 1
IsConsecutive-get_elem? base [] i c h = cc
IsConsecutive-get_elem? base (x ∷ es) zero c h = ground arith
IsConsecutive-get_elem? base (x ∷ es) (suc i) c h =
    omega (arith, IsConsecutive-get_elem? (suc base) es i c.1 h)

pub IsConsecutive-append :
    (base : ℕ) (xs ys : List Entry)
    → IsConsecutive base xs
    → IsConsecutive (base + length xs) ys
    → IsConsecutive base (xs ++ ys)
IsConsecutive-append base [] ys cx cy = subst (λ b. IsConsecutive b ys) (omega arith) cy
IsConsecutive-append base (x ∷ xs) ys cx cy = (
  cx.0,
  IsConsecutive-append (suc base) xs ys cx.1 (subst (λ b. IsConsecutive b ys) (omega arith) cy),
)

pub IsConsecutive-take :
    (base n : ℕ) (xs : List Entry) → IsConsecutive base xs → IsConsecutive base (take n xs)
IsConsecutive-take base zero xs c = tt
IsConsecutive-take base (suc n) [] c = tt
IsConsecutive-take base (suc n) (x ∷ xs) c = (c.0, IsConsecutive-take (suc base) n xs c.1)

pub IsConsecutive-drop :
    (base n : ℕ) (xs : List Entry) → IsConsecutive base xs → IsConsecutive (base + n) (drop n xs)
IsConsecutive-drop base zero xs c = subst (λ b. IsConsecutive b xs) (omega arith) c
IsConsecutive-drop base (suc n) [] c = tt
IsConsecutive-drop base (suc n) (x ∷ xs) c =
    subst (λ b. IsConsecutive b (drop n xs)) (omega arith) (IsConsecutive-drop (suc base) n xs c.1)

pub last_entry_index_lem :
    (base : ℕ) (e : Entry) (es : List Entry)
    → IsConsecutive base (e ∷ es)
    → last_entry_index (e ∷ es) ≡ some (base + length (e ∷ es))
unfolding last_entry_index
last_entry_index_lem base e es c =
    let (x, found) = get_elem?_lt (e ∷ es) (length (e ∷ es) - 1) (omega arith) in
    rw found (ap some (omega (arith, IsConsecutive-get_elem? base (e ∷ es) _ c found)))

last_index_by_lem :
    (base stabled : ℕ) (es : List Entry)
    → IsConsecutive base es
    → base ≤ stabled
    → stabled ≤ base + length es
    → last_index_by es none stabled ≡ some (base + length es)
unfolding last_index_by
last_index_by_lem base stabled [] c lo hi = ap some (omega arith)
last_index_by_lem base stabled (e ∷ es) c lo hi = last_entry_index_lem base e es c

-- The last index of a log is the base plus the number of its entries.
pub last_index_lem :
    (base : ℕ) (l : RaftLog) → IsWf base l → last_index l ≡ some (base + length l.entries)
unfolding last_index
last_index_lem base l w =
    rw w.no_pending
      (last_index_by_lem base l.stabled l.entries w.consecutive w.base-le w.stabled-le)

-- Past the end, `Term` answers that the entry is unavailable.
pub term_beyond :
    (base i : ℕ) (l : RaftLog)
    → IsWf base l
    → base + length l.entries < i
    → term l i ≡ some (0, some unavailable)
unfolding term
term_beyond base i l w h = rw (last_index_lem base l w, lt→ltb _ _ h)

term_within_below :
    (base i : ℕ) (l : RaftLog) (es : List Entry)
    → IsConsecutive base es
    → i ≤ base
    → term_within l es i ≡ l.storage.term i
unfolding term_within
term_within_below base i l [] c h = refl
term_within_below base i l (e ∷ es) c h = ground arith

-- Up to the base, `Term` answers what the storage does.
pub term_below : (base i : ℕ) (l : RaftLog) → IsWf base l → i ≤ base → term l i ≡ l.storage.term i
unfolding term
term_below base i l w h =
    rw (last_index_lem base l w)
      (ground (arith, term_within_below base i l l.entries w.consecutive h))

term_within_above :
    (base i : ℕ) (l : RaftLog) (es : List Entry) {x : Entry}
    → IsConsecutive base es
    → base < i
    → i < u64_mod
    → get_elem? es (i - suc base) ≡ some x
    → term_within l es i ≡ some (x.term, none)
unfolding term_within
term_within_above base i l [] c h k g = cc
term_within_above base i l (e ∷ es) c h k g =
    let p : sub64 i e.index ≡ i - suc base = rw c.0 (sub64_exact i (suc base) h k) in
    ground (arith, g)

-- Between the base and the end, `Term` answers the term of the entry with that index.
pub term_above :
    (base i : ℕ) (l : RaftLog) {x : Entry}
    → IsWf base l
    → base < i
    → i ≤ base + length l.entries
    → get_elem? l.entries (i - suc base) ≡ some x
    → term l i ≡ some (x.term, none)
unfolding term
term_above base i l w h k g =
    let bound : i < u64_mod = omega (arith, w.small) in
    rw (last_index_lem base l w)
      (ground (arith, term_within_above base i l l.entries w.consecutive h bound g))

-- Entries with the indices after the end can be appended.
pub append-IsWf :
    (base : ℕ) (l : RaftLog) (es : List Entry)
    → IsWf base l
    → IsConsecutive (base + length l.entries) es
    → base + length l.entries + length es < u64_mod
    → IsWf base (record l { entries = l.entries ++ es })
append-IsWf base l es w c room = record {
  consecutive = IsConsecutive-append base l.entries es w.consecutive c;
  base-le = w.base-le;
  stabled-le = omega (arith, length-append l.entries es);
  no_pending = w.no_pending;
  small = omega (arith, length-append l.entries es);
}

-- The commit index is no part of the shape.
pub set_committed-IsWf :
    {base : ℕ} {l : RaftLog} (c : ℕ) → IsWf base l → IsWf base (record l { committed = c })
set_committed-IsWf c w = record {
  consecutive = w.consecutive;
  base-le = w.base-le;
  stabled-le = w.stabled-le;
  no_pending = w.no_pending;
  small = w.small;
}
