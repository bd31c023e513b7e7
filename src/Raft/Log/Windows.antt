-- ===== src/Raft/Log/Windows.antt =====
-- The two windows of raft/log.go on the entries: what is to be persisted, and what is to be applied.
use tiny_kv_practice.Prelude.{
  ℕ, zero, suc, ◌+◌, ◌-◌, ◌≤◌, ◌<◌, ◌≡◌, refl, ap, sym, ◌∙◌, ◌&&◌, some, List, [], ◌∷◌, arith, ltb,
  leb, length, take, drop, select, slice_exact, u64_mod, add64_exact, sub64_exact, le→leb,
  length-take, take_of_length-le, drop_of_length-le, dec_lt,
}
use tiny_kv_practice.Raft.Types.{Entry}
use tiny_kv_practice.Raft.Log.{RaftLog, unstable_by, next_by, unstable_entries, next_ents}
use tiny_kv_practice.Raft.Log.Shape.{IsConsecutive, IsWf, last_entry_index_lem}

-- The entries with lo < index ≤ hi.
abbrev pub between : ℕ → ℕ → List Entry → List Entry
between lo hi = select (λ e. ltb lo e.index && leb e.index hi)

drop-nil {ℓ} : {A : Type ℓ} (n : ℕ) → drop {A = A} n [] ≡ []
drop-nil zero = refl
drop-nil (suc n) = refl

take-nil {ℓ} : {A : Type ℓ} (n : ℕ) → take {A = A} n [] ≡ []
take-nil zero = refl
take-nil (suc n) = refl

sub_zero : (a b : ℕ) → a ≤ b → a - b ≡ 0
sub_zero a b h = omega arith

sub_suc : (a b : ℕ) → b < a → a - b ≡ suc (a - suc b)
sub_suc a b h = omega arith

between-nil :
    (base lo hi : ℕ) (es : List Entry) → IsConsecutive base es → hi ≤ base → between lo hi es ≡ []
between-nil base lo hi [] c h = refl
between-nil base lo hi (e ∷ es) c h = ground (arith, between-nil (suc base) lo hi es c.1)

-- In a consecutive log the window is a slice.
pub between-drop-take :
    (base lo hi : ℕ) (es : List Entry)
    → IsConsecutive base es
    → between lo hi es ≡ drop (lo - base) (take (hi - base) es)
between-drop-take base lo hi [] c = sym (ap (drop (lo - base)) (take-nil (hi - base)) ∙ drop-nil _)
between-drop-take base lo hi (e ∷ es) c = elim (dec_lt base hi) [
  | no below ↦
      between-nil base lo hi (e ∷ es) c (omega arith)
      ∙ sym (rw (sub_zero hi base (omega arith)) (drop-nil (lo - base)))
  | yes inside ↦
      let ih = between-drop-take (suc base) lo hi es c.1 in
      elim (dec_lt base lo) [
        | yes past ↦ rw (sub_suc hi base inside, sub_suc lo base past) (ground (arith, ih, c.0))
        | no here ↦
            rw (sub_suc hi base inside, sub_zero lo base (omega arith))
              (ground (arith, ih, c.0, sub_zero lo (suc base)))
      ]
]

unstable_by_lem :
    (base stabled : ℕ) (es : List Entry)
    → IsConsecutive base es
    → base ≤ stabled
    → stabled ≤ base + length es
    → base + length es < u64_mod
    → unstable_by es stabled ≡ some (drop (stabled - base) es)
unfolding unstable_by
unstable_by_lem base stabled [] c lo hi k = ap some (sym (drop-nil (stabled - base)))
unstable_by_lem base stabled (e ∷ es) c lo hi k =
    rw (last_entry_index_lem base e es c) (elim (dec_lt stabled (base + length (e ∷ es))) [
      | no all ↦
          rw (le→leb (base + length (e ∷ es)) stabled (omega arith))
            (ap some (sym (drop_of_length-le (stabled - base) (e ∷ es) (omega arith))))
      | yes some_new ↦ elim (dec_lt base stabled) [
        | no none_kept ↦ ground (arith, c.0, sub_zero stabled base)
        | yes some_kept ↦ ground (
          arith,
          c.0,
          sub64_exact stabled e.index,
          add64_exact (stabled - e.index) 1,
          slice_exact (e ∷ es) (stabled - base) (length (e ∷ es)),
          take_of_length-le (length (e ∷ es)) (e ∷ es),
        )
      ]
    ])

-- `unstableEntries` returns exactly the entries that are not persisted, in order.
pub unstable_entries-eq-between :
    (base : ℕ) (l : RaftLog)
    → IsWf base l
    → unstable_entries l ≡ some (between l.stabled (base + length l.entries) l.entries)
unfolding unstable_entries
unstable_entries-eq-between base l w =
    unstable_by_lem base l.stabled l.entries w.consecutive w.base-le w.stabled-le w.small
    ∙ ap some (
        sym (
          between-drop-take base l.stabled (base + length l.entries) l.entries w.consecutive
          ∙ ap (drop (l.stabled - base)) (take_of_length-le _ l.entries (omega arith))))

next_by_lem :
    (base applied committed : ℕ) (es : List Entry)
    → IsConsecutive base es
    → applied + 1 < u64_mod
    → committed ≤ base + length es
    → base + length es < u64_mod
    → next_by es applied committed ≡ some (between applied committed es)
unfolding next_by
next_by_lem base applied committed [] c a hi k = refl
next_by_lem base applied committed (e ∷ es) c a hi k =
    rw (between-drop-take base applied committed (e ∷ es) c) (elim (dec_lt base committed) [
      | no nothing ↦ ground (
        arith,
        c.0,
        add64_exact applied 1,
        sub_zero committed base,
        drop-nil {A = Entry} (applied - base),
      )
      | yes something ↦ elim (dec_lt base applied) [
        | no early ↦ ground (
          arith,
          c.0,
          add64_exact applied 1,
          sub64_exact e.index e.index,
          sub64_exact committed e.index,
          add64_exact (committed - e.index) 1,
          slice_exact (e ∷ es) 0 (committed - base),
          sub_zero applied base,
        )
        | yes late ↦ elim (dec_lt committed (applied + 1)) [
          | yes done ↦ ground (
            arith,
            c.0,
            add64_exact applied 1,
            drop_of_length-le (applied - base) (take (committed - base) (e ∷ es)),
            length-take (committed - base) (e ∷ es),
          )
          | no open_ ↦ ground (
            arith,
            c.0,
            add64_exact applied 1,
            sub64_exact (applied + 1) e.index,
            sub64_exact committed e.index,
            add64_exact (committed - e.index) 1,
            slice_exact (e ∷ es) (applied - base) (committed - base),
          )
        ]
      ]
    ])

-- `nextEnts` returns exactly the entries that are committed and not applied, in order.
pub next_ents-eq-between :
    (base : ℕ) (l : RaftLog)
    → IsWf base l
    → l.applied + 1 < u64_mod
    → l.committed ≤ base + length l.entries
    → next_ents l ≡ some (between l.applied l.committed l.entries)
unfolding next_ents
next_ents-eq-between base l w a h =
    next_by_lem base l.applied l.committed l.entries w.consecutive a h w.small
