-- ===== src/Raft/Step/Rounds.antt =====
-- The loop of `handleAppendEntries` (raft/raft.go), round by round.
use tiny_kv_practice.Prelude.{
  ℕ, suc, ◌+◌, ◌-◌, ◌≤◌, ◌<◌, ◌≡◌, ◌≢◌, refl, ap, sym, subst, ◌∙◌, some, List, [], ◌∷◌, ◌++◌, arith,
  leb, if◌then◌else◌, length, get_elem?, take, drop, slice_exact, length-append, length-take,
  get_elem?_lt, take_of_length-le, get_elem?-lt-length, u64_mod, sub64_exact, le→leb, dec_lt,
  ℕ_discrete, take-append-drop,
}
use tiny_kv_practice.Raft.Types.{Entry}
use tiny_kv_practice.Raft.Log.{RaftLog}
use tiny_kv_practice.Raft.Log.Shape.{
  IsConsecutive, IsWf, last_index_lem, term_above, IsConsecutive-append, IsConsecutive-get_elem?,
  IsConsecutive-take,
}
use tiny_kv_practice.Raft.Step.{truncate_append, append_entry, append_entries}
use tiny_kv_practice.Raft.Step.Merge.{merge, merge_at_end, merge_same, merge_conflict, merge_past}

-- `IsWf` with the entries replaced, as far as the loop needs it.
pub record Keeps (base : ℕ) (l l' : RaftLog) : Type 0 where
  pub wf : IsWf base l'
  pub storage : l'.storage ≡ l.storage
  pub committed : l'.committed ≡ l.committed
  pub applied : l'.applied ≡ l.applied

-- The round for an entry past the end appends it.
append_entry_past :
    (base : ℕ) (l : RaftLog) (e : Entry)
    → IsWf base l
    → e.index ≡ base + length l.entries + 1
    → append_entry l e ≡ some (record l { entries = l.entries ++ e ∷ [] })
unfolding append_entry
append_entry_past base l e w p = rw (last_index_lem base l w) (ground arith)

-- The round for an entry that the log has, with the same term, changes nothing.
append_entry_same :
    (base : ℕ) (l : RaftLog) (e : Entry) {x : Entry}
    → IsWf base l
    → base < e.index
    → get_elem? l.entries (e.index - suc base) ≡ some x
    → x.term ≡ e.term
    → append_entry l e ≡ some l
unfolding append_entry
append_entry_same base l e w lo g p =
    let inside : e.index ≤ base + length l.entries =
      omega (arith, get_elem?-lt-length l.entries _ g) in
    rw (last_index_lem base l w, le→leb _ _ inside, term_above base e.index l w lo inside g)
      (ground arith)

-- The round for a conflicting entry cuts the log there.
append_entry_conflict :
    (base : ℕ) (l : RaftLog) (e : Entry) {x : Entry}
    → IsWf base l
    → base < e.index
    → get_elem? l.entries (e.index - suc base) ≡ some x
    → x.term ≢ e.term
    → append_entry l e
      ≡ some (record l {
        entries = take (e.index - suc base) l.entries ++ e ∷ [];
        stabled = if leb e.index l.stabled then e.index - 1 else l.stabled;
      })
unfolding append_entry truncate_append
append_entry_conflict base l e w lo g p =
    let inside : e.index ≤ base + length l.entries =
      omega (arith, get_elem?-lt-length l.entries _ g) in
    let (first, at_0) = get_elem?_lt l.entries 0 (omega arith) in
    let first_index = IsConsecutive-get_elem? base l.entries 0 w.consecutive at_0 in
    rw (last_index_lem base l w, le→leb _ _ inside, term_above base e.index l w lo inside g)
      (ground (
        arith,
        at_0,
        first_index,
        sub64_exact e.index first.index,
        sub64_exact e.index 1,
        w.small,
        slice_exact l.entries 0 (e.index - suc base),
      ))

-- The log after the loop, if the leader's entries begin at most one past the end.
abbrev pub Merged : ℕ → ℕ → RaftLog → List Entry → Type 0
Merged base k l es =
    (l' : RaftLog) × (append_entries l es ≡ some l')
    × Keeps base l l'
    × (l'.entries ≡ take k l.entries ++ merge (drop k l.entries) es)

Keeps-trans : {base : ℕ} {l m n : RaftLog} → Keeps base l m → Keeps base m n → Keeps base l n
Keeps-trans a b = record {
  wf = b.wf;
  storage = b.storage ∙ a.storage;
  committed = b.committed ∙ a.committed;
  applied = b.applied ∙ a.applied;
}

-- The log `l1` of the first round has `p` and `e`; the later rounds append behind them.
Merged-first :
    (base k : ℕ) (l l1 : RaftLog) (e : Entry) (es p : List Entry)
    → append_entry l e ≡ some l1
    → Keeps base l l1
    → l1.entries ≡ p ++ e ∷ []
    → length p ≡ k
    → take k l.entries ++ merge (drop k l.entries) (e ∷ es) ≡ (p ++ e ∷ []) ++ es
    → Merged base (suc k) l1 es
    → Merged base k l (e ∷ es)
unfolding append_entries
Merged-first base k l l1 e es p step keeps form len goal (l', run, keeps', form') =
    let full : length l1.entries ≡ suc k =
      omega (arith, ap length form, length-append p (e ∷ []), len) in
    (
      l',
      rw step run,
      Keeps-trans keeps keeps',
      form' ∙ merge_at_end (suc k) l1.entries es full ∙ ap (λ q. q ++ es) form ∙ sym goal,
    )

Keeps-refl : {base : ℕ} {l : RaftLog} → IsWf base l → Keeps base l l
Keeps-refl w = record { wf = w; storage = refl; committed = refl; applied = refl }

-- Replacing the entries from place `k` on by one entry with the index after them.
cut_append-IsWf :
    (base k stabled : ℕ) (l : RaftLog) (e : Entry)
    → IsWf base l
    → k ≤ length l.entries
    → e.index ≡ base + k + 1
    → base + k + 1 < u64_mod
    → base ≤ stabled
    → stabled ≤ base + k + 1
    → IsWf base (record l { entries = take k l.entries ++ e ∷ []; stabled = stabled })
cut_append-IsWf base k stabled l e w fits p room lo hi =
    let kept : length (take k l.entries) ≡ k = omega (arith, length-take k l.entries) in
    let total = length-append (take k l.entries) (e ∷ []) in
    record {
      consecutive =
          IsConsecutive-append base (take k l.entries) (e ∷ [])
            (IsConsecutive-take base k l.entries w.consecutive) (omega (arith, kept, p), tt);
      base-le = lo;
      stabled-le = omega (arith, kept, total);
      no_pending = w.no_pending;
      small = omega (arith, kept, total);
    }

past-Keeps :
    (base : ℕ) (l : RaftLog) (e : Entry)
    → IsWf base l
    → e.index ≡ base + length l.entries + 1
    → base + length l.entries + 1 < u64_mod
    → Keeps base l (record l { entries = l.entries ++ e ∷ [] })
past-Keeps base l e w p room =
    let wf =
      cut_append-IsWf base (length l.entries) l.stabled l e w (omega arith) p room w.base-le
        (omega (arith, w.stabled-le)) in
    record {
      wf =
          subst (λ q. IsWf base (record l { entries = q ++ e ∷ [] }))
            (take_of_length-le _ _ (omega arith)) wf;
      storage = refl;
      committed = refl;
      applied = refl;
    }

place : (base k : ℕ) (e : Entry) → e.index ≡ base + k + 1 → k ≡ e.index - suc base
place base k e p = omega arith

Merged-same :
    (base k : ℕ) (l : RaftLog) (e : Entry) (es : List Entry) {x : Entry}
    → IsWf base l
    → e.index ≡ base + k + 1
    → get_elem? l.entries k ≡ some x
    → x.term ≡ e.term
    → Merged base (suc k) l es
    → Merged base k l (e ∷ es)
unfolding append_entries
Merged-same base k l e es {x} w p g same (l', run, keeps, form) =
    let at = subst (λ j. get_elem? l.entries j ≡ some x) (place base k e p) g in
    (
      l',
      rw (append_entry_same base l e w (omega arith) at same) run,
      keeps,
      form ∙ sym (merge_same k l.entries es e g same),
    )

Merged-conflict :
    (base k : ℕ) (l : RaftLog) (e : Entry) (es : List Entry) {x : Entry}
    → IsWf base l
    → e.index ≡ base + k + 1
    → base + k + 1 < u64_mod
    → get_elem? l.entries k ≡ some x
    → x.term ≢ e.term
    → ((l1 : RaftLog) → IsWf base l1 → length l1.entries ≡ suc k → Merged base (suc k) l1 es)
    → Merged base k l (e ∷ es)
Merged-conflict base k l e es {x} w p room g differs ih =
    let at = subst (λ j. get_elem? l.entries j ≡ some x) (place base k e p) g in
    let inside = get_elem?-lt-length l.entries k g in
    let stabled = if leb e.index l.stabled then e.index - 1 else l.stabled in
    let l1 : RaftLog = record l { entries = take k l.entries ++ e ∷ []; stabled = stabled } in
    let wf =
      cut_append-IsWf base k stabled l e w (omega arith) p room (ground (arith, w.base-le))
        (ground arith) in
    let kept : length (take k l.entries) ≡ k = omega (arith, length-take k l.entries) in
    Merged-first base k l l1 e es (take k l.entries)
      (rw (place base k e p) (append_entry_conflict base l e w (omega arith) at differs))
      (record { wf = wf; storage = refl; committed = refl; applied = refl }) refl kept
      (merge_conflict k l.entries es e g differs)
      (ih l1 wf (omega (arith, kept, length-append (take k l.entries) (e ∷ []))))

Merged-past :
    (base : ℕ) (l : RaftLog) (e : Entry) (es : List Entry)
    → IsWf base l
    → e.index ≡ base + length l.entries + 1
    → base + length l.entries + 1 < u64_mod
    → ((l1 : RaftLog)
        → IsWf base l1
        → length l1.entries ≡ suc (length l.entries)
        → Merged base (suc (length l.entries)) l1 es)
    → Merged base (length l.entries) l (e ∷ es)
Merged-past base l e es w p room ih =
    let l1 : RaftLog = record l { entries = l.entries ++ e ∷ [] } in
    let keeps = past-Keeps base l e w p room in
    Merged-first base (length l.entries) l l1 e es l.entries (append_entry_past base l e w p) keeps
      refl refl (merge_past l.entries es e)
      (ih l1 keeps.wf (omega (arith, length-append l.entries (e ∷ []))))

-- The loop of `handleAppendEntries` over entries that follow the index `base + k` succeeds and lays
-- them over the log. It changes nothing but the entries and `stabled`.
pub append_entries-merge :
    (base k : ℕ) (l : RaftLog) (es : List Entry)
    → IsWf base l
    → k ≤ length l.entries
    → IsConsecutive (base + k) es
    → base + k + length es < u64_mod
    → Merged base k l es
unfolding append_entries merge
append_entries-merge base k l [] w fits c room =
    (l, refl, Keeps-refl w, sym (take-append-drop k l.entries))
append_entries-merge base k l (e ∷ es) w fits c room =
    let next : IsConsecutive (base + suc k) es =
      subst (λ b. IsConsecutive b es) (omega arith) c.1 in
    let p : e.index ≡ base + k + 1 = omega (arith, c.0) in
    let ih = λ (l1 : RaftLog) (w1 : IsWf base l1) (fits1 : suc k ≤ length l1.entries).
      append_entries-merge base (suc k) l1 es w1 fits1 next (omega arith) in
    elim (dec_lt k (length l.entries)) [
      | no past ↦
          let here : k ≡ length l.entries = omega arith in
          subst (λ j. Merged base j l (e ∷ es)) (sym here)
            (Merged-past base l e es w (omega arith) (omega arith)
              λ l1 w1 len. subst (λ j. Merged base (suc j) l1 es) here (ih l1 w1 (omega arith)))
      | yes inside ↦
          let (x, g) = get_elem?_lt l.entries k inside in
          elim (ℕ_discrete x.term e.term) [
            | yes same ↦ Merged-same base k l e es w p g same (ih l w inside)
            | no differs ↦
                Merged-conflict base k l e es w p (omega arith) g differs
                  λ l1 w1 len. ih l1 w1 (omega arith)
          ]
    ]
