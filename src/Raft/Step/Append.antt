-- ===== src/Raft/Step/Append.antt =====
-- What `handleAppendEntries` of raft/raft.go does on each of its branches.
use tiny_kv_practice.Prelude.{
  ℕ, suc, ◌+◌, ◌-◌, ◌≤◌, ◌<◌, ◌≡◌, ◌≢◌, refl, sym, ap, subst, ◌∙◌, true, false, Option, none, some,
  List, [], ◌∷◌, ◌++◌, arith, length, u64_mod, add64, add64_exact, take, drop, length-append,
  length-take, length-drop, lt→ltb, dec_lt, ℕ_discrete, get_elem?_lt,
}
use tiny_kv_practice.Raft.Types.{Entry, Message, Error}
use tiny_kv_practice.Raft.Util.{min64}
use tiny_kv_practice.Raft.Log.{RaftLog, term}
use tiny_kv_practice.Raft.Log.Shape.{
  IsConsecutive, IsWf, IsCompacted, last_index_lem, term_above, term_below, term_beyond,
  set_committed-IsWf,
}
use tiny_kv_practice.Raft.Node.{Raft, push_msg}
use tiny_kv_practice.Raft.Node.Valid.{IsValid, Runs, Runs-pure, with_msgs, with_msgs-IsValid}
use tiny_kv_practice.Raft.Node.Roles.{adds, with_msgs-Evolves}
use tiny_kv_practice.Raft.Step.{
  append_response, advance_commit, accept_entries, handle_append_entries,
}
use tiny_kv_practice.Raft.Step.Merge.{merge, Agrees, length-merge-ge, length-merge_agree}
use tiny_kv_practice.Raft.Step.Rounds.{Keeps, append_entries-merge}

-- A message that a leader may send to this node: it begins after the compacted prefix, its entries
-- follow its index, and it contradicts no committed entry.
pub record AppendFits (base : ℕ) (l : RaftLog) (m : Message) : Type 0 where
  pub base-le : base ≤ m.index
  pub consecutive : IsConsecutive m.index m.entries
  pub room : m.index + length m.entries < u64_mod
  pub agrees : Agrees (l.committed - m.index) (drop (m.index - base) l.entries) m.entries

-- `Term` answers for every index.
pub term_total :
    (base i : ℕ) (l : RaftLog)
    → IsWf base l
    → IsCompacted base l.storage
    → (t : ℕ) × (err : Option Error) × (term l i ≡ some (t, err))
term_total base i l w c = elim (dec_lt base i) [
  | yes above ↦ elim (dec_lt (base + length l.entries) i) [
    | yes past ↦ (0, _, term_beyond base i l w past)
    | no inside ↦
        let (e, at) = get_elem?_lt l.entries (i - suc base) (omega arith) in
        (e.term, none, term_above base i l w above (omega arith) at)
  ]
  | no below ↦ elim (dec_lt i base) [
    | yes under ↦ (0, _, term_below base i l w (omega arith) ∙ c.below i under)
    | no here ↦ (
      c.base_term,
      none,
      term_below base i l w (omega arith) ∙ ap l.storage.term (omega arith) ∙ c.at_base,
    )
  ]
]

-- The log that an accepted message leaves.
abbrev pub merged_entries : ℕ → Raft → Message → List Entry
merged_entries base r m =
    let k = m.index - base in
    take k r.raft_log.entries ++ merge (drop k r.raft_log.entries) m.entries

abbrev pub new_commit : Raft → Message → ℕ
new_commit r m = advance_commit r.raft_log.committed m.commit (m.index + length m.entries)

pub accept_entries_lem :
    (base : ℕ) (r : Raft) (m : Message)
    → IsValid base r
    → AppendFits base r.raft_log m
    → m.index ≤ base + length r.raft_log.entries
    → (l : RaftLog) × (l.entries ≡ merged_entries base r m)
      × Keeps base r.raft_log l
      × (accept_entries r m
          ≡ some (
              push_msg
                (record r { raft_log = record l { committed = new_commit r m } })
                (append_response r m false (m.index + length m.entries))))
unfolding accept_entries
accept_entries_lem base r m v f inside =
    let (l, run, keeps, form) =
      append_entries-merge base (m.index - base) r.raft_log m.entries v.wf (omega arith)
        (subst (λ b. IsConsecutive b m.entries) (omega (arith, f.base-le)) f.consecutive)
        (omega (arith, f.base-le, f.room)) in
    (l, form, keeps, rw (run, add64_exact m.index (length m.entries) f.room, keeps.committed))

-- A message that begins past the end is refused with the place to go on from.
pub handle_append_entries_past :
    (base : ℕ) (r : Raft) (m : Message)
    → IsValid base r
    → base + length r.raft_log.entries < m.index
    → handle_append_entries r m
      ≡ some (push_msg r (append_response r m true (add64 (base + length r.raft_log.entries) 1)))
unfolding handle_append_entries
handle_append_entries_past base r m v h = rw (last_index_lem base r.raft_log v.wf, lt→ltb _ _ h)

-- One whose previous entry has another term here is refused.
pub handle_append_entries_mismatch :
    (base : ℕ) (r : Raft) (m : Message) {t : ℕ} {err : Option Error}
    → IsValid base r
    → m.index ≤ base + length r.raft_log.entries
    → term r.raft_log m.index ≡ some (t, err)
    → t ≢ m.log_term
    → handle_append_entries r m ≡ some (push_msg r (append_response r m true 0))
unfolding handle_append_entries
handle_append_entries_mismatch base r m v h known differs =
    rw (last_index_lem base r.raft_log v.wf, known) (ground arith)

-- Any other is accepted.
pub handle_append_entries_match :
    (base : ℕ) (r : Raft) (m : Message) {err : Option Error}
    → IsValid base r
    → m.index ≤ base + length r.raft_log.entries
    → term r.raft_log m.index ≡ some (m.log_term, err)
    → handle_append_entries r m ≡ accept_entries r m
unfolding handle_append_entries
handle_append_entries_match base r m v h known =
    rw (last_index_lem base r.raft_log v.wf, known) (ground arith)

new_commit-le :
    (c commit last_new last : ℕ)
    → c ≤ last
    → last_new ≤ last
    → advance_commit c commit last_new ≤ last
unfolding advance_commit min64
new_commit-le c commit last_new last h k = ground arith

-- The accepted log reaches the commit index and the last new entry.
merged_length :
    (base : ℕ) (r : Raft) (m : Message)
    → IsValid base r
    → AppendFits base r.raft_log m
    → m.index ≤ base + length r.raft_log.entries
    → (m.index + length m.entries ≤ base + length (merged_entries base r m))
      × (r.raft_log.committed ≤ base + length (merged_entries base r m))
merged_length base r m v f inside =
    let k = m.index - base in
    let own = r.raft_log.entries in
    let split = length-append (take k own) (merge (drop k own) m.entries) in
    let front = length-take k own in
    let back = length-drop k own in
    let new = length-merge-ge (drop k own) m.entries in
    let old =
      length-merge_agree (r.raft_log.committed - m.index) (drop k own) m.entries f.agrees
        (omega (arith, back, v.committed-le, f.base-le)) in
    (omega (arith, split, front, new, f.base-le), omega (arith, split, front, old, f.base-le))

pub accept_entries-Runs :
    {base : ℕ} {r : Raft} (m : Message)
    → IsValid base r
    → AppendFits base r.raft_log m
    → m.index ≤ base + length r.raft_log.entries
    → Runs base r (accept_entries r m)
accept_entries-Runs {base} {r} m v f inside =
    let (l, form, keeps, run) = accept_entries_lem base r m v f inside in
    let (new, old) = merged_length base r m v f inside in
    let c = new_commit r m in
    let bound =
      new_commit-le r.raft_log.committed m.commit (m.index + length m.entries) _ old new in
    let s : Raft = record r { raft_log = record l { committed = c } } in
    let valid : IsValid base s = record {
      wf = set_committed-IsWf c keeps.wf;
      compacted = subst (IsCompacted base) (sym keeps.storage) v.compacted;
      committed-le = omega (arith, bound, ap length form);
      own = v.own;
      own_eq = v.own_eq;
      active_term = v.active_term;
      next_words = v.next_words;
    } in
    let reply = append_response r m false (m.index + length m.entries) ∷ [] in
    rw run (
      Runs-pure (with_msgs s reply) (with_msgs-IsValid reply valid)
        (adds reply refl refl (omega arith) refl))

-- `handleAppendEntries` does not panic.
pub handle_append_entries-Runs :
    {base : ℕ} {r : Raft} (m : Message)
    → IsValid base r
    → AppendFits base r.raft_log m
    → Runs base r (handle_append_entries r m)
handle_append_entries-Runs {base} {r} m v f =
    elim (dec_lt (base + length r.raft_log.entries) m.index) [
      | yes past ↦
          let reply = append_response r m true (add64 (base + length r.raft_log.entries) 1) ∷ [] in
          rw (handle_append_entries_past base r m v past)
            (Runs-pure (with_msgs r reply) (with_msgs-IsValid reply v) (with_msgs-Evolves r reply))
      | no inside ↦
          let (t, err, known) = term_total base m.index r.raft_log v.wf v.compacted in
          elim (ℕ_discrete t m.log_term) [
            | yes same ↦
                rw
                  (handle_append_entries_match base r m v (omega arith)
                    (known ∙ ap (λ x. some (x, err)) same))
                  (accept_entries-Runs m v f (omega arith))
            | no differs ↦
                let reply = append_response r m true 0 ∷ [] in
                rw (handle_append_entries_mismatch base r m v (omega arith) known differs) (
                  Runs-pure (with_msgs r reply) (with_msgs-IsValid reply v)
                    (with_msgs-Evolves r reply))
          ]
    ]
