-- ===== src/Raft/Step/Accepts.antt =====
-- What a follower has promised when it accepts entries (`handleAppendEntries` of raft/raft.go).
use tiny_kv_practice.Prelude.{
  ℕ, zero, suc, ◌+◌, ◌-◌, ◌≤◌, ◌<◌, ◌≡◌, ◌↔◌, refl, sym, ap, subst, ◌∙◌, Option, some, List, [],
  ◌∷◌, ◌++◌, arith, length, take, drop, get_elem?, length-take, get_elem?-append_right, ==_iff,
}
use mathlib.Core.Option.{some-injective}
use tiny_kv_practice.Raft.Types.{Entry, Message, Error}
use tiny_kv_practice.Raft.Util.{min64}
use tiny_kv_practice.Raft.Log.{term}
use tiny_kv_practice.Raft.Log.Shape.{IsConsecutive, IsConsecutive-get_elem?}
use tiny_kv_practice.Raft.Node.{Raft}
use tiny_kv_practice.Raft.Node.Valid.{IsValid}
use tiny_kv_practice.Raft.Step.{advance_commit, handle_append_entries}
use tiny_kv_practice.Raft.Step.Merge.{merge, Agrees, merge_terms}
use tiny_kv_practice.Raft.Step.Append.{
  AppendFits, merged_entries, new_commit, accept_entries_lem, handle_append_entries_match,
}

-- The message `m` continues the log of `r`: the entry before its entries is there, in the same term.
pub record Continues (base : ℕ) (r : Raft) (m : Message) : Type 0 where
  pub valid : IsValid base r
  pub fits : AppendFits base r.raft_log m
  pub inside : m.index ≤ base + length r.raft_log.entries
  pub error : Option Error
  pub matching : term r.raft_log m.index ≡ some (m.log_term, error)

-- The node after the message.
accepted :
    {base : ℕ} {r : Raft} {m : Message} {r' : Raft}
    → Continues base r m
    → handle_append_entries r m ≡ some r'
    → (r'.raft_log.entries ≡ merged_entries base r m)
      × (r'.raft_log.committed ≡ new_commit r m)
      × IsConsecutive base r'.raft_log.entries
accepted {base} {r} {m} {r'} c h =
    let (l, form, keeps, run) = accept_entries_lem base r m c.valid c.fits c.inside in
    let same =
      some-injective _ _
        (sym h ∙ handle_append_entries_match base r m c.valid c.inside c.matching ∙ run) in
    let entries_eq = ap (λ (x : Raft). x.raft_log.entries) same in
    (
      entries_eq ∙ form,
      ap (λ (x : Raft). x.raft_log.committed) same,
      subst (IsConsecutive base) (sym entries_eq) keeps.wf.consecutive,
    )

take-merge :
    (n : ℕ) (ls es : List Entry) → Agrees n ls es → n ≤ length ls → take n (merge ls es) ≡ take n ls
unfolding merge
take-merge zero ls es a h = refl
take-merge (suc n) [] es a h = absurd (omega arith)
take-merge (suc n) (l ∷ ls) [] a h = refl
take-merge (suc n) (l ∷ ls) (e ∷ es) a h =
    rw ((==_iff l.term e.term).1 a.0) (ap (◌∷◌ l) (take-merge n ls es a.1 (omega arith)))

take_split :
    (c k : ℕ) (ls es : List Entry)
    → Agrees (c - k) (drop k ls) es
    → k ≤ length ls
    → c ≤ length ls
    → take c (take k ls ++ merge (drop k ls) es) ≡ take c ls
take_split c zero ls es a h i = take-merge c ls es (subst (λ n. Agrees n ls es) (omega arith) a) i
take_split zero (suc k) ls es a h i = refl
take_split (suc c) (suc k) [] es a h i = absurd (omega arith)
take_split (suc c) (suc k) (l ∷ ls) es a h i =
    let fewer : Agrees (c - k) (drop k ls) es =
      subst (λ n. Agrees n (drop k ls) es) (omega arith) a in
    ap (◌∷◌ l) (take_split c k ls es fewer (omega arith) (omega arith))

-- After a message that continues the log is accepted, each entry of the message has an entry of the same
-- index and the same term in the log, at the place that belongs to the index.
pub accepted-matches :
    {base : ℕ} {r : Raft} {m : Message} {r' : Raft} (i : ℕ) {e : Entry}
    → Continues base r m
    → handle_append_entries r m ≡ some r'
    → get_elem? m.entries i ≡ some e
    → (x : Entry) × (get_elem? r'.raft_log.entries (e.index - base - 1) ≡ some x)
      × (x.index ≡ e.index)
      × (x.term ≡ e.term)
accepted-matches {base} {r} {m} {r'} i {e} c h at =
    let (form, _, order) = accepted c h in
    let k = m.index - base in
    let own = r.raft_log.entries in
    let (x, there, same) = merge_terms (drop k own) m.entries i at in
    let index = IsConsecutive-get_elem? m.index m.entries i c.fits.consecutive at in
    let kept : length (take k own) ≡ k = omega (arith, length-take k own, c.inside) in
    let place : e.index - base - 1 ≡ length (take k own) + i =
      omega (arith, index, kept, c.fits.base-le) in
    let found : get_elem? r'.raft_log.entries (e.index - base - 1) ≡ some x =
      rw (place, form)
        (get_elem?-append_right (take k own) (merge (drop k own) m.entries) i ∙ there) in
    (
      x,
      found,
      IsConsecutive-get_elem? base r'.raft_log.entries (e.index - base - 1) order found
          ∙ omega (arith, index, c.fits.base-le),
      same,
    )

-- And what was committed before is still there.
pub accepted_committed_prefix :
    {base : ℕ} {r : Raft} {m : Message} {r' : Raft}
    → Continues base r m
    → handle_append_entries r m ≡ some r'
    → take (r.raft_log.committed - base) r'.raft_log.entries
      ≡ take (r.raft_log.committed - base) r.raft_log.entries
accepted_committed_prefix {base} {r} {m} {r'} c h =
    let (form, _, _) = accepted c h in
    let k = m.index - base in
    let rest : r.raft_log.committed - m.index ≡ r.raft_log.committed - base - k =
      omega (arith, c.fits.base-le) in
    ap (take (r.raft_log.committed - base)) form
    ∙ take_split (r.raft_log.committed - base) k r.raft_log.entries m.entries
        (subst (λ n. Agrees n (drop k r.raft_log.entries) m.entries) rest c.fits.agrees)
        (omega (arith, c.inside)) (omega (arith, c.valid.committed-le))

-- The commit index goes back exactly when the message ends before it and the leader's is after it:
-- the test compares the two commit indices, and the result is cut to the end of the message.
pub accepted-lowers_iff :
    {base : ℕ} {r : Raft} {m : Message} {r' : Raft}
    → Continues base r m
    → handle_append_entries r m ≡ some r'
    → (r'.raft_log.committed < r.raft_log.committed)
      ↔ ((m.index + length m.entries < r.raft_log.committed) × (r.raft_log.committed < m.commit))
unfolding advance_commit min64
accepted-lowers_iff {r} {m} {r'} c h = let (_, now, _) = accepted c h in rw now (ground arith)
