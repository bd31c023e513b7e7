-- ===== src/Raft/Node/Sends.antt =====
-- What `sendAppend` of raft/raft.go sends.
use tiny_kv_practice.Prelude.{
  ℕ, zero, suc, ◌+◌, ◌-◌, ◌≤◌, ◌<◌, ◌≡◌, ◌⊎◌, inl, inr, ap, ◌∙◌, Bool, true, false, none, some,
  List, [], ◌∷◌, ◌++◌, map, arith, length, drop, get_elem?_lt, drop_step, drop_of_length-le,
  u64_mod, sub64, add64_exact, sub64_exact, sub64_wraps, dec_lt, All, Bool-cases, ◌==◌,
}
use tiny_kv_practice.Prelude.Maps.{lookup, All-lookup}
use tiny_kv_practice.Raft.Types.{
  Entry, no_entry, Message, message, msg_append, Error, unavailable, compacted,
}
use tiny_kv_practice.Raft.Log.{term}
use tiny_kv_practice.Raft.Log.Shape.{
  IsConsecutive, IsConsecutive-get_elem?, IsWf, IsCompacted, last_index_lem, term_above, term_below,
  term_beyond,
}
use tiny_kv_practice.Raft.Node.Valid.{
  IsValid, with_msgs, with_msgs-IsValid, with_msgs-nil, with_msgs-append,
}
use tiny_kv_practice.Raft.Node.{
  Progress, Raft, copy_entries, append_message, send_append, append_to_other, broadcast_append,
}

-- What a follower receives of an entry: the type is lost.
abbrev pub copied : Entry → Entry
copied e = record no_entry { index = e.index; term = e.term; payload = e.payload }

copy_entries_lem :
    (base rounds i : ℕ) (log : List Entry)
    → IsConsecutive base log
    → base < i
    → i + rounds ≡ base + length log + 1
    → base + length log + 1 < u64_mod
    → copy_entries log rounds i ≡ some (map copied (drop (i - suc base) log))
unfolding copy_entries
copy_entries_lem base zero i log c lo p room =
    rw (drop_of_length-le (i - suc base) log (omega arith))
copy_entries_lem base (suc rounds) i log c lo p room =
    let (first, at_0) = get_elem?_lt log 0 (omega arith) in
    let (e, at_i) = get_elem?_lt log (i - suc base) (omega arith) in
    let first_index : first.index ≡ base + 0 + 1 = IsConsecutive-get_elem? base log 0 c at_0 in
    let ih = copy_entries_lem base rounds (i + 1) log c (omega arith) (omega arith) room in
    let index : sub64 i first.index ≡ i - suc base =
      sub64_exact i first.index (omega (arith, first_index)) (omega arith)
      ∙ omega (arith, first_index) in
    let following : i + 1 - suc base ≡ suc (i - suc base) = omega arith in
    rw (at_0, index, at_i, add64_exact i 1 (omega arith), ih, following, drop_step log _ at_i)

-- The message that `sendAppend` makes for a peer whose next index is inside the log or at its end.
abbrev pub append_for : ℕ → Raft → ℕ → Progress → ℕ → Message
append_for base r to pr prev_term = record (message msg_append to r.id r.term) {
  index = pr.next - 1;
  log_term = prev_term;
  entries = map copied (drop (pr.next - suc base) r.raft_log.entries);
  commit = r.raft_log.committed;
}

module _ (base : ℕ) (r : Raft) (to : ℕ) (pr : Progress) (w : IsWf base r.raft_log)
    (c : IsCompacted base r.raft_log.storage) (found : lookup to r.prs ≡ some pr)
    (room : base + length r.raft_log.entries + 1 < u64_mod) where
  append_message_lem :
      (prev_term : ℕ)
      → base < pr.next
      → pr.next ≤ base + length r.raft_log.entries + 1
      → append_message r to pr (pr.next - 1) prev_term ≡ some (append_for base r to pr prev_term)
  unfolding append_message
  append_message_lem prev_term lo hi = rw (
    last_index_lem base r.raft_log w,
    copy_entries_lem base (base + length r.raft_log.entries + 1 - pr.next) pr.next
        r.raft_log.entries w.consecutive lo (omega arith) room,
  )

  send_append_known :
      (prev_term : ℕ)
      → term r.raft_log (pr.next - 1) ≡ some (prev_term, none)
      → base < pr.next
      → pr.next ≤ base + length r.raft_log.entries + 1
      → send_append r to ≡ some (with_msgs r (append_for base r to pr prev_term ∷ []), true)
  unfolding send_append
  send_append_known prev_term known lo hi =
      let exact = sub64_exact pr.next 1 (omega arith) (omega arith) in
      rw (
        found,
        ap (term r.raft_log) exact ∙ known,
        ap (λ prev. append_message r to pr prev prev_term) exact
            ∙ append_message_lem prev_term lo hi,
      )

  -- A peer whose next index is after the compacted prefix and at most one past the end is sent, with the
  -- term of the entry before that index, each entry from that index on as `copied` makes it: with
  -- its index, term and data, and the type of a normal entry.
  pub send_append-some :
      base < pr.next
      → pr.next ≤ base + length r.raft_log.entries + 1
      → (prev_term : ℕ) × (term r.raft_log (pr.next - 1) ≡ some (prev_term, none))
        × (send_append r to ≡ some (with_msgs r (append_for base r to pr prev_term ∷ []), true))
  send_append-some lo hi = elim (dec_lt base (pr.next - 1)) [
    | yes inside ↦
        let (e, at) = get_elem?_lt r.raft_log.entries (pr.next - 1 - suc base) (omega arith) in
        let known = term_above base (pr.next - 1) r.raft_log w inside (omega arith) at in
        (e.term, known, send_append_known e.term known lo hi)
    | no first ↦
        let known =
          term_below base (pr.next - 1) r.raft_log w (omega arith)
          ∙ ap r.raft_log.storage.term (omega arith)
          ∙ c.at_base in
        (c.base_term, known, send_append_known c.base_term known lo hi)
  ]

  send_append_unknown :
      (err : Error)
      → term r.raft_log (sub64 pr.next 1) ≡ some (0, some err)
      → send_append r to ≡ some (r, false)
  unfolding send_append
  send_append_unknown err known = rw (found, known)

  -- A peer whose next index is compacted, or more than one past the end of the log, is sent nothing.
  pub send_append-none :
      pr.next < u64_mod
      → (pr.next ≤ base) ⊎ (base + length r.raft_log.entries + 1 < pr.next)
      → send_append r to ≡ some (r, false)
  send_append-none small (inr past) = send_append_unknown unavailable (
      term_beyond base (sub64 pr.next 1) r.raft_log w
        (omega (arith, sub64_exact pr.next 1 (omega arith) small)))
  send_append-none small (inl before) = elim (dec_lt 0 pr.next) [
    | no zero_next ↦
        send_append_unknown unavailable
          (term_beyond base (sub64 pr.next 1) r.raft_log w (omega (arith, sub64_wraps pr.next 1)))
    | yes positive ↦
        let exact = sub64_exact pr.next 1 positive small in
        send_append_unknown compacted (
          term_below base (sub64 pr.next 1) r.raft_log w (omega (arith, exact))
          ∙ c.below (sub64 pr.next 1) (omega (arith, exact)))
  ]

-- The room that a step may need: two more entries, whose indices are words.
abbrev pub HasRoom : ℕ → Raft → ℕ → Type 0
HasRoom base r n = base + length r.raft_log.entries + n < u64_mod

-- `sendAppend` to a peer does not panic, and only adds to the outbox.
pub send_append_adds :
    (base : ℕ) (r : Raft) (to : ℕ) (pr : Progress)
    → IsValid base r
    → HasRoom base r 1
    → lookup to r.prs ≡ some pr
    → (sent : List Message) × (done : Bool) × (send_append r to ≡ some (with_msgs r sent, done))
send_append_adds base r to pr v room found =
    let last = base + length r.raft_log.entries in
    let word = All-lookup (λ e. e.1.next < u64_mod) to r.prs v.next_words found in
    elim (dec_lt base pr.next) [
      | no before ↦ (
        [],
        false,
        send_append-none base r to pr v.wf v.compacted found room word (inl (omega arith))
            ∙ ap (λ x. some (x, false)) (with_msgs-nil r),
      )
      | yes after ↦ elim (dec_lt (last + 1) pr.next) [
        | yes past ↦ (
          [],
          false,
          send_append-none base r to pr v.wf v.compacted found room word (inr past)
              ∙ ap (λ x. some (x, false)) (with_msgs-nil r),
        )
        | no inside ↦
            let (t, known, sends) =
              send_append-some base r to pr v.wf v.compacted found room after (omega arith) in
            (append_for base r to pr t ∷ [], true, sends)
      ]
    ]

-- The peers of a list are all known.
abbrev pub AreKnown : Raft → List ℕ → Type 0
AreKnown r ids = All (λ id. (pr : Progress) × (lookup id r.prs ≡ some pr)) ids

append_to_other_adds :
    (base : ℕ) (r : Raft) (id : ℕ) (pr : Progress)
    → IsValid base r
    → HasRoom base r 1
    → lookup id r.prs ≡ some pr
    → (sent : List Message) × (append_to_other r id ≡ some (with_msgs r sent))
unfolding append_to_other
append_to_other_adds base r id pr v room found = elim (Bool-cases (id == r.id)) [
  | inl self ↦ ([], rw self (ap some (with_msgs-nil r)))
  | inr other ↦
      let (sent, done, sends) = send_append_adds base r id pr v room found in
      (sent, rw (other, sends))
]

-- So does the broadcast to known peers.
pub broadcast_append_adds :
    (base : ℕ) (r : Raft) (ids : List ℕ)
    → IsValid base r
    → HasRoom base r 1
    → AreKnown r ids
    → (sent : List Message) × (broadcast_append r ids ≡ some (with_msgs r sent))
unfolding broadcast_append
broadcast_append_adds base r [] v room known = ([], ap some (with_msgs-nil r))
broadcast_append_adds base r (id ∷ ids) v room known =
    let (first, step) = append_to_other_adds base r id known.0.0 v room known.0.1 in
    let (rest, run) =
      broadcast_append_adds base (with_msgs r first) ids (with_msgs-IsValid first v) room known.1 in
    (first ++ rest, rw (step, run, with_msgs-append))
