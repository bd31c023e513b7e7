-- ===== src/Scheduler/Ids/Fresh.antt =====
-- A whole call of Alloc (scheduler/server/id/id.go) is a sequence of the steps of a member.
use tiny_kv_practice.Prelude.{
  ℕ, ◌+◌, ◌*◌, ◌≤◌, ◌<◌, ◌≡◌, ◌≢◌, ◌⊎◌, inl, inr, refl, sym, ◌∙◌, subst, Bool, true, false, Option,
  none, some, ◌∷◌, ◌==◌, All, arith, Bool-cases, Option-cases, u64_mod,
}
use tiny_kv_practice.Scheduler.TypeUtil.{Bytes}
use tiny_kv_practice.Scheduler.Ids.{
  Txn, Answer, answered, failed, Etcd, Allocator, alloc_step, alloc_id_path, generate_txn,
  if_committed, commit_new, with_value, generate, issue, alloc, refill, take_id,
}
use tiny_kv_practice.Scheduler.Ids.Windows.{set_at, Distinct}
use tiny_kv_practice.Scheduler.Ids.Unique.{
  stored, System, counter, take, ask, grant, other, Reaches, here, next, writes, start,
  generate_txn_lem, Reaches-Distinct,
}

Answer-cases : {A : Type 0} (a : Answer A) → ((x : A) × (a ≡ answered x)) ⊎ (a ≡ failed)
Answer-cases (answered x) = inl (x, refl)
Answer-cases failed = inr refl

module _ (e : Etcd) (root : Bytes) (members : ℕ → Bytes) (s : System e root members) (i : ℕ)
    (between : e.State → e.State) (idle : s.read i ≡ none) where
  abbrev result : e.State × Allocator × Option ℕ
  result = alloc e root (members i) between s.store (s.who i)

  -- What a call does to the ids that have been given out.
  abbrev Given : Option ℕ → System e root members → Type 0
  Given none t = t.issued ≡ s.issued
  Given (some id) t = t.issued ≡ id ∷ s.issued

  pub record Call (r : e.State × Allocator × Option ℕ) : Type 0 where
    pub after : System e root members
    pub steps : Reaches e root members s after
    pub few : writes e root members steps ≤ 1
    pub store_eq : after.store ≡ r.0
    pub who_eq : after.who i ≡ r.1
    pub given : Given r.2 after

  -- No id, or such a call
  abbrev pub Result : e.State × Allocator × Option ℕ → Type 0
  Result r = (r.2 ≡ none) ⊎ Call r

  local : ((s.who i).base == (s.who i).end) ≡ false → Call result
  unfolding alloc
  local more = rw more (record {
    after = record s {
      who = set_at i (take_id (s.who i)).0 s.who;
      issued = (take_id (s.who i)).1 ∷ s.issued;
    };
    steps = next here (take i idle more);
    few = omega arith;
    store_eq = refl;
    who_eq = ground arith;
    given = refl;
  })

  module _ (empty : ((s.who i).base == (s.who i).end) ≡ true) (v : Option Bytes)
      (got : e.get s.store (alloc_id_path root) ≡ answered v) where
    abbrev asked : System e root members
    asked = record s { read = set_at i (some v) s.read }

    reading : asked.read i ≡ some v
    reading = ground arith

    abbrev waited : System e root members
    waited = record asked { store = between s.store }

    module _ (end : ℕ) (txn : Txn) (g : generate_txn root (members i) v ≡ some (end, txn)) where
      -- A write that is done found the counter as it was read, whatever happened in between.
      unchanged :
          (t : e.State)
          → e.commit (between s.store) txn ≡ (t, answered true)
          → counter e root members (between s.store) ≡ counter e root members s.store
      unchanged t done =
          (generate_txn_lem e root members (members i) v g).3 (between s.store)
            (e.commit_done (between s.store) t txn done).0
          ∙ e.get_lem s.store (alloc_id_path root) v got

      granted_at :
          (t : e.State)
          → e.commit (between s.store) txn ≡ (t, answered true)
          → Call (issue e root (members i) (s.who i) (t, some end))
      granted_at t done = record {
        after = record {
          store = t;
          who = set_at i (take_id (refill (s.who i) end)).0 s.who;
          read = set_at i none waited.read;
          issued = (take_id (refill (s.who i) end)).1 ∷ s.issued;
        };
        steps =
            next
              (next (next here (ask i v idle empty got))
                (other (between s.store) (unchanged t done)))
              (grant i end v txn t reading g done);
        few = omega arith;
        store_eq = refl;
        who_eq = ground arith;
        given = refl;
      }

      of_commit :
          (p : e.State × Answer Bool)
          → e.commit (between s.store) txn ≡ p
          → Result (issue e root (members i) (s.who i) (if_committed e root (members i) end p))
      of_commit (u, answered true) h = inr (granted_at u h)
      of_commit (u, answered false) h = inl refl
      of_commit (u, failed) h = inl refl

  after_read :
      ((s.who i).base == (s.who i).end) ≡ true
      → (v : Option Bytes) → e.get s.store (alloc_id_path root) ≡ answered v
      → Result (issue e root (members i) (s.who i) (generate e root (members i) between s.store))
  unfolding generate
  after_read empty v got =
      let m = members i in
      subst (λ o. Result (issue e root m (s.who i) (with_value e root m between s.store o)))
        (sym got)
        (elim (Option-cases (generate_txn root m v)) [
          | inl bad ↦
              subst (λ o. Result (issue e root m (s.who i) (commit_new e root m between s.store o)))
                (sym bad) (inl refl)
          | inr ((end, txn), g) ↦
              subst (λ o. Result (issue e root m (s.who i) (commit_new e root m between s.store o)))
                (sym g) (of_commit empty v got end txn g (e.commit (between s.store) txn) refl)
        ])

  not_read :
      e.get s.store (alloc_id_path root) ≡ failed
      → Result (issue e root (members i) (s.who i) (generate e root (members i) between s.store))
  unfolding generate
  not_read lost =
      subst
        (λ o.
          Result
            (issue e root (members i) (s.who i) (with_value e root (members i) between s.store o)))
        (sym lost) (inl refl)

  -- A call of Alloc returns no id, or is a sequence of steps with one write at most.
  pub alloc-Result : Result result
  unfolding alloc
  alloc-Result = elim (Bool-cases ((s.who i).base == (s.who i).end)) [
    | inr more ↦ inr (local more)
    | inl empty ↦ rw empty (elim (Answer-cases (e.get s.store (alloc_id_path root))) [
      | inl (v, got) ↦ after_read empty v got
      | inr lost ↦ not_read lost
    ])
  ]

Reaches-trans :
    {e : Etcd} {root : Bytes} {members : ℕ → Bytes} {r s t : System e root members}
    (h : Reaches e root members r s) (k : Reaches e root members s t)
    → (l : Reaches e root members r t) × (writes e root members l
        ≡ writes e root members h + writes e root members k)
Reaches-trans h here = (h, omega arith)
Reaches-trans h (next k step) =
    let (l, count) = Reaches-trans h k in (next l step, omega (arith, count))

-- After any history of the members, an id that a call of Alloc returns is none of those given out
-- before, as long as the counter cannot pass 2 ^ 64 and the member is not in the middle of a call.
-- Anything may happen to etcd between the two calls of etcd that it makes, other allocations too.
pub alloc-fresh :
    (e : Etcd) (root : Bytes) (members : ℕ → Bytes) (between : e.State → e.State) {first : e.State}
    {s : System e root members} (h : Reaches e root members (start e root members first) s) (i : ℕ)
    {id : ℕ}
    → s.read i ≡ none
    → stored (counter e root members first) + alloc_step * (writes e root members h + 1) < u64_mod
    → (alloc e root (members i) between s.store (s.who i)).2 ≡ some id
    → All (λ y. y ≢ id) s.issued
alloc-fresh e root members between {first} {s} h i {id} idle room returned =
    elim (alloc-Result e root members s i between idle) [
      | inl nothing ↦ let both = sym nothing ∙ returned in cc
      | inr call ↦
          let (l, count) = Reaches-trans h call.steps in
          let distinct = Reaches-Distinct e root members l (omega (arith, count, call.few)) in
          let given =
            subst (λ o. Given e root members s i between idle o call.after) returned call.given in
          (subst Distinct given distinct).0
    ]
