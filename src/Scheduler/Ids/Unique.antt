-- ===== src/Scheduler/Ids/Unique.antt =====
-- Members that allocate ids side by side (scheduler/server/id/id.go), in any order of their calls of etcd.
use mathlib.Core.Option.{some-injective}
use tiny_kv_practice.Prelude.{
  ℕ, ◌+◌, ◌*◌, ◌≤◌, ◌<◌, ◌≡◌, ◌⊎◌, inl, inr, refl, sym, ap, ◌∙◌, subst, true, false, Option, none,
  some, List, [], ◌∷◌, ◌==◌, length, arith, Bool-cases, u64_mod, add64_exact, sub64_exact, add64,
  sub64,
}
use tiny_kv_practice.Kv.Endian.{be_number, be_number-be_bytes}
use tiny_kv_practice.Scheduler.TypeUtil.{Bytes, bytes_to_uint64, uint64_to_bytes}
use tiny_kv_practice.Scheduler.Ids.{
  has_value, Txn, answered, failed, Holds, Etcd, Allocator, new_allocator, alloc_step,
  alloc_id_path, txn_to, generate_txn, refill, take_id,
}
use tiny_kv_practice.Scheduler.Ids.Windows.{set_at, Distinct, Windows, Windows-raise, issue-Windows}

-- The number that the key of the ids stands for.
abbrev pub stored : Option Bytes → ℕ
stored none = 0
stored (some v) = be_number 0 v

module _ (e : Etcd) (root : Bytes) (members : ℕ → Bytes) where
  -- Etcd, the allocators, the value that a member has read and not yet written over, and all ids that
  -- have been given out.
  pub record System : Type 0 where
    pub store : e.State
    pub who : ℕ → Allocator
    pub read : ℕ → Option (Option Bytes)
    pub issued : List ℕ

  abbrev pub counter : e.State → Option Bytes
  counter s = e.value s (alloc_id_path root)

  -- A call of Alloc takes an id, or reads the counter and then writes it: the write is done, or refused,
  -- or fails. What others do to etcd leaves the counter alone.
  pub data Step (s : System) : System → Type 0 where
    take :
        (i : ℕ)
        → s.read i ≡ none
        → ((s.who i).base == (s.who i).end) ≡ false
        → Step s (record s {
          who = set_at i (take_id (s.who i)).0 s.who;
          issued = (take_id (s.who i)).1 ∷ s.issued;
        })
    ask :
        (i : ℕ) (v : Option Bytes)
        → s.read i ≡ none
        → ((s.who i).base == (s.who i).end) ≡ true
        → e.get s.store (alloc_id_path root) ≡ answered v
        → Step s (record s { read = set_at i (some v) s.read })
    grant :
        (i end : ℕ) (v : Option Bytes) (txn : Txn) (t : e.State)
        → s.read i ≡ some v
        → generate_txn root (members i) v ≡ some (end, txn)
        → e.commit s.store txn ≡ (t, answered true)
        → Step s (record {
          store = t;
          who = set_at i (take_id (refill (s.who i) end)).0 s.who;
          read = set_at i none s.read;
          issued = (take_id (refill (s.who i) end)).1 ∷ s.issued;
        })
    refuse :
        (i end : ℕ) (v : Option Bytes) (txn : Txn) (t : e.State)
        → s.read i ≡ some v
        → generate_txn root (members i) v ≡ some (end, txn)
        → (e.commit s.store txn ≡ (t, answered false)) ⊎ (e.commit s.store txn ≡ (t, failed))
        → Step s (record s { store = t; read = set_at i none s.read })
    give_up :
        (i : ℕ) (v : Option Bytes)
        → s.read i ≡ some v
        → generate_txn root (members i) v ≡ none
        → Step s (record s { read = set_at i none s.read })
    other : (t : e.State) → counter t ≡ counter s.store → Step s (record s { store = t })

  pub data Reaches (s : System) : System → Type 0 where
    here : Reaches s s
    next : {t u : System} → Reaches s t → Step t u → Reaches s u

  -- The writes of the counter that a step can have done.
  abbrev pub step_writes : {s t : System} → Step s t → ℕ
  step_writes (take _ _ _) = 0
  step_writes (ask _ _ _ _ _) = 0
  step_writes (grant _ _ _ _ _ _ _ _) = 1
  step_writes (refuse _ _ _ _ _ _ _ _) = 1
  step_writes (give_up _ _ _ _) = 0
  step_writes (other _ _) = 0

  abbrev pub writes : {s t : System} → Reaches s t → ℕ
  writes here = 0
  writes (next r step) = writes r + step_writes step

  -- The members start without a window, on a counter of any value.
  abbrev pub start : e.State → System
  start s = record { store = s; who = λ i. new_allocator; read = λ i. none; issued = [] }

  pub record Inv (n : ℕ) (s : System) : Type 0 where
    pub bound : stored (counter s.store) ≤ n
    pub windows : Windows (stored (counter s.store)) s.who s.issued

  -- What a transaction of `generate` finds and writes.
  pub generate_txn_lem :
      (member : Bytes) (v : Option Bytes) {end : ℕ} {txn : Txn}
      → generate_txn root member v ≡ some (end, txn)
      → (end ≡ add64 (stored v) alloc_step)
        × (txn.key ≡ alloc_id_path root)
        × (txn.value ≡ uint64_to_bytes end)
        × ((s : e.State) → Holds e.value s txn.conditions → counter s ≡ v)
  unfolding generate_txn bytes_to_uint64
  generate_txn_lem member none h =
      let same = some-injective _ _ h in
      (
        sym (ap (λ p. p.0) same),
        sym (ap (λ p. p.1.key) same),
        sym (ap (λ p. p.1.value) same) ∙ ap (λ p. uint64_to_bytes p.0) same,
        λ s holds. (subst (λ p. Holds e.value s p.1.conditions) (sym same) holds).0,
      )
  generate_txn_lem member (some v) h = elim (Bool-cases (length v == 8)) [
    | inr bad ↦ absurd (no_txn member v h bad)
    | inl good ↦
        let same = some-injective _ _ (parsed member v good ∙ h) in
        (
          sym (ap (λ p. p.0) same),
          sym (ap (λ p. p.1.key) same),
          sym (ap (λ p. p.1.value) same) ∙ ap (λ p. uint64_to_bytes p.0) same,
          λ s holds. (subst (λ p. Holds e.value s p.1.conditions) (sym same) holds).0,
        )
  ]
    where
      no_txn :
          (member v : Bytes) {o : ℕ × Txn}
          → generate_txn root member (some v) ≡ some o
          → (length v == 8) ≡ false
          → ⊥
      no_txn member v h bad = cc (sym (rw bad at h))

      parsed :
          (member v : Bytes)
          → (length v == 8) ≡ true
          → some (txn_to root member (has_value (alloc_id_path root) v) (be_number 0 v))
            ≡ generate_txn root member (some v)
      parsed member v good = rw good refl

  -- A write that was done moves the counter by one window.
  written :
      (member : Bytes) (v : Option Bytes) (s t : e.State) {end : ℕ} {txn : Txn}
      → generate_txn root member v ≡ some (end, txn)
      → Holds e.value s txn.conditions × (e.value t txn.key ≡ some txn.value)
      → stored (counter s) + alloc_step < u64_mod
      → (end ≡ stored (counter s) + alloc_step) × (stored (counter t) ≡ end)
  unfolding uint64_to_bytes
  written member v s t {end} {txn} g (holds, done) room =
      let (end_eq, key_eq, value_eq, found) = generate_txn_lem member v g in
      let end_exact : end ≡ stored (counter s) + alloc_step =
        end_eq
        ∙ ap (λ o. add64 (stored o) alloc_step) (sym (found s holds))
        ∙ add64_exact (stored (counter s)) alloc_step room in
      (
        end_exact,
        ap stored (ap (e.value t) (sym key_eq) ∙ done)
            ∙ ap (be_number 0) value_eq
            ∙ be_number-be_bytes 8 end (omega (arith, end_exact)),
      )

  take_Windows :
      (s : System) (i : ℕ)
      → Windows (stored (counter s.store)) s.who s.issued
      → stored (counter s.store) < u64_mod
      → ((s.who i).base == (s.who i).end) ≡ false
      → Windows
          (stored (counter s.store))
          (set_at i (take_id (s.who i)).0 s.who)
          ((take_id (s.who i)).1 ∷ s.issued)
  unfolding take_id
  take_Windows s i w small more =
      let ordered = w.ordered i in
      let below = w.below i in
      let open_ : (s.who i).base < (s.who i).end = ground (arith, more, ordered) in
      let id_eq : add64 (s.who i).base 1 ≡ (s.who i).base + 1 =
        add64_exact (s.who i).base 1 (omega arith) in
      issue-Windows i (add64 (s.who i).base 1) (record (s.who i) { base = add64 (s.who i).base 1 })
        w (omega arith) (omega (arith, id_eq)) below (omega (arith, id_eq))
        (inl (omega (arith, id_eq), omega (arith, id_eq)))
        (λ x (h, k). (λ same. omega (arith, same, id_eq), inl (omega (arith, id_eq), k)))

  grant_Windows :
      (s : System) (i end new : ℕ)
      → Windows (stored (counter s.store)) s.who s.issued
      → end ≡ stored (counter s.store) + alloc_step
      → new ≡ end
      → end < u64_mod
      → Windows new
          (set_at i (take_id (refill (s.who i) end)).0 s.who)
          ((take_id (refill (s.who i) end)).1 ∷ s.issued)
  unfolding take_id refill
  grant_Windows s i end new w end_eq new_eq small =
      let base_eq : sub64 end alloc_step ≡ stored (counter s.store) =
        sub64_exact end alloc_step (omega arith) small ∙ omega arith in
      let id_eq : add64 (sub64 end alloc_step) 1 ≡ stored (counter s.store) + 1 =
        ap (λ n. add64 n 1) base_eq ∙ add64_exact (stored (counter s.store)) 1 (omega arith) in
      issue-Windows i (add64 (sub64 end alloc_step) 1)
        (record { base = add64 (sub64 end alloc_step) 1; end = end }) w (omega arith)
        (omega (arith, id_eq)) (omega arith) (omega (arith, id_eq)) (inr (omega (arith, id_eq)))
        (λ x (h, k). (λ same. omega (arith, same, id_eq), inr (omega (arith, id_eq))))

  -- A step keeps the windows apart, as long as the counter does not pass 2 ^ 64.
  Step-Inv :
      {n : ℕ} {s t : System} (step : Step s t)
      → Inv n s
      → n + alloc_step * step_writes step < u64_mod
      → Inv (n + alloc_step * step_writes step) t
  Step-Inv {n} {s} (take i idle more) inv room = record {
    bound = omega (arith, inv.bound);
    windows = take_Windows s i inv.windows (omega (arith, inv.bound)) more;
  }
  Step-Inv (ask i v idle empty got) inv room = record {
    bound = omega (arith, inv.bound);
    windows = inv.windows;
  }
  Step-Inv {n} {s} (grant i end v txn t read g done) inv room =
      let (end_eq, new_eq) =
        written (members i) v s.store t g (e.commit_done s.store t txn done)
          (omega (arith, inv.bound)) in
      record {
        bound = omega (arith, inv.bound, end_eq, new_eq);
        windows =
            grant_Windows s i end (stored (counter t)) inv.windows end_eq new_eq
              (omega (arith, inv.bound, end_eq));
      }
  Step-Inv {n} {s} (refuse i end v txn t read g (inl not_done)) inv room =
      let same = ap stored (e.commit_not s.store t txn not_done (alloc_id_path root)) in
      record {
        bound = omega (arith, inv.bound, same);
        windows = Windows-raise (omega (arith, same)) inv.windows;
      }
  Step-Inv {n} {s} (refuse i end v txn t read g (inr lost)) inv room =
      elim (e.commit_failed s.store t txn lost) [
        | inl done ↦
            let (end_eq, new_eq) =
              written (members i) v s.store t g done (omega (arith, inv.bound)) in
            record {
              bound = omega (arith, inv.bound, end_eq, new_eq);
              windows = Windows-raise (omega (arith, end_eq, new_eq)) inv.windows;
            }
        | inr kept ↦
            let same = ap stored (kept (alloc_id_path root)) in
            record {
              bound = omega (arith, inv.bound, same);
              windows = Windows-raise (omega (arith, same)) inv.windows;
            }
      ]
  Step-Inv (give_up i v read bad) inv room = record {
    bound = omega (arith, inv.bound);
    windows = inv.windows;
  }
  Step-Inv {n} {s} (other t same) inv room = record {
    bound = omega (arith, inv.bound, ap stored same);
    windows = Windows-raise (omega (arith, ap stored same)) inv.windows;
  }

  start-Inv : (s : e.State) → Inv (stored (counter s)) (start s)
  start-Inv s = record {
    bound = omega arith;
    windows = record {
      ordered = λ i. omega arith;
      below = λ i. omega arith;
      apart = λ i j x ne p q. omega (arith, p.0, p.1);
      spent = λ i x p. tt;
      given = tt;
      distinct = tt;
    };
  }

  Reaches-Inv :
      {s : e.State} {t : System} (r : Reaches (start s) t)
      → stored (counter s) + alloc_step * writes r < u64_mod
      → Inv (stored (counter s) + alloc_step * writes r) t
  Reaches-Inv {s} here room = subst (λ n. Inv n (start s)) (omega arith) (start-Inv s)
  Reaches-Inv {s} {t} (next r step) room =
      subst (λ n. Inv n t) (omega arith) (Step-Inv step (Reaches-Inv r (omega arith)) (omega arith))

  -- However the calls of the members interleave, and whether their transactions are done, refused or
  -- fail, the ids that they get are all different, as long as the counter cannot pass 2 ^ 64.
  pub Reaches-Distinct :
      {s : e.State} {t : System} (r : Reaches (start s) t)
      → stored (counter s) + alloc_step * writes r < u64_mod
      → Distinct t.issued
  Reaches-Distinct r room = (Reaches-Inv r room).windows.distinct
