-- ===== src/Scheduler/Timestamps/Monotone.antt =====
-- The timestamps that leaders give out one after another (scheduler/server/tso/tso.go) only grow, also
-- where members that have lost the leadership go on with calls that would save a time.
use tiny_kv_practice.Prelude.{
  ℕ, ◌+◌, ◌≤◌, ◌<◌, ◌≡◌, ◌≢◌, inl, inr, refl, sym, subst, Bool, Option, some, List, [], ◌∷◌, arith,
}
use tiny_kv_practice.Scheduler.TypeUtil.{Bytes, millisecond, unix_offset, parse_ts}
use tiny_kv_practice.Scheduler.Ids.{Etcd, leader_path}
use tiny_kv_practice.Scheduler.Timestamps.{
  Oracle, new_oracle, Timestamp, ok, saved_time, sync_timestamp, reset_user_timestamp,
  update_timestamp, reset_timestamp, try_ts,
}
use tiny_kv_practice.Scheduler.Timestamps.Saves.{code, top, Inv, stored}
use tiny_kv_practice.Scheduler.Timestamps.Calls.{
  try_ts-ok, try_ts-oracle, counted-Inv, sync_timestamp-Inv, update_timestamp-Inv,
  reset_user_timestamp-Inv,
}
use tiny_kv_practice.Scheduler.Timestamps.Deposed.{
  sync_timestamp-Unchanged, update_timestamp-Unchanged, reset_user_timestamp-Unchanged,
}

-- The timestamps given out, the latest first, each with the number that was asked for.
abbrev pub latest : List (ℕ × ℕ) → ℕ
latest [] = 0
latest ((c, n) ∷ issued) = c

-- Each batch lies above the earlier ones.
abbrev pub Ascending : List (ℕ × ℕ) → Type 0
Ascending [] = Unit
Ascending ((c, n) ∷ issued) = (latest issued + n ≤ c) × Ascending issued

module _ (e : Etcd) (root : Bytes) where
  -- The leader in office, with its oracle.
  pub record System : Type 0 where
    pub store : e.State
    pub member : Bytes
    pub oracle : Oracle
    pub issued : List (ℕ × ℕ)

  -- The calls of one leader after another, at times between 1970 and the largest that an int64 has; a
  -- leader moves its time only after SyncTimestamp. The `deposed_` steps are calls of any member that does
  -- not hold the leader key, with any oracle and at any time. A member takes office with an oracle that is
  -- new or has been reset. `other` is whatever does not touch the time in etcd, as a change of the leader
  -- key.
  pub data Step (s : System) : System → Type 0 where
    give :
        (expired : Bool) (count : ℕ) (o : Oracle) (ts : Timestamp)
        → try_ts s.oracle expired count ≡ (o, some (ok ts))
        → Step s (record s { oracle = o; issued = (code ts.physical ts.logical, count) ∷ s.issued })
    pass :
        (expired : Bool) (count : ℕ)
        → Step s (record s { oracle = (try_ts s.oracle expired count).0 })
    sync :
        (now : ℕ)
        → unix_offset + millisecond ≤ now
        → now + s.oracle.save_interval < top
        → ((t : ℕ)
            → saved_time (stored e root s.member s.store) ≡ some t
            → t + millisecond + s.oracle.save_interval < top)
        → Step s (record s {
          store = (sync_timestamp e root s.member s.store s.oracle now).0;
          oracle = (sync_timestamp e root s.member s.store s.oracle now).1;
        })
    update :
        (now : ℕ)
        → s.oracle.physical ≢ 0
        → now + s.oracle.save_interval < top
        → s.oracle.physical + millisecond + s.oracle.save_interval < top
        → Step s (record s {
          store = (update_timestamp e root s.member s.store s.oracle now).0;
          oracle = (update_timestamp e root s.member s.store s.oracle now).1;
        })
    reset_user :
        (expired : Bool) (tso : ℕ)
        → s.oracle.physical ≢ 0
        → (parse_ts tso).0 + millisecond + s.oracle.save_interval < top
        → Step s (record s {
          store = (reset_user_timestamp e root s.member s.store s.oracle expired tso).0;
          oracle = (reset_user_timestamp e root s.member s.store s.oracle expired tso).1;
        })
    reset : Step s (record s { oracle = reset_timestamp s.oracle })
    take_office :
        (member : Bytes) (o : Oracle)
        → o.physical ≡ 0
        → Step s (record s { member = member; oracle = o })
    deposed_sync :
        (member : Bytes) (o : Oracle) (now : ℕ)
        → e.value s.store (leader_path root) ≢ some member
        → Step s (record s { store = (sync_timestamp e root member s.store o now).0 })
    deposed_update :
        (member : Bytes) (o : Oracle) (now : ℕ)
        → e.value s.store (leader_path root) ≢ some member
        → Step s (record s { store = (update_timestamp e root member s.store o now).0 })
    deposed_reset_user :
        (member : Bytes) (o : Oracle) (expired : Bool) (tso : ℕ)
        → e.value s.store (leader_path root) ≢ some member
        → Step s (record s { store = (reset_user_timestamp e root member s.store o expired tso).0 })
    other :
        (t : e.State)
        → stored e root s.member t ≡ stored e root s.member s.store
        → Step s (record s { store = t })

  pub data Reaches (s : System) : System → Type 0 where
    here : Reaches s s
    next : {t u : System} → Reaches s t → Step t u → Reaches s u

  abbrev pub begin : e.State → Bytes → ℕ → ℕ → System
  begin s member interval gap = record {
    store = s;
    member = member;
    oracle = new_oracle interval gap;
    issued = [];
  }

  abbrev pub Holds : System → Type 0
  Holds s = Inv (stored e root s.member s.store) s.oracle (latest s.issued) × Ascending s.issued

  unset-Inv :
      {value : Option Bytes} {o : Oracle} {last : ℕ} (r : Oracle)
      → r.physical ≡ 0
      → Inv value o last
      → Inv value r last
  unset-Inv r unset inv = record {
    saved = inv.saved;
    saved_eq = inv.saved_eq;
    last_lt = inv.last_lt;
    running = inl unset;
  }

  unchanged-Inv :
      {value value' : Option Bytes} {o : Oracle} {last : ℕ}
      → value' ≡ value
      → Inv value o last
      → Inv value' o last
  unchanged-Inv {o = o} {last = last} same = subst (λ v. Inv v o last) (sym same)

  Step-Holds : {s t : System} → Step s t → Holds s → Holds t
  unfolding reset_timestamp
  Step-Holds {s} (give expired count o ts h) (inv, ascending) =
      let (above, inv') =
        try_ts-ok (stored e root s.member s.store) s.oracle expired count (latest s.issued) inv h in
      (inv', (above, ascending))
  Step-Holds {s} (pass expired count) (inv, ascending) = (
    elim (try_ts-oracle s.oracle expired count) [
      | inl same ↦
          subst (λ o. Inv (stored e root s.member s.store) o (latest s.issued)) (sym same) inv
      | inr counted ↦
          subst (λ o. Inv (stored e root s.member s.store) o (latest s.issued)) (sym counted)
            (counted-Inv (stored e root s.member s.store) s.oracle count (latest s.issued) inv)
    ],
    ascending,
  )
  Step-Holds {s} (sync now after room room') (inv, ascending) = (
    sync_timestamp-Inv e root s.member s.store s.oracle (latest s.issued) inv now after room room',
    ascending,
  )
  Step-Holds {s} (update now set room room') (inv, ascending) = (
    update_timestamp-Inv e root s.member s.store s.oracle (latest s.issued) inv now set room room',
    ascending,
  )
  Step-Holds {s} (reset_user expired tso set room) (inv, ascending) = (
    reset_user_timestamp-Inv e root s.member s.store s.oracle (latest s.issued) inv expired tso set
        room,
    ascending,
  )
  Step-Holds {s} reset (inv, ascending) = (unset-Inv (reset_timestamp s.oracle) refl inv, ascending)
  Step-Holds (take_office member o unset) (inv, ascending) = (unset-Inv o unset inv, ascending)
  Step-Holds {s} (deposed_sync member o now out) (inv, ascending) =
      (unchanged-Inv (sync_timestamp-Unchanged e root member s.store o out now) inv, ascending)
  Step-Holds {s} (deposed_update member o now out) (inv, ascending) =
      (unchanged-Inv (update_timestamp-Unchanged e root member s.store o out now) inv, ascending)
  Step-Holds {s} (deposed_reset_user member o expired tso out) (inv, ascending) = (
    unchanged-Inv (reset_user_timestamp-Unchanged e root member s.store o out expired tso) inv,
    ascending,
  )
  Step-Holds (other t same) (inv, ascending) = (unchanged-Inv same inv, ascending)

  Reaches-Holds : {s t : System} → Holds s → Reaches s t → Holds t
  Reaches-Holds h here = h
  Reaches-Holds h (next r step) = Step-Holds step (Reaches-Holds h r)

  -- From a readable time in etcd (or none), in every history of one leader in office after another, each
  -- batch of timestamps that a leader in office gives out lies above all batches given out before. In
  -- between, members that do not hold the leader key may try to sync, update or reset the time, with any
  -- oracle. A leader in office updates and resets only a synchronised time, its times lie between 1970 and
  -- the largest that an int64 has, and a member takes office with an oracle that has no time.
  pub Reaches-Ascending :
      (s : e.State) (member : Bytes) (interval gap : ℕ) {first : ℕ} {t : System}
      → saved_time (stored e root member s) ≡ some first
      → Reaches (begin s member interval gap) t
      → Ascending t.issued
  unfolding new_oracle
  Reaches-Ascending s member interval gap {first} readable r =
      (Reaches-Holds
        (
          record { saved = first; saved_eq = readable; last_lt = omega arith; running = inl refl },
          tt,
        )
        r).1
