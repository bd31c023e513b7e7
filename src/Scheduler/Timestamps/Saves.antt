-- ===== src/Scheduler/Timestamps/Saves.antt =====
-- Timestamps stay above those given out, and below the time that etcd has (scheduler/server/tso/tso.go).
use tiny_kv_practice.Prelude.{
  ℕ, ◌+◌, ◌*◌, ◌/◌, ◌^◌, ◌≤◌, ◌<◌, ◌≡◌, ◌⊎◌, inl, inr, refl, ap, ◌∙◌, Bool, true, false, Option,
  none, some, arith,
}
use tiny_kv_practice.Scheduler.TypeUtil.{
  Bytes, uint64_to_bytes, length-uint64_to_bytes, parse_timestamp-uint64_to_bytes, millisecond,
  unix_offset, unix_nano,
}
use tiny_kv_practice.Scheduler.Ids.{Answer, answered, failed, Holds, Etcd}
use tiny_kv_practice.Scheduler.Timestamps.{
  Oracle, TsoError, timestamp_path, saved_time, save_txn, if_saved, save_timestamp, go_on, Done,
}

-- physical << 18 + logical
abbrev pub code : ℕ → ℕ → ℕ
code physical logical = physical * 2 ^ 18 + logical

abbrev pub ms : ℕ → ℕ
ms t = unix_nano t / millisecond

-- The largest time whose UnixNano is an int64.
abbrev pub top : ℕ
top = unix_offset + 2 ^ 63

-- What holds of an oracle that has a time, where `last` is the largest timestamp given out.
pub record Running (saved last : ℕ) (o : Oracle) : Type 0 where
  pub after : unix_offset ≤ o.physical
  pub below_saved : o.physical ≤ saved
  pub last_saved_le : o.last_saved ≤ saved
  pub interval_le : o.last_saved ≤ o.physical + o.save_interval
  pub issued : last ≤ code (ms o.physical) o.logical
  pub within : last < code (ms o.physical + 1) 0

pub record Inv (value : Option Bytes) (o : Oracle) (last : ℕ) : Type 0 where
  pub saved : ℕ
  pub saved_eq : saved_time value ≡ some saved
  pub last_lt : last < code (ms saved + 1) 0
  pub running : (o.physical ≡ 0) ⊎ Running saved last o

module _ (e : Etcd) (root member : Bytes) where
  abbrev pub stored : e.State → Option Bytes
  stored s = e.value s (timestamp_path root)

  -- A time that is saved is read back.
  saved_back :
      (t : ℕ)
      → unix_offset ≤ t
      → t < top
      → saved_time (some (uint64_to_bytes (unix_nano t))) ≡ some t
  saved_back t after small =
      rw (length-uint64_to_bytes (unix_nano t))
        (parse_timestamp-uint64_to_bytes t after (omega arith))

  -- What a save leaves in etcd, and whether the oracle has it.
  pub data Saved (s : e.State) (o : Oracle) (ts : ℕ) : Done e root member → Type 0 where
    done :
        (s' : e.State)
        → saved_time (stored s') ≡ some ts
        → Saved s o ts (s', record o { last_saved = ts }, none)
    lost :
        (s' : e.State) (error : TsoError)
        → saved_time (stored s') ≡ some ts
        → Saved s o ts (s', o, some error)
    kept :
        (s' : e.State) (error : TsoError) → stored s' ≡ stored s → Saved s o ts (s', o, some error)

  save_timestamp-Saved :
      (s : e.State) (o : Oracle) (ts : ℕ)
      → unix_offset ≤ ts
      → ts < top
      → Saved s o ts (save_timestamp e root member s o ts)
  unfolding save_timestamp
  save_timestamp-Saved s o ts after small = by_answer (e.commit s (save_txn e root member ts)) refl
    where
      written :
          (s' : e.State)
          → Holds e.value s (save_txn e root member ts).conditions
            × (e.value s' (timestamp_path root) ≡ some (uint64_to_bytes (unix_nano ts)))
          → saved_time (stored s') ≡ some ts
      written s' (_, there) = ap saved_time there ∙ saved_back ts after small

      by_answer :
          (p : e.State × Answer Bool)
          → e.commit s (save_txn e root member ts) ≡ p
          → Saved s o ts (if_saved e root member ts o p)
      by_answer (s', answered true) h =
          done s' (written s' (e.commit_done s s' (save_txn e root member ts) h))
      by_answer (s', answered false) h =
          kept s' _ (e.commit_not s s' (save_txn e root member ts) h (timestamp_path root))
      by_answer (s', failed) h = elim (e.commit_failed s s' (save_txn e root member ts) h) [
        | inl wrote ↦ lost s' _ (written s' wrote)
        | inr same ↦ kept s' _ (same (timestamp_path root))
      ]

  -- To go on from a later millisecond, after a save of a time behind it, is safe whatever becomes of it.
  go_on-Inv :
      (s : e.State) (o : Oracle) (last next : ℕ) (lease : Bool) (inv : Inv (stored s) o last)
      → unix_offset ≤ next
      → o.physical ≤ next
      → next + o.save_interval < top
      → last < code (ms next) 0
      → {d : Done e root member} → Saved s o (next + o.save_interval) d
      → Inv (stored (go_on e root member next lease d).0) (go_on e root member next lease d).1 last
  go_on-Inv s o last next lease inv after le small above (done s' there) = record {
    saved = next + o.save_interval;
    saved_eq = there;
    last_lt = omega arith;
    running = inr (record {
      after = after;
      below_saved = omega arith;
      last_saved_le = omega arith;
      interval_le = omega arith;
      issued = omega arith;
      within = omega arith;
    });
  }
  go_on-Inv s o last next lease inv after le small above (lost s' error there) = record {
    saved = next + o.save_interval;
    saved_eq = there;
    last_lt = omega arith;
    running = elim inv.running [
      | inl stopped ↦ inl stopped
      | inr r ↦ inr (record {
        after = r.after;
        below_saved = omega arith;
        last_saved_le = omega (arith, r.interval_le);
        interval_le = r.interval_le;
        issued = r.issued;
        within = r.within;
      })
    ];
  }
  go_on-Inv s o last next lease inv after le small above (kept s' error same) = record {
    saved = inv.saved;
    saved_eq = ap saved_time same ∙ inv.saved_eq;
    last_lt = inv.last_lt;
    running = inv.running;
  }

  pub save-Inv :
      (s : e.State) (o : Oracle) (last next : ℕ) (lease : Bool)
      → Inv (stored s) o last
      → unix_offset ≤ next
      → o.physical ≤ next
      → next + o.save_interval < top
      → last < code (ms next) 0
      → Inv
          (stored
            (go_on e root member next lease
              (save_timestamp e root member s o (next + o.save_interval))).0)
          (go_on e root member next lease
            (save_timestamp e root member s o (next + o.save_interval))).1
          last
  save-Inv s o last next lease inv after le small above =
      go_on-Inv s o last next lease inv after le small above
        (save_timestamp-Saved s o (next + o.save_interval) (omega arith) small)
