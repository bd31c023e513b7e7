-- ===== src/Scheduler/Timestamps/Deposed.antt =====
-- A member that does not hold the leader key leaves the time in etcd as it is, whichever call it makes
-- (scheduler/server/tso/tso.go).
use tiny_kv_practice.Prelude.{
  ℕ, ◌+◌, ◌*◌, ◌≡◌, ◌≢◌, inl, inr, refl, Bool, true, false, not, Option, none, some, if◌then◌else◌,
  Bool-cases,
}
use tiny_kv_practice.Scheduler.TypeUtil.{Bytes, millisecond, parse_ts, sub_lt, sub_le}
use tiny_kv_practice.Scheduler.Ids.{Answer, answered, failed, Etcd, leader_path}
use tiny_kv_practice.Scheduler.Timestamps.{
  Oracle, timestamp_path, saved_time, save_txn, if_saved, save_timestamp, go_on, Done, first_time,
  sync_from, sync_with, sync_timestamp, reset_user_timestamp, next_time, move_to, update_timestamp,
  update_timestamp_guard,
}
use tiny_kv_practice.Scheduler.Timestamps.Saves.{stored}

module _ (e : Etcd) (root member : Bytes) (s : e.State) (o : Oracle)
    (deposed : e.value s (leader_path root) ≢ some member) where
  abbrev Unchanged : Done e root member → Type 0
  Unchanged d = stored e root member d.0 ≡ stored e root member s

  go_on-Unchanged :
      (next : ℕ) (lease : Bool) (d : Done e root member)
      → Unchanged d
      → Unchanged (go_on e root member next lease d)
  go_on-Unchanged next lease (s', o', none) same = same
  go_on-Unchanged next lease (s', o', some error) same = same

  save_timestamp-Unchanged : (ts : ℕ) → Unchanged (save_timestamp e root member s o ts)
  unfolding save_timestamp
  save_timestamp-Unchanged ts = by_answer (e.commit s (save_txn e root member ts)) refl
    where
      by_answer :
          (p : e.State × Answer Bool)
          → e.commit s (save_txn e root member ts) ≡ p
          → Unchanged (if_saved e root member ts o p)
      by_answer (s', answered true) h =
          absurd (deposed (e.commit_done s s' (save_txn e root member ts) h).0.0)
      by_answer (s', answered false) h =
          e.commit_not s s' (save_txn e root member ts) h (timestamp_path root)
      by_answer (s', failed) h = elim (e.commit_failed s s' (save_txn e root member ts) h) [
        | inl wrote ↦ absurd (deposed wrote.0.0)
        | inr same ↦ same (timestamp_path root)
      ]

  saved-Unchanged :
      (next : ℕ) (lease : Bool) (ts : ℕ)
      → Unchanged (go_on e root member next lease (save_timestamp e root member s o ts))
  saved-Unchanged next lease ts = go_on-Unchanged next lease _ (save_timestamp-Unchanged ts)

  pub sync_timestamp-Unchanged : (now : ℕ) → Unchanged (sync_timestamp e root member s o now)
  unfolding sync_timestamp
  sync_timestamp-Unchanged now = by_answer (e.get s (timestamp_path root))
    where
      from : (last : Option ℕ) → Unchanged (sync_from e root member s o now last)
      from none = refl
      from (some last) =
          saved-Unchanged (first_time now last) true (first_time now last + o.save_interval)

      by_answer : (a : Answer (Option Bytes)) → Unchanged (sync_with e root member s o now a)
      by_answer failed = refl
      by_answer (answered v) = from (saved_time v)

  move_to-Unchanged : (next : Option ℕ) → Unchanged (move_to e root member s o next)
  move_to-Unchanged none = refl
  move_to-Unchanged (some next) =
      elim (Bool-cases (sub_le o.last_saved next update_timestamp_guard)) [
        | inl near ↦ rw near (saved-Unchanged next o.has_lease (next + o.save_interval))
        | inr far ↦ rw far refl
      ]

  if-Unchanged :
      (c : Bool) (d d' : Done e root member)
      → Unchanged d
      → Unchanged d'
      → Unchanged (if c then d else d')
  if-Unchanged true d d' same same' = same
  if-Unchanged false d d' same same' = same'

  pub update_timestamp-Unchanged : (now : ℕ) → Unchanged (update_timestamp e root member s o now)
  unfolding update_timestamp
  update_timestamp-Unchanged now =
      if-Unchanged (not o.is_set) _ _ refl (move_to-Unchanged (next_time o now))

  pub reset_user_timestamp-Unchanged :
      (expired : Bool) (tso : ℕ) → Unchanged (reset_user_timestamp e root member s o expired tso)
  unfolding reset_user_timestamp
  reset_user_timestamp-Unchanged expired tso =
      let next = (parse_ts tso).0 + millisecond in
      if-Unchanged (not o.has_lease) _ _ refl (
        if-Unchanged expired _ _ refl (
          if-Unchanged (not o.is_set) _ _ refl (
            if-Unchanged (sub_le next o.physical (3 * update_timestamp_guard)) _ _ refl (
              if-Unchanged (not (sub_lt next o.physical o.max_reset_gap)) _ _ refl
                (saved-Unchanged next o.has_lease (next + o.save_interval))))))
