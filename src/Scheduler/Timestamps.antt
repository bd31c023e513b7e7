-- ===== src/Scheduler/Timestamps.antt =====
-- scheduler/server/tso/tso.go: the timestamps that the leader of the scheduler gives out. The clock,
-- etcd and the lease are arguments. The calls of one oracle are taken one after another.
pub mod Saves
pub mod Calls
pub mod Deposed
pub mod Monotone
pub mod Bounds
use tiny_kv_practice.Prelude.{
  ℕ, zero, suc, ◌+◌, ◌-◌, ◌*◌, ◌/◌, ◌^◌, Bool, true, false, not, Option, none, some, List, [], ◌∷◌,
  ◌++◌, ltb, leb, ◌==◌, if◌then◌else◌, length,
}
use tiny_kv_practice.Scheduler.TypeUtil.{
  Bytes, uint64_to_bytes, parse_timestamp, parse_ts, millisecond, zero_time, unix_nano, sub_lt,
  sub_le,
}
use tiny_kv_practice.Scheduler.Ids.{
  Txn, has_value, Answer, answered, failed, Etcd, join, leader_path,
}

abbrev pub update_timestamp_guard : ℕ
update_timestamp_guard = millisecond

abbrev pub max_logical : ℕ
max_logical = 2 ^ 18

abbrev pub max_retry_count : ℕ
max_retry_count = 100

-- `TimestampOracle`, with the fields of its `atomicObject`; `is_set` is ts != nil, and `has_lease` is
-- lease != nil.
pub record Oracle : Type 0 where
  pub is_set : Bool
  pub physical : ℕ
  pub logical : ℕ
  pub last_saved : ℕ
  pub has_lease : Bool
  pub save_interval : ℕ
  pub max_reset_gap : ℕ

unfoldable pub new_oracle : ℕ → ℕ → Oracle
new_oracle interval gap = record {
  is_set = false;
  physical = zero_time;
  logical = 0;
  last_saved = zero_time;
  has_lease = false;
  save_interval = interval;
  max_reset_gap = gap;
}

-- `nil_pointer` stands for the use of a nil ts, at which the program ends.
pub data TsoError : Type 0 where
  etcd_failed bad_value lost_leader lease_expired too_small too_large zero_count no_timestamp
        nil_pointer :
      TsoError

pub record Timestamp : Type 0 where
  pub physical : ℕ
  pub logical : ℕ

pub data TsoResult : Type 0 where
  ok : Timestamp → TsoResult
  err : TsoError → TsoResult

abbrev pub timestamp_path : Bytes → Bytes
timestamp_path root = join root (b't' ∷ b'i' ∷ b'm' ∷ b'e' ∷ b's' ∷ b't' ∷ b'a' ∷ b'm' ∷ b'p' ∷ [])

-- The time that etcd has, or the zero time.
abbrev pub saved_time : Option Bytes → Option ℕ
saved_time none = some zero_time
saved_time (some data_) = if length data_ == 0 then some zero_time else parse_timestamp data_

-- Where `SyncTimestamp` begins.
abbrev pub first_time : ℕ → ℕ → ℕ
first_time now last =
    if sub_lt now last update_timestamp_guard then last + update_timestamp_guard else now

-- The time to go on from, if the physical time has to move.
unfoldable pub next_time : Oracle → ℕ → Option ℕ
next_time o now =
    if not (sub_le now o.physical update_timestamp_guard)
    then some now
    else if ltb (max_logical / 2) o.logical
    then some (o.physical + millisecond)
    else none

module _ (e : Etcd) (root member : Bytes) where
  -- The states of etcd and of the oracle after a call, and its error.
  abbrev pub Done : Type 0
  Done = e.State × Oracle × Option TsoError

  abbrev pub save_txn : ℕ → Txn
  save_txn ts = record {
    conditions = has_value (leader_path root) member ∷ [];
    key = timestamp_path root;
    value = uint64_to_bytes (unix_nano ts);
  }

  abbrev pub if_saved : ℕ → Oracle → e.State × Answer Bool → Done
  if_saved ts o (s, answered true) = (s, record o { last_saved = ts }, none)
  if_saved ts o (s, answered false) = (s, o, some lost_leader)
  if_saved ts o (s, failed) = (s, o, some etcd_failed)

  unfoldable pub save_timestamp : e.State → Oracle → ℕ → Done
  save_timestamp s o ts = if_saved ts o (e.commit s (save_txn ts))

  -- After a save that went well, the oracle goes on from a time.
  abbrev pub go_on : ℕ → Bool → Done → Done
  go_on next lease (s, o, none) =
      (s, record o { is_set = true; physical = next; logical = 0; has_lease = lease }, none)
  go_on next lease (s, o, some error) = (s, o, some error)

  abbrev pub sync_from : e.State → Oracle → ℕ → Option ℕ → Done
  sync_from s o now none = (s, o, some bad_value)
  sync_from s o now (some last) =
      let next = first_time now last in
      go_on next true (save_timestamp s o (next + o.save_interval))

  abbrev pub sync_with : e.State → Oracle → ℕ → Answer (Option Bytes) → Done
  sync_with s o now failed = (s, o, some etcd_failed)
  sync_with s o now (answered v) = sync_from s o now (saved_time v)

  unfoldable pub sync_timestamp : e.State → Oracle → ℕ → Done
  unfolding save_timestamp
  sync_timestamp s o now = sync_with s o now (e.get s (timestamp_path root))

  -- `expired` is lease.IsExpired().
  unfoldable pub reset_user_timestamp : e.State → Oracle → Bool → ℕ → Done
  unfolding save_timestamp
  reset_user_timestamp s o expired tso =
      let next = (parse_ts tso).0 + millisecond in
      if not o.has_lease
      then (s, o, some lease_expired)
      else if expired
      then (s, o, some lease_expired)
      else if not o.is_set
      then (s, o, some nil_pointer)
      else if sub_le next o.physical (3 * update_timestamp_guard)
      then (s, o, some too_small)
      else if not (sub_lt next o.physical o.max_reset_gap)
      then (s, o, some too_large)
      else go_on next o.has_lease (save_timestamp s o (next + o.save_interval))

  abbrev pub move_to : e.State → Oracle → Option ℕ → Done
  move_to s o none = (s, o, none)
  move_to s o (some next) =
      if sub_le o.last_saved next update_timestamp_guard
      then go_on next o.has_lease (save_timestamp s o (next + o.save_interval))
      else go_on next o.has_lease (s, o, none)

  unfoldable pub update_timestamp : e.State → Oracle → ℕ → Done
  unfolding save_timestamp next_time
  update_timestamp s o now =
      if not o.is_set then (s, o, some nil_pointer) else move_to s o (next_time o now)

unfoldable pub reset_timestamp : Oracle → Oracle
reset_timestamp o = record o { is_set = true; physical = zero_time; logical = 0 }

-- One round of `GetRespTS`: no result means that it waits and tries again.
unfoldable pub try_ts : Oracle → Bool → ℕ → Oracle × Option TsoResult
try_ts o expired count =
    if not o.is_set
    then (o, some (err nil_pointer))
    else if o.physical == zero_time
    then (o, none)
    else (
      record o { logical = o.logical + count },
      if leb max_logical (o.logical + count)
          then none
          else if not o.has_lease
          then some (err lease_expired)
          else if expired
          then some (err lease_expired)
          else some (
              ok (record {
                physical = unix_nano o.physical / millisecond;
                logical = o.logical + count;
              })),
    )

abbrev pub or_again : Oracle × Option TsoResult → Oracle × TsoResult → Oracle × TsoResult
or_again (o, none) again = again
or_again (o, some r) again = (o, r)

-- `wait` is what other calls do to the oracle while this one sleeps.
unfoldable pub get_rounds : ℕ → (Oracle → Oracle) → Bool → ℕ → Oracle → Oracle × TsoResult
unfolding try_ts
get_rounds zero wait expired count o = (o, err no_timestamp)
get_rounds (suc rounds) wait expired count o =
    let again = get_rounds rounds wait expired count (wait (try_ts o expired count).0) in
    or_again (try_ts o expired count) again

unfoldable pub get_resp_ts : (Oracle → Oracle) → Bool → ℕ → Oracle → Oracle × TsoResult
unfolding get_rounds
get_resp_ts wait expired count o =
    if count == 0 then (o, err zero_count) else get_rounds max_retry_count wait expired count o
