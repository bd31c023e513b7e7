-- ===== src/Scheduler/Tests/Members.antt =====
-- Two members that allocate ids, a leader that gives out timestamps, and their etcd (scheduler/server).
use mathlib.Core.Option.{some-injective}
use tiny_kv_practice.Prelude.{
  ℕ, ◌+◌, ◌^◌, ◌<◌, ◌≡◌, ◌≢◌, ◌↔◌, refl, true, false, none, some, [], ◌∷◌, All, add64, sub64, arith,
}
use tiny_kv_practice.Keys.{compare_bytes}
use tiny_kv_practice.Keys.Sorted.{same}
use tiny_kv_practice.Kv.Endian.{be_bytes, be_number}
use tiny_kv_practice.Scheduler.TypeUtil.{
  Bytes, uint64_to_bytes, bytes_to_uint64, unix_offset, millisecond,
}
use tiny_kv_practice.Scheduler.Ids.{
  Txn, answered, new_allocator, leader_path, alloc_id_path, txn_to, absent, generate_txn, refill,
  take_id, generate, alloc,
}
use tiny_kv_practice.Scheduler.Ids.Windows.{set_at, Distinct}
use tiny_kv_practice.Scheduler.Ids.Unique.{
  System, take, ask, grant, Reaches, here, next, start, Reaches-Distinct,
}
use tiny_kv_practice.Scheduler.Ids.Fresh.{alloc-fresh}
use tiny_kv_practice.Scheduler.Timestamps.{
  Oracle, new_oracle, Timestamp, ok, sync_timestamp, save_timestamp, try_ts, get_resp_ts,
}
use tiny_kv_practice.Scheduler.Timestamps.Saves.{code}
use tiny_kv_practice.Scheduler.Timestamps.Monotone.{
  sync, give, deposed_sync, begin, Ascending, Reaches-Ascending,
}
use tiny_kv_practice.Scheduler.Timestamps.Monotone as Leaders
use tiny_kv_practice.Scheduler.Timestamps.Bounds.{Given, get_resp_ts-ok_iff}
use tiny_kv_practice.Scheduler.Tests.MapEtcd.{State, passes, write, commit, map_etcd}

abbrev root : Bytes
root = b'/' ∷ b'p' ∷ b'd' ∷ []

abbrev member : Bytes
member = b'm' ∷ []

abbrev store : State
store k = elim (same (leader_path root) k) [ true ↦ some member | false ↦ none ]

abbrev asked : System map_etcd root (λ i. member)
asked = record (start map_etcd root (λ i. member) store) { read = set_at 0 (some none) (λ i. none) }

abbrev txn : Txn
txn = (txn_to root member (absent (alloc_id_path root)) 0).1

abbrev written : State
written = write store txn.key txn.value

commit_run : commit store txn ≡ (written, answered true)
unfolding commit passes compare_bytes
commit_run = refl

-- The first member gets the ids up to 1000, and takes two.
abbrev granted : System map_etcd root (λ i. member)
granted = record {
  store = written;
  who = set_at 0 (take_id (refill new_allocator 1000)).0 (λ i. new_allocator);
  read = set_at 0 none (set_at 0 (some none) (λ i. none));
  issued = (take_id (refill new_allocator 1000)).1 ∷ [];
}

abbrev twice : System map_etcd root (λ i. member)
twice = record granted {
  who = set_at 0 (take_id (granted.who 0)).0 granted.who;
  issued = (take_id (granted.who 0)).1 ∷ granted.issued;
}

abbrev history : Reaches map_etcd root (λ i. member) (start map_etcd root (λ i. member) store) twice
unfolding compare_bytes generate_txn refill take_id add64 sub64
history =
    next
      (next (next here (ask 0 none refl refl refl))
        (grant 0 1000 none txn written refl refl commit_run))
      (take 0 refl refl)

Reaches-Distinct_example : Distinct twice.issued
unfolding compare_bytes add64 sub64 generate_txn refill take_id
Reaches-Distinct_example = Reaches-Distinct map_etcd root (λ i. member) history (omega arith)

alloc-fresh_example : All (λ y. y ≢ 1001) twice.issued
unfolding compare_bytes add64 sub64 generate_txn refill take_id alloc generate commit passes write
    be_bytes uint64_to_bytes bytes_to_uint64 be_number
alloc-fresh_example =
    alloc-fresh map_etcd root (λ i. member) (λ s. s) history 1 refl (omega arith) refl

-- A day in 2023, in nanoseconds of UnixNano.
abbrev now : ℕ
now = unix_offset + 1700000000123456789

abbrev saves : ℕ
saves = 3000000000

abbrev leader : Leaders.System map_etcd root
leader = begin map_etcd root store member saves 0

abbrev timed : Oracle
timed = record (new_oracle saves 0) {
  is_set = true;
  physical = now;
  last_saved = now + saves;
  has_lease = true;
}

sync_run : (sync_timestamp map_etcd root member store (new_oracle saves 0) now).1 ≡ timed
unfolding compare_bytes sync_timestamp save_timestamp new_oracle commit passes write
sync_run = refl

abbrev counted : Oracle
counted = record timed { logical = 5 }

abbrev five : Timestamp
five = record { physical = 1700000000123; logical = 5 }

abbrev session : Leaders.System map_etcd root
session = record leader {
  store = (sync_timestamp map_etcd root member store (new_oracle saves 0) now).0;
  oracle = counted;
  issued = (code 1700000000123 5, 5) ∷ [];
}

later : (t : ℕ) → ◌≡◌ {A = ℕ} 0 t → t + millisecond + saves < unix_offset + 2 ^ 63
later t e = omega (arith, e)

abbrev deposed : Bytes
deposed = b'n' ∷ []

-- After five timestamps, a member that has lost the leadership tries to sync with a clock that is behind.
abbrev contested : Leaders.System map_etcd root
contested = record session {
  store = (sync_timestamp map_etcd root deposed session.store (new_oracle saves 0) 0).0;
}

not_deposed : session.store (leader_path root) ≢ some deposed
unfolding compare_bytes sync_timestamp save_timestamp new_oracle commit passes write
not_deposed h = cc

session_run : Leaders.Reaches map_etcd root leader contested
unfolding compare_bytes sync_timestamp save_timestamp new_oracle commit passes write try_ts
session_run =
    Leaders.next
      (Leaders.next
        (Leaders.next Leaders.here
          (sync now (omega arith) (omega arith) (λ t h. later t (some-injective _ _ h))))
        (give false 5 counted five refl))
      (deposed_sync deposed (new_oracle saves 0) 0 not_deposed)

Reaches-Ascending_example : Ascending contested.issued
unfolding compare_bytes
Reaches-Ascending_example = Reaches-Ascending map_etcd root store member saves 0 refl session_run

-- An oracle whose logical part is full, until a call of UpdateTimestamp moves its time.
abbrev filled : Oracle
filled = record timed { logical = 2 ^ 18 }

abbrev moves : Oracle → Oracle
moves o = timed

get_resp_ts-ok_iff_example :
    (get_resp_ts moves false 5 filled ≡ (counted, ok five))
    ↔ ((0 < 5) × (false ≡ false) × Given moves 5 100 filled counted five)
get_resp_ts-ok_iff_example = get_resp_ts-ok_iff moves false 5 counted filled five
