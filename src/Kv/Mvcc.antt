-- ===== src/Kv/Mvcc.antt =====
-- kv/transaction/mvcc: the records that a transaction stores (lock.go, write.go) and the keys with a
-- timestamp (transaction.go). The methods of `MvccTxn` and the scanner have no body yet. A byte string
-- that cannot be parsed is `none`, where the source returns an error.
pub mod Keys
pub mod Records
use Prim.Native.Nat.{compare, Ordering}
use tiny_kv_practice.Prelude.{
  ℕ, zero, suc, ◌+◌, ◌-◌, ◌%◌, ◌/◌, ◌^◌, Bool, true, false, ◌&&◌, not, Option, none, some, List, [],
  ◌∷◌, ◌++◌, leb, ◌==◌, if◌then◌else◌, length, get_elem?, take, drop, u64_mod, ◌>>=◌,
}
use tiny_kv_practice.Kv.Codec.{Decoded, ok, err, encode_bytes, decode_bytes}
use tiny_kv_practice.Keys.{compare_bytes}
use tiny_kv_practice.Kv.Endian.{be_bytes, be_number}

-- `WriteKind` is a number: a parsed record may hold any byte.
abbrev pub WriteKind : Type 0
WriteKind = ℕ

abbrev pub write_kind_put : WriteKind
write_kind_put = 1

abbrev pub write_kind_delete : WriteKind
write_kind_delete = 2

abbrev pub write_kind_rollback : WriteKind
write_kind_rollback = 3

-- `kvrpcpb.Op`
pub data Op : Type 0 where
  op_put op_del op_rollback op_lock : Op

-- `WriteKind.ToProto`: no operation is -1.
unfoldable pub to_proto : WriteKind → Option Op
to_proto k =
    if k == write_kind_put
    then some op_put
    else if k == write_kind_delete
    then some op_del
    else if k == write_kind_rollback
    then some op_rollback
    else none

-- `WriteKindFromProto`: `none` is a panic.
unfoldable pub write_kind_from_proto : Op → Option WriteKind
write_kind_from_proto op_put = some write_kind_put
write_kind_from_proto op_del = some write_kind_delete
write_kind_from_proto op_rollback = some write_kind_rollback
write_kind_from_proto op_lock = none

pub record Write : Type 0 where
  pub start_ts : ℕ
  pub kind : WriteKind

-- `Write.ToBytes`: byte(kind), and the timestamp.
unfoldable pub write_to_bytes : Write → List ℕ
write_to_bytes w = w.kind % 256 ∷ be_bytes 8 w.start_ts

-- `ParseWrite` of a value that is not nil.
unfoldable pub parse_write : List ℕ → Option Write
parse_write value =
    if length value == 9
    then (do
      kind ← get_elem? value 0
      some (record { start_ts = be_number 0 (drop 1 value); kind = kind }))
    else none

pub record Lock : Type 0 where
  pub primary : List ℕ
  pub ts : ℕ
  pub ttl : ℕ
  pub kind : WriteKind

-- `kvrpcpb.LockInfo`
pub record LockInfo : Type 0 where
  pub primary_lock : List ℕ
  pub lock_version : ℕ
  pub key : List ℕ
  pub lock_ttl : ℕ

unfoldable pub info : Lock → List ℕ → LockInfo
info lock key = record {
  primary_lock = lock.primary;
  lock_version = lock.ts;
  key = key;
  lock_ttl = lock.ttl;
}

-- `Lock.ToBytes`
unfoldable pub lock_to_bytes : Lock → List ℕ
lock_to_bytes lock = lock.primary ++ (lock.kind % 256 ∷ (be_bytes 8 lock.ts ++ be_bytes 8 lock.ttl))

-- `binary.BigEndian.Uint64` reads eight bytes.
abbrev pub uint64 : List ℕ → ℕ
uint64 bytes = be_number 0 (take 8 bytes)

unfoldable pub parse_lock : List ℕ → Option Lock
parse_lock input = if leb (length input) 16 then none else (do
  let primary_len = length input - 17
  kind ← get_elem? input primary_len
  some (record {
    primary = take primary_len input;
    ts = uint64 (drop (primary_len + 1) input);
    ttl = uint64 (drop (primary_len + 9) input);
    kind = kind;
  }))

abbrev pub ts_max : ℕ
ts_max = u64_mod - 1

abbrev pub is_equal : Ordering → Bool
is_equal Ordering.eq = true
is_equal _ = false

-- `IsLockedFor`: true with the error that it puts into the response, or false. A nil lock is `none`.
unfoldable pub is_locked_for : Option Lock → List ℕ → ℕ → Option LockInfo
is_locked_for none key txn_start_ts = none
is_locked_for (some lock) key txn_start_ts =
    if txn_start_ts == ts_max && not (is_equal (compare_bytes key lock.primary))
    then none
    else if leb lock.ts txn_start_ts
    then some (info lock key)
    else none

-- `AllLocksForTxn`, by what the iterator yields: keys, and values or an error.
unfoldable pub all_locks_for_txn :
    ℕ → List (List ℕ × Option (List ℕ)) → Option (List (List ℕ × Lock))
all_locks_for_txn start_ts [] = some []
all_locks_for_txn start_ts ((key, value) ∷ items) = do
  val ← value
  lock ← parse_lock val
  rest ← all_locks_for_txn start_ts items
  some (if lock.ts == start_ts then (key, lock) ∷ rest else rest)

-- ^ts at type uint64
abbrev pub complement : ℕ → ℕ
complement ts = u64_mod - 1 - ts

unfoldable pub encode_key : List ℕ → ℕ → List ℕ
encode_key key ts = encode_bytes key ++ be_bytes 8 (complement ts)

-- `DecodeUserKey`: `none` is a panic.
unfoldable pub decode_user_key : List ℕ → Option (List ℕ)
decode_user_key key = elim (decode_bytes key) [ err e ↦ none | ok r ↦ some r.1 ]

-- `decodeTimestamp`: fewer than eight bytes behind the key are a panic too.
unfoldable pub decode_timestamp : List ℕ → Option ℕ
decode_timestamp key = elim (decode_bytes key) [
  | err e ↦ none
  | ok r ↦ if leb 8 (length r.0) then some (complement (uint64 r.0)) else none
]

-- `PhysicalTime`: the bits behind the 18 logical ones.
unfoldable pub physical_time : ℕ → ℕ
physical_time ts = ts / 2 ^ 18
