-- ===== src/Kv/Mvcc/Records.antt =====
-- Lock and write records as bytes (kv/transaction/mvcc/lock.go and write.go).
use Prim.Native.Nat.{Ordering}
use mathlib.Core.List.{append_assoc}
use tiny_kv_practice.Prelude.{
  ℕ, ◌+◌, ◌-◌, ◌%◌, ◌≤◌, ◌<◌, ◌≡◌, ◌≢◌, ◌==◌, refl, sym, ap, ◌∙◌, ◌⊎◌, ◌↔◌, false, not, ◌&&◌,
  Option, some, none, List, [], ◌∷◌, ◌++◌, arith, u64_mod, length, length-append, get_elem?,
  get_elem?-append_right, take, drop, take-length-append, drop-length-append, take_of_length-le,
  leb, if◌then◌else◌, select, map, All, ℕ_discrete,
}
use tiny_kv_practice.Keys.{compare_bytes}
use tiny_kv_practice.Kv.Endian.{be_bytes, be_number, length-be_bytes, be_number-be_bytes}
use tiny_kv_practice.Kv.Mvcc.{
  Write, Lock, LockInfo, info, write_to_bytes, parse_write, lock_to_bytes, parse_lock, ts_max,
  is_equal, is_locked_for, all_locks_for_txn,
}

-- A record whose numbers fit their bytes.
pub record IsStorable (lock : Lock) : Type 0 where
  pub ts-lt : lock.ts < u64_mod
  pub ttl-lt : lock.ttl < u64_mod
  pub kind-lt : lock.kind < 256

-- A write record with a 64-bit timestamp and a kind of one byte is parsed back from its bytes.
pub parse_write-write_to_bytes :
    (w : Write) → w.start_ts < u64_mod → w.kind < 256 → parse_write (write_to_bytes w) ≡ some w
unfolding parse_write write_to_bytes
parse_write-write_to_bytes w h k =
    let byte : w.kind % 256 ≡ w.kind = omega arith in
    rw (length-be_bytes 8 w.start_ts, byte, be_number-be_bytes 8 w.start_ts (omega arith)) refl

take_at : (n : ℕ) (xs ys : List ℕ) → length xs ≡ n → take n (xs ++ ys) ≡ xs
take_at n xs ys h = rw (← h) (take-length-append xs ys)

drop_at : (n : ℕ) (xs ys : List ℕ) → length xs ≡ n → drop n (xs ++ ys) ≡ ys
drop_at n xs ys h = rw (← h) (drop-length-append xs ys)

parse_fields :
    (p : List ℕ) (k : ℕ) (t u : List ℕ)
    → length t ≡ 8
    → length u ≡ 8
    → parse_lock (p ++ (k ∷ (t ++ u)))
      ≡ some (record { primary = p; ts = be_number 0 t; ttl = be_number 0 u; kind = k })
unfolding parse_lock
parse_fields p k t u h i =
    let input = p ++ (k ∷ (t ++ u)) in
    let count : length input ≡ length p + 17 =
      omega (arith, length-append p (k ∷ (t ++ u)), length-append t u) in
    let short : leb (length p + 17) 16 ≡ false = ground arith in
    let place : length p + 17 - 17 ≡ length p = omega arith in
    let kind_at : get_elem? input (length p) ≡ some k =
      ap (get_elem? input) (omega arith) ∙ get_elem?-append_right p (k ∷ (t ++ u)) 0 in
    let behind_kind : drop (length p + 1) input ≡ t ++ u =
      ap (drop (length p + 1)) (sym (append_assoc p (k ∷ []) (t ++ u)))
      ∙ drop_at (length p + 1) (p ++ k ∷ []) (t ++ u) (length-append p (k ∷ [])) in
    let behind_ts : drop (length p + 9) input ≡ u =
      ap (drop (length p + 9)) (sym (append_assoc p (k ∷ t) u))
      ∙ drop_at (length p + 9) (p ++ (k ∷ t)) u (omega (arith, length-append p (k ∷ t))) in
    rw
      (
        count,
        short,
        place,
        kind_at,
        behind_kind,
        behind_ts,
        take-length-append p (k ∷ (t ++ u)),
        take_at 8 t u h,
        take_of_length-le 8 u (omega arith),
      )
      refl

-- A lock record with 64-bit numbers and a kind of one byte is parsed back from its bytes, whatever its
-- primary key.
pub parse_lock-lock_to_bytes :
    (lock : Lock) → IsStorable lock → parse_lock (lock_to_bytes lock) ≡ some lock
unfolding lock_to_bytes
parse_lock-lock_to_bytes lock s =
    let byte : lock.kind % 256 ≡ lock.kind = omega (arith, s.kind-lt) in
    parse_fields lock.primary (lock.kind % 256) (be_bytes 8 lock.ts) (be_bytes 8 lock.ttl)
      (length-be_bytes 8 lock.ts) (length-be_bytes 8 lock.ttl)
    ∙ rw
        (
          byte,
          be_number-be_bytes 8 lock.ts (omega (arith, s.ts-lt)),
          be_number-be_bytes 8 lock.ttl (omega (arith, s.ttl-lt)),
        )
        refl

-- The pairs of a key and a lock as the iterator of the lock column family yields them.
abbrev pub stored_locks : List (List ℕ × Lock) → List (List ℕ × Option (List ℕ))
stored_locks = map (λ e. (e.0, some (lock_to_bytes e.1)))

-- Over stored lock records, `AllLocksForTxn` returns exactly the keys and locks of the transaction, in
-- their order.
pub all_locks_for_txn-stored_locks :
    (start_ts : ℕ) (locks : List (List ℕ × Lock))
    → All (λ e. IsStorable e.1) locks
    → all_locks_for_txn start_ts (stored_locks locks)
      ≡ some (select (λ e. e.1.ts == start_ts) locks)
unfolding all_locks_for_txn
all_locks_for_txn-stored_locks start_ts [] a = refl
all_locks_for_txn-stored_locks start_ts ((key, lock) ∷ locks) a =
    rw (parse_lock-lock_to_bytes lock a.0, all_locks_for_txn-stored_locks start_ts locks a.1) refl

-- The test of `IsLockedFor`, by how the key compares with the primary one.
guard_iff :
    (o : Ordering) (a : LockInfo) (lock_ts ts : ℕ)
    → ((if ts == ts_max && not (is_equal o) then none else if leb lock_ts ts then some a else none)
        ≡ some a)
      ↔ ((lock_ts ≤ ts) × ((ts ≢ ts_max) ⊎ (o ≡ Ordering.eq)))
guard_iff Ordering.eq a lock_ts ts = ground arith
guard_iff Ordering.lt a lock_ts ts = elim (ℕ_discrete ts ts_max) [
  | yes last ↦ ground arith
  | no other ↦ ground arith
]
guard_iff Ordering.gt a lock_ts ts = elim (ℕ_discrete ts ts_max) [
  | yes last ↦ ground arith
  | no other ↦ ground arith
]

-- A lock locks a key for a transaction exactly if it is not later than the transaction's start, and the
-- transaction does not read at the largest timestamp or the key is the primary one.
pub is_locked_for_iff :
    (lock : Lock) (key : List ℕ) (ts : ℕ)
    → (is_locked_for (some lock) key ts ≡ some (info lock key))
      ↔ ((lock.ts ≤ ts) × ((ts ≢ ts_max) ⊎ (compare_bytes key lock.primary ≡ Ordering.eq)))
unfolding is_locked_for
is_locked_for_iff lock key ts =
    guard_iff (compare_bytes key lock.primary) (info lock key) lock.ts ts
