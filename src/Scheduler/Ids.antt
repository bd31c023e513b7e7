-- ===== src/Scheduler/Ids.antt =====
-- scheduler/server/id/id.go: ids that several members take from one counter in etcd. Etcd is a
-- parameter. The two calls of etcd in `generate` are two steps of a member, between which others act.
pub mod Windows
pub mod Unique
pub mod Fresh
use tiny_kv_practice.Prelude.{
  ℕ, ◌+◌, ◌≡◌, ◌⊎◌, ◌≢◌, Bool, true, false, Option, none, some, List, [], ◌∷◌, ◌++◌, ◌==◌,
  if◌then◌else◌, add64, sub64, ◌>>=◌,
}
use tiny_kv_practice.Scheduler.TypeUtil.{Bytes, bytes_to_uint64, uint64_to_bytes}

-- The conditions of a transaction: the key was never created, or it has a value.
pub data Cmp : Type 0 where
  absent : Bytes → Cmp
  has_value : Bytes → Bytes → Cmp

pub record Txn : Type 0 where
  pub conditions : List Cmp
  pub key : Bytes
  pub value : Bytes

-- What a call of etcd answers.
pub data Answer (A : Type 0) : Type 0 where
  answered : A → Answer A
  failed : Answer A

abbrev pub Holds : {S : Type 0} → (S → Bytes → Option Bytes) → S → List Cmp → Type 0
Holds value s [] = Unit
Holds value s (absent k ∷ cs) = (value s k ≡ none) × Holds value s cs
Holds value s (has_value k v ∷ cs) = (value s k ≡ some v) × Holds value s cs

-- The calls of etcd (go.etcd.io/etcd/clientv3). A transaction writes if all its conditions hold, at one
-- moment. One that fails may have been done.
pub record Etcd : Type 1 where
  pub State : Type 0
  pub value : State → Bytes → Option Bytes
  pub get : State → Bytes → Answer (Option Bytes)
  pub commit : State → Txn → State × Answer Bool
  pub get_lem : (s : State) (k : Bytes) (v : Option Bytes) → get s k ≡ answered v → v ≡ value s k
  pub commit_done :
      (s s' : State) (t : Txn)
      → commit s t ≡ (s', answered true)
      → Holds value s t.conditions × (value s' t.key ≡ some t.value)
  pub commit_not :
      (s s' : State) (t : Txn)
      → commit s t ≡ (s', answered false)
      → (k : Bytes) → value s' k ≡ value s k
  pub commit_failed :
      (s s' : State) (t : Txn)
      → commit s t ≡ (s', failed)
      → (Holds value s t.conditions × (value s' t.key ≡ some t.value))
        ⊎ ((k : Bytes) → value s' k ≡ value s k)

abbrev pub alloc_step : ℕ
alloc_step = 1000

pub record Allocator : Type 0 where
  pub base : ℕ
  pub end : ℕ

abbrev pub new_allocator : Allocator
new_allocator = record { base = 0; end = 0 }

-- path.Join of a root path without a trailing slash.
abbrev pub join : Bytes → Bytes → Bytes
join root name = root ++ b'/' ∷ name

abbrev pub alloc_id_path : Bytes → Bytes
alloc_id_path root = join root (b'a' ∷ b'l' ∷ b'l' ∷ b'o' ∷ b'c' ∷ b'_' ∷ b'i' ∷ b'd' ∷ [])

abbrev pub leader_path : Bytes → Bytes
leader_path root = join root (b'l' ∷ b'e' ∷ b'a' ∷ b'd' ∷ b'e' ∷ b'r' ∷ [])

abbrev pub txn_to : Bytes → Bytes → Cmp → ℕ → ℕ × Txn
txn_to root member condition end = (
  add64 end alloc_step,
  record {
    conditions = condition ∷ has_value (leader_path root) member ∷ [];
    key = alloc_id_path root;
    value = uint64_to_bytes (add64 end alloc_step);
  },
)

-- `generate` after the value is read: the new end, and what to commit; `none` is a bad value.
unfoldable pub generate_txn : Bytes → Bytes → Option Bytes → Option (ℕ × Txn)
unfolding bytes_to_uint64 uint64_to_bytes
generate_txn root member none = some (txn_to root member (absent (alloc_id_path root)) 0)
generate_txn root member (some v) = do
  end ← bytes_to_uint64 v
  some (txn_to root member (has_value (alloc_id_path root) v) end)

-- Alloc after `generate`
unfoldable pub refill : Allocator → ℕ → Allocator
refill a end = record { base = sub64 end alloc_step; end = end }

unfoldable pub take_id : Allocator → Allocator × ℕ
take_id a = (record a { base = add64 a.base 1 }, add64 a.base 1)

module _ (e : Etcd) (root member : Bytes) where
  abbrev if_committed : ℕ → e.State × Answer Bool → e.State × Option ℕ
  if_committed end (s, answered true) = (s, some end)
  if_committed end (s, _) = (s, none)

  -- `between` is what other clients do between the two calls of etcd.
  abbrev commit_new : (e.State → e.State) → e.State → Option (ℕ × Txn) → e.State × Option ℕ
  commit_new between s none = (s, none)
  commit_new between s (some (end, txn)) = if_committed end (e.commit (between s) txn)

  abbrev with_value : (e.State → e.State) → e.State → Answer (Option Bytes) → e.State × Option ℕ
  with_value between s failed = (s, none)
  with_value between s (answered v) = commit_new between s (generate_txn root member v)

  unfoldable pub generate : (e.State → e.State) → e.State → e.State × Option ℕ
  unfolding generate_txn
  generate between s = with_value between s (e.get s (alloc_id_path root))

  abbrev issue : Allocator → e.State × Option ℕ → e.State × Allocator × Option ℕ
  issue a (s, none) = (s, a, none)
  issue a (s, some end) = let (b, id) = take_id (refill a end) in (s, b, some id)

  -- `Alloc`; no id is an error.
  unfoldable pub alloc : (e.State → e.State) → e.State → Allocator → e.State × Allocator × Option ℕ
  unfolding generate take_id refill
  alloc between s a =
      if a.base == a.end
      then issue a (generate between s)
      else (let (b, id) = take_id a in (s, b, some id))
