-- ===== src/Scheduler/Operators.antt =====
-- scheduler/server/schedule/operator/operator.go and operator_kind.go: the steps that an operator takes a
-- region through, how it checks them off, and the operators that move a peer. The clock is an argument,
-- and the texts for people (`brief`, String) are left out.
pub mod Progress
pub mod Moves
pub mod Removals
use Prim.Native.Nat.{bit_and, bit_or}
use tiny_kv_practice.Prelude.{
  ℕ, suc, ◌+◌, ◌*◌, ◌^◌, Bool, true, false, not, Option, none, some, List, [], ◌∷◌, ◌++◌, ltb, leb,
  ◌==◌, if◌then◌else◌, length, take, drop, ◌>>=◌,
}
use tiny_kv_practice.Prelude.Maps.{keys}
use tiny_kv_practice.Kv.Checks.{Peer, RegionEpoch}
use tiny_kv_practice.Scheduler.TypeUtil.{Bytes, zero_time}
use tiny_kv_practice.Scheduler.Regions.{
  RegionInfo, get_id, get_store_voter, get_store_peer, get_pending_voter, get_followers,
}

-- An `OpKind` is a bit field.
abbrev pub op_leader : ℕ
op_leader = 1

abbrev pub op_region : ℕ
op_region = 2

abbrev pub op_admin : ℕ
op_admin = 4

abbrev pub op_replica : ℕ
op_replica = 16

-- kind & flag != 0
abbrev pub has_kind : ℕ → ℕ → Bool
has_kind kind flag = not (bit_and kind flag == 0)

abbrev pub leader_operator_wait_time : ℕ
leader_operator_wait_time = 10 * 10 ^ 9

abbrev pub region_operator_wait_time : ℕ
region_operator_wait_time = 600 * 10 ^ 9

pub data PriorityLevel : Type 0 where
  low_priority normal_priority high_priority : PriorityLevel

-- With the fields from_store and to_store; to_store and peer_id; from_store
pub data OpStep : Type 0 where
  transfer_leader : ℕ → ℕ → OpStep
  add_peer : ℕ → ℕ → OpStep
  remove_peer : ℕ → OpStep

-- GetStoreId of a peer, which is 0 for nil
abbrev pub store_of : Option Peer → ℕ
store_of none = 0
store_of (some p) = p.store_id

abbrev pub is_nil_peer : Option Peer → Bool
is_nil_peer none = true
is_nil_peer (some p) = false

abbrev pub is_peer : ℕ → Option Peer → Bool
is_peer id none = false
is_peer id (some p) = p.id == id

-- The `ConfVerChanged` of each step
unfoldable pub step_changed : OpStep → RegionInfo → Bool
step_changed (transfer_leader from_store to_store) region = false
step_changed (add_peer to_store peer_id) region = is_peer peer_id (get_store_voter region to_store)
step_changed (remove_peer from_store) region = is_nil_peer (get_store_peer region from_store)

abbrev pub is_added : RegionInfo → ℕ → Option Peer → Bool
is_added region id none = false
is_added region id (some p) =
    if not (p.id == id) then false else is_nil_peer (get_pending_voter region p.id)

-- The `IsFinish` of each step
unfoldable pub step_finished : OpStep → RegionInfo → Bool
step_finished (transfer_leader from_store to_store) region = store_of region.leader == to_store
step_finished (add_peer to_store peer_id) region =
    is_added region peer_id (get_store_voter region to_store)
step_finished (remove_peer from_store) region = is_nil_peer (get_store_peer region from_store)

pub record Operator : Type 0 where
  pub desc : Bytes
  pub region_id : ℕ
  pub region_epoch : RegionEpoch
  pub kind : ℕ
  pub steps : List OpStep
  pub current_step : ℕ
  pub create_time : ℕ
  pub start_time : ℕ
  pub step_time : ℕ
  pub level : PriorityLevel

unfoldable pub new_operator : ℕ → Bytes → ℕ → RegionEpoch → ℕ → List OpStep → Operator
new_operator now desc region_id region_epoch kind steps = record {
  desc = desc;
  region_id = region_id;
  region_epoch = region_epoch;
  kind = kind;
  steps = steps;
  current_step = 0;
  create_time = now;
  start_time = zero_time;
  step_time = now;
  level = if has_kind kind op_admin then high_priority else normal_priority;
}

abbrev pub set_desc : Bytes → Operator → Operator
set_desc desc o = record o { desc = desc }

abbrev pub attach_kind : ℕ → Operator → Operator
attach_kind kind o = record o { kind = bit_or o.kind kind }

abbrev pub set_start_time : ℕ → Operator → Operator
set_start_time t o = record o { start_time = t }

abbrev pub set_priority_level : PriorityLevel → Operator → Operator
set_priority_level level o = record o { level = level }

-- The loop of `Check` over the steps from the current one on
unfoldable pub check_steps :
    (ℕ → ℕ) → RegionInfo → Operator → List OpStep → Operator × Option OpStep
check_steps now region o [] = (o, none)
check_steps now region o (step ∷ steps) =
    let rest =
      check_steps now region
        (record o { current_step = suc o.current_step; step_time = now o.current_step }) steps in
    if step_finished step region then rest else (o, some step)

-- `Check`; `now step` is the time when a step is found finished.
unfoldable pub check : (ℕ → ℕ) → RegionInfo → Operator → Operator × Option OpStep
unfolding check_steps
check now region o = check_steps now region o (drop o.current_step o.steps)

unfoldable pub count_changed : RegionInfo → List OpStep → ℕ
count_changed region [] = 0
count_changed region (step ∷ steps) =
    let rest = count_changed region steps in if step_changed step region then suc rest else rest

-- `ConfVerChanged` of an operator: the current step counts too. The slice panics when the current step is
-- behind the end.
unfoldable pub conf_ver_changed : Operator → RegionInfo → Option ℕ
unfolding count_changed
conf_ver_changed o region =
    if o.current_step == length o.steps
    then some (count_changed region o.steps)
    else if ltb o.current_step (length o.steps)
    then some (count_changed region (take (o.current_step + 1) o.steps))
    else none

unfoldable pub is_finish : Operator → Bool
is_finish o = leb (length o.steps) o.current_step

unfoldable pub is_timeout : ℕ → Operator → Bool
unfolding is_finish
is_timeout now o =
    if is_finish o
    then false
    else if o.start_time == zero_time
    then false
    else if has_kind o.kind op_region
    then ltb (o.start_time + region_operator_wait_time) now
    else ltb (o.start_time + leader_operator_wait_time) now

abbrev pub create_add_peer_steps : ℕ → ℕ → List OpStep
create_add_peer_steps new_store peer_id = add_peer new_store peer_id ∷ []

-- An operator on a region, as the functions below make it
abbrev pub on_region : ℕ → Bytes → RegionInfo → ℕ → List OpStep → Operator
on_region now desc region kind steps =
    new_operator now desc (get_id region) region.meta.region_epoch kind steps

abbrev pub create_add_peer_operator : ℕ → Bytes → RegionInfo → ℕ → ℕ → ℕ → Operator
create_add_peer_operator now desc region peer_id to_store kind =
    on_region now desc region (bit_or kind op_region) (create_add_peer_steps to_store peer_id)

abbrev pub create_transfer_leader_operator : ℕ → Bytes → RegionInfo → ℕ → ℕ → ℕ → Operator
create_transfer_leader_operator now desc region source_store target_store kind =
    on_region now desc region (bit_or kind op_leader)
      (transfer_leader source_store target_store ∷ [])

unfoldable pub interleave_step_groups : List (List OpStep) → List (List OpStep) → List OpStep
interleave_step_groups [] [] = []
interleave_step_groups [] (y ∷ b) = y ++ interleave_step_groups [] b
interleave_step_groups (x ∷ a) [] = x ++ interleave_step_groups a []
interleave_step_groups (x ∷ a) (y ∷ b) = x ++ y ++ interleave_step_groups a b

abbrev pub get_region_follower_ids : RegionInfo → List ℕ
get_region_follower_ids region = keys (get_followers region)

-- The part of the cluster that an operator reads: `GetStore`.
module _ {Store : Type 0} (get_store : ℕ → Option Store) where
  -- The store, 0 if there is none; the callers do not use the index.
  unfoldable pub find_available_store : List ℕ → ℕ
  find_available_store [] = 0
  find_available_store (id ∷ ids) = elim (get_store id) [
    | some store ↦ id
    | none ↦ find_available_store ids
  ]

  -- The kind and the steps, or an error
  unfoldable pub transfer_leader_to_suitable_steps : ℕ → List ℕ → Option (ℕ × List OpStep)
  unfolding find_available_store
  transfer_leader_to_suitable_steps leader ids =
      if not (find_available_store ids == 0)
      then some (op_leader, transfer_leader leader (find_available_store ids) ∷ [])
      else none

  abbrev pub is_on : ℕ → Option Peer → Bool
  is_on store none = false
  is_on store (some p) = p.store_id == store

  unfoldable pub transfer_leader_step : RegionInfo → ℕ → List ℕ → Option (ℕ × List OpStep)
  unfolding transfer_leader_to_suitable_steps
  transfer_leader_step region store ids =
      if is_on store region.leader
      then transfer_leader_to_suitable_steps store ids
      else some (0, [])

  unfoldable pub remove_peer_steps : RegionInfo → ℕ → List ℕ → Option (ℕ × List OpStep)
  unfolding transfer_leader_step
  remove_peer_steps region store ids = do
    (kind, steps) ← transfer_leader_step region store ids
    some (bit_or kind op_region, steps ++ remove_peer store ∷ [])

  unfoldable pub create_remove_peer_operator : ℕ → Bytes → ℕ → RegionInfo → ℕ → Option Operator
  unfolding remove_peer_steps
  create_remove_peer_operator now desc kind region store = do
    (remove_kind, steps) ← remove_peer_steps region store (get_region_follower_ids region)
    some (on_region now desc region (bit_or remove_kind kind) steps)

  unfoldable pub create_move_peer_operator :
      ℕ → Bytes → RegionInfo → ℕ → ℕ → ℕ → ℕ → Option Operator
  unfolding remove_peer_steps
  create_move_peer_operator now desc region kind old_store new_store peer_id = do
    (remove_kind, steps) ←
        remove_peer_steps region old_store (get_region_follower_ids region ++ new_store ∷ [])
    some (
        on_region now desc region (bit_or (bit_or remove_kind kind) op_region)
          (create_add_peer_steps new_store peer_id ++ steps))

  unfoldable pub create_offline_peer_operator :
      ℕ → Bytes → RegionInfo → ℕ → ℕ → ℕ → ℕ → Option Operator
  unfolding transfer_leader_step
  create_offline_peer_operator now desc region kind old_store new_store peer_id = do
    (k, steps) ← transfer_leader_step region old_store (get_region_follower_ids region)
    some (
        on_region now desc region (bit_or (bit_or kind k) op_region)
          ((steps ++ create_add_peer_steps new_store peer_id) ++ remove_peer old_store ∷ []))
