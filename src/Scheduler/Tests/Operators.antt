-- ===== src/Scheduler/Tests/Operators.antt =====
-- An operator that moves the leader's peer of a region to a third store (schedule/operator/operator.go).
use tiny_kv_practice.Prelude.{ℕ, ◌==◌, ◌≡◌, refl, Option, none, some, [], ◌∷◌, if◌then◌else◌}
use tiny_kv_practice.Scheduler.Regions.{peer_on_store}
use tiny_kv_practice.Scheduler.Operators.{
  Operator, op_replica, on_region, new_operator, transfer_leader, add_peer, remove_peer, check,
  check_steps, step_finished,
}
use tiny_kv_practice.Scheduler.Operators.Progress.{Checked, check-Checked}
use tiny_kv_practice.Scheduler.Tests.Regions.{first}

-- The region `first` has its leader on store 1 and another peer on store 2.
abbrev known : ℕ → Option ℕ
known id = if id == 2 then some 2 else if id == 3 then some 3 else none

abbrev moving : Operator
moving = on_region 7 [] first op_replica (transfer_leader 2 1 ∷ add_peer 3 31 ∷ remove_peer 2 ∷ [])

-- The leader is on store 1 already, and there is no peer on store 3 yet.
moving_checked : (check (λ n. 8) first moving).1 ≡ some (add_peer 3 31)
unfolding check check_steps new_operator step_finished peer_on_store
moving_checked = refl

check-Checked_example :
    Checked first moving (check (λ n. 8) first moving).0 (check (λ n. 8) first moving).1
check-Checked_example = check-Checked (λ n. 8) first moving
