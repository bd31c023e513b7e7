-- ===== src/Raft/RawNode.antt =====
-- raft/rawnode.go: the interface of a node to the application. `NewRawNode`, `Ready`, `HasReady`
-- and `Advance` have no body yet. `cc.Marshal()` is code of a package, and a parameter.
pub mod Total
use tiny_kv_practice.Prelude.{
  ℕ, Bool, true, false, ◌||◌, not, Option, none, some, List, [], ◌∷◌, ◌==◌, if◌then◌else◌, ◌>>=◌,
}
use tiny_kv_practice.Prelude.Maps.{lookup, keys}
use tiny_kv_practice.Raft.Types.{
  Entry, entry_normal, entry_conf_change, no_entry, Message, message, msg_hup, msg_propose,
  msg_transfer_leader, ConfState, ConfChange, ConfChangeType, add_node, remove_node, Error,
  step_local_msg, step_peer_not_found,
}
use tiny_kv_practice.Raft.Util.{is_local_msg, is_response_msg}
use tiny_kv_practice.Raft.Node.{no_node, leader, Progress, Raft}
use tiny_kv_practice.Raft.Step
use tiny_kv_practice.Raft.Step.{sort}

-- The state of a `RawNode` is its `Raft`. A call returns the new state and the error.
abbrev pub Outcome : Type 0
Outcome = Option (Raft × Option Error)

abbrev succeed : Option Raft → Outcome
succeed o = do r ← o; some (r, none)

unfoldable pub tick : Raft → Option Raft
tick r = Step.tick r

unfoldable pub campaign : Raft → Outcome
campaign r = succeed (Step.step r (message msg_hup 0 0 0))

unfoldable pub propose : Raft → List ℕ → Outcome
propose r bytes = succeed (
    Step.step r (record (message msg_propose 0 r.id 0) {
      entries = record no_entry { payload = bytes } ∷ [];
    }))

-- `marshal` returns the bytes of a change, or an error.
unfoldable pub propose_conf_change :
    (ConfChange → Option (List ℕ)) → Error → Raft → ConfChange → Outcome
propose_conf_change marshal failed r cc = elim (marshal cc) [
  | none ↦ some (r, some failed)
  | some bytes ↦ succeed (
      Step.step r (record (message msg_propose 0 0 0) {
        entries = record no_entry { entry_type = entry_conf_change; payload = bytes } ∷ [];
      }))
]

-- `nodes` of raft/util.go: the ids of the peers, in order.
unfoldable pub nodes : Raft → List ℕ
nodes r = sort (keys r.prs)

-- `addNode` and `removeNode`, which have no body yet.
unfoldable pub add_node_to : Raft → ℕ → Raft
add_node_to r id = r

unfoldable pub remove_node_from : Raft → ℕ → Raft
remove_node_from r id = r

unfoldable pub apply_conf_change : Raft → ConfChange → Raft × ConfState
apply_conf_change r cc =
    if cc.node_id == no_node
    then (r, record { nodes = nodes r })
    else let r' = elim cc.change_type as (λ _. Raft) [
      | add_node ↦ add_node_to r cc.node_id
      | remove_node ↦ remove_node_from r cc.node_id
    ] in
      (r', record { nodes = nodes r' })

abbrev pub is_some {ℓ} : {A : Type ℓ} → Option A → Bool
is_some none = false
is_some (some a) = true

-- `Step` refuses local messages, and responses of nodes that are not peers.
unfoldable pub step : Raft → Message → Outcome
step r m =
    if is_local_msg m.msg_type
    then some (r, some step_local_msg)
    else if is_some (lookup m.from r.prs) || not (is_response_msg m.msg_type)
    then succeed (Step.step r m)
    else some (r, some step_peer_not_found)

-- The progress of the peers, at a leader.
unfoldable pub get_progress : Raft → List (ℕ × Progress)
get_progress r = elim r.state [ leader ↦ r.prs | _ ↦ [] ]

unfoldable pub transfer_leader : Raft → ℕ → Option Raft
transfer_leader r transferee = Step.step r (message msg_transfer_leader 0 transferee 0)
