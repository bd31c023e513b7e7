-- ===== src/Kv/Checks.antt =====
-- kv/raftstore/util: what the raftstore checks of a key, a message or a command before it acts on a
-- region. A check returns the error, or `none` for nil; `none` in front of that is a panic, where the
-- code reads a field of a nil pointer. The texts of errors are left out.
pub mod Keys
pub mod Epochs
pub mod Peers
use Prim.Native.Nat.{compare, Ordering}
use tiny_kv_practice.Prelude.{
  ℕ, ◌+◌, Bool, true, false, ◌&&◌, ◌||◌, not, Option, none, some, List, [], ◌∷◌, ltb, leb, ◌==◌,
  if◌then◌else◌, length, add64, ◌>>=◌,
}
use tiny_kv_practice.Raft.Types.{Message, MessageType, msg_request_vote, msg_heartbeat, ConfState}
use tiny_kv_practice.Keys.{is_below, is_at_most}

-- `metapb.Peer`, `metapb.RegionEpoch` and `metapb.Region`. A region has an epoch.
pub record Peer : Type 0 where
  pub id : ℕ
  pub store_id : ℕ

pub record RegionEpoch : Type 0 where
  pub conf_ver : ℕ
  pub version : ℕ

pub record Region : Type 0 where
  pub id : ℕ
  pub start_key : List ℕ
  pub end_key : List ℕ
  pub region_epoch : RegionEpoch
  pub peers : List Peer

pub data AdminCmdType : Type 0 where
  invalid_admin change_peer compact_log transfer_leader split : AdminCmdType

-- `raft_cmdpb.RaftRequestHeader` and the parts of `raft_cmdpb.RaftCmdRequest` that the checks read.
pub record Header : Type 0 where
  pub peer : Option Peer
  pub region_epoch : Option RegionEpoch
  pub term : ℕ

pub record Request : Type 0 where
  pub header : Option Header
  pub admin_request : Option AdminCmdType

-- The errors of kv/raftstore/util/error.go that the checks return.
pub data CheckError : Type 0 where
  key_not_in_region : List ℕ → Region → CheckError
  missing_header missing_epoch stale_command store_not_match peer_mismatch : CheckError
  epoch_not_match : List Region → CheckError

-- `RaftInvalidIndex`, and `RaftInitLogTerm` of kv/raftstore/meta/values.go
abbrev pub raft_invalid_index : ℕ
raft_invalid_index = 0

abbrev pub raft_init_log_term : ℕ
raft_init_log_term = 5

unfoldable pub is_vote_message : MessageType → Bool
is_vote_message msg_request_vote = true
is_vote_message _ = false

unfoldable pub is_heartbeat : MessageType → Bool
is_heartbeat msg_heartbeat = true
is_heartbeat _ = false

unfoldable pub is_initial_msg : Message → Bool
is_initial_msg m =
    is_vote_message m.msg_type || (is_heartbeat m.msg_type && m.commit == raft_invalid_index)

unfoldable pub is_first_vote_message : Message → Bool
is_first_vote_message m = is_vote_message m.msg_type && m.term == raft_init_log_term + 1

-- len(region.EndKey) == 0: the region has no end.
abbrev pub is_endless : Region → Bool
is_endless region = length region.end_key == 0

abbrev pub unless_inside : Bool → List ℕ → Region → Option CheckError
unless_inside inside key region = if inside then none else some (key_not_in_region key region)

-- bytes.Compare(key, start) >= 0 is that start is at most key.
unfoldable pub check_key_in_region : List ℕ → Region → Option CheckError
check_key_in_region key region =
    unless_inside
      (not (is_below key region.start_key) && (is_endless region || is_below key region.end_key))
      key region

unfoldable pub check_key_in_region_exclusive : List ℕ → Region → Option CheckError
check_key_in_region_exclusive key region =
    unless_inside
      (is_below region.start_key key && (is_endless region || is_below key region.end_key)) key
      region

unfoldable pub check_key_in_region_inclusive : List ℕ → Region → Option CheckError
check_key_in_region_inclusive key region =
    unless_inside
      (not (is_below key region.start_key) && (is_endless region || is_at_most key region.end_key))
      key region

unfoldable pub is_epoch_stale : RegionEpoch → RegionEpoch → Bool
is_epoch_stale epoch check_epoch =
    ltb epoch.version check_epoch.version || ltb epoch.conf_ver check_epoch.conf_ver

-- `checkVer` and `checkConfVer` of `CheckRegionEpoch`
unfoldable pub check_ver : Option AdminCmdType → Bool
check_ver none = true
check_ver (some split) = true
check_ver (some transfer_leader) = true
check_ver (some _) = false

unfoldable pub check_conf_ver : Option AdminCmdType → Bool
check_conf_ver (some change_peer) = true
check_conf_ver (some split) = true
check_conf_ver (some transfer_leader) = true
check_conf_ver _ = false

-- The comparison of the two epochs.
unfoldable pub compare_epochs :
    Option AdminCmdType → RegionEpoch → Region → Bool → Option CheckError
compare_epochs admin from region include_region =
    let current = region.region_epoch in
    if (check_conf_ver admin && not (from.conf_ver == current.conf_ver))
      || (check_ver admin && not (from.version == current.version))
    then some (epoch_not_match (if include_region then region ∷ [] else []))
    else none

unfoldable pub check_epoch_in :
    Option Header → Option AdminCmdType → Region → Bool → Option CheckError
check_epoch_in none admin region include_region = some missing_header
check_epoch_in (some h) admin region include_region = elim h.region_epoch [
  | none ↦ some missing_epoch
  | some from ↦ compare_epochs admin from region include_region
]

unfoldable pub check_region_epoch : Request → Region → Bool → Option CheckError
check_region_epoch req region include_region =
    if not (check_ver req.admin_request) && not (check_conf_ver req.admin_request)
    then none
    else check_epoch_in req.header req.admin_request region include_region

unfoldable pub find_in : List Peer → ℕ → Option Peer
find_in [] store_id = none
find_in (peer ∷ peers) store_id =
    if peer.store_id == store_id then some peer else find_in peers store_id

unfoldable pub find_peer : Region → ℕ → Option Peer
find_peer region store_id = find_in region.peers store_id

-- append(region.Peers[:i], region.Peers[i+1:]...) for the first peer of the store
unfoldable pub remove_from : List Peer → ℕ → List Peer
remove_from [] store_id = []
remove_from (peer ∷ peers) store_id =
    if peer.store_id == store_id then peers else peer ∷ remove_from peers store_id

unfoldable pub remove_peer : Region → ℕ → Region × Option Peer
remove_peer region store_id =
    (record region { peers = remove_from region.peers store_id }, find_in region.peers store_id)

unfoldable pub ids : List Peer → List ℕ
ids [] = []
ids (peer ∷ peers) = peer.id ∷ ids peers

unfoldable pub conf_state_from_region : Region → ConfState
conf_state_from_region region = record { nodes = ids region.peers }

unfoldable pub check_store_id : Request → ℕ → Option (Option CheckError)
check_store_id req store_id = do
  h ← req.header
  peer ← h.peer
  some (if peer.store_id == store_id then none else some store_not_match)

unfoldable pub check_term : Request → ℕ → Option (Option CheckError)
check_term req term = do
  h ← req.header
  some (if h.term == 0 || leb term (add64 h.term 1) then none else some stale_command)

unfoldable pub check_peer_id : Request → ℕ → Option (Option CheckError)
check_peer_id req peer_id = do
  h ← req.header
  peer ← h.peer
  some (if peer.id == peer_id then none else some peer_mismatch)

unfoldable pub peer_equal : Peer → Peer → Bool
peer_equal l r = l.id == r.id && l.store_id == r.store_id

-- A nil region is `none`, and equal to no other.
unfoldable pub region_equal : Option Region → Option Region → Bool
region_equal none r = false
region_equal (some l) none = false
region_equal (some l) (some r) =
    l.id == r.id
    && l.region_epoch.version == r.region_epoch.version
    && l.region_epoch.conf_ver == r.region_epoch.conf_ver
