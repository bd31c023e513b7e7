-- ===== src/Raft/Types.antt =====
-- The values that the raft package exchanges: proto/pkg/eraftpb/eraftpb.pb.go, and the error values
-- of raft/storage.go, raft/raft.go and raft/rawnode.go.
use tiny_kv_practice.Prelude.{ℕ, Bool, false, Option, none, List, []}

pub data EntryType : Type 0 where
  entry_normal entry_conf_change : EntryType

-- `payload` is the field Data.
pub record Entry : Type 0 where
  pub entry_type : EntryType
  pub term : ℕ
  pub index : ℕ
  pub payload : List ℕ

-- The zero value of an entry, Go's `pb.Entry{}`.
abbrev pub no_entry : Entry
no_entry = record { entry_type = entry_normal; term = 0; index = 0; payload = [] }

pub data MessageType : Type 0 where
  msg_hup msg_beat msg_propose msg_append msg_append_response : MessageType
  msg_request_vote msg_request_vote_response msg_snapshot : MessageType
  msg_heartbeat msg_heartbeat_response msg_transfer_leader msg_timeout_now : MessageType

-- The field Snapshot of a message is neither set nor read by the code, and is left out.
pub record Message : Type 0 where
  pub msg_type : MessageType
  pub to : ℕ
  pub from : ℕ
  pub term : ℕ
  pub log_term : ℕ
  pub index : ℕ
  pub entries : List Entry
  pub commit : ℕ
  pub reject : Bool

-- A message in which only the type, the addresses and the term are set.
abbrev pub message : MessageType → ℕ → ℕ → ℕ → Message
message t to from term = record {
  msg_type = t;
  to = to;
  from = from;
  term = term;
  log_term = 0;
  index = 0;
  entries = [];
  commit = 0;
  reject = false;
}

pub record HardState : Type 0 where
  pub term : ℕ
  pub vote : ℕ
  pub commit : ℕ

pub record ConfState : Type 0 where
  pub nodes : List ℕ

pub record SnapshotMetadata : Type 0 where
  pub conf_state : Option ConfState
  pub index : ℕ
  pub term : ℕ

-- A nil Metadata is `none`.
pub record Snapshot : Type 0 where
  pub payload : List ℕ
  pub metadata : Option SnapshotMetadata

abbrev pub no_snapshot : Snapshot
no_snapshot = record { payload = []; metadata = none }

pub data ConfChangeType : Type 0 where
  add_node remove_node : ConfChangeType

pub record ConfChange : Type 0 where
  pub change_type : ConfChangeType
  pub node_id : ℕ
  pub context : List ℕ

pub data Error : Type 0 where
  compacted snap_out_of_date unavailable snapshot_temporarily_unavailable : Error
  proposal_dropped step_local_msg step_peer_not_found : Error
  none_as_id heartbeat_tick_not_positive election_tick_too_small storage_nil : Error
  marshal_failed : Error
