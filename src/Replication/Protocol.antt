-- ===== src/Replication/Protocol.antt =====
-- replication/protocol.rs: the messages between nodes and the header of their frames.
pub mod Frame
use wolf_scale.Base.{ℕ, String, Bool, true, false, Option, none, some, List, [], ◌∷◌}
use wolf_scale.Wal.Entry.{WalEntry}
use wolf_scale.State.Membership.{NodeState}

pub data ErrorCode : Type 0 where
  not_leader term_mismatch node_not_found log_inconsistency timeout internal : ErrorCode

pub data Message : Type 0 where
  heartbeat :
      (term : ℕ) (leader_id : String) (commit_lsn : ℕ) (members : List (String × String)) → Message
  heartbeat_response : (node_id : String) (term last_applied_lsn : ℕ) (success : Bool) → Message
  append_entries :
      (term : ℕ) (leader_id : String) (prev_lsn prev_term : ℕ) (entries : List WalEntry)
      (leader_commit_lsn : ℕ)
      → Message
  append_entries_response : (node_id : String) (term : ℕ) (success : Bool) (match_lsn : ℕ) → Message
  request_vote : (term : ℕ) (candidate_id : String) (last_log_lsn last_log_term : ℕ) → Message
  vote_response : (node_id : String) (term : ℕ) (vote_granted : Bool) → Message
  sync_request : (node_id : String) (from_lsn max_entries : ℕ) → Message
  sync_response : (from_lsn : ℕ) (entries : List WalEntry) (has_more : Bool) → Message
  full_sync_request : (node_id : String) → Message
  full_sync_start : (tables : List String) (snapshot_lsn : ℕ) → Message
  full_sync_chunk : (table : String) (bytes : List ℕ) (is_last : Bool) → Message
  full_sync_complete : (snapshot_lsn : ℕ) → Message
  join_request : (node_id address : String) → Message
  join_response :
      (success : Bool) (leader_id leader_address : Option String) (current_term : ℕ)
      (message : Option String)
      → Message
  leave_request : (node_id : String) → Message
  leave_response : (success : Bool) → Message
  cluster_state_update : (term : ℕ) (leader_id : String) (nodes : List NodeState) → Message
  peer_heartbeat : (node_id : String) (term : ℕ) (members : List (String × String)) → Message
  status_request : Message
  status_response :
      (node_id : String) (is_leader : Bool) (term last_applied_lsn commit_lsn : ℕ)
      (leader_id : Option String)
      → Message
  write_forward : (entry : WalEntry) (client_id : String) → Message
  write_forward_response : (success : Bool) (lsn : Option ℕ) (reason : Option String) → Message
  failure : (code : ErrorCode) (message : String) → Message

unfoldable pub type_name : Message → String
type_name (heartbeat _ _ _ _) = "Heartbeat"
type_name (heartbeat_response _ _ _ _) = "HeartbeatResponse"
type_name (append_entries _ _ _ _ _ _) = "AppendEntries"
type_name (append_entries_response _ _ _ _) = "AppendEntriesResponse"
type_name (request_vote _ _ _ _) = "RequestVote"
type_name (vote_response _ _ _) = "VoteResponse"
type_name (sync_request _ _ _) = "SyncRequest"
type_name (sync_response _ _ _) = "SyncResponse"
type_name (full_sync_request _) = "FullSyncRequest"
type_name (full_sync_start _ _) = "FullSyncStart"
type_name (full_sync_chunk _ _ _) = "FullSyncChunk"
type_name (full_sync_complete _) = "FullSyncComplete"
type_name (join_request _ _) = "JoinRequest"
type_name (join_response _ _ _ _ _) = "JoinResponse"
type_name (leave_request _) = "LeaveRequest"
type_name (leave_response _) = "LeaveResponse"
type_name (cluster_state_update _ _ _) = "ClusterStateUpdate"
type_name (peer_heartbeat _ _ _) = "PeerHeartbeat"
type_name status_request = "StatusRequest"
type_name (status_response _ _ _ _ _ _) = "StatusResponse"
type_name (write_forward _ _) = "WriteForward"
type_name (write_forward_response _ _ _) = "WriteForwardResponse"
type_name (failure _ _) = "Error"
