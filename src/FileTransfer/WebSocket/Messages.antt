-- ===== src/FileTransfer/WebSocket/Messages.antt =====
-- websocket_handler.go: the messages of a connection that carries transfers, and what it is sent.
-- `encoding/json` is a record of decoders, one for each struct that the handlers decode into. A
-- message that is sent keeps the fields that tell it from the others of its kind.
use onli_desk_full.Common.{ℤ, String, Bool, Option}
use onli_desk_full.FileTransfer.Chunks.{Bytes}
use onli_desk_full.FileTransfer.Handler.{FileTransferRequest, ControlMessage, TransferStatus}
use onli_desk_full.FileTransfer.Manager.{TransferError}

-- The header of a chunk; `Data`, `Checksum` and `IsLast` are not read from it.
pub record ChunkHeader : Type 0 where
  pub transfer_id : String
  pub chunk_index : ℤ

pub record Approval : Type 0 where
  pub transfer_id : String
  pub is_approved : Bool
  pub message : String

pub record Registration : Type 0 where
  pub session_id : String
  pub role : String

pub record Decoders : Type 0 where
  pub base_type : Bytes → Option String
  pub file_request : Bytes → Option FileTransferRequest
  pub approval : Bytes → Option Approval
  pub control : Bytes → Option ControlMessage
  pub progress_id : Bytes → Option String
  pub registration : Bytes → Option Registration
  pub chunk_header : Bytes → Option ChunkHeader

pub data Fault : Type 0 where
  not_parsed unknown_message_type unknown_action stream_missing : String → Fault
  refused_by : String → TransferError → Fault
  too_short bad_header_length not_written not_encoded : Fault
  stream_inactive stream_paused seek_failed write_failed : Fault

pub data Reply : Type 0 where
  transfer_response : String → TransferStatus → Reply
  request_notification : FileTransferRequest → Reply
  status_update : String → TransferStatus → String → Reply
  control_response : String → String → Reply
  progress_response : String → ℤ → ℤ → Reply
  session_registered : String → Reply
  chunk_ack : String → ℤ → Reply
  error_response : String → Fault → Reply
  pong : Reply

-- The calls of the audit logger.
pub data Logged : Type 0 where
  websocket_connected websocket_disconnected : Logged
  registered : String → String → Logged
  security_violation : String → Fault → Logged
