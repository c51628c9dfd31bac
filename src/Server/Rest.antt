-- ===== src/Server/Rest.antt =====
-- src/server/cmd/main.go: the REST interface, each handler a function of the decoded request and of
-- the handler of transfers. A body that cannot be decoded is `none`. The headers and the fixed texts
-- of the answers are left out.
pub mod Keeps
use onli_desk_full.Common.{
  ℕ, ℤ, pos, leb_ℤ, nat_beq, String, ◌==◌, Bool, true, false, Option, none, some, List, [], ◌∷◌,
  length, if◌then◌else◌,
}
use onli_desk_full.Common.Map.{Map, lookup}
use onli_desk_full.FileTransfer.Handler.{FileSystem, TransferSession, TransferStatus, completed}
use onli_desk_full.FileTransfer.Manager.{
  TransferManager, TransferConfig, TransferError, is_completed, Answer, get_active_sessions,
  approve_transfer, pause_transfer, resume_transfer, cancel_transfer, update_transfer_config,
}
use onli_desk_full.FileTransfer.Manager.Statistics.{TransferStatistics, get_transfer_statistics}
use onli_desk_full.FileTransfer.WebSocket.{WebSocketHandler, get_progress}

-- `status.Approved` and `status.Message`; the message goes only into the log.
pub record ApprovalBody : Type 0 where
  pub is_approved : Bool
  pub message : String

pub data Request : Type 0 where
  get_health get_info list_transfers show_config show_statistics : Request
  show_transfer show_progress download : String → Request
  decide : String → Option ApprovalBody → Request
  control : String → Option String → Request
  new_config : Option TransferConfig → Request

pub data Problem : Type 0 where
  transfer_missing invalid_body invalid_action not_completed no_file : Problem
  stream_missing : Problem
  refused : TransferError → Problem

pub record ApiInfo : Type 0 where
  pub name : String
  pub version : String
  pub description : String
  pub endpoints : List (String × String)
  pub features : List String

abbrev api_info : ApiInfo
api_info = record {
  name = "Onlidesk File Transfer API";
  version = "1.0.0";
  description = "Secure file transfer API for remote desktop sessions";
  endpoints =
      ("websocket", "/ws/filetransfer")
      ∷ ("transfers", "/api/v1/transfers")
      ∷ ("config", "/api/v1/config/transfer")
      ∷ ("statistics", "/api/v1/stats")
      ∷ ("health", "/health")
      ∷ [];
  features =
      "Secure file transfer" ∷ "Real-time progress tracking" ∷ "Transfer approval workflow"
      ∷ "File encryption" ∷ "Malware scanning" ∷ "Audit logging" ∷ [];
}

-- A status of 200 with a body, or with none if it cannot be encoded; another status; the file that is
-- served, under its name; or a closed connection after a panic.
pub data Reply (os : FileSystem) : Type 0 where
  healthy : String → ℤ → Reply os
  info : ApiInfo → Reply os
  transfers : Map (TransferSession os) → Reply os
  transfer : TransferSession os → Reply os
  progress : String → ℤ → ℤ → Reply os
  config_body : TransferConfig → Reply os
  statistics : TransferStatistics → ℕ → Reply os
  success no_body crashed : Reply os
  http_error : ℕ → Problem → Reply os
  served : String → String → Reply os

module _ (os : FileSystem) where
  -- A change of the manager that both share.
  abbrev manage : TransferManager os → WebSocketHandler os → WebSocketHandler os
  manage m h = record h { session_manager = m }

  unfoldable pub after_call : Answer os → WebSocketHandler os → WebSocketHandler os × Reply os
  after_call (m, none) h = (manage m h, success)
  after_call (m, some e) h = (manage m h, http_error 500 (refused e))

  unfoldable pub handle_get_transfers : WebSocketHandler os → Reply os
  unfolding get_active_sessions
  handle_get_transfers h = transfers (get_active_sessions os h.session_manager)

  unfoldable pub handle_get_transfer : String → WebSocketHandler os → Reply os
  handle_get_transfer id h = elim (lookup id h.session_manager.sessions) [
    | none ↦ http_error 404 transfer_missing
    | some s ↦ transfer s
  ]

  unfoldable pub handle_approve_transfer :
      (String → String → String → String)
      → String
      → Option ApprovalBody
      → WebSocketHandler os
      → WebSocketHandler os × Reply os
  unfolding after_call
  handle_approve_transfer path_of id none h = (h, http_error 400 invalid_body)
  handle_approve_transfer path_of id (some a) h =
      after_call (approve_transfer os path_of id a.is_approved h.session_manager) h

  unfoldable pub handle_control_transfer :
      String → Option String → WebSocketHandler os → WebSocketHandler os × Reply os
  unfolding after_call
  handle_control_transfer id none h = (h, http_error 400 invalid_body)
  handle_control_transfer id (some action) h =
      if action == "pause"
      then after_call (pause_transfer os id h.session_manager) h
      else if action == "resume"
      then after_call (resume_transfer os id h.session_manager) h
      else if action == "cancel"
      then after_call (cancel_transfer os id h.session_manager) h
      else (h, http_error 400 invalid_action)

  -- The worker of the transfer is at the chunk `current`. The percentage of an empty total is not a
  -- number, which JSON cannot encode.
  unfoldable pub handle_get_progress : ℤ → String → WebSocketHandler os → Reply os
  unfolding get_progress
  handle_get_progress current id h = elim (lookup id h.session_manager.file_streams) [
    | none ↦ http_error 404 stream_missing
    | some f ↦
        if nat_beq f.total_size 0
        then no_body
        else progress f.transfer_id (get_progress current f) (pos f.total_size)
  ]

  -- `time.NewTicker` panics if the interval is not positive; the configuration is set by then.
  unfoldable pub handle_update_transfer_config :
      Option TransferConfig → WebSocketHandler os → WebSocketHandler os × Reply os
  unfolding update_transfer_config
  handle_update_transfer_config none h = (h, http_error 400 invalid_body)
  handle_update_transfer_config (some c) h =
      let m = update_transfer_config os c h.session_manager in
      (manage m h, if leb_ℤ c.cleanup_interval (pos 0) then crashed else success)

  unfoldable pub handle_statistics : WebSocketHandler os → Reply os
  unfolding get_transfer_statistics
  handle_statistics h =
      statistics (get_transfer_statistics os h.session_manager) (length h.connections)

  unfoldable pub handle_file_download : String → WebSocketHandler os → Reply os
  handle_file_download id h = elim (lookup id h.session_manager.sessions) [
    | none ↦ http_error 404 transfer_missing
    | some s ↦ elim (is_completed s.status) [
      | false ↦ http_error 400 not_completed
      | true ↦
          if s.temp_path == ""
          then http_error 404 no_file
          else served s.request.filename s.temp_path
    ]
  ]

  module _ (path_of : String → String → String → String) where
    -- A request at a time, when the workers are at the chunks `current`.
    unfoldable pub handle_rest :
        ℤ → (String → ℤ) → Request → WebSocketHandler os → WebSocketHandler os × Reply os
    unfolding handle_get_transfers handle_get_transfer handle_approve_transfer
        handle_control_transfer handle_get_progress handle_update_transfer_config handle_statistics
        handle_file_download
    handle_rest now current get_health h = (h, healthy "1.0.0" now)
    handle_rest now current get_info h = (h, info api_info)
    handle_rest now current list_transfers h = (h, handle_get_transfers h)
    handle_rest now current (show_transfer id) h = (h, handle_get_transfer id h)
    handle_rest now current (decide id a) h = handle_approve_transfer path_of id a h
    handle_rest now current (control id c) h = handle_control_transfer id c h
    handle_rest now current (show_progress id) h = (h, handle_get_progress (current id) id h)
    handle_rest now current show_config h = (h, config_body h.session_manager.config)
    handle_rest now current (new_config c) h = handle_update_transfer_config c h
    handle_rest now current show_statistics h = (h, handle_statistics h)
    handle_rest now current (download id) h = (h, handle_file_download id h)
