-- ===== src/FileTransfer/WebSocket.antt =====
-- src/server/internal/filetransfer/websocket_handler.go: the handlers of the text messages, each on the
-- whole state that it changes, and file_stream.go: `GetProgress`. Parameters: the files of the
-- operating system, the JSON decoders, whether a message can be written to a connection, and the
-- name of a temporary file.
pub mod Messages
pub mod Chunks
pub mod Dispatch
pub mod Framing
pub mod Keeps
pub mod Texts
pub mod Rounds
pub mod Unanswered
pub use Messages.*
use Prim.Native.String.{◌++◌ as concat}
use onli_desk_full.Common.{
  ℕ, suc, nat_beq, ◌+◌, ◌*◌, ℤ, pos, negsuc, ltb_ℤ, String, ◌==◌, Bool, true, Option, none, some,
  List, [], ◌∷◌, ◌++◌, if◌then◌else◌,
}
use onli_desk_full.Common.Int.{wrap64}
use onli_desk_full.Common.Map.{Map, lookup, insert}
use onli_desk_full.FileTransfer.Chunks.{Bytes}
use onli_desk_full.FileTransfer.Handler.{
  Conn, FileSystem, TransferStatus, approved, TransferSession,
}
use onli_desk_full.FileTransfer.Manager.{
  TransferManager, TransferConfig, FileStream, Answer, new_transfer_manager,
  create_transfer_session, identified, created, approve_transfer, pause_transfer, resume_transfer,
  cancel_transfer, shutdown_transfers, default_transfer_config, stream_chunk_size,
}

-- How a handler ends: with nil, with an error, or not at all, since it waits for a lock that it holds.
pub data Handled : Type 0 where
  done blocked : Handled
  erred : Fault → Handled

-- `int64(chunkIndex) * ChunkSize`.
unfoldable pub offset_of : ℤ → ℤ
unfolding wrap64
offset_of (pos n) = wrap64 (pos (n * stream_chunk_size))
offset_of (negsuc n) = wrap64 (negsuc (n * stream_chunk_size + 65_535))

-- `BytesTransferred` of a stream whose worker is at the chunk `current`.
unfoldable pub get_progress : ℤ → FileStream → ℤ
unfolding offset_of
get_progress current f =
    if ltb_ℤ (pos f.total_size) (offset_of current) then pos f.total_size else offset_of current

module _ (os : FileSystem) where
  -- The messages sent are oldest first, the log newest first. `written` are the writes of chunks:
  -- the transfer, the offset and the bytes, newest first.
  pub record WebSocketHandler : Type 0 where
    pub session_manager : TransferManager os
    pub connections : Map Conn
    pub config : TransferConfig
    pub sent : List (Conn × Reply)
    pub log : List Logged
    pub written : List (String × ℤ × Bytes)

  unfoldable pub new_web_socket_handler : Option TransferConfig → os.Files → WebSocketHandler
  unfolding new_transfer_manager default_transfer_config
  new_web_socket_handler c files =
      let given : TransferConfig = elim c [ none ↦ default_transfer_config | some d ↦ d ] in
      record {
        session_manager = new_transfer_manager os (some given) files;
        connections = [];
        config = given;
        sent = [];
        log = [];
        written = [];
      }

  unfoldable pub shut_down : ℤ → WebSocketHandler → WebSocketHandler
  unfolding shutdown_transfers
  shut_down now h = record h { session_manager = shutdown_transfers os now h.session_manager }

  abbrev pub with_manager : TransferManager os → WebSocketHandler → WebSocketHandler
  with_manager m h = record h { session_manager = m }

  abbrev pub logging : Logged → WebSocketHandler → WebSocketHandler
  logging e h = record h { log = e ∷ h.log }

  module _ (up : Conn → Reply → Bool) where
    unfoldable pub send_json : Conn → Reply → WebSocketHandler → WebSocketHandler × Handled
    send_json conn r h =
        if up conn r
        then (record h { sent = h.sent ++ (conn, r) ∷ [] }, done)
        else (h, erred not_written)

    -- A message that is sent and whose error is not looked at.
    unfoldable pub notify : Option Conn → Reply → WebSocketHandler → WebSocketHandler
    unfolding send_json
    notify none r h = h
    notify (some c) r h = (send_json c r h).0

    -- After a method of the manager: its error, or an answer.
    unfoldable pub answer :
        String → Conn → Reply → Answer os → WebSocketHandler → WebSocketHandler × Handled
    unfolding send_json
    answer what conn r (m, none) h = send_json conn r (with_manager m h)
    answer what conn r (m, some e) h = (with_manager m h, erred (refused_by what e))

    -- `notifyPortalOfTransferRequest`.
    unfoldable pub notify_portal : TransferSession os → WebSocketHandler → WebSocketHandler
    unfolding notify
    notify_portal s h =
        notify (lookup (concat s.request.session_id "_portal") h.connections)
          (request_notification s.request) h

  module _ (decode : Decoders) (up : Conn → Reply → Bool)
      (path_of : String → String → String → String) where
    -- The rest of the handler, with the session that was created.
    unfoldable pub answer_request :
        Conn → TransferSession os → WebSocketHandler → WebSocketHandler × Handled
    unfolding send_json answer notify_portal
    answer_request conn s h =
        if h.config.require_approval
        then send_json up conn (transfer_response s.id s.status) (notify_portal up s h)
        else answer up "auto-approve transfer" conn (transfer_response s.id approved)
            (approve_transfer os path_of s.id true h.session_manager) h

    unfoldable pub handle_file_transfer_request :
        String → ℤ → Conn → Bytes → WebSocketHandler → WebSocketHandler × Handled
    unfolding answer_request
    handle_file_transfer_request fresh now conn message h = elim (decode.file_request message) [
      | none ↦ (h, erred (not_parsed "transfer request"))
      | some r ↦
          let (m, error) =
            create_transfer_session os fresh now r (some conn) none h.session_manager in
          elim error [
            | some e ↦ (with_manager m h, erred (refused_by "create transfer session" e))
            | none ↦
                answer_request conn (created os now (identified os fresh r) (some conn) none)
                  (with_manager m h)
          ]
    ]

    unfoldable pub handle_transfer_approval :
        Conn → Bytes → WebSocketHandler → WebSocketHandler × Handled
    unfolding notify
    handle_transfer_approval conn message h = elim (decode.approval message) [
      | none ↦ (h, erred (not_parsed "approval message"))
      | some a ↦
          let (m, error) =
            approve_transfer os path_of a.transfer_id a.is_approved h.session_manager in
          elim error [
            | some e ↦ (with_manager m h, erred (refused_by "process approval" e))
            | none ↦ elim (lookup a.transfer_id m.sessions) [
              | none ↦ (with_manager m h, done)
              | some s ↦ (
                notify up s.client_conn (status_update a.transfer_id s.status a.message)
                    (with_manager m h),
                done,
              )
            ]
          ]
    ]

  module _ (decode : Decoders) (up : Conn → Reply → Bool) where
    unfoldable pub handle_transfer_control :
        Conn → Bytes → WebSocketHandler → WebSocketHandler × Handled
    unfolding answer
    handle_transfer_control conn message h = elim (decode.control message) [
      | none ↦ (h, erred (not_parsed "control message"))
      | some c ↦
          let confirm : Reply = control_response c.id c.action in
          let what : String = "execute control action" in
          if c.action == "pause"
          then answer up what conn confirm (pause_transfer os c.id h.session_manager) h
          else if c.action == "resume"
          then answer up what conn confirm (resume_transfer os c.id h.session_manager) h
          else if c.action == "cancel"
          then answer up what conn confirm (cancel_transfer os c.id h.session_manager) h
          else (h, erred (unknown_action c.action))
    ]

    -- `current` says at which chunk the worker of each transfer is. The percentage of an empty total is
    -- not a number, which `json.Marshal` refuses.
    unfoldable pub handle_progress_request :
        (String → ℤ) → Conn → Bytes → WebSocketHandler → WebSocketHandler × Handled
    unfolding send_json get_progress
    handle_progress_request current conn message h = elim (decode.progress_id message) [
      | none ↦ (h, erred (not_parsed "progress request"))
      | some id ↦ elim (lookup id h.session_manager.file_streams) [
        | none ↦ (h, erred (stream_missing id))
        | some f ↦
            if nat_beq f.total_size 0
            then (h, erred not_encoded)
            else send_json up conn
                (progress_response f.transfer_id (get_progress (current id) f) (pos f.total_size)) h
      ]
    ]

    unfoldable pub handle_session_register :
        Conn → Bytes → WebSocketHandler → WebSocketHandler × Handled
    unfolding send_json
    handle_session_register conn message h = elim (decode.registration message) [
      | none ↦ (h, erred (not_parsed "session register"))
      | some r ↦ send_json up conn (session_registered r.session_id) (record h {
        connections = insert r.session_id conn h.connections;
        log = registered r.session_id r.role ∷ h.log;
      })
    ]
