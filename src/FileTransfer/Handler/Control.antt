-- ===== src/FileTransfer/Handler/Control.antt =====
-- transfer_handler.go: the control messages (`handleTransferControl`, `handleProgressRequest`) and the
-- dispatch on the type of a message (`handleControlMessage`, the loop of `HandleTransferRequest`).
use onli_desk_full.Common.{
  ℤ, pos, String, ◌==◌, Bool, true, false, none, some, List, [], ◌∷◌, if◌then◌else◌,
}
use onli_desk_full.Common.Map.{lookup}
use onli_desk_full.FileTransfer.Chunks.{Bytes, int_beq}
use onli_desk_full.FileTransfer.Handler.{
  ControlMessage, TransferStatus, in_progress, paused, cancelled, Conn, FileSystem, Json,
  TransferSession, TransferHandler, progressed, resumed, status_notice, progress, call_audit, send,
  send_both, save, handle_new_transfer_request, handle_transfer_response,
}
use onli_desk_full.FileTransfer.Handler.Receive.{cleanup_transfer, Slice, handle_file_chunk}

abbrev pub is_in_progress : TransferStatus → Bool
is_in_progress in_progress = true
is_in_progress _ = false

abbrev pub is_paused : TransferStatus → Bool
is_paused paused = true
is_paused _ = false

module _ (os : FileSystem) where
  abbrev pub pause :
      TransferSession os → TransferHandler os → TransferSession os × TransferHandler os
  pause s h =
      let t = record s { status = paused } in
      (t, call_audit os (progressed s.id s.request.session_id paused) (save os t h))

  abbrev pub resume :
      TransferSession os → TransferHandler os → TransferSession os × TransferHandler os
  resume s h =
      let t = record s { status = in_progress } in
      (t, call_audit os (resumed s.id s.request.session_id) (save os t h))

  abbrev pub cancel :
      TransferSession os → TransferHandler os → TransferSession os × TransferHandler os
  cancel s h =
      let t = record s { status = cancelled } in
      (t, cleanup_transfer os t (call_audit os (progressed s.id s.request.session_id cancelled) h))

  -- The session as the `switch` leaves it, and the handler.
  unfoldable pub apply_action :
      String → TransferSession os → TransferHandler os → TransferSession os × TransferHandler os
  apply_action action s h =
      if action == "pause"
      then (if is_in_progress s.status then pause s h else (s, h))
      else if action == "resume"
      then (if is_paused s.status then resume s h else (s, h))
      else if action == "cancel"
      then cancel s h
      else (s, h)

  unfoldable pub handle_transfer_control : ControlMessage → TransferHandler os → TransferHandler os
  unfolding apply_action
  handle_transfer_control c h = elim (lookup c.id h.active_sessions) [
    | none ↦ h
    | some s ↦
        let (t, k) = apply_action c.action s h in
        send_both os t (status_notice c.id t.status c.action) k
  ]

  -- As in the other progress messages, a size of 0 makes `json.Marshal` fail.
  unfoldable pub handle_progress_request : Conn → String → TransferHandler os → TransferHandler os
  handle_progress_request conn id h = elim (lookup id h.active_sessions) [
    | none ↦ h
    | some s ↦
        if int_beq s.request.file_size (pos 0)
        then h
        else send os conn (progress id s.bytes_transferred s.request.file_size) h
  ]

  unfoldable pub handle_control_message :
      Json
      → (String → String → String → String)
      → ℤ
      → Conn
      → Bytes
      → TransferHandler os
      → TransferHandler os
  unfolding handle_new_transfer_request handle_transfer_response handle_transfer_control
      handle_progress_request
  handle_control_message json path_of now conn message h = elim (json.type_of message) [
    | none ↦ h
    | some type ↦
        if type == "transfer_request"
        then elim (json.request message) [
          | none ↦ h
          | some r ↦ handle_new_transfer_request os now conn r h
        ]
        else if type == "transfer_response"
        then elim (json.response message) [
          | none ↦ h
          | some r ↦ handle_transfer_response os path_of conn r h
        ]
        else if type == "transfer_control"
        then elim (json.control message) [ none ↦ h | some c ↦ handle_transfer_control c h ]
        else if type == "progress_request"
        then elim (json.progress_id message) [
          | none ↦ h
          | some id ↦ handle_progress_request conn id h
        ]
        else h
  ]

  -- What comes in on the connections, with the time and the connection.
  pub data Event : Type 0 where
    text : ℤ → Conn → Bytes → Event
    binary : Slice → Event

  module _ (json : Json) (digest : Bytes → String)
      (path_of : String → String → String → String) where
    unfoldable pub step : TransferHandler os → Event → TransferHandler os
    unfolding handle_control_message handle_file_chunk
    step h (text now conn message) = handle_control_message json path_of now conn message h
    step h (binary m) = (handle_file_chunk os json.header digest m h).handler

    unfoldable pub run : TransferHandler os → List Event → TransferHandler os
    unfolding step
    run h [] = h
    run h (e ∷ es) = run (step h e) es
