-- ===== src/RemoteAccess/WebSocket/Forward.antt =====
-- websocket_handler.go: the handlers that pass messages on between portal and client, and the
-- heartbeat.
use onli_desk_full.Common.{ℤ, String, ◌==◌, Bool, Option, none, some, if◌then◌else◌, nat_beq}
use onli_desk_full.FileTransfer.Chunks.{Bytes}
use onli_desk_full.RemoteAccess.Session.{
  Session, Conn, update_activity, increment_command, increment_screenshot, add_file_transfer,
}
use onli_desk_full.RemoteAccess.Manager.{put_session, get_session}
use onli_desk_full.RemoteAccess.WebSocket.Messages.{
  Decoders, FileRequest, not_parsed, no_session, client_not_connected, Response, heartbeat_response,
  forwarded_command, forwarded_capture, forwarded_input, forwarded_file,
}
use onli_desk_full.RemoteAccess.WebSocket.{
  WebSocketHandler, Handled, done, failed, other_than, send_json,
}

-- A method of the session that the map holds, through its pointer.
abbrev pub touch : String → (Session → Session) → Session → WebSocketHandler → WebSocketHandler
touch id method s h = record h { session_manager = put_session id (method s) h.session_manager }

unfoldable pub touch_named : ℤ → String → WebSocketHandler → WebSocketHandler
unfolding get_session update_activity
touch_named now id h = if id == "" then h else elim (get_session id h.session_manager) [
  | none ↦ h
  | some s ↦ touch id (update_activity now) s h
]

module _ (up : Conn → Response → Bool) where
  -- To a session's connection, if there is one.
  unfoldable pub send_to : Option Conn → Response → WebSocketHandler → WebSocketHandler × Handled
  unfolding send_json
  send_to none r h = (h, failed client_not_connected)
  send_to (some c) r h = send_json up c r h

  unfoldable pub forward_file :
      Conn → Option Conn → Option Conn → FileRequest → WebSocketHandler → WebSocketHandler × Handled
  unfolding send_to
  forward_file conn client portal r h =
      if other_than conn client
      then send_to client (forwarded_file r) h
      else if other_than conn portal
      then send_to portal (forwarded_file r) h
      else (h, done)

module _ (decode : Decoders) (up : Conn → Response → Bool) where
  unfoldable pub handle_control_command :
      ℤ → Conn → Bytes → WebSocketHandler → WebSocketHandler × Handled
  unfolding send_json get_session increment_command
  handle_control_command now conn message h = elim (decode.control_command message) [
    | none ↦ (h, failed (not_parsed "control command"))
    | some r ↦ elim (get_session r.session_id h.session_manager) [
      | none ↦ (h, failed no_session)
      | some s ↦
          let h' = touch r.session_id (increment_command now r.command) s h in
          elim s.client_conn [
            | none ↦ (h', done)
            | some c ↦
                if nat_beq c.handle conn.handle
                then (h', done)
                else send_json up c (forwarded_command r) h'
          ]
    ]
  ]

  unfoldable pub handle_screen_capture :
      ℤ → Conn → Bytes → WebSocketHandler → WebSocketHandler × Handled
  unfolding send_to get_session increment_screenshot
  handle_screen_capture now conn message h = elim (decode.screen_capture message) [
    | none ↦ (h, failed (not_parsed "screen capture request"))
    | some r ↦ elim (get_session r.session_id h.session_manager) [
      | none ↦ (h, failed no_session)
      | some s ↦
          send_to up s.client_conn (forwarded_capture r)
            (touch r.session_id (increment_screenshot now) s h)
    ]
  ]

  unfoldable pub handle_input_event :
      ℤ → Conn → Bytes → WebSocketHandler → WebSocketHandler × Handled
  unfolding send_to get_session update_activity
  handle_input_event now conn message h = elim (decode.input_event message) [
    | none ↦ (h, failed (not_parsed "input event"))
    | some r ↦ elim (get_session r.session_id h.session_manager) [
      | none ↦ (h, failed no_session)
      | some s ↦
          send_to up s.client_conn (forwarded_input r)
            (touch r.session_id (update_activity now) s h)
    ]
  ]

  unfoldable pub handle_file_transfer_request :
      ℤ → Conn → Bytes → WebSocketHandler → WebSocketHandler × Handled
  unfolding forward_file get_session add_file_transfer
  handle_file_transfer_request now conn message h = elim (decode.file_request message) [
    | none ↦ (h, failed (not_parsed "file transfer request"))
    | some r ↦ elim (get_session r.session_id h.session_manager) [
      | none ↦ (h, failed no_session)
      | some s ↦ forward_file up conn s.client_conn s.portal_conn r (
          if r.action == "start"
          then touch r.session_id (add_file_transfer now r.file_size) s h
          else h)
    ]
  ]

  unfoldable pub handle_heartbeat : ℤ → Conn → Bytes → WebSocketHandler → WebSocketHandler × Handled
  unfolding send_json touch_named
  handle_heartbeat now conn message h = elim (decode.heartbeat message) [
    | none ↦ (h, failed (not_parsed "heartbeat"))
    | some r ↦ send_json up conn (heartbeat_response now) (touch_named now r.session_id h)
  ]
