-- ===== src/RemoteAccess/WebSocket/Dispatch.antt =====
-- websocket_handler.go: `handleMessage` and the loop of `HandleWebSocket`.
use onli_desk_full.Common.{
  List, [], ◌∷◌, ℤ, String, ◌==◌, Bool, true, false, none, some, List, [], ◌∷◌, if◌then◌else◌,
}
use onli_desk_full.FileTransfer.Chunks.{Bytes}
use onli_desk_full.RemoteAccess.Audit.Log.{security_violation}
use onli_desk_full.RemoteAccess.Audit.{text, info}
use onli_desk_full.RemoteAccess.Session.{Conn}
use onli_desk_full.RemoteAccess.Manager.{event}
use onli_desk_full.RemoteAccess.WebSocket.Messages.{
  Decoders, not_parsed, unknown_message_type, Response, error_response,
}
use onli_desk_full.RemoteAccess.WebSocket.{
  WebSocketHandler, Handled, done, crashed, failed, send_json, handle_session_register,
  handle_session_create, handle_session_join, handle_session_terminate, handle_privilege_request,
  handle_privilege_response, handle_privilege_revoke,
}
use onli_desk_full.RemoteAccess.WebSocket.Forward.{
  handle_control_command, handle_screen_capture, handle_input_event, handle_file_transfer_request,
  handle_heartbeat,
}

-- What the connection receives, with the time and a fresh identifier for each message.
pub data Event : Type 0 where
  text_message : ℤ → String → Bytes → Event
  other_message : Event

-- What `HandleWebSocket` logs of a connection: that it was made, or that the upgrade failed, and why.
unfoldable pub connected : ℤ → Conn → String → WebSocketHandler → WebSocketHandler
connected now conn agent h = record h {
  log =
      record (event "websocket_connected" "" info now
        (("connection_type", text "remoteaccess") ∷ [])) {
          ip_address = conn.remote_addr;
          user_agent = agent;
        }
      ∷ h.log;
}

unfoldable pub upgrade_failed : ℤ → String → String → WebSocketHandler → WebSocketHandler
unfolding security_violation
upgrade_failed now address violation h = record h {
  log = security_violation now "" "" "" violation address ∷ h.log;
}

module _ (up : Conn → Response → Bool) where
  -- The loop of a connection. An error is sent back; a nil pointer ends the connection.
  unfoldable pub after_message : ℤ → Conn → WebSocketHandler × Handled → WebSocketHandler × Bool
  unfolding send_json
  after_message now conn (h, done) = (h, true)
  after_message now conn (h, failed f) = ((send_json up conn (error_response f now) h).0, true)
  after_message now conn (h, crashed) = (h, false)

module _ (decode : Decoders) (up : Conn → Response → Bool) where
  unfoldable pub dispatch :
      String → String → ℤ → Conn → Bytes → WebSocketHandler → WebSocketHandler × Handled
  dispatch type fresh now conn message h =
      if type == "session_register"
      then handle_session_register decode up now conn message h
      else if type == "session_create"
      then handle_session_create decode up fresh now conn message h
      else if type == "session_join"
      then handle_session_join decode up now conn message h
      else if type == "session_terminate"
      then handle_session_terminate decode up now conn message h
      else if type == "privilege_request"
      then handle_privilege_request decode up fresh now conn message h
      else if type == "privilege_response"
      then handle_privilege_response decode up now conn message h
      else if type == "privilege_revoke"
      then handle_privilege_revoke decode up now conn message h
      else if type == "control_command"
      then handle_control_command decode up now conn message h
      else if type == "screen_capture"
      then handle_screen_capture decode up now conn message h
      else if type == "input_event"
      then handle_input_event decode up now conn message h
      else if type == "file_transfer_request"
      then handle_file_transfer_request decode up now conn message h
      else if type == "heartbeat"
      then handle_heartbeat decode up now conn message h
      else (h, failed (unknown_message_type type))

  unfoldable pub handle_message :
      String → ℤ → Conn → Bytes → WebSocketHandler → WebSocketHandler × Handled
  unfolding dispatch
  handle_message fresh now conn message h = elim (decode.base_type message) [
    | none ↦ (h, failed (not_parsed "message"))
    | some type ↦ dispatch type fresh now conn message h
  ]

  -- One round of the loop: the handler after it, and whether the loop goes on.
  unfoldable pub receive : Conn → Event → WebSocketHandler → WebSocketHandler × Bool
  unfolding handle_message after_message
  receive conn other_message h = (h, true)
  receive conn (text_message now fresh message) h =
      after_message up now conn (handle_message fresh now conn message h)

  unfoldable pub message_loop : Conn → List Event → WebSocketHandler → WebSocketHandler
  unfolding receive
  message_loop conn [] h = h
  message_loop conn (e ∷ es) h =
      let rest = message_loop conn es (receive conn e h).0 in
      if (receive conn e h).1 then rest else (receive conn e h).0

  -- Rounds of any connections' loops, in the order in which they take place.
  unfoldable pub receive_all : List (Conn × Event) → WebSocketHandler → WebSocketHandler
  unfolding receive
  receive_all [] h = h
  receive_all ((conn, e) ∷ es) h = receive_all es (receive conn e h).0
