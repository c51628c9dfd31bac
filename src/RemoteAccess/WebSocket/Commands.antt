-- ===== src/RemoteAccess/WebSocket/Commands.antt =====
-- websocket_handler.go: what `handleControlCommand` passes on.
use onli_desk_full.Common.{arith, ◌≡◌, ℤ, Bool, true, false, some, [], ◌∷◌, ◌++◌, nat_beq}
use onli_desk_full.Common.Map.{lookup}
use onli_desk_full.FileTransfer.Chunks.{Bytes}
use onli_desk_full.RemoteAccess.Session.{Session, Conn, increment_command}
use onli_desk_full.RemoteAccess.Manager.{get_session, put_session}
use onli_desk_full.RemoteAccess.WebSocket.Messages.{
  Decoders, ControlCommand, Response, forwarded_command,
}
use onli_desk_full.RemoteAccess.WebSocket.{WebSocketHandler, done, send_json}
use onli_desk_full.RemoteAccess.WebSocket.Forward.{handle_control_command}

-- Whatever the configuration says of the command, and whatever the status of the session: a control
-- command for a session whose client has another connection, which takes the message, is passed on
-- to the client, and the session counts it.
handle_control_command-forwards :
    (decode : Decoders) (up : Conn → Response → Bool) (now : ℤ) (conn : Conn) (message : Bytes)
    (h : WebSocketHandler) (r : ControlCommand) (s : Session) (c : Conn)
    → decode.control_command message ≡ some r
    → lookup r.session_id h.session_manager.sessions ≡ some s
    → s.client_conn ≡ some c
    → nat_beq c.handle conn.handle ≡ false
    → up c (forwarded_command r) ≡ true
    → handle_control_command decode up now conn message h ≡ (
      record h {
        session_manager =
            put_session r.session_id (increment_command now r.command s) h.session_manager;
        sent = h.sent ++ (c, forwarded_command r) ∷ [];
      },
      done,
    )
unfolding handle_control_command get_session send_json
handle_control_command-forwards decode up now conn message h r s c e f g o u = ground arith
