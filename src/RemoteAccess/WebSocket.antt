-- ===== src/RemoteAccess/WebSocket.antt =====
-- src/server/internal/remoteaccess/websocket_handler.go: the handlers of the messages on a WebSocket
-- connection. A connection takes a message or not (`up`). Each handler reads the clock once, as
-- `now`, and `fresh` is the identifier that the call may generate. The console log is left out.
pub mod Messages
pub mod Forward
pub mod Dispatch
pub mod Effects
pub mod Refines
pub mod Passing
pub mod Safety
pub mod Commands
use onli_desk_full.Common.{
  ◌≡◌, ℕ, ℤ, pos, ◌/◌, String, ◌==◌, Bool, true, false, ◌&&◌, not, Option, none, some, List, [],
  ◌∷◌, ◌++◌, if◌then◌else◌, nat_beq,
}
use onli_desk_full.Common.Map.{lookup}
use onli_desk_full.FileTransfer.Chunks.{Bytes}
use onli_desk_full.RemoteAccess.Audit.{AuditEvent, text, info}
use onli_desk_full.RemoteAccess.Config.{RemoteAccessConfig}
use onli_desk_full.RemoteAccess.Session.{
  Session, Conn, Error, Result, ok, err, update_activity, increment_command, increment_screenshot,
  add_file_transfer,
}
use onli_desk_full.RemoteAccess.Manager.{
  Manager, Created, created, refused, panicked, new_manager, event, put_session, create_session,
  get_session, register_connection, terminate_session, manager_request_privilege,
  manager_approve_privilege, manager_deny_privilege, manager_revoke_privilege,
}
use onli_desk_full.RemoteAccess.Manager.Upkeep.{shutdown}
use onli_desk_full.RemoteAccess.WebSocket.Messages.{
  Decoders, ControlCommand, FileRequest, Heartbeat, Fault, not_parsed, unknown_message_type,
  refused_by, no_session, client_not_connected, not_written, Response, session_registered,
  session_created, session_joined, session_terminated, privilege_requested,
  privilege_response_processed, privilege_revoked, heartbeat_response, error_response,
  forwarded_command, forwarded_capture, forwarded_input, forwarded_file,
}

-- `WebSocketHandler`: its session manager, the messages sent, oldest first, and the events that it
-- logs itself, newest first.
pub record WebSocketHandler : Type 0 where
  pub session_manager : Manager
  pub sent : List (Conn × Response)
  pub log : List AuditEvent

unfoldable pub new_web_socket_handler : RemoteAccessConfig → WebSocketHandler
unfolding new_manager
new_web_socket_handler c = record { session_manager = new_manager c; sent = []; log = [] }

-- How a handler ends: with nil, with an error, or with a nil pointer.
pub data Handled : Type 0 where
  done crashed : Handled
  failed : Fault → Handled

-- `a != nil && a != conn`.
abbrev pub other_than : Conn → Option Conn → Bool
other_than conn none = false
other_than conn (some c) = not (nat_beq c.handle conn.handle)

unfoldable pub shut_down : ℤ → WebSocketHandler → WebSocketHandler
unfolding shutdown
shut_down now h = record h { session_manager = shutdown now h.session_manager }

module _ (up : Conn → Response → Bool) where
  unfoldable pub send_json : Conn → Response → WebSocketHandler → WebSocketHandler × Handled
  send_json conn r h =
      if up conn r
      then (record h { sent = h.sent ++ (conn, r) ∷ [] }, done)
      else (h, failed not_written)

  -- An answer after a call of the manager that returned an error or not.
  unfoldable pub answer :
      String → Conn → Response → Result Manager → WebSocketHandler → WebSocketHandler × Handled
  unfolding send_json
  answer what conn r (err e) h = (h, failed (refused_by what e))
  answer what conn r (ok m) h = send_json conn r (record h { session_manager = m })

  -- The connection of a new session is its client's.
  unfoldable pub register_created :
      ℤ → Conn → Manager × Created → WebSocketHandler → WebSocketHandler × Handled
  unfolding send_json
  register_created now conn (m, refused e) h =
      (record h { session_manager = m }, failed (refused_by "create session" e))
  register_created now conn (m, panicked) h = (record h { session_manager = m }, crashed)
  register_created now conn (m, created s) h = elim (register_connection now s.id conn "client" m) [
    | err e ↦ (record h { session_manager = m }, failed (refused_by "register connection" e))
    | ok m' ↦
        send_json conn (session_created s.id (lookup s.id m'.sessions) now)
          (record h { session_manager = m' })
  ]

module _ (decode : Decoders) (up : Conn → Response → Bool) where
  unfoldable pub handle_session_register :
      ℤ → Conn → Bytes → WebSocketHandler → WebSocketHandler × Handled
  unfolding answer
  handle_session_register now conn message h = elim (decode.session_register message) [
    | none ↦ (h, failed (not_parsed "session register"))
    | some r ↦
        answer up "register connection" conn (session_registered r.session_id now)
          (register_connection now r.session_id conn r.role h.session_manager) h
  ]

  unfoldable pub handle_session_create :
      String → ℤ → Conn → Bytes → WebSocketHandler → WebSocketHandler × Handled
  unfolding register_created
  handle_session_create fresh now conn message h = elim (decode.session_create message) [
    | none ↦ (h, failed (not_parsed "session create request"))
    | some r ↦
        register_created up now conn
          (create_session fresh now r.client_id r.technician_id r.client_info h.session_manager) h
  ]

  unfoldable pub handle_session_join :
      ℤ → Conn → Bytes → WebSocketHandler → WebSocketHandler × Handled
  unfolding send_json get_session
  handle_session_join now conn message h = elim (decode.session_join message) [
    | none ↦ (h, failed (not_parsed "session join request"))
    | some r ↦ elim (get_session r.session_id h.session_manager) [
      | none ↦ (h, failed no_session)
      | some s ↦ elim (register_connection now r.session_id conn "portal" h.session_manager) [
        | err e ↦ (h, failed (refused_by "register portal connection" e))
        | ok m ↦
            send_json up conn (session_joined s.id (lookup r.session_id m.sessions) now)
              (record h { session_manager = m })
      ]
    ]
  ]

  unfoldable pub handle_session_terminate :
      ℤ → Conn → Bytes → WebSocketHandler → WebSocketHandler × Handled
  unfolding answer
  handle_session_terminate now conn message h = elim (decode.session_terminate message) [
    | none ↦ (h, failed (not_parsed "session terminate request"))
    | some r ↦
        answer up "terminate session" conn (session_terminated r.session_id now)
          (terminate_session now r.session_id h.session_manager) h
  ]

  unfoldable pub handle_privilege_request :
      String → ℤ → Conn → Bytes → WebSocketHandler → WebSocketHandler × Handled
  unfolding send_json
  handle_privilege_request fresh now conn message h = elim (decode.privilege_ask message) [
    | none ↦ (h, failed (not_parsed "privilege request"))
    | some r ↦
        elim (manager_request_privilege fresh now r.session_id r.privilege_type r.justification
          r.duration h.session_manager) [
            | err e ↦ (h, failed (refused_by "request privilege" e))
            | ok (m, request_id) ↦
                send_json up conn (privilege_requested request_id r.session_id now)
                  (record h { session_manager = m })
          ]
  ]

  unfoldable pub handle_privilege_response :
      ℤ → Conn → Bytes → WebSocketHandler → WebSocketHandler × Handled
  unfolding answer
  handle_privilege_response now conn message h = elim (decode.privilege_response message) [
    | none ↦ (h, failed (not_parsed "privilege response"))
    | some r ↦
        answer up "process privilege response" conn
          (privilege_response_processed r.request_id r.session_id r.approved now)
          (if r.approved
            then manager_approve_privilege now r.session_id r.request_id r.approved_by
                h.session_manager
            else manager_deny_privilege now r.session_id r.request_id r.approved_by
                h.session_manager)
          h
  ]

  unfoldable pub handle_privilege_revoke :
      ℤ → Conn → Bytes → WebSocketHandler → WebSocketHandler × Handled
  unfolding answer
  handle_privilege_revoke now conn message h = elim (decode.privilege_revoke message) [
    | none ↦ (h, failed (not_parsed "privilege revoke request"))
    | some r ↦
        answer up "revoke privilege" conn (privilege_revoked r.session_id r.privilege_type now)
          (manager_revoke_privilege now r.session_id r.privilege_type h.session_manager) h
  ]
