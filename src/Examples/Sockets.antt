-- ===== src/Examples/Sockets.antt =====
-- Messages and requests to a server with one session, and the theorems on the handlers at them.
use onli_desk_full.Common.{
  Bool, zero, suc, ◌≡◌, refl, ℤ, pos, pos_part, ◌≤ℤ◌, String, ◌==◌, true, Option, none, some, List,
  [], ◌∷◌, if◌then◌else◌, length, take, drop,
}
use onli_desk_full.Common.Int.{◌+ℤ◌}
use onli_desk_full.Common.Map.{lookup, insert}
use onli_desk_full.FileTransfer.Chunks.{Bytes}
use onli_desk_full.RemoteAccess.Config.{validate, first_invalid}
use onli_desk_full.RemoteAccess.Config.Defaults.{default_config}
use onli_desk_full.RemoteAccess.Session.{
  Session, Conn, ClientInfo, ActivePrivilege, new_session, request_privilege, approve_privilege,
  decide_request,
}
use onli_desk_full.RemoteAccess.Session.Requests.{find_request}
use onli_desk_full.RemoteAccess.Session.Backing.{BackedBy}
use onli_desk_full.RemoteAccess.Manager.{
  Manager, new_manager, create_session, register_connection, manager_request_privilege,
  manager_approve_privilege, clamp_duration, max_duration, opened, get_all_sessions,
}
use onli_desk_full.RemoteAccess.WebSocket.Messages.{Decoders, ControlCommand, Response}
use onli_desk_full.RemoteAccess.WebSocket.{
  WebSocketHandler, new_web_socket_handler, handle_session_create, handle_privilege_request,
  handle_privilege_response,
}
use onli_desk_full.RemoteAccess.WebSocket.Dispatch.{
  Event, text_message, receive, receive_all, dispatch, handle_message, after_message,
}
use onli_desk_full.RemoteAccess.WebSocket.Effects.{Calls}
use onli_desk_full.RemoteAccess.WebSocket.Safety.{receive_all-refines, messages_privileges_capped}
use onli_desk_full.RemoteAccess.Http.Replies.{
  PrivilegeBody, ApproveBody, reply, sessions_page, privilege_approved,
}
use onli_desk_full.RemoteAccess.Http.{handle_get_sessions}
use onli_desk_full.RemoteAccess.Http.Privileges.{
  duration_of, handle_request_privilege, handle_approve_privilege,
}
use onli_desk_full.RemoteAccess.Http.Routes.{Request, update_config, terminate_session, handle_all}
use onli_desk_full.RemoteAccess.Http.Selection.{Selected, IsGiven, InLimits}
use onli_desk_full.RemoteAccess.Http.Pages.{handle_get_sessions-page}
use onli_desk_full.RemoteAccess.Http.Uncapped.{http_privilege_uncapped}
use onli_desk_full.RemoteAccess.Http.Valid.{handle_all-IsValidManager}

abbrev client : ClientInfo
client = record {
  hostname = "pc";
  operating_system = "linux";
  ip_address = "10.0.0.1";
  user_agent = "agent";
  screen_resolution = "";
  current_user = "";
  system_info = [];
}

abbrev command : ControlCommand
command = record { type = "control_command"; session_id = "s"; command = "rm"; params = "" }

-- A message has one byte, which gives its type; the rest of it is fixed.
abbrev type_of : Bytes → Option String
type_of [] = none
type_of (zero ∷ _) = some "session_create"
type_of (suc zero ∷ _) = some "privilege_request"
type_of (suc (suc n) ∷ _) = some "privilege_response"

abbrev pub decode : Decoders
decode = record {
  base_type = type_of;
  session_register = λ _. none;
  session_create =
      λ _. some (record { client_id = "c"; technician_id = "t"; client_info = some client });
  session_join = λ _. none;
  session_terminate = λ _. none;
  privilege_ask = λ _. some (record {
    session_id = "s";
    privilege_type = "admin";
    justification = "update";
    duration = pos 3_600_000_000_000_000;
  });
  privilege_response = λ _. some (record {
    session_id = "s";
    request_id = "r";
    approved = true;
    approved_by = "boss";
    reason = "";
  });
  privilege_revoke = λ _. none;
  control_command = λ _. some command;
  screen_capture = λ _. none;
  input_event = λ _. none;
  file_request = λ _. none;
  heartbeat = λ _. none;
}

abbrev pub up : Conn → Response → Bool
up _ _ = true

abbrev pub socket : Conn
socket = record { handle = 1; remote_addr = "10.0.0.1:5000" }

abbrev portal : Conn
portal = record { handle = 2; remote_addr = "10.0.0.2:6000" }

abbrev creating : List (Conn × Event)
creating = (socket, text_message (pos 0) "s" (0 ∷ [])) ∷ []

-- An admin privilege asked for a thousand hours, and approved.
abbrev escalating : List (Conn × Event)
escalating =
    (socket, text_message (pos 0) "s" (0 ∷ []))
    ∷ (portal, text_message (pos 1) "r" (1 ∷ []))
    ∷ (portal, text_message (pos 2) "" (2 ∷ []))
    ∷ []

receive_all-refines_example :
    Calls
      (new_manager default_config)
      (receive_all decode up escalating (new_web_socket_handler default_config)).session_manager
unfolding new_web_socket_handler
receive_all-refines_example =
    receive_all-refines decode up escalating (new_web_socket_handler default_config)

abbrev blank : Session
blank = new_session "" (pos 0) "" "" none

abbrev after_escalation : WebSocketHandler
after_escalation = receive_all decode up escalating (new_web_socket_handler default_config)

abbrev escalated : Session
escalated = elim (lookup "s" after_escalation.session_manager.sessions) [
  | none ↦ blank
  | some s ↦ s
]

abbrev privilege : ActivePrivilege
privilege = record {
  type = "admin";
  granted_at = pos 2;
  expires_at = pos 7_200_000_000_002;
  granted_by = "boss";
}

escalation_found : lookup "s" after_escalation.session_manager.sessions ≡ some escalated
unfolding receive_all receive handle_message dispatch after_message new_web_socket_handler lookup
    insert default_config handle_session_create handle_privilege_request handle_privilege_response
    manager_approve_privilege manager_request_privilege create_session register_connection opened
    approve_privilege
escalation_found = refl

escalated_privilege : lookup "admin" escalated.active_privileges ≡ some privilege
unfolding receive_all receive handle_message dispatch after_message new_web_socket_handler lookup
    insert default_config handle_session_create handle_privilege_request handle_privilege_response
    manager_request_privilege manager_approve_privilege request_privilege approve_privilege
    decide_request opened new_session clamp_duration max_duration ◌+ℤ◌ create_session
    register_connection
escalated_privilege = refl

messages_privileges_capped_example :
    BackedBy "admin" privilege escalated.privileges
    × (privilege.expires_at ≤ℤ privilege.granted_at +ℤ max_duration default_config)
messages_privileges_capped_example =
    messages_privileges_capped decode up default_config escalating "s" escalated escalation_found
      "admin" privilege escalated_privilege

-- A session whose client is connected.
abbrev connected_session : Session
connected_session = record (new_session "s" (pos 0) "c" "t" (some client)) {
  client_conn = some socket;
}

abbrev manager : Manager
manager = record (new_manager default_config) { sessions = ("s", connected_session) ∷ [] }

abbrev handler : WebSocketHandler
handler = record { session_manager = manager; sent = []; log = [] }

session_found : lookup "s" manager.sessions ≡ some connected_session
unfolding lookup
session_found = refl

-- `strconv.Atoi` and `time.ParseDuration` at the texts of the examples.
abbrev atoi : String → Option ℤ
atoi text = if text == "7" then some (pos 7) else none

abbrev parse_duration : String → Option ℤ
parse_duration text = if text == "1000h" then some (pos 3_600_000_000_000_000) else none

-- The order in which the map keeps its sessions.
abbrev as_kept : List Session → List Session
as_kept ss = ss

handle_get_sessions-page_example :
    (found : List Session) × (limit : ℤ) × (offset : ℤ) × (handle_get_sessions atoi as_kept "active"
        "" "7" "" manager
      ≡ (
        manager,
        reply 200 (
            sessions_page
              (take (pos_part limit) (drop (pos_part offset) found))
              (length found)
              limit
              offset),
      ))
    × Selected "active" "" found (get_all_sessions manager)
    × IsGiven atoi (pos 50) InLimits "7" limit
    × IsGiven atoi (pos 0) (λ o. pos 0 ≤ℤ o) "" offset
handle_get_sessions-page_example = handle_get_sessions-page atoi as_kept "active" "" "7" "" manager

abbrev privilege_body : PrivilegeBody
privilege_body = record { privilege_type = "admin"; justification = "update"; duration = "1000h" }

abbrev approve_body : ApproveBody
approve_body = record { approved_by = "boss"; comments = "" }

thousand_hours : duration_of parse_duration "1000h" ≡ some (pos 3_600_000_000_000_000)
unfolding duration_of
thousand_hours = refl

no_request : find_request "r" connected_session.privileges ≡ none
unfolding find_request new_session
no_request = refl

http_privilege_uncapped_example :
    let m' =
      (handle_request_privilege parse_duration "r" (pos 1) "s" (some privilege_body) manager).0 in
    let r = handle_approve_privilege (pos 2) "s" "r" (some approve_body) m' in
    (t : Session) × (lookup "s" r.0.sessions ≡ some t)
    × (p : ActivePrivilege) × (lookup "admin" t.active_privileges ≡ some p)
    × (p.expires_at ≡ pos 2 +ℤ pos 3_600_000_000_000_000)
    × (r.1 ≡ reply 200 privilege_approved)
http_privilege_uncapped_example =
    http_privilege_uncapped parse_duration "r" (pos 1) (pos 2) "s" privilege_body approve_body
      (pos 3_600_000_000_000_000) manager connected_session session_found no_request thousand_hours

default_valid : validate manager.config ≡ none
unfolding validate default_config new_manager first_invalid
default_valid = refl

abbrev requests : List (String × ℤ × Request)
requests =
    ("", pos 1, terminate_session "s")
    ∷ ("", pos 2, update_config (some (record default_config { max_concurrent_sessions = pos 0 })))
    ∷ []

handle_all-IsValidManager_example :
    validate (handle_all atoi parse_duration requests manager).config ≡ none
handle_all-IsValidManager_example =
    handle_all-IsValidManager atoi parse_duration requests manager default_valid
