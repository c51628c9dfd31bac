-- ===== src/RemoteAccess/Manager.antt =====
-- src/server/internal/remoteaccess/session_manager.go: the manager's maps of sessions and of
-- connections, and its methods. A session is reached through its entry in the map, which stands for
-- the shared pointer. `audit` collects the events that the methods hand to the audit logger and
-- `closed` the connections that they close, both newest first. A method runs under the manager's
-- mutex, so it is one step; it reads the clock once, as `now`. The `notify…` methods are empty in
-- the source, and the console log is left out.
pub mod Upkeep
pub mod Calls
pub mod Counts
pub mod Keeps
pub mod Capacity
pub mod Durations
pub mod Methods
pub mod Cleanup
use Prim.Native.String.{◌++◌ as concat}
use onli_desk_full.Common.{
  ◌≡◌, ℕ, suc, ◌+◌, ℤ, pos, leb_ℤ, ltb_ℤ, String, ◌==◌, Bool, true, false, ◌||◌, Option, none, some,
  List, [], ◌∷◌, ◌++◌, if◌then◌else◌, length, keep, map,
}
use onli_desk_full.Common.Map.{Map, lookup, insert, delete}
use onli_desk_full.RemoteAccess.Audit.{
  session_event, AuditEvent, Detail, text, duration, Severity, info, warning,
}
use onli_desk_full.RemoteAccess.Config.{RemoteAccessConfig, PrivilegeEscalation}
use onli_desk_full.RemoteAccess.Session.{
  Session, SessionStatus, SessionSettings, ClientInfo, Conn, PrivilegeType, Error, Result, ok, err,
  max_sessions_reached, session_not_found, hour, new_session, update_activity, is_expired,
  request_privilege, approve_privilege, deny_privilege, revoke_privilege, terminate, get_duration,
}

pub record Manager : Type 0 where
  pub sessions : Map Session
  pub connections : Map Conn
  pub config : RemoteAccessConfig
  pub audit : List AuditEvent
  pub closed : List Conn

unfoldable pub new_manager : RemoteAccessConfig → Manager
new_manager c = record { sessions = []; connections = []; config = c; audit = []; closed = [] }

-- The events that the methods log.
abbrev pub event : String → String → Severity → ℤ → List (String × Detail) → AuditEvent
event type session_id severity now details = session_event type session_id severity now details

abbrev pub put_session : String → Session → Manager → Manager
put_session k s m = record m { sessions = insert k s m.sessions }

abbrev pub log_event : AuditEvent → Manager → Manager
log_event e m = record m { audit = e ∷ m.audit }

-- The settings that `CreateSession` takes from the configuration.
unfoldable pub session_settings : RemoteAccessConfig → SessionSettings
session_settings c = record {
  allow_file_transfer = c.file_transfer_enabled;
  allow_clipboard = true;
  allow_printing = true;
  session_timeout = c.session_timeout;
  idle_timeout = c.idle_timeout;
  record_session = false;
  require_approval = c.privilege_escalation.require_approval;
  max_privilege_duration = c.privilege_escalation.max_privilege_duration;
}

-- What `CreateSession` comes to. It reads the client information after it has stored the session:
-- a nil pointer there is a panic, which leaves the session in the map.
pub data Created : Type 0 where
  created : Session → Created
  refused : Error → Created
  panicked : Created

abbrev pub logged_creation :
    Option ClientInfo → String → ℤ → String → String → Session → Manager → Manager × Created
logged_creation none fresh now client portal s m = (m, panicked)
logged_creation (some i) fresh now client portal s m = (
  log_event
      (record (event "session_created" fresh info now details) {
        client_id = client;
        technician = portal;
        ip_address = i.ip_address;
      })
      m,
  created s,
)
  where
    details : List (String × Detail)
    details = ("hostname", text i.hostname) ∷ ("os", text i.operating_system) ∷ []

-- The session that `CreateSession` stores.
unfoldable pub opened : String → ℤ → String → String → Option ClientInfo → Manager → Session
unfolding new_session session_settings
opened fresh now client portal i m = record (new_session fresh now client portal i) {
  settings = session_settings m.config;
}

unfoldable pub create_session :
    String → ℤ → String → String → Option ClientInfo → Manager → Manager × Created
create_session fresh now client portal i m =
    if leb_ℤ m.config.max_concurrent_sessions (pos (length m.sessions))
    then (m, refused max_sessions_reached)
    else let s = opened fresh now client portal i m in
      logged_creation i fresh now client portal s (put_session fresh s m)

unfoldable pub get_session : String → Manager → Option Session
get_session id m = lookup id m.sessions

abbrev pub values {ℓ} : {V : Type ℓ} → Map V → List V
values [] = []
values ((_, v) ∷ m) = v ∷ values m

unfoldable pub get_all_sessions : Manager → List Session
get_all_sessions m = values m.sessions

abbrev pub is_live : SessionStatus → Bool
is_live SessionStatus.active = true
is_live SessionStatus.pending = true
is_live _ = false

unfoldable pub get_active_sessions : Manager → List Session
get_active_sessions m = keep (λ s. is_live s.status) (values m.sessions)

unfoldable pub get_sessions_by_technician : String → Manager → List Session
get_sessions_by_technician id m = keep (λ s. s.technician_id == id) (values m.sessions)

unfoldable pub get_sessions_by_client : String → Manager → List Session
get_sessions_by_client id m = keep (λ s. s.client_id == id) (values m.sessions)

-- `fmt.Sprintf("%s_%s", sessionID, role)`.
abbrev pub connection_key : String → String → String
connection_key id role = concat id (concat "_" role)

unfoldable pub attach : String → Conn → Session → Session
attach role c s =
    if role == "client"
    then record s { client_conn = some c; status = SessionStatus.active }
    else if role == "portal"
    then record s { portal_conn = some c }
    else s

unfoldable pub register_connection : ℤ → String → Conn → String → Manager → Result Manager
unfolding attach update_activity
register_connection now id c role m = elim (lookup id m.sessions) [
  | none ↦ err session_not_found
  | some s ↦ ok (
      log_event
        (record (event "connection_registered" id info now (("role", text role) ∷ [])) {
          ip_address = c.remote_addr;
        })
        (record m {
          sessions = insert id (update_activity now (attach role c s)) m.sessions;
          connections = insert (connection_key id role) c m.connections;
        }))
]

unfoldable pub detach : String → Session → Session
detach role s =
    if role == "client"
    then record s { client_conn = none; status = SessionStatus.disconnected }
    else if role == "portal"
    then record s { portal_conn = none }
    else s

unfoldable pub unregister_connection : String → String → Manager → Manager
unfolding detach
unregister_connection id role m =
    let m' = record m { connections = delete (connection_key id role) m.connections } in
    elim (lookup id m.sessions) [ none ↦ m' | some s ↦ put_session id (detach role s) m' ]

-- `session.Terminate()` and the removal of the session's two connections.
unfoldable pub end_session : ℤ → String → Session → Manager → Manager
unfolding terminate
end_session now id s m = record m {
  sessions = insert id (terminate now s).0 m.sessions;
  connections =
      delete (connection_key id "portal") (delete (connection_key id "client") m.connections);
  closed = (terminate now s).1 ++ m.closed;
}

unfoldable pub terminate_session : ℤ → String → Manager → Result Manager
unfolding end_session get_duration
terminate_session now id m = elim (lookup id m.sessions) [
  | none ↦ err session_not_found
  | some s ↦ ok (
      log_event
        (event "session_terminated" id info now
          (("duration", duration (get_duration now (terminate now s).0)) ∷ []))
        (end_session now id s m))
]

-- The longest duration that the manager lets a privilege have: 24 hours unless configured.
unfoldable pub max_duration : RemoteAccessConfig → ℤ
max_duration c =
    if ltb_ℤ (pos 0) c.privilege_escalation.max_privilege_duration
    then c.privilege_escalation.max_privilege_duration
    else pos 86_400_000_000_000

unfoldable pub clamp_duration : RemoteAccessConfig → ℤ → ℤ
unfolding max_duration
clamp_duration c d = if ltb_ℤ (max_duration c) d then max_duration c else d

unfoldable pub manager_request_privilege :
    String → ℤ → String → PrivilegeType → String → ℤ → Manager → Result (Manager × String)
unfolding clamp_duration request_privilege
manager_request_privilege fresh now id type justification d m = elim (lookup id m.sessions) [
  | none ↦ err session_not_found
  | some s ↦
      let d' = clamp_duration m.config d in
      let (s', request_id) = request_privilege fresh now type justification d' s in
      ok (
        log_event
            (event "privilege_requested" id warning now (
              ("privilege_type", text type)
              ∷ ("justification", text justification)
              ∷ ("duration", duration d')
              ∷ []))
            (put_session id s' m),
        request_id,
      )
]

-- The methods that pass on to a session: its error is theirs, and its success is logged.
abbrev pub on_session : String → (Session → Result Session) → AuditEvent → Manager → Result Manager
on_session id method e m = elim (lookup id m.sessions) [
  | none ↦ err session_not_found
  | some s ↦ elim (method s) [ err x ↦ err x | ok s' ↦ ok (log_event e (put_session id s' m)) ]
]

unfoldable pub manager_approve_privilege : ℤ → String → String → String → Manager → Result Manager
manager_approve_privilege now id request_id approved_by m =
    on_session id (approve_privilege now request_id approved_by)
      (record (event "privilege_approved" id warning now (("request_id", text request_id) ∷ [])) {
        technician = approved_by;
      })
      m

unfoldable pub manager_deny_privilege : ℤ → String → String → String → Manager → Result Manager
manager_deny_privilege now id request_id denied_by m =
    on_session id (deny_privilege request_id denied_by)
      (record (event "privilege_denied" id info now (("request_id", text request_id) ∷ [])) {
        technician = denied_by;
      })
      m

unfoldable pub manager_revoke_privilege : ℤ → String → PrivilegeType → Manager → Result Manager
manager_revoke_privilege now id type m =
    on_session id (revoke_privilege type)
      (event "privilege_revoked" id warning now (("privilege_type", text type) ∷ [])) m
