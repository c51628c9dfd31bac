-- ===== src/RemoteAccess/Manager/Calls.antt =====
-- Any sequence of calls of the methods in session_manager.go, and of session methods by handlers
-- that hold a session of the map (as http_handlers.go does).
use onli_desk_full.Common.{ℤ, String, Option, none, some, List, [], ◌∷◌}
use onli_desk_full.Common.Map.{lookup, insert}
use onli_desk_full.RemoteAccess.Config.{RemoteAccessConfig}
use onli_desk_full.RemoteAccess.Session.{Conn, ClientInfo, PrivilegeType, Result, ok, err}
use onli_desk_full.RemoteAccess.Session.Calls as SessionCalls
use onli_desk_full.RemoteAccess.Manager.{
  Manager, create_session, register_connection, unregister_connection, terminate_session,
  manager_request_privilege, manager_approve_privilege, manager_deny_privilege,
  manager_revoke_privilege,
}
use onli_desk_full.RemoteAccess.Manager.Upkeep.{cleanup_expired_sessions, shutdown, update_config}

pub data Call : Type 0 where
  creates : String → ℤ → String → String → Option ClientInfo → Call
  registers : ℤ → String → Conn → String → Call
  unregisters : String → String → Call
  terminates : ℤ → String → Call
  requests : String → ℤ → String → PrivilegeType → String → ℤ → Call
  approves : ℤ → String → String → String → Call
  denies : ℤ → String → String → String → Call
  revokes : ℤ → String → PrivilegeType → Call
  cleans : ℤ → Call
  shuts : ℤ → Call
  updates : RemoteAccessConfig → Call
  direct : String → SessionCalls.Call → Call

-- A method that returns an error leaves the manager as it was.
abbrev pub after : Manager → Result Manager → Manager
after m (ok m') = m'
after m (err e) = m

abbrev pub after_request : Manager → Result (Manager × String) → Manager
after_request m (ok (m', _)) = m'
after_request m (err e) = m

-- A session method called through the pointer in the map.
unfoldable pub call_session : String → SessionCalls.Call → Manager → Manager
call_session id c m = elim (lookup id m.sessions) [
  | none ↦ m
  | some s ↦ record m { sessions = insert id (SessionCalls.step s c) m.sessions }
]

unfoldable pub step : Manager → Call → Manager
step m (creates fresh now client portal info) = (create_session fresh now client portal info m).0
step m (registers now id c role) = after m (register_connection now id c role m)
step m (unregisters id role) = unregister_connection id role m
step m (terminates now id) = after m (terminate_session now id m)
step m (requests fresh now id type text d) =
    after_request m (manager_request_privilege fresh now id type text d m)
step m (approves now id k by) = after m (manager_approve_privilege now id k by m)
step m (denies now id k by) = after m (manager_deny_privilege now id k by m)
step m (revokes now id type) = after m (manager_revoke_privilege now id type m)
step m (cleans now) = cleanup_expired_sessions now m
step m (shuts now) = shutdown now m
step m (updates c) = update_config c m
step m (direct id c) = call_session id c m

unfoldable pub run : Manager → List Call → Manager
unfolding step
run m [] = m
run m (c ∷ cs) = run (step m c) cs

-- Calls that keep the configuration.
abbrev pub KeepsConfig : Call → Type 0
KeepsConfig (updates c) = ⊥
KeepsConfig _ = Unit
