-- ===== src/RemoteAccess/Http/Routes.antt =====
-- http_handlers.go: `RegisterRoutes`, as one function of the request. A request is named for its
-- handler, with the parts that the handler reads, its body decoded or not; one for the audit logs has
-- what `handleGetAuditLogs` finds of a logger and its files (see Logs) before its four parameters, and one for
-- the sessions the order in which they are visited.
use onli_desk_full.Common.{ℤ, String, Option, List, [], ◌∷◌}
use onli_desk_full.RemoteAccess.Config.{RemoteAccessConfig}
use onli_desk_full.RemoteAccess.Manager.{Manager}
use onli_desk_full.RemoteAccess.Session.{Session}
use onli_desk_full.RemoteAccess.Http.Replies.{
  CreateBody, PrivilegeBody, ApproveBody, RevokeBody, Reply,
}
use onli_desk_full.RemoteAccess.Http.{handle_get_sessions}
use onli_desk_full.RemoteAccess.Http.Sessions.{
  handle_create_session, handle_get_session, handle_terminate_session, handle_extend_session,
  handle_get_statistics, handle_get_session_statistics, handle_get_config, handle_update_config,
  handle_health_check,
}
use onli_desk_full.RemoteAccess.Http.Logs.{criteria, handle_get_audit_logs}
use onli_desk_full.RemoteAccess.Http.Privileges.{
  handle_request_privilege, handle_approve_privilege, handle_revoke_privilege,
}

pub data Request : Type 0 where
  get_sessions : (List Session → List Session) → String → String → String → String → Request
  create_session : Option CreateBody → Request
  get_session : String → Request
  terminate_session : String → Request
  extend_session : String → Option String → Request
  request_privilege : String → Option PrivilegeBody → Request
  approve_privilege : String → String → Option ApproveBody → Request
  revoke_privilege : String → Option RevokeBody → Request
  get_statistics : Request
  get_session_statistics : String → Request
  get_config : Request
  update_config : Option RemoteAccessConfig → Request
  health_check : Request
  get_audit_logs : Option (Option (List String)) → String → String → String → String → Request

module _ (atoi parse_duration : String → Option ℤ) where
  -- One request, with an identifier that it may use and its time.
  unfoldable pub handle : String → ℤ → Request → Manager → Manager × Reply
  handle fresh now (get_sessions order status technician limit offset) m =
      handle_get_sessions atoi order status technician limit offset m
  handle fresh now (create_session b) m = handle_create_session fresh now b m
  handle fresh now (get_session id) m = handle_get_session id m
  handle fresh now (terminate_session id) m = handle_terminate_session now id m
  handle fresh now (extend_session id text) m = handle_extend_session parse_duration id text m
  handle fresh now (request_privilege id b) m =
      handle_request_privilege parse_duration fresh now id b m
  handle fresh now (approve_privilege id k b) m = handle_approve_privilege now id k b m
  handle fresh now (revoke_privilege id b) m = handle_revoke_privilege id b m
  handle fresh now get_statistics m = handle_get_statistics m
  handle fresh now (get_session_statistics id) m = handle_get_session_statistics id m
  handle fresh now get_config m = handle_get_config m
  handle fresh now (update_config c) m = handle_update_config c m
  handle fresh now health_check m = handle_health_check now m
  handle fresh now (get_audit_logs logs session_id event_type severity limit) m =
      handle_get_audit_logs atoi logs (criteria session_id event_type severity) limit m

  unfoldable pub handle_all : List (String × ℤ × Request) → Manager → Manager
  unfolding handle
  handle_all [] m = m
  handle_all ((fresh, now, r) ∷ rs) m = handle_all rs (handle fresh now r m).0
