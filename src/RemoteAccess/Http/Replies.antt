-- ===== src/RemoteAccess/Http/Replies.antt =====
-- http_handlers.go: the bodies of requests, as they are decoded, and the replies. A reply's body is a
-- constructor with the values that go into it; the texts of fixed messages are left out.
use onli_desk_full.Common.{ℕ, ℤ, String, List}
use onli_desk_full.RemoteAccess.Audit.{AuditEvent}
use onli_desk_full.RemoteAccess.Config.{RemoteAccessConfig, ConfigError}
use onli_desk_full.RemoteAccess.Session.{Session, SessionStatus, PrivilegeType, Error}
use onli_desk_full.RemoteAccess.Manager.Upkeep.{Statistics}

-- The struct that `handleCreateSession` decodes, the client information included.
pub record CreateBody : Type 0 where
  pub client_id : String
  pub technician_id : String
  pub hostname : String
  pub os : String
  pub version : String
  pub ip_address : String
  pub user_agent : String

pub record PrivilegeBody : Type 0 where
  pub privilege_type : PrivilegeType
  pub justification : String
  pub duration : String

pub record ApproveBody : Type 0 where
  pub approved_by : String
  pub comments : String

pub record RevokeBody : Type 0 where
  pub revoked_by : String
  pub reason : String

pub data Problem : Type 0 where
  invalid_request_body client_id_required technician_id_required : Problem
  session_not_found invalid_duration_format privilege_request_not_found : Problem
  privilege_not_found audit_logging_not_enabled search_failed : Problem
  create_failed : Error → Problem
  invalid_configuration : ConfigError → Problem

pub record SessionStats : Type 0 where
  pub session_id : String
  pub status : SessionStatus
  pub created_at : ℤ
  pub last_activity : ℤ
  pub expires_at : ℤ
  pub commands_executed : ℤ
  pub files_transferred : ℤ
  pub screenshots_taken : ℤ
  pub privileges_active : ℕ

pub data Body : Type 0 where
  sessions_page : List Session → ℕ → ℤ → ℤ → Body
  session_body : Session → Body
  session_terminated privilege_approved privilege_revoked configuration_updated : Body
  session_extended : ℤ → Body
  privilege_submitted : String → Body
  statistics_body : Statistics → Body
  session_statistics : SessionStats → Body
  config_body : RemoteAccessConfig → Body
  health : ℤ → Statistics → Body
  audit_events : List AuditEvent → ℕ → ℤ → Body
  problem : Problem → Body

-- What the client gets: a status and a body, or a closed connection after a panic.
pub data Reply : Type 0 where
  reply : ℕ → Body → Reply
  crashed : Reply
