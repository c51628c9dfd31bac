-- ===== src/RemoteAccess/Audit.antt =====
-- src/server/internal/remoteaccess/audit.go: the audit event, and the logger (its children). The values of the `Details` map that
-- the code formats (durations) are kept unformatted.
pub mod Log
pub mod Logger
pub mod Search
pub mod Retention
pub mod Risk
use onli_desk_full.Common.{ℤ, String, Bool, true, List}

pub data Detail : Type 0 where
  text : String → Detail
  duration : ℤ → Detail
  number : ℤ → Detail

pub data Severity : Type 0 where
  info warning error critical : Severity

pub record AuditEvent : Type 0 where
  pub event_type : String
  pub session_id : String
  pub client_id : String
  pub technician : String
  pub ip_address : String
  pub user_agent : String
  pub details : List (String × Detail)
  pub severity : Severity
  pub success : Bool
  pub timestamp : ℤ
  pub correlation_id : String

-- An event of one session, with the fields that most events leave out.
abbrev pub session_event : String → String → Severity → ℤ → List (String × Detail) → AuditEvent
session_event type session_id severity now details = record {
  event_type = type;
  session_id = session_id;
  client_id = "";
  technician = "";
  ip_address = "";
  user_agent = "";
  details = details;
  severity = severity;
  success = true;
  timestamp = now;
  correlation_id = "";
}
