-- ===== src/FileTransfer/Audit.antt =====
-- src/server/internal/filetransfer/audit.go: the audit events of file transfers, and the logger, which
-- queues them for a goroutine that writes them. The values of `Details` that are maps are kept as text.
pub mod Logger
pub mod Queue
pub mod Flush
pub mod Within
pub mod Sizes
use onli_desk_full.Common.{
  ℤ, pos, String, ◌==◌, Bool, true, false, ◌||◌, Option, none, some, List, [], ◌∷◌, if◌then◌else◌,
}
use onli_desk_full.FileTransfer.Handler.{FileTransferRequest}

pub data Detail : Type 0 where
  text : String → Detail
  flag : Bool → Detail

-- No `timestamp` is the zero time.
pub record AuditEvent : Type 0 where
  pub id : String
  pub timestamp : Option ℤ
  pub event_type : String
  pub session_id : String
  pub transfer_id : String
  pub user_id : String
  pub technician : String
  pub filename : String
  pub file_size : ℤ
  pub ip_address : String
  pub user_agent : String
  pub details : List (String × Detail)
  pub severity : String
  pub success : Bool
  pub error_msg : String

abbrev plain : String → List (String × Detail) → AuditEvent
plain type details = record {
  id = "";
  timestamp = none;
  event_type = type;
  session_id = "";
  transfer_id = "";
  user_id = "";
  technician = "";
  filename = "";
  file_size = pos 0;
  ip_address = "";
  user_agent = "";
  details = details;
  severity = "";
  success = true;
  error_msg = "";
}

unfoldable pub transfer_request_event : FileTransferRequest → String → String → AuditEvent
transfer_request_event r ip_address user_agent =
    record (plain "transfer_requested"
      (("transfer_type", text r.kind) ∷ ("checksum", text r.checksum) ∷ [])) {
        session_id = r.session_id;
        transfer_id = r.id;
        technician = r.technician;
        filename = r.filename;
        file_size = r.file_size;
        ip_address = ip_address;
        user_agent = user_agent;
      }

unfoldable pub transfer_approval_event : String → String → Bool → String → String → AuditEvent
transfer_approval_event transfer_id session_id approved message user_id =
    record (plain (if approved then "transfer_approved" else "transfer_rejected")
      (("approved", flag approved) ∷ ("message", text message) ∷ [])) {
        session_id = session_id;
        transfer_id = transfer_id;
        user_id = user_id;
      }

unfoldable pub transfer_progress_event :
    String → String → String → List (String × Detail) → AuditEvent
transfer_progress_event transfer_id session_id type details = record (plain type details) {
  session_id = session_id;
  transfer_id = transfer_id;
}

unfoldable pub security_violation_event : String → String → String → String → String → AuditEvent
security_violation_event transfer_id session_id filename violation ip_address =
    record (plain "security_violation"
      (("violation_type", text "security") ∷ ("description", text violation) ∷ [])) {
        session_id = session_id;
        transfer_id = transfer_id;
        filename = filename;
        ip_address = ip_address;
        success = false;
        error_msg = violation;
        severity = "HIGH";
      }

unfoldable pub config_update_event : String → String → String → AuditEvent
config_update_event user_id config_type changes =
    record (plain "config_updated"
      (("config_type", text config_type) ∷ ("changes", text changes) ∷ [])) { user_id = user_id }

unfoldable pub determine_severity : String → String
determine_severity type =
    if type == "security_violation"
    then "HIGH"
    else if type == "transfer_failed" || type == "file_quarantined"
    then "MEDIUM"
    else if type == "transfer_rejected" || type == "transfer_cancelled"
    then "LOW"
    else "INFO"

-- What `LogEvent` puts where nothing was given.
unfoldable pub fill_event : ℤ → String → AuditEvent → AuditEvent
unfolding determine_severity
fill_event now fresh e = record e {
  id = if e.id == "" then fresh else e.id;
  timestamp = elim e.timestamp [ none ↦ some now | some t ↦ some t ];
  severity = if e.severity == "" then determine_severity e.event_type else e.severity;
}
