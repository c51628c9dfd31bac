-- ===== src/RemoteAccess/Audit/Log.antt =====
-- audit.go: the events of the `Log…` methods of `AuditLogger`.
use onli_desk_full.Common.{ℤ, String, Bool, false, List, [], ◌∷◌, if◌then◌else◌}
use onli_desk_full.Common.Map.{insert}
use onli_desk_full.Common.Text.{codes}
use onli_desk_full.RemoteAccess.Audit.{
  AuditEvent, Detail, text, number, info, warning, error, critical, session_event,
}
use onli_desk_full.RemoteAccess.Audit.Risk.{is_high_risk_command}

unfoldable pub security_violation : ℤ → String → String → String → String → String → AuditEvent
security_violation now session_id client_id technician violation address =
    record (session_event "security_violation" session_id critical now
      (("violation", text violation) ∷ [])) {
        client_id = client_id;
        technician = technician;
        ip_address = address;
        success = false;
      }

unfoldable pub privilege_escalation : ℤ → String → String → String → Bool → String → AuditEvent
privilege_escalation now session_id technician type approved approved_by =
    record (session_event
      (if approved then "privilege_escalation_approved" else "privilege_escalation_denied")
      session_id (if approved then error else warning) now
      (("privilege_type", text type) ∷ ("approved_by", text approved_by) ∷ [])) {
        technician = technician;
        success = approved;
      }

-- `m[k] = v` for each further detail.
unfoldable pub merge_details :
    List (String × Detail) → List (String × Detail) → List (String × Detail)
unfolding insert
merge_details [] details = details
merge_details ((k, v) ∷ more) details = merge_details more (insert k v details)

unfoldable pub session_activity : ℤ → String → String → String → List (String × Detail) → AuditEvent
unfolding merge_details
session_activity now session_id technician activity details =
    record (session_event "session_activity" session_id info now
      (merge_details details (("activity", text activity) ∷ []))) { technician = technician }

unfoldable pub file_transfer : ℤ → String → String → String → ℤ → String → Bool → AuditEvent
file_transfer now session_id technician filename file_size direction success =
    record (session_event "file_transfer" session_id (if success then info else warning) now (
      ("filename", text filename)
      ∷ ("file_size", number file_size)
      ∷ ("direction", text direction)
      ∷ [])) { technician = technician; success = success }

unfoldable pub command_execution : ℤ → String → String → String → Bool → String → AuditEvent
unfolding is_high_risk_command
command_execution now session_id technician command success output =
    record (session_event "command_execution" session_id
      (if is_high_risk_command (codes command) then warning else info) now
      (("command", text command) ∷ ("output", text output) ∷ [])) {
        technician = technician;
        success = success;
      }
