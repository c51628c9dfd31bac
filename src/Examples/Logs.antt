-- ===== src/Examples/Logs.antt =====
-- Three log files of which two may stay, and an audit logger; the theorems on them.
use mathlib.Core.List.{Permᴰ}
use onli_desk_full.Common.{
  ltb_ℤ, if◌then◌else◌, ◌≡◌, refl, ℕ, ℤ, pos, ◌≤ℤ◌, String, Bool, true, Option, some, List, [], ◌∷◌,
  ◌++◌, arith, All, length,
}
use onli_desk_full.RemoteAccess.Audit.{AuditEvent, info, session_event}
use onli_desk_full.RemoteAccess.Audit.Retention.{LogFile, cleanup_old_logs}
use onli_desk_full.RemoteAccess.Audit.Retention.Laws.{cleanup_old_logs-keeps_newest}
use onli_desk_full.RemoteAccess.Audit.Logger.{
  Written, whole, torn, open_file, new_audit_logger, log_events, init_log_file, log_event,
  write_line,
}
use onli_desk_full.RemoteAccess.Audit.Logger.Sizes.{Counts, current_size-Counts}

abbrev log_files : List LogFile
log_files =
    record { path = "b.log"; mod_time = pos 2 }
    ∷ record { path = "c.log"; mod_time = pos 3 }
    ∷ record { path = "a.log"; mod_time = pos 1 }
    ∷ []

abbrev always : LogFile → Bool
always _ = true

cleanup_old_logs-keeps_newest_example :
    let left = cleanup_old_logs 2 always always log_files in
    (length left ≡ 2)
    × (removed : List LogFile) × Permᴰ (removed ++ left) log_files
    × All (λ f. All (λ g. f.mod_time ≤ℤ g.mod_time) left) removed
cleanup_old_logs-keeps_newest_example =
    cleanup_old_logs-keeps_newest 2 always always log_files (λ f. refl) (λ f. refl) (omega arith)

abbrev opens : ℤ → Bool
opens _ = true

abbrev name_at : ℤ → String
name_at _ = "a.log"

abbrev encoded : AuditEvent → Option ℕ
encoded _ = some 40

abbrev written : List (ℤ × AuditEvent)
written =
    (pos 1, session_event "websocket_connected" "" info (pos 1) [])
    ∷ (pos 2, session_event "session_created" "s" info (pos 2) [])
    ∷ []

-- The second line is torn after nine bytes.
abbrev writes : ℤ → Written
writes now = if ltb_ℤ now (pos 2) then whole else torn 9

held_open :
    (log_events opens name_at always always encoded opens writes written
      (new_audit_logger opens name_at always always encoded opens writes (pos 0) true [])).held
    ≡ open_file "a.log"
unfolding log_events log_event new_audit_logger init_log_file write_line
held_open = refl

current_size-Counts_example :
    let l =
      log_events opens name_at always always encoded opens writes written
        (new_audit_logger opens name_at always always encoded opens writes (pos 0) true []) in
    Counts 9 l.current_size "a.log" l.directory
current_size-Counts_example =
    current_size-Counts opens name_at always always encoded opens writes (λ now. refl) (pos 0) true
      [] written "a.log" held_open
