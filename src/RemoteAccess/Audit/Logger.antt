-- ===== src/RemoteAccess/Audit/Logger.antt =====
-- audit.go: `AuditLogger` and its log files. Parameters: `opens`, whether the directory and the file
-- for a time can be created and opened, `name_at`, the file's name, `stats` and `removes`, whether
-- `os.Stat` and `os.Remove` succeed, `encoded`, the length of an event's line if it can be encoded,
-- `sizes`, whether the size of the file that was opened for a time can be had, and `writes`, how much
-- of a line is written. The logger is the only one that writes to its directory. `Sync` is left out.
pub mod Sizes
use onli_desk_full.Common.{
  ap, ◌≡◌, refl, ℕ, ◌+◌, ℤ, String, ◌==◌, Bool, true, false, Option, none, some, map, any, keep,
  List, [], ◌∷◌, ◌++◌, ltb, if◌then◌else◌,
}
use onli_desk_full.Common.Map.{insert}
use onli_desk_full.Common.Text.{codes}
use onli_desk_full.RemoteAccess.Audit.{
  AuditEvent, Detail, text, number, info, warning, error, critical, session_event,
}
use onli_desk_full.RemoteAccess.Audit.Retention.{LogFile, cleanup_old_logs}
use onli_desk_full.RemoteAccess.Audit.Risk.{is_high_risk_command}

-- The file that the logger holds: open, closed, or none (`nil`).
pub data Held : Type 0 where
  open_file : String → Held
  closed_file nil_file : Held

-- What `WriteString` does with a line: all of it is written, or a part of it, with an error.
pub data Written : Type 0 where
  whole : Written
  torn : ℕ → Written

-- The logger with what its directory holds: for each log file its events and its size in bytes.
pub record Stored : Type 0 where
  pub file : LogFile
  pub events : List AuditEvent
  pub bytes : ℕ

pub record AuditLogger : Type 0 where
  pub enabled : Bool
  pub held : Held
  pub current_size : ℕ
  pub rotate_size : ℕ
  pub max_files : ℕ
  pub directory : List Stored

abbrev pub size_of : String → List Stored → Option ℕ
size_of path [] = none
size_of path (f ∷ fs) = if f.file.path == path then some f.bytes else size_of path fs

abbrev pub or_zero : Option ℕ → ℕ
or_zero none = 0
or_zero (some n) = n

-- `os.O_CREATE|os.O_APPEND`: the file, empty if it is new.
unfoldable pub ensure : ℤ → String → List Stored → List Stored
ensure now path fs = elim (size_of path fs) [
  | some n ↦ fs
  | none ↦
      fs ++ record { file = record { path = path; mod_time = now }; events = []; bytes = 0 } ∷ []
]

-- A line at the end of a file.
unfoldable pub append_line : ℤ → String → AuditEvent → ℕ → List Stored → List Stored
append_line now path e n [] = []
append_line now path e n (f ∷ fs) =
    let rest = append_line now path e n fs in
    if f.file.path == path
    then record {
      file = record f.file { mod_time = now };
      events = f.events ++ e ∷ [];
      bytes = f.bytes + n;
    }
      ∷ fs
    else f ∷ rest

-- A part of a line at the end of a file.
unfoldable pub append_part : ℤ → String → ℕ → List Stored → List Stored
append_part now path n [] = []
append_part now path n (f ∷ fs) =
    let rest = append_part now path n fs in
    if f.file.path == path
    then record f { file = record f.file { mod_time = now }; bytes = f.bytes + n } ∷ fs
    else f ∷ rest

-- The directory after `cleanupOldLogs`: the files that it leaves.
unfoldable pub retain : List LogFile → List Stored → List Stored
retain left fs = keep (λ f. any (λ g. g.path == f.file.path) left) fs

unfoldable pub close_logger : AuditLogger → AuditLogger
close_logger l = record l { held = nil_file }

module _ (opens : ℤ → Bool) (name_at : ℤ → String) (stats removes : LogFile → Bool)
    (encoded : AuditEvent → Option ℕ) (sizes : ℤ → Bool) (writes : ℤ → Written) where
  -- `initLogFile`, and whether it succeeds.
  unfoldable pub init_log_file : ℤ → AuditLogger → AuditLogger × Bool
  unfolding ensure
  init_log_file now l =
      if opens now
      then (
        record l {
          held = open_file (name_at now);
          directory = ensure now (name_at now) l.directory;
          current_size = if sizes now then or_zero (size_of (name_at now) l.directory) else 0;
        },
        true,
      )
      else (l, false)

  unfoldable pub new_audit_logger : ℤ → Bool → List Stored → AuditLogger
  unfolding init_log_file
  new_audit_logger now enabled fs =
      let l : AuditLogger = record {
        enabled = enabled;
        held = nil_file;
        current_size = 0;
        rotate_size = 104_857_600;
        max_files = 10;
        directory = fs;
      } in
      if enabled
      then (let (l', opened) = init_log_file now l in
          if opened then l' else record l' { enabled = false })
      else l

  abbrev pub close_held : Held → Held
  close_held nil_file = nil_file
  close_held _ = closed_file

  unfoldable pub rotate_log : ℤ → AuditLogger → AuditLogger
  unfolding init_log_file retain cleanup_old_logs
  rotate_log now l =
      let left = cleanup_old_logs l.max_files stats removes (map (λ f. f.file) l.directory) in
      let (l', opened) =
        init_log_file now
          (record l { held = close_held l.held; directory = retain left l.directory }) in
      if opened then l' else record l' { enabled = false }

  -- A part of a line that is written with an error stays in the file, and is not counted.
  unfoldable pub write_line : ℤ → AuditEvent → ℕ → AuditLogger → AuditLogger
  unfolding append_line append_part
  write_line now e n l = elim l.held [
    | open_file path ↦ elim (writes now) [
      | whole ↦ record l {
        directory = append_line now path e n l.directory;
        current_size = l.current_size + n;
      }
      | torn k ↦ record l { directory = append_part now path k l.directory }
    ]
    | closed_file ↦ l
    | nil_file ↦ l
  ]

  unfoldable pub log_event : ℤ → AuditEvent → AuditLogger → AuditLogger
  unfolding rotate_log write_line
  log_event now e l =
      if l.enabled
      then (let l' = if ltb l.rotate_size l.current_size then rotate_log now l else l in
          elim (encoded e) [ none ↦ l' | some n ↦ write_line now e n l' ])
      else l

  unfoldable pub log_events : List (ℤ × AuditEvent) → AuditLogger → AuditLogger
  unfolding log_event
  log_events [] l = l
  log_events ((now, e) ∷ es) l = log_events es (log_event now e l)
