-- ===== src/FileTransfer/Audit/Logger.antt =====
-- audit.go: `AuditLogger`, its queue, its log files and its two goroutines. Parameters: `name_at` and
-- `rotated_at`, the names of a log file and of a rotated one at a time, `opens` and `takes`, whether a
-- file can be opened and written to at a time, `renames`, whether it can be renamed, `removes`,
-- whether it can be removed, and `encoded`, the length of an event's line if it can be encoded.
use onli_desk_full.Common.{
  ℕ, ◌+◌, ℤ, pos, ◌-ℤ◌, ltb_ℤ, String, Bool, true, false, ◌&&◌, not, Option, none, some, List, [],
  ◌∷◌, ◌++◌, ltb, length, if◌then◌else◌,
}
use onli_desk_full.Common.Map.{Map, lookup, insert, delete}
use onli_desk_full.FileTransfer.Audit.{AuditEvent, fill_event}

pub record LogFile : Type 0 where
  pub lines : List AuditEvent
  pub bytes : ℕ
  pub mod_time : ℤ

-- The logger with the files of its directory. `stopped` says whether `stopChan` is closed, `listens`
-- and `rotates` whether `processLogs` and `rotateLogsDaily` run.
pub record AuditLogger : Type 0 where
  pub enabled : Bool
  pub log_file : String
  pub max_log_size : ℕ
  pub max_log_age : ℤ
  pub queue : List AuditEvent
  pub stopped : Bool
  pub listens : Bool
  pub rotates : Bool
  pub files : Map LogFile

abbrev pub capacity : ℕ
capacity = 1_000

-- `LogEvent`: an event that the channel has no room for is dropped.
unfoldable pub log_event : ℤ → String → AuditEvent → AuditLogger → AuditLogger
unfolding fill_event
log_event now fresh e l =
    if l.enabled && ltb (length l.queue) capacity
    then record l { queue = l.queue ++ fill_event now fresh e ∷ [] }
    else l

-- `Stop`, which panics the second time: `none`.
unfoldable pub stop_logger : AuditLogger → Option AuditLogger
stop_logger l =
    if not l.enabled then some l else if l.stopped then none else some (record l { stopped = true })

-- `needsRotation`.
unfoldable pub needs_rotation : AuditLogger → Bool
unfolding lookup
needs_rotation l = elim (lookup l.log_file l.files) [
  | none ↦ false
  | some f ↦ ltb l.max_log_size f.bytes
]

-- `os.O_CREATE`: the file, empty if it is new.
unfoldable pub ensure : ℤ → String → Map LogFile → Map LogFile
unfolding lookup insert
ensure now path files = elim (lookup path files) [
  | none ↦ insert path (record { lines = []; bytes = 0; mod_time = now }) files
  | some f ↦ files
]

-- A line at the end of a file.
unfoldable pub append_line : ℤ → String → AuditEvent → ℕ → Map LogFile → Map LogFile
unfolding lookup insert
append_line now path e n files = elim (lookup path files) [
  | none ↦ files
  | some f ↦
      insert path (record { lines = f.lines ++ e ∷ []; bytes = f.bytes + n; mod_time = now }) files
]

abbrev pub is_old : ℤ → ℤ → LogFile → Bool
is_old now age f = ltb_ℤ f.mod_time (now -ℤ age)

-- What the callers and the two goroutines do to a logger, in any order. A `Stop` that panics changes
-- nothing.
pub data Action : Type 0 where
  logs : ℤ → String → AuditEvent → Action
  takes_event flushes ages : ℤ → Action
  stops ends_rotation : Action

module _ (name_at rotated_at : ℤ → String) (opens takes : ℤ → Bool)
    (renames removes : String → Bool) (encoded : AuditEvent → Option ℕ) where
  unfoldable pub new_audit_logger : ℤ → Bool → Bool → Map LogFile → AuditLogger
  new_audit_logger now made enabled files =
      let runs = made && enabled in
      record {
        enabled = runs;
        log_file = if runs then name_at now else "";
        max_log_size = 104_857_600;
        max_log_age = pos 2_592_000_000_000_000;
        queue = [];
        stopped = false;
        listens = runs;
        rotates = runs;
        files = files;
      }

  -- `rotateLog`: the file under its new name, in place of any file that had it.
  unfoldable pub rotate_log : ℤ → String → Map LogFile → Map LogFile
  unfolding lookup insert delete
  rotate_log now path files = elim (lookup path files) [
    | none ↦ files
    | some f ↦ if renames path then insert (rotated_at now) f (delete path files) else files
  ]

  -- A file that is opened is there afterwards, whether or not the event can be encoded.
  unfoldable pub write_event : ℤ → AuditEvent → AuditLogger → AuditLogger
  unfolding needs_rotation rotate_log ensure append_line
  write_event now e l = record l {
    files =
        let files = if needs_rotation l then rotate_log now l.log_file l.files else l.files in
        let opened = ensure now l.log_file files in
        if opens now
        then elim (if takes now then encoded e else none) [
          | none ↦ opened
          | some n ↦ append_line now l.log_file e n opened
        ]
        else files;
  }

  -- The events that are left when the goroutine stops.
  unfoldable pub write_all : ℤ → List AuditEvent → AuditLogger → AuditLogger
  unfolding write_event
  write_all now [] l = l
  write_all now (e ∷ es) l = write_all now es (write_event now e l)

  -- A round of `processLogs` that takes an event, and the one that sees the stop.
  unfoldable pub take_event : ℤ → AuditLogger → AuditLogger
  unfolding write_event
  take_event now l =
      if l.listens
      then elim l.queue [ [] ↦ l | e ∷ es ↦ write_event now e (record l { queue = es }) ]
      else l

  unfoldable pub flush_queue : ℤ → AuditLogger → AuditLogger
  unfolding write_all
  flush_queue now l =
      if l.listens && l.stopped
      then write_all now l.queue (record l { queue = []; listens = false })
      else l

  unfoldable pub keep_young : ℤ → ℤ → Map LogFile → Map LogFile
  keep_young now age [] = []
  keep_young now age ((path, f) ∷ files) =
      let rest = keep_young now age files in
      if is_old now age f && removes path then rest else (path, f) ∷ rest

  -- `cleanupOldLogs`, and a day's round of `rotateLogsDaily`.
  unfoldable pub cleanup_old_logs : ℤ → AuditLogger → AuditLogger
  unfolding keep_young
  cleanup_old_logs now l = record l { files = keep_young now l.max_log_age l.files }

  unfoldable pub daily_round : ℤ → AuditLogger → AuditLogger
  unfolding cleanup_old_logs
  daily_round now l =
      if l.rotates then record (cleanup_old_logs now l) { log_file = name_at now } else l

  unfoldable pub end_rotation : AuditLogger → AuditLogger
  end_rotation l = if l.stopped then record l { rotates = false } else l

  unfoldable pub act : Action → AuditLogger → AuditLogger
  unfolding log_event stop_logger take_event flush_queue daily_round end_rotation
  act (logs now fresh e) l = log_event now fresh e l
  act (takes_event now) l = take_event now l
  act (flushes now) l = flush_queue now l
  act (ages now) l = daily_round now l
  act stops l = elim (stop_logger l) [ none ↦ l | some k ↦ k ]
  act ends_rotation l = end_rotation l

  unfoldable pub act_all : List Action → AuditLogger → AuditLogger
  unfolding act
  act_all [] l = l
  act_all (a ∷ rest) l = act_all rest (act a l)
