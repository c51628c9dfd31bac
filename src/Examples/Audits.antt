-- ===== src/Examples/Audits.antt =====
-- An audit logger of transfers with two events in its queue; the theorems on it.
use text.Mathlib.TextEquality.{eq_iff}
use onli_desk_full.Common.{
  ◌≡◌, ◌≢◌, refl, ℕ, ℤ, pos, String, Bool, true, false, Option, some, List, [], ◌∷◌, All, arith,
  some_inj,
}
use onli_desk_full.Common.Map.{lookup}
use onli_desk_full.FileTransfer.Audit.{AuditEvent, config_update_event, security_violation_event}
use onli_desk_full.FileTransfer.Audit.Logger.{
  AuditLogger, Action, logs, takes_event, flushes, ages, stops, ends_rotation, act_all, flush_queue,
}
use onli_desk_full.FileTransfer.Audit.Flush.{lines_of, flush_queue-writes_all}
use onli_desk_full.FileTransfer.Audit.Sizes.{IsBounded, files_bounded}
use onli_desk_full.FileTransfer.Audit.Within.{Within}

abbrev name_at : ℤ → String
name_at _ = "audit_2026-01-02.log"

abbrev rotated_at : ℤ → String
rotated_at _ = "audit_2026-01-02_03-04-05.log"

abbrev yes : ℤ → Bool
yes _ = true

abbrev all_files : String → Bool
all_files _ = true

abbrev encoded : AuditEvent → Option ℕ
encoded _ = some 40

abbrev update : AuditEvent
update = config_update_event "admin" "transfer" "limits"

abbrev violation : AuditEvent
violation = security_violation_event "t" "s" "a.exe" "blocked" "10.0.0.1"

-- A logger that was stopped with two events in its queue.
abbrev stopping : AuditLogger
stopping = record {
  enabled = true;
  log_file = "audit_2026-01-02.log";
  max_log_size = 100;
  max_log_age = pos 5;
  queue = update ∷ violation ∷ [];
  stopped = true;
  listens = true;
  rotates = true;
  files = [];
}

flush_queue-writes_all_example :
    let l = flush_queue name_at rotated_at yes yes all_files all_files encoded (pos 3) stopping in
    (lines_of (lookup "audit_2026-01-02.log" l.files) ≡ update ∷ violation ∷ [])
    × (l.queue ≡ [])
    × (l.listens ≡ false)
unfolding lookup
flush_queue-writes_all_example =
    flush_queue-writes_all name_at rotated_at yes yes all_files all_files encoded (pos 3) refl refl
      stopping refl refl (omega arith)

-- Events are written until the file is rotated.
abbrev done : List Action
done =
    takes_event (pos 1)
    ∷ logs (pos 2) "e" update
    ∷ takes_event (pos 2)
    ∷ logs (pos 3) "f" violation
    ∷ takes_event (pos 4)
    ∷ takes_event (pos 5)
    ∷ ages (pos 6)
    ∷ stops
    ∷ ends_rotation
    ∷ flushes (pos 7)
    ∷ []

names_differ : rotated_at (pos 0) ≢ name_at (pos 0)
names_differ e = cc ((eq_iff "audit_2026-01-02_03-04-05.log" "audit_2026-01-02.log").1 e)

stopping-IsBounded : IsBounded rotated_at 40 100 stopping
stopping-IsBounded = record { size = refl; other = λ t e. names_differ e; within = tt }

files_bounded_example :
    All
      (Within 140)
      (act_all name_at rotated_at yes yes all_files all_files encoded done stopping).files
files_bounded_example =
    files_bounded name_at rotated_at yes yes all_files all_files encoded 40 100
      (λ e n y. omega (arith, some_inj y)) (λ path. refl) (λ t u e. names_differ e) done stopping
      stopping-IsBounded
