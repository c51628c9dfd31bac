-- ===== src/FileTransfer/Audit/Sizes.antt =====
-- audit.go: the sizes of the log files under rotation.
use text.Mathlib.TextEquality.{eq_iff}
use onli_desk_full.Common.{
  eq_refl, ◌≡◌, ◌≢◌, refl, ◌∙◌, sym, ℕ, ◌+◌, ◌≤◌, ℤ, String, Bool, true, ◌&&◌, Option, none, some,
  List, [], ◌∷◌, ltb, length, All, if◌then◌else◌, inl, inr, Option-cases, Bool-cases, arith,
}
use onli_desk_full.Common.Map.{Map, lookup, delete, lookup-insert, lookup-delete}
use onli_desk_full.FileTransfer.Audit.{AuditEvent}
use onli_desk_full.FileTransfer.Audit.Logger.{
  LogFile, AuditLogger, capacity, new_audit_logger, log_event, needs_rotation, ensure, append_line,
  rotate_log, write_event, write_all, take_event, flush_queue, cleanup_old_logs, daily_round,
  end_rotation, Action, logs, takes_event, flushes, ages, stops, ends_rotation, stop_logger, act,
  act_all,
}
use onli_desk_full.FileTransfer.Audit.Flush.{bytes_of}
use onli_desk_full.FileTransfer.Audit.Queue.{list_cases, keep_young-All}
use onli_desk_full.FileTransfer.Audit.Within.{
  Within, insert-Within, delete-Within, lookup-Within, ensure-Within, bytes-ensure,
  append_line-Within,
}

-- The log files within their bound; no file that is rotated takes the name of the one written to.
pub record IsBounded (rotated_at : ℤ → String) (longest max : ℕ) (l : AuditLogger) : Type 0 where
  pub size : l.max_log_size ≡ max
  pub other : (t : ℤ) → rotated_at t ≢ l.log_file
  pub within : All (Within (max + longest)) l.files

module _ (name_at rotated_at : ℤ → String) (opens takes : ℤ → Bool)
    (renames removes : String → Bool) (encoded : AuditEvent → Option ℕ) (longest max : ℕ)
    (short : (e : AuditEvent) (n : ℕ) → encoded e ≡ some n → n ≤ longest)
    (renamed : (path : String) → renames path ≡ true)
    (apart : (t u : ℤ) → rotated_at t ≢ name_at u) where
  abbrev rotate : ℤ → String → Map LogFile → Map LogFile
  rotate = rotate_log name_at rotated_at opens takes renames removes encoded

  rotate-Within :
      (b : ℕ) (now : ℤ) (path : String) (files : Map LogFile)
      → All (Within b) files
      → All (Within b) (rotate now path files)
  unfolding rotate_log
  rotate-Within b now path files a = elim (Option-cases (lookup path files)) [
    | inl e ↦ rw (e, rotate_log) a
    | inr (f, e) ↦
        rw (e, rotate_log, renamed path)
          (insert-Within b (rotated_at now) f (delete path files)
            (rw e at (lookup-Within b path files a)) (delete-Within b path files a))
  ]

  lookup-rotate :
      (now : ℤ) (path : String) (files : Map LogFile)
      → rotated_at now ≢ path
      → lookup path (rotate now path files) ≡ none
  unfolding rotate_log
  lookup-rotate now path files h = elim (Option-cases (lookup path files)) [
    | inl e ↦ rw (e, rotate_log) e
    | inr (f, e) ↦
        rw (e, rotate_log, renamed path)
          (lookup-insert (rotated_at now) path f (delete path files)
            ∙ ground (
              arith,
              h,
              eq_iff (rotated_at now) path,
              eq_refl path,
              lookup-delete path path files,
            ))
  ]

  -- The file that is written to is no longer than the largest size.
  written_to :
      (now : ℤ) (l : AuditLogger)
      → IsBounded rotated_at longest max l
      → bytes_of
          (lookup l.log_file (if needs_rotation l then rotate now l.log_file l.files else l.files))
        ≤ max
  unfolding needs_rotation
  written_to now l b = elim (Bool-cases (needs_rotation l)) [
    | inl y ↦ rw (y, lookup-rotate now l.log_file l.files (b.other now)) (omega arith)
    | inr n ↦ rw n (elim (Option-cases (lookup l.log_file l.files)) [
      | inl e ↦ rw e (omega arith)
      | inr (f, e) ↦ rw e (ground (arith, b.size, rw (needs_rotation, e) at n))
    ])
  ]

  opened-Within :
      (now : ℤ) (e : AuditEvent) (path : String) (files : Map LogFile)
      → bytes_of (lookup path files) ≤ max
      → All (Within (max + longest)) files
      → All (Within (max + longest)) (
          if opens now
          then elim (if takes now then encoded e else none) [
            | none ↦ ensure now path files
            | some n ↦ append_line now path e n (ensure now path files)
          ]
          else files)
  opened-Within now e path files h a = elim (Bool-cases (opens now)) [
    | inr n ↦ rw n a
    | inl o ↦ rw o (elim (Bool-cases (takes now)) [
      | inr n ↦ rw n (ensure-Within (max + longest) now path files a)
      | inl t ↦ rw t (elim (Option-cases (encoded e)) [
        | inl n ↦ rw n (ensure-Within (max + longest) now path files a)
        | inr (n, y) ↦ rw y (
            append_line-Within (max + longest) now path e n (ensure now path files)
              (rw (bytes-ensure now path files) (omega (arith, short e n y)))
              (ensure-Within (max + longest) now path files a))
      ])
    ])
  ]

  write-Within :
      (now : ℤ) (e : AuditEvent) (l : AuditLogger)
      → IsBounded rotated_at longest max l
      → All
          (Within (max + longest))
          (write_event name_at rotated_at opens takes renames removes encoded now e l).files
  unfolding write_event
  write-Within now e l b =
      opened-Within now e l.log_file
        (if needs_rotation l then rotate now l.log_file l.files else l.files) (written_to now l b)
        (elim (Bool-cases (needs_rotation l)) [
          | inl y ↦ rw y (rotate-Within (max + longest) now l.log_file l.files b.within)
          | inr n ↦ rw n b.within
        ])

  write-IsBounded :
      (now : ℤ) (e : AuditEvent) (l : AuditLogger)
      → IsBounded rotated_at longest max l
      → IsBounded rotated_at longest max
          (write_event name_at rotated_at opens takes renames removes encoded now e l)
  unfolding write_event
  write-IsBounded now e l b = record {
    size = b.size;
    other = b.other;
    within = write-Within now e l b;
  }

  write_all-IsBounded :
      (now : ℤ) (es : List AuditEvent) (l : AuditLogger)
      → IsBounded rotated_at longest max l
      → IsBounded rotated_at longest max
          (write_all name_at rotated_at opens takes renames removes encoded now es l)
  unfolding write_all
  write_all-IsBounded now [] l b = b
  write_all-IsBounded now (e ∷ es) l b = write_all-IsBounded now es _ (write-IsBounded now e l b)

  -- A change of the other parts.
  rest-IsBounded :
      (k l : AuditLogger)
      → k.max_log_size ≡ l.max_log_size
      → k.log_file ≡ l.log_file
      → k.files ≡ l.files
      → IsBounded rotated_at longest max l
      → IsBounded rotated_at longest max k
  rest-IsBounded k l s p f b = record {
    size = s ∙ b.size;
    other = λ t e. b.other t (e ∙ p);
    within = rw f b.within;
  }

  act-IsBounded :
      (a : Action) (l : AuditLogger)
      → IsBounded rotated_at longest max l
      → IsBounded rotated_at longest max
          (act name_at rotated_at opens takes renames removes encoded a l)
  unfolding act log_event stop_logger take_event flush_queue daily_round end_rotation
      cleanup_old_logs
  act-IsBounded (logs now fresh e) l b =
      elim (Bool-cases (l.enabled && ltb (length l.queue) capacity)) [
        | inl y ↦ rw y (rest-IsBounded _ l refl refl refl b)
        | inr n ↦ rw n b
      ]
  act-IsBounded (takes_event now) l b = elim (Bool-cases l.listens) [
    | inl y ↦ rw y (elim (list_cases l.queue) [
      | inl empty ↦ rw empty (rest-IsBounded _ l refl refl refl b)
      | inr (e, es, full) ↦ rw full (write-IsBounded now e _ (rest-IsBounded _ l refl refl refl b))
    ])
    | inr n ↦ rw n (rest-IsBounded _ l refl refl refl b)
  ]
  act-IsBounded (flushes now) l b = elim (Bool-cases (l.listens && l.stopped)) [
    | inl y ↦ rw y (write_all-IsBounded now l.queue _ (rest-IsBounded _ l refl refl refl b))
    | inr n ↦ rw n b
  ]
  act-IsBounded (ages now) l b = elim (Bool-cases l.rotates) [
    | inl y ↦ rw y record {
      size = b.size;
      other = λ t. apart t now;
      within =
          keep_young-All name_at rotated_at opens takes renames removes encoded
            (Within (max + longest)) now l.max_log_age l.files b.within;
    }
    | inr n ↦ rw n (rest-IsBounded _ l refl refl refl b)
  ]
  act-IsBounded stops l b = elim (Bool-cases l.enabled) [
    | inr n ↦ rw n (rest-IsBounded _ l refl refl refl b)
    | inl y ↦ rw y (elim (Bool-cases l.stopped) [
      | inl t ↦ rw t (rest-IsBounded _ l refl refl refl b)
      | inr n ↦ rw n (rest-IsBounded _ l refl refl refl b)
    ])
  ]
  act-IsBounded ends_rotation l b = elim (Bool-cases l.stopped) [
    | inl y ↦ rw y (rest-IsBounded _ l refl refl refl b)
    | inr n ↦ rw n (rest-IsBounded _ l refl refl refl b)
  ]

  -- A new logger that runs is within the bound of 100 MiB if the files that it finds are.
  new_audit_logger-IsBounded :
      (now : ℤ) (files : Map LogFile)
      → max ≡ 104_857_600
      → All (Within (max + longest)) files
      → IsBounded rotated_at longest max (
          new_audit_logger name_at rotated_at opens takes renames removes encoded now true true
            files)
  unfolding new_audit_logger
  new_audit_logger-IsBounded now files e a = record {
    size = sym e;
    other = λ t. apart t now;
    within = a;
  }

  -- If no line is longer than the longest, every rename succeeds, and no rotated file is named like a
  -- log file, then whatever is done to a logger whose log files are no longer than its largest size and
  -- the longest line together, no log file ever is.
  pub files_bounded :
      (as_done : List Action) (l : AuditLogger)
      → IsBounded rotated_at longest max l
      → All
          (Within (max + longest))
          (act_all name_at rotated_at opens takes renames removes encoded as_done l).files
  unfolding act_all
  files_bounded [] l b = b.within
  files_bounded (a ∷ rest) l b = files_bounded rest _ (act-IsBounded a l b)
