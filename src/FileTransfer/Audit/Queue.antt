-- ===== src/FileTransfer/Audit/Queue.antt =====
-- audit.go: the queue of the logger, and what becomes of it when the logger stops.
use onli_desk_full.Common.{
  ◌⊎◌, ◌≡◌, refl, ℕ, ◌+◌, ◌≤◌, ℤ, String, Bool, false, ◌&&◌, Option, List, [], ◌∷◌, ◌++◌, ltb,
  length, All, inl, inr, Bool-cases, arith,
}
use onli_desk_full.Common.Map.{Map}
use onli_desk_full.FileTransfer.Audit.{AuditEvent, fill_event}
use onli_desk_full.FileTransfer.Audit.Logger.{
  LogFile, AuditLogger, capacity, log_event, write_event, write_all, take_event, flush_queue,
  is_old, keep_young, cleanup_old_logs, daily_round, end_rotation, Action, logs, takes_event,
  flushes, ages, stops, ends_rotation, stop_logger, act, act_all,
}

pub list_cases :
    {A : Type 0} → (xs : List A) → (xs ≡ []) ⊎ ((x : A) × (rest : List A) × (xs ≡ x ∷ rest))
list_cases [] = inl refl
list_cases (x ∷ xs) = inr (x, xs, refl)

module _ (name_at rotated_at : ℤ → String) (opens takes : ℤ → Bool)
    (renames removes : String → Bool) (encoded : AuditEvent → Option ℕ) where
  abbrev write : ℤ → AuditEvent → AuditLogger → AuditLogger
  write = write_event name_at rotated_at opens takes renames removes encoded

  abbrev write_rest : ℤ → List AuditEvent → AuditLogger → AuditLogger
  write_rest = write_all name_at rotated_at opens takes renames removes encoded

  abbrev kept : ℤ → ℤ → Map LogFile → Map LogFile
  kept = keep_young name_at rotated_at opens takes renames removes encoded

  abbrev step : Action → AuditLogger → AuditLogger
  step = act name_at rotated_at opens takes renames removes encoded

  abbrev run : List Action → AuditLogger → AuditLogger
  run = act_all name_at rotated_at opens takes renames removes encoded

  pub keep_young-All :
      (P : String × LogFile → Type 0) (now age : ℤ) (files : Map LogFile)
      → All P files
      → All P (kept now age files)
  unfolding keep_young
  keep_young-All P now age [] a = tt
  keep_young-All P now age ((path, f) ∷ files) a =
      elim (Bool-cases (is_old now age f && removes path)) [
        | inl y ↦ rw y (keep_young-All P now age files a.1)
        | inr n ↦ rw n (a.0, keep_young-All P now age files a.1)
      ]

  pub write_all-queue :
      (now : ℤ) (es : List AuditEvent) (l : AuditLogger) → (write_rest now es l).queue ≡ l.queue
  unfolding write_all write_event
  write_all-queue now [] l = refl
  write_all-queue now (e ∷ es) l = write_all-queue now es (write now e l)

  pub write_all-listens :
      (now : ℤ) (es : List AuditEvent) (l : AuditLogger) → (write_rest now es l).listens ≡ l.listens
  unfolding write_all write_event
  write_all-listens now [] l = refl
  write_all-listens now (e ∷ es) l = write_all-listens now es (write now e l)

  length-snoc : (es : List AuditEvent) (e : AuditEvent) → length (es ++ e ∷ []) ≡ length es + 1
  length-snoc [] e = omega arith
  length-snoc (x ∷ es) e = ground (arith, length-snoc es e)

  act-capacity :
      (a : Action) (l : AuditLogger)
      → length l.queue ≤ capacity
      → length (step a l).queue ≤ capacity
  unfolding act log_event stop_logger take_event flush_queue daily_round end_rotation write_event
  act-capacity (logs now fresh e) l h =
      elim (Bool-cases (l.enabled && ltb (length l.queue) capacity)) [
        | inl y ↦ rw (y, length-snoc l.queue (fill_event now fresh e)) (ground (arith, y))
        | inr n ↦ rw n h
      ]
  act-capacity (takes_event now) l h = elim (Bool-cases l.listens) [
    | inl y ↦ rw y (elim (list_cases l.queue) [
      | inl empty ↦ rw (empty, take_event) (rw empty (omega arith))
      | inr (e, es, full) ↦ rw full (omega (arith, (rw full at h)))
    ])
    | inr n ↦ rw n h
  ]
  act-capacity (flushes now) l h = elim (Bool-cases (l.listens && l.stopped)) [
    | inl y ↦
        rw (y, write_all-queue now l.queue (record l { queue = []; listens = false })) (omega arith)
    | inr n ↦ rw n h
  ]
  act-capacity (ages now) l h = elim (Bool-cases l.rotates) [ inl y ↦ rw y h | inr n ↦ rw n h ]
  act-capacity stops l h = elim (Bool-cases l.enabled) [
    | inr n ↦ rw n h
    | inl y ↦ rw y (elim (Bool-cases l.stopped) [ inl t ↦ rw t h | inr n ↦ rw n h ])
  ]
  act-capacity ends_rotation l h = elim (Bool-cases l.stopped) [ inl y ↦ rw y h | inr n ↦ rw n h ]

  -- Whatever is done to a logger whose queue holds no more than the channel has room for, in whatever
  -- order, the queue never holds more than that.
  pub queue_bounded :
      (as_done : List Action) (l : AuditLogger)
      → length l.queue ≤ capacity
      → length (run as_done l).queue ≤ capacity
  unfolding act_all
  queue_bounded [] l h = h
  queue_bounded (a ∷ rest) l h = queue_bounded rest (step a l) (act-capacity a l h)

  act-ended :
      (P : String × LogFile → Type 0) (a : Action) (l : AuditLogger)
      → l.listens ≡ false
      → All P l.files
      → ((step a l).listens ≡ false) × All P (step a l).files
  unfolding act log_event stop_logger take_event flush_queue daily_round end_rotation
      cleanup_old_logs
  act-ended P (logs now fresh e) l h p =
      elim (Bool-cases (l.enabled && ltb (length l.queue) capacity)) [
        | inl y ↦ rw y (h, p)
        | inr n ↦ rw n (h, p)
      ]
  act-ended P (takes_event now) l h p = rw h (refl, p)
  act-ended P (flushes now) l h p = rw h (refl, p)
  act-ended P (ages now) l h p = elim (Bool-cases l.rotates) [
    | inl y ↦ rw y (h, keep_young-All P now l.max_log_age l.files p)
    | inr n ↦ rw n (h, p)
  ]
  act-ended P stops l h p = elim (Bool-cases l.enabled) [
    | inr n ↦ rw n (h, p)
    | inl y ↦ rw y (elim (Bool-cases l.stopped) [ inl t ↦ rw t (h, p) | inr n ↦ rw n (h, p) ])
  ]
  act-ended P ends_rotation l h p = elim (Bool-cases l.stopped) [
    | inl y ↦ rw y (h, p)
    | inr n ↦ rw n (h, p)
  ]

  -- Once the goroutine that writes the events has ended, whatever is done to the logger, a property
  -- that every log file has is one that every log file has afterwards: nothing more is written.
  pub ended_writes_nothing :
      (P : String × LogFile → Type 0) (as_done : List Action) (l : AuditLogger)
      → l.listens ≡ false
      → All P l.files
      → All P (run as_done l).files
  unfolding act_all
  ended_writes_nothing P [] l h p = p
  ended_writes_nothing P (a ∷ rest) l h p =
      let after : ((step a l).listens ≡ false) × All P (step a l).files = act-ended P a l h p in
      ended_writes_nothing P rest (step a l) after.0 after.1
