-- ===== src/FileTransfer/Audit/Flush.antt =====
-- audit.go: what the goroutine of the logger writes before it ends.
use mathlib.Core.List.{append-nil, append_assoc}
use onli_desk_full.Common.{
  ◌≡◌, refl, ap, ◌∙◌, ℕ, ◌+◌, ◌≤◌, ℤ, String, Bool, true, false, Option, none, some, List, [], ◌∷◌,
  ◌++◌, inl, inr, Option-cases, arith, eq_refl,
}
use onli_desk_full.Common.Map.{Map, lookup, lookup-insert}
use onli_desk_full.FileTransfer.Audit.{AuditEvent}
use onli_desk_full.FileTransfer.Audit.Logger.{
  LogFile, AuditLogger, needs_rotation, ensure, append_line, write_event, write_all, flush_queue,
}
use onli_desk_full.FileTransfer.Audit.Queue.{write_all-queue, write_all-listens}

abbrev pub lines_of : Option LogFile → List AuditEvent
lines_of none = []
lines_of (some f) = f.lines

abbrev pub bytes_of : Option LogFile → ℕ
bytes_of none = 0
bytes_of (some f) = f.bytes

-- The line of an event that can be encoded, with its length.
abbrev line_of : AuditEvent → Option ℕ → List AuditEvent
line_of e none = []
line_of e (some n) = e ∷ []

abbrev length_of : Option ℕ → ℕ
length_of none = 0
length_of (some n) = n

abbrev encodable : (AuditEvent → Option ℕ) → List AuditEvent → List AuditEvent
encodable encoded [] = []
encodable encoded (e ∷ es) = line_of e (encoded e) ++ encodable encoded es

abbrev total : (AuditEvent → Option ℕ) → List AuditEvent → ℕ
total encoded [] = 0
total encoded (e ∷ es) = length_of (encoded e) + total encoded es

pub lookup-ensure :
    (now : ℤ) (path : String) (files : Map LogFile)
    → (f : LogFile) × (lookup path (ensure now path files) ≡ some f)
      × (f.lines ≡ lines_of (lookup path files))
      × (f.bytes ≡ bytes_of (lookup path files))
unfolding ensure
lookup-ensure now path files = elim (Option-cases (lookup path files)) [
  | inl e ↦
      rw (e, ensure)
        (
          record { lines = []; bytes = 0; mod_time = now },
          lookup-insert path path _ files ∙ rw (eq_refl path) refl,
          refl,
          refl,
        )
  | inr (f, e) ↦ rw (e, ensure) (f, e, refl, refl)
]

needs_rotation-fits :
    (l : AuditLogger)
    → bytes_of (lookup l.log_file l.files) ≤ l.max_log_size
    → needs_rotation l ≡ false
unfolding needs_rotation
needs_rotation-fits l h = elim (Option-cases (lookup l.log_file l.files)) [
  | inl e ↦ rw (e, needs_rotation) refl
  | inr (f, e) ↦ rw (e, needs_rotation) (ground (arith, rw e at h))
]

pub lookup-append_line :
    (now : ℤ) (path : String) (e : AuditEvent) (n : ℕ) (files : Map LogFile) (f : LogFile)
    → lookup path files ≡ some f
    → lookup path (append_line now path e n files)
      ≡ some (record { lines = f.lines ++ e ∷ []; bytes = f.bytes + n; mod_time = now })
unfolding append_line
lookup-append_line now path e n files f h =
    rw (h, append_line) (lookup-insert path path _ files ∙ rw (eq_refl path) refl)

module _ (name_at rotated_at : ℤ → String) (opens takes : ℤ → Bool)
    (renames removes : String → Bool) (encoded : AuditEvent → Option ℕ) (now : ℤ)
    (opened : opens now ≡ true) (taken : takes now ≡ true) where
  abbrev write : AuditEvent → AuditLogger → AuditLogger
  write = write_event name_at rotated_at opens takes renames removes encoded now

  abbrev held : AuditLogger → Option LogFile
  held l = lookup l.log_file l.files

  held-write :
      (e : AuditEvent) (l : AuditLogger)
      → bytes_of (held l) ≤ l.max_log_size
      → (lines_of (held (write e l)) ≡ lines_of (held l) ++ line_of e (encoded e))
        × (bytes_of (held (write e l)) ≡ bytes_of (held l) + length_of (encoded e))
  unfolding write_event
  held-write e l h =
      let there : (f : LogFile) × (lookup l.log_file (ensure now l.log_file l.files) ≡ some f)
          × (f.lines ≡ lines_of (held l))
          × (f.bytes ≡ bytes_of (held l)) =
        lookup-ensure now l.log_file l.files in
      let fits : needs_rotation l ≡ false = needs_rotation-fits l h in
      rw (fits, opened, taken)
        (elim (Option-cases (encoded e)) [
          | inl n ↦ rw (n, fits, there.1) (simp append-nil there.2, omega (arith, there.3))
          | inr (n, y) ↦
              rw
                (
                  y,
                  fits,
                  lookup-append_line now l.log_file e n (ensure now l.log_file l.files) there.0
                      there.1,
                )
                (ap (λ k. k ++ e ∷ []) there.2, ap (λ k. k + n) there.3)
        ])

  write_all-lines :
      (es : List AuditEvent) (l : AuditLogger)
      → bytes_of (held l) + total encoded es ≤ l.max_log_size
      → lines_of (
          lookup l.log_file
            (write_all name_at rotated_at opens takes renames removes encoded now es l).files)
        ≡ lines_of (held l) ++ encodable encoded es
  unfolding write_all write_event
  write_all-lines [] l h = simp append-nil refl
  write_all-lines (e ∷ es) l h =
      let w : (lines_of (held (write e l)) ≡ lines_of (held l) ++ line_of e (encoded e))
          × (bytes_of (held (write e l)) ≡ bytes_of (held l) + length_of (encoded e)) =
        held-write e l (omega arith) in
      write_all-lines es (write e l) (omega (arith, w.1))
      ∙ ap (λ k. k ++ encodable encoded es) w.0
      ∙ append_assoc (lines_of (held l)) (line_of e (encoded e)) (encodable encoded es)

  -- If the log file can be opened and written to, and stays within its largest size, then the goroutine
  -- that sees the stop adds to it each event of the queue that can be encoded, in the order in which
  -- they were logged, and ends with an empty queue.
  pub flush_queue-writes_all :
      (l : AuditLogger)
      → l.listens ≡ true
      → l.stopped ≡ true
      → bytes_of (held l) + total encoded l.queue ≤ l.max_log_size
      → (lines_of (
            lookup l.log_file
              (flush_queue name_at rotated_at opens takes renames removes encoded now l).files)
          ≡ lines_of (held l) ++ encodable encoded l.queue)
        × ((flush_queue name_at rotated_at opens takes renames removes encoded now l).queue ≡ [])
        × ((flush_queue name_at rotated_at opens takes renames removes encoded now l).listens
            ≡ false)
  unfolding flush_queue
  flush_queue-writes_all l r s h =
      let k : AuditLogger = record l { queue = []; stopped = true; listens = false } in
      rw (r, s)
        (
          write_all-lines l.queue k h,
          write_all-queue name_at rotated_at opens takes renames removes encoded now l.queue k,
          write_all-listens name_at rotated_at opens takes renames removes encoded now l.queue k,
        )
