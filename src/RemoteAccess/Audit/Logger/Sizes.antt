-- ===== src/RemoteAccess/Audit/Logger/Sizes.antt =====
-- audit.go: `currentSize` and the size of the file that is written to.
use mathlib.Core.Path.{subst}
use onli_desk_full.Common.{
  ◌⊎◌, arith, ◌≢◌, ◌≡◌, refl, ℕ, ◌+◌, ◌≤◌, ℤ, String, Bool, true, false, Option, none, some, List,
  [], ◌∷◌, ◌++◌, ltb, if◌then◌else◌,
}
use onli_desk_full.RemoteAccess.Audit.{AuditEvent}
use onli_desk_full.RemoteAccess.Audit.Retention.{LogFile}
use onli_desk_full.Common.{sym, ◌∙◌, Bool-cases, Option-cases, inl, inr, eq_refl}
use onli_desk_full.RemoteAccess.Audit.Logger.{
  or_zero, Held, open_file, closed_file, nil_file, Stored, AuditLogger, size_of, ensure,
  append_line, append_part, Written, whole, torn, init_log_file, new_audit_logger, close_held,
  rotate_log, write_line, log_event, log_events,
}

size_of-append :
    (path : String) (fs gs : List Stored)
    → size_of path fs ≡ none
    → size_of path (fs ++ gs) ≡ size_of path gs
size_of-append path [] gs h = refl
size_of-append path (f ∷ fs) gs h = ground (arith, size_of-append path fs gs)

size_of-ensure :
    (now : ℤ) (path : String) (fs : List Stored)
    → size_of path (ensure now path fs) ≡ some (or_zero (size_of path fs))
unfolding ensure
size_of-ensure now path fs = elim (Option-cases (size_of path fs)) [
  | inl e ↦ rw (e, ensure) (size_of-append path fs _ e ∙ rw (eq_refl path) refl)
  | inr (n, e) ↦ rw (e, ensure) e
]

size_of-append_line :
    (now : ℤ) (path : String) (e : AuditEvent) (n b : ℕ) (fs : List Stored)
    → size_of path fs ≡ some b
    → size_of path (append_line now path e n fs) ≡ some (b + n)
unfolding append_line
size_of-append_line now path e n b [] h = absurd (ground arith)
size_of-append_line now path e n b (f ∷ fs) h =
    ground (arith, size_of-append_line now path e n b fs)

size_of-append_part :
    (now : ℤ) (path : String) (n b : ℕ) (fs : List Stored)
    → size_of path fs ≡ some b
    → size_of path (append_part now path n fs) ≡ some (b + n)
unfolding append_part
size_of-append_part now path n b [] h = absurd (ground arith)
size_of-append_part now path n b (f ∷ fs) h = ground (arith, size_of-append_part now path n b fs)

-- A file of that path is at most `lost` bytes longer than the count, and not shorter.
abbrev pub Counts : ℕ → ℕ → String → List Stored → Type 0
Counts lost count path fs = (b : ℕ) × (size_of path fs ≡ some b) × (count ≤ b) × (b ≤ count + lost)

-- While a file is open, `currentSize` counts it.
record IsCounted (lost : ℕ) (l : AuditLogger) : Type 0 where
  pub counted :
      (path : String) → l.held ≡ open_file path → Counts lost l.current_size path l.directory

IsCounted-if :
    {lost : ℕ} {x y : AuditLogger} (b : Bool)
    → IsCounted lost x
    → IsCounted lost y
    → IsCounted lost (if b then x else y)
IsCounted-if true p q = p
IsCounted-if false p q = q

IsCounted-more : (lost more : ℕ) (l : AuditLogger) → IsCounted lost l → IsCounted (lost + more) l
IsCounted-more lost more l c = record {
  counted = λ path h. let (b, e, low, high) = c.counted path h in (b, e, low, omega (arith, high));
}

-- The bytes of a line that were written and not counted.
abbrev torn_bytes : Written → ℕ
torn_bytes whole = 0
torn_bytes (torn k) = k

Written-cases : (w : Written) → (w ≡ whole) ⊎ ((k : ℕ) × (w ≡ torn k))
Written-cases whole = inl refl
Written-cases (torn k) = inr (k, refl)

Held-cases :
    (h : Held) → ((path : String) × (h ≡ open_file path)) ⊎ ((h ≡ closed_file) ⊎ (h ≡ nil_file))
Held-cases (open_file path) = inl (path, refl)
Held-cases closed_file = inr (inl refl)
Held-cases nil_file = inr (inr refl)

open_inj : {p q : String} → open_file p ≡ open_file q → p ≡ q
open_inj e = cc

-- The bytes of torn lines, over all events.
abbrev pub torn_in : (ℤ → Written) → List (ℤ × AuditEvent) → ℕ
torn_in writes [] = 0
torn_in writes ((now, e) ∷ es) = torn_bytes (writes now) + torn_in writes es

module _ (opens : ℤ → Bool) (name_at : ℤ → String) (stats removes : LogFile → Bool)
    (encoded : AuditEvent → Option ℕ) (sizes : ℤ → Bool) (writes : ℤ → Written)
    (sized : (now : ℤ) → sizes now ≡ true) where
  -- `initLogFile` opens a file and takes its size, or leaves a logger that holds no open file so.
  init_log_file-IsCounted :
      (lost : ℕ) (now : ℤ) (l : AuditLogger)
      → ((path : String) → l.held ≢ open_file path)
      → IsCounted lost (init_log_file opens name_at stats removes encoded sizes writes now l).0
  unfolding init_log_file
  init_log_file-IsCounted lost now l c = elim (Bool-cases (opens now)) [
    | inl o ↦
        rw (o, sized now)
          (record {
            counted = λ path e.
                subst
                  (λ p.
                    Counts lost (or_zero (size_of (name_at now) l.directory)) p
                      (ensure now (name_at now) l.directory))
                  (open_inj e)
                  (
                    or_zero (size_of (name_at now) l.directory),
                    size_of-ensure now (name_at now) l.directory,
                    omega arith,
                    omega arith,
                  );
          })
    | inr f ↦ rw f (record { counted = λ path e. absurd (c path e) })
  ]

  close_held_not_open :
      (h : Held) (path : String)
      → close_held opens name_at stats removes encoded sizes writes h ≢ open_file path
  close_held_not_open nil_file path e = cc
  close_held_not_open closed_file path e = cc
  close_held_not_open (open_file q) path e = cc

  disabled-IsCounted :
      (lost : ℕ) (b : Bool) (l : AuditLogger)
      → IsCounted lost l
      → IsCounted lost (if b then l else record l { enabled = false })
  disabled-IsCounted lost true l c = c
  disabled-IsCounted lost false l c = record { counted = c.counted }

  rotate_log-IsCounted :
      (lost : ℕ) (now : ℤ) (l : AuditLogger)
      → IsCounted lost (rotate_log opens name_at stats removes encoded sizes writes now l)
  unfolding rotate_log
  rotate_log-IsCounted lost now l =
      disabled-IsCounted lost _ _ (init_log_file-IsCounted lost now _ (close_held_not_open l.held))

  write_line-IsCounted :
      (lost : ℕ) (now : ℤ) (e : AuditEvent) (n : ℕ) (l : AuditLogger)
      → IsCounted lost l
      → IsCounted
          (lost + torn_bytes (writes now))
          (write_line opens name_at stats removes encoded sizes writes now e n l)
  unfolding write_line
  write_line-IsCounted lost now e n l c = elim (Held-cases l.held) [
    | inr (inl h) ↦ rw (h, write_line) (IsCounted-more lost (torn_bytes (writes now)) l c)
    | inr (inr h) ↦ rw (h, write_line) (IsCounted-more lost (torn_bytes (writes now)) l c)
    | inl (p, h) ↦
        let (b, s, low, high) = c.counted p h in
        elim (Written-cases (writes now)) [
          | inl w ↦
              rw (h, write_line)
                (rw w (record {
                  counted = λ path q.
                      subst
                        (λ r.
                          Counts (lost + 0) (l.current_size + n) r
                            (append_line now p e n l.directory))
                        (open_inj (sym h ∙ q))
                        (
                          b + n,
                          size_of-append_line now p e n b l.directory s,
                          omega (arith, low),
                          omega (arith, high),
                        );
                }))
          | inr (k, w) ↦
              rw (h, write_line)
                (rw w (record {
                  counted = λ path q.
                      subst
                        (λ r. Counts (lost + k) l.current_size r (append_part now p k l.directory))
                        (open_inj (sym h ∙ q))
                        (
                          b + k,
                          size_of-append_part now p k b l.directory s,
                          omega (arith, low),
                          omega (arith, high),
                        );
                }))
        ]
  ]

  log_event-IsCounted :
      (lost : ℕ) (now : ℤ) (e : AuditEvent) (l : AuditLogger)
      → IsCounted lost l
      → IsCounted
          (lost + torn_bytes (writes now))
          (log_event opens name_at stats removes encoded sizes writes now e l)
  unfolding log_event
  log_event-IsCounted lost now e l c =
      let full : Bool = ltb l.rotate_size l.current_size in
      let l' : AuditLogger =
        if full then rotate_log opens name_at stats removes encoded sizes writes now l else l in
      let c' : IsCounted lost l' = IsCounted-if full (rotate_log-IsCounted lost now l) c in
      let more : ℕ = torn_bytes (writes now) in
      IsCounted-if l.enabled
        (elim (encoded e)
          as (λ o. IsCounted (lost + more) (elim o [
            | none ↦ l'
            | some n ↦ write_line opens name_at stats removes encoded sizes writes now e n l'
          ])) [
            | none ↦ IsCounted-more lost more l' c'
            | some n ↦ write_line-IsCounted lost now e n l' c'
          ])
        (IsCounted-more lost more l c)

  log_events-IsCounted :
      (lost : ℕ) (es : List (ℤ × AuditEvent)) (l : AuditLogger)
      → IsCounted lost l
      → IsCounted
          (lost + torn_in writes es)
          (log_events opens name_at stats removes encoded sizes writes es l)
  unfolding log_events
  log_events-IsCounted lost [] l c = IsCounted-more lost 0 l c
  log_events-IsCounted lost ((now, e) ∷ es) l c =
      let more : ℕ = torn_bytes (writes now) in
      let same : (lost + more) + torn_in writes es ≡ lost + (more + torn_in writes es) =
        omega arith in
      subst
        (λ k. IsCounted k (
          log_events opens name_at stats removes encoded sizes writes es
            (log_event opens name_at stats removes encoded sizes writes now e l)))
        same
        (log_events-IsCounted (lost + more) es
          (log_event opens name_at stats removes encoded sizes writes now e l)
          (log_event-IsCounted lost now e l c))

  nil_file_not_open : (path : String) → nil_file ≢ open_file path
  nil_file_not_open path e = cc

  -- For a new logger that alone writes to its directory: if the size of a file that is opened can be
  -- had, then after any events that it is given, through rotations and failures, the file that it has
  -- open is there, and is not shorter than the size that the logger keeps. It is longer by no more
  -- than the bytes of lines whose writing failed half-way, so that without such a failure the size is
  -- that of the file.
  pub current_size-Counts :
      (now : ℤ) (enabled : Bool) (fs : List Stored) (es : List (ℤ × AuditEvent)) (path : String)
      → let l =
          log_events opens name_at stats removes encoded sizes writes es
            (new_audit_logger opens name_at stats removes encoded sizes writes now enabled fs) in
        l.held ≡ open_file path → Counts (torn_in writes es) l.current_size path l.directory
  unfolding new_audit_logger
  current_size-Counts now enabled fs es path =
      let l : AuditLogger = record {
        enabled = enabled;
        held = nil_file;
        current_size = 0;
        rotate_size = 104_857_600;
        max_files = 10;
        directory = fs;
      } in
      let made : AuditLogger =
        new_audit_logger opens name_at stats removes encoded sizes writes now enabled fs in
      let none_yet : 0 + torn_in writes es ≡ torn_in writes es = omega arith in
      (subst
          (λ k. IsCounted k (log_events opens name_at stats removes encoded sizes writes es made))
          none_yet
          (log_events-IsCounted 0 es made (
            IsCounted-if enabled
              (disabled-IsCounted 0 _ _ (init_log_file-IsCounted 0 now l nil_file_not_open))
              (record { counted = λ p e. absurd (nil_file_not_open p e) })))).counted
        path
