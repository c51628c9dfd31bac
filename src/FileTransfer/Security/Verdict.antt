-- ===== src/FileTransfer/Security/Verdict.antt =====
-- security.go: when `ValidateFile` finds a file valid.
use onli_desk_full.Common.{
  ◌≡◌, refl, ◌≢◌, eq_iff, ap, sym, ◌∙◌, ℕ, String, ◌==◌, Bool, true, false, ◌&&◌, ◌||◌, not, Option,
  none, some, List, [], ◌∷◌, ◌++◌, arith, some_inj, Option-cases, Bool-cases, inl, inr,
}
use onli_desk_full.Common.Text.{Text}
use onli_desk_full.FileTransfer.Settings.{SecurityConfig}
use onli_desk_full.FileTransfer.Security.Names.{
  NameError, validate_filename, has_blocked_extension, split_ext,
}
use onli_desk_full.FileTransfer.Security.{
  Probe, Problem, Warning, bad_name, no_checksum, no_mime_type, no_scan, blocked_extension,
  mime_type_not_allowed, failed_scan, ValidationResult, add_error, add_warning, check_name,
  check_extension, check_mime_type, check_checksum, check_scan, log_valid, detect_mime_type,
  is_mime_type_allowed, is_clean, quarantine, empty_result, validate_file,
}

abbrev pub no_problem : List Problem → Bool
no_problem [] = true
no_problem (p ∷ ps) = false

no_problem-append : (ps : List Problem) (p : Problem) → no_problem (ps ++ p ∷ []) ≡ false
no_problem-append [] p = refl
no_problem-append (q ∷ ps) p = refl

-- A result whose verdict is `b`, and says so by its errors.
record Says (b : Bool) (r : ValidationResult) : Type 0 where
  verdict : r.valid ≡ b
  told : no_problem r.errors ≡ b

passes : {r : ValidationResult} (b : Bool) → Says b r → Says (b && true) r
passes true s = s
passes false s = s

fails : (b : Bool) (p : Problem) (r : ValidationResult) → Says (b && false) (add_error p r)
unfolding add_error
fails true p r = record { verdict = refl; told = no_problem-append r.errors p }
fails false p r = record { verdict = refl; told = no_problem-append r.errors p }

warned : {r : ValidationResult} {b : Bool} (w : Warning) → Says b r → Says b (add_warning w r)
unfolding add_warning
warned w s = record { verdict = s.verdict; told = s.told }

-- The tests that a file has to pass.
abbrev pub is_name_valid : Option NameError → Bool
is_name_valid none = true
is_name_valid (some e) = false

abbrev pub is_type_valid : SecurityConfig → Option String → Bool
is_type_valid c none = true
is_type_valid c (some type) = is_mime_type_allowed c.allowed_mime_types type

abbrev pub is_scan_valid : SecurityConfig → Option ℕ → Bool
is_scan_valid c none = true
is_scan_valid c (some size) = not c.scan_for_malware || is_clean size

check_name-Says :
    (c : SecurityConfig) (name : Text) (r : ValidationResult) (b : Bool)
    → Says b r
    → Says (b && is_name_valid (validate_filename c.max_filename_length name)) (check_name c name r)
unfolding check_name
check_name-Says c name r b s = elim (Option-cases (validate_filename c.max_filename_length name)) [
  | inl e ↦ rw (e, check_name) (passes b s)
  | inr (x, e) ↦ rw (e, check_name) (fails b (bad_name x) r)
]

check_checksum-Says :
    (c : SecurityConfig) (p : Probe) (r : ValidationResult) (b : Bool)
    → Says b r
    → Says b (check_checksum c p r)
unfolding check_checksum
check_checksum-Says c p r b s = elim (Bool-cases c.require_checksum) [
  | inr n ↦ simp (n, check_checksum) s
  | inl y ↦ elim (Bool-cases (c.checksum_algorithm == "SHA256")) [
    | inr n ↦ simp (y, n, check_checksum) (warned no_checksum s)
    | inl h ↦ elim (Option-cases p.digest) [
      | inl e ↦ simp (y, h, e, check_checksum) (warned no_checksum s)
      | inr (d, e) ↦ simp (y, h, e, check_checksum) (record { verdict = s.verdict; told = s.told })
    ]
  ]
]

quarantine-Says : {r : ValidationResult} {b : Bool} (q : Bool) → Says b r → Says b (quarantine q r)
unfolding quarantine
quarantine-Says true s = record { verdict = s.verdict; told = s.told }
quarantine-Says false s = s

scan_details :
    {r : ValidationResult} {b : Bool} (t : String)
    → Says b r
    → Says b (record r { scan_results = t })
scan_details t s = record { verdict = s.verdict; told = s.told }

check_scan-Says :
    (c : SecurityConfig) (p : Probe) (r : ValidationResult) (b : Bool)
    → Says b r
    → Says (b && is_scan_valid c p.scan_size) (check_scan c p r)
unfolding check_scan
check_scan-Says c p r b s = elim (Option-cases p.scan_size) [
  | inl e ↦ elim (Bool-cases c.scan_for_malware) [
    | inl y ↦ simp (y, e, check_scan) (passes b (warned no_scan s))
    | inr n ↦ simp (n, e, check_scan) (passes b s)
  ]
  | inr (size, e) ↦ elim (Bool-cases c.scan_for_malware) [
    | inr n ↦ simp (n, e, check_scan) (passes b s)
    | inl y ↦ elim (Bool-cases (is_clean size)) [
      | inl k ↦ simp (y, e, k, check_scan) (passes b s)
      | inr k ↦
          simp (y, e, k, check_scan)
            (quarantine-Says p.renames
              (scan_details "File size exceeds safety threshold" (fails b failed_scan r)))
    ]
  ]
]

log_valid-Says : (r : ValidationResult) (b : Bool) → Says b r → Says b (log_valid r)
unfolding log_valid
log_valid-Says r b s = elim (Bool-cases r.valid) [
  | inl y ↦ rw (y, log_valid) (record { verdict = sym y ∙ s.verdict; told = s.told })
  | inr n ↦ simp (n, log_valid) s
]

and_false : (a b : Bool) → ((a && false) && b) ≡ false
and_false true b = refl
and_false false b = refl

module _ (type_by_extension : Text → String) (to_lower : Text → Text) where
  check_extension-Says :
      (c : SecurityConfig) (name : Text) (r : ValidationResult) (b : Bool)
      → Says b r
      → Says
          (b && not (has_blocked_extension to_lower c.blocked_extensions name))
          (check_extension type_by_extension to_lower c name r)
  unfolding check_extension
  check_extension-Says c name r b s =
      elim (Bool-cases (has_blocked_extension to_lower c.blocked_extensions name)) [
        | inl y ↦ rw (y, check_extension) (fails b blocked_extension r)
        | inr n ↦ rw (n, check_extension) (passes b s)
      ]

  mime_noted :
      {r : ValidationResult} {b : Bool} (t : String)
      → Says b r
      → Says b (record r { mime_type = t })
  mime_noted t s = record { verdict = s.verdict; told = s.told }

  check_mime_type-Says :
      (c : SecurityConfig) (p : Probe) (r : ValidationResult) (b : Bool)
      → Says b r
      → Says
          (b && is_type_valid c (detect_mime_type type_by_extension to_lower p))
          (check_mime_type type_by_extension to_lower c p r)
  unfolding check_mime_type
  check_mime_type-Says c p r b s =
      elim (Option-cases (detect_mime_type type_by_extension to_lower p)) [
        | inl e ↦ rw (e, check_mime_type) (passes b (warned no_mime_type s))
        | inr (t, e) ↦ elim (Bool-cases (is_mime_type_allowed c.allowed_mime_types t)) [
          | inl y ↦ rw (e, check_mime_type) (rw y (passes b (mime_noted t s)))
          | inr n ↦
              rw (e, check_mime_type)
                (rw n (fails b (mime_type_not_allowed t) (record r { mime_type = t })))
        ]
      ]

  pub validate_file-verdict :
      (c : SecurityConfig) (p : Probe) (name : Text) (size : ℕ)
      → p.stat_size ≡ some size
      → (r : ValidationResult) × (validate_file type_by_extension to_lower c p name ≡ some r)
        × (r.valid ≡ (
            is_name_valid (validate_filename c.max_filename_length name)
            && not (has_blocked_extension to_lower c.blocked_extensions name)
            && is_type_valid c (detect_mime_type type_by_extension to_lower p)
            && is_scan_valid c p.scan_size))
        × (no_problem r.errors ≡ r.valid)
  unfolding validate_file
  validate_file-verdict c p name size e =
      let r0 : ValidationResult = empty_result size in
      let r1 : ValidationResult = check_name c name r0 in
      let r2 : ValidationResult = check_extension type_by_extension to_lower c name r1 in
      let r3 : ValidationResult = check_mime_type type_by_extension to_lower c p r2 in
      let r4 : ValidationResult = check_checksum c p r3 in
      let s1 = check_name-Says c name r0 true (record { verdict = refl; told = refl }) in
      let s2 = check_extension-Says c name r1 _ s1 in
      let s3 = check_mime_type-Says c p r2 _ s2 in
      let s4 = check_scan-Says c p r4 _ (check_checksum-Says c p r3 _ s3) in
      let s5 = log_valid-Says (check_scan c p r4) _ s4 in
      let q =
        ap
          (λ o. elim o as (λ x. Option ValidationResult) [
            | none ↦ none
            | some n ↦ some (
                log_valid (
                  check_scan c p (
                    check_checksum c p (
                      check_mime_type type_by_extension to_lower c p (
                        check_extension type_by_extension to_lower c name
                          (check_name c name (empty_result n)))))))
          ])
          e in
      (log_valid (check_scan c p r4), q, s5.verdict, s5.told ∙ sym s5.verdict)

  -- The type of a file that can be read, and whose extension is known.
  detect-by_extension :
      (p : Probe)
      → p.head ≢ none
      → type_by_extension (split_ext p.path).1 ≢ ""
      → detect_mime_type type_by_extension to_lower p
        ≡ some (type_by_extension (split_ext p.path).1)
  unfolding detect_mime_type
  detect-by_extension p h t = ground (arith, eq_iff (type_by_extension (split_ext p.path).1) "")

  -- With a list of allowed types that does not hold the very text, parameters included, that
  -- `mime.TypeByExtension` gives for the file's path, a file that can be read is found invalid.
  pub unlisted_type_is_invalid :
      (c : SecurityConfig) (p : Probe) (name : Text) (size : ℕ) (r : ValidationResult)
      → p.stat_size ≡ some size
      → p.head ≢ none
      → type_by_extension (split_ext p.path).1 ≢ ""
      → is_mime_type_allowed c.allowed_mime_types (type_by_extension (split_ext p.path).1) ≡ false
      → validate_file type_by_extension to_lower c p name ≡ some r
      → r.valid ≡ false
  unfolding detect_mime_type
  unlisted_type_is_invalid c p name size r e h t n v =
      let type : String = type_by_extension (split_ext p.path).1 in
      let (r', v', verdict, _) = validate_file-verdict c p name size e in
      let same : r ≡ r' = some_inj (sym v ∙ v') in
      let found = detect-by_extension p h t in
      ap (λ x. x.valid) same
      ∙ verdict
      ∙ ap
          (λ b.
            ((is_name_valid (validate_filename c.max_filename_length name)
                && not (has_blocked_extension to_lower c.blocked_extensions name))
              && b)
            && is_scan_valid c p.scan_size)
          (ap (is_type_valid c) found ∙ n)
      ∙ and_false
          (is_name_valid (validate_filename c.max_filename_length name)
            && not (has_blocked_extension to_lower c.blocked_extensions name))
          (is_scan_valid c p.scan_size)
