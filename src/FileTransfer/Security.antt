-- ===== src/FileTransfer/Security.antt =====
-- src/server/internal/filetransfer/security.go: the validation of files (here and in Names), and their
-- encryption and deletion (Encryption, Deletion). What the operating system answers for the file is a
-- record `Probe`; `mime.TypeByExtension` and `strings.ToLower` are parameters. A result's texts are
-- the constructors of what they say.
pub mod Names
pub mod Traversal
pub mod Verdict
pub mod Encryption
pub mod Deletion
use onli_desk_full.Common.{
  ◌≡◌, ℕ, ◌≤◌, ltb, leb, nat_beq, String, ◌==◌, Bool, true, false, ◌&&◌, Option, none, some, List,
  [], ◌∷◌, ◌++◌, length, take, if◌then◌else◌,
}
use onli_desk_full.Common.Text.{Text, codes}
use onli_desk_full.FileTransfer.Chunks.{Bytes}
use onli_desk_full.FileTransfer.Settings.{SecurityConfig}
use onli_desk_full.FileTransfer.Security.Names.{
  NameError, validate_filename, has_blocked_extension, split_ext,
}

-- The content-based detection: a later signature replaces an earlier one.
abbrev pub starts : Bytes → Bytes → Bool
starts [] content = true
starts (x ∷ xs) [] = false
starts (x ∷ xs) (y ∷ ys) = nat_beq x y && starts xs ys

unfoldable pub sniff : Bytes → String
sniff content =
    if ltb (length content) 4
    then "application/octet-stream"
    else if starts (137 ∷ b'P' ∷ b'N' ∷ b'G' ∷ []) content && leb 8 (length content)
    then "image/png"
    else if starts (255 ∷ 216 ∷ []) content
    then "image/jpeg"
    else if starts (80 ∷ 75 ∷ []) content
    then "application/zip"
    else if starts (b'%' ∷ b'P' ∷ b'D' ∷ b'F' ∷ []) content
    then "application/pdf"
    else "application/octet-stream"

unfoldable pub is_listed_type : String → List String → Bool
is_listed_type type [] = false
is_listed_type type (t ∷ ts) = let rest = is_listed_type type ts in if type == t then true else rest

-- An empty list allows every type.
unfoldable pub is_mime_type_allowed : List String → String → Bool
unfolding is_listed_type
is_mime_type_allowed [] type = true
is_mime_type_allowed (t ∷ ts) type = is_listed_type type (t ∷ ts)

pub data Problem : Type 0 where
  bad_name : NameError → Problem
  blocked_extension : Problem
  mime_type_not_allowed : String → Problem
  failed_scan : Problem

pub data Warning : Type 0 where
  no_mime_type no_checksum no_scan : Warning

-- The calls of the audit logger.
pub data Logged : Type 0 where
  violation : Problem → Logged
  quarantined_entry validated_entry : Logged

pub record ValidationResult : Type 0 where
  pub valid : Bool
  pub errors : List Problem
  pub warnings : List Warning
  pub mime_type : String
  pub file_size : ℕ
  pub checksum : String
  pub quarantined : Bool
  pub scan_results : String
  pub logged : List Logged

-- `stat_size` and `scan_size` are the sizes that the two calls of `os.Stat` find, `head` the first 512
-- bytes, if the file can be opened and read, `digest` its SHA-256, and `renames` whether it can be moved.
pub record Probe : Type 0 where
  pub path : Text
  pub stat_size : Option ℕ
  pub head : Option Bytes
  pub digest : Option String
  pub scan_size : Option ℕ
  pub renames : Bool

unfoldable pub add_error : Problem → ValidationResult → ValidationResult
add_error p r = record r {
  valid = false;
  errors = r.errors ++ p ∷ [];
  logged = r.logged ++ violation p ∷ [];
}

unfoldable pub add_warning : Warning → ValidationResult → ValidationResult
add_warning w r = record r { warnings = r.warnings ++ w ∷ [] }

unfoldable pub check_name : SecurityConfig → Text → ValidationResult → ValidationResult
unfolding add_error
check_name c name r = elim (validate_filename c.max_filename_length name) [
  | none ↦ r
  | some e ↦ add_error (bad_name e) r
]

-- `calculateChecksum` knows one algorithm.
unfoldable pub check_checksum : SecurityConfig → Probe → ValidationResult → ValidationResult
unfolding add_warning
check_checksum c p r =
    if c.require_checksum
    then (if c.checksum_algorithm == "SHA256"
        then elim p.digest [ none ↦ add_warning no_checksum r | some d ↦ record r { checksum = d } ]
        else add_warning no_checksum r)
    else r

-- `scanForMalware`: a file over 100 MiB is not clean.
unfoldable pub is_clean : ℕ → Bool
is_clean size = leb size 104_857_600

unfoldable pub quarantine : Bool → ValidationResult → ValidationResult
quarantine renames r =
    if renames
    then record r { quarantined = true; logged = r.logged ++ quarantined_entry ∷ [] }
    else r

unfoldable pub check_scan : SecurityConfig → Probe → ValidationResult → ValidationResult
unfolding add_error add_warning is_clean quarantine
check_scan c p r =
    if c.scan_for_malware
    then elim p.scan_size [
      | none ↦ add_warning no_scan r
      | some n ↦
          if is_clean n
          then r
          else quarantine p.renames (record (add_error failed_scan r) {
            scan_results = "File size exceeds safety threshold";
          })
    ]
    else r

unfoldable pub log_valid : ValidationResult → ValidationResult
log_valid r = if r.valid then record r { logged = r.logged ++ validated_entry ∷ [] } else r

abbrev pub empty_result : ℕ → ValidationResult
empty_result size = record {
  valid = true;
  errors = [];
  warnings = [];
  mime_type = "";
  file_size = size;
  checksum = "";
  quarantined = false;
  scan_results = "";
  logged = [];
}

module _ (type_by_extension : Text → String) (to_lower : Text → Text) where
  unfoldable pub check_extension : SecurityConfig → Text → ValidationResult → ValidationResult
  unfolding add_error
  check_extension c name r =
      if has_blocked_extension to_lower c.blocked_extensions name
      then add_error blocked_extension r
      else r

  -- By the extension of the path, and if that is not known, by the content.
  unfoldable pub detect_mime_type : Probe → Option String
  unfolding sniff
  detect_mime_type p = elim p.head [
    | none ↦ none
    | some content ↦
        let type = type_by_extension (split_ext p.path).1 in
        if type == "" then some (sniff content) else some type
  ]

  unfoldable pub check_mime_type : SecurityConfig → Probe → ValidationResult → ValidationResult
  unfolding add_error add_warning is_mime_type_allowed
  check_mime_type c p r = elim (detect_mime_type p) [
    | none ↦ add_warning no_mime_type r
    | some type ↦
        if is_mime_type_allowed c.allowed_mime_types type
        then record r { mime_type = type }
        else add_error (mime_type_not_allowed type) (record r { mime_type = type })
  ]

  -- `none` if the file is not there.
  unfoldable pub validate_file : SecurityConfig → Probe → Text → Option ValidationResult
  unfolding check_name check_extension check_mime_type check_checksum check_scan log_valid
  validate_file c p name = elim p.stat_size [
    | none ↦ none
    | some size ↦ some (
        log_valid (
          check_scan c p (
            check_checksum c p (
              check_mime_type c p
                (check_extension c name (check_name c name (empty_result size)))))))
  ]
