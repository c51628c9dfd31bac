-- ===== src/RemoteAccess/Config.antt =====
-- src/server/internal/remoteaccess/config.go: the configuration, its defaults, its validation, and
-- the rules on files, commands and privileges. Go's signed integers are ℤ; the loops over strings
-- are recursions on code points.
pub mod Defaults
pub mod Validation
pub mod Rules
use onli_desk_full.Common.{
  ◌≡◌, ℕ, ℤ, pos, leb_ℤ, ltb_ℤ, String, ◌==◌, Bool, true, false, ◌||◌, ◌&&◌, not, Option, none,
  some, List, [], ◌∷◌, nat_beq, if◌then◌else◌, length,
}
use onli_desk_full.Common.Text.{Text, codes, is_listed, lower}
use mathlib.Core.List.{reverse}
use onli_desk_full.RemoteAccess.Session.{PrivilegeType}

abbrev pub admin_privilege : PrivilegeType
admin_privilege = "admin"

abbrev pub elevated_privilege : PrivilegeType
elevated_privilege = "elevated"

abbrev pub registry_privilege : PrivilegeType
registry_privilege = "registry"

abbrev pub services_privilege : PrivilegeType
services_privilege = "services"

-- `PrivilegeType.IsValid`.
unfoldable pub is_valid_privilege : PrivilegeType → Bool
is_valid_privilege p =
    p == admin_privilege
    || (p == elevated_privilege || (p == registry_privilege || p == services_privilege))

pub record PrivilegeEscalation : Type 0 where
  pub enabled : Bool
  pub require_approval : Bool
  pub auto_approval_timeout : ℤ
  pub max_privilege_duration : ℤ
  pub default_privilege_duration : ℤ
  pub require_justification : Bool
  pub min_justification_length : ℤ
  pub allowed_privileges : List PrivilegeType
  pub notify_on_escalation : Bool
  pub log_all_requests : Bool

pub record RemoteAccessConfig : Type 0 where
  pub enabled : Bool
  pub max_concurrent_sessions : ℤ
  pub session_timeout : ℤ
  pub idle_timeout : ℤ
  pub cleanup_interval : ℤ
  pub websocket_read_timeout : ℤ
  pub websocket_write_timeout : ℤ
  pub websocket_ping_interval : ℤ
  pub websocket_pong_timeout : ℤ
  pub max_message_size : ℤ
  pub require_authentication : Bool
  pub allowed_origins : List String
  pub rate_limit_enabled : Bool
  pub rate_limit_requests : ℤ
  pub rate_limit_window : ℤ
  pub max_failed_attempts : ℤ
  pub lockout_duration : ℤ
  pub privilege_escalation : PrivilegeEscalation
  pub audit_enabled : Bool
  pub audit_log_dir : String
  pub audit_retention_days : ℤ
  pub file_transfer_enabled : Bool
  pub max_file_size : ℤ
  pub allowed_file_types : List String
  pub blocked_file_types : List String
  pub screen_sharing_enabled : Bool
  pub max_screenshot_size : ℤ
  pub screenshot_quality : ℤ
  pub screenshot_interval : ℤ
  pub command_execution_enabled : Bool
  pub allowed_commands : List String
  pub blocked_commands : List String
  pub command_timeout : ℤ

-- The errors of `PrivilegeEscalationConfig.Validate`, then those of `RemoteAccessConfig.Validate`.
pub data PrivilegeError : Type 0 where
  auto_approval_timeout max_privilege_duration default_privilege_duration : PrivilegeError
  default_above_max min_justification_length no_privilege : PrivilegeError
  invalid_privilege : PrivilegeType → PrivilegeError

pub data ConfigError : Type 0 where
  max_concurrent_sessions session_timeout idle_timeout websocket_read_timeout : ConfigError
  websocket_write_timeout max_message_size rate_limit_requests rate_limit_window : ConfigError
  max_failed_attempts lockout_duration audit_retention_days max_file_size : ConfigError
  max_screenshot_size screenshot_quality screenshot_interval command_timeout : ConfigError
  privilege_escalation : PrivilegeError → ConfigError

-- `if bad { return e }`, and the first error of a chain of such tests.
abbrev pub fail_if {ℓ} : {E : Type ℓ} → Bool → E → Option E
fail_if true e = some e
fail_if false e = none

unfoldable pub first_error {ℓ} : {E : Type ℓ} → List (Option E) → Option E
first_error [] = none
first_error (none ∷ rest) = first_error rest
first_error (some e ∷ rest) = some e

abbrev pub not_positive : ℤ → Bool
not_positive z = leb_ℤ z (pos 0)

abbrev pub is_empty {ℓ} : {A : Type ℓ} → List A → Bool
is_empty [] = true
is_empty (_ ∷ _) = false

-- The loop over the allowed privileges.
unfoldable pub first_invalid : List PrivilegeType → Option PrivilegeError
unfolding is_valid_privilege
first_invalid [] = none
first_invalid (p ∷ ps) =
    if not (is_valid_privilege p) then some (invalid_privilege p) else first_invalid ps

abbrev pub privilege_checks : PrivilegeEscalation → List (Option PrivilegeError)
privilege_checks c =
    fail_if (not_positive c.auto_approval_timeout) auto_approval_timeout
    ∷ fail_if (not_positive c.max_privilege_duration) PrivilegeError.max_privilege_duration
    ∷ fail_if (not_positive c.default_privilege_duration) default_privilege_duration
    ∷ fail_if (ltb_ℤ c.max_privilege_duration c.default_privilege_duration) default_above_max
    ∷ fail_if (c.require_justification && not_positive c.min_justification_length)
        min_justification_length
    ∷ fail_if (is_empty c.allowed_privileges) no_privilege
    ∷ first_invalid c.allowed_privileges
    ∷ []

unfoldable pub validate_privileges : PrivilegeEscalation → Option PrivilegeError
unfolding first_error
validate_privileges c = if not c.enabled then none else first_error (privilege_checks c)

abbrev pub as_config_error : Option PrivilegeError → Option ConfigError
as_config_error none = none
as_config_error (some e) = some (ConfigError.privilege_escalation e)

abbrev pub config_checks : RemoteAccessConfig → List (Option ConfigError)
config_checks c =
    fail_if (not_positive c.max_concurrent_sessions) ConfigError.max_concurrent_sessions
    ∷ fail_if (not_positive c.session_timeout) ConfigError.session_timeout
    ∷ fail_if (not_positive c.idle_timeout) ConfigError.idle_timeout
    ∷ fail_if (not_positive c.websocket_read_timeout) ConfigError.websocket_read_timeout
    ∷ fail_if (not_positive c.websocket_write_timeout) ConfigError.websocket_write_timeout
    ∷ fail_if (not_positive c.max_message_size) ConfigError.max_message_size
    ∷ fail_if (c.rate_limit_enabled && not_positive c.rate_limit_requests)
        ConfigError.rate_limit_requests
    ∷ fail_if (c.rate_limit_enabled && not_positive c.rate_limit_window)
        ConfigError.rate_limit_window
    ∷ fail_if (not_positive c.max_failed_attempts) ConfigError.max_failed_attempts
    ∷ fail_if (not_positive c.lockout_duration) ConfigError.lockout_duration
    ∷ as_config_error (validate_privileges c.privilege_escalation)
    ∷ fail_if (not_positive c.audit_retention_days) ConfigError.audit_retention_days
    ∷ fail_if (c.file_transfer_enabled && not_positive c.max_file_size) ConfigError.max_file_size
    ∷ fail_if (c.screen_sharing_enabled && not_positive c.max_screenshot_size)
        ConfigError.max_screenshot_size
    ∷ fail_if
        (c.screen_sharing_enabled
          && (ltb_ℤ c.screenshot_quality (pos 1) || ltb_ℤ (pos 100) c.screenshot_quality))
        ConfigError.screenshot_quality
    ∷ fail_if (c.screen_sharing_enabled && not_positive c.screenshot_interval)
        ConfigError.screenshot_interval
    ∷ fail_if (c.command_execution_enabled && not_positive c.command_timeout)
        ConfigError.command_timeout
    ∷ []

unfoldable pub validate : RemoteAccessConfig → Option ConfigError
unfolding first_error validate_privileges
validate c = first_error (config_checks c)

-- The loop that looks for the last dot, from the end of the name; no dot leaves `ext` empty.
unfoldable pub scan_back : Text → Text → Text
scan_back [] after = []
scan_back (c ∷ before) after = if nat_beq c b'.' then c ∷ after else scan_back before (c ∷ after)

unfoldable pub file_ext : Text → Text
unfolding scan_back
file_ext name = scan_back (reverse name) []

unfoldable pub is_file_type_allowed : RemoteAccessConfig → String → Bool
unfolding file_ext lower is_listed
is_file_type_allowed c filename =
    if not c.file_transfer_enabled
    then false
    else let ext = file_ext (codes filename) in
      if is_empty ext
      then false
      else if is_listed (lower ext) c.blocked_file_types
      then false
      else if is_empty c.allowed_file_types
      then true
      else if is_listed (lower ext) c.allowed_file_types
      then true
      else false

-- `command[:i]` for the first blank `i`, and "" if there is none.
abbrev pub is_blank : ℕ → Bool
is_blank c = nat_beq c b' ' || nat_beq c 9

unfoldable pub before_blank : Text → Option Text
before_blank [] = none
before_blank (c ∷ s) = elim (is_blank c) [
  | true ↦ some []
  | false ↦ elim (before_blank s) [ none ↦ none | some w ↦ some (c ∷ w) ]
]

abbrev pub or_empty : Option Text → Text
or_empty none = []
or_empty (some w) = w

unfoldable pub command_name : Text → Text
unfolding before_blank
command_name s = let word = or_empty (before_blank s) in if is_empty word then s else word

unfoldable pub is_command_allowed : RemoteAccessConfig → String → Bool
unfolding command_name lower is_listed
is_command_allowed c command =
    if not c.command_execution_enabled
    then false
    else let name = lower (command_name (codes command)) in
      if is_listed name c.blocked_commands
      then false
      else if is_empty c.allowed_commands
      then true
      else if is_listed name c.allowed_commands
      then true
      else false

unfoldable pub get_privilege_timeout : RemoteAccessConfig → PrivilegeType → ℤ → ℤ
get_privilege_timeout c type requested =
    if not_positive requested
    then c.privilege_escalation.default_privilege_duration
    else if ltb_ℤ c.privilege_escalation.max_privilege_duration requested
    then c.privilege_escalation.max_privilege_duration
    else requested

unfoldable pub is_member : PrivilegeType → List PrivilegeType → Bool
is_member p [] = false
is_member p (q ∷ qs) = if q == p then true else is_member p qs

unfoldable pub is_privilege_allowed : RemoteAccessConfig → PrivilegeType → Bool
unfolding is_member
is_privilege_allowed c type =
    if not c.privilege_escalation.enabled
    then false
    else is_member type c.privilege_escalation.allowed_privileges
