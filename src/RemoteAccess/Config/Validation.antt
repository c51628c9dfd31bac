-- ===== src/RemoteAccess/Config/Validation.antt =====
-- config.go: what `Validate` accepts.
use onli_desk_full.Common.{
  ◌≡◌, ◌↔◌, refl, ℤ, pos, ◌≤ℤ◌, ◌<ℤ◌, ltb_ℤ, Bool, true, false, ◌&&◌, not, Option, none, some, List,
  [], ◌∷◌, arith, if◌then◌else◌, All, ◌≢◌, Bool-cases, inl, inr, ◌||◌,
}
use onli_desk_full.RemoteAccess.Session.{PrivilegeType}
use onli_desk_full.RemoteAccess.Config.{
  RemoteAccessConfig, PrivilegeEscalation, PrivilegeError, fail_if, first_error, not_positive,
  is_empty, first_invalid, privilege_checks, validate_privileges, as_config_error, config_checks,
  validate, is_valid_privilege,
}

first_error-none_iff {ℓ} :
    {E : Type ℓ} (os : List (Option E)) → (first_error os ≡ none) ↔ All (λ o. o ≡ none) os
unfolding first_error
first_error-none_iff [] = (λ _. tt, λ _. refl)
first_error-none_iff (none ∷ os) =
    (λ h. (refl, (first_error-none_iff os).0 h), λ h. (first_error-none_iff os).1 h.1)
first_error-none_iff (some e ∷ os) = (λ h. absurd (ground arith), λ h. absurd (ground (arith, h.0)))

-- What the privilege escalation settings must satisfy when escalation is enabled.
pub record IsValidPrivileges (c : PrivilegeEscalation) : Type 0 where
  pub auto_approval_pos : pos 0 <ℤ c.auto_approval_timeout
  pub max_pos : pos 0 <ℤ c.max_privilege_duration
  pub default_pos : pos 0 <ℤ c.default_privilege_duration
  pub default_le_max : c.default_privilege_duration ≤ℤ c.max_privilege_duration
  pub justification : c.require_justification ≡ true → pos 0 <ℤ c.min_justification_length
  pub some_privilege : c.allowed_privileges ≢ []
  pub known : All (λ p. is_valid_privilege p ≡ true) c.allowed_privileges

first_invalid-none_iff :
    (ps : List PrivilegeType)
    → (first_invalid ps ≡ none) ↔ All (λ p. is_valid_privilege p ≡ true) ps
unfolding first_invalid
first_invalid-none_iff [] = (λ _. tt, λ _. refl)
first_invalid-none_iff (p ∷ ps) = elim (Bool-cases (is_valid_privilege p)) [
  | inl good ↦
      rw good (λ h. (refl, (first_invalid-none_iff ps).0 h), λ h. (first_invalid-none_iff ps).1 h.1)
  | inr bad ↦ rw bad (λ h. absurd (ground arith), λ h. absurd (ground (arith, h.0)))
]

-- What each kind of test lets through.
module _ {E : Type 0} (e : E) where
  positive_check : (z : ℤ) → (fail_if (not_positive z) e ≡ none) ↔ (pos 0 <ℤ z)
  positive_check z = ground arith

  gated_check :
      (b : Bool) (z : ℤ) → (fail_if (b && not_positive z) e ≡ none) ↔ (b ≡ true → pos 0 <ℤ z)
  gated_check b z = ground arith

  order_check : (x y : ℤ) → (fail_if (ltb_ℤ x y) e ≡ none) ↔ (y ≤ℤ x)
  order_check x y = ground arith

  range_check :
      (b : Bool) (lo hi z : ℤ)
      → (fail_if (b && (ltb_ℤ z lo || ltb_ℤ hi z)) e ≡ none) ↔ (b ≡ true → (lo ≤ℤ z) × (z ≤ℤ hi))
  range_check b lo hi z = ground arith

  empty_check {κ} : {A : Type κ} (xs : List A) → (fail_if (is_empty xs) e ≡ none) ↔ (xs ≢ [])
  empty_check xs = ground arith

privileges_iff :
    (c : PrivilegeEscalation) → All (λ o. o ≡ none) (privilege_checks c) ↔ IsValidPrivileges c
privileges_iff c = (
  λ (a, (b, (d, (e, (f, (g, (h, _))))))). record {
    auto_approval_pos = (positive_check _ c.auto_approval_timeout).0 a;
    max_pos = (positive_check _ c.max_privilege_duration).0 b;
    default_pos = (positive_check _ c.default_privilege_duration).0 d;
    default_le_max = (order_check _ c.max_privilege_duration c.default_privilege_duration).0 e;
    justification = (gated_check _ c.require_justification c.min_justification_length).0 f;
    some_privilege = (empty_check _ c.allowed_privileges).0 g;
    known = (first_invalid-none_iff c.allowed_privileges).0 h;
  },
  λ v. (
    (positive_check _ c.auto_approval_timeout).1 v.auto_approval_pos,
    (
      (positive_check _ c.max_privilege_duration).1 v.max_pos,
      (
        (positive_check _ c.default_privilege_duration).1 v.default_pos,
        (
          (order_check _ c.max_privilege_duration c.default_privilege_duration).1 v.default_le_max,
          (
            (gated_check _ c.require_justification c.min_justification_length).1 v.justification,
            (
              (empty_check _ c.allowed_privileges).1 v.some_privilege,
              ((first_invalid-none_iff c.allowed_privileges).1 v.known, tt),
            ),
          ),
        ),
      ),
    ),
  ),
)

switched :
    {E X : Type 0} (b : Bool) (o : Option E)
    → (o ≡ none) ↔ X
    → ((if not b then none else o) ≡ none) ↔ (b ≡ true → X)
switched true o iff = (λ h _. iff.0 h, λ f. iff.1 (f refl))
switched false o iff = (λ _ e. absurd (ground arith), λ _. refl)

validate_privileges-none_iff :
    (c : PrivilegeEscalation)
    → (validate_privileges c ≡ none) ↔ (c.enabled ≡ true → IsValidPrivileges c)
unfolding validate_privileges
validate_privileges-none_iff c =
    let checks = first_error-none_iff (privilege_checks c) in
    let parts = privileges_iff c in
    switched c.enabled (first_error (privilege_checks c))
      (λ h. parts.0 (checks.0 h), λ v. checks.1 (parts.1 v))

as_config_error-none_iff : (o : Option PrivilegeError) → (as_config_error o ≡ none) ↔ (o ≡ none)
as_config_error-none_iff none = (λ _. refl, λ _. refl)
as_config_error-none_iff (some e) = (λ h. absurd (ground arith), λ h. absurd (ground arith))

-- What a configuration must satisfy; a setting of a feature counts only when the feature is on.
pub record IsValidConfig (c : RemoteAccessConfig) : Type 0 where
  pub sessions_pos : pos 0 <ℤ c.max_concurrent_sessions
  pub session_timeout_pos : pos 0 <ℤ c.session_timeout
  pub idle_timeout_pos : pos 0 <ℤ c.idle_timeout
  pub read_timeout_pos : pos 0 <ℤ c.websocket_read_timeout
  pub write_timeout_pos : pos 0 <ℤ c.websocket_write_timeout
  pub message_size_pos : pos 0 <ℤ c.max_message_size
  pub rate_requests_pos : c.rate_limit_enabled ≡ true → pos 0 <ℤ c.rate_limit_requests
  pub rate_window_pos : c.rate_limit_enabled ≡ true → pos 0 <ℤ c.rate_limit_window
  pub attempts_pos : pos 0 <ℤ c.max_failed_attempts
  pub lockout_pos : pos 0 <ℤ c.lockout_duration
  pub privileges : c.privilege_escalation.enabled ≡ true → IsValidPrivileges c.privilege_escalation
  pub retention_pos : pos 0 <ℤ c.audit_retention_days
  pub file_size_pos : c.file_transfer_enabled ≡ true → pos 0 <ℤ c.max_file_size
  pub screenshot_size_pos : c.screen_sharing_enabled ≡ true → pos 0 <ℤ c.max_screenshot_size
  pub quality :
      c.screen_sharing_enabled ≡ true
      → (pos 1 ≤ℤ c.screenshot_quality) × (c.screenshot_quality ≤ℤ pos 100)
  pub interval_pos : c.screen_sharing_enabled ≡ true → pos 0 <ℤ c.screenshot_interval
  pub command_timeout_pos : c.command_execution_enabled ≡ true → pos 0 <ℤ c.command_timeout

config_checks-none :
    (c : RemoteAccessConfig) → All (λ o. o ≡ none) (config_checks c) → IsValidConfig c
config_checks-none c
      (
        a1,
        (
          a2,
          (
            a3,
            (
              a4,
              (
                a5,
                (a6, (a7, (a8, (a9, (a10, (a11, (a12, (a13, (a14, (a15, (a16, (a17, _)))))))))))),
              ),
            ),
          ),
        ),
      ) =
    record {
      sessions_pos = (positive_check _ c.max_concurrent_sessions).0 a1;
      session_timeout_pos = (positive_check _ c.session_timeout).0 a2;
      idle_timeout_pos = (positive_check _ c.idle_timeout).0 a3;
      read_timeout_pos = (positive_check _ c.websocket_read_timeout).0 a4;
      write_timeout_pos = (positive_check _ c.websocket_write_timeout).0 a5;
      message_size_pos = (positive_check _ c.max_message_size).0 a6;
      rate_requests_pos = (gated_check _ c.rate_limit_enabled c.rate_limit_requests).0 a7;
      rate_window_pos = (gated_check _ c.rate_limit_enabled c.rate_limit_window).0 a8;
      attempts_pos = (positive_check _ c.max_failed_attempts).0 a9;
      lockout_pos = (positive_check _ c.lockout_duration).0 a10;
      privileges =
          (validate_privileges-none_iff c.privilege_escalation).0
            ((as_config_error-none_iff (validate_privileges c.privilege_escalation)).0 a11);
      retention_pos = (positive_check _ c.audit_retention_days).0 a12;
      file_size_pos = (gated_check _ c.file_transfer_enabled c.max_file_size).0 a13;
      screenshot_size_pos = (gated_check _ c.screen_sharing_enabled c.max_screenshot_size).0 a14;
      quality =
          (range_check _ c.screen_sharing_enabled (pos 1) (pos 100) c.screenshot_quality).0 a15;
      interval_pos = (gated_check _ c.screen_sharing_enabled c.screenshot_interval).0 a16;
      command_timeout_pos = (gated_check _ c.command_execution_enabled c.command_timeout).0 a17;
    }

IsValidConfig-checks :
    (c : RemoteAccessConfig) → IsValidConfig c → All (λ o. o ≡ none) (config_checks c)
IsValidConfig-checks c v = (
  (positive_check _ c.max_concurrent_sessions).1 v.sessions_pos,
  (
    (positive_check _ c.session_timeout).1 v.session_timeout_pos,
    (
      (positive_check _ c.idle_timeout).1 v.idle_timeout_pos,
      (
        (positive_check _ c.websocket_read_timeout).1 v.read_timeout_pos,
        (
          (positive_check _ c.websocket_write_timeout).1 v.write_timeout_pos,
          (
            (positive_check _ c.max_message_size).1 v.message_size_pos,
            (
              (gated_check _ c.rate_limit_enabled c.rate_limit_requests).1 v.rate_requests_pos,
              (
                (gated_check _ c.rate_limit_enabled c.rate_limit_window).1 v.rate_window_pos,
                (
                  (positive_check _ c.max_failed_attempts).1 v.attempts_pos,
                  (
                    (positive_check _ c.lockout_duration).1 v.lockout_pos,
                    (
                      (as_config_error-none_iff (validate_privileges c.privilege_escalation)).1
                          ((validate_privileges-none_iff c.privilege_escalation).1 v.privileges),
                      (
                        (positive_check _ c.audit_retention_days).1 v.retention_pos,
                        (
                          (gated_check _ c.file_transfer_enabled c.max_file_size).1 v.file_size_pos,
                          (
                            (gated_check _ c.screen_sharing_enabled c.max_screenshot_size).1
                                v.screenshot_size_pos,
                            (
                              (range_check _ c.screen_sharing_enabled (pos 1) (pos 100)
                                    c.screenshot_quality).1
                                  v.quality,
                              (
                                (gated_check _ c.screen_sharing_enabled c.screenshot_interval).1
                                    v.interval_pos,
                                (
                                  (gated_check _ c.command_execution_enabled c.command_timeout).1
                                      v.command_timeout_pos,
                                  tt,
                                ),
                              ),
                            ),
                          ),
                        ),
                      ),
                    ),
                  ),
                ),
              ),
            ),
          ),
        ),
      ),
    ),
  ),
)

-- `Validate` returns no error exactly for the configurations that satisfy `IsValidConfig`.
pub validate-none_iff : (c : RemoteAccessConfig) → (validate c ≡ none) ↔ IsValidConfig c
unfolding validate
validate-none_iff c =
    let checks = first_error-none_iff (config_checks c) in
    (λ h. config_checks-none c (checks.0 h), λ v. checks.1 (IsValidConfig-checks c v))
