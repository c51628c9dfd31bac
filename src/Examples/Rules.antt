-- ===== src/Examples/Rules.antt =====
-- The rules of the configuration at the default configuration of config.go.
use onli_desk_full.Common.{◌≡◌, refl, true, none}
use onli_desk_full.Common.Text.{codes, lower, lower_char}
use onli_desk_full.RemoteAccess.Config.{
  validate, first_error, validate_privileges, first_invalid, is_valid_privilege,
  is_privilege_allowed, is_member,
}
use onli_desk_full.RemoteAccess.Config.Defaults.{default_config}

default_config_valid : validate default_config ≡ none
unfolding default_config validate first_error validate_privileges first_invalid is_valid_privilege
default_config_valid = refl

same_lower : lower (codes "run.EXE") ≡ lower (codes "Run.exe")
unfolding lower lower_char
same_lower = refl

escalation_on : default_config.privilege_escalation.enabled ≡ true
unfolding default_config
escalation_on = refl

registry_allowed : is_privilege_allowed default_config "registry" ≡ true
unfolding default_config is_privilege_allowed is_member
registry_allowed = refl
