-- ===== src/RemoteAccess/Audit/Risk.antt =====
-- audit.go: `isHighRiskCommand`.
use onli_desk_full.Common.{
  ◌≡◌, refl, String, Bool, true, false, ◌||◌, List, [], ◌∷◌, ◌++◌, arith, nat_beq, if◌then◌else◌,
}
use onli_desk_full.Common.Text.{Text, codes}

-- `command[:len(riskCmd)] == riskCmd`, for a command that is long enough.
unfoldable pub starts_with : Text → Text → Bool
starts_with [] command = true
starts_with (c ∷ risk) [] = false
starts_with (c ∷ risk) (d ∷ command) = if nat_beq c d then starts_with risk command else false

abbrev pub high_risk_commands : List String
high_risk_commands =
    "rm" ∷ "del" ∷ "format" ∷ "fdisk" ∷ "mkfs" ∷ "sudo" ∷ "su" ∷ "runas" ∷ "net user" ∷ "useradd"
    ∷ "userdel" ∷ "reg add" ∷ "reg delete" ∷ "regedit" ∷ "sc create" ∷ "sc delete" ∷ "systemctl"
    ∷ "iptables" ∷ "netsh" ∷ "route" ∷ "chmod" ∷ "chown" ∷ "icacls" ∷ []

unfoldable pub starts_with_any : List String → Text → Bool
unfolding starts_with
starts_with_any [] command = false
starts_with_any (risk ∷ risks) command =
    starts_with (codes risk) command || starts_with_any risks command

unfoldable pub is_high_risk_command : Text → Bool
unfolding starts_with_any
is_high_risk_command command = starts_with_any high_risk_commands command

starts_with-append :
    (risk command more : Text)
    → starts_with risk command ≡ true
    → starts_with risk (command ++ more) ≡ true
unfolding starts_with
starts_with-append [] command more h = refl
starts_with-append (c ∷ risk) [] more h = absurd (ground arith)
starts_with-append (c ∷ risk) (d ∷ command) more h =
    ground (arith, starts_with-append risk command more)

starts_with_any-append :
    (risks : List String) (command more : Text)
    → starts_with_any risks command ≡ true
    → starts_with_any risks (command ++ more) ≡ true
unfolding starts_with_any
starts_with_any-append [] command more h = absurd (ground arith)
starts_with_any-append (risk ∷ risks) command more h =
    ground (
      arith,
      starts_with-append (codes risk) command more,
      starts_with_any-append risks command more,
    )

-- What follows a command of high risk does not make it a command of low risk.
pub is_high_risk_command-append :
    (command more : Text)
    → is_high_risk_command command ≡ true
    → is_high_risk_command (command ++ more) ≡ true
unfolding is_high_risk_command
is_high_risk_command-append command more h =
    starts_with_any-append high_risk_commands command more h
