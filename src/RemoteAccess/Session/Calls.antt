-- ===== src/RemoteAccess/Session/Calls.antt =====
-- Any sequence of calls of the methods in session.go, by whichever handlers hold the session.
use onli_desk_full.Common.{ℤ, String, List, [], ◌∷◌}
use onli_desk_full.RemoteAccess.Session.{
  Session, PrivilegeType, Result, ok, err, update_activity, request_privilege, approve_privilege,
  deny_privilege, revoke_privilege, has_active_privilege, terminate, increment_command,
  add_file_transfer, increment_screenshot,
}

pub data Call : Type 0 where
  touches : ℤ → Call
  requests : String → ℤ → PrivilegeType → String → ℤ → Call
  approves : ℤ → String → String → Call
  denies : String → String → Call
  revokes : PrivilegeType → Call
  asks : ℤ → PrivilegeType → Call
  terminates : ℤ → Call
  commands : ℤ → String → Call
  transfers : ℤ → ℤ → Call
  screenshots : ℤ → Call

-- A method that returns an error leaves the session as it was.
abbrev pub after : Session → Result Session → Session
after s (ok t) = t
after s (err e) = s

unfoldable pub step : Session → Call → Session
step s (touches now) = update_activity now s
step s (requests fresh now type text duration) =
    (request_privilege fresh now type text duration s).0
step s (approves now request_id by) = after s (approve_privilege now request_id by s)
step s (denies request_id by) = after s (deny_privilege request_id by s)
step s (revokes type) = after s (revoke_privilege type s)
step s (asks now type) = (has_active_privilege now type s).0
step s (terminates now) = (terminate now s).0
step s (commands now text) = increment_command now text s
step s (transfers now bytes) = add_file_transfer now bytes s
step s (screenshots now) = increment_screenshot now s

unfoldable pub run : Session → List Call → Session
unfolding step
run s [] = s
run s (c ∷ cs) = run (step s c) cs
