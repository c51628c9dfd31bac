-- ===== src/RemoteAccess/Http/Privileges.antt =====
-- http_handlers.go: the handlers of privileges, which call the session, not the session manager.
use onli_desk_full.Common.{ℤ, pos, String, ◌==◌, Option, none, some, if◌then◌else◌}
use onli_desk_full.RemoteAccess.Session.{
  Session, Result, ok, err, request_privilege, approve_privilege, revoke_privilege,
}
use onli_desk_full.RemoteAccess.Manager.{Manager, get_session, put_session}
use onli_desk_full.RemoteAccess.Http.Replies.{
  PrivilegeBody, ApproveBody, RevokeBody, invalid_request_body, session_not_found,
  invalid_duration_format, privilege_request_not_found, privilege_not_found, privilege_approved,
  privilege_revoked, privilege_submitted, problem, Reply, reply,
}

-- A method of the session that returns an error.
abbrev pub reply_method : String → Result Session → Reply → Reply → Manager → Manager × Reply
reply_method id (err e) bad good m = (m, bad)
reply_method id (ok s) bad good m = (put_session id s m, good)

module _ (parse_duration : String → Option ℤ) where
  -- An empty duration is zero.
  unfoldable pub duration_of : String → Option ℤ
  duration_of text = if text == "" then some (pos 0) else parse_duration text

  unfoldable pub handle_request_privilege :
      String → ℤ → String → Option PrivilegeBody → Manager → Manager × Reply
  unfolding get_session duration_of request_privilege
  handle_request_privilege fresh now id none m = (m, reply 400 (problem invalid_request_body))
  handle_request_privilege fresh now id (some b) m = elim (get_session id m) [
    | none ↦ (m, reply 404 (problem session_not_found))
    | some s ↦ elim (duration_of b.duration) [
      | none ↦ (m, reply 400 (problem invalid_duration_format))
      | some d ↦
          let (s', k) = request_privilege fresh now b.privilege_type b.justification d s in
          (put_session id s' m, reply 201 (privilege_submitted k))
    ]
  ]

unfoldable pub handle_approve_privilege :
    ℤ → String → String → Option ApproveBody → Manager → Manager × Reply
unfolding get_session approve_privilege
handle_approve_privilege now id k none m = (m, reply 400 (problem invalid_request_body))
handle_approve_privilege now id k (some b) m = elim (get_session id m) [
  | none ↦ (m, reply 404 (problem session_not_found))
  | some s ↦
      reply_method id (approve_privilege now k b.approved_by s)
        (reply 404 (problem privilege_request_not_found)) (reply 200 privilege_approved) m
]

-- Whatever privilege the path names, "admin" is revoked.
unfoldable pub handle_revoke_privilege : String → Option RevokeBody → Manager → Manager × Reply
unfolding get_session revoke_privilege
handle_revoke_privilege id none m = (m, reply 400 (problem invalid_request_body))
handle_revoke_privilege id (some b) m = elim (get_session id m) [
  | none ↦ (m, reply 404 (problem session_not_found))
  | some s ↦
      reply_method id (revoke_privilege "admin" s) (reply 404 (problem privilege_not_found))
        (reply 200 privilege_revoked) m
]
