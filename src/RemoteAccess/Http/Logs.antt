-- ===== src/RemoteAccess/Http/Logs.antt =====
-- http_handlers.go: `handleGetAuditLogs`, for a session manager without an audit logger (`none`) or
-- with one, whose log files `filepath.Glob` lists or not.
use onli_desk_full.Common.{
  ◌≡◌, refl, ℤ, pos, pos_part, String, ◌==◌, Option, none, some, List, [], ◌∷◌, ◌++◌, length,
  if◌then◌else◌,
}
use onli_desk_full.RemoteAccess.Audit.Search.{search_logs, search_logs_finds_none}
use onli_desk_full.RemoteAccess.Manager.{Manager}
use onli_desk_full.RemoteAccess.Http.{limit_of}
use onli_desk_full.RemoteAccess.Http.Replies.{
  Reply, reply, audit_events, problem, audit_logging_not_enabled, search_failed,
}

-- `criteria`, of the parameters that are given.
unfoldable pub criteria : String → String → String → List (String × String)
criteria session_id event_type severity =
    (if session_id == "" then [] else ("session_id", session_id) ∷ [])
    ++ (if event_type == "" then [] else ("event_type", event_type) ∷ [])
    ++ (if severity == "" then [] else ("severity", severity) ∷ [])

module _ (atoi : String → Option ℤ) where
  -- `SearchLogs` does not look at the criteria.
  unfoldable pub handle_get_audit_logs :
      Option (Option (List String)) → List (String × String) → String → Manager → Manager × Reply
  unfolding limit_of
  handle_get_audit_logs logs wanted limit_text m = elim logs [
    | none ↦ (m, reply 503 (problem audit_logging_not_enabled))
    | some files ↦ elim (search_logs files (pos_part (limit_of atoi (pos 100) limit_text))) [
      | none ↦ (m, reply 500 (problem search_failed))
      | some events ↦
          (m, reply 200 (audit_events events (length events) (limit_of atoi (pos 100) limit_text)))
    ]
  ]

  -- Whatever the log files, the criteria and the limit, the answer has no events.
  pub handle_get_audit_logs-empty :
      (files : List String) (wanted : List (String × String)) (limit_text : String) (m : Manager)
      → handle_get_audit_logs (some (some files)) wanted limit_text m
        ≡ (m, reply 200 (audit_events [] 0 (limit_of atoi (pos 100) limit_text)))
  unfolding handle_get_audit_logs
  handle_get_audit_logs-empty files wanted limit_text m =
      rw
        (
          search_logs_finds_none files (pos_part (limit_of atoi (pos 100) limit_text)),
          handle_get_audit_logs,
        )
        refl
