-- ===== src/RemoteAccess/Manager/Upkeep.antt =====
-- session_manager.go: the statistics, the cleanup of expired sessions, and the shutdown.
use onli_desk_full.Common.{
  ℕ, suc, ℤ, String, none, some, List, [], ◌∷◌, ◌++◌, if◌then◌else◌, length,
}
use onli_desk_full.Common.Map.{Map, lookup}
use onli_desk_full.RemoteAccess.Audit.{duration, info}
use onli_desk_full.RemoteAccess.Config.{RemoteAccessConfig}
use onli_desk_full.RemoteAccess.Session.{
  Session, SessionStatus, Conn, is_expired, terminate, get_duration,
}
use onli_desk_full.RemoteAccess.Manager.{Manager, end_session, event, log_event, values}

pub record Statistics : Type 0 where
  pub total_sessions : ℕ
  pub active_sessions : ℕ
  pub pending_sessions : ℕ
  pub total_connections : ℕ

-- The loop of `GetStatistics`.
abbrev pub count_status : SessionStatus → Statistics → Statistics
count_status SessionStatus.active t = record t { active_sessions = suc t.active_sessions }
count_status SessionStatus.pending t = record t { pending_sessions = suc t.pending_sessions }
count_status _ t = t

unfoldable pub count_sessions : List Session → Statistics → Statistics
count_sessions [] t = t
count_sessions (s ∷ ss) t = count_sessions ss (count_status s.status t)

unfoldable pub get_statistics : Manager → Statistics
unfolding count_sessions
get_statistics m = count_sessions (values m.sessions) (record {
  total_sessions = length m.sessions;
  active_sessions = 0;
  pending_sessions = 0;
  total_connections = length m.connections;
})

unfoldable pub update_config : RemoteAccessConfig → Manager → Manager
update_config c m = record m { config = c }

-- The two loops of `cleanupExpiredSessions`.
unfoldable pub expired_ids : ℤ → Map Session → List String
expired_ids now [] = []
expired_ids now ((id, s) ∷ m) =
    let rest = expired_ids now m in if is_expired now s then id ∷ rest else rest

unfoldable pub expire_session : ℤ → String → Manager → Manager
unfolding end_session get_duration
expire_session now id m = elim (lookup id m.sessions) [
  | none ↦ m
  | some s ↦
      let s' = record s { status = SessionStatus.expired } in
      log_event
        (event "session_expired" id info now
          (("duration", duration (get_duration now (terminate now s').0)) ∷ []))
        (end_session now id s' m)
]

unfoldable pub expire_all : ℤ → List String → Manager → Manager
unfolding expire_session
expire_all now [] m = m
expire_all now (id ∷ ids) m = expire_all now ids (expire_session now id m)

unfoldable pub cleanup_expired_sessions : ℤ → Manager → Manager
unfolding expired_ids expire_all
cleanup_expired_sessions now m = expire_all now (expired_ids now m.sessions) m

-- The loop of `Shutdown`: every session is terminated.
unfoldable pub terminate_all : ℤ → Map Session → Map Session × List Conn
unfolding terminate
terminate_all now [] = ([], [])
terminate_all now ((id, s) ∷ m) =
    let (m', cs) = terminate_all now m in
    ((id, (terminate now s).0) ∷ m', (terminate now s).1 ++ cs)

unfoldable pub shutdown : ℤ → Manager → Manager
unfolding terminate_all
shutdown now m = record m {
  sessions = (terminate_all now m.sessions).0;
  closed = (terminate_all now m.sessions).1 ++ m.closed;
}
