-- ===== src/Server/Separate.antt =====
-- src/server/cmd/main.go: the sessions that HTTP requests see.
use onli_desk_full.Common.{◌≡◌, refl, sym, ℤ, String, Option, none, some, List, [], ◌∷◌, All, arith}
use onli_desk_full.Common.Map.{lookup}
use onli_desk_full.FileTransfer.Handler.{FileSystem}
use onli_desk_full.RemoteAccess.Manager.{Manager, terminate_session, new_manager}
use onli_desk_full.RemoteAccess.Manager.Upkeep.{cleanup_expired_sessions, update_config}
use onli_desk_full.RemoteAccess.Http.Logs.{handle_get_audit_logs}
use onli_desk_full.RemoteAccess.Http.Replies.{session_not_found, problem, reply}
use onli_desk_full.RemoteAccess.Http.Routes.{Request, handle}
use onli_desk_full.RemoteAccess.Http.{handle_get_sessions}
use onli_desk_full.RemoteAccess.Http.Sessions.{
  handle_get_session, handle_terminate_session, handle_extend_session, handle_get_statistics,
  handle_get_session_statistics, handle_get_config, handle_update_config, handle_health_check,
}
use onli_desk_full.RemoteAccess.Http.Privileges.{
  handle_request_privilege, handle_approve_privilege, handle_revoke_privilege,
}
use onli_desk_full.Server.Process.Keeps.{started_of}
use mathlib.Core.Path.{subst}
use onli_desk_full.Server.Config.{ServerConfig}
use onli_desk_full.Server.Process.{
  Outside, Event, transfer_round, remote_round, remote_request, rest_request, transfer_cleanup,
  session_cleanup, remote_cleanup, OnlideskServer, started, new_onlidesk_server, serve_event,
  serve_events,
}

-- Not a request to create a session over HTTP.
abbrev pub CreatesNone : Event → Type 0
CreatesNone (remote_request fresh now (Request.create_session b)) = ⊥
CreatesNone _ = Unit

abbrev emptied : Manager → Manager
emptied m = record m { sessions = [] }

module _ (atoi parse_duration : String → Option ℤ) where
  handle-emptied :
      (fresh : String) (now : ℤ) (r : Request) (m : Manager)
      → CreatesNone (remote_request fresh now r)
      → (handle atoi parse_duration fresh now r (emptied m)).0.sessions ≡ []
  unfolding handle lookup
  handle-emptied fresh now (Request.get_sessions order a b c d) m n =
      unfold handle_get_sessions in ground arith
  handle-emptied fresh now (Request.create_session b) m n = absurd n
  handle-emptied fresh now (Request.get_session id) m n = unfold handle_get_session in refl
  handle-emptied fresh now (Request.terminate_session id) m n =
      unfold handle_terminate_session terminate_session in refl
  handle-emptied fresh now (Request.extend_session id none) m n =
      unfold handle_extend_session in refl
  handle-emptied fresh now (Request.extend_session id (some text)) m n =
      unfold handle_extend_session in ground arith
  handle-emptied fresh now (Request.request_privilege id none) m n =
      unfold handle_request_privilege in refl
  handle-emptied fresh now (Request.request_privilege id (some b)) m n =
      unfold handle_request_privilege in refl
  handle-emptied fresh now (Request.approve_privilege id k none) m n =
      unfold handle_approve_privilege in refl
  handle-emptied fresh now (Request.approve_privilege id k (some b)) m n =
      unfold handle_approve_privilege in refl
  handle-emptied fresh now (Request.revoke_privilege id none) m n =
      unfold handle_revoke_privilege in refl
  handle-emptied fresh now (Request.revoke_privilege id (some b)) m n =
      unfold handle_revoke_privilege in refl
  handle-emptied fresh now Request.get_statistics m n = unfold handle_get_statistics in refl
  handle-emptied fresh now (Request.get_session_statistics id) m n =
      unfold handle_get_session_statistics in refl
  handle-emptied fresh now Request.get_config m n = unfold handle_get_config in refl
  handle-emptied fresh now (Request.update_config none) m n = unfold handle_update_config in refl
  handle-emptied fresh now (Request.update_config (some c)) m n =
      unfold handle_update_config update_config in ground arith
  handle-emptied fresh now Request.health_check m n = unfold handle_health_check in refl
  handle-emptied fresh now (Request.get_audit_logs logs i e s limit) m n =
      unfold handle_get_audit_logs in ground arith

  handle-sessions :
      (fresh : String) (now : ℤ) (r : Request) (m : Manager)
      → CreatesNone (remote_request fresh now r)
      → m.sessions ≡ []
      → (handle atoi parse_duration fresh now r m).0.sessions ≡ []
  handle-sessions fresh now r m n e =
      subst
        (λ ss.
          (handle atoi parse_duration fresh now r (record m { sessions = ss })).0.sessions ≡ [])
        (sym e) (handle-emptied fresh now r m n)

cleanup-sessions :
    (now : ℤ) (m : Manager) → m.sessions ≡ [] → (cleanup_expired_sessions now m).sessions ≡ []
unfolding cleanup_expired_sessions
cleanup-sessions now m e =
    subst (λ ss. (cleanup_expired_sessions now (record m { sessions = ss })).sessions ≡ []) (sym e)
      refl

started-sessions :
    (os : FileSystem) (c : ServerConfig) (files : os.Files)
    → (started os c files).session_manager.sessions ≡ []
unfolding started new_manager
started-sessions os c files = refl

module _ (os : FileSystem) (o : Outside) where
  serve_event-sessions :
      (s : OnlideskServer os) (e : Event)
      → CreatesNone e
      → s.session_manager.sessions ≡ []
      → (serve_event os o s e).session_manager.sessions ≡ []
  unfolding serve_event
  serve_event-sessions s (transfer_round conn e) n h = h
  serve_event-sessions s (remote_round conn e) n h = h
  serve_event-sessions s (remote_request fresh now r) n h =
      handle-sessions o.atoi o.parse_duration fresh now r s.session_manager n h
  serve_event-sessions s (rest_request now current r) n h = h
  serve_event-sessions s (transfer_cleanup now) n h = h
  serve_event-sessions s (session_cleanup now) n h = cleanup-sessions now s.session_manager h
  serve_event-sessions s (remote_cleanup now) n h = h

  serve_events-sessions :
      (s : OnlideskServer os) (es : List Event)
      → All CreatesNone es
      → s.session_manager.sessions ≡ []
      → (serve_events os o s es).session_manager.sessions ≡ []
  unfolding serve_events
  serve_events-sessions s [] n h = h
  serve_events-sessions s (e ∷ es) n h =
      serve_events-sessions (serve_event os o s e) es n.1 (serve_event-sessions s e n.0 h)

  get_session-empty :
      (fresh : String) (now : ℤ) (id : String) (m : Manager)
      → m.sessions ≡ []
      → (handle o.atoi o.parse_duration fresh now (Request.get_session id) m).1
        ≡ reply 404 (problem session_not_found)
  unfolding handle lookup handle_get_session
  get_session-empty fresh now id m e =
      subst
        (λ ss.
          (handle o.atoi o.parse_duration fresh now (Request.get_session id)
            (record m { sessions = ss })).1
          ≡ reply 404 (problem session_not_found))
        (sym e) refl

  -- Whatever comes in over WebSockets, over the REST interface and over HTTP, but no request to
  -- create a session over HTTP: a new server answers over HTTP that it finds no session, whichever
  -- is asked for. The sessions that WebSocket messages create are kept elsewhere.
  pub websocket_sessions_unseen :
      (c : ServerConfig) (files : os.Files) (s : OnlideskServer os)
      → new_onlidesk_server os c files ≡ some s
      → (es : List Event) → All CreatesNone es
      → (fresh : String) (now : ℤ) (id : String)
      → (handle o.atoi o.parse_duration fresh now
          (Request.get_session id)
          (serve_events os o s es).session_manager).1
        ≡ reply 404 (problem session_not_found)
  websocket_sessions_unseen c files s made es n fresh now id = get_session-empty fresh now id _ (
      serve_events-sessions s es n (
        subst (λ t. t.session_manager.sessions ≡ []) (started_of os c files s made)
          (started-sessions os c files)))
