-- ===== src/RemoteAccess/Manager/Methods.antt =====
-- session_manager.go: errors, termination and re-registration, and the statistics.
use onli_desk_full.Common.{
  ◌≡◌, refl, ◌+◌, ℤ, String, ◌==◌, eq_refl, none, some, List, [], ◌∷◌, arith, if◌then◌else◌, length,
  keep,
}
use onli_desk_full.Common.Map.{Map, lookup, insert, delete, lookup-insert, lookup-delete}
use onli_desk_full.RemoteAccess.Manager.Calls.{after}
use onli_desk_full.RemoteAccess.Session.{
  Session, SessionStatus, Conn, PrivilegeType, ok, err, session_not_found, terminate,
  update_activity,
}
use onli_desk_full.RemoteAccess.Manager.{
  Manager, attach, connection_key, register_connection, terminate_session,
  manager_request_privilege, manager_approve_privilege, manager_deny_privilege,
  manager_revoke_privilege, get_active_sessions, is_live, values,
}
use onli_desk_full.RemoteAccess.Manager.Upkeep.{
  Statistics, count_status, count_sessions, get_statistics,
}

-- Every method that names a session refuses one that is not in the map.
pub missing_session :
    (id : String) (m : Manager)
    → lookup id m.sessions ≡ none
    → ((now : ℤ) (c : Conn) (role : String)
        → register_connection now id c role m ≡ err session_not_found)
      × ((now : ℤ) → terminate_session now id m ≡ err session_not_found)
      × ((fresh : String) (now : ℤ) (type : PrivilegeType) (text : String) (d : ℤ)
          → manager_request_privilege fresh now id type text d m ≡ err session_not_found)
      × ((now : ℤ) (k by : String)
          → manager_approve_privilege now id k by m ≡ err session_not_found)
      × ((now : ℤ) (k by : String) → manager_deny_privilege now id k by m ≡ err session_not_found)
      × ((now : ℤ) (type : PrivilegeType)
          → manager_revoke_privilege now id type m ≡ err session_not_found)
unfolding register_connection terminate_session manager_request_privilege manager_approve_privilege
    manager_deny_privilege manager_revoke_privilege
missing_session id m h = (
  λ now c role. rw (h, register_connection),
  λ now. rw (h, terminate_session),
  λ fresh now type text d. rw (h, manager_request_privilege),
  λ now k by. ground arith,
  λ now k by. ground arith,
  λ now type. ground arith,
)

lookup_inserted : (k : String) (s : Session) (ss : Map Session) → lookup k (insert k s ss) ≡ some s
lookup_inserted k s ss = ground (arith, lookup-insert k k s ss, eq_refl k)

-- Terminating a session of the map succeeds. Then the session is terminated with its end at that
-- time, neither of its connections is registered, and every other session is as it was.
pub terminate_session_lem :
    (now : ℤ) (id : String) (m : Manager) (s : Session)
    → lookup id m.sessions ≡ some s
    → (m' : Manager) × (t : Session) × (terminate_session now id m ≡ ok m')
      × (lookup id m'.sessions ≡ some t)
      × (t.status ≡ SessionStatus.terminated)
      × (t.end_time ≡ some now)
      × (lookup (connection_key id "client") m'.connections ≡ none)
      × (lookup (connection_key id "portal") m'.connections ≡ none)
      × ((k : String) → lookup k m'.sessions ≡ (if id == k then some t else lookup k m.sessions))
unfolding terminate_session
terminate_session_lem now id m s found =
    let key = connection_key id in
    let gone = delete (key "client") m.connections in
    (
      after m (terminate_session now id m),
      (terminate now s).0,
      rw (found, terminate_session) refl,
      rw (found, terminate_session) (lookup_inserted id (terminate now s).0 m.sessions),
      refl,
      refl,
      rw (found, terminate_session)
          (ground (
            arith,
            lookup-delete (key "portal") (key "client") gone,
            lookup-delete (key "client") (key "client") m.connections,
            eq_refl (key "client"),
          )),
      rw (found, terminate_session)
          (ground
            (arith, lookup-delete (key "portal") (key "portal") gone, eq_refl (key "portal"))),
      λ k. rw (found, terminate_session) (lookup-insert id k (terminate now s).0 m.sessions),
    )

lookup-terminated :
    (now : ℤ) (id : String) (m : Manager) (s : Session)
    → lookup id m.sessions ≡ some s
    → lookup id (after m (terminate_session now id m)).sessions ≡ some (terminate now s).0
unfolding terminate_session
lookup-terminated now id m s found =
    rw (found, terminate_session) (lookup_inserted id (terminate now s).0 m.sessions)

-- A terminated session comes back to life: after its termination, registering a client connection
-- for it succeeds and makes it active again, and its end time is still set.
terminated_revives :
    (now later : ℤ) (id : String) (c : Conn) (m : Manager) (s : Session)
    → lookup id m.sessions ≡ some s
    → let m' = after m (terminate_session now id m) in
      (t : Session) × (lookup id (after m' (register_connection later id c "client" m')).sessions
        ≡ some t)
      × (t.status ≡ SessionStatus.active)
      × (t.client_conn ≡ some c)
      × (t.end_time ≡ some now)
unfolding register_connection terminate
terminated_revives now later id c m s found =
    let m' = after m (terminate_session now id m) in
    let there = lookup-terminated now id m s found in
    let t = update_activity later (attach "client" c (terminate now s).0) in
    (t, rw (there, register_connection) (lookup_inserted id t m'.sessions), refl, refl, refl)

values-keep :
    (ss : List Session) (t : Statistics)
    → let u = count_sessions ss t in
      u.active_sessions + u.pending_sessions
      ≡ length (keep (λ s. is_live s.status) ss) + (t.active_sessions + t.pending_sessions)
unfolding count_sessions
values-keep [] t = omega arith
values-keep (s ∷ ss) t = ground (arith, values-keep ss (count_status s.status t))

-- The statistics agree with the list of active sessions: its length is the number of active plus
-- the number of pending sessions.
pub get_statistics-get_active_sessions :
    (m : Manager)
    → (get_statistics m).active_sessions + (get_statistics m).pending_sessions
      ≡ length (get_active_sessions m)
unfolding get_statistics get_active_sessions
get_statistics-get_active_sessions m = omega (
  arith,
  values-keep (values m.sessions) (record {
    total_sessions = length m.sessions;
    active_sessions = 0;
    pending_sessions = 0;
    total_connections = length m.connections;
  }),
)
