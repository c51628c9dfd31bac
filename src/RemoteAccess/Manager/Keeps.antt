-- ===== src/RemoteAccess/Manager/Keeps.antt =====
-- session_manager.go: properties of a session that its own methods keep (`Stable`), lifted to all
-- sessions of the map.
use onli_desk_full.Common.{
  ◌≡◌, refl, inl, inr, ℤ, leb_ℤ, pos, length, String, ◌==◌, Option, none, some, List, [], ◌∷◌,
  arith, Bool-cases, Option-cases,
}
use onli_desk_full.Common.Map.{Map, lookup, insert, lookup-insert}
use onli_desk_full.RemoteAccess.Audit.{AuditEvent}
use onli_desk_full.RemoteAccess.Config.{RemoteAccessConfig}
use onli_desk_full.RemoteAccess.Session.{
  Session, SessionStatus, ClientInfo, Conn, PrivilegeType, Result, Result-cases, update_activity,
  request_privilege, approve_privilege, deny_privilege, revoke_privilege, terminate,
}
use onli_desk_full.RemoteAccess.Session.Calls as SessionCalls
use onli_desk_full.RemoteAccess.Manager.{
  Manager, opened, logged_creation, create_session, attach, register_connection, detach,
  unregister_connection, terminate_session, clamp_duration, manager_request_privilege, on_session,
  manager_approve_privilege, manager_deny_privilege, manager_revoke_privilege, new_manager,
}
use onli_desk_full.RemoteAccess.Manager.Upkeep.{
  expire_session, expire_all, expired_ids, cleanup_expired_sessions, terminate_all, shutdown,
  update_config,
}
use onli_desk_full.RemoteAccess.Manager.Calls.{
  Call, creates, registers, unregisters, terminates, requests, approves, denies, revokes, cleans,
  shuts, updates, direct, after, call_session, step, run,
}

-- `P` is kept by the methods of a session. A privilege request may ask for a duration that
-- satisfies `Fits`, and the calls made directly on a session satisfy `Ok`.
pub record Stable (P : Session → Type 0) (Fits : ℤ → Type 0) (Ok : SessionCalls.Call → Type 0)
    : Type 0 where
  pub opens :
      (fresh : String) (now : ℤ) (client portal : String) (i : Option ClientInfo) (m : Manager)
      → P (opened fresh now client portal i m)
  pub attaches :
      (now : ℤ) (role : String) (c : Conn) (s : Session)
      → P s
      → P (update_activity now (attach role c s))
  pub detaches : (role : String) (s : Session) → P s → P (detach role s)
  pub ends : (now : ℤ) (s : Session) → P s → P (terminate now s).0
  pub expires :
      (now : ℤ) (s : Session)
      → P s
      → P (terminate now (record s { status = SessionStatus.expired })).0
  pub asks :
      (fresh : String) (now : ℤ) (type : PrivilegeType) (text : String) (d : ℤ) (s : Session)
      → Fits d
      → P s
      → P (request_privilege fresh now type text d s).0
  pub approves :
      (now : ℤ) (k by : String) (s : Session)
      → P s
      → P (SessionCalls.after s (approve_privilege now k by s))
  pub denies :
      (k by : String) (s : Session) → P s → P (SessionCalls.after s (deny_privilege k by s))
  pub revokes :
      (type : PrivilegeType) (s : Session)
      → P s
      → P (SessionCalls.after s (revoke_privilege type s))
  pub calls : (c : SessionCalls.Call) (s : Session) → Ok c → P s → P (SessionCalls.step s c)

abbrev pub EverySession : (Session → Type 0) → Manager → Type 0
EverySession P m = (k : String) (s : Session) → lookup k m.sessions ≡ some s → P s

lookup-terminate_all :
    (now : ℤ) (k : String) (ss : Map Session)
    → lookup k (terminate_all now ss).0
      ≡ elim (lookup k ss) [ none ↦ none | some s ↦ some (terminate now s).0 ]
unfolding terminate_all lookup
lookup-terminate_all now k [] = refl
lookup-terminate_all now k ((j, s) ∷ ss) = ground (arith, lookup-terminate_all now k ss)

module _ (P : Session → Type 0) (Fits : ℤ → Type 0) (Ok : SessionCalls.Call → Type 0)
    (stable : Stable P Fits Ok) where
  -- What a call must satisfy: the clamped duration fits, and a direct call is one of `Ok`.
  abbrev pub Admits : Manager → Call → Type 0
  Admits m (requests _ _ _ _ _ d) = Fits (clamp_duration m.config d)
  Admits m (direct _ c) = Ok c
  Admits m _ = Unit

  insert-All :
      (id : String) (t : Session) (ss : Map Session)
      → P t
      → ((k : String) (s : Session) → lookup k ss ≡ some s → P s)
      → (k : String) (s : Session) → lookup k (insert id t ss) ≡ some s
      → P s
  insert-All id t ss good all k s h = elim (Bool-cases (id == k)) [
    | inl same ↦ let it : t ≡ s = ground (arith, lookup-insert id k t ss) in rw it at good
    | inr other ↦ all k s (ground (arith, lookup-insert id k t ss))
  ]

  on_session-Every :
      (id : String) (method : Session → Result Session) (e : AuditEvent) (m : Manager)
      → ((s : Session) → P s → P (SessionCalls.after s (method s)))
      → EverySession P m
      → EverySession P (after m (on_session id method e m))
  on_session-Every id method e m keeps all = elim (Option-cases (lookup id m.sessions)) [
    | inl gone ↦ rw (gone, on_session) all
    | inr (s, found) ↦ elim (Result-cases (method s)) [
      | inl (x, p) ↦ rw (found, on_session) (rw p all)
      | inr (s', p) ↦
          rw (found, on_session)
            (rw p (insert-All id s' m.sessions (rw p at (keeps s (all id s found))) all))
    ]
  ]

  expire_session-Every :
      (now : ℤ) (id : String) (m : Manager)
      → EverySession P m
      → EverySession P (expire_session now id m)
  unfolding expire_session
  expire_session-Every now id m all = elim (Option-cases (lookup id m.sessions)) [
    | inl gone ↦ rw (gone, expire_session) all
    | inr (s, found) ↦
        rw (found, expire_session)
          (insert-All id _ m.sessions (stable.expires now s (all id s found)) all)
  ]

  expire_all-Every :
      (now : ℤ) (ids : List String) (m : Manager)
      → EverySession P m
      → EverySession P (expire_all now ids m)
  unfolding expire_all
  expire_all-Every now [] m all = all
  expire_all-Every now (id ∷ ids) m all =
      expire_all-Every now ids (expire_session now id m) (expire_session-Every now id m all)

  terminate_all-Every :
      (now : ℤ) (ss : Map Session)
      → ((k : String) (s : Session) → lookup k ss ≡ some s → P s)
      → (k : String) (s : Session) → lookup k (terminate_all now ss).0 ≡ some s
      → P s
  terminate_all-Every now ss all k s h = elim (Option-cases (lookup k ss)) [
    | inl gone ↦ absurd (ground (arith, lookup-terminate_all now k ss))
    | inr (t, found) ↦
        let it : (terminate now t).0 ≡ s = ground (arith, lookup-terminate_all now k ss) in
        rw it at (stable.ends now t (all k t found))
  ]

  creates-Every :
      (fresh : String) (now : ℤ) (client portal : String) (i : Option ClientInfo) (m : Manager)
      → EverySession P m
      → EverySession P (create_session fresh now client portal i m).0
  unfolding create_session
  creates-Every fresh now client portal i m all =
      elim (Bool-cases (leb_ℤ m.config.max_concurrent_sessions (pos (length m.sessions)))) [
        | inl full ↦ rw (full, create_session) all
        | inr room ↦
            rw (room, create_session)
              (let stored =
                  insert-All fresh _ m.sessions (stable.opens fresh now client portal i m) all in
                elim (Option-cases i) [
                  | inl e ↦ rw (e, logged_creation) (rw e at stored)
                  | inr (x, e) ↦ rw (e, logged_creation) (rw e at stored)
                ])
      ]

  pub step-Every :
      (m : Manager) (c : Call) → Admits m c → EverySession P m → EverySession P (step m c)
  unfolding step
  step-Every m (creates fresh now client portal i) fit all =
      creates-Every fresh now client portal i m all
  step-Every m (registers now id c role) fit all = elim (Option-cases (lookup id m.sessions)) [
    | inl gone ↦ unfold register_connection in rw (gone, register_connection) all
    | inr (s, found) ↦
        unfold register_connection in
        rw (found, register_connection)
          (insert-All id _ m.sessions (stable.attaches now role c s (all id s found)) all)
  ]
  step-Every m (unregisters id role) fit all = elim (Option-cases (lookup id m.sessions)) [
    | inl gone ↦ unfold unregister_connection in rw (gone, unregister_connection) all
    | inr (s, found) ↦
        unfold unregister_connection in
        rw (found, unregister_connection)
          (insert-All id _ m.sessions (stable.detaches role s (all id s found)) all)
  ]
  step-Every m (terminates now id) fit all = elim (Option-cases (lookup id m.sessions)) [
    | inl gone ↦ unfold terminate_session in rw (gone, terminate_session) all
    | inr (s, found) ↦
        unfold terminate_session in
        rw (found, terminate_session)
          (insert-All id _ m.sessions (stable.ends now s (all id s found)) all)
  ]
  step-Every m (requests fresh now id type text d) fit all =
      elim (Option-cases (lookup id m.sessions)) [
        | inl gone ↦ unfold manager_request_privilege in rw (gone, manager_request_privilege) all
        | inr (s, found) ↦
            unfold manager_request_privilege in
            rw (found, manager_request_privilege)
              (insert-All id _ m.sessions (stable.asks fresh now type text _ s fit (all id s found))
                all)
      ]
  step-Every m (approves now id k by) fit all =
      unfold manager_approve_privilege in
      on_session-Every id (approve_privilege now k by) _ m (stable.approves now k by) all
  step-Every m (denies now id k by) fit all =
      unfold manager_deny_privilege in
      on_session-Every id (deny_privilege k by) _ m (stable.denies k by) all
  step-Every m (revokes now id type) fit all =
      unfold manager_revoke_privilege in
      on_session-Every id (revoke_privilege type) _ m (stable.revokes type) all
  step-Every m (cleans now) fit all =
      unfold cleanup_expired_sessions in expire_all-Every now (expired_ids now m.sessions) m all
  step-Every m (shuts now) fit all = unfold shutdown in terminate_all-Every now m.sessions all
  step-Every m (updates c) fit all = unfold update_config in all
  step-Every m (direct id c) fit all = elim (Option-cases (lookup id m.sessions)) [
    | inl gone ↦ unfold call_session in rw (gone, call_session) all
    | inr (s, found) ↦
        unfold call_session in
        rw (found, call_session)
          (insert-All id _ m.sessions (stable.calls c s fit (all id s found)) all)
  ]

  -- Every call of the sequence is admitted where it is made.
  abbrev pub AdmitsAll : Manager → List Call → Type 0
  AdmitsAll m [] = Unit
  AdmitsAll m (c ∷ cs) = Admits m c × AdmitsAll (step m c) cs

  pub run-Every :
      (m : Manager) (cs : List Call) → AdmitsAll m cs → EverySession P m → EverySession P (run m cs)
  unfolding run
  run-Every m [] fit all = all
  run-Every m (c ∷ cs) fit all = run-Every (step m c) cs fit.1 (step-Every m c fit.0 all)

  pub run_new-Every :
      (c : RemoteAccessConfig) (cs : List Call)
      → AdmitsAll (new_manager c) cs
      → EverySession P (run (new_manager c) cs)
  unfolding new_manager lookup
  run_new-Every c cs fit = run-Every (new_manager c) cs fit (λ k s h. absurd (ground arith))
