-- ===== src/RemoteAccess/Manager/Counts.antt =====
-- session_manager.go: what each call does to the number of sessions and to the
-- configuration.
use onli_desk_full.Common.{
  ◌≡◌, refl, ◌∙◌, ap, inl, inr, ℕ, ℤ, String, List, [], ◌∷◌, arith, length, Option-cases, suc,
}
use onli_desk_full.Common.Map.{Map, lookup, length-insert_old}
use onli_desk_full.RemoteAccess.Audit.{AuditEvent}
use onli_desk_full.RemoteAccess.Session.{
  Session, Result, Result-cases, approve_privilege, deny_privilege, revoke_privilege,
}
use onli_desk_full.RemoteAccess.Manager.{
  Manager, create_session, register_connection, unregister_connection, terminate_session,
  manager_request_privilege, manager_approve_privilege, manager_deny_privilege,
  manager_revoke_privilege, on_session,
}
use onli_desk_full.RemoteAccess.Manager.Upkeep.{
  expire_session, expire_all, expired_ids, cleanup_expired_sessions, terminate_all, shutdown,
  update_config,
}
use onli_desk_full.RemoteAccess.Manager.Calls.{
  Call, creates, registers, unregisters, terminates, requests, approves, denies, revokes, cleans,
  shuts, updates, direct, after, call_session, step, KeepsConfig,
}

-- Every call but a creation keeps the number of sessions.
abbrev pub NoCreate : Call → Type 0
NoCreate (creates _ _ _ _ _) = ⊥
NoCreate _ = Unit

abbrev pub count : Manager → ℕ
count m = length m.sessions

on_session-length :
    (id : String) (method : Session → Result Session) (e : AuditEvent) (m : Manager)
    → count (after m (on_session id method e m)) ≡ count m
on_session-length id method e m = elim (Option-cases (lookup id m.sessions)) [
  | inl none_there ↦ rw (none_there, on_session) refl
  | inr (s, found) ↦ elim (Result-cases (method s)) [
    | inl (x, p) ↦ rw (found, on_session) (rw p refl)
    | inr (s', p) ↦ rw (found, on_session) (rw p (length-insert_old id s' s m.sessions found))
  ]
]

expire_session-length :
    (now : ℤ) (id : String) (m : Manager) → count (expire_session now id m) ≡ count m
unfolding expire_session
expire_session-length now id m = elim (Option-cases (lookup id m.sessions)) [
  | inl none_there ↦ rw (none_there, expire_session) refl
  | inr (s, found) ↦ rw (found, expire_session) (length-insert_old id _ s m.sessions found)
]

expire_all-length :
    (now : ℤ) (ids : List String) (m : Manager) → count (expire_all now ids m) ≡ count m
unfolding expire_all
expire_all-length now [] m = refl
expire_all-length now (id ∷ ids) m =
    expire_all-length now ids (expire_session now id m) ∙ expire_session-length now id m

terminate_all-length : (now : ℤ) (m : Map Session) → length (terminate_all now m).0 ≡ length m
unfolding terminate_all
terminate_all-length now [] = refl
terminate_all-length now ((id, s) ∷ m) = ap suc (terminate_all-length now m)

pub step-length : (m : Manager) (c : Call) → NoCreate c → count (step m c) ≡ count m
unfolding step
step-length m (registers now id c role) h = elim (Option-cases (lookup id m.sessions)) [
  | inl gone ↦ unfold register_connection in rw (gone, register_connection) refl
  | inr (s, found) ↦
      unfold register_connection in
      rw (found, register_connection) (length-insert_old id _ s m.sessions found)
]
step-length m (unregisters id role) h = elim (Option-cases (lookup id m.sessions)) [
  | inl gone ↦ unfold unregister_connection in rw (gone, unregister_connection) refl
  | inr (s, found) ↦
      unfold unregister_connection in
      rw (found, unregister_connection) (length-insert_old id _ s m.sessions found)
]
step-length m (terminates now id) h = elim (Option-cases (lookup id m.sessions)) [
  | inl gone ↦ unfold terminate_session in rw (gone, terminate_session) refl
  | inr (s, found) ↦
      unfold terminate_session in
      rw (found, terminate_session) (length-insert_old id _ s m.sessions found)
]
step-length m (requests fresh now id type text d) h = elim (Option-cases (lookup id m.sessions)) [
  | inl gone ↦ unfold manager_request_privilege in rw (gone, manager_request_privilege) refl
  | inr (s, found) ↦
      unfold manager_request_privilege in
      rw (found, manager_request_privilege) (length-insert_old id _ s m.sessions found)
]
step-length m (approves now id k by) h =
    unfold manager_approve_privilege in on_session-length id (approve_privilege now k by) _ m
step-length m (denies now id k by) h =
    unfold manager_deny_privilege in on_session-length id (deny_privilege k by) _ m
step-length m (revokes now id type) h =
    unfold manager_revoke_privilege in on_session-length id (revoke_privilege type) _ m
step-length m (cleans now) h =
    unfold cleanup_expired_sessions in expire_all-length now (expired_ids now m.sessions) m
step-length m (shuts now) h = unfold shutdown in terminate_all-length now m.sessions
step-length m (updates c) h = unfold update_config in refl
step-length m (direct id c) h = elim (Option-cases (lookup id m.sessions)) [
  | inl gone ↦ unfold call_session in rw (gone, call_session) refl
  | inr (s, found) ↦
      unfold call_session in rw (found, call_session) (length-insert_old id _ s m.sessions found)
]
step-length m (creates _ _ _ _ _) h = absurd h

on_session-config :
    (id : String) (method : Session → Result Session) (e : AuditEvent) (m : Manager)
    → (after m (on_session id method e m)).config ≡ m.config
on_session-config id method e m = ground arith

expire_all-config :
    (now : ℤ) (ids : List String) (m : Manager) → (expire_all now ids m).config ≡ m.config
unfolding expire_all
expire_all-config now [] m = refl
expire_all-config now (id ∷ ids) m =
    expire_all-config now ids (expire_session now id m) ∙ unfold expire_session in ground arith

-- No call but `UpdateConfig` changes the configuration.
pub step-config : (m : Manager) (c : Call) → KeepsConfig c → (step m c).config ≡ m.config
unfolding step
step-config m (creates fresh now client portal i) h = unfold create_session in ground arith
step-config m (registers now id c role) h = unfold register_connection in ground arith
step-config m (unregisters id role) h = unfold unregister_connection in ground arith
step-config m (terminates now id) h = unfold terminate_session in ground arith
step-config m (requests fresh now id type text d) h =
    unfold manager_request_privilege in ground arith
step-config m (approves now id k by) h =
    unfold manager_approve_privilege in on_session-config id (approve_privilege now k by) _ m
step-config m (denies now id k by) h =
    unfold manager_deny_privilege in on_session-config id (deny_privilege k by) _ m
step-config m (revokes now id type) h =
    unfold manager_revoke_privilege in on_session-config id (revoke_privilege type) _ m
step-config m (cleans now) h =
    unfold cleanup_expired_sessions in expire_all-config now (expired_ids now m.sessions) m
step-config m (shuts now) h = unfold shutdown in refl
step-config m (updates c) h = absurd h
step-config m (direct id c) h = unfold call_session in ground arith
