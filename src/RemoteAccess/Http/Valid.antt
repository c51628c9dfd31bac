-- ===== src/RemoteAccess/Http/Valid.antt =====
-- http_handlers.go: the configuration that requests leave.
use onli_desk_full.Common.{
  ◌≡◌, refl, ap, sym, ◌∙◌, ℤ, String, Option, none, some, List, [], ◌∷◌, arith, inl, inr,
  Option-cases,
}
use onli_desk_full.RemoteAccess.Config.{RemoteAccessConfig, validate}
use onli_desk_full.RemoteAccess.Session.{Result-cases}
use onli_desk_full.RemoteAccess.Manager as Managers
use onli_desk_full.RemoteAccess.Manager.{Manager, Created, created, refused, panicked}
use onli_desk_full.RemoteAccess.Manager.Calls.{creates, terminates, step, after}
use onli_desk_full.RemoteAccess.Manager.Counts.{step-config}
use onli_desk_full.RemoteAccess.Http.Logs.{handle_get_audit_logs}
use onli_desk_full.RemoteAccess.Http.Replies.{CreateBody}
use onli_desk_full.RemoteAccess.Http.{handle_get_sessions}
use onli_desk_full.RemoteAccess.Http.Sessions.{
  reply_creation, handle_create_session, handle_get_session, handle_terminate_session,
  handle_extend_session, handle_get_statistics, handle_get_session_statistics, handle_get_config,
  handle_update_config, handle_health_check,
}
use onli_desk_full.RemoteAccess.Http.Privileges.{
  handle_request_privilege, handle_approve_privilege, handle_revoke_privilege,
}
use onli_desk_full.RemoteAccess.Http.Routes.{
  Request, get_sessions, create_session, get_session, terminate_session, extend_session,
  request_privilege, approve_privilege, revoke_privilege, get_statistics, get_session_statistics,
  get_config, update_config, health_check, get_audit_logs, handle, handle_all,
}

abbrev pub IsValidManager : Manager → Type 0
IsValidManager m = validate m.config ≡ none

reply_creation-config :
    (b : CreateBody) (x : Manager × Created) → (reply_creation b x).0.config ≡ x.0.config
unfolding reply_creation
reply_creation-config b (m, refused e) = refl
reply_creation-config b (m, panicked) = refl
reply_creation-config b (m, created s) = ground arith

-- The configuration after each kind of request that can change the manager by its own methods.
create-config :
    (fresh : String) (now : ℤ) (b : Option CreateBody) (m : Manager)
    → (handle_create_session fresh now b m).0.config ≡ m.config
unfolding handle_create_session step
create-config fresh now none m = refl
create-config fresh now (some b) m = ground (
  arith,
  reply_creation-config b (Managers.create_session fresh now b.client_id b.technician_id none m),
  step-config m (creates fresh now b.client_id b.technician_id none) tt,
)

terminate-config :
    (now : ℤ) (id : String) (m : Manager) → (handle_terminate_session now id m).0.config ≡ m.config
unfolding handle_terminate_session step
terminate-config now id m = elim (Result-cases (Managers.terminate_session now id m)) [
  | inl (x, e) ↦ rw (e, handle_terminate_session) refl
  | inr (m', e) ↦
      rw (e, handle_terminate_session)
        (ap (λ r. (after m r).config) (sym e) ∙ step-config m (terminates now id) tt)
]

update-IsValidManager :
    (c : RemoteAccessConfig) (m : Manager)
    → IsValidManager m
    → IsValidManager (handle_update_config (some c) m).0
unfolding handle_update_config
update-IsValidManager c m v = elim (Option-cases (validate c)) [
  | inl e ↦ rw (e, handle_update_config) e
  | inr (x, e) ↦ rw (e, handle_update_config) v
]

module _ (atoi parse_duration : String → Option ℤ) where
  pub handle-IsValidManager :
      (fresh : String) (now : ℤ) (r : Request) (m : Manager)
      → IsValidManager m
      → IsValidManager (handle atoi parse_duration fresh now r m).0
  unfolding handle
  handle-IsValidManager fresh now (get_sessions order status technician limit offset) m v =
      unfold handle_get_sessions in ground arith
  handle-IsValidManager fresh now (create_session b) m v =
      ap validate (create-config fresh now b m) ∙ v
  handle-IsValidManager fresh now (get_session id) m v = unfold handle_get_session in ground arith
  handle-IsValidManager fresh now (terminate_session id) m v =
      ap validate (terminate-config now id m) ∙ v
  handle-IsValidManager fresh now (extend_session id none) m v = unfold handle_extend_session in v
  handle-IsValidManager fresh now (extend_session id (some text)) m v =
      unfold handle_extend_session in ground arith
  handle-IsValidManager fresh now (request_privilege id none) m v =
      unfold handle_request_privilege in v
  handle-IsValidManager fresh now (request_privilege id (some b)) m v =
      unfold handle_request_privilege in ground arith
  handle-IsValidManager fresh now (approve_privilege id k none) m v =
      unfold handle_approve_privilege in v
  handle-IsValidManager fresh now (approve_privilege id k (some b)) m v =
      unfold handle_approve_privilege in ground arith
  handle-IsValidManager fresh now (revoke_privilege id none) m v =
      unfold handle_revoke_privilege in v
  handle-IsValidManager fresh now (revoke_privilege id (some b)) m v =
      unfold handle_revoke_privilege in ground arith
  handle-IsValidManager fresh now get_statistics m v = unfold handle_get_statistics in v
  handle-IsValidManager fresh now (get_session_statistics id) m v =
      unfold handle_get_session_statistics in ground arith
  handle-IsValidManager fresh now get_config m v = unfold handle_get_config in v
  handle-IsValidManager fresh now (update_config none) m v = unfold handle_update_config in v
  handle-IsValidManager fresh now (update_config (some c)) m v = update-IsValidManager c m v
  handle-IsValidManager fresh now health_check m v = unfold handle_health_check in v
  handle-IsValidManager fresh now (get_audit_logs logs i e s limit) m v =
      unfold handle_get_audit_logs in ground arith

  -- Requests, whatever they are and whatever their order, keep the configuration of the session
  -- manager valid.
  pub handle_all-IsValidManager :
      (rs : List (String × ℤ × Request)) (m : Manager)
      → validate m.config ≡ none
      → validate (handle_all atoi parse_duration rs m).config ≡ none
  unfolding handle_all
  handle_all-IsValidManager [] m v = v
  handle_all-IsValidManager ((fresh, now, r) ∷ rs) m v =
      handle_all-IsValidManager rs (handle atoi parse_duration fresh now r m).0
        (handle-IsValidManager fresh now r m v)
