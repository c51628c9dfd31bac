-- ===== src/RemoteAccess/WebSocket/Refines.antt =====
-- websocket_handler.go: the handlers of sessions and privileges, as calls of the session manager.
use onli_desk_full.Common.{refl, ap, sym, ℤ, String, Bool, inl, inr, Bool-cases, Option-cases}
use onli_desk_full.FileTransfer.Chunks.{Bytes}
use onli_desk_full.RemoteAccess.Session.{Conn, Result-cases}
use onli_desk_full.RemoteAccess.Manager.{
  get_session, register_connection, manager_request_privilege,
}
use onli_desk_full.RemoteAccess.Manager.Calls.{
  Call, creates, registers, terminates, requests, approves, denies, revokes, step, after_request,
}
use onli_desk_full.RemoteAccess.WebSocket.Messages.{Decoders, Response}
use onli_desk_full.RemoteAccess.WebSocket.{
  WebSocketHandler, handle_session_register, handle_session_create, handle_session_join,
  handle_session_terminate, handle_privilege_request, handle_privilege_response,
  handle_privilege_revoke,
}
use onli_desk_full.RemoteAccess.WebSocket.Effects.{
  Calls-refl, Does, nothing_done, one_call, send_json-Does, answer-Does, registered,
  register_created-Does,
}

module _ (decode : Decoders) (up : Conn → Response → Bool) (fresh : String) (now : ℤ) (conn : Conn)
    (message : Bytes) (h : WebSocketHandler) where
  pub session_register-Does : Does h (handle_session_register decode up now conn message h)
  unfolding handle_session_register step
  session_register-Does = elim (Option-cases (decode.session_register message)) [
    | inl e ↦ rw (e, handle_session_register) (nothing_done h _)
    | inr (r, e) ↦
        rw (e, handle_session_register)
          (answer-Does up h _ _ _ _ (registers now r.session_id conn r.role) tt refl)
  ]

  pub session_create-Does : Does h (handle_session_create decode up fresh now conn message h)
  unfolding handle_session_create step
  session_create-Does = elim (Option-cases (decode.session_create message)) [
    | inl e ↦ rw (e, handle_session_create) (nothing_done h _)
    | inr (r, e) ↦
        rw (e, handle_session_create)
          (register_created-Does up now conn _ h (
            one_call h.session_manager (creates fresh now r.client_id r.technician_id r.client_info)
              tt _ refl))
  ]

  pub session_join-Does : Does h (handle_session_join decode up now conn message h)
  unfolding handle_session_join
  session_join-Does = elim (Option-cases (decode.session_join message)) [
    | inl e ↦ rw (e, handle_session_join) (nothing_done h _)
    | inr (r, e) ↦ elim (Option-cases (get_session r.session_id h.session_manager)) [
      | inl n ↦ rw (e, handle_session_join) (rw n (nothing_done h _))
      | inr (s, f) ↦
          elim (Result-cases
            (register_connection now r.session_id conn "portal" h.session_manager)) [
              | inl (x, n) ↦ rw (e, handle_session_join) (rw f (rw n (nothing_done h _)))
              | inr (m, g) ↦
                  rw (e, handle_session_join)
                    (rw f (
                      rw g (
                        send_json-Does up h (record h { session_manager = m }) conn _
                          (registered up now r.session_id "portal" conn h.session_manager m
                            (Calls-refl h.session_manager) g))))
            ]
    ]
  ]

  pub session_terminate-Does : Does h (handle_session_terminate decode up now conn message h)
  unfolding handle_session_terminate step
  session_terminate-Does = elim (Option-cases (decode.session_terminate message)) [
    | inl e ↦ rw (e, handle_session_terminate) (nothing_done h _)
    | inr (r, e) ↦
        rw (e, handle_session_terminate)
          (answer-Does up h _ _ _ _ (terminates now r.session_id) tt refl)
  ]

  pub privilege_request-Does : Does h (handle_privilege_request decode up fresh now conn message h)
  unfolding handle_privilege_request step
  privilege_request-Does = elim (Option-cases (decode.privilege_ask message)) [
    | inl e ↦ rw (e, handle_privilege_request) (nothing_done h _)
    | inr (r, e) ↦
        let call : Call =
          requests fresh now r.session_id r.privilege_type r.justification r.duration in
        elim (Result-cases (
          manager_request_privilege fresh now r.session_id r.privilege_type r.justification
            r.duration h.session_manager)) [
              | inl (x, n) ↦ rw (e, handle_privilege_request) (rw n (nothing_done h _))
              | inr ((m, k), g) ↦
                  rw (e, handle_privilege_request)
                    (rw g (
                      send_json-Does up h (record h { session_manager = m }) conn _
                        (one_call h.session_manager call tt m
                          (sym (ap (after_request h.session_manager) g)))))
            ]
  ]

  pub privilege_response-Does : Does h (handle_privilege_response decode up now conn message h)
  unfolding handle_privilege_response step
  privilege_response-Does = elim (Option-cases (decode.privilege_response message)) [
    | inl e ↦ rw (e, handle_privilege_response) (nothing_done h _)
    | inr (r, e) ↦ elim (Bool-cases r.approved) [
      | inl y ↦
          rw (e, handle_privilege_response)
            (rw y (
              answer-Does up h _ _ _ _ (approves now r.session_id r.request_id r.approved_by) tt
                refl))
      | inr n ↦
          rw (e, handle_privilege_response)
            (rw n (
              answer-Does up h _ _ _ _ (denies now r.session_id r.request_id r.approved_by) tt
                refl))
    ]
  ]

  pub privilege_revoke-Does : Does h (handle_privilege_revoke decode up now conn message h)
  unfolding handle_privilege_revoke step
  privilege_revoke-Does = elim (Option-cases (decode.privilege_revoke message)) [
    | inl e ↦ rw (e, handle_privilege_revoke) (nothing_done h _)
    | inr (r, e) ↦
        rw (e, handle_privilege_revoke)
          (answer-Does up h _ _ _ _ (revokes now r.session_id r.privilege_type) tt refl)
  ]
