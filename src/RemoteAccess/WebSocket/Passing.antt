-- ===== src/RemoteAccess/WebSocket/Passing.antt =====
-- websocket_handler.go: the handlers that pass messages on, as calls of the session manager.
use onli_desk_full.Common.{
  ◌≡◌, ℤ, String, ◌==◌, Bool, true, false, some, inl, inr, Bool-cases, Option-cases, if◌then◌else◌,
  nat_beq,
}
use onli_desk_full.Common.Map.{lookup}
use onli_desk_full.FileTransfer.Chunks.{Bytes}
use onli_desk_full.RemoteAccess.Session.{
  Session, Conn, update_activity, increment_command, increment_screenshot, add_file_transfer,
}
use onli_desk_full.RemoteAccess.Session.Calls as SessionCalls
use onli_desk_full.RemoteAccess.Manager.{get_session}
use onli_desk_full.RemoteAccess.WebSocket.Messages.{FileRequest, Decoders, Response}
use onli_desk_full.RemoteAccess.WebSocket.{other_than, WebSocketHandler}
use onli_desk_full.RemoteAccess.WebSocket.Forward.{
  touch, touch_named, forward_file, handle_control_command, handle_screen_capture,
  handle_input_event, handle_file_transfer_request, handle_heartbeat,
}
use onli_desk_full.RemoteAccess.WebSocket.Effects.{
  Calls, Calls-refl, touch-Calls, Does, nothing_done, Does-if, send_json-Does, send_to-Does,
}

module _ (decode : Decoders) (up : Conn → Response → Bool) (fresh : String) (now : ℤ) (conn : Conn)
    (message : Bytes) (h : WebSocketHandler) where
  pub control_command-Does : Does h (handle_control_command decode up now conn message h)
  unfolding handle_control_command SessionCalls.step get_session
  control_command-Does = elim (Option-cases (decode.control_command message)) [
    | inl e ↦ rw (e, handle_control_command) (nothing_done h _)
    | inr (r, e) ↦ elim (Option-cases (get_session r.session_id h.session_manager)) [
      | inl n ↦ rw (e, handle_control_command) (rw n (nothing_done h _))
      | inr (s, f) ↦
          let d = touch-Calls r.session_id s (SessionCalls.commands now r.command) h tt f in
          elim (Option-cases s.client_conn) [
            | inl n ↦ rw (e, handle_control_command) (rw f (rw n (record { does = d })))
            | inr (c, g) ↦
                rw (e, handle_control_command)
                  (rw f (
                    rw g (
                      Does-if (nat_beq c.handle conn.handle) (record { does = d })
                        (send_json-Does up h
                          (touch r.session_id (increment_command now r.command) s h) c _ d))))
          ]
    ]
  ]

  pub screen_capture-Does : Does h (handle_screen_capture decode up now conn message h)
  unfolding handle_screen_capture SessionCalls.step get_session
  screen_capture-Does = elim (Option-cases (decode.screen_capture message)) [
    | inl e ↦ rw (e, handle_screen_capture) (nothing_done h _)
    | inr (r, e) ↦ elim (Option-cases (get_session r.session_id h.session_manager)) [
      | inl n ↦ rw (e, handle_screen_capture) (rw n (nothing_done h _))
      | inr (s, f) ↦
          rw (e, handle_screen_capture)
            (rw f (
              send_to-Does up h (touch r.session_id (increment_screenshot now) s h) s.client_conn _
                (touch-Calls r.session_id s (SessionCalls.screenshots now) h tt f)))
    ]
  ]

  pub input_event-Does : Does h (handle_input_event decode up now conn message h)
  unfolding handle_input_event SessionCalls.step get_session
  input_event-Does = elim (Option-cases (decode.input_event message)) [
    | inl e ↦ rw (e, handle_input_event) (nothing_done h _)
    | inr (r, e) ↦ elim (Option-cases (get_session r.session_id h.session_manager)) [
      | inl n ↦ rw (e, handle_input_event) (rw n (nothing_done h _))
      | inr (s, f) ↦
          rw (e, handle_input_event)
            (rw f (
              send_to-Does up h (touch r.session_id (update_activity now) s h) s.client_conn _
                (touch-Calls r.session_id s (SessionCalls.touches now) h tt f)))
    ]
  ]

  started-Calls :
      (r : FileRequest) (s : Session)
      → lookup r.session_id h.session_manager.sessions ≡ some s
      → (b : Bool)
      → Calls h.session_manager
          (if b
            then touch r.session_id (add_file_transfer now r.file_size) s h
            else h).session_manager
  unfolding SessionCalls.step
  started-Calls r s f true =
      touch-Calls r.session_id s (SessionCalls.transfers now r.file_size) h tt f
  started-Calls r s f false = Calls-refl h.session_manager

  pub file_transfer_request-Does :
      Does h (handle_file_transfer_request decode up now conn message h)
  unfolding handle_file_transfer_request get_session forward_file
  file_transfer_request-Does = elim (Option-cases (decode.file_request message)) [
    | inl e ↦ rw (e, handle_file_transfer_request) (nothing_done h _)
    | inr (r, e) ↦ elim (Option-cases (get_session r.session_id h.session_manager)) [
      | inl n ↦ rw (e, handle_file_transfer_request) (rw n (nothing_done h _))
      | inr (s, f) ↦
          let d = started-Calls r s f (r.action == "start") in
          rw (e, handle_file_transfer_request)
            (rw f (
              Does-if (other_than conn s.client_conn) (send_to-Does up h _ s.client_conn _ d) (
                Does-if (other_than conn s.portal_conn) (send_to-Does up h _ s.portal_conn _ d)
                  (record { does = d }))))
    ]
  ]

  touch_named-Calls : (id : String) → Calls h.session_manager (touch_named now id h).session_manager
  unfolding touch_named get_session SessionCalls.step
  touch_named-Calls id = elim (Bool-cases (id == "")) [
    | inl y ↦ rw (y, touch_named) (Calls-refl h.session_manager)
    | inr n ↦ elim (Option-cases (get_session id h.session_manager)) [
      | inl o ↦ rw (n, touch_named) (rw o (Calls-refl h.session_manager))
      | inr (s, f) ↦ rw (n, touch_named) (rw f (touch-Calls id s (SessionCalls.touches now) h tt f))
    ]
  ]

  pub heartbeat-Does : Does h (handle_heartbeat decode up now conn message h)
  unfolding handle_heartbeat
  heartbeat-Does = elim (Option-cases (decode.heartbeat message)) [
    | inl e ↦ rw (e, handle_heartbeat) (nothing_done h _)
    | inr (r, e) ↦
        rw (e, handle_heartbeat)
          (send_json-Does up h (touch_named now r.session_id h) conn _
            (touch_named-Calls r.session_id))
  ]
