-- ===== src/RemoteAccess/WebSocket/Safety.antt =====
-- websocket_handler.go: what holds of the session manager whatever messages arrive.
use onli_desk_full.Common.{
  ◌≡◌, ap, sym, ◌∙◌, ℤ, pos, ◌≤ℤ◌, ◌+ℤ◌, String, ◌==◌, Bool, some, inl, inr, List, [], ◌∷◌,
  Option-cases, All,
}
use onli_desk_full.Common.Map.{lookup}
use onli_desk_full.FileTransfer.Chunks.{Bytes}
use onli_desk_full.RemoteAccess.Config.{RemoteAccessConfig}
use onli_desk_full.RemoteAccess.Session.{Session, Conn, ActivePrivilege, PrivilegeType}
use onli_desk_full.RemoteAccess.Session.Calls as SessionCalls
use onli_desk_full.RemoteAccess.Manager.{max_duration}
use onli_desk_full.RemoteAccess.Manager.Calls.{Call, updates, direct}
use onli_desk_full.RemoteAccess.WebSocket.Messages.{Decoders, Response}
use onli_desk_full.RemoteAccess.WebSocket.{WebSocketHandler, Handled, done, crashed, failed}
use onli_desk_full.RemoteAccess.WebSocket.Dispatch.{
  Event, text_message, other_message, dispatch, handle_message, after_message,
}
use onli_desk_full.RemoteAccess.WebSocket.Effects.{
  OfMessage, Counts, Calls, Calls-refl, Calls-trans, Does, nothing_done, Does-if, send_json-Does,
}
use onli_desk_full.RemoteAccess.WebSocket.Refines.{
  session_register-Does, session_create-Does, session_join-Does, session_terminate-Does,
  privilege_request-Does, privilege_response-Does, privilege_revoke-Does,
}
use onli_desk_full.RemoteAccess.WebSocket.Passing.{
  control_command-Does, screen_capture-Does, input_event-Does, file_transfer_request-Does,
  heartbeat-Does,
}
use onli_desk_full.RemoteAccess.WebSocket.Dispatch.{receive, receive_all}
use onli_desk_full.RemoteAccess.WebSocket.{new_web_socket_handler}
use onli_desk_full.RemoteAccess.Session.Backing.{BackedBy}
use onli_desk_full.RemoteAccess.Manager.Durations.{NoRequest}
use onli_desk_full.RemoteAccess.Manager.Calls.{KeepsConfig}
use onli_desk_full.RemoteAccess.Manager.Durations.{IsManaged, privileges_capped}
use onli_desk_full.RemoteAccess.Manager.Counts.{count}
use onli_desk_full.RemoteAccess.Manager.Capacity.{sessions_bounded}

module _ (decode : Decoders) (up : Conn → Response → Bool) where
  dispatch-Does :
      (type fresh : String) (now : ℤ) (conn : Conn) (message : Bytes) (h : WebSocketHandler)
      → Does h (dispatch decode up type fresh now conn message h)
  unfolding dispatch
  dispatch-Does type fresh now conn message h =
      Does-if (type == "session_register")
        (session_register-Does decode up fresh now conn message h)
        (Does-if (type == "session_create") (session_create-Does decode up fresh now conn message h)
          (Does-if (type == "session_join") (session_join-Does decode up fresh now conn message h) (
            Does-if (type == "session_terminate")
              (session_terminate-Does decode up fresh now conn message h)
              (Does-if (type == "privilege_request")
                (privilege_request-Does decode up fresh now conn message h)
                (Does-if (type == "privilege_response")
                  (privilege_response-Does decode up fresh now conn message h)
                  (Does-if (type == "privilege_revoke")
                    (privilege_revoke-Does decode up fresh now conn message h)
                    (Does-if (type == "control_command")
                      (control_command-Does decode up fresh now conn message h)
                      (Does-if (type == "screen_capture")
                        (screen_capture-Does decode up fresh now conn message h)
                        (Does-if (type == "input_event")
                          (input_event-Does decode up fresh now conn message h)
                          (Does-if (type == "file_transfer_request")
                            (file_transfer_request-Does decode up fresh now conn message h)
                            (Does-if (type == "heartbeat")
                              (heartbeat-Does decode up fresh now conn message h)
                              (nothing_done h _))))))))))))

  handle_message-Does :
      (fresh : String) (now : ℤ) (conn : Conn) (message : Bytes) (h : WebSocketHandler)
      → Does h (handle_message decode up fresh now conn message h)
  unfolding handle_message
  handle_message-Does fresh now conn message h = elim (Option-cases (decode.base_type message)) [
    | inl e ↦ rw (e, handle_message) (nothing_done h _)
    | inr (type, e) ↦ rw (e, handle_message) (dispatch-Does type fresh now conn message h)
  ]

  after_message-Calls :
      (now : ℤ) (conn : Conn) (h : WebSocketHandler) (r : WebSocketHandler × Handled)
      → Does h r
      → Calls h.session_manager (after_message up now conn r).0.session_manager
  unfolding after_message
  after_message-Calls now conn h (g, done) d = d.does
  after_message-Calls now conn h (g, crashed) d = d.does
  after_message-Calls now conn h (g, failed f) d = (send_json-Does up h g conn _ d.does).does

  receive-Calls :
      (conn : Conn) (e : Event) (h : WebSocketHandler)
      → Calls h.session_manager (receive decode up conn e h).0.session_manager
  unfolding receive
  receive-Calls conn other_message h = Calls-refl h.session_manager
  receive-Calls conn (text_message now fresh message) h =
      after_message-Calls now conn h _ (handle_message-Does fresh now conn message h)

  -- Whatever the messages and their order, the session manager ends as after some calls of its own
  -- methods: creations, registrations, terminations, the four methods of privileges (so that every
  -- privilege request goes through the manager), and the session methods that count commands,
  -- transfers and screenshots or note an activity; nothing else touches it.
  pub receive_all-refines :
      (es : List (Conn × Event)) (h : WebSocketHandler)
      → Calls h.session_manager (receive_all decode up es h).session_manager
  unfolding receive_all
  receive_all-refines [] h = Calls-refl h.session_manager
  receive_all-refines ((conn, e) ∷ es) h =
      Calls-trans (receive-Calls conn e h) (receive_all-refines es (receive decode up conn e h).0)

Counts-NoRequest : (c : SessionCalls.Call) → Counts c → NoRequest c
Counts-NoRequest (SessionCalls.touches now) g = tt
Counts-NoRequest (SessionCalls.commands now text) g = tt
Counts-NoRequest (SessionCalls.transfers now bytes) g = tt
Counts-NoRequest (SessionCalls.screenshots now) g = tt
Counts-NoRequest (SessionCalls.requests fresh now type text d) g = g
Counts-NoRequest c g = tt

OfMessage-IsManaged : (c : Call) → OfMessage c → IsManaged c
OfMessage-IsManaged (direct id c) g = Counts-NoRequest c g
OfMessage-IsManaged (updates c) g = g
OfMessage-IsManaged c g = tt

OfMessage-KeepsConfig : (c : Call) → OfMessage c → KeepsConfig c
OfMessage-KeepsConfig (updates c) g = g
OfMessage-KeepsConfig c g = tt

All-map : {P Q : Call → Type 0} → ((c : Call) → P c → Q c) → (cs : List Call) → All P cs → All Q cs
All-map f [] g = tt
All-map f (c ∷ cs) g = (f c g.0, All-map f cs g.1)

module _ (decode : Decoders) (up : Conn → Response → Bool) (c : RemoteAccessConfig)
    (es : List (Conn × Event)) where
  -- After any messages on any connections of a new handler, every active privilege of every session
  -- was approved for a request of that session, and it expires at most the configured maximum
  -- duration (24 hours if none is configured) after it was granted.
  pub messages_privileges_capped :
      (id : String) (s : Session)
      → lookup id (receive_all decode up es (new_web_socket_handler c)).session_manager.sessions
        ≡ some s
      → (type : PrivilegeType) (p : ActivePrivilege) → lookup type s.active_privileges ≡ some p
      → BackedBy type p s.privileges × (p.expires_at ≤ℤ p.granted_at +ℤ max_duration c)
  unfolding new_web_socket_handler
  messages_privileges_capped id s found type p active =
      let r = receive_all-refines decode up es (new_web_socket_handler c) in
      privileges_capped c r.calls (All-map OfMessage-IsManaged r.calls r.allowed) id s
        (ap (λ m. lookup id m.sessions) (sym r.ran) ∙ found) type p active

  -- After any messages on any connections of a new handler whose limit is not negative, it holds at
  -- most as many sessions as the limit.
  pub messages_sessions_bounded :
      pos 0 ≤ℤ c.max_concurrent_sessions
      → pos (count (receive_all decode up es (new_web_socket_handler c)).session_manager)
        ≤ℤ c.max_concurrent_sessions
  unfolding new_web_socket_handler
  messages_sessions_bounded h =
      let r = receive_all-refines decode up es (new_web_socket_handler c) in
      rw r.ran (sessions_bounded c r.calls h (All-map OfMessage-KeepsConfig r.calls r.allowed))
