-- ===== src/FileTransfer/WebSocket/Texts.antt =====
-- websocket_handler.go: what holds through every text message.
use onli_desk_full.Common.{
  ℤ, pos, String, ◌==◌, Bool, true, Option, none, some, ◌∷◌, inl, inr, Bool-cases, Option-cases,
  nat_beq,
}
use onli_desk_full.Common.Map.{lookup, insert}
use onli_desk_full.FileTransfer.Chunks.{Bytes}
use onli_desk_full.FileTransfer.Handler.{Conn, FileSystem, TransferSession, approved}
use onli_desk_full.FileTransfer.Manager.{
  Answer, create_transfer_session, created, identified, approve_transfer, pause_transfer,
  resume_transfer, cancel_transfer,
}
use onli_desk_full.FileTransfer.WebSocket.{
  WebSocketHandler, Decoders, Reply, session_registered, registered, unknown_action,
  unknown_message_type, security_violation, Handled, done, blocked, erred, send_json, notify,
  answer, with_manager, logging, notify_portal, answer_request, handle_file_transfer_request,
  handle_transfer_approval, handle_transfer_control, handle_progress_request,
  handle_session_register, transfer_response, status_update, control_response, progress_response,
  get_progress, pong, not_encoded, error_response,
}
use onli_desk_full.FileTransfer.WebSocket.Dispatch.{dispatch, handle_text_message, after_message}
use onli_desk_full.FileTransfer.WebSocket.Keeps.{OtherReply, Kept, After, after, either}

module _ (os : FileSystem) (P : WebSocketHandler os → Type 0) (k : Kept os P) where
  module _ (up : Conn → Reply → Bool) where
    pub send_json-Kept :
        (conn : Conn) (r : Reply) (h : WebSocketHandler os)
        → OtherReply r
        → P h
        → After os P (send_json os up conn r h)
    unfolding send_json After
    send_json-Kept conn r h o a = elim (Bool-cases (up conn r)) [
      | inl y ↦ rw (y, send_json) (k.sends conn r h o a)
      | inr n ↦ rw (n, send_json) a
    ]

    notify-Kept :
        (conn : Option Conn) (r : Reply) (h : WebSocketHandler os)
        → OtherReply r
        → P h
        → P (notify os up conn r h)
    unfolding notify After
    notify-Kept none r h o a = a
    notify-Kept (some c) r h o a = send_json-Kept c r h o a

    answer-Kept :
        (what : String) (conn : Conn) (r : Reply) (m : Answer os) (h : WebSocketHandler os)
        → OtherReply r
        → P (with_manager os m.0 h)
        → After os P (answer os up what conn r m h)
    unfolding answer After
    answer-Kept what conn r (m, none) h o a = send_json-Kept conn r (with_manager os m h) o a
    answer-Kept what conn r (m, some e) h o a = a

  module _ (decode : Decoders) (up : Conn → Reply → Bool)
      (path_of : String → String → String → String) where
    answer_request-Kept :
        (conn : Conn) (s : TransferSession os) (h : WebSocketHandler os)
        → P h
        → After os P (answer_request os decode up path_of conn s h)
    unfolding answer_request notify_portal
    answer_request-Kept conn s h a =
        either (After os P) h.config.require_approval _ _
          (send_json-Kept up conn _ _ tt (notify-Kept up _ _ h tt a))
          (answer-Kept up "auto-approve transfer" conn (transfer_response s.id approved)
            (approve_transfer os path_of s.id true h.session_manager) h tt
            (k.approves path_of s.id true h a))

    request-Kept :
        (fresh : String) (now : ℤ) (conn : Conn) (message : Bytes) (h : WebSocketHandler os)
        → P h
        → After os P (handle_file_transfer_request os decode up path_of fresh now conn message h)
    unfolding handle_file_transfer_request
    request-Kept fresh now conn message h a = elim (Option-cases (decode.file_request message)) [
      | inl e ↦ rw (e, handle_file_transfer_request) (after os P _ _ a)
      | inr (r, e) ↦
          let c = create_transfer_session os fresh now r (some conn) none h.session_manager in
          let m = with_manager os c.0 h in
          let b = k.creates fresh now r (some conn) h a in
          elim (Option-cases c.1) [
            | inl x ↦
                rw (e, handle_file_transfer_request)
                  (rw x (
                    answer_request-Kept conn
                      (created os now (identified os fresh r) (some conn) none) m b))
            | inr (y, x) ↦ rw (e, handle_file_transfer_request) (rw x (after os P m _ b))
          ]
    ]

    approval-Kept :
        (conn : Conn) (message : Bytes) (h : WebSocketHandler os)
        → P h
        → After os P (handle_transfer_approval os decode up path_of conn message h)
    unfolding handle_transfer_approval
    approval-Kept conn message h a = elim (Option-cases (decode.approval message)) [
      | inl e ↦ rw (e, handle_transfer_approval) (after os P _ _ a)
      | inr (r, e) ↦
          let c = approve_transfer os path_of r.transfer_id r.is_approved h.session_manager in
          let m = with_manager os c.0 h in
          let b = k.approves path_of r.transfer_id r.is_approved h a in
          elim (Option-cases c.1) [
            | inr (y, x) ↦ rw (e, handle_transfer_approval) (rw x (after os P m _ b))
            | inl x ↦ elim (Option-cases (lookup r.transfer_id c.0.sessions)) [
              | inl f ↦ rw (e, handle_transfer_approval) (rw x (rw f (after os P m _ b)))
              | inr (s, f) ↦
                  rw (e, handle_transfer_approval)
                    (rw x (
                      rw f (
                        after os P _ _ (
                          notify-Kept up s.client_conn
                            (status_update r.transfer_id s.status r.message) m tt b))))
            ]
          ]
    ]

    control-Kept :
        (conn : Conn) (message : Bytes) (h : WebSocketHandler os)
        → P h
        → After os P (handle_transfer_control os decode up conn message h)
    unfolding handle_transfer_control
    control-Kept conn message h a = elim (Option-cases (decode.control message)) [
      | inl e ↦ rw (e, handle_transfer_control) (after os P _ _ a)
      | inr (c, e) ↦
          let sends : (m : Answer os)
              → P (with_manager os m.0 h)
              → After os P (
                  answer os up "execute control action" conn (control_response c.id c.action) m h) =
            λ m b. answer-Kept up _ conn (control_response c.id c.action) m h tt b in
          rw (e, handle_transfer_control)
            (either (After os P) (c.action == "pause") _ _
              (sends (pause_transfer os c.id h.session_manager) (k.pauses c.id h a))
              (either (After os P) (c.action == "resume") _ _
                (sends (resume_transfer os c.id h.session_manager) (k.resumes c.id h a))
                (either (After os P) (c.action == "cancel") _ _
                  (sends (cancel_transfer os c.id h.session_manager) (k.cancels c.id h a))
                  (after os P h (erred (unknown_action c.action)) a))))
    ]

    progress-Kept :
        (current : String → ℤ) (conn : Conn) (message : Bytes) (h : WebSocketHandler os)
        → P h
        → After os P (handle_progress_request os decode up current conn message h)
    unfolding handle_progress_request
    progress-Kept current conn message h a = elim (Option-cases (decode.progress_id message)) [
      | inl e ↦ rw (e, handle_progress_request) (after os P _ _ a)
      | inr (id, e) ↦ elim (Option-cases (lookup id h.session_manager.file_streams)) [
        | inl x ↦ rw (e, handle_progress_request) (rw x (after os P _ _ a))
        | inr (f, x) ↦
            rw (e, handle_progress_request)
              (rw x (
                either (After os P) (nat_beq f.total_size 0) _ _
                  (after os P h (erred not_encoded) a)
                  (send_json-Kept up conn
                    (progress_response f.transfer_id (get_progress (current id) f)
                      (pos f.total_size))
                    h tt a)))
      ]
    ]

    register-Kept :
        (conn : Conn) (message : Bytes) (h : WebSocketHandler os)
        → P h
        → After os P (handle_session_register os decode up conn message h)
    unfolding handle_session_register
    register-Kept conn message h a = elim (Option-cases (decode.registration message)) [
      | inl e ↦ rw (e, handle_session_register) (after os P _ _ a)
      | inr (r, e) ↦
          rw (e, handle_session_register)
            (send_json-Kept up conn (session_registered r.session_id)
              (record h {
                connections = insert r.session_id conn h.connections;
                log = registered r.session_id r.role ∷ h.log;
              })
              tt
              (k.connects (insert r.session_id conn h.connections)
                (logging os (registered r.session_id r.role) h)
                (k.logs (registered r.session_id r.role) h a)))
    ]

    dispatch-Kept :
        (type : String) (now : ℤ) (fresh : String) (current : String → ℤ) (conn : Conn)
        (message : Bytes) (h : WebSocketHandler os)
        → P h
        → After os P (dispatch os decode up path_of type now fresh current conn message h)
    unfolding dispatch
    dispatch-Kept type now fresh current conn message h a =
        either (After os P) (type == "file_transfer_request") _ _
          (request-Kept fresh now conn message h a)
          (either (After os P) (type == "transfer_approval") _ _ (approval-Kept conn message h a) (
            either (After os P) (type == "transfer_control") _ _ (control-Kept conn message h a) (
              either (After os P) (type == "progress_request") _ _
                (progress-Kept current conn message h a)
                (either (After os P) (type == "session_register") _ _
                  (register-Kept conn message h a)
                  (either (After os P) (type == "ping") _ _ (send_json-Kept up conn pong h tt a)
                    (after os P h (erred (unknown_message_type type)) a))))))

    pub text-Kept :
        (now : ℤ) (fresh : String) (current : String → ℤ) (conn : Conn) (message : Bytes)
        (h : WebSocketHandler os)
        → P h
        → After os P (handle_text_message os decode up path_of now fresh current conn message h)
    unfolding handle_text_message
    text-Kept now fresh current conn message h a = elim (Option-cases (decode.base_type message)) [
      | inl e ↦ rw (e, handle_text_message) (after os P _ _ a)
      | inr (type, e) ↦
          rw (e, handle_text_message) (dispatch-Kept type now fresh current conn message h a)
    ]

    pub after_message-Kept :
        (kind : String) (conn : Conn) (x : WebSocketHandler os × Handled)
        → After os P x
        → P (after_message os decode up path_of kind conn x).0
    unfolding after_message After
    after_message-Kept kind conn (h, done) a = a
    after_message-Kept kind conn (h, blocked) a = a
    after_message-Kept kind conn (h, erred f) a =
        send_json-Kept up conn (error_response kind f) (logging os (security_violation kind f) h) tt
          (k.logs (security_violation kind f) h a)
