-- ===== src/FileTransfer/Handler/Sound/Messages.antt =====
-- transfer_handler.go: the invariant of the stored transfers under new requests and answers.
use onli_desk_full.Common.{
  refl, inl, inr, ℤ, ltb_ℤ, String, true, false, not, some, arith, eq_refl, Option-cases,
}
use onli_desk_full.Common.Map.{lookup}
use onli_desk_full.FileTransfer.Handler.{
  approved, rejected, failed, Conn, FileSystem, FileTransferRequest, FileTransferResponse,
  TransferSession, TransferHandler, answered, violation, requested, progressed, transfer_error,
  request_received, response_notice, call_audit, save, opened, is_type_allowed,
  handle_new_transfer_request, approve_transfer, handle_transfer_response, notify_portal,
}
use onli_desk_full.FileTransfer.Handler.Sound.{
  IsSound, EverySound, either, send-EverySound, send_to-EverySound, files-EverySound,
  call_audit-EverySound, save-EverySound,
}

module _ (os : FileSystem) where
  pub opened-EverySound :
      (now : ℤ) (c : Conn) (r : FileTransferRequest) (h : TransferHandler os)
      → EverySound os h
      → EverySound os (handle_new_transfer_request os now c r h)
  unfolding handle_new_transfer_request
  opened-EverySound now c r h d =
      let no =
        send-EverySound os c (transfer_error r.id) (call_audit os (violation r.id r.session_id) h)
          (call_audit-EverySound os (violation r.id r.session_id) h d) in
      let k = call_audit os (requested r) h in
      either os (ltb_ℤ h.max_file_size r.file_size) (λ big. no)
        (λ small.
          either os (not (is_type_allowed os h r)) (λ bad. no)
            (λ good. send-EverySound os c (request_received r.id) (save os (opened os now c r) k) (
              save-EverySound os (opened os now c r) k (call_audit-EverySound os (requested r) h d)
                (record {
                  keyed = refl;
                  fits = small;
                  granted = λ e. absurd (ground arith);
                  has_file = λ e. absurd (ground arith);
                }))))

  approved-EverySound :
      (path_of : String → String → String → String) (c : Conn) (r : FileTransferResponse)
      (s : TransferSession os) (h : TransferHandler os)
      → EverySound os h
      → IsSound os h.max_file_size h.audit_calls r.transfer_id s
      → EverySound os (approve_transfer os path_of c r s h)
  unfolding approve_transfer
  approved-EverySound path_of c r s h d i =
      let path = path_of h.temp_dir r.transfer_id s.request.filename in
      let e = answered r.transfer_id s.request.session_id true in
      let b = call_audit-EverySound os e h d in
      elim (Option-cases (os.create path h.files)) [
        | inl fails ↦
            let t = record s { status = failed; client_conn = some c } in
            rw (fails, approve_transfer)
              (call_audit-EverySound os (progressed r.transfer_id s.request.session_id failed)
                (save os t (call_audit os e h))
                (save-EverySound os t (call_audit os e h) b (record {
                  keyed = refl;
                  fits = i.fits;
                  granted = λ started. ground (arith, i.keyed, eq_refl r.transfer_id);
                  has_file = λ opens. absurd (ground arith);
                })))
        | inr ((f, fs), made) ↦
            let t = record s {
              status = approved;
              client_conn = some c;
              file = some f;
              temp_path = path;
            } in
            let g = record (call_audit os e h) { files = fs } in
            rw (made, approve_transfer)
              (send_to-EverySound os s.portal_conn
                (response_notice r.transfer_id approved r.is_approved r.message) (save os t g)
                (save-EverySound os t g (files-EverySound os fs (call_audit os e h) b) (record {
                  keyed = refl;
                  fits = i.fits;
                  granted = λ started. ground (arith, i.keyed, eq_refl r.transfer_id);
                  has_file = λ opens. refl;
                })))
      ]

  denied-EverySound :
      (c : Conn) (r : FileTransferResponse) (s : TransferSession os) (h : TransferHandler os)
      → EverySound os h
      → IsSound os h.max_file_size h.audit_calls r.transfer_id s
      → EverySound os (
          notify_portal os r
            (record s { status = rejected })
            (save os
              (record s { status = rejected })
              (call_audit os (answered r.transfer_id s.request.session_id false) h)))
  denied-EverySound c r s h d i =
      let t = record s { status = rejected } in
      let e = answered r.transfer_id s.request.session_id false in
      send_to-EverySound os s.portal_conn
        (response_notice r.transfer_id t.status r.is_approved r.message)
        (save os t (call_audit os e h))
        (save-EverySound os t (call_audit os e h) (call_audit-EverySound os e h d) (record {
          keyed = refl;
          fits = i.fits;
          granted = λ started. ground (arith, i.granted, i.keyed);
          has_file = λ opens. absurd (ground arith);
        }))

  pub answered-EverySound :
      (path_of : String → String → String → String) (c : Conn) (r : FileTransferResponse)
      (h : TransferHandler os)
      → EverySound os h
      → EverySound os (handle_transfer_response os path_of c r h)
  unfolding handle_transfer_response
  answered-EverySound path_of c r h d =
      elim (Option-cases (lookup r.transfer_id h.active_sessions)) [
        | inl gone ↦ rw (gone, handle_transfer_response) d
        | inr (s, found) ↦
            let i = d.every r.transfer_id s found in
            rw (found, handle_transfer_response)
              (either os r.is_approved (λ yes. approved-EverySound path_of c r s h d i)
                (λ no. denied-EverySound c r s h d i))
      ]
