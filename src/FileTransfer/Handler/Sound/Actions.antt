-- ===== src/FileTransfer/Handler/Sound/Actions.antt =====
-- transfer_handler.go: the invariant of the stored transfers under the control messages.
use onli_desk_full.Common.{
  ◌≡◌, refl, inl, inr, pos, String, ◌==◌, Bool, true, false, arith, Option-cases, if◌then◌else◌,
}
use onli_desk_full.Common.Map.{lookup}
use onli_desk_full.FileTransfer.Chunks.{int_beq}
use onli_desk_full.FileTransfer.Handler.{
  Conn, FileSystem, ControlMessage, TransferSession, TransferHandler, in_progress, paused,
  cancelled, progressed, resumed, status_notice, progress, call_audit, save,
}
use onli_desk_full.FileTransfer.Handler.Control.{
  is_in_progress, is_paused, pause, resume, cancel, apply_action, handle_transfer_control,
  handle_progress_request,
}
use onli_desk_full.FileTransfer.Handler.Sound.{
  IsSound, EverySound, has_started, is_open, either, rekey, send-EverySound, send_both-EverySound,
  call_audit-EverySound, save-EverySound, cleanup-EverySound,
}

module _ (os : FileSystem) where
  either_pair :
      (b : Bool) (x y : TransferSession os × TransferHandler os)
      → (b ≡ true → EverySound os x.1)
      → (b ≡ false → EverySound os y.1)
      → EverySound os (if b then x else y).1
  either_pair true x y f g = f refl
  either_pair false x y f g = g refl

  in_progress_open :
      (s : TransferSession os)
      → is_in_progress s.status ≡ true
      → (is_open os s ≡ true) × (has_started os s ≡ true)
  in_progress_open s now = ground arith

  pause-EverySound :
      (s : TransferSession os) (h : TransferHandler os)
      → is_in_progress s.status ≡ true
      → EverySound os h
      → IsSound os h.max_file_size h.audit_calls s.id s
      → EverySound os (pause os s h).1
  pause-EverySound s h now d i =
      let t = record s { status = paused } in
      call_audit-EverySound os (progressed s.id s.request.session_id paused) (save os t h) (
        save-EverySound os t h d (record {
          keyed = refl;
          fits = i.fits;
          granted = λ started. i.granted (in_progress_open s now).1;
          has_file = λ opens. i.has_file (in_progress_open s now).0;
        }))

  resume-EverySound :
      (s : TransferSession os) (h : TransferHandler os)
      → is_paused s.status ≡ true
      → EverySound os h
      → IsSound os h.max_file_size h.audit_calls s.id s
      → EverySound os (resume os s h).1
  resume-EverySound s h now d i =
      let t = record s { status = in_progress } in
      call_audit-EverySound os (resumed s.id s.request.session_id) (save os t h) (
        save-EverySound os t h d (record {
          keyed = refl;
          fits = i.fits;
          granted = λ started. i.granted (ground (arith, now));
          has_file = λ opens. i.has_file (ground (arith, now));
        }))

  cancel-EverySound :
      (s : TransferSession os) (h : TransferHandler os)
      → EverySound os h
      → EverySound os (cancel os s h).1
  cancel-EverySound s h d =
      let e = progressed s.id s.request.session_id cancelled in
      cleanup-EverySound os (record s { status = cancelled }) (call_audit os e h)
        (call_audit-EverySound os e h d)

  action-EverySound :
      (action : String) (s : TransferSession os) (h : TransferHandler os)
      → EverySound os h
      → IsSound os h.max_file_size h.audit_calls s.id s
      → EverySound os (apply_action os action s h).1
  unfolding apply_action
  action-EverySound action s h d i =
      either_pair (action == "pause") _ _
        (λ yes.
          either_pair (is_in_progress s.status) _ _ (λ now. pause-EverySound s h now d i) (λ no. d))
        (λ no.
          either_pair (action == "resume") _ _
            (λ yes.
              either_pair (is_paused s.status) _ _ (λ now. resume-EverySound s h now d i) (λ no. d))
            (λ no. either_pair (action == "cancel") _ _ (λ yes. cancel-EverySound s h d) (λ no. d)))

  pub control-EverySound :
      (c : ControlMessage) (h : TransferHandler os)
      → EverySound os h
      → EverySound os (handle_transfer_control os c h)
  unfolding handle_transfer_control
  control-EverySound c h d = elim (Option-cases (lookup c.id h.active_sessions)) [
    | inl gone ↦ rw (gone, handle_transfer_control) d
    | inr (s, found) ↦
        let r = apply_action os c.action s h in
        rw (found, handle_transfer_control)
          (send_both-EverySound os r.0 (status_notice c.id r.0.status c.action) r.1
            (action-EverySound c.action s h d (rekey os (d.every c.id s found))))
  ]

  pub reported-EverySound :
      (c : Conn) (id : String) (h : TransferHandler os)
      → EverySound os h
      → EverySound os (handle_progress_request os c id h)
  unfolding handle_progress_request
  reported-EverySound c id h d = elim (Option-cases (lookup id h.active_sessions)) [
    | inl gone ↦ rw (gone, handle_progress_request) d
    | inr (s, found) ↦
        rw (found, handle_progress_request)
          (either os (int_beq s.request.file_size (pos 0)) (λ nothing. d)
            (λ size.
              send-EverySound os c (progress id s.bytes_transferred s.request.file_size) h d))
  ]
