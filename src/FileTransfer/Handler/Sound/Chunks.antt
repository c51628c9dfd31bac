-- ===== src/FileTransfer/Handler/Sound/Chunks.antt =====
-- transfer_handler.go: the invariant of the stored transfers under a chunk.
use onli_desk_full.Common.{
  ◌≡◌, refl, inl, inr, pos, String, ◌==◌, Bool, true, false, ◌&&◌, not, Option, arith, wrap64, ◌+ℤ◌,
  if◌then◌else◌, Option-cases, Bool-cases, length, take, drop, ◌+◌, ◌++◌, ltb,
}
use onli_desk_full.Common.Map.{lookup}
use onli_desk_full.FileTransfer.Chunks.{header_size, Bytes, FileChunk, put}
use onli_desk_full.FileTransfer.Handler.{
  in_progress, failed, FileSystem, TransferSession, TransferHandler, progressed, completed,
  transfer_completed, call_audit, send_both, save,
}
use onli_desk_full.FileTransfer.Handler.Receive.{
  Slice, Handled, take_chunk, handle_file_chunk, takes_chunks, close_file, complete_transfer,
  report_progress, receive_chunk, write_file, verify_checksum,
}
use onli_desk_full.FileTransfer.Handler.Sound.{
  IsSound, EverySound, either, rekey, send_both-EverySound, files-EverySound, call_audit-EverySound,
  save-EverySound, cleanup-EverySound, close-EverySound, report-EverySound,
}

module _ (os : FileSystem) where
  completed-EverySound :
      (digest : Bytes → String) (s : TransferSession os) (h : TransferHandler os)
      → EverySound os h
      → EverySound os (complete_transfer os digest s h)
  unfolding complete_transfer
  completed-EverySound digest s h d =
      let k = close_file os s h in
      let e = close-EverySound os s h d in
      let no = progressed s.id s.request.session_id failed in
      let yes = progressed s.id s.request.session_id completed in
      either os
        (not (s.request.checksum == "")
          && not (verify_checksum os digest s.temp_path s.request.checksum k.files))
        (λ bad. cleanup-EverySound os s (call_audit os no k) (call_audit-EverySound os no k e))
        (λ good.
          cleanup-EverySound os s (send_both os s (transfer_completed s.id) (call_audit os yes k)) (
            send_both-EverySound os s (transfer_completed s.id) (call_audit os yes k)
              (call_audit-EverySound os yes k e)))

  received-EverySound :
      (digest : Bytes → String) (c : FileChunk) (bytes : Bytes) (s : TransferSession os)
      (h : TransferHandler os)
      → takes_chunks os s.status ≡ true
      → EverySound os h
      → IsSound os h.max_file_size h.audit_calls s.id s
      → EverySound os (receive_chunk os digest c bytes s h)
  unfolding receive_chunk
  received-EverySound digest c bytes s h live d i =
      let w = write_file os s bytes h in
      let g = record h { files = w.1 } in
      let e = files-EverySound os w.1 h d in
      let t = record s {
        status = in_progress;
        bytes_transferred = wrap64 (s.bytes_transferred +ℤ pos (length bytes));
        received_chunks = put c.sequence true s.received_chunks;
      } in
      let k = report_progress os t (save os t g) in
      let kept = report-EverySound os t (save os t g) (
        save-EverySound os t g e (record {
          keyed = refl;
          fits = i.fits;
          granted = λ started. i.granted (rw live refl);
          has_file = λ now. i.has_file (rw live refl);
        })) in
      either os (not w.0)
        (λ bad.
          save-EverySound os (record s { status = failed }) g e
            (record {
              keyed = refl;
              fits = i.fits;
              granted = λ started. i.granted (rw live refl);
              has_file = λ now. absurd (ground arith);
            }))
        (λ good. either os c.is_last (λ last. completed-EverySound digest t k kept) (λ more. kept))

  either_handled :
      (b : Bool) (x y : Handled (TransferHandler os))
      → (b ≡ true → EverySound os x.handler)
      → (b ≡ false → EverySound os y.handler)
      → EverySound os (if b then x else y).handler
  either_handled true x y f g = f refl
  either_handled false x y f g = g refl

  panic-EverySound :
      (s : TransferSession os) (h : TransferHandler os)
      → takes_chunks os s.status ≡ true
      → EverySound os h
      → IsSound os h.max_file_size h.audit_calls s.id s
      → EverySound os (save os (record s { status = in_progress }) h)
  panic-EverySound s h live d i =
      save-EverySound os (record s { status = in_progress }) h d
        (record {
          keyed = refl;
          fits = i.fits;
          granted = λ started. i.granted (rw live refl);
          has_file = λ opens. i.has_file (rw live refl);
        })

  taken-EverySound :
      (digest : Bytes → String) (c : FileChunk) (m : Slice) (s : TransferSession os)
      (h : TransferHandler os)
      → EverySound os h
      → IsSound os h.max_file_size h.audit_calls s.id s
      → EverySound os (take_chunk os digest c m s h).handler
  unfolding take_chunk
  taken-EverySound digest c m s h d i = elim (Bool-cases (takes_chunks os s.status)) [
    | inl live ↦
        rw (live, take_chunk)
          (either_handled (ltb (length m.bytes) header_size) _ _
            (λ short. panic-EverySound s h live d i)
            (λ whole. received-EverySound digest c (drop header_size m.bytes) s h live d i))
    | inr idle ↦ rw (idle, take_chunk) d
  ]

  pub chunk-EverySound :
      (header : Bytes → Option FileChunk) (digest : Bytes → String) (m : Slice)
      (h : TransferHandler os)
      → EverySound os h
      → EverySound os (handle_file_chunk os header digest m h).handler
  unfolding handle_file_chunk
  chunk-EverySound header digest m h d =
      either_handled (ltb (length m.bytes + length m.spare) header_size) _ _ (λ short. d)
        (λ enough. elim (Option-cases (header (take header_size (m.bytes ++ m.spare)))) [
          | inl bad ↦ rw bad d
          | inr (c, read) ↦ rw read (elim (Option-cases (lookup c.id h.active_sessions)) [
            | inl gone ↦ rw gone d
            | inr (s, found) ↦
                rw found (taken-EverySound digest c m s h d (rekey os (d.every c.id s found)))
          ])
        ])
