-- ===== src/FileTransfer/Handler/Files.antt =====
-- transfer_handler.go: what answers, chunks and control messages do to one stored transfer, and what
-- becomes of its file.
use onli_desk_full.Common.{
  ◌≡◌, refl, ap, sym, inl, inr, ◌∙◌, ltb, length, ◌+◌, ◌++◌, take, String, ◌==◌, ◌&&◌, true, false,
  not, Option, none, some, arith, eq_refl, Option-cases, Bool-cases,
}
use onli_desk_full.Common.Map.{lookup, lookup-insert, lookup-delete}
use onli_desk_full.FileTransfer.Chunks.{Bytes, FileChunk, header_size}
use onli_desk_full.FileTransfer.Handler.{
  FileSystem, Conn, FileTransferResponse, TransferSession, TransferHandler, Message, approved,
  in_progress, paused, cancelled, response_notice, failed, completed, progressed,
  transfer_completed, call_audit, send_to, send_both, approve_transfer, handle_transfer_response,
}
use onli_desk_full.FileTransfer.Handler.Receive.{
  Slice, takes_chunks, close_file, cleanup_transfer, verify_checksum, complete_transfer, take_chunk,
  handle_file_chunk,
}
use onli_desk_full.FileTransfer.Handler.Control.{apply_action, handle_transfer_control}

module _ (os : FileSystem) where
  send_both-active_sessions :
      (s : TransferSession os) (m : Message) (h : TransferHandler os)
      → (send_both os s m h).active_sessions ≡ h.active_sessions
  send_both-active_sessions s m h = ground arith

  send_to-lookup :
      (k : String) (c : Option Conn) (m : Message) (h : TransferHandler os) {s : TransferSession os}
      → lookup k h.active_sessions ≡ some s
      → lookup k (send_to os c m h).active_sessions ≡ some s
  send_to-lookup k none m h e = e
  send_to-lookup k (some c) m h e = e

  send_both-files :
      (s : TransferSession os) (m : Message) (h : TransferHandler os)
      → (send_both os s m h).files ≡ h.files
  send_both-files s m h = ground arith

  cleaned :
      (removes : (path : String) (fs : os.Files) → os.read path (os.remove path fs) ≡ none)
      (s : TransferSession os) (h : TransferHandler os)
      → (s.temp_path == "") ≡ false
      → let g = cleanup_transfer os s h in
        (lookup s.id g.active_sessions ≡ none) × (os.read s.temp_path g.files ≡ none)
  cleaned removes s h named = (
    ground (arith, lookup-delete s.id s.id h.active_sessions, eq_refl s.id),
    rw named (removes s.temp_path h.files),
  )

  -- `removes`: a removed file cannot be read. A transfer with a temporary path that ends, with its
  -- checksum right or wrong, is no longer stored, and its file is gone.
  pub complete_transfer-loses_file :
      (removes : (path : String) (fs : os.Files) → os.read path (os.remove path fs) ≡ none)
      (digest : Bytes → String) (s : TransferSession os) (h : TransferHandler os)
      → (s.temp_path == "") ≡ false
      → let g = complete_transfer os digest s h in
        (lookup s.id g.active_sessions ≡ none) × (os.read s.temp_path g.files ≡ none)
  unfolding complete_transfer
  complete_transfer-loses_file removes digest s h named =
      let k = close_file os s h in
      elim (Bool-cases (
        not (s.request.checksum == "")
        && not (verify_checksum os digest s.temp_path s.request.checksum k.files))) [
          | inl bad ↦
              rw (bad, complete_transfer)
                (cleaned removes s (call_audit os (progressed s.id s.request.session_id failed) k)
                  named)
          | inr good ↦
              rw (good, complete_transfer)
                (cleaned removes s
                  (send_both os s (transfer_completed s.id)
                    (call_audit os (progressed s.id s.request.session_id completed) k))
                  named)
        ]

  -- The answer to a transfer does not look at its status: if the file can be created, an approving
  -- one makes any transfer that is stored under its identifier take chunks, into the file created.
  approval_restarts :
      (path_of : String → String → String → String) (c : Conn) (r : FileTransferResponse)
      (h : TransferHandler os) (s : TransferSession os) (f : os.Handle) (fs : os.Files)
      → lookup r.transfer_id h.active_sessions ≡ some s
      → s.id ≡ r.transfer_id
      → r.is_approved ≡ true
      → os.create (path_of h.temp_dir r.transfer_id s.request.filename) h.files ≡ some (f, fs)
      → lookup r.transfer_id (handle_transfer_response os path_of c r h).active_sessions
        ≡ some (record s {
          status = approved;
          client_conn = some c;
          file = some f;
          temp_path = path_of h.temp_dir r.transfer_id s.request.filename;
        })
  unfolding handle_transfer_response approve_transfer
  approval_restarts path_of c r h s f fs found key agreed made =
      let path = path_of h.temp_dir r.transfer_id s.request.filename in
      let t = record s {
        status = approved;
        client_conn = some c;
        file = some f;
        temp_path = path;
      } in
      rw (found, agreed, made, handle_transfer_response, approve_transfer)
        (send_to-lookup r.transfer_id s.portal_conn
          (response_notice r.transfer_id approved r.is_approved r.message) _
          (lookup-insert s.id r.transfer_id t h.active_sessions
            ∙ rw (key, eq_refl r.transfer_id) refl))

  -- A message changes nothing if, when its header decodes to a chunk of a stored transfer, that
  -- transfer does not take chunks.
  pub idle_chunk_ignored :
      (header : Bytes → Option FileChunk) (digest : Bytes → String) (m : Slice)
      (h : TransferHandler os)
      → ((c : FileChunk) (s : TransferSession os)
          → header (take header_size (m.bytes ++ m.spare)) ≡ some c
          → lookup c.id h.active_sessions ≡ some s
          → takes_chunks os s.status ≡ false)
      → (handle_file_chunk os header digest m h).handler ≡ h
  unfolding handle_file_chunk take_chunk
  idle_chunk_ignored header digest m h idle =
      elim (Bool-cases (ltb (length m.bytes + length m.spare) header_size)) [
        | inl short ↦ rw (short, handle_file_chunk) refl
        | inr enough ↦ elim (Option-cases (header (take header_size (m.bytes ++ m.spare)))) [
          | inl bad ↦ rw (enough, bad, handle_file_chunk) refl
          | inr (c, read) ↦ elim (Option-cases (lookup c.id h.active_sessions)) [
            | inl gone ↦ rw (enough, read, gone, handle_file_chunk) refl
            | inr (s, found) ↦
                rw (enough, read, found, handle_file_chunk, take_chunk)
                  (rw (idle c s read found) refl)
          ]
        ]
      ]

  paused_session :
      (k : String) (h : TransferHandler os) (s : TransferSession os)
      → lookup k h.active_sessions ≡ some s
      → s.id ≡ k
      → s.status ≡ in_progress
      → lookup k
          (handle_transfer_control os (record { id = k; action = "pause" }) h).active_sessions
        ≡ some (record s { status = paused })
  unfolding handle_transfer_control apply_action
  paused_session k h s found key now =
      rw (found, now, handle_transfer_control)
        (ap (lookup k) (send_both-active_sessions (record s { status = paused }) _ _)
          ∙ lookup-insert s.id k (record s { status = paused }) h.active_sessions
          ∙ rw (key, eq_refl k) refl)

  resumed_session :
      (k : String) (h : TransferHandler os) (s : TransferSession os)
      → lookup k h.active_sessions ≡ some s
      → s.id ≡ k
      → s.status ≡ paused
      → lookup k
          (handle_transfer_control os (record { id = k; action = "resume" }) h).active_sessions
        ≡ some (record s { status = in_progress })
  unfolding handle_transfer_control apply_action
  resumed_session k h s found key now =
      rw (found, now, handle_transfer_control)
        (ap (lookup k) (send_both-active_sessions (record s { status = in_progress }) _ _)
          ∙ lookup-insert s.id k (record s { status = in_progress }) h.active_sessions
          ∙ rw (key, eq_refl k) refl)

  cancelled_session :
      (k : String) (h : TransferHandler os) (s : TransferSession os)
      → lookup k h.active_sessions ≡ some s
      → s.id ≡ k
      → lookup k
          (handle_transfer_control os (record { id = k; action = "cancel" }) h).active_sessions
        ≡ none
  unfolding handle_transfer_control apply_action
  cancelled_session k h s found key =
      rw (found, handle_transfer_control)
        (ap (lookup k) (send_both-active_sessions (record s { status = cancelled }) _ _)
          ∙ lookup-delete s.id k h.active_sessions
          ∙ rw (key, eq_refl k) refl)

  -- A pause and a resume of a transfer in progress, stored under its identifier, leave it stored as it
  -- was, and after the pause alone it is stored as paused; a cancellation
  -- instead of the resume takes it out.
  pub resume-pause :
      (k : String) (h : TransferHandler os) (s : TransferSession os)
      → lookup k h.active_sessions ≡ some s
      → s.id ≡ k
      → s.status ≡ in_progress
      → let paused_h = handle_transfer_control os (record { id = k; action = "pause" }) h in
        (lookup k paused_h.active_sessions ≡ some (record s { status = paused }))
        × (lookup k
              (handle_transfer_control os
                (record { id = k; action = "resume" })
                paused_h).active_sessions
            ≡ some s)
        × (lookup k
              (handle_transfer_control os
                (record { id = k; action = "cancel" })
                paused_h).active_sessions
            ≡ none)
  resume-pause k h s found key now =
      let first = paused_session k h s found key now in
      let paused_h = handle_transfer_control os (record { id = k; action = "pause" }) h in
      let p = record s { status = paused } in
      (
        first,
        resumed_session k paused_h p first key refl
            ∙ ap (λ x. some (record s { status = x })) (sym now),
        cancelled_session k paused_h p first key,
      )
