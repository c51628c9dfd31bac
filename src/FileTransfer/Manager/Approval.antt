-- ===== src/FileTransfer/Manager/Approval.antt =====
-- transfer_session.go: `CreateTransferSession` on its branches, and an approval whose stream fails.
use onli_desk_full.Common.{
  ◌≡◌, ◌≢◌, ◌⊎◌, refl, inl, inr, ◌∙◌, ℤ, pos, ◌≤ℤ◌, ltb_ℤ, leb_ℤ, String, ◌==◌, Bool, true, Option,
  none, some, length, arith, eq_refl, Bool-cases,
}
use onli_desk_full.Common.Map.{
  Map, IsMap, lookup, insert, lookup-insert, insert-IsMap, length-insert-le,
}
use onli_desk_full.FileTransfer.Handler.{
  Conn, FileTransferRequest, FileSystem, pending, approved, TransferSession,
}
use onli_desk_full.FileTransfer.Manager.{
  TransferManager, store, signal, not_pending, stream_failed, stream_not_found, is_type_allowed,
  identified, created, create_transfer_session, new_file_stream, start_transfer, approve_transfer,
  pause_transfer, resume_transfer, should_cleanup, perform_cleanup,
}
use onli_desk_full.FileTransfer.Manager.Cleanup.{lookup-perform_cleanup}

module _ (os : FileSystem) where
  lookup_stored :
      (id : String) (t : TransferSession os) (ss : Map (TransferSession os))
      → lookup id (insert id t ss) ≡ some t
  lookup_stored id t ss = ground (arith, lookup-insert id id t ss, eq_refl id)

  -- A transfer is created without an error exactly when it passes the checks: then it is stored,
  -- pending, under its identifier, the number of transfers is within the limit, and its size is
  -- too. With an error nothing changes.
  create_transfer_session_cases :
      (fresh : String) (now : ℤ) (r : FileTransferRequest) (client portal : Option Conn)
      (m : TransferManager os)
      → let (k, e) = create_transfer_session os fresh now r client portal m in
        ((e ≡ none)
          × (lookup (identified os fresh r).id k.sessions
              ≡ some (created os now (identified os fresh r) client portal))
          × (pos (length k.sessions) ≤ℤ m.config.max_concurrent)
          × (r.file_size ≤ℤ m.config.max_file_size))
        ⊎ ((e ≢ none) × (k ≡ m))
  unfolding create_transfer_session
  create_transfer_session_cases fresh now r client portal m =
      elim (Bool-cases (leb_ℤ m.config.max_concurrent (pos (length m.sessions)))) [
        | inl full ↦ rw (full, create_transfer_session) (inr (λ e. cc, refl))
        | inr room ↦ elim (Bool-cases (ltb_ℤ m.config.max_file_size r.file_size)) [
          | inl big ↦ rw (room, big, create_transfer_session) (inr (λ e. cc, refl))
          | inr fits ↦ elim (Bool-cases (is_type_allowed m.config.allowed_types r.filename)) [
            | inl good ↦
                let q = identified os fresh r in
                let t = created os now q client portal in
                rw (room, fits, good, create_transfer_session)
                  (inl (
                    refl,
                    lookup_stored q.id t m.sessions,
                    ground (arith, length-insert-le q.id t m.sessions),
                    ground arith,
                  ))
            | inr bad ↦ rw (room, fits, bad, create_transfer_session) (inr (λ e. cc, refl))
          ]
        ]
      ]

  failed_approval :
      (path_of : String → String → String → String) (id : String) (m : TransferManager os)
      (s : TransferSession os)
      → lookup id m.sessions ≡ some s
      → s.status ≡ pending
      → new_file_stream os id
          (path_of m.config.temp_dir id s.request.filename)
          (s.request.kind == "upload")
          s.client_conn
          m.files
        ≡ none
      → approve_transfer os path_of id true m ≡ (
        store os id
            (record s {
              status = approved;
              temp_path = path_of m.config.temp_dir id s.request.filename;
            })
            m,
        some stream_failed,
      )
  unfolding approve_transfer start_transfer
  failed_approval path_of id m s found waits fails =
      rw (found, waits, approve_transfer) (rw (fails, start_transfer) refl)

  -- A stored transfer that is approved and has no stream.
  approved_sticks :
      (path_of : String → String → String → String) (id : String) (k : TransferManager os)
      (t : TransferSession os)
      → IsMap k.sessions
      → lookup id k.sessions ≡ some t
      → t.status ≡ approved
      → lookup id k.file_streams ≡ none
      → ((again : Bool) → approve_transfer os path_of id again k ≡ (k, some not_pending))
        × (pause_transfer os id k ≡ (k, some stream_not_found))
        × (resume_transfer os id k ≡ (k, some stream_not_found))
        × ((now : ℤ) → lookup id (perform_cleanup os now k).sessions ≡ some t)
  unfolding approve_transfer pause_transfer resume_transfer should_cleanup
  approved_sticks path_of id k t d found waits none_yet = (
    λ again. rw (found, waits, approve_transfer) refl,
    rw (none_yet, pause_transfer, signal) refl,
    rw (none_yet, resume_transfer, signal) refl,
    λ now. lookup-perform_cleanup os now k d id ∙ rw (found, waits) refl,
  )

  -- In a map where each key stands once, if a pending transfer has no stream and its stream cannot be
  -- opened, then the approval returns an error, but
  -- the transfer is approved for good: no second answer is taken, it cannot be paused or resumed, and
  -- no cleanup removes it.
  pub failed_approval_sticks :
      (path_of : String → String → String → String) (id : String) (m : TransferManager os)
      (s : TransferSession os)
      → IsMap m.sessions
      → lookup id m.sessions ≡ some s
      → s.status ≡ pending
      → lookup id m.file_streams ≡ none
      → new_file_stream os id
          (path_of m.config.temp_dir id s.request.filename)
          (s.request.kind == "upload")
          s.client_conn
          m.files
        ≡ none
      → let (k, e) = approve_transfer os path_of id true m in
        let t : TransferSession os = record s {
          status = approved;
          temp_path = path_of m.config.temp_dir id s.request.filename;
        } in
        (e ≡ some stream_failed)
        × (lookup id k.sessions ≡ some t)
        × ((again : Bool) → approve_transfer os path_of id again k ≡ (k, some not_pending))
        × (pause_transfer os id k ≡ (k, some stream_not_found))
        × (resume_transfer os id k ≡ (k, some stream_not_found))
        × ((now : ℤ) → lookup id (perform_cleanup os now k).sessions ≡ some t)
  failed_approval_sticks path_of id m s d found waits none_yet fails =
      let t : TransferSession os = record s {
        status = approved;
        temp_path = path_of m.config.temp_dir id s.request.filename;
      } in
      let there = lookup_stored id t m.sessions in
      let (refusals, pauses, resumes, cleanups) =
        approved_sticks path_of id (store os id t m) t (insert-IsMap id t m.sessions d) there refl
          none_yet in
      rw (failed_approval path_of id m s found waits fails)
        (refl, there, refusals, pauses, resumes, cleanups)
