-- ===== src/FileTransfer/Handler/Approval.antt =====
-- transfer_handler.go: stored transfers after any sequence of messages, against the answers in the
-- calls of the audit logger and the files of the transfers.
use onli_desk_full.Common.{
  ◌≡◌, inl, inr, ℤ, String, ◌==◌, true, some, List, [], ◌∷◌, arith, Option-cases, is_some,
}
use onli_desk_full.Common.Map.{lookup}
use onli_desk_full.FileTransfer.Chunks.{Bytes}
use onli_desk_full.FileTransfer.Handler.{
  Json, Conn, FileSystem, TransferSession, TransferHandler, new_transfer_handler,
}
use onli_desk_full.FileTransfer.Handler.Receive.{handle_file_chunk}
use onli_desk_full.FileTransfer.Handler.Control.{
  Event, text, binary, handle_control_message, step, run,
}
use onli_desk_full.FileTransfer.Handler.Sound.{
  EverySound, has_started, is_open, was_approved, either,
}
use onli_desk_full.FileTransfer.Handler.Sound.Messages.{opened-EverySound, answered-EverySound}
use onli_desk_full.FileTransfer.Handler.Sound.Actions.{control-EverySound, reported-EverySound}
use onli_desk_full.FileTransfer.Handler.Sound.Chunks.{chunk-EverySound}

module _ (os : FileSystem) where
  message-EverySound :
      (json : Json) (path_of : String → String → String → String) (now : ℤ) (c : Conn)
      (message : Bytes) (h : TransferHandler os)
      → EverySound os h
      → EverySound os (handle_control_message os json path_of now c message h)
  unfolding handle_control_message
  message-EverySound json path_of now c message h d = elim (Option-cases (json.type_of message)) [
    | inl bad ↦ rw (bad, handle_control_message) d
    | inr (type, good) ↦
        rw (good, handle_control_message)
          (either os (type == "transfer_request")
            (λ yes. elim (Option-cases (json.request message)) [
              | inl bad ↦ rw bad d
              | inr (r, read) ↦ rw read (opened-EverySound os now c r h d)
            ])
            (λ no.
              either os (type == "transfer_response")
                (λ yes. elim (Option-cases (json.response message)) [
                  | inl bad ↦ rw bad d
                  | inr (r, read) ↦ rw read (answered-EverySound os path_of c r h d)
                ])
                (λ no.
                  either os (type == "transfer_control")
                    (λ yes. elim (Option-cases (json.control message)) [
                      | inl bad ↦ rw bad d
                      | inr (r, read) ↦ rw read (control-EverySound os r h d)
                    ])
                    (λ no.
                      either os (type == "progress_request")
                        (λ yes. elim (Option-cases (json.progress_id message)) [
                          | inl bad ↦ rw bad d
                          | inr (id, read) ↦ rw read (reported-EverySound os c id h d)
                        ])
                        (λ no. d)))))
  ]

  pub run_new-EverySound :
      (json : Json) (digest : Bytes → String) (path_of : String → String → String → String)
      (h : TransferHandler os) (es : List (Event os))
      → EverySound os h
      → EverySound os (run os json digest path_of h es)
  unfolding run step
  run_new-EverySound json digest path_of h [] d = d
  run_new-EverySound json digest path_of h (text now c m ∷ es) d =
      run_new-EverySound json digest path_of (handle_control_message os json path_of now c m h) es
        (message-EverySound json path_of now c m h d)
  run_new-EverySound json digest path_of h (binary m ∷ es) d =
      run_new-EverySound json digest path_of (handle_file_chunk os json.header digest m h).handler
        es (chunk-EverySound os json.header digest m h d)

  new-EverySound :
      (max : ℤ) (types : List String) (dir : String) (files : os.Files)
      → EverySound os (new_transfer_handler os max types dir files)
  unfolding new_transfer_handler lookup
  new-EverySound max types dir files = record { every = λ k s found. absurd (ground arith) }

  -- After any sequence of messages to a new handler, a stored transfer that takes chunks, is paused,
  -- or has taken a chunk stands under its own identifier, and the handler has called
  -- the audit logger with an approving answer for it.
  pub started_was_approved :
      (json : Json) (digest : Bytes → String) (path_of : String → String → String → String)
      (max : ℤ) (types : List String) (dir : String) (files : os.Files) (es : List (Event os))
      (k : String) (s : TransferSession os)
      → let h = run os json digest path_of (new_transfer_handler os max types dir files) es in
        lookup k h.active_sessions ≡ some s
        → has_started os s ≡ true
        → (s.id ≡ k) × (was_approved k h.audit_calls ≡ true)
  started_was_approved json digest path_of max types dir files es k s found started =
      let new = new_transfer_handler os max types dir files in
      let i =
        (run_new-EverySound json digest path_of new es (new-EverySound max types dir files)).every k
          s found in
      (i.keyed, i.granted started)

  -- After any sequence of messages to a new handler, a stored transfer that takes chunks or is paused
  -- has a file to write them to.
  pub open_has_file :
      (json : Json) (digest : Bytes → String) (path_of : String → String → String → String)
      (max : ℤ) (types : List String) (dir : String) (files : os.Files) (es : List (Event os))
      (k : String) (s : TransferSession os)
      → let h = run os json digest path_of (new_transfer_handler os max types dir files) es in
        lookup k h.active_sessions ≡ some s → is_open os s ≡ true → is_some s.file ≡ true
  open_has_file json digest path_of max types dir files es k s found =
      let new = new_transfer_handler os max types dir files in
      ((run_new-EverySound json digest path_of new es (new-EverySound max types dir files)).every k
        s found).has_file
