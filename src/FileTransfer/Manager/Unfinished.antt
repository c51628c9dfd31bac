-- ===== src/FileTransfer/Manager/Unfinished.antt =====
-- transfer_session.go: the methods that WebSocket messages and REST requests call do not complete a
-- transfer.
use onli_desk_full.Common.{
  ◌≡◌, refl, ℤ, pos, leb_ℤ, ltb_ℤ, String, ◌==◌, Bool, false, Option, [], ◌∷◌, length, All, inl,
  inr, Option-cases, Bool-cases, arith,
}
use onli_desk_full.Common.Map.{Map, lookup, insert, delete}
use onli_desk_full.FileTransfer.Handler.{
  FileSystem, TransferStatus, TransferSession, FileTransferRequest, Conn,
}
use onli_desk_full.FileTransfer.Manager.{
  TransferManager, is_completed, FileStream, keep_values, create_transfer_session, approve_transfer,
  start_transfer, cancel_transfer, signal, is_type_allowed, is_pending, release, new_file_stream,
}

module _ (os : FileSystem) where
  -- No transfer of the map is completed.
  abbrev pub Unfinished : Map (TransferSession os) → Type 0
  Unfinished ss = All (λ e. is_completed e.1.status ≡ false) ss

  insert-Unfinished :
      (id : String) (t : TransferSession os) (ss : Map (TransferSession os))
      → is_completed t.status ≡ false
      → Unfinished ss
      → Unfinished (insert id t ss)
  unfolding insert
  insert-Unfinished id t [] h a = (h, tt)
  insert-Unfinished id t ((k, s) ∷ ss) h a = elim (Bool-cases (k == id)) [
    | inl y ↦ rw y (h, a.1)
    | inr n ↦ rw n (a.0, insert-Unfinished id t ss h a.1)
  ]

  delete-Unfinished :
      (id : String) (ss : Map (TransferSession os)) → Unfinished ss → Unfinished (delete id ss)
  unfolding delete
  delete-Unfinished id [] a = tt
  delete-Unfinished id ((k, s) ∷ ss) a = elim (Bool-cases (k == id)) [
    | inl y ↦ rw y (delete-Unfinished id ss a.1)
    | inr n ↦ rw n (a.0, delete-Unfinished id ss a.1)
  ]

  pub keep_values-Unfinished :
      (p : TransferSession os → Bool) (ss : Map (TransferSession os))
      → Unfinished ss
      → Unfinished (keep_values p ss)
  keep_values-Unfinished p [] a = tt
  keep_values-Unfinished p ((k, s) ∷ ss) a = elim (Bool-cases (p s)) [
    | inl y ↦ rw y (a.0, keep_values-Unfinished p ss a.1)
    | inr n ↦ rw n (keep_values-Unfinished p ss a.1)
  ]

  pub create-Unfinished :
      (fresh : String) (now : ℤ) (r : FileTransferRequest) (client portal : Option Conn)
      (m : TransferManager os)
      → Unfinished m.sessions
      → Unfinished (create_transfer_session os fresh now r client portal m).0.sessions
  unfolding create_transfer_session
  create-Unfinished fresh now r client portal m a =
      elim (Bool-cases (leb_ℤ m.config.max_concurrent (pos (length m.sessions)))) [
        | inl y ↦ rw (y, create_transfer_session) a
        | inr n ↦ elim (Bool-cases (ltb_ℤ m.config.max_file_size r.file_size)) [
          | inl y ↦ rw (n, create_transfer_session) (rw y a)
          | inr o ↦ elim (Bool-cases (is_type_allowed m.config.allowed_types r.filename)) [
            | inl y ↦
                rw (n, create_transfer_session)
                  (rw o (rw y (insert-Unfinished _ _ m.sessions refl a)))
            | inr q ↦ rw (n, create_transfer_session) (rw o (rw q a))
          ]
        ]
      ]

  start-Unfinished :
      (path_of : String → String → String → String) (id : String) (s : TransferSession os)
      (m : TransferManager os)
      → Unfinished m.sessions
      → Unfinished (start_transfer os path_of id s m).0.sessions
  unfolding start_transfer
  start-Unfinished path_of id s m a =
      let path = path_of m.config.temp_dir id s.request.filename in
      elim (Option-cases
        (new_file_stream os id path (s.request.kind == "upload") s.client_conn m.files)) [
          | inl e ↦ rw (e, start_transfer) (insert-Unfinished id _ m.sessions refl a)
          | inr (f, e) ↦ rw (e, start_transfer) (insert-Unfinished id _ m.sessions refl a)
        ]

  pub approve-Unfinished :
      (path_of : String → String → String → String) (id : String) (b : Bool)
      (m : TransferManager os)
      → Unfinished m.sessions
      → Unfinished (approve_transfer os path_of id b m).0.sessions
  unfolding approve_transfer
  approve-Unfinished path_of id b m a = elim (Option-cases (lookup id m.sessions)) [
    | inl e ↦ rw (e, approve_transfer) a
    | inr (s, e) ↦ elim (Bool-cases (is_pending s.status)) [
      | inr n ↦ rw (e, approve_transfer) (rw n a)
      | inl y ↦ elim (Bool-cases b) [
        | inr n ↦ rw (e, approve_transfer) (rw y (rw n (insert-Unfinished id _ m.sessions refl a)))
        | inl d ↦ rw (e, approve_transfer) (rw y (rw d (start-Unfinished path_of id s m a)))
      ]
    ]
  ]

  pub signal-Unfinished :
      (f : FileStream → FileStream) (x : TransferStatus) (id : String) (m : TransferManager os)
      → is_completed x ≡ false
      → Unfinished m.sessions
      → Unfinished (signal os f x id m).0.sessions
  signal-Unfinished f x id m h a = elim (Option-cases (lookup id m.file_streams)) [
    | inl e ↦ rw (e, signal) a
    | inr (t, e) ↦ elim (Option-cases (lookup id m.sessions)) [
      | inl d ↦ rw (e, signal) (rw d a)
      | inr (s, d) ↦ rw (e, signal) (rw d (insert-Unfinished id _ m.sessions h a))
    ]
  ]

  release-sessions :
      (id : String) (m : TransferManager os) → (release os id m).sessions ≡ m.sessions
  release-sessions id m = ground arith

  pub cancel-Unfinished :
      (id : String) (m : TransferManager os)
      → Unfinished m.sessions
      → Unfinished (cancel_transfer os id m).0.sessions
  unfolding cancel_transfer
  cancel-Unfinished id m a = elim (Option-cases (lookup id m.sessions)) [
    | inl e ↦ rw (e, cancel_transfer) (rw (release-sessions id m) a)
    | inr (s, e) ↦
        rw (e, cancel_transfer) (rw (release-sessions id m) (delete-Unfinished id m.sessions a))
  ]
