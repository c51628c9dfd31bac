-- ===== src/Server/Unserved.antt =====
-- src/server/cmd/main.go: which transfers have a file to download, and what a new configuration changes.
use onli_desk_full.Common.{
  ◌≡◌, ◌≢◌, refl, ℤ, String, ◌==◌, false, not, none, some, List, [], ◌∷◌, inl, inr, Option-cases,
  Bool-cases, some_inj, arith,
}
use onli_desk_full.Common.Map.{Map, lookup}
use onli_desk_full.FileTransfer.Handler.{FileSystem, TransferSession, paused, in_progress}
use onli_desk_full.FileTransfer.Manager.{
  new_transfer_manager, TransferConfig, is_completed, pause_transfer, resume_transfer,
  perform_cleanup, should_cleanup, pause_stream, resume_stream,
}
use onli_desk_full.FileTransfer.WebSocket.{WebSocketHandler, with_manager, new_web_socket_handler}
use onli_desk_full.FileTransfer.WebSocket.Keeps.{Kept}
use onli_desk_full.Server.Config.{ServerConfig}
use onli_desk_full.Server.Rest.{served, handle_file_download}
use onli_desk_full.Server.Process.{
  Outside, Event, started, OnlideskServer, new_onlidesk_server, serve_events,
}
use mathlib.Core.Path.{subst}
use onli_desk_full.Server.Process.Keeps.{started_of, serve_events-Kept}
use onli_desk_full.FileTransfer.Manager.Unfinished.{
  Unfinished, keep_values-Unfinished, create-Unfinished, approve-Unfinished, signal-Unfinished,
  cancel-Unfinished,
}

module _ (os : FileSystem) where
  -- No transfer of the handler is completed.
  AllUnfinished : WebSocketHandler os → Type 0
  AllUnfinished h = Unfinished os h.session_manager.sessions

  AllUnfinished-Kept : Kept os AllUnfinished
  unfolding AllUnfinished pause_transfer resume_transfer
  AllUnfinished-Kept = record {
    sends = λ conn r h o a. a;
    logs = λ e h a. a;
    connects = λ cs h a. a;
    stores = λ w h a. a;
    creates =
        λ fresh now r client h a. create-Unfinished os fresh now r client none h.session_manager a;
    approves = λ path_of id b h a. approve-Unfinished os path_of id b h.session_manager a;
    pauses = λ id h a. signal-Unfinished os pause_stream paused id h.session_manager refl a;
    resumes = λ id h a. signal-Unfinished os resume_stream in_progress id h.session_manager refl a;
    cancels = λ id h a. cancel-Unfinished os id h.session_manager a;
    works = λ change h a. a;
  }

  lookup-Unfinished :
      (id : String) (ss : Map (TransferSession os)) (t : TransferSession os)
      → Unfinished os ss
      → lookup id ss ≡ some t
      → is_completed t.status ≡ false
  unfolding lookup
  lookup-Unfinished id [] t a e = absurd (ground arith)
  lookup-Unfinished id ((k, s) ∷ ss) t a e = elim (Bool-cases (k == id)) [
    | inl y ↦ rw (← some_inj (rw (y, lookup) at e)) a.0
    | inr n ↦ lookup-Unfinished id ss t a.1 (rw (n, lookup) at e)
  ]

  download-AllUnfinished :
      (id name path : String) (h : WebSocketHandler os)
      → AllUnfinished h
      → handle_file_download os id h ≢ served name path
  unfolding handle_file_download AllUnfinished
  download-AllUnfinished id name path h a =
      elim (Option-cases (lookup id h.session_manager.sessions)) [
        | inl e ↦ rw (e, handle_file_download) (λ x. cc x)
        | inr (t, e) ↦
            rw (e, handle_file_download)
              (rw (lookup-Unfinished id h.session_manager.sessions t a e) (λ x. cc x))
      ]

  cleanup-AllUnfinished :
      (now : ℤ) (h : WebSocketHandler os)
      → AllUnfinished h
      → AllUnfinished (with_manager os (perform_cleanup os now h.session_manager) h)
  unfolding AllUnfinished perform_cleanup
  cleanup-AllUnfinished now h a =
      keep_values-Unfinished os (λ s. not (should_cleanup os now s)) h.session_manager.sessions a

  config-AllUnfinished :
      (c : TransferConfig) (h : WebSocketHandler os)
      → AllUnfinished h
      → AllUnfinished (with_manager os (record h.session_manager { config = c }) h)
  unfolding AllUnfinished
  config-AllUnfinished c h a = a

  started-AllUnfinished :
      (c : ServerConfig) (files : os.Files)
      → AllUnfinished (started os c files).file_transfer_handler
  unfolding AllUnfinished started new_web_socket_handler new_transfer_manager
  started-AllUnfinished c files = tt

  module _ (o : Outside) where
    -- The file of a transfer is never served: after any events of a new server, a request to
    -- download the file of a transfer is refused, whichever it is, since no message, request or
    -- cleanup completes a transfer.
    pub download_refused :
        (c : ServerConfig) (files : os.Files) (s : OnlideskServer os)
        → new_onlidesk_server os c files ≡ some s
        → (es : List Event) (id name path : String)
        → handle_file_download os id (serve_events os o s es).file_transfer_handler
          ≢ served name path
    download_refused c files s made es id name path = download-AllUnfinished id name path _ (
        serve_events-Kept os o AllUnfinished AllUnfinished-Kept config-AllUnfinished
          cleanup-AllUnfinished s es
          (subst (λ t. AllUnfinished t.file_transfer_handler) (started_of os c files s made)
            (started-AllUnfinished c files)))
