-- ===== src/Server/Process/Keeps.antt =====
-- src/server/cmd/main.go: what holds of the handler of transfers through every event of the server.
use onli_desk_full.Common.{
  ◌≡◌, ℤ, pos, leb_ℤ, ◌||◌, some, List, [], ◌∷◌, inl, inr, Bool-cases, some_inj,
}
use onli_desk_full.FileTransfer.Handler.{FileSystem}
use onli_desk_full.FileTransfer.Manager.{TransferConfig, perform_cleanup, default_transfer_config}
use onli_desk_full.FileTransfer.WebSocket.{WebSocketHandler, with_manager}
use onli_desk_full.FileTransfer.WebSocket.Keeps.{Kept}
use onli_desk_full.FileTransfer.WebSocket.Rounds.{receive-Kept}
use onli_desk_full.RemoteAccess.Config.Defaults.{default_config}
use onli_desk_full.Server.Config.{ServerConfig, or_else}
use onli_desk_full.Server.Process.{
  Outside, Event, transfer_round, remote_round, remote_request, rest_request, transfer_cleanup,
  session_cleanup, remote_cleanup, started, OnlideskServer, new_onlidesk_server, serve_event,
  serve_events,
}
use onli_desk_full.Server.Rest.Keeps.{rest-Kept}

module _ (os : FileSystem) where
  pub started_of :
      (c : ServerConfig) (files : os.Files) (s : OnlideskServer os)
      → new_onlidesk_server os c files ≡ some s
      → started os c files ≡ s
  unfolding new_onlidesk_server
  started_of c files s made =
      elim (Bool-cases (
        leb_ℤ (or_else default_transfer_config c.transfer_config).cleanup_interval (pos 0)
        || leb_ℤ (or_else default_config c.remote_access_config).cleanup_interval (pos 0))) [
          | inl y ↦ cc (rw (y, new_onlidesk_server) at made)
          | inr n ↦ some_inj (rw (n, new_onlidesk_server) at made)
        ]

  module _ (o : Outside) where
    -- A property that WebSocket messages keep, a new configuration and the cleanup too.
    module _ (P : WebSocketHandler os → Type 0) (k : Kept os P)
        (u : (c : TransferConfig) (h : WebSocketHandler os)
          → P h
          → P (with_manager os (record h.session_manager { config = c }) h))
        (v : (now : ℤ) (h : WebSocketHandler os)
          → P h
          → P (with_manager os (perform_cleanup os now h.session_manager) h)) where
      serve_event-Kept :
          (s : OnlideskServer os) (e : Event)
          → P s.file_transfer_handler
          → P (serve_event os o s e).file_transfer_handler
      unfolding serve_event
      serve_event-Kept s (transfer_round conn e) a =
          receive-Kept os P k o.seeks o.writes o.transfer_decoders o.transfer_up o.path_of conn e
            s.file_transfer_handler a
      serve_event-Kept s (rest_request now current r) a =
          rest-Kept os P k o.path_of now current r s.file_transfer_handler u a
      serve_event-Kept s (transfer_cleanup now) a = v now s.file_transfer_handler a
      serve_event-Kept s (remote_round conn e) a = a
      serve_event-Kept s (remote_request fresh now r) a = a
      serve_event-Kept s (session_cleanup now) a = a
      serve_event-Kept s (remote_cleanup now) a = a

      pub serve_events-Kept :
          (s : OnlideskServer os) (es : List Event)
          → P s.file_transfer_handler
          → P (serve_events os o s es).file_transfer_handler
      unfolding serve_events
      serve_events-Kept s [] a = a
      serve_events-Kept s (e ∷ es) a =
          serve_events-Kept (serve_event os o s e) es (serve_event-Kept s e a)
