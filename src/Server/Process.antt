-- ===== src/Server/Process.antt =====
-- src/server/cmd/main.go: the server that runs: what `NewOnlideskServer` makes, what its routes do to
-- it, and `Stop`. What the process takes from outside is a record. A handler that waits for ever is
-- not seen by the others: what it keeps from them only leaves steps out.
pub mod Keeps
use onli_desk_full.Common.{
  ℤ, pos, leb_ℤ, String, Bool, ◌||◌, Option, none, some, List, [], ◌∷◌, if◌then◌else◌,
}
use onli_desk_full.FileTransfer.Chunks.{Bytes}
use onli_desk_full.FileTransfer.Handler.{FileSystem, Conn as TransferConn}
use onli_desk_full.FileTransfer.Manager.{default_transfer_config, perform_cleanup}
use onli_desk_full.FileTransfer.WebSocket.{
  WebSocketHandler as TransferHandler, Decoders as TransferDecoders, Reply as TransferReply,
  new_web_socket_handler as new_transfer_handler, shut_down as shut_transfers_down,
}
use onli_desk_full.FileTransfer.WebSocket.Dispatch.{
  Event as TransferEvent, receive as receive_transfer,
}
use onli_desk_full.RemoteAccess.Config.Defaults.{default_config}
use onli_desk_full.RemoteAccess.Session.{Conn}
use onli_desk_full.RemoteAccess.Manager.{Manager, new_manager}
use onli_desk_full.RemoteAccess.Manager.Upkeep.{cleanup_expired_sessions, shutdown}
use onli_desk_full.RemoteAccess.WebSocket.{
  WebSocketHandler as RemoteHandler, new_web_socket_handler as new_remote_handler,
  shut_down as shut_remote_down,
}
use onli_desk_full.RemoteAccess.WebSocket.Messages.{Decoders, Response}
use onli_desk_full.RemoteAccess.WebSocket.Dispatch.{Event as RemoteEvent, receive as receive_remote}
use onli_desk_full.RemoteAccess.Http.Routes.{Request as RemoteRequest, handle}
use onli_desk_full.Server.Config.{ServerConfig, or_else}
use onli_desk_full.Server.Rest.{Request, handle_rest}

-- The decoders of messages, what the connections take, the names of temporary files, what a file
-- takes, and the parsers of numbers and durations.
pub record Outside : Type 0 where
  pub transfer_decoders : TransferDecoders
  pub transfer_up : TransferConn → TransferReply → Bool
  pub path_of : String → String → String → String
  pub seeks : String → ℤ → Bool
  pub writes : String → ℤ → Bytes → Bool
  pub remote_decoders : Decoders
  pub remote_up : Conn → Response → Bool
  pub atoi : String → Option ℤ
  pub parse_duration : String → Option ℤ

-- One round of a WebSocket connection, an HTTP request or a tick of a cleanup.
pub data Event : Type 0 where
  transfer_round : TransferConn → TransferEvent → Event
  remote_round : Conn → RemoteEvent → Event
  remote_request : String → ℤ → RemoteRequest → Event
  rest_request : ℤ → (String → ℤ) → Request → Event
  transfer_cleanup session_cleanup remote_cleanup : ℤ → Event

module _ (os : FileSystem) where
  -- The HTTP handlers of remote access share `session_manager`; the WebSocket handlers of remote
  -- access have a manager of their own.
  pub record OnlideskServer : Type 0 where
    pub config : ServerConfig
    pub file_transfer_handler : TransferHandler os
    pub remote_access_handler : RemoteHandler
    pub session_manager : Manager

  unfoldable pub started : ServerConfig → os.Files → OnlideskServer
  unfolding new_transfer_handler new_remote_handler new_manager default_config
  started c files =
      let remote = or_else default_config c.remote_access_config in
      record {
        config = c;
        file_transfer_handler = new_transfer_handler os c.transfer_config files;
        remote_access_handler = new_remote_handler remote;
        session_manager = new_manager remote;
      }

  -- Two of the parts start a ticker, which panics if its interval is not positive: `none`.
  unfoldable pub new_onlidesk_server : ServerConfig → os.Files → Option OnlideskServer
  unfolding started default_transfer_config default_config
  new_onlidesk_server c files =
      if leb_ℤ (or_else default_transfer_config c.transfer_config).cleanup_interval (pos 0)
        || leb_ℤ (or_else default_config c.remote_access_config).cleanup_interval (pos 0)
      then none
      else some (started c files)

  module _ (o : Outside) where
    unfoldable pub serve_event : OnlideskServer → Event → OnlideskServer
    unfolding receive_transfer receive_remote handle handle_rest perform_cleanup
        cleanup_expired_sessions
    serve_event s (transfer_round conn e) = record s {
      file_transfer_handler =
          (receive_transfer os o.transfer_decoders o.transfer_up o.path_of o.seeks o.writes conn e
            s.file_transfer_handler).0;
    }
    serve_event s (remote_round conn e) = record s {
      remote_access_handler =
          (receive_remote o.remote_decoders o.remote_up conn e s.remote_access_handler).0;
    }
    serve_event s (remote_request fresh now r) = record s {
      session_manager = (handle o.atoi o.parse_duration fresh now r s.session_manager).0;
    }
    serve_event s (rest_request now current r) = record s {
      file_transfer_handler = (handle_rest os o.path_of now current r s.file_transfer_handler).0;
    }
    serve_event s (transfer_cleanup now) = record s {
      file_transfer_handler = record s.file_transfer_handler {
        session_manager = perform_cleanup os now s.file_transfer_handler.session_manager;
      };
    }
    serve_event s (session_cleanup now) = record s {
      session_manager = cleanup_expired_sessions now s.session_manager;
    }
    serve_event s (remote_cleanup now) = record s {
      remote_access_handler = record s.remote_access_handler {
        session_manager = cleanup_expired_sessions now s.remote_access_handler.session_manager;
      };
    }

    unfoldable pub serve_events : OnlideskServer → List Event → OnlideskServer
    unfolding serve_event
    serve_events s [] = s
    serve_events s (e ∷ es) = serve_events (serve_event s e) es

  -- `Stop`, before the HTTP server itself is shut down.
  unfoldable pub stop : ℤ → OnlideskServer → OnlideskServer
  unfolding shut_transfers_down shut_remote_down shutdown
  stop now s = record s {
    file_transfer_handler = shut_transfers_down os now s.file_transfer_handler;
    session_manager = shutdown now s.session_manager;
    remote_access_handler = shut_remote_down now s.remote_access_handler;
  }
