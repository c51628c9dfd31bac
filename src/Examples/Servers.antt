-- ===== src/Examples/Servers.antt =====
-- A server over the files of Examples/Handlers.antt: its configuration file, a session that a WebSocket
-- message creates, and a transfer.
use onli_desk_full.Common.{
  ◌≡◌, ◌≢◌, refl, pos, String, true, false, Option, none, some, List, [], ◌∷◌,
}
use onli_desk_full.FileTransfer.Chunks.{Bytes}
use onli_desk_full.FileTransfer.Manager.{TransferConfig, default_transfer_config}
use onli_desk_full.FileTransfer.WebSocket.{WebSocketHandler, answer_request}
use onli_desk_full.FileTransfer.WebSocket.Dispatch.{text_message as transfer_message}
use onli_desk_full.RemoteAccess.WebSocket.Dispatch.{text_message}
use onli_desk_full.RemoteAccess.Http.Replies.{session_not_found, problem, reply}
use onli_desk_full.RemoteAccess.Http.Routes.{get_session, handle}
use onli_desk_full.Server.Config.{
  ServerConfig, default_server_config, Found, missing, contents, loaded, load_config,
  save_default_config,
}
use onli_desk_full.Server.Loading.{without_key, load_config-save_default_config}
use onli_desk_full.Server.Rest.{
  decide, new_config, show_config, config_body, served, handle_file_download, handle_rest,
}
use onli_desk_full.Server.Process.{
  Outside, Event, transfer_round, remote_round, rest_request, transfer_cleanup, OnlideskServer,
  started, new_onlidesk_server, serve_events,
}
use onli_desk_full.Server.Separate.{websocket_sessions_unseen}
use onli_desk_full.Server.Unserved.{download_refused}
use onli_desk_full.Server.Approvals.{new_config-keeps_approvals}
use onli_desk_full.Examples.Handlers.{transfer, disk, path_of}
use onli_desk_full.Examples.Sockets.{decode, up, socket}
use onli_desk_full.Examples.Connections.{decoders, always, seeks, writes}

abbrev key : Bytes
key = 1 ∷ 2 ∷ []

abbrev fresh_key : Bytes
fresh_key = 3 ∷ 4 ∷ []

-- A codec of the default configuration, and the file that it was saved to.
abbrev marshal : ServerConfig → Option Bytes
marshal c = some (9 ∷ [])

abbrev unmarshal : Bytes → Option ServerConfig
unmarshal bytes = some (without_key (default_server_config key))

abbrev saved : String → Found
saved path = contents (9 ∷ [])

load_config-save_default_config_example :
    load_config unmarshal saved fresh_key "" ≡ loaded (default_server_config fresh_key)
unfolding save_default_config
load_config-save_default_config_example =
    load_config-save_default_config marshal unmarshal true true key fresh_key (λ bytes e. refl)
      missing saved "" refl refl

abbrev outside : Outside
outside = record {
  transfer_decoders = decoders;
  transfer_up = always;
  path_of = path_of;
  seeks = seeks;
  writes = writes;
  remote_decoders = decode;
  remote_up = up;
  atoi = λ text. none;
  parse_duration = λ text. none;
}

abbrev config : ServerConfig
config = default_server_config key

abbrev server : OnlideskServer disk
server = started disk config []

-- A session is created over a WebSocket, and a transfer is asked for and approved.
abbrev events : List Event
events =
    remote_round socket (text_message (pos 0) "s" (0 ∷ []))
    ∷ transfer_round 2 (transfer_message (pos 1) "u" (λ id. pos 0) [])
    ∷ rest_request (pos 2) (λ id. pos 0)
        (decide "t" (some (record { is_approved = true; message = "" })))
    ∷ transfer_cleanup (pos 3)
    ∷ []

server_starts : new_onlidesk_server disk config [] ≡ some server
unfolding new_onlidesk_server default_server_config
server_starts = refl

websocket_sessions_unseen_example :
    (handle outside.atoi outside.parse_duration ""
      (pos 9)
      (get_session "s")
      (serve_events disk outside server events).session_manager).1
    ≡ reply 404 (problem session_not_found)
websocket_sessions_unseen_example =
    websocket_sessions_unseen disk outside config [] server server_starts events
      (tt, (tt, (tt, (tt, tt)))) "" (pos 9) "s"

download_refused_example :
    handle_file_download disk "t" (serve_events disk outside server events).file_transfer_handler
    ≢ served "notes.txt" "./temp/transferstnotes.txt"
download_refused_example =
    download_refused disk outside config [] server server_starts events "t" "notes.txt"
      "./temp/transferstnotes.txt"

abbrev unapproved : TransferConfig
unapproved = record default_transfer_config { require_approval = false }

abbrev handler : WebSocketHandler disk
handler = (serve_events disk outside server events).file_transfer_handler

new_config-keeps_approvals_example :
    let k =
      (handle_rest disk path_of (pos 9) (λ id. pos 0) (new_config (some unapproved)) handler).0 in
    ((handle_rest disk path_of (pos 9) (λ id. pos 0) show_config k).1 ≡ config_body unapproved)
    × ((answer_request disk decoders always path_of 2 transfer k).0.session_manager
        ≡ k.session_manager)
unfolding default_server_config
new_config-keeps_approvals_example =
    new_config-keeps_approvals disk outside config [] server server_starts events unapproved (pos 9)
      (λ id. pos 0) 2 transfer
