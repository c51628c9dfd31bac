-- ===== src/FileTransfer/WebSocket/Dispatch.antt =====
-- websocket_handler.go: `handleTextMessage` and the loop of a connection, `HandleWebSocket`.
use onli_desk_full.Common.{
  ℤ, String, ◌==◌, Bool, true, false, none, some, List, [], ◌∷◌, if◌then◌else◌,
}
use onli_desk_full.FileTransfer.Chunks.{Bytes}
use onli_desk_full.FileTransfer.Handler.{Conn, FileSystem}
use onli_desk_full.FileTransfer.WebSocket.{
  WebSocketHandler, Decoders, Handled, done, erred, blocked, Reply, error_response, pong,
  not_parsed, unknown_message_type, websocket_connected, websocket_disconnected, security_violation,
  logging, send_json, handle_file_transfer_request, handle_transfer_approval,
  handle_transfer_control, handle_progress_request, handle_session_register,
}
use onli_desk_full.FileTransfer.WebSocket.Chunks.{handle_binary_message}
use onli_desk_full.FileTransfer.Manager.{FileStream}
use onli_desk_full.Common.Map.{Map}

-- What a round of the loop reads: the message, with the clock, a fresh identifier and the progress of
-- the workers when it is handled; or, between two rounds, what the workers make of the streams. A
-- ping ends the loop if the pong cannot be written, which it says.
pub data Event : Type 0 where
  text_message : ℤ → String → (String → ℤ) → Bytes → Event
  binary_message : Bytes → Event
  ping_message : Bool → Event
  workers : (Map FileStream → Map FileStream) → Event

module _ (os : FileSystem) (decode : Decoders) (up : Conn → Reply → Bool)
    (path_of : String → String → String → String) where
  unfoldable pub dispatch :
      String
      → ℤ
      → String
      → (String → ℤ)
      → Conn
      → Bytes
      → WebSocketHandler os
      → WebSocketHandler os × Handled
  unfolding send_json
  dispatch type now fresh current conn message h =
      if type == "file_transfer_request"
      then handle_file_transfer_request os decode up path_of fresh now conn message h
      else if type == "transfer_approval"
      then handle_transfer_approval os decode up path_of conn message h
      else if type == "transfer_control"
      then handle_transfer_control os decode up conn message h
      else if type == "progress_request"
      then handle_progress_request os decode up current conn message h
      else if type == "session_register"
      then handle_session_register os decode up conn message h
      else if type == "ping"
      then send_json os up conn pong h
      else (h, erred (unknown_message_type type))

  unfoldable pub handle_text_message :
      ℤ → String → (String → ℤ) → Conn → Bytes → WebSocketHandler os → WebSocketHandler os × Handled
  unfolding dispatch
  handle_text_message now fresh current conn message h = elim (decode.base_type message) [
    | none ↦ (h, erred (not_parsed "message"))
    | some type ↦ dispatch type now fresh current conn message h
  ]

  -- An error is logged and sent back; the loop goes on unless the handler waits for ever.
  unfoldable pub after_message :
      String → Conn → WebSocketHandler os × Handled → WebSocketHandler os × Bool
  unfolding send_json
  after_message kind conn (h, done) = (h, true)
  after_message kind conn (h, blocked) = (h, false)
  after_message kind conn (h, erred f) = (
    (send_json os up conn (error_response kind f) (logging os (security_violation kind f) h)).0,
    true,
  )

  module _ (seeks : String → ℤ → Bool) (writes : String → ℤ → Bytes → Bool) where
    -- One round of the loop: the handler after it, and whether the loop goes on.
    unfoldable pub receive : Conn → Event → WebSocketHandler os → WebSocketHandler os × Bool
    unfolding handle_text_message handle_binary_message after_message
    receive conn (text_message now fresh current message) h =
        after_message "message_error" conn (handle_text_message now fresh current conn message h)
    receive conn (binary_message message) h =
        after_message "binary_error" conn
          (handle_binary_message os seeks writes decode up conn message h)
    receive conn (ping_message written) h = (h, written)
    receive conn (workers change) h = (
      record h {
        session_manager = record h.session_manager {
          file_streams = change h.session_manager.file_streams;
        };
      },
      true,
    )

    -- The rounds, until there is nothing to read or a round ends the loop.
    unfoldable pub message_loop :
        Conn → List Event → WebSocketHandler os → WebSocketHandler os × Bool
    unfolding receive
    message_loop conn [] h = (h, true)
    message_loop conn (e ∷ es) h =
        let (k, goes_on) = receive conn e h in
        let rest = message_loop conn es k in if goes_on then rest else (k, false)

    -- The connection, from the event that it was made to the event that it ended, which a loop that
    -- was ended by a round does not log.
    unfoldable pub handle_web_socket : Conn → List Event → WebSocketHandler os → WebSocketHandler os
    unfolding message_loop
    handle_web_socket conn es h =
        let (k, closed) = message_loop conn es (logging os websocket_connected h) in
        if closed then logging os websocket_disconnected k else k
