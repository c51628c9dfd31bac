-- ===== src/Examples/Connections.antt =====
-- A connection that asks for an upload, which needs no approval, and sends a chunk of it.
use onli_desk_full.Common.{
  ◌≡◌, refl, ℤ, pos, String, Bool, true, false, Option, none, some, List, [], ◌∷◌, length, arith,
}
use onli_desk_full.FileTransfer.Chunks.{Bytes}
use onli_desk_full.FileTransfer.Handler.{Conn}
use onli_desk_full.FileTransfer.Manager.{default_transfer_config}
use onli_desk_full.FileTransfer.WebSocket.{
  WebSocketHandler, Decoders, Reply, ChunkHeader, new_web_socket_handler,
}
use onli_desk_full.FileTransfer.WebSocket.Chunks.{framed, read_frame}
use onli_desk_full.FileTransfer.WebSocket.Dispatch.{
  Event, text_message, binary_message, handle_web_socket,
}
use onli_desk_full.FileTransfer.WebSocket.Framing.{frame_of, read_frame-frame_of}
use onli_desk_full.FileTransfer.WebSocket.Unanswered.{NoAck, handle_web_socket-NoAck}
use onli_desk_full.Examples.Handlers.{disk, path_of, request}

read_frame-frame_of_example :
    read_frame (frame_of (7 ∷ 8 ∷ []) (9 ∷ [])) ≡ framed (7 ∷ 8 ∷ []) (9 ∷ [])
read_frame-frame_of_example = read_frame-frame_of (7 ∷ 8 ∷ []) (9 ∷ []) (omega arith)

-- Every text message is the request, and every header one of its first chunk.
abbrev pub decoders : Decoders
decoders = record {
  base_type = λ message. some "file_transfer_request";
  file_request = λ message. some (record request { kind = "upload" });
  approval = λ message. none;
  control = λ message. none;
  progress_id = λ message. none;
  registration = λ message. none;
  chunk_header = λ header. some (record { transfer_id = "t"; chunk_index = pos 0 });
}

abbrev pub always : Conn → Reply → Bool
always conn r = true

abbrev pub seeks : String → ℤ → Bool
seeks id offset = true

abbrev pub writes : String → ℤ → Bytes → Bool
writes id offset content = true

abbrev events : List Event
events =
    text_message (pos 0) "u" (λ id. pos 0) []
    ∷ binary_message (frame_of (7 ∷ []) (1 ∷ 2 ∷ []))
    ∷ binary_message []
    ∷ []

abbrev handler : WebSocketHandler disk
handler =
    new_web_socket_handler disk (some (record default_transfer_config { require_approval = false }))
      []

abbrev after : WebSocketHandler disk
after = handle_web_socket disk decoders always path_of seeks writes 2 events handler

-- The chunk is written, and the message after it is not handled.
after_written : after.written ≡ ("t", pos 0, 1 ∷ 2 ∷ []) ∷ []
unfolding handle_web_socket onli_desk_full.FileTransfer.WebSocket.handle_file_transfer_request
    onli_desk_full.FileTransfer.Manager.create_transfer_session new_web_socket_handler
    onli_desk_full.Common.Text.is_listed onli_desk_full.FileTransfer.Manager.approve_transfer
    onli_desk_full.Common.Map.lookup onli_desk_full.Common.Map.insert
after_written = refl

handle_web_socket-NoAck_example : NoAck disk after
unfolding NoAck new_web_socket_handler
handle_web_socket-NoAck_example =
    handle_web_socket-NoAck disk seeks writes decoders always path_of 2 events handler tt
