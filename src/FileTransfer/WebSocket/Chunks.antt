-- ===== src/FileTransfer/WebSocket/Chunks.antt =====
-- websocket_handler.go: the binary messages; file_stream.go: `WriteChunk`, which holds the lock of the
-- stream when it calls `sendProgress`, which waits for it. Whether the file can be moved to an offset
-- and written there is a parameter.
use onli_desk_full.Common.{
  ◌+◌, ◌*◌, ℤ, String, Bool, not, none, some, ◌∷◌, ltb, length, take, drop, if◌then◌else◌,
}
use onli_desk_full.Common.Map.{lookup}
use onli_desk_full.FileTransfer.Chunks.{Bytes}
use onli_desk_full.FileTransfer.Handler.{Conn, FileSystem}
use onli_desk_full.FileTransfer.Manager.{FileStream}
use onli_desk_full.FileTransfer.WebSocket.{
  WebSocketHandler, Decoders, ChunkHeader, Handled, done, erred, blocked, Reply, chunk_ack,
  too_short, bad_header_length, not_parsed, stream_missing, stream_inactive, stream_paused,
  seek_failed, write_failed, send_json, offset_of,
}

pub data Frame : Type 0 where
  short long : Frame
  framed : Bytes → Bytes → Frame

-- Four bytes, the length of the header; the header; the content.
unfoldable pub read_frame : Bytes → Frame
read_frame (a ∷ b ∷ c ∷ d ∷ rest) =
    let count = a * 16_777_216 + b * 65_536 + c * 256 + d in
    if ltb (length rest) count then long else framed (take count rest) (drop count rest)
read_frame _ = short

module _ (os : FileSystem) (seeks : String → ℤ → Bool) (writes : String → ℤ → Bytes → Bool) where
  unfoldable pub write_chunk :
      ℤ → Bytes → FileStream → WebSocketHandler os → WebSocketHandler os × Handled
  unfolding offset_of
  write_chunk index content f h =
      let offset = offset_of index in
      if not f.active
      then (h, erred stream_inactive)
      else if f.paused
      then (h, erred stream_paused)
      else if not (seeks f.transfer_id offset)
      then (h, erred seek_failed)
      else if not (writes f.transfer_id offset content)
      then (h, erred write_failed)
      else (record h { written = (f.transfer_id, offset, content) ∷ h.written }, blocked)

  module _ (decode : Decoders) (up : Conn → Reply → Bool) where
    unfoldable pub handle_file_chunk :
        Conn → ChunkHeader → Bytes → WebSocketHandler os → WebSocketHandler os × Handled
    unfolding write_chunk send_json
    handle_file_chunk conn c content h =
        elim (lookup c.transfer_id h.session_manager.file_streams) [
          | none ↦ (h, erred (stream_missing c.transfer_id))
          | some f ↦
              let (k, outcome) = write_chunk c.chunk_index content f h in
              elim outcome [
                | done ↦ send_json os up conn (chunk_ack c.transfer_id c.chunk_index) k
                | blocked ↦ (k, blocked)
                | erred e ↦ (k, erred e)
              ]
        ]

    unfoldable pub handle_binary_message :
        Conn → Bytes → WebSocketHandler os → WebSocketHandler os × Handled
    unfolding handle_file_chunk read_frame
    handle_binary_message conn message h = elim (read_frame message) [
      | short ↦ (h, erred too_short)
      | long ↦ (h, erred bad_header_length)
      | framed header content ↦ elim (decode.chunk_header header) [
        | none ↦ (h, erred (not_parsed "chunk header"))
        | some c ↦ handle_file_chunk conn c content h
      ]
    ]
