-- ===== src/FileTransfer/WebSocket/Rounds.antt =====
-- websocket_handler.go: what holds through the binary messages and the rounds of the loop.
use onli_desk_full.Common.{
  ◌≡◌, ◌⊎◌, not, refl, ℤ, String, Bool, none, some, List, [], ◌∷◌, inl, inr, Bool-cases,
  Option-cases,
}
use onli_desk_full.Common.Map.{lookup}
use onli_desk_full.FileTransfer.Chunks.{Bytes}
use onli_desk_full.FileTransfer.Handler.{Conn, FileSystem}
use onli_desk_full.FileTransfer.Manager.{FileStream}
use onli_desk_full.FileTransfer.WebSocket.{
  WebSocketHandler, Decoders, Reply, ChunkHeader, too_short, bad_header_length, not_parsed, Fault,
  stream_inactive, stream_paused, seek_failed, write_failed, offset_of, Handled, blocked, erred,
}
use onli_desk_full.FileTransfer.WebSocket.Chunks.{
  write_chunk, handle_file_chunk, handle_binary_message, read_frame, Frame, short, long, framed,
}
use onli_desk_full.FileTransfer.WebSocket.Keeps.{Kept, After, after, either}
use onli_desk_full.FileTransfer.WebSocket.Texts.{text-Kept, after_message-Kept}
use onli_desk_full.FileTransfer.WebSocket.Dispatch.{
  Event, text_message, binary_message, ping_message, workers, receive, message_loop,
}

module _ (os : FileSystem) (P : WebSocketHandler os → Type 0) (k : Kept os P) where
  -- The write of a chunk fails or waits for ever.
  Unfinished : WebSocketHandler os × Handled → Type 0
  Unfinished x = P x.0 × ((x.1 ≡ blocked) ⊎ ((f : Fault) × (x.1 ≡ erred f)))

  module _ (seeks : String → ℤ → Bool) (writes : String → ℤ → Bytes → Bool) where
    write_chunk-Unfinished :
        (index : ℤ) (content : Bytes) (f : FileStream) (h : WebSocketHandler os)
        → P h
        → Unfinished (write_chunk os seeks writes index content f h)
    unfolding write_chunk Unfinished
    write_chunk-Unfinished index content f h a =
        either Unfinished (not f.active) _ _ (a, inr (stream_inactive, refl))
          (either Unfinished f.paused _ _ (a, inr (stream_paused, refl))
            (either Unfinished (not (seeks f.transfer_id (offset_of index))) _ _
              (a, inr (seek_failed, refl))
              (either Unfinished (not (writes f.transfer_id (offset_of index) content)) _ _
                (a, inr (write_failed, refl))
                (k.stores ((f.transfer_id, offset_of index, content) ∷ h.written) h a, inl refl))))

    module _ (decode : Decoders) (up : Conn → Reply → Bool) where
      chunk-Kept :
          (conn : Conn) (c : ChunkHeader) (content : Bytes) (h : WebSocketHandler os)
          → P h
          → After os P (handle_file_chunk os seeks writes decode up conn c content h)
      unfolding handle_file_chunk Unfinished
      chunk-Kept conn c content h a =
          elim (Option-cases (lookup c.transfer_id h.session_manager.file_streams)) [
            | inl e ↦ rw (e, handle_file_chunk) (after os P _ _ a)
            | inr (f, e) ↦
                let (b, w) = write_chunk-Unfinished c.chunk_index content f h a in
                elim w [
                  | inl x ↦ rw (e, handle_file_chunk) (rw x (after os P _ _ b))
                  | inr (z, x) ↦ rw (e, handle_file_chunk) (rw x (after os P _ _ b))
                ]
          ]

      binary-Kept :
          (conn : Conn) (message : Bytes) (h : WebSocketHandler os)
          → P h
          → After os P (handle_binary_message os seeks writes decode up conn message h)
      unfolding handle_binary_message
      binary-Kept conn message h a =
          elim (read_frame message)
            as (λ (x : Frame). After os P (elim x [
              | short ↦ (h, erred too_short)
              | long ↦ (h, erred bad_header_length)
              | framed header content ↦ elim (decode.chunk_header header) [
                | none ↦ (h, erred (not_parsed "chunk header"))
                | some c ↦ handle_file_chunk os seeks writes decode up conn c content h
              ]
            ])) [
              | short ↦ after os P _ _ a
              | long ↦ after os P _ _ a
              | framed header content ↦ elim (Option-cases (decode.chunk_header header)) [
                | inl e ↦ rw e (after os P _ _ a)
                | inr (c, e) ↦ rw e (chunk-Kept conn c content h a)
              ]
            ]

      module _ (path_of : String → String → String → String) where
        pub receive-Kept :
            (conn : Conn) (e : Event) (h : WebSocketHandler os)
            → P h
            → P (receive os decode up path_of seeks writes conn e h).0
        unfolding receive
        receive-Kept conn (text_message now fresh current message) h a =
            after_message-Kept os P k decode up path_of "message_error" conn _
              (text-Kept os P k decode up path_of now fresh current conn message h a)
        receive-Kept conn (binary_message message) h a =
            after_message-Kept os P k decode up path_of "binary_error" conn _
              (binary-Kept conn message h a)
        receive-Kept conn (ping_message written) h a = a
        receive-Kept conn (workers change) h a = k.works change h a

        pub message_loop-Kept :
            (conn : Conn) (es : List Event) (h : WebSocketHandler os)
            → P h
            → P (message_loop os decode up path_of seeks writes conn es h).0
        unfolding message_loop
        message_loop-Kept conn [] h a = a
        message_loop-Kept conn (e ∷ es) h a =
            let b = receive-Kept conn e h a in
            let rest = message_loop-Kept conn es _ b in
            elim (Bool-cases (receive os decode up path_of seeks writes conn e h).1) [
              | inl y ↦ rw (y, message_loop) rest
              | inr n ↦ rw (n, message_loop) b
            ]
