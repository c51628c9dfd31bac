-- ===== src/FileTransfer/WebSocket/Unanswered.antt =====
-- websocket_handler.go: what a connection that sends chunks is answered.
use onli_desk_full.Common.{String, ℤ, Bool, List, [], ◌∷◌, ◌++◌, All, inl, inr, Bool-cases}
use onli_desk_full.FileTransfer.Chunks.{Bytes}
use onli_desk_full.FileTransfer.Handler.{Conn, FileSystem}
use onli_desk_full.FileTransfer.WebSocket.{
  WebSocketHandler, Decoders, Reply, websocket_connected, logging,
}
use onli_desk_full.FileTransfer.WebSocket.Keeps.{OtherReply, Kept}
use onli_desk_full.FileTransfer.WebSocket.Rounds.{message_loop-Kept}
use onli_desk_full.FileTransfer.WebSocket.Dispatch.{Event, message_loop, handle_web_socket}

All-snoc :
    (P : Conn × Reply → Type 0) (xs : List (Conn × Reply)) (x : Conn × Reply)
    → All P xs
    → P x
    → All P (xs ++ x ∷ [])
All-snoc P [] x a p = (p, tt)
All-snoc P (y ∷ ys) x a p = (a.0, All-snoc P ys x a.1 p)

module _ (os : FileSystem) where
  -- No chunk was acknowledged.
  unfoldable pub NoAck : WebSocketHandler os → Type 0
  NoAck h = All (λ m. OtherReply m.1) h.sent

  NoAck-Kept : Kept os NoAck
  unfolding NoAck
  NoAck-Kept = record {
    sends = λ conn r h o a. All-snoc (λ m. OtherReply m.1) h.sent (conn, r) a o;
    logs = λ e h a. a;
    connects = λ cs h a. a;
    stores = λ w h a. a;
    creates = λ fresh now r client h a. a;
    approves = λ path_of id b h a. a;
    pauses = λ id h a. a;
    resumes = λ id h a. a;
    cancels = λ id h a. a;
    works = λ change h a. a;
  }

  module _ (seeks : String → ℤ → Bool) (writes : String → ℤ → Bytes → Bool) (decode : Decoders)
      (up : Conn → Reply → Bool) (path_of : String → String → String → String) where
    -- Whatever a connection sends to a handler that has acknowledged no chunk, and whatever the
    -- workers do in between, no chunk is acknowledged.
    pub handle_web_socket-NoAck :
        (conn : Conn) (es : List Event) (h : WebSocketHandler os)
        → NoAck h
        → NoAck (handle_web_socket os decode up path_of seeks writes conn es h)
    unfolding handle_web_socket NoAck
    handle_web_socket-NoAck conn es h a =
        let b =
          message_loop-Kept os NoAck NoAck-Kept seeks writes decode up path_of conn es
            (logging os websocket_connected h) a in
        elim (Bool-cases
          (message_loop os decode up path_of seeks writes conn es
            (logging os websocket_connected h)).1) [
              | inl y ↦ rw (y, handle_web_socket) b
              | inr n ↦ rw (n, handle_web_socket) b
            ]
