-- ===== src/FileTransfer/WebSocket/Keeps.antt =====
-- websocket_handler.go: the ways in which a handler changes the state.
use onli_desk_full.Common.{
  ℤ, String, Bool, true, false, Option, none, List, [], ◌∷◌, ◌++◌, if◌then◌else◌,
}
use onli_desk_full.Common.Map.{Map}
use onli_desk_full.FileTransfer.Chunks.{Bytes}
use onli_desk_full.FileTransfer.Handler.{Conn, FileSystem, FileTransferRequest}
use onli_desk_full.FileTransfer.Manager.{
  FileStream, create_transfer_session, approve_transfer, pause_transfer, resume_transfer,
  cancel_transfer,
}
use onli_desk_full.FileTransfer.WebSocket.{
  WebSocketHandler, Reply, chunk_ack, Logged, Handled, with_manager, logging,
}

-- Not the acknowledgement of a chunk.
abbrev pub OtherReply : Reply → Type 0
OtherReply (chunk_ack id index) = ⊥
OtherReply _ = Unit

-- A property that each change of the state keeps; only acknowledgements are left out.
pub record Kept (os : FileSystem) (P : WebSocketHandler os → Type 0) : Type 0 where
  pub sends :
      (conn : Conn) (r : Reply) (h : WebSocketHandler os)
      → OtherReply r
      → P h
      → P (record h { sent = h.sent ++ (conn, r) ∷ [] })
  pub logs : (e : Logged) (h : WebSocketHandler os) → P h → P (logging os e h)
  pub connects : (cs : Map Conn) (h : WebSocketHandler os) → P h → P (record h { connections = cs })
  pub stores :
      (w : List (String × ℤ × Bytes)) (h : WebSocketHandler os) → P h → P (record h { written = w })
  pub creates :
      (fresh : String) (now : ℤ) (r : FileTransferRequest) (client : Option Conn)
      (h : WebSocketHandler os)
      → P h
      → P (
          with_manager os
            (create_transfer_session os fresh now r client none h.session_manager).0
            h)
  pub approves :
      (path_of : String → String → String → String) (id : String) (b : Bool)
      (h : WebSocketHandler os)
      → P h
      → P (with_manager os (approve_transfer os path_of id b h.session_manager).0 h)
  pub pauses :
      (id : String) (h : WebSocketHandler os)
      → P h
      → P (with_manager os (pause_transfer os id h.session_manager).0 h)
  pub resumes :
      (id : String) (h : WebSocketHandler os)
      → P h
      → P (with_manager os (resume_transfer os id h.session_manager).0 h)
  pub cancels :
      (id : String) (h : WebSocketHandler os)
      → P h
      → P (with_manager os (cancel_transfer os id h.session_manager).0 h)
  pub works :
      (change : Map FileStream → Map FileStream) (h : WebSocketHandler os)
      → P h
      → P (
          with_manager os
            (record h.session_manager { file_streams = change h.session_manager.file_streams })
            h)

-- A property of the state after a handler.
unfoldable pub After :
    (os : FileSystem) → (WebSocketHandler os → Type 0) → WebSocketHandler os × Handled → Type 0
After os P x = P x.0

pub after :
    (os : FileSystem) (P : WebSocketHandler os → Type 0) (h : WebSocketHandler os) (o : Handled)
    → P h
    → After os P (h, o)
unfolding After
after os P h o a = a

pub either :
    {os : FileSystem} (P : WebSocketHandler os × Handled → Type 0) (b : Bool)
    (x y : WebSocketHandler os × Handled)
    → P x
    → P y
    → P (if b then x else y)
either P true x y p q = p
either P false x y p q = q
