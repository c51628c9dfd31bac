-- ===== src/Server/Rest/Keeps.antt =====
-- src/server/cmd/main.go: what holds of the handler of transfers through every REST request.
use onli_desk_full.Common.{ℤ, String, ◌==◌, none, some, inl, inr, Bool-cases}
use onli_desk_full.FileTransfer.Handler.{FileSystem}
use onli_desk_full.FileTransfer.Manager.{TransferConfig, Answer, update_transfer_config}
use onli_desk_full.FileTransfer.WebSocket.{WebSocketHandler, with_manager}
use onli_desk_full.FileTransfer.WebSocket.Keeps.{Kept}
use onli_desk_full.Server.Rest.{
  Request, get_health, get_info, list_transfers, show_config, show_statistics, show_transfer,
  show_progress, download, decide, control, new_config, handle_control_transfer,
  handle_approve_transfer, handle_update_transfer_config, handle_rest, after_call,
}

module _ (os : FileSystem) where
  -- A property that WebSocket messages keep.
  module _ (P : WebSocketHandler os → Type 0) (k : Kept os P) where
    after_call-Kept :
        (m : Answer os) (h : WebSocketHandler os)
        → P (with_manager os m.0 h)
        → P (after_call os m h).0
    unfolding after_call
    after_call-Kept (m, none) h a = a
    after_call-Kept (m, some e) h a = a

    control-Kept :
        (id action : String) (h : WebSocketHandler os)
        → P h
        → P (handle_control_transfer os id (some action) h).0
    unfolding handle_control_transfer
    control-Kept id action h a = elim (Bool-cases (action == "pause")) [
      | inl y ↦ rw (y, handle_control_transfer) (after_call-Kept _ h (k.pauses id h a))
      | inr n ↦ elim (Bool-cases (action == "resume")) [
        | inl y ↦ rw (n, handle_control_transfer) (rw y (after_call-Kept _ h (k.resumes id h a)))
        | inr o ↦ elim (Bool-cases (action == "cancel")) [
          | inl y ↦
              rw (n, handle_control_transfer) (rw o (rw y (after_call-Kept _ h (k.cancels id h a))))
          | inr q ↦ rw (n, handle_control_transfer) (rw o (rw q a))
        ]
      ]
    ]

    pub rest-Kept :
        (path_of : String → String → String → String) (now : ℤ) (current : String → ℤ) (r : Request)
        (h : WebSocketHandler os)
        → ((c : TransferConfig) (g : WebSocketHandler os)
            → P g
            → P (with_manager os (record g.session_manager { config = c }) g))
        → P h
        → P (handle_rest os path_of now current r h).0
    unfolding handle_rest
    rest-Kept path_of now current get_health h u a = a
    rest-Kept path_of now current get_info h u a = a
    rest-Kept path_of now current list_transfers h u a = a
    rest-Kept path_of now current show_config h u a = a
    rest-Kept path_of now current show_statistics h u a = a
    rest-Kept path_of now current (show_transfer id) h u a = a
    rest-Kept path_of now current (show_progress id) h u a = a
    rest-Kept path_of now current (download id) h u a = a
    rest-Kept path_of now current (decide id none) h u a = unfold handle_approve_transfer in a
    rest-Kept path_of now current (decide id (some b)) h u a =
        unfold handle_approve_transfer in
        after_call-Kept _ h (k.approves path_of id b.is_approved h a)
    rest-Kept path_of now current (control id none) h u a = unfold handle_control_transfer in a
    rest-Kept path_of now current (control id (some action)) h u a = control-Kept id action h a
    rest-Kept path_of now current (new_config none) h u a =
        unfold handle_update_transfer_config in a
    rest-Kept path_of now current (new_config (some c)) h u a =
        unfold handle_update_transfer_config update_transfer_config in u c h a
