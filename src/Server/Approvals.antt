-- ===== src/Server/Approvals.antt =====
-- src/server/cmd/main.go: a new configuration over the REST interface, and the WebSocket handler of
-- transfers, which reads the one that it was made with.
use onli_desk_full.Common.Map.{lookup}
use Prim.Native.String.{◌++◌ as concat}
use onli_desk_full.Common.{
  false, ap, ◌∙◌, true, Bool, Bool-cases, inl, inr, if◌then◌else◌, ◌≡◌, refl, ℤ, String, Option,
  none, some, List,
}
use mathlib.Core.Path.{subst}
use onli_desk_full.FileTransfer.Handler.{FileSystem, approved, Conn, TransferSession}
use onli_desk_full.FileTransfer.Manager.{
  Answer, TransferManager, approve_transfer, TransferConfig, default_transfer_config,
}
use onli_desk_full.FileTransfer.WebSocket.{
  transfer_response, request_notification, Reply, Decoders, send_json, notify, answer,
  answer_request, notify_portal, WebSocketHandler, with_manager, new_web_socket_handler,
}
use onli_desk_full.FileTransfer.WebSocket.Keeps.{Kept}
use onli_desk_full.Server.Config.{ServerConfig, or_else}
use onli_desk_full.Server.Rest.{
  new_config, show_config, config_body, handle_rest, handle_update_transfer_config,
}
use onli_desk_full.Server.Process.{
  Outside, Event, started, OnlideskServer, new_onlidesk_server, serve_events,
}
use onli_desk_full.Server.Process.Keeps.{started_of, serve_events-Kept}

module _ (os : FileSystem) (o : Outside) (c : ServerConfig) (files : os.Files) where
  -- The configuration that the handler was made with.
  HasConfig : WebSocketHandler os → Type 0
  HasConfig h = h.config ≡ or_else default_transfer_config c.transfer_config

  HasConfig-Kept : Kept os HasConfig
  unfolding HasConfig
  HasConfig-Kept = record {
    sends = λ conn r h x a. a;
    logs = λ e h a. a;
    connects = λ cs h a. a;
    stores = λ w h a. a;
    creates = λ fresh now r client h a. a;
    approves = λ path_of id b h a. a;
    pauses = λ id h a. a;
    resumes = λ id h a. a;
    cancels = λ id h a. a;
    works = λ change h a. a;
  }

  manager-HasConfig :
      (h : WebSocketHandler os) → HasConfig h → (m : _) → HasConfig (with_manager os m h)
  unfolding HasConfig
  manager-HasConfig h a m = a

  given-config :
      (t : Option TransferConfig)
      → (new_web_socket_handler os t files).config ≡ or_else default_transfer_config t
  unfolding new_web_socket_handler
  given-config none = refl
  given-config (some d) = refl

  started-HasConfig : HasConfig (started os c files).file_transfer_handler
  unfolding HasConfig started
  started-HasConfig = given-config c.transfer_config

  send_json-manager :
      (up : Conn → Reply → Bool) (conn : Conn) (r : Reply) (h : WebSocketHandler os)
      → (send_json os up conn r h).0.session_manager ≡ h.session_manager
  unfolding send_json
  send_json-manager up conn r h = elim (Bool-cases (up conn r)) [
    | inl y ↦ rw y refl
    | inr n ↦ rw n refl
  ]

  notify-manager :
      (up : Conn → Reply → Bool) (conn : Option Conn) (r : Reply) (h : WebSocketHandler os)
      → (notify os up conn r h).session_manager ≡ h.session_manager
  unfolding notify
  notify-manager up none r h = refl
  notify-manager up (some conn) r h = send_json-manager up conn r h

  portal-manager :
      (up : Conn → Reply → Bool) (t : TransferSession os) (h : WebSocketHandler os)
      → (notify_portal os up t h).session_manager ≡ h.session_manager
  unfolding notify_portal
  portal-manager up t h =
      notify-manager up (lookup (concat t.request.session_id "_portal") h.connections)
        (request_notification t.request) h

  answer-manager :
      (up : Conn → Reply → Bool) (what : String) (conn : Conn) (r : Reply) (a : Answer os)
      (h : WebSocketHandler os)
      → (answer os up what conn r a h).0.session_manager ≡ a.0
  unfolding answer
  answer-manager up what conn r (m, none) h = send_json-manager up conn r (with_manager os m h)
  answer-manager up what conn r (m, some e) h = refl

  -- What a configuration makes of a transfer that was just created: it waits, or is approved.
  abbrev decided :
      (String → String → String → String)
      → TransferConfig
      → TransferSession os
      → TransferManager os
      → TransferManager os
  decided path_of d t m =
      if d.require_approval then m else (approve_transfer os path_of t.id true m).0

  answer_request-decided :
      (decode : Decoders) (up : Conn → Reply → Bool) (path_of : String → String → String → String)
      (conn : Conn) (t : TransferSession os) (h : WebSocketHandler os)
      → (answer_request os decode up path_of conn t h).0.session_manager
        ≡ decided path_of h.config t h.session_manager
  unfolding answer_request
  answer_request-decided decode up path_of conn t h = elim (Bool-cases h.config.require_approval) [
    | inl y ↦
        rw (y, answer_request)
          (send_json-manager up conn (transfer_response t.id t.status) (
              notify_portal os up t
                (record h { config = record h.config { require_approval = true } }))
            ∙ portal-manager up t
                (record h { config = record h.config { require_approval = true } }))
    | inr n ↦
        rw (n, answer_request)
          (answer-manager up "auto-approve transfer" conn (transfer_response t.id approved)
            (approve_transfer os path_of t.id true h.session_manager)
            (record h { config = record h.config { require_approval = false } }))
  ]

  -- After any events of a new server, a new configuration that the REST interface takes is the one
  -- that it shows. Still the WebSocket handler of transfers decides by the configuration that the
  -- server was started with: the transfer of a request is left to wait if that one requires
  -- approvals, and approved at once if it does not, whatever the new one says.
  pub new_config-keeps_approvals :
      (s : OnlideskServer os)
      → new_onlidesk_server os c files ≡ some s
      → (es : List Event) (d : TransferConfig) (now : ℤ) (current : String → ℤ) (conn : Conn)
        (t : TransferSession os)
      → let h = (serve_events os o s es).file_transfer_handler in
        let k = (handle_rest os o.path_of now current (new_config (some d)) h).0 in
        ((handle_rest os o.path_of now current show_config k).1 ≡ config_body d)
        × ((answer_request os o.transfer_decoders o.transfer_up o.path_of conn t
              k).0.session_manager
            ≡ (if (or_else default_transfer_config c.transfer_config).require_approval
                then k.session_manager
                else (approve_transfer os o.path_of t.id true k.session_manager).0))
  unfolding handle_rest handle_update_transfer_config HasConfig
  new_config-keeps_approvals s made es d now current conn t =
      let h = (serve_events os o s es).file_transfer_handler in
      let k : WebSocketHandler os =
        (handle_rest os o.path_of now current (new_config (some d)) h).0 in
      let same : h.config ≡ or_else default_transfer_config c.transfer_config =
        serve_events-Kept os o HasConfig HasConfig-Kept (λ d h a. a) (λ now h a. a) s es
          (subst (λ t. HasConfig t.file_transfer_handler) (started_of os c files s made)
            started-HasConfig) in
      (
        refl,
        answer_request-decided o.transfer_decoders o.transfer_up o.path_of conn t k
            ∙ ap (λ e. decided o.path_of e t k.session_manager) same,
      )
