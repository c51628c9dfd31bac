-- ===== src/FileTransfer/Handler.antt =====
-- src/server/internal/filetransfer/transfer_handler.go: the types of a file transfer and the handlers
-- of its WebSocket messages, each on the whole state that it changes. The operating system's files
-- and the JSON decoders are parameters; the audit entries and the messages keep what identifies them
-- (no free text, no float), and the locks are left out: a handler runs as one step. `TotalChunks`
-- and `Checksum` of a session, which nothing sets, are left out.
pub mod Receive
pub mod Control
pub mod Sound
pub mod Approval
pub mod Files
use onli_desk_full.Common.{
  ℕ, suc, ◌+◌, ℤ, pos, ltb_ℤ, wrap64, ◌+ℤ◌, String, ◌==◌, Bool, true, false, ◌&&◌, ◌||◌, not,
  Option, none, some, List, [], ◌∷◌, ◌++◌, length, take, drop, ltb, if◌then◌else◌,
}
use onli_desk_full.Common.Map.{Map, lookup, insert, delete}
use onli_desk_full.Common.Text.{Text, codes, is_listed}
use onli_desk_full.FileTransfer.Chunks.{Bytes, FileChunk, find, put, int_beq}

pub data TransferStatus : Type 0 where
  pending approved rejected in_progress paused completed cancelled failed : TransferStatus

-- A WebSocket connection, by its number.
abbrev pub Conn : Type 0
Conn = ℕ

-- `kind` is the field `Type`, which nothing reads.
pub record FileTransferRequest : Type 0 where
  pub id : String
  pub session_id : String
  pub kind : String
  pub filename : String
  pub file_size : ℤ
  pub checksum : String
  pub timestamp : ℤ
  pub technician : String

pub record FileTransferResponse : Type 0 where
  pub kind : String
  pub transfer_id : String
  pub status : String
  pub message : String
  pub is_approved : Bool
  pub timestamp : ℤ

pub record ControlMessage : Type 0 where
  pub id : String
  pub action : String

-- The files of the operating system. An operation that can fail says whether it succeeded.
pub record FileSystem : Type 1 where
  pub Files : Type 0
  pub Handle : Type 0
  pub create : String → Files → Option (Handle × Files)
  pub write : Handle → Bytes → Files → Bool × Files
  pub close : Handle → Files → Files
  pub remove : String → Files → Files
  pub read : String → Files → Option Bytes

-- `encoding/json` on the messages, each at the type that it is decoded to.
pub record Json : Type 0 where
  pub type_of : Bytes → Option String
  pub request : Bytes → Option FileTransferRequest
  pub response : Bytes → Option FileTransferResponse
  pub control : Bytes → Option ControlMessage
  pub progress_id : Bytes → Option String
  pub header : Bytes → Option FileChunk

-- The calls of the audit logger. What it makes of them, and when it drops one, is in Audit.
pub data AuditEntry : Type 0 where
  violation : String → String → AuditEntry
  requested : FileTransferRequest → AuditEntry
  answered : String → String → Bool → AuditEntry
  progressed : String → String → TransferStatus → AuditEntry
  resumed : String → String → AuditEntry

-- What is sent: the type of the message, with the fields that matter.
pub data Message : Type 0 where
  transfer_error : String → Message
  request_received : String → Message
  response_notice : String → TransferStatus → Bool → String → Message
  progress : String → ℤ → ℤ → Message
  transfer_completed : String → Message
  status_notice : String → TransferStatus → String → Message

-- `ext` of `filepath.Ext`: from the last dot of the last element of the path.
abbrev pub last_ext : Text → Text → Text
last_ext [] ext = ext
last_ext (c ∷ cs) ext =
    last_ext cs (
      if int_beq (pos c) (pos b'.') then c ∷ cs else if int_beq (pos c) (pos b'/') then [] else ext)

module _ (os : FileSystem) where
  pub record TransferSession : Type 0 where
    pub id : String
    pub request : FileTransferRequest
    pub status : TransferStatus
    pub start_time : ℤ
    pub end_time : Option ℤ
    pub bytes_transferred : ℤ
    pub received_chunks : List (ℤ × Bool)
    pub file : Option os.Handle
    pub temp_path : String
    pub client_conn : Option Conn
    pub portal_conn : Option Conn

  -- The handler, with its calls of the audit logger, and what it has written to the connections, newest
  -- first.
  pub record TransferHandler : Type 0 where
    pub active_sessions : Map TransferSession
    pub max_file_size : ℤ
    pub allowed_types : List String
    pub temp_dir : String
    pub files : os.Files
    pub audit_calls : List AuditEntry
    pub sent : List (Conn × Message)

  unfoldable pub new_transfer_handler : ℤ → List String → String → os.Files → TransferHandler
  new_transfer_handler max types dir files = record {
    active_sessions = [];
    max_file_size = max;
    allowed_types = types;
    temp_dir = dir;
    files = files;
    audit_calls = [];
    sent = [];
  }

  abbrev pub call_audit : AuditEntry → TransferHandler → TransferHandler
  call_audit e h = record h { audit_calls = e ∷ h.audit_calls }

  -- `sendJSON`.
  abbrev pub send : Conn → Message → TransferHandler → TransferHandler
  send c msg h = record h { sent = (c, msg) ∷ h.sent }

  abbrev pub send_to : Option Conn → Message → TransferHandler → TransferHandler
  send_to none msg h = h
  send_to (some c) msg h = send c msg h

  -- To the client and to the portal.
  abbrev pub send_both : TransferSession → Message → TransferHandler → TransferHandler
  send_both s msg h = send_to s.portal_conn msg (send_to s.client_conn msg h)

  -- What a handler does through the pointer to a stored session.
  abbrev pub save : TransferSession → TransferHandler → TransferHandler
  save s h = record h { active_sessions = insert s.id s h.active_sessions }

  abbrev pub opened : ℤ → Conn → FileTransferRequest → TransferSession
  opened now conn r = record {
    id = r.id;
    request = r;
    status = pending;
    start_time = now;
    end_time = none;
    bytes_transferred = pos 0;
    received_chunks = [];
    file = none;
    temp_path = "";
    client_conn = none;
    portal_conn = some conn;
  }

  abbrev pub is_type_allowed : TransferHandler → FileTransferRequest → Bool
  is_type_allowed h r = not (
      not (elim h.allowed_types [ [] ↦ true | t ∷ ts ↦ false ])
      && not (is_listed (last_ext (codes r.filename) []) h.allowed_types))

  unfoldable pub handle_new_transfer_request :
      ℤ → Conn → FileTransferRequest → TransferHandler → TransferHandler
  handle_new_transfer_request now conn r h =
      if ltb_ℤ h.max_file_size r.file_size
      then send conn (transfer_error r.id) (call_audit (violation r.id r.session_id) h)
      else if not (is_type_allowed h r)
      then send conn (transfer_error r.id) (call_audit (violation r.id r.session_id) h)
      else send conn (request_received r.id) (save (opened now conn r) (call_audit (requested r) h))

  abbrev pub notify_portal :
      FileTransferResponse → TransferSession → TransferHandler → TransferHandler
  notify_portal r s h =
      send_to s.portal_conn (response_notice r.transfer_id s.status r.is_approved r.message) h

  -- The branch of an approval, `fmt.Sprintf` and `filepath.Join` being `path_of`.
  unfoldable pub approve_transfer :
      (String → String → String → String)
      → Conn
      → FileTransferResponse
      → TransferSession
      → TransferHandler
      → TransferHandler
  approve_transfer path_of conn r s h =
      let path = path_of h.temp_dir r.transfer_id s.request.filename in
      let t = record s { status = approved; client_conn = some conn } in
      let logged = call_audit (answered r.transfer_id s.request.session_id true) h in
      elim (os.create path h.files) [
        | none ↦
            call_audit (progressed r.transfer_id s.request.session_id failed)
              (save (record t { status = failed }) logged)
        | some (f, fs) ↦
            let u = record t { file = some f; temp_path = path } in
            notify_portal r u (save u (record logged { files = fs }))
      ]

  unfoldable pub handle_transfer_response :
      (String → String → String → String)
      → Conn
      → FileTransferResponse
      → TransferHandler
      → TransferHandler
  unfolding approve_transfer
  handle_transfer_response path_of conn r h = elim (lookup r.transfer_id h.active_sessions) [
    | none ↦ h
    | some s ↦
        if r.is_approved
        then approve_transfer path_of conn r s h
        else let t = record s { status = rejected } in
          notify_portal r t
            (save t (call_audit (answered r.transfer_id s.request.session_id false) h))
  ]
