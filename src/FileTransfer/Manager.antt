-- ===== src/FileTransfer/Manager.antt =====
-- src/server/internal/filetransfer/transfer_session.go: the manager of the transfers and of the file
-- streams that carry them (file_stream.go: what a stream does when it is opened, started, paused,
-- resumed and cancelled). The audit entries, the console log and the search for orphaned temporary
-- files are left out; the files of the operating system are a parameter.
mod Streams
pub mod Approval
pub mod Cleanup
pub mod Orphans
pub mod Statistics
pub mod Ticker
pub mod Unfinished
unfoldable pub use Streams.*
use onli_desk_full.Common.{
  ◌≡◌, ℕ, ◌+◌, ◌-◌, ◌/◌, ℤ, pos, ◌-ℤ◌, ltb_ℤ, leb_ℤ, String, ◌==◌, Bool, true, false, ◌&&◌, ◌||◌,
  not, Option, none, some, List, [], ◌∷◌, if◌then◌else◌, is_some, length,
}
use onli_desk_full.Common.Map.{Map, lookup, insert, delete}
use onli_desk_full.Common.Text.{codes, is_listed}
use onli_desk_full.FileTransfer.Chunks.{Bytes}
use onli_desk_full.FileTransfer.Handler.{
  TransferStatus, pending, approved, rejected, in_progress, paused, completed, cancelled, failed,
  Conn, FileTransferRequest, FileSystem, TransferSession, last_ext,
}

pub data TransferError : Type 0 where
  too_many_transfers file_too_large type_not_allowed transfer_not_found : TransferError
  not_pending stream_failed stream_not_found : TransferError

abbrev pub is_pending : TransferStatus → Bool
is_pending pending = true
is_pending _ = false

-- The statuses that the cleanup looks for, and those that `GetActiveSessions` returns.
abbrev pub is_over : TransferStatus → Bool
is_over completed = true
is_over failed = true
is_over cancelled = true
is_over _ = false

abbrev pub is_completed : TransferStatus → Bool
is_completed completed = true
is_completed _ = false

abbrev pub is_live : TransferStatus → Bool
is_live in_progress = true
is_live paused = true
is_live pending = true
is_live approved = true
is_live _ = false

abbrev pub keep_values {ℓ} : {V : Type ℓ} → (V → Bool) → Map V → Map V
keep_values p [] = []
keep_values p ((k, v) ∷ m) = let rest = keep_values p m in if p v then (k, v) ∷ rest else rest

abbrev pub is_type_allowed : List String → String → Bool
is_type_allowed [] filename = true
is_type_allowed (t ∷ ts) filename = is_listed (last_ext (codes filename) []) (t ∷ ts)

module _ (os : FileSystem) where
  -- `released` are the streams that the manager let go of, newest first.
  pub record TransferManager : Type 0 where
    pub sessions : Map (TransferSession os)
    pub file_streams : Map FileStream
    pub config : TransferConfig
    pub files : os.Files
    pub released : List FileStream

  -- A method's error, or none.
  abbrev pub Answer : Type 0
  Answer = TransferManager × Option TransferError

  unfoldable pub new_transfer_manager : Option TransferConfig → os.Files → TransferManager
  unfolding default_transfer_config
  new_transfer_manager c files = record {
    sessions = [];
    file_streams = [];
    config = elim c [ none ↦ default_transfer_config | some given ↦ given ];
    files = files;
    released = [];
  }

  abbrev pub store : String → TransferSession os → TransferManager → TransferManager
  store id s m = record m { sessions = insert id s m.sessions }

  abbrev pub created : ℤ → FileTransferRequest → Option Conn → Option Conn → TransferSession os
  created now r client portal = record {
    id = r.id;
    request = r;
    status = pending;
    start_time = now;
    end_time = none;
    bytes_transferred = pos 0;
    received_chunks = [];
    file = none;
    temp_path = "";
    client_conn = client;
    portal_conn = portal;
  }

  abbrev pub identified : String → FileTransferRequest → FileTransferRequest
  identified fresh r = if r.id == "" then record r { id = fresh } else r

  unfoldable pub create_transfer_session :
      String → ℤ → FileTransferRequest → Option Conn → Option Conn → TransferManager → Answer
  create_transfer_session fresh now r client portal m =
      if leb_ℤ m.config.max_concurrent (pos (length m.sessions))
      then (m, some too_many_transfers)
      else if ltb_ℤ m.config.max_file_size r.file_size
      then (m, some file_too_large)
      else if not (is_type_allowed m.config.allowed_types r.filename)
      then (m, some type_not_allowed)
      else let q = identified fresh r in (store q.id (created now q client portal) m, none)

  -- `NewFileStream`: an upload creates its file, a download opens one that is there.
  unfoldable pub new_file_stream :
      String → String → Bool → Option Conn → os.Files → Option (FileStream × os.Files)
  new_file_stream id path is_upload conn files =
      let stream : ℕ → FileStream = λ size. record {
        transfer_id = id;
        file_path = path;
        total_size = size;
        chunk_count = (size + stream_chunk_size - 1) / stream_chunk_size;
        is_upload = is_upload;
        conn = conn;
        active = false;
        paused = false;
        pause_sent = false;
        resume_sent = false;
        cancel_sent = false;
      } in
      elim is_upload [
        | true ↦ elim (os.create path files) [ none ↦ none | some (h, fs) ↦ some (stream 0, fs) ]
        | false ↦ elim (os.read path files) [
          | none ↦ none
          | some bytes ↦ some (stream (length bytes), files)
        ]
      ]

  -- The branch of an approval. `StartUpload` and `StartDownload` make the stream active.
  unfoldable pub start_transfer :
      (String → String → String → String) → String → TransferSession os → TransferManager → Answer
  unfolding new_file_stream
  start_transfer path_of id s m =
      let path = path_of m.config.temp_dir id s.request.filename in
      let t = record s { status = approved; temp_path = path } in
      elim (new_file_stream id path (s.request.kind == "upload") s.client_conn m.files) [
        | none ↦ (store id t m, some stream_failed)
        | some (f, fs) ↦ (
          record (store id t m) {
            file_streams = insert id (record f { active = true }) m.file_streams;
            files = fs;
          },
          none,
        )
      ]

  unfoldable pub approve_transfer :
      (String → String → String → String) → String → Bool → TransferManager → Answer
  unfolding start_transfer
  approve_transfer path_of id is_approved m = elim (lookup id m.sessions) [
    | none ↦ (m, some transfer_not_found)
    | some s ↦
        if not (is_pending s.status)
        then (m, some not_pending)
        else if is_approved
        then start_transfer path_of id s m
        else (store id (record s { status = rejected }) m, none)
  ]

  -- What `PauseTransfer` and `ResumeTransfer` share: a signal to the stream, then the status.
  abbrev pub signal : (FileStream → FileStream) → TransferStatus → String → TransferManager → Answer
  signal f status id m = elim (lookup id m.file_streams) [
    | none ↦ (m, some stream_not_found)
    | some stream ↦
        let sent = record m { file_streams = insert id (f stream) m.file_streams } in
        elim (lookup id m.sessions) [
          | none ↦ (sent, none)
          | some s ↦ (store id (record s { status = status }) sent, none)
        ]
  ]

  unfoldable pub pause_transfer : String → TransferManager → Answer
  pause_transfer id m = signal pause_stream paused id m

  unfoldable pub resume_transfer : String → TransferManager → Answer
  resume_transfer id m = signal resume_stream in_progress id m

  -- `fileStream.Cancel()` and the removal from the map of streams.
  abbrev pub release : String → TransferManager → TransferManager
  release id m = elim (lookup id m.file_streams) [
    | none ↦ m
    | some f ↦ record m {
      file_streams = delete id m.file_streams;
      released = cancel_stream f ∷ m.released;
    }
  ]

  abbrev pub remove_temp : String → os.Files → os.Files
  remove_temp path files = if path == "" then files else os.remove path files

  unfoldable pub cancel_transfer : String → TransferManager → Answer
  cancel_transfer id m =
      let k = release id m in
      elim (lookup id m.sessions) [
        | none ↦ (k, none)
        | some s ↦ (
          record k { sessions = delete id k.sessions; files = remove_temp s.temp_path k.files },
          none,
        )
      ]

  unfoldable pub complete_transfer : ℤ → String → Bool → TransferManager → Answer
  complete_transfer now id success m = elim (lookup id m.sessions) [
    | none ↦ (m, some transfer_not_found)
    | some s ↦
        let status = if success then completed else failed in
        (release id (store id (record s { status = status; end_time = some now }) m), none)
  ]

  unfoldable pub get_active_sessions : TransferManager → Map (TransferSession os)
  get_active_sessions m = keep_values (λ s. is_live s.status) m.sessions

  unfoldable pub get_sessions_by_user : String → TransferManager → Map (TransferSession os)
  get_sessions_by_user technician m =
      keep_values (λ s. s.request.technician == technician) m.sessions

  abbrev pub before_cutoff : ℤ → Option ℤ → Bool
  before_cutoff cutoff none = false
  before_cutoff cutoff (some t) = ltb_ℤ t cutoff

  -- `shoudCleanup`: over, for more than an hour.
  unfoldable pub should_cleanup : ℤ → TransferSession os → Bool
  should_cleanup now s = is_over s.status && before_cutoff (now -ℤ pos 3_600_000_000_000) s.end_time

  -- The files after the loop over the sessions.
  unfoldable pub clean_files : ℤ → Map (TransferSession os) → os.Files → os.Files
  unfolding should_cleanup
  clean_files now [] files = files
  clean_files now ((id, s) ∷ m) files =
      clean_files now m (if should_cleanup now s then remove_temp s.temp_path files else files)

  unfoldable pub perform_cleanup : ℤ → TransferManager → TransferManager
  unfolding should_cleanup clean_files
  perform_cleanup now m = record m {
    sessions = keep_values (λ s. not (should_cleanup now s)) m.sessions;
    files = clean_files now m.sessions m.files;
    file_streams = keep_values (λ f. f.active) m.file_streams;
  }

  unfoldable pub update_transfer_config : TransferConfig → TransferManager → TransferManager
  update_transfer_config c m = record m { config = c }

  -- The loop of `Shutdown`, over the streams instead of the sessions.
  unfoldable pub cancel_stored : Map (TransferSession os) → Map FileStream → Map FileStream
  unfolding cancel_stream
  cancel_stored ss [] = []
  cancel_stored ss ((id, f) ∷ m) =
      (id, if is_some (lookup id ss) then cancel_stream f else f) ∷ cancel_stored ss m

  unfoldable pub shutdown_transfers : ℤ → TransferManager → TransferManager
  unfolding perform_cleanup cancel_stored
  shutdown_transfers now m =
      perform_cleanup now (record m { file_streams = cancel_stored m.sessions m.file_streams })
