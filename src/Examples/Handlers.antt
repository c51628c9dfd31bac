-- ===== src/Examples/Handlers.antt =====
-- A handler over files kept in an association list, and the theorems on handlers at it.
use onli_desk_full.Common.{
  ◌≡◌, refl, ap, ℕ, zero, suc, pos, String, true, false, Option, none, some, List, [], ◌∷◌, ◌++◌,
  arith, eq_refl, sym, ◌∙◌, some_inj, take,
}
use Prim.Native.String.{◌++◌ as concat}
use onli_desk_full.Common.Map.{Map, lookup, insert, delete, lookup-delete, lookup-insert}
use onli_desk_full.Common.Text.{is_listed}
use onli_desk_full.FileTransfer.Chunks.{Bytes, FileChunk, header_size}
use onli_desk_full.FileTransfer.Handler.{
  FileSystem, Json, FileTransferRequest, FileTransferResponse, TransferSession, TransferHandler,
  approved, in_progress, paused, new_transfer_handler, handle_new_transfer_request,
  handle_transfer_response, approve_transfer, opened, save,
}
use onli_desk_full.FileTransfer.Handler.Receive.{Slice, takes_chunks, complete_transfer}
use onli_desk_full.FileTransfer.Handler.Control.{
  Event, text, handle_transfer_control, handle_control_message, run, step,
}
use onli_desk_full.FileTransfer.Handler.Sound.{was_approved}
use onli_desk_full.FileTransfer.Handler.Approval.{started_was_approved}
use onli_desk_full.FileTransfer.Handler.Files.{complete_transfer-loses_file, resume-pause}

abbrev pub contents : String → Map Bytes → Bytes
contents path fs = elim (lookup path fs) [ none ↦ [] | some bytes ↦ bytes ]

-- Files by their paths; a handle is a path, and every operation succeeds.
abbrev pub disk : FileSystem
disk = record {
  Files = Map Bytes;
  Handle = String;
  create = λ path fs. some (path, insert path [] fs);
  write = λ path bytes fs. (true, insert path (contents path fs ++ bytes) fs);
  close = λ path fs. fs;
  remove = λ path fs. delete path fs;
  read = λ path fs. lookup path fs;
}

disk_removes : (path : String) (fs : Map Bytes) → disk.read path (disk.remove path fs) ≡ none
disk_removes path fs = ground (arith, lookup-delete path path fs, eq_refl path)

abbrev digest : Bytes → String
digest _ = "sum"

abbrev pub path_of : String → String → String → String
path_of dir id name = concat dir (concat id name)

abbrev pub request : FileTransferRequest
request = record {
  id = "t";
  session_id = "s";
  kind = "upload";
  filename = "notes.txt";
  file_size = pos 2;
  checksum = "sum";
  timestamp = pos 0;
  technician = "technician";
}

abbrev answer : FileTransferResponse
answer = record {
  kind = "transfer_response";
  transfer_id = "t";
  status = "approved";
  message = "";
  is_approved = true;
  timestamp = pos 1;
}

-- The first byte of a message says what it is.
abbrev type_of : Bytes → Option String
type_of (suc zero ∷ _) = some "transfer_request"
type_of (suc (suc zero) ∷ _) = some "transfer_response"
type_of _ = none

abbrev json : Json
json = record {
  type_of = type_of;
  request = λ _. some request;
  response = λ _. some answer;
  control = λ _. none;
  progress_id = λ _. none;
  header = λ _. none;
}

abbrev new : TransferHandler disk
new = new_transfer_handler disk (pos 100) (".txt" ∷ []) "/tmp/" []

abbrev events : List (Event disk)
events = text (pos 0) 1 (1 ∷ []) ∷ text (pos 1) 2 (2 ∷ []) ∷ []

abbrev handler : TransferHandler disk
handler = run disk json digest path_of new events

abbrev pub transfer : TransferSession disk
transfer = record (opened disk (pos 0) 1 request) {
  status = approved;
  client_conn = some 2;
  file = some "/tmp/tnotes.txt";
  temp_path = "/tmp/tnotes.txt";
}

handler_transfer : lookup "t" handler.active_sessions ≡ some transfer
unfolding run step handle_control_message handle_new_transfer_request handle_transfer_response
    approve_transfer new_transfer_handler lookup insert is_listed
handler_transfer = refl

started_was_approved_example : (transfer.id ≡ "t") × (was_approved "t" handler.audit_calls ≡ true)
started_was_approved_example =
    started_was_approved disk json digest path_of (pos 100) (".txt" ∷ []) "/tmp/" [] events "t"
      transfer handler_transfer refl

complete_transfer-loses_file_example :
    let g = complete_transfer disk digest transfer handler in
    (lookup "t" g.active_sessions ≡ none) × (disk.read "/tmp/tnotes.txt" g.files ≡ none)
complete_transfer-loses_file_example =
    complete_transfer-loses_file disk disk_removes digest transfer handler refl

-- A message of zeros, and a handler that waits for the answer.
abbrev zeros : ℕ → Bytes
zeros zero = []
zeros (suc n) = 0 ∷ zeros n

abbrev message : Slice
message = record { bytes = zeros 258; spare = [] }

abbrev parsed : FileChunk
parsed = record {
  id = "t";
  sequence = pos 0;
  content = [];
  size = 0;
  is_last = true;
  checksum = "";
}

abbrev header : Bytes → Option FileChunk
header _ = some parsed

abbrev waiting : TransferHandler disk
waiting = handle_new_transfer_request disk (pos 0) 1 request new

waiting_lookup : lookup "t" waiting.active_sessions ≡ some (opened disk (pos 0) 1 request)
unfolding handle_new_transfer_request new_transfer_handler lookup insert is_listed
waiting_lookup = refl

waiting_idle :
    (c : FileChunk) (s : TransferSession disk)
    → header (take header_size (message.bytes ++ message.spare)) ≡ some c
    → lookup c.id waiting.active_sessions ≡ some s
    → takes_chunks disk s.status ≡ false
waiting_idle c s read found =
    let same : parsed ≡ c = some_inj read in
    let it : opened disk (pos 0) 1 request ≡ s = some_inj (
      sym waiting_lookup
      ∙ ap (λ (x : FileChunk). lookup x.id waiting.active_sessions) same
      ∙ found) in
    rw (← it) refl

-- The transfer in progress.
abbrev busy : TransferHandler disk
busy = save disk (record transfer { status = in_progress }) handler

busy_lookup : lookup "t" busy.active_sessions ≡ some (record transfer { status = in_progress })
busy_lookup =
    lookup-insert "t" "t" (record transfer { status = in_progress }) handler.active_sessions

resume-pause_example :
    let paused_h = handle_transfer_control disk (record { id = "t"; action = "pause" }) busy in
    (lookup "t" paused_h.active_sessions ≡ some (record transfer { status = paused }))
    × (lookup "t"
          (handle_transfer_control disk
            (record { id = "t"; action = "resume" })
            paused_h).active_sessions
        ≡ some (record transfer { status = in_progress }))
    × (lookup "t"
          (handle_transfer_control disk
            (record { id = "t"; action = "cancel" })
            paused_h).active_sessions
        ≡ none)
resume-pause_example =
    resume-pause disk "t" busy (record transfer { status = in_progress }) busy_lookup refl refl
