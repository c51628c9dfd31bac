-- ===== src/FileTransfer/Upload.antt =====
-- src/server/internal/filetransfer/file_stream.go, `uploadWorker`: the goroutine that receives a
-- file. Each round of its loop takes one input: a cancellation, a pause (with the resume that it
-- waits for), or a message or an error from the WebSocket. `encoding/json`, `crypto/sha256` and the
-- buffered writer are parameters: `unmarshal`, `digest`, and `write_ok content bytes`, whether a
-- write after `content` succeeds. The progress messages are left out.
pub mod Drain
pub mod Content
pub mod Acceptance
pub mod Completion
use onli_desk_full.Common.{
  ◌≡◌, ℕ, zero, suc, ◌+◌, ℤ, pos, String, Bool, true, false, Option, none, some, List, [], ◌∷◌,
  ◌++◌, if◌then◌else◌, length, not,
}
use onli_desk_full.FileTransfer.Chunks.{
  Bytes, FileChunk, Parsed, chunk, bad, parse_chunk, verify_chunk_checksum, find, put, remove,
}

-- How the worker stands: in its loop, or returned after sending on `completeChan`, on a
-- cancellation, after a write error or a WebSocket error on `errorChan`, or when the connection
-- was closed.
pub data Outcome : Type 0 where
  running completed cancelled write_failed socket_failed disconnected : Outcome

-- `written` is what the writer was given, `retransmissions` the chunk numbers asked for again,
-- newest first, and `flushed` whether `writer.Flush` was called.
pub record Upload : Type 0 where
  pub received_chunks : List (ℤ × Bytes)
  pub expected_chunk : ℕ
  pub written : Bytes
  pub current_chunk : ℕ
  pub retransmissions : List ℤ
  pub flushed : Bool
  pub outcome : Outcome

pub data Input : Type 0 where
  cancels : Input
  pauses_and_resumes : Input
  binary : Bytes → Input
  text : Bytes → Input
  read_error : Bool → Input

abbrev pub is_running : Outcome → Bool
is_running running = true
is_running _ = false

unfoldable pub start : Upload
start = record {
  received_chunks = [];
  expected_chunk = 0;
  written = [];
  current_chunk = 0;
  retransmissions = [];
  flushed = false;
  outcome = running;
}

-- One chunk out of `receivedChunks` and into the file.
abbrev pub write_next : Bytes → Upload → Upload
write_next bytes u = record u {
  received_chunks = remove (pos u.expected_chunk) u.received_chunks;
  expected_chunk = suc u.expected_chunk;
  written = u.written ++ bytes;
  current_chunk = suc u.expected_chunk;
}

module _ (write_ok : Bytes → Bytes → Bool) where
  -- The inner loop, "write chunks in order". `is_last` is the flag of the chunk that was received,
  -- not of the one that is written.
  unfoldable pub drain : ℕ → Bool → Upload → Upload
  drain zero is_last u = u
  drain (suc fuel) is_last u = elim (find (pos u.expected_chunk) u.received_chunks) [
    | none ↦ u
    | some bytes ↦ elim (write_ok u.written bytes) [
      | false ↦ record u { outcome = write_failed }
      | true ↦ elim is_last [
        | true ↦ record (write_next bytes u) { flushed = true; outcome = completed }
        | false ↦ drain fuel false (write_next bytes u)
      ]
    ]
  ]

  -- A chunk that parsed and whose checksum is right. The inner loop runs at most once for each
  -- stored chunk.
  unfoldable pub accept_chunk : FileChunk → Upload → Upload
  unfolding drain put
  accept_chunk c u =
      let stored = record u { received_chunks = put c.sequence c.content u.received_chunks } in
      drain (suc (length stored.received_chunks)) c.is_last stored

module _ (unmarshal : Bytes → Option FileChunk) (digest : Bytes → String)
    (write_ok : Bytes → Bytes → Bool) where
  abbrev pub handle_parsed : Parsed → Upload → Upload
  handle_parsed (bad e) u = u
  handle_parsed (chunk c) u =
      if verify_chunk_checksum digest c
      then accept_chunk write_ok c u
      else record u { retransmissions = c.sequence ∷ u.retransmissions }

  unfoldable pub handle_input : Input → Upload → Upload
  handle_input cancels u = record u { outcome = cancelled }
  handle_input pauses_and_resumes u = u
  handle_input (text bytes) u = u
  handle_input (read_error true) u = record u { outcome = socket_failed }
  handle_input (read_error false) u = record u { outcome = disconnected }
  handle_input (binary bytes) u = handle_parsed (parse_chunk unmarshal bytes) u

  -- The outer loop: a worker that has returned reads nothing more.
  unfoldable pub upload_worker : List Input → Upload → Upload
  unfolding handle_input
  upload_worker [] u = u
  upload_worker (i ∷ is) u = elim (is_running u.outcome) [
    | true ↦ upload_worker is (handle_input i u)
    | false ↦ u
  ]
