-- ===== src/FileTransfer/Handler/Receive.antt =====
-- transfer_handler.go: a chunk that a handler receives (`handleFileChunk`) and the end of a transfer
-- (`completeTransfer`, `cleanupTransfer`, `verifyChecksum`).
use onli_desk_full.Common.{
  ◌+◌, pos, wrap64, ◌+ℤ◌, String, ◌==◌, Bool, true, false, ◌&&◌, not, Option, none, some, ◌++◌,
  length, take, drop, ltb, if◌then◌else◌,
}
use onli_desk_full.Common.Map.{lookup, delete}
use onli_desk_full.FileTransfer.Chunks.{Bytes, FileChunk, put, int_beq, header_size}
use onli_desk_full.FileTransfer.Handler.{
  TransferStatus, approved, in_progress, completed, failed, FileSystem, TransferSession,
  TransferHandler, progressed, transfer_completed, progress, call_audit, send_both, save,
}

-- A slice of bytes, with the bytes behind it up to its capacity.
pub record Slice : Type 0 where
  pub bytes : Bytes
  pub spare : Bytes

-- The handler afterwards, and whether the goroutine panicked.
pub record Handled (A : Type 0) : Type 0 where
  pub handler : A
  pub panicked : Bool

module _ (os : FileSystem) where
  -- `os.Remove`, whose error is only logged, and the end of the session.
  abbrev pub cleanup_transfer : TransferSession os → TransferHandler os → TransferHandler os
  cleanup_transfer s h =
      let files = if s.temp_path == "" then h.files else os.remove s.temp_path h.files in
      record h { files = files; active_sessions = delete s.id h.active_sessions }

  -- `verifyChecksum`, with `crypto/sha256` as `digest`.
  abbrev pub verify_checksum : (Bytes → String) → String → String → os.Files → Bool
  verify_checksum digest path expected files = elim (os.read path files) [
    | none ↦ false
    | some bytes ↦ digest bytes == expected
  ]

  abbrev pub close_file : TransferSession os → TransferHandler os → TransferHandler os
  close_file s h = elim s.file [ none ↦ h | some f ↦ record h { files = os.close f h.files } ]

  unfoldable pub complete_transfer :
      (Bytes → String) → TransferSession os → TransferHandler os → TransferHandler os
  complete_transfer digest s h =
      let closed = close_file s h in
      if not (s.request.checksum == "")
        && not (verify_checksum digest s.temp_path s.request.checksum closed.files)
      then cleanup_transfer s (call_audit os (progressed s.id s.request.session_id failed) closed)
      else cleanup_transfer s (
          send_both os s (transfer_completed s.id)
            (call_audit os (progressed s.id s.request.session_id completed) closed))

  abbrev pub takes_chunks : TransferStatus → Bool
  takes_chunks approved = true
  takes_chunks in_progress = true
  takes_chunks _ = false

  -- `session.File.Write`, an error on a nil file.
  abbrev pub write_file : TransferSession os → Bytes → TransferHandler os → Bool × os.Files
  write_file s bytes h = elim s.file [ none ↦ (false, h.files) | some f ↦ os.write f bytes h.files ]

  -- The percentage is infinite or no number if the size is 0, and `json.Marshal` fails on it.
  abbrev pub report_progress : TransferSession os → TransferHandler os → TransferHandler os
  report_progress s h =
      if int_beq s.request.file_size (pos 0)
      then h
      else send_both os s (progress s.id s.bytes_transferred s.request.file_size) h

  unfoldable pub receive_chunk :
      (Bytes → String)
      → FileChunk
      → Bytes
      → TransferSession os
      → TransferHandler os
      → TransferHandler os
  unfolding complete_transfer
  receive_chunk digest c bytes s h =
      let (is_written, files) = write_file s bytes h in
      if not is_written
      then save os (record s { status = failed }) (record h { files = files })
      else let t = record s {
        status = in_progress;
        bytes_transferred = wrap64 (s.bytes_transferred +ℤ pos (length bytes));
        received_chunks = put c.sequence true s.received_chunks;
      } in
        let k = report_progress t (save os t (record h { files = files })) in
        if c.is_last then complete_transfer digest t k else k

  -- From the test of the status on. `data[256:]` panics beyond the length; by then an approved session
  -- is already in progress.
  unfoldable pub take_chunk :
      (Bytes → String)
      → FileChunk
      → Slice
      → TransferSession os
      → TransferHandler os
      → Handled (TransferHandler os)
  unfolding receive_chunk
  take_chunk digest c m s h =
      if not (takes_chunks s.status)
      then record { handler = h; panicked = false }
      else if ltb (length m.bytes) header_size
      then record { handler = save os (record s { status = in_progress }) h; panicked = true }
      else record {
        handler = receive_chunk digest c (drop header_size m.bytes) s h;
        panicked = false;
      }

  -- `data[:256]` panics beyond the capacity.
  unfoldable pub handle_file_chunk :
      (Bytes → Option FileChunk)
      → (Bytes → String)
      → Slice
      → TransferHandler os
      → Handled (TransferHandler os)
  unfolding take_chunk
  handle_file_chunk header digest m h =
      let same : Handled (TransferHandler os) = record { handler = h; panicked = false } in
      if ltb (length m.bytes + length m.spare) header_size
      then record { handler = h; panicked = true }
      else elim (header (take header_size (m.bytes ++ m.spare))) [
        | none ↦ same
        | some c ↦ elim (lookup c.id h.active_sessions) [
          | none ↦ same
          | some s ↦ take_chunk digest c m s h
        ]
      ]
