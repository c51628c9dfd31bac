-- ===== src/FileTransfer/Download.antt =====
-- src/server/internal/filetransfer/file_stream.go, `downloadWorker` and what it calls: the goroutine
-- that sends a file. The sleeps between two attempts are added up, and the progress messages are left
-- out. Parameters: `signals i`, what is on the channels before chunk `i`; `amounts i`, how many bytes
-- the reader is ready to give at read `i`, or an error; `accepts i a`, whether the connection takes
-- attempt `a` of chunk `i`; and `crypto/sha256` as `digest`.
pub mod Wire
pub mod Retry
pub mod Progress
pub mod Reads
pub mod Chunking
pub mod Unread
use onli_desk_full.Common.{
  ◌≡◌, ℕ, zero, suc, ◌+◌, ◌-◌, ◌*◌, ◌/◌, ◌≤◌, ◌<◌, ℤ, pos, String, Bool, true, false, Option, none,
  some, List, [], ◌∷◌, ◌++◌, length, take, drop, ltb, nat_beq, if◌then◌else◌,
}
use onli_desk_full.FileTransfer.Chunks.{Bytes, FileChunk, header_size}

-- `ChunkSize` and `RetryAttempts`.
abbrev pub chunk_size : ℕ
chunk_size = 65_536

abbrev pub retry_attempts : ℕ
retry_attempts = 3

-- What an attempt to send comes to: whether it succeeded, how many attempts were made, and the
-- seconds slept.
pub record Sending : Type 0 where
  pub success : Bool
  pub attempts : ℕ
  pub slept : ℕ

-- The loop, with `left` attempts to go; `count` have failed.
unfoldable pub send_attempts : ℕ → ℕ → ℕ → (ℕ → Bool) → Sending
send_attempts zero count slept accepts = record { success = false; attempts = count; slept = slept }
send_attempts (suc left) count slept accepts =
    let again =
      send_attempts left (suc count)
        (if ltb (suc count) retry_attempts then slept + suc count else slept) accepts in
    if accepts count then record { success = true; attempts = suc count; slept = slept } else again

unfoldable pub send_chunk_with_retry : (ℕ → Bool) → Sending
unfolding send_attempts
send_chunk_with_retry accepts = send_attempts retry_attempts 0 0 accepts

-- `chunkCount`, for a size that does not overflow.
unfoldable pub chunk_count_of : ℕ → ℕ
chunk_count_of size = (size + chunk_size - 1) / chunk_size

pub data Signal : Type 0 where
  nothing cancels pauses_and_resumes : Signal

pub data Ending : Type 0 where
  sending finished stopped read_error send_error : Ending

-- `sent` are the chunks that were delivered, in order, and `unread` what the reader still holds.
pub record Download : Type 0 where
  pub sent : List FileChunk
  pub unread : Bytes
  pub current_chunk : ℕ
  pub ending : Ending

unfoldable pub start_download : Bytes → Download
start_download file = record { sent = []; unread = file; current_chunk = 0; ending = sending }

-- The bytes of one `reader.Read(buffer)`.
abbrev pub read_bytes : ℕ → Bytes → Bytes
read_bytes amount unread = take (if ltb amount chunk_size then amount else chunk_size) unread

-- What is read before chunk `i`, if the worker gets that far: cancelled, an error, or bytes.
pub data Reading : Type 0 where
  cancelled failed : Reading
  got : Bytes → Reading

-- The signals are looked at before the file is read.
unfoldable pub read_chunk : Signal → Option ℕ → Bytes → Reading
read_chunk cancels amount unread = cancelled
read_chunk nothing none unread = failed
read_chunk nothing (some n) unread = got (read_bytes n unread)
read_chunk pauses_and_resumes none unread = failed
read_chunk pauses_and_resumes (some n) unread = got (read_bytes n unread)

abbrev pub delivered : FileChunk → ℕ → Bytes → Download → Download
delivered c i bytes d = record d {
  sent = d.sent ++ c ∷ [];
  unread = drop (length bytes) d.unread;
  current_chunk = suc i;
}

module _ (id : String) (digest : Bytes → String) where
  -- The chunk `i` of `count`.
  abbrev pub chunk_at : ℕ → ℕ → Bytes → FileChunk
  chunk_at count i bytes = record {
    id = id;
    sequence = pos i;
    content = bytes;
    size = length bytes;
    is_last = nat_beq (suc i) count;
    checksum = digest bytes;
  }

  module _ (signals : ℕ → Signal) (amounts : ℕ → Option ℕ) (accepts : ℕ → ℕ → Bool) where
    -- The loop over the chunk index `i`, with `left` rounds to go, of `count`.
    unfoldable pub download_loop : ℕ → ℕ → ℕ → Download → Download
    unfolding read_chunk send_chunk_with_retry
    download_loop zero count i d = record d { ending = finished }
    download_loop (suc left) count i d = elim (read_chunk (signals i) (amounts i) d.unread) [
      | cancelled ↦ record d { ending = stopped }
      | failed ↦ record d { ending = read_error }
      | got bytes ↦ elim bytes [
        | [] ↦ record d { ending = finished }
        | b ∷ bs ↦ elim (send_chunk_with_retry (accepts i)).success [
          | false ↦ record d { unread = drop (length (b ∷ bs)) d.unread; ending = send_error }
          | true ↦
              download_loop left count (suc i) (delivered (chunk_at count i (b ∷ bs)) i (b ∷ bs) d)
        ]
      ]
    ]

    unfoldable pub download_worker : Bytes → Download
    unfolding download_loop chunk_count_of start_download
    download_worker file =
        download_loop (chunk_count_of (length file)) (chunk_count_of (length file)) 0
          (start_download file)
