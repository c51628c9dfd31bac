-- ===== src/FileTransfer/Download/Retry.antt =====
-- file_stream.go: `sendChunkWithRetry`, and the progress that `sendProgress` and `GetProgress` report.
use onli_desk_full.Common.{◌≡◌, ℕ, Bool, ◌||◌, arith, if◌then◌else◌}
use onli_desk_full.FileTransfer.Download.{send_attempts, send_chunk_with_retry}

-- A chunk is sent exactly if one of the first three attempts succeeds. No attempt follows one that
-- succeeds, the third is the last, and the sleeps between them are of one second and of two.
pub send_chunk_with_retry_lem :
    (accepts : ℕ → Bool)
    → let r = send_chunk_with_retry accepts in
      (r.success ≡ (accepts 0 || accepts 1 || accepts 2))
      × (r.attempts ≡ (if accepts 0 then 1 else if accepts 1 then 2 else 3))
      × (r.slept ≡ (if accepts 0 then 0 else if accepts 1 then 1 else 3))
unfolding send_chunk_with_retry send_attempts
send_chunk_with_retry_lem accepts = ground arith
