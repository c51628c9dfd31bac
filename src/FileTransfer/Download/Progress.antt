-- ===== src/FileTransfer/Download/Progress.antt =====
-- file_stream.go: the progress that `sendProgress` and `GetProgress` report of a stream: the bytes,
-- counted by chunks, and the seconds left. The speed and the percentage are floating point: the
-- speed is an argument, and the percentage is left out.
use onli_desk_full.Common.{ℕ, suc, ◌-◌, ◌*◌, ◌/◌, ◌≤◌, ltb, arith, if◌then◌else◌}
use onli_desk_full.FileTransfer.Download.{chunk_size}

pub record Progress : Type 0 where
  pub bytes_transferred : ℕ
  pub total_bytes : ℕ
  pub eta : ℕ

unfoldable pub bytes_transferred_at : ℕ → ℕ → ℕ
bytes_transferred_at total current =
    if ltb total (current * chunk_size) then total else current * chunk_size

-- `sendProgress`, with the speed in bytes a second.
unfoldable pub progress_at : ℕ → ℕ → ℕ → Progress
unfolding bytes_transferred_at
progress_at speed total current =
    let bytes = bytes_transferred_at total current in
    record {
      bytes_transferred = bytes;
      total_bytes = total;
      eta = if ltb 0 speed then (total - bytes) / speed else 0;
    }

-- The bytes reported grow with the chunks and stop at the size of the file.
pub bytes_transferred_at_bounds :
    (total current : ℕ)
    → (bytes_transferred_at total current ≤ total)
      × (bytes_transferred_at total current ≤ bytes_transferred_at total (suc current))
unfolding bytes_transferred_at
bytes_transferred_at_bounds total current = ground arith
