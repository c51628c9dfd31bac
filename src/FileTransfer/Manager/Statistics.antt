-- ===== src/FileTransfer/Manager/Statistics.antt =====
-- transfer_session.go: `GetStatistics`.
use onli_desk_full.Common.{◌≡◌, ℕ, suc, ◌+◌, ℤ, String, List, [], ◌∷◌, arith, length}
use onli_desk_full.Common.Map.{Map}
use onli_desk_full.FileTransfer.Handler.{
  TransferStatus, pending, approved, rejected, in_progress, paused, completed, cancelled, failed,
  FileSystem, TransferSession,
}
use onli_desk_full.FileTransfer.Manager.{TransferManager}

-- `statusCounts`, a counter for each status.
pub record StatusCounts : Type 0 where
  pub pendings : ℕ
  pub approveds : ℕ
  pub rejecteds : ℕ
  pub in_progresses : ℕ
  pub pauseds : ℕ
  pub completeds : ℕ
  pub cancelleds : ℕ
  pub faileds : ℕ

unfoldable pub count_one : TransferStatus → StatusCounts → StatusCounts
count_one pending c = record c { pendings = suc c.pendings }
count_one approved c = record c { approveds = suc c.approveds }
count_one rejected c = record c { rejecteds = suc c.rejecteds }
count_one in_progress c = record c { in_progresses = suc c.in_progresses }
count_one paused c = record c { pauseds = suc c.pauseds }
count_one completed c = record c { completeds = suc c.completeds }
count_one cancelled c = record c { cancelleds = suc c.cancelleds }
count_one failed c = record c { faileds = suc c.faileds }

abbrev no_counts : StatusCounts
no_counts = record {
  pendings = 0;
  approveds = 0;
  rejecteds = 0;
  in_progresses = 0;
  pauseds = 0;
  completeds = 0;
  cancelleds = 0;
  faileds = 0;
}

pub record TransferStatistics : Type 0 where
  pub total_sessions : ℕ
  pub active_streams : ℕ
  pub max_concurrent : ℤ
  pub temp_dir : String
  pub max_file_size : ℤ
  pub allowed_types : List String
  pub status_counts : StatusCounts

abbrev pub total : StatusCounts → ℕ
total c =
    c.pendings + c.approveds + c.rejecteds + c.in_progresses + c.pauseds + c.completeds
    + c.cancelleds + c.faileds

module _ (os : FileSystem) where
  unfoldable pub count_statuses : Map (TransferSession os) → StatusCounts → StatusCounts
  unfolding count_one
  count_statuses [] c = c
  count_statuses ((id, s) ∷ m) c = count_statuses m (count_one s.status c)

  unfoldable pub get_transfer_statistics : TransferManager os → TransferStatistics
  unfolding count_statuses
  get_transfer_statistics m = record {
    total_sessions = length m.sessions;
    active_streams = length m.file_streams;
    max_concurrent = m.config.max_concurrent;
    temp_dir = m.config.temp_dir;
    max_file_size = m.config.max_file_size;
    allowed_types = m.config.allowed_types;
    status_counts = count_statuses m.sessions no_counts;
  }

  total-count_statuses :
      (m : Map (TransferSession os)) (c : StatusCounts)
      → total (count_statuses m c) ≡ total c + length m
  unfolding count_statuses
  total-count_statuses [] c = omega arith
  total-count_statuses ((id, s) ∷ m) c =
      omega (arith, total-count_statuses m (count_one s.status c), total-count_one s.status c)
    where
      total-count_one :
          (x : TransferStatus) (k : StatusCounts) → total (count_one x k) ≡ suc (total k)
      total-count_one pending k = omega arith
      total-count_one approved k = omega arith
      total-count_one rejected k = omega arith
      total-count_one in_progress k = omega arith
      total-count_one paused k = omega arith
      total-count_one completed k = omega arith
      total-count_one cancelled k = omega arith
      total-count_one failed k = omega arith

  -- The counts of the statuses add up to the number of transfers.
  pub total-get_transfer_statistics :
      (m : TransferManager os)
      → total (get_transfer_statistics m).status_counts ≡ (get_transfer_statistics m).total_sessions
  unfolding get_transfer_statistics
  total-get_transfer_statistics m = omega (arith, total-count_statuses m.sessions no_counts)
