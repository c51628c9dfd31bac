-- ===== src/FileTransfer/Manager/Streams.antt =====
-- transfer_session.go: the configuration of transfers; file_stream.go: a stream as the manager sees it.
use onli_desk_full.Common.{
  ℕ, ℤ, pos, String, Bool, true, false, ◌&&◌, not, Option, List, [], ◌∷◌, if◌then◌else◌,
}
use onli_desk_full.FileTransfer.Handler.{Conn}

pub record TransferConfig : Type 0 where
  pub max_file_size : ℤ
  pub allowed_types : List String
  pub temp_dir : String
  pub max_concurrent : ℤ
  pub transfer_timeout : ℤ
  pub cleanup_interval : ℤ
  pub rate_limit : ℤ
  pub require_approval : Bool
  pub audit_log : Bool
  pub virus_scan : Bool
  pub encrypt_files : Bool
  pub compression_level : ℤ
  pub retry_attempts : ℤ
  pub chunk_size : ℤ

unfoldable pub default_transfer_config : TransferConfig
default_transfer_config = record {
  max_file_size = pos 104_857_600;
  allowed_types =
      ".txt" ∷ ".pdf" ∷ ".doc" ∷ ".docx" ∷ ".xls" ∷ ".xlsx" ∷ ".zip" ∷ ".rar" ∷ ".jpg" ∷ ".png"
      ∷ ".gif" ∷ [];
  temp_dir = "./temp/transfers";
  max_concurrent = pos 5;
  transfer_timeout = pos 1_800_000_000_000;
  cleanup_interval = pos 300_000_000_000;
  rate_limit = pos 10_485_760;
  require_approval = true;
  audit_log = true;
  virus_scan = false;
  encrypt_files = true;
  compression_level = pos 6;
  retry_attempts = pos 3;
  chunk_size = pos 65_536;
}

-- The constant `ChunkSize` of file_stream.go.
abbrev pub stream_chunk_size : ℕ
stream_chunk_size = 65_536

-- A stream as the manager sees it. The channels for signals hold at most one: a Boolean each.
pub record FileStream : Type 0 where
  pub transfer_id : String
  pub file_path : String
  pub total_size : ℕ
  pub chunk_count : ℕ
  pub is_upload : Bool
  pub conn : Option Conn
  pub active : Bool
  pub paused : Bool
  pub pause_sent : Bool
  pub resume_sent : Bool
  pub cancel_sent : Bool

unfoldable pub pause_stream : FileStream → FileStream
pause_stream f = if f.active && not f.paused then record f { pause_sent = true } else f

unfoldable pub resume_stream : FileStream → FileStream
resume_stream f = if f.active && f.paused then record f { resume_sent = true } else f

unfoldable pub cancel_stream : FileStream → FileStream
cancel_stream f = if f.active then record f { cancel_sent = true } else f
