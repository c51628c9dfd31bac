-- ===== src/RemoteAccess/Config/Defaults.antt =====
-- config.go: `DefaultRemoteAccessConfig`.
use onli_desk_full.Common.{ℕ, pos, true, false, [], ◌∷◌, ◌*◌}
use onli_desk_full.RemoteAccess.Config.{
  RemoteAccessConfig, elevated_privilege, registry_privilege, services_privilege,
}

abbrev seconds : ℕ → ℕ
seconds n = n * 1_000_000_000

abbrev minutes : ℕ → ℕ
minutes n = n * 60_000_000_000

unfoldable pub default_config : RemoteAccessConfig
default_config = record {
  enabled = true;
  max_concurrent_sessions = pos 10;
  session_timeout = pos (minutes 240);
  idle_timeout = pos (minutes 30);
  cleanup_interval = pos (minutes 5);
  websocket_read_timeout = pos (seconds 60);
  websocket_write_timeout = pos (seconds 10);
  websocket_ping_interval = pos (seconds 30);
  websocket_pong_timeout = pos (seconds 10);
  max_message_size = pos 1_048_576;
  require_authentication = true;
  allowed_origins = "*" ∷ [];
  rate_limit_enabled = true;
  rate_limit_requests = pos 100;
  rate_limit_window = pos (minutes 1);
  max_failed_attempts = pos 5;
  lockout_duration = pos (minutes 15);
  privilege_escalation = record {
    enabled = true;
    require_approval = true;
    auto_approval_timeout = pos (minutes 5);
    max_privilege_duration = pos (minutes 120);
    default_privilege_duration = pos (minutes 30);
    require_justification = true;
    min_justification_length = pos 10;
    allowed_privileges = elevated_privilege ∷ registry_privilege ∷ services_privilege ∷ [];
    notify_on_escalation = true;
    log_all_requests = true;
  };
  audit_enabled = true;
  audit_log_dir = "./logs/audit";
  audit_retention_days = pos 90;
  file_transfer_enabled = true;
  max_file_size = pos 104_857_600;
  allowed_file_types =
      ".txt" ∷ ".log" ∷ ".cfg" ∷ ".conf" ∷ ".ini" ∷ ".xml" ∷ ".json" ∷ ".yaml" ∷ ".yml" ∷ [];
  blocked_file_types = ".exe" ∷ ".bat" ∷ ".cmd" ∷ ".ps1" ∷ ".sh" ∷ ".scr" ∷ ".com" ∷ ".pif" ∷ [];
  screen_sharing_enabled = true;
  max_screenshot_size = pos 2_073_600;
  screenshot_quality = pos 80;
  screenshot_interval = pos (seconds 1);
  command_execution_enabled = false;
  allowed_commands = "dir" ∷ "ls" ∷ "pwd" ∷ "whoami" ∷ "hostname" ∷ "ipconfig" ∷ "ifconfig" ∷ [];
  blocked_commands = "rm" ∷ "del" ∷ "format" ∷ "fdisk" ∷ "mkfs" ∷ "sudo" ∷ "su" ∷ "runas" ∷ [];
  command_timeout = pos (seconds 30);
}
