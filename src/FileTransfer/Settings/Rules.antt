-- ===== src/FileTransfer/Settings/Rules.antt =====
-- config.go: the settings that `validateTransferConfig` and `validateSecurityConfig` accept.
use onli_desk_full.Common.{◌≡◌, ◌≢◌, ◌⊎◌, ◌↔◌, pos, ◌≤ℤ◌, false, none, length, arith, eq_iff}
use onli_desk_full.FileTransfer.Manager.{TransferConfig}
use onli_desk_full.FileTransfer.Settings.{
  SecurityConfig, validate_transfer_config, validate_security_config,
}

-- A transfer configuration is accepted exactly if its largest file size lies between 1 byte and
-- 10 GiB, 1 to 100 transfers may run at once, a chunk has 1 byte to 10 MiB, the timeout is positive,
-- and there are 0 to 10 retries.
pub validate_transfer_config_iff :
    (c : TransferConfig)
    → (validate_transfer_config c ≡ none) ↔ (
        (pos 1 ≤ℤ c.max_file_size)
        × (c.max_file_size ≤ℤ pos 10_737_418_240)
        × (pos 1 ≤ℤ c.max_concurrent)
        × (c.max_concurrent ≤ℤ pos 100)
        × (pos 1 ≤ℤ c.chunk_size)
        × (c.chunk_size ≤ℤ pos 10_485_760)
        × (pos 1 ≤ℤ c.transfer_timeout)
        × (pos 0 ≤ℤ c.retry_attempts)
        × (c.retry_attempts ≤ℤ pos 10))
unfolding validate_transfer_config
validate_transfer_config_iff c = ground arith

-- A security configuration is accepted exactly if file names may have 1 to 1000 bytes, the key has 32
-- bytes where encryption is on, and a quarantine directory is named.
pub validate_security_config_iff :
    (c : SecurityConfig)
    → (validate_security_config c ≡ none) ↔ (
        (pos 1 ≤ℤ c.max_filename_length)
        × (c.max_filename_length ≤ℤ pos 1_000)
        × ((c.encryption_enabled ≡ false) ⊎ (length c.encryption_key ≡ 32))
        × (c.quarantine_dir ≢ ""))
unfolding validate_security_config
validate_security_config_iff c = ground (arith, eq_iff c.quarantine_dir "")
