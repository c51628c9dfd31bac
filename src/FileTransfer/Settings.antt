-- ===== src/FileTransfer/Settings.antt =====
-- src/server/internal/filetransfer/config.go: `ConfigManager`, with the settings of security.go.
-- Parameters: `encoding/json` as `marshal` (of `SaveConfig`'s struct, its time left out) and
-- `unmarshal`, `made`, whether the directory can be made, and `write`, what `ioutil.WriteFile` makes of
-- the file and whether it succeeds. A fresh key is an argument. `called` counts the rounds of the
-- callbacks, each with the settings that it is given, newest first; the audit entries are left out.
pub mod Rules
pub mod Kept
use onli_desk_full.Common.{
  ◌≡◌, ℕ, suc, ℤ, pos, ltb_ℤ, leb_ℤ, nat_beq, String, ◌==◌, Bool, true, false, ◌&&◌, not, Option,
  none, some, List, [], ◌∷◌, if◌then◌else◌, length,
}
use onli_desk_full.FileTransfer.Chunks.{Bytes}
use onli_desk_full.FileTransfer.Manager.{TransferConfig, default_transfer_config}

pub record SecurityConfig : Type 0 where
  pub encryption_key : Bytes
  pub allowed_mime_types : List String
  pub blocked_extensions : List String
  pub max_filename_length : ℤ
  pub scan_for_malware : Bool
  pub quarantine_dir : String
  pub require_checksum : Bool
  pub checksum_algorithm : String
  pub encryption_enabled : Bool
  pub compression_enabled : Bool

-- What JSON sees of it: `EncryptionKey` has the tag `json:"-"`.
pub record SavedSecurity : Type 0 where
  pub allowed_mime_types : List String
  pub blocked_extensions : List String
  pub max_filename_length : ℤ
  pub scan_for_malware : Bool
  pub quarantine_dir : String
  pub require_checksum : Bool
  pub checksum_algorithm : String
  pub encryption_enabled : Bool
  pub compression_enabled : Bool

unfoldable pub saved_security : SecurityConfig → SavedSecurity
saved_security c = record {
  allowed_mime_types = c.allowed_mime_types;
  blocked_extensions = c.blocked_extensions;
  max_filename_length = c.max_filename_length;
  scan_for_malware = c.scan_for_malware;
  quarantine_dir = c.quarantine_dir;
  require_checksum = c.require_checksum;
  checksum_algorithm = c.checksum_algorithm;
  encryption_enabled = c.encryption_enabled;
  compression_enabled = c.compression_enabled;
}

-- Decoding leaves the fields that JSON does not see at their zero value.
unfoldable pub restored_security : SavedSecurity → SecurityConfig
restored_security c = record {
  encryption_key = [];
  allowed_mime_types = c.allowed_mime_types;
  blocked_extensions = c.blocked_extensions;
  max_filename_length = c.max_filename_length;
  scan_for_malware = c.scan_for_malware;
  quarantine_dir = c.quarantine_dir;
  require_checksum = c.require_checksum;
  checksum_algorithm = c.checksum_algorithm;
  encryption_enabled = c.encryption_enabled;
  compression_enabled = c.compression_enabled;
}

-- `DefaultSecurityConfig`, with the key that `rand.Read` fills.
unfoldable pub default_security_config : Bytes → SecurityConfig
default_security_config key = record {
  encryption_key = key;
  allowed_mime_types =
      "text/plain" ∷ "text/csv" ∷ "application/pdf" ∷ "application/msword"
      ∷ "application/vnd.openxmlformats-officedocument.wordprocessingml.document"
      ∷ "application/vnd.ms-excel"
      ∷ "application/vnd.openxmlformats-officedocument.spreadsheetml.sheet" ∷ "application/zip"
      ∷ "application/x-rar-compressed" ∷ "image/jpeg" ∷ "image/png" ∷ "image/gif" ∷ "image/bmp"
      ∷ "image/webp" ∷ [];
  blocked_extensions =
      ".exe" ∷ ".bat" ∷ ".cmd" ∷ ".com" ∷ ".scr" ∷ ".pif" ∷ ".vbs" ∷ ".js" ∷ ".jar" ∷ ".msi"
      ∷ ".dll" ∷ ".sys" ∷ ".ps1" ∷ ".sh" ∷ ".php" ∷ ".asp" ∷ ".jsp" ∷ [];
  max_filename_length = pos 255;
  scan_for_malware = false;
  quarantine_dir = "./quarantine";
  require_checksum = true;
  checksum_algorithm = "SHA256";
  encryption_enabled = true;
  compression_enabled = false;
}

pub data SettingsError : Type 0 where
  max_file_size_not_positive max_file_size_too_large : SettingsError
  max_concurrent_not_positive max_concurrent_too_large : SettingsError
  chunk_size_not_positive chunk_size_too_large : SettingsError
  transfer_timeout_not_positive : SettingsError
  retry_attempts_negative retry_attempts_too_many : SettingsError
  max_filename_length_not_positive max_filename_length_too_large : SettingsError
  encryption_key_not_32_bytes quarantine_dir_empty : SettingsError
  not_read not_parsed no_directory not_marshalled not_written nil_config : SettingsError

-- `validateTransferConfig` and `validateSecurityConfig`: the first error, if any.
unfoldable pub validate_transfer_config : TransferConfig → Option SettingsError
validate_transfer_config c =
    if leb_ℤ c.max_file_size (pos 0)
    then some max_file_size_not_positive
    else if ltb_ℤ (pos 10_737_418_240) c.max_file_size
    then some max_file_size_too_large
    else if leb_ℤ c.max_concurrent (pos 0)
    then some max_concurrent_not_positive
    else if ltb_ℤ (pos 100) c.max_concurrent
    then some max_concurrent_too_large
    else if leb_ℤ c.chunk_size (pos 0)
    then some chunk_size_not_positive
    else if ltb_ℤ (pos 10_485_760) c.chunk_size
    then some chunk_size_too_large
    else if leb_ℤ c.transfer_timeout (pos 0)
    then some transfer_timeout_not_positive
    else if ltb_ℤ c.retry_attempts (pos 0)
    then some retry_attempts_negative
    else if ltb_ℤ (pos 10) c.retry_attempts
    then some retry_attempts_too_many
    else none

unfoldable pub validate_security_config : SecurityConfig → Option SettingsError
validate_security_config c =
    if leb_ℤ c.max_filename_length (pos 0)
    then some max_filename_length_not_positive
    else if ltb_ℤ (pos 1_000) c.max_filename_length
    then some max_filename_length_too_large
    else if c.encryption_enabled && not (nat_beq (length c.encryption_key) 32)
    then some encryption_key_not_32_bytes
    else if c.quarantine_dir == ""
    then some quarantine_dir_empty
    else none

-- `file` is the configuration file, `none` if there is none.
pub record ConfigManager : Type 0 where
  pub transfer_config : TransferConfig
  pub security_config : SecurityConfig
  pub file : Option Bytes
  pub callbacks : ℕ
  pub called : List (TransferConfig × SecurityConfig)

module _ (marshal : TransferConfig → SavedSecurity → Option Bytes)
    (unmarshal : Bytes → Option (Option TransferConfig × Option SavedSecurity)) (made : Bool)
    (write : Bytes → Option Bytes → Option Bytes × Bool) where
  unfoldable pub save_config : ConfigManager → ConfigManager × Option SettingsError
  unfolding saved_security
  save_config m =
      if made
      then elim (marshal m.transfer_config (saved_security m.security_config)) [
        | none ↦ (m, some not_marshalled)
        | some bytes ↦
            let (file, written) = write bytes m.file in
            (record m { file = file }, if written then none else some not_written)
      ]
      else (m, some no_directory)

  unfoldable pub loaded :
      Bytes → Option TransferConfig × Option SavedSecurity → ConfigManager → ConfigManager
  unfolding restored_security
  loaded key (t, s) m = record m {
    transfer_config = elim t [ none ↦ default_transfer_config | some c ↦ c ];
    security_config = elim s [ none ↦ default_security_config key | some c ↦ restored_security c ];
  }

  unfoldable pub load_config : Bytes → ConfigManager → ConfigManager × Option SettingsError
  unfolding loaded default_transfer_config default_security_config
  load_config key m = elim m.file [
    | none ↦ (m, some not_read)
    | some bytes ↦ elim (unmarshal bytes) [
      | none ↦ (m, some not_parsed)
      | some parts ↦ (loaded key parts m, none)
    ]
  ]

  -- A round of the callbacks that are registered, if there are any.
  unfoldable pub notify : ConfigManager → ConfigManager
  notify m =
      if nat_beq m.callbacks 0
      then m
      else record m { called = (m.transfer_config, m.security_config) ∷ m.called }

  unfoldable pub after_update :
      (ConfigManager → ConfigManager)
      → ConfigManager × Option SettingsError
      → ConfigManager × Option SettingsError
  unfolding notify
  after_update rollback (m, some e) = (rollback m, some e)
  after_update rollback (m, none) = (notify m, none)

  unfoldable pub update_transfer_config :
      Option TransferConfig → ConfigManager → ConfigManager × Option SettingsError
  unfolding save_config after_update
  update_transfer_config none m = (m, some nil_config)
  update_transfer_config (some c) m = elim (validate_transfer_config c) [
    | some e ↦ (m, some e)
    | none ↦
        after_update (λ m'. record m' { transfer_config = m.transfer_config })
          (save_config (record m { transfer_config = c }))
  ]

  unfoldable pub update_security_config :
      Option SecurityConfig → ConfigManager → ConfigManager × Option SettingsError
  unfolding save_config after_update
  update_security_config none m = (m, some nil_config)
  update_security_config (some c) m = elim (validate_security_config c) [
    | some e ↦ (m, some e)
    | none ↦
        after_update (λ m'. record m' { security_config = m.security_config })
          (save_config (record m { security_config = c }))
  ]

  -- There is no way back if the defaults cannot be saved.
  unfoldable pub reset_to_defaults : Bytes → ConfigManager → ConfigManager × Option SettingsError
  unfolding save_config after_update default_transfer_config default_security_config
  reset_to_defaults key m =
      after_update (λ m'. m')
        (save_config (record m {
          transfer_config = default_transfer_config;
          security_config = default_security_config key;
        }))

unfoldable pub register_update_callback : ConfigManager → ConfigManager
register_update_callback m = record m { callbacks = suc m.callbacks }
