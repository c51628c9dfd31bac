-- ===== src/Server/Config.antt =====
-- src/server/cmd/main.go: the configuration of the server, `loadConfig`, `saveDefaultConfig` and the
-- command line. Parameters: `encoding/json` as `marshal` and `unmarshal`, the files, and a fresh key.
use onli_desk_full.Common.{
  ℤ, pos, String, ◌==◌, Bool, false, Option, none, some, List, [], ◌∷◌, if◌then◌else◌,
}
use onli_desk_full.FileTransfer.Chunks.{Bytes}
use onli_desk_full.FileTransfer.Manager.{TransferConfig, default_transfer_config}
use onli_desk_full.FileTransfer.Settings.{SecurityConfig, default_security_config}
use onli_desk_full.RemoteAccess.Config.{RemoteAccessConfig}
use onli_desk_full.RemoteAccess.Config.Defaults.{default_config}

-- `ServerConfig`. The three parts are pointers.
pub record ServerConfig : Type 0 where
  pub port : String
  pub host : String
  pub tls_enabled : Bool
  pub cert_file : String
  pub key_file : String
  pub transfer_config : Option TransferConfig
  pub security_config : Option SecurityConfig
  pub remote_access_config : Option RemoteAccessConfig
  pub cors_origins : List String
  pub log_level : String
  pub max_connections : ℤ
  pub read_timeout : ℤ
  pub write_timeout : ℤ
  pub idle_timeout : ℤ

unfoldable pub default_server_config : Bytes → ServerConfig
unfolding default_transfer_config default_security_config default_config
default_server_config key = record {
  port = "8080";
  host = "localhost";
  tls_enabled = false;
  cert_file = "./certs/server.crt";
  key_file = "./certs/server.key";
  transfer_config = some default_transfer_config;
  security_config = some (default_security_config key);
  remote_access_config = some default_config;
  cors_origins = "http://localhost:3000" ∷ "http://localhost:5173" ∷ [];
  log_level = "info";
  max_connections = pos 1000;
  read_timeout = pos 30_000_000_000;
  write_timeout = pos 30_000_000_000;
  idle_timeout = pos 60_000_000_000;
}

-- A file, as `os.Stat` and `os.ReadFile` find it.
pub data Found : Type 0 where
  missing unreadable : Found
  contents : Bytes → Found

pub data LoadError : Type 0 where
  config_file_not_found config_file_not_read config_file_not_parsed : LoadError

pub data Loaded : Type 0 where
  loaded : ServerConfig → Loaded
  load_failed : LoadError → Loaded

abbrev pub default_path : String
default_path = "./config/server.json"

abbrev pub or_else {ℓ} : {A : Type ℓ} → A → Option A → A
or_else d none = d
or_else d (some a) = a

-- The key of a configuration that has none.
unfoldable pub with_key : Bytes → SecurityConfig → SecurityConfig
with_key key c = elim c.encryption_key [ [] ↦ record c { encryption_key = key } | b ∷ bs ↦ c ]

-- The parts that are missing.
unfoldable pub complete_config : Bytes → ServerConfig → ServerConfig
unfolding with_key default_transfer_config default_security_config default_config
complete_config key c = record c {
  transfer_config = some (or_else default_transfer_config c.transfer_config);
  security_config = elim c.security_config [
    | none ↦ some (default_security_config key)
    | some s ↦ some (with_key key s)
  ];
  remote_access_config = some (or_else default_config c.remote_access_config);
}

module _ (unmarshal : Bytes → Option ServerConfig) (files : String → Found) where
  unfoldable pub load_config : Bytes → String → Loaded
  unfolding complete_config
  load_config key path = elim (files (if path == "" then default_path else path)) [
    | missing ↦ load_failed config_file_not_found
    | unreadable ↦ load_failed config_file_not_read
    | contents bytes ↦ elim (unmarshal bytes) [
      | none ↦ load_failed config_file_not_parsed
      | some c ↦ loaded (complete_config key c)
    ]
  ]

  -- `NewOnlideskServer` takes the defaults if the file cannot be loaded.
  unfoldable pub config_of_server : Bytes → String → ServerConfig
  unfolding load_config default_server_config
  config_of_server key path = elim (load_config key path) [
    | loaded c ↦ c
    | load_failed e ↦ default_server_config key
  ]

pub data SaveError : Type 0 where
  no_directory not_marshalled not_written : SaveError

-- The file after `saveDefaultConfig`: `made` says whether its directory can be made, and `written`
-- whether it can be written.
unfoldable pub save_default_config :
    (ServerConfig → Option Bytes) → Bool → Bool → Bytes → Found → Found × Option SaveError
unfolding default_server_config
save_default_config marshal made written key before =
    if made
    then elim (marshal (default_server_config key)) [
      | none ↦ (before, some not_marshalled)
      | some bytes ↦ if written then (contents bytes, none) else (before, some not_written)
    ]
    else (before, some no_directory)

-- What `main` does with its arguments, the name of the program left out.
pub data Command : Type 0 where
  serve generate_config : String → Command
  show_help : Command

unfoldable pub command_of : List String → Command
command_of [] = serve default_path
command_of (option ∷ rest) =
    let path : String = elim rest [ [] ↦ default_path | p ∷ ps ↦ p ] in
    if option == "--config"
    then serve path
    else if option == "--generate-config"
    then generate_config path
    else if option == "--help"
    then show_help
    else serve default_path
