-- ===== src/Server/Loading.antt =====
-- src/server/cmd/main.go: what the server loads, and what it loads of a file that it generated.
use onli_desk_full.Common.{
  ◌≡◌, refl, ℕ, String, ◌==◌, Option, none, some, [], ◌∷◌, Bool, true, false, arith, if◌then◌else◌,
  inl, inr, Option-cases,
}
use onli_desk_full.FileTransfer.Chunks.{Bytes}
use onli_desk_full.FileTransfer.Settings.{SecurityConfig, default_security_config}
use onli_desk_full.Server.Config.{
  ServerConfig, default_server_config, Found, missing, unreadable, contents, loaded, default_path,
  with_key, complete_config, load_config, config_of_server, save_default_config,
}

abbrev pub IsThere {ℓ} : {A : Type ℓ} → Option A → Type 0
IsThere none = ⊥
IsThere (some a) = Unit

-- A part that is there, with a key that is not empty.
abbrev pub HasKey : Option SecurityConfig → Type 0
HasKey none = ⊥
HasKey (some c) = elim c.encryption_key [ [] ↦ ⊥ | b ∷ bs ↦ Unit ]

abbrev pub IsComplete : ServerConfig → Type 0
IsComplete c = IsThere c.transfer_config × HasKey c.security_config × IsThere c.remote_access_config

module _ (b : ℕ) (key : Bytes) where
  with_key-HasKey : (c : SecurityConfig) → HasKey (some (with_key (b ∷ key) c))
  unfolding with_key
  with_key-HasKey c = keyed c.encryption_key refl
    where
      keyed : (k : Bytes) → c.encryption_key ≡ k → HasKey (some (with_key (b ∷ key) c))
      keyed [] e = rw (e, with_key) tt
      keyed (x ∷ xs) e = rw (e, with_key) (rw (e, HasKey) tt)

  complete_config-IsComplete : (c : ServerConfig) → IsComplete (complete_config (b ∷ key) c)
  unfolding complete_config
  complete_config-IsComplete c = elim (Option-cases c.security_config) [
    | inl e ↦ rw (e, complete_config) (tt, unfold default_security_config in tt, tt)
    | inr (s, e) ↦ rw (e, complete_config) (tt, with_key-HasKey s, tt)
  ]

  -- With a fresh key that is not empty, the configuration of the server has its three parts and a
  -- key, whatever its file is, and also if there is none.
  config_of_server-IsComplete :
      (unmarshal : Bytes → Option ServerConfig) (files : String → Found) (path : String)
      → IsComplete (config_of_server unmarshal files (b ∷ key) path)
  unfolding config_of_server load_config default_server_config default_security_config
  config_of_server-IsComplete unmarshal files path =
      found (files (if path == "" then default_path else path)) refl
    where
      found :
          (f : Found)
          → files (if path == "" then default_path else path) ≡ f
          → IsComplete (config_of_server unmarshal files (b ∷ key) path)
      found missing e = rw (e, config_of_server) (tt, tt, tt)
      found unreadable e = rw (e, config_of_server) (tt, tt, tt)
      found (contents bytes) e = elim (Option-cases (unmarshal bytes)) [
        | inl n ↦ rw (e, config_of_server) (rw n (tt, tt, tt))
        | inr (c, n) ↦ rw (e, config_of_server) (rw n (complete_config-IsComplete c))
      ]

-- What JSON keeps of a configuration: all but the key.
abbrev pub without_key : ServerConfig → ServerConfig
without_key c = record c {
  security_config = elim c.security_config [
    | none ↦ none
    | some s ↦ some (record s { encryption_key = [] })
  ];
}

-- A default configuration that was saved without an error is loaded as the default configuration, with
-- a fresh key, if decoding gives back what was encoded but for the key.
pub load_config-save_default_config :
    (marshal : ServerConfig → Option Bytes) (unmarshal : Bytes → Option ServerConfig)
    → (made written : Bool) (key fresh : Bytes)
    → ((bytes : Bytes)
        → marshal (default_server_config key) ≡ some bytes
        → unmarshal bytes ≡ some (without_key (default_server_config key)))
    → (before : Found) (files : String → Found) (path : String)
    → (save_default_config marshal made written key before).1 ≡ none
    → files (if path == "" then default_path else path)
      ≡ (save_default_config marshal made written key before).0
    → load_config unmarshal files fresh path ≡ loaded (default_server_config fresh)
unfolding load_config save_default_config default_server_config default_security_config
load_config-save_default_config marshal unmarshal true true key fresh keeps before files path s f =
    elim (Option-cases (marshal (default_server_config key))) [
      | inl n ↦ absurd (ground (arith, n, s))
      | inr (bytes, n) ↦ rw (f, load_config) (rw n (rw (keeps bytes n) refl))
    ]
load_config-save_default_config marshal unmarshal true false key fresh keeps before files path s f =
    elim (Option-cases (marshal (default_server_config key))) [
      | inl n ↦ absurd (ground (arith, n, s))
      | inr (bytes, n) ↦ absurd (ground (arith, n, s))
    ]
load_config-save_default_config marshal unmarshal false written key fresh keeps before files path s
      f =
    absurd (ground (arith, s))
