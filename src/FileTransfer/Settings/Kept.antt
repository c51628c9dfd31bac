-- ===== src/FileTransfer/Settings/Kept.antt =====
-- config.go: what updates keep, and what is left after a restart.
use onli_desk_full.Common.{
  ◌≡◌, ◌≢◌, refl, ap, sym, ◌∙◌, ◌⊎◌, inl, inr, Bool, true, false, none, some, Option, [], length,
  arith, Option-cases, Bool-cases,
}
use onli_desk_full.FileTransfer.Chunks.{Bytes}
use onli_desk_full.FileTransfer.Manager.{TransferConfig}
use onli_desk_full.FileTransfer.Settings.{
  no_directory, not_marshalled, not_written, SecurityConfig, SavedSecurity, saved_security,
  restored_security, SettingsError, ConfigManager, validate_transfer_config,
  validate_security_config, save_config, load_config, loaded, notify, after_update,
  update_transfer_config,
}
use onli_desk_full.FileTransfer.Settings.Rules.{validate_security_config_iff}

module _ (marshal : TransferConfig → SavedSecurity → Option Bytes)
    (unmarshal : Bytes → Option (Option TransferConfig × Option SavedSecurity)) (made : Bool)
    (write : Bytes → Option Bytes → Option Bytes × Bool) where
  -- What stands in the file after a save that succeeded.
  abbrev pub IsSaved : ConfigManager → Option Bytes → Option SettingsError → Type 0
  IsSaved m file (some e) = Unit
  IsSaved m file none =
      (bytes : Bytes) × (marshal m.transfer_config (saved_security m.security_config) ≡ some bytes)
      × (write bytes m.file ≡ (file, true))

  -- A save changes no more than the file.
  save_config_form :
      (m : ConfigManager)
      → (file : Option Bytes) × (e : Option SettingsError) × (save_config marshal unmarshal made
            write m
          ≡ (record m { file = file }, e))
        × IsSaved m file e
  unfolding save_config
  save_config_form m = elim (Bool-cases made) [
    | inr n ↦ (m.file, some no_directory, rw (n, save_config) refl, tt)
    | inl y ↦ elim (Option-cases (marshal m.transfer_config (saved_security m.security_config))) [
      | inl n ↦ (m.file, some not_marshalled, rw (y, save_config) (rw n refl), tt)
      | inr (bytes, e) ↦ elim (Bool-cases (write bytes m.file).1) [
        | inr n ↦
            ((write bytes m.file).0, some not_written, rw (y, save_config) (rw e (rw n refl)), tt)
        | inl w ↦ (
          (write bytes m.file).0,
          none,
          rw (y, save_config) (rw e (rw w refl)),
          (bytes, e, ap (λ b. ((write bytes m.file).0, b)) w),
        )
      ]
    ]
  ]

  notify-transfer :
      (m : ConfigManager)
      → (notify marshal unmarshal made write m).transfer_config ≡ m.transfer_config
  unfolding notify
  notify-transfer m = ground arith

  notify-security :
      (m : ConfigManager)
      → (notify marshal unmarshal made write m).security_config ≡ m.security_config
  unfolding notify
  notify-security m = ground arith

  notify-file : (m : ConfigManager) → (notify marshal unmarshal made write m).file ≡ m.file
  unfolding notify
  notify-file m = ground arith

  -- An update of the transfer settings that fails, and one that succeeds.
  abbrev pub TransferKept : ConfigManager → ConfigManager × Option SettingsError → Type 0
  TransferKept m r =
      (e : SettingsError) × (r.1 ≡ some e)
      × (r.0.transfer_config ≡ m.transfer_config)
      × (r.0.security_config ≡ m.security_config)
      × (r.0.called ≡ m.called)

  abbrev pub TransferChanged :
      TransferConfig → ConfigManager → ConfigManager × Option SettingsError → Type 0
  TransferChanged c m r =
      (r.1 ≡ none)
      × (validate_transfer_config c ≡ none)
      × (r.0.transfer_config ≡ c)
      × (r.0.security_config ≡ m.security_config)
      × (bytes : Bytes) × (marshal c (saved_security m.security_config) ≡ some bytes)
      × (write bytes m.file ≡ (r.0.file, true))

  update_saved :
      (c : TransferConfig) (m : ConfigManager) (file : Option Bytes) (e : Option SettingsError)
      → validate_transfer_config c ≡ none
      → save_config marshal unmarshal made write (record m { transfer_config = c })
        ≡ (record m { transfer_config = c; file = file }, e)
      → IsSaved (record m { transfer_config = c }) file e
      → let r = update_transfer_config marshal unmarshal made write (some c) m in
        TransferKept m r ⊎ TransferChanged c m r
  unfolding update_transfer_config after_update
  update_saved c m file (some e) v f k =
      rw (v, update_transfer_config) (rw f (inl (e, refl, refl, refl, refl)))
  update_saved c m file none v f k =
      let m' : ConfigManager = record m { transfer_config = c; file = file } in
      rw (v, update_transfer_config)
        (rw f (
          inr (
            refl,
            refl,
            notify-transfer m',
            notify-security m',
            k.0,
            k.1,
            k.2 ∙ ap (λ x. (x, true)) (sym (notify-file m')),
          )))

  -- An update of the transfer settings either fails, and then both settings and what the callbacks
  -- were told are as before, or it succeeds: the new settings were accepted, they are in force, and
  -- they are in the file with the security settings, which are as before.
  pub update_transfer_config_cases :
      (c : TransferConfig) (m : ConfigManager)
      → let r = update_transfer_config marshal unmarshal made write (some c) m in
        TransferKept m r ⊎ TransferChanged c m r
  unfolding update_transfer_config
  update_transfer_config_cases c m = elim (Option-cases (validate_transfer_config c)) [
    | inr (e, v) ↦ rw (v, update_transfer_config) (inl (e, refl, refl, refl, refl))
    | inl v ↦
        let (file, e, f, k) = save_config_form (record m { transfer_config = c }) in
        update_saved c m file e v f k
  ]

  -- `encoding/json` on these settings: decoding gives back what was encoded.
  pub record IsCodec (t : TransferConfig) (s : SavedSecurity) : Type 0 where
    pub restores :
        (bytes : Bytes) → marshal t s ≡ some bytes → unmarshal bytes ≡ some (some t, some s)

  load_config-some :
      (key bytes : Bytes) (parts : Option TransferConfig × Option SavedSecurity) (m : ConfigManager)
      → m.file ≡ some bytes
      → unmarshal bytes ≡ some parts
      → load_config marshal unmarshal made write key m
        ≡ (loaded marshal unmarshal made write key parts m, none)
  unfolding load_config
  load_config-some key bytes parts m e f = ground (arith, e, f)

  -- `ioutil.WriteFile` leaves what it wrote, if it succeeds.
  pub record IsWriter : Type 0 where
    pub leaves :
        (bytes : Bytes) (old new : Option Bytes) → write bytes old ≡ (new, true) → new ≡ some bytes

  saved_bytes :
      (m : ConfigManager) (file : Option Bytes) (e : Option SettingsError)
      → IsWriter
      → e ≡ none
      → IsSaved m file e
      → (bytes : Bytes) × (marshal m.transfer_config (saved_security m.security_config)
          ≡ some bytes)
        × (file ≡ some bytes)
  saved_bytes m file none w z k = (k.0, k.1, w.leaves k.0 m.file file k.2)
  saved_bytes m file (some e) w z k = absurd (ground arith)

  keyless_refused :
      (s : SecurityConfig)
      → s.encryption_enabled ≡ true
      → s.encryption_key ≡ []
      → validate_security_config s ≢ none
  keyless_refused s on z v =
      let short = ap (λ (xs : Bytes). length xs) z in
      let ok_key = ((validate_security_config_iff s).0 v).2 in ground arith

  -- If decoding gives back the settings that were encoded, and a write that succeeds leaves what was written, then
  -- after a save that succeeds, a start that finds the file as it was saved has the transfer settings,
  -- and the security settings without the key; and either the encryption is off, or
  -- `validateSecurityConfig` refuses these.
  pub load_config-save_config :
      (m other : ConfigManager) (key : Bytes)
      → IsCodec m.transfer_config (saved_security m.security_config)
      → IsWriter
      → (save_config marshal unmarshal made write m).1 ≡ none
      → other.file ≡ (save_config marshal unmarshal made write m).0.file
      → let r = load_config marshal unmarshal made write key other in
        (r.1 ≡ none)
        × (r.0.transfer_config ≡ m.transfer_config)
        × (r.0.security_config ≡ record m.security_config { encryption_key = [] })
        × ((m.security_config.encryption_enabled ≡ false)
            ⊎ (validate_security_config r.0.security_config ≢ none))
  unfolding saved_security loaded restored_security
  load_config-save_config m other key codec writer saved same =
      let (file, e, f, k) = save_config_form m in
      let (bytes, b, w) = saved_bytes m file e writer (ap (λ r. r.1) (sym f) ∙ saved) k in
      let s : SecurityConfig = record m.security_config { encryption_key = [] } in
      let q =
        load_config-some key bytes (some m.transfer_config, some (saved_security m.security_config))
          other (same ∙ ap (λ r. r.0.file) f ∙ w) (codec.restores bytes b) in
      rw q (
        refl,
        refl,
        refl,
        elim (Bool-cases m.security_config.encryption_enabled) [
          | inl on ↦ inr (keyless_refused s on refl)
          | inr off ↦ inl off
        ],
      )
