-- ===== src/Examples/Files.antt =====
-- Settings that are saved, and files that are validated, encrypted and deleted; the theorems on them.
use onli_desk_full.Common.{
  arith, zero, suc, ◌≡◌, ◌≢◌, ◌⊎◌, refl, sym, ap, ℕ, pos, String, Bool, true, false, Option, none,
  some, [], ◌∷◌, length,
}
use onli_desk_full.Common.Text.{Text, codes}
use onli_desk_full.FileTransfer.Chunks.{Bytes}
use onli_desk_full.FileTransfer.Manager.{TransferConfig, default_transfer_config}
use onli_desk_full.FileTransfer.Settings.{
  SecurityConfig, SavedSecurity, saved_security, ConfigManager, default_security_config,
  save_config, load_config, update_transfer_config, validate_security_config,
}
use onli_desk_full.FileTransfer.Settings.Kept.{
  TransferKept, TransferChanged, update_transfer_config_cases, IsCodec, IsWriter,
  load_config-save_config,
}
use onli_desk_full.FileTransfer.Security.{Probe}
use onli_desk_full.FileTransfer.Security.Encryption.{
  encrypt_file, decrypt_file, bytes_of, IsAead, decrypt_file-encrypt_file,
}
use onli_desk_full.FileTransfer.Security.Deletion.{Disk, secure_delete}
use onli_desk_full.FileTransfer.Security.Deletion.Passes.{
  drawn, pass_over, secure_delete_overwrites,
}

abbrev security : SecurityConfig
security = default_security_config (1 ∷ 2 ∷ [])

abbrev stored : SavedSecurity
stored = saved_security security

abbrev fewer : TransferConfig
fewer = record default_transfer_config { max_concurrent = pos 2 }

-- A codec of the settings below, which it encodes as one byte.
abbrev marshal : TransferConfig → SavedSecurity → Option Bytes
marshal t s = some (1 ∷ [])

abbrev unmarshal : Bytes → Option (Option TransferConfig × Option SavedSecurity)
unmarshal bytes = some (some default_transfer_config, some stored)

abbrev write : Bytes → Option Bytes → Option Bytes × Bool
write bytes old = (some bytes, true)

abbrev settings : ConfigManager
settings = record {
  transfer_config = default_transfer_config;
  security_config = security;
  file = none;
  callbacks = 0;
  called = [];
}

update_transfer_config_cases_example :
    let r = update_transfer_config marshal unmarshal true write (some fewer) settings in
    TransferKept marshal unmarshal true write settings r
    ⊎ TransferChanged marshal unmarshal true write fewer settings r
update_transfer_config_cases_example =
    update_transfer_config_cases marshal unmarshal true write fewer settings

writer : IsWriter marshal unmarshal true write
writer = record { leaves = λ bytes old new e. sym (ap (λ (x : Option Bytes × Bool). x.0) e) }

codec : IsCodec marshal unmarshal true write default_transfer_config stored
codec = record { restores = λ bytes e. refl }

abbrev restarted : ConfigManager
restarted = record settings { file = (save_config marshal unmarshal true write settings).0.file }

saved : (save_config marshal unmarshal true write settings).1 ≡ none
unfolding save_config
saved = refl

load_config-save_config_example :
    let r = load_config marshal unmarshal true write (3 ∷ []) restarted in
    (r.1 ≡ none)
    × (r.0.transfer_config ≡ default_transfer_config)
    × (r.0.security_config ≡ record security { encryption_key = [] })
    × ((security.encryption_enabled ≡ false)
        ⊎ (validate_security_config r.0.security_config ≢ none))
load_config-save_config_example =
    load_config-save_config marshal unmarshal true write settings restarted (3 ∷ []) codec writer
      saved refl

-- A text file of four bytes, of the type that Go gives to its extension.
abbrev probe : Probe
probe = record {
  path = codes "a.txt";
  stat_size = some 4;
  head = some (1 ∷ 2 ∷ 3 ∷ 4 ∷ []);
  digest = some "";
  scan_size = some 4;
  renames = true;
}

abbrev type_by_extension : Text → String
type_by_extension ext = "text/plain; charset=utf-8"

abbrev to_lower : Text → Text
to_lower t = t

-- A cipher that adds nothing to the nonce.
abbrev has_cipher : Bytes → Bool
has_cipher _ = true

abbrev seal : Bytes → Bytes → Bytes → Bytes
seal key nonce content = content

abbrev unseal : Bytes → Bytes → Bytes → Option Bytes
unseal key nonce content = some content

abbrev nonce : Bytes
nonce = 5 ∷ 6 ∷ []

aead : IsAead has_cipher 2 seal unseal [] nonce
aead = record { opens = λ content. refl; sized = refl }

decrypt_file-encrypt_file_example :
    (sealed : Bytes) × (encrypt_file has_cipher 2 seal unseal []
        (some nonce)
        true
        (some (7 ∷ 8 ∷ []))
      ≡ bytes_of sealed)
    × (decrypt_file has_cipher 2 seal unseal [] true (some sealed) ≡ bytes_of (7 ∷ 8 ∷ []))
decrypt_file-encrypt_file_example =
    decrypt_file-encrypt_file has_cipher 2 seal unseal [] nonce (7 ∷ 8 ∷ []) aead refl

-- A disk on which nothing fails, and whose random bytes are the number of the pass.
abbrev fill : ℕ → ℕ → Bytes
fill pass zero = []
fill pass (suc n) = pass ∷ fill pass n

length-fill : (pass n : ℕ) → length (fill pass n) ≡ n
length-fill pass zero = refl
length-fill pass (suc n) = omega (arith, length-fill pass n)

abbrev good_disk : Disk
good_disk = record {
  random = λ pass w n. fill pass n;
  draws = λ pass w. true;
  fails = λ pass w. none;
  seeks = λ pass. true;
  syncs = λ pass. true;
  removes = true;
}

secure_delete_overwrites_example :
    let r = secure_delete good_disk (7 ∷ 8 ∷ []) in
    (r.synced ≡ (0 ∷ 0 ∷ []) ∷ (1 ∷ 1 ∷ []) ∷ (2 ∷ 2 ∷ []) ∷ [])
    × (r.contents ≡ 2 ∷ 2 ∷ [])
    × ((pass : ℕ) → length (pass_over good_disk 2 pass) ≡ 2)
    × (r.removed ≡ true)
unfolding drawn
secure_delete_overwrites_example = secure_delete_overwrites good_disk (7 ∷ 8 ∷ []) (record {
  sized = λ p w n. length-fill p n;
  draws = λ p w. refl;
  writes = λ p w. refl;
  seeks = λ p. refl;
  syncs = λ p. refl;
})
