-- ===== src/FileTransfer/Security/Encryption.antt =====
-- security.go: `FileEncryptor`, and the checksums of files. Parameters: `crypto/aes` and `crypto/cipher`
-- as `has_cipher`, whether a cipher can be made of a key, `seal` and `unseal` of AES-GCM, and the size of
-- its nonces; `crypto/sha256` as `digest`. A nonce that `rand.Read` could not give is `none`, as is the
-- content of a file that could not be read.
use onli_desk_full.Common.{
  ◌≡◌, refl, ap, sym, ◌∙◌, ℕ, String, ◌==◌, Bool, true, false, Option, none, some, ◌++◌, arith, ltb,
  nat_beq, if◌then◌else◌, length, length-append, take, drop, take-length-append, drop-length-append,
}
use onli_desk_full.FileTransfer.Chunks.{Bytes}

pub data CryptError : Type 0 where
  not_read no_cipher no_nonce ciphertext_too_short not_decrypted not_written : CryptError

pub data Crypted : Type 0 where
  bytes_of : Bytes → Crypted
  fails_with : CryptError → Crypted

-- `NewFileEncryptor` panics (`none`) unless the key has 32 bytes.
unfoldable pub new_file_encryptor : Bytes → Option Bytes
new_file_encryptor key = if nat_beq (length key) 32 then some key else none

module _ (has_cipher : Bytes → Bool) (nonce_size : ℕ) (seal : Bytes → Bytes → Bytes → Bytes)
    (unseal : Bytes → Bytes → Bytes → Option Bytes) where
  -- `gcm.Seal(nonce, nonce, data, nil)`: the nonce, and the sealed data after it.
  unfoldable pub encrypt_chunk : Bytes → Option Bytes → Bytes → Crypted
  encrypt_chunk key nonce content =
      if has_cipher key
      then elim nonce [ none ↦ fails_with no_nonce | some n ↦ bytes_of (n ++ seal key n content) ]
      else fails_with no_cipher

  unfoldable pub decrypt_chunk : Bytes → Bytes → Crypted
  decrypt_chunk key sealed =
      if has_cipher key
      then (if ltb (length sealed) nonce_size
          then fails_with ciphertext_too_short
          else elim (unseal key (take nonce_size sealed) (drop nonce_size sealed)) [
            | none ↦ fails_with not_decrypted
            | some content ↦ bytes_of content
          ])
      else fails_with no_cipher

  abbrev pub written_file : Bool → Crypted → Crypted
  written_file writes (fails_with e) = fails_with e
  written_file writes (bytes_of b) = if writes then bytes_of b else fails_with not_written

  -- What stands in the output file, if all goes well. The bodies repeat those for chunks.
  unfoldable pub encrypt_file : Bytes → Option Bytes → Bool → Option Bytes → Crypted
  unfolding encrypt_chunk
  encrypt_file key random writes none = fails_with not_read
  encrypt_file key random writes (some content) =
      written_file writes (encrypt_chunk key random content)

  unfoldable pub decrypt_file : Bytes → Bool → Option Bytes → Crypted
  unfolding decrypt_chunk
  decrypt_file key writes none = fails_with not_read
  decrypt_file key writes (some sealed) = written_file writes (decrypt_chunk key sealed)

  -- What AES-GCM promises of a key and a nonce: what was sealed is opened.
  pub record IsAead (key nonce : Bytes) : Type 0 where
    pub opens : (content : Bytes) → unseal key nonce (seal key nonce content) ≡ some content
    pub sized : length nonce ≡ nonce_size

  decrypt_chunk-sealed :
      (key nonce content : Bytes)
      → IsAead key nonce
      → has_cipher key ≡ true
      → decrypt_chunk key (nonce ++ seal key nonce content) ≡ bytes_of content
  unfolding decrypt_chunk
  decrypt_chunk-sealed key nonce content a h =
      let sealed : Bytes = nonce ++ seal key nonce content in
      let long : ltb (length sealed) nonce_size ≡ false =
        ground (arith, length-append {0} nonce (seal key nonce content), a.sized) in
      let n =
        ap (λ k. take k sealed) (sym a.sized) ∙ take-length-append nonce (seal key nonce content) in
      let rest =
        ap (λ k. drop k sealed) (sym a.sized) ∙ drop-length-append nonce (seal key nonce content) in
      let opened =
        ap (λ x. unseal key x (drop nonce_size sealed)) n
        ∙ ap (λ x. unseal key nonce x) rest
        ∙ a.opens content in
      rw (h, decrypt_chunk) (rw long (rw opened refl))

  encrypt_chunk-ok :
      (key nonce content : Bytes)
      → has_cipher key ≡ true
      → encrypt_chunk key (some nonce) content ≡ bytes_of (nonce ++ seal key nonce content)
  unfolding encrypt_chunk
  encrypt_chunk-ok key nonce content h = rw h refl

  -- If a cipher can be made of the key, and the nonce has the size that GCM wants, then a file that
  -- is read, encrypted and written gives an output, and that output, read, decrypted and written
  -- again, gives the content of the file.
  pub decrypt_file-encrypt_file :
      (key nonce content : Bytes)
      → IsAead key nonce
      → has_cipher key ≡ true
      → (sealed : Bytes) × (encrypt_file key (some nonce) true (some content) ≡ bytes_of sealed)
        × (decrypt_file key true (some sealed) ≡ bytes_of content)
  unfolding encrypt_file decrypt_file
  decrypt_file-encrypt_file key nonce content a h = (
    nonce ++ seal key nonce content,
    ap (written_file true) (encrypt_chunk-ok key nonce content h),
    ap (written_file true) (decrypt_chunk-sealed key nonce content a h),
  )

-- `GenerateFileChecksum` and `VerifyFileChecksum`.
module _ (digest : Bytes → String) where
  unfoldable pub generate_file_checksum : Option Bytes → Option String
  generate_file_checksum none = none
  generate_file_checksum (some content) = some (digest content)

  unfoldable pub verify_file_checksum : Option Bytes → String → Option Bool
  unfolding generate_file_checksum
  verify_file_checksum content expected = elim (generate_file_checksum content) [
    | none ↦ none
    | some actual ↦ some (actual == expected)
  ]
