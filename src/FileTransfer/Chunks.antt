-- ===== src/FileTransfer/Chunks.antt =====
-- src/server/internal/filetransfer: a chunk of a file as it crosses the wire (transfer_handler.go
-- and file_stream.go), and Go's maps from chunk numbers, as association lists with integer keys.
use onli_desk_full.Common.{
  ◌≡◌, refl, ℕ, ◌≤◌, ◌<◌, ℤ, pos, negsuc, String, ◌==◌, Bool, true, false, Option, none, some, List,
  [], ◌∷◌, arith, ltb, nat_beq, if◌then◌else◌, length, take, drop, ◌↔◌,
}

-- Bytes, as numbers.
abbrev pub Bytes : Type 0
Bytes = List ℕ

-- `FileChunk`; `content` is the field `Data`.
pub record FileChunk : Type 0 where
  pub id : String
  pub sequence : ℤ
  pub content : Bytes
  pub size : ℕ
  pub is_last : Bool
  pub checksum : String

-- The size of the header in front of a chunk's data.
abbrev pub header_size : ℕ
header_size = 256

pub data ParseError : Type 0 where
  too_short bad_header : ParseError

pub data Parsed : Type 0 where
  chunk : FileChunk → Parsed
  bad : ParseError → Parsed

-- `encoding/json` decodes the header.
unfoldable pub parse_chunk : (Bytes → Option FileChunk) → Bytes → Parsed
parse_chunk unmarshal message =
    if ltb (length message) header_size
    then bad too_short
    else elim (unmarshal (take header_size message)) [
      | none ↦ bad bad_header
      | some c ↦
          let body = drop header_size message in
          chunk (record c { content = body; size = length body })
    ]

-- `crypto/sha256` and `%x` compute the checksum.
unfoldable pub verify_chunk_checksum : (Bytes → String) → FileChunk → Bool
verify_chunk_checksum digest c = digest c.content == c.checksum

abbrev pub int_beq : ℤ → ℤ → Bool
int_beq (pos a) (pos b) = nat_beq a b
int_beq (negsuc a) (negsuc b) = nat_beq a b
int_beq _ _ = false

pub int_beq_iff : (a b : ℤ) → (int_beq a b ≡ true) ↔ (a ≡ b)
int_beq_iff (pos a) (pos b) = ground arith
int_beq_iff (pos a) (negsuc b) = ground arith
int_beq_iff (negsuc a) (pos b) = ground arith
int_beq_iff (negsuc a) (negsuc b) = ground arith

module _ {ℓ} {V : Type ℓ} where
  unfoldable pub find : ℤ → List (ℤ × V) → Option V
  find k [] = none
  find k ((j, v) ∷ m) = if int_beq j k then some v else find k m

  -- `m[k] = v`.
  unfoldable pub put : ℤ → V → List (ℤ × V) → List (ℤ × V)
  put k v [] = (k, v) ∷ []
  put k v ((j, w) ∷ m) = if int_beq j k then (k, v) ∷ m else (j, w) ∷ put k v m

  unfoldable pub remove : ℤ → List (ℤ × V) → List (ℤ × V)
  remove k [] = []
  remove k ((j, v) ∷ m) = let rest = remove k m in if int_beq j k then rest else (j, v) ∷ rest

  pub find-put :
      (k j : ℤ) (v : V) (m : List (ℤ × V))
      → find j (put k v m) ≡ (if int_beq k j then some v else find j m)
  unfolding find put
  find-put k j v [] = refl
  find-put k j v ((i, w) ∷ m) =
      ground (arith, int_beq_iff k j, int_beq_iff i k, int_beq_iff i j, find-put k j v m)

  pub find-remove :
      (k j : ℤ) (m : List (ℤ × V)) → find j (remove k m) ≡ (if int_beq k j then none else find j m)
  unfolding find remove
  find-remove k j [] = ground arith
  find-remove k j ((i, v) ∷ m) =
      ground (arith, int_beq_iff k j, int_beq_iff i k, int_beq_iff i j, find-remove k j m)

  pub length-remove-le : (k : ℤ) (m : List (ℤ × V)) → length (remove k m) ≤ length m
  unfolding remove
  length-remove-le k [] = omega arith
  length-remove-le k ((j, v) ∷ m) = ground (arith, length-remove-le k m)

  -- A key that is there is gone with its entry.
  pub length-remove :
      (k : ℤ) (m : List (ℤ × V)) (v : V) → find k m ≡ some v → length (remove k m) < length m
  unfolding find remove
  length-remove k [] v h = absurd (ground arith)
  length-remove k ((j, w) ∷ m) v h = ground (arith, length-remove-le k m, length-remove k m v)
