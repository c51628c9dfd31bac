-- ===== src/FileTransfer/Download/Wire.antt =====
-- file_stream.go: `sendChunk` and `parseChunk`, the two ends of the wire. `encoding/json` is
-- `marshal` and `unmarshal`, with what it documents of them.
use onli_desk_full.Common.{
  ◌≡◌, ◌≢◌, Bool-cases, refl, ap, sym, ◌∙◌, ℕ, zero, suc, ◌-◌, ◌≤◌, ◌<◌, ltb, nat_beq, Bool, String,
  true, false, Option, Option-cases, none, some, List, [], ◌∷◌, ◌++◌, ◌⊎◌, inl, inr, arith, length,
  length-append, take, drop, length-take, take_all, take-length-append, drop-length-append,
  if◌then◌else◌,
}
use mathlib.Core.List.{append-nil}
use onli_desk_full.FileTransfer.Chunks.{
  Bytes, FileChunk, Parsed, chunk, bad, bad_header, header_size, parse_chunk,
}
use onli_desk_full.FileTransfer.Upload.{
  Upload, Input, binary, is_running, handle_input, upload_worker,
}

abbrev pub replicate : ℕ → ℕ → Bytes
replicate zero b = []
replicate (suc n) b = b ∷ replicate n b

pub length-replicate : (n b : ℕ) → length (replicate n b) ≡ n
length-replicate zero b = refl
length-replicate (suc n) b = omega (arith, length-replicate n b)

-- `make([]byte, 256)` and `copy`.
unfoldable pub pad_header : Bytes → Bytes
pad_header header = take header_size header ++ replicate (header_size - length header) 0

-- The header's fields, with what stands behind it.
abbrev decoded : Bytes → Option FileChunk → Parsed
decoded body none = bad bad_header
decoded body (some c) = chunk (record c { content = body; size = length body })

Order-cases : (a b : ℕ) → (a < b) ⊎ (a ≡ b) ⊎ (b < a)
Order-cases a b = ground arith

if-nat_beq-eq {ℓ} : {A : Type ℓ} (a b : ℕ) (x y : A) → a ≡ b → (if nat_beq a b then x else y) ≡ x
if-nat_beq-eq a b x y e = ground arith

if-nat_beq-ne {ℓ} : {A : Type ℓ} (a b : ℕ) (x y : A) → a ≢ b → (if nat_beq a b then x else y) ≡ y
if-nat_beq-ne a b x y e = ground arith

ltb_lt : (a b : ℕ) → ltb a b ≡ true → a < b
ltb_lt a b h = ground arith

pad_long :
    (n : ℕ) (xs : Bytes) → n ≤ length xs → take n xs ++ replicate (n - length xs) 0 ≡ take n xs
pad_long n xs h =
    let e : n - length xs ≡ 0 = omega arith in
    ap (λ k. take n xs ++ replicate k 0) e ∙ append-nil (take n xs)

pad_short :
    (n : ℕ) (xs : Bytes)
    → length xs < n
    → take n xs ++ replicate (n - length xs) 0 ≡ xs ++ replicate (suc (n - length xs - 1)) 0
pad_short n xs h =
    let e : n - length xs ≡ suc (n - length xs - 1) = omega arith in
    ap (λ ys. ys ++ replicate (n - length xs) 0) (take_all n xs (omega arith))
    ∙ ap (λ k. xs ++ replicate k 0) e

pub length-pad_header : (header : Bytes) → length (pad_header header) ≡ header_size
unfolding pad_header
length-pad_header header = elim (Bool-cases (ltb (length header) header_size)) [
  | inl l ↦
      ap (λ (xs : Bytes). length xs) (pad_short header_size header (ground arith))
      ∙ omega (
        arith,
        length-append {0} header (replicate (suc (header_size - length header - 1)) 0),
        length-replicate (suc (header_size - length header - 1)) 0,
        ltb_lt (length header) header_size l,
      )
  | inr l ↦
      ap (λ (xs : Bytes). length xs) (pad_long header_size header (ground arith))
      ∙ length-take header_size header (ground arith)
]

module _ (marshal : FileChunk → Bytes) (unmarshal : Bytes → Option FileChunk) where
  -- The message of `sendChunk`.
  unfoldable pub chunk_message : FileChunk → Bytes
  unfolding pad_header
  chunk_message c = pad_header (marshal c) ++ c.content

  -- The encoding of a chunk decodes to it; with NULs after it, or its end cut off, it is a syntax
  -- error.
  pub record IsJson (c : FileChunk) : Type 0 where
    pub decodes : unmarshal (marshal c) ≡ some c
    pub rejects_nuls : (k : ℕ) → unmarshal (marshal c ++ replicate (suc k) 0) ≡ none
    pub rejects_part : (k : ℕ) → k < length (marshal c) → unmarshal (take k (marshal c)) ≡ none

  unmarshal-pad_header :
      (c : FileChunk)
      → IsJson c
      → unmarshal (pad_header (marshal c))
        ≡ (if nat_beq (length (marshal c)) header_size then some c else none)
  unfolding pad_header
  unmarshal-pad_header c j = elim (Order-cases (length (marshal c)) header_size) [
    | inl l ↦
        ap unmarshal (pad_short header_size (marshal c) l)
        ∙ j.rejects_nuls (header_size - length (marshal c) - 1)
        ∙ sym (if-nat_beq-ne (length (marshal c)) header_size (some c) none (omega arith))
    | inr (inl e) ↦
        ap unmarshal (
          pad_long header_size (marshal c) (omega arith)
          ∙ take_all header_size (marshal c) (omega arith))
        ∙ j.decodes
        ∙ sym (if-nat_beq-eq (length (marshal c)) header_size (some c) none e)
    | inr (inr g) ↦
        ap unmarshal (pad_long header_size (marshal c) (omega arith))
        ∙ j.rejects_part header_size g
        ∙ sym (if-nat_beq-ne (length (marshal c)) header_size (some c) none (omega arith))
  ]

  parse_parts :
      (message : Bytes)
      → ltb (length message) header_size ≡ false
      → parse_chunk unmarshal message
        ≡ decoded (drop header_size message) (unmarshal (take header_size message))
  unfolding parse_chunk
  parse_parts message h = elim (Option-cases (unmarshal (take header_size message))) [
    | inl e ↦ rw h (rw e refl)
    | inr (c, e) ↦ rw h (rw e refl)
  ]

  parse-append :
      (header content : Bytes)
      → length header ≡ header_size
      → parse_chunk unmarshal (header ++ content) ≡ decoded content (unmarshal header)
  parse-append header content e =
      parse_parts (header ++ content) (ground (arith, length-append {0} header content))
      ∙ ap (λ n. decoded (drop n (header ++ content)) (unmarshal (take n (header ++ content))))
          (sym e)
      ∙ ap (λ h. decoded (drop (length header) (header ++ content)) (unmarshal h))
          (take-length-append header content)
      ∙ ap (λ body. decoded body (unmarshal header)) (drop-length-append header content)

  -- What the receiver makes of the message of a chunk whose size is right: the chunk, if its
  -- encoding, contents included, has exactly 256 bytes, and else a bad header.
  pub parse_chunk-chunk_message :
      (c : FileChunk)
      → IsJson c
      → c.size ≡ length c.content
      → parse_chunk unmarshal (chunk_message c)
        ≡ (if nat_beq (length (marshal c)) header_size then chunk c else bad bad_header)
  unfolding parse_chunk chunk_message
  parse_chunk-chunk_message c j z =
      parse-append (pad_header (marshal c)) c.content (length-pad_header (marshal c))
      ∙ ap (decoded c.content) (unmarshal-pad_header c j)
      ∙ decoded-if (nat_beq (length (marshal c)) header_size)
    where
      whole : ◌≡◌ {A = FileChunk} (record c { content = c.content; size = length c.content }) c
      whole = ap (λ n. record c { size = n }) (sym z)

      decoded-if :
          (b : Bool)
          → decoded c.content (if b then some c else none) ≡ (if b then chunk c else bad bad_header)
      decoded-if true = ap chunk whole
      decoded-if false = refl

  pub wire_messages : List FileChunk → List Input
  wire_messages [] = []
  wire_messages (c ∷ cs) = binary (chunk_message c) ∷ wire_messages cs

  -- Chunks that all say their size, and whose encodings are not 256 bytes long.
  abbrev pub Sendable : List FileChunk → Type 0
  Sendable [] = Unit
  Sendable (c ∷ cs) =
      (IsJson c × (c.size ≡ length c.content) × (length (marshal c) ≢ header_size)) × Sendable cs

  module _ (digest : Bytes → String) (write_ok : Bytes → Bytes → Bool) where
    handle-chunk_message :
        (c : FileChunk) (u : Upload)
        → parse_chunk unmarshal (chunk_message c) ≡ bad bad_header
        → handle_input unmarshal digest write_ok (binary (chunk_message c)) u ≡ u
    unfolding handle_input
    handle-chunk_message c u e = rw e refl

    -- The messages of any chunks, each of which says its size and has an encoding of more or less
    -- than 256 bytes, leave the receiving worker as it was: nothing is written, no chunk is stored
    -- or asked for again, and the worker waits on.
    pub upload_worker-wire_messages :
        (cs : List FileChunk) (u : Upload)
        → Sendable cs
        → upload_worker unmarshal digest write_ok (wire_messages cs) u ≡ u
    unfolding upload_worker wire_messages
    upload_worker-wire_messages [] u s = refl
    upload_worker-wire_messages (c ∷ cs) u s = elim (Bool-cases (is_running u.outcome)) [
      | inl r ↦
          let e : parse_chunk unmarshal (chunk_message c) ≡ bad bad_header =
            parse_chunk-chunk_message c s.0.0 s.0.1
            ∙ if-nat_beq-ne (length (marshal c)) header_size (chunk c) (bad bad_header) s.0.2 in
          rw (r, upload_worker)
            (ap (upload_worker unmarshal digest write_ok (wire_messages cs))
                (handle-chunk_message c u e)
              ∙ upload_worker-wire_messages cs u s.1)
      | inr r ↦ rw (r, upload_worker) refl
    ]
