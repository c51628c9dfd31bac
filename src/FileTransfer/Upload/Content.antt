-- ===== src/FileTransfer/Upload/Content.antt =====
-- file_stream.go: what `uploadWorker` writes, in whichever order the chunks arrive.
use onli_desk_full.Common.{
  ◌≡◌, refl, sym, ◌∙◌, inl, inr, ℕ, zero, suc, pos, String, Bool, true, false, Option, some, List,
  [], ◌∷◌, ◌++◌, arith, length, Option-cases, Bool-cases, All,
}
use onli_desk_full.FileTransfer.Chunks.{
  Bytes, FileChunk, Parsed, chunk, bad, parse_chunk, verify_chunk_checksum, find, put, find-put,
  find-remove, int_beq, int_beq_iff,
}
use onli_desk_full.FileTransfer.Upload.{
  Upload, Input, cancels, pauses_and_resumes, binary, text, read_error, start, is_running,
  write_next, drain, accept_chunk, handle_parsed, handle_input, upload_worker,
}

-- The first `n` chunks of a file, in order.
unfoldable pub file_prefix : (ℕ → Bytes) → ℕ → Bytes
file_prefix file zero = []
file_prefix file (suc n) = file_prefix file n ++ file n

-- A chunk with the number `i` holds the file's chunk `i`.
abbrev pub IsChunkOf : (ℕ → Bytes) → FileChunk → Type 0
IsChunkOf file c = (i : ℕ) → c.sequence ≡ pos i → c.content ≡ file i

-- The stored chunks are the file's, and what was written is the file up to the next chunk.
pub record IsPrefixOf (file : ℕ → Bytes) (u : Upload) : Type 0 where
  pub stored :
      (i : ℕ) (bytes : Bytes) → find (pos i) u.received_chunks ≡ some bytes → bytes ≡ file i
  pub content : u.written ≡ file_prefix file u.expected_chunk
  pub progress : u.current_chunk ≡ u.expected_chunk

module _ (file : ℕ → Bytes) where
  write_next-IsPrefixOf :
      (bytes : Bytes) (u : Upload)
      → find (pos u.expected_chunk) u.received_chunks ≡ some bytes
      → IsPrefixOf file u
      → IsPrefixOf file (write_next bytes u)
  unfolding file_prefix
  write_next-IsPrefixOf bytes u found v = record {
    stored = λ i b h.
        v.stored i b (ground (arith, find-remove (pos u.expected_chunk) (pos i) u.received_chunks));
    content = rw (v.content, v.stored u.expected_chunk bytes found) refl;
    progress = refl;
  }

  same_content :
      (u w : Upload)
      → w.received_chunks ≡ u.received_chunks
      → w.written ≡ u.written
      → w.expected_chunk ≡ u.expected_chunk
      → w.current_chunk ≡ u.current_chunk
      → IsPrefixOf file u
      → IsPrefixOf file w
  same_content u w p q r s v = record {
    stored = λ i b h. v.stored i b (rw p at h);
    content = rw (q, r) v.content;
    progress = rw (s, r) v.progress;
  }

  drain-IsPrefixOf :
      (write_ok : Bytes → Bytes → Bool) (fuel : ℕ) (is_last : Bool) (u : Upload)
      → IsPrefixOf file u
      → IsPrefixOf file (drain write_ok fuel is_last u)
  unfolding drain
  drain-IsPrefixOf write_ok zero is_last u v = v
  drain-IsPrefixOf write_ok (suc fuel) true u v =
      elim (Option-cases (find (pos u.expected_chunk) u.received_chunks)) [
        | inl missing ↦ rw (missing, drain) v
        | inr (bytes, found) ↦ elim (Bool-cases (write_ok u.written bytes)) [
          | inl fine ↦
              rw (found, drain)
                (rw fine (
                  same_content (write_next bytes u) _ refl refl refl refl
                    (write_next-IsPrefixOf bytes u found v)))
          | inr failed ↦ rw (found, drain) (rw failed (same_content u _ refl refl refl refl v))
        ]
      ]
  drain-IsPrefixOf write_ok (suc fuel) false u v =
      elim (Option-cases (find (pos u.expected_chunk) u.received_chunks)) [
        | inl missing ↦ rw (missing, drain) v
        | inr (bytes, found) ↦ elim (Bool-cases (write_ok u.written bytes)) [
          | inl fine ↦
              rw (found, drain)
                (rw fine (
                  drain-IsPrefixOf write_ok fuel false (write_next bytes u)
                    (write_next-IsPrefixOf bytes u found v)))
          | inr failed ↦ rw (found, drain) (rw failed (same_content u _ refl refl refl refl v))
        ]
      ]

  put-IsPrefixOf :
      (c : FileChunk) (u : Upload)
      → IsChunkOf file c
      → IsPrefixOf file u
      → IsPrefixOf file (record u { received_chunks = put c.sequence c.content u.received_chunks })
  put-IsPrefixOf c u honest v = record {
    stored = λ i b h. elim (Bool-cases (int_beq c.sequence (pos i))) [
      | inl same ↦
          let it : c.content ≡ b =
            ground (arith, find-put c.sequence (pos i) c.content u.received_chunks) in
          sym it ∙ honest i ((int_beq_iff c.sequence (pos i)).0 same)
      | inr other ↦
          v.stored i b (ground (arith, find-put c.sequence (pos i) c.content u.received_chunks))
    ];
    content = v.content;
    progress = v.progress;
  }

  accept_chunk-IsPrefixOf :
      (write_ok : Bytes → Bytes → Bool) (c : FileChunk) (u : Upload)
      → IsChunkOf file c
      → IsPrefixOf file u
      → IsPrefixOf file (accept_chunk write_ok c u)
  unfolding accept_chunk
  accept_chunk-IsPrefixOf write_ok c u honest v =
      let stored = record u { received_chunks = put c.sequence c.content u.received_chunks } in
      drain-IsPrefixOf write_ok (suc (length stored.received_chunks)) c.is_last stored
        (put-IsPrefixOf c u honest v)

module _ (unmarshal : Bytes → Option FileChunk) (digest : Bytes → String)
    (write_ok : Bytes → Bytes → Bool) (file : ℕ → Bytes) where
  -- Every chunk of the input that passes the checksum is one of the file.
  abbrev pub IsFrom : Input → Type 0
  IsFrom (binary bytes) =
      (c : FileChunk)
      → parse_chunk unmarshal bytes ≡ chunk c
      → verify_chunk_checksum digest c ≡ true
      → IsChunkOf file c
  IsFrom _ = Unit

  handle_input-IsPrefixOf :
      (i : Input) (u : Upload)
      → IsFrom i
      → IsPrefixOf file u
      → IsPrefixOf file (handle_input unmarshal digest write_ok i u)
  unfolding handle_input
  handle_input-IsPrefixOf cancels u h v = same_content file u _ refl refl refl refl v
  handle_input-IsPrefixOf pauses_and_resumes u h v = v
  handle_input-IsPrefixOf (text bytes) u h v = v
  handle_input-IsPrefixOf (read_error true) u h v = same_content file u _ refl refl refl refl v
  handle_input-IsPrefixOf (read_error false) u h v = same_content file u _ refl refl refl refl v
  handle_input-IsPrefixOf (binary bytes) u h v = parsed (parse_chunk unmarshal bytes) refl
    where
      parsed :
          (p : Parsed)
          → parse_chunk unmarshal bytes ≡ p
          → IsPrefixOf file (handle_parsed unmarshal digest write_ok p u)
      parsed (bad e) q = v
      parsed (chunk c) q = elim (Bool-cases (verify_chunk_checksum digest c)) [
        | inl right ↦ rw right (accept_chunk-IsPrefixOf file write_ok c u (h c q right) v)
        | inr wrong ↦ rw wrong (same_content file u _ refl refl refl refl v)
      ]

  worker-IsPrefixOf :
      (is : List Input) (u : Upload)
      → All IsFrom is
      → IsPrefixOf file u
      → IsPrefixOf file (upload_worker unmarshal digest write_ok is u)
  unfolding upload_worker
  worker-IsPrefixOf [] u h v = v
  worker-IsPrefixOf (i ∷ is) u h v = elim (Bool-cases (is_running u.outcome)) [
    | inl on ↦
        rw (on, upload_worker)
          (worker-IsPrefixOf is (handle_input unmarshal digest write_ok i u) h.1
            (handle_input-IsPrefixOf i u h.0 v))
    | inr off ↦ rw (off, upload_worker) v
  ]

  -- If every chunk that passes the checksum is one of a file, then whatever the inputs and the order
  -- of the chunks, repeated and corrupted ones included, the worker has written the file's chunks
  -- in order up to the next one that it expects, each once, and reports that number as its progress.
  pub upload_worker_content :
      (is : List Input)
      → All IsFrom is
      → let u = upload_worker unmarshal digest write_ok is start in
        (u.written ≡ file_prefix file u.expected_chunk) × (u.current_chunk ≡ u.expected_chunk)
  upload_worker_content is h =
      let v = worker-IsPrefixOf is start h (
        unfold start file_prefix find in
        record { stored = λ i b e. absurd (ground arith); content = refl; progress = refl }) in
      (v.content, v.progress)
