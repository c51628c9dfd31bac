-- ===== src/FileTransfer/Download/Unread.antt =====
-- file_stream.go: what `downloadWorker` has sent and left, however it ends.
use onli_desk_full.Common.{
  ◌≡◌, refl, ap, ◌∙◌, ℕ, zero, suc, String, Bool, Option, [], ◌∷◌, ◌++◌, arith, inl, inr, ◌⊎◌, ◌≤◌,
  Bool-cases, length, drop, length-append,
}
use mathlib.Core.List.{append-nil, append_assoc}
use onli_desk_full.FileTransfer.Chunks.{Bytes}
use onli_desk_full.FileTransfer.Download.{
  Signal, Ending, finished, Download, stopped, read_error, send_error, chunk_at, chunk_size,
  chunk_count_of, delivered, download_loop, download_worker, read_chunk, send_chunk_with_retry,
  start_download,
}
use onli_desk_full.FileTransfer.Download.Reads.{
  Reading-cases, read-part, read-small, contents, contents-append,
}

module _ (id : String) (digest : Bytes → String) where
  -- What is sent, what was read in vain and what is unread make up the file, and `currentChunk` counts
  -- the chunks. Only a chunk whose attempts all failed was read in vain.
  pub record IsPartOf (file : Bytes) (d : Download) : Type 0 where
    pub lost : Bytes
    pub whole : contents d.sent ++ (lost ++ d.unread) ≡ file
    pub small : length lost ≤ chunk_size
    pub in_vain : (lost ≡ []) ⊎ (d.ending ≡ send_error)
    pub counted : d.current_chunk ≡ length d.sent

  -- Between two rounds.
  record IsWhole (file : Bytes) (d : Download) : Type 0 where
    pub whole : contents d.sent ++ d.unread ≡ file
    pub counted : d.current_chunk ≡ length d.sent

  ended-IsPartOf :
      {file : Bytes} {d : Download} (outcome : Ending)
      → IsWhole file d
      → IsPartOf file (record d { ending = outcome })
  ended-IsPartOf outcome p = record {
    lost = [];
    whole = p.whole;
    small = omega arith;
    in_vain = inl refl;
    counted = p.counted;
  }

  refused-IsPartOf :
      (bytes : Bytes) (d : Download) (file : Bytes)
      → bytes ++ drop (length bytes) d.unread ≡ d.unread
      → length bytes ≤ chunk_size
      → IsWhole file d
      → IsPartOf file (record d { unread = drop (length bytes) d.unread; ending = send_error })
  refused-IsPartOf bytes d file r l p = record {
    lost = bytes;
    whole = ap (λ xs. contents d.sent ++ xs) r ∙ p.whole;
    small = l;
    in_vain = inr refl;
    counted = p.counted;
  }

  delivered-IsWhole :
      (count i : ℕ) (bytes : Bytes) (d : Download) (file : Bytes)
      → bytes ++ drop (length bytes) d.unread ≡ d.unread
      → d.current_chunk ≡ i
      → IsWhole file d
      → IsWhole file (delivered (chunk_at id digest count i bytes) i bytes d)
  delivered-IsWhole count i bytes d file r e p = record {
    whole =
        ap (λ xs. xs ++ drop (length bytes) d.unread)
          (contents-append d.sent (chunk_at id digest count i bytes ∷ []))
        ∙ simp (append-nil, append_assoc) (ap (λ xs. contents d.sent ++ xs) r ∙ p.whole);
    counted =
        omega
          (arith, e, p.counted, length-append {0} d.sent (chunk_at id digest count i bytes ∷ []));
  }

  module _ (signals : ℕ → Signal) (amounts : ℕ → Option ℕ) (accepts : ℕ → ℕ → Bool) where
    loop-IsPartOf :
        (left count i : ℕ) (d : Download) (file : Bytes)
        → d.current_chunk ≡ i
        → IsWhole file d
        → IsPartOf file (download_loop id digest signals amounts accepts left count i d)
    unfolding download_loop
    loop-IsPartOf zero count i d file e p = ended-IsPartOf finished p
    loop-IsPartOf (suc left) count i d file e p =
        elim (Reading-cases (read_chunk (signals i) (amounts i) d.unread)) [
          | inl r ↦ rw (r, download_loop) (ended-IsPartOf stopped p)
          | inr (inl r) ↦ rw (r, download_loop) (ended-IsPartOf read_error p)
          | inr (inr ([], r)) ↦ rw (r, download_loop) (ended-IsPartOf finished p)
          | inr (inr (b ∷ bs, r)) ↦
              let part = read-part (signals i) (amounts i) d.unread (b ∷ bs) r in
              let few = read-small (signals i) (amounts i) d.unread (b ∷ bs) r in
              elim (Bool-cases (send_chunk_with_retry (accepts i)).success) [
                | inr a ↦ rw (r, download_loop) (rw a (refused-IsPartOf (b ∷ bs) d file part few p))
                | inl a ↦
                    rw (r, download_loop)
                      (rw a (
                        loop-IsPartOf left count (suc i)
                          (delivered (chunk_at id digest count i (b ∷ bs)) i (b ∷ bs) d) file refl
                          (delivered-IsWhole count i (b ∷ bs) d file part e p)))
              ]
        ]

    -- Whatever the signals, the reads and the connection do: the contents sent, then what was read in
    -- vain, then what the reader still holds make up the file. What was read in vain is at most one
    -- chunk, and nothing unless the worker ended because it could not send. `currentChunk` counts the
    -- chunks sent.
    pub download_worker-IsPartOf :
        (file : Bytes) → IsPartOf file (download_worker id digest signals amounts accepts file)
    unfolding download_worker start_download
    download_worker-IsPartOf file =
        loop-IsPartOf (chunk_count_of (length file)) (chunk_count_of (length file)) 0
          (start_download file) file refl (record { whole = refl; counted = refl })
