-- ===== src/FileTransfer/Download/Chunking.antt =====
-- file_stream.go: what `downloadWorker` sends when nothing goes wrong.
use onli_desk_full.Common.{
  sym, pos, nat_beq, Bool, false, ◌≡◌, refl, ap, ◌∙◌, ◌≢◌, ℕ, zero, suc, ◌+◌, ◌*◌, ◌≤◌, ◌<◌, String,
  Bool, true, Option, some, List, [], ◌∷◌, ◌++◌, arith, length, take, drop, length-drop,
  take-append-drop, drop-length-take,
}
use native.Mathlib.Nat.{add-zero, zero-add}
use mathlib.Core.List.{append-nil, append_assoc}
use onli_desk_full.FileTransfer.Chunks.{Bytes, FileChunk}
use onli_desk_full.FileTransfer.Download.{
  Signal, cancels, finished, Download, got, chunk_size, chunk_at, chunk_count_of, delivered,
  download_loop, download_worker, read_chunk, send_chunk_with_retry, start_download,
}
use onli_desk_full.FileTransfer.Download.Reads.{
  read_uncancelled, read_full, length-take_pos, nothing_left, contents,
}

-- A download that has come to its end.
abbrev pub all_sent : List FileChunk → ℕ → Download
all_sent cs n = record { sent = cs; unread = []; current_chunk = n; ending = finished }

module _ (id : String) (digest : Bytes → String) where
  -- A first piece of a file, the last one if nothing of the file is left.
  abbrev pub piece : ℕ → Bytes → FileChunk
  piece i file = record {
    id = id;
    sequence = pos i;
    content = take chunk_size file;
    size = length (take chunk_size file);
    is_last = elim (drop chunk_size file) [ [] ↦ true | b ∷ bs ↦ false ];
    checksum = digest (take chunk_size file);
  }

  -- The file cut in `left` pieces, numbered from `i`.
  unfoldable pub cut : ℕ → ℕ → Bytes → List FileChunk
  cut zero i file = []
  cut (suc left) i file = piece i file ∷ cut left (suc i) (drop chunk_size file)

  nothing_after : (xs : Bytes) → length xs ≤ 0 → elim xs [ [] ↦ true | b ∷ bs ↦ false ] ≡ true
  nothing_after [] h = refl
  nothing_after (x ∷ xs) h = absurd (omega (arith, h))

  something_after : (xs : Bytes) → 0 < length xs → elim xs [ [] ↦ true | b ∷ bs ↦ false ] ≡ false
  something_after [] h = absurd (omega (arith, h))
  something_after (x ∷ xs) h = refl

  -- The worker flags the chunk after which nothing is left.
  last-piece :
      (left i : ℕ) (file : Bytes)
      → length file ≤ suc left * chunk_size
      → left * chunk_size < length file
      → nat_beq (suc i) (i + suc left) ≡ elim (drop chunk_size file) [ [] ↦ true | b ∷ bs ↦ false ]
  last-piece zero i file h l =
      ground arith
      ∙ sym
          (nothing_after (drop chunk_size file) (omega (arith, h, length-drop {0} chunk_size file)))
  last-piece (suc left) i file h l =
      ground arith
      ∙ sym (
          something_after (drop chunk_size file)
            (omega (arith, l, length-drop {0} chunk_size file)))

  chunk_at-piece :
      (count left i : ℕ) (file : Bytes)
      → count ≡ i + suc left
      → length file ≤ suc left * chunk_size
      → left * chunk_size < length file
      → chunk_at id digest count i (take chunk_size file) ≡ piece i file
  chunk_at-piece count left i file e h l =
      ap (λ (last : Bool). record (piece i file) { is_last = last })
        (ap (nat_beq (suc i)) e ∙ last-piece left i file h l)

  pub contents-cut :
      (left i : ℕ) (file : Bytes)
      → length file ≤ left * chunk_size
      → contents (cut left i file) ≡ file
  unfolding cut
  contents-cut zero i [] h = refl
  contents-cut zero i (b ∷ bs) h = absurd (omega arith)
  contents-cut (suc left) i file h =
      ap (λ r. take chunk_size file ++ r)
        (contents-cut left (suc i) (drop chunk_size file)
          (omega (arith, length-drop {0} chunk_size file)))
      ∙ take-append-drop chunk_size file

  module _ (signals : ℕ → Signal) (amounts : ℕ → Option ℕ) (accepts : ℕ → ℕ → Bool) where
    -- Chunk `i` is not cancelled, its read fills the buffer if the file is long enough, and one of
    -- the attempts to send it succeeds.
    pub record Smooth (i : ℕ) : Type 0 where
      pub uncancelled : signals i ≢ cancels
      pub amount : ℕ
      pub reads : amounts i ≡ some amount
      pub full : chunk_size ≤ amount
      pub accepted : (send_chunk_with_retry (accepts i)).success ≡ true

    read-Smooth :
        (i : ℕ) (file : Bytes)
        → Smooth i
        → read_chunk (signals i) (amounts i) file ≡ got (take chunk_size file)
    read-Smooth i file s =
        ap (λ a. read_chunk (signals i) a file) s.reads
        ∙ read_uncancelled (signals i) s.amount file s.uncancelled
        ∙ ap got (read_full s.amount file s.full)

    -- One round that delivers its chunk.
    loop_round :
        (left count i : ℕ) (d : Download) (bytes : Bytes)
        → read_chunk (signals i) (amounts i) d.unread ≡ got bytes
        → 0 < length bytes
        → (send_chunk_with_retry (accepts i)).success ≡ true
        → download_loop id digest signals amounts accepts (suc left) count i d
          ≡ download_loop id digest signals amounts accepts left count
              (suc i)
              (delivered (chunk_at id digest count i bytes) i bytes d)
    unfolding download_loop
    loop_round left count i d [] r h a = absurd (omega (arith, h))
    loop_round left count i d (b ∷ bs) r h a = rw (r, download_loop) (rw a refl)

    loop_over :
        (count i : ℕ) (d : Download)
        → length d.unread ≤ 0
        → d.current_chunk ≡ i
        → download_loop id digest signals amounts accepts 0 count i d
          ≡ all_sent (d.sent ++ cut 0 i d.unread) (i + 0)
    unfolding download_loop cut
    loop_over count i d h e = simp (append-nil, nothing_left d.unread h, e, add-zero)

    sent_next :
        (left count i : ℕ) (d : Download)
        → chunk_at id digest count i (take chunk_size d.unread) ≡ piece i d.unread
        → (let bytes : Bytes = take chunk_size d.unread in
            all_sent
              ((d.sent ++ chunk_at id digest count i bytes ∷ [])
                ++ cut left (suc i) (drop (length bytes) d.unread))
              (suc i + left)
            ≡ all_sent (d.sent ++ cut (suc left) i d.unread) (i + suc left))
    unfolding cut
    sent_next left count i d same =
        let c : FileChunk = chunk_at id digest count i (take chunk_size d.unread) in
        let rest : Bytes → List FileChunk = cut left (suc i) in
        ap (λ bytes. all_sent ((d.sent ++ c ∷ []) ++ rest bytes) (suc i + left))
          (drop-length-take chunk_size d.unread)
        ∙ ap (λ cs. all_sent cs (suc i + left))
            (append_assoc d.sent (c ∷ []) (rest (drop chunk_size d.unread)))
        ∙ ap (all_sent (d.sent ++ c ∷ rest (drop chunk_size d.unread))) (omega arith)
        ∙ ap (λ x. all_sent (d.sent ++ x ∷ rest (drop chunk_size d.unread)) (i + suc left)) same

    loop-Smooth :
        (left count i : ℕ) (d : Download)
        → ((j : ℕ) → Smooth j)
        → count ≡ i + left
        → length d.unread ≤ left * chunk_size
        → left * chunk_size < length d.unread + chunk_size
        → d.current_chunk ≡ i
        → download_loop id digest signals amounts accepts left count i d
          ≡ all_sent (d.sent ++ cut left i d.unread) (i + left)
    loop-Smooth zero count i d s n h l e = loop_over count i d (omega (arith, h)) e
    loop-Smooth (suc left) count i d s n h l e =
        let bytes : Bytes = take chunk_size d.unread in
        let c : FileChunk = chunk_at id digest count i bytes in
        let rest =
          ap (λ (xs : Bytes). length xs) (drop-length-take chunk_size d.unread)
          ∙ length-drop chunk_size d.unread in
        loop_round left count i d bytes (read-Smooth i d.unread (s i))
          (length-take_pos chunk_size d.unread (omega arith) (omega arith)) (s i).accepted
        ∙ loop-Smooth left count (suc i) (delivered c i bytes d) s (omega (arith, n))
            (omega (arith, h, rest)) (omega (arith, l, rest)) refl
        ∙ sent_next left count i d (chunk_at-piece count left i d.unread n h (omega (arith, l)))

    -- If nothing goes wrong, the worker finishes, and has sent the file cut into chunks.
    pub download_worker-cut :
        (file : Bytes)
        → ((i : ℕ) → Smooth i)
        → download_worker id digest signals amounts accepts file
          ≡ (let n = chunk_count_of (length file) in all_sent (cut n 0 file) n)
    unfolding download_worker start_download chunk_count_of
    download_worker-cut file s =
        let n : ℕ = chunk_count_of (length file) in
        loop-Smooth n n 0 (start_download file) s (omega arith) (omega arith) (omega arith) refl
        ∙ ap (all_sent (cut n 0 file)) (zero-add n)

    -- If no chunk is cancelled, every read fills the buffer, and one of the attempts to send each
    -- chunk succeeds, then the worker finishes after as many chunks as the file has, cut from the
    -- file in order, numbered from 0, each flagged as the last exactly if nothing of the file is left
    -- after it, and their contents make up the file.
    pub download_worker-sends_file :
        (file : Bytes)
        → ((i : ℕ) → Smooth i)
        → let d = download_worker id digest signals amounts accepts file in
          let n = chunk_count_of (length file) in
          (d.ending ≡ finished)
          × (d.current_chunk ≡ n)
          × (d.sent ≡ cut n 0 file)
          × (contents d.sent ≡ file)
    unfolding chunk_count_of
    download_worker-sends_file file s =
        let n : ℕ = chunk_count_of (length file) in
        let e = download_worker-cut file s in
        (
          ap (λ d. d.ending) e,
          ap (λ d. d.current_chunk) e,
          ap (λ d. d.sent) e,
          ap (λ d. contents d.sent) e ∙ contents-cut n 0 file (omega arith),
        )
