-- ===== src/FileTransfer/Upload/Acceptance.antt =====
-- file_stream.go: one chunk for a worker that has stored nothing, or only the last chunk.
use onli_desk_full.Common.{
  ◌≡◌, ℕ, suc, ◌<◌, ℤ, pos, Bool, true, false, List, [], ◌∷◌, arith, nat_beq, nat_beq_iff,
  if◌then◌else◌,
}
use onli_desk_full.FileTransfer.Chunks.{Bytes, FileChunk, find, remove}
use onli_desk_full.FileTransfer.Upload.{Upload, running, completed, accept_chunk}
use onli_desk_full.FileTransfer.Upload.Content.{file_prefix}

-- A worker between two chunks, with `held` stored out of order.
abbrev pub waiting : (ℕ → Bytes) → ℕ → List (ℤ × Bytes) → List ℤ → Upload
waiting file k held asked = record {
  received_chunks = held;
  expected_chunk = k;
  written = file_prefix file k;
  current_chunk = k;
  retransmissions = asked;
  flushed = false;
  outcome = running;
}

module _ (write_ok : Bytes → Bytes → Bool) (file : ℕ → Bytes) where
  -- The next chunk, with nothing stored.
  pub accept_next :
      (c : FileChunk) (k : ℕ)
      → c.sequence ≡ pos k
      → c.content ≡ file k
      → write_ok (file_prefix file k) (file k) ≡ true
      → accept_chunk write_ok c (waiting file k [] []) ≡ (
          if c.is_last
          then record (waiting file (suc k) [] []) { flushed = true; outcome = completed }
          else waiting file (suc k) [] [])
  unfolding accept_chunk find remove file_prefix
  accept_next c k s d w = ground (arith, nat_beq_iff k k)

  -- The chunk `n` ahead of its turn.
  pub accept_early :
      (c : FileChunk) (n : ℕ)
      → 0 < n
      → c.sequence ≡ pos n
      → c.content ≡ file n
      → accept_chunk write_ok c (waiting file 0 [] []) ≡ waiting file 0 ((pos n, file n) ∷ []) []
  unfolding accept_chunk find
  accept_early c n h s d = ground arith

  -- A chunk that is not flagged, with the chunk `n` stored: if it closes the gap, both are written.
  pub accept_gap :
      (c : FileChunk) (k n : ℕ)
      → k < n
      → c.sequence ≡ pos k
      → c.content ≡ file k
      → c.is_last ≡ false
      → write_ok (file_prefix file k) (file k) ≡ true
      → write_ok (file_prefix file n) (file n) ≡ true
      → accept_chunk write_ok c (waiting file k ((pos n, file n) ∷ []) []) ≡ (
          if nat_beq (suc k) n
          then waiting file (suc n) [] []
          else waiting file (suc k) ((pos n, file n) ∷ []) [])
  unfolding accept_chunk find remove file_prefix
  accept_gap c k n h s d l w x = ground arith
