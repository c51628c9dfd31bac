-- ===== src/FileTransfer/Upload/Drain.antt =====
-- file_stream.go: the end of the inner loop of `uploadWorker`.
use onli_desk_full.Common.{
  ◌≡◌, ◌≢◌, ◌⊎◌, inl, inr, ℕ, zero, suc, ◌<◌, pos, Bool, true, false, none, arith, length,
  Option-cases, Bool-cases,
}
use onli_desk_full.FileTransfer.Chunks.{Bytes, FileChunk, find, put, length-remove}
use onli_desk_full.FileTransfer.Upload.{Upload, running, write_next, drain, accept_chunk}

-- With more fuel than stored chunks the loop ends for a reason of the code: the expected chunk is
-- missing, or the worker has returned.
pub drain_ends :
    (write_ok : Bytes → Bytes → Bool) (fuel : ℕ) (is_last : Bool) (u : Upload)
    → length u.received_chunks < fuel
    → let v = drain write_ok fuel is_last u in
      (find (pos v.expected_chunk) v.received_chunks ≡ none) ⊎ (v.outcome ≢ running)
unfolding drain
drain_ends write_ok zero is_last u h = absurd (omega arith)
drain_ends write_ok (suc fuel) true u h =
    elim (Option-cases (find (pos u.expected_chunk) u.received_chunks)) [
      | inl missing ↦ rw (missing, drain) (inl missing)
      | inr (bytes, found) ↦ elim (Bool-cases (write_ok u.written bytes)) [
        | inl fine ↦ rw (found, drain) (rw fine (inr (λ e. cc)))
        | inr failed ↦ rw (found, drain) (rw failed (inr (λ e. cc)))
      ]
    ]
drain_ends write_ok (suc fuel) false u h =
    elim (Option-cases (find (pos u.expected_chunk) u.received_chunks)) [
      | inl missing ↦ rw (missing, drain) (inl missing)
      | inr (bytes, found) ↦ elim (Bool-cases (write_ok u.written bytes)) [
        | inl fine ↦
            rw (found, drain)
              (rw fine (
                drain_ends write_ok fuel false (write_next bytes u) (
                  omega
                    (arith, length-remove (pos u.expected_chunk) u.received_chunks bytes found))))
        | inr failed ↦ rw (found, drain) (rw failed (inr (λ e. cc)))
      ]
    ]

-- After every chunk that is taken the inner loop has ended: either the chunk that is expected next
-- has not been received, or the worker has returned.
pub accept_chunk_ends :
    (write_ok : Bytes → Bytes → Bool) (c : FileChunk) (u : Upload)
    → let v = accept_chunk write_ok c u in
      (find (pos v.expected_chunk) v.received_chunks ≡ none) ⊎ (v.outcome ≢ running)
unfolding accept_chunk
accept_chunk_ends write_ok c u =
    let stored = record u { received_chunks = put c.sequence c.content u.received_chunks } in
    drain_ends write_ok (suc (length stored.received_chunks)) c.is_last stored (omega arith)
