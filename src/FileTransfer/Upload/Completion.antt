-- ===== src/FileTransfer/Upload/Completion.antt =====
-- file_stream.go: `uploadWorker` on the chunks of a file that arrive in order, and with the last one
-- first.
use onli_desk_full.Common.{
  ◌≡◌, refl, ap, ◌∙◌, ℕ, zero, suc, ◌+◌, ◌<◌, ◌≤◌, pos, String, Bool, true, false, Option, List, [],
  ◌∷◌, arith, nat_beq, nat_beq_iff, if◌then◌else◌,
}
use mathlib.Core.Path.{subst}
use onli_desk_full.FileTransfer.Chunks.{Bytes, FileChunk, chunk, parse_chunk, verify_chunk_checksum}
use onli_desk_full.FileTransfer.Upload.{
  Upload, running, completed, Input, binary, start, is_running, accept_chunk, handle_input,
  upload_worker,
}
use onli_desk_full.FileTransfer.Upload.Content.{file_prefix}
use onli_desk_full.FileTransfer.Upload.Acceptance.{waiting, accept_next, accept_early, accept_gap}

-- The inputs that deliver the chunks `k`, `k + 1`, … of a sequence of messages.
abbrev pub messages : (ℕ → Bytes) → ℕ → ℕ → List Input
messages msg k zero = []
messages msg k (suc m) = binary (msg k) ∷ messages msg (suc k) m

module _ (unmarshal : Bytes → Option FileChunk) (digest : Bytes → String)
    (write_ok : Bytes → Bytes → Bool) (file : ℕ → Bytes) where
  -- A message that delivers the chunk `i` of the file, flagged as the last one or not.
  pub record Delivers (i : ℕ) (last : Bool) (message : Bytes) : Type 0 where
    pub c : FileChunk
    pub parses : parse_chunk unmarshal message ≡ chunk c
    pub checks : verify_chunk_checksum digest c ≡ true
    pub number : c.sequence ≡ pos i
    pub bytes : c.content ≡ file i
    pub flag : c.is_last ≡ last

  handle_delivered :
      {i : ℕ} {last : Bool} (message : Bytes) (u : Upload) (d : Delivers i last message)
      → handle_input unmarshal digest write_ok (binary message) u ≡ accept_chunk write_ok d.c u
  unfolding handle_input
  handle_delivered message u d = ground (arith, d.parses, d.checks)

  worker_step :
      (i : Input) (is : List Input) (u : Upload)
      → is_running u.outcome ≡ true
      → upload_worker unmarshal digest write_ok (i ∷ is) u
        ≡ upload_worker unmarshal digest write_ok is (handle_input unmarshal digest write_ok i u)
  unfolding upload_worker
  worker_step i is u r = rw (r, upload_worker) refl

  worker_end : (u : Upload) → upload_worker unmarshal digest write_ok [] u ≡ u
  unfolding upload_worker
  worker_end u = refl

  module _ (msg : ℕ → Bytes) (n : ℕ) (plain : (i : ℕ) → i < n → Delivers i false (msg i))
      (final : Delivers n true (msg n))
      (writes : (i : ℕ) → i ≤ n → write_ok (file_prefix file i) (file i) ≡ true) where
    receive_next :
        (k : ℕ) (h : k < n)
        → handle_input unmarshal digest write_ok (binary (msg k)) (waiting file k [] [])
          ≡ waiting file (suc k) [] []
    receive_next k h =
        let d = plain k h in
        handle_delivered (msg k) (waiting file k [] []) d
        ∙ accept_next write_ok file d.c k d.number d.bytes (writes k (omega arith))
        ∙ rw d.flag refl

    receive_final :
        handle_input unmarshal digest write_ok (binary (msg n)) (waiting file n [] [])
        ≡ record (waiting file (suc n) [] []) { flushed = true; outcome = completed }
    receive_final =
        handle_delivered (msg n) (waiting file n [] []) final
        ∙ accept_next write_ok file final.c n final.number final.bytes (writes n (omega arith))
        ∙ rw final.flag refl

    receive_early :
        0 < n
        → handle_input unmarshal digest write_ok (binary (msg n)) (waiting file 0 [] [])
          ≡ waiting file 0 ((pos n, file n) ∷ []) []
    receive_early h =
        handle_delivered (msg n) (waiting file 0 [] []) final
        ∙ accept_early write_ok file final.c n h final.number final.bytes

    receive_behind :
        (k : ℕ) (h : k < n)
        → handle_input unmarshal digest write_ok
            (binary (msg k))
            (waiting file k ((pos n, file n) ∷ []) [])
          ≡ (if nat_beq (suc k) n
              then waiting file (suc n) [] []
              else waiting file (suc k) ((pos n, file n) ∷ []) [])
    receive_behind k h =
        let d = plain k h in
        handle_delivered (msg k) (waiting file k ((pos n, file n) ∷ []) []) d
        ∙ accept_gap write_ok file d.c k n h d.number d.bytes d.flag (writes k (omega arith))
            (writes n (omega arith))

    in_order_from :
        (m k : ℕ)
        → k + m ≡ n
        → upload_worker unmarshal digest write_ok (messages msg k (suc m)) (waiting file k [] [])
          ≡ record (waiting file (suc n) [] []) { flushed = true; outcome = completed }
    in_order_from zero k e =
        let q : n ≡ k = omega arith in
        worker_step (binary (msg k)) [] (waiting file k [] []) refl
        ∙ worker_end
            (handle_input unmarshal digest write_ok (binary (msg k)) (waiting file k [] []))
        ∙ subst
            (λ i.
              handle_input unmarshal digest write_ok (binary (msg i)) (waiting file i [] [])
              ≡ record (waiting file (suc n) [] []) { flushed = true; outcome = completed })
            q receive_final
    in_order_from (suc m) k e =
        worker_step (binary (msg k)) (messages msg (suc k) (suc m)) (waiting file k [] []) refl
        ∙ ap (upload_worker unmarshal digest write_ok (messages msg (suc k) (suc m)))
            (receive_next k (omega arith))
        ∙ in_order_from m (suc k) (omega arith)

    stalls_from :
        (m k : ℕ)
        → k + suc m ≡ n
        → upload_worker unmarshal digest write_ok
            (messages msg k (suc m))
            (waiting file k ((pos n, file n) ∷ []) [])
          ≡ waiting file (suc n) [] []
    stalls_from zero k e =
        let q : nat_beq (suc k) n ≡ true = ground (arith, nat_beq_iff (suc k) n) in
        worker_step (binary (msg k)) [] (waiting file k ((pos n, file n) ∷ []) []) refl
        ∙ worker_end (
            handle_input unmarshal digest write_ok (binary (msg k))
              (waiting file k ((pos n, file n) ∷ []) []))
        ∙ receive_behind k (omega arith)
        ∙ rw q refl
    stalls_from (suc m) k e =
        let q : nat_beq (suc k) n ≡ false = ground (arith, nat_beq_iff (suc k) n) in
        worker_step (binary (msg k)) (messages msg (suc k) (suc m))
          (waiting file k ((pos n, file n) ∷ []) []) refl
        ∙ ap (upload_worker unmarshal digest write_ok (messages msg (suc k) (suc m)))
            (receive_behind k (omega arith) ∙ rw q refl)
        ∙ stalls_from m (suc k) (omega arith)

    initial_state : start ≡ waiting file 0 [] []
    unfolding start file_prefix
    initial_state = refl

    last_first :
        (m : ℕ)
        → 0 < m
        → m ≡ n
        → upload_worker unmarshal digest write_ok (binary (msg n) ∷ messages msg 0 m) start
          ≡ waiting file (suc n) [] []
    last_first zero h e = absurd (omega (arith, h))
    last_first (suc m) h e =
        ap (upload_worker unmarshal digest write_ok (binary (msg n) ∷ messages msg 0 (suc m)))
          initial_state
        ∙ worker_step (binary (msg n)) (messages msg 0 (suc m)) (waiting file 0 [] []) refl
        ∙ ap (upload_worker unmarshal digest write_ok (messages msg 0 (suc m)))
            (receive_early (omega arith))
        ∙ stalls_from m 0 (omega (arith, e))

    -- Chunks that arrive in order, the last one flagged, complete the upload: the whole file is
    -- written and flushed, and nothing is left over.
    pub in_order_completes :
        let u = upload_worker unmarshal digest write_ok (messages msg 0 (suc n)) start in
        (u.outcome ≡ completed)
        × (u.flushed ≡ true)
        × (u.written ≡ file_prefix file (suc n))
        × (u.received_chunks ≡ [])
    in_order_completes =
        let e =
          ap (upload_worker unmarshal digest write_ok (messages msg 0 (suc n))) initial_state
          ∙ in_order_from n 0 (omega arith) in
        (
          ap (λ u. u.outcome) e,
          ap (λ u. u.flushed) e,
          ap (λ u. u.written) e,
          ap (λ u. u.received_chunks) e,
        )

    -- If the last chunk of at least two comes first and the others in order, then all of the file is
    -- written, but the upload does not complete: the worker goes on reading, and nothing is flushed.
    pub last_first_stalls :
        0 < n
        → let u =
            upload_worker unmarshal digest write_ok (binary (msg n) ∷ messages msg 0 n) start in
          (u.written ≡ file_prefix file (suc n)) × (u.outcome ≡ running) × (u.flushed ≡ false)
    last_first_stalls h =
        let e = last_first n h refl in
        (ap (λ u. u.written) e, ap (λ u. u.outcome) e, ap (λ u. u.flushed) e)
