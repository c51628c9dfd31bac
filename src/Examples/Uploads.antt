-- ===== src/Examples/Uploads.antt =====
-- A file of two chunks on its way to a worker. A message has the number of its chunk in the first
-- byte of its header.
use onli_desk_full.Common.{
  ◌≡◌, refl, sym, ◌∙◌, ℕ, zero, suc, ◌+◌, ◌<◌, pos, String, Bool, true, false, Option, none, some,
  List, [], ◌∷◌, arith, nat_beq,
}
use onli_desk_full.FileTransfer.Chunks.{Bytes, FileChunk, chunk, parse_chunk, verify_chunk_checksum}
use onli_desk_full.FileTransfer.Upload.{
  running, completed, Input, binary, pauses_and_resumes, start, upload_worker,
}
use onli_desk_full.FileTransfer.Upload.Content.{file_prefix, IsFrom, upload_worker_content}
use onli_desk_full.FileTransfer.Upload.Completion.{
  messages, Delivers, in_order_completes, last_first_stalls,
}

abbrev pad : ℕ → Bytes → Bytes
pad zero body = body
pad (suc n) body = 0 ∷ pad n body

-- Chunk `i` of the file has the one byte `i + 7`.
abbrev file : ℕ → Bytes
file i = (i + 7) ∷ []

abbrev message : ℕ → Bytes
message i = i ∷ pad 255 (file i)

abbrev header : ℕ → FileChunk
header i = record {
  id = "t";
  sequence = pos i;
  content = [];
  size = 0;
  is_last = nat_beq i 1;
  checksum = "";
}

abbrev unmarshal : Bytes → Option FileChunk
unmarshal [] = none
unmarshal (i ∷ _) = some (header i)

abbrev digest : Bytes → String
digest _ = ""

abbrev write_ok : Bytes → Bytes → Bool
write_ok _ _ = true

abbrev delivered : ℕ → FileChunk
delivered i = record (header i) { content = file i; size = 1 }

parses : (i : ℕ) → parse_chunk unmarshal (message i) ≡ chunk (delivered i)
unfolding parse_chunk
parses i = refl

first_delivered : Delivers unmarshal digest write_ok file 0 false (message 0)
unfolding verify_chunk_checksum
first_delivered = record {
  c = delivered 0;
  parses = parses 0;
  checks = refl;
  number = refl;
  bytes = refl;
  flag = refl;
}

last_delivered : Delivers unmarshal digest write_ok file 1 true (message 1)
unfolding verify_chunk_checksum
last_delivered = record {
  c = delivered 1;
  parses = parses 1;
  checks = refl;
  number = refl;
  bytes = refl;
  flag = refl;
}

plain : (i : ℕ) → i < 1 → Delivers unmarshal digest write_ok file i false (message i)
plain zero h = first_delivered
plain (suc i) h = absurd (omega (arith, h))

in_order_completes_example :
    let u = upload_worker unmarshal digest write_ok (messages message 0 2) start in
    (u.outcome ≡ completed)
    × (u.flushed ≡ true)
    × (u.written ≡ file_prefix file 2)
    × (u.received_chunks ≡ [])
in_order_completes_example =
    in_order_completes unmarshal digest write_ok file message 1 plain last_delivered (λ i h. refl)

last_first_stalls_example :
    let u =
      upload_worker unmarshal digest write_ok (binary (message 1) ∷ messages message 0 1) start in
    (u.written ≡ file_prefix file 2) × (u.outcome ≡ running) × (u.flushed ≡ false)
last_first_stalls_example =
    last_first_stalls unmarshal digest write_ok file message 1 plain last_delivered (λ i h. refl)
      (omega arith)

message-IsFrom : (i : ℕ) → IsFrom unmarshal digest write_ok file (binary (message i))
message-IsFrom i c p checks j number =
    let it : chunk (delivered i) ≡ chunk c = sym (parses i) ∙ p in ground arith

-- A worker that is paused, and gets the second chunk twice.
abbrev shuffled : List Input
shuffled = binary (message 1) ∷ pauses_and_resumes ∷ binary (message 1) ∷ binary (message 0) ∷ []

upload_worker_content_example :
    let u = upload_worker unmarshal digest write_ok shuffled start in
    (u.written ≡ file_prefix file u.expected_chunk) × (u.current_chunk ≡ u.expected_chunk)
upload_worker_content_example =
    upload_worker_content unmarshal digest write_ok file shuffled
      (message-IsFrom 1, (tt, (message-IsFrom 1, (message-IsFrom 0, tt))))
