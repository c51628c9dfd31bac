-- ===== src/Examples/Downloads.antt =====
-- A file of three bytes that is sent, and the theorems on the worker that sends it.
use onli_desk_full.Common.{
  take, ◌<◌, ◌≡◌, ◌≢◌, refl, ℕ, zero, suc, pos, String, Bool, true, false, Option, none, some, [],
  ◌∷◌, arith, length, nat_beq, if◌then◌else◌,
}
use onli_desk_full.FileTransfer.Chunks.{
  Bytes, FileChunk, chunk, bad, bad_header, parse_chunk, header_size,
}
use onli_desk_full.FileTransfer.Upload.{start, upload_worker}
use onli_desk_full.FileTransfer.Download.{
  Signal, nothing, finished, download_worker, send_chunk_with_retry, chunk_count_of,
}
use onli_desk_full.FileTransfer.Download.Reads.{contents}
use onli_desk_full.FileTransfer.Download.Chunking.{Smooth, cut, download_worker-sends_file}
use onli_desk_full.FileTransfer.Download.Unread.{IsPartOf, download_worker-IsPartOf}
use onli_desk_full.FileTransfer.Download.Wire.{
  IsJson, chunk_message, wire_messages, parse_chunk-chunk_message, upload_worker-wire_messages,
}

abbrev file : Bytes
file = 7 ∷ 8 ∷ 9 ∷ []

abbrev digest : Bytes → String
digest _ = ""

abbrev signals : ℕ → Signal
signals _ = nothing

abbrev amounts : ℕ → Option ℕ
amounts _ = some 65_536

-- The first attempt fails.
abbrev accepts : ℕ → ℕ → Bool
accepts _ zero = false
accepts _ (suc _) = true

second_attempt : (send_chunk_with_retry (λ (a : ℕ). accepts 0 a)).success ≡ true
unfolding send_chunk_with_retry
second_attempt = refl

smooth : (i : ℕ) → Smooth "t" digest signals amounts accepts i
unfolding send_chunk_with_retry
smooth i = record {
  uncancelled = λ e. cc;
  amount = 65_536;
  reads = refl;
  full = omega arith;
  accepted = refl;
}

download_worker-sends_file_example :
    let d = download_worker "t" digest signals amounts accepts file in
    let n = chunk_count_of (length file) in
    (d.ending ≡ finished)
    × (d.current_chunk ≡ n)
    × (d.sent ≡ cut "t" digest n 0 file)
    × (contents d.sent ≡ file)
download_worker-sends_file_example =
    download_worker-sends_file "t" digest signals amounts accepts file smooth

-- The connection takes nothing.
abbrev refuses : ℕ → ℕ → Bool
refuses _ _ = false

download_worker-IsPartOf_example :
    IsPartOf "t" digest file (download_worker "t" digest signals amounts refuses file)
download_worker-IsPartOf_example = download_worker-IsPartOf "t" digest signals amounts refuses file

abbrev sent_chunk : FileChunk
sent_chunk = record {
  id = "t";
  sequence = pos 0;
  content = file;
  size = 3;
  is_last = true;
  checksum = "";
}

-- An encoding of two bytes, `{}`.
abbrev marshal : FileChunk → Bytes
marshal _ = b'{' ∷ b'}' ∷ []

abbrev unmarshal : Bytes → Option FileChunk
unmarshal [] = none
unmarshal (_ ∷ []) = none
unmarshal (_ ∷ _ ∷ []) = some sent_chunk
unmarshal (_ ∷ _ ∷ _ ∷ _) = none

sent_IsJson : IsJson marshal unmarshal sent_chunk
sent_IsJson = record { decodes = refl; rejects_nuls = λ k. refl; rejects_part = rejected }
  where
    rejected : (k : ℕ) → k < 2 → unmarshal (take k (b'{' ∷ b'}' ∷ [])) ≡ none
    rejected zero h = refl
    rejected (suc zero) h = refl
    rejected (suc (suc k)) h = absurd (omega (arith, h))

parse_chunk-chunk_message_example :
    parse_chunk unmarshal (chunk_message marshal unmarshal sent_chunk) ≡ (
      if nat_beq (length (marshal sent_chunk)) header_size
      then chunk sent_chunk
      else bad bad_header)
parse_chunk-chunk_message_example =
    parse_chunk-chunk_message marshal unmarshal sent_chunk sent_IsJson refl

abbrev write_ok : Bytes → Bytes → Bool
write_ok _ _ = true

not_header_size : length (marshal sent_chunk) ≢ header_size
not_header_size e = omega (arith, e)

upload_worker-wire_messages_example :
    upload_worker unmarshal digest write_ok
      (wire_messages marshal unmarshal (sent_chunk ∷ sent_chunk ∷ []))
      start
    ≡ start
upload_worker-wire_messages_example =
    upload_worker-wire_messages marshal unmarshal digest write_ok (sent_chunk ∷ sent_chunk ∷ [])
      start ((sent_IsJson, refl, not_header_size), ((sent_IsJson, refl, not_header_size), tt))
