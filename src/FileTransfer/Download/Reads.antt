-- ===== src/FileTransfer/Download/Reads.antt =====
-- file_stream.go: what `downloadWorker` reads from the file, and the contents of chunks.
use onli_desk_full.Common.{
  ◌≡◌, refl, ap, sym, ◌∙◌, ◌≢◌, ℕ, zero, suc, ◌≤◌, ◌<◌, ltb, Bool, true, false, Bool-cases, Option,
  none, some, List, [], ◌∷◌, ◌++◌, arith, ◌⊎◌, inl, inr, length, take, drop, take-append-drop,
  drop-length-take, if◌then◌else◌,
}
use mathlib.Core.Path.{subst}
use mathlib.Core.List.{append_assoc}
use onli_desk_full.FileTransfer.Chunks.{Bytes, FileChunk}
use onli_desk_full.FileTransfer.Download.{
  Signal, nothing, cancels, pauses_and_resumes, Reading, got, cancelled, failed, chunk_size,
  read_bytes, read_chunk,
}

pub read_uncancelled :
    (signal : Signal) (n : ℕ) (file : Bytes)
    → signal ≢ cancels
    → read_chunk signal (some n) file ≡ got (read_bytes n file)
unfolding read_chunk
read_uncancelled nothing n file h = refl
read_uncancelled cancels n file h = absurd (h refl)
read_uncancelled pauses_and_resumes n file h = refl

ltb-false : (a b : ℕ) → b ≤ a → ltb a b ≡ false
ltb-false a b h = ground arith

pub read_full : (n : ℕ) (file : Bytes) → chunk_size ≤ n → read_bytes n file ≡ take chunk_size file
read_full n file h =
    ap (λ (b : Bool). take (if b then n else chunk_size) file) (ltb-false n chunk_size h)

pub nothing_left : (xs : Bytes) → length xs ≤ 0 → xs ≡ []
nothing_left [] h = refl
nothing_left (x ∷ xs) h = absurd (omega (arith, h))

pub length-take_pos : (n : ℕ) (xs : Bytes) → 0 < n → 0 < length xs → 0 < length (take n xs)
length-take_pos zero xs h l = absurd (omega (arith, h))
length-take_pos (suc n) [] h l = absurd (omega (arith, l))
length-take_pos (suc n) (x ∷ xs) h l = omega arith

-- The contents of chunks, one after the other.
abbrev pub contents : List FileChunk → Bytes
contents [] = []
contents (c ∷ cs) = c.content ++ contents cs

pub contents-append : (cs ds : List FileChunk) → contents (cs ++ ds) ≡ contents cs ++ contents ds
contents-append [] ds = refl
contents-append (c ∷ cs) ds =
    ap (λ bytes. c.content ++ bytes) (contents-append cs ds)
    ∙ sym (append_assoc c.content (contents cs) (contents ds))

pub Reading-cases :
    (r : Reading) → (r ≡ cancelled) ⊎ (r ≡ failed) ⊎ ((bytes : Bytes) × (r ≡ got bytes))
Reading-cases cancelled = inl refl
Reading-cases failed = inr (inl refl)
Reading-cases (got bytes) = inr (inr (bytes, refl))

pub take-part :
    (n : ℕ) (file : Bytes) → let bytes = take n file in bytes ++ drop (length bytes) file ≡ file
take-part n file =
    ap (λ rest. take n file ++ rest) (drop-length-take n file) ∙ take-append-drop n file

got_inj : {a b : Bytes} → got a ≡ got b → a ≡ b
got_inj e = cc

-- What a read gives is a first part of the file.
pub read-part :
    (signal : Signal) (amount : Option ℕ) (file bytes : Bytes)
    → read_chunk signal amount file ≡ got bytes
    → bytes ++ drop (length bytes) file ≡ file
unfolding read_chunk
read-part cancels amount file bytes e = cc
read-part nothing none file bytes e = cc
read-part nothing (some n) file bytes e =
    subst (λ xs. xs ++ drop (length xs) file ≡ file) (got_inj e)
      (take-part (if ltb n chunk_size then n else chunk_size) file)
read-part pauses_and_resumes none file bytes e = cc
read-part pauses_and_resumes (some n) file bytes e =
    subst (λ xs. xs ++ drop (length xs) file ≡ file) (got_inj e)
      (take-part (if ltb n chunk_size then n else chunk_size) file)

length-take-le : (n : ℕ) (xs : Bytes) → length (take n xs) ≤ n
length-take-le zero xs = omega arith
length-take-le (suc n) [] = omega arith
length-take-le (suc n) (x ∷ xs) = omega (arith, length-take-le n xs)

length-read_bytes : (n : ℕ) (file : Bytes) → length (read_bytes n file) ≤ chunk_size
length-read_bytes n file = elim (Bool-cases (ltb n chunk_size)) [
  | inl l ↦ rw l (omega (arith, length-take-le n file, ltb-le n chunk_size l))
  | inr g ↦ rw g (length-take-le chunk_size file)
]
  where
    ltb-le : (a b : ℕ) → ltb a b ≡ true → a ≤ b
    ltb-le a b h = ground arith

-- A read gives no more than the buffer holds.
pub read-small :
    (signal : Signal) (amount : Option ℕ) (file bytes : Bytes)
    → read_chunk signal amount file ≡ got bytes
    → length bytes ≤ chunk_size
unfolding read_chunk
read-small cancels amount file bytes e = cc
read-small nothing none file bytes e = cc
read-small nothing (some n) file bytes e =
    subst (λ (xs : Bytes). length xs ≤ chunk_size) (got_inj e) (length-read_bytes n file)
read-small pauses_and_resumes none file bytes e = cc
read-small pauses_and_resumes (some n) file bytes e =
    subst (λ (xs : Bytes). length xs ≤ chunk_size) (got_inj e) (length-read_bytes n file)
