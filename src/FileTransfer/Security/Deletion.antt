-- ===== src/FileTransfer/Security/Deletion.antt =====
-- security.go: `SecureDelete`, on the bytes of a file that can be examined and opened for writing, and
-- the position at which the next write goes.
pub mod Passes
use mathlib.Core.List.{append-nil, append_assoc}
use onli_desk_full.Common.{
  ◌≡◌, refl, sym, ap, ◌∙◌, ℕ, zero, suc, ◌+◌, ◌-◌, ◌≤◌, ◌<◌, Bool, true, false, Option, none, some,
  List, [], ◌∷◌, ◌++◌, arith, ltb, length, take, drop, length-append, length-drop,
  take-length-append, if◌then◌else◌, Bool-cases, inl, inr,
}
use onli_desk_full.FileTransfer.Chunks.{Bytes}

abbrev pub buffer_size : ℕ
buffer_size = 4_096

-- What happens in pass `p` at offset `w`: the bytes that `rand.Read` puts in a buffer of a length,
-- whether it succeeds, and how many bytes a write that fails has written (`none` if it succeeds); and
-- whether the file can be rewound before a pass, synced after it, and removed.
pub record Disk : Type 0 where
  pub random : ℕ → ℕ → ℕ → Bytes
  pub draws : ℕ → ℕ → Bool
  pub fails : ℕ → ℕ → Option ℕ
  pub seeks : ℕ → Bool
  pub syncs : ℕ → Bool
  pub removes : Bool

pub record OpenFile : Type 0 where
  pub contents : Bytes
  pub position : ℕ

-- `file.Write`: over what stands at the position, and on behind the end.
unfoldable pub write_at : Bytes → OpenFile → OpenFile
write_at bytes f = record {
  contents = take f.position f.contents ++ (bytes ++ drop (f.position + length bytes) f.contents);
  position = f.position + length bytes;
}

-- `toWrite`.
abbrev pub block : ℕ → ℕ → ℕ
block size written = if ltb size (written + buffer_size) then size - written else buffer_size

-- The file after the inner loop, and whether the loop came to its end. A round writes at least one
-- byte, so there are at most as many rounds as bytes.
unfoldable pub overwrite : Disk → ℕ → ℕ → ℕ → ℕ → OpenFile → OpenFile × Bool
unfolding write_at
overwrite d pass zero size written f = (f, true)
overwrite d pass (suc fuel) size written f =
    let n = block size written in
    let bytes = d.random pass written n in
    let rest = overwrite d pass fuel size (written + n) (write_at bytes f) in
    if ltb written size
    then (if d.draws pass written
        then elim (d.fails pass written) [
          | none ↦ rest
          | some k ↦ (write_at (take k bytes) f, false)
        ]
        else (f, false))
    else (f, true)

-- The file's bytes in the end, and after each `Sync` that succeeded; and whether it was removed.
pub record Deletion : Type 0 where
  pub contents : Bytes
  pub synced : List Bytes
  pub removed : Bool

unfoldable pub delete_from : Disk → ℕ → ℕ → ℕ → OpenFile → List Bytes → Deletion
unfolding overwrite
delete_from d zero pass size f synced = record {
  contents = f.contents;
  synced = synced;
  removed = d.removes;
}
delete_from d (suc left) pass size f synced =
    let (g, done) = overwrite d pass size size 0 (record f { position = 0 }) in
    let rest = delete_from d left (suc pass) size g (synced ++ g.contents ∷ []) in
    if d.seeks pass
    then (if done
        then (if d.syncs pass
            then rest
            else record { contents = g.contents; synced = synced; removed = false })
        else record { contents = g.contents; synced = synced; removed = false })
    else record { contents = f.contents; synced = synced; removed = false }

unfoldable pub secure_delete : Disk → Bytes → Deletion
unfolding delete_from
secure_delete d file = delete_from d 3 0 (length file) (record { contents = file; position = 0 }) []
