-- ===== src/FileTransfer/Manager/Orphans.antt =====
-- transfer_session.go: `cleanupOrphanedTempFiles`. Parameters: `base`, `filepath.Base`, and `removes`,
-- whether an entry of the directory can be removed.
use onli_desk_full.Common.{
  ◌≡◌, refl, ℤ, pos, ltb_ℤ, ◌-ℤ◌, String, ◌==◌, Bool, true, false, ◌&&◌, ◌||◌, not, Option, none,
  some, [], ◌∷◌, arith, eq_iff, eq_refl, if◌then◌else◌, inl, inr, Bool-cases,
}
use onli_desk_full.Common.Int.{sat64}
use onli_desk_full.Common.Map.{Map, IsMap, lookup}
use onli_desk_full.FileTransfer.Handler.{FileSystem, TransferSession}

-- An entry of the directory of temporary files, with its time if `Info` succeeds.
pub record TempEntry : Type 0 where
  pub is_dir : Bool
  pub mod_time : Option ℤ

module _ (os : FileSystem) (base : String → String) (removes : String → Bool) (now : ℤ) where
  -- `activeFiles[name]`.
  abbrev is_active_file : String → Map (TransferSession os) → Bool
  is_active_file name [] = false
  is_active_file name ((id, s) ∷ m) =
      (not (s.temp_path == "") && base s.temp_path == name) || is_active_file name m

  abbrev is_old_file : TempEntry → Bool
  is_old_file f = elim f.mod_time [
    | none ↦ false
    | some t ↦ ltb_ℤ (pos 3_600_000_000_000) (sat64 (now -ℤ t))
  ]

  abbrev is_orphan : Map (TransferSession os) → String → TempEntry → Bool
  is_orphan sessions name f = not f.is_dir && not (is_active_file name sessions) && is_old_file f

  unfoldable pub remove_orphans : Map (TransferSession os) → Map TempEntry → Map TempEntry
  remove_orphans sessions [] = []
  remove_orphans sessions ((name, f) ∷ rest) =
      let others = remove_orphans sessions rest in
      if is_orphan sessions name f && removes name then others else (name, f) ∷ others

  -- `reads` says whether the directory can be read.
  unfoldable pub cleanup_orphaned_temp_files :
      Bool → Map (TransferSession os) → Map TempEntry → Map TempEntry
  unfolding remove_orphans
  cleanup_orphaned_temp_files reads sessions entries =
      if reads then remove_orphans sessions entries else entries

  lookup-remove_orphans-none :
      (ss : Map (TransferSession os)) (name : String) (fs : Map TempEntry)
      → lookup name fs ≡ none
      → lookup name (remove_orphans ss fs) ≡ none
  unfolding lookup remove_orphans
  lookup-remove_orphans-none ss name [] h = refl
  lookup-remove_orphans-none ss name ((k, f) ∷ fs) h =
      ground (arith, lookup-remove_orphans-none ss name fs)

  abbrev left : Map (TransferSession os) → String → Option TempEntry → Option TempEntry
  left ss name none = none
  left ss name (some f) = if is_orphan ss name f && removes name then none else some f

  lookup-remove_orphans :
      (ss : Map (TransferSession os)) (name : String) (fs : Map TempEntry)
      → IsMap fs
      → lookup name (remove_orphans ss fs) ≡ left ss name (lookup name fs)
  unfolding lookup remove_orphans
  lookup-remove_orphans ss name [] d = refl
  lookup-remove_orphans ss name ((k, f) ∷ fs) d = elim (Bool-cases (k == name)) [
    | inl y ↦
        rw (← (eq_iff k name).0 y, eq_refl k)
          (elim (Bool-cases (is_orphan ss k f && removes k)) [
            | inl g ↦ rw g (lookup-remove_orphans-none ss k fs d.0)
            | inr g ↦ rw (g, eq_refl k) refl
          ])
    | inr n ↦ rw n (elim (Bool-cases (is_orphan ss k f && removes k)) [
      | inl g ↦ rw g (lookup-remove_orphans ss name fs d.1)
      | inr g ↦ rw (g, n) (lookup-remove_orphans ss name fs d.1)
    ])
  ]

  -- In a directory that can be read and where each name stands once, exactly the files are removed that
  -- are orphans and can be removed; every other entry is left as it was.
  lookup-cleanup_orphaned_temp_files :
      (ss : Map (TransferSession os)) (name : String) (fs : Map TempEntry)
      → IsMap fs
      → lookup name (cleanup_orphaned_temp_files true ss fs) ≡ left ss name (lookup name fs)
  unfolding cleanup_orphaned_temp_files
  lookup-cleanup_orphaned_temp_files ss name fs d = lookup-remove_orphans ss name fs d
