-- ===== src/FileTransfer/Audit/Within.antt =====
-- audit.go: what every log file keeps when the map of the files is changed.
use onli_desk_full.Common.{
  ◌≡◌, ℕ, ◌+◌, ◌≤◌, ℤ, String, ◌==◌, some, [], ◌∷◌, All, inl, inr, Option-cases, Bool-cases, arith,
}
use onli_desk_full.Common.Map.{Map, lookup, insert, delete}
use onli_desk_full.FileTransfer.Audit.{AuditEvent}
use onli_desk_full.FileTransfer.Audit.Logger.{LogFile, ensure, append_line}
use onli_desk_full.FileTransfer.Audit.Flush.{bytes_of, lines_of, lookup-ensure}

abbrev pub Within : ℕ → String × LogFile → Type 0
Within bound (path, f) = f.bytes ≤ bound

pub insert-Within :
    (b : ℕ) (path : String) (f : LogFile) (files : Map LogFile)
    → f.bytes ≤ b
    → All (Within b) files
    → All (Within b) (insert path f files)
unfolding insert
insert-Within b path f [] h a = (h, tt)
insert-Within b path f ((p, g) ∷ files) h a = elim (Bool-cases (p == path)) [
  | inl y ↦ rw y (h, a.1)
  | inr n ↦ rw n (a.0, insert-Within b path f files h a.1)
]

pub delete-Within :
    (b : ℕ) (path : String) (files : Map LogFile)
    → All (Within b) files
    → All (Within b) (delete path files)
unfolding delete
delete-Within b path [] a = tt
delete-Within b path ((p, g) ∷ files) a = elim (Bool-cases (p == path)) [
  | inl y ↦ rw y (delete-Within b path files a.1)
  | inr n ↦ rw n (a.0, delete-Within b path files a.1)
]

pub lookup-Within :
    (b : ℕ) (path : String) (files : Map LogFile)
    → All (Within b) files
    → bytes_of (lookup path files) ≤ b
unfolding lookup
lookup-Within b path [] a = omega arith
lookup-Within b path ((p, g) ∷ files) a = elim (Bool-cases (p == path)) [
  | inl y ↦ rw y a.0
  | inr n ↦ rw n (lookup-Within b path files a.1)
]

pub ensure-Within :
    (b : ℕ) (now : ℤ) (path : String) (files : Map LogFile)
    → All (Within b) files
    → All (Within b) (ensure now path files)
unfolding ensure
ensure-Within b now path files a = elim (Option-cases (lookup path files)) [
  | inl e ↦ rw (e, ensure) (insert-Within b path _ files (omega arith) a)
  | inr (f, e) ↦ rw (e, ensure) a
]

pub bytes-ensure :
    (now : ℤ) (path : String) (files : Map LogFile)
    → bytes_of (lookup path (ensure now path files)) ≡ bytes_of (lookup path files)
bytes-ensure now path files =
    let there : (f : LogFile) × (lookup path (ensure now path files) ≡ some f)
        × (f.lines ≡ lines_of (lookup path files))
        × (f.bytes ≡ bytes_of (lookup path files)) =
      lookup-ensure now path files in
    rw there.1 there.3

pub append_line-Within :
    (b : ℕ) (now : ℤ) (path : String) (e : AuditEvent) (n : ℕ) (files : Map LogFile)
    → bytes_of (lookup path files) + n ≤ b
    → All (Within b) files
    → All (Within b) (append_line now path e n files)
unfolding append_line
append_line-Within b now path e n files h a = elim (Option-cases (lookup path files)) [
  | inl g ↦ rw (g, append_line) a
  | inr (f, g) ↦ rw (g, append_line) (insert-Within b path _ files (rw g at h) a)
]
