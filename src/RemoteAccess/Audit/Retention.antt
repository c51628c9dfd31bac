-- ===== src/RemoteAccess/Audit/Retention.antt =====
-- audit.go: `cleanupOldLogs`, which keeps the newest log files. A file is its path and the time when it
-- was last changed; `stats` says whether `os.Stat` succeeds, and `removes` whether `os.Remove` does.
pub mod Laws
use mathlib.Core.List.{Permᴰ}
use mathlib.Core.List.Permᴰ
use mathlib.Core.Path.{subst}
use onli_desk_full.Common.{
  ◌≡◌, refl, ap, sym, ◌∙◌, ℕ, zero, suc, ◌-◌, ◌≤◌, ◌<◌, ℤ, ltb_ℤ, ◌≤ℤ◌, String, Bool, true, false,
  List, [], ◌∷◌, ◌++◌, arith, All, if◌then◌else◌, length, keep, take, drop, length-drop,
  take-append-drop, inl, inr, Bool-cases, leb, not,
}

pub record LogFile : Type 0 where
  pub path : String
  pub mod_time : ℤ

-- The inner loop for one `i`: the file at `i`, compared with each later one and exchanged if it is
-- the newer of the two.
unfoldable pub exchange : LogFile → List LogFile → LogFile × List LogFile
exchange x [] = (x, [])
exchange x (y ∷ ys) =
    let newer = ltb_ℤ y.mod_time x.mod_time in
    let (least, rest) = exchange (if newer then y else x) ys in
    (least, (if newer then x else y) ∷ rest)

-- The outer loop, over as many files as there are.
unfoldable pub sort_from : ℕ → List LogFile → List LogFile
unfolding exchange
sort_from zero xs = xs
sort_from (suc n) [] = []
sort_from (suc n) (x ∷ xs) = let (least, rest) = exchange x xs in least ∷ sort_from n rest

unfoldable pub sort_files : List LogFile → List LogFile
unfolding sort_from
sort_files xs = sort_from (length xs) xs

-- The files that are left, in no order, of those that match the pattern.
unfoldable pub cleanup_old_logs :
    ℕ → (LogFile → Bool) → (LogFile → Bool) → List LogFile → List LogFile
unfolding sort_files
cleanup_old_logs max_files stats removes files =
    if leb (length files) max_files
    then files
    else let infos = sort_files (keep stats files) in
      let count = length infos - max_files in
      keep (λ f. not (stats f)) files
      ++ keep (λ f. not (removes f)) (take count infos)
      ++ drop count infos
