-- ===== src/RemoteAccess/Audit/Retention/Laws.antt =====
-- audit.go: which log files `cleanupOldLogs` keeps.
use mathlib.Core.List.{Permᴰ}
use mathlib.Core.List.Permᴰ
use mathlib.Core.Path.{subst}
use onli_desk_full.Common.{
  ◌≡◌, refl, ap, sym, ◌∙◌, ℕ, zero, suc, ◌-◌, ◌≤◌, ◌<◌, ltb_ℤ, ◌≤ℤ◌, Bool, true, false, List, [],
  ◌∷◌, ◌++◌, arith, All, if◌then◌else◌, length, keep, take, drop, length-drop, take-append-drop,
  inl, inr, Bool-cases, leb, not,
}
use onli_desk_full.RemoteAccess.Audit.Retention.{
  LogFile, exchange, sort_from, sort_files, cleanup_old_logs,
}

abbrev Before : LogFile → LogFile → Type 0
Before f g = f.mod_time ≤ℤ g.mod_time

-- Of two files, the one that stays behind and the one that goes on to be compared.
choice_perm :
    (b : Bool) (x y : LogFile) (ys : List LogFile)
    → Permᴰ ((if b then x else y) ∷ (if b then y else x) ∷ ys) (x ∷ y ∷ ys)
choice_perm true x y ys = Permᴰ.refl (x ∷ y ∷ ys)
choice_perm false x y ys = Permᴰ.swap refl refl

exchange-perm :
    (x : LogFile) (xs : List LogFile) → Permᴰ ((exchange x xs).0 ∷ (exchange x xs).1) (x ∷ xs)
unfolding exchange
exchange-perm x [] = Permᴰ.refl (x ∷ [])
exchange-perm x (y ∷ ys) =
    let newer : Bool = ltb_ℤ y.mod_time x.mod_time in
    Permᴰ.trans (Permᴰ.swap refl refl) (
      Permᴰ.trans (Permᴰ.cons refl (exchange-perm (if newer then y else x) ys))
        (choice_perm newer x y ys))

choice-Before :
    (x y : LogFile)
    → let newer = ltb_ℤ y.mod_time x.mod_time in
      Before (if newer then y else x) x × Before (if newer then y else x) (if newer then x else y)
choice-Before x y = elim (Bool-cases (ltb_ℤ y.mod_time x.mod_time)) [
  | inl l ↦ rw l (ground arith)
  | inr g ↦ rw g (ground arith)
]

Before-trans : (f g h : LogFile) → Before f g → Before g h → Before f h
Before-trans f g h p q = omega (arith, p, q)

exchange-least :
    (x : LogFile) (xs : List LogFile)
    → Before (exchange x xs).0 x × All (Before (exchange x xs).0) (exchange x xs).1
unfolding exchange
exchange-least x [] = (omega arith, tt)
exchange-least x (y ∷ ys) =
    let newer : Bool = ltb_ℤ y.mod_time x.mod_time in
    let next : LogFile = if newer then y else x in
    let (below, rest) = exchange-least next ys in
    let (p, q) = choice-Before x y in
    let least : LogFile = (exchange next ys).0 in
    (
      Before-trans least next x below p,
      (Before-trans least next (if newer then x else y) below q, rest),
    )

-- What holds of all files of a list holds of all of a permutation.
All-perm : (P : LogFile → Type 0) {xs ys : List LogFile} → Permᴰ xs ys → All P ys → All P xs
All-perm P Permᴰ.nil a = tt
All-perm P (Permᴰ.cons e p) a = (subst P (sym e) a.0, All-perm P p a.1)
All-perm P (Permᴰ.swap e f) a = (subst P (sym e) a.1.0, (subst P (sym f) a.0, a.1.1))
All-perm P (Permᴰ.trans p q) a = All-perm P p (All-perm P q a)

-- Oldest first.
abbrev IsAscending : List LogFile → Type 0
IsAscending [] = Unit
IsAscending (x ∷ xs) = All (Before x) xs × IsAscending xs

sort_from-perm : (n : ℕ) (xs : List LogFile) → Permᴰ (sort_from n xs) xs
unfolding sort_from
sort_from-perm zero xs = Permᴰ.refl xs
sort_from-perm (suc n) [] = Permᴰ.nil
sort_from-perm (suc n) (x ∷ xs) =
    Permᴰ.trans (Permᴰ.cons refl (sort_from-perm n (exchange x xs).1)) (exchange-perm x xs)

exchange-length : (x : LogFile) (xs : List LogFile) → length (exchange x xs).1 ≡ length xs
unfolding exchange
exchange-length x [] = refl
exchange-length x (y ∷ ys) =
    let next : LogFile = if ltb_ℤ y.mod_time x.mod_time then y else x in
    omega (arith, exchange-length next ys)

sort_from-IsAscending : (n : ℕ) (xs : List LogFile) → length xs ≤ n → IsAscending (sort_from n xs)
unfolding sort_from
sort_from-IsAscending zero [] h = tt
sort_from-IsAscending zero (x ∷ xs) h = absurd (omega arith)
sort_from-IsAscending (suc n) [] h = tt
sort_from-IsAscending (suc n) (x ∷ xs) h =
    let (least, rest) = exchange x xs in
    (
      All-perm (Before least) (sort_from-perm n rest) (exchange-least x xs).1,
      sort_from-IsAscending n rest (omega (arith, exchange-length x xs)),
    )

All-drop : (P : LogFile → Type 0) (k : ℕ) (xs : List LogFile) → All P xs → All P (drop k xs)
All-drop P zero xs a = a
All-drop P (suc k) [] a = tt
All-drop P (suc k) (x ∷ xs) a = All-drop P k xs a.1

-- What is taken off an ascending list is no newer than what is left.
take-Before-drop :
    (k : ℕ) (xs : List LogFile) → IsAscending xs → All (λ f. All (Before f) (drop k xs)) (take k xs)
take-Before-drop zero xs a = tt
take-Before-drop (suc k) [] a = tt
take-Before-drop (suc k) (x ∷ xs) a = (All-drop (Before x) k xs a.0, take-Before-drop k xs a.1)

keep_all : (p : LogFile → Bool) (xs : List LogFile) → ((f : LogFile) → p f ≡ true) → keep p xs ≡ xs
keep_all p [] h = refl
keep_all p (x ∷ xs) h = rw (h x) (ap (λ r. x ∷ r) (keep_all p xs h))

keep_none :
    (p : LogFile → Bool) (xs : List LogFile)
    → ((f : LogFile) → p f ≡ true)
    → keep (λ f. not (p f)) xs ≡ []
keep_none p [] h = refl
keep_none p (x ∷ xs) h = rw (h x) (keep_none p xs h)

cleanup-drop :
    (max_files : ℕ) (stats removes : LogFile → Bool) (files : List LogFile)
    → ((f : LogFile) → stats f ≡ true)
    → ((f : LogFile) → removes f ≡ true)
    → leb (length files) max_files ≡ false
    → cleanup_old_logs max_files stats removes files
      ≡ drop (length (sort_files files) - max_files) (sort_files files)
unfolding cleanup_old_logs
cleanup-drop max_files stats removes files s r h =
    let left : List LogFile → List LogFile → List LogFile = λ lost infos.
      lost
      ++ keep (λ f. not (removes f))
          (take (length (sort_files infos) - max_files) (sort_files infos))
      ++ drop (length (sort_files infos) - max_files) (sort_files infos) in
    rw h (
      ap (λ lost. left lost (keep stats files)) (keep_none stats files s)
      ∙ ap (left []) (keep_all stats files s)
      ∙ ap (λ xs. xs ++ drop (length (sort_files files) - max_files) (sort_files files))
          (keep_none removes (take (length (sort_files files) - max_files) (sort_files files)) r))

length-perm : {xs ys : List LogFile} → Permᴰ xs ys → length xs ≡ length ys
length-perm Permᴰ.nil = refl
length-perm (Permᴰ.cons e p) = omega (arith, length-perm p)
length-perm (Permᴰ.swap e f) = refl
length-perm (Permᴰ.trans p q) = length-perm p ∙ length-perm q

-- If every file can be examined and removed and there are more than the limit, then as many files as
-- the limit are left, and those removed, which with them make up the files there were, are no newer
-- than any that is left.
pub cleanup_old_logs-keeps_newest :
    (max_files : ℕ) (stats removes : LogFile → Bool) (files : List LogFile)
    → ((f : LogFile) → stats f ≡ true)
    → ((f : LogFile) → removes f ≡ true)
    → max_files < length files
    → let left = cleanup_old_logs max_files stats removes files in
      (length left ≡ max_files)
      × (removed : List LogFile) × Permᴰ (removed ++ left) files
      × All (λ f. All (λ g. f.mod_time ≤ℤ g.mod_time) left) removed
unfolding sort_files
cleanup_old_logs-keeps_newest max_files stats removes files s r h =
    let e = cleanup-drop max_files stats removes files s r (ground arith) in
    let sorted : List LogFile = sort_files files in
    let p : Permᴰ sorted files = sort_from-perm (length files) files in
    let k : ℕ = length sorted - max_files in
    rw e (
      omega (arith, h, length-perm p, length-drop {0} k sorted),
      take k sorted,
      rw (take-append-drop k sorted) p,
      take-Before-drop k sorted (sort_from-IsAscending (length files) files (omega arith)),
    )
