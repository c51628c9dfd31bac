-- ===== src/FileTransfer/Security/Names.antt =====
-- security.go: `validateFilename` and `validateFileExtension`. A file name is a list of code points.
-- `strings.ToLower` is a parameter; `strings.ToUpper` is that of ASCII, which finds the same reserved
-- names, since no other letter has one of their capitals. The separator of paths is `/`.
use onli_desk_full.Common.{
  ℕ, ◌+◌, ◌-◌, ℤ, pos, ltb_ℤ, String, Bool, true, false, ◌&&◌, ◌||◌, not, Option, none, some, List,
  [], ◌∷◌, if◌then◌else◌, ltb, leb, nat_beq,
}
use onli_desk_full.Common.Text.{Text, codes, text_eq}

-- `len(filename)`: the bytes of UTF-8.
unfoldable pub utf8_length : Text → ℕ
utf8_length [] = 0
utf8_length (c ∷ s) =
    (if ltb c 128 then 1 else if ltb c 2_048 then 2 else if ltb c 65_536 then 3 else 4)
    + utf8_length s

unfoldable pub has_char : ℕ → Text → Bool
has_char c [] = false
has_char c (d ∷ s) = nat_beq c d || has_char c s

abbrev pub is_empty : Text → Bool
is_empty [] = true
is_empty (c ∷ s) = false

-- The name without `filepath.Ext(name)`, and that: from the last dot on, if no separator follows it.
unfoldable pub split_ext : Text → Text × Text
unfolding has_char
split_ext [] = ([], [])
split_ext (c ∷ s) =
    let (base, ext) = split_ext s in
    if not (is_empty ext)
    then (c ∷ base, ext)
    else if nat_beq c b'.' && not (has_char b'/' s)
    then ([], c ∷ s)
    else (c ∷ s, [])

unfoldable pub upper_char : ℕ → ℕ
upper_char c = if leb b'a' c && leb c b'z' then c - 32 else c

unfoldable pub upper : Text → Text
unfolding upper_char
upper [] = []
upper (c ∷ s) = upper_char c ∷ upper s

abbrev pub dangerous_chars : List ℕ
dangerous_chars = b'<' ∷ b'>' ∷ b':' ∷ 34 ∷ b'|' ∷ b'?' ∷ b'*' ∷ 0 ∷ []

unfoldable pub first_dangerous : List ℕ → Text → Option ℕ
unfolding has_char
first_dangerous [] name = none
first_dangerous (c ∷ cs) name =
    let rest = first_dangerous cs name in if has_char c name then some c else rest

abbrev pub reserved_names : List String
reserved_names =
    "CON" ∷ "PRN" ∷ "AUX" ∷ "NUL" ∷ "COM1" ∷ "COM2" ∷ "COM3" ∷ "COM4" ∷ "COM5" ∷ "COM6" ∷ "COM7"
    ∷ "COM8" ∷ "COM9" ∷ "LPT1" ∷ "LPT2" ∷ "LPT3" ∷ "LPT4" ∷ "LPT5" ∷ "LPT6" ∷ "LPT7" ∷ "LPT8"
    ∷ "LPT9" ∷ []

unfoldable pub first_reserved : List String → Text → Option String
unfolding text_eq
first_reserved [] base = none
first_reserved (r ∷ rs) base =
    let rest = first_reserved rs base in if text_eq base (codes r) then some r else rest

pub data NameError : Type 0 where
  empty_filename filename_too_long : NameError
  dangerous_character : ℕ → NameError
  reserved_name : String → NameError

abbrev pub reserved_error : Option String → Option NameError
reserved_error none = none
reserved_error (some r) = some (reserved_name r)

abbrev pub or_reserved : Option ℕ → Option NameError → Option NameError
or_reserved (some c) e = some (dangerous_character c)
or_reserved none e = e

-- `max` is `MaxFilenameLength`.
unfoldable pub validate_filename : ℤ → Text → Option NameError
unfolding utf8_length first_dangerous first_reserved upper split_ext
validate_filename max name =
    if is_empty name
    then some empty_filename
    else if ltb_ℤ max (pos (utf8_length name))
    then some filename_too_long
    else or_reserved (first_dangerous dangerous_chars name)
        (reserved_error (first_reserved reserved_names (upper (split_ext name).0)))

-- `validateFileExtension`: whether the extension is blocked.
unfoldable pub is_blocked : (Text → Text) → List String → Text → Bool
unfolding text_eq
is_blocked to_lower [] ext = false
is_blocked to_lower (b ∷ bs) ext = text_eq ext (to_lower (codes b)) || is_blocked to_lower bs ext

unfoldable pub has_blocked_extension : (Text → Text) → List String → Text → Bool
unfolding is_blocked split_ext
has_blocked_extension to_lower blocked name =
    is_blocked to_lower blocked (to_lower (split_ext name).1)
