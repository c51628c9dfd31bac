-- ===== src/FileTransfer/Security/Traversal.antt =====
-- security.go: file names that lead out of a directory.
use onli_desk_full.Common.{
  ◌≡◌, refl, ap, ◌∙◌, ℕ, ◌+◌, ◌≤◌, ℤ, pos, ltb_ℤ, false, none, ◌∷◌, arith, Bool-cases, inl, inr,
}
use onli_desk_full.Common.Text.{Text, text_eq}
use onli_desk_full.FileTransfer.Security.Names.{
  utf8_length, has_char, split_ext, upper, dangerous_chars, first_dangerous, reserved_names,
  first_reserved, validate_filename, upper_char, is_empty,
}

-- `../`.
abbrev pub parent : Text → Text
parent name = b'.' ∷ b'.' ∷ b'/' ∷ name

validate_filename-none :
    (max : ℤ) (name : Text)
    → is_empty name ≡ false
    → ltb_ℤ max (pos (utf8_length name)) ≡ false
    → first_dangerous dangerous_chars name ≡ none
    → first_reserved reserved_names (upper (split_ext name).0) ≡ none
    → validate_filename max name ≡ none
unfolding validate_filename
validate_filename-none max name e l d r = ground (arith, e, l, d, r)

-- The base of such a path starts with its dot.
base-parent : (name : Text) → (rest : Text) × ((split_ext (parent name)).0 ≡ b'.' ∷ rest)
unfolding split_ext has_char
base-parent name = elim (Bool-cases (is_empty (split_ext name).1)) [
  | inl y ↦ (b'.' ∷ b'/' ∷ name, ground (arith, y))
  | inr n ↦ (b'.' ∷ b'/' ∷ (split_ext name).0, ground (arith, n))
]

first_reserved-dot : (rest : Text) → first_reserved reserved_names (upper (b'.' ∷ rest)) ≡ none
unfolding first_reserved upper upper_char text_eq
first_reserved-dot rest = refl

first_dangerous-parent :
    (name : Text)
    → first_dangerous dangerous_chars name ≡ none
    → first_dangerous dangerous_chars (parent name) ≡ none
unfolding first_dangerous has_char
first_dangerous-parent name d = d

-- A path into the parent directory is a valid file name if it is short enough and what follows has no
-- dangerous character, also where what follows would be refused as a reserved name.
validate_filename-parent :
    (max : ℕ) (name : Text)
    → 3 + utf8_length name ≤ max
    → first_dangerous dangerous_chars name ≡ none
    → validate_filename (pos max) (parent name) ≡ none
unfolding utf8_length
validate_filename-parent max name h d =
    let (rest, e) = base-parent name in
    validate_filename-none (pos max) (parent name) refl (ground (arith, h))
      (first_dangerous-parent name d)
      (ap (λ base. first_reserved reserved_names (upper base)) e ∙ first_reserved-dot rest)
