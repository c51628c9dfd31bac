-- ===== src/Common/Text.antt =====
-- Go strings that the code walks, as lists of code points.
use Prim.Native.Char.{code}
use Prim.Native.Nat.{ℕ, ◌+◌}
use Prim.Native.String.{String}
use mathlib.Core.Path.{◌≡◌, refl}
use mathlib.Core.Logic.{◌↔◌}
use mathlib.Core.Bool.{Bool, true, false, ◌&&◌, ◌||◌}
use mathlib.Core.List.{List, [], ◌∷◌}
use native.Mathlib.Omega.{arith}
use onli_desk_full.Common.Tests.{leb, nat_beq, if◌then◌else◌}

-- A string, letter by letter.
abbrev pub Text : Type 0
Text = List ℕ

-- ASCII capitals to small letters, as `r + 32` in the source.
unfoldable pub lower_char : ℕ → ℕ
lower_char c = if leb b'A' c && leb c b'Z' then c + 32 else c

unfoldable pub lower : Text → Text
unfolding lower_char
lower [] = []
lower (c ∷ s) = lower_char c ∷ lower s

pub lower_idem : (s : Text) → lower (lower s) ≡ lower s
unfolding lower
lower_idem [] = refl
lower_idem (c ∷ s) = ground (arith, lower_idem s)

-- Equality of two texts, by recursion on the first.
unfoldable pub text_eq : Text → Text → Bool
text_eq [] other = elim other [ [] ↦ true | d ∷ rest ↦ false ]
text_eq (c ∷ s) other = elim other [
  | [] ↦ false
  | d ∷ rest ↦ if nat_beq c d then text_eq s rest else false
]

pub text_eq_iff : (a b : Text) → (text_eq a b ≡ true) ↔ (a ≡ b)
unfolding text_eq
text_eq_iff [] b = ground arith
text_eq_iff (c ∷ a) [] = ground arith
text_eq_iff (c ∷ a) (d ∷ b) = ground (arith, text_eq_iff a b)

abbrev pub codes : String → Text
codes String.[] = []
codes (String.◌∷◌ first rest) = code first ∷ codes rest

-- Whether a text is, character by character, one of a list's.
unfoldable pub is_listed : Text → List String → Bool
unfolding text_eq
is_listed t [] = false
is_listed t (x ∷ xs) = text_eq t (codes x) || is_listed t xs
