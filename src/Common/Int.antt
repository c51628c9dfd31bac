-- ===== src/Common/Int.antt =====
-- Signed integers: Go's `int`, `int64`, `time.Duration` and instants (nanoseconds). Sums and orders
-- go through the two parts of an integer. `wrap64` is the overflow of 64-bit arithmetic, and
-- `sat64` the saturation of `time.Time.Sub`.
use Prim.Native.Nat.{ℕ, suc, ◌+◌, ◌-◌, ◌%◌, ◌≤◌, ◌<◌}
use mathlib.Core.Path.{◌≡◌}
use mathlib.Core.Bool.{Bool}
use native.Mathlib.Omega.{arith}
use onli_desk_full.Common.Tests.{ltb, leb, if◌then◌else◌}

-- `negsuc n` is -(n + 1).
pub data ℤ : Type 0 where
  pos : ℕ → ℤ
  negsuc : ℕ → ℤ

abbrev pub pos_part : ℤ → ℕ
pos_part (pos n) = n
pos_part (negsuc n) = 0

abbrev pub neg_part : ℤ → ℕ
neg_part (pos n) = 0
neg_part (negsuc n) = suc n

-- a - b, as an integer.
abbrev pub sub_ℕ : ℕ → ℕ → ℤ
sub_ℕ a b = if leb b a then pos (a - b) else negsuc (b - a - 1)

infixl 65 ◌+ℤ◌ ◌-ℤ◌
infix 50 ◌≤ℤ◌ ◌<ℤ◌
unfoldable pub ◌+ℤ◌ : ℤ → ℤ → ℤ
a +ℤ b = sub_ℕ (pos_part a + pos_part b) (neg_part a + neg_part b)

unfoldable pub ◌-ℤ◌ : ℤ → ℤ → ℤ
a -ℤ b = sub_ℕ (pos_part a + neg_part b) (neg_part a + pos_part b)

abbrev pub ◌≤ℤ◌ : ℤ → ℤ → Type 0
a ≤ℤ b = pos_part a + neg_part b ≤ pos_part b + neg_part a

abbrev pub ◌<ℤ◌ : ℤ → ℤ → Type 0
a <ℤ b = pos_part a + neg_part b < pos_part b + neg_part a

abbrev pub ltb_ℤ : ℤ → ℤ → Bool
ltb_ℤ a b = ltb (pos_part a + neg_part b) (pos_part b + neg_part a)

abbrev pub leb_ℤ : ℤ → ℤ → Bool
leb_ℤ a b = leb (pos_part a + neg_part b) (pos_part b + neg_part a)

-- 2 ^ 63 and 2 ^ 64.
abbrev pub two63 : ℕ
two63 = 9_223_372_036_854_775_808

abbrev pub two64 : ℕ
two64 = 18_446_744_073_709_551_616

abbrev pub max_int64 : ℤ
max_int64 = pos 9_223_372_036_854_775_807

abbrev pub min_int64 : ℤ
min_int64 = negsuc 9_223_372_036_854_775_807

of_word : ℕ → ℤ
of_word w = if ltb w two63 then pos w else negsuc (two64 - 1 - w)

unfoldable pub wrap64 : ℤ → ℤ
unfolding of_word
wrap64 (pos n) = of_word (n % two64)
wrap64 (negsuc n) = of_word (two64 - 1 - n % two64)

unfoldable pub sat64 : ℤ → ℤ
sat64 z = if ltb_ℤ max_int64 z then max_int64 else if ltb_ℤ z min_int64 then min_int64 else z

-- In range, neither changes the value.
pub wrap64_id : (z : ℤ) → z ≤ℤ max_int64 → min_int64 ≤ℤ z → wrap64 z ≡ z
unfolding wrap64
wrap64_id (pos n) h l = ground arith
wrap64_id (negsuc n) h l = ground arith

pub sat64_id : (z : ℤ) → z ≤ℤ max_int64 → min_int64 ≤ℤ z → sat64 z ≡ z
unfolding sat64
sat64_id z h l = ground arith

-- Saturation does not change a comparison with a duration below the top.
pub ltb-sat64 : (d z : ℤ) → min_int64 ≤ℤ d → d <ℤ max_int64 → ltb_ℤ d (sat64 z) ≡ ltb_ℤ d z
unfolding sat64
ltb-sat64 d z l h = ground arith

pub +ℤ_parts :
    (a b : ℤ)
    → pos_part (a +ℤ b) + neg_part a + neg_part b ≡ neg_part (a +ℤ b) + pos_part a + pos_part b
unfolding ◌+ℤ◌
+ℤ_parts a b = ground arith

pub -ℤ_parts :
    (a b : ℤ)
    → pos_part (a -ℤ b) + neg_part a + pos_part b ≡ neg_part (a -ℤ b) + pos_part a + neg_part b
unfolding ◌-ℤ◌
-ℤ_parts a b = ground arith

pub eq_of_parts : (a b : ℤ) → pos_part a + neg_part b ≡ pos_part b + neg_part a → a ≡ b
eq_of_parts a b h = ground arith

pub ruleset int_laws = (arith, +ℤ_parts, -ℤ_parts, eq_of_parts)
