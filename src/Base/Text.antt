-- ===== src/Base/Text.antt =====
-- Texts as bytes, and the tests of `char` and `u8` on them. A character that is not ASCII is made of
-- bytes from 128 on, which fail each of the tests, as the character does.
use reinhardt_cloud.Base.Tests.{leb, if◌then◌else◌}
use Prim.Native.Nat.{ℕ, ◌+◌}
use mathlib.Core.Bool.{Bool, ◌&&◌, ◌||◌}
use mathlib.Core.List.{List, [], ◌∷◌}

abbrev pub Text : Type 0
Text = List ℕ

abbrev pub dash : ℕ
dash = 45

abbrev pub between : ℕ → ℕ → ℕ → Bool
between low high c = leb low c && leb c high

-- the tests of `char` and `u8`
unfoldable pub is_ascii_lowercase : ℕ → Bool
is_ascii_lowercase c = between 97 122 c

unfoldable pub is_ascii_uppercase : ℕ → Bool
is_ascii_uppercase c = between 65 90 c

unfoldable pub is_ascii_digit : ℕ → Bool
is_ascii_digit c = between 48 57 c

unfoldable pub is_ascii_alphanumeric : ℕ → Bool
unfolding is_ascii_lowercase is_ascii_uppercase is_ascii_digit
is_ascii_alphanumeric c = is_ascii_lowercase c || is_ascii_uppercase c || is_ascii_digit c

unfoldable pub to_ascii_lowercase : ℕ → ℕ
unfolding is_ascii_uppercase
to_ascii_lowercase c = if is_ascii_uppercase c then c + 32 else c

-- `bytes.last()` of a text with this first byte
unfoldable pub last : ℕ → Text → ℕ
last c [] = c
last c (d ∷ ds) = last d ds
