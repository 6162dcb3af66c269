-- ===== src/Common/Codes.antt =====
-- Texts as lists of code points.
use Prim.Native.Nat.{ℕ, ◌+◌}
use Prim.Native.Char.{code}
use Prim.Native.String.{String}
use mathlib.Core.Path.{◌≡◌, refl}
use mathlib.Core.Bool.{Bool, true, false, ◌&&◌, ◌||◌}
use mathlib.Core.List.{List, [], ◌∷◌, ◌++◌}
use native.Mathlib.Omega.{arith}
use phlo_observe.Common.Tests.{◌==◌, leb, if◌then◌else◌}

abbrev pub Codes : Type 0
Codes = List ℕ

abbrev pub codes : String → Codes
codes String.[] = []
codes (String.◌∷◌ c s) = code c ∷ codes s

unfoldable pub same_codes : Codes → Codes → Bool
same_codes [] [] = true
same_codes (x ∷ xs) (y ∷ ys) = x == y && same_codes xs ys
same_codes _ _ = false

-- `str.startswith`
unfoldable pub starts_codes : Codes → Codes → Bool
starts_codes [] s = true
starts_codes (p ∷ ps) [] = false
starts_codes (p ∷ ps) (c ∷ s) = p == c && starts_codes ps s

-- `str.endswith`
unfoldable pub ends_codes : Codes → Codes → Bool
ends_codes suffix [] = same_codes suffix []
ends_codes suffix (c ∷ s) = same_codes suffix (c ∷ s) || ends_codes suffix s

-- `sep.join`
unfoldable pub join_codes : Codes → List Codes → Codes
join_codes sep [] = []
join_codes sep (p ∷ []) = p
join_codes sep (p ∷ q ∷ ps) = p ++ sep ++ join_codes sep (q ∷ ps)

-- A lower-case letter, an upper-case one, a digit, all of ASCII.
abbrev pub is_lower : ℕ → Bool
is_lower c = leb b'a' c && leb c b'z'

abbrev pub is_upper : ℕ → Bool
is_upper c = leb b'A' c && leb c b'Z'

abbrev pub is_digit : ℕ → Bool
is_digit c = leb b'0' c && leb c b'9'

abbrev pub is_space : ℕ → Bool
is_space c = (leb 9 c && leb c 13) || (leb 28 c && leb c 32)

abbrev pub lower_code : ℕ → ℕ
lower_code c = if is_upper c then c + 32 else c

-- `str.lower`, on ASCII.
unfoldable pub lower : Codes → Codes
lower [] = []
lower (c ∷ s) = lower_code c ∷ lower s

pub same_codes_sound : (s t : Codes) → same_codes s t ≡ true → s ≡ t
unfolding same_codes
same_codes_sound [] [] h = refl
same_codes_sound [] (y ∷ ys) h = cc
same_codes_sound (x ∷ xs) [] h = cc
same_codes_sound (x ∷ xs) (y ∷ ys) h = ground (arith, same_codes_sound xs ys)

pub same_codes_refl : (s : Codes) → same_codes s s ≡ true
unfolding same_codes
same_codes_refl [] = refl
same_codes_refl (x ∷ xs) = ground (arith, same_codes_refl xs)
