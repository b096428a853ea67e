-- ===== src/Base/Text.antt =====
-- The C strings of the program as native texts. `strcmp(s, t) == 0` is `streq s t`, and
-- `strcasecmp(s, t) == 0` is `strcaseeq s t`, which folds the ASCII letters.
use Prim.Native.Nat.{ℕ, ◌+◌}
use Prim.Native.Char.{code}
use Prim.Native.String.{String}
use mathlib.Core.Path.{◌≡◌, refl}
use mathlib.Core.Logic.{◌↔◌}
use mathlib.Core.Bool.{Bool, true, false, ◌&&◌}
use mathlib.Core.List.{List, [], ◌∷◌, map}
use native.Mathlib.Omega.{arith}
use text.Mathlib.Text.{◌==◌ as str_eq}
use text.Mathlib.TextEquality.{eq_iff}
use vision_box_dual_cam.Base.Tests.{leb, ◌==◌, if◌then◌else◌}

abbrev pub codes : String → List ℕ
codes String.[] = []
codes (String.◌∷◌ c s) = code c ∷ codes s

unfoldable pub streq : String → String → Bool
streq s t = str_eq s t

pub streq_iff : (s t : String) → (streq s t ≡ true) ↔ (s ≡ t)
unfolding streq
streq_iff s t = eq_iff s t

pub streq_refl : (s : String) → streq s s ≡ true
streq_refl s = (streq_iff s s).1 refl

unfoldable pub to_lower : ℕ → ℕ
to_lower c = if leb b'A' c && leb c b'Z' then c + 32 else c

unfoldable pub same_codes : List ℕ → List ℕ → Bool
same_codes [] [] = true
same_codes (x ∷ xs) (y ∷ ys) = x == y && same_codes xs ys
same_codes _ _ = false

unfoldable pub strcaseeq : String → String → Bool
unfolding to_lower same_codes
strcaseeq s t = same_codes (map to_lower (codes s)) (map to_lower (codes t))

same_codes_refl : (xs : List ℕ) → same_codes xs xs ≡ true
unfolding same_codes
same_codes_refl [] = refl
same_codes_refl (x ∷ xs) = ground (arith, same_codes_refl xs)

pub strcaseeq_refl : (s : String) → strcaseeq s s ≡ true
unfolding strcaseeq
strcaseeq_refl s = same_codes_refl (map to_lower (codes s))
