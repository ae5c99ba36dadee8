-- ===== src/Prelude/Text.antt =====
-- Text: the UTF-16 code units of a JavaScript string. `toLowerCase` is modelled on ASCII letters,
-- the only letters in the addresses, names and identifiers that the program lowers.
use Prim.Native.Nat.{ℕ, ◌+◌}
use Prim.Native.Char.{code}
use Prim.Native.String.{String}
use mathlib.Core.Path.{◌≡◌, refl}
use mathlib.Core.Bool.{Bool, ◌&&◌}
use mathlib.Core.List.{List, [], ◌∷◌}
use native.Mathlib.Omega.{arith}
use worlds_content_server.Prelude.Tests.{leb, if◌then◌else◌}

abbrev pub Text : Type 0
Text = List ℕ

-- The code units of a literal.
abbrev pub codes : String → Text
codes String.[] = []
codes (String.◌∷◌ c s) = code c ∷ codes s

is_upper : ℕ → Bool
is_upper c = leb b'A' c && leb c b'Z'

unfoldable pub to_lower : ℕ → ℕ
unfolding is_upper
to_lower c = if is_upper c then c + 32 else c

unfoldable pub lower_case : Text → Text
unfolding to_lower
lower_case [] = []
lower_case (c ∷ s) = to_lower c ∷ lower_case s

to_lower_idem : (c : ℕ) → to_lower (to_lower c) ≡ to_lower c
unfolding to_lower
to_lower_idem c = ground arith

pub lower_case_idem : (s : Text) → lower_case (lower_case s) ≡ lower_case s
unfolding lower_case
lower_case_idem [] = refl
lower_case_idem (c ∷ s) = cc (to_lower_idem c, lower_case_idem s)
