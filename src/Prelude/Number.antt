-- ===== src/Prelude/Number.antt =====
-- Numbers in text, as JavaScript reads and prints them: `parseInt(text, 10)` and `${n}`.
-- A number is the double nearest to the integer that is read; `none` is NaN.
pub mod Decimal
pub mod Reading
use Prim.Native.Nat.{ℕ, zero, suc, ◌+◌, ◌-◌, ◌*◌, ◌/◌, ◌%◌, ◌≤◌, ◌<◌, ◌^◌}
use mathlib.Core.Path.{◌≡◌, refl, sym, ap, ◌∙◌}
use mathlib.Core.Bool.{Bool, true, false, not, ◌&&◌, ◌||◌}
use mathlib.Core.Option.{Option, none, some}
use mathlib.Core.List.{List, [], ◌∷◌, ◌++◌}
use native.Mathlib.Omega.{arith}
use worlds_content_server.Prelude.Tests.{ltb, leb, nat_beq, if◌then◌else◌}
use worlds_content_server.Prelude.Int.{ℤ, pos, negsuc}
use worlds_content_server.Prelude.Text.{Text, codes}
use worlds_content_server.Prelude.Double.{max_exact, infinity, round_ℕ, round_ℤ}

-- The class `\s` of a regular expression, which is also what `parseInt` skips.
unfoldable pub is_space : ℕ → Bool
is_space c =
    leb 9 c && leb c 13
    || nat_beq c 32
    || nat_beq c 0xa0
    || nat_beq c 0x1680
    || leb 0x2000 c && leb c 0x200a
    || nat_beq c 0x2028
    || nat_beq c 0x2029
    || nat_beq c 0x202f
    || nat_beq c 0x205f
    || nat_beq c 0x3000
    || nat_beq c 0xfeff

unfoldable pub is_digit : ℕ → Bool
is_digit c = leb b'0' c && leb c b'9'

unfoldable pub skip_spaces : Text → Text
skip_spaces [] = []
skip_spaces (c ∷ s) = if is_space c then skip_spaces s else c ∷ s

-- The longest prefix of digits, and what follows it.
unfoldable pub take_digits : Text → Text
take_digits [] = []
take_digits (c ∷ s) = if is_digit c then c ∷ take_digits s else []

unfoldable pub drop_digits : Text → Text
drop_digits [] = []
drop_digits (c ∷ s) = if is_digit c then drop_digits s else c ∷ s

unfoldable pub digits_value : ℕ → Text → ℕ
digits_value acc [] = acc
digits_value acc (c ∷ s) = digits_value (acc * 10 + (c - b'0')) s

abbrev pub negate_ℕ : ℕ → ℤ
negate_ℕ zero = pos 0
negate_ℕ (suc n) = negsuc n

signed_value : Bool → Text → Option ℤ
signed_value negative [] = none
signed_value negative (c ∷ s) =
    let n = digits_value 0 (c ∷ s) in some (if negative then negate_ℕ n else pos n)

parse_signed : Text → Option ℤ
parse_signed [] = none
parse_signed (c ∷ s) =
    if nat_beq c b'-'
    then signed_value true (take_digits s)
    else if nat_beq c b'+'
    then signed_value false (take_digits s)
    else signed_value false (take_digits (c ∷ s))

-- The integer that the digits at the start of a text write.
unfoldable pub exact_int : Text → Option ℤ
unfolding parse_signed signed_value
exact_int s = parse_signed (skip_spaces s)

abbrev pub round_option : Option ℤ → Option ℤ
round_option none = none
round_option (some z) = some (round_ℤ z)

-- `parseInt(text, 10)`, with digits beyond the twentieth read too.
unfoldable pub parse_int : Text → Option ℤ
unfolding exact_int
parse_int s = round_option (exact_int s)

decimal_loop : ℕ → ℕ → Text
decimal_loop zero n = []
decimal_loop (suc fuel) n =
    let rest = decimal_loop fuel (n / 10) in
    if ltb n 10 then (b'0' + n) ∷ [] else rest ++ ((b'0' + n % 10) ∷ [])

-- The decimal digits of a number; it has no more of them than `suc n`.
unfoldable pub decimal : ℕ → Text
unfolding decimal_loop
decimal n = decimal_loop (suc n) n

count_digits : Text → ℕ
count_digits [] = 0
count_digits (c ∷ s) = suc (count_digits s)

zeros : ℕ → Text
zeros zero = []
zeros (suc n) = b'0' ∷ zeros n

strip_cons : ℕ → Text → Text
strip_cons c [] = if nat_beq c b'0' then [] else c ∷ []
strip_cons c (d ∷ s) = c ∷ d ∷ s

-- Digits without the zeros at their end.
strip_zeros : Text → Text
strip_zeros [] = []
strip_zeros (c ∷ s) = let rest = strip_zeros s in strip_cons c rest

distance : ℕ → ℕ → ℕ
distance a b = (a - b) + (b - a)

-- The multiple of `unit` that is read as the double `v` and is nearest to it, if there is one.
multiple_of : (unit v : ℕ) → Option ℕ
multiple_of unit v =
    let low = v / unit in
    let reads = λ (m : ℕ). nat_beq (round_ℕ (m * unit)) v in
    if reads low
      && (not (reads (suc low)) || leb (distance (low * unit) v) (distance (suc low * unit) v))
    then some low
    else if reads (suc low)
    then some (suc low)
    else none

-- The fewest digits that are read as the double `v` below 10 ^ size: 17 are enough for any.
shortest : (fuel digits size v : ℕ) → ℕ × ℕ
shortest zero digits size v = (v, 0)
shortest (suc fuel) digits size v = elim (multiple_of (10 ^ (size - digits)) v) [
  | some m ↦ (m, size - digits)
  | none ↦ shortest fuel (suc digits) size v
]

-- One digit, or one digit and a fraction, and the power of ten.
exponential : Text → ℕ → Text
exponential [] e = []
exponential (d ∷ []) e = d ∷ codes "e+" ++ decimal e
exponential (d ∷ c ∷ s) e = d ∷ b'.' ∷ c ∷ s ++ codes "e+" ++ decimal e

-- `size` is the number of digits before the point: up to 21 are written out.
laid_out : Text → (size : ℕ) → Text
laid_out digits size =
    if leb size 21
    then digits ++ zeros (size - count_digits digits)
    else exponential digits (size - 1)

-- A double above 2 ^ 53.
large_text : ℕ → Text
large_text v =
    if nat_beq v infinity
    then codes "Infinity"
    else let (m, shift) = shortest 17 1 (count_digits (decimal v)) v in
      laid_out (strip_zeros (decimal m)) (count_digits (decimal m) + shift)

-- A whole number of any size that a double holds.
unfoldable pub whole_text : ℕ → Text
unfolding large_text laid_out exponential shortest multiple_of distance strip_zeros strip_cons zeros
    count_digits
whole_text n = elim (leb n max_exact) [ true ↦ decimal n | false ↦ large_text n ]

-- `${n}`.
unfoldable pub number_text : Option ℤ → Text
unfolding whole_text
number_text none = codes "NaN"
number_text (some (pos n)) = whole_text n
number_text (some (negsuc n)) = b'-' ∷ whole_text (suc n)

pub number_text-pos : (n : ℕ) → n ≤ max_exact → number_text (some (pos n)) ≡ decimal n
unfolding number_text whole_text
number_text-pos n h = ground arith

pub number_text-negsuc :
    (n : ℕ) → suc n ≤ max_exact → number_text (some (negsuc n)) ≡ b'-' ∷ decimal (suc n)
unfolding number_text whole_text
number_text-negsuc n h = ground arith
