-- ===== src/Prelude/Number/Reading.antt =====
-- `parseInt` reads back what a template prints, whatever text without a digit follows.
use Prim.Native.Nat.{ℕ, suc}
use mathlib.Core.Path.{◌≡◌, refl, sym, ap, ◌∙◌}
use mathlib.Core.Bool.{true}
use mathlib.Core.Option.{some}
use mathlib.Core.List.{[], ◌∷◌, ◌++◌, append-nil}
use worlds_content_server.Prelude.Int.{ℤ, pos, negsuc}
use worlds_content_server.Prelude.Text.{Text}
use worlds_content_server.Prelude.Double.{IsExact, round_ℤ-IsExact}
use worlds_content_server.Prelude.Number.{
  is_digit, is_space, skip_spaces, take_digits, digits_value, negate_ℕ, parse_signed, exact_int,
  parse_int, round_option, number_text, number_text-pos, number_text-negsuc,
}
use worlds_content_server.Prelude.Number.Decimal.{
  IsDigits, decimal-IsDigits, decimal-cons, digits_value-decimal, digit_not_space, digit_not_sign,
  take_digits-append,
}

-- The first unit of a printed number is no space.
pub skip_spaces-digit : (c : ℕ) (s : Text) → is_digit c ≡ true → skip_spaces (c ∷ s) ≡ c ∷ s
unfolding skip_spaces
skip_spaces-digit c s h = rw (digit_not_space c h)

pub exact_int-digits :
    (c : ℕ) (s r : Text)
    → IsDigits (c ∷ s)
    → take_digits r ≡ []
    → exact_int (c ∷ s ++ r) ≡ some (pos (digits_value 0 (c ∷ s)))
unfolding exact_int
exact_int-digits c s r h k =
    let (minus, plus) = digit_not_sign c h.0 in
    rw (
      skip_spaces-digit c (s ++ r) h.0,
      parse_signed,
      minus,
      plus,
      take_digits-append (c ∷ s) r h k,
    )

pub exact_int-minus :
    (c : ℕ) (s r : Text)
    → IsDigits (c ∷ s)
    → take_digits r ≡ []
    → exact_int (b'-' ∷ c ∷ s ++ r) ≡ some (negate_ℕ (digits_value 0 (c ∷ s)))
unfolding exact_int skip_spaces is_space
exact_int-minus c s r h k = rw (take_digits-append (c ∷ s) r h k)

-- What a template prints is read back, whatever text without a leading digit follows.
pub exact_int-number_text :
    (z : ℤ) (r : Text)
    → IsExact z
    → take_digits r ≡ []
    → exact_int (number_text (some z) ++ r) ≡ some z
exact_int-number_text (pos n) r x k =
    let (c, s, e) = decimal-cons n in
    rw (number_text-pos n x, e)
      (exact_int-digits c s r (rw e at (decimal-IsDigits n)) k
        ∙ ap (λ (t : Text). some (pos (digits_value 0 t))) (sym e)
        ∙ ap (λ (m : ℕ). some (pos m)) (digits_value-decimal n))
exact_int-number_text (negsuc n) r x k =
    let (c, s, e) = decimal-cons (suc n) in
    rw (number_text-negsuc n x, e)
      (exact_int-minus c s r (rw e at (decimal-IsDigits (suc n))) k
        ∙ ap (λ (t : Text). some (negate_ℕ (digits_value 0 t))) (sym e)
        ∙ ap (λ (m : ℕ). some (negate_ℕ m)) (digits_value-decimal (suc n)))

pub exact_int-number_text_self : (z : ℤ) → IsExact z → exact_int (number_text (some z)) ≡ some z
unfolding take_digits
exact_int-number_text_self z x =
    ap exact_int (sym (append-nil (number_text (some z)))) ∙ exact_int-number_text z [] x refl

-- An exact integer is read without rounding.
pub parse_int-IsExact : (s : Text) (z : ℤ) → exact_int s ≡ some z → IsExact z → parse_int s ≡ some z
unfolding parse_int
parse_int-IsExact s z e x = ap round_option e ∙ ap some (round_ℤ-IsExact z x)

pub parse_int-number_text_self : (z : ℤ) → IsExact z → parse_int (number_text (some z)) ≡ some z
parse_int-number_text_self z x =
    parse_int-IsExact (number_text (some z)) z (exact_int-number_text_self z x) x
