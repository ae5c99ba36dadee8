-- ===== src/Coordinates/Matching.antt =====
-- What the parcel expression of src/logic/coordinates/component.ts matches.
use Prim.Native.Nat.{ℕ, suc}
use mathlib.Core.List.{append-nil}
use worlds_content_server.Prelude.{◌≡◌, refl, sym, ap, ◌∙◌, true, some, [], ◌∷◌, ◌++◌}
use worlds_content_server.Prelude.Int.{ℤ, pos, negsuc}
use worlds_content_server.Prelude.Text.{Text}
use worlds_content_server.Prelude.Double.{IsExact}
use worlds_content_server.Prelude.Number.{
  is_digit, is_space, skip_spaces, take_digits, drop_digits, number_text, decimal, number_text-pos,
  number_text-negsuc,
}
use worlds_content_server.Prelude.Number.Decimal.{
  decimal-IsDigits, decimal-cons, digit_not_sign, take_digits-append, drop_digits-append,
}
use worlds_content_server.Prelude.Number.Reading.{skip_spaces-digit}
use worlds_content_server.Coordinates.{comma, match_digits, match_int, match_second, parcel_match}

-- `${x},${y}`.
abbrev pub coordinate_text : ℤ → ℤ → Text
coordinate_text x y = number_text (some x) ++ comma ∷ number_text (some y)

match_digits_of :
    (sign s : Text) (d : ℕ) (ds r : Text)
    → take_digits s ≡ d ∷ ds
    → drop_digits s ≡ r
    → match_digits sign s ≡ some (sign ++ d ∷ ds, r)
unfolding match_digits
match_digits_of sign s d ds r h k = rw (match_digits, h, k)

match_digits-decimal :
    (sign : Text) (n : ℕ) (r : Text)
    → take_digits r ≡ []
    → match_digits sign (decimal n ++ r) ≡ some (sign ++ decimal n, r)
match_digits-decimal sign n r k =
    let (c, s, e) = decimal-cons n in
    rw e (
      match_digits_of sign (c ∷ s ++ r) c s r
        (take_digits-append (c ∷ s) r (rw e at (decimal-IsDigits n)) k)
        (drop_digits-append (c ∷ s) r (rw e at (decimal-IsDigits n)) k))

match_int-digit :
    (c : ℕ) (s : Text) → is_digit c ≡ true → match_int (c ∷ s) ≡ match_digits [] (c ∷ s)
unfolding match_int
match_int-digit c s h = rw (digit_not_sign c h).0

match_int-decimal :
    (n : ℕ) (r : Text) → match_int (decimal n ++ r) ≡ match_digits [] (decimal n ++ r)
match_int-decimal n r =
    let (c, s, e) = decimal-cons n in
    rw e (match_int-digit c (s ++ r) (rw e at (decimal-IsDigits n)).0)

match_int-number_text :
    (z : ℤ) (r : Text)
    → IsExact z
    → take_digits r ≡ []
    → match_int (number_text (some z) ++ r) ≡ some (number_text (some z), r)
match_int-number_text (pos n) r x k =
    rw (number_text-pos n x) (match_int-decimal n r ∙ match_digits-decimal [] n r k)
match_int-number_text (negsuc n) r x k =
    rw (number_text-negsuc n x) (unfold match_int in match_digits-decimal (b'-' ∷ []) (suc n) r k)

skip_spaces-number_text :
    (z : ℤ) (r : Text)
    → IsExact z
    → skip_spaces (number_text (some z) ++ r) ≡ number_text (some z) ++ r
skip_spaces-number_text (pos n) r x =
    let (c, s, e) = decimal-cons n in
    rw (number_text-pos n x, e) (skip_spaces-digit c (s ++ r) (rw e at (decimal-IsDigits n)).0)
skip_spaces-number_text (negsuc n) r x =
    rw (number_text-negsuc n x) (unfold skip_spaces is_space in refl)

match_int-number_text_end :
    (y : ℤ)
    → IsExact y
    → match_int (skip_spaces (number_text (some y))) ≡ some (number_text (some y), [])
unfolding take_digits
match_int-number_text_end y k =
    ap match_int
      (ap skip_spaces (sym (append-nil (number_text (some y)))) ∙ skip_spaces-number_text y [] k)
    ∙ match_int-number_text y [] k refl

match_second_lem :
    (x : Text) (y : ℤ)
    → IsExact y
    → match_second (x, comma ∷ number_text (some y)) ≡ some (x, number_text (some y))
unfolding match_second skip_spaces is_space
match_second_lem x y k = rw (match_int-number_text_end y k)

pub parcel_match-coordinate_text :
    (x y : ℤ)
    → IsExact x
    → IsExact y
    → parcel_match (coordinate_text x y) ≡ some (number_text (some x), number_text (some y))
unfolding parcel_match
parcel_match-coordinate_text x y h k =
    let r = comma ∷ number_text (some y) in
    rw (skip_spaces-number_text x r h) (
      rw (match_int-number_text x r h (unfold take_digits is_digit in refl))
        (match_second_lem (number_text (some x)) y k))
