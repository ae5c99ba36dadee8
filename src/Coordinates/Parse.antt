-- ===== src/Coordinates/Parse.antt =====
-- `parseCoordinate` of src/logic/coordinates/component.ts: bounds, and the round trip with the
-- canonical form.
use worlds_content_server.Prelude.{
  ℕ, suc, ◌≡◌, refl, ◌∙◌, true, false, Option, none, some, List, [], ◌∷◌, ◌++◌, arith, nat_beq,
}
use worlds_content_server.Prelude.Lists.{All}
use worlds_content_server.Prelude.Int.{ℤ, pos, negsuc, ◌≤ℤ◌}
use worlds_content_server.Prelude.Text.{Text}
use worlds_content_server.Prelude.Double.{IsExact}
use worlds_content_server.Prelude.Number.{
  is_digit, parse_int, number_text, number_text-pos, number_text-negsuc,
}
use worlds_content_server.Prelude.Number.Decimal.{IsDigits, decimal-IsDigits}
use worlds_content_server.Prelude.Number.Reading.{parse_int-number_text_self}
use worlds_content_server.Prelude.Result.{ok}
use worlds_content_server.Coordinates.{
  Coordinate, comma, min_parcel_coordinate, max_parcel_coordinate, split_comma, check_bounds,
  check_values, parse_parts, parse_coordinate,
}
use worlds_content_server.Coordinates.Matching.{coordinate_text}

abbrev pub InBounds : Coordinate → Type 0
InBounds c =
    (min_parcel_coordinate ≤ℤ c.x)
    × (c.x ≤ℤ max_parcel_coordinate)
    × (min_parcel_coordinate ≤ℤ c.y)
    × (c.y ≤ℤ max_parcel_coordinate)

check_bounds-InBounds : (x y : ℤ) (c : Coordinate) → check_bounds x y ≡ ok c → InBounds c
unfolding check_bounds
check_bounds-InBounds x y c h = ground arith

check_values-InBounds : (x y : Option ℤ) (c : Coordinate) → check_values x y ≡ ok c → InBounds c
unfolding check_values
check_values-InBounds none y c h = cc
check_values-InBounds (some x) none c h = cc
check_values-InBounds (some x) (some y) c h = check_bounds-InBounds x y c h

parse_parts-InBounds : (parts : List Text) (c : Coordinate) → parse_parts parts ≡ ok c → InBounds c
unfolding parse_parts
parse_parts-InBounds [] c h = cc
parse_parts-InBounds (a ∷ []) c h = cc
parse_parts-InBounds (a ∷ b ∷ []) c h = check_values-InBounds (parse_int a) (parse_int b) c h
parse_parts-InBounds (a ∷ b ∷ d ∷ r) c h = cc

-- A coordinate that is parsed lies between -150 and 150 on both axes.
pub parse_coordinate-InBounds : (s : Text) (c : Coordinate) → parse_coordinate s ≡ ok c → InBounds c
unfolding parse_coordinate
parse_coordinate-InBounds s c h = parse_parts-InBounds (split_comma s) c h

abbrev LacksComma : Text → Type 0
LacksComma = All (λ c. nat_beq c comma ≡ false)

split_comma-lacks : (s : Text) → LacksComma s → split_comma s ≡ s ∷ []
unfolding split_comma
split_comma-lacks [] h = refl
split_comma-lacks (c ∷ s) (p, h) = rw (p, split_comma-lacks s h)

split_comma-append : (s t : Text) → LacksComma s → split_comma (s ++ comma ∷ t) ≡ s ∷ split_comma t
unfolding split_comma
split_comma-append [] t h = refl
split_comma-append (c ∷ s) t (p, h) = rw (p, split_comma-append s t h)

digit_not_comma : (c : ℕ) → is_digit c ≡ true → nat_beq c comma ≡ false
unfolding is_digit
digit_not_comma c h = ground arith

IsDigits-LacksComma : (s : Text) → IsDigits s → LacksComma s
IsDigits-LacksComma [] h = tt
IsDigits-LacksComma (c ∷ s) (p, h) = (digit_not_comma c p, IsDigits-LacksComma s h)

number_text-LacksComma : (z : ℤ) → IsExact z → LacksComma (number_text (some z))
number_text-LacksComma (pos n) x =
    rw (number_text-pos n x) (IsDigits-LacksComma _ (decimal-IsDigits n))
number_text-LacksComma (negsuc n) x =
    rw (number_text-negsuc n x) (refl, IsDigits-LacksComma _ (decimal-IsDigits (suc n)))

parse_coordinate-coordinate_text :
    (x y : ℤ) → IsExact x → IsExact y → parse_coordinate (coordinate_text x y) ≡ check_bounds x y
unfolding parse_coordinate
parse_coordinate-coordinate_text x y h k =
    rw
      (split_comma-append (number_text (some x)) (number_text (some y))
        (number_text-LacksComma x h))
      (rw (split_comma-lacks (number_text (some y)) (number_text-LacksComma y k))
        (rw (parse_int-number_text_self x h, parse_int-number_text_self y k)))

check_bounds_ok : (c : Coordinate) → InBounds c → check_bounds c.x c.y ≡ ok c
unfolding check_bounds
check_bounds_ok c h = ground arith

IsExact-bounds : (z : ℤ) → min_parcel_coordinate ≤ℤ z → z ≤ℤ max_parcel_coordinate → IsExact z
IsExact-bounds (pos n) h k = omega arith
IsExact-bounds (negsuc n) h k = omega arith

-- A coordinate in bounds is read back from the text that is printed for it.
pub parse_coordinate-roundtrip :
    (c : Coordinate) → InBounds c → parse_coordinate (coordinate_text c.x c.y) ≡ ok c
parse_coordinate-roundtrip c (a, b, d, e) =
    parse_coordinate-coordinate_text c.x c.y (IsExact-bounds c.x a b) (IsExact-bounds c.y d e)
    ∙ check_bounds_ok c (a, b, d, e)
