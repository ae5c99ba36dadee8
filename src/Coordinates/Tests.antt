-- ===== src/Coordinates/Tests.antt =====
-- The coordinates component on concrete parcels.
use mathlib.Core.List.{Memᴰ}
use worlds_content_server.Prelude.Double.{round_ℤ}
use worlds_content_server.Prelude.{◌≡◌, refl, ◌↔◌, some, [], ◌∷◌, arith}
use worlds_content_server.Prelude.Text.{Text, codes}
use worlds_content_server.Prelude.Int.{ℤ, pos, negsuc, min_ℤ, max_ℤ}
use worlds_content_server.Prelude.Result.{ok, map_result}
use worlds_content_server.Coordinates.{
  Coordinate, BoundingRectangle, canonicalize_parcel, parcel_match, parse_coordinate, parse_parts,
  check_values, check_bounds, split_comma, min_of, max_of, extent, calculate_bounding_rectangle,
  get_rectangle_center,
}
use worlds_content_server.Coordinates.Matching.{coordinate_text}
use worlds_content_server.Coordinates.Canonical.{parcel_value, canonicalize-eq_iff}
use worlds_content_server.Coordinates.Parse.{parse_coordinate-roundtrip}
use worlds_content_server.Coordinates.Rectangle.{
  Within, Covers, calculate_bounding_rectangle-least, get_rectangle_center-Within,
}
use worlds_content_server.Prelude.Number.{
  parse_int, decimal, skip_spaces, take_digits, drop_digits, digits_value, number_text, is_space,
  is_digit,
}

-- Beyond 2 ^ 53 a parcel is rounded, and from 10 ^ 21 on its form is no coordinate.
canonical_tests :
    (canonicalize_parcel (codes " -007 , 00 ") ≡ codes "-7,0")
    × (canonicalize_parcel (codes "-0,150") ≡ codes "0,150")
    × (canonicalize_parcel (codes "1;2") ≡ codes "1;2")
    × (canonicalize_parcel (codes "9007199254740993,0") ≡ codes "9007199254740992,0")
    × (canonicalize_parcel (codes "0,-12345678901234567890") ≡ codes "0,-12345678901234567000")
    × (canonicalize_parcel (codes "1000000000000000000000,123456789012345678901234")
        ≡ codes "1e+21,1.2345678901234569e+23")
unfolding canonicalize_parcel parcel_match parse_int round_ℤ decimal skip_spaces take_digits
    drop_digits digits_value number_text is_space is_digit
canonical_tests = (refl, refl, refl, refl, refl, refl)

abbrev far : Text
far = codes "-12,150"

abbrev corner : Coordinate
corner = record { x = negsuc 11; y = pos 150 }

parsed : parse_coordinate far ≡ ok corner
unfolding parse_coordinate parse_parts check_values check_bounds split_comma parse_int round_ℤ
    decimal skip_spaces take_digits drop_digits digits_value is_space is_digit
parsed = refl

parse_coordinate-roundtrip_example :
    parse_coordinate (coordinate_text corner.x corner.y) ≡ ok corner
parse_coordinate-roundtrip_example =
    parse_coordinate-roundtrip corner (omega arith, omega arith, omega arith, omega arith)

loose_value : parcel_value (codes " -012 ,150") ≡ some (some (negsuc 11), some (pos 150))
unfolding parcel_match parse_int round_ℤ decimal skip_spaces take_digits drop_digits digits_value
    is_space is_digit
loose_value = refl

strict_value : parcel_value far ≡ some (some (negsuc 11), some (pos 150))
unfolding parcel_match parse_int round_ℤ decimal skip_spaces take_digits drop_digits digits_value
    is_space is_digit
strict_value = refl

canonicalize-eq_iff_example :
    (canonicalize_parcel (codes " -012 ,150") ≡ canonicalize_parcel far)
    ↔ (◌≡◌ {A = ℤ} (negsuc 11) (negsuc 11) × ◌≡◌ {A = ℤ} (pos 150) (pos 150))
canonicalize-eq_iff_example =
    canonicalize-eq_iff (codes " -012 ,150") far (negsuc 11) (pos 150) (negsuc 11) (pos 150)
      loose_value strict_value (omega arith, omega arith) (omega arith, omega arith)

abbrev square : BoundingRectangle
square = record { min = record { x = negsuc 2; y = pos 0 }; max = record { x = pos 2; y = pos 5 } }

get_rectangle_center-Within_example : Within square (get_rectangle_center square)
get_rectangle_center-Within_example = get_rectangle_center-Within square (omega arith) (omega arith)

abbrev strip : BoundingRectangle
strip = record { min = record { x = pos 0; y = pos 0 }; max = record { x = pos 0; y = pos 1 } }

two_parcels : calculate_bounding_rectangle (codes "0,1" ∷ codes "0,0" ∷ []) ≡ ok (some strip)
unfolding calculate_bounding_rectangle map_result extent min_of max_of min_ℤ max_ℤ parse_coordinate
    parse_parts check_values check_bounds split_comma parse_int round_ℤ decimal skip_spaces
    take_digits drop_digits digits_value is_space is_digit
two_parcels = refl

calculate_bounding_rectangle-least_example :
    ((p : Text)
      → Memᴰ p (codes "0,1" ∷ codes "0,0" ∷ [])
      → (c : Coordinate) × (parse_coordinate p ≡ ok c) × Within strip c)
    × ((s : BoundingRectangle)
        → ((p : Text) (c : Coordinate)
            → Memᴰ p (codes "0,1" ∷ codes "0,0" ∷ [])
            → parse_coordinate p ≡ ok c
            → Within s c)
        → Covers s strip)
calculate_bounding_rectangle-least_example =
    calculate_bounding_rectangle-least (codes "0,1" ∷ codes "0,0" ∷ []) strip two_parcels
