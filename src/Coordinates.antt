-- ===== src/Coordinates.antt =====
-- Parcel coordinates: src/logic/coordinates/component.ts and types.ts.
-- `extractSpawnCoordinates` is in Entities, beside the entity that it reads.
pub mod Matching
pub mod Canonical
pub mod Parse
pub mod Rectangle
mod Tests
use worlds_content_server.Prelude.{
  ℕ, ◌≡◌, refl, Bool, true, false, ◌&&◌, ◌||◌, not, Option, none, some, List, [], ◌∷◌, ◌++◌, map,
  if◌then◌else◌, ◌==◌, nat_beq,
}
use worlds_content_server.Prelude.Eq.{nat_eq}
use worlds_content_server.Prelude.Int.{
  ℤ, pos, negsuc, leb_ℤ, ltb_ℤ, min_ℤ, max_ℤ, half_ℤ, ◌+ℤ◌, int_eq,
}
use worlds_content_server.Prelude.Text.{Text, codes}
use worlds_content_server.Prelude.Number.{
  skip_spaces, take_digits, drop_digits, exact_int, parse_int, number_text,
}
use worlds_content_server.Prelude.Result.{Result, ok, err, map_result, ◌>>=◌}
use worlds_content_server.Errors.{
  Outcome, invalid_coordinate_format, invalid_coordinate_values, x_out_of_bounds, y_out_of_bounds,
}

pub record Coordinate : Type 0 where
  pub x : ℤ
  pub y : ℤ

pub record BoundingRectangle : Type 0 where
  pub min : Coordinate
  pub max : Coordinate

-- -150 and 150.
abbrev pub min_parcel_coordinate : ℤ
min_parcel_coordinate = negsuc 149

abbrev pub max_parcel_coordinate : ℤ
max_parcel_coordinate = pos 150

abbrev pub comma : ℕ
comma = b','

-- `(-?\d+)`: the group's text and what follows it.
match_digits : Text → Text → Option (Text × Text)
match_digits sign s = elim (take_digits s) [
  | [] ↦ none
  | d ∷ ds ↦ some (sign ++ (d ∷ ds), drop_digits s)
]

match_int : Text → Option (Text × Text)
unfolding match_digits
match_int [] = none
match_int (c ∷ s) = if nat_beq c b'-' then match_digits (b'-' ∷ []) s else match_digits [] (c ∷ s)

match_comma : Text → Option Text
match_comma [] = none
match_comma (c ∷ s) = if nat_beq c comma then some s else none

match_end : Text × Text → Text → Option (Text × Text)
match_end groups [] = some groups
match_end groups (c ∷ s) = none

infixl 5 ◌>>?◌
abbrev pub ◌>>?◌ {ℓ κ} : {A : Type ℓ} {B : Type κ} → Option A → (A → Option B) → Option B
none >>? f = none
some a >>? f = f a

-- After the first group: `\s*,\s*(-?\d+)\s*$`.
match_second : Text × Text → Option (Text × Text)
unfolding match_comma match_end
match_second (first, s) = match_comma (skip_spaces s) >>? λ rest.
    match_int (skip_spaces rest) >>? λ (second, end). match_end (first, second) (skip_spaces end)

-- `PARCEL_COORD_REGEX.exec`: the two groups of `^\s*(-?\d+)\s*,\s*(-?\d+)\s*$`. Each part of the
-- expression stops at a unit that it does not accept, so a greedy match never has to backtrack.
unfoldable pub parcel_match : Text → Option (Text × Text)
unfolding match_int match_second
parcel_match s = match_int (skip_spaces s) >>? match_second

number_end : Text × Text → Option ℤ
number_end (number, rest) = elim (skip_spaces rest) [ [] ↦ exact_int number | c ∷ s ↦ none ]

match_signed : Text → Option (Text × Text)
unfolding match_int match_digits
match_signed [] = none
match_signed (c ∷ s) = if nat_beq c b'+' then match_digits [] s else match_int (c ∷ s)

-- A whole number with a sign or none, and with spaces round it.
unfoldable pub whole_int : Text → Option ℤ
unfolding match_signed number_end
whole_int s = match_signed (skip_spaces s) >>? number_end

unfoldable pub canonicalize_parcel : Text → Text
canonicalize_parcel parcel = elim (parcel_match parcel) [
  | none ↦ parcel
  | some (a, b) ↦ number_text (parse_int a) ++ comma ∷ number_text (parse_int b)
]

unfoldable pub canonicalize_parcels : List Text → List Text
canonicalize_parcels parcels = map canonicalize_parcel parcels

cons_head : ℕ → List Text → List Text
cons_head c [] = (c ∷ []) ∷ []
cons_head c (part ∷ parts) = (c ∷ part) ∷ parts

-- `text.split(',')`.
unfoldable pub split_comma : Text → List Text
unfolding cons_head
split_comma [] = [] ∷ []
split_comma (c ∷ s) =
    let parts = split_comma s in if nat_beq c comma then [] ∷ parts else cons_head c parts

unfoldable pub check_bounds : ℤ → ℤ → Outcome Coordinate
check_bounds x y =
    if ltb_ℤ x min_parcel_coordinate || ltb_ℤ max_parcel_coordinate x
    then err x_out_of_bounds
    else if ltb_ℤ y min_parcel_coordinate || ltb_ℤ max_parcel_coordinate y
    then err y_out_of_bounds
    else ok (record { x = x; y = y })

check_values : Option ℤ → Option ℤ → Outcome Coordinate
check_values none y = err invalid_coordinate_values
check_values (some x) none = err invalid_coordinate_values
check_values (some x) (some y) = check_bounds x y

parse_parts : List Text → Outcome Coordinate
parse_parts (a ∷ b ∷ []) = check_values (parse_int a) (parse_int b)
parse_parts _ = err invalid_coordinate_format

unfoldable pub parse_coordinate : Text → Outcome Coordinate
unfolding parse_parts check_values
parse_coordinate s = parse_parts (split_comma s)

-- `Math.min(...ns)` and `Math.max(...ns)` of at least one number.
unfoldable pub min_of : ℤ → List ℤ → ℤ
min_of n [] = n
min_of n (m ∷ ns) = min_ℤ n (min_of m ns)

unfoldable pub max_of : ℤ → List ℤ → ℤ
max_of n [] = n
max_of n (m ∷ ns) = max_ℤ n (max_of m ns)

abbrev pub get_x : Coordinate → ℤ
get_x c = c.x

abbrev pub get_y : Coordinate → ℤ
get_y c = c.y

unfoldable pub extent : List Coordinate → Option BoundingRectangle
extent [] = none
extent (c ∷ cs) = some (record {
  min = record { x = min_of c.x (map get_x cs); y = min_of c.y (map get_y cs) };
  max = record { x = max_of c.x (map get_x cs); y = max_of c.y (map get_y cs) };
})

-- `none` is `undefined`: there are no parcels.
unfoldable pub calculate_bounding_rectangle : List Text → Outcome (Option BoundingRectangle)
calculate_bounding_rectangle [] = ok none
calculate_bounding_rectangle (p ∷ ps) =
    map_result parse_coordinate (p ∷ ps) >>= λ coordinates. ok (extent coordinates)

unfoldable pub is_coordinate_within_rectangle : Coordinate → BoundingRectangle → Bool
is_coordinate_within_rectangle c r =
    leb_ℤ r.min.x c.x && leb_ℤ c.x r.max.x && leb_ℤ r.min.y c.y && leb_ℤ c.y r.max.y

unfoldable pub get_rectangle_center : BoundingRectangle → Coordinate
get_rectangle_center r = record { x = half_ℤ (r.min.x +ℤ r.max.x); y = half_ℤ (r.min.y +ℤ r.max.y) }

unfoldable pub are_coordinates_equal : Option Coordinate → Option Coordinate → Bool
are_coordinates_equal none none = true
are_coordinates_equal none (some b) = false
are_coordinates_equal (some a) none = false
are_coordinates_equal (some a) (some b) = a.x == b.x && a.y == b.y
