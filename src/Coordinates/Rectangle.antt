-- ===== src/Coordinates/Rectangle.antt =====
-- Rectangles of parcels: the smallest one round a list of parcels, its centre, and equality of
-- coordinates (src/logic/coordinates/component.ts).
use worlds_content_server.Prelude.{
  ◌≡◌, refl, sym, ◌∙◌, true, Option, none, some, List, [], ◌∷◌, map, arith, ◌↔◌, some_inj,
}
use mathlib.Core.Path.{subst}
use mathlib.Core.List.{Memᴰ}
use worlds_content_server.Prelude.Lists.{mem_map, mem_of_mem_map}
use worlds_content_server.Prelude.Int.{
  ℤ, ◌≤ℤ◌, min_ℤ, max_ℤ, min_ℤ_bounds, max_ℤ_bounds, ≤ℤ_refl, ≤ℤ_trans, min_ℤ_greatest, max_ℤ_least,
  half_ℤ_between,
}
use worlds_content_server.Prelude.Text.{Text}
use worlds_content_server.Prelude.Result.{
  ok, map_result, >>=-eq-ok, ok_inj, map_result_to, map_result_from,
}
use worlds_content_server.Coordinates.{
  Coordinate, BoundingRectangle, get_x, get_y, min_of, max_of, extent, parse_coordinate,
  calculate_bounding_rectangle, is_coordinate_within_rectangle, get_rectangle_center,
  are_coordinates_equal,
}

-- The coordinate lies in the rectangle, its borders included.
abbrev pub Within : BoundingRectangle → Coordinate → Type 0
Within r c = (r.min.x ≤ℤ c.x) × (c.x ≤ℤ r.max.x) × (r.min.y ≤ℤ c.y) × (c.y ≤ℤ r.max.y)

-- The test for a coordinate in a rectangle is true exactly when the coordinate is between the
-- borders on both axes, the borders included.
pub is_coordinate-Within_iff :
    (c : Coordinate) (r : BoundingRectangle)
    → (is_coordinate_within_rectangle c r ≡ true) ↔ Within r c
unfolding is_coordinate_within_rectangle
is_coordinate-Within_iff c r = (λ h. ground arith, λ h. ground arith)

min_of_le : (n : ℤ) (ns : List ℤ) {m : ℤ} → Memᴰ m (n ∷ ns) → min_of n ns ≤ℤ m
unfolding min_of
min_of_le n [] (Memᴰ.head e) = rw e (≤ℤ_refl n)
min_of_le n [] (Memᴰ.tail h) = elim h [ ]
min_of_le n (k ∷ ns) (Memᴰ.head e) = rw e (min_ℤ_bounds n (min_of k ns)).0
min_of_le n (k ∷ ns) {m} (Memᴰ.tail h) =
    ≤ℤ_trans (min_ℤ n (min_of k ns)) (min_of k ns) m (min_ℤ_bounds n (min_of k ns)).1
      (min_of_le k ns h)

max_of_ge : (n : ℤ) (ns : List ℤ) {m : ℤ} → Memᴰ m (n ∷ ns) → m ≤ℤ max_of n ns
unfolding max_of
max_of_ge n [] (Memᴰ.head e) = rw e (≤ℤ_refl n)
max_of_ge n [] (Memᴰ.tail h) = elim h [ ]
max_of_ge n (k ∷ ns) (Memᴰ.head e) = rw e (max_ℤ_bounds n (max_of k ns)).0
max_of_ge n (k ∷ ns) {m} (Memᴰ.tail h) =
    ≤ℤ_trans m (max_of k ns) (max_ℤ n (max_of k ns)) (max_of_ge k ns h)
      (max_ℤ_bounds n (max_of k ns)).1

min_of_greatest :
    (n : ℤ) (ns : List ℤ) (k : ℤ) → ((m : ℤ) → Memᴰ m (n ∷ ns) → k ≤ℤ m) → k ≤ℤ min_of n ns
unfolding min_of
min_of_greatest n [] k h = h n (Memᴰ.head refl)
min_of_greatest n (j ∷ ns) k h =
    min_ℤ_greatest n (min_of j ns) k (h n (Memᴰ.head refl))
      (min_of_greatest j ns k (λ m i. h m (Memᴰ.tail i)))

max_of_least :
    (n : ℤ) (ns : List ℤ) (k : ℤ) → ((m : ℤ) → Memᴰ m (n ∷ ns) → m ≤ℤ k) → max_of n ns ≤ℤ k
unfolding max_of
max_of_least n [] k h = h n (Memᴰ.head refl)
max_of_least n (j ∷ ns) k h =
    max_ℤ_least n (max_of j ns) k (h n (Memᴰ.head refl))
      (max_of_least j ns k (λ m i. h m (Memᴰ.tail i)))

-- The rectangle `s` reaches at least as far as `r` on every side.
abbrev pub Covers : BoundingRectangle → BoundingRectangle → Type 0
Covers s r =
    (s.min.x ≤ℤ r.min.x) × (r.max.x ≤ℤ s.max.x) × (s.min.y ≤ℤ r.min.y) × (r.max.y ≤ℤ s.max.y)

box : Coordinate → List Coordinate → BoundingRectangle
box c cs = record {
  min = record { x = min_of c.x (map get_x cs); y = min_of c.y (map get_y cs) };
  max = record { x = max_of c.x (map get_x cs); y = max_of c.y (map get_y cs) };
}

extent-box : (c : Coordinate) (cs : List Coordinate) → extent (c ∷ cs) ≡ some (box c cs)
unfolding extent box
extent-box c cs = refl

box-contains :
    (c : Coordinate) (cs : List Coordinate) (d : Coordinate) → Memᴰ d (c ∷ cs) → Within (box c cs) d
unfolding box
box-contains c cs d m =
    let mx = mem_map get_x (c ∷ cs) m in
    let my = mem_map get_y (c ∷ cs) m in
    (
      min_of_le c.x (map get_x cs) mx,
      max_of_ge c.x (map get_x cs) mx,
      min_of_le c.y (map get_y cs) my,
      max_of_ge c.y (map get_y cs) my,
    )

box-least :
    (c : Coordinate) (cs : List Coordinate) (s : BoundingRectangle)
    → ((d : Coordinate) → Memᴰ d (c ∷ cs) → Within s d)
    → Covers s (box c cs)
unfolding box
box-least c cs s h = (
  min_of_greatest c.x (map get_x cs) s.min.x
      (λ m i. over get_x (λ k. s.min.x ≤ℤ k) (λ d k. (h d k).0) m i),
  max_of_least c.x (map get_x cs) s.max.x
      (λ m i. over get_x (λ k. k ≤ℤ s.max.x) (λ d k. (h d k).1) m i),
  min_of_greatest c.y (map get_y cs) s.min.y
      (λ m i. over get_y (λ k. s.min.y ≤ℤ k) (λ d k. (h d k).2) m i),
  max_of_least c.y (map get_y cs) s.max.y
      (λ m i. over get_y (λ k. k ≤ℤ s.max.y) (λ d k. (h d k).3) m i),
)
  where
    over :
        (f : Coordinate → ℤ) (P : ℤ → Type 0)
        → ((d : Coordinate) → Memᴰ d (c ∷ cs) → P (f d))
        → (m : ℤ) → Memᴰ m (map f (c ∷ cs))
        → P m
    over f P g m i = let (d, k, e) = mem_of_mem_map f (c ∷ cs) i in subst P e (g d k)

extent-bounds :
    (cs : List Coordinate) (r : BoundingRectangle)
    → extent cs ≡ some r
    → ((d : Coordinate) → Memᴰ d cs → Within r d)
      × ((s : BoundingRectangle) → ((d : Coordinate) → Memᴰ d cs → Within s d) → Covers s r)
unfolding extent
extent-bounds [] r e = cc
extent-bounds (c ∷ cs) r e =
    let same : box c cs ≡ r = some_inj (sym (extent-box c cs) ∙ e) in
    (
      λ d m. subst (λ t. Within t d) same (box-contains c cs d m),
      λ s h. subst (Covers s) same (box-least c cs s h),
    )

calculate-extent :
    (ps : List Text) (r : BoundingRectangle)
    → calculate_bounding_rectangle ps ≡ ok (some r)
    → (cs : List Coordinate) × (map_result parse_coordinate ps ≡ ok cs) × (extent cs ≡ some r)
unfolding calculate_bounding_rectangle
calculate-extent [] r h = cc
calculate-extent (p ∷ ps) r h =
    let (cs, mapped, e) = >>=-eq-ok (map_result parse_coordinate (p ∷ ps)) _ h in
    (cs, mapped, ok_inj e)

-- A rectangle that is computed from parcels holds the coordinate of every parcel, and every rectangle that holds them
-- all covers it.
pub calculate_bounding_rectangle-least :
    (ps : List Text) (r : BoundingRectangle)
    → calculate_bounding_rectangle ps ≡ ok (some r)
    → ((p : Text) → Memᴰ p ps → (c : Coordinate) × (parse_coordinate p ≡ ok c) × Within r c)
      × ((s : BoundingRectangle)
          → ((p : Text) (c : Coordinate) → Memᴰ p ps → parse_coordinate p ≡ ok c → Within s c)
          → Covers s r)
calculate_bounding_rectangle-least ps r h =
    let (cs, mapped, e) = calculate-extent ps r h in
    let (inside, least) = extent-bounds cs r e in
    (
      λ p m.
          let (c, k, parsed) = map_result_to parse_coordinate ps cs mapped m in
          (c, parsed, inside c k),
      λ s all_in. least s (λ d m.
          let (p, k, parsed) = map_result_from parse_coordinate ps cs mapped m in
          all_in p d k parsed),
    )

-- The centre of a rectangle that is not empty lies in it.
pub get_rectangle_center-Within :
    (r : BoundingRectangle)
    → r.min.x ≤ℤ r.max.x
    → r.min.y ≤ℤ r.max.y
    → Within r (get_rectangle_center r)
unfolding get_rectangle_center
get_rectangle_center-Within r hx hy =
    let (a, b) = half_ℤ_between r.min.x r.max.x hx in
    let (c, d) = half_ℤ_between r.min.y r.max.y hy in (a, b, c, d)

-- The equality of optional coordinates, `null` included, is the equality of the values.
pub are_coordinates_equal_iff :
    (a b : Option Coordinate) → (are_coordinates_equal a b ≡ true) ↔ (a ≡ b)
unfolding are_coordinates_equal
are_coordinates_equal_iff none none = (λ h. refl, λ h. refl)
are_coordinates_equal_iff none (some b) = (λ h. cc, λ h. cc)
are_coordinates_equal_iff (some a) none = (λ h. cc, λ h. cc)
are_coordinates_equal_iff (some a) (some b) = (λ h. ground arith, λ h. ground arith)
