-- ===== src/Simulation/Geometry.antt =====
-- Exact integer geometry (packages/simulation-core/src/evaluator.ts): a segment against a closed
-- axis-aligned rectangle.
use rovaulta.Prelude.Int.{◌-ℤ◌, ℤ, ◌*ℤ◌, leb_ℤ, ltb_ℤ, eq_ℤ, pos, min_ℤ, max_ℤ}
use rovaulta.Simulation.Model.{PointMm, RectangleMm}
use rovaulta.Prelude.{Bool, ◌&&◌, ◌||◌}

abbrev pub point_inside_closed_rectangle : PointMm → RectangleMm → Bool
point_inside_closed_rectangle p r =
    leb_ℤ r.min_x_mm p.x_mm
    && leb_ℤ p.x_mm r.max_x_mm
    && leb_ℤ r.min_y_mm p.y_mm
    && leb_ℤ p.y_mm r.max_y_mm

pub orientation : PointMm → PointMm → PointMm → ℤ
unfolding ◌-ℤ◌ ◌*ℤ◌
orientation first second third =
    (second.x_mm -ℤ first.x_mm) *ℤ (third.y_mm -ℤ first.y_mm)
    -ℤ (second.y_mm -ℤ first.y_mm) *ℤ (third.x_mm -ℤ first.x_mm)

abbrev pub is_positive : ℤ → Bool
is_positive n = ltb_ℤ (pos 0) n

abbrev pub is_negative : ℤ → Bool
is_negative n = ltb_ℤ n (pos 0)

abbrev pub is_zero : ℤ → Bool
is_zero n = eq_ℤ n (pos 0)

pub point_on_closed_segment : PointMm → PointMm → PointMm → Bool
unfolding orientation
point_on_closed_segment p start end_ =
    is_zero (orientation start end_ p)
    && leb_ℤ (min_ℤ start.x_mm end_.x_mm) p.x_mm
    && leb_ℤ p.x_mm (max_ℤ start.x_mm end_.x_mm)
    && leb_ℤ (min_ℤ start.y_mm end_.y_mm) p.y_mm
    && leb_ℤ p.y_mm (max_ℤ start.y_mm end_.y_mm)

-- Strictly opposite signs.
abbrev pub opposite : ℤ → ℤ → Bool
opposite a b = is_positive a && is_negative b || is_negative a && is_positive b

pub segments_intersect_closed : PointMm → PointMm → PointMm → PointMm → Bool
unfolding orientation point_on_closed_segment
segments_intersect_closed a b c d =
    let first = orientation a b c in
    let second = orientation a b d in
    let third = orientation c d a in
    let fourth = orientation c d b in
    opposite first second && opposite third fourth
    || is_zero first && point_on_closed_segment c a b
    || is_zero second && point_on_closed_segment d a b
    || is_zero third && point_on_closed_segment a c d
    || is_zero fourth && point_on_closed_segment b c d

abbrev pub bottom_left : RectangleMm → PointMm
bottom_left r = record { x_mm = r.min_x_mm; y_mm = r.min_y_mm }

abbrev pub bottom_right : RectangleMm → PointMm
bottom_right r = record { x_mm = r.max_x_mm; y_mm = r.min_y_mm }

abbrev pub top_right : RectangleMm → PointMm
top_right r = record { x_mm = r.max_x_mm; y_mm = r.max_y_mm }

abbrev pub top_left : RectangleMm → PointMm
top_left r = record { x_mm = r.min_x_mm; y_mm = r.max_y_mm }

unfoldable pub segment_intersects_closed_rectangle : PointMm → PointMm → RectangleMm → Bool
unfolding segments_intersect_closed
segment_intersects_closed_rectangle start end_ r =
    point_inside_closed_rectangle start r
    || point_inside_closed_rectangle end_ r
    || segments_intersect_closed start end_ (bottom_left r) (bottom_right r)
    || segments_intersect_closed start end_ (bottom_right r) (top_right r)
    || segments_intersect_closed start end_ (top_right r) (top_left r)
    || segments_intersect_closed start end_ (top_left r) (bottom_left r)
