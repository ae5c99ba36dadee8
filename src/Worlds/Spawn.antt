-- ===== src/Worlds/Spawn.antt =====
-- The spawn coordinates that an undeployment of scenes chooses (src/adapters/worlds-manager.ts).
use worlds_content_server.Prelude.{◌≡◌}
use worlds_content_server.Prelude.Text.{Text}
use worlds_content_server.Prelude.Result.{ok}
use worlds_content_server.Coordinates.{Coordinate, BoundingRectangle, parse_coordinate}
use worlds_content_server.Coordinates.Rectangle.{Within}

-- The text names a coordinate of the rectangle.
abbrev pub IsSpawnIn : BoundingRectangle → Text → Type 0
IsSpawnIn r t = (c : Coordinate) × (parse_coordinate t ≡ ok c) × Within r c
