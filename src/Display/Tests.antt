-- ===== src/Display/Tests.antt =====
-- A row of pixels at a concrete plane.
use craft_osos.Display.{Plane}

abbrev all_on : Plane
all_on off = 0xFF
