-- ===== src/Handle/Tests.antt =====
-- A file of two lines.
use craft_osos.Base.{List, [], ◌∷◌}
use craft_osos.Lua.{Text}

abbrev lines : List Text
lines = (b'a' ∷ 200 ∷ []) ∷ (b'b' ∷ []) ∷ []
