-- ===== src/Font/Low.antt =====
-- font.h: `header_data` for the glyphs 0x00 to 0x7F. A number is a line of the source, a
-- hexadecimal digit an entry of it.
use craft_osos.Base.{ℕ, List, [], ◌∷◌}

unfoldable pub glyphs_0x : List ℕ
glyphs_0x =
    0x0000000FFF000FFF ∷ 0x0000000000000000 ∷ 0xF000000000000000 ∷ 0xFFFFFF0000000000
    ∷ 0x000000000FFF0000 ∷ 0x0000000000000000 ∷ 0x000000F000F0FFFF ∷ 0xF00F0F0000F0000F
    ∷ 0xFF0000F000000000 ∷ 0xFFFFFF0000000000 ∷ 0x0000FFF0F000F000 ∷ 0x00000FFFF00FFFFF
    ∷ 0x000000FF0FF0F0F0 ∷ 0xF0FFFFF00FFF0000 ∷ 0xF0000FFF0000FF00 ∷ 0xFF00FF0000000000
    ∷ 0x00000FF0F000F000 ∷ 0x00000F00F00F000F ∷ 0x000000F000F0FFFF ∷ 0xF0FFFFF0FFFFF0FF
    ∷ 0xFFF0FFFFF00FFFF0 ∷ 0xF0000F0000000000 ∷ 0x000FF0F0F000F000 ∷ 0x00000FFFF00FFFFF
    ∷ 0x000000F0F0F0F000 ∷ 0xF0FFFFF00FFF00FF ∷ 0xFFF0FFFFF00FFFF0 ∷ 0xF0000F0000000000
    ∷ 0x00F00F000FFF0000 ∷ 0x00000F00000F000F ∷ 0x000000F000F0FF0F ∷ 0xF00FFF0000F00000
    ∷ 0xF00000F00000FF00 ∷ 0xFF00FF0000000000 ∷ 0x00F00F0000F00000 ∷ 0x0000FF0000FF00FF
    ∷ 0x0000000FFF000FFF ∷ 0x0000F0000000000F ∷ 0xFF000FFF00000000 ∷ 0xFFFFFF0000000000
    ∷ 0x000FF0000FFF0000 ∷ 0x0000FF0000FF00FF ∷ 0x0000000000000000 ∷ 0x0000000000000000
    ∷ 0x0000000000000000 ∷ 0xFFFFFF0000000000 ∷ 0x0000000000F00000 ∷ 0x0000000000000000
    ∷ 0x0000000000000000 ∷ 0x0000000000000000 ∷ 0x0000000000000000 ∷ 0x0000000000000000
    ∷ 0x0000000000000000 ∷ 0x0000000000000000 ∷ []

unfoldable pub glyphs_1x : List ℕ
glyphs_1x =
    0x00000000000000F0 ∷ 0x000F00F00FFFF00F ∷ 0xFFF000000000F000 ∷ 0x00F00000F0000000
    ∷ 0x0000000000000000 ∷ 0x0000000000000000 ∷ 0xF000000000F00FFF ∷ 0x000F00F0F0F0F0FF
    ∷ 0x00000000000FFF00 ∷ 0x0FFF0000F00000F0 ∷ 0x0000F00000000000 ∷ 0x000000F000FFFFF0
    ∷ 0xFFF00000FFF0FFFF ∷ 0xF00F00F0F0F0F0F0 ∷ 0xFF00000000FFFFF0 ∷ 0xFFFFF000F00000FF
    ∷ 0x000FF0000000000F ∷ 0x00F000F0000FFF00 ∷ 0xFFFFF0FFFFF000F0 ∷ 0x000F00F00FF0F0F0
    ∷ 0x00F000000000F000 ∷ 0x00F00000F000FFFF ∷ 0xF0FFFFF0000000FF ∷ 0xFFFF0FFF000FFF00
    ∷ 0xFFF00000FFF000F0 ∷ 0x000F00F000F0F00F ∷ 0xF0F0000000FFFFF0 ∷ 0x00F000FFFFF000FF
    ∷ 0x000FF000F000000F ∷ 0x00F00FFF0000F000 ∷ 0xF000000000F0FFFF ∷ 0xF000000000F0F000
    ∷ 0x0FF00FFFF00FFF00 ∷ 0x00F0000FFF0000F0 ∷ 0x0000F000F0000000 ∷ 0x0000FFFFF000F000
    ∷ 0x0000000000000FFF ∷ 0x000F00F000F0F0FF ∷ 0xFF000FFFF000F000 ∷ 0x00F00000F0000000
    ∷ 0x00000000FFFFF000 ∷ 0x0000000000000000 ∷ 0x00000000000000F0 ∷ 0x0000000000000000
    ∷ 0x0000000000FFFFF0 ∷ 0x0000000000000000 ∷ 0x0000000000000000 ∷ 0x0000000000000000
    ∷ 0x0000000000000000 ∷ 0x0000000000000000 ∷ 0x0000000000000000 ∷ 0x0000000000000000
    ∷ 0x0000000000000000 ∷ 0x0000000000000000 ∷ []

unfoldable pub glyphs_2x : List ℕ
glyphs_2x =
    0x00000000F00000F0 ∷ 0xF00F0F0000F000F0 ∷ 0x00F000F000000F00 ∷ 0x000FF00FF0000000
    ∷ 0x0000000000000000 ∷ 0x00000000000000F0 ∷ 0x00000000F00000F0 ∷ 0xF00F0F000FFFF0F0
    ∷ 0x0F000F0F00000F00 ∷ 0x00F000000F000000 ∷ 0x0000F00000000000 ∷ 0x0000000000000F00
    ∷ 0x00000000F0000F0F ∷ 0x00FFFFF0F0000000 ∷ 0x0F0000F00000F000 ∷ 0x0F00000000F00F00
    ∷ 0xF000F00000000000 ∷ 0x0000000000000F00 ∷ 0x00000000F0000000 ∷ 0x000F0F000FFF0000
    ∷ 0xF0000FF0F0000000 ∷ 0x0F00000000F000FF ∷ 0x00FFFFF0000000FF ∷ 0xFFF000000000F000
    ∷ 0x00000000F0000000 ∷ 0x00FFFFF00000F00F ∷ 0x0000F0FF00000000 ∷ 0x0F00000000F00F00
    ∷ 0xF000F00000000000 ∷ 0x00000000000F0000 ∷ 0x0000000000000000 ∷ 0x000F0F00FFFF000F
    ∷ 0x00F0F00F00000000 ∷ 0x00F000000F000000 ∷ 0x0000F00000F00000 ∷ 0x000000F0000F0000
    ∷ 0x00000000F0000000 ∷ 0x000F0F0000F000F0 ∷ 0x00F00FF0F0000000 ∷ 0x000FF00FF0000000
    ∷ 0x0000000000F00000 ∷ 0x000000F000F00000 ∷ 0x0000000000000000 ∷ 0x0000000000000000
    ∷ 0x0000000000000000 ∷ 0x0000000000000000 ∷ 0x0000000000F00000 ∷ 0x0000000000000000
    ∷ 0x0000000000000000 ∷ 0x0000000000000000 ∷ 0x0000000000000000 ∷ 0x0000000000000000
    ∷ 0x0000000000000000 ∷ 0x0000000000000000 ∷ []

unfoldable pub glyphs_3x : List ℕ
glyphs_3x =
    0x0FFF0000F0000FFF ∷ 0x000FFF00000FF0FF ∷ 0xFFF000FF00FFFFF0 ∷ 0x0FFF000FFF000000
    ∷ 0x000000000000F000 ∷ 0x00000F00000FFF00 ∷ 0xF000F00FF000F000 ∷ 0xF0F000F000F0F0F0
    ∷ 0x00000F0000F000F0 ∷ 0xF000F0F000F000F0 ∷ 0x0000F000000F0000 ∷ 0x000000F000F000F0
    ∷ 0xF00FF000F0000000 ∷ 0xF00000F00F00F0FF ∷ 0xFF00F000000000F0 ∷ 0xF000F0F000F000F0
    ∷ 0x0000F00000F000FF ∷ 0xFFF0000F000000F0 ∷ 0xF0F0F000F00000FF ∷ 0x0000FF00F000F000
    ∷ 0x00F0FFFF00000F00 ∷ 0x0FFF000FFFF00000 ∷ 0x000000000F000000 ∷ 0x00000000F0000F00
    ∷ 0xFF00F000F0000F00 ∷ 0x000000F0FFFFF000 ∷ 0x00F0F000F000F000 ∷ 0xF000F00000F00000
    ∷ 0x0000000000F00000 ∷ 0x0000000F0000F000 ∷ 0xF000F000F000F000 ∷ 0xF0F000F00000F0F0
    ∷ 0x00F0F000F000F000 ∷ 0xF000F0000F0000F0 ∷ 0x0000F000000F00FF ∷ 0xFFF000F000000000
    ∷ 0x0FFF00FFFFF0FFFF ∷ 0xF00FFF000000F00F ∷ 0xFF000FFF0000F000 ∷ 0x0FFF000FF00000F0
    ∷ 0x0000F0000000F000 ∷ 0x00000F000000F000 ∷ 0x0000000000000000 ∷ 0x0000000000000000
    ∷ 0x0000000000000000 ∷ 0x0000000000000000 ∷ 0x0000F00000000000 ∷ 0x0000000000000000
    ∷ 0x0000000000000000 ∷ 0x0000000000000000 ∷ 0x0000000000000000 ∷ 0x0000000000000000
    ∷ 0x0000000000000000 ∷ 0x0000000000000000 ∷ []

unfoldable pub glyphs_4x : List ℕ
glyphs_4x =
    0x0FFFF00FFF00FFFF ∷ 0x000FFF00FFFF00FF ∷ 0xFFF0FFFFF00FFFF0 ∷ 0xF000F00FFF000000
    ∷ 0xF0F000F0F00000F0 ∷ 0x00F0F000F00FFF00 ∷ 0xF0000FF000F0F000 ∷ 0xF0F000F0F000F0F0
    ∷ 0x0000F00000F00000 ∷ 0xF000F000F0000000 ∷ 0xF0F00F00F00000FF ∷ 0x0FF0FF00F0F000F0
    ∷ 0xF0FF0FFFFFF0FFFF ∷ 0x00F00000F000F0FF ∷ 0xF000FFF000F00FF0 ∷ 0xFFFFF000F0000000
    ∷ 0xF0FFF000F00000F0 ∷ 0xF0F0F0F0F0F000F0 ∷ 0xF0FF0FF000F0F000 ∷ 0xF0F00000F000F0F0
    ∷ 0x0000F00000F000F0 ∷ 0xF000F000F0000000 ∷ 0xF0F00F00F00000F0 ∷ 0x00F0F00FF0F000F0
    ∷ 0xF0FFFFF000F0F000 ∷ 0xF0F00000F000F0F0 ∷ 0x0000F00000F000F0 ∷ 0xF000F000F0000000
    ∷ 0xF0F000F0F00000F0 ∷ 0x00F0F000F0F000F0 ∷ 0xF00000F000F0F000 ∷ 0xF0F000F0F000F0F0
    ∷ 0x0000F00000F000F0 ∷ 0xF000F000F000F000 ∷ 0xF0F000F0F00000F0 ∷ 0x00F0F000F0F000F0
    ∷ 0x0FFFF0F000F0FFFF ∷ 0x000FFF00FFFF00FF ∷ 0xFFF0F000000FFF00 ∷ 0xF000F00FFF000FFF
    ∷ 0x00F000F0FFFFF0F0 ∷ 0x00F0F000F00FFF00 ∷ 0x0000000000000000 ∷ 0x0000000000000000
    ∷ 0x0000000000000000 ∷ 0x0000000000000000 ∷ 0x0000000000000000 ∷ 0x0000000000000000
    ∷ 0x0000000000000000 ∷ 0x0000000000000000 ∷ 0x0000000000000000 ∷ 0x0000000000000000
    ∷ 0x0000000000000000 ∷ 0x0000000000000000 ∷ []

unfoldable pub glyphs_5x : List ℕ
glyphs_5x =
    0xFFFF000FFF00FFFF ∷ 0x000FFFF0FFFFF0F0 ∷ 0x00F0F000F0F000F0 ∷ 0xF000F0F000F0FFFF
    ∷ 0xF00FFF00F000000F ∷ 0xFF0000F000000000 ∷ 0xF000F0F000F0F000 ∷ 0xF0F0000000F000F0
    ∷ 0x00F0F000F0F000F0 ∷ 0x0F0F000F0F000000 ∷ 0xF00F00000F000000 ∷ 0x0F000F0F00000000
    ∷ 0xFFFF00F000F0FFFF ∷ 0x000FFF0000F000F0 ∷ 0x00F0F000F0F000F0 ∷ 0x00F00000F000000F
    ∷ 0x000F00000F000000 ∷ 0x0F00F000F0000000 ∷ 0xF00000F000F0F000 ∷ 0xF00000F000F000F0
    ∷ 0x00F0F000F0F000F0 ∷ 0x0F0F0000F00000F0 ∷ 0x000F000000F00000 ∷ 0x0F00000000000000
    ∷ 0xF00000F000F0F000 ∷ 0xF00000F000F000F0 ∷ 0x00F00F0F00F0F0F0 ∷ 0xF000F000F0000F00
    ∷ 0x000F0000000F0000 ∷ 0x0F00000000000000 ∷ 0xF00000F00F00F000 ∷ 0xF0F000F000F000F0
    ∷ 0x00F00F0F00FF0FF0 ∷ 0xF000F000F000F000 ∷ 0x000F0000000F0000 ∷ 0x0F00000000000000
    ∷ 0xF000000FF0F0F000 ∷ 0xF00FFF0000F0000F ∷ 0xFF0000F000F000F0 ∷ 0xF000F000F000FFFF
    ∷ 0xF00FFF000000F00F ∷ 0xFF00000000000000 ∷ 0x0000000000000000 ∷ 0x0000000000000000
    ∷ 0x0000000000000000 ∷ 0x0000000000000000 ∷ 0x0000000000000000 ∷ 0x0000000000FFFFF0
    ∷ 0x0000000000000000 ∷ 0x0000000000000000 ∷ 0x0000000000000000 ∷ 0x0000000000000000
    ∷ 0x0000000000000000 ∷ 0x0000000000000000 ∷ []

unfoldable pub glyphs_6x : List ℕ
glyphs_6x =
    0x00F000000000F000 ∷ 0x000000000000F000 ∷ 0x0000000FF0000000 ∷ 0xF0000000F0000000
    ∷ 0xF00F000000F00000 ∷ 0x0000000000000000 ∷ 0x00F000000000F000 ∷ 0x000000000000F000
    ∷ 0x000000F000000000 ∷ 0xF000000000000000 ∷ 0x000F000000F00000 ∷ 0x0000000000000000
    ∷ 0x000F000FFF00F0FF ∷ 0x000FFF000FF0F00F ∷ 0xFF000FFFF00FFFF0 ∷ 0xF0FF0000F0000000
    ∷ 0xF00F00F000F000FF ∷ 0x0F00FFFF000FFF00 ∷ 0x0000000000F0FF00 ∷ 0xF0F000F0F00FF0F0
    ∷ 0x00F000F000F000F0 ∷ 0xFF00F000F0000000 ∷ 0xF00F0F0000F000F0 ∷ 0xF0F0F000F0F000F0
    ∷ 0x0000000FFFF0F000 ∷ 0xF0F00000F000F0FF ∷ 0xFFF000F000F000F0 ∷ 0xF000F000F0000000
    ∷ 0xF00FF00000F000F0 ∷ 0xF0F0F000F0F000F0 ∷ 0x000000F000F0F000 ∷ 0xF0F000F0F000F0F0
    ∷ 0x000000F0000FFFF0 ∷ 0xF000F000F000F000 ∷ 0xF00F0F0000F000F0 ∷ 0x00F0F000F0F000F0
    ∷ 0x0000000FFFF0FFFF ∷ 0x000FFF000FFFF00F ∷ 0xFFF000F0000000F0 ∷ 0xF000F000F000F000
    ∷ 0xF00F00F0000F00F0 ∷ 0x00F0F000F00FFF00 ∷ 0x0000000000000000 ∷ 0x0000000000000000
    ∷ 0x0000000000FFFF00 ∷ 0x0000000000000FFF ∷ 0x0000000000000000 ∷ 0x0000000000000000
    ∷ 0x0000000000000000 ∷ 0x0000000000000000 ∷ 0x0000000000000000 ∷ 0x0000000000000000
    ∷ 0x0000000000000000 ∷ 0x0000000000000000 ∷ []

unfoldable pub glyphs_7x : List ℕ
glyphs_7x =
    0x0000000000000000 ∷ 0x0000000000F00000 ∷ 0x0000000000000000 ∷ 0x0000000000000000
    ∷ 0x00000FF000F0000F ∷ 0xF0000FF00F0F00F0 ∷ 0x0000000000000000 ∷ 0x0000000000F00000
    ∷ 0x0000000000000000 ∷ 0x0000000000000000 ∷ 0x0000F00000F00000 ∷ 0x0F00F00FF0F00F00
    ∷ 0xF0FF000FF0F0F0FF ∷ 0x000FFFF00FFF00F0 ∷ 0x00F0F000F0F000F0 ∷ 0xF000F0F000F0FFFF
    ∷ 0xF000F00000F00000 ∷ 0x0F0000000000F00F ∷ 0xFF00F0F00FF0FF00 ∷ 0xF0F0000000F000F0
    ∷ 0x00F0F000F0F000F0 ∷ 0x0F0F00F000F0000F ∷ 0x000F000000F00000 ∷ 0x00F00000000F00F0
    ∷ 0xF000F0F000F0F000 ∷ 0x000FFF0000F000F0 ∷ 0x00F0F000F0F0F0F0 ∷ 0x00F000F000F000F0
    ∷ 0x0000F00000F00000 ∷ 0x0F00000000F00F00 ∷ 0xFFFF000FFFF0F000 ∷ 0x000000F000F000F0
    ∷ 0x00F00F0F00F0F0F0 ∷ 0x0F0F000FFFF00F00 ∷ 0x0000F00000F00000 ∷ 0x0F0000000000F00F
    ∷ 0xF000000000F0F000 ∷ 0x00FFFF00000F000F ∷ 0xFFF000F0000FFFF0 ∷ 0xF000F00000F0FFFF
    ∷ 0xF0000FF000F0000F ∷ 0xF0000000000F00F0 ∷ 0xF000000000F00000 ∷ 0x0000000000000000
    ∷ 0x0000000000000000 ∷ 0x000000FFFF000000 ∷ 0x0000000000000000 ∷ 0x0000000000F00F00
    ∷ 0x0000000000000000 ∷ 0x0000000000000000 ∷ 0x0000000000000000 ∷ 0x0000000000000000
    ∷ 0x0000000000000000 ∷ 0x000000000000F00F ∷ []
