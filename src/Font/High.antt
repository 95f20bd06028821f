-- ===== src/Font/High.antt =====
-- font.h: `header_data` for the glyphs 0x80 to 0xFF. A number is a line of the source, a
-- hexadecimal digit an entry of it.
use craft_osos.Base.{ℕ, List, [], ◌∷◌}

unfoldable pub glyphs_8x : List ℕ
glyphs_8x =
    0x000000FFF000000F ∷ 0xFFFFFFFF000000FF ∷ 0xF000000FFFFFFFFF ∷ 0x000000FFF000000F
    ∷ 0xFFFFFFFF000000FF ∷ 0xF000000FFFFFFFFF ∷ 0x000000FFF000000F ∷ 0xFFFFFFFF000000FF
    ∷ 0xF000000FFFFFFFFF ∷ 0x000000FFF000000F ∷ 0xFFFFFFFF000000FF ∷ 0xF000000FFFFFFFFF
    ∷ 0x000000FFF000000F ∷ 0xFFFFFFFF000000FF ∷ 0xF000000FFFFFFFFF ∷ 0x000000FFF000000F
    ∷ 0xFFFFFFFF000000FF ∷ 0xF000000FFFFFFFFF ∷ 0x0000000000000000 ∷ 0x00000000FFF000FF
    ∷ 0xF000FFF000FFF000 ∷ 0x000FFF000FFF000F ∷ 0xFF000FFFFFFFFFFF ∷ 0xFFFFFFFFFFFFFFFF
    ∷ 0x0000000000000000 ∷ 0x00000000FFF000FF ∷ 0xF000FFF000FFF000 ∷ 0x000FFF000FFF000F
    ∷ 0xFF000FFFFFFFFFFF ∷ 0xFFFFFFFFFFFFFFFF ∷ 0x0000000000000000 ∷ 0x00000000FFF000FF
    ∷ 0xF000FFF000FFF000 ∷ 0x000FFF000FFF000F ∷ 0xFF000FFFFFFFFFFF ∷ 0xFFFFFFFFFFFFFFFF
    ∷ 0x0000000000000000 ∷ 0x0000000000000000 ∷ 0x0000000000000000 ∷ 0x0000000000000000
    ∷ 0x0000000000000000 ∷ 0x0000000000000000 ∷ 0x0000000000000000 ∷ 0x0000000000000000
    ∷ 0x0000000000000000 ∷ 0x0000000000000000 ∷ 0x0000000000000000 ∷ 0x0000000000000000
    ∷ 0x0000000000000000 ∷ 0x0000000000000000 ∷ 0x0000000000000000 ∷ 0x0000000000000000
    ∷ 0x0000000000000000 ∷ 0x0000000000000000 ∷ []

unfoldable pub glyphs_9x : List ℕ
glyphs_9x =
    0x000000FFF000000F ∷ 0xFFFFFFFF000000FF ∷ 0xF000000FFFFFFFFF ∷ 0x000000FFF000000F
    ∷ 0xFFFFFFFF000000FF ∷ 0xF000000FFFFFFFFF ∷ 0x000000FFF000000F ∷ 0xFFFFFFFF000000FF
    ∷ 0xF000000FFFFFFFFF ∷ 0x000000FFF000000F ∷ 0xFFFFFFFF000000FF ∷ 0xF000000FFFFFFFFF
    ∷ 0x000000FFF000000F ∷ 0xFFFFFFFF000000FF ∷ 0xF000000FFFFFFFFF ∷ 0x000000FFF000000F
    ∷ 0xFFFFFFFF000000FF ∷ 0xF000000FFFFFFFFF ∷ 0x0000000000000000 ∷ 0x00000000FFF000FF
    ∷ 0xF000FFF000FFF000 ∷ 0x000FFF000FFF000F ∷ 0xFF000FFFFFFFFFFF ∷ 0xFFFFFFFFFFFFFFFF
    ∷ 0x0000000000000000 ∷ 0x00000000FFF000FF ∷ 0xF000FFF000FFF000 ∷ 0x000FFF000FFF000F
    ∷ 0xFF000FFFFFFFFFFF ∷ 0xFFFFFFFFFFFFFFFF ∷ 0x0000000000000000 ∷ 0x00000000FFF000FF
    ∷ 0xF000FFF000FFF000 ∷ 0x000FFF000FFF000F ∷ 0xFF000FFFFFFFFFFF ∷ 0xFFFFFFFFFFFFFFFF
    ∷ 0xFFF000FFF000FFF0 ∷ 0x00FFF000FFF000FF ∷ 0xF000FFF000FFF000 ∷ 0xFFF000FFF000FFF0
    ∷ 0x00FFF000FFF000FF ∷ 0xF000FFF000FFF000 ∷ 0xFFF000FFF000FFF0 ∷ 0x00FFF000FFF000FF
    ∷ 0xF000FFF000FFF000 ∷ 0xFFF000FFF000FFF0 ∷ 0x00FFF000FFF000FF ∷ 0xF000FFF000FFF000
    ∷ 0xFFF000FFF000FFF0 ∷ 0x00FFF000FFF000FF ∷ 0xF000FFF000FFF000 ∷ 0xFFF000FFF000FFF0
    ∷ 0x00FFF000FFF000FF ∷ 0xF000FFF000FFF000 ∷ []

unfoldable pub glyphs_ax : List ℕ
glyphs_ax =
    0x00000000F0000000 ∷ 0x0000FF00000000F0 ∷ 0x00F000F0000FFFF0 ∷ 0x0F0F000000000FF0
    ∷ 0x0000000000000000 ∷ 0x0000000000FFFFF0 ∷ 0x00000000000000F0 ∷ 0x000F00F0F000F00F
    ∷ 0x0F0000F000FF0000 ∷ 0x0000000FFFF0000F ∷ 0x0000000000000000 ∷ 0x00000FFFF0000000
    ∷ 0x00000000F0000FFF ∷ 0x000F00000FFF00FF ∷ 0xFFF000F000F0FF00 ∷ 0x000000F00F0F0FFF
    ∷ 0x0000F0F000000000 ∷ 0x0000F0FF0F000000 ∷ 0x00000000F000F000 ∷ 0xF0FFFF00F000F000
    ∷ 0xF000000000F000F0 ∷ 0x000000F0F00FF00F ∷ 0x000F0F00FFFFF0FF ∷ 0xFFF0F0FF0F000000
    ∷ 0x00000000F000F000 ∷ 0x000F0000F000F0FF ∷ 0xFFF000F0000FF0F0 ∷ 0x000000F0F00F0FFF
    ∷ 0x00F0F0000000F000 ∷ 0x0000F0F0FF000000 ∷ 0x00000000F000F000 ∷ 0xF00F0000F000F000
    ∷ 0xF00000F000000FF0 ∷ 0x000000F00F0F0000 ∷ 0x000F0F000000F000 ∷ 0x0000F0000F000000
    ∷ 0x00000000F0000FFF ∷ 0x00FFFFF00FFF0000 ∷ 0xF00000F000FFFF00 ∷ 0x0000000FFFF00000
    ∷ 0x0000F0F000000000 ∷ 0x00000FFFF0000000 ∷ 0x00000000000000F0 ∷ 0x00000000F000F000
    ∷ 0x0000000000000000 ∷ 0x0000000000000000 ∷ 0x0000000000000000 ∷ 0x0000000000000000
    ∷ 0x0000000000000000 ∷ 0x0000000000000000 ∷ 0x0000000000000000 ∷ 0x0000000000000000
    ∷ 0x0000000000000000 ∷ 0x0000000000000000 ∷ []

unfoldable pub glyphs_bx : List ℕ
glyphs_bx =
    0x0FF000000000F000 ∷ 0x00FF00000F000000 ∷ 0x00000FFFF0000000 ∷ 0x0000000F00000000
    ∷ 0x00000000F000F0F0 ∷ 0x00F0FF00F000F000 ∷ 0xF00F0000F0000F00 ∷ 0x000F0000F0000000
    ∷ 0x0000F0F0F0000000 ∷ 0x000000FF00000FFF ∷ 0x00000000F00F00F0 ∷ 0x0F000F0F00000000
    ∷ 0xF00F0000F000FF00 ∷ 0x00FF0000000000F0 ∷ 0x00F0F0F0F0000000 ∷ 0x0000000F0000F000
    ∷ 0xF0F0F000000F0000 ∷ 0x0F00FF0F0000F000 ∷ 0x0FF000FFFFF0F000 ∷ 0x000F0000000000F0
    ∷ 0x00F00FF0F000FF00 ∷ 0x0000000F0000F000 ∷ 0xF00F0F0000F00000 ∷ 0xF00000F0000F0000
    ∷ 0x00000000F000FF00 ∷ 0x00FF0000000000F0 ∷ 0x00F000F0F000FF00 ∷ 0x000000FFF000F000
    ∷ 0xF000F0F00F0FF00F ∷ 0x00F00F0FF0F00000 ∷ 0x00000000F0000000 ∷ 0x00000000000000F0
    ∷ 0x00F000F0F0000000 ∷ 0x0000000000000FFF ∷ 0x000F0F000F0FF00F ∷ 0x0F000F0FF0F000F0
    ∷ 0x0000000000000000 ∷ 0x00000000000000FF ∷ 0xFF0F00F0F0000000 ∷ 0x000F000000000000
    ∷ 0x00F0F000F000F0F0 ∷ 0x0FF0F000F00FFF00 ∷ 0x000000FFFFF00000 ∷ 0x00000000000000F0
    ∷ 0x0000000000000000 ∷ 0x00F0000000000000 ∷ 0x0000000000000000 ∷ 0x0000000000000000
    ∷ 0x0000000000000000 ∷ 0x00000000000000F0 ∷ 0x0000000000000000 ∷ 0x0000000000000000
    ∷ 0x0000000000000000 ∷ 0x0000000000000000 ∷ []

unfoldable pub glyphs_cx : List ℕ
glyphs_cx =
    0xFF0000000FF00FFF ∷ 0x000F0F000F0F0000 ∷ 0xF0000FFFF00FFF00 ∷ 0xFF0000000FF00FFF
    ∷ 0x000F0F000FF00000 ∷ 0xFF0000F0000F0F00 ∷ 0x000000000000F000 ∷ 0xF0F0F00000000000
    ∷ 0x0000F0F000F000F0 ∷ 0x000000000000F000 ∷ 0xF000000000000000 ∷ 0x00000F0F00000000
    ∷ 0x0FFF000FFF000FFF ∷ 0x000FFF000FFF000F ∷ 0xFF00F0F000F00000 ∷ 0xFFFFF0FFFFF0FFFF
    ∷ 0xF0FFFFF00FFF000F ∷ 0xFF000FFF000FFF00 ∷ 0xF000F0F000F0F000 ∷ 0xF0F000F0F000F0F0
    ∷ 0x00F0FFFF00F00000 ∷ 0xF00000F00000F000 ∷ 0x00F0000000F00000 ∷ 0xF00000F00000F000
    ∷ 0xFFFFF0FFFFF0FFFF ∷ 0xF0FFFFF0FFFFF0FF ∷ 0xFFF0F0F000F000F0 ∷ 0xFFFF00FFFF00FFFF
    ∷ 0x00FFFF0000F00000 ∷ 0xF00000F00000F000 ∷ 0xF000F0F000F0F000 ∷ 0xF0F000F0F000F0F0
    ∷ 0x00F0F0F0000FFF00 ∷ 0xF00000F00000F000 ∷ 0x00F0000000F00000 ∷ 0xF00000F00000F000
    ∷ 0xF000F0F000F0F000 ∷ 0xF0F000F0F000F0F0 ∷ 0x00F0F0FFF0000F00 ∷ 0xFFFFF0FFFFF0FFFF
    ∷ 0xF0FFFFF00FFF000F ∷ 0xFF000FFF000FFF00 ∷ 0x0000000000000000 ∷ 0x0000000000000000
    ∷ 0x000000000000F000 ∷ 0x0000000000000000 ∷ 0x0000000000000000 ∷ 0x0000000000000000
    ∷ 0x0000000000000000 ∷ 0x0000000000000000 ∷ 0x0000000000000000 ∷ 0x0000000000000000
    ∷ 0x0000000000000000 ∷ 0x0000000000000000 ∷ []

unfoldable pub glyphs_dx : List ℕ
glyphs_dx =
    0xFFFF0000F0F0FF00 ∷ 0x00000FF00FFF000F ∷ 0x0F000F0F00000000 ∷ 0x0FFF00FF0000000F
    ∷ 0xF000F0000F0F0000 ∷ 0x0FF00FFF00FFFF00 ∷ 0xF000F00F0F000FFF ∷ 0x000FFF00F000F0F0
    ∷ 0xF0000FFF00F000F0 ∷ 0xF000F00000000000 ∷ 0x000F0F0000000000 ∷ 0x000000F000F000F0
    ∷ 0xF000F0F000F0F000 ∷ 0xF0F000F00FFF000F ∷ 0xFF00F000F00F0F00 ∷ 0xF00FF0F000F0F000
    ∷ 0xF0000000F000F0F0 ∷ 0x00F000FF00F0FF00 ∷ 0xFF00F0FF00F0F000 ∷ 0xF0F000F0F000F0F0
    ∷ 0x00F0F000F000F000 ∷ 0xF0F0F0F000F0F000 ∷ 0xF0F000F0F000F00F ∷ 0x0F0000F0F0F000F0
    ∷ 0xF000F0F0F0F0F000 ∷ 0xF0F000F0F000F0F0 ∷ 0x00F0F000F00F0F00 ∷ 0xFF00F0F000F0F000
    ∷ 0xF0F000F0F000F000 ∷ 0xF00000FF00F000F0 ∷ 0xF000F0F00FF0F000 ∷ 0xF0F000F0F000F0F0
    ∷ 0x00F0F000F0F000F0 ∷ 0xF000F0F000F0F000 ∷ 0xF0F000F0F000F000 ∷ 0xF00000F000F000F0
    ∷ 0xFFFF00F000F00FFF ∷ 0x000FFF000FFF000F ∷ 0xFF000FFF00000000 ∷ 0x0FFF000FFF000FFF
    ∷ 0x000FFF000FFF0000 ∷ 0xF0000FFF00F0FF00 ∷ 0x0000000000000000 ∷ 0x0000000000000000
    ∷ 0x0000000000000000 ∷ 0x0000000000000000 ∷ 0x0000000000000000 ∷ 0x0000000000F00000
    ∷ 0x0000000000000000 ∷ 0x0000000000000000 ∷ 0x0000000000000000 ∷ 0x0000000000000000
    ∷ 0x0000000000000000 ∷ 0x0000000000000000 ∷ []

unfoldable pub glyphs_ex : List ℕ
glyphs_ex =
    0xFF0000000FF00FFF ∷ 0x000F0F000F0F0000 ∷ 0xF000000000000000 ∷ 0xFF0000000FF00FFF
    ∷ 0x000F0F000FF00000 ∷ 0xFF0000F0000F0F00 ∷ 0x000000000000F000 ∷ 0xF0F0F00000000000
    ∷ 0x00000000000FFF00 ∷ 0x000000000000F000 ∷ 0xF000000000000000 ∷ 0x00000F0F00000000
    ∷ 0x0FFF000FFF000FFF ∷ 0x000FFF000FFF000F ∷ 0xFF000F0FF0F000F0 ∷ 0x0FFF000FFF000FFF
    ∷ 0x000FFF0000F00000 ∷ 0xF00000F00000F000 ∷ 0x0000F00000F00000 ∷ 0xF00000F00000F000
    ∷ 0x00F0F0F00FF00000 ∷ 0xF000F0F000F0F000 ∷ 0xF0F000F000F00000 ∷ 0xF00000F00000F000
    ∷ 0x0FFFF00FFFF00FFF ∷ 0xF00FFFF00FFFF00F ∷ 0xFFF0FFFFF0F000F0 ∷ 0xFFFFF0FFFFF0FFFF
    ∷ 0xF0FFFFF000F00000 ∷ 0xF00000F00000F000 ∷ 0xF000F0F000F0F000 ∷ 0xF0F000F0F000F0F0
    ∷ 0x00F0F0F0000FFF00 ∷ 0xF00000F00000F000 ∷ 0x00F0000000F00000 ∷ 0xF00000F00000F000
    ∷ 0x0FFFF00FFFF00FFF ∷ 0xF00FFFF00FFFF00F ∷ 0xFFF00F0FFF000F00 ∷ 0x0FFFF00FFFF00FFF
    ∷ 0xF00FFFF000F00000 ∷ 0xF00000F00000F000 ∷ 0x0000000000000000 ∷ 0x0000000000000000
    ∷ 0x000000000000F000 ∷ 0x0000000000000000 ∷ 0x0000000000000000 ∷ 0x0000000000000000
    ∷ 0x0000000000000000 ∷ 0x0000000000000000 ∷ 0x0000000000000000 ∷ 0x0000000000000000
    ∷ 0x0000000000000000 ∷ 0x0000000000000000 ∷ []

unfoldable pub glyphs_fx : List ℕ
glyphs_fx =
    0x00F0000F0F00FF00 ∷ 0x00000FF00FFF000F ∷ 0x0F000F0F00000000 ∷ 0x000000FF0000000F
    ∷ 0xF000F0000F0F0000 ∷ 0x0FF00FF0000F0F00 ∷ 0x000F00F0F0000000 ∷ 0x00000000F000F0F0
    ∷ 0xF00000000000F000 ∷ 0x0000000000000000 ∷ 0x000F0F0000000000 ∷ 0x000000F000000000
    ∷ 0x0FFFF0FFFF000FFF ∷ 0x000FFF000FFF000F ∷ 0xFF000FFF00000000 ∷ 0x0FFF00F000F0F000
    ∷ 0xF0000000F000F0F0 ∷ 0x00F000FF00F000F0 ∷ 0xF000F0F000F0F000 ∷ 0xF0F000F0F000F0F0
    ∷ 0x00F0F000F0FFFFF0 ∷ 0xF00FF0F000F0F000 ∷ 0xF0F000F0F000F0F0 ∷ 0x00F000F0F0F000F0
    ∷ 0xF000F0F000F0F000 ∷ 0xF0F000F0F000F0F0 ∷ 0x00F0F000F0000000 ∷ 0xF0F0F0F000F0F000
    ∷ 0xF0F000F0F000F0F0 ∷ 0x00F000FF00F000F0 ∷ 0xF000F0F000F0F000 ∷ 0xF0F000F0F000F0F0
    ∷ 0x00F0F000F000F000 ∷ 0xFF00F0F000F0F000 ∷ 0xF0F000F0F000F00F ∷ 0xFFF000F0000FFFF0
    ∷ 0x0FFF00F000F00FFF ∷ 0x000FFF000FFF000F ∷ 0xFF000FFF00000000 ∷ 0x0FFF000FFFF00FFF
    ∷ 0xF00FFFF00FFFF000 ∷ 0x00F00FFF000000F0 ∷ 0x0000000000000000 ∷ 0x0000000000000000
    ∷ 0x0000000000000000 ∷ 0x0000000000000000 ∷ 0x00000000000000FF ∷ 0xFF00000000FFFF00
    ∷ 0x0000000000000000 ∷ 0x0000000000000000 ∷ 0x0000000000000000 ∷ 0x0000000000000000
    ∷ 0x0000000000000000 ∷ 0x0000000000000000 ∷ []
