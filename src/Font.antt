-- ===== src/Font.antt =====
-- font.h: the pixels of the glyphs, as `blit_line` of term.cpp reads them.
mod Tests
mod Low
mod High
pub mod Glyphs
use craft_osos.Base.{
  ℕ, zero, suc, ◌+◌, ◌-◌, ◌*◌, ◌/◌, ◌%◌, ◌^◌, Bool, true, false, Option, some, none, List, [], ◌∷◌,
  ◌==◌, not, get_elem?, ◌>>=◌,
}
use craft_osos.Font.Low.{
  glyphs_0x, glyphs_1x, glyphs_2x, glyphs_3x, glyphs_4x, glyphs_5x, glyphs_6x, glyphs_7x,
}
use craft_osos.Font.High.{
  glyphs_8x, glyphs_9x, glyphs_ax, glyphs_bx, glyphs_cx, glyphs_dx, glyphs_ex, glyphs_fx,
}

-- The lines of `header_data`, those of 16 glyphs in one list.
unfoldable pub header_lines : List (List ℕ)
unfolding glyphs_0x glyphs_1x glyphs_2x glyphs_3x glyphs_4x glyphs_5x glyphs_6x glyphs_7x glyphs_8x
    glyphs_9x glyphs_ax glyphs_bx glyphs_cx glyphs_dx glyphs_ex glyphs_fx
header_lines =
    glyphs_0x ∷ glyphs_1x ∷ glyphs_2x ∷ glyphs_3x ∷ glyphs_4x ∷ glyphs_5x ∷ glyphs_6x ∷ glyphs_7x
    ∷ glyphs_8x ∷ glyphs_9x ∷ glyphs_ax ∷ glyphs_bx ∷ glyphs_cx ∷ glyphs_dx ∷ glyphs_ex ∷ glyphs_fx
    ∷ []

-- The entry at a place of a line of 16.
abbrev pub digit : ℕ → ℕ → ℕ
digit line k = line / 16 ^ (15 - k) % 16

-- `header_data[i]`; a read out of bounds is `none`.
unfoldable pub header_data : ℕ → Option ℕ
unfolding header_lines
header_data i = do
  group ← get_elem? header_lines (i / 864)
  line ← get_elem? group (i % 864 / 16)
  some (digit line (i % 16))

-- The index at which `blit_line` looks up the pixel px, py of a character.
abbrev pub pixel_index : ℕ → ℕ → ℕ → ℕ
pixel_index ch py px = ch / 16 * 864 + py * 96 + ch % 16 * 6 + px

-- Where the test of `blit_line` sets a pixel in the colour of the text.
unfoldable pub font_pixel : ℕ → Bool
unfolding header_data
font_pixel i = elim (header_data i) [ none ↦ false | some e ↦ not (e == 0) ]
