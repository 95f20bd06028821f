-- ===== src/Display.antt =====
-- term.cpp: the state of the terminal, and how cells of text get onto the screen (`blit_line`,
-- `blit_screen`, `redrawCursor`).
mod Tests
pub mod Bounds
pub mod Merge
use craft_osos.Base.{
  ℕ, zero, suc, ◌+◌, ◌-◌, ◌*◌, ◌/◌, ◌%◌, ◌^◌, bit_and, bit_or, Bool, true, false, not, ◌&&◌, Option,
  none, some, List, [], ◌∷◌, ◌++◌, map, ltb, leb, ◌==◌, if◌then◌else◌, get_elem?, length, ◌>>=◌,
}
use craft_osos.Base.Int.{ℤ, pos, negsuc}

abbrev pub term_width : ℕ
term_width = 53

abbrev pub term_height : ℕ
term_height = 26

-- The bytes of one plane of `pixel_buffer`.
abbrev pub plane_size : ℕ
plane_size = 38400

-- What the code does to the hardware: `outb`, and at an offset from 0xA0000 a byte that is stored,
-- a byte that is masked (`&=`), and bytes that are copied.
pub data Io : Type 0 where
  out : ℕ → ℕ → Io
  store : ℕ → ℕ → Io
  mask : ℕ → ℕ → Io
  copy : ℕ → List ℕ → Io

abbrev pub Plane : Type 0
Plane = ℕ → ℕ

-- The globals of term.cpp, and what was done to the hardware, last first.
pub record Terminal : Type 0 where
  pub characters : List ℕ
  pub colors : List ℕ
  pub current_colors : ℕ
  pub cursor_x : ℤ
  pub cursor_y : ℤ
  pub cursor_blink : Bool
  pub cursor_show : Bool
  pub pixel_buffer : ℕ → Plane
  pub io : List Io

-- The characters and colours of a row of cells; a read out of bounds is `none`.
unfoldable pub read_cells : Terminal → ℕ → ℕ → Option (List (ℕ × ℕ))
read_cells t i zero = some []
read_cells t i (suc n) = do
  ch ← get_elem? t.characters i
  col ← get_elem? t.colors i
  rest ← read_cells t (suc i) n
  some ((ch, col) ∷ rest)

-- `pixel_buffer[i][off] = b`
abbrev pub store_byte : Plane → ℕ → ℕ → Option Plane
store_byte buf off b =
    if ltb off plane_size then some (λ k. if k == off then b else buf k) else none

-- The free places of the byte (`boff + 1`), the byte `b`, its offset, and the plane.
abbrev pub Packer : Type 0
Packer = ℕ × ℕ × ℕ × Plane

-- One pixel: `b |= … << boff--`, and the byte is stored when it is full.
unfoldable pub pack_bit : ℕ → Packer → Option Packer
pack_bit bit (left, b, off, buf) =
    let b' = bit_or b (bit * 2 ^ (left - 1)) in
    if left == 1
    then (store_byte buf off b' >>= λ buf'. some (8, 0, off + 1, buf'))
    else some (left - 1, b', off, buf)

-- One row of pixels, and what is left in `b` at its end.
unfoldable pub pack : List ℕ → Packer → Option Plane
pack [] (left, b, off, buf) =
    if left == 8
    then some buf
    else store_byte buf off (bit_or b (bit_and (buf off) (2 ^ (9 - left) - 1)))
pack (bit ∷ bits) p = pack_bit bit p >>= λ p'. pack bits p'

abbrev pub bytes : Plane → ℕ → ℕ → List ℕ
bytes buf off zero = []
bytes buf off (suc n) = buf off ∷ bytes buf (suc off) n

-- The cursor's cell, when it is on the screen.
abbrev pub on_screen : ℤ → ℤ → Option (ℕ × ℕ)
on_screen (negsuc x) y = none
on_screen (pos x) (negsuc y) = none
on_screen (pos x) (pos y) = if ltb x term_width && ltb y term_height then some (x, y) else none

-- What `redrawCursor` does to plane i, last first.
abbrev pub cursor_io : ℕ → ℕ → ℕ → List Io
cursor_io x y i =
    let off = y * 1440 + x * 3 / 2 in
    (if x % 2 == 0
      then mask (off + 1361) 0x0F
        ∷ store (off + 1360) 0
        ∷ mask (off + 1281) 0x0F
        ∷ store (off + 1280) 0
        ∷ []
      else store (off + 1361) 0
        ∷ mask (off + 1360) 0xF0
        ∷ store (off + 1281) 0
        ∷ mask (off + 1280) 0xF0
        ∷ [])
    ++ out 0x3C5 (2 ^ i) ∷ out 0x3C4 0x02 ∷ []

-- `font` is where a pixel of `header_data` is not 0.
module _ (font : ℕ → Bool) where
  abbrev pub pixel : ℕ × ℕ → ℕ → ℕ → ℕ
  pixel (ch, col) py px =
      if font (ch / 16 * 864 + py * 96 + ch % 16 * 6 + px) then bit_and col 0x0f else col / 16

  -- Row `py` of the bitmap: every pixel of the font is doubled in both directions.
  abbrev pub bitmap_row : List (ℕ × ℕ) → ℕ → List ℕ
  bitmap_row [] py = []
  bitmap_row (c ∷ cs) py =
      let p = pixel c (py / 2) in
      p 0 ∷ p 0 ∷ p 1 ∷ p 1 ∷ p 2 ∷ p 2 ∷ p 3 ∷ p 3 ∷ p 4 ∷ p 4 ∷ p 5 ∷ p 5 ∷ bitmap_row cs py

  -- The row `py` of pixels in plane i.
  unfoldable pub blit_row : List (ℕ × ℕ) → ℕ → ℕ → ℕ → ℕ → Plane → Option Plane
  unfolding pack pack_bit
  blit_row cells i y start_x py buf =
      let left = 8 - start_x % 2 * 4 in
      let off = y * 1440 + py * 80 + start_x * 3 / 2 in
      pack (map (λ v. v / 2 ^ i % 2) (bitmap_row cells py))
        (left, if left == 8 then 0 else bit_and (buf off) 0xF0, off, buf)

  -- `for (int py = 0; py < 18; py++)`, with the rows to come.
  unfoldable pub blit_rows : ℕ → List (ℕ × ℕ) → ℕ → ℕ → ℕ → Plane → Option Plane
  blit_rows zero cells i y start_x buf = some buf
  blit_rows (suc rows) cells i y start_x buf =
      blit_row cells i y start_x (17 - rows) buf >>= λ buf'. blit_rows rows cells i y start_x buf'

  -- `for (int i = 0; i < 4; i++)`, with the planes to come.
  unfoldable pub blit_planes : ℕ → List (ℕ × ℕ) → ℕ → ℕ → Terminal → Option Terminal
  unfolding blit_rows
  blit_planes zero cells y start_x t = some t
  blit_planes (suc planes) cells y start_x t =
      let i = 3 - planes in
      blit_rows 18 cells i y start_x (t.pixel_buffer i) >>= λ buf.
      if leb (y * 1440 + 1440) plane_size
      then blit_planes planes cells y start_x (record t {
        pixel_buffer = λ k. if k == i then buf else t.pixel_buffer k;
        io =
            copy (y * 1440) (bytes buf (y * 1440) 1440) ∷ out 0x3C5 (2 ^ i) ∷ out 0x3C4 0x02 ∷ t.io;
      })
      else none

  -- `blit_line(y, start_x, end_x)` for `n` cells; no loop runs for a length below 0. In a line
  -- below 0 the copy starts in front of `pixel_buffer`.
  unfoldable pub blit_line : ℤ → ℕ → ℕ → Terminal → Option Terminal
  unfolding read_cells blit_planes
  blit_line (negsuc y) start_x n t = none
  blit_line (pos y) start_x n t =
      read_cells t (y * term_width + start_x) n >>= λ cells. blit_planes 4 cells y start_x t

  -- `blit_screen`, with the lines to come.
  unfoldable pub blit_lines : ℕ → Terminal → Option Terminal
  unfolding blit_line
  blit_lines zero t = some t
  blit_lines (suc lines) t =
      blit_line (pos (term_height - 1 - lines)) 0 term_width t >>= λ t'. blit_lines lines t'

  abbrev pub blit_screen : Terminal → Option Terminal
  blit_screen t = blit_lines term_height t

  -- The part of `redrawCursor` behind its guard.
  unfoldable pub redraw_at : Option (ℕ × ℕ) → Terminal → Option Terminal
  unfolding blit_line
  redraw_at none t = some t
  redraw_at (some (x, y)) t = blit_line (pos y) x 1 t >>= λ t'. some (
      if t'.cursor_show
      then record t' {
        io = cursor_io x y 3 ++ cursor_io x y 2 ++ cursor_io x y 1 ++ cursor_io x y 0 ++ t'.io;
      }
      else t')

  unfoldable pub redraw_cursor : Terminal → Option Terminal
  unfolding redraw_at
  redraw_cursor t = redraw_at (on_screen t.cursor_x t.cursor_y) t
