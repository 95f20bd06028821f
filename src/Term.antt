-- ===== src/Term.antt =====
-- term.cpp: the handlers of the `term` library on the text buffers, the cursor and the colours.
mod Tests
pub mod Text
pub mod InColors
pub mod Write
pub mod Scroll
pub mod Cursor
pub mod Clear
pub mod Colors
use craft_osos.Base.{
  ℕ, zero, suc, ◌+◌, ◌-◌, ◌*◌, ◌/◌, ◌%◌, ◌^◌, bit_and, bit_or, Bool, true, false, ◌&&◌, ◌||◌, not,
  Option, none, some, List, [], ◌∷◌, ◌++◌, map, ltb, leb, ◌==◌, if◌then◌else◌, length, set, take,
  drop, replicate, ◌>>=◌,
}
use craft_osos.Base.Int.{ℤ, pos, negsuc, ◌+ℤ◌, ◌-ℤ◌, to_int, to_unsigned, leb_ℤ, neg_part}
use craft_osos.Lua.{Value, boolean, integer, Api, arg}
use craft_osos.Display.{
  Terminal, term_width, term_height, on_screen, blit_line, blit_screen, redraw_cursor,
}

abbrev pub cells : ℕ
cells = term_width * term_height

-- `characters[cursorY*TERM_WIDTH+x] = ch` and the same for `colors`: `none` out of bounds.
unfoldable pub put_cell : ℤ → ℕ → ℕ × ℕ → Terminal → Option Terminal
put_cell (negsuc y) x c t = none
put_cell (pos y) x (ch, col) t =
    let i = y * term_width + x in
    if ltb i cells
    then some (record t { characters = set t.characters i ch; colors = set t.colors i col })
    else none

abbrev pub next : ℤ → ℤ
next (pos n) = pos (suc n)
next (negsuc zero) = pos 0
next (negsuc (suc n)) = negsuc n

-- The loop of `term_write` and `term_blit`, over what is left of the text, with its colours.
unfoldable pub text_loop : ℤ → ℤ → List (ℕ × ℕ) → Terminal → Option Terminal
text_loop y x [] t = some t
text_loop y (negsuc n) (c ∷ cs) t = text_loop y (next (negsuc n)) cs t
text_loop y (pos x) (c ∷ cs) t =
    if ltb x term_width
    then (put_cell y x c t >>= λ t'. text_loop y (pos (suc x)) cs t')
    else some t

-- The first cell that is drawn, and how many. `cursorX + len` is of an unsigned type, so a sum
-- below 0 is a large one.
abbrev pub drawn_from : ℤ → ℕ
drawn_from (pos x) = x
drawn_from (negsuc n) = 0

abbrev pub drawn_end : ℤ → ℕ
drawn_end (pos sum) = if leb term_width sum then term_width else sum
drawn_end (negsuc n) = term_width

-- `cursorY < 0 || cursorY >= TERM_HEIGHT || cursorX >= TERM_WIDTH`
abbrev pub off_lines : ℤ → ℤ → Bool
off_lines x (negsuc n) = true
off_lines (negsuc n) (pos y) = leb term_height y
off_lines (pos x) (pos y) = leb term_height y || leb term_width x

abbrev pub string_arg : Api → List Value → ℕ → List ℕ
string_arg api args i = elim (api.to_text (arg args i)) [ none ↦ [] | some s ↦ s ]

-- `hexch`, on a `char`.
abbrev pub hexch : ℕ → ℤ
hexch c =
    if leb b'0' c && leb c b'9'
    then pos (c - b'0')
    else (if leb b'a' c && leb c b'f' then pos (c - b'a' + 10) else negsuc 0)

-- The 8 bits of `hexch(fg) | (hexch(bg) << 4)`; -1 is shifted as it is stored.
abbrev pub blit_color : ℕ → ℕ → ℕ
blit_color fg bg = bit_or (to_unsigned 8 (hexch fg)) (to_unsigned 8 (hexch bg) * 16 % 256)

abbrev pub blit_cells : List ℕ → List ℕ → List ℕ → List (ℕ × ℕ)
blit_cells (c ∷ cs) (f ∷ fs) (b ∷ bs) = (c, blit_color f b) ∷ blit_cells cs fs bs
blit_cells _ _ _ = []

-- The end of `term_blit`: it returns, or raises the error about lengths.
pub data Blit : Type 0 where
  drawn : Terminal → Blit
  raised : Blit

-- `memset` of both buffers.
abbrev pub blank : Terminal → Terminal
blank t = record t { characters = replicate cells b' '; colors = replicate cells t.current_colors }

-- `memmove` of the lines from n on to the top, and `memset` of the last n lines.
unfoldable pub shift_up : ℕ → ℕ → List ℕ → List ℕ
shift_up n fill l =
    take ((term_height - n) * term_width) (drop (n * term_width) l)
    ++ replicate (n * term_width) fill

-- `memmove` of all lines but the last n down by n, and `memset` of the first n lines.
unfoldable pub shift_down : ℕ → ℕ → List ℕ → List ℕ
shift_down n fill l = replicate (n * term_width) fill ++ take ((term_height - n) * term_width) l

-- The three cases of `term_scroll`, for `int scroll`.
unfoldable pub scroll_text : ℤ → Terminal → Terminal
unfolding shift_up shift_down
scroll_text (pos zero) t = t
scroll_text (pos (suc n)) t = if leb term_height (suc n) then blank t else record t {
  characters = shift_up (suc n) b' ' t.characters;
  colors = shift_up (suc n) t.current_colors t.colors;
}
scroll_text (negsuc n) t = if leb term_height (suc n) then blank t else record t {
  characters = shift_down (suc n) b' ' t.characters;
  colors = shift_down (suc n) t.current_colors t.colors;
}

-- `memset` of line y.
abbrev pub fill_line : ℕ → ℕ → List ℕ → List ℕ
fill_line y v l =
    take (y * term_width) l ++ (replicate term_width v ++ drop (y * term_width + term_width) l)

module _ (font : ℕ → Bool) where
  -- The line that is drawn when `cursorX + len > 0`.
  unfoldable pub draw_text : ℤ → Terminal → Option Terminal
  draw_text (pos zero) t = some t
  draw_text sum t =
      let from = drawn_from t.cursor_x in blit_line font t.cursor_y from (drawn_end sum - from) t

  unfoldable pub draw_cell : Option (ℕ × ℕ) → Terminal → Option Terminal
  draw_cell none t = some t
  draw_cell (some (x, y)) t = blit_line font (pos y) x 1 t

  -- What follows the loop.
  unfoldable pub finish_text : ℕ → Terminal → Option Terminal
  unfolding draw_text draw_cell
  finish_text len t =
      let sum = t.cursor_x +ℤ pos len in
      draw_text sum t >>= λ t1. draw_cell (on_screen t1.cursor_x t1.cursor_y) t1 >>= λ t2.
      redraw_cursor font (record t2 { cursor_x = to_int sum })

  -- `lua_tolstring` gives a length of 0 with NULL.
  unfoldable pub term_write : Api → List Value → Terminal → Option Terminal
  unfolding text_loop put_cell finish_text
  term_write api args t =
      let str = string_arg api args 1 in
      if off_lines t.cursor_x t.cursor_y
      then some t
      else (text_loop t.cursor_y t.cursor_x (map (λ c. (c, t.current_colors)) str) t >>= λ t'.
          finish_text (length str) t')

  unfoldable pub term_blit : Api → List Value → Terminal → Option Blit
  unfolding text_loop put_cell finish_text
  term_blit api args t =
      let str = string_arg api args 1 in
      let fg = string_arg api args 2 in
      let bg = string_arg api args 3 in
      if not (length str == length fg) || not (length fg == length bg)
      then some raised
      else (text_loop t.cursor_y t.cursor_x (blit_cells str fg bg) t >>= λ t1.
          finish_text (length str) t1 >>= λ t2. some (drawn t2))

  -- `-scroll` overflows for the least `int` only.
  unfoldable pub term_scroll : Api → List Value → Terminal → Option Terminal
  unfolding scroll_text
  term_scroll api args t =
      let scroll = to_int (api.to_integer (arg args 1)) in
      if neg_part scroll == 2 ^ 31 then none else blit_screen font (scroll_text scroll t)

  unfoldable pub term_set_cursor_pos : Api → List Value → Terminal → Option Terminal
  unfolding draw_cell
  term_set_cursor_pos api args t = draw_cell (on_screen t.cursor_x t.cursor_y) t >>= λ t'.
      redraw_cursor font (record t' {
        cursor_x = to_int (api.to_integer (arg args 1) -ℤ pos 1);
        cursor_y = to_int (api.to_integer (arg args 2) -ℤ pos 1);
      })

  unfoldable pub term_set_cursor_blink : Api → List Value → Terminal → Option Terminal
  term_set_cursor_blink api args t =
      let on = api.to_boolean (arg args 1) in
      redraw_cursor font (record t { cursor_blink = on; cursor_show = on })

  unfoldable pub term_clear : Terminal → Option Terminal
  term_clear t = blit_screen font (blank t)

  -- `term_clearLine`, by the line of the cursor.
  unfoldable pub clear_cursor_line : ℤ → Terminal → Option Terminal
  clear_cursor_line (negsuc y) t = some t
  clear_cursor_line (pos y) t =
      if leb term_height y
      then some t
      else blit_line font (pos y) 0 term_width (record t {
        characters = fill_line y b' ' t.characters;
        colors = fill_line y t.current_colors t.colors;
      })

  unfoldable pub term_clear_line : Terminal → Option Terminal
  unfolding clear_cursor_line
  term_clear_line t = clear_cursor_line t.cursor_y t

-- `int` plus 1; an overflow is undefined behaviour.
abbrev pub plus_one : ℤ → Option ℤ
plus_one z = if leb_ℤ (pos 0x7FFFFFFF) z then none else some (next z)

unfoldable pub term_get_cursor_pos : Terminal → Option (List Value)
term_get_cursor_pos t = do
  x ← plus_one t.cursor_x
  y ← plus_one t.cursor_y
  some (integer x ∷ integer y ∷ [])

abbrev pub term_get_size : List Value
term_get_size = integer (pos term_width) ∷ integer (pos term_height) ∷ []

abbrev pub term_is_color : List Value
term_is_color = boolean true ∷ []

-- `int_log2 z` is `(int)log2(z)`.
module _ (int_log2 : ℤ → ℤ) where
  unfoldable pub term_set_text_color : Api → List Value → Terminal → Terminal
  term_set_text_color api args t =
      let n = to_unsigned 32 (int_log2 (api.to_integer (arg args 1))) in
      record t { current_colors = bit_or (bit_and t.current_colors 0xF0) (bit_and n 0x0F) }

  unfoldable pub term_set_background_color : Api → List Value → Terminal → Terminal
  term_set_background_color api args t =
      let n = to_unsigned 32 (int_log2 (api.to_integer (arg args 1))) in
      record t {
        current_colors = bit_or (bit_and t.current_colors 0x0F) (bit_and (n * 16 % 2 ^ 32) 0xF0);
      }

unfoldable pub term_get_text_color : Terminal → List Value
term_get_text_color t = integer (pos (2 ^ bit_and t.current_colors 0x0F)) ∷ []

unfoldable pub term_get_background_color : Terminal → List Value
term_get_background_color t = integer (pos (2 ^ (t.current_colors / 16))) ∷ []
