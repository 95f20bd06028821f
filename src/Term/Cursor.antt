-- ===== src/Term/Cursor.antt =====
-- The position of the cursor.
use craft_osos.Base.{ℕ, zero, suc, ◌<◌, ◌≡◌, some, [], ◌∷◌, ◌>>=◌, arith, refl, Bool}
use craft_osos.Base.Int.{ℤ, pos, negsuc, ◌-ℤ◌, ◌≤ℤ◌, to_int}
use craft_osos.Lua.{integer, Api}
use craft_osos.Display.{Terminal, on_screen}
use craft_osos.Display.Bounds.{Sized, Draws, redraw_cursor-Draws, on_screen-lt}
use craft_osos.Term.{plus_one, term_set_cursor_pos, term_get_cursor_pos}
use craft_osos.Term.Write.{draw_cell-Draws}

-- A coordinate from 1 less 2 ^ 31 up to the largest `int`.
abbrev pub Coordinate : ℤ → Type 0
Coordinate z = (z ≤ℤ pos 0x7FFFFFFF) × (negsuc 0x7FFFFFFE ≤ℤ z)

back_to_pos : (n : ℕ) → n < 0x7FFFFFFF → to_int (pos (suc n) -ℤ pos 1) ≡ pos n
unfolding ◌-ℤ◌
back_to_pos n h = ground arith

back_to_negsuc : (n : ℕ) → n < 0x7FFFFFFF → to_int (negsuc n -ℤ pos 1) ≡ negsuc (suc n)
unfolding ◌-ℤ◌
back_to_negsuc n h = ground arith

plus_one-back : (z : ℤ) → Coordinate z → plus_one (to_int (z -ℤ pos 1)) ≡ some z
unfolding ◌-ℤ◌
plus_one-back (pos zero) h = refl
plus_one-back (pos (suc n)) (h, l) = rw (back_to_pos n (omega arith)) (ground arith)
plus_one-back (negsuc n) (h, l) = rw (back_to_negsuc n (omega arith)) (ground arith)

read_back :
    (api : Api) (z : ℤ)
    → Coordinate z
    → plus_one (to_int (api.to_integer (integer z) -ℤ pos 1)) ≡ some z
read_back api z h = rw (api.to_integer-integer z) (plus_one-back z h)

-- `term_getCursorPos` gives the coordinates back that `term_setCursorPos` was given last, on the
-- screen or not, and neither leaves the buffers. The text buffers are assumed to have the size of
-- the screen, and the coordinates to be of type `int` also when 1 is taken off.
pub set_cursor_pos-get :
    (font : ℕ → Bool) (api : Api) (t : Terminal) (x y : ℤ)
    → Sized t
    → Coordinate x
    → Coordinate y
    → (term_set_cursor_pos font api (integer x ∷ integer y ∷ []) t >>= term_get_cursor_pos)
      ≡ some (integer x ∷ integer y ∷ [])
unfolding term_set_cursor_pos term_get_cursor_pos Draws
set_cursor_pos-get font api t x y s hx hy =
    let (b1, i1, e1) =
      draw_cell-Draws font (on_screen t.cursor_x t.cursor_y) t s
        (on_screen-lt font t.cursor_x t.cursor_y) in
    let t2 : Terminal = record t {
      pixel_buffer = b1;
      io = i1;
      cursor_x = to_int (api.to_integer (integer x) -ℤ pos 1);
      cursor_y = to_int (api.to_integer (integer y) -ℤ pos 1);
    } in
    let (b3, i3, e3) =
      redraw_cursor-Draws font t2 (record { characters = s.characters; colors = s.colors }) in
    rw (e1, e3, read_back api x hx, read_back api y hy)
