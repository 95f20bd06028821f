-- ===== src/Term/Write.antt =====
-- `term_write` and `term_blit`: which cells they write, and where they leave the buffers.
use craft_osos.Base.{
  ℕ, zero, suc, ◌+◌, ◌≤◌, ◌<◌, ◌≡◌, Bool, true, Option, none, some, List, map, length, ◌==◌, le→ltb,
  lt→ltb, arith, refl, ap, [], ◌∷◌, ◌*◌, ◌>>=◌,
}
use craft_osos.Base.Int.{ℤ, pos, negsuc, ◌+ℤ◌, to_int}
use craft_osos.Lua.{Value, Api}
use craft_osos.Display.{Terminal, Plane, Io, term_width, term_height, on_screen, blit_line}
use craft_osos.Display.Bounds.{Sized, Draws, blit_line-Draws, redraw_cursor-Draws, on_screen-lt}
use craft_osos.Term.{
  put_cell, text_loop, drawn_from, draw_text, draw_cell, finish_text, off_lines, string_arg,
  term_write, term_blit, drawn, blit_cells,
}
use craft_osos.Term.Text.{cell, overlaid, text_loop-Wrote}

-- The cursor is on a line of the screen, not to the right of it; it may be to the left.
pub record Writable (t : Terminal) (y : ℕ) : Type 0 where
  pub line : t.cursor_y ≡ pos y
  pub on_line : y < term_height
  pub inside : drawn_from t.cursor_x < term_width

-- What writing a text of these cells leaves: text of the same sizes with the cells that show of
-- it, the cursor behind it, and nothing else changed but what is drawn.
pub record Written (y : ℕ) (cs : List (ℕ × ℕ)) (t t' : Terminal) : Type 0 where
  pub sized : Sized t'
  pub same : (row col : ℕ) → col < term_width → cell t' row col ≡ overlaid y t.cursor_x cs t row col
  pub cursor_x : t'.cursor_x ≡ to_int (t.cursor_x +ℤ pos (length cs))
  pub cursor_y : t'.cursor_y ≡ t.cursor_y
  pub current_colors : t'.current_colors ≡ t.current_colors
  pub cursor_blink : t'.cursor_blink ≡ t.cursor_blink
  pub cursor_show : t'.cursor_show ≡ t.cursor_show

==_refl : (a b : ℕ) → a ≡ b → (a == b) ≡ true
==_refl a b e = ground arith

length-blit_cells :
    (str fg bg : List ℕ)
    → length str ≡ length fg
    → length fg ≡ length bg
    → length str ≡ length (blit_cells str fg bg)
length-blit_cells [] fg bg e1 e2 = refl
length-blit_cells (c ∷ cs) (f ∷ fs) (b ∷ bs) e1 e2 =
    ap suc (length-blit_cells cs fs bs (omega arith) (omega arith))
length-blit_cells (c ∷ cs) [] bg e1 e2 = absurd (omega arith)
length-blit_cells (c ∷ cs) (f ∷ fs) [] e1 e2 = absurd (omega arith)

bind-after :
    {A B C : Type 0} (o : Option A) (f : A → Option B) (g : B → C) (b : B)
    → (o >>= f) ≡ some b
    → (o >>= λ a. f a >>= λ c. some (g c)) ≡ some (g b)
bind-after none f g b e = cc
bind-after (some a) f g b e = rw e

loop-below :
    (cs : List (ℕ × ℕ)) (t : Terminal) (cx cy : ℤ) (x y : ℕ)
    → cx ≡ pos x
    → x < term_width
    → cy ≡ pos y
    → term_height ≤ y
    → 0 < length cs
    → text_loop cy cx cs t ≡ none
unfolding text_loop put_cell
loop-below [] t cx cy x y ex hx ey hy nonempty = absurd (omega arith)
loop-below (c ∷ cs) t cx cy x y ex hx ey hy nonempty = rw (
  ex,
  ey,
  lt→ltb x term_width hx,
  le→ltb (y * term_width + x) (term_width * term_height) (omega arith),
)

off_lines-below :
    (cx cy : ℤ) (x y : ℕ) → cx ≡ pos x → cy ≡ pos y → term_height ≤ y → off_lines cx cy ≡ true
off_lines-below cx cy x y ex ey hy = rw (ex, ey) (ground arith)

module _ (font : ℕ → Bool) where
  line-Draws :
      (line : ℤ) (y from n : ℕ) (t : Terminal)
      → line ≡ pos y
      → Sized t
      → y < term_height
      → from + n ≤ term_width
      → Draws t (blit_line font line from n t)
  line-Draws line y from n t e s hy h = rw e (blit_line-Draws font y from n t s hy h)

  draw_text-Draws :
      (sum : ℤ) (t : Terminal) (y : ℕ) → Sized t → Writable t y → Draws t (draw_text font sum t)
  unfolding draw_text Draws
  draw_text-Draws (pos zero) t y s w = (t.pixel_buffer, t.io, refl)
  draw_text-Draws (pos (suc n)) t y s w =
      line-Draws t.cursor_y y _ _ t w.line s w.on_line (ground (arith, w.inside))
  draw_text-Draws (negsuc n) t y s w =
      line-Draws t.cursor_y y _ _ t w.line s w.on_line (omega (arith, w.inside))

  pub draw_cell-Draws :
      (o : Option (ℕ × ℕ)) (t : Terminal)
      → Sized t
      → ((x y : ℕ) → o ≡ some (x, y) → (x < term_width) × (y < term_height))
      → Draws t (draw_cell font o t)
  unfolding draw_cell Draws
  draw_cell-Draws none t s h = (t.pixel_buffer, t.io, refl)
  draw_cell-Draws (some (x, y)) t s h =
      let (hx, hy) = h x y refl in blit_line-Draws font y x 1 t s hy (omega arith)

  redrawn-Sized :
      (t : Terminal) (buffer : ℕ → Plane) (io : List Io) (x : ℤ)
      → Sized t
      → Sized (record t { pixel_buffer = buffer; io = io; cursor_x = x })
  redrawn-Sized t buffer io x s = record { characters = s.characters; colors = s.colors }

  finish_text-Draws :
      (len y : ℕ) (t : Terminal)
      → Sized t
      → Writable t y
      → Draws (record t { cursor_x = to_int (t.cursor_x +ℤ pos len) }) (finish_text font len t)
  unfolding finish_text Draws
  finish_text-Draws len y t s w =
      let sum = t.cursor_x +ℤ pos len in
      let (b1, i1, e1) = draw_text-Draws sum t y s w in
      let t1 = record t { pixel_buffer = b1; io = i1 } in
      let (b2, i2, e2) =
        draw_cell-Draws (on_screen t.cursor_x t.cursor_y) t1 (redrawn-Sized t b1 i1 t.cursor_x s)
          (on_screen-lt font t.cursor_x t.cursor_y) in
      let (b3, i3, e3) =
        redraw_cursor-Draws font (record t { pixel_buffer = b2; io = i2; cursor_x = to_int sum })
          (redrawn-Sized t b2 i2 (to_int sum) s) in
      rw (e1, e2, e3) (b3, i3, refl)

  write-Written :
      (line : ℤ) (y len : ℕ) (cs : List (ℕ × ℕ)) (t : Terminal)
      → line ≡ pos y
      → len ≡ length cs
      → Sized t
      → Writable t y
      → (t' : Terminal) × ((text_loop line t.cursor_x cs t >>= λ t1. finish_text font len t1)
          ≡ some t')
        × Written y cs t t'
  unfolding Draws
  write-Written line y len cs t at_y l s w =
      let wrote = text_loop-Wrote y t.cursor_x cs t s w.on_line in
      let t1 = record t { characters = wrote.characters; colors = wrote.colors } in
      let (buffer, io, e) =
        finish_text-Draws (length cs) y t1 wrote.sized
          (record { line = w.line; on_line = w.on_line; inside = w.inside }) in
      (
        record t1 {
          cursor_x = to_int (t.cursor_x +ℤ pos (length cs));
          pixel_buffer = buffer;
          io = io;
        },
        rw (at_y, l, wrote.returns, e) refl,
        record {
          sized = record { characters = wrote.sized.characters; colors = wrote.sized.colors };
          same = wrote.same;
          cursor_x = refl;
          cursor_y = refl;
          current_colors = refl;
          cursor_blink = refl;
          cursor_show = refl;
        },
      )

  module _ (api : Api) (args : List Value) (t : Terminal) (s : Sized t) where
    abbrev pub written_cells : List (ℕ × ℕ)
    written_cells = map (λ c. (c, t.current_colors)) (string_arg api args 1)

  -- What `term_blit` writes of three texts of one length are their `blit_cells`.
  pub term_blit-cells :
      (api : Api) (args : List Value) (t : Terminal) (y : ℕ)
      → Sized t
      → Writable t y
      → length (string_arg api args 1) ≡ length (string_arg api args 2)
      → length (string_arg api args 2) ≡ length (string_arg api args 3)
      → let cs =
          blit_cells (string_arg api args 1) (string_arg api args 2) (string_arg api args 3) in
        (t' : Terminal) × (term_blit font api args t ≡ some (drawn t')) × Written y cs t t'
  unfolding term_blit
  term_blit-cells api args t y s w e1 e2 =
      let str = string_arg api args 1 in
      let fg = string_arg api args 2 in
      let bg = string_arg api args 3 in
      let (t', runs, written) =
        write-Written t.cursor_y y (length str) (blit_cells str fg bg) t w.line
          (length-blit_cells str fg bg e1 e2) s w in
      (
        t',
        rw (==_refl (length str) (length fg) e1, ==_refl (length fg) (length bg) e2)
            (bind-after (text_loop t.cursor_y t.cursor_x (blit_cells str fg bg) t)
              (finish_text font (length str)) drawn t' runs),
        written,
      )

  -- A text of at least one character is written out of bounds by `term_blit` when the cursor is
  -- below the screen, in a column of it: unlike `term_write` it does not test the line.
  pub term_blit-below :
      (api : Api) (args : List Value) (t : Terminal) (x y : ℕ)
      → t.cursor_x ≡ pos x
      → x < term_width
      → t.cursor_y ≡ pos y
      → term_height ≤ y
      → length (string_arg api args 1) ≡ length (string_arg api args 2)
      → length (string_arg api args 2) ≡ length (string_arg api args 3)
      → 0 < length (string_arg api args 1)
      → (term_blit font api args t ≡ none) × (term_write font api args t ≡ some t)
  unfolding term_blit term_write
  term_blit-below api args t x y ex hx ey hy e1 e2 nonempty =
      let str = string_arg api args 1 in
      let fg = string_arg api args 2 in
      let bg = string_arg api args 3 in
      let out =
        loop-below (blit_cells str fg bg) t t.cursor_x t.cursor_y x y ex hx ey hy
          (omega (arith, length-blit_cells str fg bg e1 e2)) in
      (
        rw (==_refl (length str) (length fg) e1, ==_refl (length fg) (length bg) e2, out),
        rw (off_lines-below t.cursor_x t.cursor_y x y ex ey hy),
      )
