-- ===== src/Term/Clear.antt =====
-- `term_clear` and `term_clearLine`.
use craft_osos.Base.{
  ℕ, ◌+◌, ◌-◌, ◌*◌, ◌<◌, ◌≡◌, Bool, true, false, some, List, ◌++◌, length, get_or, take, drop,
  replicate, leb, ◌==◌, arith, refl, ◌∙◌, if◌then◌else◌, length-append, length-take, length-drop,
  length-replicate, get_or-append_left, get_or-append_right, get_or-take, get_or-drop,
  get_or-replicate,
}
use native.Mathlib.Decide.{dec_lt}
use craft_osos.Base.Int.{ℤ, pos, negsuc}
use craft_osos.Display.{Terminal, term_width, term_height}
use craft_osos.Display.Bounds.{Sized, Draws, blit_line-Draws}
use craft_osos.Term.{fill_line, clear_cursor_line, term_clear_line}
use craft_osos.Term.Text.{cell}

module _ (y v : ℕ) (l : List ℕ) (hy : y < term_height)
    (sized : length l ≡ term_width * term_height) where
  abbrev above : List ℕ
  above = take (y * term_width) l

  abbrev below : List ℕ
  below = drop (y * term_width + term_width) l

  length-above : length above ≡ y * term_width
  length-above = omega (arith, length-take (y * term_width) l)

  length-fill_line : length (fill_line y v l) ≡ term_width * term_height
  length-fill_line = omega (
    arith,
    length-append above (replicate term_width v ++ below),
    length-append (replicate term_width v) below,
    length-above,
    length-replicate term_width v,
    length-drop (y * term_width + term_width) l,
  )

  fill_line-entry :
      (row col : ℕ)
      → row < term_height
      → col < term_width
      → get_or (fill_line y v l) (row * term_width + col) 0
        ≡ (if row == y then v else get_or l (row * term_width + col) 0)
  fill_line-entry row col hr hc =
      let i = row * term_width + col in
      let rest = replicate term_width v ++ below in
      elim (dec_lt row y) [
        | yes h ↦
            (let ne : (row == y) ≡ false = ground arith in
              rw ne (
                get_or-append_left above rest i 0 (omega (arith, length-above))
                ∙ get_or-take (y * term_width) l i 0 (omega arith)))
        | no h ↦ elim (dec_lt y row) [
          | yes k ↦
              (let ne : (row == y) ≡ false = ground arith in
                let j = i - y * term_width in
                rw ne (
                  get_or-append_right above rest i j 0 (omega (arith, length-above))
                  ∙ get_or-append_right (replicate term_width v) below j (j - term_width) 0
                      (omega (arith, length-replicate term_width v))
                  ∙ get_or-drop (y * term_width + term_width) l (j - term_width) i 0 (omega arith)))
          | no k ↦
              (let eq : (row == y) ≡ true = ground arith in
                rw eq (
                  get_or-append_right above rest i col 0 (omega (arith, length-above))
                  ∙ get_or-append_left (replicate term_width v) below col 0
                      (omega (arith, length-replicate term_width v))
                  ∙ get_or-replicate term_width v col 0 hc))
        ]
      ]

-- Whether a row is the line of the cursor.
abbrev pub on_row : ℤ → ℕ → Bool
on_row (pos y) row = row == y
on_row (negsuc n) row = false

-- What `term_clearLine` leaves: blanks in the current colours in the line of the cursor, if there
-- is one, and all other cells as they were.
pub record Cleared (t t' : Terminal) : Type 0 where
  pub sized : Sized t'
  pub same :
      (row col : ℕ)
      → row < term_height
      → col < term_width
      → cell t' row col
        ≡ (if on_row t.cursor_y row then (b' ', t.current_colors) else cell t row col)

if-pair :
    (b : Bool) (x x' y y' : ℕ)
    → ◌≡◌ {A = ℕ × ℕ} (if b then x else x', if b then y else y') (if b then (x, y) else (x', y'))
if-pair true x x' y y' = refl
if-pair false x x' y y' = refl

clear_at :
    (font : ℕ → Bool) (line : ℤ) (t : Terminal)
    → t.cursor_y ≡ line
    → Sized t
    → (t' : Terminal) × (clear_cursor_line font line t ≡ some t') × Cleared t t'
unfolding clear_cursor_line Draws
clear_at font (negsuc n) t e s = (t, refl, record { sized = s; same = λ row col hr hc. rw e })
clear_at font (pos y) t e s = elim (dec_lt y term_height) [
  | no h ↦
      (let out : leb term_height y ≡ true = ground arith in
        (
          t,
          rw out,
          record {
            sized = s;
            same = λ row col hr hc. let other : (row == y) ≡ false = ground arith in rw (e, other);
          },
        ))
  | yes h ↦
      (let inside : leb term_height y ≡ false = ground arith in
        let t1 : Terminal = record t {
          characters = fill_line y b' ' t.characters;
          colors = fill_line y t.current_colors t.colors;
        } in
        let s1 : Sized t1 = record {
          characters = length-fill_line y b' ' t.characters h s.characters;
          colors = length-fill_line y t.current_colors t.colors h s.colors;
        } in
        let (buffer, io, d) = blit_line-Draws font y 0 term_width t1 s1 h (omega arith) in
        (
          record t1 { pixel_buffer = buffer; io = io },
          rw (inside, d) refl,
          record {
            sized = record { characters = s1.characters; colors = s1.colors };
            same = λ row col hr hc.
                rw
                  (
                    e,
                    fill_line-entry y b' ' t.characters h s.characters row col hr hc,
                    fill_line-entry y t.current_colors t.colors h s.colors row col hr hc,
                  )
                  (if-pair (row == y) _ _ _ _);
          },
        ))
]

-- `term_clearLine` never leaves the buffers, wherever the cursor is: it blanks the line of the
-- cursor in the current colours, if the cursor is on one, and leaves all other cells. The text
-- buffers are assumed to have the size of the screen.
pub term_clear_line-Cleared :
    (font : ℕ → Bool) (t : Terminal)
    → Sized t
    → (t' : Terminal) × (term_clear_line font t ≡ some t') × Cleared t t'
unfolding term_clear_line
term_clear_line-Cleared font t s = clear_at font t.cursor_y t refl s
