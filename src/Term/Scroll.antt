-- ===== src/Term/Scroll.antt =====
-- `term_scroll`: every line moves by the number of lines given.
use craft_osos.Base.{
  ℕ, zero, suc, ◌+◌, ◌-◌, ◌*◌, ◌^◌, ◌<◌, ◌≡◌, Bool, true, false, Option, none, some, List, length,
  get_or, take, drop, replicate, ltb, leb, lt→ltb, le→ltb, arith, refl, ◌∙◌, if◌then◌else◌, ==_ne,
  length-append, length-take, length-drop, length-replicate, get_or-append_left,
  get_or-append_right, get_or-take, get_or-drop, get_or-replicate,
}
use native.Mathlib.Decide.{dec_lt}
use craft_osos.Base.Int.{ℤ, pos, negsuc, to_int, neg_part}
use craft_osos.Lua.{Value, Api, arg}
use craft_osos.Display.{Terminal, term_width, term_height}
use craft_osos.Display.Bounds.{Sized, Draws, blit_lines-Draws}
use craft_osos.Term.{shift_up, shift_down, blank, scroll_text, term_scroll}
use craft_osos.Term.Text.{cell}

-- The line that comes to a row, if there is one.
unfoldable pub source_row : ℤ → ℕ → Option ℕ
source_row (pos n) row = if ltb (row + n) term_height then some (row + n) else none
source_row (negsuc n) row = if ltb n row then some (row - suc n) else none

abbrev pub row_cell : Terminal → ℕ → Option ℕ → ℕ × ℕ
row_cell t col none = (b' ', t.current_colors)
row_cell t col (some row) = cell t row col

-- The cells after scrolling: those of another line, or blank ones.
abbrev pub scrolled : ℤ → Terminal → ℕ → ℕ → ℕ × ℕ
scrolled z t row col = row_cell t col (source_row z row)

abbrev entry : List ℕ → ℕ → ℕ → ℕ
entry l row col = get_or l (row * term_width + col) 0

module _ (n fill : ℕ) (l : List ℕ) (small : n < term_height)
    (sized : length l ≡ term_width * term_height) where
  length-shift_up : length (shift_up n fill l) ≡ term_width * term_height
  unfolding shift_up
  length-shift_up = omega (
    arith,
    length-append (take ((term_height - n) * term_width) (drop (n * term_width) l))
        (replicate (n * term_width) fill),
    length-take ((term_height - n) * term_width) (drop (n * term_width) l),
    length-drop (n * term_width) l,
    length-replicate (n * term_width) fill,
  )

  length-shift_down : length (shift_down n fill l) ≡ term_width * term_height
  unfolding shift_down
  length-shift_down = omega (
    arith,
    length-append (replicate (n * term_width) fill) (take ((term_height - n) * term_width) l),
    length-take ((term_height - n) * term_width) l,
    length-replicate (n * term_width) fill,
  )

  entry-shift_up :
      (row col : ℕ)
      → row < term_height
      → col < term_width
      → entry (shift_up n fill l) row col
        ≡ (if ltb (row + n) term_height then entry l (row + n) col else fill)
  unfolding shift_up
  entry-shift_up row col hr hc =
      let top = take ((term_height - n) * term_width) (drop (n * term_width) l) in
      let size : length top ≡ (term_height - n) * term_width = omega (
        arith,
        length-take ((term_height - n) * term_width) (drop (n * term_width) l),
        length-drop (n * term_width) l,
      ) in
      elim (dec_lt (row + n) term_height) [
        | yes h ↦ rw (lt→ltb (row + n) term_height h) (
            get_or-append_left top _ (row * term_width + col) 0 (omega arith)
            ∙ get_or-take _ (drop (n * term_width) l) (row * term_width + col) 0 (omega arith)
            ∙ get_or-drop (n * term_width) l (row * term_width + col) ((row + n) * term_width + col)
                0 (omega arith))
        | no h ↦ rw (le→ltb (row + n) term_height (omega arith)) (
            let j = row * term_width + col - (term_height - n) * term_width in
            get_or-append_right top _ (row * term_width + col) j 0 (omega arith)
            ∙ get_or-replicate (n * term_width) fill j 0 (omega arith))
      ]

  entry-shift_down :
      (row col : ℕ)
      → row < term_height
      → col < term_width
      → entry (shift_down n fill l) row col ≡ (if ltb row n then fill else entry l (row - n) col)
  unfolding shift_down
  entry-shift_down row col hr hc =
      let top = replicate (n * term_width) fill in
      elim (dec_lt row n) [
        | yes h ↦ rw (lt→ltb row n h) (
            get_or-append_left top _ (row * term_width + col) 0
              (omega (arith, length-replicate (n * term_width) fill))
            ∙ get_or-replicate (n * term_width) fill (row * term_width + col) 0 (omega arith))
        | no h ↦ rw (le→ltb row n (omega arith)) (
            let j = (row - n) * term_width + col in
            get_or-append_right top _ (row * term_width + col) j 0
              (omega (arith, length-replicate (n * term_width) fill))
            ∙ get_or-take _ l j 0 (omega arith))
      ]

entry-blank :
    (v row col : ℕ)
    → row < term_height
    → col < term_width
    → entry (replicate (term_width * term_height) v) row col ≡ v
entry-blank v row col hr hc =
    get_or-replicate (term_width * term_height) v (row * term_width + col) 0 (omega arith)

pub record Scrolled (z : ℤ) (t t' : Terminal) : Type 0 where
  pub sized : Sized t'
  pub same :
      (row col : ℕ) → row < term_height → col < term_width → cell t' row col ≡ scrolled z t row col

blank-Sized : (t : Terminal) → Sized (blank t)
blank-Sized t = record {
  characters = length-replicate {A = ℕ} (term_width * term_height) b' ';
  colors = length-replicate (term_width * term_height) t.current_colors;
}

blank-cell :
    (t : Terminal) (row col : ℕ)
    → row < term_height
    → col < term_width
    → cell (blank t) row col ≡ (b' ', t.current_colors)
blank-cell t row col hr hc =
    rw (entry-blank b' ' row col hr hc, entry-blank t.current_colors row col hr hc)

if-cell :
    (t : Terminal) (col : ℕ) (b : Bool) (row : ℕ)
    → (
      if b then entry t.characters row col else b' ',
      if b then entry t.colors row col else t.current_colors,
    )
      ≡ row_cell t col (if b then some row else none)
if-cell t col true row = refl
if-cell t col false row = refl

down-cell :
    (t : Terminal) (n row col : ℕ)
    → (
      if ltb row (suc n) then b' ' else entry t.characters (row - suc n) col,
      if ltb row (suc n) then t.current_colors else entry t.colors (row - suc n) col,
    )
      ≡ row_cell t col (if ltb n row then some (row - suc n) else none)
down-cell t n row col = elim (dec_lt n row) [
  | yes h ↦ rw (lt→ltb n row h, le→ltb row (suc n) h)
  | no h ↦ rw (le→ltb n row (omega arith), lt→ltb row (suc n) (omega arith))
]

scroll_text-Scrolled : (z : ℤ) (t : Terminal) → Sized t → Scrolled z t (scroll_text z t)
unfolding scroll_text source_row
scroll_text-Scrolled (pos zero) t s = record {
  sized = s;
  same = λ row col hr hc. let e : row + 0 ≡ row = omega arith in rw (e, lt→ltb row term_height hr);
}
scroll_text-Scrolled (pos (suc n)) t s = elim (dec_lt (suc n) term_height) [
  | yes h ↦
      (let inside : leb term_height (suc n) ≡ false = ground arith in
        rw inside (record {
          sized = record {
            characters = length-shift_up (suc n) b' ' t.characters h s.characters;
            colors = length-shift_up (suc n) t.current_colors t.colors h s.colors;
          };
          same = λ row col hr hc.
              rw
                (
                  entry-shift_up (suc n) b' ' t.characters h s.characters row col hr hc,
                  entry-shift_up (suc n) t.current_colors t.colors h s.colors row col hr hc,
                )
                (if-cell t col (ltb (row + suc n) term_height) (row + suc n));
        }))
  | no h ↦
      (let outside : leb term_height (suc n) ≡ true = ground arith in
        rw outside (record {
          sized = blank-Sized t;
          same = λ row col hr hc.
              rw (le→ltb (row + suc n) term_height (omega arith)) (blank-cell t row col hr hc);
        }))
]
scroll_text-Scrolled (negsuc n) t s = elim (dec_lt (suc n) term_height) [
  | yes h ↦
      (let inside : leb term_height (suc n) ≡ false = ground arith in
        rw inside (record {
          sized = record {
            characters = length-shift_down (suc n) b' ' t.characters h s.characters;
            colors = length-shift_down (suc n) t.current_colors t.colors h s.colors;
          };
          same = λ row col hr hc.
              rw
                (
                  entry-shift_down (suc n) b' ' t.characters h s.characters row col hr hc,
                  entry-shift_down (suc n) t.current_colors t.colors h s.colors row col hr hc,
                )
                (down-cell t n row col);
        }))
  | no h ↦
      (let outside : leb term_height (suc n) ≡ true = ground arith in
        rw outside (record {
          sized = blank-Sized t;
          same = λ row col hr hc. rw (le→ltb n row (omega arith)) (blank-cell t row col hr hc);
        }))
]

-- `term_scroll` by z lines, up for z > 0 and down for z < 0, ends, and leaves in each row the cells
-- of the row z lines below, or blanks in the current colours where there is none; by the height or
-- more that is all rows. The text buffers are assumed to have the size of the screen, and z not to
-- be the least `int`.
pub term_scroll-Scrolled :
    (font : ℕ → Bool) (api : Api) (args : List Value) (t : Terminal)
    → Sized t
    → neg_part (to_int (api.to_integer (arg args 1))) < 2 ^ 31
    → (t' : Terminal) × (term_scroll font api args t ≡ some t')
      × Scrolled (to_int (api.to_integer (arg args 1))) t t'
unfolding term_scroll Draws
term_scroll-Scrolled font api args t s small =
    let z = to_int (api.to_integer (arg args 1)) in
    let after = scroll_text-Scrolled z t s in
    let (buffer, io, e) =
      blit_lines-Draws font term_height (scroll_text z t) after.sized (omega arith) in
    (
      record (scroll_text z t) { pixel_buffer = buffer; io = io },
      rw (==_ne (neg_part z) (2 ^ 31) (λ e. omega arith), e) refl,
      record {
        sized = record { characters = after.sized.characters; colors = after.sized.colors };
        same = after.same;
      },
    )
