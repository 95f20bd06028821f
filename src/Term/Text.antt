-- ===== src/Term/Text.antt =====
-- `term_write`: which cells it writes, and that it never leaves the buffers.
use craft_osos.Base.{
  ℕ, zero, suc, ◌+◌, ◌-◌, ◌*◌, ◌<◌, ◌≡◌, ◌≢◌, Option, none, some, List, [], ◌∷◌, get_elem?, get_or,
  set, ltb, ◌==◌, lt→ltb, le→ltb, arith, refl, sym, ap, ◌∙◌, if◌then◌else◌, Bool-cases, inl, inr,
  length-set, get_or-set_self, get_or-set_ne,
}
use native.Mathlib.Decide.{dec_lt}
use craft_osos.Base.Int.{ℤ, pos, negsuc}
use craft_osos.Display.{Terminal, term_width, term_height}
use craft_osos.Display.Bounds.{Sized}
use craft_osos.Term.{put_cell, next, text_loop}

-- The character and the colours in a row and column.
abbrev pub cell : Terminal → ℕ → ℕ → ℕ × ℕ
cell t row col =
    (get_or t.characters (row * term_width + col) 0, get_or t.colors (row * term_width + col) 0)

-- What a text that starts at column x has in column `col`.
unfoldable pub text_at : ℤ → List (ℕ × ℕ) → ℕ → Option (ℕ × ℕ)
text_at (negsuc n) cs col = get_elem? cs (col + suc n)
text_at (pos x) cs col = if ltb col x then none else get_elem? cs (col - x)

abbrev pub or_else : Option (ℕ × ℕ) → ℕ × ℕ → ℕ × ℕ
or_else none c = c
or_else (some d) c = d

-- The cell after a text is written from column x of row y.
abbrev pub overlaid : ℕ → ℤ → List (ℕ × ℕ) → Terminal → ℕ → ℕ → ℕ × ℕ
overlaid y x cs t row col =
    if row == y then or_else (text_at x cs col) (cell t row col) else cell t row col

text_at-nil : (x : ℤ) (col : ℕ) → text_at x [] col ≡ none
unfolding text_at
text_at-nil (negsuc n) col = refl
text_at-nil (pos x) col = ground arith

text_at-before :
    (n : ℕ) (c : ℕ × ℕ) (cs : List (ℕ × ℕ)) (col : ℕ)
    → text_at (negsuc n) (c ∷ cs) col ≡ text_at (next (negsuc n)) cs col
unfolding text_at
text_at-before zero c cs col =
    ap (get_elem? (c ∷ cs)) {y = suc col} (omega arith)
    ∙ sym (rw (le→ltb col 0 (omega arith)) (ap (get_elem? cs) {y = col} (omega arith)))
text_at-before (suc n) c cs col = ap (get_elem? (c ∷ cs)) {y = suc (col + suc n)} (omega arith)

text_at-here : (x : ℕ) (c : ℕ × ℕ) (cs : List (ℕ × ℕ)) → text_at (pos x) (c ∷ cs) x ≡ some c
unfolding text_at
text_at-here x c cs = rw (le→ltb x x (omega arith)) (ap (get_elem? (c ∷ cs)) {y = 0} (omega arith))

text_at-left : (x : ℕ) (cs : List (ℕ × ℕ)) (col : ℕ) → col < x → text_at (pos x) cs col ≡ none
unfolding text_at
text_at-left x cs col h = rw (lt→ltb col x h)

text_at-right :
    (x : ℕ) (c : ℕ × ℕ) (cs : List (ℕ × ℕ)) (col : ℕ)
    → x < col
    → text_at (pos x) (c ∷ cs) col ≡ text_at (pos (suc x)) cs col
unfolding text_at
text_at-right x c cs col h =
    rw (le→ltb col x (omega arith), le→ltb col (suc x) h)
      (ap (get_elem? (c ∷ cs)) {y = suc (col - suc x)} (omega arith))

-- The state after a loop of cells: new text in the same sizes, with these cells.
pub record Wrote (y : ℕ) (x : ℤ) (cs : List (ℕ × ℕ)) (t : Terminal) (o : Option Terminal)
    : Type 0 where
  pub characters : List ℕ
  pub colors : List ℕ
  pub returns : o ≡ some (record t { characters = characters; colors = colors })
  pub sized : Sized (record t { characters = characters; colors = colors })
  pub same :
      (row col : ℕ)
      → col < term_width
      → cell (record t { characters = characters; colors = colors }) row col
        ≡ overlaid y x cs t row col

overlaid-none :
    (y : ℕ) (x : ℤ) (cs : List (ℕ × ℕ)) (t : Terminal) (row col : ℕ)
    → text_at x cs col ≡ none
    → cell t row col ≡ overlaid y x cs t row col
overlaid-none y x cs t row col e = elim (Bool-cases (row == y)) [ inl h ↦ rw (h, e) | inr h ↦ rw h ]

module _ (y x : ℕ) (c : ℕ × ℕ) (t : Terminal) where
  abbrev with_cell : Terminal
  with_cell = record t {
    characters = set t.characters (y * term_width + x) c.0;
    colors = set t.colors (y * term_width + x) c.1;
  }

  cell-put_ne :
      (row col : ℕ)
      → y * term_width + x ≢ row * term_width + col
      → cell with_cell row col ≡ cell t row col
  cell-put_ne row col ne =
      rw (get_or-set_ne t.characters _ _ c.0 0 ne, get_or-set_ne t.colors _ _ c.1 0 ne)

  cell-put_self : Sized t → y < term_height → x < term_width → cell with_cell y x ≡ c
  cell-put_self s hy hx = rw (
    get_or-set_self t.characters (y * term_width + x) c.0 0 (omega (arith, s.characters)),
    get_or-set_self t.colors (y * term_width + x) c.1 0 (omega (arith, s.colors)),
  )

put_cell-runs :
    (y x : ℕ) (c : ℕ × ℕ) (t : Terminal)
    → y < term_height
    → x < term_width
    → put_cell (pos y) x c t ≡ some (with_cell y x c t)
unfolding put_cell
put_cell-runs y x c t hy hx =
    rw (lt→ltb (y * term_width + x) (term_width * term_height) (omega arith))

-- One cell more in front, in column x of the screen.
overlaid-put :
    (y x : ℕ) (c : ℕ × ℕ) (cs : List (ℕ × ℕ)) (t : Terminal) (row col : ℕ)
    → Sized t
    → y < term_height
    → x < term_width
    → col < term_width
    → overlaid y (pos (suc x)) cs (with_cell y x c t) row col
      ≡ overlaid y (pos x) (c ∷ cs) t row col
overlaid-put y x c cs t row col s hy hx hc = elim (Bool-cases (row == y)) [
  | inr h ↦
      (let ne : y * term_width + x ≢ row * term_width + col = λ e. ground (arith, h) in
        rw (h, cell-put_ne y x c t row col ne))
  | inl h ↦
      (let ey : row ≡ y = ground (arith, h) in
        elim (dec_lt col x) [
          | yes l ↦
              (let ne : y * term_width + x ≢ row * term_width + col = λ e. omega arith in
                rw (
                  h,
                  text_at-left (suc x) cs col (omega arith),
                  text_at-left x (c ∷ cs) col l,
                  cell-put_ne y x c t row col ne,
                ))
          | no l ↦ elim (dec_lt x col) [
            | yes r ↦
                (let ne : y * term_width + x ≢ row * term_width + col = λ e. omega arith in
                  rw (h, text_at-right x c cs col r, cell-put_ne y x c t row col ne))
            | no r ↦
                (let ec : col ≡ x = omega arith in
                  rw (
                    h,
                    text_at-left (suc x) cs col (omega arith),
                    ec,
                    text_at-here x c cs,
                    ey,
                    cell-put_self y x c t s hy hx,
                  ))
          ]
        ])
]

pub text_loop-Wrote :
    (y : ℕ) (x : ℤ) (cs : List (ℕ × ℕ)) (t : Terminal)
    → Sized t
    → y < term_height
    → Wrote y x cs t (text_loop (pos y) x cs t)
unfolding text_loop
text_loop-Wrote y x [] t s hy = record {
  characters = t.characters;
  colors = t.colors;
  returns = refl;
  sized = s;
  same = λ row col h. overlaid-none y x [] t row col (text_at-nil x col);
}
text_loop-Wrote y (negsuc n) (c ∷ cs) t s hy =
    let rest = text_loop-Wrote y (next (negsuc n)) cs t s hy in
    record {
      characters = rest.characters;
      colors = rest.colors;
      returns = rest.returns;
      sized = rest.sized;
      same = λ row col h. rw (text_at-before n c cs col) (rest.same row col h);
    }
text_loop-Wrote y (pos x) (c ∷ cs) t s hy = elim (dec_lt x term_width) [
  | no h ↦ record {
    characters = t.characters;
    colors = t.colors;
    returns = rw (le→ltb x term_width (omega arith));
    sized = s;
    same = λ row col hc.
        overlaid-none y (pos x) (c ∷ cs) t row col (text_at-left x (c ∷ cs) col (omega arith));
  }
  | yes h ↦
      (let i = y * term_width + x in
        let rest =
          text_loop-Wrote y (pos (suc x)) cs (with_cell y x c t)
            (record {
              characters = length-set t.characters i c.0 ∙ s.characters;
              colors = length-set t.colors i c.1 ∙ s.colors;
            })
            hy in
        record {
          characters = rest.characters;
          colors = rest.colors;
          returns = rw (lt→ltb x term_width h, put_cell-runs y x c t hy h) rest.returns;
          sized = record { characters = rest.sized.characters; colors = rest.sized.colors };
          same = λ row col hc. rest.same row col hc ∙ overlaid-put y x c cs t row col s hy h hc;
        })
]
