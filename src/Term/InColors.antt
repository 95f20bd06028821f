-- ===== src/Term/InColors.antt =====
-- `term_blit`: the colours of its cells, said without `hexch` and the shifts of the function.
use craft_osos.Base.{
  ℕ, suc, ◌+◌, ◌*◌, ◌%◌, ◌^◌, ◌-◌, ◌<◌, ◌≤◌, ◌≡◌, ◌⊎◌, inl, inr, bit_or, Bool, some, List, [], ◌∷◌,
  length, arith, refl, sym, ap, ◌∙◌,
}
use craft_osos.Base.Bits.{bit_or_disjoint, bit_or-complement, bit_and-le}
use craft_osos.Base.Int.{pos, negsuc, to_unsigned}
use craft_osos.Lua.{Value, Api}
use craft_osos.Display.{Terminal}
use craft_osos.Display.Bounds.{Sized}
use craft_osos.Term.{string_arg, term_blit, drawn, blit_cells, blit_color, hexch}
use craft_osos.Term.Write.{Writable, Written, term_blit-cells}

-- A digit of base 16, the letters small, and its value.
abbrev pub Hex : ℕ → ℕ → Type 0
Hex c n = ((n < 10) × (c ≡ b'0' + n)) ⊎ ((10 ≤ n) × (n < 16) × (c + 10 ≡ b'a' + n))

abbrev pub NotHex : ℕ → Type 0
NotHex c = ((c < b'0') ⊎ (b'9' < c)) × ((c < b'a') ⊎ (b'f' < c))

-- The byte of a text colour and a background colour: the text colour in the low four bits. What is
-- not a digit is white as a background, and as a text colour makes both the last one.
abbrev pub IsColor : ℕ → ℕ → ℕ → Type 0
IsColor f b color =
    ((m n : ℕ) × Hex f m × (Hex b n ⊎ (NotHex b × (n ≡ 15))) × (color ≡ m + 16 * n))
    ⊎ (NotHex f × (color ≡ 255))

-- The cells of a text with its text colours and its background colours.
pub data Colored : List ℕ → List ℕ → List ℕ → List (ℕ × ℕ) → Type 0 where
  written_all : Colored [] [] [] []
  colored :
      (c f b color : ℕ) (cs fs bs : List ℕ) (cells : List (ℕ × ℕ))
      → IsColor f b color
      → Colored cs fs bs cells
      → Colored (c ∷ cs) (f ∷ fs) (b ∷ bs) ((c, color) ∷ cells)

hexch-Hex : (c n : ℕ) → Hex c n → hexch c ≡ pos n
hexch-Hex c n h = ground arith

hexch-NotHex : (c : ℕ) → NotHex c → hexch c ≡ negsuc 0
hexch-NotHex c h = ground arith

Hex-lt : (c n : ℕ) → Hex c n → n < 16
Hex-lt c n h = ground arith

or_all : (x : ℕ) → x < 256 → bit_or 255 x ≡ 255
or_all x h =
    ap (bit_or 255) {x = x} {y = 2 ^ 8 - 1 - (255 - x)} (omega arith)
    ∙ bit_or-complement 8 0 (255 - x) (omega arith) (omega arith)
    ∙ omega (arith, bit_and-le 0 (255 - x))

both : (m n : ℕ) → m < 16 → n < 16 → bit_or (m % 256) (n % 256 * 16 % 256) ≡ m + 16 * n
both m n hm hn =
    ap (λ k. bit_or k (n % 256 * 16 % 256)) {x = m % 256} {y = m} (omega arith)
    ∙ ap (bit_or m) {x = n % 256 * 16 % 256} {y = n * 2 ^ 4} (omega arith)
    ∙ bit_or_disjoint 4 m n (omega arith)
    ∙ omega arith

background :
    (b n : ℕ)
    → Hex b n ⊎ (NotHex b × (n ≡ 15))
    → (n < 16) × (to_unsigned 8 (hexch b) * 16 % 256 ≡ n % 256 * 16 % 256)
background b n (inl h) = (Hex-lt b n h, ap (λ z. to_unsigned 8 z * 16 % 256) (hexch-Hex b n h))
background b n (inr (h, last)) =
    (omega arith, ap (λ z. to_unsigned 8 z * 16 % 256) (hexch-NotHex b h) ∙ omega arith)

blit_color-IsColor : (f b color : ℕ) → IsColor f b color → blit_color f b ≡ color
blit_color-IsColor f b color (inl (m, n, digit, back, sum)) =
    let (small, e) = background b n back in
    ap (λ z. bit_or (to_unsigned 8 z) (to_unsigned 8 (hexch b) * 16 % 256)) (hexch-Hex f m digit)
    ∙ ap (bit_or (m % 256)) e
    ∙ both m n (Hex-lt f m digit) small
    ∙ sym sum
blit_color-IsColor f b color (inr (none_such, all)) =
    ap (λ z. bit_or (to_unsigned 8 z) (to_unsigned 8 (hexch b) * 16 % 256))
      (hexch-NotHex f none_such)
    ∙ or_all (to_unsigned 8 (hexch b) * 16 % 256) (omega arith)
    ∙ sym all

blit_cells-Colored :
    (str fg bg : List ℕ) (cells : List (ℕ × ℕ))
    → Colored str fg bg cells
    → (length str ≡ length fg) × (length fg ≡ length bg) × (blit_cells str fg bg ≡ cells)
blit_cells-Colored _ _ _ _ written_all = (refl, refl, refl)
blit_cells-Colored _ _ _ _ (colored c f b color cs fs bs cells is more) =
    let (as_many, and_backs, same) = blit_cells-Colored cs fs bs cells more in
    (
      ap suc as_many,
      ap suc and_backs,
      ap (λ k. (c, k) ∷ blit_cells cs fs bs) (blit_color-IsColor f b color is)
          ∙ ap (λ l. (c, color) ∷ l) same,
    )

-- For texts of one length `term_blit` returns and writes every character of the first in the colours
-- that the second and the third give it: the text colour is the value of the hexadecimal digit of the
-- second (with small letters), the background colour that of the third, 15 for what is not a digit,
-- and a text colour that is not a digit sets both to 15. The cells of the line that the text covers
-- hold these, also with a start to the left of the screen, all others stay, and the cursor moves by
-- the length of the text. The cursor is on a line of the screen, not to the right of it, and the text
-- buffers have the size of the screen.
pub term_blit-Written :
    (font : ℕ → Bool) (api : Api) (args : List Value) (t : Terminal) (y : ℕ) (cells : List (ℕ × ℕ))
    → Sized t
    → Writable t y
    → Colored (string_arg api args 1) (string_arg api args 2) (string_arg api args 3) cells
    → (t' : Terminal) × (term_blit font api args t ≡ some (drawn t')) × Written y cells t t'
term_blit-Written font api args t y cells s w colors =
    let (as_many, and_backs, same) =
      blit_cells-Colored (string_arg api args 1) (string_arg api args 2) (string_arg api args 3)
        cells colors in
    let (t', runs, written) = term_blit-cells font api args t y s w as_many and_backs in
    (t', runs, rw same at written)
