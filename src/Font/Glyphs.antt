-- ===== src/Font/Glyphs.antt =====
-- The pixels of a glyph: where they are in `header_data`, and that they tell the characters apart.
use craft_osos.Base.{
  ℕ, zero, suc, ◌+◌, ◌-◌, ◌*◌, ◌/◌, ◌%◌, ◌^◌, ◌≤◌, ◌<◌, ◌≡◌, Bool, true, false, ◌||◌, Option, none,
  some, List, [], ◌∷◌, ◌==◌, ◌⊎◌, not, arith, refl, ap, ◌∙◌, first_pass, of_first_pass, map, ◌++◌,
  ==_iff, replicate, if◌then◌else◌,
}
use craft_osos.Display.{bitmap_row, pixel}
use craft_osos.Font.{header_data, font_pixel, pixel_index}

abbrev has_entry : ℕ → Bool
has_entry i = elim (header_data i) [ none ↦ false | some e ↦ e == 0 || e == 15 ]

all_entries : first_pass has_entry 13824 ≡ true
unfolding first_pass header_data
all_entries = refl

entry_in :
    (o : Option ℕ)
    → (elim o [ none ↦ false | some e ↦ e == 0 || e == 15 ]) ≡ true
    → (e : ℕ) × (o ≡ some e) × ((e ≡ 0) ⊎ (e ≡ 15))
entry_in none h = ground arith
entry_in (some e) h = (e, refl, ground arith)

entry_below : (i : ℕ) → i < 13824 → (e : ℕ) × (header_data i ≡ some e) × ((e ≡ 0) ⊎ (e ≡ 15))
entry_below i h = entry_in (header_data i) (of_first_pass has_entry i 13824 h all_entries)

-- For every character and every pixel of its 6 by 9 cell, `header_data` has an entry at the index
-- that `blit_line` computes, which is 0 or 15, and the index is that of no other character or
-- pixel.
pub pixel_index-entry :
    (ch py px : ℕ)
    → ch < 256
    → py < 9
    → px < 6
    → ((e : ℕ) × (header_data (pixel_index ch py px) ≡ some e) × ((e ≡ 0) ⊎ (e ≡ 15)))
      × ((ch' py' px' : ℕ)
          → py' < 9
          → px' < 6
          → pixel_index ch' py' px' ≡ pixel_index ch py px
          → (ch' ≡ ch) × (py' ≡ py) × (px' ≡ px))
pixel_index-entry ch py px h hy hx = (
  entry_below (pixel_index ch py px) (omega arith),
  λ ch' py' px' hy' hx' e. (omega arith, omega arith, omega arith),
)

-- The pixels of cells in their background colours.
abbrev pub background : List ℕ → List ℕ
background [] = []
background (col ∷ cols) = replicate 12 (col / 16) ++ background cols

-- The first `n` pixels of a glyph as a number, and what it is for the printable characters.
mark : Option ℕ → ℕ
mark none = 0
mark (some e) = if e == 0 then 0 else 1

glyph_code : ℕ → ℕ → ℕ
glyph_code ch zero = 0
glyph_code ch (suc n) =
    glyph_code ch n + mark (header_data (pixel_index ch (n / 6) (n % 6))) * 2 ^ n

abbrev printable_codes : List ℕ
printable_codes =
    0x0 ∷ 0x4004104104 ∷ 0xA514 ∷ 0xA29F29F28A ∷ 0x43D0381784 ∷ 0x11482108251 ∷ 0x1624D584284
    ∷ 0x4208 ∷ 0x18102082118 ∷ 0x6210410206 ∷ 0x12312000 ∷ 0x1047C4100 ∷ 0x104100000000 ∷ 0x7C0000
    ∷ 0x4100000000 ∷ 0x1082108210 ∷ 0xE45355944E ∷ 0x1F104104184 ∷ 0x1F44231044E ∷ 0xE45031044E
    ∷ 0x1041F452518 ∷ 0xE45040F05F ∷ 0xE4513C108C ∷ 0x410421045F ∷ 0xE45139144E ∷ 0x621079144E
    ∷ 0x4100004100 ∷ 0x104100004100 ∷ 0x10204084210 ∷ 0x7C001F000 ∷ 0x2108408102 ∷ 0x400421044E
    ∷ 0x1E07DB6D85E ∷ 0x1145145F44E ∷ 0xF45144F44F ∷ 0xE44104144E ∷ 0xF45145144F ∷ 0x1F04104705F
    ∷ 0x104104705F ∷ 0xE45145905E ∷ 0x1145145F451 ∷ 0xE10410410E ∷ 0xE450410410 ∷ 0x11451247251
    ∷ 0x1F041041041 ∷ 0x114514556D1 ∷ 0x114516554D1 ∷ 0xE45145144E ∷ 0x104104F44F ∷ 0x1625145144E
    ∷ 0x1145144F44F ∷ 0xE45040E05E ∷ 0x410410411F ∷ 0xE451451451 ∷ 0x428A451451 ∷ 0x116D5451451
    ∷ 0x11451284291 ∷ 0x4104104291 ∷ 0x1F04210841F ∷ 0xE08208208E ∷ 0x10208102081 ∷ 0xE20820820E
    ∷ 0x11284 ∷ 0x7C0000000000 ∷ 0x8104 ∷ 0x1E45E40E000 ∷ 0xF4514CD041 ∷ 0xE44144E000
    ∷ 0x1E451656410 ∷ 0x1E05F44E000 ∷ 0x410411E118 ∷ 0x3D079145E000 ∷ 0x114514CD041 ∷ 0x4104104004
    ∷ 0x391450410010 ∷ 0x12286292082 ∷ 0x8104104104 ∷ 0x1145554B000 ∷ 0x1145144F000 ∷ 0xE45144E000
    ∷ 0x413D14CD000 ∷ 0x410791656000 ∷ 0x10414CD000 ∷ 0xF40E05E000 ∷ 0x810410E104 ∷ 0x1E451451000
    ∷ 0x4291451000 ∷ 0x1E555451000 ∷ 0x11284291000 ∷ 0x3D0791451000 ∷ 0x1F08421F000 ∷ 0x18104084118
    ∷ 0x4104104104 ∷ 0x6208408206 ∷ 0x666 ∷ []

position : List ℕ → ℕ → ℕ
position [] c = 0
position (x ∷ xs) c = if c == x then 0 else suc (position xs c)

abbrev is_decoded : ℕ → Bool
is_decoded k = position printable_codes (glyph_code (k + 32) 54) == k

all_decoded : first_pass is_decoded 95 ≡ true
unfolding first_pass header_data position glyph_code mark
all_decoded = refl

abbrev pub SameGlyph : ℕ → ℕ → Type 0
SameGlyph a b =
    (py px : ℕ)
    → py < 9
    → px < 6
    → header_data (pixel_index a py px) ≡ header_data (pixel_index b py px)

glyph_code-same : (a b n : ℕ) → n ≤ 54 → SameGlyph a b → glyph_code a n ≡ glyph_code b n
unfolding glyph_code
glyph_code-same a b zero h same = refl
glyph_code-same a b (suc n) h same =
    rw (glyph_code-same a b n (omega arith) same, same (n / 6) (n % 6) (omega arith) (omega arith))

decoded_from : (k : ℕ) → k < 95 → position printable_codes (glyph_code (k + 32) 54) ≡ k
decoded_from k h =
    let (to, _) = ==_iff (position printable_codes (glyph_code (k + 32) 54)) k in
    to (of_first_pass is_decoded k 95 h all_decoded)

decoded : (a : ℕ) → 32 ≤ a → a < 127 → position printable_codes (glyph_code a 54) ≡ a - 32
decoded a h h' =
    ap (λ n. position printable_codes (glyph_code n 54)) {x = a} {y = a - 32 + 32} (omega arith)
    ∙ decoded_from (a - 32) (omega arith)

-- Two printable ASCII characters whose glyphs have the same pixels are the same character.
pub SameGlyph-eq : (a b : ℕ) → 32 ≤ a → a < 127 → 32 ≤ b → b < 127 → SameGlyph a b → a ≡ b
SameGlyph-eq a b ha ha' hb hb' same =
    let code = glyph_code-same a b 54 (omega arith) same in
    omega (arith, decoded a ha ha', decoded b hb hb', ap (position printable_codes) code)

-- A character with no pixel set, as the space, is drawn in its background colour alone.
blank_pixel : ℕ → Bool
blank_pixel k = not (font_pixel (pixel_index b' ' (k / 6) (k % 6)))

all_blank : first_pass blank_pixel 54 ≡ true
unfolding first_pass font_pixel header_data blank_pixel
all_blank = refl

of_not : (b : Bool) → not b ≡ true → b ≡ false
of_not true h = ground arith
of_not false h = refl

space_pixel : (py px : ℕ) → py < 9 → px < 6 → font_pixel (pixel_index b' ' py px) ≡ false
unfolding blank_pixel
space_pixel py px hy hx =
    let k = py * 6 + px in
    ap font_pixel {x = pixel_index b' ' py px} {y = pixel_index b' ' (k / 6) (k % 6)} (omega arith)
    ∙ of_not (font_pixel (pixel_index b' ' (k / 6) (k % 6)))
        (of_first_pass blank_pixel k 54 (omega arith) all_blank)

-- A line of spaces, such as the ones `term_clear` leaves, is drawn in the background colours of its
-- cells alone: in every row of pixels, 12 of them for each cell.
pub bitmap_row-blank :
    (cols : List ℕ) (py : ℕ)
    → py < 18
    → bitmap_row font_pixel (map (λ col. (b' ', col)) cols) py ≡ background cols
bitmap_row-blank [] py h = refl
bitmap_row-blank (col ∷ cols) py h =
    let none_set : (px : ℕ) → px < 6 → pixel font_pixel (b' ', col) (py / 2) px ≡ col / 16 =
      λ px k. rw (space_pixel (py / 2) px (omega arith) k) in
    rw (
      none_set 0 (omega arith),
      none_set 1 (omega arith),
      none_set 2 (omega arith),
      none_set 3 (omega arith),
      none_set 4 (omega arith),
      none_set 5 (omega arith),
      bitmap_row-blank cols py h,
    )
