-- ===== src/Term/Colors.antt =====
-- The text colour and the background colour, which share one byte.
use craft_osos.Base.{
  ℕ, ◌+◌, ◌*◌, ◌/◌, ◌%◌, ◌^◌, ◌<◌, ◌≡◌, bit_and, bit_or, List, [], ◌∷◌, arith, ◌∙◌,
}
use craft_osos.Base.Bits.{bit_and-mask, bit_and_shifted, bit_or_high, bit_or_disjoint}
use craft_osos.Base.Int.{ℤ, pos, to_unsigned}
use craft_osos.Lua.{Value, integer, Api}
use craft_osos.Display.{Terminal}
use craft_osos.Term.{
  term_set_text_color, term_set_background_color, term_get_text_color, term_get_background_color,
}

-- The high half of a byte, in its place.
high_half : (c : ℕ) → c < 256 → bit_and c 0xF0 ≡ c / 16 * 16
high_half c h = bit_and_shifted 4 c 0xF ∙ omega (arith, bit_and-mask 4 (c / 16))

low_half : (c : ℕ) → bit_and c 0x0F ≡ c % 16
low_half c = bit_and-mask 4 c

with_text :
    (c k : ℕ) → c < 256 → k < 16 → bit_or (bit_and c 0xF0) (bit_and k 0x0F) ≡ c / 16 * 16 + k
with_text c k h hk =
    let low : bit_and k 0x0F ≡ k = low_half k ∙ omega arith in
    rw (high_half c h, low) (bit_or_high 4 (c / 16) k (omega arith))

with_background :
    (c k : ℕ) → k < 16 → bit_or (bit_and c 0x0F) (bit_and (k * 16 % 2 ^ 32) 0xF0) ≡ c % 16 + k * 16
with_background c k hk =
    let high : bit_and (k * 16 % 2 ^ 32) 0xF0 ≡ k * 16 =
      high_half (k * 16 % 2 ^ 32) (omega arith) ∙ omega arith in
    rw (low_half c, high) (bit_or_disjoint 4 (c % 16) k (omega arith))

module _ (int_log2 : ℤ → ℤ) (log2-power : (k : ℕ) → k < 16 → int_log2 (pos (2 ^ k)) ≡ pos k)
    (api : Api) (t : Terminal) (byte : t.current_colors < 256) (k : ℕ) (is_color : k < 16) where
  abbrev pub one_color : List Value
  one_color = integer (pos (2 ^ k)) ∷ []

  -- Each of the 16 colours that `term_setTextColor` sets is what `term_getTextColor` gives back,
  -- and the background colour stays; `log2` is assumed to be exact on their powers of two, and the
  -- colours to be a byte.
  pub set_text_color-get :
      (term_get_text_color (term_set_text_color int_log2 api one_color t) ≡ one_color)
      × (term_get_background_color (term_set_text_color int_log2 api one_color t)
          ≡ term_get_background_color t)
  unfolding term_get_text_color term_get_background_color term_set_text_color
  set_text_color-get =
      let n : to_unsigned 32 (pos k) ≡ k = omega arith in
      let c = t.current_colors in
      let low : bit_and (c / 16 * 16 + k) 0x0F ≡ k = low_half (c / 16 * 16 + k) ∙ omega arith in
      let high : (c / 16 * 16 + k) / 16 ≡ c / 16 = omega arith in
      (
        rw (api.to_integer-integer, log2-power k is_color, n, with_text c k byte is_color, low),
        rw (api.to_integer-integer, log2-power k is_color, n, with_text c k byte is_color, high),
      )

  -- Each of the 16 colours that `term_setBackgroundColor` sets is what `term_getBackgroundColor`
  -- gives back, and the text colour stays; `log2` is assumed to be exact on their powers of two,
  -- and the colours to be a byte.
  pub set_background_color-get :
      (term_get_background_color (term_set_background_color int_log2 api one_color t) ≡ one_color)
      × (term_get_text_color (term_set_background_color int_log2 api one_color t)
          ≡ term_get_text_color t)
  unfolding term_get_text_color term_get_background_color term_set_background_color
  set_background_color-get =
      let n : to_unsigned 32 (pos k) ≡ k = omega arith in
      let c = t.current_colors in
      let high : (c % 16 + k * 16) / 16 ≡ k = omega arith in
      let low : bit_and (c % 16 + k * 16) 0x0F ≡ bit_and c 0x0F =
        low_half (c % 16 + k * 16) ∙ omega (arith, low_half c) in
      (
        rw (api.to_integer-integer, log2-power k is_color, n, with_background c k is_color, high),
        rw (api.to_integer-integer, log2-power k is_color, n, with_background c k is_color, low),
      )
