-- ===== src/Term/Tests.antt =====
-- The terminal at concrete states.
use craft_osos.Base.{
  inl, inr, ℕ, zero, suc, ◌^◌, ◌≡◌, Bool, true, false, none, some, List, [], ◌∷◌, refl, arith,
  replicate, length-replicate, ap, ◌/◌, ◌<◌, ltb, ◌==◌, ==_iff, if◌then◌else◌, first_pass,
  of_first_pass,
}
use craft_osos.Base.Int.{ℤ, pos, negsuc, to_int}
use craft_osos.Lua.{Value, integer, text}
use craft_osos.Lua.Plain.{plain, to_integer, to_text}
use craft_osos.Display.{Terminal}
use craft_osos.Display.Bounds.{Sized}
use craft_osos.Term.{cells, term_write, term_blit, drawn, term_scroll, term_clear_line}
use craft_osos.Term.InColors.{colored, written_all, term_blit-Written}
use craft_osos.Term.Write.{Written, term_blit-below}
use craft_osos.Term.Scroll.{Scrolled, term_scroll-Scrolled}
use craft_osos.Term.Clear.{Cleared, term_clear_line-Cleared}

abbrev no_font : ℕ → Bool
no_font i = false

abbrev start : ℤ → ℤ → Terminal
start x y = record {
  characters = replicate cells b' ';
  colors = replicate cells 0xF0;
  current_colors = 0xF0;
  cursor_x = x;
  cursor_y = y;
  cursor_blink = true;
  cursor_show = true;
  pixel_buffer = λ i off. 0xFF;
  io = [];
}

start-Sized : (x y : ℤ) → Sized (start x y)
start-Sized x y = record {
  characters = length-replicate {A = ℕ} cells b' ';
  colors = length-replicate {A = ℕ} cells 0xF0;
}

abbrev hello : List Value
hello = text (b'h' ∷ b'e' ∷ b'y' ∷ []) ∷ []

abbrev blit_args : List Value
blit_args = text (b'h' ∷ b'i' ∷ []) ∷ text (b'0' ∷ b'e' ∷ []) ∷ text (b'f' ∷ b'f' ∷ []) ∷ []

term_blit-Written_example :
    (t' : Terminal) × (term_blit no_font plain blit_args (start (pos 51) (pos 25))
      ≡ some (drawn t'))
    × Written 25 ((b'h', 0xF0) ∷ (b'i', 0xFE) ∷ []) (start (pos 51) (pos 25)) t'
unfolding plain to_text
term_blit-Written_example =
    term_blit-Written no_font plain blit_args (start (pos 51) (pos 25)) 25
      ((b'h', 0xF0) ∷ (b'i', 0xFE) ∷ []) (start-Sized (pos 51) (pos 25))
      (record { line = refl; on_line = omega arith; inside = omega arith })
      (colored b'h' b'0' b'f' 0xF0 _ _ _ _
        (inl (0, 15, inl (omega arith, refl), inl (inr (omega arith, omega arith, refl)), refl))
        (colored b'i' b'e' b'f' 0xFE _ _ _ _
          (inl (
            14,
            15,
            inr (omega arith, omega arith, refl),
            inl (inr (omega arith, omega arith, refl)),
            refl,
          ))
          written_all))

term_blit-below_example :
    (term_blit no_font plain blit_args (start (pos 0) (pos 26)) ≡ none)
    × (term_write no_font plain blit_args (start (pos 0) (pos 26)) ≡ some (start (pos 0) (pos 26)))
unfolding plain to_text
term_blit-below_example =
    term_blit-below no_font plain blit_args (start (pos 0) (pos 26)) 0 26 refl (omega arith) refl
      (omega arith) refl refl (omega arith)

term_scroll-Scrolled_example :
    (t' : Terminal) × (term_scroll no_font plain (integer (negsuc 2) ∷ []) (start (pos 0) (pos 0))
      ≡ some t')
    × Scrolled (to_int (plain.to_integer (integer (negsuc 2)))) (start (pos 0) (pos 0)) t'
unfolding plain to_integer
term_scroll-Scrolled_example =
    term_scroll-Scrolled no_font plain (integer (negsuc 2) ∷ []) (start (pos 0) (pos 0))
      (start-Sized (pos 0) (pos 0)) (omega arith)

term_clear_line-Cleared_example :
    (t' : Terminal) × (term_clear_line no_font (start (pos 3) (pos 4)) ≡ some t')
    × Cleared (start (pos 3) (pos 4)) t'
term_clear_line-Cleared_example =
    term_clear_line-Cleared no_font (start (pos 3) (pos 4)) (start-Sized (pos 3) (pos 4))

-- The logarithm of a number below 2 ^ 17, rounded down.
halvings : ℕ → ℕ → ℕ
halvings zero n = 0
halvings (suc fuel) n = let rest = halvings fuel (n / 2) in if ltb n 2 then 0 else suc rest

log2_of : ℤ → ℤ
unfolding halvings
log2_of (pos n) = pos (halvings 16 n)
log2_of (negsuc n) = pos 0

exact : ℕ → Bool
unfolding halvings
exact k = halvings 16 (2 ^ k) == k

exact_table : first_pass exact 16 ≡ true
unfolding exact first_pass halvings
exact_table = refl

log2_of-power : (k : ℕ) → k < 16 → log2_of (pos (2 ^ k)) ≡ pos k
unfolding log2_of exact
log2_of-power k h =
    ap pos {y = k} ((==_iff (halvings 16 (2 ^ k)) k).0 (of_first_pass exact k 16 h exact_table))

abbrev green : List Value
green = integer (pos 0x2000) ∷ []
