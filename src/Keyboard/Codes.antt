-- ===== src/Keyboard/Codes.antt =====
-- The key codes that `ps2tocc` gives.
use craft_osos.Base.{ℕ, ◌<◌, ◌≡◌, ◌≢◌, ◌/◌, ◌%◌, ◌^◌, ◌+◌, ◌*◌, Bool, true, ◌&&◌, refl, arith, ◌∙◌}
use craft_osos.Base.{bit_and, bit_or, ◌==◌, ==_ne, first_pass, of_first_pass}
use craft_osos.Base.Bits.{bit_and-mask, bit_and_shifted, bit_and-div, bit_or_high}
use craft_osos.Keyboard.{ps2tocc}

codes_agree : ℕ → Bool
codes_agree c =
    (ps2tocc c == c)
    && (ps2tocc (c + 0x80) == c)
    && (ps2tocc (bit_or 0xE000 c) == c + 0x80)
    && (ps2tocc (bit_or 0xE000 (c + 0x80)) == c + 0x80)

codes_table : first_pass codes_agree 128 ≡ true
unfolding first_pass codes_agree ps2tocc
codes_table = refl

-- A key has one code, whether it is pressed or released: its scan code, and 128 more for a key
-- whose code comes behind 0xE0.
pub ps2tocc_codes :
    (c : ℕ)
    → c < 128
    → (ps2tocc c ≡ c)
      × (ps2tocc (c + 0x80) ≡ c)
      × (ps2tocc (bit_or 0xE000 c) ≡ c + 0x80)
      × (ps2tocc (bit_or 0xE000 (c + 0x80)) ≡ c + 0x80)
unfolding codes_agree
ps2tocc_codes c h =
    let table = of_first_pass codes_agree c 128 h codes_table in ground (arith, table)

-- The `int` that `getkey` makes of the two bytes behind 0xE1.
abbrev pub after_e1 : ℕ → ℕ → ℕ
after_e1 hi lo = bit_or (bit_or 0xE00000 (hi * 2 ^ 8)) lo

after_e1-sum : (hi lo : ℕ) → hi < 256 → lo < 256 → after_e1 hi lo ≡ (0xE000 + hi) * 2 ^ 8 + lo
after_e1-sum hi lo h l =
    let first : bit_or 0xE00000 (hi * 2 ^ 8) ≡ (0xE000 + hi) * 2 ^ 8 =
      bit_or_high 16 0xE0 (hi * 2 ^ 8) (omega arith) ∙ omega arith in
    rw first (bit_or_high 8 (0xE000 + hi) lo l)

second_byte :
    (hi lo : ℕ) → hi < 256 → lo < 256 → bit_and ((0xE000 + hi) * 2 ^ 8 + lo) 0xFF00 ≡ hi * 256
second_byte hi lo h l =
    let n = (0xE000 + hi) * 2 ^ 8 + lo in
    bit_and_shifted 8 n 0xFF ∙ omega (arith, bit_and-mask 8 (n / 2 ^ 8))

third_byte :
    (hi lo : ℕ) → hi < 256 → lo < 256 → bit_and ((0xE000 + hi) * 2 ^ 8 + lo) 0xFF7F7F ≢ 0xE11D45
third_byte hi lo h l e =
    let n = (0xE000 + hi) * 2 ^ 8 + lo in
    let high : n / 2 ^ 16 ≡ 0xE0 = omega arith in
    let places : bit_and n 0xFF7F7F / 2 ^ 16 ≡ bit_and 0xE0 0xFF = rw (bit_and-div, high) in
    omega arith

-- Two bytes behind 0xE1, the first of them not 0xE0, never give 197, the code of the Pause key: the
-- test in `ps2tocc` is for 0xE1 in a place where `getkey` has put 0xE0. The code is that of the
-- second byte alone.
pub ps2tocc-after_e1 :
    (hi lo : ℕ)
    → hi < 256
    → lo < 256
    → hi ≢ 0xE0
    → (ps2tocc (after_e1 hi lo) ≡ lo % 128) × (ps2tocc (after_e1 hi lo) ≢ 197)
unfolding ps2tocc
ps2tocc-after_e1 hi lo h l ne =
    let n = (0xE000 + hi) * 2 ^ 8 + lo in
    let no = ==_ne (bit_and n 0xFF00) 0xE000 (rw (second_byte hi lo h l) (omega arith)) in
    let no' = ==_ne (bit_and n 0xFF7F7F) 0xE11D45 (third_byte hi lo h l) in
    let low : bit_and n 0x7F ≡ lo % 128 = bit_and-mask 7 n ∙ omega arith in
    rw (after_e1-sum hi lo h l, no, no', low) (refl, omega arith)
