-- ===== src/Keyboard/Tests.antt =====
-- Runs of the keyboard code, and its theorems at concrete codes.
use craft_osos.Base.{ap, ◌≡◌, ◌≢◌, true, false, arith, [], ◌∷◌}
use craft_osos.Keyboard.{Poll, convert_ps2_code}
use craft_osos.Keyboard.Modifiers.{Held, encode, press, character, convert_ps2_code_lem}

abbrev shifted : Held
shifted = record { shift = true; control = false; alt = false }

abbrev ready : Poll
ready = record { status = 1; byte = 0xE0; fired = [] }

abbrev fires : Poll
fires = record { status = 0; byte = 0; fired = 7 ∷ [] }

convert_ps2_code_lem_example : convert_ps2_code 1 0x1E ≡ (b'A', 1)
unfolding press character
convert_ps2_code_lem_example = convert_ps2_code_lem shifted 0x1E (omega arith)

letter_a : (convert_ps2_code (encode shifted) 0x1E).0 ≢ 0
letter_a e = absurd (omega (arith, ap (λ t. t.0) convert_ps2_code_lem_example))
