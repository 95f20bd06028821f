-- ===== src/Bit/Tests.antt =====
-- Runs of the `bit` library, and its theorems at concrete arguments.
use craft_osos.Base.{◌≡◌, refl, some, [], ◌∷◌}
use craft_osos.Base.Int.{pos}
use craft_osos.Lua.{integer}
use craft_osos.Lua.Plain.{plain}
use craft_osos.Bit.{
  bit_band, bit_bor, bit_bnot, bit_bxor, bit_blshift, bit_brshift, bit_blogic_rshift,
}
use craft_osos.Bit.Shifts.{bit_brshift_lem}

-- 16 >> 2 is not 4.
brshift_of_16 :
    bit_brshift plain (integer (pos 16) ∷ integer (pos 2) ∷ [])
    ≡ some (integer (pos 0xC0000004) ∷ [])
unfolding bit_brshift plain craft_osos.Bit.arithmetic_shr craft_osos.Bit.shl craft_osos.Bit.shr
brshift_of_16 = refl

bnot_of_5 : bit_bnot plain (integer (pos 5) ∷ []) ≡ integer (pos 0xFFFFFFFA) ∷ []
unfolding bit_bnot plain
bnot_of_5 = refl

bit_brshift_lem_example :
    bit_brshift plain (integer (pos 16) ∷ integer (pos 2) ∷ [])
    ≡ some (integer (pos 0xC0000004) ∷ [])
unfolding plain
bit_brshift_lem_example = bit_brshift_lem plain (integer (pos 16) ∷ integer (pos 2) ∷ [])
