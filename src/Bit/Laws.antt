-- ===== src/Bit/Laws.antt =====
-- Laws of `bit_band`, `bit_bor`, `bit_bnot` and `bit_bxor` on their 32-bit arguments.
use craft_osos.Base.{ℕ, ◌-◌, ◌^◌, ◌≡◌, ◌<◌, List, [], ◌∷◌, ◌++◌, arith, bit_and, bit_xor, ap, ◌∙◌}
use craft_osos.Base.Bits.{bit_and-mask, bit_or-complement, bit_and-le, bit_xor-lt, bit_xor_twice}
use craft_osos.Base.Int.{ℤ, pos, to_unsigned}
use craft_osos.Lua.{Value, integer, Api}
use craft_osos.Bit.{unsigned_arg, push_unsigned, bit_band, bit_bor, bit_bnot, bit_bxor}

pub to_unsigned-lt : (z : ℤ) → to_unsigned 32 z < 2 ^ 32
to_unsigned-lt z = ground arith

to_unsigned-pos : (n : ℕ) → n < 2 ^ 32 → to_unsigned 32 (pos n) ≡ n
to_unsigned-pos n h = omega arith

module _ (api : Api) where
  -- What a handler pushes is read back as the same number.
  pub unsigned-push : (n : ℕ) → n < 2 ^ 32 → to_unsigned 32 (api.to_integer (integer (pos n))) ≡ n
  unsigned-push n h = rw api.to_integer-integer (to_unsigned-pos n h)

  -- `bit.bnot` is the complement of its argument to 2 ^ 32 - 1.
  pub bit_bnot-complement :
      (args : List Value)
      → bit_bnot api args ≡ push_unsigned api (2 ^ 32 - 1 - unsigned_arg api args 1)
  unfolding bit_bnot
  bit_bnot-complement args = ap (push_unsigned api) (bit_and-mask 32 _ ∙ omega arith)

  -- On the results that Lua passes on from one call to the next, the complement of
  -- `bit.band(a, b)` is `bit.bor` of the two complements, for all values a and b.
  pub bnot-band-eq-bor-bnot :
      (a b : Value)
      → bit_bnot api (bit_band api (a ∷ b ∷ []))
        ≡ bit_bor api (bit_bnot api (a ∷ []) ++ bit_bnot api (b ∷ []))
  unfolding bit_band bit_bor
  bnot-band-eq-bor-bnot a b =
      let x = to_unsigned 32 (api.to_integer a) in
      let y = to_unsigned 32 (api.to_integer b) in
      let hx = to_unsigned-lt (api.to_integer a) in
      let hy = to_unsigned-lt (api.to_integer b) in
      rw (
        bit_bnot-complement (push_unsigned api (bit_and x y)),
        bit_bnot-complement (a ∷ []),
        bit_bnot-complement (b ∷ []),
        unsigned-push (2 ^ 32 - 1 - x) (omega arith),
        unsigned-push (2 ^ 32 - 1 - y) (omega arith),
        unsigned-push (bit_and x y) (omega (arith, bit_and-le x y)),
        bit_or-complement 32 x y hx hy,
      )

  -- `bit.bxor` with the same second argument twice gives the 32-bit value of the first back.
  pub bxor_twice :
      (a b : Value)
      → bit_bxor api (bit_bxor api (a ∷ b ∷ []) ++ b ∷ [])
        ≡ push_unsigned api (unsigned_arg api (a ∷ []) 1)
  unfolding bit_bxor
  bxor_twice a b =
      let x = to_unsigned 32 (api.to_integer a) in
      let y = to_unsigned 32 (api.to_integer b) in
      let hx = to_unsigned-lt (api.to_integer a) in
      let hy = to_unsigned-lt (api.to_integer b) in
      rw (unsigned-push (bit_xor x y) (bit_xor-lt 32 x y hx hy), bit_xor_twice 32 x y hx hy)
