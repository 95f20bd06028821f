-- ===== src/Bit.antt =====
-- bit.h, the `bit` library: operations on `unsigned int`, 32 bits wide.
mod Tests
pub mod Laws
pub mod Shifts
use craft_osos.Base.{ℕ, ◌+◌, ◌-◌, ◌*◌, ◌/◌, ◌%◌, ◌^◌, bit_and, bit_or, bit_xor, List, [], ◌∷◌}
use craft_osos.Base.{Option, none, some, ltb, if◌then◌else◌, ◌>>=◌}
use craft_osos.Base.Int.{pos, to_unsigned}
use craft_osos.Lua.{Value, integer, Api, arg}

-- `a << b` and `a >> b` on 32 bits. A count of 32 or more is undefined behaviour: `none`.
unfoldable pub shl : ℕ → ℕ → Option ℕ
shl a b = if ltb b 32 then some (a * 2 ^ b % 2 ^ 32) else none

unfoldable pub shr : ℕ → ℕ → Option ℕ
shr a b = if ltb b 32 then some (a / 2 ^ b) else none

-- `a >> b | ((((a & 0x80000000) << b) - 1) << (32 - b))`
unfoldable pub arithmetic_shr : ℕ → ℕ → Option ℕ
arithmetic_shr a b = do
  low ← shr a b
  sign ← shl (bit_and a 0x80000000) b
  high ← shl ((sign + 2 ^ 32 - 1) % 2 ^ 32) ((32 + 2 ^ 32 - b) % 2 ^ 32)
  some (bit_or low high)

module _ (api : Api) where
  -- `unsigned int a = lua_tointeger(L, i)`
  abbrev pub unsigned_arg : List Value → ℕ → ℕ
  unsigned_arg args i = to_unsigned 32 (api.to_integer (arg args i))

  -- `lua_pushinteger(L, n); return 1`
  abbrev pub push_unsigned : ℕ → List Value
  push_unsigned n = integer (pos n) ∷ []

  unfoldable pub bit_band : List Value → List Value
  bit_band args = push_unsigned (bit_and (unsigned_arg args 1) (unsigned_arg args 2))

  unfoldable pub bit_bor : List Value → List Value
  bit_bor args = push_unsigned (bit_or (unsigned_arg args 1) (unsigned_arg args 2))

  -- `~a` on 32 bits is what is left to all ones.
  unfoldable pub bit_bnot : List Value → List Value
  bit_bnot args = push_unsigned (bit_and (2 ^ 32 - 1 - unsigned_arg args 1) 0xFFFFFFFF)

  unfoldable pub bit_bxor : List Value → List Value
  bit_bxor args = push_unsigned (bit_xor (unsigned_arg args 1) (unsigned_arg args 2))

  unfoldable pub bit_blshift : List Value → Option (List Value)
  bit_blshift args = do n ← shl (unsigned_arg args 1) (unsigned_arg args 2); some (push_unsigned n)

  unfoldable pub bit_brshift : List Value → Option (List Value)
  bit_brshift args = do
    n ← arithmetic_shr (unsigned_arg args 1) (unsigned_arg args 2)
    some (push_unsigned n)

  unfoldable pub bit_blogic_rshift : List Value → Option (List Value)
  bit_blogic_rshift args = do
    n ← shr (unsigned_arg args 1) (unsigned_arg args 2)
    some (push_unsigned n)
