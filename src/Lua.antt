-- ===== src/Lua.antt =====
-- The Lua C API as the code uses it. The interpreter under lua/ is a copy of Lua 5.1.5, so what it
-- does on a conversion is a parameter: the record `Api` holds the operations and the behaviour
-- that the reference manual documents.
pub mod Plain
use craft_osos.Base.{ℕ, ◌≡◌, Bool, Option, none, some, List, get_or, ◌-◌}
use craft_osos.Base.Int.{ℤ}

-- A string of C or Lua: its bytes, without the final NUL.
abbrev pub Text : Type 0
Text = List ℕ

-- The values that the handlers of this program push or are given.
pub data Value : Type 0 where
  nil : Value
  boolean : Bool → Value
  integer : ℤ → Value
  text : Text → Value

-- The arguments of a handler, from index 1 of its stack; an index above the top is no value,
-- which every conversion treats as nil.
abbrev pub arg : List Value → ℕ → Value
arg args i = get_or args (i - 1) nil

pub record Api : Type 0 where
  pub to_integer : Value → ℤ
  pub to_boolean : Value → Bool
  pub to_text : Value → Option Text
  pub to_integer-integer : (z : ℤ) → to_integer (integer z) ≡ z
  pub to_boolean-boolean : (b : Bool) → to_boolean (boolean b) ≡ b
  pub to_text-text : (t : Text) → to_text (text t) ≡ some t
  pub to_text-nil : to_text nil ≡ none
