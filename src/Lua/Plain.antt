-- ===== src/Lua/Plain.antt =====
-- A concrete `Api`, with no conversion between kinds of values, at which the theorems about the
-- libraries are tried.
use craft_osos.Base.{◌≡◌, Bool, true, false, Option, none, some, refl}
use craft_osos.Base.Int.{ℤ, pos}
use craft_osos.Lua.{Text, Value, nil, boolean, integer, text, Api}

unfoldable pub to_integer : Value → ℤ
to_integer (integer z) = z
to_integer v = pos 0

unfoldable pub to_boolean : Value → Bool
to_boolean nil = false
to_boolean (boolean b) = b
to_boolean v = true

unfoldable pub to_text : Value → Option Text
to_text (text t) = some t
to_text v = none

pub integer_law : (z : ℤ) → to_integer (integer z) ≡ z
unfolding to_integer
integer_law z = refl

pub boolean_law : (b : Bool) → to_boolean (boolean b) ≡ b
unfolding to_boolean
boolean_law b = refl

pub text_law : (t : Text) → to_text (text t) ≡ some t
unfolding to_text
text_law t = refl

pub nil_law : to_text nil ≡ none
unfolding to_text
nil_law = refl

unfoldable pub plain : Api
unfolding to_integer to_boolean to_text
plain = record {
  to_integer = to_integer;
  to_boolean = to_boolean;
  to_text = to_text;
  to_integer-integer = integer_law;
  to_boolean-boolean = boolean_law;
  to_text-text = text_law;
  to_text-nil = nil_law;
}
