-- ===== src/Computer.antt =====
-- os.cpp: the handlers of the `os` library on the label, the calendar and the power, and the stubs of
-- redstone.h.
mod Tests
pub mod Label
use craft_osos.Base.{
  ℕ, ◌+◌, ◌/◌, ◌≡◌, ◌⊎◌, Bool, true, false, not, if◌then◌else◌, Option, none, some, List, [], ◌∷◌,
  ◌++◌, length, leb,
}
use craft_osos.Base.Int.{ℤ, pos}
use craft_osos.Lua.{Text, Value, nil, boolean, integer, text, Api, arg}
use craft_osos.Os.{text_eq, c_string}

-- What a handler has the system do.
pub data Effect : Type 0 where
  stop_timer : ℤ → Effect
  shut_down : Effect
  restart : Effect

-- The globals `label`, a pointer that may be NULL, `label_defined` and `running`, and what has been
-- done to the system.
pub record Computer : Type 0 where
  pub label : Option Text
  pub label_defined : Bool
  pub running : ℕ
  pub effects : List Effect

unfoldable pub os_get_computer_id : List Value
os_get_computer_id = integer (pos 0) ∷ []

-- `lua_pushstring`, which pushes nil for NULL.
abbrev pub push_string : Option Text → Value
push_string none = nil
push_string (some t) = text (c_string t)

unfoldable pub os_get_computer_label : Computer → List Value
unfolding c_string
os_get_computer_label s = if not (s.label_defined) then [] else push_string (s.label) ∷ []

abbrev pub done_too : Effect → Computer → Computer
done_too e s = record s { effects = s.effects ++ (e ∷ []) }

unfoldable pub os_shutdown : Computer → Computer
os_shutdown s = done_too shut_down (record s { running = 0 })

unfoldable pub os_reboot : Computer → Computer
os_reboot s = done_too restart (record s { running = 2 })

-- `clock() / CLOCKS_PER_SEC`
unfoldable pub os_clock : ℕ → ℕ → List Value
os_clock ticks clocks_per_sec = integer (pos (ticks / clocks_per_sec)) ∷ []

abbrev pub ingame_word : Text
ingame_word = b'i' ∷ b'n' ∷ b'g' ∷ b'a' ∷ b'm' ∷ b'e' ∷ []

abbrev pub local_word : Text
local_word = b'l' ∷ b'o' ∷ b'c' ∷ b'a' ∷ b'l' ∷ []

abbrev pub utc_word : Text
utc_word = b'u' ∷ b't' ∷ b'c' ∷ []

-- `localtime(&t)->tm_yday` and `mktime(localtime(&t))` of the C library, for a time after 1970.
pub record Calendar : Type 0 where
  pub tm_yday : ℕ → ℕ
  pub mktime_localtime : ℕ → ℕ

abbrev pub seconds_of_day : ℕ
seconds_of_day = 86400

-- `os_day` for a type; `strcmp` with NULL faults, `none`. `else if (strcmp(type, "local"))` holds for
-- any type but "local".
abbrev pub day_of : Calendar → ℕ → Option Text → Option (List Value)
day_of calendar t none = none
day_of calendar t (some type) =
    if text_eq (c_string type) ingame_word
    then some (integer (pos (calendar.tm_yday t)) ∷ [])
    else (let t' = if text_eq (c_string type) local_word then t else calendar.mktime_localtime t in
        some (integer (pos (t' / seconds_of_day)) ∷ []))

-- The stubs that the table of redstone.h has.
unfoldable pub rs_false : List Value
rs_false = boolean false ∷ []

unfoldable pub rs_0 : List Value
rs_0 = integer (pos 0) ∷ []

unfoldable pub rs_none : List Value
rs_none = []

module _ (api : Api) where
  unfoldable pub os_set_computer_label : List Value → Computer → Computer
  os_set_computer_label args s = record s { label = api.to_text (arg args 1); label_defined = true }

  unfoldable pub os_cancel_timer : List Value → Computer → Computer
  os_cancel_timer args s = done_too (stop_timer (api.to_integer (arg args 1))) s

  unfoldable pub os_day : Calendar → ℕ → List Value → Option (List Value)
  unfolding text_eq c_string
  os_day calendar t args =
      day_of calendar t (if leb 1 (length args) then api.to_text (arg args 1) else some ingame_word)
