-- ===== src/Computer/Label.antt =====
-- The label of the computer, as it is set and read.
use craft_osos.Base.{◌≡◌, [], ◌∷◌, ap}
use craft_osos.Lua.{Text, nil, text, Api}
use craft_osos.Os.{c_string}
use craft_osos.Computer.{Computer, os_get_computer_label, os_set_computer_label, push_string}

-- A label that is set is read again, up to its first NUL; the label that is taken away with nil is
-- still defined, and reads as nil.
pub set_label-get_label :
    (api : Api) (name : Text) (s : Computer)
    → (os_get_computer_label (os_set_computer_label api (text name ∷ []) s)
        ≡ text (c_string name) ∷ [])
      × (os_get_computer_label (os_set_computer_label api (nil ∷ []) s) ≡ nil ∷ [])
unfolding os_get_computer_label os_set_computer_label
set_label-get_label api name s = (
  ap (λ l. push_string l ∷ []) (api.to_text-text name),
  ap (λ l. push_string l ∷ []) (api.to_text-nil),
)
