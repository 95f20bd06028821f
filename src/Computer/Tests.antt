-- ===== src/Computer/Tests.antt =====
-- Tests of the handlers on the calendar.
use craft_osos.Base.{◌+◌, ◌≡◌, some, [], ◌∷◌, refl}
use craft_osos.Base.Int.{pos}
use craft_osos.Lua.{integer, text}
use craft_osos.Lua.Plain.{plain}
use craft_osos.Computer.{Calendar, os_day, local_word, utc_word}

-- A zone an hour ahead, an hour before midnight: the day of "utc" is the local one.
abbrev ahead : Calendar
ahead = record { tm_yday = λ t. 0; mktime_localtime = λ t. t + 3600 }

utc_day : os_day plain ahead (86400 + 82800) (text utc_word ∷ []) ≡ some (integer (pos 2) ∷ [])
unfolding os_day plain
utc_day = refl

local_day : os_day plain ahead (86400 + 82800) (text local_word ∷ []) ≡ some (integer (pos 1) ∷ [])
unfolding os_day plain
local_day = refl
