-- ===== src/Os/Tests.antt =====
-- The event loop at concrete states.
use craft_osos.Base.{ℕ, ◌≡◌, Bool, true, false, some, List, [], ◌∷◌, refl, arith, inr, replicate}
use craft_osos.Base.Int.{pos}
use craft_osos.Lua.{Text, Value, nil, integer, text}
use craft_osos.Lua.Plain.{plain}
use craft_osos.Keyboard.{Poll}
use craft_osos.Os.{
  Os, Outcome, done, ◌>>=◌, Delivery, get_next_event, os_queue_event, c_string, timer_name,
  key_name,
}
use craft_osos.Os.Pending.{Entry, Holds}
use craft_osos.Os.Filter.{
  HeldBack, get_next_event-first, get_next_event-queue_event, get_next_event-no_room,
}
use craft_osos.Os.Waiting.{Steady, Returns, Delivered, get_next_event-Returns}

abbrev room : ℕ → Bool
room n = true

abbrev rednet : Text
rednet = b'r' ∷ b'n' ∷ []

-- A timer event, then one of the program.
abbrev queued : Os
queued = record {
  events = some timer_name ∷ some rednet ∷ [];
  params = (integer (pos 4) ∷ []) ∷ (integer (pos 9) ∷ nil ∷ []) ∷ [];
  timers = [];
  modifiers = 0;
}

abbrev entries : List Entry
entries = (some timer_name, integer (pos 4) ∷ []) ∷ (some rednet, integer (pos 9) ∷ nil ∷ []) ∷ []

queued-Holds : Holds queued entries
queued-Holds = record { events = refl; params = refl }

queued-Steady : Steady queued
queued-Steady = (entries, queued-Holds, ((λ e. cc), ((λ e. cc), tt)))

-- The key A, with a timer that fires first.
abbrev input : List Poll
input =
    record { status = 0; byte = 0; fired = 3 ∷ [] }
    ∷ record { status = 1; byte = 0x1E; fired = [] }
    ∷ record { status = 1; byte = 0x1E; fired = [] }
    ∷ []

held : HeldBack rednet (some timer_name, integer (pos 4) ∷ [])
held = ((λ e. cc), timer_name, refl, (λ e. cc))

get_next_event-first_example :
    get_next_event room 9 rednet queued input
    ≡ done (record {
      pushed = text rednet ∷ integer (pos 9) ∷ nil ∷ [];
      warned = false;
      after = record { events = []; params = []; timers = []; modifiers = 0 };
      polls = input;
    })
get_next_event-first_example =
    get_next_event-first rednet input (some rednet) (integer (pos 9) ∷ nil ∷ []) [] (inr refl) room
      9 ((some timer_name, integer (pos 4) ∷ []) ∷ []) queued queued-Holds (held, tt) (omega arith)
      refl

get_next_event-queue_event_example :
    (os_queue_event plain (text key_name ∷ integer (pos 1) ∷ []) queued >>= λ s'.
    get_next_event room 9 key_name s' input)
    ≡ done (record {
      pushed = text key_name ∷ integer (pos 1) ∷ [];
      warned = false;
      after = record { events = []; params = []; timers = []; modifiers = 0 };
      polls = input;
    })
unfolding c_string
get_next_event-queue_event_example =
    get_next_event-queue_event plain room 9 queued input entries key_name (integer (pos 1) ∷ [])
      queued-Holds
      (((λ e. cc), timer_name, refl, (λ e. cc)), (((λ e. cc), rednet, refl, (λ e. cc)), tt))
      (omega arith) (omega arith) (omega arith) refl

abbrev no_room : ℕ → Bool
no_room n = false

get_next_event-no_room_example :
    (get_next_event no_room 9 [] queued input >>= λ d. get_next_event room 9 [] d.after d.polls)
    ≡ done (record {
      pushed = text rednet ∷ integer (pos 4) ∷ [];
      warned = true;
      after = record {
        events = [];
        params = (integer (pos 9) ∷ nil ∷ []) ∷ [];
        timers = [];
        modifiers = 0;
      };
      polls = input;
    })
get_next_event-no_room_example =
    get_next_event-no_room no_room room 8 queued input (some timer_name) (some rednet)
      (integer (pos 4) ∷ []) (integer (pos 9) ∷ nil ∷ []) [] queued-Holds refl refl

get_next_event-Returns_example :
    Returns (Delivered key_name) (get_next_event room 99 key_name queued input)
get_next_event-Returns_example =
    get_next_event-Returns room key_name 99 queued input (λ n. refl) queued-Steady
      (omega arith, (omega arith, (omega arith, (omega arith, tt)))) (omega arith)

-- The loop drops the two queued events and reads the timer and the key.
key_after_timer :
    get_next_event room 99 key_name queued input
    ≡ done (record {
      pushed = text key_name ∷ integer (pos 0x1E) ∷ craft_osos.Lua.boolean false ∷ [];
      warned = false;
      after = record {
        events = some craft_osos.Os.char_name ∷ [];
        params = (text (b'a' ∷ []) ∷ []) ∷ [];
        timers = [];
        modifiers = 0;
      };
      polls = [];
    })
unfolding get_next_event craft_osos.Os.key_event craft_osos.Os.timer_events
    craft_osos.Keyboard.getkey craft_osos.Keyboard.convert_ps2_code craft_osos.Keyboard.ps2tocc
    craft_osos.Os.text_eq
key_after_timer = refl

abbrev empty : Os
empty = record { events = []; params = []; timers = []; modifiers = 0 }

-- 21 timers that fire at once overflow the parameter stack.
too_many_timers :
    get_next_event room 99 [] empty (
      record { status = 0; byte = 0; fired = replicate 21 5 }
      ∷ record { status = 0; byte = 0; fired = [] }
      ∷ [])
    ≡ craft_osos.Os.crash
unfolding get_next_event craft_osos.Os.key_event craft_osos.Os.timer_events
    craft_osos.Keyboard.getkey
too_many_timers = refl
