-- ===== src/Os.antt =====
-- os.cpp: the event queue with its parameters, `getNextEvent`, and the functions of the `os`
-- library that use them.
mod Tests
pub mod Pending
pub mod Filter
pub mod Waiting
use craft_osos.Base.{
  ℕ, zero, suc, ◌+◌, ◌-◌, ◌%◌, bit_and, Bool, true, false, not, ◌&&◌, ◌||◌, Option, none, some,
  List, [], ◌∷◌, ◌++◌, ltb, leb, ◌==◌, if◌then◌else◌, length, take, drop, get_or,
}
use mathlib.Core.Option
use craft_osos.Base.Int.{pos}
use craft_osos.Lua.{Text, Value, nil, boolean, integer, text, Api, arg}
use craft_osos.Keyboard.{Poll, getkey, convert_ps2_code, ps2tocc}

-- What C reads of a string: the bytes up to the first NUL.
unfoldable pub c_string : Text → Text
c_string [] = []
c_string (c ∷ cs) = let rest = c_string cs in if c == 0 then [] else c ∷ rest

-- `strcmp(a, b) == 0`
unfoldable pub text_eq : Text → Text → Bool
text_eq [] [] = true
text_eq [] (d ∷ ds) = false
text_eq (c ∷ cs) [] = false
text_eq (c ∷ cs) (d ∷ ds) = (c == d) && text_eq cs ds

abbrev pub key_name : Text
key_name = b'k' ∷ b'e' ∷ b'y' ∷ []

abbrev pub key_up_name : Text
key_up_name = b'k' ∷ b'e' ∷ b'y' ∷ b'_' ∷ b'u' ∷ b'p' ∷ []

abbrev pub char_name : Text
char_name = b'c' ∷ b'h' ∷ b'a' ∷ b'r' ∷ []

abbrev pub timer_name : Text
timer_name = b't' ∷ b'i' ∷ b'm' ∷ b'e' ∷ b'r' ∷ []

-- How a run ends: with a result, with the input given used up, in undefined behaviour, or with the
-- model's fuel used up.
pub data Outcome (A : Type 0) : Type 0 where
  done : A → Outcome A
  waiting : Outcome A
  crash : Outcome A
  out_of_fuel : Outcome A

module _ {A B : Type 0} where
  infixl 5 ◌>>=◌
  abbrev pub ◌>>=◌ : Outcome A → (A → Outcome B) → Outcome B
  done a >>= f = f a
  waiting >>= f = waiting
  crash >>= f = crash
  out_of_fuel >>= f = out_of_fuel

-- The globals of os.cpp. The two queues are their contents, front first (see Queue.Refine); a name
-- that `lua_tostring` gave as NULL is `none`. `params` is the stack of `paramQueue`, each thread
-- by the values on its own stack.
pub record Os : Type 0 where
  pub events : List (Option Text)
  pub params : List (List Value)
  pub timers : List ℕ
  pub modifiers : ℕ

-- How many threads `paramQueue` has room for, and how many values a new thread: without a call of
-- `lua_checkstack`, of which there is none for these stacks, Lua promises `LUA_MINSTACK` slots, and
-- `lua_newthread` and `lua_xmove` do not test whether there are more. What is pushed behind them is
-- undefined behaviour.
abbrev pub min_stack : ℕ
min_stack = 20

-- A new thread on `paramQueue` with these values, and its event. The callers test the room.
abbrev pub queue : Text → List Value → Os → Os
queue name values s = record s {
  events = s.events ++ some name ∷ [];
  params = s.params ++ values ∷ [];
}

-- The body of `if ((code = getkey()))`. `convert_ps2_code` takes an `unsigned char`; it is called
-- twice.
unfoldable pub key_event : ℕ → Os → Os
unfolding c_string
key_event code s =
    if code == 0
    then s
    else let s1 =
        queue (if bit_and code 0x80 == 0 then key_name else key_up_name)
          (integer (pos (ps2tocc code)) ∷ boolean false ∷ []) s in
      let (first, modifiers1) = convert_ps2_code s1.modifiers (code % 256) in
      let (ch, modifiers2) = convert_ps2_code modifiers1 (code % 256) in
      if first == 0
      then record s1 { modifiers = modifiers1 }
      else queue char_name (text (c_string (ch ∷ [])) ∷ []) (record s1 { modifiers = modifiers2 })

-- `while (!queue_empty(&timerQueue))`
unfoldable pub timer_events : List ℕ → Os → Os
timer_events [] s = record s { timers = [] }
timer_events (id ∷ ids) s = timer_events ids (queue timer_name (integer (pos id) ∷ []) s)

-- `while (queue_size(&eventQueue) == 0)`, with the rounds of input to come. A round only pushes on
-- `paramQueue`, so its stack has overflowed in the round if it is too high at the end of it.
unfoldable pub wait_events : ℕ → Os → List Poll → Outcome (Os × List Poll)
wait_events zero s polls = out_of_fuel
wait_events (suc fuel) s polls =
    let key = getkey polls s.timers in
    elim s.events [
      | ev ∷ evs ↦ done (s, polls)
      | [] ↦ elim key [
        | none ↦ waiting
        | some (code, timers, polls') ↦
            (let s' = timer_events timers (key_event code (record s { timers = timers })) in
              let rest = wait_events fuel s' polls' in
              if leb (length s'.params) min_stack then rest else crash)
      ]
    ]

-- `strlen(filter) > 0 && strcmp(ev, filter) != 0`; the comparison faults at a NULL name.
unfoldable pub unwanted : Text → Option Text → Outcome Bool
unwanted [] ev = done false
unwanted (c ∷ cs) none = crash
unwanted (c ∷ cs) (some name) = done (not (text_eq name (c ∷ cs)))

-- `lua_remove(paramQueue, 1)`, which wants an element there.
unfoldable pub remove_first : List (List Value) → Outcome (List (List Value))
remove_first [] = crash
remove_first (p ∷ ps) = done ps

-- The `do … while` loop: the event that is taken, and what is left.
unfoldable pub take_event : ℕ → Text → Os → List Poll → Outcome (Option Text × Os × List Poll)
take_event zero filter s polls = out_of_fuel
take_event (suc fuel) filter s polls = wait_events (suc fuel) s polls >>= λ (s', polls').
    elim s'.events [
      | [] ↦ crash
      | ev ∷ evs ↦ unwanted filter ev >>= λ skip. elim skip [
        | false ↦ done (ev, record s' { events = evs }, polls')
        | true ↦ remove_first s'.params >>= λ ps.
            take_event fuel filter (record s' { events = evs; params = ps }) polls'
      ]
    ]

-- `lua_pushstring`, which pushes nil for NULL.
abbrev pub push_name : Option Text → Value
push_name none = nil
push_name (some name) = text name

-- What `getNextEvent` has done: the values that it pushed on the coroutine, whether it printed the
-- warning about misaligned parameters, and the state and input that are left.
pub record Delivery : Type 0 where
  pub pushed : List Value
  pub warned : Bool
  pub after : Os
  pub polls : List Poll

-- The part behind the loop. `check_stack n` is whether `lua_checkstack(L, n)` succeeds.
unfoldable pub deliver : (ℕ → Bool) → Option Text → Os → List Poll → Delivery
deliver check_stack ev s polls =
    let misaligned = not (length s.params == length s.events + 1) in
    elim s.params [
      | [] ↦ record { pushed = []; warned = misaligned; after = s; polls = polls }
      | param ∷ ps ↦
          if check_stack (length param + 1)
          then record {
            pushed = push_name ev ∷ param;
            warned = misaligned;
            after = record s { params = ps };
            polls = polls;
          }
          else record { pushed = []; warned = misaligned; after = s; polls = polls }
    ]

unfoldable pub get_next_event : (ℕ → Bool) → ℕ → Text → Os → List Poll → Outcome Delivery
unfolding take_event wait_events unwanted remove_first deliver
get_next_event check_stack fuel filter s polls =
    take_event fuel filter s polls >>= λ (ev, s', polls'). done (deliver check_stack ev s' polls')

-- `os.queueEvent(name, …)`. With no argument at all `lua_xmove` is called for -1 values. The new
-- thread and the values that are moved to it need room.
unfoldable pub os_queue_event : Api → List Value → Os → Outcome Os
unfolding c_string
os_queue_event api [] s = crash
os_queue_event api (name ∷ values) s =
    if leb (length s.params + 1) min_stack && leb (length values) min_stack
    then done (record s {
      events = s.events ++ Option.map c_string (api.to_text name) ∷ [];
      params = s.params ++ values ∷ [];
    })
    else crash

-- `timerEvent`, the callback of a timer.
unfoldable pub timer_event : ℕ → Os → Os
timer_event id s = record s { timers = s.timers ++ id ∷ [] }
