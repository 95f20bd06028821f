-- ===== src/Os/Pending.antt =====
-- The event queue and the parameter stack as one list of events with their parameters, and how
-- every step of os.cpp changes it.
use craft_osos.Base.{
  if-keeps, ℕ, suc, ◌≡◌, bit_and, false, Option, none, some, List, [], ◌∷◌, ◌++◌, ◌==◌,
  if◌then◌else◌, arith, refl, ap, leb, true, length,
}
use craft_osos.Base.Int.{pos}
use craft_osos.Lua.{Text, Value, integer, boolean}
use craft_osos.Keyboard.{Poll, getkey, ps2tocc}
use craft_osos.Os.{
  Os, queue, key_event, timer_events, done, waiting, wait_events, key_name, key_up_name, min_stack,
}

-- An event with its parameters.
abbrev pub Entry : Type 0
Entry = Option Text × List Value

abbrev pub names : List Entry → List (Option Text)
names [] = []
names ((n, _) ∷ es) = n ∷ names es

abbrev pub bodies : List Entry → List (List Value)
bodies [] = []
bodies ((_, vs) ∷ es) = vs ∷ bodies es

pub names-append : (xs ys : List Entry) → names (xs ++ ys) ≡ names xs ++ names ys
names-append [] ys = refl
names-append ((n, _) ∷ xs) ys = ap (λ t. n ∷ t) (names-append xs ys)

pub bodies-append : (xs ys : List Entry) → bodies (xs ++ ys) ≡ bodies xs ++ bodies ys
bodies-append [] ys = refl
bodies-append ((_, vs) ∷ xs) ys = ap (λ t. vs ∷ t) (bodies-append xs ys)

-- The state holds these entries, oldest first: each event lies as deep in the queue as its
-- parameters in the stack.
pub record Holds (s : Os) (es : List Entry) : Type 0 where
  pub events : s.events ≡ names es
  pub params : s.params ≡ bodies es

pub queue-Holds :
    (name : Text) (vs : List Value) {s : Os} {es : List Entry}
    → Holds s es
    → Holds (queue name vs s) (es ++ (some name, vs) ∷ [])
queue-Holds name vs {es} h = record {
  events = rw (h.events, names-append es ((some name, vs) ∷ []));
  params = rw (h.params, bodies-append es ((some name, vs) ∷ []));
}

-- A property of the two queues that a new event with its parameters keeps is kept by all that
-- the wait for input does.
module _ {ℓ} (P : Os → Type ℓ)
    (keeps_queue : (name : Text) (vs : List Value) (s : Os) → P s → P (queue name vs s))
    (keeps_fields : (s t : Os) → t.events ≡ s.events → t.params ≡ s.params → P s → P t) where
  pub key_event-keeps : (code : ℕ) (s : Os) → P s → P (key_event code s)
  unfolding key_event
  key_event-keeps code s h =
      let s1 =
        queue (if bit_and code 0x80 == 0 then key_name else key_up_name)
          (integer (pos (ps2tocc code)) ∷ boolean false ∷ []) s in
      let h1 : P s1 = keeps_queue _ _ s h in
      if-keeps P (code == 0) s _ h (
        if-keeps P _ _ _ (keeps_fields s1 _ refl refl h1)
          (keeps_queue _ _ _ (keeps_fields s1 _ refl refl h1)))

  pub timer_events-keeps : (ids : List ℕ) (s : Os) → P s → P (timer_events ids s)
  unfolding timer_events
  timer_events-keeps [] s h = keeps_fields s _ refl refl h
  timer_events-keeps (id ∷ ids) s h = timer_events-keeps ids _ (keeps_queue _ _ s h)

module _ (fuel : ℕ) (s : Os) (polls : List Poll) where
  -- One round of the wait, in each of its three cases.
  pub wait-ready :
      (ev : Option Text) (evs : List (Option Text))
      → s.events ≡ ev ∷ evs
      → wait_events (suc fuel) s polls ≡ done (s, polls)
  unfolding wait_events
  wait-ready ev evs e = ground arith

  pub wait-waiting :
      s.events ≡ [] → getkey polls s.timers ≡ none → wait_events (suc fuel) s polls ≡ waiting
  unfolding wait_events
  wait-waiting e k = ground arith

  pub wait-key :
      (code : ℕ) (timers : List ℕ) (rest : List Poll)
      → s.events ≡ []
      → getkey polls s.timers ≡ some (code, timers, rest)
      → leb
          (length (timer_events timers (key_event code (record s { timers = timers }))).params)
          min_stack
        ≡ true
      → wait_events (suc fuel) s polls
        ≡ wait_events fuel
            (timer_events timers (key_event code (record s { timers = timers })))
            rest
  unfolding wait_events
  wait-key code timers rest e k room = ground arith
