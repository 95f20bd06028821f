-- ===== src/Os/Filter.antt =====
-- `getNextEvent` on events that are queued already: which one it takes, and with which parameters.
use craft_osos.Base.{
  ℕ, zero, suc, ◌+◌, ◌<◌, ◌≡◌, ◌≢◌, ◌⊎◌, inl, inr, Bool, true, false, Option, none, some, List, [],
  ◌∷◌, ◌++◌, length, arith, refl, ap, ◌∙◌, Bool-cases, ◌≤◌, le→leb,
}
use mathlib.Core.Option
use craft_osos.Lua.{Text, Value, text, Api}
use craft_osos.Keyboard.{Poll}
use craft_osos.Os.{
  Os, text_eq, done, ◌>>=◌, wait_events, unwanted, remove_first, take_event, get_next_event,
  deliver, push_name, os_queue_event, c_string, min_stack,
}
use craft_osos.Os.Pending.{Entry, names, bodies, Holds, queue-Holds, wait-ready}

-- The filter lets an event pass if it is empty or the event's name.
abbrev pub Passes : Text → Option Text → Type 0
Passes filter ev = (filter ≡ []) ⊎ (ev ≡ some filter)

-- It holds back an event of another name.
abbrev pub HeldBack : Text → Entry → Type 0
HeldBack filter (ev, _) = (filter ≢ []) × (name : Text) × (ev ≡ some name) × (name ≢ filter)

abbrev pub All : (Entry → Type 0) → List Entry → Type 0
All P [] = Unit {0}
All P (e ∷ es) = P e × All P es

pub text_eq_refl : (a : Text) → text_eq a a ≡ true
unfolding text_eq
text_eq_refl [] = refl
text_eq_refl (c ∷ cs) = ground (arith, text_eq_refl cs)

pub eq_of_text_eq : (a b : Text) → text_eq a b ≡ true → a ≡ b
unfolding text_eq
eq_of_text_eq [] [] h = refl
eq_of_text_eq [] (d ∷ ds) h = cc
eq_of_text_eq (c ∷ cs) [] h = cc
eq_of_text_eq (c ∷ cs) (d ∷ ds) h = ground (arith, eq_of_text_eq cs ds)

pub text_eq-ne : (a b : Text) → a ≢ b → text_eq a b ≡ false
text_eq-ne a b ne = elim (Bool-cases (text_eq a b)) [
  | inl e ↦ absurd (ne (eq_of_text_eq a b e))
  | inr e ↦ e
]

pub unwanted-Passes :
    (filter : Text) (ev : Option Text) → Passes filter ev → unwanted filter ev ≡ done false
unfolding unwanted
unwanted-Passes [] ev p = refl
unwanted-Passes (c ∷ cs) none p = ground arith
unwanted-Passes (c ∷ cs) (some name) (inl e) = cc
unwanted-Passes (c ∷ cs) (some name) (inr e) =
    let same : name ≡ c ∷ cs = cc in rw (same, text_eq_refl (c ∷ cs))

unwanted-HeldBack :
    (filter : Text) (e : Entry) → HeldBack filter e → unwanted filter e.0 ≡ done true
unfolding unwanted
unwanted-HeldBack [] e (ne, _, _, _) = absurd (ne refl)
unwanted-HeldBack (c ∷ cs) e (ne, name, s, differs) = rw (s, text_eq-ne name (c ∷ cs) differs)

-- Every named event is one or the other.
pub unwanted-cases :
    (filter name : Text)
    → ((unwanted filter (some name) ≡ done false) × Passes filter (some name))
      ⊎ (unwanted filter (some name) ≡ done true)
unwanted-cases [] name = inl (unfold unwanted in refl, inl refl)
unwanted-cases (c ∷ cs) name = elim (Bool-cases (text_eq name (c ∷ cs))) [
  | inl e ↦
      (let p : Passes (c ∷ cs) (some name) = inr (ap some (eq_of_text_eq name (c ∷ cs) e)) in
        inl (unwanted-Passes (c ∷ cs) (some name) p, p))
  | inr e ↦ inr (unfold unwanted in rw e refl)
]

-- The two ways on from a wait that has come back with an event at the front.
module _ (fuel : ℕ) (filter : Text) (s s' : Os) (polls polls' : List Poll) (ev : Option Text)
    (evs : List (Option Text)) (waited : wait_events (suc fuel) s polls ≡ done (s', polls'))
    (queued : s'.events ≡ ev ∷ evs) where
  pub take-passing :
      unwanted filter ev ≡ done false
      → take_event (suc fuel) filter s polls ≡ done (ev, record s' { events = evs }, polls')
  unfolding take_event
  take-passing u = ground arith

  pub take-held_back :
      (p : List Value) (ps : List (List Value))
      → unwanted filter ev ≡ done true
      → s'.params ≡ p ∷ ps
      → take_event (suc fuel) filter s polls
        ≡ take_event fuel filter (record s' { events = evs; params = ps }) polls'
  unfolding take_event remove_first
  take-held_back p ps u e = ground arith

pub length-bodies : (es : List Entry) → length (bodies es) ≡ length (names es)
length-bodies [] = refl
length-bodies (e ∷ es) = ap suc (length-bodies es)

module _ (filter : Text) (polls : List Poll) (ev : Option Text) (vs : List Value)
    (rest : List Entry) (passes : Passes filter ev) where
  take_event-first :
      (fuel : ℕ) (skipped : List Entry) (s : Os)
      → Holds s (skipped ++ (ev, vs) ∷ rest)
      → All (HeldBack filter) skipped
      → length skipped < fuel
      → take_event fuel filter s polls
        ≡ done (ev, record s { events = names rest; params = vs ∷ bodies rest }, polls)
  take_event-first zero skipped s h a f = absurd (omega arith)
  take_event-first (suc fuel) [] s h a f =
      take-passing fuel filter s s polls polls ev (names rest)
        (wait-ready fuel s polls ev (names rest) h.events) h.events
        (unwanted-Passes filter ev passes)
      ∙ ap (λ ps. done (ev, record s { events = names rest; params = ps }, polls)) h.params
  take_event-first (suc fuel) (e ∷ skipped) s h (held, a) f =
      take-held_back fuel filter s s polls polls e.0 _ (wait-ready fuel s polls e.0 _ h.events)
        h.events e.1 _ (unwanted-HeldBack filter e held) h.params
      ∙ take_event-first fuel skipped _ (record { events = refl; params = refl }) a (omega arith)

  -- If every event ahead of one that the filter lets pass is held back by it, `getNextEvent`
  -- returns that event with its own parameters, drops those ahead with theirs, keeps those behind,
  -- reads no input and prints no warning. The stack of the coroutine is assumed to have room.
  pub get_next_event-first :
      (check_stack : ℕ → Bool) (fuel : ℕ) (skipped : List Entry) (s : Os)
      → Holds s (skipped ++ (ev, vs) ∷ rest)
      → All (HeldBack filter) skipped
      → length skipped < fuel
      → check_stack (length vs + 1) ≡ true
      → get_next_event check_stack fuel filter s polls
        ≡ done (record {
          pushed = push_name ev ∷ vs;
          warned = false;
          after = record s { events = names rest; params = bodies rest };
          polls = polls;
        })
  unfolding get_next_event
  get_next_event-first check_stack fuel skipped s h a f room =
      rw (take_event-first fuel skipped s h a f) (ground (arith, length-bodies rest))

length-Holds : (s : Os) (es : List Entry) → Holds s es → length s.params ≡ length es
length-Holds s es h = ap length h.params ∙ each es
  where
    each : (es : List Entry) → length (bodies es) ≡ length es
    each [] = refl
    each (e ∷ es) = ap suc (each es)

-- `os.queueEvent` where the parameter stack and a new thread have room.
os_queue_event-done :
    (api : Api) (name : Value) (values : List Value) (s : Os)
    → length s.params < min_stack
    → length values ≤ min_stack
    → os_queue_event api (name ∷ values) s
      ≡ done (record s {
        events = s.events ++ Option.map c_string (api.to_text name) ∷ [];
        params = s.params ++ values ∷ [];
      })
unfolding os_queue_event
os_queue_event-done api name values s room small =
    rw
      (le→leb (length s.params + 1) min_stack (omega arith), le→leb (length values) min_stack small)

-- After `os.queueEvent(name, …)` on an aligned state whose events, fewer than 20, are all held back
-- by the filter `name`, waiting for `name` returns it with the values that were passed, at most 20,
-- leaves no event, and reads no input. The fuel is more than the events that were queued, and the
-- stack of the coroutine has room for the name and the values.
pub get_next_event-queue_event :
    (api : Api) (check_stack : ℕ → Bool) (fuel : ℕ) (s : Os) (polls : List Poll) (es : List Entry)
    (name : Text) (values : List Value)
    → Holds s es
    → All (HeldBack (c_string name)) es
    → length es < fuel
    → length es < min_stack
    → length values ≤ min_stack
    → check_stack (length values + 1) ≡ true
    → (os_queue_event api (text name ∷ values) s >>= λ s'.
        get_next_event check_stack fuel (c_string name) s' polls)
      ≡ done (record {
        pushed = text (c_string name) ∷ values;
        warned = false;
        after = record s { events = []; params = [] };
        polls = polls;
      })
get_next_event-queue_event api check_stack fuel s polls es name values h a f below small room =
    rw
      (
        os_queue_event-done api (text name) values s (omega (arith, length-Holds s es h)) small,
        api.to_text-text,
      )
      (get_next_event-first (c_string name) polls (some (c_string name)) values [] (inr refl)
        check_stack fuel es _ (queue-Holds (c_string name) values h) a f room)

-- With an empty filter the loop takes the event in front.
take-front :
    (fuel : ℕ) (s : Os) (polls : List Poll) (ev : Option Text) (evs : List (Option Text))
    → s.events ≡ ev ∷ evs
    → take_event (suc fuel) [] s polls ≡ done (ev, record s { events = evs }, polls)
take-front fuel s polls ev evs e =
    take-passing fuel [] s s polls polls ev evs (wait-ready fuel s polls ev evs e) e
      (unwanted-Passes [] ev (inl refl))

deliver-no_room :
    (full : ℕ → Bool) (ev : Option Text) (s : Os) (polls : List Poll) (vs : List Value)
    (ps : List (List Value))
    → s.params ≡ vs ∷ ps
    → full (length vs + 1) ≡ false
    → length ps ≡ length s.events
    → deliver full ev s polls ≡ record { pushed = []; warned = false; after = s; polls = polls }
unfolding deliver
deliver-no_room full ev s polls vs ps e none_left l = ground arith

deliver-misaligned :
    (check_stack : ℕ → Bool) (ev : Option Text) (s : Os) (polls : List Poll) (vs : List Value)
    (ps : List (List Value))
    → s.params ≡ vs ∷ ps
    → check_stack (length vs + 1) ≡ true
    → length ps ≡ length s.events + 1
    → deliver check_stack ev s polls ≡ record {
      pushed = push_name ev ∷ vs;
      warned = true;
      after = record s { params = ps };
      polls = polls;
    }
unfolding deliver
deliver-misaligned check_stack ev s polls vs ps e room l = ground arith

-- If the coroutine has no room for the parameters of the event in front, `getNextEvent` drops the
-- event and leaves its parameters: the next call, here with an empty filter and with room, prints
-- the warning and gives the next event the parameters of the dropped one.
pub get_next_event-no_room :
    (full check_stack : ℕ → Bool) (fuel : ℕ) (s : Os) (polls : List Poll) (ev ev2 : Option Text)
    (vs vs2 : List Value) (rest : List Entry)
    → Holds s ((ev, vs) ∷ (ev2, vs2) ∷ rest)
    → full (length vs + 1) ≡ false
    → check_stack (length vs + 1) ≡ true
    → (get_next_event full (suc fuel) [] s polls >>= λ d.
        get_next_event check_stack (suc fuel) [] d.after d.polls)
      ≡ done (record {
        pushed = push_name ev2 ∷ vs;
        warned = true;
        after = record s { events = names rest; params = vs2 ∷ bodies rest };
        polls = polls;
      })
unfolding get_next_event
get_next_event-no_room full check_stack fuel s polls ev ev2 vs vs2 rest h none_left room =
    let s1 = record s { events = names ((ev2, vs2) ∷ rest) } in
    rw
      (
        take-front fuel s polls ev (names ((ev2, vs2) ∷ rest)) h.events,
        deliver-no_room full ev s1 polls vs (vs2 ∷ bodies rest) h.params none_left
            (ap suc (length-bodies rest)),
      )
      (ap done (
        deliver-misaligned check_stack ev2 (record s { events = names rest }) polls vs
          (vs2 ∷ bodies rest) h.params room (omega (arith, length-bodies rest))))
