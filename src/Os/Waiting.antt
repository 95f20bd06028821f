-- ===== src/Os/Waiting.antt =====
-- `getNextEvent` over any input: it ends with a result or in want of input, its result is an event
-- that the filter lets pass, and events and parameters stay aligned.
use craft_osos.Base.{
  ℕ, zero, suc, ◌+◌, ◌≤◌, ◌<◌, ◌≡◌, ◌≢◌, inl, inr, Bool, true, false, Option, none, some, List, [],
  ◌∷◌, ◌++◌, ◌==◌, length, length-append, arith, refl, sym, ap, ◌∙◌, if-keeps, List-cases,
  Option-cases, ◌-◌, leb, le→leb,
}
use craft_osos.Lua.{Text, Value, text, integer}
use craft_osos.Base.Int.{pos}
use craft_osos.Keyboard.{Poll, getkey}
use craft_osos.Keyboard.Wait.{weight, getkey-Uses, Calm, getkey-Few}
use craft_osos.Os.{
  Os, queue, timer_name, key_event, timer_events, Outcome, done, waiting, crash, out_of_fuel,
  wait_events, take_event, Delivery, deliver, get_next_event, push_name, min_stack,
}
use craft_osos.Os.Pending.{
  Entry, names, bodies, Holds, queue-Holds, key_event-keeps, timer_events-keeps, wait-ready,
  wait-waiting, wait-key,
}
use craft_osos.Os.Filter.{length-bodies, Passes, unwanted-cases, take-passing, take-held_back}

-- A run that ends well: with a result of property P, or in want of input. It neither faults nor
-- runs out of fuel.
abbrev pub Returns : {A : Type 0} → (A → Type 0) → Outcome A → Type 0
Returns P (done a) = P a
Returns P waiting = Unit {0}
Returns P crash = ⊥
Returns P out_of_fuel = ⊥

Returns-mono :
    {A : Type 0} {P Q : A → Type 0} (o : Outcome A)
    → Returns P o
    → ((a : A) → P a → Q a)
    → Returns Q o
Returns-mono (done a) r f = f a r
Returns-mono waiting r f = tt
Returns-mono crash r f = absurd r
Returns-mono out_of_fuel r f = absurd r

-- Entries with a name that is not NULL.
abbrev pub Named : List Entry → Type 0
Named [] = Unit {0}
Named ((n, _) ∷ es) = (n ≢ none) × Named es

-- The state is aligned: its events and parameters are those of one list of named entries.
abbrev pub Steady : Os → Type 0
Steady s = (es : List Entry) × Holds s es × Named es

Named-append : (xs ys : List Entry) → Named xs → Named ys → Named (xs ++ ys)
Named-append [] ys h k = k
Named-append (e ∷ xs) ys (n, h) k = (n, Named-append xs ys h k)

pub queue-Steady : (name : Text) (vs : List Value) (s : Os) → Steady s → Steady (queue name vs s)
queue-Steady name vs s (es, h, n) = (
  es ++ (some name, vs) ∷ [],
  queue-Holds name vs h,
  Named-append es ((some name, vs) ∷ []) n ((λ e. cc), tt),
)

pub fields-Steady : (s t : Os) → t.events ≡ s.events → t.params ≡ s.params → Steady s → Steady t
fields-Steady s t e p (es, h, n) = (es, record { events = e ∙ h.events; params = p ∙ h.params }, n)

-- An upper bound for the events that can be taken before the input is used up.
abbrev pub measure : Os → List Poll → ℕ
measure s polls = length s.events + length s.timers + weight polls

length-queue :
    (name : Text) (vs : List Value) (s : Os) → length (queue name vs s).events ≡ length s.events + 1
length-queue name vs s = length-append s.events (some name ∷ [])

-- A key queues two events at most and leaves the timers.
length-key_event :
    (code : ℕ) (s : Os)
    → let s' = key_event code s in (length s'.events ≤ length s.events + 2) × (s'.timers ≡ s.timers)
unfolding key_event
length-key_event code s =
    let P : Os → Type 0 = λ s'. (length s'.events ≤ length s.events + 2) × (s'.timers ≡ s.timers) in
    if-keeps P (code == 0) s _ (omega arith, refl)
      (if-keeps P _ _ _ (omega (arith, length-queue), refl) (omega (arith, length-queue), refl))

length-timer_events :
    (ids : List ℕ) (s : Os)
    → (length (timer_events ids s).events ≡ length s.events + length ids)
      × ((timer_events ids s).timers ≡ [])
unfolding timer_events
length-timer_events [] s = (omega arith, refl)
length-timer_events (id ∷ ids) s =
    let (n, t) = length-timer_events ids (queue timer_name (integer (pos id) ∷ []) s) in
    (omega (arith, n, length-append {0} s.events (some timer_name ∷ [])), t)

-- A round of the wait that begins without parameters pushes those of a key and a character at most
-- and one for each timer, so that many timers leave it room on `paramQueue`.
abbrev pub most_timers : ℕ
most_timers = min_stack - 2

-- No more timers have fired, or fire in one round of the input, than there is room for.
abbrev pub Quiet : Os → List Poll → Type 0
Quiet s polls = (length s.timers ≤ most_timers) × Calm most_timers polls

length-Steady : (s : Os) → Steady s → length s.params ≡ length s.events
length-Steady s (es, h, _) = ap length h.params ∙ length-bodies es ∙ sym (ap length h.events)

-- What a wait hands on.
abbrev Waited : Os → List Poll → Os × List Poll → Type 0
Waited s polls (s', polls') =
    Steady s' × (s'.events ≢ []) × (measure s' polls' ≤ measure s polls) × Quiet s' polls'

-- A wait from a state whose measure is below the fuel.
pub wait_events-Returns :
    (fuel : ℕ) (s : Os) (polls : List Poll)
    → Steady s
    → Quiet s polls
    → measure s polls < fuel
    → Returns (Waited s polls) (wait_events fuel s polls)
wait_events-Returns zero s polls h quiet f = absurd (omega arith)
wait_events-Returns (suc fuel) s polls h quiet f = elim (List-cases s.events) [
  | inr (ev, evs, e) ↦ rw (wait-ready fuel s polls ev evs e) (h, (λ z. cc), (omega arith), quiet)
  | inl e ↦ elim (Option-cases (getkey polls s.timers)) [
    | inl k ↦ rw (wait-waiting fuel s polls e k) tt
    | inr ((code, timers, rest), k) ↦
        (let s1 = record s { timers = timers } in
          let s2 = key_event code s1 in
          let s3 = timer_events timers s2 in
          let (few, calm) : (length timers ≤ most_timers) × Calm most_timers rest =
            rw k at (getkey-Few most_timers polls s.timers quiet.0 quiet.1) in
          let uses : length timers + weight rest + 4 ≤ length s.timers + weight polls =
            rw k at (getkey-Uses polls s.timers) in
          let (grown, _) = length-key_event code s1 in
          let (moved, no_timers) = length-timer_events timers s2 in
          let none_before : length s.events ≡ 0 = ap length e in
          let none_left : length s3.timers ≡ 0 = ap length no_timers in
          let steady : Steady s3 = timer_events-keeps Steady queue-Steady fields-Steady timers s2 (
            key_event-keeps Steady queue-Steady fields-Steady code s1
              (fields-Steady s s1 refl refl h)) in
          let less : measure s3 rest < measure s polls = omega arith in
          let room : leb (length s3.params) min_stack ≡ true =
            le→leb (length s3.params) min_stack (omega (arith, length-Steady s3 steady)) in
          rw (wait-key fuel s polls code timers rest e k room) (
            Returns-mono (wait_events fuel s3 rest)
              (wait_events-Returns fuel s3 rest steady (omega arith, calm) (omega arith))
              (λ (s', polls') (st, ne, le, q). (st, ne, (omega arith), q))))
  ]
]

-- What the loop of `getNextEvent` hands on: a named event that the filter lets pass, in a state
-- whose parameter stack has the parameters of that event in front.
record Taken (filter : Text) (ev : Option Text) (s : Os) : Type 0 where
  name : Text
  values : List Value
  left : List Entry
  named : ev ≡ some name
  passes : Passes filter ev
  events : s.events ≡ names left
  params : s.params ≡ values ∷ bodies left
  steady : Named left

abbrev Takes : Text → Option Text × Os × List Poll → Type 0
Takes filter (ev, s, polls) = Taken filter ev s

module _ (filter : Text) where
  take_event-Returns :
      (fuel : ℕ) (s : Os) (polls : List Poll)
      → Steady s
      → Quiet s polls
      → measure s polls < fuel
      → Returns (Takes filter) (take_event fuel filter s polls)
  take_event-Returns zero s polls h quiet f = absurd (omega arith)
  take_event-Returns (suc fuel) s polls h quiet f =
      from_wait (wait_events (suc fuel) s polls) refl
        (wait_events-Returns (suc fuel) s polls h quiet f) (take_event-Returns fuel)
    where
      Goal : Type 0
      Goal = Returns (Takes filter) (take_event (suc fuel) filter s polls)

      Recursion : Type 0
      Recursion =
          (s : Os) (polls : List Poll)
          → Steady s
          → Quiet s polls
          → measure s polls < fuel
          → Returns (Takes filter) (take_event fuel filter s polls)

      from_front :
          (s' : Os) (polls' : List Poll) (n : Option Text) (vs : List Value) (es : List Entry)
          → wait_events (suc fuel) s polls ≡ done (s', polls')
          → Holds s' ((n, vs) ∷ es)
          → Named ((n, vs) ∷ es)
          → measure s' polls' ≤ measure s polls
          → Quiet s' polls'
          → Recursion
          → Goal
      from_front s' polls' none vs es w k (nn, ns) le q rec = absurd (nn refl)
      from_front s' polls' (some name) vs es w k (nn, ns) le q rec =
          elim (unwanted-cases filter name) [
            | inl (u, p) ↦
                rw (take-passing fuel filter s s' polls polls' (some name) (names es) w k.events u)
                  (record {
                    name = name;
                    values = vs;
                    left = es;
                    named = refl;
                    passes = p;
                    events = refl;
                    params = k.params;
                    steady = ns;
                  })
            | inr u ↦
                (let fewer : suc (length (names es)) ≡ length s'.events =
                    ap length (sym k.events) in
                  rw
                    (take-held_back fuel filter s s' polls polls' (some name) (names es) w k.events
                      vs (bodies es) u k.params)
                    (rec _ polls' (es, record { events = refl; params = refl }, ns) q
                      (omega arith)))
          ]

      from_wait :
          (o : Outcome (Os × List Poll))
          → wait_events (suc fuel) s polls ≡ o
          → Returns (Waited s polls) o
          → Recursion
          → Goal
      from_wait (done (s', polls')) w (([], k, ns), ne, le, q) rec = absurd (ne k.events)
      from_wait (done (s', polls')) w (((n, vs) ∷ es, k, ns), ne, le, q) rec =
          from_front s' polls' n vs es w k ns le q rec
      from_wait waiting w r rec = unfold take_event in rw w tt
      from_wait crash w r rec = absurd r
      from_wait out_of_fuel w r rec = absurd r

deliver-params :
    (check_stack : ℕ → Bool) (ev : Option Text) (s : Os) (polls : List Poll) (p : List Value)
    (ps : List (List Value))
    → s.params ≡ p ∷ ps
    → check_stack (length p + 1) ≡ true
    → length ps ≡ length s.events
    → deliver check_stack ev s polls ≡ record {
      pushed = push_name ev ∷ p;
      warned = false;
      after = record s { params = ps };
      polls = polls;
    }
unfolding deliver
deliver-params check_stack ev s polls p ps e room l = ground arith

-- What a delivery gives: an event of a name that the filter lets pass, an aligned state, and no
-- warning.
pub record Delivered (filter : Text) (d : Delivery) : Type 0 where
  pub name : Text
  pub values : List Value
  pub passes : Passes filter (some name)
  pub pushed : d.pushed ≡ text name ∷ values
  pub quiet : d.warned ≡ false
  pub steady : Steady d.after

-- From an aligned state `getNextEvent` does not fault, whatever the filter and the keys are, if no
-- more than 18 timers have fired and no more fire at once while it waits, so that `paramQueue` does
-- not overflow: it returns a named event that the filter lets pass, with parameters, and leaves the
-- state aligned without a warning, or it waits for more input. More fuel than the queued events,
-- the fired timers and what the input can still queue is enough. The stack of the coroutine is
-- assumed to have room.
pub get_next_event-Returns :
    (check_stack : ℕ → Bool) (filter : Text) (fuel : ℕ) (s : Os) (polls : List Poll)
    → ((n : ℕ) → check_stack n ≡ true)
    → Steady s
    → Quiet s polls
    → measure s polls < fuel
    → Returns (Delivered filter) (get_next_event check_stack fuel filter s polls)
get_next_event-Returns check_stack filter fuel s polls room h quiet f =
    finish (take_event fuel filter s polls) refl (take_event-Returns filter fuel s polls h quiet f)
  where
    finish :
        (o : Outcome (Option Text × Os × List Poll))
        → take_event fuel filter s polls ≡ o
        → Returns (Takes filter) o
        → Returns (Delivered filter) (get_next_event check_stack fuel filter s polls)
    finish (done (ev, s', polls')) e t =
        unfold get_next_event in
        let sizes : length (bodies t.left) ≡ length s'.events =
          length-bodies t.left ∙ ap length (sym t.events) in
        rw
          (
            e,
            deliver-params check_stack ev s' polls' t.values (bodies t.left) t.params (room _)
                sizes,
            t.named,
          )
          (record {
            name = t.name;
            values = t.values;
            passes = rw (← t.named) t.passes;
            pushed = refl;
            quiet = refl;
            steady = (t.left, record { events = t.events; params = refl }, t.steady);
          })
    finish waiting e t = unfold get_next_event in rw e tt
    finish crash e t = absurd t
    finish out_of_fuel e t = absurd t
