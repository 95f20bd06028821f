-- ===== src/Keyboard/Wait.antt =====
-- How much input and how many timers a call of `getkey` leaves.
use craft_osos.Base.{ℕ, ◌+◌, ◌≤◌, ◌≡◌, Bool, true, false, Option, none, some, List, [], ◌∷◌}
use craft_osos.Base.{
  if-keeps, bit_and, ◌==◌, if◌then◌else◌, length, arith, Bool-cases, inl, inr, ◌>>=◌,
}
use craft_osos.Keyboard.{Poll, get_scancode, getkey}

-- What the rounds to come can still queue: two events for a key, and one for each timer.
abbrev pub weight : List Poll → ℕ
weight [] = 0
weight (p ∷ polls) = 4 + length p.fired + weight polls

-- A call that starts at weight n uses at least one round up.
abbrev pub Uses : ℕ → Option (ℕ × List ℕ × List Poll) → Type 0
Uses n none = Unit {0}
Uses n (some (code, timers, polls)) = length timers + weight polls + 4 ≤ n

Uses-bind :
    (n : ℕ) (m : Option (ℕ × List ℕ × List Poll))
    (f : ℕ × List ℕ × List Poll → Option (ℕ × List ℕ × List Poll))
    → Uses n m
    → ((code : ℕ) (timers : List ℕ) (polls : List Poll)
        → length timers + weight polls + 4 ≤ n
        → Uses n (f (code, timers, polls)))
    → Uses n (m >>= f)
Uses-bind n none f u k = tt
Uses-bind n (some (code, timers, polls)) f u k = k code timers polls u

Uses-mono : (n m : ℕ) (r : Option (ℕ × List ℕ × List Poll)) → n ≤ m → Uses n r → Uses m r
Uses-mono n m none h u = tt
Uses-mono n m (some r) h u = omega arith

scancode-idle :
    (p : Poll) (polls : List Poll)
    → (bit_and p.status 1 == 0) ≡ true
    → get_scancode (p ∷ polls) [] ≡ get_scancode polls p.fired
unfolding get_scancode
scancode-idle p polls e = ground arith

scancode-ready :
    (p : Poll) (polls : List Poll)
    → (bit_and p.status 1 == 0) ≡ false
    → get_scancode (p ∷ polls) [] ≡ some (p.byte, [], polls)
unfolding get_scancode
scancode-ready p polls e = ground arith

get_scancode-Uses :
    (polls : List Poll) (timers : List ℕ)
    → Uses (length timers + weight polls) (get_scancode polls timers)
get_scancode-Uses [] timers = unfold get_scancode in tt
get_scancode-Uses (p ∷ polls) [] = elim (Bool-cases (bit_and p.status 1 == 0)) [
  | inl e ↦
      rw (scancode-idle p polls e) (Uses-mono _ _ _ (omega arith) (get_scancode-Uses polls p.fired))
  | inr e ↦ rw (scancode-ready p polls e) (omega arith)
]
get_scancode-Uses (p ∷ polls) (t ∷ timers) = unfold get_scancode in omega arith

if-Uses :
    (n : ℕ) (b : Bool) (r s : Option (ℕ × List ℕ × List Poll))
    → Uses n r
    → Uses n s
    → Uses n (if b then r else s)
if-Uses n true r s u v = u
if-Uses n false r s u v = v

-- `getkey` uses input up, and all timers that it leaves or that can still fire were there before.
pub getkey-Uses :
    (polls : List Poll) (timers : List ℕ)
    → Uses (length timers + weight polls) (getkey polls timers)
unfolding getkey
getkey-Uses polls timers =
    let n = length timers + weight polls in
    Uses-bind n _ _ (get_scancode-Uses polls timers) (λ code timers1 polls1 h1.
      if-Uses n (code == 0xE0) _ _
        (Uses-bind n _ _ (Uses-mono _ n _ (omega arith) (get_scancode-Uses polls1 timers1))
          (λ c timers2 polls2 h2. h2))
        (if-Uses n (code == 0xE1) _ _
          (Uses-bind n _ _ (Uses-mono _ n _ (omega arith) (get_scancode-Uses polls1 timers1))
            (λ hi timers2 polls2 h2.
              Uses-bind n _ _ (Uses-mono _ n _ (omega arith) (get_scancode-Uses polls2 timers2))
                (λ lo timers3 polls3 h3. h3)))
          h1))

-- No more than n timers fire in one round.
abbrev pub Calm : ℕ → List Poll → Type 0
Calm n [] = Unit {0}
Calm n (p ∷ polls) = (length p.fired ≤ n) × Calm n polls

-- A call leaves no more timers than that.
abbrev pub Few : ℕ → Option (ℕ × List ℕ × List Poll) → Type 0
Few n none = Unit {0}
Few n (some (code, timers, polls)) = (length timers ≤ n) × Calm n polls

Few-bind :
    (n : ℕ) (m : Option (ℕ × List ℕ × List Poll))
    (f : ℕ × List ℕ × List Poll → Option (ℕ × List ℕ × List Poll))
    → Few n m
    → ((code : ℕ) (timers : List ℕ) (polls : List Poll)
        → length timers ≤ n
        → Calm n polls
        → Few n (f (code, timers, polls)))
    → Few n (m >>= f)
Few-bind n none f h k = tt
Few-bind n (some (code, timers, polls)) f (few, calm) k = k code timers polls few calm

get_scancode-Few :
    (n : ℕ) (polls : List Poll) (timers : List ℕ)
    → length timers ≤ n
    → Calm n polls
    → Few n (get_scancode polls timers)
get_scancode-Few n [] timers few calm = unfold get_scancode in tt
get_scancode-Few n (p ∷ polls) [] few (fired, calm) = elim (Bool-cases (bit_and p.status 1 == 0)) [
  | inl e ↦ rw (scancode-idle p polls e) (get_scancode-Few n polls p.fired fired calm)
  | inr e ↦ rw (scancode-ready p polls e) (omega arith, calm)
]
get_scancode-Few n (p ∷ polls) (t ∷ timers) few (fired, calm) = unfold get_scancode in (few, calm)

-- The wait ends as soon as timers have fired, so a call of `getkey` leaves those of one round.
pub getkey-Few :
    (n : ℕ) (polls : List Poll) (timers : List ℕ)
    → length timers ≤ n
    → Calm n polls
    → Few n (getkey polls timers)
unfolding getkey
getkey-Few n polls timers few calm =
    Few-bind n _ _ (get_scancode-Few n polls timers few calm) (λ code timers1 polls1 few1 calm1.
      if-keeps (Few n) (code == 0xE0) _ _
        (Few-bind n _ _ (get_scancode-Few n polls1 timers1 few1 calm1)
          (λ c timers2 polls2 few2 calm2. (few2, calm2)))
        (if-keeps (Few n) (code == 0xE1) _ _
          (Few-bind n _ _ (get_scancode-Few n polls1 timers1 few1 calm1)
            (λ hi timers2 polls2 few2 calm2.
              Few-bind n _ _ (get_scancode-Few n polls2 timers2 few2 calm2)
                (λ lo timers3 polls3 few3 calm3. (few3, calm3))))
          (few1, calm1)))

-- If a timer fires while `getkey` waits for the byte behind 0xE0, the call comes back with that
-- byte missing: its code is 0xE000, for the key 128, and the byte is left to be read as a key of
-- its own.
pub getkey-cut_short :
    (prefix idle next : Poll) (rest : List Poll) (id : ℕ) (ids : List ℕ)
    → (bit_and prefix.status 1 == 0) ≡ false
    → prefix.byte ≡ 0xE0
    → (bit_and idle.status 1 == 0) ≡ true
    → idle.fired ≡ id ∷ ids
    → getkey (prefix ∷ idle ∷ next ∷ rest) [] ≡ some (0xE000, id ∷ ids, rest)
unfolding getkey
getkey-cut_short prefix idle next rest id ids ready byte quiet fired = rw (
  scancode-ready prefix (idle ∷ next ∷ rest) ready,
  byte,
  scancode-idle idle (next ∷ rest) quiet,
  fired,
)
