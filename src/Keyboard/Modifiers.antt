-- ===== src/Keyboard/Modifiers.antt =====
-- `convert_ps2_code` against a keyboard with three modifier keys that are held or not.
use craft_osos.Base.{
  ℕ, ◌<◌, ◌≡◌, ◌≢◌, ◌+◌, Bool, true, false, not, ◌&&◌, ◌||◌, refl, arith, ap, ◌∙◌,
}
use craft_osos.Base.{◌==◌, if◌then◌else◌, get_or, first_pass, of_first_pass}
use craft_osos.Keyboard.{ps2codes_sc1, ps2codes_sc1_upper, convert_ps2_code}

-- Which modifier keys are down; `shift` is toggled by Caps Lock too.
pub record Held : Type 0 where
  pub shift : Bool
  pub control : Bool
  pub alt : Bool

-- The byte `modifiers` that stands for them.
abbrev pub encode : Held → ℕ
encode k = (if k.shift then 1 else 0) + (if k.control then 2 else 0) + (if k.alt then 4 else 0)

-- What a scan code does to the keys that are held: make codes of the modifiers, their break codes
-- (the make code plus 0x80), and Caps Lock. Every other code leaves them as they are.
unfoldable pub press : Held → ℕ → Held
press k code =
    if code == 0x2A || code == 0x36
    then record k { shift = true }
    else (if code == 0x2A + 0x80 || code == 0x36 + 0x80
        then record k { shift = false }
        else (if code == 0x1D
            then record k { control = true }
            else (if code == 0x1D + 0x80
                then record k { control = false }
                else (if code == 0x38
                    then record k { alt = true }
                    else (if code == 0x38 + 0x80
                        then record k { alt = false }
                        else (if code == 0x3A then record k { shift = not k.shift } else k))))))

-- The character of a code: that of the layout chosen by `shift`, for codes of the table that stand
-- for a character.
unfoldable pub character : Held → ℕ → ℕ
unfolding ps2codes_sc1 ps2codes_sc1_upper
character k code =
    if get_or ps2codes_sc1 code 0 == 26
    then 0
    else (if k.shift then get_or ps2codes_sc1_upper code 0 else get_or ps2codes_sc1 code 0)

agrees : Held → ℕ → Bool
agrees k code =
    ((convert_ps2_code (encode k) code).0 == character k code)
    && ((convert_ps2_code (encode k) code).1 == encode (press k code))

agrees_table :
    (s c a : Bool) → first_pass (agrees (record { shift = s; control = c; alt = a })) 256 ≡ true
unfolding first_pass agrees convert_ps2_code press character
agrees_table true true true = refl
agrees_table true true false = refl
agrees_table true false true = refl
agrees_table true false false = refl
agrees_table false true true = refl
agrees_table false true false = refl
agrees_table false false true = refl
agrees_table false false false = refl

-- For every scan code of a byte and every state of the modifier keys, `convert_ps2_code` gives the
-- character of the code, 0 where it has none, and the byte of the keys that are then held.
pub convert_ps2_code_lem :
    (k : Held) (code : ℕ)
    → code < 256
    → convert_ps2_code (encode k) code ≡ (character k code, encode (press k code))
unfolding agrees
convert_ps2_code_lem k code h =
    let table = of_first_pass (agrees k) code 256 h (agrees_table k.shift k.control k.alt) in
    ground (arith, table)

quiet : Held → ℕ → Bool
quiet k code = character k code == 0 || encode (press k code) == encode k

quiet_table :
    (s c a : Bool) → first_pass (quiet (record { shift = s; control = c; alt = a })) 256 ≡ true
unfolding first_pass quiet press character
quiet_table true true true = refl
quiet_table true true false = refl
quiet_table true false true = refl
quiet_table true false false = refl
quiet_table false true true = refl
quiet_table false true false = refl
quiet_table false false true = refl
quiet_table false false false = refl

press-quiet :
    (k : Held) (code : ℕ) → code < 256 → character k code ≢ 0 → encode (press k code) ≡ encode k
unfolding quiet
press-quiet k code h ne =
    let table = of_first_pass (quiet k) code 256 h (quiet_table k.shift k.control k.alt) in
    ground (arith, table)

-- A code with a character changes no modifier, so the second call that the event loop makes for
-- such a code returns the same character.
pub convert_ps2_code_again :
    (k : Held) (code : ℕ)
    → code < 256
    → (convert_ps2_code (encode k) code).0 ≢ 0
    → let (ch, m) = convert_ps2_code (encode k) code in
      (m ≡ encode k) × (convert_ps2_code m code ≡ (ch, m))
convert_ps2_code_again k code h ne =
    let e = convert_ps2_code_lem k code h in
    let same : encode (press k code) ≡ encode k =
      press-quiet k code h (λ z. ne (ap (λ t. t.0) e ∙ z)) in
    let m : (convert_ps2_code (encode k) code).1 ≡ encode k = ap (λ t. t.1) e ∙ same in
    (m, rw m (ap (λ (t : ℕ). ((convert_ps2_code (encode k) code).0, t)) m))
