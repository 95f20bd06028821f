-- ===== src/Keyboard.antt =====
-- The PS/2 keyboard part of os.cpp: scan codes of set 1, modifiers, and the key codes of
-- ComputerCraft.
mod Tests
pub mod Modifiers
pub mod Codes
pub mod Wait
use craft_osos.Base.{
  ℕ, zero, suc, ◌+◌, ◌-◌, ◌*◌, ◌^◌, bit_and, bit_or, Bool, Option, none, some, List, [], ◌∷◌, ◌++◌,
}
use craft_osos.Base.{true, false, ltb, ◌==◌, not, ◌&&◌, ◌||◌, if◌then◌else◌, get_or, ◌>>=◌}

-- `ps2codes_sc1`: 0 is no key, 26 (octal 32) is a key with no character.
unfoldable pub ps2codes_sc1 : List ℕ
ps2codes_sc1 =
    0 ∷ 26 ∷ b'1' ∷ b'2' ∷ b'3' ∷ b'4' ∷ b'5' ∷ b'6' ∷ b'7' ∷ b'8' ∷ b'9' ∷ b'0' ∷ b'-' ∷ b'=' ∷ 26
    ∷ 26 ∷ b'q' ∷ b'w' ∷ b'e' ∷ b'r' ∷ b't' ∷ b'y' ∷ b'u' ∷ b'i' ∷ b'o' ∷ b'p' ∷ b'[' ∷ b']' ∷ 26
    ∷ 26 ∷ b'a' ∷ b's' ∷ b'd' ∷ b'f' ∷ b'g' ∷ b'h' ∷ b'j' ∷ b'k' ∷ b'l' ∷ b';' ∷ 39 ∷ b'`' ∷ 26 ∷ 92
    ∷ b'z' ∷ b'x' ∷ b'c' ∷ b'v' ∷ b'b' ∷ b'n' ∷ b'm' ∷ b',' ∷ b'.' ∷ b'/' ∷ 26 ∷ 0 ∷ 26 ∷ b' ' ∷ 26
    ∷ 26 ∷ 26 ∷ 26 ∷ 26 ∷ 26 ∷ 26 ∷ 26 ∷ 26 ∷ 26 ∷ 26 ∷ 26 ∷ 26 ∷ 0 ∷ 0 ∷ 0 ∷ 0 ∷ 0 ∷ 0 ∷ 0 ∷ 0 ∷ 0
    ∷ 0 ∷ 0 ∷ 0 ∷ 0 ∷ 0 ∷ 0 ∷ 0 ∷ 0 ∷ 26 ∷ 26 ∷ []

unfoldable pub ps2codes_sc1_upper : List ℕ
ps2codes_sc1_upper =
    0 ∷ 26 ∷ b'!' ∷ b'@' ∷ b'#' ∷ b'$' ∷ b'%' ∷ b'^' ∷ b'&' ∷ b'*' ∷ b'(' ∷ b')' ∷ b'_' ∷ b'+' ∷ 26
    ∷ 26 ∷ b'Q' ∷ b'W' ∷ b'E' ∷ b'R' ∷ b'T' ∷ b'Y' ∷ b'U' ∷ b'I' ∷ b'O' ∷ b'P' ∷ b'{' ∷ b'}' ∷ 26
    ∷ 26 ∷ b'A' ∷ b'S' ∷ b'D' ∷ b'F' ∷ b'G' ∷ b'H' ∷ b'J' ∷ b'K' ∷ b'L' ∷ b':' ∷ b'"' ∷ b'~' ∷ 26
    ∷ b'|' ∷ b'Z' ∷ b'X' ∷ b'C' ∷ b'V' ∷ b'B' ∷ b'N' ∷ b'M' ∷ b'<' ∷ b'>' ∷ b'?' ∷ 26 ∷ 0 ∷ 26
    ∷ b' ' ∷ 26 ∷ 26 ∷ 26 ∷ 26 ∷ 26 ∷ 26 ∷ 26 ∷ 26 ∷ 26 ∷ 26 ∷ 26 ∷ 26 ∷ 26 ∷ 0 ∷ 0 ∷ 0 ∷ 0 ∷ 0 ∷ 0
    ∷ 0 ∷ 0 ∷ 0 ∷ 0 ∷ 0 ∷ 0 ∷ 0 ∷ 0 ∷ 0 ∷ 0 ∷ 0 ∷ 26 ∷ 26 ∷ []

-- The bits of `modifiers`, and `~bit` on a `char`.
abbrev pub modifier_shift : ℕ
modifier_shift = 1

abbrev pub modifier_control : ℕ
modifier_control = 2

abbrev pub modifier_alt : ℕ
modifier_alt = 4

abbrev pub clear_bit : ℕ → ℕ → ℕ
clear_bit m b = bit_and m (255 - b)

unfoldable pub getcode : ℕ → ℕ
getcode code = bit_and code 0x7f

unfoldable pub iscode : ℕ → Bool
iscode code = not (bit_and code 0x80 == 0)

-- What a key with no character does to the modifiers.
unfoldable pub special_key : ℕ → ℕ → ℕ
special_key modifiers c =
    if c == 0x2A || c == 0x36
    then bit_or modifiers modifier_shift
    else (if c == 0x1D
        then bit_or modifiers modifier_control
        else (if c == 0x38
            then bit_or modifiers modifier_alt
            else (if c == 0x3A
                then bit_or (clear_bit modifiers modifier_shift)
                    (if bit_and modifiers modifier_shift == 0 then 1 else 0)
                else modifiers)))

-- The character, 0 for none, and the new modifiers. `code` is an `unsigned char`.
unfoldable pub convert_ps2_code : ℕ → ℕ → ℕ × ℕ
unfolding special_key getcode ps2codes_sc1 ps2codes_sc1_upper
convert_ps2_code modifiers code =
    if code == 0xAA || code == 0xB6
    then (0, clear_bit modifiers modifier_shift)
    else (if code == 0x9D
        then (0, clear_bit modifiers modifier_control)
        else (if code == 0xB8
            then (0, clear_bit modifiers modifier_alt)
            else (if ltb 0x58 code || get_or ps2codes_sc1 code 0 == 0
                then (0, modifiers)
                else (if get_or ps2codes_sc1 code 0 == 26
                    then (0, special_key modifiers (getcode code))
                    else (if bit_and modifiers modifier_shift == 0
                        then (get_or ps2codes_sc1 code 0, modifiers)
                        else (get_or ps2codes_sc1_upper code 0, modifiers))))))

-- `ps2tocc`, from the `int` of `getkey` to the key code of an event.
unfoldable pub ps2tocc : ℕ → ℕ
ps2tocc code =
    if bit_and code 0xFF00 == 0xE000
    then bit_or (bit_and code 0x7F) 0x80
    else (if bit_and code 0xFF7F7F == 0xE11D45 then 197 else bit_and code 0x7F)

-- One round of the wait in `get_scancode`: the status port, the data port, and the ids of the
-- timers that fire while the events are processed.
pub record Poll : Type 0 where
  pub status : ℕ
  pub byte : ℕ
  pub fired : List ℕ

-- `get_scancode`, over the rounds to come and the fired timers: the code, the timers and the rounds
-- that are left. `none` is a wait that goes on when the rounds given are over.
unfoldable pub get_scancode : List Poll → List ℕ → Option (ℕ × List ℕ × List Poll)
get_scancode [] timers = none
get_scancode (p ∷ polls) [] = elim (bit_and p.status 1 == 0) [
  | true ↦ get_scancode polls ([] ++ p.fired)
  | false ↦ some (p.byte, [], polls)
]
get_scancode (p ∷ polls) (t ∷ timers) = some (0, t ∷ timers, polls)

-- `getkey`. The two bytes behind 0xE1 are read from left to right.
unfoldable pub getkey : List Poll → List ℕ → Option (ℕ × List ℕ × List Poll)
unfolding get_scancode
getkey polls timers = get_scancode polls timers >>= λ (code, timers1, polls1).
    if code == 0xE0
    then (get_scancode polls1 timers1 >>= λ (c, timers2, polls2).
        some (bit_or 0xE000 c, timers2, polls2))
    else (if code == 0xE1
        then (get_scancode polls1 timers1 >>= λ (hi, timers2, polls2).
            get_scancode polls2 timers2 >>= λ (lo, timers3, polls3).
            some (bit_or (bit_or 0xE00000 (hi * 2 ^ 8)) lo, timers3, polls3))
        else some (code, timers1, polls1))
