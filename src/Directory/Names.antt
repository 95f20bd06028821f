-- ===== src/Directory/Names.antt =====
-- The names that `int_dirent` gives: how long they get.
use craft_osos.Base.{
  ℕ, ◌+◌, ◌≤◌, ◌≡◌, List, [], ◌∷◌, ◌++◌, length, length-append, lt→ltb, le→ltb, arith,
}
use native.Mathlib.Decide.{dec_lt}
use craft_osos.Lua.{Text}
use craft_osos.Directory.{Slot, slot_text, long_name}

-- A slot holds 13 characters.
abbrev pub Full : List Slot → Type 0
Full [] = Unit {0}
Full (s ∷ ss) = (length s.characters ≡ 13) × Full ss

length-slot_text : (cs : List ℕ) → length (slot_text cs) ≤ length cs
unfolding slot_text
length-slot_text [] = omega arith
length-slot_text (c ∷ cs) = ground (arith, length-slot_text cs)

long_name-le :
    (ss : List Slot) (name : Text) → Full ss → length name ≤ 240 → length (long_name ss name) ≤ 253
unfolding long_name
long_name-le [] name h small = omega arith
long_name-le (s ∷ ss) name (e, h) small =
    let name' = name ++ slot_text s.characters in
    let size : length name' ≤ 253 =
      omega (arith, length-append name (slot_text s.characters), length-slot_text s.characters) in
    elim (dec_lt 240 (length name')) [
      | yes long ↦ rw (lt→ltb 240 (length name') long) size
      | no short ↦
          rw (le→ltb 240 (length name') (omega arith)) (long_name-le ss name' h (omega arith))
    ]

-- However many slots a long name claims, at most 253 characters are stored in `final_name`, so that
-- they and the final NUL stay inside of its 256 bytes. A slot holds 13 characters.
pub long_name-fits : (ss : List Slot) → Full ss → length (long_name ss []) + 1 ≤ 256
long_name-fits ss h = omega (arith, long_name-le ss [] h (omega arith))
