-- ===== src/Handle/Lines.antt =====
-- Reading a file line by line.
use craft_osos.Base.{ℕ, zero, suc, ◌≢◌, false, Option, some, List, [], ◌∷◌, ◌++◌, map}
use craft_osos.Lua.{Text}
use craft_osos.Handle.{File, check_char, handle_read_line}

abbrev pub NoNewline : Text → Type 0
NoNewline [] = Unit {0}
NoNewline (c ∷ cs) = (c ≢ 10) × NoNewline cs

-- The bytes of a line, moved in front of the position.
abbrev pub over : Text → List ℕ → List ℕ
over [] passed = passed
over (c ∷ cs) passed = over cs (c ∷ passed)

abbrev pub open_at : List ℕ → List ℕ → File
open_at passed ahead = record { passed = passed; ahead = ahead; at_end = false }

-- A file of lines, and a number of calls of `readLine`.
abbrev pub text_of : List Text → List ℕ
text_of [] = []
text_of (line ∷ lines) = line ++ (10 ∷ text_of lines)

abbrev pub all_over : List Text → List ℕ → List ℕ
all_over [] passed = passed
all_over (line ∷ lines) passed = all_over lines (10 ∷ over line passed)

abbrev pub NoNewlines : List Text → Type 0
NoNewlines [] = Unit {0}
NoNewlines (line ∷ lines) = NoNewline line × NoNewlines lines

abbrev pub returned_lines : List Text → List (Option Text)
returned_lines [] = []
returned_lines (line ∷ lines) = some (map check_char line) ∷ returned_lines lines

abbrev pub calls : ℕ → List ℕ → File → List (Option Text) × File
calls zero garbage f = ([], f)
calls (suc n) garbage f =
    let (t, f') = handle_read_line garbage f in let (ts, f'') = calls n garbage f' in (t ∷ ts, f'')
