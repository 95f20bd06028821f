-- ===== src/Handle.antt =====
-- fs_handle.c: the handles that read a file.
mod Tests
pub mod Lines
use craft_osos.Base.{
  ℕ, zero, suc, ◌+◌, ◌++◌, Bool, true, false, ◌||◌, ◌&&◌, Option, none, some, List, [], ◌∷◌, leb,
  ltb, ◌==◌, if◌then◌else◌, length,
}
use craft_osos.Lua.{Text}
use craft_osos.Os.{c_string}

-- A `FILE` that is read: the bytes in front of its position, last first, those behind it, and the
-- flag that `feof` gives.
pub record File : Type 0 where
  pub passed : List ℕ
  pub ahead : List ℕ
  pub at_end : Bool

abbrev pub got : File → List ℕ → Option ℕ × File
got f [] = (none, record f { at_end = true })
got f (c ∷ cs) = (some c, record f { passed = c ∷ f.passed; ahead = cs })

-- `fgetc`, with none for `EOF`
abbrev pub fgetc : File → Option ℕ × File
fgetc f = got f f.ahead

-- The bytes of a file when its position goes back; it does not go back past the start.
unfoldable pub back_by : ℕ → List ℕ → List ℕ → Option (List ℕ × List ℕ)
back_by zero passed ahead = some (passed, ahead)
back_by (suc n) [] ahead = none
back_by (suc n) (c ∷ passed) ahead = back_by n passed (c ∷ ahead)

abbrev pub moved : File → Option (List ℕ × List ℕ) → File
moved f none = f
moved f (some (passed, ahead)) = record { passed = passed; ahead = ahead; at_end = false }

-- `fseek(fp, -n, SEEK_CUR)`
unfoldable pub seek_back : ℕ → File → File
unfolding back_by
seek_back n f = moved f (back_by n f.passed f.ahead)

-- `checkChar`, for a byte; those above 127 are negative.
unfoldable pub check_char : ℕ → ℕ
check_char c =
    if c == 127
    then b'?'
    else (if (leb 32 c && ltb c 127) || (c == 10 || (c == 9 || c == 13)) then c else b'?')

-- `checkChar(fgetc(fp))`; `EOF` is -1.
abbrev pub checked : Option ℕ → ℕ
checked none = b'?'
checked (some c) = check_char c

abbrev pub is_newline : Option ℕ → Bool
is_newline none = false
is_newline (some c) = c == 10

-- `while (fgetc(fp) != '\n' && !feof(fp)) size++`
unfoldable pub line_loop : ℕ → File → ℕ × File
line_loop zero f = (0, f)
line_loop (suc fuel) f =
    let (c, f') = fgetc f in
    let (size, f'') = line_loop fuel f' in
    if is_newline c || f'.at_end then (0, f') else (suc size, f'')

-- `for (int i = 0; i < size; i++) retval[i] = checkChar(fgetc(fp))`
unfoldable pub read_chars : ℕ → File → Text × File
unfolding check_char
read_chars zero f = ([], f)
read_chars (suc n) f =
    let (c, f') = fgetc f in let (t, f'') = read_chars n f' in (checked c ∷ t, f'')

-- `handle_readLine`: what it pushes, if anything. No NUL is stored behind the line; `garbage` is
-- what the memory holds there.
unfoldable pub handle_read_line : List ℕ → File → Option Text × File
unfolding line_loop seek_back read_chars c_string
handle_read_line garbage f =
    let (size, f1) = line_loop (suc (length f.ahead)) f in
    let (t, f2) = read_chars size (seek_back (size + 1) f1) in
    if f.at_end then (none, f) else (some (c_string (t ++ garbage)), (fgetc f2).1)

-- `handle_readAll`: the block is cleared, and the position goes to the end and back.
unfoldable pub handle_read_all : File → Option Text × File
unfolding read_chars c_string
handle_read_all f =
    let (t, f') = read_chars (length f.ahead) (record f { at_end = false }) in
    if f.at_end then (none, f) else (some (c_string t), f')

-- `handle_readChar`, which stores no NUL either.
unfoldable pub handle_read_char : List ℕ → File → Option Text × File
unfolding check_char c_string
handle_read_char garbage f =
    let (c, f') = fgetc f in
    if f.at_end then (none, f) else (some (c_string (checked c ∷ garbage)), f')
