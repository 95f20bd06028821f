-- ===== src/Library.antt =====
-- lib.c, lib.h: the tables of the libraries and how they get into the globals of a Lua state; the
-- tables themselves (bit.h, fs.cpp, os.cpp, redstone.h, term.cpp), and their order in main.cpp.
mod Tests
pub mod Load
pub mod Program
use craft_osos.Base.{
  ℕ, zero, suc, Bool, Option, none, some, List, [], ◌∷◌, get_elem?, ◌>>=◌, if◌then◌else◌,
}
use craft_osos.Lua.{Text}
use craft_osos.Os.{text_eq}

-- The C functions that the tables point to.
pub data Function : Type 0 where
  bit_band bit_bor bit_bnot bit_bxor bit_blshift bit_brshift bit_blogic_rshift : Function
  fs_list fs_exists fs_is_dir fs_is_read_only fs_get_name fs_get_drive fs_get_size fs_get_free_space
        fs_make_dir fs_move fs_copy fs_delete fs_combine fs_open fs_find fs_get_dir :
      Function
  os_get_computer_id os_get_computer_label os_set_computer_label os_queue_event os_clock
        os_start_timer os_cancel_timer os_time os_epoch os_day os_set_alarm os_cancel_alarm
        os_shutdown os_reboot :
      Function
  rs_get_sides rs_false rs_none rs_0 : Function
  term_write term_scroll term_set_cursor_pos term_set_cursor_blink term_get_cursor_pos term_get_size
        term_clear term_clear_line term_set_text_color term_set_background_color term_is_color
        term_get_text_color term_get_background_color term_blit term_get_palette_color
        term_set_palette_color :
      Function

-- `library_t`
pub record Library : Type 0 where
  pub name : Text
  pub count : ℕ
  pub keys : List Text
  pub values : List Function

-- A Lua table with strings for keys, the last assignment first.
abbrev pub Table : Type 0 → Type 0
Table A = List (Text × A)

unfoldable pub field : {A : Type 0} → Text → Table A → Option A
field key [] = none
field key ((k, value) ∷ t) = let rest = field key t in if text_eq k key then some value else rest

-- The loop of `load_library`, with the entries to come; a read behind the arrays is `none`.
unfoldable pub fill : ℕ → ℕ → List Text → List Function → Table Function → Option (Table Function)
fill zero i keys values t = some t
fill (suc count) i keys values t = do
  key ← get_elem? keys i
  value ← get_elem? values i
  fill count (suc i) keys values ((key, value) ∷ t)

-- The globals of a Lua state, as far as they are tables of functions.
abbrev pub Globals : Type 0
Globals = Table (Table Function)

unfoldable pub load_library : Library → Globals → Option Globals
unfolding fill
load_library lib globals = do
  t ← fill lib.count 0 lib.keys lib.values []
  some ((lib.name, t) ∷ globals)

unfoldable pub bit_lib : Library
bit_lib = record {
  name = b'b' ∷ b'i' ∷ b't' ∷ [];
  count = 7;
  keys =
      (b'b' ∷ b'a' ∷ b'n' ∷ b'd' ∷ [])
      ∷ (b'b' ∷ b'o' ∷ b'r' ∷ [])
      ∷ (b'b' ∷ b'n' ∷ b'o' ∷ b't' ∷ [])
      ∷ (b'b' ∷ b'x' ∷ b'o' ∷ b'r' ∷ [])
      ∷ (b'b' ∷ b'l' ∷ b's' ∷ b'h' ∷ b'i' ∷ b'f' ∷ b't' ∷ [])
      ∷ (b'b' ∷ b'r' ∷ b's' ∷ b'h' ∷ b'i' ∷ b'f' ∷ b't' ∷ [])
      ∷ (b'b' ∷ b'l' ∷ b'o' ∷ b'g' ∷ b'i' ∷ b'c' ∷ b'_' ∷ b'r' ∷ b's' ∷ b'h' ∷ b'i' ∷ b'f' ∷ b't'
          ∷ [])
      ∷ [];
  values =
      bit_band ∷ bit_bor ∷ bit_bnot ∷ bit_bxor ∷ bit_blshift ∷ bit_brshift ∷ bit_blogic_rshift ∷ [];
}

unfoldable pub fs_lib : Library
fs_lib = record {
  name = b'f' ∷ b's' ∷ [];
  count = 16;
  keys =
      (b'l' ∷ b'i' ∷ b's' ∷ b't' ∷ [])
      ∷ (b'e' ∷ b'x' ∷ b'i' ∷ b's' ∷ b't' ∷ b's' ∷ [])
      ∷ (b'i' ∷ b's' ∷ b'D' ∷ b'i' ∷ b'r' ∷ [])
      ∷ (b'i' ∷ b's' ∷ b'R' ∷ b'e' ∷ b'a' ∷ b'd' ∷ b'O' ∷ b'n' ∷ b'l' ∷ b'y' ∷ [])
      ∷ (b'g' ∷ b'e' ∷ b't' ∷ b'N' ∷ b'a' ∷ b'm' ∷ b'e' ∷ [])
      ∷ (b'g' ∷ b'e' ∷ b't' ∷ b'D' ∷ b'r' ∷ b'i' ∷ b'v' ∷ b'e' ∷ [])
      ∷ (b'g' ∷ b'e' ∷ b't' ∷ b'S' ∷ b'i' ∷ b'z' ∷ b'e' ∷ [])
      ∷ (b'g' ∷ b'e' ∷ b't' ∷ b'F' ∷ b'r' ∷ b'e' ∷ b'e' ∷ b'S' ∷ b'p' ∷ b'a' ∷ b'c' ∷ b'e' ∷ [])
      ∷ (b'm' ∷ b'a' ∷ b'k' ∷ b'e' ∷ b'D' ∷ b'i' ∷ b'r' ∷ [])
      ∷ (b'm' ∷ b'o' ∷ b'v' ∷ b'e' ∷ [])
      ∷ (b'c' ∷ b'o' ∷ b'p' ∷ b'y' ∷ [])
      ∷ (b'd' ∷ b'e' ∷ b'l' ∷ b'e' ∷ b't' ∷ b'e' ∷ [])
      ∷ (b'c' ∷ b'o' ∷ b'm' ∷ b'b' ∷ b'i' ∷ b'n' ∷ b'e' ∷ [])
      ∷ (b'o' ∷ b'p' ∷ b'e' ∷ b'n' ∷ [])
      ∷ (b'f' ∷ b'i' ∷ b'n' ∷ b'd' ∷ [])
      ∷ (b'g' ∷ b'e' ∷ b't' ∷ b'D' ∷ b'i' ∷ b'r' ∷ [])
      ∷ [];
  values =
      fs_list ∷ fs_exists ∷ fs_is_dir ∷ fs_is_read_only ∷ fs_get_name ∷ fs_get_drive ∷ fs_get_size
      ∷ fs_get_free_space ∷ fs_make_dir ∷ fs_move ∷ fs_copy ∷ fs_delete ∷ fs_combine ∷ fs_open
      ∷ fs_find ∷ fs_get_dir ∷ [];
}

unfoldable pub os_lib : Library
os_lib = record {
  name = b'o' ∷ b's' ∷ [];
  count = 14;
  keys =
      (b'g' ∷ b'e' ∷ b't' ∷ b'C' ∷ b'o' ∷ b'm' ∷ b'p' ∷ b'u' ∷ b't' ∷ b'e' ∷ b'r' ∷ b'I' ∷ b'D'
        ∷ [])
      ∷ (b'g' ∷ b'e' ∷ b't' ∷ b'C' ∷ b'o' ∷ b'm' ∷ b'p' ∷ b'u' ∷ b't' ∷ b'e' ∷ b'r' ∷ b'L' ∷ b'a'
          ∷ b'b' ∷ b'e' ∷ b'l' ∷ [])
      ∷ (b's' ∷ b'e' ∷ b't' ∷ b'C' ∷ b'o' ∷ b'm' ∷ b'p' ∷ b'u' ∷ b't' ∷ b'e' ∷ b'r' ∷ b'L' ∷ b'a'
          ∷ b'b' ∷ b'e' ∷ b'l' ∷ [])
      ∷ (b'q' ∷ b'u' ∷ b'e' ∷ b'u' ∷ b'e' ∷ b'E' ∷ b'v' ∷ b'e' ∷ b'n' ∷ b't' ∷ [])
      ∷ (b'c' ∷ b'l' ∷ b'o' ∷ b'c' ∷ b'k' ∷ [])
      ∷ (b's' ∷ b't' ∷ b'a' ∷ b'r' ∷ b't' ∷ b'T' ∷ b'i' ∷ b'm' ∷ b'e' ∷ b'r' ∷ [])
      ∷ (b'c' ∷ b'a' ∷ b'n' ∷ b'c' ∷ b'e' ∷ b'l' ∷ b'T' ∷ b'i' ∷ b'm' ∷ b'e' ∷ b'r' ∷ [])
      ∷ (b't' ∷ b'i' ∷ b'm' ∷ b'e' ∷ [])
      ∷ (b'e' ∷ b'p' ∷ b'o' ∷ b'c' ∷ b'h' ∷ [])
      ∷ (b'd' ∷ b'a' ∷ b'y' ∷ [])
      ∷ (b's' ∷ b'e' ∷ b't' ∷ b'A' ∷ b'l' ∷ b'a' ∷ b'r' ∷ b'm' ∷ [])
      ∷ (b'c' ∷ b'a' ∷ b'n' ∷ b'c' ∷ b'e' ∷ b'l' ∷ b'A' ∷ b'l' ∷ b'a' ∷ b'r' ∷ b'm' ∷ [])
      ∷ (b's' ∷ b'h' ∷ b'u' ∷ b't' ∷ b'd' ∷ b'o' ∷ b'w' ∷ b'n' ∷ [])
      ∷ (b'r' ∷ b'e' ∷ b'b' ∷ b'o' ∷ b'o' ∷ b't' ∷ [])
      ∷ [];
  values =
      os_get_computer_id ∷ os_get_computer_label ∷ os_set_computer_label ∷ os_queue_event ∷ os_clock
      ∷ os_start_timer ∷ os_cancel_timer ∷ os_time ∷ os_epoch ∷ os_day ∷ os_set_alarm
      ∷ os_cancel_alarm ∷ os_shutdown ∷ os_reboot ∷ [];
}

unfoldable pub rs_lib : Library
rs_lib = record {
  name = b'r' ∷ b'e' ∷ b'd' ∷ b's' ∷ b't' ∷ b'o' ∷ b'n' ∷ b'e' ∷ [];
  count = 11;
  keys =
      (b'g' ∷ b'e' ∷ b't' ∷ b'S' ∷ b'i' ∷ b'd' ∷ b'e' ∷ b's' ∷ [])
      ∷ (b'g' ∷ b'e' ∷ b't' ∷ b'I' ∷ b'n' ∷ b'p' ∷ b'u' ∷ b't' ∷ [])
      ∷ (b's' ∷ b'e' ∷ b't' ∷ b'O' ∷ b'u' ∷ b't' ∷ b'p' ∷ b'u' ∷ b't' ∷ [])
      ∷ (b'g' ∷ b'e' ∷ b't' ∷ b'O' ∷ b'u' ∷ b't' ∷ b'p' ∷ b'u' ∷ b't' ∷ [])
      ∷ (b'g' ∷ b'e' ∷ b't' ∷ b'A' ∷ b'n' ∷ b'a' ∷ b'l' ∷ b'o' ∷ b'g' ∷ b'I' ∷ b'n' ∷ b'p' ∷ b'u'
          ∷ b't' ∷ [])
      ∷ (b's' ∷ b'e' ∷ b't' ∷ b'A' ∷ b'n' ∷ b'a' ∷ b'l' ∷ b'o' ∷ b'g' ∷ b'O' ∷ b'u' ∷ b't' ∷ b'p'
          ∷ b'u' ∷ b't' ∷ [])
      ∷ (b'g' ∷ b'e' ∷ b't' ∷ b'A' ∷ b'n' ∷ b'a' ∷ b'l' ∷ b'o' ∷ b'g' ∷ b'O' ∷ b'u' ∷ b't' ∷ b'p'
          ∷ b'u' ∷ b't' ∷ [])
      ∷ (b'g' ∷ b'e' ∷ b't' ∷ b'B' ∷ b'u' ∷ b'n' ∷ b'd' ∷ b'l' ∷ b'e' ∷ b'd' ∷ b'I' ∷ b'n' ∷ b'p'
          ∷ b'u' ∷ b't' ∷ [])
      ∷ (b'g' ∷ b'e' ∷ b't' ∷ b'B' ∷ b'u' ∷ b'n' ∷ b'd' ∷ b'l' ∷ b'e' ∷ b'd' ∷ b'O' ∷ b'u' ∷ b't'
          ∷ b'p' ∷ b'u' ∷ b't' ∷ [])
      ∷ (b's' ∷ b'e' ∷ b't' ∷ b'B' ∷ b'u' ∷ b'n' ∷ b'd' ∷ b'l' ∷ b'e' ∷ b'd' ∷ b'O' ∷ b'u' ∷ b't'
          ∷ b'p' ∷ b'u' ∷ b't' ∷ [])
      ∷ (b't' ∷ b'e' ∷ b's' ∷ b't' ∷ b'B' ∷ b'u' ∷ b'n' ∷ b'd' ∷ b'l' ∷ b'e' ∷ b'd' ∷ b'I' ∷ b'n'
          ∷ b'p' ∷ b'u' ∷ b't' ∷ [])
      ∷ [];
  values =
      rs_get_sides ∷ rs_false ∷ rs_none ∷ rs_false ∷ rs_0 ∷ rs_none ∷ rs_0 ∷ rs_0 ∷ rs_0 ∷ rs_none
      ∷ rs_false ∷ [];
}

unfoldable pub term_lib : Library
term_lib = record {
  name = b't' ∷ b'e' ∷ b'r' ∷ b'm' ∷ [];
  count = 23;
  keys =
      (b'w' ∷ b'r' ∷ b'i' ∷ b't' ∷ b'e' ∷ [])
      ∷ (b's' ∷ b'c' ∷ b'r' ∷ b'o' ∷ b'l' ∷ b'l' ∷ [])
      ∷ (b's' ∷ b'e' ∷ b't' ∷ b'C' ∷ b'u' ∷ b'r' ∷ b's' ∷ b'o' ∷ b'r' ∷ b'P' ∷ b'o' ∷ b's' ∷ [])
      ∷ (b's' ∷ b'e' ∷ b't' ∷ b'C' ∷ b'u' ∷ b'r' ∷ b's' ∷ b'o' ∷ b'r' ∷ b'B' ∷ b'l' ∷ b'i' ∷ b'n'
          ∷ b'k' ∷ [])
      ∷ (b'g' ∷ b'e' ∷ b't' ∷ b'C' ∷ b'u' ∷ b'r' ∷ b's' ∷ b'o' ∷ b'r' ∷ b'P' ∷ b'o' ∷ b's' ∷ [])
      ∷ (b'g' ∷ b'e' ∷ b't' ∷ b'S' ∷ b'i' ∷ b'z' ∷ b'e' ∷ [])
      ∷ (b'c' ∷ b'l' ∷ b'e' ∷ b'a' ∷ b'r' ∷ [])
      ∷ (b'c' ∷ b'l' ∷ b'e' ∷ b'a' ∷ b'r' ∷ b'L' ∷ b'i' ∷ b'n' ∷ b'e' ∷ [])
      ∷ (b's' ∷ b'e' ∷ b't' ∷ b'T' ∷ b'e' ∷ b'x' ∷ b't' ∷ b'C' ∷ b'o' ∷ b'l' ∷ b'o' ∷ b'u' ∷ b'r'
          ∷ [])
      ∷ (b's' ∷ b'e' ∷ b't' ∷ b'T' ∷ b'e' ∷ b'x' ∷ b't' ∷ b'C' ∷ b'o' ∷ b'l' ∷ b'o' ∷ b'r' ∷ [])
      ∷ (b's' ∷ b'e' ∷ b't' ∷ b'B' ∷ b'a' ∷ b'c' ∷ b'k' ∷ b'g' ∷ b'r' ∷ b'o' ∷ b'u' ∷ b'n' ∷ b'd'
          ∷ b'C' ∷ b'o' ∷ b'l' ∷ b'o' ∷ b'u' ∷ b'r' ∷ [])
      ∷ (b's' ∷ b'e' ∷ b't' ∷ b'B' ∷ b'a' ∷ b'c' ∷ b'k' ∷ b'g' ∷ b'r' ∷ b'o' ∷ b'u' ∷ b'n' ∷ b'd'
          ∷ b'C' ∷ b'o' ∷ b'l' ∷ b'o' ∷ b'r' ∷ [])
      ∷ (b'i' ∷ b's' ∷ b'C' ∷ b'o' ∷ b'l' ∷ b'o' ∷ b'u' ∷ b'r' ∷ [])
      ∷ (b'i' ∷ b's' ∷ b'C' ∷ b'o' ∷ b'l' ∷ b'o' ∷ b'r' ∷ [])
      ∷ (b'g' ∷ b'e' ∷ b't' ∷ b'T' ∷ b'e' ∷ b'x' ∷ b't' ∷ b'C' ∷ b'o' ∷ b'l' ∷ b'o' ∷ b'u' ∷ b'r'
          ∷ [])
      ∷ (b'g' ∷ b'e' ∷ b't' ∷ b'T' ∷ b'e' ∷ b'x' ∷ b't' ∷ b'C' ∷ b'o' ∷ b'l' ∷ b'o' ∷ b'r' ∷ [])
      ∷ (b'g' ∷ b'e' ∷ b't' ∷ b'B' ∷ b'a' ∷ b'c' ∷ b'k' ∷ b'g' ∷ b'r' ∷ b'o' ∷ b'u' ∷ b'n' ∷ b'd'
          ∷ b'C' ∷ b'o' ∷ b'l' ∷ b'o' ∷ b'u' ∷ b'r' ∷ [])
      ∷ (b'g' ∷ b'e' ∷ b't' ∷ b'B' ∷ b'a' ∷ b'c' ∷ b'k' ∷ b'g' ∷ b'r' ∷ b'o' ∷ b'u' ∷ b'n' ∷ b'd'
          ∷ b'C' ∷ b'o' ∷ b'l' ∷ b'o' ∷ b'r' ∷ [])
      ∷ (b'b' ∷ b'l' ∷ b'i' ∷ b't' ∷ [])
      ∷ (b'g' ∷ b'e' ∷ b't' ∷ b'P' ∷ b'a' ∷ b'l' ∷ b'e' ∷ b't' ∷ b't' ∷ b'e' ∷ b'C' ∷ b'o' ∷ b'l'
          ∷ b'o' ∷ b'r' ∷ [])
      ∷ (b'g' ∷ b'e' ∷ b't' ∷ b'P' ∷ b'a' ∷ b'l' ∷ b'e' ∷ b't' ∷ b't' ∷ b'e' ∷ b'C' ∷ b'o' ∷ b'l'
          ∷ b'o' ∷ b'u' ∷ b'r' ∷ [])
      ∷ (b's' ∷ b'e' ∷ b't' ∷ b'P' ∷ b'a' ∷ b'l' ∷ b'e' ∷ b't' ∷ b't' ∷ b'e' ∷ b'C' ∷ b'o' ∷ b'l'
          ∷ b'o' ∷ b'r' ∷ [])
      ∷ (b's' ∷ b'e' ∷ b't' ∷ b'P' ∷ b'a' ∷ b'l' ∷ b'e' ∷ b't' ∷ b't' ∷ b'e' ∷ b'C' ∷ b'o' ∷ b'l'
          ∷ b'o' ∷ b'u' ∷ b'r' ∷ [])
      ∷ [];
  values =
      term_write ∷ term_scroll ∷ term_set_cursor_pos ∷ term_set_cursor_blink ∷ term_get_cursor_pos
      ∷ term_get_size ∷ term_clear ∷ term_clear_line ∷ term_set_text_color ∷ term_set_text_color
      ∷ term_set_background_color ∷ term_set_background_color ∷ term_is_color ∷ term_is_color
      ∷ term_get_text_color ∷ term_get_text_color ∷ term_get_background_color
      ∷ term_get_background_color ∷ term_blit ∷ term_get_palette_color ∷ term_get_palette_color
      ∷ term_set_palette_color ∷ term_set_palette_color ∷ [];
}

abbrev pub rs_name : Text
rs_name = b'r' ∷ b's' ∷ []

-- `lua_getglobal(coro, "redstone"); lua_setglobal(coro, "rs")`
abbrev pub alias_rs : Globals → Option Globals
alias_rs globals = field rs_lib.name globals >>= λ t. some ((rs_name, t) ∷ globals)

-- The libraries that `main2` loads, in their order.
unfoldable pub load_libraries : Globals → Option Globals
unfolding load_library
load_libraries globals = do
  with_bit ← load_library bit_lib globals
  with_fs ← load_library fs_lib with_bit
  with_os ← load_library os_lib with_fs
  with_redstone ← load_library rs_lib with_os
  with_rs ← alias_rs with_redstone
  load_library term_lib with_rs
