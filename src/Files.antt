-- ===== src/Files.antt =====
-- fs.cpp: the handlers of the `fs` library that work on paths and on what `stat` says of them.
mod Tests
pub mod Paths
pub mod Lists
use craft_osos.Base.{
  ℕ, zero, suc, ◌+◌, ◌-◌, bit_and, Bool, true, false, not, ◌&&◌, ◌||◌, Option, none, some, List, [],
  ◌∷◌, ◌++◌, ◌==◌, if◌then◌else◌, length, take, drop, get_or,
}
use craft_osos.Base.Int.{pos}
use craft_osos.Lua.{Text, Value, boolean, integer, text, Api, arg}
use craft_osos.Os.{c_string}
use craft_osos.Directory.{Dirent, EntryType, file}
use craft_osos.Volume.{is_invalid, is_dir}

-- What a handler does: it pushes values, raises a Lua error, or meets undefined behaviour.
pub data Call : Type 0 where
  returned : List Value → Call
  lua_error : Call
  undefined : Call

abbrev pub slash : ℕ
slash = b'/'

abbrev pub backslash : ℕ
backslash = 92

-- `strrchr(path, c) - path`, or NULL.
unfoldable pub strrchr : ℕ → Text → Option ℕ
strrchr c [] = none
strrchr c (x ∷ xs) = elim (strrchr c xs) [
  | some i ↦ some (suc i)
  | none ↦ if x == c then some 0 else none
]

abbrev pub behind : Text → Option ℕ → Text
behind path none = path
behind path (some i) = drop (suc i) path

unfoldable pub basename : Text → Text
unfolding strrchr
basename path = behind path (strrchr slash path)

abbrev pub no_lead : Text → Text
no_lead [] = []
no_lead (c ∷ cs) = if c == slash then cs else c ∷ cs

-- The cut at the last slash, or else at the last backslash.
abbrev pub cut : Text → Option ℕ → Option ℕ → Text
cut path (some i) backslash_at = take i path
cut path none (some i) = take i path
cut path none none = path

-- `dirname`. It shifts the path with `strcpy` on itself, which is taken as a copy in order.
unfoldable pub dirname : Text → Text
unfolding strrchr
dirname path = let p = no_lead path in cut p (strrchr slash p) (strrchr backslash p)

abbrev pub last_of : ℕ → Text → ℕ
last_of c [] = c
last_of c (d ∷ ds) = last_of d ds

-- The string without its last character; on an empty one, a store in front of it.
abbrev pub drop_last : Text → Option Text
drop_last [] = none
drop_last (c ∷ cs) = some (take (length cs) (c ∷ cs))

-- The base path with one slash behind it.
abbrev pub base_of : ℕ → Text → Text
base_of b bs =
    let copied = c_string (no_lead (b ∷ bs)) in
    if last_of b bs == slash then copied else copied ++ (slash ∷ [])

-- The string that `fs_combine` builds. The last character of an empty string is read in front of
-- it.
unfoldable pub combine : Text → Text → Option Text
unfolding c_string
combine [] local = none
combine (b ∷ bs) [] = none
combine (b ∷ bs) (l ∷ ls) =
    let whole = base_of b bs ++ c_string (no_lead (l ∷ ls)) in
    if last_of l ls == slash then drop_last whole else some whole

-- `luaL_checkstring`
abbrev pub check_string : Option Text → (Text → Call) → Call
check_string none next = lua_error
check_string (some path) next = next path

abbrev pub pushed : Option Text → Call
pushed none = undefined
pushed (some t) = returned (text t ∷ [])

-- `S_ISREG`
abbrev pub is_file : EntryType → Bool
is_file file = true
is_file _ = false

-- What `fs_list` leaves out: what is neither a directory nor a file, and what is hidden.
abbrev pub left_out : Dirent → Bool
left_out d =
    (not (is_dir d.entry_type) && not (is_file d.entry_type))
    || (not (bit_and d.attrib 0x0F == 0x0F) && not (bit_and d.attrib 0x02 == 0))

-- The loop of `fs_list`: the assignments to the table, index and name.
unfoldable pub list_loop : ℕ → ℕ → List Dirent → List (ℕ × Text)
list_loop i io [] = []
list_loop i io (d ∷ ds) =
    let without = list_loop (suc i) (suc io) ds in
    let with = list_loop (suc i) io ds in if left_out d then without else ((i - io, d.name) ∷ with)

-- `rootfs->stat(path)`, `d.ls()` and `std::sort` by name are the file system's and the library's.
module _ (api : Api) (stat_path : Text → Dirent) (ls : Dirent → List Dirent)
    (sort : List Dirent → List Dirent) where
  abbrev pub path_arg : List Value → (Text → Call) → Call
  path_arg args next = check_string (api.to_text (arg args 1)) (λ path. next (c_string path))

  -- The table that `fs_list` returns, by its assignments; none for the error.
  unfoldable pub fs_list : Text → Option (List (ℕ × Text))
  unfolding list_loop
  fs_list path =
      let d = stat_path path in
      if is_dir d.entry_type then some (list_loop 0 0 (sort (ls d))) else none

  unfoldable pub fs_exists : List Value → Call
  unfolding c_string
  fs_exists args =
      path_arg args (λ path. returned (boolean (not (is_invalid (stat_path path).entry_type)) ∷ []))

  unfoldable pub fs_is_dir : List Value → Call
  unfolding c_string
  fs_is_dir args =
      path_arg args (λ path. returned (boolean (is_dir (stat_path path).entry_type) ∷ []))

  unfoldable pub fs_is_read_only : List Value → Call
  unfolding c_string
  fs_is_read_only args = path_arg args (λ path. returned (boolean true ∷ []))

  unfoldable pub fs_get_name : List Value → Call
  unfolding c_string basename
  fs_get_name args = path_arg args (λ path. returned (text (basename path) ∷ []))

  unfoldable pub fs_get_dir : List Value → Call
  unfolding c_string dirname
  fs_get_dir args = path_arg args (λ path. returned (text (dirname path) ∷ []))

  unfoldable pub fs_get_size : List Value → Call
  unfolding c_string
  fs_get_size args = path_arg args (λ path.
      let d = stat_path path in
      if is_file d.entry_type
      then returned (integer (pos d.size) ∷ [])
      else (if is_dir d.entry_type then returned (integer (pos 0) ∷ []) else lua_error))

  unfoldable pub fs_combine : List Value → Call
  unfolding combine
  fs_combine args =
      check_string (api.to_text (arg args 1))
        (λ base. check_string (api.to_text (arg args 2)) (λ local. pushed (combine base local)))
