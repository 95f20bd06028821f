-- ===== src/Directory.antt =====
-- includeos-patch/fat.cpp: the entries of a directory, as `int_dirent` reads them from the slots of
-- its clusters.
mod Tests
pub mod Names
pub mod Scan
pub mod Layout
use craft_osos.Base.{
  ℕ, zero, suc, ◌+◌, ◌-◌, ◌*◌, ◌≤◌, ◌<◌, bit_and, Bool, true, false, not, ◌&&◌, ◌||◌, Option, none,
  some, List, [], ◌∷◌, ◌++◌, ltb, leb, ◌==◌, if◌then◌else◌, length, take, drop, get_or, map,
  get_elem?,
}
use mathlib.Core.List.{reverse}
use craft_osos.Lua.{Text}

-- `Enttype`, of IncludeOS
pub data EntryType : Type 0 where
  file dir volume_id symbolic_link invalid_entity : EntryType

-- A slot of 32 bytes, read both as `cl_dir` and as `cl_long`. The structs are those of IncludeOS,
-- so what their functions give is a field here: `is_longname()`, `is_last()`, `long_index()`, the
-- 13 characters in `first`, `second` and `third`, and `type()`, `dir_cluster(root_cluster)`,
-- `size()` and `get_modified()`. A cluster is a `uint32_t`.
pub record Slot : Type 0 where
  pub shortname : Text
  pub attrib : ℕ
  pub is_longname : Bool
  pub is_last : Bool
  pub long_index : ℕ
  pub characters : List ℕ
  pub entry_type : EntryType
  pub dir_cluster : ℕ → ℕ
  pub size : ℕ
  pub modified : ℕ

-- `Dirent`, with the arguments of its constructor.
pub record Dirent : Type 0 where
  pub entry_type : EntryType
  pub name : Text
  pub block : ℕ
  pub parent : ℕ
  pub size : ℕ
  pub attrib : ℕ
  pub modified : ℕ

-- `" \f\n\r\t\v"`
abbrev pub is_delimiter : ℕ → Bool
is_delimiter c = c == b' ' || (c == 12 || (c == 10 || (c == 13 || (c == 9 || c == 11))))

-- `trim_right_copy`: what is left in front of the delimiters at the end.
abbrev pub trim_step : ℕ → Text → Text
trim_step c [] = if is_delimiter c then [] else c ∷ []
trim_step c (d ∷ ds) = c ∷ d ∷ ds

unfoldable pub trim_right : Text → Text
trim_right [] = []
trim_right (c ∷ cs) = trim_step c (trim_right cs)

-- `std::tolower` in the C locale
abbrev pub to_lower : ℕ → ℕ
to_lower c = if leb b'A' c && leb c b'Z' then c + 32 else c

-- The name of a slot with no long name. `erase` is called with the end of the text, which removes
-- nothing.
unfoldable pub short_name : Slot → Text
unfolding trim_right
short_name d = map to_lower (
    if bit_and d.attrib 0x10 == 0
    then trim_right (take 8 d.shortname) ++ (b'.' ∷ trim_right (take 3 (drop 8 d.shortname)))
    else trim_right d.shortname)

-- The characters of one slot of a long name, up to the end of the name.
unfoldable pub slot_text : List ℕ → Text
slot_text [] = []
slot_text (c ∷ cs) =
    let rest = slot_text cs in if c == 0xFFFF || c == 0 then [] else bit_and c 0xFF ∷ rest

-- `for (int idx = total; idx > 0; idx--)`, over the slots from the last one back, with what is in
-- `final_name` so far.
unfoldable pub long_name : List Slot → Text → Text
unfolding slot_text
long_name [] name = name
long_name (s ∷ ss) name =
    let name' = name ++ slot_text s.characters in
    let rest = long_name ss name' in if ltb 240 (length name') then name' else rest

abbrev pub entry_of : ℕ → ℕ → Text → Slot → Dirent
entry_of root_cluster sector name d = record {
  entry_type = d.entry_type;
  name = name;
  block = d.dir_cluster root_cluster;
  parent = sector;
  size = d.size;
  attrib = d.attrib;
  modified = d.modified;
}

-- What `int_dirent` appends to the entries, and what it returns.
abbrev pub Listing : Type 0
Listing = List Dirent × Bool

abbrev pub found : Dirent → Listing → Listing
found d (ds, last) = (d ∷ ds, last)

-- The slot of the short name behind the `total` slots of a long name that starts with `s`.
abbrev pub short_slot : Slot → List Slot → ℕ → Slot
short_slot s rest zero = s
short_slot s rest (suc n) = get_or rest n s

-- The loop of `int_dirent`: the slots from `root[i]` on, after `skip` more of them.
unfoldable pub scan : ℕ → ℕ → ℕ → List Slot → Listing
unfolding long_name short_name
scan root_cluster sector skip [] = ([], false)
scan root_cluster sector (suc skip) (s ∷ rest) = scan root_cluster sector skip rest
scan root_cluster sector zero (s ∷ rest) =
    let total = s.long_index in
    let next = scan root_cluster sector zero rest in
    let behind = scan root_cluster sector total rest in
    if get_or s.shortname 0 0 == 0
    then ([], true)
    else (if get_or s.shortname 0 0 == 0xE5
        then next
        else (if s.is_longname
            then (if s.is_last
                then (if leb (length (s ∷ rest)) total
                    then ([], false)
                    else found
                        (entry_of root_cluster sector
                          (long_name (reverse (take total (s ∷ rest))) [])
                          (short_slot s rest total))
                        behind)
                else next)
            else found (entry_of root_cluster sector (short_name s) s) next))

-- `int_dirent`, on the slots of one cluster. `data` points to the cluster that was read, whose
-- `16 * sectors_per_cluster` slots are looked at.
unfoldable pub int_dirent : ℕ → ℕ → ℕ → List Slot → Listing
unfolding scan
int_dirent root_cluster sectors_per_cluster sector slots =
    scan root_cluster sector 0 (take (16 * sectors_per_cluster) slots)
