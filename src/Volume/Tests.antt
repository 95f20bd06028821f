-- ===== src/Volume/Tests.antt =====
-- A small volume: a file and a directory in the root directory, and a file in that one.
use craft_osos.Base.{
  ℕ, zero, ◌≡◌, ◌≢◌, ◌↔◌, true, false, none, some, List, [], ◌∷◌, ◌++◌, map, arith, refl, ◌==◌,
  if◌then◌else◌, replicate,
}
use craft_osos.Lua.{Text}
use craft_osos.Fat.{
  Fat, FatType, Device, fat12, fat32, cl_to_sector, next_in, next_fat12, read_u32, read_u16, is_end,
}
use craft_osos.Fat.Chain.{table_of}
use craft_osos.Directory.{
  Slot, Dirent, EntryType, file, dir, to_lower, trim_right, short_name, scan, int_dirent,
}
use craft_osos.Volume.{iequals, Cache, ok, failed, no_entry, io_error, find, int_ls, traverse, stat}
use craft_osos.Volume.Names.{iequals_lem}
use craft_osos.Volume.Listing.{Full, stop, more, Listed, Cached, int_ls-Cached, int_ls-fat32-Full}
use craft_osos.Volume.Match.{FirstMatch}
use craft_osos.Volume.Walk.{Holds, Leads, here, into, traverse-Leads, traverse-missing, stat-first}

abbrev volume : FatType → List ℕ → Fat
volume t entries = record {
  lba_base = 0;
  lba_size = 100;
  sector_size = 512;
  sectors = 100;
  clusters = 90;
  fat_type = t;
  reserved = 1;
  sectors_per_fat = 4;
  sectors_per_cluster = 1;
  root_dir_sectors = 1;
  root_cluster = 2;
  data_index = 10;
  data_sectors = 90;
  fat_count = 2;
  table = table_of t entries;
}

abbrev pub small : Fat
small = volume fat12 (0xFF8 ∷ 0xFFF ∷ 0 ∷ 0xFFF ∷ [])

abbrev large : Fat
large = volume fat32 (0x0FFFFFF8 ∷ 0x0FFFFFFF ∷ 0 ∷ 0x0FFFFFFF ∷ [])

-- Three sectors that can be read; the first byte says which slots are in them.
abbrev pub disk : Device
disk sector count =
    if sector == 9 then some (0 ∷ []) else (if sector == 11 then some (1 ∷ []) else none)

abbrev slot : Text → EntryType → ℕ → Slot
slot name t cluster = record {
  shortname = name;
  attrib = 0x10;
  is_longname = false;
  is_last = false;
  long_index = 0;
  characters = [];
  entry_type = t;
  dir_cluster = λ root. cluster;
  size = 0;
  modified = 0;
}

abbrev pub slots_in : List ℕ → List Slot
slots_in (zero ∷ bytes) =
    slot (b'A' ∷ []) file 7 ∷ slot (b'S' ∷ b'U' ∷ b'B' ∷ []) dir 3 ∷ slot (0 ∷ []) file 0 ∷ []
slots_in _ = slot (b'X' ∷ []) file 8 ∷ slot (0 ∷ []) file 0 ∷ []

abbrev full_slots : List ℕ → List Slot
full_slots bytes = replicate 16 (slot (b'X' ∷ []) file 8)

abbrev entry : Text → EntryType → ℕ → ℕ → Dirent
entry name t cluster sector = record {
  entry_type = t;
  name = name;
  block = cluster;
  parent = sector;
  size = 0;
  attrib = 0x10;
  modified = 0;
}

abbrev pub file_a : Dirent
file_a = entry (b'a' ∷ []) file 7 9

abbrev pub sub : Dirent
sub = entry (b's' ∷ b'u' ∷ b'b' ∷ []) dir 3 9

abbrev pub file_x : Dirent
file_x = entry (b'x' ∷ []) file 8 11

iequals_lem_example : (iequals (b'A' ∷ []) (b'a' ∷ b'b' ∷ []) ≡ true) ↔ (
    (c rest : Text) × (b'a' ∷ b'b' ∷ [] ≡ c ++ rest) × (map to_lower c ≡ map to_lower (b'A' ∷ [])))
iequals_lem_example = iequals_lem (b'A' ∷ []) (b'a' ∷ b'b' ∷ [])

root-Listed : Listed disk slots_in small 0 0 (file_a ∷ sub ∷ [])
unfolding cl_to_sector next_in next_fat12 int_dirent scan short_name trim_right is_end
root-Listed = (
  [],
  [],
  0,
  file_a ∷ sub ∷ [],
  stop 0,
  tt,
  refl,
  (0 ∷ [], 0xFF8, true, refl, refl, refl, refl),
  refl,
)

sub-Listed : Listed disk slots_in small 3 0 (file_x ∷ [])
unfolding cl_to_sector next_in next_fat12 int_dirent scan short_name trim_right is_end
sub-Listed =
    ([], [], 3, file_x ∷ [], stop 3, tt, refl, (1 ∷ [], 0xFFF, true, refl, refl, refl, refl), refl)

empty-Cached : Cached disk slots_in small []
unfolding find
empty-Cached c ents h = absurd (ground arith)

int_ls-Cached_example :
    (cache' : Cache) × (int_ls disk slots_in small 1 [] 0 ≡ (ok (file_a ∷ sub ∷ []), cache'))
    × (find 0 cache' ≡ some (file_a ∷ sub ∷ []))
    × Cached disk slots_in small cache'
int_ls-Cached_example =
    int_ls-Cached disk slots_in small 1 0 0 (file_a ∷ sub ∷ []) [] root-Listed (omega arith)
      empty-Cached

large-Full : (ents : List Dirent) × Full disk full_slots large 3 (0x0FFFFFFF ∷ []) ents 0x0FFFFFFF
unfolding cl_to_sector next_in read_u32 read_u16 int_dirent scan short_name trim_right
large-Full = (
  replicate 16 file_x ++ [],
  more 3 0x0FFFFFFF (1 ∷ []) (replicate 16 file_x) [] [] 0x0FFFFFFF refl refl refl
      (stop 0x0FFFFFFF),
)

int_ls-fat32-Full_example : int_ls disk full_slots large 2 [] 3 ≡ (failed io_error, [])
unfolding cl_to_sector find
int_ls-fat32-Full_example =
    int_ls-fat32-Full disk full_slots large 2 3 (0x0FFFFFFF ∷ []) large-Full.0 0x0FFFFFFF [] refl
      large-Full.1 (omega arith, tt) refl refl (omega arith)

root-Holds : Holds disk slots_in small 1 0 (file_a ∷ sub ∷ [])
root-Holds = (0, root-Listed, omega arith)

sub-Holds : Holds disk slots_in small 1 3 (file_x ∷ [])
sub-Holds = (0, sub-Listed, omega arith)

abbrev pub sub_name : Text
sub_name = b'S' ∷ b'u' ∷ b'b' ∷ []

to_sub : Leads disk slots_in small 1 0 (sub_name ∷ []) 3
unfolding iequals
to_sub =
    into 0 (file_a ∷ sub ∷ []) sub_name sub [] 3 root-Holds
      (file_a ∷ [], [], refl, (refl, tt), refl) refl (here 3)

traverse-Leads_example :
    (cache' : Cache) × Cached disk slots_in small cache'
    × (traverse disk slots_in small 1 [] (sub_name ∷ []) none ≡ (ok (file_x ∷ []), cache'))
traverse-Leads_example =
    traverse-Leads disk slots_in small 1 [] (sub_name ∷ []) none 3 (file_x ∷ []) empty-Cached to_sub
      sub-Holds

-- `/q` is an error, `/Sub/q` is `/Sub`.
traverse-missing_example :
    ((cache' : Cache) × (traverse disk slots_in small 1 [] ((b'q' ∷ []) ∷ []) none
        ≡ (failed (no_entry (b'q' ∷ [])), cache')))
    × ((cache' : Cache) × (traverse disk slots_in small 1 [] (sub_name ∷ ((b'q' ∷ []) ∷ [])) none
          ≡ (ok (file_x ∷ []), cache')))
unfolding iequals
traverse-missing_example =
    traverse-missing disk slots_in small 1 [] sub_name [] (b'q' ∷ []) none 3 (file_a ∷ sub ∷ [])
      (file_x ∷ []) empty-Cached root-Holds (refl, (refl, tt)) to_sub sub-Holds (refl, tt)

x_first : FirstMatch (b'x' ∷ []) (file_x ∷ []) file_x
unfolding iequals
x_first = ([], [], refl, tt, refl)

x_file : file_x.entry_type ≢ dir
x_file = λ e. cc

stat-first_example :
    (cache' : Cache) × Cached disk slots_in small cache'
    × (stat disk slots_in small 1 [] (sub_name ∷ ((b'x' ∷ []) ∷ [])) none ≡ (file_x, cache'))
stat-first_example =
    stat-first disk slots_in small 1 [] (sub_name ∷ []) (b'x' ∷ []) none 3 (file_x ∷ []) file_x
      empty-Cached to_sub sub-Holds x_first
