-- ===== src/Main/Tests.antt =====
-- A small volume with a BIOS, and a program that yields for every event.
use craft_osos.Base.{
  ℕ, suc, ◌+◌, ◌≡◌, Bool, true, false, none, some, List, [], ◌∷◌, append-nil, refl, sym, arith,
}
use mathlib.Core.Path.{subst}
use craft_osos.Base.Int.{pos}
use craft_osos.Lua.{Text, Value, integer, text}
use craft_osos.Os.{Os}
use craft_osos.Os.Pending.{Entry, Holds}
use craft_osos.Fat.{Fat, Device, fat12, cl_to_sector, next_in, next_fat12, is_end, ready}
use craft_osos.Fat.Chain.{table_of}
use craft_osos.Directory.{Slot, Dirent, file, trim_right, short_name, scan, int_dirent}
use craft_osos.Volume.{iequals, find}
use craft_osos.Volume.Listing.{stop, Listed, Cached}
use craft_osos.Reading.Parts.{Visits, nothing, visit}
use craft_osos.Main.{bios_name, read_bios, yielded, Resumed, Session, main_loop}
use craft_osos.Main.Bios.{read_bios-whole}
use craft_osos.Main.Rounds.{Polite, main_loop-delivers}

abbrev volume : Fat
volume = record {
  lba_base = 0;
  lba_size = 100;
  sector_size = 4;
  sectors = 100;
  clusters = 90;
  fat_type = fat12;
  reserved = 1;
  sectors_per_fat = 4;
  sectors_per_cluster = 1;
  root_dir_sectors = 1;
  root_cluster = 2;
  data_index = 10;
  data_sectors = 90;
  fat_count = 2;
  table = table_of fat12 (0xFF8 ∷ 0xFFF ∷ 0 ∷ 0xFFF ∷ []);
}

abbrev disk : Device
disk sector count = some (sector ∷ 101 ∷ 102 ∷ 103 ∷ [])

abbrev slot : Text → Slot
slot name = record {
  shortname = name;
  attrib = 0;
  is_longname = false;
  is_last = false;
  long_index = 0;
  characters = [];
  entry_type = file;
  dir_cluster = λ root. 3;
  size = 3;
  modified = 0;
}

abbrev bios_slot : Slot
bios_slot = slot (b'B' ∷ b'I' ∷ b'O' ∷ b'S' ∷ b' ' ∷ b' ' ∷ b' ' ∷ b' ' ∷ b'L' ∷ b'U' ∷ b'A' ∷ [])

abbrev slots_in : List ℕ → List Slot
slots_in bytes = bios_slot ∷ slot (0 ∷ []) ∷ []

abbrev bios : Dirent
bios = record {
  entry_type = file;
  name = bios_name;
  block = 3;
  parent = 9;
  size = 3;
  attrib = 0;
  modified = 0;
}

root-Listed : Listed disk slots_in volume 0 0 (bios ∷ [])
unfolding cl_to_sector next_in next_fat12 int_dirent scan short_name trim_right is_end
root-Listed = (
  [],
  [],
  0,
  bios ∷ [],
  stop 0,
  tt,
  refl,
  (9 ∷ 101 ∷ 102 ∷ 103 ∷ [], 0xFF8, true, refl, refl, refl, refl),
  refl,
)

empty-Cached : Cached disk slots_in volume []
unfolding find
empty-Cached c ents h = absurd (ground arith)

chain : Visits disk volume 4 3 ((11 ∷ 101 ∷ 102 ∷ 103 ∷ []) ∷ [])
unfolding cl_to_sector next_in next_fat12
chain = visit 3 0xFFF (11 ∷ 101 ∷ 102 ∷ 103 ∷ []) [] refl refl refl (nothing 0xFFF)

read_bios-whole_example : read_bios disk slots_in volume 4 1 [] ≡ ready (11 ∷ 101 ∷ 102 ∷ [])
unfolding iequals
read_bios-whole_example =
    read_bios-whole disk slots_in volume 1 [] (bios ∷ []) bios ((11 ∷ 101 ∷ 102 ∷ 103 ∷ []) ∷ [])
      empty-Cached (0, root-Listed, omega arith) ([], [], refl, tt, refl) refl (ground arith)
      (omega arith) (omega arith) chain refl

-- A program that counts its rounds.
abbrev counting : ℕ → List Value → Os → Resumed ℕ
counting p args os = record { program = suc p; status = yielded; top = none; running = 1; os = os }

abbrev roomy : ℕ → Bool
roomy n = true

counting-Polite : Polite counting roomy 1
counting-Polite p args os es holds =
    ([], refl, refl, refl, subst (Holds os) (sym (append-nil es)) holds)

abbrev one : Entry
one = (some (b'a' ∷ []), integer (pos 1) ∷ [])

abbrev two : Entry
two = (some (b'b' ∷ []), [])

abbrev session : Session ℕ
session = record {
  program = 0;
  args = [];
  running = 1;
  os = record {
    events = one.0 ∷ two.0 ∷ [];
    params = one.1 ∷ two.1 ∷ [];
    timers = [];
    modifiers = 0;
  };
  polls = [];
}

main_loop-delivers_example :
    (s' : Session ℕ) × ((rounds : ℕ)
      → main_loop counting roomy 1 (2 + rounds) session ≡ main_loop counting roomy 1 rounds s')
    × (s'.args ≡ text (b'b' ∷ []) ∷ [])
    × (s'.running ≡ 1)
main_loop-delivers_example =
    main_loop-delivers counting roomy 1 (one ∷ []) two.0 two.1 [] session counting-Polite
      (λ n. refl) (omega arith) refl (record { events = refl; params = refl })
