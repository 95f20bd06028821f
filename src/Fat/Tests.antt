-- ===== src/Fat/Tests.antt =====
-- The FAT driver at concrete volumes.
use craft_osos.Base.{ℕ, ◌+◌, ◌≡◌, ◌≤◌, ◌*◌, some, List, [], ◌∷◌, arith, replicate}
use craft_osos.Fat.{Bpb, fat12, next_in, geometry, layout, cl_to_sector, Device}
use craft_osos.Fat.Chain.{table_of, next_in-table_of}
use craft_osos.Fat.Geometry.{layout-clusters}

abbrev chain : List ℕ
chain = 0xFF0 ∷ 0xFFF ∷ 0xABC ∷ 4 ∷ 0xFF8 ∷ []

-- An odd and the last entry, which share bytes with their neighbours.
next_in-table_of_example : next_in fat12 (table_of fat12 chain) 3 ≡ some 4
next_in-table_of_example =
    next_in-table_of fat12 chain 3
      (omega arith, (omega arith, (omega arith, (omega arith, (omega arith, tt)))))

-- A floppy disk.
abbrev floppy : Bpb
floppy = record {
  magic = 0xAA55;
  bytes_per_sector = 512;
  sectors_per_cluster = 1;
  reserved_sectors = 1;
  fa_tables = 2;
  root_entries = 224;
  small_sectors = 2880;
  sectors_per_fat = 9;
  hidden_sectors = 0;
  large_sectors = 0;
  signature = 0x29;
  boot_25 = 0;
}

layout-clusters_example :
    (geometry 0 2880 floppy ≡ some (layout 0 2880 floppy))
    × (33 ≤ cl_to_sector (layout 0 2880 floppy) 3)
    × (cl_to_sector (layout 0 2880 floppy) 3 + 1 ≤ cl_to_sector (layout 0 2880 floppy) 2848)
    × (cl_to_sector (layout 0 2880 floppy) 2848 + 1 ≤ 2880)
    × ((root : ℕ)
        → root ≤ 2
        → cl_to_sector (layout 0 2880 floppy) root + (layout 0 2880 floppy).root_dir_sectors ≡ 33)
unfolding layout
layout-clusters_example =
    layout-clusters 0 2880 floppy 3 2848 (ground arith) (omega arith) (omega arith) (omega arith)
      (omega arith) (omega arith)

abbrev large : Bpb
large = record {
  magic = 0xAA55;
  bytes_per_sector = 512;
  sectors_per_cluster = 8;
  reserved_sectors = 32;
  fa_tables = 2;
  root_entries = 0;
  small_sectors = 0;
  sectors_per_fat = 0;
  hidden_sectors = 2048;
  large_sectors = 2000000;
  signature = 0x29;
  boot_25 = 1950;
}

abbrev disk : Device
disk sector count = some (replicate (count * 512) 0)
