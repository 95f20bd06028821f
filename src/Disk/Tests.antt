-- ===== src/Disk/Tests.antt =====
-- A disk with a partition table whose second entry is in use.
use craft_osos.Base.{ℕ, ◌≡◌, false, some, List, [], ◌∷◌, refl}
use craft_osos.Fat.{Bpb, Device, init}
use craft_osos.Disk.{Entry, vbr, started, has_fat, init_fs, init_fs_at}
use craft_osos.Disk.Detect.{init_fs-detects}

abbrev no_volume : List ℕ → Bpb
no_volume bytes = record {
  magic = 0xAA55;
  bytes_per_sector = 0;
  sectors_per_cluster = 0;
  reserved_sectors = 0;
  fa_tables = 0;
  root_entries = 0;
  small_sectors = 0;
  sectors_per_fat = 0;
  hidden_sectors = 0;
  large_sectors = 0;
  signature = 0;
  boot_25 = 0;
}

abbrev disk : Device
disk sector count = some (sector ∷ [])

abbrev empty : Entry
empty = record { flags = 0; kind = 0; lba_begin = 0; sectors = 0 }

abbrev used : Entry
used = record { flags = 0x80; kind = 6; lba_begin = 63; sectors = 1000 }

abbrev table : List ℕ → List Entry
table bytes = empty ∷ used ∷ empty ∷ used ∷ []

init_fs-detects_example :
    (init_fs no_volume table disk 5000 false ≡ started (init no_volume disk 63 1000))
    × (init_fs_at no_volume table disk 5000 (vbr 1) ≡ started (init no_volume disk 63 1000))
unfolding has_fat
init_fs-detects_example =
    init_fs-detects no_volume table disk 5000 (0 ∷ []) refl refl refl false (empty ∷ []) used
      (empty ∷ used ∷ []) refl (refl, tt) refl

abbrev unused : List ℕ → List Entry
unused bytes = empty ∷ empty ∷ empty ∷ empty ∷ []
