-- ===== src/Reading/Tests.antt =====
-- A file of seven bytes in two clusters of four.
use craft_osos.Base.{◌+◌, ◌≡◌, some, [], ◌∷◌, refl, arith}
use craft_osos.Fat.{Fat, Device, fat16, cl_to_sector, next_in, read_u16, ready}
use craft_osos.Fat.Chain.{table_of}
use craft_osos.Directory.{Dirent, file}
use craft_osos.Reading.{read}
use craft_osos.Reading.Parts.{Visits, nothing, visit}
use craft_osos.Reading.Files.{read-Visits}

abbrev volume : Fat
volume = record {
  lba_base = 0;
  lba_size = 100;
  sector_size = 4;
  sectors = 100;
  clusters = 90;
  fat_type = fat16;
  reserved = 1;
  sectors_per_fat = 4;
  sectors_per_cluster = 1;
  root_dir_sectors = 1;
  root_cluster = 2;
  data_index = 10;
  data_sectors = 90;
  fat_count = 2;
  table = table_of fat16 (0xFFF8 ∷ 0xFFFF ∷ 0 ∷ 4 ∷ 0xFFFF ∷ []);
}

abbrev disk : Device
disk sector count = some (sector ∷ (sector + 100) ∷ (sector + 150) ∷ (sector + 200) ∷ [])

abbrev seven : Dirent
seven = record {
  entry_type = file;
  name = b'a' ∷ [];
  block = 3;
  parent = 9;
  size = 7;
  attrib = 0;
  modified = 0;
}

chain : Visits disk volume 4 3 ((11 ∷ 111 ∷ 161 ∷ 211 ∷ []) ∷ (12 ∷ 112 ∷ 162 ∷ 212 ∷ []) ∷ [])
unfolding cl_to_sector next_in read_u16
chain =
    visit 3 4 (11 ∷ 111 ∷ 161 ∷ 211 ∷ []) ((12 ∷ 112 ∷ 162 ∷ 212 ∷ []) ∷ []) refl refl refl
      (visit 4 0xFFFF (12 ∷ 112 ∷ 162 ∷ 212 ∷ []) [] refl refl refl (nothing 0xFFFF))

-- From the second byte to behind the end.
read-Visits_example : read disk volume 4 seven 1 100 ≡ ready (111 ∷ 161 ∷ 211 ∷ 12 ∷ 112 ∷ 162 ∷ [])
read-Visits_example =
    read-Visits disk volume seven 1 100
      ((11 ∷ 111 ∷ 161 ∷ 211 ∷ []) ∷ (12 ∷ 112 ∷ 162 ∷ 212 ∷ []) ∷ []) (ground arith) (omega arith)
      chain refl
