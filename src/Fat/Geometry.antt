-- ===== src/Fat/Geometry.antt =====
-- Where the clusters of a volume lie, and the table that `init` reads.
use craft_osos.Base.{
  ℕ, ◌+◌, ◌-◌, ◌*◌, ◌/◌, ◌^◌, ◌≤◌, ◌<◌, ◌≡◌, ◌≢◌, true, false, none, some, List, [], leb, ◌==◌,
  if◌then◌else◌, length, ==_ne, le→ltb, arith, refl,
}
use native.Mathlib.Nat.{div-mul-le_self}
use craft_osos.Fat.{
  FatType, fat12, fat16, fat32, Bpb, Fat, u16, u32, cl_to_sector, next_in, next_cluster, geometry,
  layout, Device, copy_table, read_table, init_base, ready,
}

-- A volume whose parts fit: the data area starts behind the other parts, and nothing passes 2 ^ 32.
pub record Fits (f : Fat) : Type 0 where
  pub root : f.root_cluster ≡ 2
  pub root_small : f.root_dir_sectors ≤ f.data_index
  pub area : f.data_index + f.clusters * f.sectors_per_cluster ≤ f.sectors
  pub end : f.lba_base + f.sectors < 2 ^ 32

product_mono : (a b c : ℕ) → a ≤ b → a * c ≤ b * c
product_mono a b c h = grind arith

module _ (f : Fat) (fits : Fits f) where
  data_cluster :
      (cl : ℕ)
      → 2 < cl
      → cl < f.clusters + 2
      → cl_to_sector f cl ≡ f.lba_base + f.data_index + (cl - 2) * f.sectors_per_cluster
  unfolding cl_to_sector
  data_cluster cl h k =
      let outside : leb cl 2 ≡ false = ground arith in
      let inside = product_mono (cl - 2) f.clusters f.sectors_per_cluster (omega arith) in
      rw outside (omega (arith, fits.area, fits.end, inside))

  -- The sectors of one data cluster lie in the partition, in front of those of the next one.
  data_cluster-inside :
      (cl : ℕ)
      → 2 < cl
      → cl < f.clusters + 2
      → (f.lba_base + f.data_index ≤ cl_to_sector f cl)
        × (cl_to_sector f cl + f.sectors_per_cluster ≤ f.lba_base + f.sectors)
  data_cluster-inside cl h k =
      let one_more = product_mono (cl - 2 + 1) f.clusters f.sectors_per_cluster (omega arith) in
      let next : (cl - 2 + 1) * f.sectors_per_cluster
          ≡ (cl - 2) * f.sectors_per_cluster + f.sectors_per_cluster =
        grind arith in
      rw (data_cluster cl h k) (omega arith, omega (arith, fits.area, one_more, next))

  data_cluster-apart :
      (a b : ℕ)
      → 2 < a
      → a < b
      → b < f.clusters + 2
      → cl_to_sector f a + f.sectors_per_cluster ≤ cl_to_sector f b
  data_cluster-apart a b h k l =
      let one_more = product_mono (a - 2 + 1) (b - 2) f.sectors_per_cluster (omega arith) in
      let next : (a - 2 + 1) * f.sectors_per_cluster
          ≡ (a - 2) * f.sectors_per_cluster + f.sectors_per_cluster =
        grind arith in
      rw (data_cluster a h (omega arith), data_cluster b (omega arith) l)
        (omega (arith, one_more, next))

  -- The clusters 0 to 2 are where the root directory of FAT12 and FAT16 is.
  root_cluster-sector :
      (cl : ℕ) → cl ≤ 2 → cl_to_sector f cl + f.root_dir_sectors ≡ f.lba_base + f.data_index
  unfolding cl_to_sector
  root_cluster-sector cl h =
      let inside : leb cl 2 ≡ true = ground arith in
      let none_ahead : u32 (f.root_cluster + 2 ^ 32 - 2) ≡ 0 = omega (arith, fits.root) in
      rw (inside, none_ahead) (omega (arith, fits.root_small, fits.area, fits.end))

-- What the first sector says: the number of sectors, and those in front of the data area.
abbrev pub sector_count : Bpb → ℕ
sector_count b = if b.small_sectors == 0 then b.large_sectors else b.small_sectors

abbrev pub system_area : Bpb → ℕ
system_area b =
    b.reserved_sectors
    + b.fa_tables * (if b.sectors_per_fat == 0 then b.boot_25 else b.sectors_per_fat)
    + u16 ((b.root_entries * 32 + (b.bytes_per_sector - 1)) / b.bytes_per_sector)

data_index-system_area :
    (base size : ℕ) (b : Bpb)
    → system_area b ≤ sector_count b
    → base + sector_count b < 2 ^ 32
    → (layout base size b).data_index ≡ system_area b
unfolding layout
data_index-system_area base size b h k = omega arith

layout-Fits :
    (base size : ℕ) (b : Bpb)
    → system_area b ≤ sector_count b
    → base + sector_count b < 2 ^ 32
    → Fits (layout base size b)
unfolding layout
layout-Fits base size b h k =
    let f = layout base size b in
    let index = data_index-system_area base size b h k in
    let area = div-mul-le_self f.data_sectors f.sectors_per_cluster in
    record { root = refl; root_small = omega arith; area = omega arith; end = omega arith }

geometry-some :
    (base size : ℕ) (b : Bpb)
    → b.sectors_per_cluster ≢ 0
    → geometry base size b ≡ some (layout base size b)
unfolding geometry
geometry-some base size b h = rw (==_ne b.sectors_per_cluster 0 h)

-- On a volume whose system area and partition fit and whose clusters have sectors, the clusters
-- that `cl_to_sector` gives for any two cluster numbers above 2 that the volume has do not overlap
-- and lie in the data area of the partition, while for 0, 1 and 2 it gives the root directory in
-- front of the data area.
pub layout-clusters :
    (base size : ℕ) (b : Bpb) (cl later : ℕ)
    → b.sectors_per_cluster ≢ 0
    → system_area b ≤ sector_count b
    → base + sector_count b < 2 ^ 32
    → 2 < cl
    → cl < later
    → later < (layout base size b).clusters + 2
    → (geometry base size b ≡ some (layout base size b))
      × (base + system_area b ≤ cl_to_sector (layout base size b) cl)
      × (cl_to_sector (layout base size b) cl + b.sectors_per_cluster
          ≤ cl_to_sector (layout base size b) later)
      × (cl_to_sector (layout base size b) later + b.sectors_per_cluster ≤ base + sector_count b)
      × ((root : ℕ)
          → root ≤ 2
          → cl_to_sector (layout base size b) root + (layout base size b).root_dir_sectors
            ≡ base + system_area b)
unfolding layout
layout-clusters base size b cl later ne h k above order below =
    let f = layout base size b in
    let fits = layout-Fits base size b h k in
    let index = data_index-system_area base size b h k in
    let (low, _) = data_cluster-inside f fits cl above (omega arith) in
    let (_, high) = data_cluster-inside f fits later (omega arith) below in
    (
      geometry-some base size b ne,
      omega arith,
      data_cluster-apart f fits cl later above order below,
      omega arith,
      λ root small. omega (arith, root_cluster-sector f fits root small),
    )

no_entry : (t : FatType) (cl : ℕ) → next_in t [] cl ≡ none
unfolding next_in
no_entry fat12 cl = ground arith
no_entry fat16 cl = refl
no_entry fat32 cl = refl

empty_copy :
    (b : Bpb) (f : Fat) (bytes : List ℕ)
    → b.sectors_per_fat ≡ 0
    → copy_table b f (some bytes) ≡ ready (record f { table = [] })
unfolding copy_table
empty_copy b f bytes e =
    let size : b.sectors_per_fat * b.bytes_per_sector ≡ 0 = rw e (omega arith) in
    let room : leb 0 (length bytes) ≡ true = ground arith in rw (size, room)

empty_read :
    (device : Device) (b : Bpb) (f : Fat) (bytes : List ℕ)
    → b.sectors_per_fat ≡ 0
    → b.fa_tables ≢ 0
    → device (u32 (b.hidden_sectors + b.reserved_sectors)) b.sectors_per_fat ≡ some bytes
    → read_table device b (some f) ≡ ready (record f { table = [] })
unfolding read_table
empty_read device b f bytes e tables answer =
    rw (==_ne b.fa_tables 0 tables, answer) (empty_copy b f bytes e)

-- On a volume with no 16-bit number of sectors per FAT, as every FAT32 volume is, `init` ends with
-- an empty table: `next_cluster` then reads out of it for every cluster. The sector size and the
-- number of tables are assumed to be valid, and the device to answer.
pub init_base-no_table :
    (device : Device) (base size : ℕ) (b : Bpb) (bytes : List ℕ)
    → b.sectors_per_fat ≡ 0
    → 512 ≤ b.bytes_per_sector
    → b.sectors_per_cluster ≢ 0
    → b.fa_tables ≢ 0
    → device (u32 (b.hidden_sectors + b.reserved_sectors)) b.sectors_per_fat ≡ some bytes
    → (f : Fat) × (init_base device base size b ≡ ready f) × ((cl : ℕ) → next_cluster f cl ≡ none)
unfolding init_base
init_base-no_table device base size b bytes none_16 valid per tables answer =
    let f = layout base size b in
    (
      record f { table = [] },
      rw (le→ltb b.bytes_per_sector 512 valid, geometry-some base size b per)
          (empty_read device b f bytes none_16 tables answer),
      λ cl. no_entry f.fat_type cl,
    )
