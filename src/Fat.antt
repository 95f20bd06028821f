-- ===== src/Fat.antt =====
-- includeos-patch/fat.hpp and fat.cpp: the geometry of a FAT volume, the allocation table, and how
-- a volume is initialised from its first sector.
mod Tests
pub mod Chain
pub mod Geometry
use craft_osos.Base.{
  ℕ, zero, suc, ◌+◌, ◌-◌, ◌*◌, ◌/◌, ◌%◌, ◌^◌, bit_and, bit_or, Bool, true, false, Option, none,
  some, List, [], ◌∷◌, ltb, leb, ◌==◌, if◌then◌else◌, get_elem?, take, length, ◌>>=◌, not,
}

-- `T_FAT12`, `T_FAT16` and `T_FAT32`
pub data FatType : Type 0 where
  fat12 fat16 fat32 : FatType

abbrev pub u16 : ℕ → ℕ
u16 n = n % 2 ^ 16

abbrev pub u32 : ℕ → ℕ
u32 n = n % 2 ^ 32

-- The fields of the first sector that the code reads. Their places in the sector are those of
-- fs/mbr.hpp of IncludeOS; `boot_25` is the 32-bit number at `boot[25]`.
pub record Bpb : Type 0 where
  pub magic : ℕ
  pub bytes_per_sector : ℕ
  pub sectors_per_cluster : ℕ
  pub reserved_sectors : ℕ
  pub fa_tables : ℕ
  pub root_entries : ℕ
  pub small_sectors : ℕ
  pub sectors_per_fat : ℕ
  pub hidden_sectors : ℕ
  pub large_sectors : ℕ
  pub signature : ℕ
  pub boot_25 : ℕ

-- The members of `FAT_` that the geometry stands in. `table` is `file_allocation_tables[0]`.
pub record Fat : Type 0 where
  pub lba_base : ℕ
  pub lba_size : ℕ
  pub sector_size : ℕ
  pub sectors : ℕ
  pub clusters : ℕ
  pub fat_type : FatType
  pub reserved : ℕ
  pub sectors_per_fat : ℕ
  pub sectors_per_cluster : ℕ
  pub root_dir_sectors : ℕ
  pub root_cluster : ℕ
  pub data_index : ℕ
  pub data_sectors : ℕ
  pub fat_count : ℕ
  pub table : List ℕ

-- `cl_to_sector`, in `uint32_t`
unfoldable pub cl_to_sector : Fat → ℕ → ℕ
cl_to_sector f cl =
    if leb cl 2
    then u32 (
        f.lba_base
        + f.data_index
        + u32 (f.root_cluster + 2 ^ 32 - 2) * f.sectors_per_cluster
        + 2 ^ 32
        - f.root_dir_sectors)
    else u32 (f.lba_base + f.data_index + (cl - 2) * f.sectors_per_cluster)

-- Little-endian numbers in the table; a read behind its end is `none`.
abbrev pub byte_at : List ℕ → ℕ → Option ℕ
byte_at table i = get_elem? table i

unfoldable pub read_u16 : List ℕ → ℕ → Option ℕ
read_u16 table i = do lo ← byte_at table i; hi ← byte_at table (i + 1); some (lo + 256 * hi)

unfoldable pub read_u32 : List ℕ → ℕ → Option ℕ
unfolding read_u16
read_u32 table i = do lo ← read_u16 table i; hi ← read_u16 table (i + 2); some (lo + 65536 * hi)

-- The two cases of `next_cluster` for FAT12.
unfoldable pub next_fat12 : List ℕ → ℕ → Option ℕ
next_fat12 table cl =
    if cl % 2 == 0
    then (do
      b1 ← byte_at table (cl / 2 * 3 + 1)
      b0 ← byte_at table (cl / 2 * 3)
      some (bit_or (bit_and b1 0x0F * 256) b0))
    else (do
      b1 ← byte_at table (cl / 2 * 3 + 1)
      b2 ← byte_at table (cl / 2 * 3 + 2)
      some (bit_or (bit_and b1 0xF0 / 16) (b2 * 16)))

unfoldable pub next_in : FatType → List ℕ → ℕ → Option ℕ
unfolding next_fat12 read_u16 read_u32
next_in fat12 table cl = next_fat12 table cl
next_in fat16 table cl = read_u16 table (cl * 2)
next_in fat32 table cl = read_u32 table (cl * 4)

abbrev pub next_cluster : Fat → ℕ → Option ℕ
next_cluster f cl = next_in f.fat_type f.table cl

abbrev pub entry_size : FatType → ℕ
entry_size fat16 = 2
entry_size _ = 4

-- `cl * 2` and `cl * 4` are of type `uint32_t`. A division by 0 is undefined behaviour.
unfoldable pub cl_to_entry_offset : Fat → ℕ → Option ℕ
cl_to_entry_offset f cl =
    if f.sector_size == 0
    then none
    else some (u16 (u32 (cl * entry_size f.fat_type) % f.sector_size))

unfoldable pub cl_to_entry_sector : Fat → ℕ → Option ℕ
cl_to_entry_sector f cl =
    if f.sector_size == 0
    then none
    else some (u16 (f.reserved + u32 (cl * entry_size f.fat_type) / f.sector_size))

-- The tests of `int_ls` for the end of a cluster chain.
unfoldable pub is_end : FatType → ℕ → Bool
is_end fat12 cluster = leb 0xFF8 cluster
is_end fat16 cluster = leb 0xFFF8 cluster
is_end fat32 cluster = leb 0xFFFFFFF8 cluster

-- `os::panic` ends the run; undefined behaviour is `fault`.
pub data Init (A : Type 0) : Type 0 where
  ready : A → Init A
  panic : Init A
  fault : Init A

-- The type by the number of clusters.
unfoldable pub fat_type_of : ℕ → FatType
fat_type_of clusters =
    if ltb clusters 4085 then fat12 else (if ltb clusters 65525 then fat16 else fat32)

-- The geometry that the first sector gives, by a number of sectors per cluster that is not 0.
unfoldable pub layout : ℕ → ℕ → Bpb → Fat
unfolding fat_type_of
layout base size bpb =
    let sectors = if bpb.small_sectors == 0 then bpb.large_sectors else bpb.small_sectors in
    let per_fat = if bpb.sectors_per_fat == 0 then bpb.boot_25 else bpb.sectors_per_fat in
    let root_dir =
      u16 ((bpb.root_entries * 32 + (bpb.bytes_per_sector - 1)) / bpb.bytes_per_sector) in
    let data_index = u32 (bpb.reserved_sectors + bpb.fa_tables * per_fat + root_dir) in
    let data_sectors = u32 (sectors + 2 ^ 32 - data_index) in
    let clusters = data_sectors / bpb.sectors_per_cluster in
    record {
      lba_base = u32 base;
      lba_size = u32 size;
      sector_size = bpb.bytes_per_sector;
      sectors = sectors;
      clusters = clusters;
      fat_type = fat_type_of clusters;
      reserved = bpb.reserved_sectors;
      sectors_per_fat = per_fat;
      sectors_per_cluster = bpb.sectors_per_cluster;
      root_dir_sectors = root_dir;
      root_cluster = 2;
      data_index = data_index;
      data_sectors = data_sectors;
      fat_count = bpb.fa_tables;
      table = [];
    }

-- `init(const void* base_sector)` up to the type. `none` is a division by 0.
unfoldable pub geometry : ℕ → ℕ → Bpb → Option Fat
unfolding layout
geometry base size bpb = if bpb.sectors_per_cluster == 0 then none else some (layout base size bpb)

-- `device.read_sync(sector, count)`: the bytes, or nothing.
abbrev pub Device : Type 0
Device = ℕ → ℕ → Option (List ℕ)

-- The copy of the table, in the length that the first sector gives for FAT12 and FAT16. The bytes
-- that are copied are all there if the device gives as many as are asked for.
unfoldable pub copy_table : Bpb → Fat → Option (List ℕ) → Init Fat
copy_table bpb f none = panic
copy_table bpb f (some bytes) =
    let size = bpb.sectors_per_fat * bpb.bytes_per_sector in
    if leb size (length bytes) then ready (record f { table = take size bytes }) else fault

-- With no table at all the store to `file_allocation_tables[0]` is out of bounds.
unfoldable pub read_table : Device → Bpb → Option Fat → Init Fat
unfolding copy_table
read_table device bpb none = fault
read_table device bpb (some f) =
    if bpb.fa_tables == 0
    then fault
    else copy_table bpb f
        (device (u32 (bpb.hidden_sectors + bpb.reserved_sectors)) bpb.sectors_per_fat)

-- The whole of `init(const void* base_sector)`.
unfoldable pub init_base : Device → ℕ → ℕ → Bpb → Init Fat
unfolding geometry read_table
init_base device base size bpb =
    if ltb bpb.bytes_per_sector 512 then panic else read_table device bpb (geometry base size bpb)

-- What the callback of `init` is given.
pub data Mount : Type 0 where
  mounted : Fat → Mount
  no_signature : Mount
  stopped : Mount
  undefined : Mount

abbrev pub mount_of : Init Fat → Mount
mount_of (ready f) = mounted f
mount_of panic = stopped
mount_of fault = undefined

-- `init(base, size, on_init)`. `bpb_of` is where the fields are in a sector. The test of the
-- pointer comes behind `data->data()`, which needs it to be there.
unfoldable pub init : (List ℕ → Bpb) → Device → ℕ → ℕ → Mount
unfolding init_base
init bpb_of device base size = elim (device base 1) [
  | none ↦ undefined
  | some sector ↦
      let bpb = bpb_of sector in
      if not (bpb.magic == 0xAA55) then no_signature else mount_of (init_base device base size bpb)
]
