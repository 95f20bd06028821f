-- ===== src/Disk.antt =====
-- includeos-patch/disk.cpp and disk.hpp: the partitions of a disk, and which one its file system is
-- initialised on.
mod Tests
pub mod Detect
use craft_osos.Base.{
  ℕ, zero, suc, ◌+◌, ◌-◌, Bool, true, false, not, ◌&&◌, ◌||◌, Option, none, some, List, [], ◌∷◌,
  leb, ◌==◌, if◌then◌else◌, get_elem?, take,
}
use craft_osos.Fat.{Bpb, Device, Mount, init}

-- An entry of the partition table, with the fields and functions that the code reads.
pub record Entry : Type 0 where
  pub flags : ℕ
  pub kind : ℕ
  pub lba_begin : ℕ
  pub sectors : ℕ

-- `fs::Partition`, with the arguments of its constructor.
abbrev pub Partition : Type 0
Partition = ℕ × ℕ × ℕ × ℕ

-- `partition_t`: `MBR`, and `VBR1` to `VBR4` by number from 0.
pub data Place : Type 0 where
  mbr : Place
  vbr : ℕ → Place

-- How an initialisation ends: with what the callback is given by `FAT_::init`, with one of the
-- errors of disk.cpp, with a failed assertion, with the exception `Err_not_mounted`, or in
-- undefined behaviour, as with a reference to a file system that is not there or a fifth partition.
pub data Start : Type 0 where
  started : Mount → Start
  no_mbr : Start
  none_detected : Start
  assertion_failed : Start
  not_mounted : Start
  undefined_use : Start

-- A step on the sector 0 that was read, or what follows without it.
abbrev pub on_sector {ℓ} : {A : Type ℓ} → Option (List ℕ) → A → (List ℕ → A) → A
on_sector none otherwise next = otherwise
on_sector (some bytes) otherwise next = next bytes

abbrev pub entry_in_use : Entry → Bool
entry_in_use p = not (p.kind == 0) && (not (p.lba_begin == 0) && not (p.sectors == 0))

-- The loop of `init_fs`: the number of the first entry in use, from `i` on.
unfoldable pub first_in_use : ℕ → List Entry → Option ℕ
first_in_use i [] = none
first_in_use i (p ∷ ps) =
    let rest = first_in_use (suc i) ps in if entry_in_use p then some i else rest

-- The test for FAT in the first sector.
unfoldable pub has_fat : Bpb → Bool
has_fat b =
    leb 512 b.bytes_per_sector
    && (not (b.fa_tables == 0) && (not (b.signature == 0) || not (b.large_sectors == 0)))

abbrev pub partition_of : Entry → Partition
partition_of p = (p.flags, p.kind, p.lba_begin, p.sectors)

abbrev pub partitions_of : List Entry → List Partition
partitions_of [] = []
partitions_of (p ∷ ps) = partition_of p ∷ partitions_of ps

abbrev pub on_entry : Option Entry → (Entry → Start) → Start
on_entry none next = undefined_use
on_entry (some p) next = if p.sectors == 0 then assertion_failed else next p

-- `bpb_of` and `entries_of` are where the fields of the first sector stand, and `size` is the
-- size of the device. `ready` is whether there is a file system already.
module _ (bpb_of : List ℕ → Bpb) (entries_of : List ℕ → List Entry) (device : Device)
    (size : ℕ) where
  -- `partitions`: what the callback is given, or the error.
  unfoldable pub partitions : Option (List Partition)
  partitions =
      on_sector (device 0 1) none (λ bytes. some (partitions_of (take 4 (entries_of bytes))))

  unfoldable pub internal_init : Place → Start
  unfolding init
  internal_init mbr = started (init bpb_of device 0 size)
  internal_init (vbr i) = on_sector (device 0 1) no_mbr (λ bytes.
      on_entry (get_elem? (entries_of bytes) i)
        (λ p. started (init bpb_of device p.lba_begin p.sectors)))

  -- `init_fs(part, func)`
  unfoldable pub init_fs_at : Place → Start
  unfolding internal_init
  init_fs_at place = internal_init place

  abbrev pub on_place : Bool → Option ℕ → Start
  on_place ready (some i) = internal_init (vbr i)
  on_place ready none = if ready then none_detected else not_mounted

  -- `init_fs(func)`
  unfoldable pub init_fs : Bool → Start
  unfolding internal_init first_in_use has_fat
  init_fs ready = on_sector (device 0 1) (if ready then no_mbr else undefined_use) (λ bytes.
      if has_fat (bpb_of bytes)
      then internal_init mbr
      else on_place ready (first_in_use 0 (take 4 (entries_of bytes))))
