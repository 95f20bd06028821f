-- ===== src/Main/Bios.antt =====
-- Reading the BIOS.
use craft_osos.Base.{
  ℕ, ◌+◌, ◌-◌, ◌/◌, ◌%◌, ◌^◌, ◌<◌, ◌≡◌, ◌≢◌, false, none, List, [], take, drop, length,
  if◌then◌else◌, arith, sym, ap, ◌∙◌,
}
use mathlib.Core.Path.{subst}
use native.Mathlib.Nat.{zero-div, zero-mod}
use craft_osos.Fat.{Fat, Device, ready, panic, u32}
use craft_osos.Directory.{Slot, Dirent, file}
use craft_osos.Volume.{Cache, is_invalid}
use craft_osos.Volume.Listing.{Cached}
use craft_osos.Volume.Match.{FirstMatch}
use craft_osos.Volume.Walk.{Holds, here, stat-first}
use craft_osos.Reading.{read}
use craft_osos.Reading.Parts.{concat, Visits}
use craft_osos.Reading.Files.{size_of, start_of, end_of, read-Visits}
use craft_osos.Main.{bios_name, read_bios}

-- The whole of a file, and more.
read-whole :
    (device : Device) (f : Fat) (ent : Dirent) (more : ℕ) (clusters : List (List ℕ))
    → size_of f ≢ 0
    → ent.size + more < 2 ^ 64
    → ent.block < 2 ^ 32
    → Visits device f f.sector_size ent.block clusters
    → length clusters ≡ (ent.size + size_of f - 1) / size_of f
    → read device f f.sector_size ent 0 (ent.size + more) ≡ ready (take ent.size (concat clusters))
read-whole device f ent more clusters ne small block way count =
    let size = size_of f in
    let start : start_of ent 0 ≡ 0 = omega arith in
    let end : end_of ent 0 (ent.size + more) ≡ ent.size = omega arith in
    let quotient : start_of ent 0 / size ≡ 0 = ap (λ k. k / size) start ∙ zero-div size in
    let remainder : start_of ent 0 % size ≡ 0 = ap (λ k. k % size) start ∙ zero-mod size in
    let first : u32 (ent.block + start_of ent 0 / size) ≡ ent.block = omega arith in
    let blocks : length clusters
        ≡ (end_of ent 0 (ent.size + more) + size - 1) / size - start_of ent 0 / size =
      count ∙ ap (λ k. (k + size - 1) / size) (sym end) ∙ omega arith in
    read-Visits device f ent 0 (ent.size + more) clusters ne (omega arith)
      (subst (λ c. Visits device f f.sector_size c clusters) (sym first) way) blocks
    ∙ ap
        (λ k.
          ready (take (end_of ent 0 (ent.size + more) - start_of ent 0) (drop k (concat clusters))))
        remainder
    ∙ ap (λ k. ready (take k (concat clusters))) {y = ent.size} (omega arith)

-- When bios.lua is a file in the root directory, the first of its name, `main2` reads the whole of
-- it, as the clusters of its chain hold it, with any cache that holds what is on the disk: reading
-- a 512th more than its size makes no difference. Its size and first cluster are below 2 ^ 32, its
-- clusters can be read and are not empty, and the fuel is enough for the root directory.
pub read_bios-whole :
    (device : Device) (slots_in : List ℕ → List Slot) (f : Fat) (fuel : ℕ) (cache : Cache)
    (ents : List Dirent) (bios : Dirent) (clusters : List (List ℕ))
    → Cached device slots_in f cache
    → Holds device slots_in f fuel 0 ents
    → FirstMatch bios_name ents bios
    → bios.entry_type ≡ file
    → size_of f ≢ 0
    → bios.size < 2 ^ 32
    → bios.block < 2 ^ 32
    → Visits device f f.sector_size bios.block clusters
    → length clusters ≡ (bios.size + size_of f - 1) / size_of f
    → read_bios device slots_in f f.sector_size fuel cache
      ≡ ready (take bios.size (concat clusters))
unfolding read_bios
read_bios-whole device slots_in f fuel cache ents bios clusters held holds first is_file ne small
      block way count =
    let (cache', _, found) =
      stat-first device slots_in f fuel cache [] bios_name none 0 ents bios held (here 0) holds
        first in
    let valid : is_invalid bios.entry_type ≡ false = ap is_invalid is_file in
    ap
      (λ r.
        if is_invalid r.0.entry_type
        then panic
        else read device f f.sector_size r.0 0 (r.0.size + r.0.size / 512))
      found
    ∙ ap
        (λ b. if b then panic else read device f f.sector_size bios 0 (bios.size + bios.size / 512))
        valid
    ∙ read-whole device f bios (bios.size / 512) clusters ne (omega arith) block way count
