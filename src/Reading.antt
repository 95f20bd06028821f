-- ===== src/Reading.antt =====
-- includeos-patch/fat_sync.cpp: `read`, which gives a part of a file.
mod Tests
pub mod Parts
pub mod Files
use craft_osos.Base.{
  ℕ, zero, suc, ◌+◌, ◌-◌, ◌*◌, ◌/◌, ◌%◌, ◌^◌, Bool, true, false, not, ◌&&◌, Option, none, some,
  List, [], ◌∷◌, ◌++◌, leb, ◌==◌, if◌then◌else◌, length, take, drop, min,
}
use craft_osos.Fat.{Fat, Device, cl_to_sector, next_cluster, u32, Init, ready, panic, fault}
use craft_osos.Directory.{Dirent}

unfoldable pub roundup : ℕ → ℕ → ℕ
roundup n multiple = (n + multiple - 1) / multiple * multiple

abbrev pub u64 : ℕ → ℕ
u64 n = n % 2 ^ 64

-- The bytes between two iterators; past the end of the data there are none.
unfoldable pub slice : ℕ → ℕ → List ℕ → Option (List ℕ)
slice from to bytes =
    if leb from to && leb to (length bytes) then some (take (to - from) (drop from bytes)) else none

-- What is taken of the cluster number `cn` of `nclust`. The size of a cluster is that of the
-- device's blocks here.
unfoldable pub part : ℕ → ℕ → ℕ → ℕ → ℕ → List ℕ → Option (List ℕ)
unfolding slice
part size nclust cn stapos endpos bytes =
    if nclust == 1 && not (endpos % size == 0)
    then slice (stapos % size) (endpos % size) bytes
    else (if cn == 0
        then slice (stapos % size) (length bytes) bytes
        else (if cn == nclust - 1 && not (endpos % size == 0)
            then slice 0 (endpos % size) bytes
            else some bytes))

-- A step that may end the run.
abbrev pub or_stop {ℓ} : {A : Type ℓ} {B : Type 0} → Init B → Option A → (A → Init B) → Init B
or_stop stopped none next = stopped
or_stop stopped (some a) next = next a

module _ (device : Device) (f : Fat) (block_size : ℕ) where
  -- The loop, with the clusters to come. The next cluster is looked up behind the last one, too.
  unfoldable pub read_loop : ℕ → ℕ → ℕ → ℕ → ℕ → ℕ → List ℕ → Init (List ℕ)
  unfolding part
  read_loop zero nclust cn stapos endpos cl finaldata = ready finaldata
  read_loop (suc left) nclust cn stapos endpos cl finaldata =
      or_stop panic (device (cl_to_sector f cl) f.sectors_per_cluster) (λ bytes.
        or_stop fault (part (block_size * f.sectors_per_cluster) nclust cn stapos endpos bytes)
          (λ taken.
            or_stop fault (next_cluster f cl)
              (λ next. read_loop left nclust (suc cn) stapos endpos next (finaldata ++ taken))))

  -- `read(ent, pos, n)`, for files of less than 2 ^ 32 clusters. With clusters of size 0 it divides
  -- by 0.
  unfoldable pub read : Dirent → ℕ → ℕ → Init (List ℕ)
  unfolding read_loop roundup
  read ent pos n =
      let stapos = min ent.size pos in
      let endpos = min ent.size (u64 (pos + n)) in
      let size = f.sector_size * f.sectors_per_cluster in
      let cluster = stapos / size in
      let nclust = u64 (roundup endpos size / size + 2 ^ 64 - cluster) in
      if size == 0
      then fault
      else read_loop nclust nclust 0 stapos endpos (u32 (ent.block + cluster)) []
