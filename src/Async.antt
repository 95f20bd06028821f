-- ===== src/Async.antt =====
-- includeos-patch/fat_async.cpp: the functions of the FAT driver that answer through callbacks; what
-- a callback is given is a result here.
mod Tests
pub mod Lookup
pub mod Reads
use craft_osos.Base.{
  ℕ, zero, suc, ◌+◌, ◌-◌, ◌*◌, ◌/◌, ◌%◌, ◌^◌, Bool, true, false, not, ◌&&◌, ◌||◌, Option, none,
  some, List, [], ◌∷◌, ◌++◌, leb, ◌==◌, if◌then◌else◌, length, take, drop, replicate, min,
}
use craft_osos.Lua.{Text}
use craft_osos.Os.{text_eq}
use craft_osos.Fat.{Fat, Device, cl_to_sector, u32}
use craft_osos.Directory.{Slot, Dirent, EntryType, dir, int_dirent}
use craft_osos.Volume.{
  Error, Outcome, ok, failed, io_error, not_dir, no_entry, out_of_bounds, endless, iequals,
  is_invalid, is_dir, invalid_dirent, root_dirent, start_cluster, back, pop_back, or_fail,
}
use craft_osos.Reading.{roundup, slice, u64}

-- `name.find_first_of(' ')`; `npos` is the largest number of 64 bits.
abbrev pub npos : ℕ
npos = 2 ^ 64 - 1

unfoldable pub find_space : Text → ℕ → ℕ
find_space [] at = npos
find_space (c ∷ cs) at = let rest = find_space cs (suc at) in if c == b' ' then at else rest

-- `substr(pos, count)`, for a position inside of the text.
abbrev pub substr : ℕ → ℕ → Text → Text
substr pos count text = take (min count (length text)) (drop pos text)

-- The name of eight and three characters that a name of eleven stands for.
unfoldable pub dotted : Text → Text
unfolding find_space
dotted name =
    let space = find_space name 0 in
    substr 0 space name ++ (b'.' ∷ substr 8 (u64 (space + 2 ^ 64 - 8)) name)

unfoldable pub names_match : Text → Text → Bool
unfolding iequals dotted
names_match entry_name name =
    iequals entry_name name || (length entry_name == 11 && iequals (dotted entry_name) name)

-- The loop over the entries of a directory: the first match decides.
unfoldable pub match_in : Text → List Dirent → Outcome Dirent
unfolding names_match
match_in name [] = failed (no_entry name)
match_in name (e ∷ ents) =
    let rest = match_in name ents in
    if names_match (e.name) name
    then (if is_dir (e.entry_type) then ok e else failed not_dir)
    else rest

unfoldable pub exact_in : Text → List Dirent → Outcome Dirent
exact_in name [] = failed (no_entry name)
exact_in name (e ∷ ents) =
    let rest = exact_in name ents in if text_eq (e.name) name then ok e else rest

abbrev pub on_outcome : {A B : Type 0} → Outcome A → (A → Outcome B) → Outcome B
on_outcome (ok a) next = next a
on_outcome (failed e) next = failed e

-- `stat_cache`, by the path.
abbrev pub StatCache : Type 0
StatCache = List (Text × Dirent)

unfoldable pub cached : Text → StatCache → Option Dirent
cached path [] = none
cached path ((p, e) ∷ cache) =
    let rest = cached path cache in if text_eq p path then some e else rest

-- What `on_stat_func` is given: an error or none, and an entry.
abbrev pub StatResult : Type 0
StatResult = Option Error × Dirent

abbrev pub cached_or : Option Dirent → StatCache → StatResult × StatCache → StatResult × StatCache
cached_or (some e) cache read = ((none, e), cache)
cached_or none cache read = read

-- `cstat(strpath, func)`; `stat` is what `File_system::stat` of IncludeOS gives, and a path that is
-- not in the cache is added.
unfoldable pub cstat : (Text → StatResult) → Text → StatCache → StatResult × StatCache
unfolding cached
cstat stat path cache =
    let (err, ent) = stat path in
    cached_or (cached path cache) cache ((err, ent), (path, ent) ∷ cache)

-- `resize(n)`: the buffer is cut, or filled up with zeros.
abbrev pub resize : ℕ → List ℕ → List ℕ
resize n bytes = take n (bytes ++ replicate n 0)

-- What `read` makes of the sectors that it has got.
abbrev pub cut : ℕ → ℕ → List ℕ → Outcome (List ℕ)
cut ofs n bytes =
    if ofs == 0 then ok (resize n bytes) else or_fail out_of_bounds (slice ofs (ofs + n) bytes) ok

module _ (device : Device) (slots_in : List ℕ → List Slot) (f : Fat) where
  abbrev pub sector_entries : ℕ → List ℕ → List Dirent × Bool
  sector_entries sector bytes =
      int_dirent (f.root_cluster) (f.sectors_per_cluster) sector (slots_in bytes)

  -- The loop of `int_ls`, which reads one sector at a time and goes on to the next on the disk.
  -- `int_dirent` looks at as many slots as a cluster has: where no end mark stands in the sector
  -- and a cluster has more than one, it reads behind the buffer.
  unfoldable pub ls_loop : ℕ → ℕ → List Dirent → Outcome (List Dirent)
  ls_loop zero sector ents = failed endless
  ls_loop (suc fuel) sector ents = or_fail io_error (device sector 1) (λ bytes.
      let (new, done) = sector_entries sector bytes in
      let rest = ls_loop fuel (u32 (suc sector)) (ents ++ new) in
      if done
      then ok (ents ++ new)
      else (if leb (f.sectors_per_cluster) 1 then rest else failed out_of_bounds))

  unfoldable pub int_ls : ℕ → ℕ → Outcome (List Dirent)
  unfolding ls_loop
  int_ls fuel sector = ls_loop fuel sector []

  -- `traverse`, from a cluster on.
  unfoldable pub walk : ℕ → ℕ → List Text → Outcome (List Dirent)
  unfolding int_ls match_in
  walk fuel cluster [] = int_ls fuel (cl_to_sector f cluster)
  walk fuel cluster (name ∷ path) =
      on_outcome (int_ls fuel (cl_to_sector f cluster))
        (λ ents. on_outcome (match_in name ents) (λ e. walk fuel (u32 (e.block)) path))

  unfoldable pub traverse : ℕ → List Text → Option Dirent → Outcome (List Dirent)
  unfolding walk
  traverse fuel path start = walk fuel (start_cluster start) path

  -- `ls(path, on_ls)` and `ls(ent, on_ls)`
  unfoldable pub ls : ℕ → List Text → Outcome (List Dirent)
  unfolding traverse
  ls fuel path = traverse fuel path none

  unfoldable pub ls_dirent : ℕ → Dirent → Outcome (List Dirent)
  unfolding int_ls
  ls_dirent fuel ent =
      if is_invalid (ent.entry_type) || not (is_dir (ent.entry_type))
      then failed not_dir
      else int_ls fuel (cl_to_sector f (u32 (ent.block)))

  abbrev pub stat_result : Text → Outcome Dirent → StatResult
  stat_result name (ok e) = (none, e)
  stat_result name (failed err) = (some err, record invalid_dirent { name = name })

  -- `stat(path, func, start)`
  unfoldable pub stat : ℕ → List Text → Option Dirent → StatResult
  unfolding traverse exact_in
  stat fuel [] start = (none, root_dirent)
  stat fuel (name ∷ path) start =
      let filename = back name path in
      stat_result filename
        (on_outcome (traverse fuel (pop_back name path) start) (exact_in filename))

module _ (device : Device) (f : Fat) where
  abbrev pub read_by : ℕ → ℕ → Dirent → ℕ → ℕ → Outcome (List ℕ)
  read_by size block_size ent pos n =
      let stapos = u32 (min (ent.size) pos) in
      let endpos = u32 (min (ent.size) (u64 (pos + n))) in
      let count = u32 (endpos + 2 ^ 32 - stapos) in
      let sector = stapos / size in
      let nsect = u32 (roundup endpos size / size + 2 ^ 32 - sector) in
      if n == 0
      then failed io_error
      else or_fail io_error (device (u32 (cl_to_sector f (ent.block) + sector)) nsect)
          (cut (stapos % block_size) count)

  -- `read(ent, pos, n, callback)`, for the size of the device's blocks.
  unfoldable pub read : ℕ → Dirent → ℕ → ℕ → Outcome (List ℕ)
  unfolding roundup slice
  read block_size ent pos n = read_by (f.sector_size) block_size ent pos n
