-- ===== src/Volume.antt =====
-- includeos-patch/fat_sync.cpp: listing directories, following paths and reading files on a FAT
-- volume.
pub mod Tests
pub mod Names
pub mod Listing
pub mod Match
pub mod Walk
use craft_osos.Base.{
  ℕ, zero, suc, ◌+◌, ◌-◌, ◌*◌, ◌/◌, ◌%◌, ◌^◌, Bool, true, false, not, ◌&&◌, ◌||◌, Option, none,
  some, List, [], ◌∷◌, ◌++◌, ltb, leb, ◌==◌, if◌then◌else◌, length, take, drop, min,
}
use craft_osos.Lua.{Text}
use craft_osos.Fat.{Fat, FatType, Device, cl_to_sector, next_cluster, is_end, u32}
use craft_osos.Directory.{
  Slot, Dirent, EntryType, file, dir, volume_id, symbolic_link, invalid_entity, to_lower,
  int_dirent,
}

-- `iequals(a, b)`: `std::equal` runs over the characters of `a` alone. Behind the end of `b` it
-- meets the NUL of the string, which no name has.
unfoldable pub iequals : Text → Text → Bool
iequals [] b = true
iequals (x ∷ a) [] = false
iequals (x ∷ a) (y ∷ b) = to_lower x == to_lower y && iequals a b

-- The errors that the functions return; `out_of_bounds` is a read behind the table, and `endless`
-- the end of the fuel.
pub data Error : Type 0 where
  io_error : Error
  not_dir : Error
  no_entry : Text → Error
  out_of_bounds : Error
  endless : Error

pub data Outcome (A : Type 0) : Type 0 where
  ok : A → Outcome A
  failed : Error → Outcome A

-- `ls_cache`, by the first cluster of a directory.
abbrev pub Cache : Type 0
Cache = List (ℕ × List Dirent)

unfoldable pub find : ℕ → Cache → Option (List Dirent)
find cluster [] = none
find cluster ((c, ents) ∷ cache) =
    let rest = find cluster cache in if c == cluster then some ents else rest

abbrev pub Result : Type 0
Result = Outcome (List Dirent) × Cache

-- `return err`, or what comes next.
abbrev pub on_ok : Result → (List Dirent → Cache → Result) → Result
on_ok (ok ents, cache) next = next ents cache
on_ok (failed e, cache) next = (failed e, cache)

-- What comes behind a step that can fail with an error.
abbrev pub or_fail {ℓ} : {A : Type ℓ} {B : Type 0} → Error → Option A → (A → Outcome B) → Outcome B
or_fail e none next = failed e
or_fail e (some a) next = next a

abbrev pub insert : ℕ → Cache → Outcome (List Dirent) → Result
insert cluster cache (ok ents) = (ok ents, (cluster, ents) ∷ cache)
insert cluster cache (failed e) = (failed e, cache)

-- The directory that a name stands for in a listing; `found` is what it was before. `none` is the
-- error for a file.
unfoldable pub look_up : Text → List Dirent → Dirent → Option Dirent
look_up name [] found = some found
look_up name (e ∷ ents) found =
    let rest = look_up name ents found in
    if iequals e.name name then (elim (e.entry_type) [ dir ↦ some e | _ ↦ none ]) else rest

-- `Dirent(this, INVALID_ENTITY)`
abbrev pub invalid_dirent : Dirent
invalid_dirent = record {
  entry_type = invalid_entity;
  name = [];
  block = 0;
  parent = 0;
  size = 0;
  attrib = 0;
  modified = 0;
}

abbrev pub root_dirent : Dirent
root_dirent = record invalid_dirent { entry_type = dir; name = b'/' ∷ [] }

abbrev pub is_invalid : EntryType → Bool
is_invalid invalid_entity = true
is_invalid _ = false

abbrev pub is_dir : EntryType → Bool
is_dir dir = true
is_dir _ = false

-- The checks of what `look_up` found.
abbrev pub on_found : Text → Option Dirent → Cache → (Dirent → Result) → Result
on_found name none cache next = (failed not_dir, cache)
on_found name (some d) cache next =
    if is_invalid d.entry_type then (failed (no_entry name), cache) else next d

-- `path.back()`, and the path without it.
abbrev pub back : Text → List Text → Text
back name [] = name
back name (n ∷ path) = back n path

abbrev pub pop_back : Text → List Text → List Text
pop_back name [] = []
pop_back name (n ∷ path) = name ∷ pop_back n path

unfoldable pub find_name : Text → List Dirent → Dirent
find_name name [] = invalid_dirent
find_name name (e ∷ ents) =
    let rest = find_name name ents in if iequals e.name name then e else rest

abbrev pub start_cluster : Option Dirent → ℕ
start_cluster none = 0
start_cluster (some d) = u32 d.block

abbrev pub stat_in : Text → Outcome (List Dirent) → Dirent
stat_in name (ok ents) = find_name name ents
stat_in name (failed e) = invalid_dirent

-- `slots_in` is how the bytes of a cluster are divided into slots.
module _ (device : Device) (slots_in : List ℕ → List Slot) (f : Fat) where
  -- `int_dirent` on a cluster, with its sector.
  abbrev pub cluster_entries : ℕ → List ℕ → List Dirent × Bool
  cluster_entries cluster bytes =
      int_dirent f.root_cluster f.sectors_per_cluster (cl_to_sector f cluster) (slots_in bytes)

  -- The loop of `int_ls`, which reads the next cluster number before it tests for the end.
  unfoldable pub ls_loop : ℕ → ℕ → List Dirent → Outcome (List Dirent)
  ls_loop zero cluster ents = failed endless
  ls_loop (suc fuel) cluster ents =
      or_fail io_error (device (cl_to_sector f cluster) f.sectors_per_cluster) (λ bytes.
        or_fail out_of_bounds (next_cluster f cluster) (λ next.
          let (new, done) = cluster_entries cluster bytes in
          let rest = ls_loop fuel next (ents ++ new) in
          if is_end f.fat_type next || done then ok (ents ++ new) else rest))

  abbrev pub cached_or : Option (List Dirent) → Cache → Result → Result
  cached_or (some ents) cache read = (ok ents, cache)
  cached_or none cache read = read

  unfoldable pub int_ls : ℕ → Cache → ℕ → Result
  unfolding ls_loop find
  int_ls fuel cache cluster =
      cached_or (find cluster cache) cache (insert cluster cache (ls_loop fuel cluster []))

  -- `traverse` from a cluster, with the directory that was found last.
  unfoldable pub walk : ℕ → Cache → ℕ → Dirent → List Text → Result
  unfolding int_ls look_up
  walk fuel cache cluster found [] = int_ls fuel cache cluster
  walk fuel cache cluster found (name ∷ path) = on_ok (int_ls fuel cache cluster) (λ ents cache'.
      on_found name (look_up name ents found) cache' (λ d. walk fuel cache' (u32 d.block) d path))

  unfoldable pub traverse : ℕ → Cache → List Text → Option Dirent → Result
  unfolding walk
  traverse fuel cache path start = walk fuel cache (start_cluster start) invalid_dirent path

  -- `ls(strpath)`, with the names of the path, and `ls(ent)`.
  unfoldable pub ls : ℕ → Cache → List Text → Result
  unfolding traverse
  ls fuel cache path = traverse fuel cache path none

  unfoldable pub ls_dirent : ℕ → Cache → Dirent → Result
  unfolding int_ls
  ls_dirent fuel cache ent =
      if is_invalid ent.entry_type || not (is_dir ent.entry_type)
      then (failed not_dir, cache)
      else int_ls fuel cache (u32 ent.block)

  unfoldable pub stat : ℕ → Cache → List Text → Option Dirent → Dirent × Cache
  unfolding traverse find_name
  stat fuel cache [] start = (root_dirent, cache)
  stat fuel cache (name ∷ path) start =
      let (out, cache') = traverse fuel cache (pop_back name path) start in
      (stat_in (back name path) out, cache')
