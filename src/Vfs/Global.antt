-- ===== src/Vfs/Global.antt =====
-- includeos-patch/vfs.hpp: the struct VFS, with the one tree, the map of disks and the map of saved
-- directory entries.
use craft_osos.Base.{
  ℕ, Bool, true, false, not, ◌&&◌, ◌==◌, if◌then◌else◌, Option, none, some, List, [], ◌∷◌,
}
use craft_osos.Lua.{Text}
use craft_osos.Os.{text_eq}
use craft_osos.Directory.{Dirent}
use craft_osos.Vfs.{
  Tokens, TypeId, dirent_type, disk_type, Class, Object, saved, invalid, disk_ptr, VfsEntry, info,
  Try, done, thrown, then_try, not_found, not_mounted, Found, walk, entry_at, object_as, mount,
  Mounting,
}

-- A disk of `disk_map`: whether its file system is ready, and `fs().stat(path)`, which gives the
-- error flag and the entry. The file system is an interface of IncludeOS.
pub record FileSystem : Type 0 where
  pub fs_ready : Bool
  pub stat : Tokens → Bool × Dirent

-- `dirent_map`, by the disk and the path on it.
abbrev pub DirentMap : Type 0
DirentMap = List ((ℕ × Tokens) × Dirent)

-- `disk_map` has the same keys in any run: the file systems behind them are a parameter.
pub record Vfs : Type 0 where
  pub mutable_root : VfsEntry
  pub disk_map : List ℕ
  pub dirent_map : DirentMap

unfoldable pub same_path : Tokens → Tokens → Bool
same_path [] [] = true
same_path (s ∷ p) (t ∷ q) = text_eq s t && same_path p q
same_path _ _ = false

unfoldable pub is_saved : ℕ → Tokens → DirentMap → Bool
is_saved disk path [] = false
is_saved disk path (((d, p), e) ∷ dirents) =
    let rest = is_saved disk path dirents in if d == disk && same_path p path then true else rest

unfoldable pub has_disk : ℕ → List ℕ → Bool
has_disk disk [] = false
has_disk disk (d ∷ disks) = let rest = has_disk disk disks in if d == disk then true else rest

-- `insert_disk(blk)`, by the number of the device
unfoldable pub insert_disk : ℕ → Vfs → Vfs
insert_disk id v = if has_disk id (v.disk_map) then v else record v { disk_map = id ∷ v.disk_map }

-- `get_entry(path)`
abbrev pub or_not_found : Option VfsEntry → Try VfsEntry
or_not_found none = thrown not_found
or_not_found (some e) = done e

abbrev pub entry_or_not_found : VfsEntry × Found → Try VfsEntry
entry_or_not_found (root, none) = thrown not_found
entry_or_not_found (root, some (pointer, rest)) = or_not_found (entry_at pointer root)

unfoldable pub get_entry : Tokens → Vfs → Try VfsEntry
get_entry path v = then_try (walk false false path (v.mutable_root)) entry_or_not_found

-- `get<T>(path)`
unfoldable pub get : Class → Tokens → Vfs → Try Object
get class path v = then_try (get_entry path v) (λ e. object_as class (info e))

abbrev pub dirent_class : Class
dirent_class = record { id = dirent_type; is_const = false }

-- `stat(path, fn)` and `stat_sync(path)`: the directory entry that is asked, and the rest of the
-- path it is asked for.
abbrev pub asked : VfsEntry × Found → Try (Object × Tokens)
asked (root, none) = thrown not_found
asked (root, some (pointer, rest)) =
    then_try (entry_or_not_found (root, some (pointer, rest)))
      (λ e. then_try (object_as dirent_class (info e)) (λ object. done (object, rest)))

unfoldable pub stat : Tokens → Vfs → Try (Object × Tokens)
stat path v = then_try (walk false true path (v.mutable_root)) asked

-- `insert_dirent(disk_id, path, fn)`: what `fn` is given, and the state.
unfoldable pub insert_dirent : (ℕ → FileSystem) → ℕ → Tokens → Vfs → Try (Bool × Object) × Vfs
insert_dirent disks disk path v =
    if not (has_disk disk (v.disk_map))
    then (thrown not_found, v)
    else (if not ((disks disk).fs_ready)
        then (thrown not_mounted, v)
        else (let (err, dir) = (disks disk).stat path in
            if err
            then (thrown not_found, v)
            else (if is_saved disk path (v.dirent_map) then (done (err, invalid), v) else (
              done (err, saved disk path),
              record v { dirent_map = ((disk, path), dir) ∷ v.dirent_map },
            ))))

abbrev pub with_root : {A : Type 0} → A → Vfs → Mounting → Try A × Vfs
with_root a v (none, root) = (done a, record v { mutable_root = root })
with_root a v (some f, root) = (thrown f, record v { mutable_root = root })

module _ (derives_fd : TypeId → Bool) where
  -- `VFS::mount(path, obj, desc)` and its specialisation for a block device
  unfoldable pub mount_object : Bool → Tokens → Class → Object → Text → Vfs → Try Bool × Vfs
  mount_object create path class object desc v =
      with_root false v (mount derives_fd create path class object desc (v.mutable_root))

  unfoldable pub mount_device : Tokens → ℕ → Text → Vfs → Try Bool × Vfs
  mount_device path id desc v =
      mount_object true path (record { id = disk_type; is_const = false }) (disk_ptr id) desc
        (insert_disk id v)

  -- The function that `mount(local, disk, remote, desc, callback)` hands to `insert_dirent`: the
  -- error that the callback is given.
  abbrev pub mount_dirent : Tokens → Text → Try (Bool × Object) × Vfs → Try Bool × Vfs
  mount_dirent local desc (thrown f, v) = (thrown f, v)
  mount_dirent local desc (done (err, object), v) =
      with_root err v (mount derives_fd true local dirent_class object desc (v.mutable_root))

  unfoldable pub mount_remote : (ℕ → FileSystem) → Tokens → ℕ → Tokens → Text → Vfs → Try Bool × Vfs
  mount_remote disks local disk remote desc v =
      mount_dirent local desc (insert_dirent disks disk remote v)
