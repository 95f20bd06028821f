-- ===== src/Vfs/Tests.antt =====
-- Tests and examples of the virtual file system.
use craft_osos.Base.{ℕ, ◌≡◌, inl, Bool, true, false, none, some, [], ◌∷◌, ◌++◌, refl, ◌==◌}
use craft_osos.Lua.{Text}
use craft_osos.Volume.{root_dirent}
use craft_osos.Vfs.{
  Tokens, TypeId, fd_type, dirent_type, other_type, Class, Object, caller, Info, VfsEntry, last,
  node, info, children, plain_info, leaf, Fault, mountpoint_invalid, bad_cast, not_found, thrown,
  walk, walk_loop, mount, child_count, type_number,
}
use craft_osos.Vfs.Global.{FileSystem, Vfs, get, stat, mount_object, mount_device}
use craft_osos.Vfs.Create.{lookup}
use craft_osos.Vfs.Mount.{mounted, mount-mounted, mount_refused}
use craft_osos.Vfs.Typed.{get-mount_object}

abbrev slash_text : Text
slash_text = b'/' ∷ []

abbrev dev : Text
dev = b'd' ∷ b'e' ∷ b'v' ∷ []

abbrev hda : Text
hda = b'h' ∷ b'd' ∷ b'a' ∷ []

abbrev usb : Text
usb = b'u' ∷ b's' ∷ b'b' ∷ []

abbrev word : Text
word = b'x' ∷ []

abbrev empty_root : VfsEntry
empty_root = node (plain_info slash_text word) last

-- One class of file descriptors.
abbrev derives : TypeId → Bool
derives t = type_number t == 4

abbrev stream : Class
stream = record { id = other_type 7; is_const = false }

abbrev const_stream : Class
const_stream = record { id = other_type 7; is_const = true }

abbrev descriptor : Class
descriptor = record { id = fd_type; is_const = false }

abbrev state : Vfs
state = record {
  mutable_root = empty_root;
  disk_map = 0 ∷ [];
  dirent_map = ((0, usb ∷ []), root_dirent) ∷ [];
}

abbrev disks : ℕ → FileSystem
disks n = record { fs_ready = true; stat = λ path. (false, root_dirent) }

missing_entry : get stream (dev ∷ []) state ≡ thrown not_found
unfolding get craft_osos.Vfs.Global.get_entry walk walk_loop craft_osos.Vfs.get_child
missing_entry = refl

mount-mounted_example :
    (after : VfsEntry) × (mount derives true
        ((dev ∷ []) ++ (hda ∷ []))
        stream
        (caller 1)
        word
        empty_root
      ≡ (none, after))
    × ((q : Tokens)
        → lookup q after
          ≡ mounted
              (dev ∷ [])
              hda
              (info (leaf derives stream (caller 1) hda word))
              (λ p. lookup p empty_root)
              q)
unfolding lookup craft_osos.Vfs.get_child
mount-mounted_example = mount-mounted derives stream (caller 1) word (dev ∷ []) hda empty_root refl

mount_refused_example :
    mount derives true ([] ++ (dev ∷ [])) stream (caller 1) word (
      node
        (plain_info slash_text word)
        (craft_osos.Vfs.child (leaf derives stream (caller 2) dev word) last))
    ≡ (
      some mountpoint_invalid,
      node
          (plain_info slash_text word)
          (craft_osos.Vfs.child (leaf derives stream (caller 2) dev word) last),
    )
unfolding lookup craft_osos.Vfs.get_child craft_osos.Os.text_eq leaf
mount_refused_example =
    mount_refused derives stream (caller 1) word true [] dev
      (node (plain_info slash_text word)
        (craft_osos.Vfs.child (leaf derives stream (caller 2) dev word) last))
      (inl (info (leaf derives stream (caller 2) dev word), refl))

get-mount_object_example :
    get descriptor
      ((dev ∷ []) ++ (hda ∷ []))
      ((mount_object derives true ((dev ∷ []) ++ (hda ∷ [])) const_stream (caller 1) word state).1)
    ≡ thrown bad_cast
unfolding lookup craft_osos.Vfs.get_child
get-mount_object_example =
    get-mount_object derives const_stream (caller 1) word descriptor (dev ∷ []) hda state refl
