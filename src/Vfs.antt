-- ===== src/Vfs.antt =====
-- includeos-patch/vfs.hpp: the tree of the virtual file system, in which objects of C++ are mounted
-- and fetched by path.
mod Tests
pub mod Global
pub mod Siblings
pub mod Create
pub mod Insert
pub mod Mount
pub mod Typed
pub mod Dirents
use craft_osos.Base.{
  ℕ, ◌+◌, Bool, true, false, not, ◌&&◌, ◌||◌, ◌==◌, if◌then◌else◌, Option, none, some, List, [],
  ◌∷◌, ◌++◌, length,
}
use craft_osos.Lua.{Text}
use craft_osos.Os.{text_eq}

-- A path is the list of its names.
abbrev pub Tokens : Type 0
Tokens = List Text

-- `std::type_info`: the types that the code names, and all others by number.
pub data TypeId : Type 0 where
  null_type : TypeId
  dirent_type : TypeId
  fd_type : TypeId
  disk_type : TypeId
  other_type : ℕ → TypeId

abbrev pub type_number : TypeId → ℕ
type_number null_type = 0
type_number dirent_type = 1
type_number fd_type = 2
type_number disk_type = 3
type_number (other_type n) = 4

abbrev pub same_type : TypeId → TypeId → Bool
same_type (other_type n) (other_type m) = n == m
same_type s t = type_number s == type_number t

-- The template argument T: its type without `const`, and whether it is const.
pub record Class : Type 0 where
  id : TypeId
  is_const : Bool

-- The objects that are mounted, by reference: those of the caller by number, and those that the
-- functions of VFS keep themselves.
pub data Object : Type 0 where
  caller : ℕ → Object
  saved : ℕ → Tokens → Object
  invalid : Object
  disk_ptr : ℕ → Object

-- The fields of a VFS_entry but its children.
pub record Info : Type 0 where
  type : TypeId
  obj_is_const : Bool
  obj : Option Object
  name : Text
  desc : Text
  is_fd_compatible : Bool

mutual
  pub data VfsEntry : Type 0 where
    node : Info → Children → VfsEntry

  pub data Children : Type 0 where
    last : Children
    child : VfsEntry → Children → Children

abbrev pub info : VfsEntry → Info
info (node i cs) = i

abbrev pub children : VfsEntry → Children
children (node i cs) = cs

-- The exceptions, and the contract checks `Expects` and `assert`.
pub data Fault : Type 0 where
  bad_cast : Fault
  not_leaf : Fault
  not_found : Fault
  mountpoint_invalid : Fault
  not_mounted : Fault
  broken_contract : Fault

pub data Try (A : Type 0) : Type 0 where
  done : A → Try A
  thrown : Fault → Try A

abbrev pub then_try : {A B : Type 0} → Try A → (A → Try B) → Try B
then_try (done a) next = next a
then_try (thrown f) next = thrown f

-- `is_base_of<FD_compatible, T>`; the classes of IncludeOS are not in this repository.
module _ (derives_fd : TypeId → Bool) where
  -- VFS_entry(T& obj, name, desc)
  unfoldable pub leaf : Class → Object → Text → Text → VfsEntry
  leaf class object name desc =
      node
        (record {
          type = class.id;
          obj_is_const = class.is_const;
          obj = some object;
          name = name;
          desc = desc;
          is_fd_compatible = derives_fd (class.id);
        })
        last

abbrev pub directory_word : Text
directory_word = b'D' ∷ b'i' ∷ b'r' ∷ b'e' ∷ b'c' ∷ b't' ∷ b'o' ∷ b'r' ∷ b'y' ∷ []

-- VFS_entry(name, desc)
unfoldable pub plain_info : Text → Text → Info
plain_info name desc = record {
  type = null_type;
  obj_is_const = true;
  obj = none;
  name = name;
  desc = desc;
  is_fd_compatible = false;
}

abbrev pub directory : Text → VfsEntry
directory name = node (plain_info name directory_word) last

-- `obj<T>()`
unfoldable pub object_as : Class → Info → Try Object
object_as class i = elim (i.obj) [
  | none ↦ thrown not_leaf
  | some object ↦
      if not (same_type (class.id) (i.type))
        && not ((same_type (class.id) fd_type && not (class.is_const)) && i.is_fd_compatible)
      then thrown bad_cast
      else (if i.obj_is_const && not (class.is_const) then thrown bad_cast else done object)
]

unfoldable pub child_count : Children → ℕ
child_count last = 0
child_count (child c cs) = 1 + child_count cs

unfoldable pub get_child : Text → Children → Option VfsEntry
get_child token last = none
get_child token (child c cs) =
    let rest = get_child token cs in if text_eq ((info c).name) token then some c else rest

-- `children_.emplace_back`
unfoldable pub emplace_back : VfsEntry → Children → Children
emplace_back new last = child new last
emplace_back new (child c cs) = child c (emplace_back new cs)

-- The change of the child that `get_child` points to.
unfoldable pub put_child : Text → VfsEntry → Children → Children
put_child token new last = last
put_child token new (child c cs) =
    let rest = put_child token new cs in
    if text_eq ((info c).name) token then child new cs else child c rest

-- A pointer to an entry of the tree is the path of names that `get_child` follows to it.
abbrev pub Found : Type 0
Found = Option (Tokens × Tokens)

-- What the loop makes of the rest of the path below a child of this name.
abbrev pub below : Text → Found → Found
below token none = none
below token (some (pointer, rest)) = some (token ∷ pointer, rest)

abbrev pub put_walked : Text → Info → Children → VfsEntry × Found → VfsEntry × Found
put_walked token i cs (c, found) = (node i (put_child token c cs), below token found)

abbrev pub add_walked : Text → Info → Children → VfsEntry × Found → VfsEntry × Found
add_walked token i cs (c, found) = (node i (emplace_back c cs), below token found)

abbrev pub on_child : {A : Type 0} → Option VfsEntry → (VfsEntry → A) → A → A
on_child none found missing = missing
on_child (some c) found missing = found c

-- The loop of `walk<create>(path, partial)`: the tree behind it, the entry it returns, and what it
-- leaves of the path.
unfoldable pub walk_loop : Bool → Bool → Tokens → VfsEntry → VfsEntry × Found
walk_loop create partial [] current = (current, some ([], []))
walk_loop create partial (token ∷ path) (node i cs) =
    on_child (get_child token cs) (λ c. put_walked token i cs (walk_loop create partial path c))
      (let made = add_walked token i cs (walk_loop create partial path (directory token)) in
        if partial && same_type (i.type) dirent_type
        then (node i cs, some ([], token ∷ path))
        else (if create then made else (node i cs, none)))

unfoldable pub walk : Bool → Bool → Tokens → VfsEntry → Try (VfsEntry × Found)
walk create partial [] current = thrown broken_contract
walk create partial (token ∷ path) current = done (walk_loop create partial (token ∷ path) current)

-- The entry behind a pointer, and a change of it.
unfoldable pub entry_at : Tokens → VfsEntry → Option VfsEntry
entry_at [] e = some e
entry_at (token ∷ pointer) (node i cs) = on_child (get_child token cs) (entry_at pointer) none

unfoldable pub insert_at : Tokens → VfsEntry → VfsEntry → VfsEntry
insert_at [] new (node i cs) = node i (emplace_back new cs)
insert_at (token ∷ pointer) new (node i cs) =
    on_child (get_child token cs) (λ c. node i (put_child token (insert_at pointer new c) cs))
      (node i cs)

-- `path.back()` and `path.pop_back()`
unfoldable pub pop_last : Text → Tokens → Tokens × Text
pop_last token [] = ([], token)
pop_last token (t ∷ ts) = let (path, back) = pop_last t ts in (token ∷ path, back)

-- The exception that a call leaves with, if any, and the tree.
abbrev pub Mounting : Type 0
Mounting = Option Fault × VfsEntry

abbrev pub insert_unless : Option VfsEntry → Tokens → VfsEntry → VfsEntry → Mounting
insert_unless (some occupied) pointer root new = (some mountpoint_invalid, root)
insert_unless none pointer root new = (none, insert_at pointer new root)

abbrev pub insert_below : Option VfsEntry → Tokens → VfsEntry → Text → VfsEntry → Mounting
insert_below none pointer root token new = (some broken_contract, root)
insert_below (some parent) pointer root token new =
    insert_unless (get_child token (children parent)) pointer root new

abbrev pub mount_under : VfsEntry × Found → Text → VfsEntry → Mounting
mount_under (root, none) token new = (some mountpoint_invalid, root)
mount_under (root, some (pointer, rest)) token new =
    insert_below (entry_at pointer root) pointer root token new

-- The parent of the new entry.
abbrev pub find_parent : Bool → Tokens → VfsEntry → VfsEntry × Found
find_parent create [] root = (root, some ([], []))
find_parent create (token ∷ path) root = walk_loop create false (token ∷ path) root

module _ (derives_fd : TypeId → Bool) where
  -- `mount<create>(path, obj, desc)`
  unfoldable pub mount_split : Bool → Tokens × Text → Class → Object → Text → VfsEntry → Mounting
  mount_split create (path, token) class object desc root =
      mount_under (find_parent create path root) token (leaf derives_fd class object token desc)

  unfoldable pub mount : Bool → Tokens → Class → Object → Text → VfsEntry → Mounting
  mount create [] class object desc root = (some broken_contract, root)
  mount create (token ∷ path) class object desc root =
      mount_split create (pop_last token path) class object desc root
