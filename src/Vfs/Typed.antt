-- ===== src/Vfs/Typed.antt =====
-- Fetching mounted objects by path and type.
use craft_osos.Base.{
  ◌≡◌, Bool, true, false, not, ◌&&◌, ◌||◌, Option, none, some, [], ◌∷◌, ◌++◌, refl, sym, ap, ◌∙◌,
  arith, append-nil, if◌then◌else◌,
}
use craft_osos.Lua.{Text}
use craft_osos.Vfs.{
  Tokens, TypeId, fd_type, Class, Object, Info, VfsEntry, info, entry_at, walk_loop, walk, bad_cast,
  done, thrown, then_try, leaf, object_as, same_type, directory_word, plain_info,
}
use craft_osos.Vfs.Global.{
  Vfs, get, get_entry, entry_or_not_found, or_not_found, mount_object, with_root,
}
use craft_osos.Vfs.Siblings.{some_inj}
use craft_osos.Vfs.Create.{lookup, both, lookup_self}
use craft_osos.Vfs.Insert.{only, only_same, entry_of_lookup, lookup-append}
use craft_osos.Vfs.Mount.{walk_existing, chain_behind, mounted, mount-mounted}

-- An object of one class may be fetched as another if that is its own class, or the class of file
-- descriptors that it derives from, and no `const` is lost.
abbrev pub fits : (TypeId → Bool) → Class → Class → Bool
fits derives_fd class as_class =
    (same_type (as_class.id) (class.id)
      || (same_type (as_class.id) fd_type && not (as_class.is_const) && derives_fd (class.id)))
    && (not (class.is_const) || as_class.is_const)

object-fits :
    (derives_fd : TypeId → Bool) (class as_class : Class) (object : Object) (name desc : Text)
    → object_as as_class (info (leaf derives_fd class object name desc))
      ≡ (if fits derives_fd class as_class then done object else thrown bad_cast)
unfolding object_as leaf
object-fits derives_fd class as_class object name desc = ground arith

-- An entry's info is what is found at the end of its path.
pub info_of_entry :
    (p : Tokens) (e found : VfsEntry) → entry_at p e ≡ some found → lookup p e ≡ some (info found)
info_of_entry p e found h =
    ap (λ q. lookup q e) (sym (append-nil p)) ∙ lookup-append p [] e found h ∙ lookup_self found

entry-lookup :
    (p : Tokens) (root : VfsEntry) (k : Info)
    → lookup p root ≡ some k
    → (e : VfsEntry) × (entry_or_not_found (root, some (p, [])) ≡ done e) × (info e ≡ k)
entry-lookup p root k h =
    let (e, at) = entry_of_lookup p root k h in
    (e, ap or_not_found at, some_inj (sym (info_of_entry p root e at) ∙ h))

pub walk_nonempty :
    (create partial : Bool) (path : Tokens) (token : Text) (root : VfsEntry)
    → walk create partial (path ++ (token ∷ [])) root
      ≡ done (walk_loop create partial (path ++ (token ∷ [])) root)
unfolding walk
walk_nonempty create partial [] token root = refl
walk_nonempty create partial (t ∷ path) token root = refl

-- `get` gives what is at the end of the path, as an object of the class.
pub get-lookup :
    (as_class : Class) (path : Tokens) (token : Text) (v : Vfs) (k : Info)
    → lookup (path ++ (token ∷ [])) (v.mutable_root) ≡ some k
    → get as_class (path ++ (token ∷ [])) v ≡ object_as as_class k
unfolding get get_entry
get-lookup as_class path token v k h =
    let root = v.mutable_root in
    let (e, found, same) = entry-lookup (path ++ (token ∷ [])) root k h in
    ap (λ w. then_try (then_try w entry_or_not_found) (λ e. object_as as_class (info e)))
      (walk_nonempty false false path token root)
    ∙ ap (λ w. then_try (entry_or_not_found w) (λ e. object_as as_class (info e)))
        (walk_existing false (path ++ (token ∷ [])) root k h)
    ∙ ap (λ r. then_try r (λ e. object_as as_class (info e))) found
    ∙ ap (object_as as_class) same

only_self : (i : Info) (p : Tokens) → only i p p ≡ some i
unfolding only
only_self i [] = refl
only_self i (t ∷ p) = only_same i t t p p refl ∙ only_self i p

-- What a mount leaves at its own path.
pub mounted_self :
    (path : Tokens) (token : Text) (i : Info) (before : Tokens → Option Info)
    → before (path ++ (token ∷ [])) ≡ none
    → mounted path token i before (path ++ (token ∷ [])) ≡ some i
mounted_self path token i before free =
    both (both free (chain_behind (plain_info [] directory_word) path token))
      (only_self i (path ++ (token ∷ [])))

module _ (derives_fd : TypeId → Bool) (class : Class) (object : Object) (desc : Text) where
  -- The state behind a mount that is not refused.
  pub after_mount :
      (path : Tokens) (token : Text) (v : Vfs)
      → lookup (path ++ (token ∷ [])) (v.mutable_root) ≡ none
      → (root : VfsEntry) × (mount_object derives_fd true (path ++ (token ∷ [])) class object desc v
          ≡ (done false, record v { mutable_root = root }))
        × ((q : Tokens)
            → lookup q root
              ≡ mounted path token
                  (info (leaf derives_fd class object token desc))
                  (λ p. lookup p (v.mutable_root))
                  q)
  unfolding mount_object
  after_mount path token v free =
      let (root, did, found) =
        mount-mounted derives_fd class object desc path token (v.mutable_root) free in
      (root, ap (with_root false v) did, found)

  -- An object that was mounted on a free path is fetched from it, as itself, if the class asked for is
  -- its own, or `FD_compatible` without `const` for an object that derives from it, and a const object
  -- is asked for as const. For any other class `get` throws `Err_bad_cast`.
  pub get-mount_object :
      (as_class : Class) (path : Tokens) (token : Text) (v : Vfs)
      → lookup (path ++ (token ∷ [])) (v.mutable_root) ≡ none
      → get as_class
          (path ++ (token ∷ []))
          ((mount_object derives_fd true (path ++ (token ∷ [])) class object desc v).1)
        ≡ (if fits derives_fd class as_class then done object else thrown bad_cast)
  get-mount_object as_class path token v free =
      let (root, did, found) = after_mount path token v free in
      let i = info (leaf derives_fd class object token desc) in
      ap (λ r. get as_class (path ++ (token ∷ [])) (r.1)) did
      ∙ get-lookup as_class path token (record v { mutable_root = root }) i
          (found (path ++ (token ∷ []))
            ∙ mounted_self path token i (λ p. lookup p (v.mutable_root)) free)
      ∙ object-fits derives_fd class as_class object token desc
