-- ===== src/Vfs/Mount.antt =====
-- Mounting objects: what is found by path behind it, and when it is refused.
use craft_osos.Base.{
  ◌≡◌, ◌⊎◌, inl, inr, Bool, true, false, Option, none, some, [], ◌∷◌, ◌++◌, refl, sym, ap, ◌∙◌,
  Option-cases,
}
use craft_osos.Lua.{Text}
use craft_osos.Vfs.{
  Tokens, TypeId, Class, Object, Info, VfsEntry, node, info, children, get_child, entry_at,
  insert_at, walk_loop, put_walked, below, directory, directory_word, plain_info,
  mountpoint_invalid, leaf, pop_last, insert_unless, insert_below, mount_under, find_parent,
  mount_split, mount,
}
use craft_osos.Vfs.Siblings.{none-some, put_child_self}
use craft_osos.Vfs.Create.{
  lookup, or_else, chain, chain_same, lookup_child, lookup_missing, lookup_self, both, walk_found,
  walk_made, lookup-walked,
}
use craft_osos.Vfs.Insert.{only, entry_of_lookup, lookup-append, lookup-inserted, no_child}

-- A walk to an entry that is there changes nothing and gives the pointer to it.
pub walk_existing :
    (create : Bool) (p : Tokens) (e : VfsEntry) (k : Info)
    → lookup p e ≡ some k
    → walk_loop create false p e ≡ (e, some (p, []))
unfolding walk_loop
walk_existing create [] e k h = refl
walk_existing create (t ∷ p) (node i cs) k h = elim (Option-cases (get_child t cs)) [
  | inl e ↦ absurd (none-some (sym (lookup_missing t p i cs e) ∙ h))
  | inr (c, e) ↦
      walk_found create false t p i cs c e
      ∙ ap (put_walked t i cs) (walk_existing create p c k (sym (lookup_child t p i cs c e) ∙ h))
      ∙ ap (λ ds. (node i ds, some (t ∷ p, []))) (put_child_self t c cs e)
]

-- `walk<true>` always finds its path.
walk-pointer : (p : Tokens) (e : VfsEntry) → (walk_loop true false p e).1 ≡ some (p, [])
unfolding walk_loop
walk-pointer [] e = refl
walk-pointer (t ∷ p) (node i cs) = elim (Option-cases (get_child t cs)) [
  | inl h ↦ ap (λ w. w.1) (walk_made t p i cs h) ∙ ap (below t) (walk-pointer p (directory t))
  | inr (c, h) ↦
      ap (λ w. w.1) (walk_found true false t p i cs c h) ∙ ap (below t) (walk-pointer p c)
]

-- `walk` without `create` leaves the tree alone, and finds nothing where nothing is.
walk_missing :
    (p : Tokens) (e : VfsEntry) → lookup p e ≡ none → walk_loop false false p e ≡ (e, none)
unfolding walk_loop
walk_missing [] e h = absurd (none-some (sym h ∙ lookup_self e))
walk_missing (t ∷ p) (node i cs) h = elim (Option-cases (get_child t cs)) [
  | inl e ↦ rw e
  | inr (c, e) ↦
      walk_found false false t p i cs c e
      ∙ ap (put_walked t i cs) (walk_missing p c (sym (lookup_child t p i cs c e) ∙ h))
      ∙ ap (λ ds. (node i ds, none)) (put_child_self t c cs e)
]

find_parent-loop :
    (create : Bool) (p : Tokens) (e : VfsEntry)
    → find_parent create p e ≡ walk_loop create false p e
unfolding walk_loop
find_parent-loop create [] e = refl
find_parent-loop create (t ∷ p) e = refl

pop_last-append :
    (t : Text) (p : Tokens) (token : Text) → pop_last t (p ++ (token ∷ [])) ≡ (t ∷ p, token)
unfolding pop_last
pop_last-append t [] token = refl
pop_last-append t (s ∷ p) token =
    ap (λ r. (t ∷ r.0, r.1)) {y = (s ∷ p, token)} (pop_last-append s p token)

chain_on : (i : Info) (p : Tokens) → (k : Info) × (chain i p p ≡ some k)
unfolding chain
chain_on i [] = (i, refl)
chain_on i (t ∷ p) =
    let (k, e) = chain_on (plain_info t directory_word) p in (k, chain_same i t t p p refl ∙ e)

pub chain_behind : (i : Info) (p : Tokens) (token : Text) → chain i p (p ++ (token ∷ [])) ≡ none
unfolding chain
chain_behind i [] token = refl
chain_behind i (t ∷ p) token =
    chain_same i t t p (p ++ (token ∷ [])) refl ∙ chain_behind (plain_info t directory_word) p token

-- The parent that `walk<true>` made, with nothing of the new name in it.
parent_there :
    (p : Tokens) (e : VfsEntry) (j : Info)
    → (k : Info) × (lookup p ((walk_loop true false p e).0) ≡ some k)
parent_there p e j = elim (Option-cases (lookup p e)) [
  | inl h ↦ (let (k, made) = chain_on j p in (k, lookup-walked p p e j ∙ both h made))
  | inr (k, h) ↦ (k, lookup-walked p p e j ∙ ap (λ o. or_else o (chain j p p)) h)
]

pub free_name :
    (token : Text) (parent : VfsEntry)
    → lookup (token ∷ []) parent ≡ none
    → get_child token (children parent) ≡ none
free_name token (node i cs) h = no_child token i cs h

taken_name :
    (token : Text) (parent : VfsEntry) (k : Info)
    → lookup (token ∷ []) parent ≡ some k
    → (c : VfsEntry) × (get_child token (children parent) ≡ some c)
taken_name token (node i cs) k h = elim (Option-cases (get_child token cs)) [
  | inl e ↦ absurd (none-some (sym (lookup_missing token [] i cs e) ∙ h))
  | inr found ↦ found
]

-- What leads to an entry leads through its parents.
pub parent_of_lookup :
    (p q : Tokens) (e : VfsEntry) (k : Info)
    → lookup (p ++ q) e ≡ some k
    → (j : Info) × (lookup p e ≡ some j)
parent_of_lookup [] q e k h = (info e, lookup_self e)
parent_of_lookup (t ∷ p) q (node i cs) k h = elim (Option-cases (get_child t cs)) [
  | inl e ↦ absurd (none-some (sym (lookup_missing t (p ++ q) i cs e) ∙ h))
  | inr (c, e) ↦
      (let (j, there) = parent_of_lookup p q c k (sym (lookup_child t (p ++ q) i cs c e) ∙ h) in
        (j, lookup_child t p i cs c e ∙ there))
]

-- The map from paths to entries behind a mount: what was there, the directories on the way, and
-- the object.
abbrev pub mounted : Tokens → Text → Info → (Tokens → Option Info) → Tokens → Option Info
mounted path token i before q =
    or_else (or_else (before q) (chain (plain_info [] directory_word) path q))
      (only i (path ++ (token ∷ [])) q)

module _ (derives_fd : TypeId → Bool) (class : Class) (object : Object) (desc : Text) where
  mount-split :
      (create : Bool) (path : Tokens) (token : Text) (root : VfsEntry)
      → mount derives_fd create (path ++ (token ∷ [])) class object desc root
        ≡ mount_under
            (walk_loop create false path root)
            token
            (leaf derives_fd class object token desc)
  unfolding mount mount_split pop_last
  mount-split create [] token root =
      ap (λ w. mount_under w token (leaf derives_fd class object token desc))
        (find_parent-loop create [] root)
  mount-split create (t ∷ path) token root =
      ap (λ r. mount_split derives_fd create r class object desc root)
        (pop_last-append t path token)
      ∙ ap (λ w. mount_under w token (leaf derives_fd class object token desc))
          (find_parent-loop create (t ∷ path) root)

  at_parent :
      (path : Tokens) (token : Text) (root parent new : VfsEntry)
      → entry_at path root ≡ some parent
      → mount_under (root, some (path, [])) token new
        ≡ insert_unless (get_child token (children parent)) path root new
  at_parent path token root parent new h = ap (λ p. insert_below p path root token new) h

  -- What `mount` does at a parent that is there.
  at_free :
      (path : Tokens) (token : Text) (root new : VfsEntry) (k : Info)
      → lookup path root ≡ some k
      → lookup (path ++ (token ∷ [])) root ≡ none
      → mount_under (root, some (path, [])) token new ≡ (none, insert_at path new root)
  at_free path token root new k there free =
      let (parent, at) = entry_of_lookup path root k there in
      let below : lookup (token ∷ []) parent ≡ none =
        sym (lookup-append path (token ∷ []) root parent at) ∙ free in
      at_parent path token root parent new at
      ∙ ap (λ c. insert_unless c path root new) (free_name token parent below)

  at_occupied :
      (path : Tokens) (token : Text) (root new : VfsEntry) (k taken : Info)
      → lookup path root ≡ some k
      → lookup (path ++ (token ∷ [])) root ≡ some taken
      → mount_under (root, some (path, [])) token new ≡ (some mountpoint_invalid, root)
  at_occupied path token root new k taken there occupied =
      let (parent, at) = entry_of_lookup path root k there in
      let below : lookup (token ∷ []) parent ≡ some taken =
        sym (lookup-append path (token ∷ []) root parent at) ∙ occupied in
      let (c, e) = taken_name token parent taken below in
      at_parent path token root parent new at ∙ ap (λ c. insert_unless c path root new) e

  -- An object mounts on any path that is free: the tree then has the object there, directories on the
  -- way where nothing was, and whatever else it had before, each entry with its own fields.
  pub mount-mounted :
      (path : Tokens) (token : Text) (root : VfsEntry)
      → lookup (path ++ (token ∷ [])) root ≡ none
      → (after : VfsEntry) × (mount derives_fd true (path ++ (token ∷ [])) class object desc root
          ≡ (none, after))
        × ((q : Tokens)
            → lookup q after
              ≡ mounted path token
                  (info (leaf derives_fd class object token desc))
                  (λ p. lookup p root)
                  q)
  unfolding leaf
  mount-mounted path token root free =
      let j = plain_info [] directory_word in
      let tree = (walk_loop true false path root).0 in
      let new = leaf derives_fd class object token desc in
      let (k, there) = parent_there path root j in
      let still : lookup (path ++ (token ∷ [])) tree ≡ none =
        lookup-walked path (path ++ (token ∷ [])) root j ∙ both free (chain_behind j path token) in
      (
        insert_at path new tree,
        mount-split true path token root
            ∙ ap (λ f. mount_under (tree, f) token new) (walk-pointer path root)
            ∙ at_free path token tree new k there still,
        λ q.
            lookup-inserted path q token (info new) tree k refl there still
            ∙ ap (λ o. or_else o (only (info new) (path ++ (token ∷ [])) q))
                (lookup-walked path q root j),
      )

  -- Where an entry stands already, and where the parent is missing and `create` is not set, `mount`
  -- throws `Err_mountpoint_invalid` and leaves the tree as it is.
  pub mount_refused :
      (create : Bool) (path : Tokens) (token : Text) (root : VfsEntry)
      → ((k : Info) × (lookup (path ++ (token ∷ [])) root ≡ some k))
        ⊎ ((create ≡ false) × (lookup path root ≡ none))
      → mount derives_fd create (path ++ (token ∷ [])) class object desc root
        ≡ (some mountpoint_invalid, root)
  mount_refused create path token root (inl (taken, occupied)) =
      let new = leaf derives_fd class object token desc in
      let (k, there) = parent_of_lookup path (token ∷ []) root taken occupied in
      mount-split create path token root
      ∙ ap (λ w. mount_under w token new) (walk_existing create path root k there)
      ∙ at_occupied path token root new k taken there occupied
  mount_refused create path token root (inr (plain, missing)) =
      let new = leaf derives_fd class object token desc in
      mount-split create path token root
      ∙ ap (λ b. mount_under (walk_loop b false path root) token new) plain
      ∙ ap (λ w. mount_under w token new) (walk_missing path root missing)
