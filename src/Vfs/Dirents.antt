-- ===== src/Vfs/Dirents.antt =====
-- Directory entries in the virtual file system: paths that go on below them, and their mounting from
-- a disk.
use craft_osos.Base.{
  ◌≡◌, inl, inr, Bool, true, false, none, some, [], ◌∷◌, ◌++◌, refl, sym, ap, ◌∙◌, Option-cases,
}
use craft_osos.Lua.{Text}
use craft_osos.Vfs.{
  Tokens, TypeId, dirent_type, Object, Info, VfsEntry, node, info, children, get_child, entry_at,
  walk_loop, put_walked, walk, done, then_try, leaf, object_as, same_type, directory_word,
  plain_info,
}
use craft_osos.Vfs.Global.{Vfs, stat, asked, dirent_class, mount_object, or_not_found}
use craft_osos.Vfs.Siblings.{none-some, some_inj, put_child_self}
use craft_osos.Vfs.Create.{lookup, chain, both, walk_found, chain_same}
use craft_osos.Vfs.Insert.{
  only, only_same, entry_of_lookup, lookup-append, entry_child, entry_missing,
}
use craft_osos.Vfs.Mount.{free_name, parent_of_lookup, mounted}
use craft_osos.Vfs.Typed.{after_mount, mounted_self, info_of_entry}

-- A partial walk passes an entry and goes on as it would from there.
walk_through :
    (p rest : Tokens) (e at : VfsEntry)
    → entry_at p e ≡ some at
    → walk_loop false true rest at ≡ (at, some ([], rest))
    → walk_loop false true (p ++ rest) e ≡ (e, some (p, rest))
unfolding entry_at
walk_through [] rest e at h stops =
    let same : e ≡ at = some_inj h in
    ap (walk_loop false true rest) same ∙ stops ∙ ap (λ k. (k, some ([], rest))) (sym same)
walk_through (t ∷ p) rest (node i cs) at h stops = elim (Option-cases (get_child t cs)) [
  | inl e ↦ absurd (none-some (sym (entry_missing t p i cs e) ∙ h))
  | inr (c, e) ↦
      walk_found false true t (p ++ rest) i cs c e
      ∙ ap (put_walked t i cs) (walk_through p rest c at (sym (entry_child t p i cs c e) ∙ h) stops)
      ∙ ap (λ ds. (node i ds, some (t ∷ p, rest))) (put_child_self t c cs e)
]

-- It stops at a directory entry that has nothing of the next name.
walk_stops :
    (rest : Tokens) (e : VfsEntry)
    → (info e).type ≡ dirent_type
    → ((s : Text) → get_child s (children e) ≡ none)
    → walk_loop false true rest e ≡ (e, some ([], rest))
unfolding walk_loop
walk_stops [] e dirent bare = refl
walk_stops (s ∷ rest) (node i cs) dirent bare =
    let missing : get_child s cs ≡ none = bare s in
    let same : same_type (i.type) dirent_type ≡ true = ap (λ t. same_type t dirent_type) dirent in
    rw (missing, same)

only_behind : (i : Info) (p : Tokens) (s : Text) → only i p (p ++ (s ∷ [])) ≡ none
unfolding only
only_behind i [] s = refl
only_behind i (t ∷ p) s = only_same i t t p (p ++ (s ∷ [])) refl ∙ only_behind i p s

chain_behind_two :
    (i : Info) (p : Tokens) (token s : Text) → chain i p ((p ++ (token ∷ [])) ++ (s ∷ [])) ≡ none
unfolding chain
chain_behind_two i [] token s = refl
chain_behind_two i (t ∷ p) token s =
    chain_same i t t p ((p ++ (token ∷ [])) ++ (s ∷ [])) refl
    ∙ chain_behind_two (plain_info t directory_word) p token s

nothing_below : (p q : Tokens) (e : VfsEntry) → lookup p e ≡ none → lookup (p ++ q) e ≡ none
nothing_below p q e free = elim (Option-cases (lookup (p ++ q) e)) [
  | inl h ↦ h
  | inr (k, h) ↦
      (let (j, there) = parent_of_lookup p q e k h in absurd (none-some (sym free ∙ there)))
]

-- A mount leaves nothing below its own path.
mounted_below :
    (path : Tokens) (token s : Text) (i : Info) (root : VfsEntry)
    → lookup (path ++ (token ∷ [])) root ≡ none
    → mounted path token i (λ p. lookup p root) ((path ++ (token ∷ [])) ++ (s ∷ [])) ≡ none
mounted_below path token s i root free =
    both
      (both (nothing_below (path ++ (token ∷ [])) (s ∷ []) root free)
        (chain_behind_two (plain_info [] directory_word) path token s))
      (only_behind i (path ++ (token ∷ [])) s)

walk_long :
    (path : Tokens) (token : Text) (rest : Tokens) (root : VfsEntry)
    → walk false true ((path ++ (token ∷ [])) ++ rest) root
      ≡ done (walk_loop false true ((path ++ (token ∷ [])) ++ rest) root)
unfolding walk
walk_long [] token rest root = refl
walk_long (t ∷ path) token rest root = refl

-- What `stat` makes of the entry that the walk has found.
asks :
    (p rest : Tokens) (root e : VfsEntry) (object : Object)
    → entry_at p root ≡ some e
    → object_as dirent_class (info e) ≡ done object
    → asked (root, some (p, rest)) ≡ done (object, rest)
asks p rest root e object at is_dirent =
    ap
      (λ o.
        then_try (or_not_found o)
          (λ e. then_try (object_as dirent_class (info e)) (λ object. done (object, rest))))
      at
    ∙ ap (λ t. then_try t (λ object. done (object, rest))) is_dirent

module _ (derives_fd : TypeId → Bool) (object : Object) (desc : Text) where
  dirent_object :
      (token : Text)
      → object_as dirent_class (info (leaf derives_fd dirent_class object token desc)) ≡ done object
  unfolding object_as leaf
  dirent_object token = refl

  -- When a directory entry has been mounted on a free path, `stat` of a path that goes on below it asks
  -- this entry for the rest of the path, whatever the rest is.
  pub stat-mount_object :
      (path rest : Tokens) (token : Text) (v : Vfs)
      → lookup (path ++ (token ∷ [])) (v.mutable_root) ≡ none
      → stat
          ((path ++ (token ∷ [])) ++ rest)
          ((mount_object derives_fd true (path ++ (token ∷ [])) dirent_class object desc v).1)
        ≡ done (object, rest)
  unfolding stat leaf
  stat-mount_object path rest token v free =
      let p = path ++ (token ∷ []) in
      let i = info (leaf derives_fd dirent_class object token desc) in
      let (root, did, found) = after_mount derives_fd dirent_class object desc path token v free in
      let there : lookup p root ≡ some i =
        found p ∙ mounted_self path token i (λ p. lookup p (v.mutable_root)) free in
      let (e, at) = entry_of_lookup p root i there in
      let same : info e ≡ i = some_inj (sym (info_of_entry p root e at) ∙ there) in
      let stops = walk_stops rest e (ap (λ k. k.type) same) (λ s. free_name s e (
        sym (lookup-append p (s ∷ []) root e at)
        ∙ found (p ++ (s ∷ []))
        ∙ mounted_below path token s i (v.mutable_root) free)) in
      ap (λ r. stat (p ++ rest) (r.1)) did
      ∙ ap (λ w. then_try w asked) (walk_long path token rest root)
      ∙ ap asked (walk_through p rest root e at stops)
      ∙ asks p rest root e object at (ap (object_as dirent_class) same ∙ dirent_object token)
