-- ===== src/Vfs/Insert.antt =====
-- The entries behind pointers, and what is found by path after a new entry has been inserted.
use craft_osos.Base.{
  ◌≡◌, inl, inr, true, false, Option, none, some, [], ◌∷◌, ◌++◌, refl, sym, ap, ◌∙◌, Option-cases,
  if◌then◌else◌,
}
use craft_osos.Lua.{Text}
use craft_osos.Os.{text_eq}
use craft_osos.Os.Filter.{text_eq_refl}
use craft_osos.Vfs.{
  Tokens, Info, VfsEntry, Children, last, node, info, get_child, put_child, emplace_back, entry_at,
  insert_at,
}
use craft_osos.Vfs.Siblings.{
  none-some, some_inj, name_of, name-cases, get_child-name, get_child-put_same, get_child-put_other,
  get_child-new, alone_same,
}
use craft_osos.Vfs.Create.{
  lookup, or_else, or_else-none, lookup_child, lookup_missing, lookup_sibling, both, by_name,
  unchanged,
}

-- A tree that has an entry with these fields at one path alone.
unfoldable pub only : Info → Tokens → Tokens → Option Info
only i [] [] = some i
only i (t ∷ path) (s ∷ q) = let rest = only i path q in if text_eq t s then rest else none
only i _ _ = none

pub only_same : (i : Info) (t s : Text) (p q : Tokens) → t ≡ s → only i (t ∷ p) (s ∷ q) ≡ only i p q
unfolding only
only_same i t s p q h = let e : text_eq t s ≡ true = rw h (text_eq_refl s) in rw e

only_other :
    (i : Info) (t s : Text) (p q : Tokens) → text_eq t s ≡ false → only i (t ∷ p) (s ∷ q) ≡ none
unfolding only
only_other i t s p q h = rw h

pub entry_child :
    (t : Text) (p : Tokens) (i : Info) (cs : Children) (c : VfsEntry)
    → get_child t cs ≡ some c
    → entry_at (t ∷ p) (node i cs) ≡ entry_at p c
unfolding entry_at
entry_child t p i cs c h = rw h

pub entry_missing :
    (t : Text) (p : Tokens) (i : Info) (cs : Children)
    → get_child t cs ≡ none
    → entry_at (t ∷ p) (node i cs) ≡ none
unfolding entry_at
entry_missing t p i cs h = rw h

insert_child :
    (t : Text) (p : Tokens) (new : VfsEntry) (i : Info) (cs : Children) (c : VfsEntry)
    → get_child t cs ≡ some c
    → insert_at (t ∷ p) new (node i cs) ≡ node i (put_child t (insert_at p new c) cs)
unfolding insert_at
insert_child t p new i cs c h = rw h

-- Where a path leads to something, an entry stands.
pub entry_of_lookup :
    (p : Tokens) (e : VfsEntry) (k : Info)
    → lookup p e ≡ some k
    → (parent : VfsEntry) × (entry_at p e ≡ some parent)
unfolding entry_at
entry_of_lookup [] e k h = (e, refl)
entry_of_lookup (t ∷ p) (node i cs) k h = elim (Option-cases (get_child t cs)) [
  | inl e ↦ absurd (none-some (sym (lookup_missing t p i cs e) ∙ h))
  | inr (c, e) ↦
      (let (parent, at) = entry_of_lookup p c k (sym (lookup_child t p i cs c e) ∙ h) in
        (parent, entry_child t p i cs c e ∙ at))
]

-- A path through an entry goes on below it.
pub lookup-append :
    (p q : Tokens) (e parent : VfsEntry)
    → entry_at p e ≡ some parent
    → lookup (p ++ q) e ≡ lookup q parent
unfolding entry_at
lookup-append [] q e parent h = ap (lookup q) (some_inj h)
lookup-append (t ∷ p) q (node i cs) parent h = elim (Option-cases (get_child t cs)) [
  | inl e ↦ absurd (none-some (sym (entry_missing t p i cs e) ∙ h))
  | inr (c, e) ↦
      lookup_child t (p ++ q) i cs c e
      ∙ lookup-append p q c parent (sym (entry_child t p i cs c e) ∙ h)
]

insert_at-info : (p : Tokens) (new e : VfsEntry) → info (insert_at p new e) ≡ info e
unfolding insert_at
insert_at-info [] new (node i cs) = refl
insert_at-info (t ∷ p) new (node i cs) = elim (Option-cases (get_child t cs)) [
  | inl h ↦ (let e = h in rw e)
  | inr (c, h) ↦ ap info (insert_child t p new i cs c h)
]

pub no_child :
    (s : Text) (i : Info) (cs : Children)
    → lookup (s ∷ []) (node i cs) ≡ none
    → get_child s cs ≡ none
unfolding lookup
no_child s i cs h = elim (Option-cases (get_child s cs)) [
  | inl e ↦ e
  | inr (c, e) ↦ absurd (none-some (sym h ∙ lookup_child s [] i cs c e))
]

lookup_alone : (i : Info) (q : Tokens) → lookup q (node i last) ≡ only i [] q
unfolding lookup only get_child
lookup_alone i [] = refl
lookup_alone i (s ∷ q) = refl

-- What is found behind the insertion: all that was there, and the new entry.
pub lookup-inserted :
    (p q : Tokens) (token : Text) (i : Info) (e : VfsEntry) (k : Info)
    → i.name ≡ token
    → lookup p e ≡ some k
    → lookup (p ++ (token ∷ [])) e ≡ none
    → lookup q (insert_at p (node i last) e) ≡ or_else (lookup q e) (only i (p ++ (token ∷ [])) q)
unfolding insert_at lookup
lookup-inserted p [] token i e k named there free = ap some (insert_at-info p (node i last) e)
lookup-inserted [] (s ∷ q) token i (node j cs) k named there free = elim (name-cases token s) [
  | inl h ↦
      (let missing : get_child s cs ≡ none =
          no_child s j cs (ap (λ k. lookup (k ∷ []) (node j cs)) (sym h) ∙ free) in
        lookup_child s q j (emplace_back (node i last) cs) (node i last)
          (get_child-new s (node i last) cs missing ∙ alone_same s (node i last) (named ∙ h))
        ∙ lookup_alone i q
        ∙ sym (both (lookup_missing s q j cs missing) (only_same i token s [] q h)))
  | inr h ↦
      lookup_sibling s q j (emplace_back (node i last) cs) cs
        (unchanged s (node i last) cs (by_name (node i last) token s named h))
      ∙ sym (or_else-none (lookup (s ∷ q) (node j cs)))
      ∙ sym (both refl (only_other i token s [] q h))
]
lookup-inserted (t ∷ p) (s ∷ q) token i (node j cs) k named there free =
    elim (Option-cases (get_child t cs)) [
      | inl e ↦ absurd (none-some (sym (lookup_missing t p j cs e) ∙ there))
      | inr (c, e) ↦
          (let new = insert_at p (node i last) c in
            let kept : name_of new ≡ t =
              ap (λ k. k.name) (insert_at-info p (node i last) c) ∙ get_child-name t cs c e in
            let tree = ap (lookup (s ∷ q)) (insert_child t p (node i last) j cs c e) in
            elim (name-cases t s) [
              | inl h ↦
                  tree
                  ∙ lookup_child s q j (put_child t new cs) new (
                      ap (λ k. get_child k (put_child t new cs)) (sym h)
                      ∙ get_child-put_same t new c cs kept e)
                  ∙ lookup-inserted p q token i c k named (sym (lookup_child t p j cs c e) ∙ there)
                      (sym (lookup_child t (p ++ (token ∷ [])) j cs c e) ∙ free)
                  ∙ sym (
                      both (lookup_child s q j cs c (ap (λ k. get_child k cs) (sym h) ∙ e))
                        (only_same i t s (p ++ (token ∷ [])) q h))
              | inr h ↦
                  tree
                  ∙ lookup_sibling s q j (put_child t new cs) cs
                      (get_child-put_other s t new cs kept h)
                  ∙ sym (or_else-none (lookup (s ∷ q) (node j cs)))
                  ∙ sym (both refl (only_other i t s (p ++ (token ∷ [])) q h))
            ])
    ]
