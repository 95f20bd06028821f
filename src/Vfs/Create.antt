-- ===== src/Vfs/Create.antt =====
-- What is found by path in a tree, and how it changes when `walk<true>` makes the directories of a
-- path.
use craft_osos.Base.{
  ◌≡◌, inl, inr, Bool, true, false, Option, none, some, [], ◌∷◌, refl, sym, ap, ◌∙◌, Option-cases,
  if◌then◌else◌,
}
use craft_osos.Lua.{Text}
use craft_osos.Os.{text_eq}
use craft_osos.Os.Filter.{text_eq_refl}
use craft_osos.Vfs.{
  Tokens, Info, VfsEntry, Children, node, info, get_child, put_child, emplace_back, on_child,
  walk_loop, put_walked, add_walked, directory, plain_info, directory_word,
}
use craft_osos.Vfs.Siblings.{
  name_of, name-cases, get_child-name, get_child-put_same, get_child-put_other, get_child-old,
  get_child-new, alone_same, alone_other,
}

-- The fields of the entry that a path leads to.
unfoldable pub lookup : Tokens → VfsEntry → Option Info
lookup [] e = some (info e)
lookup (t ∷ path) (node i cs) = on_child (get_child t cs) (lookup path) none

-- The first of two answers.
abbrev pub or_else : {A : Type 0} → Option A → Option A → Option A
or_else none b = b
or_else (some a) b = some a

-- A tree that has nothing but the directories of one path, below an entry with these fields.
unfoldable pub chain : Info → Tokens → Tokens → Option Info
chain i path [] = some i
chain i [] (s ∷ q) = none
chain i (t ∷ path) (s ∷ q) =
    let rest = chain (plain_info t directory_word) path q in if text_eq t s then rest else none

pub lookup_child :
    (t : Text) (q : Tokens) (i : Info) (cs : Children) (c : VfsEntry)
    → get_child t cs ≡ some c
    → lookup (t ∷ q) (node i cs) ≡ lookup q c
unfolding lookup
lookup_child t q i cs c h = rw h

pub lookup_missing :
    (t : Text) (q : Tokens) (i : Info) (cs : Children)
    → get_child t cs ≡ none
    → lookup (t ∷ q) (node i cs) ≡ none
unfolding lookup
lookup_missing t q i cs h = rw h

pub lookup_sibling :
    (s : Text) (q : Tokens) (i : Info) (cs ds : Children)
    → get_child s cs ≡ get_child s ds
    → lookup (s ∷ q) (node i cs) ≡ lookup (s ∷ q) (node i ds)
unfolding lookup
lookup_sibling s q i cs ds h = rw h

pub lookup_self : (e : VfsEntry) → lookup [] e ≡ some (info e)
unfolding lookup
lookup_self e = refl

pub walk_found :
    (create partial : Bool) (t : Text) (p : Tokens) (i : Info) (cs : Children) (c : VfsEntry)
    → get_child t cs ≡ some c
    → walk_loop create partial (t ∷ p) (node i cs)
      ≡ put_walked t i cs (walk_loop create partial p c)
unfolding walk_loop
walk_found create partial t p i cs c h = rw h

pub walk_made :
    (t : Text) (p : Tokens) (i : Info) (cs : Children)
    → get_child t cs ≡ none
    → walk_loop true false (t ∷ p) (node i cs)
      ≡ add_walked t i cs (walk_loop true false p (directory t))
unfolding walk_loop
walk_made t p i cs h = rw h

abbrev pub walked : Tokens → VfsEntry → VfsEntry
walked p e = (walk_loop true false p e).0

-- The entry at the start keeps its fields.
walk_loop-info : (p : Tokens) (e : VfsEntry) → info ((walk_loop true false p e).0) ≡ info e
unfolding walk_loop
walk_loop-info [] e = refl
walk_loop-info (t ∷ p) (node i cs) = elim (Option-cases (get_child t cs)) [
  | inl h ↦ ap (λ w. info (w.0)) (walk_made t p i cs h)
  | inr (c, h) ↦ ap (λ w. info (w.0)) (walk_found true false t p i cs c h)
]

pub or_else-none : {A : Type 0} (o : Option A) → or_else o none ≡ o
or_else-none none = refl
or_else-none (some a) = refl

pub chain_same :
    (i : Info) (t s : Text) (p q : Tokens)
    → t ≡ s
    → chain i (t ∷ p) (s ∷ q) ≡ chain (plain_info t directory_word) p q
unfolding chain
chain_same i t s p q h = let e : text_eq t s ≡ true = rw h (text_eq_refl s) in rw e

pub chain_other :
    (i : Info) (t s : Text) (p q : Tokens) → text_eq t s ≡ false → chain i (t ∷ p) (s ∷ q) ≡ none
unfolding chain
chain_other i t s p q h = rw h

chain_directory :
    (t : Text) (p q : Tokens) (j : Info)
    → or_else (lookup q (directory t)) (chain j p q) ≡ chain (plain_info t directory_word) p q
unfolding lookup chain get_child
chain_directory t p [] j = refl
chain_directory t [] (s ∷ q) j = refl
chain_directory t (u ∷ p) (s ∷ q) j = refl

pub both : {A : Type 0} {a b c d : Option A} → a ≡ b → c ≡ d → or_else a c ≡ or_else b d
both {b = b} {c = c} h k = ap (λ o. or_else o c) h ∙ ap (or_else b) k

pub by_name :
    (e : VfsEntry) (t s : Text)
    → name_of e ≡ t
    → text_eq t s ≡ false
    → text_eq (name_of e) s ≡ false
by_name e t s h other = ap (λ k. text_eq k s) h ∙ other

-- A new child is not found under the name of another.
pub unchanged :
    (s : Text) (new : VfsEntry) (cs : Children)
    → text_eq (name_of new) s ≡ false
    → get_child s (emplace_back new cs) ≡ get_child s cs
unchanged s new cs h = elim (Option-cases (get_child s cs)) [
  | inl e ↦ get_child-new s new cs e ∙ alone_other s new h ∙ sym e
  | inr (c, e) ↦ get_child-old s new c cs e ∙ sym e
]

-- What is found behind the walk: all that was there, and the directories of the path.
pub lookup-walked :
    (p q : Tokens) (e : VfsEntry) (j : Info)
    → lookup q ((walk_loop true false p e).0) ≡ or_else (lookup q e) (chain j p q)
unfolding walk_loop chain lookup plain_info
lookup-walked p [] e j = ap some (walk_loop-info p e)
lookup-walked [] (s ∷ q) e j = sym (or_else-none (lookup (s ∷ q) e))
lookup-walked (t ∷ p) (s ∷ q) (node i cs) j = elim (Option-cases (get_child t cs)) [
  | inr (c, h) ↦
      (let new = (walk_loop true false p c).0 in
        let named : name_of new ≡ t =
          ap (λ k. k.name) (walk_loop-info p c) ∙ get_child-name t cs c h in
        let tree = ap (λ w. lookup (s ∷ q) (w.0)) (walk_found true false t p i cs c h) in
        elim (name-cases t s) [
          | inl e ↦
              tree
              ∙ lookup_child s q i (put_child t new cs) new (
                  ap (λ k. get_child k (put_child t new cs)) (sym e)
                  ∙ get_child-put_same t new c cs named h)
              ∙ lookup-walked p q c (plain_info t directory_word)
              ∙ sym (
                  both (lookup_child s q i cs c (ap (λ k. get_child k cs) (sym e) ∙ h))
                    (chain_same j t s p q e))
          | inr e ↦
              tree
              ∙ lookup_sibling s q i (put_child t new cs) cs
                  (get_child-put_other s t new cs named e)
              ∙ sym (or_else-none (lookup (s ∷ q) (node i cs)))
              ∙ sym (both refl (chain_other j t s p q e))
        ])
  | inl h ↦
      (let new = (walk_loop true false p (directory t)).0 in
        let named : name_of new ≡ t = ap (λ k. k.name) (walk_loop-info p (directory t)) in
        let tree = ap (λ w. lookup (s ∷ q) (w.0)) (walk_made t p i cs h) in
        elim (name-cases t s) [
          | inl e ↦
              (let missing : get_child s cs ≡ none = ap (λ k. get_child k cs) (sym e) ∙ h in
                tree
                ∙ lookup_child s q i (emplace_back new cs) new
                    (get_child-new s new cs missing ∙ alone_same s new (named ∙ e))
                ∙ lookup-walked p q (directory t) (plain_info t directory_word)
                ∙ chain_directory t p q (plain_info t directory_word)
                ∙ sym (both (lookup_missing s q i cs missing) (chain_same j t s p q e)))
          | inr e ↦
              tree
              ∙ lookup_sibling s q i (emplace_back new cs) cs
                  (unchanged s new cs (by_name new t s named e))
              ∙ sym (or_else-none (lookup (s ∷ q) (node i cs)))
              ∙ sym (both refl (chain_other j t s p q e))
        ])
]
