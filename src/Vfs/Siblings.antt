-- ===== src/Vfs/Siblings.antt =====
-- The children of an entry, found by name, under a change of one and the addition of another.
use craft_osos.Base.{
  ◌≡◌, ◌≢◌, ◌⊎◌, inl, inr, true, false, none, some, refl, sym, ap, ◌∙◌, Bool-cases, if◌then◌else◌,
}
use craft_osos.Lua.{Text}
use craft_osos.Os.{text_eq}
use craft_osos.Os.Filter.{text_eq_refl, eq_of_text_eq}
use craft_osos.Vfs.{VfsEntry, Children, last, child, info, get_child, put_child, emplace_back}

abbrev pub name_of : VfsEntry → Text
name_of e = (info e).name

pub none-some : {A : Type 0} {a : A} → none ≢ some a
none-some e = cc

pub some_inj : {A : Type 0} {a b : A} → some a ≡ some b → a ≡ b
some_inj e = cc

pub name-cases : (s t : Text) → (s ≡ t) ⊎ (text_eq s t ≡ false)
name-cases s t = elim (Bool-cases (text_eq s t)) [
  | inl e ↦ inl (eq_of_text_eq s t e)
  | inr e ↦ inr e
]

child_first :
    (t : Text) (c : VfsEntry) (cs : Children) → name_of c ≡ t → get_child t (child c cs) ≡ some c
unfolding get_child
child_first t c cs h = let e : text_eq (name_of c) t ≡ true = rw h (text_eq_refl t) in rw e

child_other :
    (t : Text) (c : VfsEntry) (cs : Children)
    → text_eq (name_of c) t ≡ false
    → get_child t (child c cs) ≡ get_child t cs
unfolding get_child
child_other t c cs h = rw h

put_first :
    (t : Text) (new c : VfsEntry) (cs : Children)
    → name_of c ≡ t
    → put_child t new (child c cs) ≡ child new cs
unfolding put_child
put_first t new c cs h = let e : text_eq (name_of c) t ≡ true = rw h (text_eq_refl t) in rw e

put_other :
    (t : Text) (new c : VfsEntry) (cs : Children)
    → text_eq (name_of c) t ≡ false
    → put_child t new (child c cs) ≡ child c (put_child t new cs)
unfolding put_child
put_other t new c cs h = rw h

-- The child that is found under a name has that name.
pub get_child-name :
    (t : Text) (cs : Children) (c : VfsEntry) → get_child t cs ≡ some c → name_of c ≡ t
unfolding get_child
get_child-name t last c h = cc
get_child-name t (child d cs) c h = elim (name-cases (name_of d) t) [
  | inl e ↦
      (let same : some d ≡ some c = sym (child_first t d cs e) ∙ h in
        ap name_of (sym (some_inj same)) ∙ e)
  | inr e ↦ get_child-name t cs c (sym (child_other t d cs e) ∙ h)
]

-- A changed child is found in place of the old one, and no other is touched.
pub get_child-put_same :
    (t : Text) (new c : VfsEntry) (cs : Children)
    → name_of new ≡ t
    → get_child t cs ≡ some c
    → get_child t (put_child t new cs) ≡ some new
unfolding get_child
get_child-put_same t new c last named h = cc
get_child-put_same t new c (child d cs) named h = elim (name-cases (name_of d) t) [
  | inl e ↦ rw (put_first t new d cs e) (child_first t new cs named)
  | inr e ↦ rw (put_other t new d cs e) (
      child_other t d (put_child t new cs) e
      ∙ get_child-put_same t new c cs named (sym (child_other t d cs e) ∙ h))
]

pub get_child-put_other :
    (s t : Text) (new : VfsEntry) (cs : Children)
    → name_of new ≡ t
    → text_eq t s ≡ false
    → get_child s (put_child t new cs) ≡ get_child s cs
unfolding get_child put_child
get_child-put_other s t new last named h = refl
get_child-put_other s t new (child d cs) named h = elim (name-cases (name_of d) t) [
  | inl e ↦
      (let other : text_eq (name_of d) s ≡ false = rw e h in
        let other' : text_eq (name_of new) s ≡ false = rw named h in
        ap (get_child s) (put_first t new d cs e)
        ∙ child_other s new cs other'
        ∙ sym (child_other s d cs other))
  | inr e ↦
      ap (get_child s) (put_other t new d cs e)
      ∙ ap (λ rest. if text_eq (name_of d) s then some d else rest)
          (get_child-put_other s t new cs named h)
]

-- The addition of a child at the end: an older one of its name hides it.
pub get_child-old :
    (s : Text) (new c : VfsEntry) (cs : Children)
    → get_child s cs ≡ some c
    → get_child s (emplace_back new cs) ≡ some c
unfolding get_child emplace_back
get_child-old s new c last h = cc
get_child-old s new c (child d cs) h = elim (name-cases (name_of d) s) [
  | inl e ↦ child_first s d (emplace_back new cs) e ∙ sym (child_first s d cs e) ∙ h
  | inr e ↦
      child_other s d (emplace_back new cs) e
      ∙ get_child-old s new c cs (sym (child_other s d cs e) ∙ h)
]

pub get_child-new :
    (s : Text) (new : VfsEntry) (cs : Children)
    → get_child s cs ≡ none
    → get_child s (emplace_back new cs) ≡ get_child s (child new last)
unfolding get_child emplace_back
get_child-new s new last h = refl
get_child-new s new (child d cs) h = elim (name-cases (name_of d) s) [
  | inl e ↦ absurd (none-some (sym h ∙ child_first s d cs e))
  | inr e ↦
      child_other s d (emplace_back new cs) e
      ∙ get_child-new s new cs (sym (child_other s d cs e) ∙ h)
]

pub alone_same :
    (s : Text) (new : VfsEntry) → name_of new ≡ s → get_child s (child new last) ≡ some new
alone_same s new h = child_first s new last h

pub alone_other :
    (s : Text) (new : VfsEntry)
    → text_eq (name_of new) s ≡ false
    → get_child s (child new last) ≡ none
unfolding get_child
alone_other s new h = rw h

pub put_child_self :
    (t : Text) (c : VfsEntry) (cs : Children) → get_child t cs ≡ some c → put_child t c cs ≡ cs
unfolding get_child
put_child_self t c last h = cc
put_child_self t c (child d cs) h = elim (name-cases (name_of d) t) [
  | inl e ↦
      put_first t c d cs e ∙ ap (λ k. child k cs) (sym (some_inj (sym (child_first t d cs e) ∙ h)))
  | inr e ↦
      put_other t c d cs e ∙ ap (child d) (put_child_self t c cs (sym (child_other t d cs e) ∙ h))
]
