-- ===== src/Volume/Match.antt =====
-- The entry of a listing that a name of a path stands for.
use craft_osos.Base.{◌≡◌, ◌≢◌, true, false, none, some, List, [], ◌∷◌, ◌++◌, arith, refl, ap}
use craft_osos.Lua.{Text}
use craft_osos.Directory.{Dirent, dir}
use craft_osos.Volume.{iequals, look_up, back, pop_back, find_name}

abbrev pub NoMatch : Text → List Dirent → Type 0
NoMatch name [] = Unit {0}
NoMatch name (e ∷ ents) = (iequals e.name name ≡ false) × NoMatch name ents

-- The first entry of a listing whose name matches.
abbrev pub FirstMatch : Text → List Dirent → Dirent → Type 0
FirstMatch name ents d =
    (before after : List Dirent) × (ents ≡ before ++ (d ∷ after))
    × NoMatch name before
    × (iequals d.name name ≡ true)

pub look_up-dir :
    (name : Text) (before after : List Dirent) (d found : Dirent)
    → NoMatch name before
    → iequals d.name name ≡ true
    → d.entry_type ≡ dir
    → look_up name (before ++ (d ∷ after)) found ≡ some d
unfolding look_up
look_up-dir name [] after d found h same is_dir = ground arith
look_up-dir name (e ∷ before) after d found (other, h) same is_dir =
    rw other (look_up-dir name before after d found h same is_dir)

pub look_up-file :
    (name : Text) (before after : List Dirent) (d found : Dirent)
    → NoMatch name before
    → iequals d.name name ≡ true
    → d.entry_type ≢ dir
    → look_up name (before ++ (d ∷ after)) found ≡ none
unfolding look_up
look_up-file name [] after d found h same no_dir = ground arith
look_up-file name (e ∷ before) after d found (other, h) same no_dir =
    rw other (look_up-file name before after d found h same no_dir)

pub look_up-none :
    (name : Text) (ents : List Dirent) (found : Dirent)
    → NoMatch name ents
    → look_up name ents found ≡ some found
unfolding look_up
look_up-none name [] found h = refl
look_up-none name (e ∷ ents) found (other, h) = rw other (look_up-none name ents found h)

pub find_name-first :
    (name : Text) (before after : List Dirent) (d : Dirent)
    → NoMatch name before
    → iequals d.name name ≡ true
    → find_name name (before ++ (d ∷ after)) ≡ d
unfolding find_name
find_name-first name [] after d h same = rw same
find_name-first name (e ∷ before) after d (other, h) same =
    rw other (find_name-first name before after d h same)

pub back-last : (n : Text) (path : List Text) (name : Text) → back n (path ++ (name ∷ [])) ≡ name
back-last n [] name = refl
back-last n (m ∷ path) name = back-last m path name

pub pop_back-last :
    (n : Text) (path : List Text) (name : Text) → pop_back n (path ++ (name ∷ [])) ≡ n ∷ path
pop_back-last n [] name = refl
pop_back-last n (m ∷ path) name = ap (λ l. n ∷ l) (pop_back-last m path name)
