-- ===== src/Library/Load.antt =====
-- What `load_library` leaves in the globals.
use craft_osos.Base.{
  ℕ, zero, suc, ◌≡◌, Bool, true, false, ◌&&◌, not, none, some, List, [], ◌∷◌, ◌++◌, append_assoc,
  get_elem?, length, length-append, arith, refl, sym, ap, ◌∙◌, ◌>>=◌,
}
use craft_osos.Lua.{Text}
use craft_osos.Os.{text_eq}
use craft_osos.Library.{Function, Library, Table, Globals, field, fill, load_library}

text_eq_self : (t : Text) → text_eq t t ≡ true
unfolding text_eq
text_eq_self [] = refl
text_eq_self (c ∷ cs) = ground (arith, text_eq_self cs)

-- No key, and no key twice.
unfoldable pub absent : Text → List Text → Bool
absent key [] = true
absent key (k ∷ ks) = not (text_eq k key) && absent key ks

unfoldable pub distinct : List Text → Bool
unfolding absent
distinct [] = true
distinct (k ∷ ks) = absent k ks && distinct ks

field_first : {A : Type 0} (key : Text) (a : A) (t : Table A) → field key ((key, a) ∷ t) ≡ some a
unfolding field
field_first key a t = rw (text_eq_self key)

field_other :
    {A : Type 0} (k key : Text) (a : A) (t : Table A)
    → text_eq k key ≡ false
    → field key ((k, a) ∷ t) ≡ field key t
unfolding field
field_other k key a t other = rw other

field-none : (key : Text) → field {A = Function} key [] ≡ none
unfolding field
field-none key = refl

-- The assignments of the loop, in order.
stored : List Text → List Function → Table Function → Table Function
stored [] values t = t
stored (k ∷ ks) [] t = t
stored (k ∷ ks) (v ∷ vs) t = stored ks vs ((k, v) ∷ t)

get_elem?-behind :
    {A : Type 0} (front : List A) (a : A) (rest : List A)
    → get_elem? (front ++ (a ∷ rest)) (length front) ≡ some a
get_elem?-behind [] a rest = refl
get_elem?-behind (x ∷ front) a rest = get_elem?-behind front a rest

fill-step :
    (count i : ℕ) (keys : List Text) (values : List Function) (t : Table Function) (k : Text)
    (v : Function)
    → get_elem? keys i ≡ some k
    → get_elem? values i ≡ some v
    → fill (suc count) i keys values t ≡ fill count (suc i) keys values ((k, v) ∷ t)
unfolding fill
fill-step count i keys values t k v at at' = rw (at, at')

fill-stored :
    (front : List Text) (front' : List Function) (ks : List Text) (vs : List Function)
    (t : Table Function)
    → length front ≡ length front'
    → length ks ≡ length vs
    → fill (length ks) (length front) (front ++ ks) (front' ++ vs) t ≡ some (stored ks vs t)
unfolding fill stored
fill-stored front front' [] vs t same same' = refl
fill-stored front front' (k ∷ ks) [] t same same' = absurd (omega arith)
fill-stored front front' (k ∷ ks) (v ∷ vs) t same same' =
    fill-step (length ks) (length front) (front ++ (k ∷ ks)) (front' ++ (v ∷ vs)) t k v
      (get_elem?-behind front k ks)
      (ap (get_elem? (front' ++ (v ∷ vs))) same ∙ get_elem?-behind front' v vs)
    ∙ ap (λ n. fill (length ks) n (front ++ (k ∷ ks)) (front' ++ (v ∷ vs)) ((k, v) ∷ t))
        {x = suc (length front)} {y = length (front ++ (k ∷ []))}
        (omega (arith, length-append front (k ∷ [])))
    ∙ ap (λ l. fill (length ks) (length (front ++ (k ∷ []))) l (front' ++ (v ∷ vs)) ((k, v) ∷ t))
        (sym (append_assoc front (k ∷ []) ks))
    ∙ ap
        (λ l.
          fill (length ks) (length (front ++ (k ∷ []))) ((front ++ (k ∷ [])) ++ ks) l ((k, v) ∷ t))
        (sym (append_assoc front' (v ∷ []) vs))
    ∙ fill-stored (front ++ (k ∷ [])) (front' ++ (v ∷ [])) ks vs ((k, v) ∷ t)
        (omega (arith, length-append front (k ∷ []), length-append front' (v ∷ []))) (omega arith)

stored-absent :
    (key : Text) (ks : List Text) (vs : List Function) (t : Table Function)
    → absent key ks ≡ true
    → field key (stored ks vs t) ≡ field key t
unfolding absent stored
stored-absent key [] vs t h = refl
stored-absent key (k ∷ ks) [] t h = refl
stored-absent key (k ∷ ks) (v ∷ vs) t h =
    stored-absent key ks vs ((k, v) ∷ t) (ground arith) ∙ field_other k key v t (ground arith)

stored-at :
    (ks : List Text) (vs : List Function) (t : Table Function) (i : ℕ) (key : Text)
    (value : Function)
    → distinct ks ≡ true
    → get_elem? ks i ≡ some key
    → get_elem? vs i ≡ some value
    → field key (stored ks vs t) ≡ some value
unfolding distinct stored
stored-at [] vs t i key value h at at' = absurd (ground arith)
stored-at (k ∷ ks) [] t i key value h at at' = absurd (ground arith)
stored-at (k ∷ ks) (v ∷ vs) t zero key value h at at' =
    let same : k ≡ key = ground arith in
    ap (λ q. field q (stored ks vs ((k, v) ∷ t))) (sym same)
    ∙ stored-absent k ks vs ((k, v) ∷ t) (ground arith)
    ∙ field_first k v t
    ∙ at'
stored-at (k ∷ ks) (v ∷ vs) t (suc i) key value h at at' =
    stored-at ks vs ((k, v) ∷ t) i key value (ground arith) at at'

-- A table as the code needs it.
abbrev pub Sound : Library → Type 0
Sound lib =
    (length lib.keys ≡ lib.count) × (length lib.values ≡ lib.count) × (distinct lib.keys ≡ true)

abbrev pub Binds : Library → Table Function → Type 0
Binds lib t =
    (i : ℕ) (key : Text) (value : Function)
    → get_elem? lib.keys i ≡ some key
    → get_elem? lib.values i ≡ some value
    → field key t ≡ some value

-- A library of sound tables is loaded: its global holds the function of each of its names and
-- nothing under any other name, and the other globals stay as they are.
pub load_library-Binds :
    (lib : Library) (globals : Globals)
    → Sound lib
    → (t : Table Function) × (load_library lib globals ≡ some ((lib.name, t) ∷ globals))
      × (field lib.name ((lib.name, t) ∷ globals) ≡ some t)
      × Binds lib t
      × ((key : Text) → absent key lib.keys ≡ true → field key t ≡ none)
      × ((name : Text)
          → text_eq lib.name name ≡ false
          → field name ((lib.name, t) ∷ globals) ≡ field name globals)
unfolding load_library
load_library-Binds lib globals (keys, values, no_twice) =
    let t = stored lib.keys lib.values [] in
    let filled : fill lib.count 0 lib.keys lib.values [] ≡ some t =
      ap (λ n. fill n 0 lib.keys lib.values []) (sym keys)
      ∙ fill-stored [] [] lib.keys lib.values [] refl (keys ∙ sym values) in
    (
      t,
      ap (λ o. o >>= λ t'. some ((lib.name, t') ∷ globals)) filled,
      field_first lib.name t globals,
      λ i key value at at'. stored-at lib.keys lib.values [] i key value no_twice at at',
      λ key none_there. stored-absent key lib.keys lib.values [] none_there ∙ field-none key,
      λ name other. field_other lib.name name t globals other,
    )
