-- ===== src/Library/Program.antt =====
-- The libraries that `main2` loads.
use craft_osos.Base.{
  ℕ, zero, suc, ◌≡◌, Option, none, some, List, [], ◌∷◌, get_elem?, arith, refl, sym, ap, ◌∙◌,
}
use mathlib.Core.Path.{subst}
use craft_osos.Os.{text_eq}
use craft_osos.Library.{
  Function, Library, Table, Globals, field, bit_lib, fs_lib, os_lib, rs_lib, term_lib, rs_name,
  load_libraries,
}
use craft_osos.Library.Load.{distinct, Sound, Binds, load_library-Binds}

-- The libraries of the program.
abbrev pub libraries : List Library
libraries = bit_lib ∷ fs_lib ∷ os_lib ∷ rs_lib ∷ term_lib ∷ []

bit-Sound : Sound bit_lib
unfolding bit_lib distinct text_eq
bit-Sound = (refl, refl, refl)

fs-Sound : Sound fs_lib
unfolding fs_lib distinct text_eq
fs-Sound = (refl, refl, refl)

os-Sound : Sound os_lib
unfolding os_lib distinct text_eq
os-Sound = (refl, refl, refl)

rs-Sound : Sound rs_lib
unfolding rs_lib distinct text_eq
rs-Sound = (refl, refl, refl)

term-Sound : Sound term_lib
unfolding term_lib distinct text_eq
term-Sound = (refl, refl, refl)

abbrev Has : Library → Globals → Type 0
Has lib globals = (t : Table Function) × (field lib.name globals ≡ some t) × Binds lib t

-- One global of each of the six names, over those that were there.
abbrev globals_of :
    Table Function
    → Table Function
    → Table Function
    → Table Function
    → Table Function
    → Globals
    → Globals
globals_of tb tf to tr tt' globals =
    (term_lib.name, tt')
    ∷ (rs_name, tr)
    ∷ (rs_lib.name, tr)
    ∷ (os_lib.name, to)
    ∷ (fs_lib.name, tf)
    ∷ (bit_lib.name, tb)
    ∷ globals

field-globals_of :
    (tb tf to tr tt' : Table Function) (globals : Globals)
    → (field bit_lib.name (globals_of tb tf to tr tt' globals) ≡ some tb)
      × (field fs_lib.name (globals_of tb tf to tr tt' globals) ≡ some tf)
      × (field os_lib.name (globals_of tb tf to tr tt' globals) ≡ some to)
      × (field rs_lib.name (globals_of tb tf to tr tt' globals) ≡ some tr)
      × (field term_lib.name (globals_of tb tf to tr tt' globals) ≡ some tt')
      × (field rs_name (globals_of tb tf to tr tt' globals) ≡ some tr)
unfolding field text_eq bit_lib fs_lib os_lib rs_lib term_lib
field-globals_of tb tf to tr tt' globals = (refl, refl, refl, refl, refl, refl)

some_inj : (a b : Library) → ◌≡◌ {A = Option Library} (some a) (some b) → a ≡ b
some_inj a b e = ap (λ o. elim o [ none ↦ a | some x ↦ x ]) e

Has-libraries :
    (globals : Globals)
    → Has bit_lib globals
    → Has fs_lib globals
    → Has os_lib globals
    → Has rs_lib globals
    → Has term_lib globals
    → (i : ℕ) (lib : Library) → get_elem? libraries i ≡ some lib
    → Has lib globals
Has-libraries globals b f o r t zero lib at = subst (λ l. Has l globals) (some_inj bit_lib lib at) b
Has-libraries globals b f o r t (suc zero) lib at =
    subst (λ l. Has l globals) (some_inj fs_lib lib at) f
Has-libraries globals b f o r t (suc (suc zero)) lib at =
    subst (λ l. Has l globals) (some_inj os_lib lib at) o
Has-libraries globals b f o r t (suc (suc (suc zero))) lib at =
    subst (λ l. Has l globals) (some_inj rs_lib lib at) r
Has-libraries globals b f o r t (suc (suc (suc (suc zero)))) lib at =
    subst (λ l. Has l globals) (some_inj term_lib lib at) t
Has-libraries globals b f o r t (suc (suc (suc (suc (suc i))))) lib at = absurd (ground arith)

-- Whatever globals there were, the five libraries are loaded without a fault, every name of every
-- one of them is then bound to its function, and `rs` is the same table as `redstone`.
pub load_libraries-Binds :
    (globals : Globals)
    → (globals' : Globals) × (load_libraries globals ≡ some globals')
      × ((i : ℕ) (lib : Library)
          → get_elem? libraries i ≡ some lib
          → (t : Table Function) × (field lib.name globals' ≡ some t) × Binds lib t)
      × (field rs_name globals' ≡ field rs_lib.name globals')
unfolding load_libraries
load_libraries-Binds globals =
    let (tb, eb, fb, bb, _, _) = load_library-Binds bit_lib globals bit-Sound in
    let g1 : Globals = (bit_lib.name, tb) ∷ globals in
    let (tf, ef, ff, bf, _, _) = load_library-Binds fs_lib g1 fs-Sound in
    let g2 : Globals = (fs_lib.name, tf) ∷ g1 in
    let (to, eo, fo, bo, _, _) = load_library-Binds os_lib g2 os-Sound in
    let g3 : Globals = (os_lib.name, to) ∷ g2 in
    let (tr, er, fr, br, _, _) = load_library-Binds rs_lib g3 rs-Sound in
    let g4 : Globals = (rs_lib.name, tr) ∷ g3 in
    let g5 : Globals = (rs_name, tr) ∷ g4 in
    let (tt', et, ft, bt, _, _) = load_library-Binds term_lib g5 term-Sound in
    let (hb, hf, ho, hr, ht, ha) = field-globals_of tb tf to tr tt' globals in
    (
      globals_of tb tf to tr tt' globals,
      rw (eb, ef, eo, er, fr, et),
      Has-libraries (globals_of tb tf to tr tt' globals) (tb, hb, bb) (tf, hf, bf) (to, ho, bo)
          (tr, hr, br) (tt', ht, bt),
      ha ∙ sym hr,
    )
