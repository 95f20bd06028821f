-- ===== src/Library/Tests.antt =====
-- The tables of the program in an empty state.
use craft_osos.Base.{ℕ, ◌≡◌, some, [], get_elem?}
use craft_osos.Library.{Function, Library, Table, Globals, field, load_libraries, rs_lib, rs_name}
use craft_osos.Library.Load.{Binds}
use craft_osos.Library.Program.{libraries, load_libraries-Binds}

load_libraries-Binds_example :
    (globals' : Globals) × (load_libraries [] ≡ some globals')
    × ((i : ℕ) (lib : Library)
        → get_elem? libraries i ≡ some lib
        → (t : Table Function) × (field lib.name globals' ≡ some t) × Binds lib t)
    × (field rs_name globals' ≡ field rs_lib.name globals')
load_libraries-Binds_example = load_libraries-Binds []
