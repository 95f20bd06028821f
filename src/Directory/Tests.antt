-- ===== src/Directory/Tests.antt =====
-- A directory at concrete slots.
use craft_osos.Base.{
  ℕ, ◌≡◌, Bool, true, false, List, [], ◌∷◌, ◌++◌, inl, inr, refl, arith, replicate,
}
use craft_osos.Lua.{Text}
use craft_osos.Directory.{Slot, file, int_dirent}
use craft_osos.Directory.Layout.{
  Laid, free, short_file, long_file, laid_slots, listing, ShortName, LongName, int_dirent-listing,
}

abbrev slot : Text → Bool → Bool → ℕ → List ℕ → Slot
slot name long last index chars = record {
  shortname = name;
  attrib = 0x20;
  is_longname = long;
  is_last = last;
  long_index = index;
  characters = chars;
  entry_type = file;
  dir_cluster = λ root. 5;
  size = 100;
  modified = 0;
}

abbrev readme : Text
readme = b'R' ∷ b'E' ∷ b'A' ∷ b'D' ∷ b'M' ∷ b'E' ∷ b' ' ∷ b' ' ∷ b'T' ∷ b'X' ∷ b'T' ∷ []

abbrev long_first : Slot
long_first = slot (1 ∷ []) true false 1 (b'l' ∷ b'o' ∷ b'n' ∷ b'g' ∷ b'.' ∷ b'l' ∷ [])

abbrev long_last : Slot
long_last = slot (66 ∷ []) true true 2 (b'u' ∷ b'a' ∷ 0 ∷ 0xFFFF ∷ [])

abbrev readme_name : Text
readme_name = b'r' ∷ b'e' ∷ b'a' ∷ b'd' ∷ b'm' ∷ b'e' ∷ b'.' ∷ b't' ∷ b'x' ∷ b't' ∷ []

abbrev long_name_of : Text
long_name_of = b'l' ∷ b'o' ∷ b'n' ∷ b'g' ∷ b'.' ∷ b'l' ∷ b'u' ∷ b'a' ∷ []

abbrev laid : List Laid
laid =
    free (slot (0xE5 ∷ []) false false 0 [])
    ∷ short_file readme_name (slot readme false false 0 [])
    ∷ long_file long_name_of long_last (long_first ∷ []) (slot readme false false 0 [])
    ∷ []

abbrev end_mark : Slot
end_mark = slot (0 ∷ []) false false 0 []

readme-ShortName : ShortName (slot readme false false 0 []) readme_name
readme-ShortName = inl (
  b'R' ∷ b'E' ∷ b'A' ∷ b'D' ∷ b'M' ∷ b'E' ∷ [],
  b'T' ∷ b'X' ∷ b'T' ∷ [],
  2,
  0,
  refl,
  refl,
  refl,
  refl,
  omega arith,
  omega arith,
  (
    inl (omega arith, omega arith, refl),
    (
      inl (omega arith, omega arith, refl),
      (
        inl (omega arith, omega arith, refl),
        (
          inl (omega arith, omega arith, refl),
          (
            inl (omega arith, omega arith, refl),
            (
              inl (omega arith, omega arith, refl),
              (
                inr (inl (omega arith), refl),
                (
                  inl (omega arith, omega arith, refl),
                  (
                    inl (omega arith, omega arith, refl),
                    (inl (omega arith, omega arith, refl), tt),
                  ),
                ),
              ),
            ),
          ),
        ),
      ),
    ),
  ),
)

long-LongName : LongName (long_first ∷ long_last ∷ []) long_name_of
long-LongName = (
  long_first.characters,
  [],
  b'u' ∷ b'a' ∷ [],
  refl,
  ground arith,
  tt,
  refl,
  (b'u' ∷ b'a' ∷ [], 0 ∷ 0xFFFF ∷ [], [], refl, ground arith, inl refl, refl, refl),
)

-- A short name and a name that takes two slots, behind a slot not in use.
int_dirent-listing_example :
    int_dirent 2 1 33 (laid_slots laid ++ (end_mark ∷ [])) ≡ (listing 2 33 laid, true)
int_dirent-listing_example =
    int_dirent-listing 2 33 1 laid end_mark []
      (
        refl,
        (
          ((ground arith, ground arith), refl, readme-ShortName),
          (((ground arith, ground arith), refl, refl, refl, long-LongName, omega arith), tt),
        ),
      )
      refl (omega arith)

abbrev full : Slot
full = slot (1 ∷ []) true false 1 (replicate 13 b'x')
