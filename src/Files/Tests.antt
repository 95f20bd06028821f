-- ===== src/Files/Tests.antt =====
-- Paths and listings at concrete names.
use craft_osos.Base.{◌≡◌, true, false, some, List, [], ◌∷◌, arith}
use craft_osos.Lua.{Text}
use craft_osos.Directory.{Dirent, EntryType, dir, file, volume_id}
use craft_osos.Files.{combine, basename, dirname}
use craft_osos.Files.Paths.{Relative, lead, combine-slashes, combine-parts}

rom-Relative : Relative b'r' (b'o' ∷ b'm' ∷ [])
rom-Relative = (ground arith, ground arith, (ground arith, (ground arith, (ground arith, tt))))

ls-Relative : Relative b'l' (b's' ∷ [])
ls-Relative = (ground arith, ground arith, (ground arith, (ground arith, tt)))

-- "/rom/" and "ls/"
combine-slashes_example :
    combine (b'/' ∷ b'r' ∷ b'o' ∷ b'm' ∷ b'/' ∷ []) (b'l' ∷ b's' ∷ b'/' ∷ [])
    ≡ some (b'r' ∷ b'o' ∷ b'm' ∷ b'/' ∷ b'l' ∷ b's' ∷ [])
combine-slashes_example =
    combine-slashes true true false true b'r' b'l' (b'o' ∷ b'm' ∷ []) (b's' ∷ []) rom-Relative
      ls-Relative

combine-parts_example :
    (path : Text) × (combine (b'r' ∷ b'o' ∷ b'm' ∷ []) (b'l' ∷ b's' ∷ []) ≡ some path)
    × (basename (lead true path) ≡ b'l' ∷ b's' ∷ [])
    × (dirname (lead true path) ≡ b'r' ∷ b'o' ∷ b'm' ∷ [])
combine-parts_example =
    combine-parts true b'r' b'l' (b'o' ∷ b'm' ∷ []) (b's' ∷ []) rom-Relative ls-Relative
      (ground arith, (ground arith, tt))

abbrev entry : Text → EntryType → Dirent
entry name t = record {
  entry_type = t;
  name = name;
  block = 3;
  parent = 0;
  size = 0;
  attrib = 0;
  modified = 0;
}

abbrev contents : Dirent → List Dirent
contents d = entry (b'v' ∷ []) volume_id ∷ entry (b'a' ∷ []) file ∷ entry (b'b' ∷ []) dir ∷ []
