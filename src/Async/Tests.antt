-- ===== src/Async/Tests.antt =====
-- Tests and examples of the asynchronous functions, on the small volume of Volume/Tests.
use craft_osos.Base.{
  ℕ, ◌+◌, ◌-◌, ◌*◌, ◌≡◌, true, none, some, List, [], ◌∷◌, ◌++◌, take, drop, min, replicate, arith,
  refl, ap,
}
use craft_osos.Lua.{Text}
use craft_osos.Fat.{Device, cl_to_sector, u32}
use craft_osos.Directory.{Dirent}
use craft_osos.Volume.{Error, ok, failed, io_error, no_entry, invalid_dirent}
use craft_osos.Volume.Tests.{small, disk, slots_in, file_a, sub, file_x, sub_name}
use craft_osos.Async.{StatResult, names_match, cstat, traverse, read}
use craft_osos.Async.Lookup.{cstat-cstat, Leads, here, into, traverse-no_entry}
use craft_osos.Async.Reads.{Contiguous, read-content}

-- `LUA     BAT` stands for `lua.bat` as well.
eleven_characters :
    names_match
      (b'L' ∷ b'U' ∷ b'A' ∷ b' ' ∷ b' ' ∷ b' ' ∷ b' ' ∷ b' ' ∷ b'B' ∷ b'A' ∷ b'T' ∷ [])
      (b'l' ∷ b'u' ∷ b'a' ∷ b'.' ∷ b'b' ∷ b'a' ∷ b't' ∷ [])
    ≡ true
unfolding names_match craft_osos.Async.dotted craft_osos.Async.find_space craft_osos.Volume.iequals
eleven_characters = refl

abbrev broken : Text → StatResult
broken path = (some io_error, invalid_dirent)

abbrev mended : Text → StatResult
mended path = (none, file_a)

-- An error of the first call is hidden by the second.
cstat-cstat_example :
    cstat mended sub_name ((cstat broken sub_name []).1)
    ≡ ((none, (cstat broken sub_name []).0.1), (cstat broken sub_name []).1)
cstat-cstat_example = cstat-cstat broken mended sub_name []

to_sub : Leads disk slots_in small 1 0 (sub_name ∷ []) 3
unfolding cl_to_sector craft_osos.Directory.int_dirent craft_osos.Directory.scan
    craft_osos.Directory.short_name craft_osos.Directory.trim_right craft_osos.Async.int_ls
    craft_osos.Async.ls_loop names_match craft_osos.Volume.iequals
to_sub =
    into 0 (file_a ∷ sub ∷ []) sub_name sub [] 3 refl
      (file_a ∷ [], [], refl, (refl, tt), refl, refl) (here 3)

traverse-no_entry_example :
    traverse disk slots_in small 1 ((sub_name ∷ []) ++ ((b'q' ∷ []) ∷ (b'x' ∷ []) ∷ [])) none
    ≡ failed (no_entry (b'q' ∷ []))
unfolding cl_to_sector craft_osos.Directory.int_dirent craft_osos.Directory.scan
    craft_osos.Directory.short_name craft_osos.Directory.trim_right craft_osos.Async.int_ls
    craft_osos.Async.ls_loop names_match craft_osos.Volume.iequals
traverse-no_entry_example =
    traverse-no_entry disk slots_in small 1 (sub_name ∷ []) ((b'x' ∷ []) ∷ []) (b'q' ∷ []) 3
      (file_x ∷ []) to_sub refl (refl, tt)

abbrev content : List ℕ
content = replicate 500 1 ++ replicate 100 2

-- The file begins in sector 11.
abbrev in_one_piece : Device
in_one_piece sector count = some (take (count * 512) (drop ((sector - 11) * 512) content))

abbrev big_file : Dirent
big_file = record file_x { block = 3; size = 600 }

big_file-Contiguous : Contiguous in_one_piece small big_file content
unfolding cl_to_sector
big_file-Contiguous sector count some_sectors small_part =
    ap (λ k. some (take (count * 512) (drop (k * 512) content))) {x = u32 (11 + sector) - 11}
      {y = sector} (omega arith)

read-content_example :
    read in_one_piece small 512 big_file 490 20
    ≡ ok (take (min 600 510 - min 600 490) (drop (min 600 490) content))
read-content_example =
    read-content in_one_piece small big_file content 490 20 refl big_file-Contiguous (omega arith)
      (omega arith) (omega arith) (omega arith) (omega arith)
