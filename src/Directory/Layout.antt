-- ===== src/Directory/Layout.antt =====
-- Directories as they are laid out on the disk, with the names that the slots stand for said without
-- the functions that read them, and `int_dirent` on them.
use craft_osos.Base.{
  ℕ, zero, suc, ◌+◌, ◌*◌, ◌%◌, ◌≤◌, ◌<◌, ◌≡◌, ◌≢◌, ◌⊎◌, inl, inr, bit_and, true, false, List, [],
  ◌∷◌, ◌++◌, map, length, length-append, append_assoc, append-nil, length-replicate, take, drop,
  replicate, ltb, if◌then◌else◌, le→ltb, ==_iff, ==_ne, arith, refl, sym, ap, ◌∙◌,
}
use mathlib.Core.List.{reverse}
use craft_osos.Base.Bits.{bit_and-mask}
use craft_osos.Lua.{Text}
use craft_osos.Directory.{
  Slot, Dirent, is_delimiter, trim_step, trim_right, to_lower, short_name, slot_text, long_name,
  int_dirent,
}
use craft_osos.Directory.Scan.{
  Item, unused, plain, named, first_byte, InUse, AllWellFormed, slots_of, entries_of,
  int_dirent-slots_of,
}

-- A text in small letters.
abbrev pub IsLower : ℕ → ℕ → Type 0
IsLower c d = ((b'A' ≤ c) × (c ≤ b'Z') × (d ≡ c + 32)) ⊎ (((c < b'A') ⊎ (b'Z' < c)) × (d ≡ c))

abbrev pub Lowered : Text → Text → Type 0
Lowered [] [] = Unit {0}
Lowered (c ∷ cs) (d ∷ ds) = IsLower c d × Lowered cs ds
Lowered _ _ = ⊥

-- It does not end in a blank or a control character.
abbrev pub Ended : Text → Type 0
Ended [] = Unit {0}
Ended (c ∷ []) = b' ' < c
Ended (c ∷ d ∷ ds) = Ended (d ∷ ds)

-- What the short name of a slot stands for: of a file eight characters and three, each filled up
-- with blanks, with a dot between them; of a directory all eleven, without a dot.
abbrev pub ShortName : Slot → Text → Type 0
ShortName s name =
    ((base ext : Text) × (i j : ℕ) × (bit_and s.attrib 0x10 ≡ 0)
      × (s.shortname ≡ (base ++ replicate i b' ') ++ (ext ++ replicate j b' '))
      × (length base + i ≡ 8)
      × (length ext + j ≡ 3)
      × Ended base
      × Ended ext
      × Lowered (base ++ (b'.' ∷ ext)) name)
    ⊎ ((whole : Text) × (i : ℕ) × (bit_and s.attrib 0x10 ≢ 0)
        × (s.shortname ≡ whole ++ replicate i b' ')
        × Ended whole
        × Lowered whole name)

-- The characters of a name in a slot, and what follows the last of them.
abbrev pub Characters : List ℕ → Type 0
Characters [] = Unit {0}
Characters (c ∷ cs) = (c ≢ 0) × (c ≢ 0xFFFF) × Characters cs

abbrev pub Stops : List ℕ → Type 0
Stops [] = Unit {0}
Stops (c ∷ cs) = (c ≡ 0) ⊎ (c ≡ 0xFFFF)

-- A long name is what its slots hold one after the other, the low byte of each character.
abbrev pub LongName : List Slot → Text → Type 0
LongName [] name = name ≡ []
LongName (s ∷ ss) name =
    (part behind : List ℕ) × (rest : Text) × (s.characters ≡ part ++ behind)
    × Characters part
    × Stops behind
    × (name ≡ map (λ c. c % 256) part ++ rest)
    × LongName ss rest

-- A slot that is not in use, a file with its short name alone, and a file with a long name, whose
-- slots stand in front of it from the last to the first.
pub data Laid : Type 0 where
  free : Slot → Laid
  short_file : Text → Slot → Laid
  long_file : Text → Slot → List Slot → Slot → Laid

abbrev pub WellLaid : Laid → Type 0
WellLaid (free s) = first_byte s ≡ 0xE5
WellLaid (short_file name s) = InUse s × (s.is_longname ≡ false) × ShortName s name
WellLaid (long_file name last more short) =
    InUse last
    × (last.is_longname ≡ true)
    × (last.is_last ≡ true)
    × (last.long_index ≡ length (last ∷ more))
    × LongName (reverse (last ∷ more)) name
    × (length name ≤ 240)

abbrev pub AllWellLaid : List Laid → Type 0
AllWellLaid [] = Unit {0}
AllWellLaid (l ∷ ls) = WellLaid l × AllWellLaid ls

abbrev pub item_of : Laid → Item
item_of (free s) = unused s
item_of (short_file name s) = plain s
item_of (long_file name last more short) = named last more short

abbrev pub laid_slots : List Laid → List Slot
laid_slots ls = slots_of (map item_of ls)

-- The entry of a file: its name, and the rest from its own slot.
abbrev pub file_entry : ℕ → ℕ → Text → Slot → Dirent
file_entry root_cluster sector name s = record {
  entry_type = s.entry_type;
  name = name;
  block = s.dir_cluster root_cluster;
  parent = sector;
  size = s.size;
  attrib = s.attrib;
  modified = s.modified;
}

abbrev pub listing : ℕ → ℕ → List Laid → List Dirent
listing root sector [] = []
listing root sector (free s ∷ ls) = listing root sector ls
listing root sector (short_file name s ∷ ls) =
    file_entry root sector name s ∷ listing root sector ls
listing root sector (long_file name last more short ∷ ls) =
    file_entry root sector name short ∷ listing root sector ls

to_lower-eq : (c d : ℕ) → IsLower c d → to_lower c ≡ d
to_lower-eq c d h = ground arith

map-Lowered : (cs ds : Text) → Lowered cs ds → map to_lower cs ≡ ds
map-Lowered [] [] h = refl
map-Lowered (c ∷ cs) (d ∷ ds) (l, h) =
    ap (λ k. k ∷ map to_lower cs) (to_lower-eq c d l) ∙ ap (λ t. d ∷ t) (map-Lowered cs ds h)
map-Lowered [] (d ∷ ds) h = absurd h
map-Lowered (c ∷ cs) [] h = absurd h

trim_blank : (k : ℕ) → trim_right (replicate k b' ') ≡ []
unfolding trim_right
trim_blank zero = refl
trim_blank (suc k) = ap (trim_step b' ') (trim_blank k)

visible : (c : ℕ) → b' ' < c → is_delimiter c ≡ false
visible c h = ground arith

trim-Ended : (t : Text) (k : ℕ) → Ended t → trim_right (t ++ replicate k b' ') ≡ t
unfolding trim_right
trim-Ended [] k h = trim_blank k
trim-Ended (c ∷ []) k h =
    ap (trim_step c) (trim_blank k) ∙ ap (λ b. if b then [] else c ∷ []) (visible c h)
trim-Ended (c ∷ d ∷ ds) k h = ap (trim_step c) (trim-Ended (d ∷ ds) k h)

take-front : (n : ℕ) (xs ys : Text) → length xs ≡ n → take n (xs ++ ys) ≡ xs
take-front zero [] ys h = refl
take-front (suc n) [] ys h = absurd (omega arith)
take-front zero (x ∷ xs) ys h = absurd (omega arith)
take-front (suc n) (x ∷ xs) ys h = ap (λ l. x ∷ l) (take-front n xs ys (omega arith))

drop-front : (n : ℕ) (xs ys : Text) → length xs ≡ n → drop n (xs ++ ys) ≡ ys
drop-front zero [] ys h = refl
drop-front (suc n) [] ys h = absurd (omega arith)
drop-front zero (x ∷ xs) ys h = absurd (omega arith)
drop-front (suc n) (x ∷ xs) ys h = drop-front n xs ys (omega arith)

short_name-dotted :
    (s : Slot)
    → bit_and s.attrib 0x10 ≡ 0
    → short_name s
      ≡ map to_lower
          (trim_right (take 8 s.shortname) ++ (b'.' ∷ trim_right (take 3 (drop 8 s.shortname))))
unfolding short_name
short_name-dotted s h =
    ap
      (λ b. map to_lower (
        if b
        then trim_right (take 8 s.shortname) ++ (b'.' ∷ trim_right (take 3 (drop 8 s.shortname)))
        else trim_right s.shortname))
      ((==_iff (bit_and s.attrib 0x10) 0).1 h)

short_name-whole :
    (s : Slot) → bit_and s.attrib 0x10 ≢ 0 → short_name s ≡ map to_lower (trim_right s.shortname)
unfolding short_name
short_name-whole s h =
    ap
      (λ b. map to_lower (
        if b
        then trim_right (take 8 s.shortname) ++ (b'.' ∷ trim_right (take 3 (drop 8 s.shortname)))
        else trim_right s.shortname))
      (==_ne (bit_and s.attrib 0x10) 0 h)

filled : (t : Text) (k n : ℕ) → length t + k ≡ n → length (t ++ replicate k b' ') ≡ n
filled t k n h = omega (arith, length-append t (replicate k b' '), length-replicate {A = ℕ} k b' ')

short_name-ShortName : (s : Slot) (name : Text) → ShortName s name → short_name s ≡ name
short_name-ShortName s name
      (inl (base, ext, i, j, plain_file, at, eight, three, ended, ended', low)) =
    let front = base ++ replicate i b' ' in
    let behind = ext ++ replicate j b' ' in
    let first : take 8 s.shortname ≡ front =
      ap (take 8) at ∙ take-front 8 front behind (filled base i 8 eight) in
    let second : take 3 (drop 8 s.shortname) ≡ behind =
      ap (λ t. take 3 (drop 8 t)) at
      ∙ ap (take 3) (drop-front 8 front behind (filled base i 8 eight))
      ∙ ap (take 3) (sym (append-nil behind))
      ∙ take-front 3 behind [] (filled ext j 3 three) in
    short_name-dotted s plain_file
    ∙ ap (λ t. map to_lower (trim_right t ++ (b'.' ∷ trim_right (take 3 (drop 8 s.shortname)))))
        first
    ∙ ap (λ t. map to_lower (trim_right front ++ (b'.' ∷ trim_right t))) second
    ∙ ap (λ t. map to_lower (t ++ (b'.' ∷ trim_right behind))) (trim-Ended base i ended)
    ∙ ap (λ t. map to_lower (base ++ (b'.' ∷ t))) (trim-Ended ext j ended')
    ∙ map-Lowered (base ++ (b'.' ∷ ext)) name low
short_name-ShortName s name (inr (whole, i, directory, at, ended, low)) =
    short_name-whole s directory
    ∙ ap (λ t. map to_lower (trim_right t)) at
    ∙ ap (map to_lower) (trim-Ended whole i ended)
    ∙ map-Lowered whole name low

slot_text-Stops : (behind : List ℕ) → Stops behind → slot_text behind ≡ []
unfolding slot_text
slot_text-Stops [] h = refl
slot_text-Stops (c ∷ cs) h = ground arith

slot_text-more :
    (c : ℕ) (cs : List ℕ) → c ≢ 0 → c ≢ 0xFFFF → slot_text (c ∷ cs) ≡ bit_and c 0xFF ∷ slot_text cs
unfolding slot_text
slot_text-more c cs live inside = ground arith

slot_text-Characters :
    (part behind : List ℕ)
    → Characters part
    → Stops behind
    → slot_text (part ++ behind) ≡ map (λ c. c % 256) part
slot_text-Characters [] behind h stops = slot_text-Stops behind stops
slot_text-Characters (c ∷ cs) behind (live, inside, h) stops =
    slot_text-more c (cs ++ behind) live inside
    ∙ ap (λ d. d ∷ slot_text (cs ++ behind)) (bit_and-mask 8 c)
    ∙ ap (λ t. c % 256 ∷ t) (slot_text-Characters cs behind h stops)

long_name-LongName :
    (ss : List Slot) (before name : Text)
    → LongName ss name
    → length before + length name ≤ 240
    → long_name ss before ≡ before ++ name
unfolding long_name
long_name-LongName [] before name none_left small =
    sym (append-nil before) ∙ ap (λ t. before ++ t) (sym none_left)
long_name-LongName (s ∷ ss) before name (part, behind, rest, at, live, stops, sum, more) small =
    let bytes = map (λ c. c % 256) part in
    let text : slot_text s.characters ≡ bytes =
      ap slot_text at ∙ slot_text-Characters part behind live stops in
    let size : length name ≡ length bytes + length rest =
      ap length sum ∙ length-append bytes rest in
    let short : ltb 240 (length (before ++ bytes)) ≡ false =
      le→ltb 240 (length (before ++ bytes)) (omega (arith, length-append before bytes)) in
    ap (λ t. if ltb 240 (length (before ++ t)) then before ++ t else long_name ss (before ++ t))
      text
    ∙ ap (λ b. if b then before ++ bytes else long_name ss (before ++ bytes)) short
    ∙ long_name-LongName ss (before ++ bytes) rest more (omega (arith, length-append before bytes))
    ∙ append_assoc before bytes rest
    ∙ ap (λ t. before ++ t) (sym sum)

laid-WellFormed : (ls : List Laid) → AllWellLaid ls → AllWellFormed (map item_of ls)
laid-WellFormed [] h = tt
laid-WellFormed (free s ∷ ls) (w, h) = (w, laid-WellFormed ls h)
laid-WellFormed (short_file name s ∷ ls) ((used, short, _), h) =
    ((used, short), laid-WellFormed ls h)
laid-WellFormed (long_file name last more short ∷ ls) ((used, long, is_last, index, _, _), h) =
    ((used, long, is_last, index), laid-WellFormed ls h)

entries-listing :
    (root sector : ℕ) (ls : List Laid)
    → AllWellLaid ls
    → entries_of root sector (map item_of ls) ≡ listing root sector ls
entries-listing root sector [] h = refl
entries-listing root sector (free s ∷ ls) (w, h) = entries-listing root sector ls h
entries-listing root sector (short_file name s ∷ ls) ((_, _, named_so), h) =
    ap (λ n. file_entry root sector n s ∷ entries_of root sector (map item_of ls))
      (short_name-ShortName s name named_so)
    ∙ ap (λ es. file_entry root sector name s ∷ es) (entries-listing root sector ls h)
entries-listing root sector (long_file name last more short ∷ ls)
      ((_, _, _, _, named_so, small), h) =
    ap (λ n. file_entry root sector n short ∷ entries_of root sector (map item_of ls))
      (long_name-LongName (reverse (last ∷ more)) [] name named_so (omega arith))
    ∙ ap (λ es. file_entry root sector name short ∷ es) (entries-listing root sector ls h)

-- From the slots of a cluster in which files are laid out in any order, with slots not in use
-- between them and an end mark behind them and inside of the cluster, `int_dirent` gives the files
-- in their order, each with its name and the fields of its own slot, and says that it has found the
-- end; what lies behind the end mark does not matter. A short name stands in eight characters and
-- three, each without a blank or a control character at its end and filled up with blanks, and is
-- given in small letters with a dot between them; that of a directory stands in all eleven, and is
-- given without a dot. A long name, of 240 bytes at most, is the low bytes of the
-- characters of its slots, each up to a 0 or 0xFFFF or to its end; the slots stand from the last to
-- the first, in front of the slot of the file, and the first of them says how many they are.
pub int_dirent-listing :
    (root sector sectors_per_cluster : ℕ) (ls : List Laid) (end : Slot) (rest : List Slot)
    → AllWellLaid ls
    → first_byte end ≡ 0
    → length (laid_slots ls) < 16 * sectors_per_cluster
    → int_dirent root sectors_per_cluster sector (laid_slots ls ++ (end ∷ rest))
      ≡ (listing root sector ls, true)
int_dirent-listing root sector per ls end rest h e room =
    int_dirent-slots_of root sector per (map item_of ls) end rest (laid-WellFormed ls h) e room
    ∙ ap (λ es. (es, true)) (entries-listing root sector ls h)
