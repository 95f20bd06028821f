-- ===== src/Directory/Scan.antt =====
-- `int_dirent` reads back a directory that was laid out in slots.
use craft_osos.Base.{
  ℕ, zero, suc, ◌*◌, ◌<◌, ◌≡◌, ◌≢◌, true, false, List, [], ◌∷◌, ◌++◌, length, length-append,
  append_assoc, take, get_or, arith, refl, sym, ap, ◌∙◌,
}
use mathlib.Core.List.{reverse}
use craft_osos.Directory.{
  Slot, Dirent, entry_of, found, short_slot, short_name, long_name, scan, int_dirent,
}

-- What a directory holds, in the order of its slots: a slot that is not in use, a file with its
-- short name alone, and a file with a long name, whose slots are `first ∷ more`.
pub data Item : Type 0 where
  unused : Slot → Item
  plain : Slot → Item
  named : Slot → List Slot → Slot → Item

abbrev pub item_slots : Item → List Slot
item_slots (unused s) = s ∷ []
item_slots (plain s) = s ∷ []
item_slots (named first more short) = first ∷ (more ++ (short ∷ []))

abbrev pub slots_of : List Item → List Slot
slots_of [] = []
slots_of (item ∷ items) = item_slots item ++ slots_of items

abbrev pub first_byte : Slot → ℕ
first_byte s = get_or s.shortname 0 0

-- In use: neither the end mark nor the mark of a deleted entry.
abbrev pub InUse : Slot → Type 0
InUse s = (first_byte s ≢ 0) × (first_byte s ≢ 0xE5)

abbrev pub WellFormed : Item → Type 0
WellFormed (unused s) = first_byte s ≡ 0xE5
WellFormed (plain s) = InUse s × (s.is_longname ≡ false)
WellFormed (named first more short) =
    InUse first
    × (first.is_longname ≡ true)
    × (first.is_last ≡ true)
    × (first.long_index ≡ length (first ∷ more))

abbrev pub AllWellFormed : List Item → Type 0
AllWellFormed [] = Unit {0}
AllWellFormed (item ∷ items) = WellFormed item × AllWellFormed items

take-front : (xs ys : List Slot) → take (length xs) (xs ++ ys) ≡ xs
take-front [] ys = refl
take-front (x ∷ xs) ys = ap (λ l. x ∷ l) (take-front xs ys)

get_or-front :
    (xs : List Slot) (y : Slot) (ys : List Slot) (d : Slot)
    → get_or (xs ++ (y ∷ ys)) (length xs) d ≡ y
get_or-front [] y ys d = refl
get_or-front (x ∷ xs) y ys d = get_or-front xs y ys d

take-past :
    (n : ℕ) (xs : List Slot) (y : Slot) (ys : List Slot)
    → length xs < n
    → (zs : List Slot) × (take n (xs ++ (y ∷ ys)) ≡ xs ++ (y ∷ zs))
take-past zero xs y ys h = absurd (omega arith)
take-past (suc n) [] y ys h = (take n ys, refl)
take-past (suc n) (x ∷ xs) y ys h =
    let (zs, e) = take-past n xs y ys (omega arith) in (zs, ap (λ l. x ∷ l) e)

module _ (root_cluster sector : ℕ) where
  abbrev pub entries_of : List Item → List Dirent
  entries_of [] = []
  entries_of (unused s ∷ items) = entries_of items
  entries_of (plain s ∷ items) = entry_of root_cluster sector (short_name s) s ∷ entries_of items
  entries_of (named first more short ∷ items) =
      entry_of root_cluster sector (long_name (reverse (first ∷ more)) []) short ∷ entries_of items

  -- The equations of one round of the loop.
  scan-end :
      (s : Slot) (rest : List Slot)
      → first_byte s ≡ 0
      → scan root_cluster sector 0 (s ∷ rest) ≡ ([], true)
  unfolding scan
  scan-end s rest e = rw e

  scan-unused :
      (s : Slot) (rest : List Slot)
      → first_byte s ≡ 0xE5
      → scan root_cluster sector 0 (s ∷ rest) ≡ scan root_cluster sector 0 rest
  unfolding scan
  scan-unused s rest e = rw e

  scan-plain :
      (s : Slot) (rest : List Slot)
      → InUse s
      → s.is_longname ≡ false
      → scan root_cluster sector 0 (s ∷ rest)
        ≡ found (entry_of root_cluster sector (short_name s) s) (scan root_cluster sector 0 rest)
  unfolding scan
  scan-plain s rest (used, live) short = ground arith

  scan-named :
      (s : Slot) (rest : List Slot)
      → InUse s
      → s.is_longname ≡ true
      → s.is_last ≡ true
      → s.long_index < length (s ∷ rest)
      → scan root_cluster sector 0 (s ∷ rest)
        ≡ found
            (entry_of root_cluster sector
              (long_name (reverse (take s.long_index (s ∷ rest))) [])
              (short_slot s rest s.long_index))
            (scan root_cluster sector s.long_index rest)
  unfolding scan
  scan-named s rest (used, live) long last inside = ground arith

  scan-skip :
      (skipped rest : List Slot)
      → scan root_cluster sector (length skipped) (skipped ++ rest)
        ≡ scan root_cluster sector 0 rest
  unfolding scan
  scan-skip [] rest = refl
  scan-skip (s ∷ skipped) rest = scan-skip skipped rest

  -- The slots of a long name and the slot behind them.
  scan-item :
      (first : Slot) (more : List Slot) (short : Slot) (rest : List Slot)
      → WellFormed (named first more short)
      → scan root_cluster sector 0 (first ∷ (more ++ (short ∷ rest)))
        ≡ found
            (entry_of root_cluster sector (long_name (reverse (first ∷ more)) []) short)
            (scan root_cluster sector 0 rest)
  scan-item first more short rest (used, long, last, index) =
      let tail = more ++ (short ∷ rest) in
      let name : take first.long_index (first ∷ tail) ≡ first ∷ more =
        ap (λ n. take n (first ∷ tail)) index
        ∙ ap (λ l. first ∷ l) (take-front more (short ∷ rest)) in
      let slot : short_slot first tail first.long_index ≡ short =
        ap (short_slot first tail) index ∙ get_or-front more short rest first in
      let rest_of : scan root_cluster sector first.long_index tail
          ≡ scan root_cluster sector 0 rest =
        ap (λ n. scan root_cluster sector n tail) index
        ∙ ap (λ l. scan root_cluster sector (suc (length more)) l)
            {y = (more ++ (short ∷ [])) ++ rest} (sym (append_assoc more (short ∷ []) rest))
        ∙ ap (λ n. scan root_cluster sector n ((more ++ (short ∷ [])) ++ rest))
            {y = length (more ++ (short ∷ []))} (omega (arith, length-append more (short ∷ [])))
        ∙ scan-skip (more ++ (short ∷ [])) rest in
      scan-named first tail used long last (omega (arith, index, length-append more (short ∷ rest)))
      ∙ rw (name, slot, rest_of)

  scan-slots_of :
      (items : List Item) (end : Slot) (rest : List Slot)
      → AllWellFormed items
      → first_byte end ≡ 0
      → scan root_cluster sector 0 (slots_of items ++ (end ∷ rest)) ≡ (entries_of items, true)
  scan-slots_of [] end rest h e = scan-end end rest e
  scan-slots_of (unused s ∷ items) end rest (u, h) e =
      scan-unused s _ u ∙ scan-slots_of items end rest h e
  scan-slots_of (plain s ∷ items) end rest ((used, short), h) e =
      scan-plain s _ used short
      ∙ ap (found (entry_of root_cluster sector (short_name s) s))
          (scan-slots_of items end rest h e)
  scan-slots_of (named first more short ∷ items) end rest (w, h) e =
      ap (λ l. scan root_cluster sector 0 (first ∷ l))
        (append_assoc (more ++ (short ∷ [])) (slots_of items) (end ∷ rest)
          ∙ append_assoc more (short ∷ []) (slots_of items ++ (end ∷ rest)))
      ∙ scan-item first more short (slots_of items ++ (end ∷ rest)) w
      ∙ ap (found (entry_of root_cluster sector (long_name (reverse (first ∷ more)) []) short))
          (scan-slots_of items end rest h e)

  -- From a cluster that holds files with long and with short names and slots that are not in use,
  -- in any order and followed by an end mark inside of the cluster, `int_dirent` returns exactly
  -- the files, in their order, and that it has found the end. What lies behind the end mark does
  -- not matter.
  pub int_dirent-slots_of :
      (sectors_per_cluster : ℕ) (items : List Item) (end : Slot) (rest : List Slot)
      → AllWellFormed items
      → first_byte end ≡ 0
      → length (slots_of items) < 16 * sectors_per_cluster
      → int_dirent root_cluster sectors_per_cluster sector (slots_of items ++ (end ∷ rest))
        ≡ (entries_of items, true)
  unfolding int_dirent
  int_dirent-slots_of per items end rest h e room =
      let (after, cut) = take-past (16 * per) (slots_of items) end rest room in
      rw cut (scan-slots_of items end after h e)
