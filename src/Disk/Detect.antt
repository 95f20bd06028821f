-- ===== src/Disk/Detect.antt =====
-- Which partition `init_fs` chooses.
use craft_osos.Base.{
  ℕ, zero, suc, ◌+◌, ◌≡◌, Bool, true, false, none, some, List, [], ◌∷◌, ◌++◌, length, take,
  get_elem?, ◌==◌, arith, refl, ap, ◌∙◌,
}
use craft_osos.Fat.{Bpb, Device, init}
use craft_osos.Disk.{
  Entry, vbr, started, no_mbr, not_mounted, entry_in_use, first_in_use, has_fat, on_entry,
  internal_init, init_fs_at, init_fs, on_place, on_sector,
}

abbrev pub Unused : List Entry → Type 0
Unused [] = Unit {0}
Unused (p ∷ ps) = (entry_in_use p ≡ false) × Unused ps

first_in_use-append :
    (i : ℕ) (before : List Entry) (p : Entry) (after : List Entry)
    → Unused before
    → entry_in_use p ≡ true
    → first_in_use i (before ++ (p ∷ after)) ≡ some (i + length before)
unfolding first_in_use
first_in_use-append i [] p after h used = rw used (ap some (omega arith))
first_in_use-append i (q ∷ before) p after (free, h) used =
    rw free (first_in_use-append (suc i) before p after h used ∙ ap some (omega arith))

first_in_use-none : (i : ℕ) (ps : List Entry) → Unused ps → first_in_use i ps ≡ none
unfolding first_in_use
first_in_use-none i [] h = refl
first_in_use-none i (p ∷ ps) (free, h) = rw free (first_in_use-none (suc i) ps h)

get_elem?-at :
    (before : List Entry) (p : Entry) (after : List Entry)
    → get_elem? (before ++ (p ∷ after)) (length before) ≡ some p
get_elem?-at [] p after = refl
get_elem?-at (q ∷ before) p after = get_elem?-at before p after

take-all : (n : ℕ) (ps : List Entry) → length ps ≡ n → take n ps ≡ ps
take-all zero [] h = refl
take-all (suc n) [] h = absurd (omega arith)
take-all zero (p ∷ ps) h = absurd (omega arith)
take-all (suc n) (p ∷ ps) h = ap (λ l. p ∷ l) (take-all n ps (omega arith))

in_use-sectors : (p : Entry) → entry_in_use p ≡ true → (p.sectors == 0) ≡ false
in_use-sectors p h = ground arith

module _ (bpb_of : List ℕ → Bpb) (entries_of : List ℕ → List Entry) (device : Device) (size : ℕ)
    (bytes : List ℕ) (answer : device 0 1 ≡ some bytes) (no_fat : has_fat (bpb_of bytes) ≡ false)
    (four : length (entries_of bytes) ≡ 4) where
  init_fs-choice :
      (ready : Bool)
      → init_fs bpb_of entries_of device size ready
        ≡ on_place bpb_of entries_of device size ready (first_in_use 0 (entries_of bytes))
  unfolding init_fs
  init_fs-choice ready =
      rw (answer, no_fat)
        (ap (λ l. on_place bpb_of entries_of device size ready (first_in_use 0 l))
          (take-all 4 (entries_of bytes) four))

  init_at :
      (i : ℕ) (p : Entry)
      → get_elem? (entries_of bytes) i ≡ some p
      → (p.sectors == 0) ≡ false
      → init_fs_at bpb_of entries_of device size (vbr i)
        ≡ started (init bpb_of device p.lba_begin p.sectors)
  unfolding init_fs_at internal_init
  init_at i p at some_size =
      ap
        (λ o. on_sector o no_mbr (λ bs.
          on_entry (get_elem? (entries_of bs) i)
            (λ q. started (init bpb_of device q.lba_begin q.sectors))))
        answer
      ∙ ap (λ o. on_entry o (λ q. started (init bpb_of device q.lba_begin q.sectors))) at
      ∙ rw some_size

  -- On a disk whose first sector is no FAT volume, `init_fs` initialises FAT on the first of the
  -- four partitions that is in use, by its start and its size, as the call for that partition does;
  -- the assertion on its size holds.
  pub init_fs-detects :
      (ready : Bool) (before : List Entry) (p : Entry) (after : List Entry)
      → entries_of bytes ≡ before ++ (p ∷ after)
      → Unused before
      → entry_in_use p ≡ true
      → (init_fs bpb_of entries_of device size ready
          ≡ started (init bpb_of device p.lba_begin p.sectors))
        × (init_fs_at bpb_of entries_of device size (vbr (length before))
            ≡ started (init bpb_of device p.lba_begin p.sectors))
  unfolding init_fs_at
  init_fs-detects ready before p after at free used =
      let place : get_elem? (entries_of bytes) (length before) ≡ some p =
        ap (λ l. get_elem? l (length before)) at ∙ get_elem?-at before p after in
      let chosen = init_at (length before) p place (in_use-sectors p used) in
      (
        init_fs-choice ready
            ∙ ap (λ l. on_place bpb_of entries_of device size ready (first_in_use 0 l)) at
            ∙ ap (on_place bpb_of entries_of device size ready) (
                first_in_use-append 0 before p after free used
                ∙ ap some {x = 0 + length before} (omega arith))
            ∙ chosen,
        chosen,
      )

  -- On a disk whose first sector is no FAT volume, with none of the four partitions in use and no
  -- file system before, `init_fs` throws `Err_not_mounted`.
  pub init_fs-not_mounted :
      Unused (entries_of bytes) → init_fs bpb_of entries_of device size false ≡ not_mounted
  init_fs-not_mounted free =
      init_fs-choice false
      ∙ ap (on_place bpb_of entries_of device size false)
          (first_in_use-none 0 (entries_of bytes) free)
