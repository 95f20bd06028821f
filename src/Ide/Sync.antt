-- ===== src/Ide/Sync.antt =====
-- includeos-patch/ide.cpp: the functions that wait for the disk, and the set-up of the driver.
use craft_osos.Base.{
  ℕ, zero, suc, ◌+◌, ◌-◌, ◌*◌, ◌/◌, ◌%◌, ◌^◌, ◌<◌, ◌≡◌, Bool, true, false, not, ◌||◌, ltb, leb,
  ◌==◌, if◌then◌else◌, Option, none, some, List, [], ◌++◌, length, take, bit_and, bit_or, arith,
  sym, ap, ◌∙◌, append_assoc, append-nil, map,
}
use craft_osos.Ide.Io.{
  Hardware, Ports, Run, finished, crashed, then_run, run, wait_status_flags, set_irq_mode,
  set_drive, set_nbsectors, set_blocknum, set_command, drdy, outw_all, read_bytes, words_of, u64,
  command_read, command_write, command_identify,
}
use craft_osos.Ide.Status.{Responsive, wait-finishes, run-finishes, port_value}
use craft_osos.Ide.Buffers.{read_bytes-append, if_false}
use craft_osos.Ide.{Ide, sector_size, sector_array, transfer, with_ports}

-- `read_array` of the constructor, by index.
unfoldable pub capability : Hardware → Ports → ℕ → ℕ
capability hw p i = hw.words (p.taken + i) % 2 ^ 16

-- An `int` that is stored in 64 bits without sign.
unfoldable pub sign_extended : ℕ → ℕ
sign_extended x = if ltb x (2 ^ 31) then x else x + 2 ^ 64 - 2 ^ 32

unfoldable pub capacity : Hardware → Ports → ℕ
unfolding capability sign_extended
capacity hw p =
    let w = capability hw p in
    let command_sets = bit_or (w 82) (w 83 * 2 ^ 16) in
    if bit_and command_sets (2 ^ 26) == 0
    then sign_extended (bit_or (w 61 * 2 ^ 16) (w 60))
    else sign_extended (bit_or (w 101 * 2 ^ 16) (w 100))

not_behind : (n blk : ℕ) → blk < n → leb n blk ≡ false
not_behind n blk h = ground arith

-- What `PCI::VENDOR_INTEL` and `IDE_PRODUCT_ID` are compared with.
pub record PciDevice : Type 0 where
  pub vendor_id : ℕ
  pub product_id : ℕ

module _ (hw : Hardware) (patience : ℕ) where
  abbrev pub identified : ℕ → Ports → Run Ide
  identified drive_id p =
      let status = hw.status (p.clock) in
      if status == 0
      then crashed
      else then_run (wait_status_flags hw patience drdy false (record p { clock = suc (p.clock) }))
          (λ q. finished (record {
            drive_id = drive_id;
            num_blocks = capacity hw q;
            work_queue = [];
            ports = record q { taken = q.taken + sector_array };
            calls = [];
          }))

  -- The constructor of IDE.
  unfoldable pub new_ide : ℕ → PciDevice → ℕ → Ports → Run Ide
  new_ide intel pci sel p =
      let drive_id = sel % 256 in
      if not (pci.vendor_id == intel) || not (pci.product_id == 0x7010)
      then crashed
      else then_run
          (run hw patience
            (set_irq_mode false
              ++ (set_drive (bit_or 160 drive_id)
                  ++ (set_nbsectors 0 ++ (set_blocknum 0 ++ set_command command_identify))))
            p)
          (identified drive_id)

  -- The loop of `read_sync`, with the buffer so far.
  unfoldable pub sync_loop : ℕ → Ports → List ℕ → Run (List ℕ × Ports)
  sync_loop zero p data_read = finished (data_read, p)
  sync_loop (suc count) p data_read = then_run (wait_status_flags hw patience drdy false p) (λ q.
      sync_loop count (record q { taken = q.taken + sector_array })
        (data_read ++ read_bytes hw (q.taken) sector_array))

  -- `read_sync(blk, cnt)`
  unfoldable pub read_sync : ℕ → ℕ → Ide → Run (Option (List ℕ) × Ide)
  unfolding sync_loop
  read_sync blk cnt ide =
      if leb (ide.num_blocks) blk
      then finished (none, ide)
      else then_run
          (run hw patience (transfer false (ide.drive_id) blk cnt command_read) (ide.ports))
          (λ p. then_run (sync_loop cnt p []) (λ r. finished (some (r.0), with_ports ide (r.1))))

  -- `write_sync(blk, buffer)`: whether it failed.
  unfoldable pub write_sync : ℕ → List ℕ → Ide → Run (Bool × Ide)
  write_sync blk buf ide =
      let total = length buf / sector_size % 2 ^ 32 in
      if ltb (ide.num_blocks) (u64 (blk + length buf / sector_size))
      then finished (true, ide)
      else then_run
          (run hw patience (transfer false (ide.drive_id) blk total command_write) (ide.ports))
          (λ p.
            finished
              (false, with_ports ide (outw_all (take (total * sector_array) (words_of buf)) p)))

  module _ (responsive : Responsive hw patience) where
    loop-reads :
        (count : ℕ) (p : Ports) (data_read : List ℕ)
        → (q : Ports) × (q.taken ≡ p.taken + sector_array * count)
          × (sync_loop count p data_read
              ≡ finished (data_read ++ read_bytes hw (p.taken) (sector_array * count), q))
    unfolding sync_loop read_bytes
    loop-reads zero p data_read =
        (p, omega arith, ap (λ l. finished (l, p)) (sym (append-nil data_read)))
    loop-reads (suc count) p data_read =
        let (c, waits) = wait-finishes hw patience responsive drdy false p in
        let sector = read_bytes hw (p.taken) sector_array in
        let next : Ports = record p { clock = c; taken = p.taken + sector_array } in
        let (q, after, loop) = loop-reads count next (data_read ++ sector) in
        (
          q,
          omega arith,
          ap
                (λ r. then_run r (λ q.
                  sync_loop count (record q { taken = q.taken + sector_array })
                    (data_read ++ read_bytes hw (q.taken) sector_array)))
                waits
              ∙ loop
              ∙ ap (λ l. finished (l, q))
                  (append_assoc data_read sector
                      (read_bytes hw (p.taken + sector_array) (sector_array * count))
                    ∙ ap (λ l. data_read ++ l)
                        (sym (read_bytes-append hw (p.taken) sector_array (sector_array * count))
                          ∙ ap (read_bytes hw (p.taken)) {x = sector_array + sector_array * count}
                              {y = sector_array * suc count} (omega arith))),
        )

    -- `read_sync` from any sector of the disk gives the next words of the data port for all the sectors
    -- that it is asked for: only the first of them is compared with the size of the disk. The
    -- controller must not stay busy for ever.
    pub read_sync-reads :
        (blk cnt : ℕ) (ide : Ide)
        → blk < ide.num_blocks
        → (q : Ports) × (q.taken ≡ ide.ports.taken + sector_array * cnt)
          × (read_sync blk cnt ide
              ≡ finished
                  (some (read_bytes hw (ide.ports.taken) (sector_array * cnt)), with_ports ide q))
    unfolding read_sync
    read_sync-reads blk cnt ide inside =
        let ws = transfer false (ide.drive_id) blk cnt command_read in
        let (c, e) = run-finishes hw patience responsive ws (ide.ports) in
        let p : Ports = record ide.ports { clock = c; out = ide.ports.out ++ map port_value ws } in
        let (q, taken, loop) = loop-reads cnt p [] in
        let test : leb (ide.num_blocks) blk ≡ false = not_behind (ide.num_blocks) blk inside in
        (
          q,
          taken,
          if_false (leb (ide.num_blocks) blk) _ _ test
              ∙ ap
                  (λ r. then_run r (λ p.
                    then_run (sync_loop cnt p [])
                      (λ r. finished (some (r.0), with_ports ide (r.1)))))
                  e
              ∙ ap (λ r. then_run r (λ r. finished (some (r.0), with_ports ide (r.1)))) loop,
        )
