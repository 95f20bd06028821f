-- ===== src/Ide.antt =====
-- includeos-patch/ide.cpp: the driver of an IDE disk, with its queue of reads and writes.
mod Tests
pub mod Io
pub mod Status
pub mod Buffers
pub mod Serve
pub mod Registers
pub mod Requests
pub mod Answers
pub mod Sync
use craft_osos.Base.{
  ℕ, zero, suc, ◌+◌, ◌-◌, ◌*◌, ◌/◌, ◌%◌, ◌^◌, Bool, true, false, not, ◌&&◌, ◌||◌, ltb, leb, ◌==◌,
  if◌then◌else◌, Option, none, some, List, [], ◌∷◌, ◌++◌, length, take, drop, replicate, get_or,
  map, bit_and, bit_or, min,
}
use craft_osos.Ide.Io.{
  Ports, Write, Run, finished, crashed, endless, then_run, Hardware, run, wait_status_flags,
  set_irq_mode, set_drive, set_nbsectors, set_blocknum, set_command, drdy, outw_all, read_bytes,
  words_of, u64, command_read, command_write, command_identify,
}

-- The argument of a callback: the buffer of a read, `nullptr`, or the error flag of a write.
pub data Given : Type 0 where
  buffer : List ℕ → Given
  null : Given
  error_flag : Bool → Given

-- A `workq_item`. Callbacks have numbers; a buffer is the list of its bytes.
pub record Item : Type 0 where
  drive_id : ℕ
  read : Bool
  sector : ℕ
  position : ℕ
  total : ℕ
  buffer : List ℕ
  call : ℕ

-- The driver, the global `work_queue`, and the calls of callbacks so far.
pub record Ide : Type 0 where
  drive_id : ℕ
  num_blocks : ℕ
  work_queue : List Item
  ports : Ports
  calls : List (ℕ × Given)

abbrev pub sector_size : ℕ
sector_size = 512

abbrev pub sector_array : ℕ
sector_array = 256

-- The constructors of `workq_item`: `total` has 32 bits, and so has the size of the buffer.
unfoldable pub read_item : ℕ → ℕ → ℕ → ℕ → Item
read_item id blk cnt call =
    let total = cnt % 2 ^ 32 in
    record {
      drive_id = id;
      read = true;
      sector = blk;
      position = 0;
      total = total;
      buffer = replicate (total * sector_size % 2 ^ 32) 0;
      call = call;
    }

unfoldable pub write_item : ℕ → ℕ → List ℕ → ℕ → Run Item
write_item id blk buf call =
    if length buf % sector_size == 0
    then finished (record {
      drive_id = id;
      read = false;
      sector = blk;
      position = 0;
      total = length buf / sector_size % 2 ^ 32;
      buffer = buf;
      call = call;
    })
    else crashed

-- The drive register: the bits 24 to 27 of the sector are in it too.
abbrev pub drive_of : ℕ → ℕ → ℕ
drive_of id blk = bit_or (bit_or 224 id) (bit_and (blk / 2 ^ 24) 15)

-- What the functions write to start a transfer, each write behind a wait for the status.
unfoldable pub transfer : Bool → ℕ → ℕ → ℕ → ℕ → List Write
transfer irq id blk count command =
    set_irq_mode irq
    ++ (set_drive (drive_of id blk)
        ++ (set_nbsectors count ++ (set_blocknum blk ++ set_command command)))

abbrev pub item_transfer : Item → List Write
item_transfer i =
    transfer true (i.drive_id) (i.sector) (i.total) (if i.read then command_read else command_write)

-- The call of a callback: the callback is called in this state.
abbrev pub called : ℕ → Given → Ide → Ide
called call given ide = record ide { calls = ide.calls ++ ((call, given) ∷ []) }

abbrev pub with_ports : Ide → Ports → Ide
with_ports ide p = record ide { ports = p }

abbrev pub with_item : Item → List Item → Ide → Ide
with_item i rest ide = record ide { work_queue = i ∷ rest }

abbrev pub popped : List Item → Ide → Ide
popped rest ide = record ide { work_queue = rest }

-- A sector of the item in front: the bytes that it gets from the data port or gives to it.
-- `current()` throws outside of the buffer.
unfoldable pub store : ℕ → List ℕ → List ℕ → List ℕ
store position sector buf =
    take (position * sector_size) buf ++ (sector ++ drop (suc position * sector_size) buf)

abbrev pub next_position : Item → List ℕ → Item
next_position i buf = record i { position = suc (i.position); buffer = buf }

abbrev pub given_of : Item → Given
given_of i = if i.read then Given.buffer (i.buffer) else error_flag false

abbrev pub transfer_sector : Hardware → Item → Ports → Item × Ports
transfer_sector hw i p =
    if i.read
    then (
      next_position i (store (i.position) (read_bytes hw (p.taken) sector_array) (i.buffer)),
      record p { taken = p.taken + sector_array },
    )
    else (
      next_position i (i.buffer),
      outw_all (words_of (take sector_size (drop (i.position * sector_size) (i.buffer)))) p,
    )

module _ (hw : Hardware) (patience : ℕ) (react : ℕ → Given → Ide → Ide) where
  -- `callback(...)`; what a callback does with the driver is a parameter.
  abbrev pub callback : ℕ → Given → Ide → Ide
  callback call given ide = react call given (called call given ide)

  abbrev pub begin_queue : List Item → Ide → Run Ide
  begin_queue [] ide = finished ide
  begin_queue (i ∷ rest) ide =
      if i.position == 0
      then then_run (run hw patience (item_transfer i) (ide.ports))
          (λ p. finished (with_ports ide p))
      else crashed

  unfoldable pub work_begin_next : Ide → Run Ide
  work_begin_next ide = begin_queue (ide.work_queue) ide

  -- `work_queue.emplace_back(...)` and the start of the work if nothing else is under way.
  unfoldable pub enqueue : Item → Ide → Run Ide
  unfolding work_begin_next
  enqueue i ide =
      let more = record ide { work_queue = ide.work_queue ++ (i ∷ []) } in
      if length (ide.work_queue ++ (i ∷ [])) == 1 then work_begin_next more else finished more

  unfoldable pub read : ℕ → ℕ → ℕ → Ide → Run Ide
  unfolding enqueue
  read blk count call ide =
      if leb (ide.num_blocks) (u64 (blk + count)) || count == 0
      then finished (callback call null ide)
      else enqueue (read_item (ide.drive_id) blk count call) ide

  unfoldable pub write : ℕ → List ℕ → ℕ → Ide → Run Ide
  unfolding enqueue
  write blk buf call ide =
      if ltb (ide.num_blocks) (u64 (blk + length buf / sector_size))
      then finished (callback call (error_flag true) ide)
      else then_run (write_item (ide.drive_id) blk buf call) (λ i. enqueue i ide)

  -- The end of a round: the item goes on, or it is done and the next one begins.
  abbrev pub ship : List Item → Ide → Item × Ports → Run Ide
  ship rest ide (i, p) =
      if i.position == i.total
      then work_begin_next (callback (i.call) (given_of i) (popped rest (with_ports ide p)))
      else finished (with_item i rest (with_ports ide p))

  -- A round of the loop of `irq_handler`.
  unfoldable pub irq_round : Item → List Item → Ide → Run Ide
  unfolding work_begin_next store
  irq_round i rest ide = then_run (wait_status_flags hw patience drdy false (ide.ports)) (λ p.
      if leb (i.position * sector_size + sector_size) (length (i.buffer))
      then ship rest ide (transfer_sector hw i p)
      else crashed)

  unfoldable pub irq_loop : ℕ → List Item → Ide → Run Ide
  unfolding irq_round
  irq_loop rounds [] ide = finished ide
  irq_loop zero (i ∷ rest) ide = endless
  irq_loop (suc rounds) (i ∷ rest) ide =
      then_run (irq_round i rest ide) (λ after. irq_loop rounds (after.work_queue) after)

  unfoldable pub irq_handler : ℕ → Ide → Run Ide
  unfolding irq_loop
  irq_handler rounds ide = irq_loop rounds (ide.work_queue) ide
