-- ===== src/Ide/Tests.antt =====
-- Tests and examples of the IDE driver.
use craft_osos.Base.{ℕ, ◌+◌, ◌-◌, ◌*◌, ◌%◌, ◌^◌, ◌≡◌, false, [], ◌∷◌, ◌++◌, arith, refl, replicate}
use craft_osos.Ide.Io.{Hardware, Ports, finished, then_run, read_bytes, command_read}
use craft_osos.Ide.Status.{Responsive}
use craft_osos.Ide.Serve.{Ready, served, sectors_left, irq_handler-served}
use craft_osos.Ide.Registers.{block_of, register, work_begin_next-registers}
use craft_osos.Ide.Requests.{requests-Ready}
use craft_osos.Ide.Answers.{words_ahead, read-served}
use craft_osos.Ide.Sync.{sign_extended}
use craft_osos.Ide.{
  Item, Ide, Given, read, write, read_item, irq_handler, work_begin_next, sector_array,
}

abbrev controller : Hardware
controller = record { status = λ n. 0x50; words = λ n. n }

abbrev responsive : Responsive controller 1
responsive n = (0, omega arith, refl)

abbrev leave_alone : ℕ → Given → Ide → Ide
leave_alone call given ide = ide

abbrev ports : Ports
ports = record { clock = 0; taken = 3; out = [] }

abbrev idle : Ide
idle = record { drive_id = 0; num_blocks = 100; work_queue = []; ports = ports; calls = [] }

-- A write of two sectors, the second of which is still to be written.
abbrev half_written : Item
half_written = record {
  drive_id = 0;
  read = false;
  sector = 9;
  position = 1;
  total = 2;
  buffer = replicate 1024 7;
  call = 4;
}

abbrev working : Ide
working = record idle { work_queue = half_written ∷ [] }

-- A capacity of 2 ^ 31 sectors.
half_of_all_sectors : sign_extended (2 ^ 31) ≡ 2 ^ 64 - 2 ^ 31
unfolding sign_extended
half_of_all_sectors = refl

irq_handler-served_example :
    (after : Ide) × (irq_handler controller 1 leave_alone 1 working ≡ finished after)
    × (after.work_queue ≡ [])
    × (after.calls ≡ [] ++ served controller 3 (half_written ∷ []))
unfolding sectors_left
irq_handler-served_example =
    irq_handler-served controller 1 responsive leave_alone (λ call given ide. refl) 1 working
      ((omega arith, refl), tt) (omega arith)

work_begin_next-registers_example :
    (after : Ide) × (work_begin_next controller 1 leave_alone
        (record idle { work_queue = read_item 0 0x1020304 5 1 ∷ [] })
      ≡ finished after)
    × (block_of (after.ports.out) ≡ 0x1020304 % 2 ^ 32)
    × (register 0x1F2 (after.ports.out) 0 ≡ 5 % 256)
    × (register 0x1F7 (after.ports.out) 0 ≡ command_read)
unfolding read_item
work_begin_next-registers_example =
    work_begin_next-registers controller 1 leave_alone (read_item 0 0x1020304 5 1) []
      (record idle { work_queue = read_item 0 0x1020304 5 1 ∷ [] }) responsive refl refl

read-served_example :
    (after : Ide) × (then_run
        (read controller 1 leave_alone 20 2 6 working)
        (irq_handler controller 1 leave_alone 3)
      ≡ finished after)
    × (after.work_queue ≡ [])
    × (after.calls
        ≡ []
          ++ (served controller 3 (half_written ∷ [])
              ++ ((
                6,
                Given.buffer (
                    read_bytes controller (3 + words_ahead (half_written ∷ [])) (sector_array * 2)),
              )
                  ∷ [])))
unfolding sectors_left
read-served_example =
    read-served controller 1 leave_alone responsive 20 2 6 3 working (λ call given ide. refl)
      (omega arith) (omega arith) (omega arith) (omega arith) ((omega arith, refl), tt)
      (omega arith)

requests-Ready_example :
    ((after : Ide) × (read controller 1 leave_alone 20 2 6 working ≡ finished after)
      × Ready (after.work_queue))
    × ((after : Ide) × (write controller 1 leave_alone 20 (replicate 512 1) 6 working
          ≡ finished after)
        × Ready (after.work_queue))
requests-Ready_example =
    requests-Ready controller 1 leave_alone responsive 20 2 6 (replicate 512 1) working
      (λ call given ide h. h) (omega arith) refl (omega arith) (omega arith)
      ((omega arith, refl), tt)
