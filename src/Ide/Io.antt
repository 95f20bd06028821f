-- ===== src/Ide/Io.antt =====
-- includeos-patch/ide.cpp: the ports of the controller, and the waits for its status.
use craft_osos.Base.{
  ℕ, zero, suc, ◌+◌, ◌*◌, ◌/◌, ◌%◌, ◌^◌, Bool, true, false, not, ◌==◌, if◌then◌else◌, List, [], ◌∷◌,
  ◌++◌, map, bit_and,
}

-- The controller: what the n-th read of its status and of its data port gives.
pub record Hardware : Type 0 where
  pub status : ℕ → ℕ
  pub words : ℕ → ℕ

-- How often the status and the data port have been read, and what has been written to which port.
pub record Ports : Type 0 where
  pub clock : ℕ
  pub taken : ℕ
  pub out : List (ℕ × ℕ)

-- A call ends, fails an assertion or throws, or waits for the controller or loops for longer than
-- its fuel.
pub data Run (A : Type 0) : Type 0 where
  finished : A → Run A
  crashed : Run A
  endless : Run A

abbrev pub then_run : {A B : Type 0} → Run A → (A → Run B) → Run B
then_run (finished a) next = next a
then_run crashed next = crashed
then_run endless next = endless

abbrev pub u64 : ℕ → ℕ
u64 n = n % 2 ^ 64

abbrev pub drq : ℕ
drq = 8

abbrev pub drdy : ℕ
drdy = 64

abbrev pub busy : ℕ
busy = 128

abbrev pub time_limit : ℕ
time_limit = 2048

abbrev pub command_read : ℕ
command_read = 0x20

abbrev pub command_write : ℕ
command_write = 0x30

abbrev pub command_identify : ℕ
command_identify = 0xEC

-- A wait for flags and then `outb(port, value)`.
pub record Write : Type 0 where
  pub flags : ℕ
  pub set : Bool
  pub port : ℕ
  pub value : ℕ

abbrev pub outb_drq : ℕ → ℕ → Write
outb_drq port value = record { flags = drq; set = true; port = port; value = value }

abbrev pub outb_ready : ℕ → ℕ → Write
outb_ready port value = record { flags = drdy; set = false; port = port; value = value }

unfoldable pub set_drive : ℕ → List Write
set_drive drive = outb_drq 0x1F6 (drive % 256) ∷ []

unfoldable pub set_nbsectors : ℕ → List Write
set_nbsectors cnt = outb_drq 0x1F2 (cnt % 256) ∷ []

unfoldable pub set_blocknum : ℕ → List Write
set_blocknum blk =
    outb_drq 0x1F3 (bit_and blk 0xFF)
    ∷ outb_drq 0x1F4 (bit_and blk 0xFF00 / 2 ^ 8)
    ∷ outb_drq 0x1F5 (bit_and blk 0xFF0000 / 2 ^ 16)
    ∷ outb_drq 0x1F8 1
    ∷ outb_drq 0x1F9 (bit_and blk 0xFF000000 / 2 ^ 24)
    ∷ outb_drq 0x1FA 0
    ∷ outb_drq 0x1FB 0
    ∷ []

unfoldable pub set_command : ℕ → List Write
set_command command = outb_ready 0x1F7 (command % 256) ∷ []

unfoldable pub set_irq_mode : Bool → List Write
set_irq_mode on = outb_ready 0x3F6 (if on then 0 else 1) ∷ []

-- The two bytes of each word that `inw(IDE_DATA)` gives, from the n-th on.
unfoldable pub read_bytes : Hardware → ℕ → ℕ → List ℕ
read_bytes hw n zero = []
read_bytes hw n (suc count) =
    (hw.words n % 256) ∷ (hw.words n / 256 % 256) ∷ read_bytes hw (suc n) count

-- The words of a buffer, as they lie in memory.
unfoldable pub words_of : List ℕ → List ℕ
words_of (low ∷ high ∷ bytes) = (low + 256 * high) ∷ words_of bytes
words_of _ = []

-- `outw(IDE_DATA, ...)` of each word.
abbrev pub outw_all : List ℕ → Ports → Ports
outw_all ws p = record p { out = p.out ++ map (λ w. (0x1F0, w)) ws }

abbrev pub outb : Write → Ports → Ports
outb w p = record p { out = p.out ++ ((w.port, w.value) ∷ []) }

module _ (hw : Hardware) where
  -- `spinwait_status_busy`, with fuel.
  unfoldable pub spinwait_status_busy : ℕ → ℕ → Run ℕ
  spinwait_status_busy zero clock = endless
  spinwait_status_busy (suc fuel) clock =
      let rest = spinwait_status_busy fuel (suc clock) in
      if bit_and (hw.status clock) busy == busy then rest else finished (suc clock)

  abbrev pub flags_are : ℕ → Bool → ℕ → Bool
  flags_are flags set ret = let hit = bit_and ret flags == flags in if set then hit else not hit

  unfoldable pub timeout_loop : ℕ → ℕ → Bool → ℕ → ℕ
  timeout_loop zero flags set clock = clock
  timeout_loop (suc i) flags set clock =
      let rest = timeout_loop i flags set (suc clock) in
      if flags_are flags set (hw.status clock) then suc clock else rest

module _ (hw : Hardware) (patience : ℕ) where
  unfoldable pub wait_status_flags : ℕ → Bool → Ports → Run Ports
  wait_status_flags flags set p =
      then_run (spinwait_status_busy hw patience (p.clock))
        (λ clock. finished (record p { clock = timeout_loop hw time_limit flags set clock }))

  unfoldable pub run : List Write → Ports → Run Ports
  run [] p = finished p
  run (w ∷ writes) p = then_run (wait_status_flags (w.flags) (w.set) p) (λ q. run writes (outb w q))
