-- ===== src/Ide/Registers.antt =====
-- What the controller has in its registers when a transfer begins.
use craft_osos.Base.{
  ℕ, ◌+◌, ◌*◌, ◌/◌, ◌%◌, ◌^◌, ◌≡◌, Bool, true, false, ◌==◌, List, [], ◌∷◌, ◌++◌, arith, refl, ap,
  ◌∙◌, if◌then◌else◌, map, bit_and, ==_iff,
}
use craft_osos.Base.Bits.{bit_and_shifted, bit_and-mask}
use craft_osos.Ide.Io.{
  Hardware, Run, finished, then_run, run, set_drive, set_nbsectors, set_blocknum, set_command,
  set_irq_mode, command_read, command_write,
}
use craft_osos.Ide.Status.{Responsive, run-finishes, port_value}
use craft_osos.Ide.{
  Item, Ide, Given, with_ports, item_transfer, transfer, work_begin_next, begin_queue,
}

-- What has been written to a port last, or else what it held before.
unfoldable pub register : ℕ → List (ℕ × ℕ) → ℕ → ℕ
register port [] held = held
register port ((p, v) ∷ out) held = register port out (if p == port then v else held)

register-append :
    (port : ℕ) (xs ys : List (ℕ × ℕ)) (held : ℕ)
    → register port (xs ++ ys) held ≡ register port ys (register port xs held)
unfolding register
register-append port [] ys held = refl
register-append port ((p, v) ∷ xs) ys held =
    register-append port xs ys (if p == port then v else held)

-- The block that the four registers for its bytes name.
unfoldable pub block_of : List (ℕ × ℕ) → ℕ
unfolding register
block_of out =
    register 0x1F3 out 0
    + 2 ^ 8 * register 0x1F4 out 0
    + 2 ^ 16 * register 0x1F5 out 0
    + 2 ^ 24 * register 0x1F9 out 0

-- A byte of a block number, as the code masks it and shifts it down.
byte_of : (k blk : ℕ) → bit_and blk (255 * 2 ^ k) ≡ blk / 2 ^ k % 256 * 2 ^ k
byte_of k blk = bit_and_shifted k blk 255 ∙ ap (λ b. b * 2 ^ k) (bit_and-mask 8 (blk / 2 ^ k))

bytes-sum :
    (s : ℕ)
    → bit_and s 0xFF
        + 2 ^ 8 * (bit_and s 0xFF00 / 2 ^ 8)
        + 2 ^ 16 * (bit_and s 0xFF0000 / 2 ^ 16)
        + 2 ^ 24 * (bit_and s 0xFF000000 / 2 ^ 24)
      ≡ s % 2 ^ 32
bytes-sum s = omega (arith, bit_and-mask 8 s, byte_of 8 s, byte_of 16 s, byte_of 24 s)

-- The writes of a transfer, at each register.
programmed :
    (i : Item) (out : List (ℕ × ℕ))
    → (block_of (out ++ map port_value (item_transfer i)) ≡ i.sector % 2 ^ 32)
      × (register 0x1F2 (out ++ map port_value (item_transfer i)) 0 ≡ i.total % 256)
      × (register 0x1F7 (out ++ map port_value (item_transfer i)) 0
          ≡ (if i.read then command_read else command_write) % 256)
unfolding block_of register transfer set_drive set_nbsectors set_blocknum set_command set_irq_mode
programmed i out =
    let ws = map port_value (item_transfer i) in
    let s = i.sector in
    let b0 : register 0x1F3 (out ++ ws) 0 ≡ bit_and s 0xFF = register-append 0x1F3 out ws 0 in
    let b1 : register 0x1F4 (out ++ ws) 0 ≡ bit_and s 0xFF00 / 2 ^ 8 =
      register-append 0x1F4 out ws 0 in
    let b2 : register 0x1F5 (out ++ ws) 0 ≡ bit_and s 0xFF0000 / 2 ^ 16 =
      register-append 0x1F5 out ws 0 in
    let b3 : register 0x1F9 (out ++ ws) 0 ≡ bit_and s 0xFF000000 / 2 ^ 24 =
      register-append 0x1F9 out ws 0 in
    (
      omega (arith, b0, b1, b2, b3, bytes-sum s),
      register-append 0x1F2 out ws 0,
      register-append 0x1F7 out ws 0,
    )

small_command :
    (read : Bool)
    → (if read then command_read else command_write) % 256
      ≡ (if read then command_read else command_write)
small_command true = refl
small_command false = refl

module _ (hw : Hardware) (patience : ℕ) (react : ℕ → Given → Ide → Ide) where
  -- When the next request begins, the block registers hold its sector modulo 2 ^ 32, the count
  -- register its number of sectors modulo 256, and the command register the command for a read or
  -- a write. The controller must not stay busy for ever, and nothing of the request has been
  -- transferred.
  pub work_begin_next-registers :
      (i : Item) (rest : List Item) (ide : Ide)
      → Responsive hw patience
      → ide.work_queue ≡ i ∷ rest
      → i.position ≡ 0
      → (after : Ide) × (work_begin_next hw patience react ide ≡ finished after)
        × (block_of (after.ports.out) ≡ i.sector % 2 ^ 32)
        × (register 0x1F2 (after.ports.out) 0 ≡ i.total % 256)
        × (register 0x1F7 (after.ports.out) 0 ≡ (if i.read then command_read else command_write))
  unfolding work_begin_next
  work_begin_next-registers i rest ide responsive queue new =
      let (c, e) = run-finishes hw patience responsive (item_transfer i) (ide.ports) in
      let test : (i.position == 0) ≡ true = (==_iff (i.position) 0).1 new in
      let (block, count, command) = programmed i (ide.ports.out) in
      (
        with_ports ide (record ide.ports {
          clock = c;
          out = ide.ports.out ++ map port_value (item_transfer i);
        }),
        ap (λ q. begin_queue hw patience react q ide) queue
            ∙ ap
                (λ b.
                  if b
                  then then_run (run hw patience (item_transfer i) (ide.ports))
                      (λ p. finished (with_ports ide p))
                  else Run.crashed)
                test
            ∙ ap (λ r. then_run r (λ p. finished (with_ports ide p))) e,
        block,
        count,
        command ∙ small_command (i.read),
      )
