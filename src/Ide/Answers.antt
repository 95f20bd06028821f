-- ===== src/Ide/Answers.antt =====
-- What an accepted read comes to: the interrupt answers it with the words of its sectors.
use craft_osos.Base.{
  ℕ, ◌+◌, ◌-◌, ◌*◌, ◌%◌, ◌^◌, ◌≤◌, ◌<◌, ◌≡◌, List, [], ◌∷◌, ◌++◌, arith, refl, ap, ◌∙◌,
}
use craft_osos.Ide.Io.{Hardware, finished, then_run, read_bytes}
use craft_osos.Ide.Status.{Responsive}
use craft_osos.Ide.Buffers.{words_left, result_of}
use craft_osos.Ide.Serve.{Ready, served, sectors_left, irq_handler-served}
use craft_osos.Ide.{Item, Ide, Given, with_ports, sector_array, read_item, read, irq_handler}
use craft_osos.Ide.Requests.{queued, read_item-Sized, Ready-append, read_queued}

-- The words that the reads of a queue are still to get.
unfoldable pub words_ahead : List Item → ℕ
words_ahead [] = 0
words_ahead (i ∷ rest) = words_left i + words_ahead rest

sectors_left-append :
    (items : List Item) (i : Item)
    → sectors_left (items ++ (i ∷ [])) ≡ sectors_left items + (i.total - i.position)
unfolding sectors_left
sectors_left-append [] i = omega arith
sectors_left-append (j ∷ items) i = omega (arith, sectors_left-append items i)

served-append :
    (hw : Hardware) (n : ℕ) (items : List Item) (i : Item)
    → served hw n (items ++ (i ∷ []))
      ≡ served hw n items ++ ((i.call, result_of hw (n + words_ahead items) i) ∷ [])
unfolding served words_ahead
served-append hw n [] i =
    ap (λ m. (i.call, result_of hw m i) ∷ []) {x = n} {y = n + 0} (omega arith)
served-append hw n (j ∷ items) i =
    ap (λ l. (j.call, result_of hw n j) ∷ l)
      (served-append hw (n + words_left j) items i
        ∙ ap (λ m. served hw (n + words_left j) items ++ ((i.call, result_of hw m i) ∷ []))
            {x = n + words_left j + words_ahead items} {y = n + (words_left j + words_ahead items)}
            (omega arith))

-- A read that has just been made gives all the words of its sectors.
whole_result :
    (hw : Hardware) (n id blk count call : ℕ)
    → count < 2 ^ 23
    → result_of hw n (read_item id blk count call)
      ≡ Given.buffer (read_bytes hw n (sector_array * count))
unfolding read_item
whole_result hw n id blk count call few =
    ap (λ k. Given.buffer (read_bytes hw n (sector_array * k))) {x = count % 2 ^ 32 - 0} {y = count}
      (omega arith)

module _ (hw : Hardware) (patience : ℕ) (react : ℕ → Given → Ide → Ide)
    (responsive : Responsive hw patience) where
  -- A read inside of the disk, but not up to its end, is answered by the next interrupt, behind all
  -- that was in the queue: its callback is the last that is called, once, with the words of the data
  -- port that follow those of the reads ahead of it. The controller does not stay busy for ever: each
  -- time that its status is polled it is ready within the number of polls given. The read is of at
  -- least one sector and of less than 2 ^ 23, the disk has less than 2 ^ 64, the queue is well formed,
  -- and the callbacks leave the driver alone; as many rounds as there are sectors in the queue and in
  -- the read are enough.
  pub read-served :
      (blk count call rounds : ℕ) (ide : Ide)
      → ((call : ℕ) (given : Given) (ide : Ide) → react call given ide ≡ ide)
      → blk + count < ide.num_blocks
      → ide.num_blocks < 2 ^ 64
      → 0 < count
      → count < 2 ^ 23
      → Ready (ide.work_queue)
      → sectors_left (ide.work_queue) + count ≤ rounds
      → (after : Ide) × (then_run
            (read hw patience react blk count call ide)
            (irq_handler hw patience react rounds)
          ≡ finished after)
        × (after.work_queue ≡ [])
        × (after.calls
            ≡ ide.calls
              ++ (served hw (ide.ports.taken) (ide.work_queue)
                  ++ ((
                    call,
                    Given.buffer (
                        read_bytes hw
                          (ide.ports.taken + words_ahead (ide.work_queue))
                          (sector_array * count)),
                  )
                      ∷ [])))
  unfolding read_item
  read-served blk count call rounds ide quiet inside small some_sectors few ready enough =
      let i = read_item (ide.drive_id) blk count call in
      let items = ide.work_queue in
      let sized = read_item-Sized (ide.drive_id) blk count call some_sectors few in
      let (p, same, e) =
        read_queued hw patience react responsive blk count call ide inside small some_sectors few
          ready in
      let (after, done, empty, calls) =
        irq_handler-served hw patience responsive react quiet rounds (with_ports (queued i ide) p)
          (Ready-append items i ready sized refl) (omega (arith, sectors_left-append items i)) in
      (
        after,
        ap (λ r. then_run r (irq_handler hw patience react rounds)) e ∙ done,
        empty,
        calls
            ∙ ap (λ l. ide.calls ++ l)
                (ap (λ n. served hw n (items ++ (i ∷ []))) same
                  ∙ served-append hw (ide.ports.taken) items i
                  ∙ ap (λ g. served hw (ide.ports.taken) items ++ ((call, g) ∷ []))
                      (whole_result hw (ide.ports.taken + words_ahead items) (ide.drive_id) blk
                        count call few)),
      )
