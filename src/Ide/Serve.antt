-- ===== src/Ide/Serve.antt =====
-- The interrupt handler works through the queue: every item gets its callback, in order.
use craft_osos.Base.{
  ℕ, zero, suc, ◌+◌, ◌-◌, ◌*◌, ◌≤◌, ◌<◌, ◌≡◌, ◌⊎◌, inl, inr, true, false, ◌==◌, List, [], ◌∷◌, ◌++◌,
  length, arith, refl, sym, ap, ◌∙◌, Bool-cases, if◌then◌else◌, append-nil, append_assoc, map, leb,
  ==_iff, le→leb,
}
use craft_osos.Ide.Io.{Hardware, Ports, Run, finished, then_run, run, drdy}
use craft_osos.Ide.Status.{Responsive, wait-finishes, run-finishes, port_value}
use craft_osos.Ide.Buffers.{
  Sized, words_left, result_of, given-result, Step, if_true, if_false, transfer_sector-Step,
}
use craft_osos.Ide.{
  Item, Ide, Given, sector_size, sector_array, called, with_ports, with_item, popped, given_of,
  transfer_sector, item_transfer, ship, work_begin_next, begin_queue, irq_round, irq_loop,
  irq_handler,
}

-- An item that waits for its turn: nothing of it has been transferred.
abbrev pub Fresh : List Item → Type 0
Fresh [] = Unit {0}
Fresh (i ∷ rest) = (i.position ≡ 0) × Sized i × Fresh rest

-- The item in front may be under way.
abbrev pub Ready : List Item → Type 0
Ready [] = Unit {0}
Ready (i ∷ rest) = Sized i × Fresh rest

-- The callbacks of the items in order, when the next word of the data port is the n-th.
unfoldable pub served : Hardware → ℕ → List Item → List (ℕ × Given)
served hw n [] = []
served hw n (i ∷ rest) = (i.call, result_of hw n i) ∷ served hw (n + words_left i) rest

-- The sectors that are still to be transferred.
unfoldable pub sectors_left : List Item → ℕ
sectors_left [] = 0
sectors_left (i ∷ rest) = (i.total - i.position) + sectors_left rest

pub Fresh-Ready : (items : List Item) → Fresh items → Ready items
Fresh-Ready [] h = tt
Fresh-Ready (i ∷ rest) (new, sized, fresh) = (sized, fresh)

less_ne : (a b : ℕ) → a < b → (a == b) ≡ false
less_ne a b h = ground arith

less_or_eq : (a b : ℕ) → a ≤ b → (a < b) ⊎ (a ≡ b)
less_or_eq a b h = ground arith

nothing_left : (i : Item) → i.position ≡ i.total → words_left i ≡ 0
nothing_left i h = elim (Bool-cases (i.read)) [
  | inl e ↦ if_true (i.read) (sector_array * (i.total - i.position)) 0 e ∙ omega arith
  | inr e ↦ if_false (i.read) (sector_array * (i.total - i.position)) 0 e
]

module _ (hw : Hardware) (patience : ℕ) (responsive : Responsive hw patience)
    (react : ℕ → Given → Ide → Ide) where
  -- The next item begins, and only the time and the ports that are written change.
  pub begins :
      (ide : Ide)
      → Fresh (ide.work_queue)
      → (p : Ports) × (p.taken ≡ ide.ports.taken)
        × (work_begin_next hw patience react ide ≡ finished (with_ports ide p))
  unfolding work_begin_next
  begins ide fresh = go (ide.work_queue) fresh
    where
      go :
          (items : List Item)
          → Fresh items
          → (p : Ports) × (p.taken ≡ ide.ports.taken)
            × (begin_queue hw patience react items ide ≡ finished (with_ports ide p))
      go [] h = (ide.ports, refl, refl)
      go (i ∷ rest) (new, sized, h) =
          let (c, e) = run-finishes hw patience responsive (item_transfer i) (ide.ports) in
          let test : (i.position == 0) ≡ true = (==_iff (i.position) 0).1 new in
          (
            record ide.ports { clock = c; out = ide.ports.out ++ map port_value (item_transfer i) },
            refl,
            ap
                  (λ b.
                    if b
                    then then_run (run hw patience (item_transfer i) (ide.ports))
                        (λ p. finished (with_ports ide p))
                    else Run.crashed)
                  test
                ∙ ap (λ r. then_run r (λ p. finished (with_ports ide p))) e,
          )

  -- One round, up to the question whether the item is done.
  round-ships :
      (i : Item) (rest : List Item) (ide : Ide)
      → Sized i
      → (j : Item) × (q : Ports) × Step hw i (ide.ports) (j, q)
        × (irq_round hw patience react i rest ide ≡ ship hw patience react rest ide (j, q))
  unfolding irq_round
  round-ships i rest ide (more, sized) =
      let (c, waits) = wait-finishes hw patience responsive drdy false (ide.ports) in
      let p : Ports = record ide.ports { clock = c } in
      let moved = transfer_sector hw i p in
      let inside : leb (i.position * sector_size + sector_size) (length (i.buffer)) ≡ true =
        le→leb (i.position * sector_size + sector_size) (length (i.buffer)) (omega arith) in
      (
        moved.0,
        moved.1,
        transfer_sector-Step hw i p (more, sized),
        ap
              (λ r. then_run r (λ p.
                if leb (i.position * sector_size + sector_size) (length (i.buffer))
                then ship hw patience react rest ide (transfer_sector hw i p)
                else Run.crashed))
              waits
            ∙ ap (λ b. if b then ship hw patience react rest ide moved else Run.crashed) inside,
      )

  module _ (quiet : (call : ℕ) (given : Given) (ide : Ide) → react call given ide ≡ ide) where
    ship_done :
        (j : Item) (q : Ports) (rest : List Item) (ide : Ide)
        → j.position ≡ j.total
        → Fresh rest
        → (p : Ports) × (p.taken ≡ q.taken)
          × (ship hw patience react rest ide (j, q)
              ≡ finished
                  (with_ports (called (j.call) (given_of j) (popped rest (with_ports ide q))) p))
    ship_done j q rest ide done fresh =
        let test : (j.position == j.total) ≡ true = (==_iff (j.position) (j.total)).1 done in
        let ide' = called (j.call) (given_of j) (popped rest (with_ports ide q)) in
        let (p, same, e) = begins ide' fresh in
        (
          p,
          same,
          ap
                (λ b.
                  if b
                  then work_begin_next hw patience react (react (j.call) (given_of j) ide')
                  else finished (with_item j rest (with_ports ide q)))
                test
              ∙ ap (work_begin_next hw patience react) (quiet (j.call) (given_of j) ide')
              ∙ e,
        )

    ship_on :
        (j : Item) (q : Ports) (rest : List Item) (ide : Ide)
        → j.position < j.total
        → ship hw patience react rest ide (j, q) ≡ finished (with_item j rest (with_ports ide q))
    ship_on j q rest ide more =
        let test : (j.position == j.total) ≡ false = less_ne (j.position) (j.total) more in
        ap
          (λ b.
            if b
            then work_begin_next hw patience react (
                react (j.call) (given_of j)
                  (called (j.call) (given_of j) (popped rest (with_ports ide q))))
            else finished (with_item j rest (with_ports ide q)))
          test

    loop_step :
        (rounds : ℕ) (i : Item) (rest : List Item) (ide after : Ide)
        → irq_round hw patience react i rest ide ≡ finished after
        → irq_loop hw patience react (suc rounds) (i ∷ rest) ide
          ≡ irq_loop hw patience react rounds (after.work_queue) after
    unfolding irq_loop
    loop_step rounds i rest ide after h =
        ap (λ r. then_run r (λ after. irq_loop hw patience react rounds (after.work_queue) after)) h

    loop-serves :
        (rounds : ℕ) (items : List Item) (ide : Ide)
        → ide.work_queue ≡ items
        → Ready items
        → sectors_left items ≤ rounds
        → (after : Ide) × (irq_loop hw patience react rounds items ide ≡ finished after)
          × (after.work_queue ≡ [])
          × (after.calls ≡ ide.calls ++ served hw (ide.ports.taken) items)
    unfolding irq_loop served sectors_left
    loop-serves rounds [] ide queue ready enough = (ide, refl, queue, sym (append-nil (ide.calls)))
    loop-serves zero (i ∷ rest) ide queue ((more, sized), fresh) enough = absurd (omega arith)
    loop-serves (suc rounds) (i ∷ rest) ide queue ((more, sized), fresh) enough =
        let (j, q, (forward, total, call, long, taken, result), round) =
          round-ships i rest ide (more, sized) in
        elim (less_or_eq (j.position) (j.total) (omega arith)) [
          | inl less ↦
              (let next : Ide = with_item j rest (with_ports ide q) in
                let (after, loop, empty, calls) =
                  loop-serves rounds (j ∷ rest) next refl ((less, omega arith), fresh)
                    (omega arith) in
                (
                  after,
                  loop_step rounds i rest ide next (round ∙ ship_on j q rest ide less) ∙ loop,
                  empty,
                  calls
                      ∙ ap (λ l. ide.calls ++ l)
                          (ap (λ r. (j.call, r) ∷ served hw (q.taken + words_left j) rest) result
                            ∙ ap
                                (λ n. (j.call, result_of hw (ide.ports.taken) i) ∷ served hw n rest)
                                taken
                            ∙ ap
                                (λ n.
                                  (n, result_of hw (ide.ports.taken) i)
                                  ∷ served hw (ide.ports.taken + words_left i) rest)
                                call),
                ))
          | inr done ↦
              (let (p, same, shipped) = ship_done j q rest ide done fresh in
                let next : Ide =
                  with_ports (called (j.call) (given_of j) (popped rest (with_ports ide q))) p in
                let (after, loop, empty, calls) =
                  loop-serves rounds rest next refl (Fresh-Ready rest fresh) (omega arith) in
                let given : given_of j ≡ result_of hw (ide.ports.taken) i =
                  given-result hw (q.taken) j done (omega arith) ∙ result in
                let left : words_left j ≡ 0 = nothing_left j done in
                (
                  after,
                  loop_step rounds i rest ide next (round ∙ shipped) ∙ loop,
                  empty,
                  calls
                      ∙ append_assoc (ide.calls) ((j.call, given_of j) ∷ [])
                          (served hw (p.taken) rest)
                      ∙ ap (λ l. ide.calls ++ l)
                          (ap (λ r. (j.call, r) ∷ served hw (p.taken) rest) given
                            ∙ ap
                                (λ n.
                                  (n, result_of hw (ide.ports.taken) i) ∷ served hw (p.taken) rest)
                                call
                            ∙ ap
                                (λ n. (i.call, result_of hw (ide.ports.taken) i) ∷ served hw n rest)
                                {x = p.taken} {y = ide.ports.taken + words_left i} (omega arith)),
                ))
        ]

    -- An interrupt with any queue of requests, of which only the first is under way, works through all
    -- of it: the queue is empty in the end, and the callbacks have been called once each, in the
    -- order of the queue, a read with the words that the data port gives next behind what it had, a
    -- write without error. As many rounds as there are sectors left are enough. The controller must
    -- not stay busy for ever, each buffer must have the size of its request, and the callbacks leave
    -- the driver alone.
    pub irq_handler-served :
        (rounds : ℕ) (ide : Ide)
        → Ready (ide.work_queue)
        → sectors_left (ide.work_queue) ≤ rounds
        → (after : Ide) × (irq_handler hw patience react rounds ide ≡ finished after)
          × (after.work_queue ≡ [])
          × (after.calls ≡ ide.calls ++ served hw (ide.ports.taken) (ide.work_queue))
    unfolding irq_handler
    irq_handler-served rounds ide ready enough =
        loop-serves rounds (ide.work_queue) ide refl ready enough
