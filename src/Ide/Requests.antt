-- ===== src/Ide/Requests.antt =====
-- Requests: which are refused, and what an accepted one comes to.
use craft_osos.Base.{
  ℕ, ◌+◌, ◌*◌, ◌/◌, ◌%◌, ◌^◌, ◌≤◌, ◌<◌, ◌≡◌, ◌⊎◌, inl, inr, Bool, true, false, ◌||◌, ◌==◌, List, [],
  ◌∷◌, ◌++◌, arith, refl, sym, ap, ◌∙◌, length, length-append, length-replicate, leb, Bool-cases,
  List-cases, ==_ne, ==_iff, ltb,
}
use mathlib.Core.Path.{subst}
use craft_osos.Ide.Io.{Hardware, Ports, Run, finished, then_run, u64}
use craft_osos.Ide.Status.{Responsive}
use craft_osos.Ide.Buffers.{Sized, if_true, if_false}
use craft_osos.Ide.Serve.{Fresh, Ready, begins}
use craft_osos.Ide.{
  Item, Ide, Given, null, called, with_ports, sector_size, read_item, write_item, error_flag,
  enqueue, read, write,
}

-- The driver with one request more at the end of its queue.
abbrev pub queued : Item → Ide → Ide
queued i ide = record ide { work_queue = ide.work_queue ++ (i ∷ []) }

refuses :
    (blk count blocks : ℕ)
    → blk + count < 2 ^ 64
    → (blocks ≤ blk + count) ⊎ (count ≡ 0)
    → (leb blocks (u64 (blk + count)) || count == 0) ≡ true
refuses blk count blocks small outside =
    let same : (blk + count) % 2 ^ 64 ≡ blk + count = omega arith in rw same (ground arith)

accepts :
    (blk count blocks : ℕ)
    → blk + count < blocks
    → blocks < 2 ^ 64
    → 0 < count
    → (leb blocks (u64 (blk + count)) || count == 0) ≡ false
accepts blk count blocks inside small some_sectors =
    let same : (blk + count) % 2 ^ 64 ≡ blk + count = omega arith in rw same (ground arith)

two_or_more :
    (j : Item) (rest : List Item) (i : Item) → (length (j ∷ (rest ++ (i ∷ []))) == 1) ≡ false
two_or_more j rest i =
    ==_ne (length (j ∷ (rest ++ (i ∷ [])))) 1
      (λ e. absurd (omega (arith, length-append rest (i ∷ []))))

pub read_item-Sized :
    (id blk count call : ℕ) → 0 < count → count < 2 ^ 23 → Sized (read_item id blk count call)
unfolding read_item
read_item-Sized id blk count call some_sectors few =
    let same : count % 2 ^ 32 ≡ count = omega arith in
    (omega arith, omega (arith, length-replicate {A = ℕ} (count % 2 ^ 32 * sector_size % 2 ^ 32) 0))

not_zero : (b : Bool) (count : ℕ) → (b || count == 0) ≡ false → 0 < count
not_zero b count h = ground arith

-- The item of a write of whole sectors.
abbrev made_item : ℕ → ℕ → List ℕ → ℕ → Item
made_item id blk buf call = record {
  drive_id = id;
  read = false;
  sector = blk;
  position = 0;
  total = length buf / sector_size % 2 ^ 32;
  buffer = buf;
  call = call;
}

Fresh-append :
    (items : List Item) (i : Item)
    → Fresh items
    → Sized i
    → i.position ≡ 0
    → Fresh (items ++ (i ∷ []))
Fresh-append [] i h sized new = (new, sized, tt)
Fresh-append (j ∷ items) i (front, whole, h) sized new =
    (front, whole, Fresh-append items i h sized new)

pub Ready-append :
    (items : List Item) (i : Item)
    → Ready items
    → Sized i
    → i.position ≡ 0
    → Ready (items ++ (i ∷ []))
Ready-append [] i h sized new = (sized, tt)
Ready-append (j ∷ items) i (whole, h) sized new = (whole, Fresh-append items i h sized new)

module _ (hw : Hardware) (patience : ℕ) (react : ℕ → Given → Ide → Ide) where
  -- A read of no sector, or of sectors up to the end of the disk or behind it, calls its callback with
  -- `nullptr` at once; the last sector of the disk is among those that cannot be read.
  pub read_refused :
      (blk count call : ℕ) (ide : Ide)
      → blk + count < 2 ^ 64
      → (ide.num_blocks ≤ blk + count) ⊎ (count ≡ 0)
      → read hw patience react blk count call ide
        ≡ finished (react call null (called call null ide))
  unfolding read
  read_refused blk count call ide small outside =
      if_true (leb (ide.num_blocks) (u64 (blk + count)) || count == 0) _ _
        (refuses blk count (ide.num_blocks) small outside)

  module _ (responsive : Responsive hw patience) where
    -- An accepted request stands at the end of the queue, behind requests that it does not touch.
    enqueued :
        (i : Item) (ide : Ide)
        → Sized i
        → i.position ≡ 0
        → Ready (ide.work_queue)
        → (p : Ports) × (p.taken ≡ ide.ports.taken)
          × (enqueue hw patience react i ide ≡ finished (with_ports (queued i ide) p))
    unfolding enqueue
    enqueued i ide sized new ready = elim (List-cases (ide.work_queue)) [
      | inl e ↦
          (let started = queued i ide in
            let fresh : Fresh (started.work_queue) =
              subst (λ q. Fresh (q ++ (i ∷ []))) (sym e) (new, sized, tt) in
            let alone : (length (ide.work_queue ++ (i ∷ [])) == 1) ≡ true =
              ap (λ q. length (q ++ (i ∷ [])) == 1) e in
            let (p, same, begun) = begins hw patience responsive react started fresh in
            (
              p,
              same,
              if_true (length (ide.work_queue ++ (i ∷ [])) == 1) _ (finished started) alone ∙ begun,
            ))
      | inr (j, rest, e) ↦
          (let behind : (length (ide.work_queue ++ (i ∷ [])) == 1) ≡ false =
              ap (λ q. length (q ++ (i ∷ [])) == 1) e ∙ two_or_more j rest i in
            (
              ide.ports,
              refl,
              if_false (length (ide.work_queue ++ (i ∷ [])) == 1) _ (finished (queued i ide))
                  behind,
            ))
    ]

    -- An accepted read is queued.
    pub read_queued :
        (blk count call : ℕ) (ide : Ide)
        → blk + count < ide.num_blocks
        → ide.num_blocks < 2 ^ 64
        → 0 < count
        → count < 2 ^ 23
        → Ready (ide.work_queue)
        → (p : Ports) × (p.taken ≡ ide.ports.taken)
          × (read hw patience react blk count call ide
              ≡ finished (with_ports (queued (read_item (ide.drive_id) blk count call) ide) p))
    unfolding read read_item
    read_queued blk count call ide inside small some_sectors few ready =
        let i = read_item (ide.drive_id) blk count call in
        let (p, same, e) =
          enqueued i ide (read_item-Sized (ide.drive_id) blk count call some_sectors few) refl
            ready in
        (
          p,
          same,
          if_false (leb (ide.num_blocks) (u64 (blk + count)) || count == 0) _ _
                (accepts blk count (ide.num_blocks) inside small some_sectors)
              ∙ e,
        )

    some_read :
        (i : Item) (ide : Ide)
        → Sized i
        → i.position ≡ 0
        → Ready (ide.work_queue)
        → (after : Ide) × (enqueue hw patience react i ide ≡ finished after)
          × Ready (after.work_queue)
    some_read i ide sized new ready =
        let (p, same, e) = enqueued i ide sized new ready in
        (with_ports (queued i ide) p, e, Ready-append (ide.work_queue) i ready sized new)

    -- With a controller that does not stay busy for ever, each time that its status is polled being
    -- ready within the number of polls given, every read and every write ends, and keeps the queue well formed, whether it is refused or
    -- accepted, if the callbacks keep it so: of each request but the first nothing has been
    -- transferred, each has something left, and its buffer has its size. A read must be of less than
    -- 2 ^ 23 sectors, a write of whole sectors, at least one, and of less than 2 ^ 32 bytes.
    pub requests-Ready :
        (blk count call : ℕ) (buf : List ℕ) (ide : Ide)
        → ((call : ℕ) (given : Given) (ide : Ide)
            → Ready (ide.work_queue)
            → Ready ((react call given ide).work_queue))
        → count < 2 ^ 23
        → length buf % sector_size ≡ 0
        → sector_size ≤ length buf
        → length buf < 2 ^ 32
        → Ready (ide.work_queue)
        → ((after : Ide) × (read hw patience react blk count call ide ≡ finished after)
            × Ready (after.work_queue))
          × ((after : Ide) × (write hw patience react blk buf call ide ≡ finished after)
              × Ready (after.work_queue))
    unfolding read write read_item write_item
    requests-Ready blk count call buf ide keeps few whole nonempty small ready =
        let no_read = leb (ide.num_blocks) (u64 (blk + count)) || count == 0 in
        let no_write = ltb (ide.num_blocks) (u64 (blk + length buf / sector_size)) in
        (
          elim (Bool-cases no_read) [
            | inl e ↦ (
              react call null (called call null ide),
              if_true no_read _ _ e,
              keeps call null (called call null ide) ready,
            )
            | inr e ↦
                (let (after, h, kept) =
                    some_read (read_item (ide.drive_id) blk count call) ide
                      (read_item-Sized (ide.drive_id) blk count call
                        (not_zero (leb (ide.num_blocks) (u64 (blk + count))) count e) few)
                      refl ready in
                  (after, if_false no_read _ _ e ∙ h, kept))
          ],
          elim (Bool-cases no_write) [
            | inl e ↦ (
              react call (error_flag true) (called call (error_flag true) ide),
              if_true no_write _ _ e,
              keeps call (error_flag true) (called call (error_flag true) ide) ready,
            )
            | inr e ↦
                (let i = made_item (ide.drive_id) blk buf call in
                  let (after, h, kept) = some_read i ide (omega arith, omega arith) refl ready in
                  (
                    after,
                    if_false no_write _ _ e
                        ∙ ap (λ r. then_run r (λ i. enqueue hw patience react i ide))
                            (if_true (length buf % sector_size == 0) (finished i) Run.crashed
                              ((==_iff (length buf % sector_size) 0).1 whole))
                        ∙ h,
                    kept,
                  ))
          ],
        )
