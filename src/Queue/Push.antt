-- ===== src/Queue/Push.antt =====
-- `queue_push`: a new node behind the last one.
use craft_osos.Base.{◌≡◌, ◌≢◌, true, false, none, some, [], ◌∷◌, ◌++◌}
use craft_osos.Base.{arith, refl, sym, ◌∙◌, ==_ne}
use craft_osos.Queue.{Ptr, null, Heap, node, Queue, write, ok, queue_push}
use craft_osos.Queue.Chain.{Cells, among, last, Chain, IsQueue, SameOutside}
use craft_osos.Queue.Chain.{
  load-some, write_self, write_ne, among-append, ne_of_among, not-among-snoc, not-has_of_none,
  last-holds, last-snoc,
}

module _ {A : Type 0} where
  -- A chain whose last node is made to lead to a node outside, which leads to NULL, has that node
  -- behind it.
  snoc-Chain :
      (h g : Heap A) (p fresh : Ptr) (w v u : A) (xs : Cells A)
      → Chain h ((p, w) ∷ xs)
      → fresh ≢ null
      → among fresh ((p, w) ∷ xs) ≡ false
      → h (last ((p, w) ∷ xs)) ≡ some (node u null)
      → g (last ((p, w) ∷ xs)) ≡ some (node u fresh)
      → g fresh ≡ some (node v null)
      → ((a : Ptr) → among a ((p, w) ∷ xs) ≡ true → a ≢ last ((p, w) ∷ xs) → g a ≡ h a)
      → Chain g ((p, w) ∷ xs ++ (fresh, v) ∷ [])
  snoc-Chain h g p fresh w v u [] (ne, holds, out, c) nn nf hl gl gf same =
      (ne, cc, ground arith, (nn, gf, refl, tt))
  snoc-Chain h g p fresh w v u ((p', w') ∷ xs) (ne, holds, out, c) nn nf hl gl gf same =
      let inside = (last-holds h p' w' xs c).3 in
      (
        ne,
        ground (arith, same p),
        ground (arith, among-append p xs ((fresh, v) ∷ [])),
        snoc-Chain h g p' fresh w' v u xs c nn (ground arith) hl gl gf
            (λ a i n. same a (ground arith) n),
      )

  -- What a push leaves: a queue with one more cell, and nothing else changed.
  pub record Pushed (q : Queue A) (xs : Cells A) (fresh : Ptr) (v : A) (q' : Queue A) : Type 0 where
    pub queue : IsQueue q' (xs ++ (fresh, v) ∷ [])
    pub rest : SameOutside (xs ++ (fresh, v) ∷ []) q.heap q'.heap

  push-nil :
      (q : Queue A) (fresh : Ptr) (v : A)
      → IsQueue q []
      → fresh ≢ null
      → (q' : Queue A) × (queue_push fresh q v ≡ ok q') × Pushed q [] fresh v q'
  unfolding queue_push write
  push-nil q fresh v is nn = (
    record { heap = write q.heap fresh (some (node v null)); front = fresh; back = fresh },
    ground (arith, is.front, is.back),
    record {
      queue = record { front = refl; back = refl; chain = (nn, ground arith, refl, tt) };
      rest = λ a o. ground arith;
    },
  )

  -- The run of a push behind a last node.
  push-link :
      (q : Queue A) (fresh : Ptr) (v u : A)
      → fresh ≢ null
      → q.front ≢ null
      → q.back ≢ null
      → q.back ≢ fresh
      → q.heap q.back ≡ some (node u null)
      → queue_push fresh q v
        ≡ ok (record {
          heap = write (write q.heap fresh (some (node v null))) q.back (some (node u fresh));
          front = q.front;
          back = fresh;
        })
  unfolding queue_push
  push-link q fresh v u nn nf nb ne e =
      let h = write q.heap fresh (some (node v null)) in
      let at_back = load-some h q.back u null nb (write_ne q.heap fresh q.back _ ne ∙ e) in
      rw (==_ne fresh 0 nn, ==_ne q.back 0 nb, ==_ne q.front 0 nf, at_back)

  push-cons :
      (q : Queue A) (p : Ptr) (w : A) (xs : Cells A) (fresh : Ptr) (v : A)
      → IsQueue q ((p, w) ∷ xs)
      → fresh ≢ null
      → q.heap fresh ≡ none
      → (q' : Queue A) × (queue_push fresh q v ≡ ok q') × Pushed q ((p, w) ∷ xs) fresh v q'
  push-cons q p w xs fresh v is nn unused =
      let out = not-has_of_none q.heap fresh ((p, w) ∷ xs) is.chain unused in
      let (u, e, ne, i) = last-holds q.heap p w xs is.chain in
      let h = write q.heap fresh (some (node v null)) in
      let apart : last ((p, w) ∷ xs) ≢ fresh = λ same. cc in
      let at_back : q.heap q.back ≡ some (node u null) = rw is.back e in
      let g = write h q.back (some (node u fresh)) in
      (
        record { heap = g; front = q.front; back = fresh },
        push-link q fresh v u nn (rw is.front is.chain.0) (rw is.back ne) (rw is.back apart)
            at_back,
        record {
          queue = record {
            front = is.front;
            back = sym (last-snoc ((p, w) ∷ xs) fresh v);
            chain =
                snoc-Chain q.heap g p fresh w v u xs is.chain nn out e
                  (rw (← is.back) (write_self h q.back _))
                  (write_ne h q.back fresh _ (λ s. apart (sym (s ∙ is.back)))
                    ∙ write_self q.heap fresh _)
                  (λ a i n.
                    write_ne h q.back a _ (rw is.back n)
                    ∙ write_ne q.heap fresh a _ (ne_of_among a fresh ((p, w) ∷ xs) i out));
          };
          rest = λ a o.
              let (o', na) = not-among-snoc a fresh v ((p, w) ∷ xs) o in
              let nb = ne_of_among (last ((p, w) ∷ xs)) a ((p, w) ∷ xs) i o' in
              write_ne h q.back a _ (λ s. nb (sym (s ∙ is.back))) ∙ write_ne q.heap fresh a _ na;
        },
      )

  -- On a well-formed queue and given an unused address that is not NULL, `queue_push` appends a
  -- cell at the back, and changes no address but those of the queue and the new one.
  pub push-IsQueue :
      (q : Queue A) (xs : Cells A) (fresh : Ptr) (v : A)
      → IsQueue q xs
      → fresh ≢ null
      → q.heap fresh ≡ none
      → (q' : Queue A) × (queue_push fresh q v ≡ ok q') × Pushed q xs fresh v q'
  push-IsQueue q [] fresh v is nn unused = push-nil q fresh v is nn
  push-IsQueue q ((p, w) ∷ xs) fresh v is nn unused = push-cons q p w xs fresh v is nn unused
