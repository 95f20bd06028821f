-- ===== src/Queue/Pop.antt =====
-- `queue_pop`: the first node is unlinked and freed.
use craft_osos.Base.{◌≡◌, ◌≢◌, none, some, [], ◌∷◌, ◌==◌, ==_ne}
use craft_osos.Base.{if◌then◌else◌, arith, refl}
use craft_osos.Queue.{Ptr, null, node, Queue, write, ok, queue_pop}
use craft_osos.Queue.Chain.{Cells, first, last, Chain, IsQueue, SameOutside, frame-write}
use craft_osos.Queue.Chain.{load-some, write_self, write_ne}

module _ {A : Type 0} where
  -- On an empty queue `queue_pop` does nothing.
  pub pop-nil : (q : Queue A) → IsQueue q [] → queue_pop q ≡ ok q
  unfolding queue_pop
  pop-nil q is = rw is.front

  -- The state after the pop of a first node at p that led to n.
  abbrev pub popped : Queue A → Ptr → Queue A
  popped q n = record {
    heap = write q.heap q.front none;
    front = n;
    back = if n == null then null else q.back;
  }

  pop-run :
      (q : Queue A) (v : A) (n : Ptr)
      → q.front ≢ null
      → q.heap q.front ≡ some (node v n)
      → queue_pop q ≡ ok (popped q n)
  unfolding queue_pop
  pop-run q v n ne e = rw (==_ne q.front 0 ne, load-some q.heap q.front v n ne e)

  back_after :
      (q : Queue A) (p : Ptr) (v : A) (xs : Cells A)
      → Chain q.heap ((p, v) ∷ xs)
      → q.back ≡ last ((p, v) ∷ xs)
      → (if first xs == null then null else q.back) ≡ last xs
  back_after q p v [] c e = refl
  back_after q p v ((p', v') ∷ xs) (_, _, _, (ne, _, _, _)) e = rw (==_ne p' 0 ne) e

  -- On a well-formed queue that is not empty `queue_pop` drops the first cell, gives its node back,
  -- and changes no other address.
  pub pop-cons :
      (q : Queue A) (p : Ptr) (v : A) (xs : Cells A)
      → IsQueue q ((p, v) ∷ xs)
      → (q' : Queue A) × (queue_pop q ≡ ok q')
        × IsQueue q' xs
        × (q'.heap p ≡ none)
        × SameOutside ((p, v) ∷ []) q.heap q'.heap
  pop-cons q p v xs is =
      let (ne, holds, out, rest) = is.chain in
      let e : q.heap q.front ≡ some (node v (first xs)) = rw is.front holds in
      (
        popped q (first xs),
        pop-run q v (first xs) (rw is.front ne) e,
        record {
          front = refl;
          back = back_after q p v xs is.chain is.back;
          chain = frame-write q.heap q.front none xs rest (rw is.front out);
        },
        rw is.front (write_self q.heap p none),
        λ a o. write_ne q.heap q.front a none (λ s. ground (arith, is.front)),
      )
