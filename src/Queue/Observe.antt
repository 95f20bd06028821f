-- ===== src/Queue/Observe.antt =====
-- `queue_empty`, `queue_size`, `queue_front` and `queue_back` of a well-formed queue.
use craft_osos.Base.{ℕ, zero, suc, ◌+◌, ◌≤◌, ◌<◌, ◌≡◌, ◌≢◌, Bool, true, false, Option, none, some}
use craft_osos.Base.{List, [], ◌∷◌, ==_ne, lt→ltb, arith, refl, ◌∙◌, length, ap}
use craft_osos.Queue.{
  Ptr, null, Heap, node, Queue, ok, queue_empty, queue_size, queue_front, queue_back, size_loop,
}
use craft_osos.Queue.Chain.{Cells, first, last, Chain, IsQueue, contents, load-some, last-holds}

module _ {A : Type 0} where
  -- The first and the last content of a list.
  abbrev pub head? : List A → Option A
  head? [] = none
  head? (v ∷ vs) = some v

  abbrev pub last? : List A → Option A
  last? [] = none
  last? (v ∷ []) = some v
  last? (v ∷ w ∷ vs) = last? (w ∷ vs)

  abbrev pub is_nil : List A → Bool
  is_nil [] = true
  is_nil (v ∷ vs) = false

  size_loop-length :
      (fuel : ℕ) (h : Heap A) (xs : Cells A) (i : ℕ)
      → Chain h xs
      → length xs < fuel
      → i + length xs ≤ 0x7FFFFFFF
      → size_loop fuel h (first xs) i ≡ ok (i + length xs)
  unfolding size_loop
  size_loop-length zero h xs i c f b = absurd (omega arith)
  size_loop-length (suc fuel) h [] i c f b = ap ok (omega arith)
  size_loop-length (suc fuel) h ((p, v) ∷ xs) i (ne, holds, out, c) f b =
      rw (==_ne p 0 ne, load-some h p v (first xs) ne holds, lt→ltb i 0x7FFFFFFF (omega arith))
        (size_loop-length fuel h xs (i + 1) c (omega arith) (omega arith) ∙ ap ok (omega arith))

  length-contents : (xs : Cells A) → length (contents xs) ≡ length xs
  length-contents [] = refl
  length-contents ((_, v) ∷ xs) = ap suc (length-contents xs)

  pub queue_size-length :
      (fuel : ℕ) (q : Queue A) (xs : Cells A)
      → IsQueue q xs
      → length xs < fuel
      → length xs ≤ 0x7FFFFFFF
      → queue_size fuel q ≡ ok (length (contents xs))
  unfolding queue_size
  queue_size-length fuel q xs is f b =
      rw (is.front, length-contents xs)
        (size_loop-length fuel q.heap xs 0 is.chain f (omega arith) ∙ ap ok (omega arith))

  pub queue_empty-is_nil :
      (q : Queue A) (xs : Cells A) → IsQueue q xs → queue_empty q ≡ is_nil (contents xs)
  unfolding queue_empty
  queue_empty-is_nil q [] is = rw is.back
  queue_empty-is_nil q ((p, v) ∷ xs) is =
      let (u, e, ne, i) = last-holds q.heap p v xs is.chain in
      rw is.back (==_ne (last ((p, v) ∷ xs)) 0 ne)

  pub queue_front-head? :
      (q : Queue A) (xs : Cells A) → IsQueue q xs → queue_front q ≡ ok (head? (contents xs))
  unfolding queue_front
  queue_front-head? q [] is = rw is.front
  queue_front-head? q ((p, v) ∷ xs) is =
      let (ne, holds, out, c) = is.chain in
      rw (is.front, ==_ne p 0 ne, load-some q.heap p v (first xs) ne holds)

  last-content :
      (h : Heap A) (p : Ptr) (v : A) (xs : Cells A)
      → Chain h ((p, v) ∷ xs)
      → (u : A) × (h (last ((p, v) ∷ xs)) ≡ some (node u null))
        × (last? (contents ((p, v) ∷ xs)) ≡ some u)
        × (last ((p, v) ∷ xs) ≢ null)
  last-content h p v [] (ne, holds, out, c) = (v, holds, refl, ne)
  last-content h p v ((p', v') ∷ xs) (ne, holds, out, c) = last-content h p' v' xs c

  pub queue_back-last? :
      (q : Queue A) (xs : Cells A) → IsQueue q xs → queue_back q ≡ ok (last? (contents xs))
  unfolding queue_back
  queue_back-last? q [] is = rw is.back
  queue_back-last? q ((p, v) ∷ xs) is =
      let (u, holds, e, ne) = last-content q.heap p v xs is.chain in
      rw (
        is.back,
        ==_ne (last ((p, v) ∷ xs)) 0 ne,
        load-some q.heap (last ((p, v) ∷ xs)) u null ne holds,
        e,
      )
