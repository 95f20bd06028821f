-- ===== src/Queue.antt =====
-- queue.c and queue.h: a singly linked list of allocated nodes with a pointer to each end. Both
-- queues of the program, the events and the fired timers, are of this type.
mod Tests
pub mod Chain
pub mod Push
pub mod Pop
pub mod Observe
pub mod Refine
use craft_osos.Base.{
  ℕ, zero, suc, ◌+◌, Bool, Option, none, some, ltb, ◌==◌, if◌then◌else◌, not, ◌&&◌,
}

abbrev pub Ptr : Type 0
Ptr = ℕ

abbrev pub null : Ptr
null = 0

-- The end of a call: a result, an access through a bad pointer, or the model's fuel is used up.
pub data Run (A : Type 0) : Type 0 where
  ok : A → Run A
  fault : Run A
  out_of_fuel : Run A

module _ {A B : Type 0} where
  infixl 5 ◌>>=◌
  abbrev pub ◌>>=◌ : Run A → (A → Run B) → Run B
  ok a >>= k = k a
  fault >>= k = fault
  out_of_fuel >>= k = out_of_fuel

-- `struct pointer_type`. The pointer `data` is only stored and handed out; `A` is what it stands
-- for.
pub record Node (A : Type 0) : Type 0 where
  pub content : A
  pub next : Ptr

abbrev pub Heap : Type 0 → Type 0
Heap A = Ptr → Option (Node A)

-- `queue_t` with the heap that its nodes are on.
pub record Queue (A : Type 0) : Type 0 where
  pub heap : Heap A
  pub front : Ptr
  pub back : Ptr

module _ {A : Type 0} where
  abbrev pub node : A → Ptr → Node A
  node v n = record { content = v; next = n }

  unfoldable pub write : Heap A → Ptr → Option (Node A) → Heap A
  write h p c a = if a == p then c else h a

  -- `*p`: a fault at NULL and where no node is.
  unfoldable pub load : Heap A → Ptr → Run (Node A)
  load h p = if p == null then fault else elim (h p) [ none ↦ fault | some n ↦ ok n ]

  pub queue_empty : Queue A → Bool
  queue_empty q = q.back == null

  -- `int i`: an increment beyond 2 ^ 31 - 1 is undefined behaviour.
  size_loop : ℕ → Heap A → Ptr → ℕ → Run ℕ
  size_loop zero h current i = out_of_fuel
  size_loop (suc fuel) h current i =
      if current == null
      then ok i
      else load h current >>= λ n.
          if ltb i 0x7FFFFFFF then size_loop fuel h n.next (i + 1) else fault

  pub queue_size : ℕ → Queue A → Run ℕ
  unfolding size_loop
  queue_size fuel q = size_loop fuel q.heap q.front 0

  -- NULL is `none`.
  pub queue_front : Queue A → Run (Option A)
  queue_front q =
      if q.front == null then ok none else load q.heap q.front >>= λ n. ok (some n.content)

  pub queue_back : Queue A → Run (Option A)
  queue_back q = if q.back == null then ok none else load q.heap q.back >>= λ n. ok (some n.content)

  -- `if (queue->_back != NULL && queue->_front != NULL) queue->_back->next = p`
  link_back : Queue A → Heap A → Ptr → Run (Heap A)
  link_back q h p =
      if not (q.back == null) && not (q.front == null)
      then (load h q.back >>= λ n. ok (write h q.back (some (node n.content p))))
      else ok h

  -- `fresh` is what `malloc` returns. Its result is not tested, so the write of the new node faults
  -- at NULL.
  pub queue_push : (fresh : Ptr) → Queue A → A → Run (Queue A)
  unfolding link_back
  queue_push fresh q val =
      if fresh == null
      then fault
      else (link_back q (write q.heap fresh (some (node val null))) fresh >>= λ h.
          ok
            (record { heap = h; front = if q.front == null then fresh else q.front; back = fresh }))

  pub queue_pop : Queue A → Run (Queue A)
  queue_pop q =
      if q.front == null
      then ok q
      else load q.heap q.front >>= λ p. ok (record {
        heap = write q.heap q.front none;
        front = p.next;
        back = if p.next == null then null else q.back;
      })
