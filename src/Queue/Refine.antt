-- ===== src/Queue/Refine.antt =====
-- The linked queue behaves as a list of contents, front first, over any sequence of calls.
use craft_osos.Base.{ℕ, suc, ◌+◌, ◌≤◌, ◌≡◌, ◌≢◌, Bool, Option, none, arith, refl, ◌∙◌}
use craft_osos.Base.{List, [], ◌∷◌, ◌++◌, length, length-append}
use craft_osos.Queue.{Ptr, null, Queue, Run, ok, ◌>>=◌}
use craft_osos.Queue.{queue_empty, queue_size, queue_front, queue_back, queue_push, queue_pop}
use craft_osos.Queue.Chain.{Cells, IsQueue, contents, contents-append}
use craft_osos.Queue.Push.{push-IsQueue}
use craft_osos.Queue.Pop.{pop-nil, pop-cons}
use craft_osos.Queue.Observe.{
  head?, last?, is_nil, queue_size-length, queue_empty-is_nil, queue_front-head?, queue_back-last?,
}

-- The calls of queue.h, with the address that `malloc` returns in a push.
pub data Op (A : Type 0) : Type 0 where
  empty : Op A
  size : Op A
  front : Op A
  back : Op A
  push : Ptr → A → Op A
  pop : Op A

-- What a call returns.
pub data Reply (A : Type 0) : Type 0 where
  bool : Bool → Reply A
  count : ℕ → Reply A
  content : Option A → Reply A
  nothing : Reply A

-- `queue_size` counts an `int`, so a queue has at most 2 ^ 31 - 1 nodes; one round more ends the
-- loop.
abbrev pub max_nodes : ℕ
max_nodes = 0x7FFFFFFF

module _ {A : Type 0} where
  abbrev pub tail : List A → List A
  tail [] = []
  tail (v ∷ vs) = vs

  -- The abstract queue: a list, front first.
  pub spec_step : Op A → List A → Reply A × List A
  spec_step empty vs = (bool (is_nil vs), vs)
  spec_step size vs = (count (length vs), vs)
  spec_step front vs = (content (head? vs), vs)
  spec_step back vs = (content (last? vs), vs)
  spec_step (push p v) vs = (nothing, vs ++ v ∷ [])
  spec_step pop vs = (nothing, tail vs)

  pub spec_run : List (Op A) → List A → List (Reply A) × List A
  spec_run [] vs = ([], vs)
  spec_run (o ∷ ops) vs =
      let (r, vs') = spec_step o vs in let (rs, vs2) = spec_run ops vs' in (r ∷ rs, vs2)

  pub step : Op A → Queue A → Run (Reply A × Queue A)
  step empty q = ok (bool (queue_empty q), q)
  step size q = queue_size (suc max_nodes) q >>= λ n. ok (count n, q)
  step front q = queue_front q >>= λ v. ok (content v, q)
  step back q = queue_back q >>= λ v. ok (content v, q)
  step (push p v) q = queue_push p q v >>= λ q'. ok (nothing, q')
  step pop q = queue_pop q >>= λ q'. ok (nothing, q')

  pub run : List (Op A) → Queue A → Run (List (Reply A) × Queue A)
  run [] q = ok ([], q)
  run (o ∷ ops) q = step o q >>= λ (r, q'). run ops q' >>= λ (rs, q2). ok (r ∷ rs, q2)

  -- What `malloc` promises: an address that is not NULL and not in use.
  abbrev pub Fresh : Op A → Queue A → Type 0
  Fresh (push p v) q = (p ≢ null) × (q.heap p ≡ none)
  Fresh _ q = Unit {0}

  abbrev pub Supplied : List (Op A) → Queue A → Type 0
  Supplied [] q = Unit {0}
  Supplied (o ∷ ops) q =
      Fresh o q × ((r : Reply A) (q' : Queue A) → step o q ≡ ok (r, q') → Supplied ops q')

  -- One call: it returns the reply of the abstract queue and leaves its contents, one cell more at
  -- most.
  record Simulates (o : Op A) (q : Queue A) (xs : Cells A) : Type 0 where
    after : Queue A
    cells : Cells A
    returns : step o q ≡ ok ((spec_step o (contents xs)).0, after)
    valid : IsQueue after cells
    same : contents cells ≡ (spec_step o (contents xs)).1
    grows : length cells ≤ length xs + 1

  observe :
      (o : Op A) (q : Queue A) (xs : Cells A)
      → IsQueue q xs
      → step o q ≡ ok ((spec_step o (contents xs)).0, q)
      → contents xs ≡ (spec_step o (contents xs)).1
      → Simulates o q xs
  observe o q xs is e s = record {
    after = q;
    cells = xs;
    returns = e;
    valid = is;
    same = s;
    grows = omega arith;
  }

  step-Simulates :
      (o : Op A) (q : Queue A) (xs : Cells A)
      → IsQueue q xs
      → Fresh o q
      → length xs ≤ max_nodes
      → Simulates o q xs
  unfolding step spec_step
  step-Simulates empty q xs is f b = observe empty q xs is (rw (queue_empty-is_nil q xs is)) refl
  step-Simulates size q xs is f b =
      observe size q xs is (rw (queue_size-length (suc max_nodes) q xs is (omega arith) b)) refl
  step-Simulates front q xs is f b = observe front q xs is (rw (queue_front-head? q xs is)) refl
  step-Simulates back q xs is f b = observe back q xs is (rw (queue_back-last? q xs is)) refl
  step-Simulates (push p v) q xs is (nn, unused) b =
      let (q', e, pushed) = push-IsQueue q xs p v is nn unused in
      record {
        after = q';
        cells = xs ++ (p, v) ∷ [];
        returns = rw e;
        valid = pushed.queue;
        same = contents-append xs ((p, v) ∷ []);
        grows = omega (arith, length-append {0} xs ((p, v) ∷ []));
      }
  step-Simulates pop q [] is f b = observe pop q [] is (rw (pop-nil q is)) refl
  step-Simulates pop q ((p, v) ∷ xs) is f b =
      let (q', e, valid, freed, rest) = pop-cons q p v xs is in
      record {
        after = q';
        cells = xs;
        returns = rw e;
        valid = valid;
        same = refl;
        grows = omega arith;
      }

  -- What a run of calls returns and leaves.
  pub record Refines (ops : List (Op A)) (q : Queue A) (vs : List A) : Type 0 where
    pub after : Queue A
    pub cells : Cells A
    pub returns : run ops q ≡ ok ((spec_run ops vs).0, after)
    pub valid : IsQueue after cells
    pub same : contents cells ≡ (spec_run ops vs).1

  -- A sequence of calls on a well-formed queue never faults and never runs out of fuel: it returns
  -- the replies of the list of its contents under the same calls, and ends in a well-formed queue
  -- of what that list ends in. `malloc` is assumed to give unused addresses, and the queue to stay
  -- within 2 ^ 31 - 1 nodes.
  pub run-Refines :
      (ops : List (Op A)) (q : Queue A) (xs : Cells A)
      → IsQueue q xs
      → Supplied ops q
      → length xs + length ops ≤ max_nodes
      → Refines ops q (contents xs)
  unfolding run spec_run
  run-Refines [] q xs is s b = record {
    after = q;
    cells = xs;
    returns = refl;
    valid = is;
    same = refl;
  }
  run-Refines (o ∷ ops) q xs is (f, s) b =
      let first = step-Simulates o q xs is f (omega arith) in
      let rest =
        run-Refines ops first.after first.cells first.valid (s _ first.after first.returns)
          (omega (arith, first.grows)) in
      record {
        after = rest.after;
        cells = rest.cells;
        returns = rw (first.returns, rest.returns, first.same);
        valid = rest.valid;
        same = rest.same ∙ rw first.same;
      }
