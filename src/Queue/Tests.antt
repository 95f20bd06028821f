-- ===== src/Queue/Tests.antt =====
-- A queue of numbers in use, and the theorems about it at concrete heaps.
use craft_osos.Base.{ℕ, none, some, List, [], ◌∷◌, refl, arith, ◌==◌, if◌then◌else◌}
use craft_osos.Queue.{node, Heap, Queue}
use craft_osos.Queue.Chain.{IsQueue}
use craft_osos.Queue.Refine.{Op, size, push, pop, Supplied, Refines, run-Refines}

abbrev no_nodes : Heap ℕ
no_nodes a = none

abbrev fresh_queue : Queue ℕ
fresh_queue = record { heap = no_nodes; front = 0; back = 0 }

-- 5 at address 16, then 6 at 32
abbrev two_nodes : Heap ℕ
two_nodes a = if a == 16 then some (node 5 32) else (if a == 32 then some (node 6 0) else none)

abbrev two_items : Queue ℕ
two_items = record { heap = two_nodes; front = 16; back = 32 }

two_items-IsQueue : IsQueue two_items ((16, 5) ∷ (32, 6) ∷ [])
two_items-IsQueue = record {
  front = refl;
  back = refl;
  chain = (omega arith, refl, refl, (omega arith, refl, refl, tt));
}

fresh-IsQueue : IsQueue fresh_queue []
fresh-IsQueue = record { front = refl; back = refl; chain = tt }

abbrev script : List (Op ℕ)
script = push 48 7 ∷ size ∷ pop ∷ []

script-Supplied : Supplied script two_items
script-Supplied = ((omega arith, refl), λ r q1 e1. (tt, λ r2 q2 e2. (tt, λ r3 q3 e3. tt)))

run-Refines_example : Refines script two_items (5 ∷ 6 ∷ [])
run-Refines_example =
    run-Refines script two_items ((16, 5) ∷ (32, 6) ∷ []) two_items-IsQueue script-Supplied
      (omega arith)
