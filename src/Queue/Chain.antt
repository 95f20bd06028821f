-- ===== src/Queue/Chain.antt =====
-- The cells of a linked queue: what the heap holds when a queue is well formed.
use craft_osos.Base.{◌≡◌, ◌≢◌, Bool, true, false, ◌||◌, Option, none, some, List, [], ◌∷◌, ◌++◌}
use craft_osos.Base.{ap, Bool-cases, inl, inr, ◌==◌, arith, refl}
use craft_osos.Queue.{Ptr, null, Node, Heap, node, Queue, write, load, ok}

-- Address and content of each node, front first.
abbrev pub Cells : Type 0 → Type 0
Cells A = List (Ptr × A)

module _ {A : Type 0} where
  abbrev pub among : Ptr → Cells A → Bool
  among a [] = false
  among a ((p, _) ∷ xs) = (a == p) || among a xs

  abbrev pub first : Cells A → Ptr
  first [] = null
  first ((p, _) ∷ xs) = p

  abbrev pub last : Cells A → Ptr
  last [] = null
  last ((p, _) ∷ []) = p
  last (_ ∷ y ∷ ys) = last (y ∷ ys)

  -- Each node lies at an address of its own and leads to the next one, the last to NULL.
  abbrev pub Chain : Heap A → Cells A → Type 0
  Chain h [] = Unit {0}
  Chain h ((p, v) ∷ xs) =
      (p ≢ null) × (h p ≡ some (node v (first xs))) × (among p xs ≡ false) × Chain h xs

  abbrev pub contents : Cells A → List A
  contents [] = []
  contents ((_, v) ∷ xs) = v ∷ contents xs

  pub record IsQueue (q : Queue A) (xs : Cells A) : Type 0 where
    pub front : q.front ≡ first xs
    pub back : q.back ≡ last xs
    pub chain : Chain q.heap xs

  -- `g` is `h` but at the addresses of `xs`.
  abbrev pub SameOutside : Cells A → Heap A → Heap A → Type 0
  SameOutside xs h g = (a : Ptr) → among a xs ≡ false → g a ≡ h a

  -- A chain survives a change that spares its addresses.
  pub frame :
      (h g : Heap A) (xs : Cells A)
      → Chain h xs
      → ((a : Ptr) → among a xs ≡ true → g a ≡ h a)
      → Chain g xs
  frame h g [] c same = tt
  frame h g ((p, v) ∷ xs) (ne, holds, out, c) same =
      (ne, ground (arith, same p), out, frame h g xs c (λ a i. same a (ground arith)))

  pub write_self : (h : Heap A) (p : Ptr) (c : Option (Node A)) → write h p c p ≡ c
  unfolding write
  write_self h p c = ground arith

  pub write_ne : (h : Heap A) (p a : Ptr) (c : Option (Node A)) → a ≢ p → write h p c a ≡ h a
  unfolding write
  write_ne h p a c ne = ground arith

  pub frame-write :
      (h : Heap A) (p : Ptr) (c : Option (Node A)) (xs : Cells A)
      → Chain h xs
      → among p xs ≡ false
      → Chain (write h p c) xs
  unfolding write
  frame-write h p c xs k out = frame h _ xs k (λ a i. ground arith)

  pub load-some :
      (h : Heap A) (p : Ptr) (v : A) (n : Ptr)
      → p ≢ null
      → h p ≡ some (node v n)
      → load h p ≡ ok (node v n)
  unfolding load
  load-some h p v n ne e = ground arith

  pub among-append : (a : Ptr) (xs ys : Cells A) → among a (xs ++ ys) ≡ (among a xs || among a ys)
  among-append a [] ys = refl
  among-append a ((p, _) ∷ xs) ys = ground (arith, among-append a xs ys)

  pub ne_of_among : (a b : Ptr) (xs : Cells A) → among a xs ≡ true → among b xs ≡ false → a ≢ b
  ne_of_among a b [] i o = λ s. cc
  ne_of_among a b ((p, _) ∷ xs) i o = λ s. elim (Bool-cases (among a xs)) [
    | inl i' ↦ ne_of_among a b xs i' (ground arith) s
    | inr o' ↦ ground arith
  ]

  pub not-among-snoc :
      (a p : Ptr) (v : A) (xs : Cells A)
      → among a (xs ++ (p, v) ∷ []) ≡ false
      → (among a xs ≡ false) × (a ≢ p)
  not-among-snoc a p v xs o = ground (arith, among-append a xs ((p, v) ∷ []))

  pub not-has_of_none :
      (h : Heap A) (a : Ptr) (xs : Cells A) → Chain h xs → h a ≡ none → among a xs ≡ false
  not-has_of_none h a [] c e = refl
  not-has_of_none h a ((p, v) ∷ xs) (ne, holds, out, c) e =
      ground (arith, not-has_of_none h a xs c e)

  -- The last node of a chain that is not empty is one of its nodes and leads to NULL.
  pub last-holds :
      (h : Heap A) (p : Ptr) (w : A) (xs : Cells A)
      → Chain h ((p, w) ∷ xs)
      → let a = last ((p, w) ∷ xs) in
        (u : A) × (h a ≡ some (node u null)) × (a ≢ null) × (among a ((p, w) ∷ xs) ≡ true)
  last-holds h p w [] (ne, holds, out, c) = (w, holds, ne, ground arith)
  last-holds h p w ((p', w') ∷ xs) (ne, holds, out, c) =
      let (u, e, ne', i) = last-holds h p' w' xs c in (u, e, ne', ground arith)

  pub contents-append : (xs ys : Cells A) → contents (xs ++ ys) ≡ contents xs ++ contents ys
  contents-append [] ys = refl
  contents-append ((p, v) ∷ xs) ys = ap (λ t. v ∷ t) (contents-append xs ys)

  pub last-snoc : (xs : Cells A) (p : Ptr) (v : A) → last (xs ++ (p, v) ∷ []) ≡ p
  last-snoc [] p v = refl
  last-snoc (x ∷ []) p v = refl
  last-snoc (x ∷ y ∷ xs) p v = last-snoc (y ∷ xs) p v
