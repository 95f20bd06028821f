-- ===== src/Ide/Buffers.antt =====
-- The bytes that the sectors of a read put into its buffer.
use craft_osos.Base.{
  ℕ, zero, suc, ◌+◌, ◌-◌, ◌*◌, ◌/◌, ◌%◌, ◌≤◌, ◌<◌, ◌≡◌, inl, inr, Bool, true, false, List, [], ◌∷◌,
  ◌++◌, length, take, drop, arith, refl, sym, ap, ◌∙◌, Bool-cases, if◌then◌else◌, length-append,
  length-take, length-drop, append_assoc, append-nil,
}
use mathlib.Core.Path.{subst}
use craft_osos.Ide.Io.{Hardware, Ports, read_bytes}
use craft_osos.Ide.{
  Item, Given, error_flag, sector_size, sector_array, store, transfer_sector, given_of,
  next_position,
}

pub if_true : {A : Type 0} (b : Bool) (x y : A) → b ≡ true → (if b then x else y) ≡ x
if_true b x y h = rw h

pub if_false : {A : Type 0} (b : Bool) (x y : A) → b ≡ false → (if b then x else y) ≡ y
if_false b x y h = rw h

take-append :
    {A : Type 0} (n m : ℕ) (ys zs : List A)
    → length ys ≡ n
    → take (n + m) (ys ++ zs) ≡ ys ++ take m zs
take-append n m [] zs h = ap (λ k. take k zs) (omega arith)
take-append zero m (y ∷ ys) zs h = absurd (omega arith)
take-append (suc n) m (y ∷ ys) zs h =
    let e : suc n + m ≡ suc (n + m) = omega arith in
    ap (λ k. take k (y ∷ (ys ++ zs))) e ∙ ap (λ l. y ∷ l) (take-append n m ys zs (omega arith))

take-all : {A : Type 0} (n : ℕ) (xs : List A) → length xs ≡ n → take n xs ≡ xs
take-all zero [] h = refl
take-all (suc n) [] h = refl
take-all zero (x ∷ xs) h = absurd (omega arith)
take-all (suc n) (x ∷ xs) h = ap (λ l. x ∷ l) (take-all n xs (omega arith))

module _ (hw : Hardware) where
  pub length-read_bytes : (n count : ℕ) → length (read_bytes hw n count) ≡ 2 * count
  unfolding read_bytes
  length-read_bytes n zero = refl
  length-read_bytes n (suc count) = omega (arith, length-read_bytes (suc n) count)

  pub read_bytes-append :
      (n j k : ℕ) → read_bytes hw n (j + k) ≡ read_bytes hw n j ++ read_bytes hw (n + j) k
  unfolding read_bytes
  read_bytes-append n zero k =
      ap (λ m. read_bytes hw n m) {x = 0 + k} {y = k} (omega arith)
      ∙ ap (λ m. read_bytes hw m k) {x = n} {y = n + 0} (omega arith)
  read_bytes-append n (suc j) k =
      ap (λ m. read_bytes hw n m) {x = suc j + k} {y = suc (j + k)} (omega arith)
      ∙ ap (λ l. (hw.words n % 256) ∷ (hw.words n / 256 % 256) ∷ l)
          (read_bytes-append (suc n) j k
            ∙ ap (λ m. read_bytes hw (suc n) j ++ read_bytes hw m k) {x = suc n + j} {y = n + suc j}
                (omega arith))

-- A sector that is stored stands behind those in front of it, and the length stays.
module _ (position : ℕ) (sector buf : List ℕ) (whole : length sector ≡ sector_size)
    (fits : position * sector_size + sector_size ≤ length buf) where
  length-front : length (take (position * sector_size) buf) ≡ position * sector_size
  length-front = omega (arith, length-take (position * sector_size) buf)

  length-store : length (store position sector buf) ≡ length buf
  unfolding store
  length-store =
      let front = take (position * sector_size) buf in
      let behind = drop (suc position * sector_size) buf in
      omega (
        arith,
        length-append front (sector ++ behind),
        length-append sector behind,
        length-front,
        length-drop (suc position * sector_size) buf,
      )

  take-store :
      take (suc position * sector_size) (store position sector buf)
      ≡ take (position * sector_size) buf ++ sector
  unfolding store
  take-store =
      let front = take (position * sector_size) buf in
      let behind = drop (suc position * sector_size) buf in
      ap (λ n. take n (front ++ (sector ++ behind))) {x = suc position * sector_size}
        {y = position * sector_size + (sector_size + 0)} (omega arith)
      ∙ take-append (position * sector_size) (sector_size + 0) front (sector ++ behind) length-front
      ∙ ap (λ l. front ++ l) (take-append sector_size 0 sector behind whole ∙ append-nil sector)

-- What is in the way of a transfer, and what it will give in the end.
abbrev pub Sized : Item → Type 0
Sized i = (i.position < i.total) × (length (i.buffer) ≡ i.total * sector_size)

abbrev pub words_left : Item → ℕ
words_left i = if i.read then sector_array * (i.total - i.position) else 0

-- A read that goes on from the n-th word gives what its buffer holds in front of the position, and
-- the words to come behind it.
abbrev pub result_of : Hardware → ℕ → Item → Given
result_of hw n i =
    if i.read
    then Given.buffer (
        take (i.position * sector_size) (i.buffer)
        ++ read_bytes hw n (sector_array * (i.total - i.position)))
    else error_flag false

module _ (hw : Hardware) where
  -- An item whose last sector has been transferred gives its buffer.
  pub given-result :
      (n : ℕ) (i : Item)
      → i.position ≡ i.total
      → length (i.buffer) ≡ i.total * sector_size
      → given_of i ≡ result_of hw n i
  unfolding read_bytes
  given-result n i done sized = elim (Bool-cases (i.read)) [
    | inl e ↦
        if_true (i.read) (Given.buffer (i.buffer)) (error_flag false) e
        ∙ ap Given.buffer (
            sym (take-all (i.position * sector_size) (i.buffer) (omega arith))
            ∙ sym (append-nil (take (i.position * sector_size) (i.buffer)))
            ∙ ap (λ k. take (i.position * sector_size) (i.buffer) ++ read_bytes hw n k) {x = 0}
                {y = sector_array * (i.total - i.position)} (omega arith))
        ∙ sym (if_true (i.read) _ (error_flag false) e)
    | inr e ↦
        if_false (i.read) (Given.buffer (i.buffer)) (error_flag false) e
        ∙ sym (if_false (i.read) _ (error_flag false) e)
  ]

  -- The transfer of one sector.
  abbrev pub Step : Item → Ports → Item × Ports → Type 0
  Step i p (j, q) =
      (j.position ≡ suc (i.position))
      × (j.total ≡ i.total)
      × (j.call ≡ i.call)
      × (length (j.buffer) ≡ length (i.buffer))
      × (q.taken + words_left j ≡ p.taken + words_left i)
      × (result_of hw (q.taken) j ≡ result_of hw (p.taken) i)

  read-Step :
      (i : Item) (p : Ports)
      → Sized i
      → i.read ≡ true
      → Step i p (
        next_position i (store (i.position) (read_bytes hw (p.taken) sector_array) (i.buffer)),
        record p { taken = p.taken + sector_array },
      )
  read-Step i p (more, sized) e =
      let sector = read_bytes hw (p.taken) sector_array in
      let whole : length sector ≡ sector_size =
        omega (arith, length-read_bytes hw (p.taken) sector_array) in
      let fits : i.position * sector_size + sector_size ≤ length (i.buffer) = omega arith in
      let buf = store (i.position) sector (i.buffer) in
      let left = sector_array * (i.total - suc (i.position)) in
      (
        refl,
        refl,
        refl,
        length-store (i.position) sector (i.buffer) whole fits,
        ap (λ k. p.taken + sector_array + k) (if_true (i.read) left 0 e)
            ∙ omega arith
            ∙ ap (λ k. p.taken + k)
                (sym (if_true (i.read) (sector_array * (i.total - i.position)) 0 e)),
        if_true (i.read) _ (error_flag false) e
            ∙ ap Given.buffer (
                ap (λ l. l ++ read_bytes hw (p.taken + sector_array) left)
                  (take-store (i.position) sector (i.buffer) whole fits)
                ∙ append_assoc (take (i.position * sector_size) (i.buffer)) sector
                    (read_bytes hw (p.taken + sector_array) left)
                ∙ ap (λ l. take (i.position * sector_size) (i.buffer) ++ l)
                    (sym (read_bytes-append hw (p.taken) sector_array left))
                ∙ ap (λ k. take (i.position * sector_size) (i.buffer) ++ read_bytes hw (p.taken) k)
                    {x = sector_array + left} {y = sector_array * (i.total - i.position)}
                    (omega arith))
            ∙ sym (if_true (i.read) _ (error_flag false) e),
      )

  pub transfer_sector-Step : (i : Item) (p : Ports) → Sized i → Step i p (transfer_sector hw i p)
  transfer_sector-Step i p sized = elim (Bool-cases (i.read)) [
    | inl e ↦ subst (Step i p) (sym (if_true (i.read) _ _ e)) (read-Step i p sized e)
    | inr e ↦ subst (Step i p) (sym (if_false (i.read) _ _ e)) (
      refl,
      refl,
      refl,
      refl,
      ap (λ k. p.taken + k) (if_false (i.read) _ 0 e ∙ sym (if_false (i.read) _ 0 e)),
      if_false (i.read) _ (error_flag false) e ∙ sym (if_false (i.read) _ (error_flag false) e),
    )
  ]
