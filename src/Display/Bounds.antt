-- ===== src/Display/Bounds.antt =====
-- Drawing on the lines of the screen stays inside of the buffers, and changes no cell of text.
use craft_osos.Base.{
  ℕ, zero, suc, ◌+◌, ◌-◌, ◌*◌, ◌/◌, ◌%◌, ◌^◌, ◌≤◌, ◌<◌, ◌≡◌, Bool, true, Option, none, some, List,
  [], ◌∷◌, map, length, length-map, get_or, get_elem?-eq-get_or, leb, ◌==◌, lt→ltb, arith, refl,
  if-keeps, ap, ◌>>=◌, if◌then◌else◌, Bool-cases, inl, inr, bit_and, bit_or,
}
use craft_osos.Base.Int.{ℤ, pos, negsuc}
use craft_osos.Display.{
  Terminal, Plane, Packer, Io, term_width, term_height, plane_size, read_cells, store_byte,
  pack_bit, pack, bitmap_row, blit_row, blit_rows, blit_planes, blit_line, blit_lines,
  redraw_cursor, on_screen, redraw_at,
}

abbrev IsSome : {A : Type 0} → Option A → Type 0
IsSome {A} o = (a : A) × (o ≡ some a)

bind-IsSome :
    {A B : Type 0} (o : Option A) (f : A → Option B)
    → IsSome o
    → ((a : A) → IsSome (f a))
    → IsSome (o >>= f)
bind-IsSome none f (a, e) k = cc
bind-IsSome (some a) f h k = k a

-- The two text buffers have their size.
pub record Sized (t : Terminal) : Type 0 where
  pub characters : length t.characters ≡ term_width * term_height
  pub colors : length t.colors ≡ term_width * term_height

store_byte-IsSome : (buf : Plane) (off b : ℕ) → off < plane_size → IsSome (store_byte buf off b)
store_byte-IsSome buf off b h = rw (lt→ltb off plane_size h) (_, refl)

-- The place of the next pixel, counted from the start of the plane.
abbrev place : Packer → ℕ
place (left, b, off, buf) = off * 8 + (8 - left)

record Free (p : Packer) : Type 0 where
  some_left : 0 < p.0
  at_most : p.0 ≤ 8

pack_bit-next :
    (bit : ℕ) (p : Packer)
    → Free p
    → place p < plane_size * 8
    → (p' : Packer) × (pack_bit bit p ≡ some p') × Free p' × (place p' ≡ place p + 1)
unfolding pack_bit
pack_bit-next bit (left, b, off, buf) h room = elim (Bool-cases (left == 1)) [
  | inl e ↦
      (let (buf', s) =
          store_byte-IsSome buf off (bit_or b (bit * 2 ^ (left - 1))) (omega (arith, h.at_most)) in
        (
          (8, 0, off + 1, buf'),
          rw (e, s) refl,
          record { some_left = omega arith; at_most = omega arith },
          ground (arith, h.at_most),
        ))
  | inr e ↦ (
    (left - 1, bit_or b (bit * 2 ^ (left - 1)), off, buf),
    rw e refl,
    record { some_left = ground (arith, h.some_left); at_most = omega (arith, h.at_most) },
    omega (arith, h.some_left, h.at_most),
  )
]

pack-IsSome :
    (bits : List ℕ) (p : Packer)
    → Free p
    → place p + length bits < plane_size * 8
    → IsSome (pack bits p)
unfolding pack
pack-IsSome [] (left, b, off, buf) h room = elim (Bool-cases (left == 8)) [
  | inl e ↦ rw e (buf, refl)
  | inr e ↦ rw e (store_byte-IsSome buf off _ (omega (arith, h.at_most)))
]
pack-IsSome (bit ∷ bits) p h room =
    let (p', e, free, next) = pack_bit-next bit p h (omega arith) in
    rw e (pack-IsSome bits p' free (omega arith))

read_cells-length :
    (t : Terminal) (i n : ℕ)
    → Sized t
    → i + n ≤ term_width * term_height
    → (cells : List (ℕ × ℕ)) × (read_cells t i n ≡ some cells) × (length cells ≡ n)
unfolding read_cells
read_cells-length t i zero s h = ([], refl, refl)
read_cells-length t i (suc n) s h =
    let (rest, e, l) = read_cells-length t (suc i) n s (omega arith) in
    (
      (get_or t.characters i 0, get_or t.colors i 0) ∷ rest,
      rw (
        get_elem?-eq-get_or t.characters i 0 (omega (arith, s.characters)),
        get_elem?-eq-get_or t.colors i 0 (omega (arith, s.colors)),
        e,
      ),
      ap suc l,
    )

module _ (font : ℕ → Bool) where
  length-bitmap_row :
      (cells : List (ℕ × ℕ)) (py : ℕ) → length (bitmap_row font cells py) ≡ 12 * length cells
  length-bitmap_row [] py = omega arith
  length-bitmap_row (c ∷ cells) py = omega (arith, length-bitmap_row cells py)

  blit_row-IsSome :
      (cells : List (ℕ × ℕ)) (i y start_x py : ℕ) (buf : Plane)
      → y < term_height
      → py < 18
      → start_x + length cells ≤ term_width
      → IsSome (blit_row font cells i y start_x py buf)
  unfolding blit_row
  blit_row-IsSome cells i y start_x py buf hy hp h =
      let left = 8 - start_x % 2 * 4 in
      let off = y * 1440 + py * 80 + start_x * 3 / 2 in
      pack-IsSome (map (λ v. v / 2 ^ i % 2) (bitmap_row font cells py))
        (left, if left == 8 then 0 else bit_and (buf off) 0xF0, off, buf)
        (record { some_left = omega arith; at_most = omega arith })
        (omega (
          arith,
          length-map (λ v. v / 2 ^ i % 2) (bitmap_row font cells py),
          length-bitmap_row cells py,
        ))

  blit_rows-IsSome :
      (rows : ℕ) (cells : List (ℕ × ℕ)) (i y start_x : ℕ) (buf : Plane)
      → rows ≤ 18
      → y < term_height
      → start_x + length cells ≤ term_width
      → IsSome (blit_rows font rows cells i y start_x buf)
  unfolding blit_rows
  blit_rows-IsSome zero cells i y start_x buf r hy h = (buf, refl)
  blit_rows-IsSome (suc rows) cells i y start_x buf r hy h =
      bind-IsSome _ _ (blit_row-IsSome cells i y start_x (17 - rows) buf hy (omega arith) h)
        (λ buf'. blit_rows-IsSome rows cells i y start_x buf' (omega arith) hy h)

-- A run that ends, in a state that differs in the pixels and what was done to the hardware only.
unfoldable pub Draws : Terminal → Option Terminal → Type 0
Draws t o =
    (buffer : ℕ → Plane) × (io : List Io) × (o ≡ some (record t { pixel_buffer = buffer; io = io }))

Draws-bind :
    (t : Terminal) (o : Option Terminal) (f : Terminal → Option Terminal)
    → Draws t o
    → ((buffer : ℕ → Plane) (io : List Io)
        → let t' = record t { pixel_buffer = buffer; io = io } in Draws t' (f t'))
    → Draws t (o >>= f)
unfolding Draws
Draws-bind t o f (buffer, io, e) k = rw e (k buffer io)

module _ (font : ℕ → Bool) where
  blit_planes-Draws :
      (planes : ℕ) (cells : List (ℕ × ℕ)) (y start_x : ℕ) (t : Terminal)
      → y < term_height
      → start_x + length cells ≤ term_width
      → Draws t (blit_planes font planes cells y start_x t)
  unfolding blit_planes Draws
  blit_planes-Draws zero cells y start_x t hy h = (t.pixel_buffer, t.io, refl)
  blit_planes-Draws (suc planes) cells y start_x t hy h =
      let i = 3 - planes in
      let (buf, e) =
        blit_rows-IsSome font 18 cells i y start_x (t.pixel_buffer i) (omega arith) hy h in
      let inside : leb (y * 1440 + 1440) plane_size ≡ true = ground arith in
      rw (e, inside) (blit_planes-Draws planes cells y start_x _ hy h)

  pub blit_line-Draws :
      (y start_x n : ℕ) (t : Terminal)
      → Sized t
      → y < term_height
      → start_x + n ≤ term_width
      → Draws t (blit_line font (pos y) start_x n t)
  unfolding blit_line
  blit_line-Draws y start_x n t s hy h =
      let (cells, e, l) = read_cells-length t (y * term_width + start_x) n s (omega arith) in
      rw e (blit_planes-Draws 4 cells y start_x t hy (omega arith))

  pub on_screen-lt :
      (cx cy : ℤ) (x y : ℕ) → on_screen cx cy ≡ some (x, y) → (x < term_width) × (y < term_height)
  on_screen-lt (negsuc a) cy x y e = cc
  on_screen-lt (pos a) (negsuc b) x y e = cc
  on_screen-lt (pos a) (pos b) x y e = ground arith

  redraw_at-Draws :
      (o : Option (ℕ × ℕ)) (t : Terminal)
      → Sized t
      → ((x y : ℕ) → o ≡ some (x, y) → (x < term_width) × (y < term_height))
      → Draws t (redraw_at font o t)
  unfolding redraw_at Draws
  redraw_at-Draws none t s h = (t.pixel_buffer, t.io, refl)
  redraw_at-Draws (some (x, y)) t s h =
      let (hx, hy) = h x y refl in
      Draws-bind t _ _ (blit_line-Draws y x 1 t s hy (omega arith)) (λ buffer io.
        if-keeps (λ u. Draws (record t { pixel_buffer = buffer; io = io }) (some u)) t.cursor_show _
          _ (buffer, _, refl) (buffer, _, refl))

  pub redraw_cursor-Draws : (t : Terminal) → Sized t → Draws t (redraw_cursor font t)
  unfolding redraw_cursor
  redraw_cursor-Draws t s =
      redraw_at-Draws (on_screen t.cursor_x t.cursor_y) t s (on_screen-lt t.cursor_x t.cursor_y)

  pub blit_lines-Draws :
      (lines : ℕ) (t : Terminal) → Sized t → lines ≤ term_height → Draws t (blit_lines font lines t)
  unfolding blit_lines Draws
  blit_lines-Draws zero t s h = (t.pixel_buffer, t.io, refl)
  blit_lines-Draws (suc lines) t s h =
      Draws-bind t _ _
        (blit_line-Draws (term_height - 1 - lines) 0 term_width t s (omega arith) (omega arith))
        (λ buffer io.
          blit_lines-Draws lines _ (record { characters = s.characters; colors = s.colors })
            (omega arith))
