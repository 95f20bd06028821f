-- ===== src/Fat/Chain.antt =====
-- `next_cluster` against the layout of an allocation table: the entries of a list, one after the
-- other, in 12, 16 or 32 bits each.
use craft_osos.Base.{
  ℕ, zero, suc, ◌+◌, ◌-◌, ◌*◌, ◌/◌, ◌%◌, ◌^◌, ◌<◌, ◌≡◌, bit_and, bit_or, some, List, [], ◌∷◌,
  get_elem?, false, arith, refl, ap, ◌∙◌,
}
use craft_osos.Base.Bits.{bit_and-mask, bit_and_shifted, bit_or_high, bit_or_disjoint}
use craft_osos.Fat.{FatType, fat12, fat16, fat32, next_fat12, next_in, read_u16, read_u32, is_end}

-- The bytes of a table, lowest byte first. Two entries of 12 bits share their middle byte.
abbrev pub table_of : FatType → List ℕ → List ℕ
table_of fat12 [] = []
table_of fat12 (a ∷ []) = (a % 256) ∷ (a / 256) ∷ []
table_of fat12 (a ∷ b ∷ es) = (a % 256) ∷ (a / 256 + b % 16 * 16) ∷ (b / 16) ∷ table_of fat12 es
table_of fat16 [] = []
table_of fat16 (e ∷ es) = (e % 256) ∷ (e / 256) ∷ table_of fat16 es
table_of fat32 [] = []
table_of fat32 (e ∷ es) =
    (e % 256) ∷ (e / 256 % 256) ∷ (e / 65536 % 256) ∷ (e / 16777216) ∷ table_of fat32 es

abbrev pub entry_limit : FatType → ℕ
entry_limit fat12 = 2 ^ 12
entry_limit fat16 = 2 ^ 16
entry_limit fat32 = 2 ^ 32

abbrev pub Entries : FatType → List ℕ → Type 0
Entries t [] = Unit {0}
Entries t (e ∷ es) = (e < entry_limit t) × Entries t es

even_entry :
    (a hi : ℕ) → a < 4096 → hi % 16 ≡ a / 256 → bit_or (bit_and hi 0x0F * 256) (a % 256) ≡ a
even_entry a hi h e =
    let low : bit_and hi 0x0F ≡ a / 256 = bit_and-mask 4 hi ∙ e in
    rw low (bit_or_high 8 (a / 256) (a % 256) (omega arith) ∙ omega arith)

odd_entry :
    (h b : ℕ) → h < 16 → b < 4096 → bit_or (bit_and (h + b % 16 * 16) 0xF0 / 16) (b / 16 * 16) ≡ b
odd_entry h b hh hb =
    let x = h + b % 16 * 16 in
    let high : bit_and x 0xF0 / 16 ≡ b % 16 =
      omega (arith, bit_and_shifted 4 x 0xF, bit_and-mask 4 (x / 2 ^ 4)) in
    rw high (bit_or_disjoint 4 (b % 16) (b / 16) (omega arith) ∙ omega arith)

-- Reading behind the bytes of one group.
shift_2 :
    (a b : ℕ) (t : List ℕ) (i j : ℕ) → i ≡ suc (suc j) → get_elem? (a ∷ b ∷ t) i ≡ get_elem? t j
shift_2 a b t i j e = rw e

shift_3 :
    (a b c : ℕ) (t : List ℕ) (i j : ℕ)
    → i ≡ suc (suc (suc j))
    → get_elem? (a ∷ b ∷ c ∷ t) i ≡ get_elem? t j
shift_3 a b c t i j e = rw e

shift_4 :
    (a b c d : ℕ) (t : List ℕ) (i j : ℕ)
    → i ≡ suc (suc (suc (suc j)))
    → get_elem? (a ∷ b ∷ c ∷ d ∷ t) i ≡ get_elem? t j
shift_4 a b c d t i j e = rw e

next_fat16 :
    (es : List ℕ) (cl : ℕ)
    → Entries fat16 es
    → read_u16 (table_of fat16 es) (cl * 2) ≡ get_elem? es cl
unfolding read_u16
next_fat16 [] cl h = refl
next_fat16 (e ∷ es) zero (he, h) = ap some (omega arith)
next_fat16 (e ∷ es) (suc cl) (he, h) =
    rw
      (
        shift_2 (e % 256) (e / 256) (table_of fat16 es) (suc cl * 2) (cl * 2) (omega arith),
        shift_2 (e % 256) (e / 256) (table_of fat16 es) (suc cl * 2 + 1) (cl * 2 + 1) (omega arith),
      )
      (next_fat16 es cl h)

next_fat32 :
    (es : List ℕ) (cl : ℕ)
    → Entries fat32 es
    → read_u32 (table_of fat32 es) (cl * 4) ≡ get_elem? es cl
unfolding read_u16 read_u32
next_fat32 [] cl h = refl
next_fat32 (e ∷ es) zero (he, h) = ap some (omega arith)
next_fat32 (e ∷ es) (suc cl) (he, h) =
    let b0 = e % 256 in
    let b1 = e / 256 % 256 in
    let b2 = e / 65536 % 256 in
    let b3 = e / 16777216 in
    let t = table_of fat32 es in
    rw
      (
        shift_4 b0 b1 b2 b3 t (suc cl * 4) (cl * 4) (omega arith),
        shift_4 b0 b1 b2 b3 t (suc cl * 4 + 1) (cl * 4 + 1) (omega arith),
        shift_4 b0 b1 b2 b3 t (suc cl * 4 + 2) (cl * 4 + 2) (omega arith),
        shift_4 b0 b1 b2 b3 t (suc cl * 4 + 2 + 1) (cl * 4 + 2 + 1) (omega arith),
      )
      (next_fat32 es cl h)

next_fat12-entry :
    (es : List ℕ) (cl : ℕ) → Entries fat12 es → next_fat12 (table_of fat12 es) cl ≡ get_elem? es cl
unfolding next_fat12
next_fat12-entry [] cl h = ground arith
next_fat12-entry (a ∷ []) zero (ha, h) = ap some (even_entry a (a / 256) ha (omega arith))
next_fat12-entry (a ∷ []) (suc zero) h = refl
next_fat12-entry (a ∷ []) (suc (suc cl)) h =
    let i = suc (suc cl) / 2 * 3 in
    rw (shift_2 (a % 256) (a / 256) [] (i + 1) (i - 1) (omega arith)) (ground arith)
next_fat12-entry (a ∷ b ∷ es) zero (ha, (hb, h)) =
    ap some (even_entry a (a / 256 + b % 16 * 16) ha (omega arith))
next_fat12-entry (a ∷ b ∷ es) (suc zero) (ha, (hb, h)) =
    ap some (odd_entry (a / 256) b (omega arith) hb)
next_fat12-entry (a ∷ b ∷ es) (suc (suc cl)) (ha, (hb, h)) =
    let b0 = a % 256 in
    let b1 = a / 256 + b % 16 * 16 in
    let b2 = b / 16 in
    let t = table_of fat12 es in
    let same : suc (suc cl) % 2 ≡ cl % 2 = omega arith in
    rw
      (
        same,
        shift_3 b0 b1 b2 t (suc (suc cl) / 2 * 3) (cl / 2 * 3) (omega arith),
        shift_3 b0 b1 b2 t (suc (suc cl) / 2 * 3 + 1) (cl / 2 * 3 + 1) (omega arith),
        shift_3 b0 b1 b2 t (suc (suc cl) / 2 * 3 + 2) (cl / 2 * 3 + 2) (omega arith),
      )
      (next_fat12-entry es cl h)

-- In a table that holds the entries of a list, each in its width, which it fits, `next_cluster` of
-- a cluster is the entry of that number, for all three types of FAT; behind the last entry it reads
-- out of the table.
pub next_in-table_of :
    (t : FatType) (es : List ℕ) (cl : ℕ)
    → Entries t es
    → next_in t (table_of t es) cl ≡ get_elem? es cl
unfolding next_in
next_in-table_of fat12 es cl h = next_fat12-entry es cl h
next_in-table_of fat16 es cl h = next_fat16 es cl h
next_in-table_of fat32 es cl h = next_fat32 es cl h

-- The entries of FAT32 have 28 bits, and its end marks are 0x0FFFFFF8 and up; the test for them in
-- `int_ls` is for numbers of 32 bits, so no entry passes it.
pub is_end-fat32 : (e : ℕ) → e < 2 ^ 28 → is_end fat32 e ≡ false
unfolding is_end
is_end-fat32 e h = ground arith
