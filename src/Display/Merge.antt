-- ===== src/Display/Merge.antt =====
-- The end of a row of pixels in the middle of a byte.
use craft_osos.Base.{
  ℕ, ◌+◌, ◌*◌, ◌/◌, ◌%◌, ◌<◌, ◌≡◌, Bool, true, bit_and, bit_or, max, some, [], ◌∷◌, ◌==◌, ==_iff,
  lt→ltb, if◌then◌else◌, first_pass, of_first_pass, arith, refl, ap,
}
use craft_osos.Display.{Plane, plane_size, pack, pack_bit}

-- The byte that `pack` stores for four bits and an old byte.
merged : ℕ → ℕ → ℕ → ℕ → ℕ → ℕ
merged b3 b2 b1 b0 old =
    bit_or (bit_or (bit_or (bit_or (bit_or 0 (b3 * 128)) (b2 * 64)) (b1 * 32)) (b0 * 16))
      (bit_and old 31)

-- What is in it: the fourth pixel is on if the new or the old one is.
unfoldable pub half_kept : ℕ → ℕ → ℕ → ℕ → ℕ → ℕ
half_kept b3 b2 b1 b0 old = b3 * 128 + b2 * 64 + b1 * 32 + max b0 (old / 16 % 2) * 16 + old % 16

agrees : ℕ → Bool
agrees n =
    let b3 = n / 2048 % 2 in
    let b2 = n / 1024 % 2 in
    let b1 = n / 512 % 2 in
    let b0 = n / 256 % 2 in merged b3 b2 b1 b0 (n % 256) == half_kept b3 b2 b1 b0 (n % 256)

agrees_table : first_pass agrees 4096 ≡ true
unfolding first_pass agrees merged half_kept
agrees_table = refl

merged-half_kept :
    (b3 b2 b1 b0 old : ℕ)
    → b3 < 2
    → b2 < 2
    → b1 < 2
    → b0 < 2
    → old < 256
    → merged b3 b2 b1 b0 old ≡ half_kept b3 b2 b1 b0 old
unfolding agrees
merged-half_kept b3 b2 b1 b0 old h3 h2 h1 h0 ho =
    let n = b3 * 2048 + b2 * 1024 + b1 * 512 + b0 * 256 + old in
    let e3 : n / 2048 % 2 ≡ b3 = omega arith in
    let e2 : n / 1024 % 2 ≡ b2 = omega arith in
    let e1 : n / 512 % 2 ≡ b1 = omega arith in
    let e0 : n / 256 % 2 ≡ b0 = omega arith in
    let eo : n % 256 ≡ old = omega arith in
    let table : merged (n / 2048 % 2) (n / 1024 % 2) (n / 512 % 2) (n / 256 % 2) (n % 256)
        ≡ half_kept (n / 2048 % 2) (n / 1024 % 2) (n / 512 % 2) (n / 256 % 2) (n % 256) =
      (==_iff _ _).0 (of_first_pass agrees n 4096 (omega arith) agrees_table) in
    cc

-- A row of pixels that ends with the first four bits of a byte stores the first three of them and
-- keeps the last four bits of the old byte, but the fourth pixel is on if the new or the old one
-- is: a pixel there that is on stays on. The byte is assumed to lie in the plane.
pub pack-half_byte :
    (b3 b2 b1 b0 off : ℕ) (buf : Plane)
    → b3 < 2
    → b2 < 2
    → b1 < 2
    → b0 < 2
    → buf off < 256
    → off < plane_size
    → pack (b3 ∷ b2 ∷ b1 ∷ b0 ∷ []) (8, 0, off, buf)
      ≡ some (λ k. if k == off then half_kept b3 b2 b1 b0 (buf off) else buf k)
unfolding pack pack_bit merged
pack-half_byte b3 b2 b1 b0 off buf h3 h2 h1 h0 ho inside = rw (lt→ltb off plane_size inside) (
    ap (λ b. some (λ (k : ℕ). if k == off then b else buf k))
      (merged-half_kept b3 b2 b1 b0 (buf off) h3 h2 h1 h0 ho))
