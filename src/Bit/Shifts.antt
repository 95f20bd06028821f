-- ===== src/Bit/Shifts.antt =====
-- The shifts of the `bit` library: where they are defined, and what they compute.
use craft_osos.Base.{
  ℕ, zero, suc, ◌+◌, ◌-◌, ◌*◌, ◌/◌, ◌%◌, ◌^◌, ◌≡◌, ◌<◌, ◌≤◌, refl, sym, ap, ◌∙◌, none, some,
  Option-cases, inl, inr, bit_and, bit_or, ltb, if◌then◌else◌, List, [], ◌∷◌, ◌++◌, ◌&&◌, arith,
  lt→ltb, le→ltb, ◌>>=◌,
}
use craft_osos.Base.Bits.{bit_and_shifted, bit_or_disjoint, pow-add, pow_pos, mod_unique}
use native.Mathlib.Nat.{pow-succ', mul-div_cancel, div-add-mod', mod-lt, div-lt_iff_lt-mul}
use native.Mathlib.Decide.{dec_lt}
use craft_osos.Base.Int.{to_unsigned}
use craft_osos.Lua.{Value, Api, arg}
use craft_osos.Bit.Laws.{to_unsigned-lt, unsigned-push}
use craft_osos.Bit.{
  shl, shr, arithmetic_shr, unsigned_arg, push_unsigned, bit_brshift, bit_blshift,
  bit_blogic_rshift,
}

split_32 : (b : ℕ) → b ≤ 32 → 2 ^ b * 2 ^ (32 - b) ≡ 2 ^ 32
split_32 b h = sym (pow-add b (32 - b)) ∙ ap (λ t. 2 ^ t) {y = 32} (omega arith)

shl-lt : (a b : ℕ) → b < 32 → shl a b ≡ some (a * 2 ^ b % 2 ^ 32)
unfolding shl
shl-lt a b h = rw (lt→ltb b 32 h)

shr-lt : (a b : ℕ) → b < 32 → shr a b ≡ some (a / 2 ^ b)
unfolding shr
shr-lt a b h = rw (lt→ltb b 32 h)

shr-ge : (a b : ℕ) → 32 ≤ b → shr a b ≡ none
unfolding shr
shr-ge a b h = rw (le→ltb b 32 h)

-- The sign bit is lost by every shift to the left of at least one place.
sign_lost : (a c : ℕ) → suc c < 32 → shl (bit_and a 0x80000000) (suc c) ≡ some 0
sign_lost a c h =
    let m = bit_and (a / 2 ^ 31) 1 in
    let e : bit_and a 0x80000000 ≡ m * 2 ^ 31 = bit_and_shifted 31 a 1 in
    let lost : m * 2 ^ 31 * (2 * 2 ^ c) % 2 ^ 32 ≡ 0 = omega arith in
    rw (e, shl-lt (m * 2 ^ 31) (suc c) h, pow-succ' 2 c, lost)

-- So the mask of the places that the shift frees is always all ones.
ones_shifted : (b : ℕ) → 0 < b → b < 32 → shl (2 ^ 32 - 1) (32 - b) ≡ some (2 ^ 32 - 2 ^ (32 - b))
ones_shifted b p h =
    let q = 2 ^ (32 - b) in
    let fits : q ≤ 2 ^ 32 = grind (arith, split_32 b (omega arith), pow_pos b) in
    rw (shl-lt (2 ^ 32 - 1) (32 - b) (omega arith)) (ap some (omega (arith, pow_pos (32 - b))))

-- A product of a number less one, where the number is not 0.
pred-mul : (p q : ℕ) → 0 < p → p * q - q ≡ (p - 1) * q
pred-mul zero q h = absurd (omega arith)
pred-mul (suc p) q h = let e : suc p - 1 ≡ p = omega arith in rw e (omega arith)

fill :
    (b k low : ℕ)
    → 2 ^ b * 2 ^ k ≡ 2 ^ 32
    → low < 2 ^ k
    → bit_or low (2 ^ 32 - 2 ^ k) ≡ low + (2 ^ 32 - 2 ^ k)
fill b k low e h =
    let split : 2 ^ 32 - 2 ^ k ≡ (2 ^ b - 1) * 2 ^ k =
      omega (arith, pred-mul (2 ^ b) (2 ^ k) (pow_pos b)) in
    rw split (bit_or_disjoint k low (2 ^ b - 1) h)

high_places : (a b k : ℕ) → a < 2 ^ 32 → 2 ^ b * 2 ^ k ≡ 2 ^ 32 → a / 2 ^ b < 2 ^ k
high_places a b k h e = (div-lt_iff_lt-mul (pow_pos b)).1 (omega arith)

arithmetic_shr-inside :
    (a b : ℕ)
    → a < 2 ^ 32
    → 0 < b
    → b < 32
    → arithmetic_shr a b ≡ some (a / 2 ^ b + (2 ^ 32 - 2 ^ (32 - b)))
unfolding arithmetic_shr
arithmetic_shr-inside a zero ha p h = absurd (omega arith)
arithmetic_shr-inside a (suc c) ha p h =
    let count : (32 + 2 ^ 32 - suc c) % 2 ^ 32 ≡ 32 - suc c = omega arith in
    let split = split_32 (suc c) (omega arith) in
    rw (shr-lt a (suc c) h, sign_lost a c h, count, ones_shifted (suc c) p h)
      (ap some (
        fill (suc c) (32 - suc c) (a / 2 ^ suc c) split
          (high_places a (suc c) (32 - suc c) ha split)))

shl_32 : (a : ℕ) → shl a 32 ≡ none
unfolding shl
shl_32 a = refl

low_places : (a p r : ℕ) → 0 < p → 0 < r → p * r ≡ 2 ^ 32 → a * p % 2 ^ 32 / p ≡ a % r
low_places a p r hp hr e =
    let whole : a * p ≡ a / r * 2 ^ 32 + a % r * p =
      omega (arith, ap (λ (t : ℕ). t * p) (div-add-mod' a r), ap (λ (t : ℕ). a / r * t) e) in
    let small : a % r * p < 2 ^ 32 = grind (arith, mod-lt a hr, e) in
    rw (whole, mod_unique (a / r) (2 ^ 32) (a % r * p) small, mul-div_cancel (a % r) hp)

arithmetic_shr-zero : (a : ℕ) → arithmetic_shr a 0 ≡ none
unfolding arithmetic_shr
arithmetic_shr-zero a = elim (Option-cases (shl (bit_and a 0x80000000) 0)) [
  | inl e ↦ rw (shr-lt a 0 (omega arith), e)
  | inr (s, e) ↦ rw (shr-lt a 0 (omega arith), e, shl_32 ((s + 2 ^ 32 - 1) % 2 ^ 32))
]

arithmetic_shr-ge : (a b : ℕ) → 32 ≤ b → arithmetic_shr a b ≡ none
unfolding arithmetic_shr
arithmetic_shr-ge a b h = rw (shr-ge a b h)

shl-ge : (a b : ℕ) → 32 ≤ b → shl a b ≡ none
unfolding shl
shl-ge a b h = rw (le→ltb b 32 h)

shifted_back : (a b : ℕ) → b < 32 → a * 2 ^ b % 2 ^ 32 / 2 ^ b ≡ a % 2 ^ (32 - b)
shifted_back a b h =
    low_places a (2 ^ b) (2 ^ (32 - b)) (pow_pos b) (pow_pos (32 - b)) (split_32 b (omega arith))

-- The places that a right shift by b frees.
abbrev pub freed_places : ℕ → ℕ
freed_places b = 2 ^ 32 - 2 ^ (32 - b)

arithmetic_shr_lem :
    {A : Type 0} (push : ℕ → A) (a b : ℕ)
    → a < 2 ^ 32
    → (arithmetic_shr a b >>= λ n. some (push n))
      ≡ (if ltb 0 b && ltb b 32 then some (push (a / 2 ^ b + freed_places b)) else none)
arithmetic_shr_lem push a b ha = elim (dec_lt 0 b) [
  | no z ↦ (let e : b ≡ 0 = omega arith in rw (e, arithmetic_shr-zero a))
  | yes p ↦ elim (dec_lt b 32) [
    | yes h ↦ rw (arithmetic_shr-inside a b ha p h, lt→ltb 0 b p, lt→ltb b 32 h)
    | no o ↦
        (let ge : 32 ≤ b = omega arith in
          rw (arithmetic_shr-ge a b ge, lt→ltb 0 b p, le→ltb b 32 ge))
  ]
]

module _ (api : Api) where
  -- `bit.brshift` is defined exactly for counts from 1 to 31, and then it fills the freed places
  -- with ones whatever the sign of its first argument is.
  pub bit_brshift_lem :
      (args : List Value)
      → let a = unsigned_arg api args 1 in
        let b = unsigned_arg api args 2 in
        bit_brshift api args ≡ (
          if ltb 0 b && ltb b 32
          then some (push_unsigned api (a / 2 ^ b + freed_places b))
          else none)
  unfolding bit_brshift
  bit_brshift_lem args =
      arithmetic_shr_lem (push_unsigned api) (unsigned_arg api args 1) (unsigned_arg api args 2)
        (to_unsigned-lt (api.to_integer (arg args 1)))

  -- `bit.blogic_rshift` of the result of `bit.blshift` by the same count is defined for counts
  -- below 32, and gives the 32 - b lowest places of the first argument back.
  pub blogic_rshift-blshift :
      (a b : Value)
      → let x = unsigned_arg api (a ∷ []) 1 in
        let n = unsigned_arg api (b ∷ []) 1 in
        (bit_blshift api (a ∷ b ∷ []) >>= λ r. bit_blogic_rshift api (r ++ b ∷ []))
        ≡ (if ltb n 32 then some (push_unsigned api (x % 2 ^ (32 - n))) else none)
  unfolding bit_blshift bit_blogic_rshift
  blogic_rshift-blshift a b =
      let x = to_unsigned 32 (api.to_integer a) in
      let n = to_unsigned 32 (api.to_integer b) in
      let read = unsigned-push api (x * 2 ^ n % 2 ^ 32) (omega arith) in
      elim (dec_lt n 32) [
        | yes h ↦
            rw (
              shl-lt x n h,
              read,
              shr-lt (x * 2 ^ n % 2 ^ 32) n h,
              shifted_back x n h,
              lt→ltb n 32 h,
            )
        | no o ↦ (let ge : 32 ≤ n = omega arith in rw (shl-ge x n ge, le→ltb n 32 ge))
      ]
