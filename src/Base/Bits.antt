-- ===== src/Base/Bits.antt =====
-- Laws of the bitwise operations at variables, which the libraries have only at numerals: the
-- digit recursion, low masks, disjoint parts, complement, and bounds.
use Prim.Native.Nat.{ℕ, zero, suc, ◌+◌, ◌-◌, ◌*◌, ◌/◌, ◌%◌, ◌^◌, ◌≤◌, ◌<◌, min, max}
use Prim.Native.Nat.{digits, bitwise, differ, bit_and, bit_or, bit_xor}
use Prim.Native.Nat.{bit_and-bitwise, bit_or-bitwise, bit_xor-bitwise}
use mathlib.Core.Path.{◌≡◌, refl, ap, ◌∙◌}
use native.Mathlib.Omega.{arith}
use native.Mathlib.Nat.{pow-succ', one-le-pow, mod-lt, div-add-mod', div-one}

-- One step of `bitwise`, for any digit operation whose `z` is its value on an exhausted number.
module _ (z : ℕ → ℕ) (f : ℕ → ℕ → ℕ) (rest : (b : ℕ) → z b ≡ z (b / 2) * 2 + f 0 (b % 2)) where
  -- Fuel for all digits of the first number is enough.
  one_more : (n a b : ℕ) → a ≤ n → digits z f (suc n) a b ≡ digits z f n a b
  one_more zero zero b h = refl
  one_more (suc n) zero b h = refl
  one_more zero (suc a) b h = absurd (omega arith)
  one_more (suc n) (suc a) b h =
      ap (λ high. high * 2 + f (suc a % 2) (b % 2)) (one_more n (suc a / 2) (b / 2) (omega arith))

  excess : (k a b : ℕ) → digits z f (k + a) a b ≡ digits z f a a b
  excess zero a b = ap (λ n. digits z f n a b) {y = a} (omega arith)
  excess (suc k) a b =
      ap (λ n. digits z f n a b) {y = suc (k + a)} (omega arith)
      ∙ one_more (k + a) a b (omega arith)
      ∙ excess k a b

  halved : (a b : ℕ) → digits z f a (suc a / 2) b ≡ digits z f (suc a / 2) (suc a / 2) b
  halved a b =
      let half = suc a / 2 in
      ap (λ n. digits z f n half b) {y = a - half + half} (omega arith) ∙ excess (a - half) half b

  bitwise_step : (a b : ℕ) → bitwise z f a b ≡ bitwise z f (a / 2) (b / 2) * 2 + f (a % 2) (b % 2)
  bitwise_step zero b = rest b
  bitwise_step (suc a) b = ap (λ high. high * 2 + f (suc a % 2) (b % 2)) (halved a (b / 2))

pub and_step : (a b : ℕ) → bit_and a b ≡ bit_and (a / 2) (b / 2) * 2 + min (a % 2) (b % 2)
and_step a b = omega (
  arith,
  bit_and-bitwise a b,
  bit_and-bitwise (a / 2) (b / 2),
  bitwise_step (λ b. zero) min (λ b. omega arith) a b,
)

pub or_step : (a b : ℕ) → bit_or a b ≡ bit_or (a / 2) (b / 2) * 2 + max (a % 2) (b % 2)
or_step a b = omega (
  arith,
  bit_or-bitwise a b,
  bit_or-bitwise (a / 2) (b / 2),
  bitwise_step (λ b. b) max (λ b. omega arith) a b,
)

pub zero-bit_or : (b : ℕ) → bit_or 0 b ≡ b
zero-bit_or b = bit_or-bitwise 0 b

pub mod_unique : (q m r : ℕ) → r < m → (q * m + r) % m ≡ r
mod_unique q m r h = grind arith

mod_double : (x p : ℕ) → 0 < p → x % (2 * p) ≡ x / 2 % p * 2 + x % 2
mod_double x p h =
    let r = x / 2 % p * 2 + x % 2 in
    ap (λ t. t % (2 * p)) (omega (arith, div-add-mod' (x / 2) p))
    ∙ mod_unique (x / 2 / p) (2 * p) r (omega (arith, mod-lt (x / 2) h))

pub pow_pos : (k : ℕ) → 0 < 2 ^ k
pow_pos k = one-le-pow k 2 (omega arith)

-- The lower half and the lowest digit of a number 2 * p - 1 - a.
half_of_complement : (p a : ℕ) → a < 2 * p → (2 * p - 1 - a) / 2 ≡ p - 1 - a / 2
half_of_complement p a h = omega arith

and-zero : (a : ℕ) → bit_and a 0 ≡ 0
and-zero a = go a a (omega arith)
  where
    go : (n a : ℕ) → a ≤ n → bit_and a 0 ≡ 0
    go n zero h = bit_and-bitwise 0 0
    go zero (suc a) h = absurd (omega arith)
    go (suc n) (suc a) h = omega (arith, and_step (suc a) 0, go n (suc a / 2) (omega arith))

and-mask_step :
    (p x : ℕ) → 0 < p → bit_and (x / 2) (p - 1) ≡ x / 2 % p → bit_and x (2 * p - 1) ≡ x % (2 * p)
and-mask_step p x h ih =
    let half : (2 * p - 1) / 2 ≡ p - 1 = omega arith in
    rw (and_step, half, ih) (omega (arith, mod_double x p h))

-- A mask of k ones keeps the k lowest digits.
pub bit_and-mask : (k x : ℕ) → bit_and x (2 ^ k - 1) ≡ x % 2 ^ k
bit_and-mask zero x = omega (arith, and-zero x)
bit_and-mask (suc k) x = rw pow-succ' (and-mask_step (2 ^ k) x (pow_pos k) (bit_and-mask k (x / 2)))

or-disjoint_step :
    (p low h : ℕ)
    → bit_or (low / 2) (h * p) ≡ low / 2 + h * p
    → bit_or low (h * (2 * p)) ≡ low + h * (2 * p)
or-disjoint_step p low h ih =
    let half : h * (2 * p) / 2 ≡ h * p = omega arith in rw (or_step, half, ih) (omega arith)

-- Numbers that share no digit place are added by `bit_or`: `low` below 2 ^ k, `h` shifted by k.
pub bit_or_disjoint : (k low h : ℕ) → low < 2 ^ k → bit_or low (h * 2 ^ k) ≡ low + h * 2 ^ k
bit_or_disjoint zero low h lt =
    let e : low ≡ 0 = omega arith in rw e (omega (arith, zero-bit_or (h * 2 ^ 0)))
bit_or_disjoint (suc k) low h lt =
    rw pow-succ' (
      or-disjoint_step (2 ^ k) low h (bit_or_disjoint k (low / 2) h (omega (arith, pow-succ' 2 k))))

pub bit_and-le : (a b : ℕ) → bit_and a b ≤ a
bit_and-le a b = go a a b (omega arith)
  where
    go : (n a b : ℕ) → a ≤ n → bit_and a b ≤ a
    go n zero b h = omega (arith, bit_and-bitwise 0 b)
    go zero (suc a) b h = absurd (omega arith)
    go (suc n) (suc a) b h =
        omega (arith, and_step (suc a) b, go n (suc a / 2) (b / 2) (omega arith))

pub bit_or-lt : (k a b : ℕ) → a < 2 ^ k → b < 2 ^ k → bit_or a b < 2 ^ k
bit_or-lt zero a b p q = let e : a ≡ 0 = omega arith in rw e (omega (arith, zero-bit_or b))
bit_or-lt (suc k) a b p q =
    let next =
      bit_or-lt k (a / 2) (b / 2) (omega (arith, pow-succ' 2 k)) (omega (arith, pow-succ' 2 k)) in
    omega (arith, or_step a b, pow-succ' 2 k)

de_morgan_step :
    (p a b : ℕ)
    → a < 2 * p
    → b < 2 * p
    → bit_or (p - 1 - a / 2) (p - 1 - b / 2) ≡ p - 1 - bit_and (a / 2) (b / 2)
    → bit_or (2 * p - 1 - a) (2 * p - 1 - b) ≡ 2 * p - 1 - bit_and a b
de_morgan_step p a b ha hb ih =
    rw (or_step, half_of_complement p a ha, half_of_complement p b hb, ih)
      (omega (arith, and_step a b, bit_and-le (a / 2) (b / 2)))

-- In k digits the complement of an and is the or of the complements.
pub bit_or-complement :
    (k a b : ℕ)
    → a < 2 ^ k
    → b < 2 ^ k
    → bit_or (2 ^ k - 1 - a) (2 ^ k - 1 - b) ≡ 2 ^ k - 1 - bit_and a b
bit_or-complement zero a b p q =
    let e : 2 ^ 0 - 1 - a ≡ 0 = omega arith in rw e (omega (arith, zero-bit_or (2 ^ 0 - 1 - b)))
bit_or-complement (suc k) a b p q =
    let e : 2 ^ suc k ≡ 2 * 2 ^ k = pow-succ' 2 k in
    rw e (
      de_morgan_step (2 ^ k) a b (rw e at p) (rw e at q)
        (bit_or-complement k (a / 2) (b / 2) (omega (arith, e)) (omega (arith, e))))

pub xor_step : (a b : ℕ) → bit_xor a b ≡ bit_xor (a / 2) (b / 2) * 2 + differ (a % 2) (b % 2)
xor_step a b = omega (
  arith,
  bit_xor-bitwise a b,
  bit_xor-bitwise (a / 2) (b / 2),
  bitwise_step (λ b. b) differ (λ b. omega arith) a b,
)

differ_twice : (x y : ℕ) → x < 2 → y < 2 → (differ (differ x y) y ≡ x) × (differ x y < 2)
differ_twice zero zero p q = (refl, omega arith)
differ_twice zero (suc zero) p q = (refl, omega arith)
differ_twice (suc zero) zero p q = (refl, omega arith)
differ_twice (suc zero) (suc zero) p q = (refl, omega arith)
differ_twice (suc (suc x)) y p q = absurd (omega arith)
differ_twice x (suc (suc y)) p q = absurd (omega arith)

xor_halves :
    (a b : ℕ)
    → (bit_xor a b / 2 ≡ bit_xor (a / 2) (b / 2)) × (bit_xor a b % 2 ≡ differ (a % 2) (b % 2))
xor_halves a b =
    let small = (differ_twice (a % 2) (b % 2) (omega arith) (omega arith)).1 in
    omega (arith, xor_step a b)

pub bit_xor-lt : (k a b : ℕ) → a < 2 ^ k → b < 2 ^ k → bit_xor a b < 2 ^ k
bit_xor-lt zero a b p q =
    let e : a ≡ 0 = omega arith in let e' : b ≡ 0 = omega arith in rw (e, e') (omega arith)
bit_xor-lt (suc k) a b p q =
    let e : 2 ^ suc k ≡ 2 * 2 ^ k = pow-succ' 2 k in
    let next = bit_xor-lt k (a / 2) (b / 2) (omega (arith, e)) (omega (arith, e)) in
    omega (arith, xor_halves a b, e)

-- Exclusive or with the same number twice gives the first number back.
pub bit_xor_twice : (k a b : ℕ) → a < 2 ^ k → b < 2 ^ k → bit_xor (bit_xor a b) b ≡ a
bit_xor_twice zero a b h h' =
    let e : a ≡ 0 = omega arith in let e' : b ≡ 0 = omega arith in rw (e, e')
bit_xor_twice (suc k) a b h h' =
    let halves = xor_halves a b in
    let next =
      bit_xor_twice k (a / 2) (b / 2) (omega (arith, pow-succ' 2 k))
        (omega (arith, pow-succ' 2 k)) in
    let digit = (differ_twice (a % 2) (b % 2) (omega arith) (omega arith)).0 in
    xor_step (bit_xor a b) b ∙ rw (halves.0, halves.1, next, digit) (omega arith)

pub pow-add : (a b : ℕ) → 2 ^ (a + b) ≡ 2 ^ a * 2 ^ b
pow-add zero b = let e : 0 + b ≡ b = omega arith in rw e (omega arith)
pow-add (suc a) b =
    let e : suc a + b ≡ suc (a + b) = omega arith in
    rw (e, pow-succ' 2 (a + b), pow-succ' 2 a, pow-add a b) (omega arith)

div_double : (x p : ℕ) → 0 < p → x / 2 / p ≡ x / (2 * p)
div_double x p h = grind arith

and-shifted_step :
    (p a h : ℕ)
    → 0 < p
    → bit_and (a / 2) (h * p) ≡ bit_and (a / 2 / p) h * p
    → bit_and a (h * (2 * p)) ≡ bit_and (a / (2 * p)) h * (2 * p)
and-shifted_step p a h pos ih =
    let half : h * (2 * p) / 2 ≡ h * p = omega arith in
    and_step a (h * (2 * p)) ∙ rw (half, ih, div_double a p pos) (omega arith)

-- A mask that is shifted by k picks the digits from place k on.
pub bit_and_shifted : (k a h : ℕ) → bit_and a (h * 2 ^ k) ≡ bit_and (a / 2 ^ k) h * 2 ^ k
bit_and_shifted zero a h =
    let e : h * 2 ^ 0 ≡ h = omega arith in
    let e' : a / 2 ^ 0 ≡ a = omega arith in rw (e, e') (omega arith)
bit_and_shifted (suc k) a h =
    rw pow-succ' (and-shifted_step (2 ^ k) a h (pow_pos k) (bit_and_shifted k (a / 2) h))

or-zero : (a : ℕ) → bit_or a 0 ≡ a
or-zero a = go a a (omega arith)
  where
    go : (n a : ℕ) → a ≤ n → bit_or a 0 ≡ a
    go n zero h = zero-bit_or 0
    go zero (suc a) h = absurd (omega arith)
    go (suc n) (suc a) h = omega (arith, or_step (suc a) 0, go n (suc a / 2) (omega arith))

or-high_step :
    (p h low : ℕ)
    → bit_or (h * p) (low / 2) ≡ h * p + low / 2
    → bit_or (h * (2 * p)) low ≡ h * (2 * p) + low
or-high_step p h low ih =
    let half : h * (2 * p) / 2 ≡ h * p = omega arith in rw (or_step, half, ih) (omega arith)

-- The same with the shifted part first.
pub bit_or_high : (k h low : ℕ) → low < 2 ^ k → bit_or (h * 2 ^ k) low ≡ h * 2 ^ k + low
bit_or_high zero h low lt =
    let e : low ≡ 0 = omega arith in rw e (omega (arith, or-zero (h * 2 ^ 0)))
bit_or_high (suc k) h low lt =
    rw pow-succ'
      (or-high_step (2 ^ k) h low (bit_or_high k h (low / 2) (omega (arith, pow-succ' 2 k))))

and-halves : (a b : ℕ) → bit_and a b / 2 ≡ bit_and (a / 2) (b / 2)
and-halves a b = omega (arith, and_step a b)

-- The places of an `and` from k on.
pub bit_and-div : (k a b : ℕ) → bit_and a b / 2 ^ k ≡ bit_and (a / 2 ^ k) (b / 2 ^ k)
bit_and-div zero a b = rw (div-one, div-one, div-one)
bit_and-div (suc k) a b =
    let p = 2 ^ k in
    rw (
      pow-succ' 2 k,
      ← div_double (bit_and a b) p (pow_pos k),
      and-halves,
      bit_and-div k (a / 2) (b / 2),
      div_double a p (pow_pos k),
      div_double b p (pow_pos k),
    )
