-- ===== src/Base/Bits.antt =====
-- Shifts and masks at variables: a mask of k ones is a remainder, and joining disjoint bits is a sum.
use Prim.Native.Nat.{
  ℕ, zero, suc, ◌+◌, ◌*◌, ◌/◌, ◌%◌, ◌-◌, ◌^◌, ◌≤◌, ◌<◌, min, max, bit_and, bit_or, digits,
  bit_and-bitwise, bit_or-bitwise,
}
use mathlib.Core.Path.{◌≡◌, refl, sym, ap, ◌∙◌}
use native.Mathlib.Omega.{arith}
use native.Mathlib.Nat.{
  add-zero, add-suc, pow-suc, mod-lt, div-add-mod, mod-eq_of_lt, mul-add-mod_self_right,
  div-div-eq-div-mul,
}

-- The digits of a joint word do not depend on how many rounds are allowed, if there are enough.
module _ (base : ℕ → ℕ) (join : ℕ → ℕ → ℕ) where
  enough_rounds :
      (x rounds more : ℕ) (y : ℕ)
      → x ≤ rounds
      → x ≤ more
      → digits base join rounds x y ≡ digits base join more x y
  enough_rounds (suc x) (suc rounds) (suc more) y lo hi =
      ap (λ (d : ℕ). d * 2 + join (suc x % 2) (y % 2))
        (enough_rounds (suc x / 2) rounds more (y / 2) (omega arith) (omega arith))
  enough_rounds (suc x) zero more y lo hi = absurd (omega arith)
  enough_rounds (suc x) (suc rounds) zero y lo hi = absurd (omega arith)
  enough_rounds zero zero zero y lo hi = refl
  enough_rounds zero (suc rounds) zero y lo hi = refl
  enough_rounds zero zero (suc more) y lo hi = refl
  enough_rounds zero (suc rounds) (suc more) y lo hi = refl

  -- The lowest digit apart.
  lowest_digit :
      (x y : ℕ)
      → base y ≡ base (y / 2) * 2 + join 0 (y % 2)
      → digits base join x x y ≡ digits base join (x / 2) (x / 2) (y / 2) * 2 + join (x % 2) (y % 2)
  lowest_digit zero y h = h
  lowest_digit (suc x) y h =
      ap (λ (d : ℕ). d * 2 + join (suc x % 2) (y % 2))
        (enough_rounds (suc x / 2) x (suc x / 2) (y / 2) (omega arith) (omega arith))

pub bit_and_step : (x y : ℕ) → bit_and x y ≡ bit_and (x / 2) (y / 2) * 2 + min (x % 2) (y % 2)
bit_and_step x y =
    bit_and-bitwise x y
    ∙ lowest_digit (λ d. zero) min x y (omega arith)
    ∙ ap (λ (d : ℕ). d * 2 + min (x % 2) (y % 2)) (sym (bit_and-bitwise (x / 2) (y / 2)))

pub bit_or_step : (x y : ℕ) → bit_or x y ≡ bit_or (x / 2) (y / 2) * 2 + max (x % 2) (y % 2)
bit_or_step x y =
    bit_or-bitwise x y
    ∙ lowest_digit (λ d. d) max x y (omega arith)
    ∙ ap (λ (d : ℕ). d * 2 + max (x % 2) (y % 2)) (sym (bit_or-bitwise (x / 2) (y / 2)))

-- Both operations with no bits on the right.
no_bits : (bound x : ℕ) → x ≤ bound → (bit_and x 0 ≡ 0) × (bit_or x 0 ≡ x)
no_bits bound zero below = (refl, refl)
no_bits (suc bound) (suc x) below =
    let (all, any) = no_bits bound (suc x / 2) (omega arith) in
    (omega (arith, bit_and_step (suc x) 0, all), omega (arith, bit_or_step (suc x) 0, any))
no_bits zero (suc x) below = absurd (omega arith)

pub bit_and-zero : (x : ℕ) → bit_and x 0 ≡ 0
bit_and-zero x = (no_bits x x (omega arith)).0

pub bit_or-zero : (x : ℕ) → bit_or x 0 ≡ x
bit_or-zero x = (no_bits x x (omega arith)).1

pub pow_two_suc : (k : ℕ) → 2 ^ suc k ≡ 2 ^ k * 2
pow_two_suc k = pow-suc 2 k

pub pow_two_pos : (k : ℕ) → 0 < 2 ^ k
pow_two_pos zero = omega arith
pow_two_pos (suc k) = omega (arith, pow_two_suc k, pow_two_pos k)

pub pow_two_add : (m k : ℕ) → 2 ^ (m + k) ≡ 2 ^ m * 2 ^ k
pow_two_add m zero = rw (add-zero m) (omega arith)
pow_two_add m (suc k) =
    rw (add-suc m k, pow_two_suc (m + k), pow_two_suc k, pow_two_add m k) (omega arith)

mod_double : (a n : ℕ) → 0 < n → a % (n * 2) ≡ (a / 2) % n * 2 + a % 2
mod_double a n h =
    let r = a / 2 % n * 2 + a % 2 in
    let split : a ≡ a / 2 / n * (n * 2) + r = omega (arith, div-add-mod (a / 2) n) in
    let low : r < n * 2 = omega (arith, mod-lt (a / 2) {m = n} h) in
    let shift = mul-add-mod_self_right (a / 2 / n) (n * 2) r in
    ap (λ (t : ℕ). t % (n * 2)) split ∙ shift ∙ mod-eq_of_lt low

-- x & (2^k - 1)
pub bit_and-mask : (k a : ℕ) → bit_and a (2 ^ k - 1) ≡ a % 2 ^ k
bit_and-mask zero a = omega (arith, bit_and-zero a)
bit_and-mask (suc k) a =
    let half : (2 ^ suc k - 1) / 2 ≡ 2 ^ k - 1 = omega (arith, pow_two_suc k, pow_two_pos k) in
    let odd : (2 ^ suc k - 1) % 2 ≡ 1 = omega (arith, pow_two_suc k, pow_two_pos k) in
    rw (bit_and_step a (2 ^ suc k - 1), half, odd, bit_and-mask k (a / 2), pow_two_suc k)
      (omega (arith, mod_double a (2 ^ k) (pow_two_pos k)))

-- (p << k) | f, where f lies below 2^k
pub bit_or-shift : (k p f : ℕ) → f < 2 ^ k → bit_or (p * 2 ^ k) f ≡ p * 2 ^ k + f
bit_or-shift zero p f h = let f0 : f ≡ 0 = omega arith in rw f0 (omega (arith, bit_or-zero (p * 1)))
bit_or-shift (suc k) p f h =
    let double : p * 2 ^ suc k ≡ p * 2 ^ k * 2 =
      omega (arith, ap (λ (t : ℕ). p * t) (pow_two_suc k)) in
    let low : f / 2 < 2 ^ k = omega (arith, pow_two_suc k) in
    let half : p * 2 ^ k * 2 / 2 ≡ p * 2 ^ k = omega arith in
    rw double (rw (bit_or_step (p * 2 ^ k * 2) f, half, bit_or-shift k p (f / 2) low) (omega arith))

-- x & !(2^k - 1) on an m + k bit word
pub bit_and-high : (k m a : ℕ) → bit_and a ((2 ^ m - 1) * 2 ^ k) ≡ a / 2 ^ k % 2 ^ m * 2 ^ k
bit_and-high zero m a =
    let full : (2 ^ m - 1) * 1 ≡ 2 ^ m - 1 = omega arith in
    let whole : a / 1 ≡ a = omega arith in rw (full, bit_and-mask m a, whole) (omega arith)
bit_and-high (suc k) m a =
    let double : (2 ^ m - 1) * 2 ^ suc k ≡ (2 ^ m - 1) * 2 ^ k * 2 =
      omega (arith, ap (λ (t : ℕ). (2 ^ m - 1) * t) (pow_two_suc k)) in
    let half : (2 ^ m - 1) * 2 ^ k * 2 / 2 ≡ (2 ^ m - 1) * 2 ^ k = omega arith in
    let even : (2 ^ m - 1) * 2 ^ k * 2 % 2 ≡ 0 = omega arith in
    let shift : a / 2 / 2 ^ k ≡ a / 2 ^ suc k =
      div-div-eq-div-mul a 2 (2 ^ k) ∙ ap (λ (t : ℕ). a / t) (omega (arith, pow_two_suc k)) in
    rw double (
      rw (bit_and_step a ((2 ^ m - 1) * 2 ^ k * 2), half, even, bit_and-high k m (a / 2), shift)
        (omega (arith, ap (λ (t : ℕ). a / 2 ^ suc k % 2 ^ m * t) (pow_two_suc k))))
