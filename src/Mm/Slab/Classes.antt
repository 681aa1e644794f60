-- ===== src/Mm/Slab/Classes.antt =====
-- The classes of chunk sizes.
use hecto_os.Base.{
  ℕ, zero, suc, ◌+◌, ◌*◌, ◌/◌, ◌-◌, ◌^◌, ◌≤◌, ◌<◌, ◌≡◌, ◌⊎◌, refl, ap, inl, inr, arith, sym, ◌∙◌,
  if◌then◌else◌, ltb, Bool-cases,
}
use native.Mathlib.Nat.{mul-div_cancel, div-add-mod', mod-lt, mul-le-mul_right}
use hecto_os.Base.Bits.{pow_two_suc, pow_two_add, pow_two_pos}
use hecto_os.Mm.Slab.{bit_length, leading_zeros, round_up_to, zone_shift, zone_index, nzones}

bit_length_zero : (fuel : ℕ) → bit_length fuel 0 ≡ 0
unfolding bit_length
bit_length_zero zero = refl
bit_length_zero (suc fuel) = refl

bit_length_lem : (fuel k n : ℕ) → k < fuel → 2 ^ k ≤ n → n < 2 ^ suc k → bit_length fuel n ≡ suc k
unfolding bit_length
bit_length_lem zero k n lt lo hi = ground arith
bit_length_lem (suc fuel) zero n lt lo hi =
    let one : n ≡ 1 = omega arith in rw one (ap suc (bit_length_zero fuel))
bit_length_lem (suc fuel) (suc k) n lt lo hi =
    let ih =
      bit_length_lem fuel k (n / 2) (omega arith) (omega (arith, pow_two_suc k))
        (omega (arith, pow_two_suc k, pow_two_suc (suc k))) in
    ground (arith, ih, pow_two_pos (suc k))

max_seven : (b : ℕ) → 7 ≤ b → (if ltb b 7 then 7 else b) ≡ b
max_seven b low = ground arith

max_small : (b : ℕ) → b ≤ 7 → (if ltb b 7 then 7 else b) ≡ 7
max_small b high = ground arith

pow_two_mono : (a b : ℕ) → a ≤ b → 2 ^ a ≤ 2 ^ b
pow_two_mono a zero le = let z : a ≡ 0 = omega arith in rw z (omega arith)
pow_two_mono a (suc b) le = elim (Bool-cases (ltb b a)) [
  | inl t ↦ let same : a ≡ suc b = ground (arith, t) in rw same (omega arith)
  | inr f ↦
      let ih = pow_two_mono a b (ground (arith, f)) in
      omega (arith, ih, pow_two_suc b, pow_two_pos b)
]

-- The place of the highest bit.
highest : (j n : ℕ) → 0 < n → n < 2 ^ j → (k : ℕ) × (k < j) × (2 ^ k ≤ n) × (n < 2 ^ suc k)
highest zero n pos lt = absurd (omega arith)
highest (suc j) n pos lt = elim (Bool-cases (ltb n (2 ^ j))) [
  | inl t ↦ let (k, below, lo, hi) = highest j n pos (ground (arith, t)) in (k, omega arith, lo, hi)
  | inr f ↦ (j, omega arith, ground (arith, f), lt)
]

zeros : leading_zeros 0 ≡ 64
unfolding bit_length
zeros = refl

shift_of :
    (k n : ℕ)
    → k < 64
    → 2 ^ k ≤ n
    → n < 2 ^ suc k
    → zone_shift n ≡ (if ltb (suc k) 7 then 7 else suc k) - 1 - 3
unfolding zone_shift
shift_of k n lt lo hi =
    let bits : 64 - (64 - suc k) ≡ suc k = omega arith in
    rw (bit_length_lem 64 k n lt lo hi, zeros, bits) refl

-- What the shift of a size of at most 16 KiB says of it.
InClass : ℕ → ℕ → Type 0
InClass bytes i =
    (zone_shift bytes ≡ i)
    × (3 ≤ i)
    × (i ≤ 11)
    × (bytes ≤ 16 * 2 ^ i)
    × (i ≡ 11 → bytes ≤ 8 * 2 ^ i)
    × ((i ≡ 3) ⊎ (8 * 2 ^ i ≤ bytes))

class_of : (bytes : ℕ) → 0 < bytes → bytes ≤ 16 * 1024 → (i : ℕ) × InClass bytes i
unfolding InClass
class_of bytes pos limit =
    let (k, below, lo, hi) = highest 15 bytes pos (omega arith) in
    let shift = shift_of k bytes (omega arith) lo hi in
    elim (Bool-cases (ltb k 7)) [
      | inl small ↦
          let le : suc k ≤ 7 = ground (arith, small) in
          let few = pow_two_mono (suc k) 7 le in
          (
            3,
            (
              shift ∙ ap (λ (b : ℕ). b - 1 - 3) (max_small (suc k) le),
              omega arith,
              omega arith,
              omega (arith, few),
              (λ e. omega arith),
              inl refl,
            ),
          )
      | inr large ↦
          let ge : 7 ≤ k = ground (arith, large) in
          let same : k - 3 + 3 ≡ k = omega (arith, ge) in
          let eight : 2 ^ k ≡ 2 ^ (k - 3) * 2 ^ 3 =
            ap (λ (b : ℕ). 2 ^ b) (sym same) ∙ pow_two_add (k - 3) 3 in
          (
            k - 3,
            (
              shift
                  ∙ ap (λ (b : ℕ). b - 1 - 3) (max_seven (suc k) (omega (arith, ge)))
                  ∙ omega arith,
              omega (arith, ge),
              omega arith,
              omega (arith, eight, pow_two_suc k),
              (λ e. rw e (omega arith)),
              inr (omega (arith, eight)),
            ),
          )
    ]

-- Rounding up to a multiple of d, by its quotient m.
round_bounds :
    (n d : ℕ)
    → 0 < d
    → (n ≤ (n + d - 1) / d * d)
      × ((n + d - 1) / d * d < n + d)
      × ((n + d - 1) / d * d / d ≡ (n + d - 1) / d)
round_bounds n d pos = (
  omega (arith, div-add-mod' (n + d - 1) d, mod-lt (n + d - 1) pos),
  omega (arith, div-add-mod' (n + d - 1) d, mod-lt (n + d - 1) pos),
  mul-div_cancel ((n + d - 1) / d) pos,
)

lt_of_mul : (m c d : ℕ) → m * d < c * d → m < c
lt_of_mul m c d lt = elim (Bool-cases (ltb m c)) [
  | inl t ↦ ground (arith, t)
  | inr f ↦ let le : c ≤ m = ground (arith, f) in absurd (omega (arith, mul-le-mul_right d le))
]

-- The quotient is at most 16, and 8 for the largest shift.
index_bound :
    (i m d bytes : ℕ)
    → 3 ≤ i
    → i ≤ 11
    → bytes ≤ 16 * d
    → (i ≡ 11 → bytes ≤ 8 * d)
    → m * d < bytes + d
    → m + 8 * (i - 3) - 1 < nzones
index_bound i m d bytes low high most last near =
    let lt : m < 17 = lt_of_mul m 17 d (omega (arith, most, near)) in
    elim (Bool-cases (ltb i 11)) [
      | inl t ↦ let le : i ≤ 10 = ground (arith, t) in omega (arith, lt, le)
      | inr f ↦
          let same : i ≡ 11 = ground (arith, f) in
          let few = last same in
          let lt' : m < 9 = lt_of_mul m 9 d (omega (arith, few, near)) in omega (arith, lt', same)
    ]

-- The size and the index for a shift of i.
fits_at :
    (bytes i : ℕ)
    → InClass bytes i
    → (bytes ≤ round_up_to bytes i)
      × (round_up_to bytes i / 2 ^ i + 8 * (i - 3) - 1 < nzones)
      × ((round_up_to bytes i < bytes + 8) ⊎ (8 * round_up_to bytes i < 9 * bytes))
unfolding InClass
fits_at bytes i (shift, low, high, most, last, least) =
    let (enough, near, quotient) = round_bounds bytes (2 ^ i) (pow_two_pos i) in
    (
      enough,
      rw quotient (index_bound i _ (2 ^ i) bytes low high most last near),
      elim least [
        | inl three ↦ inl (omega (arith, near, ap (λ (k : ℕ). 2 ^ k) three))
        | inr eighth ↦ inr (omega (arith, near, eighth))
      ],
    )

-- For a size of 1 to 16384 bytes, zone_index gives a chunk size that is enough and an index of one of
-- the 72 lists; the chunk is less than 8 bytes or less than an eighth larger than what was asked for.
pub zone_index-fits :
    (bytes : ℕ)
    → 0 < bytes
    → bytes ≤ 16 * 1024
    → (bytes ≤ (zone_index bytes).0)
      × ((zone_index bytes).1 < nzones)
      × (((zone_index bytes).0 < bytes + 8) ⊎ (8 * (zone_index bytes).0 < 9 * bytes))
unfolding zone_index InClass
zone_index-fits bytes pos limit =
    let (i, class) = class_of bytes pos limit in rw class.0 (fits_at bytes i class)
