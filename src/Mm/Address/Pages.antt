-- ===== src/Mm/Address/Pages.antt =====
-- What the conversions of kernel/src/mm/address.rs mean for the bytes of a page.
use hecto_os.Base.{
  ℕ, sym, ◌+◌, ◌-◌, ◌*◌, ◌/◌, ◌%◌, ◌^◌, ◌≤◌, ◌<◌, ◌≡◌, refl, ◌⊎◌, ◌↔◌, ap, ◌∙◌, some, List, [], ◌∷◌,
  bit_and, arith, get_or,
}
use hecto_os.Base.Bits.{bit_and-mask, bit_and-high, pow_two_pos, pow_two_add}
use hecto_os.Base.Word.{usize_mod, checked_add, checked_sub}
use hecto_os.Mm.Address.{
  kernel_map_offset, vpn_of_ppn, va_of_pa, pa_of_va, address_of_page, floor, ceil, page_offset,
  indexes, VaRange, vpn_range, range_cmp, round_down, round_up,
}
use Prim.Native.Nat.{Ordering, max}
use native.Mathlib.Nat.{mul-mod_left, mod-eq_of_lt, div-lt_iff_lt-mul}

pub page_offset_lem : (a : ℕ) → page_offset a ≡ a % 4096
unfolding page_offset
page_offset_lem a = bit_and-mask 12 a

-- An address is the address of its page plus the offset in the page.
pub floor-page_offset : (a : ℕ) → a < usize_mod → address_of_page (floor a) + page_offset a ≡ a
unfolding floor address_of_page
floor-page_offset a h = omega (arith, page_offset_lem a)

pub floor-address_of_page : (n : ℕ) → n < 2 ^ 52 → floor (address_of_page n) ≡ n
unfolding floor address_of_page
floor-address_of_page n h = omega arith

pub ceil_lem : (a : ℕ) → 0 < a → a + 4096 ≤ usize_mod → ceil a ≡ some ((a + 4095) / 4096)
unfolding ceil checked_sub checked_add
ceil_lem a h k = ground arith

-- The pages of a nonempty range are exactly those in which one of its bytes lies.
pub vpn_range_covers :
    (r : VaRange)
    → r.start < r.end
    → r.end + 4096 ≤ usize_mod
    → (lo : ℕ) × (hi : ℕ) × (vpn_range r ≡ some (lo, hi))
      × ((v : ℕ) → ((lo ≤ v) × (v < hi)) ↔ ((a : ℕ) × (r.start ≤ a) × (a < r.end) × (floor a ≡ v)))
unfolding vpn_range floor
vpn_range_covers r h k = (
  r.start / 4096,
  (r.end + 4095) / 4096,
  rw (ceil_lem r.end (omega arith) k) refl,
  λ v. (
    λ (p, q). (max (v * 4096) r.start, omega arith, omega arith, omega arith),
    λ (a, p, q, e). (omega arith, omega arith),
  ),
)

-- The three indices of a page number lie in a table, and give the page number back.
pub indexes_join :
    (vpn : ℕ)
    → vpn < 2 ^ 27
    → (i : ℕ) × (j : ℕ) × (k : ℕ) × (indexes vpn ≡ i ∷ j ∷ k ∷ [])
      × (i < 512)
      × (j < 512)
      × (k < 512)
      × (i * 2 ^ 18 + j * 2 ^ 9 + k ≡ vpn)
unfolding indexes
indexes_join vpn h = (
  vpn / 512 / 512 % 512,
  vpn / 512 % 512,
  vpn % 512,
  rw (bit_and-mask 9 (vpn / 512 / 512), bit_and-mask 9 (vpn / 512), bit_and-mask 9 vpn) refl,
  omega arith,
  omega arith,
  omega arith,
  omega arith,
)

-- Only one address lies behind three indices.
pub indexes-injective : (v w : ℕ) → v < 2 ^ 27 → w < 2 ^ 27 → indexes v ≡ indexes w → v ≡ w
indexes-injective v w hv hw e =
    let (i, j, k, ev, _, _, _, jv) = indexes_join v hv in
    let (i', j', k', ew, _, _, _, jw) = indexes_join w hw in
    let same : ◌≡◌ {A = List ℕ} (i ∷ j ∷ k ∷ []) (i' ∷ j' ∷ k' ∷ []) = sym ev ∙ e ∙ ew in
    omega (
      arith,
      ap (λ (l : List ℕ). get_or l 0 0) same,
      ap (λ (l : List ℕ). get_or l 1 0) same,
      ap (λ (l : List ℕ). get_or l 2 0) same,
    )

-- Physical addresses of the lower 256 GiB and their kernel addresses correspond one to one.
pub va_of_pa-pa_of_va :
    (pa : ℕ) → pa < 2 ^ 38 → (va : ℕ) × (va_of_pa pa ≡ some va) × (pa_of_va va ≡ some pa)
unfolding va_of_pa pa_of_va checked_add checked_sub
va_of_pa-pa_of_va pa h = (pa + kernel_map_offset, ground arith, ground arith)

pub vpn_of_ppn_lem : (ppn : ℕ) → ppn < 2 ^ 44 → vpn_of_ppn ppn ≡ some (ppn + 0xF_FFFF_FC00_0000)
unfolding vpn_of_ppn checked_add
vpn_of_ppn_lem ppn h = ground arith

round_down_lem :
    (k a : ℕ) → k < 64 → a < usize_mod → bit_and a (usize_mod - 1 - (2 ^ k - 1)) ≡ a / 2 ^ k * 2 ^ k
round_down_lem k a hk ha =
    let bits : 64 ≡ 64 - k + k = omega arith in
    let width : 2 ^ 64 ≡ 2 ^ (64 - k) * 2 ^ k =
      ap (λ (t : ℕ). 2 ^ t) bits ∙ pow_two_add (64 - k) k in
    let split : 2 ^ (64 - k) ≡ 2 ^ (64 - k) - 1 + 1 = omega (arith, pow_two_pos (64 - k)) in
    let mask : usize_mod - 1 - (2 ^ k - 1) ≡ (2 ^ (64 - k) - 1) * 2 ^ k =
      omega (arith, width, pow_two_pos k, ap (λ (t : ℕ). t * 2 ^ k) split) in
    let low : a / 2 ^ k < 2 ^ (64 - k) =
      (div-lt_iff_lt-mul (pow_two_pos k)).1 (omega (arith, width)) in
    rw mask (bit_and-high k (64 - k) a ∙ ap (λ (t : ℕ). t * 2 ^ k) (mod-eq_of_lt low))

-- `round_up!` at a power of two: the least multiple that is not below the value.
pub round_up_least :
    (k a : ℕ)
    → k < 64
    → a + 2 ^ k < usize_mod
    → (r : ℕ) × (round_up a (2 ^ k) ≡ some r) × (a ≤ r) × (r < a + 2 ^ k) × (r ≡ r / 2 ^ k * 2 ^ k)
unfolding round_up round_down checked_add checked_sub
round_up_least k a hk ha =
    let r = (a + 2 ^ k - 1) / 2 ^ k * 2 ^ k in
    let pos = pow_two_pos k in
    let up : round_up a (2 ^ k) ≡ some r =
      ground (arith, round_down_lem k (a + 2 ^ k - 1) hk (omega arith)) in
    (r, up, omega arith, omega arith, omega (arith, mul-mod_left ((a + 2 ^ k - 1) / 2 ^ k) (2 ^ k)))

-- The order of the tree of areas: of two disjoint ranges the one that lies below is the smaller.
pub range_cmp_disjoint :
    (a b : VaRange)
    → a.start < a.end
    → b.start < b.end
    → (a.end ≤ b.start) ⊎ (b.end ≤ a.start)
    → ((range_cmp a b ≡ Ordering.lt) ↔ (a.end ≤ b.start))
      × ((range_cmp a b ≡ Ordering.gt) ↔ (b.end ≤ a.start))
unfolding range_cmp
range_cmp_disjoint a b ha hb apart = ((ground arith, ground arith), (ground arith, ground arith))

-- A lookup at an address, which compares with the empty range there, finds exactly the ranges that
-- hold the address or end at it.
pub range_cmp_point :
    (va : ℕ) (r : VaRange)
    → r.start < r.end
    → (range_cmp (record { start = va; end = va }) r ≡ Ordering.eq)
      ↔ ((r.start ≤ va) × (va ≤ r.end))
unfolding range_cmp
range_cmp_point va r h = (ground arith, ground arith)
