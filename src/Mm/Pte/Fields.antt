-- ===== src/Mm/Pte/Fields.antt =====
-- What a page table entry made by `new` reads back as.
use hecto_os.Base.{
  ℕ, ◌+◌, ◌*◌, ◌/◌, ◌%◌, ◌^◌, ◌<◌, ◌≡◌, refl, ◌∙◌, true, false, sym, ◌-◌, not, ap, bit_and, ◌==◌,
  bit_or, arith,
}
use hecto_os.Base.Bits.{
  bit_or-zero, bit_and_step, bit_and-zero, bit_and-mask, bit_or-shift, bit_or_step,
}
use hecto_os.Base.Word.{complement}
use hecto_os.Mm.Pte.{
  valid, writable, cow, Pte, set_ppn, insert, remove, contains, new, ppn_of, is_valid,
}

pub new_lem : (ppn flags : ℕ) → ppn < 2 ^ 44 → new ppn flags ≡ ppn * 1024 + flags % 512
unfolding new
new_lem ppn flags h =
    let low : flags % 512 < 1024 = omega arith in
    let shift : (ppn * 1024) % 2 ^ 64 ≡ ppn * 1024 = omega arith in
    rw (bit_and-mask 9 flags, shift) (bit_or-shift 10 ppn (flags % 512) low)

pub ppn_of-new : (ppn flags : ℕ) → ppn < 2 ^ 44 → ppn_of (new ppn flags) ≡ ppn
unfolding ppn_of
ppn_of-new ppn flags h =
    rw (new_lem ppn flags h) (bit_and-mask 44 ((ppn * 1024 + flags % 512) / 1024) ∙ omega arith)

pub is_valid_lem : (bits : ℕ) → is_valid bits ≡ not (bits % 2 == 0)
unfolding is_valid
is_valid_lem bits = rw (bit_and-mask 1 bits) refl

pub new-valid : (ppn flags : ℕ) → ppn < 2 ^ 44 → is_valid (new ppn (bit_or flags valid)) ≡ true
new-valid ppn flags h =
    let odd : bit_or flags 1 % 2 ≡ 1 = omega (arith, bit_or_step flags 1) in
    rw (is_valid_lem (new ppn (bit_or flags 1)), new_lem ppn (bit_or flags 1) h)
      (ground (arith, odd))

pub new-valid_only : (ppn : ℕ) → ppn < 2 ^ 44 → is_valid (new ppn valid) ≡ true
new-valid_only ppn h = rw (is_valid_lem (new ppn 1), new_lem ppn 1 h) (ground arith)

-- A flag is a binary digit.
pub contains-writable : (bits : ℕ) → contains bits writable ≡ (bits / 4 % 2 == 1)
unfolding contains
contains-writable bits =
    let digit : bit_and bits 4 ≡ bits / 4 % 2 * 4 = omega (
      arith,
      bit_and_step bits 4,
      bit_and_step (bits / 2) 2,
      bit_and_step (bits / 2 / 2) 1,
      bit_and-zero (bits / 2 / 2 / 2),
    ) in
    rw digit (ground arith)

bit_and_cow : (bits : ℕ) → bit_and bits 0x100 ≡ bits / 0x100 % 2 * 0x100
bit_and_cow bits =
    let low : bit_and bits 0x100 ≡ bit_and (bits / 16) 16 * 16 = omega (
      arith,
      bit_and_step bits 0x100,
      bit_and_step (bits / 2) 0x80,
      bit_and_step (bits / 2 / 2) 0x40,
      bit_and_step (bits / 2 / 2 / 2) 0x20,
      ap (λ d. bit_and d 16) (digits_apart bits),
    ) in
    let high : bit_and (bits / 16) 16 ≡ bits / 0x100 % 2 * 16 = omega (
      arith,
      bit_and_step (bits / 16) 16,
      bit_and_step (bits / 16 / 2) 8,
      bit_and_step (bits / 16 / 2 / 2) 4,
      bit_and_step (bits / 16 / 2 / 2 / 2) 2,
      bit_and_step (bits / 16 / 2 / 2 / 2 / 2) 1,
      bit_and-zero (bits / 16 / 2 / 2 / 2 / 2 / 2),
    ) in
    omega (arith, low, high)
  where
    digits_apart : (x : ℕ) → x / 2 / 2 / 2 / 2 ≡ x / 16
    digits_apart x = omega arith

pub contains-cow : (bits : ℕ) → contains bits cow ≡ (bits / 0x100 % 2 == 1)
unfolding contains
contains-cow bits = rw (bit_and_cow bits) (ground arith)

bit_and_half : (x y : ℕ) → bit_and x y / 2 ≡ bit_and (x / 2) (y / 2)
bit_and_half x y = omega (arith, bit_and_step x y)

-- Of the digits of a word with the mask of cow, that of cow is zero.
cow_masked : (bits : ℕ) → bit_and bits (complement cow) / 0x100 % 2 ≡ 0
cow_masked bits = omega (
  arith,
  bit_and_half bits 0xfffffffffffffeff,
  bit_and_half (bits / 2) 0x7fffffffffffff7f,
  bit_and_half (bits / 2 / 2) 0x3fffffffffffffbf,
  bit_and_half (bits / 2 / 2 / 2) 0x1fffffffffffffdf,
  bit_and_half (bits / 2 / 2 / 2 / 2) 0xfffffffffffffef,
  bit_and_half (bits / 2 / 2 / 2 / 2 / 2) 0x7fffffffffffff7,
  bit_and_half (bits / 2 / 2 / 2 / 2 / 2 / 2) 0x3fffffffffffffb,
  bit_and_half (bits / 2 / 2 / 2 / 2 / 2 / 2 / 2) 0x1fffffffffffffd,
  bit_and_step (bits / 2 / 2 / 2 / 2 / 2 / 2 / 2 / 2) 0xfffffffffffffe,
)

-- Setting the digit of writable changes no other.
writable_set : (bits : ℕ) → bit_or bits writable ≡ bits + (1 - bits / 4 % 2) * 4
writable_set bits = omega (
  arith,
  bit_or_step bits 4,
  bit_or_step (bits / 2) 2,
  bit_or_step (bits / 2 / 2) 1,
  bit_or-zero (bits / 2 / 2 / 2),
)

pub set_ppn_lem : (ppn bits : ℕ) → ppn < 2 ^ 44 → set_ppn bits ppn ≡ ppn * 1024 + bits % 512
unfolding set_ppn
set_ppn_lem ppn bits h =
    let low : bits % 512 < 1024 = omega arith in
    let shift : (ppn * 1024) % 2 ^ 64 ≡ ppn * 1024 = omega arith in
    rw (bit_and-mask 9 bits, shift) (bit_or-shift 10 ppn (bits % 512) low)

-- An entry that may be written and is not shared
abbrev pub IsOwn : Pte → Type 0
IsOwn pte = (contains pte writable ≡ true) × (contains pte cow ≡ false)

pub insert-IsOwn : (pte : Pte) → IsOwn (insert (remove pte cow) writable)
unfolding insert remove
insert-IsOwn pte =
    let rest = bit_and pte (complement cow) in
    let set = writable_set rest in
    (
      contains-writable (bit_or rest writable) ∙ ground (arith, set),
      contains-cow (bit_or rest writable) ∙ ground (arith, set, cow_masked pte),
    )

-- Another page number leaves the flags.
pub set_ppn-IsOwn : (pte : Pte) (ppn : ℕ) → ppn < 2 ^ 44 → IsOwn pte → IsOwn (set_ppn pte ppn)
set_ppn-IsOwn pte ppn h (may_write, own) =
    let is = set_ppn_lem ppn pte h in
    let w = sym (contains-writable pte) ∙ may_write in
    let c = sym (contains-cow pte) ∙ own in
    (
      contains-writable (set_ppn pte ppn) ∙ ground (arith, is, w),
      contains-cow (set_ppn pte ppn) ∙ ground (arith, is, c),
    )

pub ppn_of-set_ppn : (pte : Pte) (ppn : ℕ) → ppn < 2 ^ 44 → ppn_of (set_ppn pte ppn) ≡ ppn
unfolding ppn_of
ppn_of-set_ppn pte ppn h =
    rw (set_ppn_lem ppn pte h) (bit_and-mask 44 ((ppn * 1024 + pte % 512) / 1024) ∙ omega arith)
