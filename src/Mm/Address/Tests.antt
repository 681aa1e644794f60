-- ===== src/Mm/Address/Tests.antt =====
-- Runs of the conversions, and the theorems at concrete addresses.
use hecto_os.Base.{
  ℕ, ◌+◌, ◌*◌, ◌/◌, ◌^◌, ◌≤◌, ◌<◌, ◌≡◌, refl, ◌↔◌, inl, Option, some, [], ◌∷◌, arith,
}
use hecto_os.Base.Word.{usize_mod}
use hecto_os.Mm.Address.{
  address_of_page, floor, page_offset, indexes, VaRange, vpn_range, range_cmp, va_of_pa, pa_of_va,
  round_up,
}
use hecto_os.Mm.Address.Pages.{
  floor-page_offset, vpn_range_covers, indexes_join, va_of_pa-pa_of_va, round_up_least,
  range_cmp_disjoint, range_cmp_point,
}
use Prim.Native.Nat.{Ordering}

abbrev text_range : VaRange
text_range = record { start = 0x1_0080; end = 0x1_2010 }

abbrev data_range : VaRange
data_range = record { start = 0x1_2010; end = 0x1_3000 }

text_pages : vpn_range text_range ≡ some (0x10, 0x13)
unfolding vpn_range hecto_os.Mm.Address.ceil hecto_os.Base.Word.checked_sub
    hecto_os.Base.Word.checked_add floor
text_pages = refl

indexes_of_text : indexes 0x4_0201 ≡ 1 ∷ 1 ∷ 1 ∷ []
unfolding indexes
indexes_of_text = refl

floor-page_offset_example : address_of_page (floor 0x1_0080) + page_offset 0x1_0080 ≡ 0x1_0080
floor-page_offset_example = floor-page_offset 0x1_0080 (omega arith)

vpn_range_covers_example :
    (lo : ℕ) × (hi : ℕ) × (vpn_range text_range ≡ some (lo, hi))
    × ((v : ℕ)
        → ((lo ≤ v) × (v < hi)) ↔ ((a : ℕ) × (0x1_0080 ≤ a) × (a < 0x1_2010) × (floor a ≡ v)))
vpn_range_covers_example = vpn_range_covers text_range (omega arith) (omega arith)

indexes_join_example :
    (i : ℕ) × (j : ℕ) × (k : ℕ) × (indexes 0x4_0201 ≡ i ∷ j ∷ k ∷ [])
    × (i < 512)
    × (j < 512)
    × (k < 512)
    × (i * 2 ^ 18 + j * 2 ^ 9 + k ≡ 0x4_0201)
indexes_join_example = indexes_join 0x4_0201 (omega arith)

va_of_pa-pa_of_va_example :
    (va : ℕ) × (va_of_pa 0x8000_0000 ≡ some va) × (pa_of_va va ≡ some 0x8000_0000)
va_of_pa-pa_of_va_example = va_of_pa-pa_of_va 0x8000_0000 (omega arith)

round_up_least_example :
    (r : ℕ) × (round_up 0x1_2010 (2 ^ 12) ≡ some r)
    × (0x1_2010 ≤ r)
    × (r < 0x1_2010 + 2 ^ 12)
    × (r ≡ r / 2 ^ 12 * 2 ^ 12)
round_up_least_example = round_up_least 12 0x1_2010 (omega arith) (omega arith)

range_cmp_disjoint_example :
    ((range_cmp text_range data_range ≡ Ordering.lt) ↔ (0x1_2010 ≤ 0x1_2010))
    × ((range_cmp text_range data_range ≡ Ordering.gt) ↔ (0x1_3000 ≤ 0x1_0080))
range_cmp_disjoint_example =
    range_cmp_disjoint text_range data_range (omega arith) (omega arith) (inl (omega arith))

range_cmp_point_example :
    (range_cmp (record { start = 0x1_2010; end = 0x1_2010 }) text_range ≡ Ordering.eq)
    ↔ ((0x1_0080 ≤ 0x1_2010) × (0x1_2010 ≤ 0x1_2010))
range_cmp_point_example = range_cmp_point 0x1_2010 text_range (omega arith)
