-- ===== src/Mm/PageTable/Translate.antt =====
-- Address translation through a page table that map_one and unmap_one have changed.
use hecto_os.Base.{
  ℕ, ◌+◌, ◌*◌, ◌/◌, ◌%◌, ◌^◌, ◌<◌, ◌≡◌, ◌≢◌, refl, sym, ◌∙◌, false, some, inl, inr, ◌==◌,
  Bool-cases, arith, bit_or,
}
use hecto_os.Base.Word.{checked_add-some}
use hecto_os.Mm.Address.{floor, address_of_page}
use hecto_os.Mm.Address.Pages.{page_offset_lem}
use hecto_os.Mm.Pte.{empty, valid, ppn_of, is_valid}
use hecto_os.Mm.Pte.Fields.{new-valid, is_valid_lem, ppn_of-new}
use hecto_os.Mm.PageTable.{Paging, find_pte, assign, map_one, unmap_one, translate_va}
use hecto_os.Mm.PageTable.Tree.{Paths, IsTree}
use hecto_os.Mm.PageTable.Map.{map_one-Updated, unmap_one-Updated}

-- After `map_one`, every address of the page translates to the same place in the frame.
pub map_one-translate_va :
    {base n : ℕ} {s : Paging} {path : Paths} (va ppn flags : ℕ) (s' : Paging)
    → IsTree base n s path
    → va < 2 ^ 39
    → ppn < 2 ^ 44
    → map_one (floor va) ppn flags s ≡ some s'
    → translate_va va s' ≡ some (some (ppn * 4096 + va % 4096))
unfolding translate_va floor address_of_page
map_one-translate_va va ppn flags s' v hv hp e =
    let (_, (path', up)) = map_one-Updated (va / 4096) ppn flags s' v (omega arith) e in
    let (r, pte, hit) = up.hit in
    let found : find_pte (va / 4096) s' ≡ some r = rw (new-valid ppn flags hp) at hit in
    let frame : ppn_of r.pte ≡ ppn = rw pte (ppn_of-new ppn (bit_or flags valid) hp) in
    let page : ppn * 4096 % 2 ^ 64 ≡ ppn * 4096 = omega arith in
    rw (found, translate_va)
      (rw (frame, page, page_offset_lem va)
        (rw (checked_add-some (ppn * 4096) (va % 4096) (omega arith)) refl))

-- `unmap_one` undoes `map_one`: it succeeds, and every page number finds what it found before.
pub unmap_one-map_one :
    {base n : ℕ} {s : Paging} {path : Paths} (vpn ppn flags : ℕ) (s' : Paging)
    → IsTree base n s path
    → vpn < 2 ^ 27
    → ppn < 2 ^ 44
    → map_one vpn ppn flags s ≡ some s'
    → (s'' : Paging) × (unmap_one vpn s' ≡ some s'')
      × ((w : ℕ) → w < 2 ^ 27 → find_pte w s'' ≡ find_pte w s)
unfolding unmap_one
unmap_one-map_one {s} vpn ppn flags s' v hv hp e =
    let (missing, (path', up)) = map_one-Updated vpn ppn flags s' v hv e in
    let (r, pte, hit) = up.hit in
    let ok = new-valid ppn flags hp in
    let found : find_pte vpn s' ≡ some r = rw ok at hit in
    let done : unmap_one vpn s' ≡ some (assign r empty s') = rw (found, pte, ok) refl in
    let back = unmap_one-Updated vpn (assign r empty s') up.tree hv done in
    let none_there : is_valid empty ≡ false = is_valid_lem 0 in
    (
      assign r empty s',
      done,
      λ w hw. elim (Bool-cases (w == vpn)) [
        | inl same ↦
            let eq : w ≡ vpn = ground arith in rw eq ((rw none_there at (back.hit.2)) ∙ sym missing)
        | inr apart ↦ let ne : w ≢ vpn = ground arith in back.others w hw ne ∙ up.others w hw ne
      ],
    )
