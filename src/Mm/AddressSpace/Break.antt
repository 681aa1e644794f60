-- ===== src/Mm/AddressSpace/Break.antt =====
-- The data segment that shrinks and grows again.
use hecto_os.Base.{
  ℕ, suc, ◌+◌, ◌*◌, ◌-◌, ◌/◌, ◌≤◌, ◌<◌, ◌≡◌, ◌^◌, refl, sym, ap, subst, ◌∙◌, inl, inr, true, false,
  none, some, List, ltb, leb, ◌==◌, Option-cases, >>=-eq-some, some-eq, arith,
}
use hecto_os.Base.Int.{ℤ, pos}
use hecto_os.Mm.Address.{VirtAddr, VaRange, floor, vpn_range, round_up}
use hecto_os.Mm.Address.Pages.{round_up_least, ceil_lem}
use hecto_os.Mm.FrameAllocator.{take_frame}
use hecto_os.Mm.PageTable.{Paging, PteRef, find_pte, map_one}
use hecto_os.Mm.PageTable.Tree.{Paths, IsTree}
use hecto_os.Mm.PageTable.Map.{map_one-Updated}
use hecto_os.Mm.AddressSpace.{
  MapArea, AddressSpace, map_frames, remove_entry, insert_area, brk_grow, brk_to, brk,
}
use hecto_os.Mm.AddressSpace.Pages.{take_frame-IsTree, find_pte_system}

-- A run whose first page is mapped cannot be mapped.
map_frames_occupied :
    {base n : ℕ} (count vpn : ℕ) (area : MapArea) {s : Paging} {path : Paths} (r : PteRef)
    → IsTree base n s path
    → vpn < 2 ^ 27
    → find_pte vpn s ≡ some r
    → map_frames (suc count) vpn area s ≡ none
unfolding map_frames
map_frames_occupied count vpn area {s} {path} r v low there =
    elim (Option-cases (map_frames (suc count) vpn area s)) [
      | inl panics ↦ panics
      | inr (done, e) ↦
          let ((ppn, system), got, rest) = >>=-eq-some (take_frame s.system) _ e in
          let v0 = take_frame-IsTree ppn system v got in
          let (s1, mapped, _) =
            >>=-eq-some (map_one vpn ppn area.map_perm (record s { system = system })) _ rest in
          let (missing, _) = map_one-Updated vpn ppn area.map_perm s1 v0 low mapped in
          absurd (ground (arith, missing, there, find_pte_system vpn s system))
    ]

brk_lem :
    (addr cur_end : ℕ) (s : AddressSpace)
    → round_up s.data_segment_end 4096 ≡ some cur_end
    → 0 < addr
    → addr ≤ s.data_segment_max
    → brk addr s ≡ brk_to cur_end addr s
unfolding brk
brk_lem addr cur_end s up some_addr low =
    let not_zero : (addr == 0) ≡ false = ground arith in
    let allowed : ltb s.data_segment_max addr ≡ false = ground arith in
    rw up (rw (not_zero, allowed) refl)

abbrev end_key : AddressSpace → VaRange
end_key s = record { start = s.data_segment_end; end = s.data_segment_end }

abbrev moved :
    VirtAddr → VaRange → MapArea → List (VaRange × MapArea) → Paging → AddressSpace → AddressSpace
moved addr key area rest paging s = record {
  paging = paging;
  areas = insert_area (record key { end = addr }) area rest;
  data_segment_end = addr;
  data_segment_max = s.data_segment_max;
}

-- A break below the end of the mapped pages moves the end, and unmaps nothing.
brk_to_shrink :
    (addr cur_end : ℕ) (s s' : AddressSpace) (x : ℤ)
    → addr < cur_end
    → brk_to cur_end addr s ≡ some (x, s')
    → (s'.paging ≡ s.paging)
      × (s'.data_segment_end ≡ addr)
      × (s'.data_segment_max ≡ s.data_segment_max)
unfolding brk_to brk_grow
brk_to_shrink addr cur_end s s' x below e = elim (Option-cases (remove_entry (end_key s) s.areas)) [
  | inl gone ↦ absurd (ground (arith, gone))
  | inr ((entry, rest), found) ↦
      let less : leb cur_end addr ≡ false = ground arith in
      let step : brk_to cur_end addr s
          ≡ some (pos addr, moved addr entry.0 entry.1 rest s.paging s) =
        rw found (rw less refl) in
      let after = some-eq (sym step ∙ e) in
      (
        sym (ap (λ (q : ℤ × AddressSpace). q.1.paging) after),
        sym (ap (λ (q : ℤ × AddressSpace). q.1.data_segment_end) after),
        sym (ap (λ (q : ℤ × AddressSpace). q.1.data_segment_max) after),
      )
]

brk_grow_occupied :
    {base n : ℕ} {path : Paths} (page addr : ℕ) (area : MapArea) (s : Paging) (r : PteRef)
    → IsTree base n s path
    → page < 2 ^ 27
    → page * 4096 < addr
    → addr < 2 ^ 62
    → find_pte page s ≡ some r
    → brk_grow (page * 4096) addr area s ≡ none
unfolding brk_grow vpn_range floor
brk_grow_occupied page addr area s r v low above small there =
    let over : leb (page * 4096) addr ≡ true = ground arith in
    let first : page * 4096 / 4096 ≡ page = omega arith in
    let count : (addr + 4095) / 4096 - page ≡ suc ((addr + 4095) / 4096 - page - 1) = omega arith in
    rw over (
      rw (ceil_lem addr (omega arith) (omega arith)) (
        rw (first, count)
          (map_frames_occupied ((addr + 4095) / 4096 - page - 1) page area r v low there)))

-- A break over a page that is mapped already panics.
brk_to_occupied :
    {base n : ℕ} {path : Paths} (page addr : ℕ) (s : AddressSpace) (r : PteRef)
    → IsTree base n s.paging path
    → page < 2 ^ 27
    → page * 4096 < addr
    → addr < 2 ^ 62
    → find_pte page s.paging ≡ some r
    → brk_to (page * 4096) addr s ≡ none
unfolding brk_to
brk_to_occupied page addr s r v low above small there =
    elim (Option-cases (remove_entry (end_key s) s.areas)) [
      | inl gone ↦ rw gone refl
      | inr ((entry, rest), found) ↦
          rw found
            (rw (brk_grow_occupied page addr entry.1 s.paging r v low above small there) refl)
    ]

-- Pages that a break downwards gave up cannot be had back: a break upwards panics.
pub brk_regrow :
    {base n : ℕ} {path : Paths} (cur_end page again : ℕ) (s s' : AddressSpace) (x : ℤ) (r : PteRef)
    → IsTree base n s.paging path
    → round_up s.data_segment_end 4096 ≡ some cur_end
    → 0 < page
    → page * 4096 < cur_end
    → page < 2 ^ 27
    → page * 4096 < again
    → again ≤ s.data_segment_max
    → again < 2 ^ 62
    → find_pte page s.paging ≡ some r
    → brk (page * 4096) s ≡ some (x, s')
    → brk again s' ≡ none
brk_regrow {base} {n} {path} cur_end page again s s' x r v up more below low above allowed small
      there e =
    let (same, end, max_kept) =
      brk_to_shrink (page * 4096) cur_end s s' x below
        (sym (brk_lem (page * 4096) cur_end s up (omega arith) (omega arith)) ∙ e) in
    let (rounded, found, over, near, whole) =
      round_up_least 12 (page * 4096) (omega arith) (omega arith) in
    let exact : rounded ≡ page * 4096 = omega arith in
    let up' : round_up s'.data_segment_end 4096 ≡ some (page * 4096) =
      rw end (found ∙ ap some exact) in
    brk_lem again (page * 4096) s' up' (omega arith) (omega (arith, max_kept))
    ∙ brk_to_occupied page again s' r (subst (λ p. IsTree base n p path) (sym same) v) low above
        small (ap (find_pte page) same ∙ there)
