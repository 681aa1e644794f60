-- ===== src/Mm/PageTable/Total.antt =====
-- When `map_one` succeeds: a walk makes at most two tables.
use hecto_os.Base.{
  ℕ, suc, ◌+◌, ◌<◌, ◌≤◌, ◌≡◌, refl, sym, ◌∙◌, inl, inr, false, Bool-cases, none, some, List, [],
  ◌∷◌, ◌++◌, ◌^◌, length, arith, bit_or,
}
use hecto_os.Mm.Address.{indexes}
use hecto_os.Mm.Address.Pages.{indexes_join}
use hecto_os.Mm.FrameAllocator.History.{take_frame-total}
use hecto_os.Mm.Pte.{ppn_of, is_valid, new, valid}
use hecto_os.Mm.PageTable.{
  Paging, PteRef, write, fill_empty, assign, ensure_table, create_loop, find_pte, map_one,
}
use hecto_os.Mm.PageTable.Tree.{Paths, IsTree, ensure_table-Ensured}
use hecto_os.Mm.PageTable.Walk.{create_loop-Created, find-Leads, Leads}
use hecto_os.Mm.PageTable.Map.{Created-find, find_pte_create_lem, find_pte_lem}

abbrev pub free_pages : Paging → ℕ
free_pages s = length s.system.allocator.free_list

ensure_table-total :
    {base n : ℕ} {s : Paging} {path : Paths} (t i : ℕ)
    → IsTree base n s path
    → 0 < free_pages s
    → (s' : Paging) × (ensure_table t i s ≡ some s') × (free_pages s ≤ suc (free_pages s'))
unfolding ensure_table
ensure_table-total {s} t i v more = elim (Bool-cases (is_valid (s.tables t i))) [
  | inl there ↦ (s, rw there refl, omega arith)
  | inr missing ↦
      let (f, system, got, used) = take_frame-total s.system v.sound (omega arith) in
      let s' : Paging = record {
        page_table = record s.page_table { frames = s.page_table.frames ++ f ∷ [] };
        tables = write (fill_empty s.tables f) t i (new f valid);
        system = system;
      } in
      (s', rw missing (rw got refl), omega (arith, used))
]

create_loop-total :
    {base n : ℕ} (idxs : List ℕ) {s : Paging} {path : Paths} (t i : ℕ) (p : List ℕ)
    → IsTree base n s path
    → path t ≡ some p
    → length p + length idxs ≡ 2
    → length idxs ≤ free_pages s
    → (r : PteRef) × (s' : Paging) × (create_loop idxs t i s ≡ some (r, s'))
      × (free_pages s ≤ length idxs + free_pages s')
unfolding create_loop
create_loop-total [] {s} t i p v at deep more = (_, s, refl, omega arith)
create_loop-total (idx ∷ idxs) {s} t i p v at deep more =
    let (s1, made, left) = ensure_table-total t i v (omega arith) in
    let (path1, c) = ensure_table-Ensured v t i p s1 at (omega (arith, deep)) made in
    let below = c.tree.child t i p (c.kept t p at) (omega (arith, deep)) c.there in
    let (r, s', rest, used) =
      create_loop-total idxs (ppn_of (s1.tables t i)) idx (i ∷ p) c.tree below (omega (arith, deep))
        (omega (arith, left)) in
    (r, s', rw made rest, omega (arith, left, used))

-- A walk that finds nothing ends at an entry that is not valid.
not_there :
    (vpn i j k : ℕ) (r : PteRef) (s : Paging)
    → indexes vpn ≡ i ∷ j ∷ k ∷ []
    → find_pte vpn s ≡ none
    → Leads (j ∷ k ∷ []) s.page_table.root i s.tables r.table r.index
    → r.pte ≡ s.tables r.table r.index
    → is_valid r.pte ≡ false
not_there vpn i j k r s idx unmapped leads holds =
    let ends =
      sym (
        find_pte_lem vpn i j k s idx
        ∙ find-Leads (j ∷ k ∷ []) s.page_table.root i r.table r.index s.tables leads)
      ∙ unmapped in
    rw holds (elim (Bool-cases (is_valid (s.tables r.table r.index))) [
      | inr missing ↦ missing
      | inl there ↦ absurd (ground (arith, there, ends))
    ])

-- With two free pages `map_one` maps every page that is not mapped, and it uses up at most two.
pub map_one-total_left :
    {base n : ℕ} {s : Paging} {path : Paths} (vpn ppn flags : ℕ)
    → IsTree base n s path
    → vpn < 2 ^ 27
    → find_pte vpn s ≡ none
    → 2 ≤ free_pages s
    → (s' : Paging) × (map_one vpn ppn flags s ≡ some s') × (free_pages s ≤ 2 + free_pages s')
unfolding map_one assign
map_one-total_left {s} {path} vpn ppn flags v h unmapped more =
    let (i, j, k, idx, _, _, _, _) = indexes_join vpn h in
    let (r, s1, created, used) =
      create_loop-total (j ∷ k ∷ []) s.page_table.root i [] v v.root refl more in
    let (path1, c) =
      create_loop-Created (j ∷ k ∷ []) s path s.page_table.root i [] r s1 v v.root refl created in
    let missing =
      not_there vpn i j k r s1 idx (Created-find v c vpn h ∙ unmapped) (rw c.same_root c.leads)
        c.holds in
    (
      assign r (new ppn (bit_or flags valid)) s1,
      rw (find_pte_create_lem vpn i j k s idx ∙ created) (rw missing refl),
      omega (arith, used),
    )

-- With two free pages `map_one` maps every page that is not mapped.
pub map_one-total :
    {base n : ℕ} {s : Paging} {path : Paths} (vpn ppn flags : ℕ)
    → IsTree base n s path
    → vpn < 2 ^ 27
    → find_pte vpn s ≡ none
    → 2 ≤ length s.system.allocator.free_list
    → (s' : Paging) × (map_one vpn ppn flags s ≡ some s')
map_one-total vpn ppn flags v h unmapped more =
    let (s', mapped, _) = map_one-total_left vpn ppn flags v h unmapped more in (s', mapped)
