-- ===== src/Mm/AddressSpace/Pages.antt =====
-- What mapping new frames for a run of pages does to the page table.
use hecto_os.Base.{
  ℕ, zero, suc, ◌+◌, ◌*◌, ◌-◌, ◌≤◌, ◌<◌, ◌≡◌, ◌⊎◌, ◌^◌, refl, sym, subst, ◌∙◌, inl, inr, none, some,
  List, [], ◌∷◌, ◌++◌, ◌==◌, if◌then◌else◌, Bool-cases, >>=-eq-some, length, arith, bit_or,
}
use hecto_os.Mm.Address.{VaRange, vpn_range, indexes}
use hecto_os.Mm.FrameAllocator.{System, take_frame}
use hecto_os.Mm.FrameAllocator.History.{take_frame-fresh, take_frame-total}
use hecto_os.Mm.Pte.{Pte, valid, new, is_valid}
use hecto_os.Mm.PageTable.{Paging, PteRef, find_pte, find_pte_at, map_one}
use hecto_os.Mm.PageTable.Tree.{Paths, IsTree}
use hecto_os.Mm.PageTable.Total.{free_pages, map_one-total_left}
use hecto_os.Mm.PageTable.Map.{map_one-Updated}
use hecto_os.Mm.AddressSpace.{
  MapArea, framed, AddressSpace, map_frames, map_pages, map, insert_area, replaced, drop_frames,
  place_area, insert_framed_area,
}

-- A page that was not mapped, and now is mapped with the area's permissions.
pub Mapped : Pte → ℕ → Paging → Paging → Type 0
Mapped perm w s s' =
    (find_pte w s ≡ none)
    × (r : PteRef) × (ppn : ℕ) × (r.pte ≡ new ppn (bit_or perm valid))
    × (find_pte w s' ≡ (if is_valid r.pte then some r else none))

pub find_pte_system :
    (w : ℕ) (s : Paging) (system : System)
    → find_pte w (record s { system = system }) ≡ find_pte w s
unfolding find_pte find_pte_at
find_pte_system w s system = by_list (indexes w)
  where
    by_list : (idxs : List ℕ) → find_pte_at idxs (record s { system = system }) ≡ find_pte_at idxs s
    by_list [] = refl
    by_list (idx ∷ idxs) = refl

-- The tree survives the taking of a frame that it does not use.
pub take_frame-IsTree :
    {base n : ℕ} {s : Paging} {path : Paths} (ppn : ℕ) (system : System)
    → IsTree base n s path
    → take_frame s.system ≡ some (ppn, system)
    → IsTree base n (record s { system = system }) path
take_frame-IsTree {s} ppn system v e =
    let (sound, _, _, holds) = take_frame-fresh s.system ppn system v.sound e in
    record {
      sound = sound;
      root = v.root;
      child = v.child;
      held = λ t p at. rw holds (ground (arith, v.held t p at));
    }

-- What a run of pages is mapped to afterwards: each page of it is new, and no other page changes.
pub record MappedRun (base n : ℕ) (perm : Pte) (lo count : ℕ) (s s' : Paging) : Type 0 where
  pub path : Paths
  pub tree : IsTree base n s' path
  pub inside : (w : ℕ) → lo ≤ w → w < lo + count → Mapped perm w s s'
  pub outside : (w : ℕ) → w < 2 ^ 27 → (w < lo) ⊎ (lo + count ≤ w) → find_pte w s' ≡ find_pte w s

pub map_frames-MappedRun :
    {base n : ℕ} (count vpn : ℕ) (area : MapArea) {s : Paging} {path : Paths} (area' : MapArea)
    (s' : Paging)
    → IsTree base n s path
    → vpn + count ≤ 2 ^ 27
    → map_frames count vpn area s ≡ some (area', s')
    → MappedRun base n area.map_perm vpn count s s'
unfolding map_frames Mapped
map_frames-MappedRun {base} {n} zero vpn area {s} {path} area' s' v low e =
    let same : s ≡ s' = cc in
    subst (MappedRun base n area.map_perm vpn 0 s) same (record {
      path = path;
      tree = v;
      inside = λ w a b. absurd (omega arith);
      outside = λ w h o. refl;
    })
map_frames-MappedRun {base} {n} (suc count) vpn area {s} {path} area' s' v low e =
    let ((ppn, system), got, rest) = >>=-eq-some (take_frame s.system) _ e in
    let s0 : Paging = record s { system = system } in
    let v0 = take_frame-IsTree ppn system v got in
    let (s1, mapped, more) = >>=-eq-some (map_one vpn ppn area.map_perm s0) _ rest in
    let (missing, (path1, up)) = map_one-Updated vpn ppn area.map_perm s1 v0 (omega arith) mapped in
    let run = map_frames-MappedRun count (vpn + 1) _ area' s' up.tree (omega arith) more in
    record {
      path = run.path;
      tree = run.tree;
      inside = λ w a b. elim (Bool-cases (w == vpn)) [
        | inl here ↦
            let at : w ≡ vpn = ground (arith, here) in
            let (r, holds, found) = up.hit in
            rw at (
              sym (find_pte_system vpn s system) ∙ missing,
              r,
              ppn,
              holds,
              run.outside vpn (omega arith) (inl (omega arith)) ∙ found ∙ rw holds refl,
            )
        | inr beyond ↦
            let (unmapped, r, frame, holds, found) =
              run.inside w (ground (arith, beyond)) (omega arith) in
            (
              sym (up.others w (omega arith) (ground (arith, beyond)) ∙ find_pte_system w s system)
                  ∙ unmapped,
              r,
              frame,
              holds,
              found,
            )
      ];
      outside = λ w h o.
          let apart : (w < vpn + 1) ⊎ (vpn + 1 + count ≤ w) = ground (arith, o) in
          run.outside w h apart ∙ up.others w h (ground (arith, o)) ∙ find_pte_system w s system;
    }

-- With three free pages for each page of the run, one for the page and two for tables, and no page of
-- it mapped, mapping the run succeeds.
pub map_frames-total :
    {base n : ℕ} (count vpn : ℕ) (area : MapArea) {s : Paging} {path : Paths}
    → IsTree base n s path
    → vpn + count ≤ 2 ^ 27
    → 3 * count ≤ free_pages s
    → ((w : ℕ) → vpn ≤ w → w < vpn + count → find_pte w s ≡ none)
    → (area' : MapArea) × (s' : Paging) × (map_frames count vpn area s ≡ some (area', s'))
unfolding map_frames
map_frames-total zero vpn area {s} v low room unmapped = (area, s, refl)
map_frames-total (suc count) vpn area {s} v low room unmapped =
    let (ppn, system, got, used) = take_frame-total s.system v.sound (omega arith) in
    let s0 : Paging = record s { system = system } in
    let v0 = take_frame-IsTree ppn system v got in
    let missing = find_pte_system vpn s system ∙ unmapped vpn (omega arith) (omega arith) in
    let (s1, mapped, left) =
      map_one-total_left vpn ppn area.map_perm v0 (omega arith) missing (omega (arith, used)) in
    let (_, (path1, up)) = map_one-Updated vpn ppn area.map_perm s1 v0 (omega arith) mapped in
    let next : MapArea = record area { data_frames = area.data_frames ++ (vpn, ppn) ∷ [] } in
    let (area', s', rest) =
      map_frames-total count (vpn + 1) next up.tree (omega arith) (omega (arith, used, left))
        (λ w a b.
          up.others w (omega arith) (omega arith)
          ∙ find_pte_system w s system
          ∙ unmapped w (omega arith) (omega arith)) in
    (area', s', rw got (rw mapped rest))

-- Where no area is replaced, nothing is dropped.
pub place_area_new :
    (range : VaRange) (area : MapArea) (s : AddressSpace)
    → replaced range s.areas ≡ []
    → place_area range area s ≡ some (record s { areas = insert_area range area s.areas })
unfolding place_area drop_frames
place_area_new range area s is = rw is refl

-- With three free pages for each page of the range and none of them mapped, and no area that is replaced,
-- insert_framed_area succeeds. It maps each page of the range to a frame with the permissions, and no other page
-- changes.
pub insert_framed_area-MappedRun :
    {base n : ℕ} (range : VaRange) (perm lo hi : ℕ) (s : AddressSpace) (path : Paths)
    → IsTree base n s.paging path
    → replaced range s.areas ≡ []
    → vpn_range range ≡ some (lo, hi)
    → lo ≤ hi
    → hi ≤ 2 ^ 27
    → 3 * (hi - lo) ≤ length s.paging.system.allocator.free_list
    → ((w : ℕ) → lo ≤ w → w < hi → find_pte w s.paging ≡ none)
    → (s' : AddressSpace) × (insert_framed_area range perm s ≡ some s')
      × MappedRun base n perm lo (hi - lo) s.paging s'.paging
unfolding insert_framed_area map map_pages
insert_framed_area-MappedRun range perm lo hi s path v new pages le low room unmapped =
    let new_area : MapArea = record { data_frames = []; map_type = framed; map_perm = perm } in
    let (area, paging, done) =
      map_frames-total (hi - lo) lo new_area v (omega arith) room
        (λ w a b. unmapped w a (omega arith)) in
    (
      record s { paging = paging; areas = insert_area range area s.areas },
      rw pages (rw done (place_area_new range area (record s { paging = paging }) new)),
      map_frames-MappedRun (hi - lo) lo new_area area paging v (omega arith) done,
    )
