-- ===== src/Mm/PageTable/Map.antt =====
-- Mapping and unmapping a page changes what its own page number finds, and nothing else.
use hecto_os.Base.{
  ℕ, ◌^◌, ◌<◌, ◌≡◌, ◌≢◌, refl, sym, subst, ◌∙◌, false, not, none, some, List, [], ◌∷◌,
  if◌then◌else◌, arith, bit_or, >>=-eq-some, >>-eq-some, some-eq,
}
use hecto_os.Mm.Address.{indexes}
use hecto_os.Mm.Address.Pages.{indexes_join, indexes-injective}
use hecto_os.Mm.Pte.{Pte, empty, valid, new, is_valid}
use hecto_os.Mm.PageTable.{
  Paging, PteRef, create_loop, find_loop, find_pte, find_pte_create, assign, map_one, unmap_one,
  remap_one,
}
use hecto_os.Mm.PageTable.Tree.{Paths, IsTree}
use hecto_os.Mm.PageTable.Walk.{
  entry_here, Leads, target, find-Leads, Leads-find, Leads-path, assign-IsTree, Leads-assign,
  find-assign_ne, Created, create_loop-Created,
}

pub find_pte_lem :
    (vpn i j k : ℕ) (s : Paging)
    → indexes vpn ≡ i ∷ j ∷ k ∷ []
    → find_pte vpn s ≡ find_loop (j ∷ k ∷ []) s.page_table.root i s.tables
unfolding find_pte
find_pte_lem vpn i j k s e = rw e refl

pub find_pte_create_lem :
    (vpn i j k : ℕ) (s : Paging)
    → indexes vpn ≡ i ∷ j ∷ k ∷ []
    → find_pte_create vpn s ≡ create_loop (j ∷ k ∷ []) s.page_table.root i s
unfolding find_pte_create
find_pte_create_lem vpn i j k s e = rw e refl

-- Two page numbers whose walks end at one entry are one.
target-injective :
    (v w : ℕ)
    → v < 2 ^ 27
    → w < 2 ^ 27
    → (i j k i' j' k' : ℕ) → indexes v ≡ i ∷ j ∷ k ∷ []
    → indexes w ≡ i' ∷ j' ∷ k' ∷ []
    → target [] i (j ∷ k ∷ []) ≡ target [] i' (j' ∷ k' ∷ [])
    → v ≡ w
target-injective v w hv hw i j k i' j' k' ev ew e =
    indexes-injective v w hv hw (ground (arith, ev, ew, e))

-- After a write through the reference that a walk to `vpn` gave, `vpn` finds what was written, and
-- every other page number finds what it found.
pub record Updated (base n : ℕ) (vpn : ℕ) (value : Pte) (s s' : Paging) (path' : Paths)
    : Type 0 where
  pub tree : IsTree base n s' path'
  pub hit :
      (r : PteRef) × (r.pte ≡ value) × (find_pte vpn s' ≡ (if is_valid value then some r else none))
  pub others : (w : ℕ) → w < 2 ^ 27 → w ≢ vpn → find_pte w s' ≡ find_pte w s

assign-root :
    (r : PteRef) (value : Pte) (s : Paging) → (assign r value s).page_table.root ≡ s.page_table.root
unfolding assign
assign-root r value s = refl

assign-Updated :
    {base n : ℕ} {s : Paging} {path : Paths} (vpn : ℕ) (r : PteRef) (value : Pte)
    → IsTree base n s path
    → vpn < 2 ^ 27
    → (i j k : ℕ) → indexes vpn ≡ i ∷ j ∷ k ∷ []
    → Leads (j ∷ k ∷ []) s.page_table.root i s.tables r.table r.index
    → Updated base n vpn value s (assign r value s) path
assign-Updated {s} {path} vpn r value v h i j k e leads =
    let root = s.page_table.root in
    let (at, index) = Leads-path v (j ∷ k ∷ []) root i r.table r.index [] v.root refl leads in
    let s' = assign r value s in
    let leads' =
      Leads-assign v r value (j ∷ i ∷ []) at refl (j ∷ k ∷ []) root i r.table r.index [] v.root refl
        leads in
    record {
      tree = assign-IsTree v r value (j ∷ i ∷ []) at refl;
      hit = (
        record { table = r.table; index = r.index; pte = value },
        refl,
        find_pte_lem vpn i j k s' e
            ∙ rw (assign-root r value s) (
                rw (find-Leads (j ∷ k ∷ []) root i r.table r.index s'.tables leads')
                  (rw (entry_here v r value (j ∷ i ∷ []) at refl) refl)),
      );
      others = λ w hw ne.
          let (i', j', k', e', _, _, _, _) = indexes_join w hw in
          let apart : target [] i' (j' ∷ k' ∷ []) ≢ (j ∷ i ∷ [], r.index) = λ eq.
            ne (
              target-injective w vpn hw h i' j' k' i j k e' e
                (eq ∙ (λ m. (j ∷ i ∷ [], index m)))) in
          find_pte_lem w i' j' k' s' e'
          ∙ rw (assign-root r value s) (
              find-assign_ne v r value (j ∷ i ∷ []) at refl (j' ∷ k' ∷ []) root i' [] v.root refl
                apart)
          ∙ sym (find_pte_lem w i' j' k' s e');
    }

-- What a walk to `vpn` found is the end of the path of `vpn`.
find_pte-Leads :
    (vpn : ℕ) (r : PteRef) (s : Paging) (i j k : ℕ)
    → indexes vpn ≡ i ∷ j ∷ k ∷ []
    → find_pte vpn s ≡ some r
    → Leads (j ∷ k ∷ []) s.page_table.root i s.tables r.table r.index
find_pte-Leads vpn r s i j k e found =
    (Leads-find (j ∷ k ∷ []) s.page_table.root i s.tables r
      (sym (find_pte_lem vpn i j k s e) ∙ found)).0

-- The walks of the new tables are those of the old.
pub Created-find :
    {base n : ℕ} {s s' : Paging} {path path' : Paths} {r : PteRef} {i : ℕ} {idxs : List ℕ}
    → IsTree base n s path
    → Created base n s path [] s.page_table.root i idxs r s' path'
    → (w : ℕ) → w < 2 ^ 27
    → find_pte w s' ≡ find_pte w s
Created-find {s} {s'} v c w hw =
    let (i', j', k', e', _, _, _, _) = indexes_join w hw in
    find_pte_lem w i' j' k' s' e'
    ∙ rw c.same_root (c.walks (j' ∷ k' ∷ []) s.page_table.root i' [] v.root refl)
    ∙ sym (find_pte_lem w i' j' k' s e')

-- `map_one`, where it does not panic: the page was unmapped, and now is mapped to the frame with the
-- flags and the valid bit; no other page of the 39-bit space is touched, and the tables stay a tree.
pub map_one-Updated :
    {base n : ℕ} {s : Paging} {path : Paths} (vpn ppn flags : ℕ) (s' : Paging)
    → IsTree base n s path
    → vpn < 2 ^ 27
    → map_one vpn ppn flags s ≡ some s'
    → (find_pte vpn s ≡ none)
      × ((path' : Paths) × Updated base n vpn (new ppn (bit_or flags valid)) s s' path')
unfolding map_one
map_one-Updated {base} {n} {s} {path} vpn ppn flags s' v h e =
    let (i, j, k, idx, _, _, _, _) = indexes_join vpn h in
    let ((r, s1), found, rest) = >>=-eq-some (find_pte_create vpn s) _ e in
    let (path1, c) =
      create_loop-Created (j ∷ k ∷ []) s path s.page_table.root i [] r s1 v v.root refl
        (sym (find_pte_create_lem vpn i j k s idx) ∙ found) in
    let (unmapped, done) = >>-eq-some (not (is_valid r.pte)) _ rest in
    let missing : is_valid (s1.tables r.table r.index) ≡ false =
      rw (← c.holds) (ground (arith, unmapped)) in
    let leads : Leads (j ∷ k ∷ []) s1.page_table.root i s1.tables r.table r.index =
      rw c.same_root c.leads in
    let nothing : find_pte vpn s1 ≡ none =
      find_pte_lem vpn i j k s1 idx
      ∙ find-Leads (j ∷ k ∷ []) s1.page_table.root i r.table r.index s1.tables leads
      ∙ rw missing refl in
    let value = new ppn (bit_or flags valid) in
    let up = assign-Updated {base = base} {n = n} vpn r value c.tree h i j k idx leads in
    let old = Created-find v c in
    (
      sym (old vpn h) ∙ nothing,
      (
        path1,
        subst (λ t. Updated base n vpn value s t path1) (some-eq done)
            (record {
              tree = up.tree;
              hit = up.hit;
              others = λ w hw ne. up.others w hw ne ∙ old w hw;
            }),
      ),
    )

-- `unmap_one`, where it does not panic: the page was mapped, and now finds nothing.
pub unmap_one-Updated :
    {base n : ℕ} {s : Paging} {path : Paths} (vpn : ℕ) (s' : Paging)
    → IsTree base n s path
    → vpn < 2 ^ 27
    → unmap_one vpn s ≡ some s'
    → Updated base n vpn empty s s' path
unfolding unmap_one
unmap_one-Updated {base} {n} {s} {path} vpn s' v h e =
    let (i, j, k, idx, _, _, _, _) = indexes_join vpn h in
    let (r, found, rest) = >>=-eq-some (find_pte vpn s) _ e in
    let (_, done) = >>-eq-some (is_valid r.pte) _ rest in
    subst (λ t. Updated base n vpn empty s t path) (some-eq done)
      (assign-Updated vpn r empty v h i j k idx (find_pte-Leads vpn r s i j k idx found))

-- `remap_one` changes the frame and the flags of a mapped page, and nothing else.
pub remap_one-Updated :
    {base n : ℕ} {s : Paging} {path : Paths} (vpn ppn flags : ℕ) (s' : Paging)
    → IsTree base n s path
    → vpn < 2 ^ 27
    → remap_one vpn ppn flags s ≡ some s'
    → Updated base n vpn (new ppn (bit_or flags valid)) s s' path
unfolding remap_one
remap_one-Updated {base} {n} {s} {path} vpn ppn flags s' v h e =
    let (i, j, k, idx, _, _, _, _) = indexes_join vpn h in
    let (r, found, rest) = >>=-eq-some (find_pte vpn s) _ e in
    let (_, done) = >>-eq-some (is_valid r.pte) _ rest in
    subst (λ t. Updated base n vpn (new ppn (bit_or flags valid)) s t path) (some-eq done)
      (assign-Updated vpn r _ v h i j k idx (find_pte-Leads vpn r s i j k idx found))
