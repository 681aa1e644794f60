-- ===== src/Mm/Cow/Sharing.antt =====
-- What fork does to the trackers of frames.
use hecto_os.Base.{
  ℕ, zero, suc, ◌+◌, ◌-◌, ◌<◌, ◌≡◌, refl, sym, ap, subst, inl, inr, Bool, true, false, not, ◌||◌,
  some, List, [], ◌∷◌, ◌==◌, if◌then◌else◌, ◌∙◌, Bool-cases, >>=-eq-some, >>-eq-some, some-eq,
  count, bit_or, arith,
}
use hecto_os.Mm.Address.{Ppn, Vpn, vpn_range}
use hecto_os.Mm.FrameAllocator.{System, holds, take_frame, step, clone, clone_tracker}
use hecto_os.Mm.FrameAllocator.Soundness.{IsSound, clone_tracker-some}
use hecto_os.Mm.FrameAllocator.Counts.{count-holds}
use hecto_os.Mm.FrameAllocator.History.{take_frame-fresh}
use hecto_os.Mm.Pte.{Pte, readable, writable, cow, contains, is_valid, ppn_of}
use hecto_os.Mm.PageTable.{
  PageTableImpl, Paging, PteRef, ensure_table, create_loop, find_pte_create_at, find_pte_create,
  find_pte, assign, map_one, remap_one,
}
use hecto_os.Mm.Address.{indexes}
use hecto_os.Mm.AddressSpace.{AddressSpace, map_device}
use hecto_os.Mm.Cow.{
  Areas, new_kernel_table, map_mmio, new_kernel, fork_pages, clone_frames, fork_flags, fork_areas,
  fork,
}

-- How many trackers of a frame the pages of an area have, and those of all areas
unfoldable pub in_pages : Ppn → List (Vpn × Ppn) → ℕ
in_pages p [] = 0
in_pages p (page ∷ rest) = (if page.1 == p then 1 else 0) + in_pages p rest

unfoldable pub in_areas : Ppn → Areas → ℕ
unfolding in_pages
in_areas p [] = 0
in_areas p (entry ∷ rest) = in_pages p entry.1.data_frames + in_areas p rest

clone_tracker-held :
    (q : ℕ) (s s' : System)
    → step (clone_tracker q) s ≡ some s'
    → s'.held ≡ (if holds q s.held then q ∷ s.held else s.held)
unfolding step
clone_tracker-held q s s' e = elim (Bool-cases (holds q s.held)) [
  | inl held ↦
      let (a, _, done) = >>=-eq-some (clone s.allocator q) _ (rw held at e) in
      rw held (sym (ap System.held (some-eq done)))
  | inr gone ↦ rw gone (sym (ap System.held (some-eq (rw gone at e))))
]

module _ (base n : ℕ) where
  -- A sound allocator becomes another in which each frame that had trackers has `more` of them.
  pub record Adds (more : Ppn → ℕ) (s s' : System) : Type 0 where
    pub sound : IsSound base n s'
    pub counts : (p : ℕ) → 0 < count p s.held → count p s'.held ≡ count p s.held + more p

  abbrev pub Keeps : System → System → Type 0
  Keeps = Adds (λ p. 0)

  Keeps-same : {s : System} → IsSound base n s → Keeps s s
  Keeps-same v = record { sound = v; counts = λ p held. omega arith }

  Adds-then :
      {a b : Ppn → ℕ} {s s' s'' : System}
      → Adds a s s'
      → Adds b s' s''
      → Adds (λ p. a p + b p) s s''
  Adds-then x y = record {
    sound = y.sound;
    counts = λ p held.
        let first = x.counts p held in let second = y.counts p (omega arith) in omega arith;
  }

  pub Keeps-then : {b : Ppn → ℕ} {s s' s'' : System} → Keeps s s' → Adds b s' s'' → Adds b s s''
  Keeps-then x y = record {
    sound = y.sound;
    counts = λ p held.
        let first = x.counts p held in let second = y.counts p (omega arith) in omega arith;
  }

  pub take_frame-Keeps :
      (s : System) (f : ℕ) (s' : System)
      → IsSound base n s
      → take_frame s ≡ some (f, s')
      → Keeps s s'
  take_frame-Keeps s f s' v e =
      let (sound, _, fresh, holds) = take_frame-fresh s f s' v e in
      record { sound = sound; counts = λ p held. rw holds (ground (arith, fresh)) }

  ensure_table-Keeps :
      (t i : ℕ) (s s' : Paging)
      → IsSound base n s.system
      → ensure_table t i s ≡ some s'
      → Keeps s.system s'.system
  unfolding ensure_table
  ensure_table-Keeps t i s s' v e = elim (Bool-cases (is_valid (s.tables t i))) [
    | inl there ↦
        let same : s ≡ s' = some-eq (rw there at e) in
        subst (λ (q : Paging). Keeps s.system q.system) same (Keeps-same v)
    | inr missing ↦
        let e' = rw missing at e in
        let ((frame, system), got, done) = >>=-eq-some (take_frame s.system) _ e' in
        let same : system ≡ s'.system = ap Paging.system (some-eq done) in
        subst (Keeps s.system) same (take_frame-Keeps s.system frame system v got)
  ]

  create_loop-Keeps :
      (idxs : List ℕ) (t i : ℕ) (s : Paging) (r : PteRef) (s' : Paging)
      → IsSound base n s.system
      → create_loop idxs t i s ≡ some (r, s')
      → Keeps s.system s'.system
  unfolding create_loop
  create_loop-Keeps [] t i s r s' v e =
      let same : s ≡ s' = ap (λ (q : PteRef × Paging). q.1) (some-eq e) in
      subst (λ (q : Paging). Keeps s.system q.system) same (Keeps-same v)
  create_loop-Keeps (idx ∷ idxs) t i s r s' v e =
      let (s1, made, e') = >>=-eq-some (ensure_table t i s) _ e in
      let first = ensure_table-Keeps t i s s1 v made in
      Keeps-then first (create_loop-Keeps idxs (ppn_of (s1.tables t i)) idx s1 r s' first.sound e')

  find_pte_create_at-Keeps :
      (idxs : List ℕ) (s : Paging) (r : PteRef) (s' : Paging)
      → IsSound base n s.system
      → find_pte_create_at idxs s ≡ some (r, s')
      → Keeps s.system s'.system
  unfolding find_pte_create_at
  find_pte_create_at-Keeps [] s r s' v e = absurd (cc)
  find_pte_create_at-Keeps (idx ∷ idxs) s r s' v e =
      create_loop-Keeps idxs s.page_table.root idx s r s' v e

  pub map_one-Keeps :
      (vpn ppn : ℕ) (flags : Pte) (s s' : Paging)
      → IsSound base n s.system
      → map_one vpn ppn flags s ≡ some s'
      → Keeps s.system s'.system
  unfolding map_one find_pte_create assign
  map_one-Keeps vpn ppn flags s s' v e =
      let ((r, s1), got, e') = >>=-eq-some (find_pte_create_at (indexes vpn) s) _ e in
      let (_, done) = >>-eq-some (not (is_valid r.pte)) _ e' in
      subst (Keeps s.system) (ap Paging.system (some-eq done))
        (find_pte_create_at-Keeps (indexes vpn) s r s1 v got)

  remap_one-system :
      (vpn ppn : ℕ) (flags : Pte) (s s' : Paging)
      → remap_one vpn ppn flags s ≡ some s'
      → s.system ≡ s'.system
  unfolding remap_one assign
  remap_one-system vpn ppn flags s s' e =
      let (r, _, e') = >>=-eq-some (find_pte vpn s) _ e in
      let (_, done) = >>-eq-some (is_valid r.pte) _ e' in ap Paging.system (some-eq done)

  map_device-Keeps :
      (k vpn : ℕ) (perm : Pte) (s s' : Paging)
      → IsSound base n s.system
      → map_device k vpn perm s ≡ some s'
      → Keeps s.system s'.system
  unfolding map_device
  map_device-Keeps zero vpn perm s s' v e =
      subst (λ (q : Paging). Keeps s.system q.system) (some-eq e) (Keeps-same v)
  map_device-Keeps (suc k) vpn perm s s' v e =
      let (s1, first, e') = >>=-eq-some (map_one vpn vpn perm s) _ e in
      let kept = map_one-Keeps vpn vpn perm s s1 v first in
      Keeps-then kept (map_device-Keeps k (vpn + 1) perm s1 s' kept.sound e')

  map_mmio-Keeps :
      (mmio : List (ℕ × ℕ)) (s s' : Paging)
      → IsSound base n s.system
      → map_mmio mmio s ≡ some s'
      → Keeps s.system s'.system
  unfolding map_mmio
  map_mmio-Keeps [] s s' v e =
      subst (λ (q : Paging). Keeps s.system q.system) (some-eq e) (Keeps-same v)
  map_mmio-Keeps (pair ∷ rest) s s' v e =
      let ((lo, hi), _, e1) =
        >>=-eq-some (vpn_range (record { start = pair.0; end = pair.0 + pair.1 })) _ e in
      let (s1, first, e2) =
        >>=-eq-some (map_device (hi - lo) lo (bit_or readable writable) s) _ e1 in
      let kept = map_device-Keeps (hi - lo) lo (bit_or readable writable) s s1 v first in
      Keeps-then kept (map_mmio-Keeps rest s1 s' kept.sound e2)

  new_kernel-Keeps :
      (kernel_root : Ppn) (mmio : List (ℕ × ℕ)) (s : Paging) (child : AddressSpace)
      → IsSound base n s.system
      → new_kernel kernel_root mmio s ≡ some child
      → Keeps s.system child.paging.system
  unfolding new_kernel new_kernel_table
  new_kernel-Keeps kernel_root mmio s child v e =
      let (table, made, e1) = >>=-eq-some (new_kernel_table kernel_root s) _ e in
      let ((frame, system), got, made') = >>=-eq-some (take_frame s.system) _ made in
      let (paging, mapped, done) = >>=-eq-some (map_mmio mmio table) _ e1 in
      let kept =
        subst (Keeps s.system) (ap Paging.system (some-eq made'))
          (take_frame-Keeps s.system frame system v got) in
      subst (Keeps s.system) (ap (λ (c : AddressSpace). c.paging.system) (some-eq done))
        (Keeps-then kept (map_mmio-Keeps mmio table paging kept.sound mapped))

  clone_tracker-Adds :
      (q : ℕ) (s s' : System)
      → IsSound base n s
      → step (clone_tracker q) s ≡ some s'
      → Adds (λ p. if q == p then 1 else 0) s s'
  clone_tracker-Adds q s s' v e = record {
    sound = clone_tracker-some v q s' e;
    counts = λ p held. rw (clone_tracker-held q s s' e) (ground (arith, count-holds p s.held held));
  }

  clone_frames-Adds :
      (pages : List (Vpn × Ppn)) (s s' : System)
      → IsSound base n s
      → clone_frames pages s ≡ some s'
      → Adds (λ p. in_pages p pages) s s'
  unfolding clone_frames in_pages
  clone_frames-Adds [] s s' v e = subst (Keeps s) (some-eq e) (Keeps-same v)
  clone_frames-Adds (page ∷ rest) s s' v e =
      let (s1, first, e') = >>=-eq-some (step (clone_tracker page.1) s) _ e in
      let added = clone_tracker-Adds page.1 s s1 v first in
      Adds-then added (clone_frames-Adds rest s1 s' added.sound e')

  fork_pages-Keeps :
      (shared : Bool) (flags : Pte) (pages : List (Vpn × Ppn)) (parent : PageTableImpl) (s : Paging)
      (parent' : PageTableImpl) (s' : Paging)
      → IsSound base n s.system
      → fork_pages shared flags pages parent s ≡ some (parent', s')
      → Keeps s.system s'.system
  unfolding fork_pages
  fork_pages-Keeps shared flags [] parent s parent' s' v e =
      subst (λ (q : PageTableImpl × Paging). Keeps s.system q.1.system) (some-eq e) (Keeps-same v)
  fork_pages-Keeps false flags (page ∷ rest) parent s parent' s' v e =
      let (s1, first, e1) = >>=-eq-some (map_one page.0 page.1 flags s) _ e in
      let kept = map_one-Keeps page.0 page.1 flags s s1 v first in
      Keeps-then kept (fork_pages-Keeps false flags rest parent s1 parent' s' kept.sound e1)
  fork_pages-Keeps true flags (page ∷ rest) parent s parent' s' v e =
      let (s1, first, e1) = >>=-eq-some (map_one page.0 page.1 flags s) _ e in
      let kept = map_one-Keeps page.0 page.1 flags s s1 v first in
      let ((parent1, s2), shared, e2) = >>=-eq-some _ _ e1 in
      let (s3, again, done) =
        >>=-eq-some (remap_one page.0 page.1 flags (record s1 { page_table = parent })) _ shared in
      let same : s1.system ≡ s2.system =
        remap_one-system page.0 page.1 flags (record s1 { page_table = parent }) s3 again
        ∙ ap (λ (q : PageTableImpl × Paging). q.1.system) (some-eq done) in
      let kept' = subst (Keeps s.system) same kept in
      Keeps-then kept' (fork_pages-Keeps true flags rest parent1 s2 parent' s' kept'.sound e2)

  fork_areas-Adds :
      (areas : Areas) (parent : PageTableImpl) (child : AddressSpace) (parent' : PageTableImpl)
      (child' : AddressSpace)
      → IsSound base n child.paging.system
      → fork_areas areas parent child ≡ some (parent', child')
      → Adds (λ p. in_areas p areas) child.paging.system child'.paging.system
  unfolding fork_areas in_areas
  fork_areas-Adds [] parent child parent' child' v e =
      subst (λ (q : PageTableImpl × AddressSpace). Keeps child.paging.system q.1.paging.system)
        (some-eq e) (Keeps-same v)
  fork_areas-Adds (entry ∷ rest) parent child parent' child' v e =
      let flags = entry.1.map_perm in
      let shared = contains flags writable || contains flags cow in
      let ((parent1, paging), mapped, e1) =
        >>=-eq-some (fork_pages shared (fork_flags flags) entry.1.data_frames parent child.paging) _
          e in
      let kept =
        fork_pages-Keeps shared (fork_flags flags) entry.1.data_frames parent child.paging parent1
          paging v mapped in
      let (system, cloned, e2) =
        >>=-eq-some (clone_frames entry.1.data_frames paging.system) _ e1 in
      let added =
        Keeps-then kept
          (clone_frames-Adds entry.1.data_frames paging.system system kept.sound cloned) in
      Adds-then added (fork_areas-Adds rest parent1 _ parent' child' added.sound e2)

  -- After a fork from a sound allocator: the parent and the child stand on one allocator, it is sound,
  -- and each frame that had trackers has one more for every page of the parent's areas that lies in it,
  -- so that a page that both can reach counts as shared.
  pub fork-Adds :
      (kernel_root : Ppn) (mmio : List (ℕ × ℕ)) (s parent child : AddressSpace)
      → IsSound base n s.paging.system
      → fork kernel_root mmio s ≡ some (parent, child)
      → (parent.paging.system ≡ child.paging.system)
        × (parent.areas ≡ s.areas)
        × Adds (λ p. in_areas p s.areas) s.paging.system child.paging.system
  unfolding fork
  fork-Adds kernel_root mmio s parent child v e =
      let (child0, made, e1) = >>=-eq-some (new_kernel kernel_root mmio s.paging) _ e in
      let kept = new_kernel-Keeps kernel_root mmio s.paging child0 v made in
      let ((table, child1), forked, done) =
        >>=-eq-some (fork_areas s.areas s.paging.page_table child0) _ e1 in
      let added =
        Keeps-then kept
          (fork_areas-Adds s.areas s.paging.page_table child0 table child1 kept.sound forked) in
      subst
        (λ (q : AddressSpace × AddressSpace).
          (q.0.paging.system ≡ q.1.paging.system)
          × (q.0.areas ≡ s.areas)
          × Adds (λ p. in_areas p s.areas) s.paging.system q.1.paging.system)
        (some-eq done) (refl, refl, added)
