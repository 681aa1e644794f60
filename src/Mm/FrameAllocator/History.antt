-- ===== src/Mm/FrameAllocator/History.antt =====
-- No history of allocations, clones and drops panics or shares a frame by allocation.
use hecto_os.Base.{
  ℕ, zero, suc, ◌+◌, ◌-◌, ◌/◌, ◌^◌, ◌≤◌, ◌<◌, ◌≡◌, refl, sym, ap, subst, ◌∙◌, inl, inr, Bool-cases,
  some-eq, none, some, List, [], ◌∷◌, ◌&&◌, leb, ltb, Option, ◌==◌, >>=-eq-some, >>-eq-some, length,
  if◌then◌else◌, count, All, get_or, replicate, length-replicate, arith,
}
use hecto_os.Base.Word.{checked_sub-some, usize_mod}
use hecto_os.Mm.Address.{floor, ppn_of_vpn, kernel_map_offset, address_of_page}
use hecto_os.Mm.Address.Pages.{ceil_lem}
use hecto_os.Mm.FrameAllocator.{
  PhyPageAllocator, System, FrameOp, frame_alloc, usage, alloc_from, alloc, keep, step, run, init,
  push_pages, take_frame, clone_tracker, drop_tracker, holds, forget, clone, dealloc,
}
use hecto_os.Mm.FrameAllocator.Counts.{count-holds, count-forget}
use hecto_os.Mm.FrameAllocator.Soundness.{
  IsSound, Managed, page_of, address_of_frame, frame_alloc-IsSound, clone_tracker-IsSound,
  drop_tracker-IsSound, drop-IsSound, alloc_exclusive_lem, alloc_exhausted_lem,
}

module _ (base : ℕ) where
  push_pages-Pages :
      (n k : ℕ) (list : List ℕ)
      → k ≤ n
      → base + n ≤ 2 ^ 26
      → All (λ a. (p : ℕ) × Managed base n p × (a ≡ page_of p)) list
      → All
          (λ a. (p : ℕ) × Managed base n p × (a ≡ page_of p))
          (push_pages k (base + 0xF_FFFF_FC00_0000) list)
  unfolding push_pages
  push_pages-Pages n zero list h low all = all
  push_pages-Pages n (suc k) list h low all =
      let page : address_of_page (base + 0xF_FFFF_FC00_0000 + k) ≡ page_of (base + k) =
        ap address_of_page (omega arith) ∙ address_of_frame (base + k) (omega arith) in
      push_pages-Pages n k _ (omega arith) low ((base + k, (omega arith, omega arith), page), all)

  count-push_pages :
      (k p : ℕ) (list : List ℕ)
      → base + k ≤ 2 ^ 26
      → count (page_of p) (push_pages k (base + 0xF_FFFF_FC00_0000) list)
        ≡ (if leb base p && ltb p (base + k) then 1 else 0) + count (page_of p) list
  unfolding push_pages
  count-push_pages zero p list low = ground arith
  count-push_pages (suc k) p list low =
      let page : address_of_page (base + 0xF_FFFF_FC00_0000 + k) ≡ page_of (base + k) =
        ap address_of_page (omega arith) ∙ address_of_frame (base + k) (omega arith) in
      ground (
        arith,
        page,
        count-push_pages k p (address_of_page (base + 0xF_FFFF_FC00_0000 + k) ∷ list) (omega arith),
      )

get_or-replicate : (n i : ℕ) → get_or {A = ℕ} (replicate n 0) i 0 ≡ 0
get_or-replicate zero i = refl
get_or-replicate (suc n) zero = refl
get_or-replicate (suc n) (suc i) = get_or-replicate n i

-- `n` free frames from frame `base` on.
unfoldable pub fresh : (base n : ℕ) → System
unfolding push_pages
fresh base n = record {
  allocator = record {
    free_list = push_pages n (base + 0xF_FFFF_FC00_0000) [];
    page_usage = replicate n 0;
    start_ppn = base;
  };
  held = [];
}

pub fresh-IsSound : (base n : ℕ) → base + n ≤ 2 ^ 26 → IsSound base n (fresh base n)
unfolding fresh
fresh-IsSound base n low = record {
  fits = low;
  size = length-replicate n 0;
  start = refl;
  managed = tt;
  pages = push_pages-Pages base n n [] (omega arith) low tt;
  counts = λ p h. get_or-replicate n (p - base);
  free = λ p h. ground (arith, count-push_pages base n p [] low);
}

-- `init` between the end of the kernel image and the end of memory, both in the linear map, gives
-- an allocator of every whole page between them, all of them free.
pub init-IsSound :
    (ekernel memory_end : ℕ)
    → kernel_map_offset < ekernel
    → ekernel ≤ memory_end
    → memory_end < usize_mod - 4096
    → (ekernel + 4095) / 4096 ≤ memory_end / 4096
    → (a : PhyPageAllocator) × (init ekernel memory_end ≡ some a)
      × IsSound
          ((ekernel + 4095) / 4096 - 0xF_FFFF_FC00_0000)
          (memory_end / 4096 - (ekernel + 4095) / 4096)
          (record { allocator = a; held = [] })
unfolding init floor ppn_of_vpn fresh
init-IsSound ekernel memory_end lo le hi room =
    let start = (ekernel + 4095) / 4096 in
    let base = start - 0xF_FFFF_FC00_0000 in
    let n = memory_end / 4096 - start in
    let first : base + 0xF_FFFF_FC00_0000 ≡ start = omega arith in
    (
      (fresh base n).allocator,
      rw (ceil_lem ekernel (omega arith) (omega arith)) (
          rw (checked_sub-some (memory_end / 4096) start room)
            (rw (checked_sub-some start 0xF_FFFF_FC00_0000 (omega arith)) (rw first refl))),
      fresh-IsSound base n (omega arith),
    )

forget-length : (p : ℕ) (held : List ℕ) → length (forget p held) ≤ length held
unfolding forget
forget-length p [] = omega arith
forget-length p (q ∷ qs) = ground (arith, forget-length p qs)

keep-length :
    (held : List ℕ) (r : Option ℕ × PhyPageAllocator)
    → length (keep held r).held ≤ suc (length held)
unfolding keep
keep-length held (none, a) = omega arith
keep-length held (some p, a) = omega arith

-- A step adds at most one tracker.
step-length :
    (op : FrameOp) (s s' : System) → step op s ≡ some s' → length s'.held ≤ suc (length s.held)
unfolding step
step-length frame_alloc s s' e =
    let (r, _, done) = >>=-eq-some (alloc s.allocator) _ e in
    subst (λ (t : System). length t.held ≤ suc (length s.held)) (some-eq done)
      (keep-length s.held r)
step-length (clone_tracker p) s s' e = elim (Bool-cases (holds p s.held)) [
  | inl held ↦
      let (a, _, done) = >>=-eq-some (clone s.allocator p) _ (rw held at e) in
      subst (λ (t : System). length t.held ≤ suc (length s.held)) (some-eq done) (omega arith)
  | inr gone ↦
      subst (λ (t : System). length t.held ≤ suc (length s.held)) (some-eq (rw gone at e))
        (omega arith)
]
step-length (drop_tracker p) s s' e = elim (Bool-cases (holds p s.held)) [
  | inl held ↦
      let (a, _, done) = >>=-eq-some (dealloc s.allocator p) _ (rw held at e) in
      subst (λ (t : System). length t.held ≤ suc (length s.held)) (some-eq done)
        (omega (arith, forget-length p s.held))
  | inr gone ↦
      subst (λ (t : System). length t.held ≤ suc (length s.held)) (some-eq (rw gone at e))
        (omega arith)
]

count-length : (p : ℕ) (held : List ℕ) → count p held ≤ length held
count-length p [] = omega arith
count-length p (q ∷ qs) = ground (arith, count-length p qs)

-- No step of a sound system panics: every assertion of the allocator holds, every index is in
-- range, no count overflows, and the counts stay those of the live trackers.
pub step-IsSound :
    {base n : ℕ} {s : System} (op : FrameOp)
    → IsSound base n s
    → length s.held + 1 < usize_mod
    → (s' : System) × (step op s ≡ some s') × IsSound base n s'
step-IsSound frame_alloc v room = frame_alloc-IsSound v
step-IsSound {s = s} (clone_tracker p) v room =
    clone_tracker-IsSound v p (omega (arith, count-length p s.held))
step-IsSound (drop_tracker p) v room = drop_tracker-IsSound v p

-- From a sound system whose trackers and steps are together fewer than 2^64, no history of allocations,
-- clones and drops panics: no assertion fails, no count overflows and no index is out of range. The
-- system it leaves is sound: each count is that of the live trackers of its frame, and exactly the
-- frames without a tracker are free, each once.
pub run-IsSound :
    {base n : ℕ} (ops : List FrameOp) {s : System}
    → IsSound base n s
    → length s.held + length ops < usize_mod
    → (s' : System) × (run ops s ≡ some s') × IsSound base n s'
unfolding run
run-IsSound [] {s} v room = (s, refl, v)
run-IsSound (op ∷ ops) {s} v room =
    let (s', done, v') = step-IsSound op v (omega arith) in
    let (s'', rest, v'') =
      run-IsSound ops {s = (step-IsSound op v (omega arith)).0} v'
        (omega (arith, step-length op s s' done)) in
    (s'', rw done rest, v'')

-- A drop of a live tracker takes one of the frame's trackers away.
pub drop_tracker-forget :
    {base n : ℕ} (p : ℕ) (s s' : System)
    → IsSound base n s
    → 0 < count p s.held
    → step (drop_tracker p) s ≡ some s'
    → IsSound base n s' × ((q : ℕ) → count q s'.held + (if p == q then 1 else 0) ≡ count q s.held)
drop_tracker-forget p s s' v more e =
    let held = count-holds p s.held more in
    let (s'', done, sound, left) = drop-IsSound v p held in
    let same = some-eq (sym done ∙ e) in
    let left' : s'.held ≡ forget p s.held = ap System.held (sym same) ∙ left in
    (
      subst (IsSound _ _) same sound,
      λ q.
          ap (λ (l : List ℕ). count q l + (if p == q then 1 else 0)) left'
          ∙ count-forget p q s.held held,
    )

-- A frame that `alloc` hands out has no live tracker: no frame is in two hands by allocation.
pub alloc_exclusive :
    {base n : ℕ} {s : System} (p : ℕ) (a : PhyPageAllocator)
    → IsSound base n s
    → alloc s.allocator ≡ some (some p, a)
    → Managed base n p × (count p s.held ≡ 0)
alloc_exclusive {s = s} p a v e = alloc_exclusive_lem v s.allocator.free_list refl p a e

-- It hands out none only when every frame has a tracker.
pub alloc_exhausted :
    {base n : ℕ} {s : System} (a : PhyPageAllocator) (p : ℕ)
    → IsSound base n s
    → alloc s.allocator ≡ some (none, a)
    → Managed base n p
    → 0 < count p s.held
alloc_exhausted {s = s} a p v e m = alloc_exhausted_lem v s.allocator.free_list refl p a e m

take_frame-alloc :
    (s : System) (f : ℕ) (s' : System)
    → take_frame s ≡ some (f, s')
    → (alloc s.allocator ≡ some (some f, s'.allocator)) × (s'.held ≡ f ∷ s.held)
unfolding take_frame
take_frame-alloc s f s' e = ground arith

-- `frame_alloc().unwrap()` in a sound system: the frame had no tracker, and now has one.
pub take_frame-fresh :
    {base n : ℕ} (s : System) (f : ℕ) (s' : System)
    → IsSound base n s
    → take_frame s ≡ some (f, s')
    → IsSound base n s' × Managed base n f × (count f s.held ≡ 0) × (s'.held ≡ f ∷ s.held)
unfolding step keep
take_frame-fresh s f s' v e =
    let (got, holds) = take_frame-alloc s f s' e in
    let (s'', done, sound) = frame_alloc-IsSound v in
    let (m, fresh) = alloc_exclusive f s'.allocator v got in
    let same : s'' ≡ s' = ground arith in (subst (IsSound _ _) same sound, m, fresh, holds)

alloc_from-some :
    (a : PhyPageAllocator) (page : ℕ) (rest : List ℕ) (o : Option ℕ) (a' : PhyPageAllocator)
    → alloc_from a (page ∷ rest) ≡ some (o, a')
    → (f : ℕ) × (o ≡ some f) × (a'.free_list ≡ rest)
unfolding alloc_from
alloc_from-some a page rest o a' e =
    let (ppn, _, in_usage) = >>=-eq-some (ppn_of_vpn (floor page)) _ e in
    let ((i, ref_count), _, tested) = >>=-eq-some (usage a ppn) _ in_usage in
    let (_, done) = >>-eq-some (ref_count == 0) _ tested in (ppn, cc, cc)

-- While a page is free, `frame_alloc().unwrap()` gives a frame, and uses up one page.
pub take_frame-total :
    {base n : ℕ} (s : System)
    → IsSound base n s
    → 0 < length s.allocator.free_list
    → (f : ℕ) × (s' : System) × (take_frame s ≡ some (f, s'))
      × (length s.allocator.free_list ≡ suc (length s'.allocator.free_list))
unfolding step keep take_frame alloc
take_frame-total s v more =
    let (s', done, _) = frame_alloc-IsSound v in
    let ((o, a), got, _) = >>=-eq-some (alloc s.allocator) _ done in
    by_list s.allocator.free_list refl more o a got
  where
    by_list :
        (list : List ℕ)
        → s.allocator.free_list ≡ list
        → 0 < length list
        → (o : Option ℕ) (a : PhyPageAllocator) → alloc_from s.allocator list ≡ some (o, a)
        → (f : ℕ) × (s' : System) × (take_frame s ≡ some (f, s'))
          × (length s.allocator.free_list ≡ suc (length s'.allocator.free_list))
    by_list [] is more o a got = elim more [ ]
    by_list (page ∷ rest) is more o a got =
        let (f, of, left) = alloc_from-some s.allocator page rest o a got in
        let got' = subst (λ l. alloc_from s.allocator l ≡ some (o, a)) (sym is) got in
        (
          f,
          record { allocator = a; held = f ∷ s.held },
          rw got' (rw of refl),
          ap length is ∙ ap (λ l. suc (length l)) (sym left),
        )
