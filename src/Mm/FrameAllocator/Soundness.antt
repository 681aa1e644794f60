-- ===== src/Mm/FrameAllocator/Soundness.antt =====
-- The counts are those of the live trackers, and exactly the frames without one are free.
use hecto_os.Base.{
  ℕ, ◌+◌, ◌-◌, ◌*◌, ◌^◌, ◌≤◌, ◌<◌, ◌≡◌, refl, inl, inr, ap, sym, subst, some-eq, true, none, some,
  List, [], ◌∷◌, ltb, false, ◌∙◌, ◌==◌, if◌then◌else◌, Bool-cases, count, All, get_or, set, length,
  length-set, get_or-set, get_elem?-get_or, get_elem?, get_elem?_above, >>=-eq-some, >>-eq-some,
  arith,
}
use hecto_os.Base.Word.{checked_sub, checked_add, checked_sub-some, checked_add-some, usize_mod}
use hecto_os.Mm.Address.{floor, address_of_page, vpn_of_ppn, ppn_of_vpn}
use hecto_os.Mm.FrameAllocator.{
  PhyPageAllocator, System, frame_alloc, clone_tracker, drop_tracker, usage, alloc_from, alloc,
  dealloc, clone, get_ref_count, step, keep, holds, forget,
}
use hecto_os.Mm.FrameAllocator.Counts.{holds-count, count-forget, All-forget, All-holds}

-- The address at which the kernel sees a frame.
abbrev pub page_of : ℕ → ℕ
page_of ppn = (ppn + 0xF_FFFF_FC00_0000) * 4096

abbrev pub Managed : ℕ → ℕ → ℕ → Type 0
Managed base n ppn = (base ≤ ppn) × (ppn < base + n)

-- `n` frames from frame `base` on; the bound keeps their kernel addresses below 2^64.
pub record IsSound (base n : ℕ) (s : System) : Type 0 where
  pub fits : base + n ≤ 2 ^ 26
  pub size : length s.allocator.page_usage ≡ n
  pub start : s.allocator.start_ppn ≡ base
  pub managed : All (Managed base n) s.held
  pub pages : All (λ a. (p : ℕ) × Managed base n p × (a ≡ page_of p)) s.allocator.free_list
  pub counts :
      (p : ℕ) → Managed base n p → get_or s.allocator.page_usage (p - base) 0 ≡ count p s.held
  pub free :
      (p : ℕ)
      → Managed base n p
      → count (page_of p) s.allocator.free_list ≡ (if count p s.held == 0 then 1 else 0)

floor-page_of : (ppn : ℕ) → ppn < 2 ^ 26 → ppn_of_vpn (floor (page_of ppn)) ≡ some ppn
unfolding ppn_of_vpn floor checked_sub
floor-page_of ppn h = ground arith

vpn_of_frame : (ppn : ℕ) → ppn < 2 ^ 26 → vpn_of_ppn ppn ≡ some (ppn + 0xF_FFFF_FC00_0000)
unfolding vpn_of_ppn checked_add
vpn_of_frame ppn h = ground arith

pub address_of_frame :
    (ppn : ℕ) → ppn < 2 ^ 26 → address_of_page (ppn + 0xF_FFFF_FC00_0000) ≡ page_of ppn
unfolding address_of_page
address_of_frame ppn h = omega arith

module _ {base n : ℕ} {s : System} (v : IsSound base n s) where
  usage_lem : (p : ℕ) → Managed base n p → usage s.allocator p ≡ some (p - base, count p s.held)
  unfolding usage
  usage_lem p h =
      let index : checked_sub p s.allocator.start_ppn ≡ some (p - base) =
        rw v.start (checked_sub-some p base h.0) in
      let cell = get_elem?-get_or s.allocator.page_usage (p - base) 0 (omega (arith, v.size)) in
      rw (index, cell, v.counts p h)

  -- Only the frames of the allocator have a count.
  usage-Managed :
      (p i c : ℕ) → usage s.allocator p ≡ some (i, c) → Managed base n p × (c ≡ count p s.held)
  unfolding usage checked_sub
  usage-Managed p i c e =
      let (j, index, e1) = >>=-eq-some (checked_sub p s.allocator.start_ppn) _ e in
      let (d, cell, done) = >>=-eq-some (get_elem? s.allocator.page_usage j) _ e1 in
      let m : Managed base n p = in_range p j d index cell in
      (m, ap (λ (x : ℕ × ℕ). x.1) (some-eq (sym e ∙ usage_lem p m)))
    where
      in_range :
          (p j d : ℕ)
          → checked_sub p s.allocator.start_ppn ≡ some j
          → get_elem? s.allocator.page_usage j ≡ some d
          → Managed base n p
      in_range p j d index cell = elim (Bool-cases (ltb j n)) [
        | inl low ↦ ground (arith, low, index, v.start)
        | inr high ↦
            let nothing = get_elem?_above s.allocator.page_usage j (ground (arith, high, v.size)) in
            absurd (cc)
      ]

  -- The count of a frame is that of its live trackers.
  pub get_ref_count-count :
      (p c : ℕ) → get_ref_count s.allocator p ≡ some c → (c ≡ count p s.held) × (0 < c)
  unfolding get_ref_count
  get_ref_count-count p c e =
      let ((i, ref_count), found, e1) = >>=-eq-some (usage s.allocator p) _ e in
      let (more, done) = >>-eq-some (ltb 0 ref_count) _ e1 in
      let (_, is) = usage-Managed p i ref_count found in
      (sym (some-eq done) ∙ is, ground (arith, more, some-eq done))

  set_usage :
      (p q c : ℕ)
      → Managed base n p
      → Managed base n q
      → get_or (set s.allocator.page_usage (p - base) c) (q - base) 0
        ≡ (if p == q then c else count q s.held)
  set_usage p q c hp hq = ground (
    arith,
    get_or-set s.allocator.page_usage (p - base) (q - base) c 0 (omega (arith, v.size)),
    v.counts q hq,
  )

  clone-IsSound :
      (p : ℕ)
      → holds p s.held ≡ true
      → count p s.held + 1 < usize_mod
      → (s' : System) × (step (clone_tracker p) s ≡ some s')
        × IsSound base n s'
        × (s'.held ≡ p ∷ s.held)
  unfolding step clone
  clone-IsSound p h fits =
      let m : Managed base n p = All-holds (Managed base n) p s.held v.managed h in
      let c = count p s.held in
      let a = record s.allocator { page_usage = set s.allocator.page_usage (p - base) (c + 1) } in
      let pos = holds-count p s.held h in
      (
        record { allocator = a; held = p ∷ s.held },
        rw (h, usage_lem p m, checked_add-some (count p s.held) 1 fits) (ground (arith, pos)),
        record {
          fits = v.fits;
          size = length-set s.allocator.page_usage (p - base) (c + 1) ∙ v.size;
          start = v.start;
          managed = (m, v.managed);
          pages = v.pages;
          counts = λ q hq. ground (arith, set_usage p q (c + 1) m hq);
          free = λ q hq. ground (arith, v.free q hq, pos);
        },
        refl,
      )

  page_of-injective : (p q : ℕ) → page_of p ≡ page_of q → p ≡ q
  page_of-injective p q e = omega arith

  -- The last tracker gives the page back; another only lowers the count.
  dealloc_lem :
      (p : ℕ)
      → holds p s.held ≡ true
      → dealloc s.allocator p
        ≡ some (record {
          free_list =
              if count p s.held == 1
              then page_of p ∷ s.allocator.free_list
              else s.allocator.free_list;
          page_usage = set s.allocator.page_usage (p - base) (count p s.held - 1);
          start_ppn = s.allocator.start_ppn;
        })
  unfolding dealloc
  dealloc_lem p h =
      let m : Managed base n p = All-holds (Managed base n) p s.held v.managed h in
      let low : p < 2 ^ 26 = omega (arith, v.fits) in
      rw (usage_lem p m, vpn_of_frame p low)
        (rw (address_of_frame p low) (ground (arith, holds-count p s.held h)))

  pub drop-IsSound :
      (p : ℕ)
      → holds p s.held ≡ true
      → (s' : System) × (step (drop_tracker p) s ≡ some s')
        × IsSound base n s'
        × (s'.held ≡ forget p s.held)
  unfolding step
  drop-IsSound p h =
      let m : Managed base n p = All-holds (Managed base n) p s.held v.managed h in
      let c = count p s.held in
      let kept : (q : ℕ) × Managed base n q × (page_of p ≡ page_of q) = (p, m, refl) in
      let a : PhyPageAllocator = record {
        free_list = if c == 1 then page_of p ∷ s.allocator.free_list else s.allocator.free_list;
        page_usage = set s.allocator.page_usage (p - base) (c - 1);
        start_ppn = s.allocator.start_ppn;
      } in
      (
        record { allocator = a; held = forget p s.held },
        rw (h, dealloc_lem p h) refl,
        record {
          fits = v.fits;
          size = length-set s.allocator.page_usage (p - base) (c - 1) ∙ v.size;
          start = v.start;
          managed = All-forget (Managed base n) p s.held v.managed;
          pages = ground (arith, v.pages, kept);
          counts = λ q hq. ground (arith, set_usage p q (c - 1) m hq, count-forget p q s.held h);
          free = λ q hq. ground (
            arith,
            v.free q hq,
            count-forget p q s.held h,
            page_of-injective p q,
            holds-count p s.held h,
          );
        },
        refl,
      )

  alloc_empty : s.allocator.free_list ≡ [] → step frame_alloc s ≡ some s
  unfolding step alloc keep
  alloc_empty e = rw e refl

  alloc_page :
      (page : ℕ) (rest : List ℕ)
      → s.allocator.free_list ≡ page ∷ rest
      → (p : ℕ) × Managed base n p
        × (page ≡ page_of p)
        × (count p s.held ≡ 0)
        × (alloc s.allocator
            ≡ some (
              some p,
              record s.allocator {
                free_list = rest;
                page_usage = set s.allocator.page_usage (p - base) 1;
              },
            ))
  unfolding alloc
  alloc_page page rest e =
      let all = subst (All (λ a. (p : ℕ) × Managed base n p × (a ≡ page_of p))) e v.pages in
      let p = all.0.0 in
      let m = all.0.1 in
      let first : page ≡ page_of p = all.0.2 in
      let here = ap (count (page_of p)) e in
      let none_held : count p s.held ≡ 0 = ground (arith, v.free p m) in
      let low : p < 2 ^ 26 = omega (arith, v.fits) in
      let frame : ppn_of_vpn (floor page) ≡ some p = rw first (floor-page_of p low) in
      (p, m, first, none_held, rw (e, alloc_from) (rw (frame, usage_lem p m, none_held) refl))

  alloc-IsSound :
      (list : List ℕ)
      → s.allocator.free_list ≡ list
      → (s' : System) × (step frame_alloc s ≡ some s') × IsSound base n s'
  unfolding step keep
  alloc-IsSound [] e = (s, alloc_empty e, v)
  alloc-IsSound (page ∷ rest) e =
      let (p, m, first, fresh, done) = alloc_page page rest e in
      let a : PhyPageAllocator = record s.allocator {
        free_list = rest;
        page_usage = set s.allocator.page_usage (p - base) 1;
      } in
      let all = subst (All (λ a. (p : ℕ) × Managed base n p × (a ≡ page_of p))) e v.pages in
      (
        record { allocator = a; held = p ∷ s.held },
        rw done refl,
        record {
          fits = v.fits;
          size = length-set s.allocator.page_usage (p - base) 1 ∙ v.size;
          start = v.start;
          managed = (m, v.managed);
          pages = all.1;
          counts = λ q hq. ground (arith, set_usage p q 1 m hq, fresh);
          free = λ q hq.
              ground
                (arith, v.free q hq, ap (count (page_of q)) e, page_of-injective p q, first, fresh);
        },
      )

  -- A clone that does not overflow the count
  pub clone_tracker-IsSound :
      (p : ℕ)
      → count p s.held + 1 < usize_mod
      → (s' : System) × (step (clone_tracker p) s ≡ some s') × IsSound base n s'
  clone_tracker-IsSound p fits = elim (Bool-cases (holds p s.held)) [
    | inl held ↦ let (s', done, sound, _) = clone-IsSound p held fits in (s', done, sound)
    | inr gone ↦ (s, unfold step in rw gone refl, v)
  ]

  clone_tracker-full :
      (p : ℕ)
      → holds p s.held ≡ true
      → usize_mod ≤ count p s.held + 1
      → step (clone_tracker p) s ≡ none
  unfolding step clone checked_add
  clone_tracker-full p held full =
      let m : Managed base n p = All-holds (Managed base n) p s.held v.managed held in
      let over : ltb (count p s.held + 1) usize_mod ≡ false = ground (arith, full) in
      let some_held : ltb 0 (count p s.held) ≡ true = ground (arith, holds-count p s.held held) in
      rw (held, usage_lem p m) (rw (some_held, over) refl)

  -- A clone that succeeds keeps the system sound.
  pub clone_tracker-some :
      (p : ℕ) (s' : System) → step (clone_tracker p) s ≡ some s' → IsSound base n s'
  clone_tracker-some p s' e = elim (Bool-cases (holds p s.held)) [
    | inl held ↦ elim (Bool-cases (ltb (count p s.held + 1) usize_mod)) [
      | inl fits ↦
          let (s'', done, sound) = clone_tracker-IsSound p (ground (arith, fits)) in
          subst (IsSound base n) (some-eq (sym done ∙ e)) sound
      | inr full ↦ let fails = clone_tracker-full p held (ground (arith, full)) in absurd (cc)
    ]
    | inr gone ↦
        let same : step (clone_tracker p) s ≡ some s = unfold step in rw gone refl in
        subst (IsSound base n) (some-eq (sym same ∙ e)) v
  ]

  pub drop_tracker-IsSound :
      (p : ℕ) → (s' : System) × (step (drop_tracker p) s ≡ some s') × IsSound base n s'
  drop_tracker-IsSound p = elim (Bool-cases (holds p s.held)) [
    | inl held ↦ let (s', done, sound, _) = drop-IsSound p held in (s', done, sound)
    | inr gone ↦ (s, unfold step in rw gone refl, v)
  ]

  pub frame_alloc-IsSound : (s' : System) × (step frame_alloc s ≡ some s') × IsSound base n s'
  frame_alloc-IsSound = alloc-IsSound s.allocator.free_list refl

  pub alloc_exclusive_lem :
      (list : List ℕ)
      → s.allocator.free_list ≡ list
      → (p : ℕ) (a : PhyPageAllocator) → alloc s.allocator ≡ some (some p, a)
      → Managed base n p × (count p s.held ≡ 0)
  unfolding alloc
  alloc_exclusive_lem [] e p a h =
      let empty : alloc s.allocator ≡ some (none, s.allocator) = rw e refl in absurd (cc)
  alloc_exclusive_lem (page ∷ rest) e p a h =
      let (q, m, _, fresh, done) = alloc_page page rest e in
      let same : q ≡ p = cc in
      (subst (Managed base n) same m, subst (λ t. count t s.held ≡ 0) same fresh)

  pub alloc_exhausted_lem :
      (list : List ℕ)
      → s.allocator.free_list ≡ list
      → (p : ℕ) (a : PhyPageAllocator) → alloc s.allocator ≡ some (none, a)
      → Managed base n p
      → 0 < count p s.held
  alloc_exhausted_lem [] e p a h m = ground (arith, v.free p m, ap (count (page_of p)) e)
  alloc_exhausted_lem (page ∷ rest) e p a h m =
      let (q, _, _, fresh, done) = alloc_page page rest e in absurd (cc)
