-- ===== src/Mm/Cow/Isolation.antt =====
-- A page fault copies a shared page into a frame of its own, and makes any other writable where it is.
use hecto_os.Base.{
  ℕ, ◌+◌, ◌^◌, ◌<◌, ◌≡◌, ◌≢◌, ◌⊎◌, refl, ap, subst, inl, inr, true, some, List, [], ◌∷◌, ltb, ◌==◌,
  if◌then◌else◌, Bool-cases, >>=-eq-some, >>-eq-some, some-eq, count, arith,
}
use hecto_os.Mm.Address.{VirtAddr, VaRange, Ppn, floor}
use hecto_os.Mm.FrameAllocator.{System, take_frame, get_ref_count, step, drop_tracker}
use hecto_os.Mm.FrameAllocator.Soundness.{IsSound, Managed, get_ref_count-count}
use hecto_os.Mm.FrameAllocator.History.{take_frame-fresh, drop_tracker-forget}
use hecto_os.Mm.Pte.Fields.{IsOwn, insert-IsOwn, set_ppn-IsOwn, ppn_of-set_ppn}
use hecto_os.Mm.Pte.{Pte, cow, contains, set_ppn, ppn_of}
use hecto_os.Mm.PageTable.{PteRef, find_pte, assign}
use hecto_os.Mm.AddressSpace.{MapArea, AddressSpace}
use hecto_os.Mm.Cow.{
  Memory, get_area, frame_of, put_area, set_frame, copy_frame, unshared, unshare, handle_pagefault,
}

-- The one tracker of the page is of a frame that nobody else has: the entry becomes writable and is no longer marked, and the
-- contents and the trackers stay.
pub record InPlace (frame : Ppn) (r : PteRef) (s : AddressSpace) (memory : Memory)
    (s' : AddressSpace) (memory' : Memory) : Type 0 where
  pub sole : count frame s.paging.system.held ≡ 1
  pub pte : Pte
  pub own : IsOwn pte
  pub entry : s'.paging.tables ≡ (assign r pte s.paging).tables
  pub trackers : s'.paging.system ≡ s.paging.system
  pub contents : memory' ≡ memory

-- The frame of the page has more trackers: the entry becomes writable and leads to a frame that nobody
-- held, which has the contents of the old one; the page's tracker in its area is now one of the new
-- frame.
pub record Copied (base n : ℕ) (va : VirtAddr) (frame : Ppn) (r : PteRef) (s : AddressSpace)
    (memory : Memory) (s' : AddressSpace) (memory' : Memory) : Type 0 where
  pub new : Ppn
  pub shared : 1 < count frame s.paging.system.held
  pub managed : Managed base n new
  pub fresh : count new s.paging.system.held ≡ 0
  pub pte : Pte
  pub own : IsOwn pte
  pub leads : ppn_of pte ≡ new
  pub entry : s'.paging.tables ≡ (assign r pte s.paging).tables
  pub trackers :
      (p : ℕ)
      → count p s'.paging.system.held + (if frame == p then 1 else 0)
        ≡ count p s.paging.system.held + (if new == p then 1 else 0)
  pub tracked_new :
      (area' : MapArea) × (get_area (record { start = va; end = va }) s'.areas ≡ some area')
      × (frame_of (floor va) area'.data_frames ≡ some new)
  pub copy : (i : ℕ) → memory' new i ≡ memory (ppn_of r.pte) i
  pub others : (p i : ℕ) → p ≢ new → memory' p i ≡ memory p i

-- `get_mut` of the tree, and the value changed: the next look finds what was put.
get_area-put_area :
    (range : VaRange) (area area' : MapArea) (areas : List (VaRange × MapArea))
    → get_area range areas ≡ some area
    → get_area range (put_area range area' areas) ≡ some area'
unfolding get_area put_area
get_area-put_area range area area' [] found = absurd (cc)
get_area-put_area range area area' (entry ∷ rest) found =
    ground (arith, found, get_area-put_area range area area' rest)

frame_of-set_frame :
    (vpn ppn new : ℕ) (frames : List (ℕ × Ppn))
    → frame_of vpn frames ≡ some ppn
    → frame_of vpn (set_frame vpn new frames) ≡ some new
unfolding frame_of set_frame
frame_of-set_frame vpn ppn new [] found = absurd (cc)
frame_of-set_frame vpn ppn new (page ∷ rest) found =
    ground (arith, found, frame_of-set_frame vpn ppn new rest)

-- What a handled fault at an address has done: the entry of its page was marked, the page is in an
-- area, and its frame is copied or not.
pub record Isolated (base n : ℕ) (va : VirtAddr) (s : AddressSpace) (memory : Memory)
    (s' : AddressSpace) (memory' : Memory) : Type 0 where
  pub r : PteRef
  pub area : MapArea
  pub frame : Ppn
  pub found : find_pte (floor va) s.paging ≡ some r
  pub marked : contains r.pte cow ≡ true
  pub in_area : get_area (record { start = va; end = va }) s.areas ≡ some area
  pub tracked : frame_of (floor va) area.data_frames ≡ some frame
  pub sound : IsSound base n s'.paging.system
  pub kept : (p i : ℕ) → 0 < count p s.paging.system.held → memory' p i ≡ memory p i
  pub done : InPlace frame r s memory s' memory' ⊎ Copied base n va frame r s memory s' memory'

module _ {base n : ℕ} (va frame : ℕ) (r : PteRef) (area : MapArea) (s : AddressSpace)
    (memory : Memory) (v : IsSound base n s.paging.system)
    (found : find_pte (floor va) s.paging ≡ some r) (marked : contains r.pte cow ≡ true)
    (in_area : get_area (record { start = va; end = va }) s.areas ≡ some area)
    (tracked : frame_of (floor va) area.data_frames ≡ some frame) where
  abbrev moved_area : ℕ → MapArea
  moved_area new = record area { data_frames = set_frame (floor va) new area.data_frames }

  copied-Isolated :
      (new : ℕ) (system system' : System)
      → 1 < count frame s.paging.system.held
      → take_frame s.paging.system ≡ some (new, system)
      → step (drop_tracker frame) system ≡ some system'
      → Isolated base n va s memory
          (record s {
            paging = assign r (set_ppn (unshared r.pte) new) (record s.paging { system = system' });
            areas = put_area (record { start = va; end = va }) (moved_area new) s.areas;
          })
          (copy_frame new (ppn_of r.pte) memory)
  unfolding assign copy_frame
  copied-Isolated new system system' shared got dropped =
      let (sound, managed, fresh, holds) = take_frame-fresh s.paging.system new system v got in
      let low : new < 2 ^ 44 = omega (arith, managed, sound.fits) in
      let added : (p : ℕ)
          → count p system.held ≡ (if new == p then 1 else 0) + count p s.paging.system.held =
        λ p. ap (count p) holds in
      let (sound', left) =
        drop_tracker-forget frame system system' sound (ground (arith, added frame)) dropped in
      record {
        r = r;
        area = area;
        frame = frame;
        found = found;
        marked = marked;
        in_area = in_area;
        tracked = tracked;
        sound = sound';
        kept = λ p i held. ground (arith, fresh);
        done = inr (record {
          new = new;
          shared = shared;
          managed = managed;
          fresh = fresh;
          pte = set_ppn (unshared r.pte) new;
          own = set_ppn-IsOwn (unshared r.pte) new low (insert-IsOwn r.pte);
          leads = ppn_of-set_ppn (unshared r.pte) new low;
          entry = refl;
          trackers = λ p. omega (arith, left p, added p);
          tracked_new = (
            moved_area new,
            get_area-put_area (record { start = va; end = va }) area (moved_area new) s.areas
                in_area,
            frame_of-set_frame (floor va) frame new area.data_frames tracked,
          );
          copy = λ i. ground arith;
          others = λ p i other. ground (arith, other);
        });
      }

  unshare-Isolated :
      (ref_count : ℕ) (s' : AddressSpace) (memory' : Memory)
      → get_ref_count s.paging.system.allocator frame ≡ some ref_count
      → unshare va r area frame ref_count s memory ≡ some (s', memory')
      → Isolated base n va s memory s' memory'
  unfolding unshare
  unshare-Isolated ref_count s' memory' counted e =
      let (is, held) = get_ref_count-count v frame ref_count counted in
      elim (Bool-cases (ltb 1 ref_count)) [
        | inl shared ↦
            let e' = rw shared at e in
            let ((new, system), got, e1) = >>=-eq-some (take_frame s.paging.system) _ e' in
            let (system', dropped, e2) = >>=-eq-some (step (drop_tracker frame) system) _ e1 in
            subst (λ (q : AddressSpace × Memory). Isolated base n va s memory q.0 q.1) (some-eq e2)
              (copied-Isolated new system system' (ground (arith, shared, is)) got dropped)
        | inr alone ↦
            let same = some-eq (rw alone at e) in
            subst (λ (q : AddressSpace × Memory). Isolated base n va s memory q.0 q.1) same
              (record {
                r = r;
                area = area;
                frame = frame;
                found = found;
                marked = marked;
                in_area = in_area;
                tracked = tracked;
                sound = unfold assign in v;
                kept = λ p i held. refl;
                done = inl (record {
                  sole = ground (arith, alone, is, held);
                  pte = unshared r.pte;
                  own = insert-IsOwn r.pte;
                  entry = refl;
                  trackers = unfold assign in refl;
                  contents = refl;
                });
              })
      ]

-- A page fault that is handled finds a marked entry and a tracker of the page. If the frame of the
-- tracker has another tracker, the page goes to a frame that nobody held, with the old contents, and the
-- entry leads there, as does the page's tracker; if not, nothing is copied. The entry becomes writable and
-- is no longer marked. In
-- both cases the allocator stays sound and no frame changes that has a tracker, in this process or another.
pub handle_pagefault-Isolated :
    {base n : ℕ} (va : ℕ) (s : AddressSpace) (memory : Memory) (s' : AddressSpace)
    (memory' : Memory)
    → IsSound base n s.paging.system
    → handle_pagefault va s memory ≡ some (s', memory')
    → Isolated base n va s memory s' memory'
unfolding handle_pagefault
handle_pagefault-Isolated va s memory s' memory' v e =
    let (r, there, e1) = >>=-eq-some (find_pte (floor va) s.paging) _ e in
    let (marked, e2) = >>-eq-some (contains r.pte cow) _ e1 in
    let (area, inside, e3) =
      >>=-eq-some (get_area (record { start = va; end = va }) s.areas) _ e2 in
    let (frame, tracked, e4) = >>=-eq-some (frame_of (floor va) area.data_frames) _ e3 in
    let (ref_count, counted, e5) =
      >>=-eq-some (get_ref_count s.paging.system.allocator frame) _ e4 in
    unshare-Isolated va frame r area s memory v there marked inside tracked ref_count s' memory'
      counted e5
