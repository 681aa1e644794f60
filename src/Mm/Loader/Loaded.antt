-- ===== src/Mm/Loader/Loaded.antt =====
-- The loop over the pages of a segment.
use hecto_os.Base.{
  ℕ, zero, suc, ◌+◌, ◌*◌, ◌-◌, ◌≤◌, ◌<◌, ◌≡◌, ◌⊎◌, ◌^◌, refl, sym, ap, ◌∙◌, inl, inr, true,
  Bool-cases, Option, none, some, some-eq, List, [], ◌∷◌, ◌++◌, ◌==◌, leb, if◌then◌else◌,
  >>=-eq-some, length, count, take, drop, bit_or, arith,
}
use hecto_os.Mm.Address.{Ppn, Vpn}
use hecto_os.Mm.FrameAllocator.{System, take_frame}
use hecto_os.Mm.FrameAllocator.History.{take_frame-fresh}
use hecto_os.Mm.Pte.{valid, new, is_valid}
use hecto_os.Mm.PageTable.{Paging, PteRef, find_pte, map_one}
use hecto_os.Mm.PageTable.Tree.{Paths, IsTree}
use hecto_os.Mm.PageTable.Map.{map_one-Updated}
use hecto_os.Mm.AddressSpace.{MapArea, map_frames}
use hecto_os.Mm.AddressSpace.Pages.{take_frame-IsTree, map_frames-MappedRun}
use hecto_os.Mm.Cow.Sharing.{map_one-Keeps}
use hecto_os.Fs.File.Slices.{drop-drop, length-drop_lem}
use hecto_os.Mm.Loader.{Contents, data_end, bss_end, fill_page, load_pages}
use hecto_os.Mm.Loader.Pages.{
  IsReader, data_end_lem, bss_end_lem, HoldsPage, HoldsPages, MapsPages, fill_page-HoldsPage,
}

append-nil : {A : Type 0} (xs : List A) → xs ++ [] ≡ xs
append-nil [] = refl
append-nil (x ∷ xs) = ap (λ t. x ∷ t) (append-nil xs)

append_assoc : {A : Type 0} (xs ys zs : List A) → (xs ++ ys) ++ zs ≡ xs ++ (ys ++ zs)
append_assoc [] ys zs = refl
append_assoc (x ∷ xs) ys zs = ap (λ t. x ∷ t) (append_assoc xs ys zs)

le→leb : (a b : ℕ) → a ≤ b → leb a b ≡ true
le→leb a b h = ground arith

-- A frame that is taken, or that had a tracker, has one after a page is mapped.
still_held :
    (p ppn : ℕ) (s system s1 : System)
    → system.held ≡ ppn ∷ s.held
    → ((q : ℕ) → 0 < count q system.held → count q s1.held ≡ count q system.held)
    → (ppn ≡ p) ⊎ (0 < count p s.held)
    → 0 < count p s1.held
still_held p ppn s system s1 held counts which =
    let more = ap (count p) held in
    let now : 0 < count p system.held = out more which in omega (arith, counts p now)
  where
    out :
        count p system.held ≡ (if ppn == p then 1 else 0) + count p s.held
        → (ppn ≡ p) ⊎ (0 < count p s.held)
        → 0 < count p system.held
    out more (inl same) = ground (arith, more, same)
    out more (inr had) = ground (arith, more, had)

-- The bounds of the slices of a page
start-end :
    (bss a start end : ℕ)
    → end ≡ (if leb (a + 4096) bss then 4096 else (if leb bss a then 0 else bss - a))
    → start ≤ 4096
    → (start ≡ 0) ⊎ (a + start ≤ bss)
    → start ≤ end
start-end bss a start end is small (inl z) = ground (arith, is, z)
start-end bss a start end is small (inr le) = ground (arith, is, le)

end-end :
    (bss va_end a end end2 : ℕ)
    → end ≡ (if leb (a + 4096) bss then 4096 else (if leb bss a then 0 else bss - a))
    → end2 ≡ (if leb (a + 4096) va_end then 4096 else va_end - a)
    → bss ≤ va_end
    → end ≤ end2
end-end bss va_end a end end2 is is2 le = ground arith

-- What is to be read of a page is left in the file.
enough_left :
    (origin bss a start end len left : ℕ)
    → end ≡ (if leb (a + 4096) bss then 4096 else (if leb bss a then 0 else bss - a))
    → (start ≡ 0) ⊎ (a + start ≤ bss)
    → origin ≤ a + start
    → bss ≤ origin + len
    → (a + start ≤ bss → left ≡ len - (a + start - origin))
    → end - start ≤ left
enough_left origin bss a start end len left is shape from whole rest =
    elim (Bool-cases (leb (a + start) bss)) [
      | inl more ↦
          let le : a + start ≤ bss = ground (arith, more) in
          let l = rest le in ground (arith, is, l)
      | inr over ↦ let none_left : end - start ≡ 0 = ground (arith, is, over) in omega arith
    ]

full_page :
    (bss a end : ℕ)
    → end ≡ (if leb (a + 4096) bss then 4096 else (if leb bss a then 0 else bss - a))
    → a + 4096 ≤ bss
    → end ≡ 4096
full_page bss a end is le = ground arith

module _ {F : Type 0} (read_exact : ℕ → F → Option (List ℕ × F)) (left : F → List ℕ)
    (reader : IsReader read_exact left) (base n origin bss va_end : ℕ) (bytes : List ℕ)
    (ends : bss ≤ va_end) (starts : origin ≤ bss) (whole : bss ≤ origin + length bytes) where
  -- The file stands where the page goes on.
  pub record Ready (vpn start : ℕ) (file : F) : Type 0 where
    pub small : start ≤ 4096
    pub shape : (start ≡ 0) ⊎ (vpn * 4096 + start ≤ bss)
    pub from : origin ≤ vpn * 4096 + start
    pub rest : vpn * 4096 + start ≤ bss → left file ≡ drop (vpn * 4096 + start - origin) bytes

  -- What the loop leaves: the pages have their frames, which hold the bytes of the segment, and no frame
  -- that had a tracker is changed.
  pub record Loaded (n_pages vpn start : ℕ) (file : F) (area area' : MapArea) (s s' : Paging)
      (memory : Contents) : Type 0 where
    pub file' : F
    pub memory' : Contents
    pub pages : List (Vpn × Ppn)
    pub done :
        load_pages read_exact bss va_end n_pages vpn start file area s memory
        ≡ some (file', area', s', memory')
    pub frames : area'.data_frames ≡ area.data_frames ++ pages
    pub each : length pages ≡ n_pages
    pub holds : HoldsPages origin bss va_end bytes vpn start pages memory'
    pub maps : MapsPages area.map_perm vpn pages s'
    pub kept : (p i : ℕ) → 0 < count p s.system.held → memory' p i ≡ memory p i

  -- One page that is read
  read_page :
      (vpn start : ℕ) (file : F)
      → vpn < 2 ^ 52 - 1
      → Ready vpn start file
      → (file' : F) × (read_exact (data_end bss vpn - start) file
          ≡ some (take (data_end bss vpn - start) (left file), file'))
        × Ready (vpn + 1) 0 file'
  read_page vpn start file low r =
      let e1 = data_end_lem bss vpn low in
      let (file', done, after) = reader.enough (data_end bss vpn - start) file (
        enough_left origin bss (vpn * 4096) start (data_end bss vpn) (length bytes)
          (length (left file)) e1 r.shape r.from whole
          (λ le.
            ap length (r.rest le)
            ∙ length-drop_lem (vpn * 4096 + start - origin) bytes (omega arith))) in
      (
        file',
        done,
        record {
          small = omega arith;
          shape = inl refl;
          from = omega (arith, r.from, r.small);
          rest = λ le.
              let full = full_page bss (vpn * 4096) (data_end bss vpn) e1 (omega arith) in
              let small = r.small in
              let from = r.from in
              after
              ∙ (ap (drop (data_end bss vpn - start)) (r.rest (omega arith))
                  ∙ (drop-drop (data_end bss vpn - start) (vpn * 4096 + start - origin) bytes
                      ∙ ap (λ k. drop k bytes) (omega arith)));
        },
      )

  fill_page-other :
      (frame start : ℕ) (given : List ℕ) (end end2 : ℕ) (memory : Contents) (held : List ℕ)
      (p i : ℕ)
      → count frame held ≡ 0
      → 0 < count p held
      → fill_page frame start given end end2 memory p i ≡ memory p i
  unfolding fill_page
  fill_page-other frame start given end end2 memory held p i fresh out =
      elim (Bool-cases (p == frame)) [
        | inl same ↦
            let e : p ≡ frame = ground (arith, same) in
            absurd (let counted = ap (λ q. count q held) e in omega arith)
        | inr other ↦ rw other refl
      ]

  Loaded-first :
      (k vpn start : ℕ) (file file1 : F) (area area' : MapArea) (s s1 s' : Paging)
      (memory : Contents) (ppn : ℕ) (system : System)
      → vpn < 2 ^ 52 - 1
      → vpn * 4096 < va_end
      → Ready vpn start file
      → read_exact (data_end bss vpn - start) file
        ≡ some (take (data_end bss vpn - start) (left file), file1)
      → take_frame s.system ≡ some (ppn, system)
      → count ppn s.system.held ≡ 0
      → system.held ≡ ppn ∷ s.system.held
      → map_one vpn ppn area.map_perm (record s { system = system }) ≡ some s1
      → ((p : ℕ) → 0 < count p system.held → count p s1.system.held ≡ count p system.held)
      → Loaded k
          (vpn + 1)
          0
          file1
          (record area { data_frames = area.data_frames ++ (vpn, ppn) ∷ [] })
          area'
          s1
          s'
          (fill_page ppn start
            (take (data_end bss vpn - start) (left file))
            (data_end bss vpn)
            (bss_end va_end vpn)
            memory)
      → (r : PteRef) × (r.pte ≡ new ppn (bit_or area.map_perm valid))
        × (find_pte vpn s' ≡ (if is_valid r.pte then some r else none))
      → Loaded (suc k) vpn start file area area' s s' memory
  unfolding load_pages HoldsPages HoldsPage MapsPages
  Loaded-first k vpn start file file1 area area' s s1 s' memory ppn system low inside r read got
        fresh held mapped counts l at =
      let e1 = data_end_lem bss vpn low in
      let e2 = bss_end_lem va_end vpn low inside in
      let first = start-end bss (vpn * 4096) start (data_end bss vpn) e1 r.small r.shape in
      let second =
        end-end bss va_end (vpn * 4096) (data_end bss vpn) (bss_end va_end vpn) e1 e2 ends in
      let t1 : leb start (data_end bss vpn) ≡ true = le→leb start (data_end bss vpn) first in
      let t2 : leb (data_end bss vpn) (bss_end va_end vpn) ≡ true =
        le→leb (data_end bss vpn) (bss_end va_end vpn) second in
      record {
        file' = l.file';
        memory' = l.memory';
        pages = (vpn, ppn) ∷ l.pages;
        done = rw (got, t1, read, t2, mapped, l.done) refl;
        frames = l.frames ∙ append_assoc area.data_frames ((vpn, ppn) ∷ []) l.pages;
        each = ap suc l.each;
        holds = (
          refl,
          (λ i a b c.
              l.kept ppn i (still_held ppn ppn s.system system s1.system held counts (inl refl))
              ∙ fill_page-HoldsPage origin bss va_end bytes (left file) vpn start ppn memory low
                  inside r.from r.rest i a b c),
          l.holds,
        );
        maps = (at, l.maps);
        kept = λ p i out.
            l.kept p i (still_held p ppn s.system system s1.system held counts (inr out))
            ∙ fill_page-other ppn start (take (data_end bss vpn - start) (left file))
                (data_end bss vpn) (bss_end va_end vpn) memory s.system.held p i fresh out;
      }

  -- Where the pages of the segment can be mapped, the allocator is sound and the file has the data:
  -- the loop loads them.
  pub load_pages-Loaded :
      (k vpn start : ℕ) (file : F) (area area' : MapArea) (s s' : Paging) (path : Paths)
      (memory : Contents)
      → IsTree base n s path
      → vpn + k ≤ 2 ^ 27
      → (vpn + k) * 4096 < va_end + 4096
      → Ready vpn start file
      → map_frames k vpn area s ≡ some (area', s')
      → Loaded k vpn start file area area' s s' memory
  unfolding map_frames load_pages HoldsPages MapsPages
  load_pages-Loaded zero vpn start file area area' s s' path memory v low inside r e =
      let same = some-eq e in
      record {
        file' = file;
        memory' = memory;
        pages = [];
        done = ap (λ (q : MapArea × Paging). some (file, q.0, q.1, memory)) same;
        frames =
            ap (λ (q : MapArea × Paging). q.0.data_frames) (sym same)
            ∙ sym (append-nil area.data_frames);
        each = refl;
        holds = tt;
        maps = tt;
        kept = λ p i out. refl;
      }
  load_pages-Loaded (suc k) vpn start file area area' s s' path memory v low inside r e =
      let ((ppn, system), got, e1) = >>=-eq-some (take_frame s.system) _ e in
      let (sound, _, fresh, held) = take_frame-fresh s.system ppn system v.sound got in
      let (s1, mapped, e2) =
        >>=-eq-some (map_one vpn ppn area.map_perm (record s { system = system })) _ e1 in
      let kept =
        map_one-Keeps base n vpn ppn area.map_perm (record s { system = system }) s1 sound mapped in
      let v0 = take_frame-IsTree ppn system v got in
      let (missing, (path1, up)) =
        map_one-Updated vpn ppn area.map_perm s1 v0 (omega arith) mapped in
      let run = map_frames-MappedRun k (vpn + 1) _ area' s' up.tree (omega arith) e2 in
      let (file1, read, next) = read_page vpn start file (omega arith) r in
      Loaded-first k vpn start file file1 area area' s s1 s' memory ppn system (omega arith)
        (omega arith) r read got fresh held mapped (λ p out. kept.counts p out ∙ omega arith)
        (load_pages-Loaded k (vpn + 1) 0 file1
          (record area { data_frames = area.data_frames ++ (vpn, ppn) ∷ [] }) area' s1 s' path1
          (fill_page ppn start (take (data_end bss vpn - start) (left file)) (data_end bss vpn)
            (bss_end va_end vpn) memory)
          up.tree (omega arith) (omega arith) next e2)
        (
          up.hit.0,
          up.hit.1,
          run.outside vpn (omega arith) (inl (omega arith)) ∙ (up.hit.2 ∙ rw up.hit.1 refl),
        )
