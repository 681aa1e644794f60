-- ===== src/Mm/PageRuns/Cover.antt =====
-- Which addresses the runs of free pages cover, before and after each operation.
use hecto_os.Base.{
  ℕ, ◌+◌, ◌*◌, ◌-◌, ◌≤◌, ◌<◌, ◌≡◌, ◌≢◌, ◌↔◌, inl, inr, refl, ap, Bool, true, false, ◌&&◌, ◌||◌,
  List, [], ◌∷◌, leb, ltb, ◌==◌, if◌then◌else◌, Bool-cases, All, arith,
}
use hecto_os.Mm.PageRuns.{
  PageHead, right_ptr, get_right_ptr, merge_next, page_free, alloc_loop, page_alloc,
}

-- 1 where `a` lies in the `npages` pages from `start` on
abbrev pub within : ℕ → ℕ → ℕ → ℕ
within start npages a = if leb start a && ltb a (start + npages * 4096) then 1 else 0

-- In how many of the free runs `a` lies.
abbrev pub covered : ℕ → List PageHead → ℕ
covered a [] = 0
covered a (h ∷ rest) = within h.start h.npages a + covered a rest

-- No run is at the null page, and none is empty.
abbrev pub Proper : PageHead → Type 0
Proper h = (0 < h.start) × (0 < h.npages)

within-split :
    (start m n a : ℕ)
    → m ≤ n
    → within start n a ≡ within start m a + within (start + m * 4096) (n - m) a
within-split start m n a le = ground arith

within-join :
    (start m n a : ℕ) → within start (m + n) a ≡ within start m a + within (start + m * 4096) n a
within-join start m n a = ground arith

alloc_loop-covered :
    (npages : ℕ) (list : List PageHead) (a : ℕ)
    → All Proper list
    → (alloc_loop npages list).0 ≢ 0
    → covered a list
      ≡ within (alloc_loop npages list).0 npages a + covered a (alloc_loop npages list).1
unfolding alloc_loop
alloc_loop-covered npages [] a v found = absurd (found refl)
alloc_loop-covered npages (iter ∷ rest) a (p, v) found =
    elim (Bool-cases (ltb npages iter.npages)) [
      | inl more ↦
          rw more
            (omega (arith, within-split iter.start npages iter.npages a (ground (arith, more))))
      | inr less ↦ elim (Bool-cases (iter.npages == npages)) [
        | inl same ↦
            rw (less, same)
              (ap (λ (n : ℕ). within iter.start n a + covered a rest) (ground (arith, same)))
        | inr other ↦
            rw (less, other)
              (omega (arith, alloc_loop-covered npages rest a v (rw (less, other) at found)))
      ]
    ]

-- Where `page_alloc` finds `npages` pages, they were free and are free no more, and no other address
-- changes: every address is covered as often as before, counted with the pages handed out.
pub page_alloc-covered :
    (npages : ℕ) (list : List PageHead) (a : ℕ)
    → All Proper list
    → (page_alloc npages list).0 ≢ 0
    → covered a list
      ≡ within (page_alloc npages list).0 npages a + covered a (page_alloc npages list).1
unfolding page_alloc
page_alloc-covered npages list a v found = elim (Bool-cases (npages == 0)) [
  | inl no_pages ↦ absurd (found (ground (arith, no_pages)))
  | inr some_pages ↦ rw some_pages (alloc_loop-covered npages list a v (rw some_pages at found))
]

-- Some run has as many pages.
abbrev pub has_room : ℕ → List PageHead → Bool
has_room npages [] = false
has_room npages (h ∷ rest) = leb npages h.npages || has_room npages rest

-- `page_alloc` of at least one page gives null exactly when no run has as many.
pub page_alloc_null :
    (npages : ℕ) (list : List PageHead)
    → All Proper list
    → 0 < npages
    → ((page_alloc npages list).0 ≡ 0) ↔ (has_room npages list ≡ false)
unfolding page_alloc alloc_loop
page_alloc_null npages list v more =
    let some_pages : (npages == 0) ≡ false = ground arith in rw some_pages (loop list v)
  where
    loop :
        (list : List PageHead)
        → All Proper list
        → ((alloc_loop npages list).0 ≡ 0) ↔ (has_room npages list ≡ false)
    loop [] v = ((λ _. refl), λ _. refl)
    loop (h ∷ rest) (p, v) = elim (Bool-cases (leb npages h.npages)) [
      | inl fits ↦ (
        (λ null. absurd (ground (arith, fits, p, null))),
        λ none_fits. absurd (ground (arith, fits, none_fits)),
      )
      | inr too_small ↦
          let less : ltb npages h.npages ≡ false = ground (arith, too_small) in
          let other : (h.npages == npages) ≡ false = ground (arith, too_small) in
          rw (less, other, too_small) (loop rest v)
    ]

merge_next-covered :
    (iter : PageHead) (rest : List PageHead) (a : ℕ)
    → covered a (merge_next iter rest) ≡ within iter.start iter.npages a + covered a rest
unfolding merge_next
merge_next-covered iter [] a = refl
merge_next-covered iter (next ∷ rest) a = elim (Bool-cases (get_right_ptr iter == next.start)) [
  | inr apart ↦ rw apart refl
  | inl touch ↦
      let at : iter.start + iter.npages * 4096 ≡ next.start = ground (arith, touch) in
      rw touch (
        omega (
          arith,
          within-join iter.start iter.npages next.npages a,
          ap (λ (start : ℕ). within start next.npages a) at,
        ))
]

-- The loop of `page_free` comes to a run that the pages touch or lie left of.
abbrev pub has_place : ℕ → ℕ → List PageHead → Bool
has_place addr npages [] = false
has_place addr npages (h ∷ rest) =
    (get_right_ptr h == addr || leb (right_ptr addr npages) h.start) || has_place addr npages rest

-- Where the freed page holds its own page count already, `page_free` adds the pages to the free ones
-- if they touch a run on their left or lie left of one, and otherwise they are lost.
pub page_free-covered :
    (addr npages : ℕ) (list : List PageHead) (a : ℕ)
    → covered a (page_free addr npages npages list)
      ≡ (if has_place addr npages list then within addr npages a else 0) + covered a list
unfolding page_free
page_free-covered addr npages [] a = refl
page_free-covered addr npages (h ∷ rest) a = elim (Bool-cases (get_right_ptr h == addr)) [
  | inl left ↦
      let at : h.start + h.npages * 4096 ≡ addr = ground (arith, left) in
      rw left (
        omega (
          arith,
          merge_next-covered (record h { npages = h.npages + npages }) rest a,
          within-join h.start h.npages npages a,
          ap (λ (start : ℕ). within start npages a) at,
        ))
  | inr not_left ↦ elim (Bool-cases (right_ptr addr npages == h.start)) [
    | inl right ↦
        let at : addr + npages * 4096 ≡ h.start = ground (arith, right) in
        let placed : leb (right_ptr addr npages) h.start ≡ true = ground (arith, right) in
        let sum : h.npages + npages ≡ npages + h.npages = omega arith in
        rw (not_left, right, placed, sum)
          (omega (
            arith,
            within-join addr npages h.npages a,
            ap (λ (start : ℕ). within start h.npages a) at,
          ))
    | inr not_right ↦ elim (Bool-cases (ltb (right_ptr addr npages) h.start)) [
      | inl below ↦
          let placed : leb (right_ptr addr npages) h.start ≡ true = ground (arith, below) in
          rw (not_left, not_right, below, placed) refl
      | inr above ↦
          let past : leb (right_ptr addr npages) h.start ≡ false =
            ground (arith, not_right, above) in
          rw (not_left, not_right, above, past)
            (omega (arith, page_free-covered addr npages rest a))
    ]
  ]
]
