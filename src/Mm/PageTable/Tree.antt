-- ===== src/Mm/PageTable/Tree.antt =====
-- The tables of one address space are a tree: each table is reached by one path of indices.
use hecto_os.Base.{
  ℕ, ◌+◌, ◌^◌, ◌<◌, ◌≡◌, ◌≢◌, ◌⊎◌, refl, sym, inl, inr, ap, subst, ◌∙◌, true, false, Option, none,
  some, List, [], ◌∷◌, ◌==◌, if◌then◌else◌, Bool-cases, Option-cases, count, length, arith,
}
use mathlib.Core.Bool.{false≢true}
use hecto_os.Mm.FrameAllocator.{take_frame}
use hecto_os.Mm.FrameAllocator.Soundness.{IsSound}
use hecto_os.Mm.FrameAllocator.History.{take_frame-fresh}
use hecto_os.Mm.Pte.{valid, new, ppn_of, is_valid}
use hecto_os.Mm.Pte.Fields.{ppn_of-new, new-valid_only, is_valid_lem}
use hecto_os.Mm.PageTable.{Tables, write, fill_empty, Paging, ensure_table, find_loop}

-- The path of a table, last index first. Tables have paths of at most two indices.
abbrev pub Paths : Type 0
Paths = ℕ → Option (List ℕ)

pub record IsTree (base n : ℕ) (s : Paging) (path : Paths) : Type 0 where
  pub sound : IsSound base n s.system
  pub root : path s.page_table.root ≡ some []
  pub child :
      (t i : ℕ) (p : List ℕ)
      → path t ≡ some p
      → length p < 2
      → is_valid (s.tables t i) ≡ true
      → path (ppn_of (s.tables t i)) ≡ some (i ∷ p)
  pub held : (t : ℕ) (p : List ℕ) → path t ≡ some p → 0 < count t s.system.held

pub find_missing :
    (idxs : List ℕ) (t i : ℕ) (T : Tables) → is_valid (T t i) ≡ false → find_loop idxs t i T ≡ none
unfolding find_loop
find_missing [] t i T e = rw e refl
find_missing (idx ∷ idxs) t i T e = rw e refl

pub find_child :
    (idx : ℕ) (idxs : List ℕ) (t i : ℕ) (T : Tables)
    → is_valid (T t i) ≡ true
    → find_loop (idx ∷ idxs) t i T ≡ find_loop idxs (ppn_of (T t i)) idx T
unfolding find_loop
find_child idx idxs t i T e = rw e refl

-- One more table with a path.
add_path : Paths → ℕ → List ℕ → Paths
add_path path f p = λ t. if t == f then some p else path t

module _ {base n : ℕ} {s : Paging} {path : Paths} (v : IsTree base n s path) where
  unused : (f t : ℕ) (p : List ℕ) → count f s.system.held ≡ 0 → path t ≡ some p → t ≢ f
  unused f t p fresh e same =
      omega (arith, v.held t p e, ap (λ (u : ℕ). count u s.system.held) same)

  -- What a new table under `(t, i)` leaves as it was, and what it adds.
  module _ (f t i : ℕ) (p : List ℕ) (fresh : count f s.system.held ≡ 0) (low : f < 2 ^ 26)
      (at : path t ≡ some p) (short : length p < 2) (missing : is_valid (s.tables t i) ≡ false)
      (s' : Paging) (tables : s'.tables ≡ write (fill_empty s.tables f) t i (new f valid)) where
    entry_new : s'.tables t i ≡ new f valid
    unfolding write
    entry_new = rw tables (ground arith)

    entry_child : (j : ℕ) → is_valid (s'.tables f j) ≡ false
    unfolding write fill_empty
    entry_child j = rw tables (ground (arith, unused f t p fresh at, is_valid_lem 0))

    entry_same :
        (u j : ℕ) (q : List ℕ) → path u ≡ some q → (u ≢ t) ⊎ (j ≢ i) → s'.tables u j ≡ s.tables u j
    unfolding write fill_empty
    entry_same u j q e apart = rw tables (ground (arith, unused f u q fresh e))

    both : (u j : ℕ) → ((u ≡ t) × (j ≡ i)) ⊎ ((u ≢ t) ⊎ (j ≢ i))
    both u j = elim (Bool-cases (u == t)) [
      | inr ne ↦ inr (inl (ground arith))
      | inl eq ↦ elim (Bool-cases (j == i)) [
        | inl eq' ↦ inl (ground arith, ground arith)
        | inr ne ↦ inr (inr (ground arith))
      ]
    ]

    find_at_new : (idx : ℕ) (idxs : List ℕ) → find_loop (idx ∷ idxs) t i s'.tables ≡ none
    find_at_new idx idxs =
        let there : is_valid (s'.tables t i) ≡ true =
          rw entry_new (new-valid_only f (omega arith)) in
        let frame : ppn_of (s'.tables t i) ≡ f = rw entry_new (ppn_of-new f valid (omega arith)) in
        find_child idx idxs t i s'.tables there
        ∙ rw frame (find_missing idxs f idx s'.tables (entry_child idx))

    -- No walk sees the new table, which is empty.
    find_same :
        (idxs : List ℕ) (u j : ℕ) (q : List ℕ)
        → path u ≡ some q
        → length q + length idxs ≡ 2
        → find_loop idxs u j s'.tables ≡ find_loop idxs u j s.tables
    find_same [] u j q e depth =
        let apart : u ≢ t =
          λ same. let pq : q ≡ p = cc (ap path same) in omega (arith, ap length pq) in
        unfold find_loop in rw (entry_same u j q e (inl apart)) refl
    find_same (idx ∷ idxs) u j q e depth = elim (both u j) [
      | inl (eu, ej) ↦
          rw (eu, ej) (find_at_new idx idxs ∙ sym (find_missing (idx ∷ idxs) t i s.tables missing))
      | inr apart ↦
          let same = entry_same u j q e apart in
          elim (Bool-cases (is_valid (s.tables u j))) [
            | inr gone ↦
                find_missing (idx ∷ idxs) u j s'.tables (rw same gone)
                ∙ sym (find_missing (idx ∷ idxs) u j s.tables gone)
            | inl there ↦
                find_child idx idxs u j s'.tables (rw same there)
                ∙ rw same (
                    find_same idxs (ppn_of (s.tables u j)) idx (j ∷ q)
                      (v.child u j q e (omega arith) there) (omega arith))
                ∙ sym (find_child idx idxs u j s.tables there)
          ]
    ]

    add_path-old : (u : ℕ) (q : List ℕ) → path u ≡ some q → add_path path f (i ∷ p) u ≡ some q
    unfolding add_path
    add_path-old u q e = ground (arith, unused f u q fresh e)

    add_path-new : add_path path f (i ∷ p) f ≡ some (i ∷ p)
    unfolding add_path
    add_path-new = ground arith

    add_path-child :
        (u j : ℕ) (q : List ℕ)
        → path u ≡ some q
        → length q < 2
        → is_valid (s'.tables u j) ≡ true
        → add_path path f (i ∷ p) (ppn_of (s'.tables u j)) ≡ some (j ∷ q)
    add_path-child u j q e depth there = elim (both u j) [
      | inl (eu, ej) ↦
          let pq : q ≡ p = cc (ap path eu) in
          rw (eu, ej, pq) (rw (entry_new, ppn_of-new f valid (omega arith)) add_path-new)
      | inr apart ↦
          let same = entry_same u j q e apart in
          rw same (add_path-old _ (j ∷ q) (v.child u j q e depth (rw same at there)))
    ]

    add_path-cases :
        (u : ℕ) (q : List ℕ) → add_path path f (i ∷ p) u ≡ some q → (u ≡ f) ⊎ (path u ≡ some q)
    unfolding add_path
    add_path-cases u q e = ground arith

    -- The tables are still a tree.
    add_path-IsTree :
        s'.page_table.root ≡ s.page_table.root
        → IsSound base n s'.system
        → s'.system.held ≡ f ∷ s.system.held
        → IsTree base n s' (add_path path f (i ∷ p))
    add_path-IsTree root sound held = record {
      sound = sound;
      root = rw root (add_path-old s.page_table.root [] v.root);
      child = λ u j q e depth there. elim (add_path-cases u q e) [
        | inl new ↦ absurd (false≢true (sym (entry_child j) ∙ rw new at there))
        | inr old ↦ add_path-child u j q old depth there
      ];
      held = λ u q e. rw held (elim (add_path-cases u q e) [
        | inl new ↦ ground arith
        | inr old ↦ omega (arith, v.held u q old)
      ]);
    }

  -- One round of the loop of find_pte_create: afterwards the entry leads to a table on its path, the
  -- tables are a tree, and every walk goes as before.
  pub record Ensured (t i : ℕ) (p : List ℕ) (s' : Paging) (path' : Paths) : Type 0 where
    pub tree : IsTree base n s' path'
    pub kept : (u : ℕ) (q : List ℕ) → path u ≡ some q → path' u ≡ some q
    pub there : is_valid (s'.tables t i) ≡ true
    pub same_root : s'.page_table.root ≡ s.page_table.root
    pub entries :
        (u j : ℕ) (q : List ℕ)
        → path u ≡ some q
        → is_valid (s.tables u j) ≡ true
        → s'.tables u j ≡ s.tables u j
    pub walks :
        (idxs : List ℕ) (u j : ℕ) (q : List ℕ)
        → path u ≡ some q
        → length q + length idxs ≡ 2
        → find_loop idxs u j s'.tables ≡ find_loop idxs u j s.tables

  pub ensure_table-Ensured :
      (t i : ℕ) (p : List ℕ) (s' : Paging)
      → path t ≡ some p
      → length p < 2
      → ensure_table t i s ≡ some s'
      → (path' : Paths) × Ensured t i p s' path'
  unfolding ensure_table
  ensure_table-Ensured t i p s' at short e = elim (Bool-cases (is_valid (s.tables t i))) [
    | inl there ↦
        let same : s ≡ s' = ground arith in
        subst (λ r. (path' : Paths) × Ensured t i p r path') same
          (
            path,
            record {
              tree = v;
              kept = λ u q h. h;
              there = there;
              same_root = refl;
              entries = λ u j q h d. refl;
              walks = λ idxs u j q h d. refl;
            },
          )
    | inr missing ↦ elim (Option-cases (take_frame s.system)) [
      | inl full ↦ absurd (ground (arith, full))
      | inr ((f, system), got) ↦
          let (sound, m, fresh, holds) = take_frame-fresh s.system f system v.sound got in
          let low : f < 2 ^ 26 = omega (arith, v.sound.fits) in
          let tables : s'.tables ≡ write (fill_empty s.tables f) t i (new f valid) = ground arith in
          let root : s'.page_table.root ≡ s.page_table.root = ground arith in
          let sys : system ≡ s'.system = ground arith in
          let there : is_valid (s'.tables t i) ≡ true =
            rw (entry_new f t i p fresh low at short missing s' tables)
              (new-valid_only f (omega arith)) in
          (
            add_path path f (i ∷ p),
            record {
              tree =
                  add_path-IsTree f t i p fresh low at short missing s' tables root
                    (subst (IsSound base n) sys sound) (rw (← sys) holds);
              kept = add_path-old f t i p fresh low at short missing s' tables;
              there = there;
              same_root = root;
              entries = λ u j q at' filled.
                  entry_same f t i p fresh low at short missing s' tables u j q at'
                    (elim (both f t i p fresh low at short missing s' tables u j) [
                      | inr apart ↦ apart
                      | inl (eu, ej) ↦ absurd (false≢true (sym missing ∙ rw (eu, ej) at filled))
                    ]);
              walks = find_same f t i p fresh low at short missing s' tables;
            },
          )
    ]
  ]
