-- ===== src/Mm/PageTable/Walk.antt =====
-- Where a walk ends, and what a write to a last-level entry does to the walks.
use hecto_os.Base.{
  ℕ, ◌+◌, ◌<◌, ◌≡◌, ◌≢◌, ◌⊎◌, refl, sym, inl, inr, ap, subst, ◌∙◌, true, none, some, List, [], ◌∷◌,
  ◌==◌, if◌then◌else◌, Bool-cases, length, arith, >>=-eq-some,
}
use hecto_os.Mm.Pte.{Pte, ppn_of, is_valid}
use hecto_os.Mm.PageTable.{
  Tables, write, Paging, PteRef, ensure_table, create_loop, find_loop, assign,
}
use hecto_os.Mm.PageTable.Tree.{Paths, IsTree, ensure_table-Ensured, find_missing, find_child}

-- The walk from the entry `(t, i)` along `idxs` comes to the entry `(u, j)`.
abbrev pub Leads : List ℕ → ℕ → ℕ → Tables → ℕ → ℕ → Type 0
Leads [] t i T u j = (t ≡ u) × (i ≡ j)
Leads (idx ∷ idxs) t i T u j = (is_valid (T t i) ≡ true) × Leads idxs (ppn_of (T t i)) idx T u j

-- The path of the table in which the walk ends, and the index there.
abbrev pub target : List ℕ → ℕ → List ℕ → List ℕ × ℕ
target p i [] = (p, i)
target p i (idx ∷ idxs) = target (i ∷ p) idx idxs

-- A walk finds the entry at its end if that is valid.
pub find-Leads :
    (idxs : List ℕ) (t i u j : ℕ) (T : Tables)
    → Leads idxs t i T u j
    → find_loop idxs t i T
      ≡ (if is_valid (T u j) then some (record { table = u; index = j; pte = T u j }) else none)
unfolding find_loop
find-Leads [] t i u j T (et, ei) = rw (et, ei) refl
find-Leads (idx ∷ idxs) t i u j T (there, rest) =
    rw there (find-Leads idxs (ppn_of (T t i)) idx u j T rest)

pub Leads-find :
    (idxs : List ℕ) (t i : ℕ) (T : Tables) (r : PteRef)
    → find_loop idxs t i T ≡ some r
    → Leads idxs t i T r.table r.index × (r.pte ≡ T r.table r.index) × (is_valid r.pte ≡ true)
unfolding find_loop
Leads-find [] t i T r e = elim (Bool-cases (is_valid (T t i))) [
  | inl there ↦
      let same : record { table = t; index = i; pte = T t i } ≡ r = ground (arith, there) in
      subst
        (λ (q : PteRef).
          ((t ≡ q.table) × (i ≡ q.index)) × (q.pte ≡ T q.table q.index) × (is_valid q.pte ≡ true))
        same ((refl, refl), refl, there)
  | inr gone ↦ absurd (ground (arith, gone))
]
Leads-find (idx ∷ idxs) t i T r e = elim (Bool-cases (is_valid (T t i))) [
  | inl there ↦
      let (leads, pte, ok) = Leads-find idxs (ppn_of (T t i)) idx T r (ground (arith, there)) in
      ((there, leads), pte, ok)
  | inr gone ↦ absurd (ground (arith, gone))
]

module _ {base n : ℕ} {s : Paging} {path : Paths} (v : IsTree base n s path) where
  -- The end of a walk stands on the walk's path.
  pub Leads-path :
      (idxs : List ℕ) (t i u j : ℕ) (p : List ℕ)
      → path t ≡ some p
      → length p + length idxs ≡ 2
      → Leads idxs t i s.tables u j
      → (path u ≡ some (target p i idxs).0) × (j ≡ (target p i idxs).1)
  Leads-path [] t i u j p at depth (et, ei) = (rw et at at, sym ei)
  Leads-path (idx ∷ idxs) t i u j p at depth (there, rest) =
      Leads-path idxs (ppn_of (s.tables t i)) idx u j (i ∷ p) (v.child t i p at (omega arith) there)
        (omega arith) rest

  module _ (r : PteRef) (value : Pte) (last : List ℕ) (at : path r.table ≡ some last)
      (deep : length last ≡ 2) where
    entry_elsewhere :
        (u j : ℕ) → (u ≢ r.table) ⊎ (j ≢ r.index) → (assign r value s).tables u j ≡ s.tables u j
    unfolding assign write
    entry_elsewhere u j apart = ground arith

    pub entry_here : (assign r value s).tables r.table r.index ≡ value
    unfolding assign write
    entry_here = ground arith

    above : (u : ℕ) (q : List ℕ) → path u ≡ some q → length q < 2 → u ≢ r.table
    above u q e short same = let pq : q ≡ last = cc (ap path same) in omega (arith, ap length pq)

    pub assign-IsTree : IsTree base n (assign r value s) path
    assign-IsTree = record {
      sound = unfold assign in v.sound;
      root = unfold assign in v.root;
      child = λ u j q e short there.
          let same = entry_elsewhere u j (inl (above u q e short)) in
          rw same (v.child u j q e short (rw same at there));
      held = unfold assign in v.held;
    }

    pub Leads-assign :
        (idxs : List ℕ) (t i u j : ℕ) (p : List ℕ)
        → path t ≡ some p
        → length p + length idxs ≡ 2
        → Leads idxs t i s.tables u j
        → Leads idxs t i (assign r value s).tables u j
    Leads-assign [] t i u j p e depth h = h
    Leads-assign (idx ∷ idxs) t i u j p e depth (there, rest) =
        let same = entry_elsewhere t i (inl (above t p e (omega arith))) in
        (
          rw same there,
          rw same (
              Leads-assign idxs (ppn_of (s.tables t i)) idx u j (i ∷ p)
                (v.child t i p e (omega arith) there) (omega arith) rest),
        )

    -- A walk to another entry goes as before.
    pub find-assign_ne :
        (idxs : List ℕ) (t i : ℕ) (p : List ℕ)
        → path t ≡ some p
        → length p + length idxs ≡ 2
        → target p i idxs ≢ (last, r.index)
        → find_loop idxs t i (assign r value s).tables ≡ find_loop idxs t i s.tables
    find-assign_ne [] t i p e depth apart =
        let other : (t ≢ r.table) ⊎ (i ≢ r.index) = elim (Bool-cases (t == r.table)) [
          | inr ne ↦ inl (ground arith)
          | inl eq ↦
              let et : t ≡ r.table = ground arith in
              let ep : p ≡ last = cc (ap path et) in inr (λ ei. apart (λ k. (ep k, ei k)))
        ] in
        unfold find_loop in rw (entry_elsewhere t i other) refl
    find-assign_ne (idx ∷ idxs) t i p e depth apart =
        let same = entry_elsewhere t i (inl (above t p e (omega arith))) in
        elim (Bool-cases (is_valid (s.tables t i))) [
          | inr gone ↦
              find_missing (idx ∷ idxs) t i (assign r value s).tables (rw same gone)
              ∙ sym (find_missing (idx ∷ idxs) t i s.tables gone)
          | inl there ↦
              find_child idx idxs t i (assign r value s).tables (rw same there)
              ∙ rw same (
                  find-assign_ne idxs (ppn_of (s.tables t i)) idx (i ∷ p)
                    (v.child t i p e (omega arith) there) (omega arith) apart)
              ∙ sym (find_child idx idxs t i s.tables there)
        ]

-- What find_pte_create leaves behind.
pub record Created (base n : ℕ) (s : Paging) (path : Paths) (p : List ℕ) (t i : ℕ) (idxs : List ℕ)
    (r : PteRef) (s' : Paging) (path' : Paths) : Type 0 where
  pub tree : IsTree base n s' path'
  pub kept : (u : ℕ) (q : List ℕ) → path u ≡ some q → path' u ≡ some q
  pub same_root : s'.page_table.root ≡ s.page_table.root
  pub leads : Leads idxs t i s'.tables r.table r.index
  pub holds : r.pte ≡ s'.tables r.table r.index
  pub entries :
      (u j : ℕ) (q : List ℕ)
      → path u ≡ some q
      → is_valid (s.tables u j) ≡ true
      → s'.tables u j ≡ s.tables u j
  pub walks :
      (idxs : List ℕ) (u j : ℕ) (q : List ℕ)
      → path u ≡ some q
      → length q + length idxs ≡ 2
      → find_loop idxs u j s'.tables ≡ find_loop idxs u j s.tables

pub create_loop-Created :
    {base n : ℕ} (idxs : List ℕ) (s : Paging) (path : Paths) (t i : ℕ) (p : List ℕ) (r : PteRef)
    (s' : Paging)
    → IsTree base n s path
    → path t ≡ some p
    → length p + length idxs ≡ 2
    → create_loop idxs t i s ≡ some (r, s')
    → (path' : Paths) × Created base n s path p t i idxs r s' path'
unfolding create_loop
create_loop-Created {base} {n} [] s path t i p r s' v at depth e =
    let place : PteRef = record { table = t; index = i; pte = s.tables t i } in
    let er : place ≡ r = ground arith in
    let es : s ≡ s' = ground arith in
    subst (λ r'. (path' : Paths) × Created base n s path p t i [] r' s' path') er
      (subst (λ u. (path' : Paths) × Created base n s path p t i [] place u path') es
        (
          path,
          record {
            tree = v;
            kept = λ u q h. h;
            same_root = refl;
            leads = (refl, refl);
            holds = refl;
            entries = λ u j q h d. refl;
            walks = λ idxs u j q h d. refl;
          },
        ))
create_loop-Created {base} {n} (idx ∷ idxs) s path t i p r s' v at depth e =
    let (s1, made, rest) = >>=-eq-some (ensure_table t i s) _ e in
    let (path1, one) = ensure_table-Ensured v t i p s1 at (omega arith) made in
    let next : path1 (ppn_of (s1.tables t i)) ≡ some (i ∷ p) =
      one.tree.child t i p (one.kept t p at) (omega arith) one.there in
    let (path2, two) =
      create_loop-Created idxs s1 path1 (ppn_of (s1.tables t i)) idx (i ∷ p) r s' one.tree next
        (omega arith) rest in
    let same : s'.tables t i ≡ s1.tables t i = two.entries t i p (one.kept t p at) one.there in
    (
      path2,
      record {
        tree = two.tree;
        kept = λ u q h. two.kept u q (one.kept u q h);
        same_root = two.same_root ∙ one.same_root;
        leads = (rw same one.there, rw same two.leads);
        holds = two.holds;
        entries = λ u j q h ok.
            let old = one.entries u j q h ok in
            two.entries u j q (one.kept u q h) (rw old ok) ∙ old;
        walks =
            λ idxs' u j q h d. two.walks idxs' u j q (one.kept u q h) d ∙ one.walks idxs' u j q h d;
      },
    )
