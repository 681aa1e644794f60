-- ===== src/Fs/Mounts/Lookup.antt =====
-- filesystem_lookup finds the longest mount point above a path.
use hecto_os.Base.{
  ℕ, zero, suc, ◌+◌, ◌≤◌, ◌<◌, ◌≡◌, ◌⊎◌, refl, ap, subst, ◌∙◌, inl, inr, Bool, true, ◌&&◌, ◌||◌,
  Option, none, some, [], ◌∷◌, ltb, leb, ◌==◌, Bool-cases, length, get_elem?, get_or, arith,
}
use hecto_os.Fs.Mounts.{
  Str, FileSystemTable, slash, starts_with, choose, lookup_loop, filesystem_lookup,
}

-- The path is the mount point or lies below it.
abbrev pub is_above : Str → Str → Bool
is_above mount_point path =
    starts_with path mount_point
    && (leb (length mount_point) (length path)
        && ((length mount_point == length path) || (get_or path (length mount_point) 0 == slash)))

-- What the loop body does to the choice so far.
choose-cases :
    (path : Str) (i : ℕ) (m : Str) (kept : ℕ × ℕ)
    → ((is_above m path ≡ true) × (kept.1 < length m) × (choose path i m kept ≡ (i, length m)))
      ⊎ ((choose path i m kept ≡ kept) × ((is_above m path ≡ true) → length m ≤ kept.1))
unfolding choose
choose-cases path i m (ret, prev) = elim (Bool-cases (ltb prev (length m))) [
  | inr short ↦ inr (ground (arith, short), λ _. ground (arith, short))
  | inl long ↦ elim (Bool-cases (is_above m path)) [
    | inl above ↦ inl (above, ground (arith, long), ground (arith, above, long))
    | inr apart ↦ inr (ground (arith, apart, long), λ above. absurd (ground (arith, above, apart)))
  ]
]

-- The loop over the entries from index `i` on: the choice is the old one or one of them above the path,
-- and no entry above the path is longer.
record Best (path : Str) (i : ℕ) (entries : FileSystemTable) (kept found : ℕ × ℕ) : Type 0 where
  not_shorter : kept.1 ≤ found.1
  longest :
      (j : ℕ) (m : Str)
      → get_elem? entries j ≡ some (some m)
      → is_above m path ≡ true
      → length m ≤ found.1
  origin :
      (found ≡ kept)
      ⊎ ((j : ℕ) × (m : Str) × (get_elem? entries j ≡ some (some m))
          × (is_above m path ≡ true)
          × (found ≡ (i + j, length m)))

index_suc : (i j len : ℕ) → ◌≡◌ {A = ℕ × ℕ} (suc i + j, len) (i + suc j, len)
index_suc i j len = ap (λ (n : ℕ). (n, len)) (omega arith)

index_zero : (i len : ℕ) → ◌≡◌ {A = ℕ × ℕ} (i, len) (i + 0, len)
index_zero i len = ap (λ (n : ℕ). (n, len)) (omega arith)

Best-none :
    (path : Str) (i : ℕ) (rest : FileSystemTable) (kept found : ℕ × ℕ)
    → Best path (suc i) rest kept found
    → Best path i (none ∷ rest) kept found
Best-none path i rest kept found b = record {
  not_shorter = b.not_shorter;
  longest = longest;
  origin = elim b.origin [
    | inl same ↦ inl same
    | inr (j, m, e, above, is) ↦ inr (suc j, m, e, above, is ∙ index_suc i j (length m))
  ];
}
  where
    longest :
        (j : ℕ) (m : Str)
        → get_elem? (none ∷ rest) j ≡ some (some m)
        → is_above m path ≡ true
        → length m ≤ found.1
    longest zero m e above = absurd (cc)
    longest (suc j) m e above = b.longest j m e above

Best-some :
    (path : Str) (i : ℕ) (p : Str) (rest : FileSystemTable) (kept found : ℕ × ℕ)
    → Best path (suc i) rest (choose path i p kept) found
    → Best path i (some p ∷ rest) kept found
Best-some path i p rest kept found b = elim (choose-cases path i p kept) [
  | inl (above_p, long, now) ↦
      let now_len : (choose path i p kept).1 ≡ length p = ap (λ (q : ℕ × ℕ). q.1) now in
      let fits : length p ≤ found.1 = omega (arith, b.not_shorter, now_len) in
      record {
        not_shorter = omega (arith, fits, long);
        longest = longest (λ _. fits);
        origin = elim b.origin [
          | inl same ↦ inr (0, p, refl, above_p, same ∙ now ∙ index_zero i (length p))
          | inr (j, m, e, above, is) ↦ inr (suc j, m, e, above, is ∙ index_suc i j (length m))
        ];
      }
  | inr (now, bound) ↦
      let now_len : (choose path i p kept).1 ≡ kept.1 = ap (λ (q : ℕ × ℕ). q.1) now in
      record {
        not_shorter = omega (arith, b.not_shorter, now_len);
        longest = longest (λ above. omega (arith, b.not_shorter, now_len, bound above));
        origin = elim b.origin [
          | inl same ↦ inl (same ∙ now)
          | inr (j, m, e, above, is) ↦ inr (suc j, m, e, above, is ∙ index_suc i j (length m))
        ];
      }
]
  where
    longest :
        (is_above p path ≡ true → length p ≤ found.1)
        → (j : ℕ) (m : Str) → get_elem? (some p ∷ rest) j ≡ some (some m)
        → is_above m path ≡ true
        → length m ≤ found.1
    longest first zero m e above =
        let same : p ≡ m = cc in
        subst (λ q. is_above q path ≡ true → length q ≤ found.1) same first above
    longest first (suc j) m e above = b.longest j m e above

lookup_loop-Best :
    (path : Str) (i : ℕ) (entries : FileSystemTable) (kept : ℕ × ℕ)
    → Best path i entries kept (lookup_loop path i entries kept)
unfolding lookup_loop
lookup_loop-Best path i [] kept = record {
  not_shorter = omega arith;
  longest = λ j m e above. absurd (cc);
  origin = inl refl;
}
lookup_loop-Best path i (none ∷ rest) kept =
    Best-none path i rest kept _ (lookup_loop-Best path (suc i) rest kept)
lookup_loop-Best path i (some p ∷ rest) kept =
    Best-some path i p rest kept _ (lookup_loop-Best path (suc i) rest (choose path i p kept))

-- filesystem_lookup gives the root file system if no non-empty mount point of the other entries is above the
-- path, and else the entry of a mount point above the path that no other is longer than.
pub filesystem_lookup-longest :
    (path : Str) (root : Option Str) (rest : FileSystemTable)
    → ((filesystem_lookup path (root ∷ rest) ≡ 0)
        × ((j : ℕ) (m : Str)
            → get_elem? rest j ≡ some (some m)
            → is_above m path ≡ true
            → length m ≡ 0))
      ⊎ ((j : ℕ) × (best : Str) × (get_elem? rest j ≡ some (some best))
          × (is_above best path ≡ true)
          × (filesystem_lookup path (root ∷ rest) ≡ suc j)
          × ((k : ℕ) (m : Str)
              → get_elem? rest k ≡ some (some m)
              → is_above m path ≡ true
              → length m ≤ length best))
unfolding filesystem_lookup
filesystem_lookup-longest path root rest =
    let b = lookup_loop-Best path 1 rest (0, 0) in
    let found = lookup_loop path 1 rest (0, 0) in
    elim b.origin [
      | inl same ↦
          let none_long : found.1 ≡ 0 = ap (λ (q : ℕ × ℕ). q.1) same in
          inl (
            ap (λ (q : ℕ × ℕ). q.0) same,
            λ j m e above. omega (arith, b.longest j m e above, none_long),
          )
      | inr (j, best, e, above, is) ↦
          let len : found.1 ≡ length best = ap (λ (q : ℕ × ℕ). q.1) is in
          inr (
            j,
            best,
            e,
            above,
            ap (λ (q : ℕ × ℕ). q.0) is ∙ omega arith,
            λ k m at up. omega (arith, b.longest k m at up, len),
          )
    ]
