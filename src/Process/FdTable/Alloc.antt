-- ===== src/Process/FdTable/Alloc.antt =====
-- Which slot the descriptor allocators choose.
use hecto_os.Base.{
  ℕ, zero, suc, ◌+◌, ◌-◌, ◌≤◌, ◌<◌, ◌≡◌, ◌↔◌, inl, inr, refl, sym, ap, subst, ◌∙◌, Option, none,
  some, [], ◌∷◌, ◌++◌, ◌==◌, leb, Option-cases, Bool-cases, length, get_elem?, drop, replicate,
  length-append, length-replicate, get_elem?_above, arith,
}
use native.Mathlib.Nat.{suc-add}
use hecto_os.Base.Int.{pos, negsuc, minus_one}
use hecto_os.Process.FdTable.{
  Arc, FdTable, max_fd, scan, push_slot, scanned, fd_alloc, fd_alloc_from, resize, flatten, fd_at,
}

-- A slot that holds a descriptor.
abbrev pub IsOpen : FdTable → ℕ → Type 0
IsOpen t i = (f : Arc) × (fd_at t i ≡ some f)

scan-some :
    (i : ℕ) (t : FdTable) (k : ℕ)
    → scan i t ≡ some k
    → (d : ℕ) × (k ≡ i + d) × (get_elem? t d ≡ some none) × ((j : ℕ) → j < d → IsOpen t j)
unfolding scan
scan-some i [] k e = absurd (cc)
scan-some i (none ∷ rest) k e = (0, ground arith, refl, λ j h. elim h [ ])
scan-some i (some f ∷ rest) k e =
    let (d, at, free, before) = scan-some (suc i) rest k e in
    (suc d, omega (arith, at), free, λ j h. open_cons f rest d before j h)
  where
    open_cons :
        (f : Arc) (rest : FdTable) (d : ℕ)
        → ((j : ℕ) → j < d → IsOpen rest j)
        → (j : ℕ) → j < suc d
        → IsOpen (some f ∷ rest) j
    open_cons f rest d before zero h = (f, refl)
    open_cons f rest d before (suc j) h = before j (omega arith)

scan-none : (i : ℕ) (t : FdTable) → scan i t ≡ none → (j : ℕ) → j < length t → IsOpen t j
unfolding scan
scan-none i [] e j h = elim h [ ]
scan-none i (none ∷ rest) e j h = absurd (cc)
scan-none i (some f ∷ rest) e zero h = (f, refl)
scan-none i (some f ∷ rest) e (suc j) h = scan-none (suc i) rest e j (omega arith)

get_elem?-drop : (n d : ℕ) (t : FdTable) → get_elem? (drop n t) d ≡ get_elem? t (n + d)
get_elem?-drop zero d t = ap (get_elem? t) (omega arith)
get_elem?-drop (suc n) d [] = refl
get_elem?-drop (suc n) d (x ∷ t) = rw suc-add (get_elem?-drop n d t)

length-drop : (n : ℕ) (t : FdTable) → length (drop n t) ≡ length t - n
length-drop zero t = omega arith
length-drop (suc n) [] = omega arith
length-drop (suc n) (x ∷ t) = omega (arith, length-drop n t)

IsOpen-drop : (n d : ℕ) (t : FdTable) → IsOpen (drop n t) d → IsOpen t (n + d)
IsOpen-drop n d t (f, is) = (f, ap flatten (sym (get_elem?-drop n d t)) ∙ is)

IsOpen-shift : (min j : ℕ) (t : FdTable) → min ≤ j → IsOpen (drop min t) (j - min) → IsOpen t j
IsOpen-shift min j t lo h =
    let index : min + (j - min) ≡ j = omega arith in
    subst (IsOpen t) index (IsOpen-drop min (j - min) t h)

-- The slot that a scan from `min` comes to.
scan_from :
    (min : ℕ) (t : FdTable) (k : ℕ)
    → scan min (drop min t) ≡ some k
    → (min ≤ k) × (get_elem? t k ≡ some none) × ((j : ℕ) → min ≤ j → j < k → IsOpen t j)
scan_from min t k e =
    let (d, at, free, before) = scan-some min (drop min t) k e in
    (
      omega (arith, at),
      rw at (sym (get_elem?-drop min d t) ∙ free),
      λ j lo hi. IsOpen-shift min j t lo (before (j - min) (omega (arith, at))),
    )

scan_from_none :
    (min : ℕ) (t : FdTable)
    → scan min (drop min t) ≡ none
    → (j : ℕ) → min ≤ j
    → j < length t
    → IsOpen t j
scan_from_none min t e j lo hi =
    IsOpen-shift min j t lo
      (scan-none min (drop min t) e (j - min) (omega (arith, length-drop min t)))

-- Free slots at the end change nothing that is open.
pub fd_at-append : (t : FdTable) (n j : ℕ) → fd_at (t ++ replicate n none) j ≡ fd_at t j
fd_at-append [] zero j = refl
fd_at-append [] (suc n) zero = refl
fd_at-append [] (suc n) (suc j) = fd_at-append [] n j
fd_at-append (x ∷ t) n zero = refl
fd_at-append (x ∷ t) n (suc j) = fd_at-append t n j

pub get_elem?-append_free :
    (t : FdTable) (n j : ℕ)
    → length t ≤ j
    → j < length t + n
    → get_elem? (t ++ replicate n none) j ≡ some none
get_elem?-append_free [] zero j lo hi = absurd (omega arith)
get_elem?-append_free [] (suc n) zero lo hi = refl
get_elem?-append_free [] (suc n) (suc j) lo hi =
    get_elem?-append_free [] n j (omega arith) (omega arith)
get_elem?-append_free (x ∷ t) n zero lo hi = absurd (omega arith)
get_elem?-append_free (x ∷ t) n (suc j) lo hi =
    get_elem?-append_free t n j (omega arith) (omega arith)

-- The slot chosen from `min` on: free, the lowest such, in range, and in a table that holds what it
-- held.
pub record Chosen (min : ℕ) (t : FdTable) (i : ℕ) (t' : FdTable) : Type 0 where
  pub from : min ≤ i
  pub below : i < max_fd
  pub free : get_elem? t' i ≡ some none
  pub was_free : fd_at t i ≡ none
  pub lowest : (j : ℕ) → min ≤ j → j < i → IsOpen t j
  pub same : (j : ℕ) → fd_at t' j ≡ fd_at t j
  pub size : length t' ≤ max_fd

pub index_below : (t : FdTable) (i : ℕ) (s : Option Arc) → get_elem? t i ≡ some s → i < length t
index_below [] i s e = absurd (cc)
index_below (x ∷ t) zero s e = omega arith
index_below (x ∷ t) (suc i) s e = omega (arith, index_below t i s e)

scan-Chosen :
    (min : ℕ) (t : FdTable) (k : ℕ)
    → length t ≤ max_fd
    → scan min (drop min t) ≡ some k
    → Chosen min t k t
scan-Chosen min t k hi found =
    let (lo, free, before) = scan_from min t k found in
    record {
      from = lo;
      below = omega (arith, index_below t k none free);
      free = free;
      was_free = ap flatten free;
      lowest = before;
      same = λ j. refl;
      size = hi;
    }

append-Chosen :
    (min : ℕ) (t : FdTable) (n : ℕ)
    → min ≤ length t + n
    → length t + n < max_fd
    → ((j : ℕ) → min ≤ j → j < length t + n → IsOpen t j)
    → Chosen min t (length t + n) (t ++ replicate (suc n) none)
append-Chosen min t n lo hi full = record {
  from = lo;
  below = hi;
  free = get_elem?-append_free t (suc n) (length t + n) (omega arith) (omega arith);
  was_free = ap flatten (get_elem?_above t (length t + n) (omega arith));
  lowest = full;
  same = fd_at-append t (suc n);
  size = omega (
    arith,
    length-append t (replicate (suc n) none),
    length-replicate {0} {A = Option Arc} (suc n) none,
  );
}

-- Both allocators end so.
scanned-Chosen :
    (min : ℕ) (t : FdTable)
    → min ≤ length t
    → length t ≤ max_fd
    → (i : ℕ) (t' : FdTable) → scanned t (scan min (drop min t)) ≡ (pos i, t')
    → Chosen min t i t'
unfolding scanned
scanned-Chosen min t lo hi i t' e = elim (Option-cases (scan min (drop min t))) [
  | inl full ↦ elim (Bool-cases (length t == max_fd)) [
    | inl no_room ↦ absurd (ground (arith, full, no_room))
    | inr room ↦
        let index : length t ≡ i = ground (arith, full, room) in
        let table : t ++ none ∷ [] ≡ t' = ground (arith, full, room) in
        let zero_more : length t + 0 ≡ length t = omega arith in
        let c =
          append-Chosen min t 0 (omega arith) (ground arith)
            (λ j a b. scan_from_none min t full j a (omega arith)) in
        subst (λ u. Chosen min t i u) table
          (subst (λ u. Chosen min t u (t ++ none ∷ [])) (zero_more ∙ index) c)
  ]
  | inr (k, found) ↦
      let index : k ≡ i = ground (arith, found) in
      let table : t ≡ t' = ground (arith, found) in
      subst (λ u. Chosen min t i u) table
        (subst (λ u. Chosen min t u t) index (scan-Chosen min t k hi found))
]

-- `fd_alloc` chooses the lowest free slot from 3 on, below 128, and closes nothing.
pub fd_alloc-Chosen :
    (t : FdTable) (i : ℕ) (t' : FdTable)
    → 3 ≤ length t
    → length t ≤ max_fd
    → fd_alloc t ≡ (pos i, t')
    → Chosen 3 t i t'
unfolding fd_alloc
fd_alloc-Chosen t i t' lo hi e = scanned-Chosen 3 t lo hi i t' e

pub not_open : (t : FdTable) (k : ℕ) → fd_at t k ≡ none → IsOpen t k → ⊥
not_open t k e (f, is) = cc

full-IsOpen :
    (t : FdTable)
    → length t ≤ max_fd
    → fd_alloc t ≡ (minus_one, t)
    → (j : ℕ) → 3 ≤ j
    → j < max_fd
    → IsOpen t j
unfolding fd_alloc
full-IsOpen t hi e j lo below = elim (Option-cases (scan 3 (drop 3 t))) [
  | inr (k, found) ↦ absurd (ground (arith, found))
  | inl full ↦ elim (Bool-cases (length t == max_fd)) [
    | inl no_room ↦ scan_from_none 3 t full j lo (ground arith)
    | inr room ↦ absurd (ground (arith, full, room))
  ]
]

IsOpen-full :
    (t : FdTable)
    → 3 ≤ length t
    → length t ≤ max_fd
    → ((j : ℕ) → 3 ≤ j → j < max_fd → IsOpen t j)
    → fd_alloc t ≡ (minus_one, t)
unfolding fd_alloc
IsOpen-full t lo hi all = elim (Option-cases (scan 3 (drop 3 t))) [
  | inr (k, found) ↦
      let (from, free, _) = scan_from 3 t k found in
      absurd
        (not_open t k (ap flatten free) (all k from (omega (arith, index_below t k none free))))
  | inl full ↦ elim (Bool-cases (length t == max_fd)) [
    | inl no_room ↦ ground (arith, full, no_room)
    | inr room ↦ absurd (
        not_open t (length t) (ap flatten (get_elem?_above t (length t) (omega arith)))
          (all (length t) lo (ground arith)))
  ]
]

-- It fails exactly when every slot from 3 to 127 is open.
pub fd_alloc_full :
    (t : FdTable)
    → 3 ≤ length t
    → length t ≤ max_fd
    → (fd_alloc t ≡ (minus_one, t)) ↔ ((j : ℕ) → 3 ≤ j → j < max_fd → IsOpen t j)
fd_alloc_full t lo hi = (full-IsOpen t hi, IsOpen-full t lo hi)

-- A failure leaves the table.
pub fd_alloc-fail :
    (t : FdTable) (n : ℕ) (t' : FdTable) → fd_alloc t ≡ (negsuc n, t') → fd_alloc t ≡ (minus_one, t)
unfolding fd_alloc scanned push_slot
fd_alloc-fail t n t' e = elim (Option-cases (scan 3 (drop 3 t))) [
  | inr (k, found) ↦ absurd (ground (arith, found))
  | inl full ↦ elim (Bool-cases (length t == max_fd)) [
    | inl no_room ↦ ground (arith, full, no_room)
    | inr room ↦ absurd (ground (arith, full, room))
  ]
]

-- `fd_alloc_from` chooses the lowest free slot from `min` on, below 128, and closes nothing.
pub fd_alloc_from-Chosen :
    (t : FdTable) (min i : ℕ) (t' : FdTable)
    → length t ≤ max_fd
    → fd_alloc_from t min ≡ (pos i, t')
    → Chosen min t i t'
unfolding fd_alloc_from
fd_alloc_from-Chosen t min i t' hi e = elim (Bool-cases (leb max_fd min)) [
  | inl over ↦ absurd (ground (arith, over))
  | inr under ↦ elim (Bool-cases (leb (length t) min)) [
    | inr inside ↦ scanned-Chosen min t (ground arith) hi i t' (ground (arith, under, inside))
    | inl beyond ↦
        let more = min - length t in
        let at : length t + more ≡ min = ground arith in
        let count_more : min + 1 - length t ≡ suc more = ground arith in
        let index : min ≡ i = ground (arith, under, beyond) in
        let table : resize t (min + 1) ≡ t' = ground (arith, under, beyond) in
        let resized : t ++ replicate (suc more) none ≡ resize t (min + 1) =
          rw (resize, count_more) refl in
        let c =
          append-Chosen min t more (omega arith) (ground arith)
            (λ j a b. absurd (omega (arith, at))) in
        subst (λ u. Chosen min t i u) (resized ∙ table)
          (subst (λ u. Chosen min t u (t ++ replicate (suc more) none)) (at ∙ index) c)
  ]
]
