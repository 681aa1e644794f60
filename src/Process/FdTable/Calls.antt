-- ===== src/Process/FdTable/Calls.antt =====
-- What the calls on descriptors do to the table: dup, dup3, pipe2, close, openat and fcntl of
-- kernel/src/syscall/fs.rs.
use hecto_os.Base.{
  ℕ, zero, suc, ◌+◌, ◌-◌, ◌≤◌, ◌<◌, ◌≡◌, ◌≢◌, ◌⊎◌, inl, inr, refl, sym, ap, subst, ◌∙◌, Option,
  none, some, [], ◌∷◌, ◌++◌, ◌==◌, ltb, leb, Bool-cases, length, get_elem?, set, replicate,
  length-append, length-replicate, length-set, get_elem?-set_self, get_elem?-set_ne, arith,
  >>=-eq-some,
}
use hecto_os.Base.Int.{ℤ, pos, negsuc}
use hecto_os.Process.FdTable.{
  Arc, FdTable, max_fd, fd_alloc, resize, flatten, fd_at, install, sys_openat, sys_close, dup_slot,
  sys_dup, dup3_slot, sys_dup3, pipe2_read, pipe2_write, sys_pipe2,
}
use hecto_os.Process.FdTable.Alloc.{
  IsOpen, Chosen, fd_alloc-Chosen, fd_alloc_full, fd_alloc-fail, index_below, fd_at-append,
  not_open,
}

fd_at-set_self : (t : FdTable) (i : ℕ) (s : Option Arc) → i < length t → fd_at (set t i s) i ≡ s
fd_at-set_self t i s h = ap flatten (get_elem?-set_self t i s h)

fd_at-set_ne : (t : FdTable) (i j : ℕ) (s : Option Arc) → i ≢ j → fd_at (set t i s) j ≡ fd_at t j
fd_at-set_ne t i j s h = ap flatten (get_elem?-set_ne t i j s h)

-- The descriptor `f` put in the lowest free slot `i` from `min` on; the other slots are as before.
pub record Installed (min : ℕ) (t : FdTable) (f : Arc) (i : ℕ) (t' : FdTable) : Type 0 where
  pub from : min ≤ i
  pub below : i < max_fd
  pub was_free : fd_at t i ≡ none
  pub lowest : (j : ℕ) → min ≤ j → j < i → IsOpen t j
  pub new : fd_at t' i ≡ some f
  pub same : (j : ℕ) → i ≢ j → fd_at t' j ≡ fd_at t j
  pub size : length t' ≤ max_fd
  pub inside : i < length t'

pub Chosen-Installed :
    (min : ℕ) (t : FdTable) (f : Arc) (i : ℕ) (t' : FdTable)
    → Chosen min t i t'
    → Installed min t f i (set t' i (some f))
Chosen-Installed min t f i t' c =
    let inside = index_below t' i none c.free in
    record {
      from = c.from;
      below = c.below;
      was_free = c.was_free;
      lowest = c.lowest;
      new = fd_at-set_self t' i (some f) inside;
      same = λ j ne. fd_at-set_ne t' i j (some f) ne ∙ c.same j;
      size = omega (arith, length-set t' i (some f), c.size);
      inside = omega (arith, length-set t' i (some f), inside);
    }

-- `install` succeeds where the allocator did.
pub install-pos :
    (f : Arc) (r : ℤ × FdTable) (i : ℕ) (t' : FdTable)
    → install f r ≡ (pos i, t')
    → (u : FdTable) × (r ≡ (pos i, u)) × (t' ≡ set u i (some f))
unfolding install
install-pos f (pos k, u) i t' e = (u, cc, cc)
install-pos f (negsuc n, u) i t' e = absurd (cc)

install-Installed :
    (f : Arc) (t : FdTable) (i : ℕ) (t' : FdTable)
    → 3 ≤ length t
    → length t ≤ max_fd
    → install f (fd_alloc t) ≡ (pos i, t')
    → Installed 3 t f i t'
install-Installed f t i t' lo hi e =
    let (u, chosen, is) = install-pos f (fd_alloc t) i t' e in
    subst (Installed 3 t f i) (sym is)
      (Chosen-Installed 3 t f i u (fd_alloc-Chosen t i u lo hi chosen))

-- Where `sys_dup` gives a descriptor, it is the lowest free one from 3 on, it stands for the object
-- of the old one, which is open, and no other slot changes.
pub sys_dup-Installed :
    (oldfd : ℕ) (t : FdTable) (i : ℕ) (t' : FdTable)
    → 3 ≤ length t
    → length t ≤ max_fd
    → sys_dup oldfd t ≡ some (pos i, t')
    → (f : Arc) × (fd_at t oldfd ≡ some f) × Installed 3 t f i t'
unfolding sys_dup dup_slot
sys_dup-Installed oldfd t i t' lo hi e =
    let (slot, at, rest) = >>=-eq-some (get_elem? t oldfd) (λ s. some (dup_slot s t)) e in
    by_slot slot (ap flatten at) (cc)
  where
    by_slot :
        (slot : Option Arc)
        → fd_at t oldfd ≡ slot
        → dup_slot slot t ≡ (pos i, t')
        → (f : Arc) × (fd_at t oldfd ≡ some f) × Installed 3 t f i t'
    by_slot none at e = absurd (cc)
    by_slot (some f) at e = (f, at, install-Installed f t i t' lo hi e)

==_cases : (i k : ℕ) → (i ≡ k) ⊎ (i ≢ k)
==_cases i k = elim (Bool-cases (i == k)) [
  | inl same ↦ inl (ground arith)
  | inr ne ↦ inr (ground arith)
]

-- What `sys_pipe2` may do: both ends in two slots that were free, or nothing.
pub Piped : (r w : Arc) (t : FdTable) → Option (ℕ × ℕ) → FdTable → Type 0
Piped r w t (some (i, j)) t' =
    (i ≢ j)
    × (3 ≤ i)
    × (3 ≤ j)
    × (fd_at t i ≡ none)
    × (fd_at t j ≡ none)
    × (fd_at t' i ≡ some r)
    × (fd_at t' j ≡ some w)
    × ((k : ℕ) → i ≢ k → j ≢ k → fd_at t' k ≡ fd_at t k)
Piped r w t none t' =
    ((k : ℕ) → fd_at t' k ≡ fd_at t k)
    × (i : ℕ) × ((k : ℕ) → i ≢ k → 3 ≤ k → k < max_fd → IsOpen t k)

pipe2_write-Piped :
    (r w : Arc) (t u : FdTable) (i : ℕ)
    → 3 ≤ length u
    → Installed 3 t r i u
    → (res : Option (ℕ × ℕ)) (t' : FdTable) (a : ℤ × FdTable) → fd_alloc u ≡ a
    → pipe2_write i w a ≡ (res, t')
    → Piped r w t res t'
unfolding pipe2_write Piped
pipe2_write-Piped r w t u i lo c res t' (pos j, v) chosen e =
    let d = Chosen-Installed 3 u w j v (fd_alloc-Chosen u j v lo c.size chosen) in
    let ne : i ≢ j = λ same. not_open u j d.was_free (r, ap (fd_at u) (sym same) ∙ c.new) in
    let done : Piped r w t (some (i, j)) (set v j (some w)) = (
      ne,
      c.from,
      d.from,
      c.was_free,
      sym (c.same j ne) ∙ d.was_free,
      d.same i (λ same. ne (sym same)) ∙ c.new,
      d.new,
      λ k not_i not_j. d.same k not_j ∙ c.same k not_i,
    ) in
    let result : some (i, j) ≡ res = cc in
    let table : set v j (some w) ≡ t' = cc in
    subst (λ o. Piped r w t o t') result (subst (Piped r w t (some (i, j))) table done)
pipe2_write-Piped r w t u i lo c res t' (negsuc n, v) chosen e =
    let failed = fd_alloc-fail u n v chosen in
    let left : v ≡ u = cc in
    let full = (fd_alloc_full u lo c.size).0 failed in
    let back : (k : ℕ) → fd_at (set u i none) k ≡ fd_at t k = λ k. elim (==_cases i k) [
      | inl same ↦
          subst (λ m. fd_at (set u i none) m ≡ fd_at t m) same
            (fd_at-set_self u i none c.inside ∙ sym c.was_free)
      | inr ne ↦ fd_at-set_ne u i k none ne ∙ c.same k ne
    ] in
    let others : (k : ℕ) → i ≢ k → 3 ≤ k → k < max_fd → IsOpen t k =
      λ k ne a b. subst (λ s. (f : Arc) × (s ≡ some f)) (c.same k ne) (full k a b) in
    let result : none ≡ res = cc in
    let table : set u i none ≡ t' = cc in
    subst (λ o. Piped r w t o t') result (subst (Piped r w t none) table (back, i, others))

-- `sys_pipe2` puts the two ends in two different free slots and changes no other, or it fails: then
-- every slot is as before, and all but at most one of the slots 3 to 127 are open.
pub sys_pipe2-Piped :
    (r w : Arc) (t : FdTable) (res : Option (ℕ × ℕ)) (t' : FdTable)
    → 3 ≤ length t
    → length t ≤ max_fd
    → sys_pipe2 r w t ≡ (res, t')
    → Piped r w t res t'
unfolding sys_pipe2 pipe2_read Piped
sys_pipe2-Piped r w t res t' lo hi e = by_first (fd_alloc t) refl e
  where
    by_first :
        (a : ℤ × FdTable) → fd_alloc t ≡ a → pipe2_read r w a ≡ (res, t') → Piped r w t res t'
    by_first (pos i, u) chosen e =
        let c = Chosen-Installed 3 t r i u (fd_alloc-Chosen t i u lo hi chosen) in
        pipe2_write-Piped r w t (set u i (some r)) i (omega (arith, c.from, c.inside)) c res t'
          (fd_alloc (set u i (some r))) refl e
    by_first (negsuc n, u) chosen e =
        let failed = fd_alloc-fail t n u chosen in
        let result : none ≡ res = cc in
        let table : t ≡ t' = cc in
        let full = (fd_alloc_full t lo hi).0 failed in
        subst (λ o. Piped r w t o t') result
          (subst (Piped r w t none) table ((λ k. refl), 0, λ k _ a b. full k a b))

pub open_slot : (t : FdTable) (i : ℕ) (f : Arc) → fd_at t i ≡ some f → get_elem? t i ≡ some (some f)
open_slot [] i f is = absurd (cc)
open_slot (x ∷ t) zero f is = ap some is
open_slot (x ∷ t) (suc i) f is = open_slot t i f is

-- Where the old descriptor is open and the new number is below 128, `sys_dup3` makes the new one
-- stand for the same object, also past the end of the table, and changes no other slot.
pub sys_dup3-copies :
    (oldfd newfd : ℕ) (t : FdTable) (f : Arc)
    → fd_at t oldfd ≡ some f
    → newfd < max_fd
    → (t' : FdTable) × (sys_dup3 oldfd newfd t ≡ some (pos newfd, t'))
      × (fd_at t' newfd ≡ some f)
      × ((j : ℕ) → newfd ≢ j → fd_at t' j ≡ fd_at t j)
unfolding sys_dup3 dup3_slot resize
sys_dup3-copies oldfd newfd t f is below = elim (Bool-cases (leb (length t) newfd)) [
  | inl beyond ↦
      let more : length t ≤ newfd = ground (arith, beyond) in
      let u = t ++ replicate (newfd + 1 - length t) none in
      let long : newfd < length u = omega (
        arith,
        length-append t (replicate (newfd + 1 - length t) none),
        length-replicate {0} {A = Option Arc} (newfd + 1 - length t) none,
      ) in
      (
        set u newfd (some f),
        rw (open_slot t oldfd f is) (ground (arith, beyond)),
        fd_at-set_self u newfd (some f) long,
        λ j ne. fd_at-set_ne u newfd j (some f) ne ∙ fd_at-append t (newfd + 1 - length t) j,
      )
  | inr inside ↦
      let less : newfd < length t = ground (arith, inside) in
      (
        set t newfd (some f),
        rw (open_slot t oldfd f is) (ground (arith, inside)),
        fd_at-set_self t newfd (some f) less,
        λ j ne. fd_at-set_ne t newfd j (some f) ne,
      )
]

-- After closing a descriptor from 3 on, the next open succeeds, with a number not above it.
pub sys_close-sys_openat :
    (fd : ℕ) (t t' : FdTable) (r : ℤ) (f : Arc)
    → 3 ≤ fd
    → length t ≤ max_fd
    → sys_close fd t ≡ some (r, t')
    → (i : ℕ) × (u : FdTable) × (sys_openat (some f) t' ≡ (pos i, u))
      × (i ≤ fd)
      × (fd_at u i ≡ some f)
unfolding sys_close sys_openat install
sys_close-sys_openat fd t t' r f lo hi e =
    let (slot, at, rest) = >>=-eq-some (get_elem? t fd) (λ _. some (pos 0, set t fd none)) e in
    let closed : set t fd none ≡ t' = cc in
    let inside = index_below t fd slot at in
    subst
      (λ s.
        (i : ℕ) × (u : FdTable) × (sys_openat (some f) s ≡ (pos i, u))
        × (i ≤ fd)
        × (fd_at u i ≡ some f))
      closed
      (reopen (set t fd none) (omega (arith, inside, length-set t fd none))
        (omega (arith, length-set t fd none)) (omega (arith, inside))
        (fd_at-set_self t fd none inside) (fd_alloc (set t fd none)) refl)
  where
    reopen :
        (s : FdTable)
        → 3 ≤ length s
        → length s ≤ max_fd
        → fd < max_fd
        → fd_at s fd ≡ none
        → (a : ℤ × FdTable) → fd_alloc s ≡ a
        → (i : ℕ) × (u : FdTable) × (sys_openat (some f) s ≡ (pos i, u))
          × (i ≤ fd)
          × (fd_at u i ≡ some f)
    reopen s lo' hi' below free (pos i, v) chosen =
        let c = Chosen-Installed 3 s f i v (fd_alloc-Chosen s i v lo' hi' chosen) in
        (
          i,
          set v i (some f),
          rw chosen refl,
          elim (Bool-cases (ltb fd i)) [
            | inl under ↦ absurd (not_open s fd free (c.lowest fd lo (ground (arith, under))))
            | inr over ↦ ground (arith, over)
          ],
          c.new,
        )
    reopen s lo' hi' below free (negsuc n, v) chosen =
        let full = (fd_alloc_full s lo' hi').0 (fd_alloc-fail s n v chosen) in
        absurd (not_open s fd free (full fd lo below))
