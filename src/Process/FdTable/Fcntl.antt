-- ===== src/Process/FdTable/Fcntl.antt =====
-- What `sys_fcntl` of kernel/src/syscall/fs.rs does to the table and to the flags of descriptors.
use hecto_os.Base.{
  ℕ, ◌≤◌, ◌≡◌, ◌≢◌, refl, sym, ap, subst, Option, none, some, length, get_elem?, ◌==◌, Bool-cases,
  inl, inr, bit_and, bit_or, arith, >>=-eq-some,
}
use hecto_os.Base.Int.{ℤ, pos, negsuc, minus_one}
use hecto_os.Process.FdTable.{
  Arc, FdTable, max_fd, cloexec, flatten, fd_at, fd_alloc_from, install, f_setfd, f_dupfd_cloexec,
  Descriptors, insert_flag, cloexec_after, fcntl_slot, sys_fcntl,
}
use hecto_os.Process.FdTable.Alloc.{fd_alloc_from-Chosen}
use hecto_os.Process.FdTable.Calls.{Installed, Chosen-Installed, install-pos, open_slot}

-- The flag is set on the object, and on no other.
pub FlagSet : (Arc → ℕ) → Arc → (Arc → ℕ) → Type 0
FlagSet before f after =
    (after f ≡ bit_or (before f) cloexec) × ((g : Arc) → g ≢ f → after g ≡ before g)

insert_flag-FlagSet : (flags : Arc → ℕ) (f : Arc) → FlagSet flags f (insert_flag flags f cloexec)
unfolding FlagSet insert_flag
insert_flag-FlagSet flags f = (ground arith, λ g ne. ground arith)

-- F_DUPFD_CLOEXEC makes the lowest free descriptor from the argument on stand for the object of the
-- old one, and marks that object, so that the old descriptor is marked as well.
pub sys_fcntl-dupfd_cloexec :
    (fd arg : ℕ) (d d' : Descriptors) (i : ℕ)
    → length d.fd_table ≤ max_fd
    → sys_fcntl fd f_dupfd_cloexec arg d ≡ some (pos i, d')
    → (f : Arc) × (fd_at d.fd_table fd ≡ some f)
      × Installed arg d.fd_table f i d'.fd_table
      × FlagSet d.flags f d'.flags
unfolding sys_fcntl fcntl_slot cloexec_after
sys_fcntl-dupfd_cloexec fd arg d d' i hi e =
    let (slot, at, rest) =
      >>=-eq-some (get_elem? d.fd_table fd) (λ s. some (fcntl_slot s f_dupfd_cloexec arg d)) e in
    by_slot slot (ap flatten at) (cc)
  where
    marked :
        (f : Arc)
        → fd_at d.fd_table fd ≡ some f
        → (a : ℤ × FdTable) → install f (fd_alloc_from d.fd_table arg) ≡ a
        → cloexec_after f d a ≡ (pos i, d')
        → (f : Arc) × (fd_at d.fd_table fd ≡ some f)
          × Installed arg d.fd_table f i d'.fd_table
          × FlagSet d.flags f d'.flags
    marked f at (pos k, t) chosen e =
        let (u, from, is) = install-pos f (fd_alloc_from d.fd_table arg) k t chosen in
        let c =
          Chosen-Installed arg d.fd_table f k u (fd_alloc_from-Chosen d.fd_table arg k u hi from) in
        let index : k ≡ i = cc in
        let same : record { fd_table = t; flags = insert_flag d.flags f cloexec } ≡ d' = cc in
        subst
          (λ x.
            (g : Arc) × (fd_at d.fd_table fd ≡ some g)
            × Installed arg d.fd_table g i x.fd_table
            × FlagSet d.flags g x.flags)
          same
          (
            f,
            at,
            subst (λ x. Installed arg d.fd_table f x t) index
                (subst (Installed arg d.fd_table f k) (sym is) c),
            insert_flag-FlagSet d.flags f,
          )
    marked f at (negsuc n, t) chosen e = absurd (cc)

    by_slot :
        (slot : Option Arc)
        → fd_at d.fd_table fd ≡ slot
        → fcntl_slot slot f_dupfd_cloexec arg d ≡ (pos i, d')
        → (f : Arc) × (fd_at d.fd_table fd ≡ some f)
          × Installed arg d.fd_table f i d'.fd_table
          × FlagSet d.flags f d'.flags
    by_slot none at e = absurd (cc)
    by_slot (some f) at e = marked f at (install f (fd_alloc_from d.fd_table arg)) refl e

-- F_SETFD always gives -1, whether it marks the object (where the argument has bit 0) or not.
pub sys_fcntl-setfd :
    (fd arg : ℕ) (d : Descriptors) (f : Arc)
    → fd_at d.fd_table fd ≡ some f
    → (d' : Descriptors) × (sys_fcntl fd f_setfd arg d ≡ some (minus_one, d'))
      × (d'.fd_table ≡ d.fd_table)
      × (bit_and arg 1 ≡ 1 → FlagSet d.flags f d'.flags)
      × (bit_and arg 1 ≢ 1 → d'.flags ≡ d.flags)
unfolding sys_fcntl fcntl_slot
sys_fcntl-setfd fd arg d f is = elim (Bool-cases (bit_and arg 1 == 1)) [
  | inl set_bit ↦ (
    record d { flags = insert_flag d.flags f cloexec },
    rw (open_slot d.fd_table fd f is) (ground (arith, set_bit)),
    refl,
    (λ _. insert_flag-FlagSet d.flags f),
    λ ne. absurd (ground (arith, set_bit)),
  )
  | inr no_bit ↦ (
    d,
    rw (open_slot d.fd_table fd f is) (ground (arith, no_bit)),
    refl,
    (λ is_one. absurd (ground (arith, no_bit))),
    λ ne. refl,
  )
]
