-- ===== src/Process/FdTable/Tests.antt =====
-- Runs of the descriptor calls on small tables: 0, 1 and 2 are open, and one slot above is free.
use hecto_os.Base.{ℕ, ◌≡◌, ◌≢◌, ◌↔◌, ◌<◌, ◌≤◌, refl, none, some, [], ◌∷◌, arith, bit_and}
use hecto_os.Base.Int.{pos, minus_one}
use hecto_os.Process.FdTable.{
  Arc, FdTable, max_fd, fd_at, fd_alloc, fd_alloc_from, sys_dup, sys_dup3, sys_close, sys_openat,
  sys_pipe2, cloexec, f_setfd, Descriptors, insert_flag, sys_fcntl,
}
use hecto_os.Process.FdTable.Alloc.{
  IsOpen, Chosen, fd_alloc-Chosen, fd_alloc_full, fd_alloc_from-Chosen,
}
use hecto_os.Process.FdTable.Calls.{
  Installed, Piped, sys_dup-Installed, sys_pipe2-Piped, sys_dup3-copies, sys_close-sys_openat,
}
use hecto_os.Process.FdTable.Fcntl.{FlagSet, sys_fcntl-dupfd_cloexec, sys_fcntl-setfd}

abbrev table : FdTable
table = some 10 ∷ some 11 ∷ some 12 ∷ some 13 ∷ none ∷ some 15 ∷ []

fd_alloc-Chosen_example : Chosen 3 table 4 table
unfolding fd_alloc
fd_alloc-Chosen_example = fd_alloc-Chosen table 4 table (omega arith) (omega arith) refl

fd_alloc_full_example :
    (fd_alloc table ≡ (minus_one, table)) ↔ ((j : ℕ) → 3 ≤ j → j < max_fd → IsOpen table j)
fd_alloc_full_example = fd_alloc_full table (omega arith) (omega arith)

fd_alloc_from-Chosen_example :
    Chosen 7 table 7 (some 10 ∷ some 11 ∷ some 12 ∷ some 13 ∷ none ∷ some 15 ∷ none ∷ none ∷ [])
unfolding fd_alloc_from
fd_alloc_from-Chosen_example =
    fd_alloc_from-Chosen table 7 7
      (some 10 ∷ some 11 ∷ some 12 ∷ some 13 ∷ none ∷ some 15 ∷ none ∷ none ∷ []) (omega arith) refl

abbrev duplicated : FdTable
duplicated = some 10 ∷ some 11 ∷ some 12 ∷ some 13 ∷ some 11 ∷ some 15 ∷ []

sys_dup-Installed_example : (f : Arc) × (fd_at table 1 ≡ some f) × Installed 3 table f 4 duplicated
unfolding sys_dup
sys_dup-Installed_example = sys_dup-Installed 1 table 4 duplicated (omega arith) (omega arith) refl

abbrev piped : FdTable
piped = some 10 ∷ some 11 ∷ some 12 ∷ some 13 ∷ some 20 ∷ some 15 ∷ some 21 ∷ []

sys_pipe2-Piped_example : Piped 20 21 table (some (4, 6)) piped
unfolding sys_pipe2
sys_pipe2-Piped_example =
    sys_pipe2-Piped 20 21 table (some (4, 6)) piped (omega arith) (omega arith) refl

sys_dup3-copies_example :
    (t' : FdTable) × (sys_dup3 3 9 table ≡ some (pos 9, t'))
    × (fd_at t' 9 ≡ some 13)
    × ((j : ℕ) → 9 ≢ j → fd_at t' j ≡ fd_at table j)
sys_dup3-copies_example = sys_dup3-copies 3 9 table 13 refl (omega arith)

sys_close-sys_openat_example :
    (i : ℕ) × (u : FdTable) × (sys_openat
        (some 30)
        (some 10 ∷ some 11 ∷ some 12 ∷ some 13 ∷ none ∷ none ∷ [])
      ≡ (pos i, u))
    × (i ≤ 5)
    × (fd_at u i ≡ some 30)
unfolding sys_close
sys_close-sys_openat_example =
    sys_close-sys_openat 5 table (some 10 ∷ some 11 ∷ some 12 ∷ some 13 ∷ none ∷ none ∷ []) (pos 0)
      30 (omega arith) (omega arith) refl

abbrev no_flags : Arc → ℕ
no_flags f = 2

abbrev opened : Descriptors
opened = record { fd_table = table; flags = no_flags }

abbrev copied : Descriptors
copied = record { fd_table = duplicated; flags = insert_flag no_flags 11 cloexec }

sys_fcntl-dupfd_cloexec_example :
    (f : Arc) × (fd_at table 1 ≡ some f)
    × Installed 4 table f 4 duplicated
    × FlagSet no_flags f (insert_flag no_flags 11 cloexec)
unfolding sys_fcntl
sys_fcntl-dupfd_cloexec_example = sys_fcntl-dupfd_cloexec 1 4 opened copied 4 (omega arith) refl

sys_fcntl-setfd_example :
    (d' : Descriptors) × (sys_fcntl 3 f_setfd 1 opened ≡ some (minus_one, d'))
    × (d'.fd_table ≡ table)
    × (bit_and 1 1 ≡ 1 → FlagSet no_flags 13 d'.flags)
    × (bit_and 1 1 ≢ 1 → d'.flags ≡ no_flags)
sys_fcntl-setfd_example = sys_fcntl-setfd 3 1 opened 13 refl
