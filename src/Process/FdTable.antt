-- ===== src/Process/FdTable.antt =====
-- The descriptor table of a process: `fd_alloc`, `fd_alloc_from` and `get_fd` of
-- kernel/src/process/process.rs, and the calls of kernel/src/syscall/fs.rs that change it. An
-- `Arc<FileDescriptor>` is the number of the object that it points to; two slots with one number
-- share it. `none` around a result is a panic.
pub mod Alloc
pub mod Calls
pub mod Fcntl
mod Tests
use hecto_os.Base.{
  ℕ, zero, suc, ◌+◌, ◌-◌, Bool, true, false, Option, none, some, List, [], ◌∷◌, ◌++◌, ltb, leb,
  ◌==◌, if◌then◌else◌, ◌>>=◌, length, get_elem?, set, drop, replicate, bit_and, bit_or,
}
use hecto_os.Base.Int.{ℤ, pos, negsuc, minus_one}

abbrev pub Arc : Type 0
Arc = ℕ

abbrev pub FdTable : Type 0
FdTable = List (Option Arc)

abbrev pub max_fd : ℕ
max_fd = 128

abbrev pub cloexec : ℕ
cloexec = 0x8_0000

-- `for i in from..len`: the first free slot of the rest of the table
unfoldable pub scan : ℕ → FdTable → Option ℕ
scan i [] = none
scan i (none ∷ rest) = some i
scan i (some f ∷ rest) = scan (suc i) rest

-- the end of both allocators: one more slot, if there is room
push_slot : FdTable → ℤ × FdTable
push_slot t = if length t == max_fd then (minus_one, t) else (pos (length t), t ++ none ∷ [])

scanned : FdTable → Option ℕ → ℤ × FdTable
unfolding push_slot
scanned t (some i) = (pos i, t)
scanned t none = push_slot t

unfoldable pub fd_alloc : FdTable → ℤ × FdTable
unfolding scan scanned
fd_alloc t = scanned t (scan 3 (drop 3 t))

-- `Vec::resize` to a length that is not smaller
unfoldable pub resize : FdTable → ℕ → FdTable
resize t n = t ++ replicate (n - length t) none

unfoldable pub fd_alloc_from : FdTable → ℕ → ℤ × FdTable
unfolding scan scanned resize
fd_alloc_from t min =
    if leb max_fd min
    then (minus_one, t)
    else if leb (length t) min
    then (pos min, resize t (min + 1))
    else scanned t (scan min (drop min t))

-- What a slot holds; out of the table, nothing.
abbrev pub flatten : Option (Option Arc) → Option Arc
flatten none = none
flatten (some slot) = slot

abbrev pub fd_at : FdTable → ℕ → Option Arc
fd_at t i = flatten (get_elem? t i)

-- A new descriptor in the slot that an allocator chose, or -1.
pub install : Arc → ℤ × FdTable → ℤ × FdTable
install f (pos i, t) = (pos i, set t i (some f))
install f (negsuc n, t) = (minus_one, t)

-- `file_open` has given a descriptor, or an error.
unfoldable pub sys_openat : Option Arc → FdTable → ℤ × FdTable
unfolding fd_alloc install
sys_openat none t = (minus_one, t)
sys_openat (some f) t = install f (fd_alloc t)

unfoldable pub sys_close : ℕ → FdTable → Option (ℤ × FdTable)
sys_close fd t = do _ ← get_elem? t fd; some (pos 0, set t fd none)

dup_slot : Option Arc → FdTable → ℤ × FdTable
unfolding fd_alloc install
dup_slot none t = (minus_one, t)
dup_slot (some f) t = install f (fd_alloc t)

unfoldable pub sys_dup : ℕ → FdTable → Option (ℤ × FdTable)
unfolding dup_slot
sys_dup oldfd t = do slot ← get_elem? t oldfd; some (dup_slot slot t)

dup3_slot : Option Arc → ℕ → FdTable → ℤ × FdTable
unfolding resize
dup3_slot none newfd t = (minus_one, t)
dup3_slot (some f) newfd t =
    if ltb newfd max_fd
    then (pos newfd, set (if leb (length t) newfd then resize t (newfd + 1) else t) newfd (some f))
    else (minus_one, t)

unfoldable pub sys_dup3 : ℕ → ℕ → FdTable → Option (ℤ × FdTable)
unfolding dup3_slot
sys_dup3 oldfd newfd t = do slot ← get_elem? t oldfd; some (dup3_slot slot newfd t)

-- The second half of sys_pipe2, with the read end in its slot.
pipe2_write : ℕ → Arc → ℤ × FdTable → Option (ℕ × ℕ) × FdTable
pipe2_write read_fd w (pos write_fd, t) = (some (read_fd, write_fd), set t write_fd (some w))
pipe2_write read_fd w (negsuc n, t) = (none, set t read_fd none)

pipe2_read : Arc → Arc → ℤ × FdTable → Option (ℕ × ℕ) × FdTable
unfolding fd_alloc pipe2_write
pipe2_read r w (pos read_fd, t) = pipe2_write read_fd w (fd_alloc (set t read_fd (some r)))
pipe2_read r w (negsuc n, t) = (none, t)

-- The pair written to `pipefd` with the result 0, or -1; `r` and `w` are the ends just made.
unfoldable pub sys_pipe2 : Arc → Arc → FdTable → Option (ℕ × ℕ) × FdTable
unfolding pipe2_read fd_alloc
sys_pipe2 r w t = pipe2_read r w (fd_alloc t)

pub data FcntlCmd : Type 0 where
  f_dupfd f_getfd f_setfd f_getfl f_setfl f_getlk f_setlk f_setlkw f_dupfd_cloexec : FcntlCmd

-- The table with the flags of each descriptor object.
pub record Descriptors : Type 0 where
  pub fd_table : FdTable
  pub flags : Arc → ℕ

unfoldable pub insert_flag : (Arc → ℕ) → Arc → ℕ → Arc → ℕ
insert_flag flags f bit = λ g. if g == f then bit_or (flags g) bit else flags g

dupfd : Descriptors → ℤ × FdTable → ℤ × Descriptors
dupfd d (r, t) = (r, record d { fd_table = t })

cloexec_after : Arc → Descriptors → ℤ × FdTable → ℤ × Descriptors
unfolding insert_flag
cloexec_after f d (pos i, t) =
    (pos i, record { fd_table = t; flags = insert_flag d.flags f cloexec })
cloexec_after f d (negsuc n, t) = (minus_one, record d { fd_table = t })

fcntl_slot : Option Arc → FcntlCmd → ℕ → Descriptors → ℤ × Descriptors
unfolding fd_alloc_from install insert_flag dupfd cloexec_after
fcntl_slot none cmd arg d = (minus_one, d)
fcntl_slot (some f) f_dupfd arg d = dupfd d (install f (fd_alloc_from d.fd_table arg))
fcntl_slot (some f) f_dupfd_cloexec arg d =
    cloexec_after f d (install f (fd_alloc_from d.fd_table arg))
fcntl_slot (some f) f_getfd arg d = (pos (d.flags f), d)
fcntl_slot (some f) f_setfd arg d =
    if bit_and arg 1 == 1
    then (minus_one, record d { flags = insert_flag d.flags f cloexec })
    else (minus_one, d)
fcntl_slot (some f) _ arg d = (minus_one, d)

unfoldable pub sys_fcntl : ℕ → FcntlCmd → ℕ → Descriptors → Option (ℤ × Descriptors)
unfolding fcntl_slot
sys_fcntl fd cmd arg d = do slot ← get_elem? d.fd_table fd; some (fcntl_slot slot cmd arg d)
