-- ===== src/Fs/File/Paths.antt =====
-- Paths: normalize_path, sys_chdir and sys_getcwd of kernel/src/syscall/fs.rs. A path is its bytes.
pub mod Absolute
mod Tests
use hecto_os.Base.{
  ℕ, ◌+◌, ◌-◌, ◌^◌, Bool, true, false, ◌&&◌, Option, none, some, List, [], ◌∷◌, ◌++◌, ltb, ◌==◌,
  if◌then◌else◌, ◌>>=◌, ◌>>◌, length, get_elem?,
}
use hecto_os.Process.FdTable.{FdTable}
use hecto_os.Fs.Mounts.{Str, slash, starts_with}
use hecto_os.Fs.File.{FileDescriptor, Files}

abbrev pub dot : ℕ
dot = 0x2E

-- `trim_start_matches("./")`
unfoldable pub trim_here : Str → Str
trim_here [] = []
trim_here (a ∷ []) = a ∷ []
trim_here (a ∷ b ∷ rest) =
    let trimmed = trim_here rest in if (a == dot) && (b == slash) then trimmed else a ∷ b ∷ rest

abbrev pub is_empty : Str → Bool
is_empty [] = true
is_empty (a ∷ rest) = false

-- `trim_end_matches` of one character
unfoldable pub trim_end : ℕ → Str → Str
trim_end c [] = []
trim_end c (a ∷ rest) =
    let trimmed = trim_end c rest in if (a == c) && is_empty trimmed then [] else a ∷ trimmed

abbrev pub at_fdcwd : ℕ
at_fdcwd = 2 ^ 64 - 100

-- The path that a relative path starts from
unfoldable pub dir_path : {I : Type 0} → ℕ → Str → FdTable → Files I → Option Str
dir_path dirfd cwd table s =
    let opened = (do
      slot ← get_elem? table dirfd
      fd ← slot
      d ← get_elem? s.descriptors fd
      v ← get_elem? s.vnodes d.vnode
      some v.full_path) in
    if dirfd == at_fdcwd then some cwd else opened

-- A relative path below the path of its directory
unfoldable pub join_path : Str → Str → Str
unfolding trim_here trim_end
join_path dir path = trim_end slash dir ++ slash ∷ trim_end dot (trim_here path)

unfoldable pub normalize_path : {I : Type 0} → ℕ → Str → Str → FdTable → Files I → Option Str
unfolding dir_path join_path
normalize_path dirfd path cwd table s =
    let relative = (do dir ← dir_path dirfd cwd table s; some (join_path dir path)) in
    if starts_with path (slash ∷ []) then some path else relative

-- The new working directory; the result of the call is 0.
unfoldable pub sys_chdir : {I : Type 0} → Str → Str → FdTable → Files I → Option Str
unfolding normalize_path
sys_chdir path cwd table s = normalize_path at_fdcwd path cwd table s

-- What the call puts in a buffer of `size` bytes; where that is too small, it panics.
unfoldable pub sys_getcwd : ℕ → Str → Option (List ℕ)
sys_getcwd size cwd = do ltb (length cwd) size; some (cwd ++ 0 ∷ [])

-- One call after the other
unfoldable pub chdir_run : {I : Type 0} → List Str → Str → FdTable → Files I → Option Str
unfolding sys_chdir
chdir_run [] cwd table s = some cwd
chdir_run (path ∷ paths) cwd table s = do
  cwd' ← sys_chdir path cwd table s
  chdir_run paths cwd' table s
