-- ===== src/Fs/Mounts.antt =====
-- kernel/src/fs/mod.rs: the table of mounted file systems. A path is its bytes; an entry of the table is
-- the mount point of a file system. A file system is given as its index in the table.
pub mod Lookup
mod Tests
use hecto_os.Base.{
  ℕ, zero, suc, ◌+◌, Bool, true, false, ◌&&◌, ◌||◌, Option, none, some, List, [], ◌∷◌, ltb, leb,
  ◌==◌, if◌then◌else◌, ◌>>=◌, length, get_or, drop,
}

abbrev pub Str : Type 0
Str = List ℕ

abbrev pub FileSystemTable : Type 0
FileSystemTable = List (Option Str)

abbrev pub max_file_system : ℕ
max_file_system = 4

abbrev pub slash : ℕ
slash = 0x2F

unfoldable pub starts_with : Str → Str → Bool
starts_with path [] = true
starts_with [] (b ∷ prefix) = false
starts_with (a ∷ path) (b ∷ prefix) = (a == b) && starts_with path prefix

-- The body of the loop: the index kept and the length of its mount point.
unfoldable pub choose : Str → ℕ → Str → ℕ × ℕ → ℕ × ℕ
unfolding starts_with
choose full_path i mount_point (ret, prev_len) =
    let fspath_len = length mount_point in
    if leb fspath_len (length full_path)
      && (ltb prev_len fspath_len && starts_with full_path mount_point)
    then (if (fspath_len == length full_path) || (get_or full_path fspath_len 0 == slash)
        then (i, fspath_len)
        else (ret, prev_len))
    else (ret, prev_len)

unfoldable pub lookup_loop : Str → ℕ → FileSystemTable → ℕ × ℕ → ℕ × ℕ
unfolding choose
lookup_loop full_path i [] kept = kept
lookup_loop full_path i (none ∷ rest) kept = lookup_loop full_path (suc i) rest kept
lookup_loop full_path i (some mount_point ∷ rest) kept =
    lookup_loop full_path (suc i) rest (choose full_path i mount_point kept)

unfoldable pub filesystem_lookup : Str → FileSystemTable → ℕ
unfolding lookup_loop
filesystem_lookup full_path table = (lookup_loop full_path 1 (drop 1 table) (0, 0)).0

-- The first free entry; a full table is a panic.
unfoldable pub regeister_file_system : Str → FileSystemTable → Option FileSystemTable
regeister_file_system mount_point [] = none
regeister_file_system mount_point (none ∷ rest) = some (some mount_point ∷ rest)
regeister_file_system mount_point (some m ∷ rest) = do
  rest' ← regeister_file_system mount_point rest
  some (some m ∷ rest')
