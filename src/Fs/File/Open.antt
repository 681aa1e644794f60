-- ===== src/Fs/File/Open.antt =====
-- file_open, file_unlink and mkdir of kernel/src/fs/file.rs. What the file systems (the crate fatfs) give for
-- a path is a parameter, with a state of their own. `none` is a panic.
mod Lists
pub mod Named
mod Tests
use hecto_os.Base.{
  ℕ, ◌+◌, Bool, true, false, ◌&&◌, Option, none, some, List, [], ◌∷◌, ◌++◌, ◌==◌, if◌then◌else◌,
  ◌>>=◌, length, get_elem?, bit_and,
}
use hecto_os.Base.Int.{ℤ, pos, minus_one}
use hecto_os.Fs.Mounts.{Str, FileSystemTable, filesystem_lookup}
use hecto_os.Fs.File.{
  IoResult, ok, err, end, Inode, FileDescriptor, Vnode, Files, unwrap_ok, put_inode,
}

-- The operations of a mounted file system, which is given by its index, on a path
pub record FileSystems (I F : Type 0) : Type 0 where
  pub create_file : ℕ → Str → F → IoResult I × F
  pub open_dir : ℕ → Str → F → IoResult I × F
  pub open_file : ℕ → Str → F → IoResult I × F
  pub remove : ℕ → Str → F → IoResult (Unit {0}) × F
  pub create_dir : ℕ → Str → F → IoResult (Unit {0}) × F

pub record Kernel (I F : Type 0) : Type 0 where
  pub files : Files I
  pub vnode_hashset : List (Str × ℕ)
  pub disk : F

abbrev pub creat : ℕ
creat = 0x40

abbrev pub append : ℕ
append = 0x400

abbrev pub directory : ℕ
directory = 0x20_0000

abbrev contains : ℕ → ℕ → Bool
contains flags flag = bit_and flags flag == flag

unfoldable pub same_path : Str → Str → Bool
same_path [] [] = true
same_path [] (b ∷ q) = false
same_path (a ∷ p) [] = false
same_path (a ∷ p) (b ∷ q) = (a == b) && same_path p q

-- `get` of the set of vnodes
unfoldable pub find : Str → List (Str × ℕ) → Option ℕ
unfolding same_path
find path [] = none
find path (entry ∷ rest) =
    let after = find path rest in if same_path entry.0 path then some entry.1 else after

module _ {I F : Type 0} (ops : Inode I) (fs : FileSystems I F) (table : FileSystemTable) where
  -- The file system of a path, which must be there
  unfoldable pub lookup_fs : Str → Option ℕ
  lookup_fs full_path = do
    let i = filesystem_lookup full_path table
    mounted ← get_elem? table i
    _ ← mounted
    some i

  unfoldable pub inode_of : ℕ → ℕ → Str → F → IoResult I × F
  inode_of flags i full_path disk =
      if contains flags creat
      then fs.create_file i full_path disk
      else (if contains flags directory
          then fs.open_dir i full_path disk
          else fs.open_file i full_path disk)

  push_descriptor : ℕ → ℕ → ℕ → Files I → ℕ × Files I
  push_descriptor flags position vnode s = (
    length s.descriptors,
    record s {
      descriptors =
          s.descriptors ++ record { flags = flags; position = position; vnode = vnode } ∷ [];
    },
  )

  -- The end of file_open: the position, and the descriptor
  unfoldable pub new_descriptor : ℕ → ℕ → Files I → Option (ℕ × Files I)
  unfolding push_descriptor
  new_descriptor flags vnode s =
      let at_end = (do
        v ← get_elem? s.vnodes vnode
        let sought = ops.seek_inode (end (pos 0)) v.inode
        position ← unwrap_ok sought.0
        some (push_descriptor flags position vnode (put_inode vnode v sought.1 s))) in
      if contains flags append then at_end else some (push_descriptor flags 0 vnode s)

  with_descriptor : ℕ → ℕ → Kernel I F → Option (IoResult ℕ × Kernel I F)
  unfolding new_descriptor
  with_descriptor flags vnode k = do
    (fd, files) ← new_descriptor flags vnode k.files
    some (ok fd, record k { files = files })

  -- A vnode is made of what the file system gives.
  new_vnode : ℕ → Str → IoResult I → Kernel I F → Option (IoResult ℕ × Kernel I F)
  unfolding with_descriptor
  new_vnode flags full_path (err e) k = some (err e, k)
  new_vnode flags full_path (ok inode) k = with_descriptor flags (length k.files.vnodes) (record k {
    files = record k.files {
      vnodes = k.files.vnodes ++ record { full_path = full_path; inode = inode } ∷ [];
    };
    vnode_hashset = (full_path, length k.files.vnodes) ∷ k.vnode_hashset;
  })

  open_missing : Str → ℕ → Kernel I F → Option (IoResult ℕ × Kernel I F)
  unfolding new_vnode lookup_fs inode_of
  open_missing full_path flags k = do
    i ← lookup_fs full_path
    let opened = inode_of flags i full_path k.disk
    new_vnode flags full_path opened.0 (record k { disk = opened.1 })

  open_found : Str → ℕ → Option ℕ → Kernel I F → Option (IoResult ℕ × Kernel I F)
  unfolding open_missing with_descriptor
  open_found full_path flags none k = open_missing full_path flags k
  open_found full_path flags (some vnode) k = with_descriptor flags vnode k

  unfoldable pub file_open : Str → ℕ → Kernel I F → Option (IoResult ℕ × Kernel I F)
  unfolding open_found find
  file_open full_path flags k = open_found full_path flags (find full_path k.vnode_hashset) k

  unfoldable pub file_unlink : Str → Kernel I F → Option (IoResult (Unit {0}) × Kernel I F)
  unfolding lookup_fs
  file_unlink full_path k = do
    i ← lookup_fs full_path
    let removed = fs.remove i full_path k.disk
    some (removed.0, record k { disk = removed.1 })

  mkdir_result : IoResult (Unit {0}) → ℤ
  mkdir_result (ok u) = pos 0
  mkdir_result (err e) = minus_one

  unfoldable pub mkdir : Str → Kernel I F → Option (ℤ × Kernel I F)
  unfolding lookup_fs mkdir_result
  mkdir full_path k = do
    i ← lookup_fs full_path
    let made = fs.create_dir i full_path k.disk
    some (mkdir_result made.0, record k { disk = made.1 })

  -- Opens, one after the other: the kernel afterwards
  unfoldable pub open_run : List (Str × ℕ) → Kernel I F → Option (Kernel I F)
  unfolding file_open
  open_run [] k = some k
  open_run (request ∷ requests) k = do
    (r, k') ← file_open request.0 request.1 k
    open_run requests k'
