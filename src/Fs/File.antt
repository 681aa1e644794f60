-- ===== src/Fs/File.antt =====
-- Open files: kernel/src/fs/file.rs and kernel/src/fs/vnode.rs. Descriptors and vnodes are objects of a
-- store, and an `Arc` of one is its number. The inode is any implementation of the trait `Inode` of the
-- crate fatfs: what its operations give is a parameter. `none` is a panic.
pub mod Calls
pub mod Paths
pub mod Open
pub mod Streams
pub mod Runs
pub mod Copy
pub mod Ends
pub mod Send
mod Tests
pub mod Slices
use hecto_os.Base.{
  ℕ, ◌+◌, Bool, true, false, not, Option, none, some, List, [], ◌∷◌, ◌==◌, if◌then◌else◌, ◌>>=◌,
  length, get_elem?, set, bit_and, bit_or,
}
use hecto_os.Base.Int.{ℤ}
use hecto_os.Base.Word.{checked_add, usize_mod}
use hecto_os.Fs.Mounts.{Str}

abbrev pub rdonly : ℕ
rdonly = 0

abbrev pub wronly : ℕ
wronly = 1

abbrev pub rdwr : ℕ
rdwr = 2

unfoldable pub readable : ℕ → Bool
readable flags = not (bit_and flags (bit_or rdonly rdwr) == wronly)

unfoldable pub writable : ℕ → Bool
writable flags = not (bit_and flags (bit_or wronly rdwr) == rdonly)

pub data Error : Type 0 where
  permission_denied other : Error

pub data IoResult (A : Type 0) : Type 0 where
  ok : A → IoResult A
  err : Error → IoResult A

pub data SeekFrom : Type 0 where
  start : ℕ → SeekFrom
  current : ℤ → SeekFrom
  end : ℤ → SeekFrom

-- The trait: each operation on an inode gives its result and the inode afterwards. A read gives the
-- bytes that it puts in the buffer.
pub record Inode (I : Type 0) : Type 0 where
  pub seek_inode : SeekFrom → I → IoResult ℕ × I
  pub read_inode : ℕ → I → IoResult (List ℕ) × I
  pub write_inode : List ℕ → I → IoResult ℕ × I
  pub flush_inode : I → IoResult (Unit {0}) × I

pub record FileDescriptor : Type 0 where
  pub flags : ℕ
  pub position : ℕ
  pub vnode : ℕ

pub record Vnode (I : Type 0) : Type 0 where
  pub full_path : Str
  pub inode : I

pub record Files (I : Type 0) : Type 0 where
  pub descriptors : List FileDescriptor
  pub vnodes : List (Vnode I)

abbrev pub unwrap_ok : {A : Type 0} → IoResult A → Option A
unwrap_ok (ok a) = some a
unwrap_ok (err e) = none

abbrev pub put_inode : {I : Type 0} → ℕ → Vnode I → I → Files I → Files I
put_inode i v inode s = record s { vnodes = set s.vnodes i (record v { inode = inode }) }

-- `self.pos += n as u64`
unfoldable pub advance : {I : Type 0} → ℕ → FileDescriptor → ℕ → Files I → Option (Files I)
advance fd d n s = do
  position ← checked_add d.position n
  some (record s { descriptors = set s.descriptors fd (record d { position = position }) })

module _ {I : Type 0} (ops : Inode I) where
  -- The inode is moved to the position of the descriptor.
  abbrev seek_position : FileDescriptor → Vnode I → Option I
  seek_position d v = do
    let sought = ops.seek_inode (start d.position) v.inode
    _ ← unwrap_ok sought.0
    some sought.1

  read_done :
      ℕ → FileDescriptor → IoResult (List ℕ) → Files I → Option (IoResult (List ℕ) × Files I)
  unfolding advance
  read_done fd d (err e) s = some (err e, s)
  read_done fd d (ok bytes) s = do s' ← advance fd d (length bytes) s; some (ok bytes, s')

  unfoldable pub read : ℕ → ℕ → Files I → Option (IoResult (List ℕ) × Files I)
  unfolding read_done
  read fd count s = do
    d ← get_elem? s.descriptors fd
    if not (readable d.flags) then some (err permission_denied, s) else (do
      v ← get_elem? s.vnodes d.vnode
      inode ← seek_position d v
      let done = ops.read_inode count inode
      read_done fd d done.0 (put_inode d.vnode v done.1 s))

  write_done : ℕ → FileDescriptor → IoResult ℕ → Files I → Option (IoResult ℕ × Files I)
  unfolding advance
  write_done fd d (err e) s = some (err e, s)
  write_done fd d (ok n) s = do s' ← advance fd d n s; some (ok n, s')

  unfoldable pub write : ℕ → List ℕ → Files I → Option (IoResult ℕ × Files I)
  unfolding write_done
  write fd bytes s = do
    d ← get_elem? s.descriptors fd
    if not (writable d.flags) then some (err permission_denied, s) else (do
      v ← get_elem? s.vnodes d.vnode
      inode ← seek_position d v
      let done = ops.write_inode bytes inode
      write_done fd d done.0 (put_inode d.vnode v done.1 s))

  -- A seek moves the inode; the position of the descriptor stays.
  unfoldable pub seek : ℕ → SeekFrom → Files I → Option (IoResult ℕ × Files I)
  seek fd from s = do
    d ← get_elem? s.descriptors fd
    v ← get_elem? s.vnodes d.vnode
    let done = ops.seek_inode from v.inode
    some (done.0, put_inode d.vnode v done.1 s)

  unfoldable pub flush : ℕ → Files I → Option (IoResult (Unit {0}) × Files I)
  flush fd s = do
    d ← get_elem? s.descriptors fd
    v ← get_elem? s.vnodes d.vnode
    let done = ops.flush_inode v.inode
    some (done.0, put_inode d.vnode v done.1 s)
