-- ===== src/Fs/File/Calls.antt =====
-- The calls that read and write open files: sys_read, sys_write, sys_writev and sys_sendfile of
-- kernel/src/syscall/fs.rs. A call gives its result, a number or -1. `none` is a panic.
use hecto_os.Base.{
  ℕ, zero, suc, Bool, true, not, ◌&&◌, ◌||◌, Option, none, some, List, [], ◌∷◌, ◌++◌, leb, ◌==◌,
  if◌then◌else◌, ◌>>=◌, ◌>>◌, length, get_elem?,
}
use hecto_os.Base.Int.{ℤ, pos, minus_one}
use hecto_os.Base.Word.{checked_sub}
use hecto_os.Process.FdTable.{FdTable}
use hecto_os.Fs.Mounts.{Str}
use hecto_os.Fs.File.{IoResult, ok, err, Inode, Files, read, write}

unfoldable pub concat : List (List ℕ) → List ℕ
concat [] = []
concat (bytes ∷ rest) = bytes ++ concat rest

module _ {I : Type 0} (ops : Inode I) where
  read_result : IoResult (List ℕ) × Files I → (ℤ × List ℕ) × Files I
  read_result (ok bytes, s) = ((pos (length bytes), bytes), s)
  read_result (err e, s) = ((minus_one, []), s)

  read_slot : Option ℕ → ℕ → Files I → Option ((ℤ × List ℕ) × Files I)
  unfolding read_result
  read_slot none count s = some ((minus_one, []), s)
  read_slot (some fd) count s = do r ← read ops fd count s; some (read_result r)

  -- The bytes are what is put at the front of the user's buffer.
  unfoldable pub sys_read : FdTable → ℕ → ℕ → Files I → Option ((ℤ × List ℕ) × Files I)
  unfolding read_slot
  sys_read table fd count s = do slot ← get_elem? table fd; read_slot slot count s

  write_result : IoResult ℕ × Files I → ℤ × Files I
  write_result (ok n, s) = (pos n, s)
  write_result (err e, s) = (minus_one, s)

  write_slot : Option ℕ → List ℕ → Files I → Option (ℤ × Files I)
  unfolding write_result
  write_slot none bytes s = some (minus_one, s)
  write_slot (some fd) bytes s = do r ← write ops fd bytes s; some (write_result r)

  unfoldable pub sys_write : FdTable → ℕ → List ℕ → Files I → Option (ℤ × Files I)
  unfolding write_slot
  sys_write table fd bytes s = do slot ← get_elem? table fd; write_slot slot bytes s

  unfoldable pub sys_writev : FdTable → ℕ → List (List ℕ) → Files I → Option (ℤ × Files I)
  unfolding write_slot concat
  sys_writev table fd iovecs s = do slot ← get_elem? table fd; write_slot slot (concat iovecs) s

  abbrev pub blk_size : ℕ
  blk_size = 512

  -- One round of the loop of sys_sendfile: whether it goes on, what remains and the files. An error of
  -- the read or the write leaves the round, and not the loop.
  after_write : (m read_count remain : ℕ) → IoResult ℕ × Files I → Option ((Bool × ℕ) × Files I)
  after_write m read_count remain (err e, s) = some ((true, remain), s)
  after_write m read_count remain (ok n, s) = do
    remain' ← checked_sub remain n
    some ((not (not (m == blk_size) && (not (m == read_count) || not (m == n))), remain'), s)

  after_read :
      (out read_count remain : ℕ) → IoResult (List ℕ) × Files I → Option ((Bool × ℕ) × Files I)
  unfolding after_write
  after_read out read_count remain (err e, s) = some ((true, remain), s)
  after_read out read_count remain (ok bytes, s) = do
    w ← write ops out bytes s
    after_write (length bytes) read_count remain w

  unfoldable pub send_round : (out in_fd remain : ℕ) → Files I → Option ((Bool × ℕ) × Files I)
  unfolding after_read
  send_round out in_fd remain s = do
    let read_count = if leb blk_size remain then blk_size else remain
    r ← read ops in_fd read_count s
    after_read out read_count remain r

  -- The loop, by fuel; where the fuel is out it still runs.
  unfoldable pub send_loop : (fuel out in_fd remain : ℕ) → Files I → Option (ℕ × Files I)
  unfolding send_round
  send_loop zero out in_fd remain s = none
  send_loop (suc fuel) out in_fd remain s =
      let rounds = (do
        ((again, remain'), s') ← send_round out in_fd remain s
        let rest = send_loop fuel out in_fd remain' s'
        if again then rest else some (remain', s')) in
      if remain == 0 then some (remain, s) else rounds

  -- `opens` says whether the root file system opens a path: the call opens the file again, to print
  -- its size.
  send_slots :
      (Str → Bool) → (fuel : ℕ) → Option ℕ → Option ℕ → (count : ℕ) → Files I → Option (ℤ × Files I)
  unfolding send_loop
  send_slots opens fuel none in_slot count s = some (minus_one, s)
  send_slots opens fuel (some out) none count s = some (minus_one, s)
  send_slots opens fuel (some out) (some in_fd) count s = do
    d ← get_elem? s.descriptors in_fd
    v ← get_elem? s.vnodes d.vnode
    opens v.full_path
    (remain, s') ← send_loop fuel out in_fd count s
    sent_count ← checked_sub count remain
    some (pos sent_count, s')

  abbrev pub in_slot_of : Option ℕ → FdTable → ℕ → Option (Option ℕ)
  in_slot_of none table in_fd = some none
  in_slot_of (some out) table in_fd = get_elem? table in_fd

  unfoldable pub sys_sendfile :
      (Str → Bool)
      → (fuel : ℕ) → FdTable
      → (out_fd in_fd offset count : ℕ) → Files I
      → Option (ℤ × Files I)
  unfolding send_slots
  sys_sendfile opens fuel table out_fd in_fd offset count s = do
    offset == 0
    out_slot ← get_elem? table out_fd
    in_slot ← in_slot_of out_slot table in_fd
    send_slots opens fuel out_slot in_slot count s
