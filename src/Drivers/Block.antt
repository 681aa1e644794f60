-- ===== src/Drivers/Block.antt =====
-- kernel/src/drivers/block/mod.rs: BufBlkDeviceInner, one buffered block before a device of blocks.
-- The device is what read_block gives for each number; write_block replaces it. `none` is a panic, an
-- access outside the caller's slice, or `unimplemented!`. A position is below 2^63.
pub mod Bytes
pub mod Access
pub mod Crossing
mod Tests
use hecto_os.Base.{
  ℕ, zero, suc, ◌+◌, ◌*◌, ◌-◌, ◌/◌, ◌%◌, Bool, true, false, Option, none, some, List, [], ◌∷◌, ltb,
  leb, ◌==◌, if◌then◌else◌, ◌>>=◌, ◌>>◌, length, take, drop,
}
use Prim.Native.Nat.{min}
use hecto_os.Base.Int.{ℤ, pos, negsuc}

abbrev pub block_sz : ℕ
block_sz = 512

abbrev pub BlockDevice : Type 0
BlockDevice = ℕ → List ℕ

pub record BufBlkDevice : Type 0 where
  pub device : BlockDevice
  pub buf : List ℕ
  pub pos : ℕ
  pub block_id : ℕ
  pub modified : Bool

unfoldable pub write_block : BlockDevice → ℕ → List ℕ → BlockDevice
write_block device id block = λ i. if i == id then block else device i

abbrev pub fill_buf : BufBlkDevice → BufBlkDevice
fill_buf s = record s { buf = s.device s.block_id }

unfoldable pub flush_buf : BufBlkDevice → BufBlkDevice
unfolding write_block
flush_buf s = record s { device = write_block s.device s.block_id s.buf }

unfoldable pub new : BlockDevice → BufBlkDevice
new device = record { device = device; buf = device 0; pos = 0; block_id = 0; modified = false }

unfoldable pub flush : BufBlkDevice → BufBlkDevice
unfolding flush_buf
flush s = if s.modified then record (flush_buf s) { modified = false } else s

-- Copy from the front of one slice to the front of another, as much as both hold.
abbrev pub copy_into : List ℕ → List ℕ → List ℕ
copy_into [] src = []
copy_into (x ∷ dst) [] = x ∷ dst
copy_into (x ∷ dst) (y ∷ src) = y ∷ copy_into dst src

abbrev pub copy_at : ℕ → List ℕ → List ℕ → List ℕ
copy_at zero dst src = copy_into dst src
copy_at (suc off) [] src = []
copy_at (suc off) (x ∷ dst) src = x ∷ copy_at off dst src

-- `for i in 0..size` of `read`: whole blocks go to the caller's slice from `at` on.
unfoldable pub read_blocks : ℕ → ℕ → List ℕ → BufBlkDevice → List ℕ × BufBlkDevice
read_blocks zero at out s = (out, s)
read_blocks (suc size) at out s =
    let id = s.block_id + 1 in
    read_blocks size (at + block_sz) (copy_at at out (s.device id)) (record s { block_id = id })

-- What is left of `read` where the buffer counts as used up; `n` bytes are read already.
unfoldable pub read_on : ℕ → List ℕ → BufBlkDevice → List ℕ × BufBlkDevice
unfolding flush read_blocks
read_on n out s =
    let size = (length out - n) / block_sz in
    let (out', s') = read_blocks size n out (flush s) in
    let s'' = fill_buf (record s' { block_id = s'.block_id + 1 }) in
    let at = n + size * block_sz in
    (copy_at at out' s''.buf, record s'' { pos = min block_sz (length out - at) })

-- The count it gives, the caller's slice and the device.
unfoldable pub read : List ℕ → BufBlkDevice → ℕ × (List ℕ × BufBlkDevice)
unfolding read_on
read out s =
    let n = min (block_sz - s.pos) (length out) in
    let out' = copy_into out (drop s.pos s.buf) in
    let s' = record s { pos = s.pos + n } in
    if s'.pos == block_sz - 1 then (length out, read_on n out' s') else (length out, (out', s'))

-- `for i in 0..size` of `write`: each round sends the 512 bytes from `at` on.
unfoldable pub write_blocks : ℕ → ℕ → List ℕ → BufBlkDevice → Option BufBlkDevice
unfolding write_block
write_blocks zero at src s = some s
write_blocks (suc size) at src s =
    let id = s.block_id + 1 in
    leb (at + block_sz) (length src)
    >> write_blocks size (at + block_sz) src
        (record s { block_id = id; device = write_block s.device id (take block_sz (drop at src)) })

unfoldable pub write_on : ℕ → List ℕ → BufBlkDevice → Option BufBlkDevice
unfolding flush write_blocks
write_on n src s = do
  let size = length src - n / block_sz
  s' ← write_blocks size n src (flush s)
  let s'' = fill_buf (record s' { block_id = s'.block_id + 1 })
  let at = n + size * block_sz
  leb at (length src)
  let m = min block_sz (length src - at)
  some (record s'' {
    buf = copy_into s''.buf (drop at src);
    pos = m;
    modified = if ltb 0 m then true else s''.modified;
  })

unfoldable pub write : List ℕ → BufBlkDevice → Option (ℕ × BufBlkDevice)
unfolding write_on
write src s =
    let n = min (block_sz - s.pos) (length src) in
    let s' = record s {
      buf = copy_at s.pos s.buf src;
      pos = s.pos + n;
      modified = if ltb 0 n then true else s.modified;
    } in
    if s'.pos == block_sz - 1
    then (do s'' ← write_on n src s'; some (length src, s''))
    else some (length src, s')

pub data SeekFrom : Type 0 where
  from_start : ℕ → SeekFrom
  from_end : ℤ → SeekFrom
  from_current : ℤ → SeekFrom

unfoldable pub seek_to : ℕ → BufBlkDevice → BufBlkDevice
unfolding flush
seek_to i s =
    let s' = record s { pos = i % block_sz } in
    let id = i / block_sz in
    if s.block_id == id then s' else fill_buf (record (flush s') { block_id = id })

-- A negative target is a number just below 2^64.
abbrev pub offset_from : ℕ → ℤ → ℕ
offset_from here (pos k) = here + k
offset_from here (negsuc k) =
    if ltb k here then here - suc k else 0x1_0000_0000_0000_0000 - (suc k - here)

unfoldable pub seek : SeekFrom → BufBlkDevice → Option (ℕ × BufBlkDevice)
unfolding seek_to
seek (from_start i) s = some (i, seek_to i s)
seek (from_end i) s = none
seek (from_current i) s =
    let i = offset_from (s.block_id * block_sz + s.pos) i in some (i, seek_to i s)
