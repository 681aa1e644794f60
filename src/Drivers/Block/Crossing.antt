-- ===== src/Drivers/Block/Crossing.antt =====
-- Reads that reach the end of the buffered block.
use hecto_os.Base.{ℕ, ◌+◌, ◌*◌, ◌-◌, ◌/◌, ◌≤◌, ◌<◌, ◌≡◌, refl, List, length, get_or, drop, arith}
use Prim.Native.Nat.{min}
use hecto_os.Drivers.Block.{
  BufBlkDevice, copy_into, copy_at, fill_buf, flush, read_blocks, read_on, read,
}
use hecto_os.Drivers.Block.Bytes.{get_or-copy_into, length-copy_into, length-drop_bytes}
use hecto_os.Drivers.Block.Access.{position, IsCoherent, flush-Flushed}

-- A read past the end of the buffered block gives the whole count, but it leaves the caller's slice
-- as it was from the end of the block on.
pub read_short :
    (out : List ℕ) (s : BufBlkDevice)
    → IsCoherent s
    → 512 < s.pos + length out
    → (out' : List ℕ) × (s' : BufBlkDevice) × (read out s ≡ (length out, (out', s')))
      × ((k : ℕ) → 512 - s.pos ≤ k → get_or out' k 0 ≡ get_or out k 0)
      × (position s' ≡ (s.block_id + 1) * 512)
unfolding read
read_short out s v past =
    let low = v.inside in
    let n : min (512 - s.pos) (length out) ≡ 512 - s.pos = omega arith in
    let whole : s.pos + (512 - s.pos) ≡ 512 = omega arith in
    (
      copy_into out (drop s.pos s.buf),
      record s { pos = 512 },
      rw (n, whole) refl,
      λ k beyond. ground (
        arith,
        v.whole,
        get_or-copy_into out (drop s.pos s.buf) k,
        length-drop_bytes s.pos s.buf,
      ),
      omega arith,
    )

-- A read that ends just before the last byte of the block moves the position past that byte.
pub read_skips :
    (out : List ℕ) (s : BufBlkDevice)
    → IsCoherent s
    → s.pos + length out ≡ 511
    → (out' : List ℕ) × (s' : BufBlkDevice) × (read out s ≡ (length out, (out', s')))
      × (position s' ≡ position s + length out + 1)
unfolding read read_on read_blocks flush
read_skips out s v ends =
    let n : min (512 - s.pos) (length out) ≡ length out = omega arith in
    let out1 = copy_into out (drop s.pos s.buf) in
    let s1 : BufBlkDevice = record s { pos = 511 } in
    let none_left : (length out1 - length out) / 512 ≡ 0 =
      omega (arith, length-copy_into out (drop s.pos s.buf)) in
    let plus : length out + 0 ≡ length out = omega arith in
    let none_more : min 512 (length out1 - length out) ≡ 0 =
      omega (arith, length-copy_into out (drop s.pos s.buf)) in
    let f =
      flush-Flushed s1
        (record { whole = v.whole; blocks = v.blocks; inside = omega arith; clean = v.clean }) in
    let s2 = fill_buf (record (flush s1) { block_id = (flush s1).block_id + 1 }) in
    (
      copy_at (length out) out1 s2.buf,
      record s2 { pos = 0 },
      rw (n, ends, none_left, plus, none_more) refl,
      omega (arith, f.same_id),
    )
