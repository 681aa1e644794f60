-- ===== src/Drivers/Block/Access.antt =====
-- The buffered device as a sequence of bytes: what seek, flush, read and write do to it.
use hecto_os.Base.{
  ℕ, ◌+◌, ◌*◌, ◌-◌, ◌/◌, ◌%◌, ◌≤◌, ◌<◌, ◌≡◌, ◌≢◌, refl, sym, ap, subst, ◌∙◌, inl, inr, Bool, true,
  false, ◌&&◌, some, List, ltb, leb, ◌==◌, if◌then◌else◌, Bool-cases, length, get_or, drop, arith,
}
use Prim.Native.Nat.{min}
use hecto_os.Drivers.Block.{
  BlockDevice, BufBlkDevice, copy_into, copy_at, write_block, flush_buf, flush, fill_buf, new,
  seek_to, seek, from_start, read, write,
}
use hecto_os.Drivers.Block.Bytes.{
  get_or-copy_into, get_or-copy_at, length-copy_at, copy_at-empty, get_or-drop, length-drop_bytes,
}

-- The byte at an address, the buffer before the device.
unfoldable pub byte : BufBlkDevice → ℕ → ℕ
byte s a =
    if s.block_id == a / 512
    then get_or s.buf (a % 512) 0
    else get_or (s.device (a / 512)) (a % 512) 0

abbrev pub position : BufBlkDevice → ℕ
position s = s.block_id * 512 + s.pos

-- The buffer is a block, and differs from the device's only if it is marked.
pub record IsCoherent (s : BufBlkDevice) : Type 0 where
  pub whole : length s.buf ≡ 512
  pub blocks : (i : ℕ) → length (s.device i) ≡ 512
  pub inside : s.pos ≤ 512
  pub clean : s.modified ≡ false → s.buf ≡ s.device s.block_id

pub new-IsCoherent :
    (device : BlockDevice) → ((i : ℕ) → length (device i) ≡ 512) → IsCoherent (new device)
unfolding new
new-IsCoherent device all = record {
  whole = all 0;
  blocks = all;
  inside = omega arith;
  clean = λ _. refl;
}

-- After a flush the device holds the buffer, and nothing else changes.
pub record Flushed (s s' : BufBlkDevice) : Type 0 where
  pub coherent : IsCoherent s'
  pub same_buf : s'.buf ≡ s.buf
  pub same_pos : s'.pos ≡ s.pos
  pub same_id : s'.block_id ≡ s.block_id
  pub written : s'.device s.block_id ≡ s.buf
  pub others : (i : ℕ) → i ≢ s.block_id → s'.device i ≡ s.device i
  pub unmarked : s'.modified ≡ false

pub flush-Flushed : (s : BufBlkDevice) → IsCoherent s → Flushed s (flush s)
unfolding flush flush_buf write_block
flush-Flushed s v = elim (Bool-cases s.modified) [
  | inr clean ↦
      let same : flush s ≡ s =
        ap (λ (b : Bool). if b then record (flush_buf s) { modified = false } else s) clean in
      subst (Flushed s) (sym same) (record {
        coherent = v;
        same_buf = refl;
        same_pos = refl;
        same_id = refl;
        written = sym (v.clean clean);
        others = λ i ne. refl;
        unmarked = clean;
      })
  | inl marked ↦
      let after : flush s ≡ record (flush_buf s) { modified = false } =
        ap (λ (b : Bool). if b then record (flush_buf s) { modified = false } else s) marked in
      subst (Flushed s) (sym after) (record {
        coherent = record {
          whole = v.whole;
          blocks = λ i. elim (Bool-cases (i == s.block_id)) [
            | inl same ↦ rw same v.whole
            | inr other ↦ rw other (v.blocks i)
          ];
          inside = v.inside;
          clean = λ _. ground arith;
        };
        same_buf = refl;
        same_pos = refl;
        same_id = refl;
        written = ground arith;
        others = λ i ne. ground arith;
        unmarked = refl;
      })
]

-- Another block in the buffer, after a flush: the bytes are those of before.
reload-byte :
    (s s' : BufBlkDevice) (id a : ℕ)
    → Flushed s s'
    → byte (fill_buf (record s' { block_id = id })) a ≡ byte s a
unfolding byte
reload-byte s s' id a f = on_device ∙ as_before
  where
    on_device :
        byte (fill_buf (record s' { block_id = id })) a ≡ get_or (s'.device (a / 512)) (a % 512) 0
    on_device = elim (Bool-cases (id == a / 512)) [
      | inl here ↦
          let at : id ≡ a / 512 = ground (arith, here) in
          rw here (ap (λ (i : ℕ). get_or (s'.device i) (a % 512) 0) at)
      | inr away ↦ rw away refl
    ]

    as_before : get_or (s'.device (a / 512)) (a % 512) 0 ≡ byte s a
    as_before = elim (Bool-cases (s.block_id == a / 512)) [
      | inl here ↦
          let at : s.block_id ≡ a / 512 = ground (arith, here) in
          rw here (ap (λ (b : List ℕ). get_or b (a % 512) 0) (ap s'.device (sym at) ∙ f.written))
      | inr away ↦
          let ne : a / 512 ≢ s.block_id = ground (arith, away) in
          rw away (ap (λ (b : List ℕ). get_or b (a % 512) 0) (f.others (a / 512) ne))
    ]

-- A seek from the start, wherever it goes: the position is the target, and no byte changes.
pub seek-position :
    (i : ℕ) (s : BufBlkDevice)
    → IsCoherent s
    → (s' : BufBlkDevice) × (seek (from_start i) s ≡ some (i, s'))
      × (position s' ≡ i)
      × IsCoherent s'
      × ((a : ℕ) → byte s' a ≡ byte s a)
unfolding seek seek_to byte
seek-position i s v = elim (Bool-cases (s.block_id == i / 512)) [
  | inl here ↦
      let at : s.block_id ≡ i / 512 = ground (arith, here) in
      (
        record s { pos = i % 512 },
        rw here refl,
        omega (arith, at),
        record { whole = v.whole; blocks = v.blocks; inside = omega arith; clean = v.clean },
        λ a. refl,
      )
  | inr away ↦
      let s1 : BufBlkDevice = record s { pos = i % 512 } in
      let v1 : IsCoherent s1 = record {
        whole = v.whole;
        blocks = v.blocks;
        inside = omega arith;
        clean = v.clean;
      } in
      let f = flush-Flushed s1 v1 in
      (
        fill_buf (record (flush s1) { block_id = i / 512 }),
        rw away refl,
        omega (arith, f.same_pos),
        record {
          whole = f.coherent.blocks (i / 512);
          blocks = f.coherent.blocks;
          inside = f.coherent.inside;
          clean = λ _. refl;
        },
        λ a. reload-byte s1 (flush s1) (i / 512) a f,
      )
]

-- A read that stays in the buffer and does not end at its last byte gives the bytes from the
-- position on, moves the position past them, and changes no byte.
pub read-byte :
    (out : List ℕ) (s : BufBlkDevice)
    → IsCoherent s
    → s.pos + length out ≤ 512
    → s.pos + length out ≢ 511
    → (out' : List ℕ) × (s' : BufBlkDevice) × (read out s ≡ (length out, (out', s')))
      × (position s' ≡ position s + length out)
      × IsCoherent s'
      × ((k : ℕ) → k < length out → get_or out' k 0 ≡ byte s (position s + k))
      × ((a : ℕ) → byte s' a ≡ byte s a)
unfolding read byte
read-byte out s v fits apart =
    let n : min (512 - s.pos) (length out) ≡ length out = omega arith in
    let test : (s.pos + length out == 511) ≡ false = ground (arith, apart) in
    (
      copy_into out (drop s.pos s.buf),
      record s { pos = s.pos + length out },
      rw (n, test) refl,
      omega arith,
      record { whole = v.whole; blocks = v.blocks; inside = omega arith; clean = v.clean },
      λ k h.
          let block : (s.block_id * 512 + s.pos + k) / 512 ≡ s.block_id = omega arith in
          let offset : (s.block_id * 512 + s.pos + k) % 512 ≡ s.pos + k = omega arith in
          let here : (s.block_id == s.block_id) ≡ true = ground arith in
          rw (block, offset, here)
            (ground (
              arith,
              v.whole,
              get_or-copy_into out (drop s.pos s.buf) k,
              get_or-drop s.pos s.buf k,
              length-drop_bytes s.pos s.buf,
            )),
      λ a. refl,
    )

-- A write that stays in the buffer and does not end at its last byte changes the bytes from the
-- position on to those written, and no other byte.
pub write-byte :
    (src : List ℕ) (s : BufBlkDevice)
    → IsCoherent s
    → s.pos + length src ≤ 512
    → s.pos + length src ≢ 511
    → (s' : BufBlkDevice) × (write src s ≡ some (length src, s'))
      × (position s' ≡ position s + length src)
      × IsCoherent s'
      × ((a : ℕ)
          → byte s' a ≡ (
              if leb (position s) a && ltb a (position s + length src)
              then get_or src (a - position s) 0
              else byte s a))
unfolding write byte
write-byte src s v fits apart =
    let n : min (512 - s.pos) (length src) ≡ length src = omega arith in
    let test : (s.pos + length src == 511) ≡ false = ground (arith, apart) in
    (
      record s {
        buf = copy_at s.pos s.buf src;
        pos = s.pos + length src;
        modified = if ltb 0 (length src) then true else s.modified;
      },
      rw (n, test) refl,
      omega arith,
      record {
        whole = length-copy_at s.pos s.buf src ∙ v.whole;
        blocks = v.blocks;
        inside = omega arith;
        clean = λ unmarked.
            let nothing : length src ≡ 0 = ground (arith, unmarked) in
            let before : s.modified ≡ false = ground (arith, unmarked) in
            copy_at-empty s.pos s.buf src nothing ∙ v.clean before;
      },
      λ a. elim (Bool-cases (s.block_id == a / 512)) [
        | inl here ↦
            let split : a ≡ s.block_id * 512 + a % 512 = ground (arith, here) in
            let index : a - (s.block_id * 512 + s.pos) ≡ a % 512 - s.pos = omega (arith, split) in
            rw (here, index)
              (ground
                (arith, split, get_or-copy_at s.pos s.buf src (a % 512) (omega (arith, v.whole))))
        | inr away ↦ rw away (ground (arith, away))
      ],
    )
