-- ===== src/Process/Tid/History.antt =====
-- No number is alive twice, and no two numbers share a byte of their kernel stacks.
use hecto_os.Base.{
  ℕ, ◌+◌, ◌-◌, ◌*◌, ◌≤◌, ◌<◌, ◌≡◌, ◌≢◌, ◌⊎◌, ◌^◌, refl, ap, inl, inr, true, false, some, List, [],
  ◌∷◌, ltb, if◌then◌else◌, Bool-cases, count, length, arith,
}
use hecto_os.Base.Word.{usize_mod, checked_add-some, checked_sub-some}
use hecto_os.Mm.Address.{VaRange}
use hecto_os.Mm.FrameAllocator.{holds, forget}
use hecto_os.Mm.FrameAllocator.Counts.{holds-count, count-forget}
use hecto_os.Process.Tid.{
  TidAllocator, new_tids, alloc_tid_from, alloc_tid, dealloc_tid, Tids, TidOp, new_tid, drop_tid,
  tid_step, tid_run, get_kernel_stack_range,
}

-- Every number that was given out is alive or recycled, once.
pub record IsTids (s : Tids) : Type 0 where
  pub split :
      (t : ℕ)
      → count t s.allocator.recycled + count t s.live ≡ (if ltb t s.allocator.current then 1 else 0)

not_held : (p : ℕ) (xs : List ℕ) → count p xs ≡ 0 → holds p xs ≡ false
not_held p xs h = elim (Bool-cases (holds p xs)) [
  | inr missing ↦ missing
  | inl there ↦ absurd (omega (arith, holds-count p xs there))
]

alloc_tid_lem :
    (s : Tids)
    → IsTids s
    → s.allocator.current + 1 < usize_mod
    → (recycled : List ℕ) → s.allocator.recycled ≡ recycled
    → (tid : ℕ) × (a : TidAllocator) × (alloc_tid s.allocator ≡ some (tid, a))
      × IsTids (record { allocator = a; live = tid ∷ s.live })
      × (count tid s.live ≡ 0)
      × (a.current ≤ s.allocator.current + 1)
unfolding alloc_tid alloc_tid_from
alloc_tid_lem s v room [] is =
    let current = s.allocator.current in
    (
      current,
      record s.allocator { current = current + 1 },
      rw is (
          rw (checked_add-some current 1 room) (
            ap (λ (t : ℕ). some (t, record { current = current + 1; recycled = [] }))
              (omega arith))),
      record { split = λ t. rw is (ground (arith, v.split t, is)) },
      ground (arith, v.split current, is),
      omega arith,
    )
alloc_tid_lem s v room (tid ∷ rest) is = (
  tid,
  record s.allocator { recycled = rest },
  rw is refl,
  record { split = λ t. ground (arith, v.split t, ap (count t) is) },
  ground (arith, v.split tid, ap (count tid) is),
  omega arith,
)

dealloc_tid_lem :
    (s : Tids) (tid : ℕ)
    → IsTids s
    → holds tid s.live ≡ true
    → (dealloc_tid s.allocator tid
        ≡ some (record s.allocator { recycled = tid ∷ s.allocator.recycled }))
      × IsTids (record {
        allocator = record s.allocator { recycled = tid ∷ s.allocator.recycled };
        live = forget tid s.live;
      })
unfolding dealloc_tid
dealloc_tid_lem s tid v there =
    let alive = holds-count tid s.live there in
    let low : ltb tid s.allocator.current ≡ true = ground (arith, v.split tid) in
    let fresh : holds tid s.allocator.recycled ≡ false =
      not_held tid s.allocator.recycled (ground (arith, v.split tid)) in
    (
      rw (low, fresh) refl,
      record { split = λ t. ground (arith, v.split t, count-forget tid t s.live there) },
    )

step-IsTids :
    (op : TidOp) (s : Tids)
    → IsTids s
    → s.allocator.current + 1 < usize_mod
    → (s' : Tids) × (tid_step op s ≡ some s')
      × IsTids s'
      × (s'.allocator.current ≤ s.allocator.current + 1)
unfolding tid_step
step-IsTids new_tid s v room =
    let (tid, a, got, v', _, low) = alloc_tid_lem s v room s.allocator.recycled refl in
    (record { allocator = a; live = tid ∷ s.live }, rw got refl, v', low)
step-IsTids (drop_tid tid) s v room = elim (Bool-cases (holds tid s.live)) [
  | inr gone ↦ (s, rw gone refl, v, omega arith)
  | inl there ↦
      let (done, v') = dealloc_tid_lem s tid v there in
      (_, rw there (rw done refl), v', omega arith)
]

-- No history of at most 2^64 - 1 operations panics, and after it every number below the highest
-- given out is alive once or recycled once.
pub tid_run-IsTids :
    (ops : List TidOp) (s : Tids)
    → IsTids s
    → s.allocator.current + length ops < usize_mod
    → (s' : Tids) × (tid_run ops s ≡ some s') × IsTids s'
unfolding tid_run
tid_run-IsTids [] s v room = (s, refl, v)
tid_run-IsTids (op ∷ ops) s v room =
    let (s', done, v', low) = step-IsTids op s v (omega arith) in
    let (s'', rest, v'') = tid_run-IsTids ops s' v' (omega (arith, low)) in (s'', rw done rest, v'')

pub new_tids-IsTids : IsTids (record { allocator = new_tids; live = [] })
new_tids-IsTids = record { split = λ t. ground arith }

-- A number that is given out is not alive.
pub alloc_tid-fresh :
    (s : Tids)
    → IsTids s
    → s.allocator.current + 1 < usize_mod
    → (tid : ℕ) × (a : TidAllocator) × (alloc_tid s.allocator ≡ some (tid, a))
      × (count tid s.live ≡ 0)
      × IsTids (record { allocator = a; live = tid ∷ s.live })
alloc_tid-fresh s v room =
    let (tid, a, got, v', fresh, _) = alloc_tid_lem s v room s.allocator.recycled refl in
    (tid, a, got, fresh, v')

-- The kernel stacks of two different numbers below 2^49 exist and are apart by a gap of 0x2000.
pub kernel_stacks_apart :
    (t u : ℕ)
    → t < 2 ^ 49
    → u < 2 ^ 49
    → t ≢ u
    → (a : VaRange) × (b : VaRange) × (get_kernel_stack_range t ≡ some a)
      × (get_kernel_stack_range u ≡ some b)
      × ((a.end + 0x2000 ≤ b.start) ⊎ (b.end + 0x2000 ≤ a.start))
unfolding get_kernel_stack_range
kernel_stacks_apart t u ht hu ne =
    (stack t, stack u, stack_lem t ht, stack_lem u hu, ground (arith, ne))
  where
    stack : ℕ → VaRange
    stack n = record {
      start = usize_mod - 0x4000 - n * 0x4000 - 0x2000;
      end = usize_mod - 0x4000 - n * 0x4000;
    }

    stack_lem : (n : ℕ) → n < 2 ^ 49 → get_kernel_stack_range n ≡ some (stack n)
    stack_lem n h =
        let low : ltb (n * 0x4000) usize_mod ≡ true = ground arith in
        rw low (
          rw (checked_sub-some (usize_mod - 0x4000) (n * 0x4000) (omega arith))
            (rw (checked_sub-some (usize_mod - 0x4000 - n * 0x4000) 0x2000 (omega arith)) refl))
