-- ===== src/Process/Tid/Tests.antt =====
-- A first history: three numbers, one dropped, and its number given out again.
use hecto_os.Base.{ℕ, ◌+◌, ◌≤◌, ◌<◌, ◌≡◌, ◌⊎◌, refl, some, List, [], ◌∷◌, count, arith}
use hecto_os.Mm.Address.{VaRange}
use hecto_os.Process.Tid.{
  TidAllocator, new_tids, alloc_tid, Tids, TidOp, new_tid, drop_tid, tid_run,
  get_kernel_stack_range,
}
use hecto_os.Process.Tid.History.{
  IsTids, tid_run-IsTids, new_tids-IsTids, alloc_tid-fresh, kernel_stacks_apart,
}

abbrev no_tids : Tids
no_tids = record { allocator = new_tids; live = [] }

abbrev ops : List TidOp
ops = new_tid ∷ new_tid ∷ new_tid ∷ drop_tid 1 ∷ new_tid ∷ []

tid_run-IsTids_example : (s' : Tids) × (tid_run ops no_tids ≡ some s') × IsTids s'
tid_run-IsTids_example = tid_run-IsTids ops no_tids new_tids-IsTids (omega arith)

tid_run_reuses :
    tid_run ops no_tids
    ≡ some (record { allocator = record { current = 3; recycled = [] }; live = 1 ∷ 2 ∷ 0 ∷ [] })
unfolding tid_run hecto_os.Base.Word.checked_add
tid_run_reuses = refl

alloc_tid-fresh_example :
    (tid : ℕ) × (a : TidAllocator) × (alloc_tid new_tids ≡ some (tid, a))
    × (count tid [] ≡ 0)
    × IsTids (record { allocator = a; live = tid ∷ [] })
alloc_tid-fresh_example = alloc_tid-fresh no_tids new_tids-IsTids (omega arith)

kernel_stacks_apart_example :
    (a : VaRange) × (b : VaRange) × (get_kernel_stack_range 3 ≡ some a)
    × (get_kernel_stack_range 4 ≡ some b)
    × ((a.end + 0x2000 ≤ b.start) ⊎ (b.end + 0x2000 ≤ a.start))
kernel_stacks_apart_example =
    kernel_stacks_apart 3 4 (omega arith) (omega arith) (λ e. absurd (omega (arith, e)))
