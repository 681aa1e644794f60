-- ===== src/Process/Tid.antt =====
-- kernel/src/process/thread.rs: thread numbers, and the kernel stack that each number has. The `Vec`
-- of recycled numbers is a list, last to first. `none` is a panic.
pub mod History
mod Tests
use hecto_os.Base.{
  ℕ, ◌+◌, ◌-◌, ◌*◌, Bool, not, Option, none, some, List, [], ◌∷◌, ltb, ◌==◌, if◌then◌else◌, ◌>>=◌,
  ◌>>◌,
}
use hecto_os.Base.Word.{checked_add, checked_sub, usize_mod}
use hecto_os.Mm.Address.{VaRange}
use hecto_os.Mm.FrameAllocator.{holds, forget}

pub record TidAllocator : Type 0 where
  pub current : ℕ
  pub recycled : List ℕ

abbrev pub new_tids : TidAllocator
new_tids = record { current = 0; recycled = [] }

alloc_tid_from : TidAllocator → List ℕ → Option (ℕ × TidAllocator)
alloc_tid_from a (tid ∷ rest) = some (tid, record a { recycled = rest })
alloc_tid_from a [] = do
  current ← checked_add a.current 1
  some (current - 1, record a { current = current })

unfoldable pub alloc_tid : TidAllocator → Option (ℕ × TidAllocator)
unfolding alloc_tid_from
alloc_tid a = alloc_tid_from a a.recycled

unfoldable pub dealloc_tid : TidAllocator → ℕ → Option TidAllocator
unfolding holds
dealloc_tid a tid = do
  ltb tid a.current
  not (holds tid a.recycled)
  some (record a { recycled = tid ∷ a.recycled })

-- The allocator and the `Tid`s that are alive.
pub record Tids : Type 0 where
  pub allocator : TidAllocator
  pub live : List ℕ

pub data TidOp : Type 0 where
  new_tid : TidOp
  drop_tid : ℕ → TidOp

-- A `Tid` that is not alive cannot be dropped.
unfoldable pub tid_step : TidOp → Tids → Option Tids
unfolding alloc_tid dealloc_tid holds forget
tid_step new_tid s = do
  (tid, a) ← alloc_tid s.allocator
  some (record { allocator = a; live = tid ∷ s.live })
tid_step (drop_tid tid) s =
    if holds tid s.live
    then (do
      a ← dealloc_tid s.allocator tid
      some (record { allocator = a; live = forget tid s.live }))
    else some s

unfoldable pub tid_run : List TidOp → Tids → Option Tids
unfolding tid_step
tid_run [] s = some s
tid_run (op ∷ ops) s = do s' ← tid_step op s; tid_run ops s'

abbrev pub kernel_stack_align_size : ℕ
kernel_stack_align_size = 0x4000

abbrev pub kernel_stack_size : ℕ
kernel_stack_size = 0x2000

-- the top of the stack of number 0
abbrev pub kernel_stack_top : ℕ
kernel_stack_top = usize_mod - kernel_stack_align_size

unfoldable pub get_kernel_stack_range : ℕ → Option VaRange
get_kernel_stack_range tid = do
  ltb (tid * kernel_stack_align_size) usize_mod
  top ← checked_sub kernel_stack_top (tid * kernel_stack_align_size)
  start ← checked_sub top kernel_stack_size
  some (record { start = start; end = top })
