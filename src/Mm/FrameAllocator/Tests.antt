-- ===== src/Mm/FrameAllocator/Tests.antt =====
-- Small allocators, and a history of one.
use hecto_os.Base.{
  ℕ, ◌+◌, ◌*◌, ◌-◌, ◌/◌, ◌^◌, ◌<◌, ◌≤◌, ◌≡◌, refl, sym, subst, ◌∙◌, some-eq, none, some, [], ◌∷◌,
  arith, count, length,
}
use hecto_os.Base.Word.{usize_mod}
use hecto_os.Mm.Address.{kernel_map_offset}
use hecto_os.Mm.FrameAllocator.{
  PhyPageAllocator, System, frame_alloc, clone_tracker, drop_tracker, alloc, step, run, init,
}
use hecto_os.Mm.FrameAllocator.Soundness.{IsSound, Managed}
use hecto_os.Mm.FrameAllocator.History.{
  fresh, fresh-IsSound, init-IsSound, step-IsSound, run-IsSound, alloc_exclusive, alloc_exhausted,
}

-- A kernel that ends 2 MiB into memory, and six whole pages after it.
abbrev ekernel : ℕ
ekernel = kernel_map_offset + 0x8060_0010

abbrev memory_end : ℕ
memory_end = kernel_map_offset + 0x8060_7000

init-IsSound_example :
    (a : PhyPageAllocator) × (init ekernel memory_end ≡ some a)
    × IsSound
        ((ekernel + 4095) / 4096 - 0xF_FFFF_FC00_0000)
        (memory_end / 4096 - (ekernel + 4095) / 4096)
        (record { allocator = a; held = [] })
init-IsSound_example =
    init-IsSound ekernel memory_end (omega arith) (omega arith) (omega arith) (omega arith)

abbrev two_free : System
two_free = fresh 0x80600 2

two_free-IsSound : IsSound 0x80600 2 two_free
two_free-IsSound = fresh-IsSound 0x80600 2 (omega arith)

few : length two_free.held + 8 < usize_mod
unfolding fresh
few = omega arith

step-IsSound_example : (s : System) × (step frame_alloc two_free ≡ some s) × IsSound 0x80600 2 s
step-IsSound_example = step-IsSound frame_alloc two_free-IsSound (omega (arith, few))

run-IsSound_example :
    (s : System) × (run
        (frame_alloc
          ∷ clone_tracker 0x80600
          ∷ drop_tracker 0x80600
          ∷ drop_tracker 0x80600
          ∷ frame_alloc
          ∷ frame_alloc
          ∷ frame_alloc
          ∷ [])
        two_free
      ≡ some s)
    × IsSound 0x80600 2 s
run-IsSound_example =
    run-IsSound
      (frame_alloc
        ∷ clone_tracker 0x80600
        ∷ drop_tracker 0x80600
        ∷ drop_tracker 0x80600
        ∷ frame_alloc
        ∷ frame_alloc
        ∷ frame_alloc
        ∷ [])
      two_free-IsSound (omega (arith, few))

abbrev one_taken : PhyPageAllocator
one_taken = record {
  free_list = 0xFFFF_FFC0_8060_1000 ∷ [];
  page_usage = 1 ∷ 0 ∷ [];
  start_ppn = 0x80600;
}

alloc_exclusive_example : Managed 0x80600 2 0x80600 × (count 0x80600 two_free.held ≡ 0)
unfolding alloc fresh hecto_os.Mm.Address.ppn_of_vpn hecto_os.Base.Word.checked_sub
    hecto_os.Mm.Address.floor hecto_os.Mm.Address.address_of_page
alloc_exclusive_example = alloc_exclusive 0x80600 one_taken two_free-IsSound refl

abbrev all_taken : System
all_taken = record {
  allocator = record { free_list = []; page_usage = 1 ∷ 1 ∷ []; start_ppn = 0x80600 };
  held = 0x80601 ∷ 0x80600 ∷ [];
}

all_taken-IsSound : IsSound 0x80600 2 all_taken
unfolding run fresh hecto_os.Mm.Address.ppn_of_vpn hecto_os.Base.Word.checked_sub
    hecto_os.Mm.Address.floor hecto_os.Mm.Address.address_of_page
all_taken-IsSound =
    let (s, done, v) =
      run-IsSound (frame_alloc ∷ frame_alloc ∷ []) two_free-IsSound (omega (arith, few)) in
    let taken : run (frame_alloc ∷ frame_alloc ∷ []) two_free ≡ some all_taken = refl in
    subst (IsSound 0x80600 2) (some-eq (sym done ∙ taken)) v

alloc_exhausted_example : 0 < count 0x80601 all_taken.held
unfolding alloc
alloc_exhausted_example =
    alloc_exhausted all_taken.allocator 0x80601 all_taken-IsSound refl (omega arith, omega arith)
