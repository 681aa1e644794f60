-- ===== src/Mm/Cow/Tests.antt =====
-- A page whose frame two processes share, and a fault on it.
use hecto_os.Base.{
  ℕ, ◌+◌, ◌<◌, ◌≡◌, length, arith, refl, sym, subst, some-eq, ◌∙◌, Option, none, some, List, [],
  ◌∷◌, bit_or,
}
use hecto_os.Base.Word.{usize_mod}
use hecto_os.Mm.FrameAllocator.{System, take_frame, step, clone_tracker}
use hecto_os.Mm.FrameAllocator.Soundness.{IsSound}
use hecto_os.Mm.FrameAllocator.History.{take_frame-fresh, step-IsSound}
use hecto_os.Mm.Pte.{readable, writable, user, cow}
use hecto_os.Mm.PageTable.{Paging, remap_one}
use hecto_os.Mm.PageTable.Boot.{unwrap, booted, mapped, mapped-IsTree}
use hecto_os.Mm.AddressSpace.{framed, AddressSpace}
use hecto_os.Mm.Cow.{Memory, unshare, fork, handle_pagefault}
use hecto_os.Mm.Cow.Sharing.{Adds, in_areas, fork-Adds}
use hecto_os.Mm.Cow.Isolation.{Isolated, handle_pagefault-Isolated}

unfoldable taken : ℕ × System
unfolding mapped
taken = unwrap (0, mapped.system) (take_frame mapped.system)

unfoldable cloned : System
unfolding taken
cloned = unwrap taken.1 (step (clone_tracker taken.0) taken.1)

unfoldable shared : AddressSpace
unfolding cloned
shared =
    let before = record mapped { system = cloned } in
    record {
      paging =
          record (unwrap before
            (remap_one 0x10 taken.0 (bit_or (bit_or readable user) cow) before)) {
              system = cloned;
            };
      areas =
          (
            record { start = 0x10000; end = 0x11000 },
            record {
              map_perm = bit_or readable user;
              map_type = framed;
              data_frames = (0x10, taken.0) ∷ [];
            },
          )
          ∷ [];
      data_segment_end = 1;
      data_segment_max = 1;
    }

taken-done : take_frame mapped.system ≡ some taken
unfolding taken booted hecto_os.Mm.FrameAllocator.alloc hecto_os.Mm.FrameAllocator.clone
    hecto_os.Mm.FrameAllocator.dealloc hecto_os.Mm.FrameAllocator.get_ref_count
    hecto_os.Mm.FrameAllocator.step hecto_os.Mm.PageTable.map_one hecto_os.Mm.PageTable.ensure_table
    hecto_os.Mm.Pte.is_valid hecto_os.Mm.Pte.ppn_of hecto_os.Mm.Pte.new hecto_os.Mm.Address.indexes
    hecto_os.Mm.Address.ppn_of_vpn hecto_os.Mm.Address.floor hecto_os.Mm.Address.address_of_page
    hecto_os.Base.Word.checked_sub
taken-done = refl

cloned-done : step (clone_tracker taken.0) taken.1 ≡ some cloned
unfolding cloned booted hecto_os.Mm.FrameAllocator.alloc hecto_os.Mm.FrameAllocator.clone
    hecto_os.Mm.FrameAllocator.dealloc hecto_os.Mm.FrameAllocator.get_ref_count
    hecto_os.Mm.FrameAllocator.step hecto_os.Mm.PageTable.map_one hecto_os.Mm.PageTable.ensure_table
    hecto_os.Mm.Pte.is_valid hecto_os.Mm.Pte.ppn_of hecto_os.Mm.Pte.new hecto_os.Mm.Address.indexes
    hecto_os.Mm.Address.ppn_of_vpn hecto_os.Mm.Address.floor hecto_os.Mm.Address.address_of_page
    hecto_os.Base.Word.checked_sub hecto_os.Base.Word.checked_add
cloned-done = refl

abbrev words : Memory
words p i = p

taken-IsSound : IsSound 0x80600 12 taken.1
taken-IsSound = (take_frame-fresh mapped.system taken.0 taken.1 mapped-IsTree.sound taken-done).0

taken-few : length taken.1.held + 1 < usize_mod
unfolding taken booted hecto_os.Mm.FrameAllocator.alloc hecto_os.Mm.Address.ppn_of_vpn
    hecto_os.Mm.Address.floor hecto_os.Mm.Address.address_of_page hecto_os.Base.Word.checked_sub
    hecto_os.Mm.Address.indexes hecto_os.Mm.PageTable.ensure_table hecto_os.Mm.Pte.is_valid
    hecto_os.Mm.Pte.ppn_of hecto_os.Mm.Pte.new
taken-few = omega arith

cloned-IsSound : IsSound 0x80600 12 cloned
cloned-IsSound =
    let (after, done, sound) = step-IsSound (clone_tracker taken.0) taken-IsSound taken-few in
    subst (IsSound 0x80600 12) (some-eq (sym done ∙ cloned-done)) sound

shared-IsSound : IsSound 0x80600 12 shared.paging.system
unfolding shared
shared-IsSound = cloned-IsSound

unfoldable after : AddressSpace × Memory
unfolding shared
after = unwrap (shared, words) (handle_pagefault 0x10008 shared words)

fault-done : handle_pagefault 0x10008 shared words ≡ some after
unfolding after booted hecto_os.Mm.FrameAllocator.alloc hecto_os.Mm.FrameAllocator.clone
    hecto_os.Mm.FrameAllocator.dealloc hecto_os.Mm.FrameAllocator.get_ref_count
    hecto_os.Mm.FrameAllocator.step hecto_os.Mm.PageTable.map_one hecto_os.Mm.PageTable.ensure_table
    hecto_os.Mm.Pte.is_valid hecto_os.Mm.Pte.ppn_of hecto_os.Mm.Pte.new hecto_os.Mm.Address.indexes
    hecto_os.Mm.Address.ppn_of_vpn hecto_os.Mm.Address.floor hecto_os.Mm.Address.address_of_page
    hecto_os.Base.Word.checked_sub handle_pagefault unshare hecto_os.Mm.Cow.get_area
    hecto_os.Mm.Cow.frame_of hecto_os.Mm.Address.range_cmp hecto_os.Mm.PageTable.remap_one
    hecto_os.Mm.PageTable.find_pte hecto_os.Mm.Pte.contains hecto_os.Base.Word.checked_add
fault-done = refl

handle_pagefault-Isolated_example : Isolated 0x80600 12 0x10008 shared words after.0 after.1
handle_pagefault-Isolated_example =
    handle_pagefault-Isolated 0x10008 shared words after.0 after.1 shared-IsSound fault-done

-- A fork of the same process with its page writable: the page becomes shared.
unfoldable writer : AddressSpace
unfolding shared
writer = record shared {
  areas =
      (
        record { start = 0x10000; end = 0x11000 },
        record {
          map_perm = bit_or (bit_or readable writable) user;
          map_type = framed;
          data_frames = (0x10, taken.0) ∷ [];
        },
      )
      ∷ [];
}

unfoldable pair : AddressSpace × AddressSpace
unfolding writer
pair = unwrap (writer, writer) (fork 0x80600 ((0x12000, 0x1000) ∷ []) writer)

fork-pair : fork 0x80600 ((0x12000, 0x1000) ∷ []) writer ≡ some pair
unfolding pair booted fork hecto_os.Mm.Cow.new_kernel hecto_os.Mm.Cow.new_kernel_table
    hecto_os.Mm.AddressSpace.map_device hecto_os.Mm.Cow.fork_flags hecto_os.Mm.FrameAllocator.alloc
    hecto_os.Mm.FrameAllocator.clone hecto_os.Mm.FrameAllocator.dealloc
    hecto_os.Mm.FrameAllocator.get_ref_count hecto_os.Mm.FrameAllocator.step
    hecto_os.Mm.PageTable.map_one hecto_os.Mm.PageTable.ensure_table hecto_os.Mm.Pte.is_valid
    hecto_os.Mm.Pte.ppn_of hecto_os.Mm.Pte.new hecto_os.Mm.Address.indexes
    hecto_os.Mm.Address.ppn_of_vpn hecto_os.Mm.Address.floor hecto_os.Mm.Address.address_of_page
    hecto_os.Base.Word.checked_sub hecto_os.Mm.PageTable.remap_one hecto_os.Mm.PageTable.find_pte
    hecto_os.Mm.Pte.contains hecto_os.Mm.Address.vpn_range hecto_os.Mm.Address.ceil
    hecto_os.Base.Word.checked_add
fork-pair = refl

writer-IsSound : IsSound 0x80600 12 writer.paging.system
unfolding writer
writer-IsSound = shared-IsSound

fork-Adds_example :
    (pair.0.paging.system ≡ pair.1.paging.system)
    × (pair.0.areas ≡ writer.areas)
    × Adds 0x80600 12 (λ p. in_areas p writer.areas) writer.paging.system pair.1.paging.system
fork-Adds_example =
    fork-Adds 0x80600 12 0x80600 ((0x12000, 0x1000) ∷ []) writer pair.0 pair.1 writer-IsSound
      fork-pair
