-- ===== src/Process/Mmap/Tests.antt =====
-- Half a page in a space with one area and one page of a device.
use hecto_os.Base.{
  ℕ, ◌+◌, ◌*◌, ◌-◌, ◌/◌, ◌≤◌, ◌≡◌, ◌^◌, refl, inr, length, sym, ap, ◌∙◌, Option, none, some,
  some-eq, List, [], ◌∷◌, bit_or, arith,
}
use hecto_os.Mm.Address.{VaRange}
use hecto_os.Mm.Pte.{readable, writable, user}
use hecto_os.Mm.PageTable.{find_pte}
use hecto_os.Mm.PageTable.Boot.{mapped, mapped_path, mapped-IsTree, mapped-others}
use hecto_os.Mm.AddressSpace.{framed, alloc_user_area}
use hecto_os.Fs.File.{ok, Inode}
use hecto_os.Process.Mmap.{Program, prot_perm}
use hecto_os.Process.Mmap.Anonymous.{keys_of, MappedNew, sys_mmap-MappedNew}

abbrev ops : Inode ℕ
ops = record {
  seek_inode = λ from i. (ok i, i);
  read_inode = λ count i. (ok [], i);
  write_inode = λ given i. (ok 0, i);
  flush_inode = λ i. (ok tt, i);
}

abbrev program : Program ℕ
program = record {
  space = record {
    paging = mapped;
    areas =
        (
          record { start = 0x1_2000; end = 0x1_3000 },
          record { map_perm = bit_or user readable; map_type = framed; data_frames = [] },
        )
        ∷ [];
    data_segment_end = 0x1_2000;
    data_segment_max = 0x1_5000;
  };
  fd_table = none ∷ none ∷ none ∷ [];
  files = record { descriptors = []; vnodes = [] };
  memory = λ x. 0;
}

prot_perm_read_write : prot_perm 3 ≡ bit_or (bit_or user readable) writable
unfolding prot_perm
prot_perm_read_write = refl

abbrev device : VaRange
device = record { start = 0x1_0000; end = 0x1_1000 }

area_found : alloc_user_area 0x800 0x1_5000 (keys_of program.space) ≡ some 0x1_6800
unfolding alloc_user_area hecto_os.Base.Word.checked_add hecto_os.Mm.Address.round_up
    hecto_os.Base.Word.checked_sub
area_found = refl

few_used : 6 ≤ length mapped.system.allocator.free_list
unfolding mapped hecto_os.Mm.PageTable.Boot.booted hecto_os.Mm.FrameAllocator.alloc
    hecto_os.Mm.Address.ppn_of_vpn hecto_os.Base.Word.checked_sub hecto_os.Mm.Address.floor
    hecto_os.Mm.Address.address_of_page hecto_os.Mm.Address.indexes
    hecto_os.Mm.PageTable.ensure_table hecto_os.Mm.Pte.is_valid hecto_os.Mm.Pte.ppn_of
    hecto_os.Mm.Pte.new
few_used = omega arith

sys_mmap-MappedNew_example : MappedNew ops 0x80600 12 0x800 3 (2 ^ 64 - 1) 0 program
sys_mmap-MappedNew_example =
    sys_mmap-MappedNew ops 0x80600 12 0x800 3 (2 ^ 64 - 1) 0 program mapped_path (device ∷ [])
      (omega arith) (omega arith) (omega arith) (omega arith)
      (λ w low areas devices. mapped-others w (omega arith) (λ e. omega (arith, e, devices)))
      mapped-IsTree few_used
      (λ end found.
        let is : end ≡ 0x1_6800 = some-eq (sym found ∙ area_found) in
        (omega arith, (inr (omega arith), tt)))
      refl
