-- ===== src/Mm/AddressSpace/Tests.antt =====
-- Two pages at 0x10000 as a data segment, over twelve frames.
use hecto_os.Base.{
  ℕ, ◌+◌, ◌*◌, ◌-◌, ◌≤◌, ◌<◌, ◌≡◌, ◌^◌, refl, sym, subst, ◌∙◌, some-eq, Option, none, some, List,
  [], ◌∷◌, ◌==◌, if◌then◌else◌, Bool-cases, All, arith,
}
use hecto_os.Base.Int.{pos}
use hecto_os.Mm.Address.{VaRange, round_up}
use hecto_os.Mm.Pte.{Pte}
use hecto_os.Mm.PageTable.{find_pte}
use hecto_os.Mm.PageTable.Boot.{
  booted, boot, boot-IsTree, boot_path, mapped, mapped-IsTree, mapped-find,
}
use hecto_os.Mm.AddressSpace.{framed, AddressSpace, alloc_user_area, insert_framed_area, brk}
use hecto_os.Mm.AddressSpace.Ranges.{Apart, alloc_user_area-Apart}
use hecto_os.Mm.AddressSpace.Pages.{MappedRun, insert_framed_area-MappedRun}
use hecto_os.Mm.AddressSpace.Break.{brk_regrow}

abbrev keys : List VaRange
keys =
    record { start = 0x1_0000; end = 0x1_2000 } ∷ record { start = 0x1_8000; end = 0x1_9000 } ∷ []

alloc_user_area-Apart_example :
    (end : ℕ) × (alloc_user_area 0x2000 0x1_5000 keys ≡ some end)
    × (0x1_5000 + 4096 + 0x2000 ≤ end)
    × All (Apart 0x2000 end) keys
alloc_user_area-Apart_example =
    alloc_user_area-Apart 0x2000 0x1_5000 keys (omega arith) (omega arith)
      (omega arith, omega arith, omega arith, (omega arith, omega arith, omega arith, tt))

abbrev segment : VaRange
segment = record { start = 0x1_0000; end = 0x1_2000 }

start_space : AddressSpace
start_space = record {
  paging = boot;
  areas = [];
  data_segment_end = 0x1_2000;
  data_segment_max = 0x1_5000;
}

insert_framed_area-MappedRun_example :
    (s' : AddressSpace) × (insert_framed_area segment 0x16 start_space ≡ some s')
    × MappedRun 0x80600 12 0x16 0x10 (0x12 - 0x10) start_space.paging s'.paging
unfolding start_space boot booted hecto_os.Mm.Address.vpn_range hecto_os.Mm.Address.ceil
    hecto_os.Base.Word.checked_sub hecto_os.Base.Word.checked_add hecto_os.Mm.Address.floor
    hecto_os.Mm.FrameAllocator.alloc hecto_os.Mm.Address.ppn_of_vpn
    hecto_os.Mm.Address.address_of_page find_pte hecto_os.Mm.Address.indexes
    hecto_os.Mm.Pte.is_valid hecto_os.Mm.AddressSpace.replaced
insert_framed_area-MappedRun_example =
    insert_framed_area-MappedRun segment 0x16 0x10 0x12 start_space boot_path boot-IsTree refl refl
      (omega arith) (omega arith) (omega arith) (λ w a b. refl)

-- The page at 0x10000 as a data segment.
abbrev one_page : AddressSpace
one_page = record {
  paging = mapped;
  areas =
      (
        record { start = 0x1_0000; end = 0x1_1000 },
        record { data_frames = (0x10, 0x80610) ∷ []; map_type = framed; map_perm = 0x12 },
      )
      ∷ [];
  data_segment_end = 0x1_1000;
  data_segment_max = 0x1_4000;
}

abbrev shrunk : AddressSpace
shrunk = record one_page {
  areas =
      (
        record { start = 0x1_0000; end = 0x1_0000 },
        record { data_frames = (0x10, 0x80610) ∷ []; map_type = framed; map_perm = 0x12 },
      )
      ∷ [];
  data_segment_end = 0x1_0000;
}

brk_regrow_example : brk 0x1_0800 shrunk ≡ none
unfolding brk round_up hecto_os.Base.Word.checked_add hecto_os.Base.Word.checked_sub
    hecto_os.Mm.Address.range_cmp
brk_regrow_example =
    brk_regrow 0x1_1000 0x10 0x1_0800 one_page shrunk (pos 0x1_0000) mapped-find.0 mapped-IsTree
      refl (omega arith) (omega arith) (omega arith) (omega arith) (omega arith) (omega arith)
      mapped-find.1 refl
