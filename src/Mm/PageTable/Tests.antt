-- ===== src/Mm/PageTable/Tests.antt =====
-- A page table with an empty root, a page mapped in it, and the theorems there.
use hecto_os.Base.{
  ℕ, ◌+◌, ◌*◌, ◌%◌, ◌^◌, ◌<◌, ◌≡◌, refl, Bool, false, Option, none, some, List, [], ◌∷◌, ◌==◌,
  if◌then◌else◌, arith, bit_or,
}
use hecto_os.Mm.Address.{floor}
use hecto_os.Mm.FrameAllocator.{System, take_frame}
use hecto_os.Mm.FrameAllocator.History.{fresh}
use hecto_os.Mm.Pte.{empty, valid, new}
use hecto_os.Mm.PageTable.{Paging, find_pte, map_one, unmap_one, remap_one, translate_va}
use hecto_os.Mm.PageTable.Boot.{
  unwrap, booted, boot, boot-IsTree, mapped, mapped-done, mapped_path, mapped-IsTree,
}
use hecto_os.Mm.PageTable.Tree.{Paths}
use hecto_os.Mm.PageTable.Map.{Updated, map_one-Updated, unmap_one-Updated, remap_one-Updated}
use hecto_os.Mm.PageTable.Total.{map_one-total}
use hecto_os.Mm.PageTable.Translate.{map_one-translate_va, unmap_one-map_one}

mapped-done' : map_one (floor 0x1_0234) 0x80610 0x12 boot ≡ some mapped
unfolding floor
mapped-done' = mapped-done

map_one-Updated_example :
    (find_pte 0x10 boot ≡ none)
    × ((path' : Paths) × Updated 0x80600 12 0x10
          (new 0x80610 (bit_or 0x12 valid))
          boot
          mapped
          path')
map_one-Updated_example =
    map_one-Updated 0x10 0x80610 0x12 mapped boot-IsTree (omega arith) mapped-done

map_one-translate_va_example :
    translate_va 0x1_0234 mapped ≡ some (some (0x80610 * 4096 + 0x1_0234 % 4096))
map_one-translate_va_example =
    map_one-translate_va 0x1_0234 0x80610 0x12 mapped boot-IsTree (omega arith) (omega arith)
      mapped-done'

unmap_one-map_one_example :
    (s'' : Paging) × (unmap_one 0x10 mapped ≡ some s'')
    × ((w : ℕ) → w < 2 ^ 27 → find_pte w s'' ≡ find_pte w boot)
unmap_one-map_one_example =
    unmap_one-map_one 0x10 0x80610 0x12 mapped boot-IsTree (omega arith) (omega arith) mapped-done

map_one-total_example : (s' : Paging) × (map_one 0x10 0x80610 0x12 boot ≡ some s')
unfolding find_pte boot booted hecto_os.Mm.Address.indexes hecto_os.Mm.Pte.is_valid
    hecto_os.Mm.FrameAllocator.alloc fresh take_frame hecto_os.Mm.Address.ppn_of_vpn
    hecto_os.Base.Word.checked_sub hecto_os.Mm.Address.floor hecto_os.Mm.Address.address_of_page
map_one-total_example = map_one-total 0x10 0x80610 0x12 boot-IsTree (omega arith) refl (omega arith)

remapped : Paging
remapped = unwrap mapped (remap_one 0x10 0x80611 0x16 mapped)

remapped-done : remap_one 0x10 0x80611 0x16 mapped ≡ some remapped
unfolding remapped remap_one mapped take_frame booted hecto_os.Mm.Address.indexes
    hecto_os.Mm.Pte.is_valid hecto_os.Mm.PageTable.ensure_table hecto_os.Mm.FrameAllocator.alloc
    hecto_os.Mm.Address.ppn_of_vpn hecto_os.Base.Word.checked_sub floor
    hecto_os.Mm.Address.address_of_page hecto_os.Mm.Pte.ppn_of new
remapped-done = refl

remap_one-Updated_example :
    Updated 0x80600 12 0x10 (new 0x80611 (bit_or 0x16 valid)) mapped remapped mapped_path
remap_one-Updated_example =
    remap_one-Updated 0x10 0x80611 0x16 remapped mapped-IsTree (omega arith) remapped-done

unmapped : Paging
unmapped = unwrap mapped (unmap_one 0x10 mapped)

unmapped-done : unmap_one 0x10 mapped ≡ some unmapped
unfolding unmapped unmap_one mapped take_frame booted hecto_os.Mm.Address.indexes
    hecto_os.Mm.Pte.is_valid hecto_os.Mm.PageTable.ensure_table hecto_os.Mm.FrameAllocator.alloc
    hecto_os.Mm.Address.ppn_of_vpn hecto_os.Base.Word.checked_sub floor
    hecto_os.Mm.Address.address_of_page hecto_os.Mm.Pte.ppn_of new
unmapped-done = refl

unmap_one-Updated_example : Updated 0x80600 12 0x10 empty mapped unmapped mapped_path
unmap_one-Updated_example =
    unmap_one-Updated 0x10 unmapped mapped-IsTree (omega arith) unmapped-done
