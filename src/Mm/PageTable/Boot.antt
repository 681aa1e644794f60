-- ===== src/Mm/PageTable/Boot.antt =====
-- A page table with an empty root, over twelve frames.
use hecto_os.Base.{
  ℕ, ◌+◌, ◌*◌, ◌^◌, ◌<◌, ◌≡◌, ◌≢◌, refl, Option, none, some, List, [], ◌∷◌, ◌==◌, if◌then◌else◌,
  arith, bit_or,
}
use mathlib.Core.Bool.{false≢true}
use hecto_os.Mm.FrameAllocator.{System, take_frame}
use hecto_os.Mm.FrameAllocator.Soundness.{IsSound}
use hecto_os.Mm.FrameAllocator.History.{fresh, fresh-IsSound, take_frame-fresh}
use hecto_os.Mm.Pte.{new, valid, is_valid, from_bits_truncate}
use hecto_os.Mm.PageTable.{Paging, PteRef, find_pte, map_one}
use hecto_os.Mm.PageTable.Map.{Updated, map_one-Updated}
use hecto_os.Mm.PageTable.Tree.{Paths, IsTree}

abbrev pub unwrap {ℓ} : {A : Type ℓ} → A → Option A → A
unwrap d none = d
unwrap d (some a) = a

-- Twelve frames, of which the first is taken for the root.
unfoldable pub booted : ℕ × System
unfolding fresh take_frame
booted = unwrap (0, fresh 0x80600 12) (take_frame (fresh 0x80600 12))

booted-taken : take_frame (fresh 0x80600 12) ≡ some (0x80600, booted.1)
unfolding booted hecto_os.Mm.FrameAllocator.alloc hecto_os.Mm.Address.floor
    hecto_os.Mm.Address.address_of_page hecto_os.Mm.Address.ppn_of_vpn
    hecto_os.Base.Word.checked_sub
booted-taken = refl

booted-IsSound : IsSound 0x80600 12 booted.1
booted-IsSound =
    (take_frame-fresh (fresh 0x80600 12) 0x80600 booted.1 (fresh-IsSound 0x80600 12 (omega arith))
      booted-taken).0

unfoldable pub boot : Paging
boot = record {
  page_table = record { root = 0x80600; frames = [] };
  tables = λ t i. 0;
  system = booted.1;
}

pub boot_path : Paths
boot_path = λ t. if t == 0x80600 then some [] else none

pub boot-IsTree : IsTree 0x80600 12 boot boot_path
unfolding boot boot_path booted hecto_os.Mm.Pte.is_valid hecto_os.Mm.FrameAllocator.alloc
    hecto_os.Mm.Address.ppn_of_vpn hecto_os.Base.Word.checked_sub hecto_os.Mm.Address.floor
    hecto_os.Mm.Address.address_of_page
boot-IsTree = record {
  sound = booted-IsSound;
  root = refl;
  child = λ t i p e short there. absurd (false≢true there);
  held = λ t p e. ground arith;
}

-- The page at 0x10000 on frame 0x80610, readable by the user.
unfoldable pub mapped : Paging
unfolding boot map_one
mapped = unwrap boot (map_one 0x10 0x80610 0x12 boot)

pub mapped-done : map_one 0x10 0x80610 0x12 boot ≡ some mapped
unfolding mapped booted hecto_os.Mm.Address.indexes hecto_os.Mm.PageTable.ensure_table
    hecto_os.Mm.Pte.is_valid hecto_os.Mm.FrameAllocator.alloc hecto_os.Mm.Address.ppn_of_vpn
    hecto_os.Base.Word.checked_sub hecto_os.Mm.Address.floor hecto_os.Mm.Address.address_of_page
    hecto_os.Mm.Pte.ppn_of new
mapped-done = refl

mapped-Updated :
    (find_pte 0x10 boot ≡ none)
    × ((path : Paths) × Updated 0x80600 12 0x10 (new 0x80610 (bit_or 0x12 valid)) boot mapped path)
mapped-Updated = map_one-Updated 0x10 0x80610 0x12 mapped boot-IsTree (omega arith) mapped-done

pub mapped_path : Paths
mapped_path = mapped-Updated.1.0

pub mapped-IsTree : IsTree 0x80600 12 mapped mapped_path
unfolding mapped_path
mapped-IsTree = mapped-Updated.1.1.tree

pub mapped-find : (r : PteRef) × (find_pte 0x10 mapped ≡ some r)
unfolding is_valid new from_bits_truncate
mapped-find = (mapped-Updated.1.1.hit.0, mapped-Updated.1.1.hit.2)

-- No other page is mapped.
pub mapped-others : (w : ℕ) → w < 2 ^ 27 → w ≢ 0x10 → find_pte w mapped ≡ none
unfolding boot find_pte hecto_os.Mm.Address.indexes is_valid
mapped-others w low other = mapped-Updated.1.1.others w low other
