-- ===== src/Mm/PageTable.antt =====
-- kernel/arch/riscv/page_table.rs and kernel/src/mm/page_table.rs: the three-level page table. The
-- frames that hold tables are a function from frame and index to entry, which stands for the kernel's
-- linear view of them. `none` is a panic: an `unwrap` or an assertion that fails.
pub mod Tree
pub mod Walk
pub mod Map
pub mod Translate
pub mod Total
pub mod Boot
mod Tests
use hecto_os.Base.{
  ℕ, ◌+◌, Bool, not, ◌&&◌, Option, none, some, List, [], ◌∷◌, ◌++◌, ◌==◌, if◌then◌else◌, ◌>>=◌,
  ◌>>◌, bit_or,
}
use hecto_os.Base.Word.{checked_add}
use hecto_os.Mm.Address.{PhysAddr, VirtAddr, Ppn, Vpn, floor, page_offset, address_of_page, indexes}
use hecto_os.Mm.FrameAllocator.{System, take_frame}
use hecto_os.Mm.Pte.{Pte, empty, valid, new, ppn_of, is_valid}

abbrev pub Tables : Type 0
Tables = Ppn → ℕ → Pte

unfoldable pub write : Tables → Ppn → ℕ → Pte → Tables
write tables t i pte = λ u j. if u == t && j == i then pte else tables u j

-- `get_array::<PTEImpl>().fill(PTEImpl::EMPTY)`
unfoldable pub fill_empty : Tables → Ppn → Tables
fill_empty tables t = λ u j. if u == t then empty else tables u j

pub record PageTableImpl : Type 0 where
  pub root : Ppn
  pub frames : List Ppn

pub record Paging : Type 0 where
  pub page_table : PageTableImpl
  pub tables : Tables
  pub system : System

-- A `&mut PTEImpl`: where the entry stands, and what it holds.
pub record PteRef : Type 0 where
  pub table : Ppn
  pub index : ℕ
  pub pte : Pte

-- The body of the loop of find_pte_create: a missing table is made.
unfoldable pub ensure_table : Ppn → ℕ → Paging → Option Paging
unfolding write fill_empty
ensure_table t i s = if is_valid (s.tables t i) then some s else (do
  (frame, system) ← take_frame s.system
  some (record {
    page_table = record s.page_table { frames = s.page_table.frames ++ frame ∷ [] };
    tables = write (fill_empty s.tables frame) t i (new frame valid);
    system = system;
  }))

unfoldable pub create_loop : List ℕ → Ppn → ℕ → Paging → Option (PteRef × Paging)
create_loop [] t i s = some (record { table = t; index = i; pte = s.tables t i }, s)
create_loop (idx ∷ idxs) t i s = do
  s' ← ensure_table t i s
  create_loop idxs (ppn_of (s'.tables t i)) idx s'

unfoldable pub find_pte_create_at : List ℕ → Paging → Option (PteRef × Paging)
unfolding create_loop
find_pte_create_at [] s = none
find_pte_create_at (idx ∷ idxs) s = create_loop idxs s.page_table.root idx s

unfoldable pub find_pte_create : Vpn → Paging → Option (PteRef × Paging)
unfolding find_pte_create_at
find_pte_create vpn s = find_pte_create_at (indexes vpn) s

unfoldable pub find_loop : List ℕ → Ppn → ℕ → Tables → Option PteRef
find_loop [] t i tables =
    if is_valid (tables t i) then some (record { table = t; index = i; pte = tables t i }) else none
find_loop (idx ∷ idxs) t i tables =
    if is_valid (tables t i) then find_loop idxs (ppn_of (tables t i)) idx tables else none

unfoldable pub find_pte_at : List ℕ → Paging → Option PteRef
unfolding find_loop
find_pte_at [] s = none
find_pte_at (idx ∷ idxs) s = find_loop idxs s.page_table.root idx s.tables

unfoldable pub find_pte : Vpn → Paging → Option PteRef
unfolding find_pte_at
find_pte vpn s = find_pte_at (indexes vpn) s

-- `*pte = value`
unfoldable pub assign : PteRef → Pte → Paging → Paging
unfolding write
assign r value s = record s { tables = write s.tables r.table r.index value }

unfoldable pub translate_va : VirtAddr → Paging → Option (Option PhysAddr)
translate_va va s = elim (find_pte (floor va) s) [
  | none ↦ some none
  | some r ↦ do pa ← checked_add (address_of_page (ppn_of r.pte)) (page_offset va); some (some pa)
]

unfoldable pub remap_one : Vpn → Ppn → Pte → Paging → Option Paging
unfolding find_pte assign
remap_one vpn ppn flags s = do
  r ← find_pte vpn s
  is_valid r.pte
  some (assign r (new ppn (bit_or flags valid)) s)

unfoldable pub modify_flags : Vpn → Pte → Paging → Option Paging
unfolding find_pte assign
modify_flags vpn flags s = do
  r ← find_pte vpn s
  is_valid r.pte
  some (assign r (new (ppn_of r.pte) (bit_or flags valid)) s)

unfoldable pub map_one : Vpn → Ppn → Pte → Paging → Option Paging
unfolding find_pte_create assign
map_one vpn ppn flags s = do
  (r, s') ← find_pte_create vpn s
  not (is_valid r.pte)
  some (assign r (new ppn (bit_or flags valid)) s')

unfoldable pub unmap_one : Vpn → Paging → Option Paging
unfolding find_pte assign
unmap_one vpn s = do r ← find_pte vpn s; is_valid r.pte; some (assign r empty s)
