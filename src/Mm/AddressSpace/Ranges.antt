-- ===== src/Mm/AddressSpace/Ranges.antt =====
-- Where alloc_user_area finds room.
use hecto_os.Base.{
  ℕ, ◌+◌, ◌≤◌, ◌<◌, ◌≡◌, ◌⊎◌, ◌^◌, refl, inl, inr, some, List, [], ◌∷◌, ◌-◌, map, leb, Bool-cases,
  All, arith,
}
use Prim.Native.Nat.{max}
use hecto_os.Base.Word.{checked_add-some}
use hecto_os.Mm.Address.{VaRange, range_cmp}
use hecto_os.Mm.Address.Pages.{round_up_least}
use hecto_os.Mm.AddressSpace.{MapArea, replaced, search_gap, alloc_user_area}

-- Areas in the order of their addresses, all below 2^62.
abbrev pub IsSorted : ℕ → List VaRange → Type 0
IsSorted from [] = Unit
IsSorted from (r ∷ rest) =
    (from ≤ r.start) × (r.start ≤ r.end) × (r.end < 2 ^ 62) × IsSorted r.end rest

-- A page of room on either side of the `size` bytes below `va_end`.
abbrev pub Apart : ℕ → ℕ → VaRange → Type 0
Apart size va_end r = (va_end + 4096 ≤ r.start) ⊎ (r.end + 4096 + size ≤ va_end)

far_below :
    (size va_end from : ℕ) (keys : List VaRange)
    → va_end + 4096 ≤ from
    → IsSorted from keys
    → All (Apart size va_end) keys
far_below size va_end from [] h sorted = tt
far_below size va_end from (r ∷ rest) h (low, proper, _, sorted) =
    (inl (omega arith), far_below size va_end r.end rest (omega arith) sorted)

search_gap-Apart :
    (size va_end from : ℕ) (keys : List VaRange)
    → size < 2 ^ 62
    → va_end < 2 ^ 62 + 2 ^ 62 + 8192
    → IsSorted from keys
    → (end : ℕ) × (search_gap size va_end keys ≡ some end)
      × (va_end ≤ end)
      × All (Apart size end) keys
unfolding search_gap
search_gap-Apart size va_end from [] small low sorted = (va_end, refl, omega arith, tt)
search_gap-Apart size va_end from (r ∷ rest) small low (below, proper, high, sorted) =
    let gap_end = checked_add-some va_end 4096 (omega arith) in
    elim (Bool-cases (leb (va_end + 4096) r.start)) [
      | inl fits ↦ (
        va_end,
        ground (arith, gap_end, fits),
        omega arith,
        (
          inl (ground (arith, fits)),
          far_below size va_end r.end rest (ground (arith, fits)) sorted,
        ),
      )
      | inr crowded ↦
          let (up, rounded, over, near, _) = round_up_least 12 r.end (omega arith) (omega arith) in
          let gap = checked_add-some up 4096 (omega arith) in
          let next = checked_add-some (up + 4096) size (omega arith) in
          let (end, found, above, all) =
            search_gap-Apart size (max va_end (up + 4096 + size)) r.end rest small (omega arith)
              sorted in
          (
            end,
            ground (arith, gap_end, crowded, rounded, gap, next, found),
            omega arith,
            (inr (omega arith), all),
          )
    ]

-- Over areas in order below 2^62, alloc_user_area finds the end of an area of `size` bytes that lies
-- above the data segment and has a page of room to every area.
pub alloc_user_area-Apart :
    (size data_segment_max : ℕ) (keys : List VaRange)
    → size < 2 ^ 62
    → data_segment_max < 2 ^ 62
    → IsSorted 0 keys
    → (end : ℕ) × (alloc_user_area size data_segment_max keys ≡ some end)
      × (data_segment_max + 4096 + size ≤ end)
      × All (Apart size end) keys
unfolding alloc_user_area
alloc_user_area-Apart size data_segment_max keys small low sorted =
    let first = checked_add-some data_segment_max 4096 (omega arith) in
    let next = checked_add-some (data_segment_max + 4096) size (omega arith) in
    let (end, found, above, all) =
      search_gap-Apart size (data_segment_max + 4096 + size) 0 keys small (omega arith) sorted in
    (end, rw (first, next, found) refl, above, all)

-- A range with a page of room to every area stands for none of them.
pub Apart-replaced :
    (size va_end from : ℕ) (areas : List (VaRange × MapArea))
    → size ≤ va_end
    → IsSorted from (map (λ (entry : VaRange × MapArea). entry.0) areas)
    → All (Apart size va_end) (map (λ (entry : VaRange × MapArea). entry.0) areas)
    → replaced (record { start = va_end - size; end = va_end }) areas ≡ []
unfolding replaced range_cmp
Apart-replaced size va_end from [] fits sorted apart = refl
Apart-replaced size va_end from (entry ∷ rest) fits (_, proper, _, sorted) (room, apart) =
    let after = Apart-replaced size va_end entry.0.end rest fits sorted apart in
    ground (arith, room, proper, after)
