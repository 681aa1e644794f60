-- ===== src/Mm/Loader/Pages.antt =====
-- What a loaded segment holds.
use hecto_os.Base.{
  ℕ, zero, suc, ◌+◌, ◌*◌, ◌-◌, ◌≤◌, ◌<◌, ◌≡◌, ◌^◌, refl, ap, ◌∙◌, inl, inr, true, false, ◌&&◌,
  Bool-cases, Option, none, some, List, [], ◌∷◌, ◌==◌, ==_iff, ltb, leb, if◌then◌else◌, length,
  take, drop, get_or, bit_or, arith,
}
use hecto_os.Mm.Address.{Ppn, Vpn, address_of_page}
use hecto_os.Mm.Address.Pages.{page_offset_lem}
use hecto_os.Mm.Pte.{Pte, valid, new, is_valid}
use hecto_os.Mm.PageTable.{Paging, PteRef, find_pte}
use hecto_os.Mm.Loader.{Contents, data_end, bss_end, fill_page}

-- What `read_exact` of a file does, as far as it is relied on: where enough of the file is left, it takes
-- the next bytes.
pub record IsReader {F : Type 0} (read_exact : ℕ → F → Option (List ℕ × F)) (left : F → List ℕ)
    : Type 0 where
  pub enough :
      (n : ℕ) (f : F)
      → n ≤ length (left f)
      → (f' : F) × (read_exact n f ≡ some (take n (left f), f')) × (left f' ≡ drop n (left f))

-- The byte of a segment that starts at `origin`, at the address `x`
abbrev pub byte_at : (origin bss_start : ℕ) → List ℕ → ℕ → ℕ
byte_at origin bss_start bytes x = if ltb x bss_start then get_or bytes (x - origin) 0 else 0

get_or-take : (n i : ℕ) (xs : List ℕ) → i < n → get_or (take n xs) i 0 ≡ get_or xs i 0
get_or-take zero i xs lt = absurd (omega arith)
get_or-take (suc n) i [] lt = refl
get_or-take (suc n) zero (x ∷ xs) lt = refl
get_or-take (suc n) (suc i) (x ∷ xs) lt = get_or-take n i xs (omega arith)

get_or-drop : (n i : ℕ) (xs : List ℕ) → get_or (drop n xs) i 0 ≡ get_or xs (n + i) 0
get_or-drop zero i xs = ap (λ k. get_or xs k 0) (omega arith)
get_or-drop (suc n) i [] = refl
get_or-drop (suc n) i (x ∷ xs) =
    let up : suc n + i ≡ suc (n + i) = omega arith in rw up (get_or-drop n i xs)

page_address : (n : ℕ) → n < 2 ^ 52 → address_of_page n ≡ n * 4096
unfolding address_of_page
page_address n low = omega arith

pub data_end_lem :
    (bss vpn : ℕ)
    → vpn < 2 ^ 52 - 1
    → data_end bss vpn ≡ (
        if leb (vpn * 4096 + 4096) bss
        then 4096
        else (if leb bss (vpn * 4096) then 0 else bss - vpn * 4096))
unfolding data_end
data_end_lem bss vpn low =
    let next : (vpn + 1) * 4096 ≡ vpn * 4096 + 4096 = omega arith in
    rw
      (
        page_address (vpn + 1) (omega arith),
        page_address vpn (omega arith),
        page_offset_lem bss,
        next,
      )
      (ground arith)

pub bss_end_lem :
    (va_end vpn : ℕ)
    → vpn < 2 ^ 52 - 1
    → vpn * 4096 < va_end
    → bss_end va_end vpn ≡ (if leb (vpn * 4096 + 4096) va_end then 4096 else va_end - vpn * 4096)
unfolding bss_end
bss_end_lem va_end vpn low inside =
    let next : (vpn + 1) * 4096 ≡ vpn * 4096 + 4096 = omega arith in
    rw (page_address (vpn + 1) (omega arith), page_offset_lem va_end, next) (ground arith)

-- The bytes that a page of the segment is to have, from `start` on
unfoldable pub HoldsPage :
    (origin bss_start va_end : ℕ) → List ℕ → (vpn start : ℕ) → (ℕ → ℕ) → Type 0
HoldsPage origin bss_start va_end bytes vpn start page =
    (i : ℕ)
    → start ≤ i
    → i < 4096
    → vpn * 4096 + i < va_end
    → page i ≡ byte_at origin bss_start bytes (vpn * 4096 + i)

-- The frames of the pages from `vpn` on hold the bytes of the segment.
unfoldable pub HoldsPages :
    (origin bss_start va_end : ℕ) → List ℕ → (vpn start : ℕ) → List (Vpn × Ppn) → Contents → Type 0
HoldsPages origin bss_start va_end bytes vpn start [] memory = Unit
HoldsPages origin bss_start va_end bytes vpn start (page ∷ pages) memory =
    (page.0 ≡ vpn)
    × HoldsPage origin bss_start va_end bytes vpn start (memory page.1)
    × HoldsPages origin bss_start va_end bytes (vpn + 1) 0 pages memory

in_data :
    (bss a start i end : ℕ)
    → end ≡ (if leb (a + 4096) bss then 4096 else (if leb bss a then 0 else bss - a))
    → start ≤ i
    → i < 4096
    → a + i < bss
    → ((leb start i && ltb i end) ≡ true) × (i - start < end - start)
in_data bss a start i end is b c inside = (ground arith, ground arith)

in_zeros :
    (bss va_end a start i end end2 : ℕ)
    → end ≡ (if leb (a + 4096) bss then 4096 else (if leb bss a then 0 else bss - a))
    → end2 ≡ (if leb (a + 4096) va_end then 4096 else va_end - a)
    → i < 4096
    → bss ≤ a + i
    → a + i < va_end
    → ((leb start i && ltb i end) ≡ false) × ((leb end i && ltb i end2) ≡ true)
in_zeros bss va_end a start i end end2 is is2 c above inside = (ground arith, ground arith)

-- One page that is filled
pub fill_page-HoldsPage :
    (origin bss va_end : ℕ) (bytes left : List ℕ) (vpn start frame : ℕ) (memory : Contents)
    → vpn < 2 ^ 52 - 1
    → vpn * 4096 < va_end
    → origin ≤ vpn * 4096 + start
    → (vpn * 4096 + start ≤ bss → left ≡ drop (vpn * 4096 + start - origin) bytes)
    → HoldsPage origin bss va_end bytes vpn start (
        fill_page frame start
          (take (data_end bss vpn - start) left)
          (data_end bss vpn)
          (bss_end va_end vpn)
          memory
          frame)
unfolding HoldsPage fill_page
fill_page-HoldsPage origin bss va_end bytes left vpn start frame memory low inside from rest i a b
      c =
    let e1 = data_end_lem bss vpn low in
    let e2 = bss_end_lem va_end vpn low inside in
    let this : (frame == frame) ≡ true = (==_iff frame frame).1 refl in
    elim (Bool-cases (ltb (vpn * 4096 + i) bss)) [
      | inl before ↦
          let lt : vpn * 4096 + i < bss = ground (arith, before) in
          let (test, index) = in_data bss (vpn * 4096) start i (data_end bss vpn) e1 a b lt in
          rw (this, before, test)
            (get_or-take (data_end bss vpn - start) (i - start) left index
              ∙ (ap (λ l. get_or l (i - start) 0) (rest (omega arith))
                  ∙ (get_or-drop (vpn * 4096 + start - origin) (i - start) bytes
                      ∙ ap (λ k. get_or bytes k 0) (omega arith))))
      | inr after ↦
          let ge : bss ≤ vpn * 4096 + i = ground (arith, after) in
          let (no_byte, zero_here) =
            in_zeros bss va_end (vpn * 4096) start i (data_end bss vpn) (bss_end va_end vpn) e1 e2 b
              ge c in
          rw (this, after, no_byte, zero_here) refl
    ]

-- The pages from `vpn` on are mapped to their frames with the permissions.
unfoldable pub MapsPages : Pte → ℕ → List (Vpn × Ppn) → Paging → Type 0
MapsPages perm vpn [] s = Unit
MapsPages perm vpn (page ∷ pages) s =
    ((r : PteRef) × (r.pte ≡ new page.1 (bit_or perm valid))
      × (find_pte vpn s ≡ (if is_valid r.pte then some r else none)))
    × MapsPages perm (vpn + 1) pages s
