-- ===== src/Drivers/Block/Bytes.antt =====
-- What copying between slices does to each byte.
use hecto_os.Base.{
  ℕ, zero, suc, ◌+◌, ◌-◌, ◌≤◌, ◌≡◌, refl, ap, ◌&&◌, List, [], ◌∷◌, ltb, leb, if◌then◌else◌, length,
  get_or, drop, arith,
}
use native.Mathlib.Nat.{suc-add}
use hecto_os.Drivers.Block.{copy_into, copy_at}

pub get_or-copy_into :
    (dst src : List ℕ) (k : ℕ)
    → get_or (copy_into dst src) k 0
      ≡ (if ltb k (length dst) && ltb k (length src) then get_or src k 0 else get_or dst k 0)
get_or-copy_into [] src k = ground arith
get_or-copy_into (x ∷ dst) [] k = ground arith
get_or-copy_into (x ∷ dst) (y ∷ src) zero = ground arith
get_or-copy_into (x ∷ dst) (y ∷ src) (suc k) = ground (arith, get_or-copy_into dst src k)

pub get_or-copy_at :
    (off : ℕ) (dst src : List ℕ) (k : ℕ)
    → off + length src ≤ length dst
    → get_or (copy_at off dst src) k 0
      ≡ (if leb off k && ltb k (off + length src) then get_or src (k - off) 0 else get_or dst k 0)
get_or-copy_at zero dst src k fits =
    let same : k - 0 ≡ k = omega arith in ground (arith, get_or-copy_into dst src k, same)
get_or-copy_at (suc off) [] src k fits = absurd (omega arith)
get_or-copy_at (suc off) (x ∷ dst) src zero fits = ground arith
get_or-copy_at (suc off) (x ∷ dst) src (suc k) fits =
    let same : suc k - suc off ≡ k - off = omega arith in
    ground (arith, get_or-copy_at off dst src k (omega arith), same)

pub length-copy_into : (dst src : List ℕ) → length (copy_into dst src) ≡ length dst
length-copy_into [] src = refl
length-copy_into (x ∷ dst) [] = refl
length-copy_into (x ∷ dst) (y ∷ src) = ap suc (length-copy_into dst src)

pub length-copy_at : (off : ℕ) (dst src : List ℕ) → length (copy_at off dst src) ≡ length dst
length-copy_at zero dst src = length-copy_into dst src
length-copy_at (suc off) [] src = refl
length-copy_at (suc off) (x ∷ dst) src = ap suc (length-copy_at off dst src)

pub get_or-drop : (n : ℕ) (xs : List ℕ) (k : ℕ) → get_or (drop n xs) k 0 ≡ get_or xs (n + k) 0
get_or-drop zero xs k = ap (λ (i : ℕ). get_or xs i 0) (omega arith)
get_or-drop (suc n) [] k = refl
get_or-drop (suc n) (x ∷ xs) k = rw suc-add (get_or-drop n xs k)

pub length-drop_bytes : (n : ℕ) (xs : List ℕ) → length (drop n xs) ≡ length xs - n
length-drop_bytes zero xs = omega arith
length-drop_bytes (suc n) [] = omega arith
length-drop_bytes (suc n) (x ∷ xs) = omega (arith, length-drop_bytes n xs)

copy_into-empty : (dst src : List ℕ) → length src ≡ 0 → copy_into dst src ≡ dst
copy_into-empty [] src h = refl
copy_into-empty (x ∷ dst) [] h = refl
copy_into-empty (x ∷ dst) (y ∷ src) h = absurd (omega (arith, h))

pub copy_at-empty : (off : ℕ) (dst src : List ℕ) → length src ≡ 0 → copy_at off dst src ≡ dst
copy_at-empty zero dst src h = copy_into-empty dst src h
copy_at-empty (suc off) [] src h = refl
copy_at-empty (suc off) (x ∷ dst) src h = ap (λ (d : List ℕ). x ∷ d) (copy_at-empty off dst src h)
