-- ===== src/Fs/File/Slices.antt =====
-- Pieces of a file's bytes, and lists under a map.
use hecto_os.Base.{
  ℕ, zero, suc, ◌+◌, ◌-◌, leb, if◌then◌else◌, ◌≤◌, ◌≡◌, refl, sym, ap, subst, ◌∙◌, some, some-eq,
  List, [], ◌∷◌, ◌++◌, length, get_elem?, set, take, drop, map, arith,
}

take-append : (k m : ℕ) (b : List ℕ) → k ≤ length b → take k b ++ take m (drop k b) ≡ take (k + m) b
take-append zero m b h = ap (λ i. take i b) (omega arith)
take-append (suc k) m [] h = absurd (omega arith)
take-append (suc k) m (x ∷ b) h =
    let more : suc k + m ≡ suc (k + m) = omega arith in
    ap (λ t. x ∷ t) (take-append k m b (omega arith)) ∙ ap (λ i. take i (x ∷ b)) (sym more)

pub drop-drop : (k p : ℕ) (b : List ℕ) → drop k (drop p b) ≡ drop (p + k) b
drop-drop k zero b = ap (λ i. drop i b) (omega arith)
drop-drop zero (suc p) [] = let more : suc p + zero ≡ suc p = omega arith in rw more refl
drop-drop (suc k) (suc p) [] =
    let more : suc p + suc k ≡ suc (p + suc k) = omega arith in rw more refl
drop-drop k (suc p) (x ∷ b) =
    let more : suc p + k ≡ suc (p + k) = omega arith in rw more (drop-drop k p b)

length-drop : (p : ℕ) (b : List ℕ) → p ≤ length b → length (drop p b) + p ≡ length b
length-drop zero b h = omega arith
length-drop (suc p) [] h = absurd (omega arith)
length-drop (suc p) (x ∷ b) h = omega (arith, length-drop p b (omega arith))

length-take : (k : ℕ) (b : List ℕ) → k ≤ length b → length (take k b) ≡ k
length-take zero b h = refl
length-take (suc k) [] h = absurd (omega arith)
length-take (suc k) (x ∷ b) h = ap suc (length-take k b (omega arith))

-- Two pieces that follow one another
pub take-drop_append :
    (k m p : ℕ) (b : List ℕ)
    → p + k ≤ length b
    → take k (drop p b) ++ take m (drop (p + k) b) ≡ take (k + m) (drop p b)
take-drop_append k m p b h =
    subst (λ d. take k (drop p b) ++ take m d ≡ take (k + m) (drop p b)) (drop-drop k p b)
      (take-append k m (drop p b) (omega (arith, length-drop p b (omega arith))))

pub length-take-drop : (k p : ℕ) (b : List ℕ) → p + k ≤ length b → length (take k (drop p b)) ≡ k
length-take-drop k p b h = length-take k (drop p b) (omega (arith, length-drop p b (omega arith)))

module _ {A B : Type 0} (f : A → B) where
  pub get_elem?-map :
      (xs : List A) (i : ℕ) (x : A) → get_elem? xs i ≡ some x → get_elem? (map f xs) i ≡ some (f x)
  get_elem?-map [] i x e = absurd (cc)
  get_elem?-map (y ∷ xs) zero x e = ap (λ z. some (f z)) (some-eq e)
  get_elem?-map (y ∷ xs) (suc i) x e = get_elem?-map xs i x e

  pub map-get_elem? :
      (xs : List A) (i : ℕ) (b : B)
      → get_elem? (map f xs) i ≡ some b
      → (x : A) × (get_elem? xs i ≡ some x) × (f x ≡ b)
  map-get_elem? [] i b e = absurd (cc)
  map-get_elem? (y ∷ xs) zero b e = (y, refl, some-eq e)
  map-get_elem? (y ∷ xs) (suc i) b e = map-get_elem? xs i b e

  pub map-set :
      (xs : List A) (i : ℕ) (x y : A)
      → get_elem? xs i ≡ some x
      → f y ≡ f x
      → map f (set xs i y) ≡ map f xs
  map-set [] i x y e same = refl
  map-set (z ∷ xs) zero x y e same = ap (λ t. t ∷ map f xs) (same ∙ ap f (sym (some-eq e)))
  map-set (z ∷ xs) (suc i) x y e same = ap (λ t. f z ∷ t) (map-set xs i x y e same)

-- Bytes written over a file from a place on
unfoldable pub overwrite : ℕ → List ℕ → List ℕ → List ℕ
overwrite zero [] b = b
overwrite zero (c ∷ bytes) [] = c ∷ bytes
overwrite zero (c ∷ bytes) (x ∷ b) = c ∷ overwrite zero bytes b
overwrite (suc p) bytes [] = bytes
overwrite (suc p) bytes (x ∷ b) = x ∷ overwrite p bytes b

pub length-overwrite :
    (p : ℕ) (bytes b : List ℕ) → p ≤ length b → p + length bytes ≤ length (overwrite p bytes b)
unfolding overwrite
length-overwrite zero [] b h = omega arith
length-overwrite zero (c ∷ bytes) [] h = omega arith
length-overwrite zero (c ∷ bytes) (x ∷ b) h =
    omega (arith, length-overwrite zero bytes b (omega arith))
length-overwrite (suc p) bytes [] h = absurd (omega arith)
length-overwrite (suc p) bytes (x ∷ b) h = omega (arith, length-overwrite p bytes b (omega arith))

pub overwrite_nothing : (p : ℕ) (b : List ℕ) → overwrite p [] b ≡ b
unfolding overwrite
overwrite_nothing zero b = refl
overwrite_nothing (suc p) [] = refl
overwrite_nothing (suc p) (x ∷ b) = ap (λ t. x ∷ t) (overwrite_nothing p b)

overwrite_end : (first second : List ℕ) → overwrite (length first) second first ≡ first ++ second
unfolding overwrite
overwrite_end [] [] = refl
overwrite_end [] (c ∷ second) = refl
overwrite_end (c ∷ first) second = ap (λ t. c ∷ t) (overwrite_end first second)

-- Two writes that follow one another
pub overwrite-append :
    (p : ℕ) (first second b : List ℕ)
    → p ≤ length b
    → overwrite (p + length first) second (overwrite p first b) ≡ overwrite p (first ++ second) b
unfolding overwrite
overwrite-append zero [] second b h = refl
overwrite-append zero (c ∷ first) second [] h =
    let up : 0 + suc (length first) ≡ suc (length first) = omega arith in
    rw up (ap (λ t. c ∷ t) (overwrite_end first second))
overwrite-append zero (c ∷ first) second (x ∷ b) h =
    let up : 0 + suc (length first) ≡ suc (0 + length first) = omega arith in
    rw up (ap (λ t. c ∷ t) (overwrite-append zero first second b (omega arith)))
overwrite-append (suc p) first second [] h = absurd (omega arith)
overwrite-append (suc p) first second (x ∷ b) h =
    let up : suc p + length first ≡ suc (p + length first) = omega arith in
    rw up (ap (λ t. x ∷ t) (overwrite-append p first second b (omega arith)))

pub length-take_min :
    (n : ℕ) (b : List ℕ) → length (take n b) ≡ (if leb n (length b) then n else length b)
length-take_min zero b = ground arith
length-take_min (suc n) [] = ground arith
length-take_min (suc n) (x ∷ b) = ground (arith, length-take_min n b)

pub take-length : (n : ℕ) (b : List ℕ) → take (length (take n b)) b ≡ take n b
take-length zero b = refl
take-length (suc n) [] = refl
take-length (suc n) (x ∷ b) = ap (λ t. x ∷ t) (take-length n b)

-- What more is taken beyond the end is nothing.
pub take_above : (n m : ℕ) (b : List ℕ) → length b ≤ n → length b ≤ m → take n b ≡ take m b
take_above zero zero b h k = refl
take_above zero (suc m) [] h k = refl
take_above zero (suc m) (x ∷ b) h k = absurd (omega arith)
take_above (suc n) zero [] h k = refl
take_above (suc n) zero (x ∷ b) h k = absurd (omega arith)
take_above (suc n) (suc m) [] h k = refl
take_above (suc n) (suc m) (x ∷ b) h k =
    ap (λ t. x ∷ t) (take_above n m b (omega arith) (omega arith))

pub length-drop_lem : (p : ℕ) (b : List ℕ) → p ≤ length b → length (drop p b) ≡ length b - p
length-drop_lem p b h = omega (arith, length-drop p b h)

module _ {A B : Type 0} (f : A → B) where
  pub map-set_at : (xs : List A) (i : ℕ) (y : A) → map f (set xs i y) ≡ set (map f xs) i (f y)
  map-set_at [] i y = refl
  map-set_at (x ∷ xs) zero y = refl
  map-set_at (x ∷ xs) (suc i) y = ap (λ t. f x ∷ t) (map-set_at xs i y)
