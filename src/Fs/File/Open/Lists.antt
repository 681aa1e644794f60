-- ===== src/Fs/File/Open/Lists.antt =====
-- Lists that grow at their end, and the paths of vnodes.
use hecto_os.Base.{
  ℕ, zero, suc, ◌≡◌, ◌⊎◌, inl, inr, refl, sym, ap, true, some, some-eq, List, [], ◌∷◌, ◌++◌, length,
  get_elem?, set, arith,
}
use hecto_os.Fs.Mounts.{Str}
use hecto_os.Fs.File.{Vnode}
use hecto_os.Fs.File.Open.{same_path}

pub same_path-eq : (p q : Str) → same_path p q ≡ true → p ≡ q
unfolding same_path
same_path-eq [] [] h = refl
same_path-eq [] (b ∷ q) h = absurd (cc)
same_path-eq (a ∷ p) [] h = absurd (cc)
same_path-eq (a ∷ p) (b ∷ q) h = ground (arith, same_path-eq p q)

pub same_path_self : (p : Str) → same_path p p ≡ true
unfolding same_path
same_path_self [] = refl
same_path_self (a ∷ p) = ground (arith, same_path_self p)

pub get_elem?-append :
    {A : Type 0} (xs ys : List A) (i : ℕ) (x : A)
    → get_elem? xs i ≡ some x
    → get_elem? (xs ++ ys) i ≡ some x
get_elem?-append [] ys i x e = absurd (cc)
get_elem?-append (y ∷ xs) ys zero x e = e
get_elem?-append (y ∷ xs) ys (suc i) x e = get_elem?-append xs ys i x e

pub get_elem?_last :
    {A : Type 0} (xs : List A) (x : A) → get_elem? (xs ++ x ∷ []) (length xs) ≡ some x
get_elem?_last [] x = refl
get_elem?_last (y ∷ xs) x = get_elem?_last xs x

-- An element of a list with one more at its end
pub get_elem?_snoc :
    {A : Type 0} (xs : List A) (x : A) (i : ℕ) (y : A)
    → get_elem? (xs ++ x ∷ []) i ≡ some y
    → (get_elem? xs i ≡ some y) ⊎ ((i ≡ length xs) × (x ≡ y))
get_elem?_snoc [] x zero y e = inr (refl, some-eq e)
get_elem?_snoc [] x (suc i) y e = absurd (cc)
get_elem?_snoc (z ∷ xs) x zero y e = inl e
get_elem?_snoc (z ∷ xs) x (suc i) y e = elim (get_elem?_snoc xs x i y e) [
  | inl there ↦ inl there
  | inr (is, same) ↦ inr (ap suc is, same)
]

-- The paths of the vnodes
abbrev pub paths : {I : Type 0} → List (Vnode I) → List Str
paths [] = []
paths (v ∷ vs) = v.full_path ∷ paths vs

pub paths-set :
    {I : Type 0} (vs : List (Vnode I)) (i : ℕ) (v : Vnode I) (inode : I)
    → get_elem? vs i ≡ some v
    → paths (set vs i (record v { inode = inode })) ≡ paths vs
paths-set [] i v inode e = refl
paths-set (w ∷ vs) zero v inode e = ap (λ (u : Vnode _). u.full_path ∷ paths vs) (sym (some-eq e))
paths-set (w ∷ vs) (suc i) v inode e = ap (λ t. w.full_path ∷ t) (paths-set vs i v inode e)

pub paths-append : {I : Type 0} (vs ws : List (Vnode I)) → paths (vs ++ ws) ≡ paths vs ++ paths ws
paths-append [] ws = refl
paths-append (v ∷ vs) ws = ap (λ t. v.full_path ∷ t) (paths-append vs ws)

pub length-paths : {I : Type 0} (vs : List (Vnode I)) → length (paths vs) ≡ length vs
length-paths [] = refl
length-paths (v ∷ vs) = ap suc (length-paths vs)
