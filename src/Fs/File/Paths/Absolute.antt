-- ===== src/Fs/File/Paths/Absolute.antt =====
-- What the paths of the calls are.
use hecto_os.Base.{
  ℕ, zero, suc, ◌≡◌, ◌↔◌, inl, inr, refl, true, false, Bool-cases, some, List, [], ◌∷◌, ◌++◌,
  replicate, arith,
}
use hecto_os.Process.FdTable.{FdTable}
use hecto_os.Fs.Mounts.{Str, slash, starts_with}
use hecto_os.Fs.File.{Files}
use hecto_os.Fs.File.Paths.{
  dot, trim_here, is_empty, trim_end, dir_path, join_path, normalize_path, sys_chdir, chdir_run,
}

abbrev pub IsAbsolute : Str → Type 0
IsAbsolute path = starts_with path (slash ∷ []) ≡ true

head-IsAbsolute : (a : ℕ) (path : Str) → IsAbsolute (a ∷ path) ↔ (a ≡ slash)
unfolding starts_with
head-IsAbsolute a path = ((λ h. ground arith), (λ e. rw e refl))

join_path-IsAbsolute : (dir path : Str) → IsAbsolute dir → IsAbsolute (join_path dir path)
unfolding join_path trim_end starts_with
join_path-IsAbsolute [] path h = absurd (cc)
join_path-IsAbsolute (a ∷ dir) path h =
    let first : a ≡ slash = (head-IsAbsolute a dir).0 h in
    elim (Bool-cases (is_empty (trim_end slash dir))) [
      | inl bare ↦ rw (first, bare) refl
      | inr more ↦ rw (first, more) refl
    ]

pub sys_chdir-IsAbsolute :
    {I : Type 0} (path cwd : Str) (table : FdTable) (s : Files I)
    → IsAbsolute cwd
    → (cwd' : Str) × (sys_chdir path cwd table s ≡ some cwd') × IsAbsolute cwd'
unfolding sys_chdir normalize_path dir_path
sys_chdir-IsAbsolute path cwd table s h = elim (Bool-cases (starts_with path (slash ∷ []))) [
  | inl there ↦ (path, rw there refl, there)
  | inr relative ↦ (join_path cwd path, rw relative refl, join_path-IsAbsolute cwd path h)
]

-- From an absolute working directory, any calls of chdir succeed, and the working directory stays
-- absolute.
pub chdir_run-IsAbsolute :
    {I : Type 0} (paths : List Str) (cwd : Str) (table : FdTable) (s : Files I)
    → IsAbsolute cwd
    → (cwd' : Str) × (chdir_run paths cwd table s ≡ some cwd') × IsAbsolute cwd'
unfolding chdir_run
chdir_run-IsAbsolute [] cwd table s h = (cwd, refl, h)
chdir_run-IsAbsolute (path ∷ paths) cwd table s h =
    let (cwd1, first, h1) = sys_chdir-IsAbsolute path cwd table s h in
    let (cwd2, rest, h2) = chdir_run-IsAbsolute paths cwd1 table s h1 in
    (cwd2, rw (first, rest) refl, h2)

trim_here_dots : (n : ℕ) → trim_here (replicate n dot) ≡ replicate n dot
unfolding trim_here
trim_here_dots zero = refl
trim_here_dots (suc zero) = refl
trim_here_dots (suc (suc n)) = refl

trim_end_dots : (n : ℕ) → trim_end dot (replicate n dot) ≡ []
unfolding trim_end
trim_end_dots zero = refl
trim_end_dots (suc n) = rw (trim_end_dots n) refl

dots_relative : (n : ℕ) → starts_with (replicate n dot) (slash ∷ []) ≡ false
unfolding starts_with
dots_relative zero = refl
dots_relative (suc n) = refl

-- A path of dots, with which `..` names the parent of a directory, gives the path of the directory itself
-- and a slash: neither chdir nor an open leaves the directory by it.
pub normalize_path-dots :
    {I : Type 0} (n dirfd : ℕ) (cwd dir : Str) (table : FdTable) (s : Files I)
    → dir_path dirfd cwd table s ≡ some dir
    → normalize_path dirfd (replicate n dot) cwd table s ≡ some (trim_end slash dir ++ slash ∷ [])
unfolding normalize_path join_path
normalize_path-dots n dirfd cwd dir table s found =
    rw (dots_relative n, found, trim_here_dots n, trim_end_dots n) refl
