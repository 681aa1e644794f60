-- ===== src/Fs/File/Paths/Tests.antt =====
-- A process in /a.
use hecto_os.Base.{ℕ, ◌≡◌, refl, some, [], ◌∷◌, ◌++◌}
use hecto_os.Fs.Mounts.{Str, slash, starts_with}
use hecto_os.Fs.File.{Files}
use hecto_os.Fs.File.Paths.{dot, trim_end, at_fdcwd, dir_path, normalize_path, chdir_run}
use hecto_os.Fs.File.Paths.Absolute.{IsAbsolute, chdir_run-IsAbsolute, normalize_path-dots}

abbrev no_files : Files ℕ
no_files = record { descriptors = []; vnodes = [] }

abbrev cwd : Str
cwd = slash ∷ 0x61 ∷ []

-- `./b`, and then `c.`, which loses its last character
changed :
    chdir_run ((dot ∷ slash ∷ 0x62 ∷ []) ∷ (0x63 ∷ dot ∷ []) ∷ []) cwd [] no_files
    ≡ some (slash ∷ 0x61 ∷ slash ∷ 0x62 ∷ slash ∷ 0x63 ∷ [])
unfolding chdir_run normalize_path dir_path starts_with hecto_os.Fs.File.Paths.join_path
changed = refl

chdir_run-IsAbsolute_example :
    (cwd' : Str) × (chdir_run ((dot ∷ slash ∷ 0x62 ∷ []) ∷ (0x63 ∷ []) ∷ []) cwd [] no_files
      ≡ some cwd')
    × IsAbsolute cwd'
unfolding starts_with
chdir_run-IsAbsolute_example =
    chdir_run-IsAbsolute ((dot ∷ slash ∷ 0x62 ∷ []) ∷ (0x63 ∷ []) ∷ []) cwd [] no_files refl

normalize_path-dots_example :
    normalize_path at_fdcwd (dot ∷ dot ∷ []) cwd [] no_files
    ≡ some (trim_end slash cwd ++ slash ∷ [])
unfolding dir_path
normalize_path-dots_example = normalize_path-dots 2 at_fdcwd cwd cwd [] no_files refl
