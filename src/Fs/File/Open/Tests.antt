-- ===== src/Fs/File/Open/Tests.antt =====
-- One path opened twice, and another, beside the console.
use hecto_os.Base.{
  ℕ, zero, suc, ◌+◌, ◌≡◌, refl, sym, ap, Option, none, some, some-eq, [], ◌∷◌, get_elem?,
}
use hecto_os.Fs.Mounts.{Str, FileSystemTable, slash}
use hecto_os.Fs.File.{IoResult, ok, err, other, Inode, FileDescriptor}
use hecto_os.Fs.File.Open.{FileSystems, Kernel, append, find, open_run}
use hecto_os.Fs.File.Open.Lists.{paths}
use hecto_os.Fs.File.Open.Named.{IsNamed, IsFilePath, open_run-OneVnode}

-- Inodes that are numbers, of which a seek finds the end, and file systems that make a new one for each open
abbrev ops : Inode ℕ
ops = record {
  seek_inode = λ from i. (ok i, i);
  read_inode = λ n i. (ok [], i);
  write_inode = λ given i. (ok 0, i);
  flush_inode = λ i. (ok tt, i);
}

abbrev next : ℕ → Str → ℕ → IoResult ℕ × ℕ
next i path n = (ok n, n + 1)

abbrev fs : FileSystems ℕ ℕ
fs = record {
  create_file = next;
  open_dir = next;
  open_file = next;
  remove = λ i path n. (err other, n);
  create_dir = λ i path n. (ok tt, n);
}

abbrev table : FileSystemTable
table = some [] ∷ none ∷ none ∷ none ∷ []

-- Only the console is open.
abbrev console_kernel : Kernel ℕ ℕ
console_kernel = record {
  files = record {
    descriptors = record { flags = 0; position = 0; vnode = 0 } ∷ [];
    vnodes = record { full_path = []; inode = 0 } ∷ [];
  };
  vnode_hashset = [];
  disk = 5;
}

console_kernel-IsNamed : IsNamed console_kernel
unfolding find
console_kernel-IsNamed = record {
  named = console_only;
  listed = λ p i found. absurd (cc);
  opened = console_opened;
}
  where
    console_only :
        (i : ℕ) (p : Str)
        → IsFilePath p
        → get_elem? (paths console_kernel.files.vnodes) i ≡ some p
        → find p console_kernel.vnode_hashset ≡ some i
    console_only zero p (rest, is) there = let empty : p ≡ [] = sym (some-eq there) in absurd (cc)
    console_only (suc i) p absolute there = absurd (cc)

    console_opened :
        (fd : ℕ) (d : FileDescriptor)
        → get_elem? console_kernel.files.descriptors fd ≡ some d
        → (p : Str) × (get_elem? (paths console_kernel.files.vnodes) d.vnode ≡ some p)
    console_opened zero d there = (
      [],
      ap (λ (e : FileDescriptor). get_elem? (paths console_kernel.files.vnodes) e.vnode)
          (sym (some-eq there)),
    )
    console_opened (suc fd) d there = absurd (cc)

abbrev path_a : Str
path_a = slash ∷ 0x61 ∷ []

abbrev path_b : Str
path_b = slash ∷ 0x62 ∷ []

abbrev or_console : Option (Kernel ℕ ℕ) → Kernel ℕ ℕ
or_console none = console_kernel
or_console (some k) = k

unfoldable opened : Kernel ℕ ℕ
unfolding open_run
opened =
    or_console
      (open_run ops fs table ((path_a, 0) ∷ (path_b, 0x40) ∷ (path_a, append) ∷ []) console_kernel)

open_run-opened :
    open_run ops fs table ((path_a, 0) ∷ (path_b, 0x40) ∷ (path_a, append) ∷ []) console_kernel
    ≡ some opened
unfolding opened hecto_os.Fs.Mounts.filesystem_lookup
open_run-opened = refl

open_run-OneVnode_example : ◌≡◌ {A = ℕ} 1 1
unfolding opened hecto_os.Fs.Mounts.filesystem_lookup
open_run-OneVnode_example =
    open_run-OneVnode ops fs table ((path_a, 0) ∷ (path_b, 0x40) ∷ (path_a, append) ∷ [])
      console_kernel opened path_a 1 3 (record { flags = 0; position = 0; vnode = 1 })
      (record { flags = append; position = 5; vnode = 1 }) console_kernel-IsNamed
      ((0x61 ∷ []), refl) open_run-opened refl refl refl refl
