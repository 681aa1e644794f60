-- ===== src/Fs/Mounts/Tests.antt =====
-- A root file system, one at "/m" and one at "/m/a".
use hecto_os.Base.{
  ℕ, suc, ◌≤◌, ◌≡◌, ◌⊎◌, refl, true, Option, none, some, [], ◌∷◌, length, get_elem?,
}
use hecto_os.Fs.Mounts.{Str, FileSystemTable, filesystem_lookup, regeister_file_system}
use hecto_os.Fs.Mounts.Lookup.{is_above, filesystem_lookup-longest}

abbrev rest : FileSystemTable
rest = some (0x2F ∷ 0x6D ∷ []) ∷ some (0x2F ∷ 0x6D ∷ 0x2F ∷ 0x61 ∷ []) ∷ none ∷ []

abbrev root : Option Str
root = some (0x2F ∷ [])

-- "/m/a/x" and "/mx"
abbrev deep : Str
deep = 0x2F ∷ 0x6D ∷ 0x2F ∷ 0x61 ∷ 0x2F ∷ 0x78 ∷ []

filesystem_lookup-longest_example :
    ((filesystem_lookup deep (root ∷ rest) ≡ 0)
      × ((j : ℕ) (m : Str)
          → get_elem? rest j ≡ some (some m)
          → is_above m deep ≡ true
          → length m ≡ 0))
    ⊎ ((j : ℕ) × (best : Str) × (get_elem? rest j ≡ some (some best))
        × (is_above best deep ≡ true)
        × (filesystem_lookup deep (root ∷ rest) ≡ suc j)
        × ((k : ℕ) (m : Str)
            → get_elem? rest k ≡ some (some m)
            → is_above m deep ≡ true
            → length m ≤ length best))
filesystem_lookup-longest_example = filesystem_lookup-longest deep root rest

deep_found : filesystem_lookup deep (root ∷ rest) ≡ 2
unfolding filesystem_lookup
deep_found = refl

sibling_not_below : filesystem_lookup (0x2F ∷ 0x6D ∷ 0x78 ∷ []) (root ∷ rest) ≡ 0
unfolding filesystem_lookup
sibling_not_below = refl

registered :
    regeister_file_system (0x2F ∷ 0x62 ∷ []) (root ∷ rest)
    ≡ some (
        root
        ∷ some (0x2F ∷ 0x6D ∷ [])
        ∷ some (0x2F ∷ 0x6D ∷ 0x2F ∷ 0x61 ∷ [])
        ∷ some (0x2F ∷ 0x62 ∷ [])
        ∷ [])
unfolding regeister_file_system
registered = refl
