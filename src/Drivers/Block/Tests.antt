-- ===== src/Drivers/Block/Tests.antt =====
-- A device whose block i holds the byte i everywhere.
use hecto_os.Base.{
  ℕ, ◌+◌, ◌-◌, ◌≤◌, ◌<◌, ◌≡◌, refl, false, some, List, [], ◌∷◌, ◌&&◌, leb, ltb, if◌then◌else◌,
  get_or, replicate, length-replicate, arith,
}
use hecto_os.Drivers.Block.{BlockDevice, BufBlkDevice, new, seek, from_start, read, write}
use hecto_os.Drivers.Block.Access.{
  IsCoherent, byte, position, new-IsCoherent, seek-position, read-byte, write-byte,
}
use hecto_os.Drivers.Block.Crossing.{read_short, read_skips}

abbrev numbered : BlockDevice
numbered = λ i. replicate 512 i

booted : BufBlkDevice
booted = new numbered

booted-IsCoherent : IsCoherent booted
unfolding booted
booted-IsCoherent = new-IsCoherent numbered (λ i. length-replicate 512 i)

seek-position_example :
    (s' : BufBlkDevice) × (seek (from_start 1000) booted ≡ some (1000, s'))
    × (position s' ≡ 1000)
    × IsCoherent s'
    × ((a : ℕ) → byte s' a ≡ byte booted a)
seek-position_example = seek-position 1000 booted booted-IsCoherent

read-byte_example :
    (out' : List ℕ) × (s' : BufBlkDevice) × (read (7 ∷ 7 ∷ []) booted ≡ (2, (out', s')))
    × (position s' ≡ position booted + 2)
    × IsCoherent s'
    × ((k : ℕ) → k < 2 → get_or out' k 0 ≡ byte booted (position booted + k))
    × ((a : ℕ) → byte s' a ≡ byte booted a)
unfolding booted new
read-byte_example =
    read-byte (7 ∷ 7 ∷ []) booted booted-IsCoherent (omega arith) (λ e. absurd (omega (arith, e)))

write-byte_example :
    (s' : BufBlkDevice) × (write (7 ∷ 8 ∷ []) booted ≡ some (2, s'))
    × (position s' ≡ position booted + 2)
    × IsCoherent s'
    × ((a : ℕ)
        → byte s' a ≡ (
            if leb (position booted) a && ltb a (position booted + 2)
            then get_or (7 ∷ 8 ∷ []) (a - position booted) 0
            else byte booted a))
unfolding booted new
write-byte_example =
    write-byte (7 ∷ 8 ∷ []) booted booted-IsCoherent (omega arith) (λ e. absurd (omega (arith, e)))

abbrev near_end : BufBlkDevice
near_end = record {
  device = numbered;
  buf = replicate 512 0;
  pos = 510;
  block_id = 0;
  modified = false;
}

near_end-IsCoherent : IsCoherent near_end
near_end-IsCoherent = record {
  whole = length-replicate {A = ℕ} 512 0;
  blocks = λ i. length-replicate 512 i;
  inside = omega arith;
  clean = λ _. refl;
}

read_short_example :
    (out' : List ℕ) × (s' : BufBlkDevice) × (read (7 ∷ 7 ∷ 7 ∷ 7 ∷ []) near_end ≡ (4, (out', s')))
    × ((k : ℕ) → 2 ≤ k → get_or out' k 0 ≡ get_or (7 ∷ 7 ∷ 7 ∷ 7 ∷ []) k 0)
    × (position s' ≡ 512)
read_short_example = read_short (7 ∷ 7 ∷ 7 ∷ 7 ∷ []) near_end near_end-IsCoherent (omega arith)

read_skips_example :
    (out' : List ℕ) × (s' : BufBlkDevice) × (read (7 ∷ []) near_end ≡ (1, (out', s')))
    × (position s' ≡ 510 + 1 + 1)
read_skips_example = read_skips (7 ∷ []) near_end near_end-IsCoherent (omega arith)
