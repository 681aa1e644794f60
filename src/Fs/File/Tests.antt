-- ===== src/Fs/File/Tests.antt =====
-- Files in memory, read by several descriptors and copied.
use hecto_os.Base.{
  ℕ, zero, suc, ◌+◌, ◌-◌, ◌%◌, ◌&&◌, leb, if◌then◌else◌, ◌≤◌, refl, sym, ap, subst, some-eq, List,
  [], ◌∷◌, length, take, drop, arith,
}
use hecto_os.Fs.File.{
  IoResult, ok, err, other, SeekFrom, start, current, end, Inode, Files, readable,
}
use hecto_os.Fs.File.Slices.{overwrite, take-length, length-take_min, length-drop_lem}
use hecto_os.Fs.File.Streams.{IsFile, Reads}
use hecto_os.Fs.File.Runs.{IsOpen, Streamed, read_run-Streamed}
use hecto_os.Fs.File.Ends.{Ends}

record MemFile : Type 0 where
  bytes : List ℕ
  cursor : ℕ

abbrev seek_mem : SeekFrom → MemFile → IoResult ℕ × MemFile
seek_mem (start p) i = (ok p, record i { cursor = p })
seek_mem (current n) i = (err other, i)
seek_mem (end n) i = (err other, i)

abbrev mem_ops : Inode MemFile
mem_ops = record {
  seek_inode = seek_mem;
  read_inode = λ n i. (ok (take n (drop i.cursor i.bytes)), record i { cursor = i.cursor + n });
  write_inode = λ given i. (
    ok (length given),
    record { bytes = overwrite i.cursor given i.bytes; cursor = i.cursor + length given },
  );
  flush_inode = λ i. (ok tt, i);
}

taken-le :
    (n p : ℕ) (b : List ℕ)
    → p ≤ length b
    → (length (take n (drop p b)) ≤ n) × (p + length (take n (drop p b)) ≤ length b)
taken-le n p b le =
    let len = length-take_min n (drop p b) in
    let left = length-drop_lem p b le in (ground (arith, len), ground (arith, len, left))

mem-IsFile : IsFile mem_ops MemFile.bytes MemFile.cursor
mem-IsFile = record {
  seek_start = λ p i le. (record i { cursor = p }, refl, refl, refl);
  read_at = λ n i le.
      let (few, inside) = taken-le n i.cursor i.bytes le in
      (
        length (take n (drop i.cursor i.bytes)),
        record i { cursor = i.cursor + n },
        few,
        inside,
        ap (λ t. (ok t, record i { cursor = i.cursor + n }))
            (sym (take-length n (drop i.cursor i.bytes))),
        refl,
      );
}

-- Two descriptors of a file of three bytes, and one that writes another file
abbrev files : Files MemFile
files = record {
  descriptors =
      record { flags = 2; position = 0; vnode = 0 }
      ∷ record { flags = 2; position = 1; vnode = 0 }
      ∷ record { flags = 2; position = 0; vnode = 1 }
      ∷ [];
  vnodes =
      record { full_path = 0x2F ∷ 0x61 ∷ []; inode = record { bytes = 7 ∷ 8 ∷ 9 ∷ []; cursor = 3 } }
      ∷ record {
        full_path = 0x2F ∷ 0x62 ∷ [];
        inode = record { bytes = 1 ∷ 2 ∷ 3 ∷ []; cursor = 0 };
      }
      ∷ [];
}

files-IsOpen : IsOpen mem_ops MemFile.bytes MemFile.cursor mem-IsFile files
unfolding readable
files-IsOpen zero d at =
    subst (Reads MemFile.bytes files) (some-eq at)
      (refl, 7 ∷ 8 ∷ 9 ∷ [], refl, omega arith, omega arith)
files-IsOpen (suc zero) d at =
    subst (Reads MemFile.bytes files) (some-eq at)
      (refl, 7 ∷ 8 ∷ 9 ∷ [], refl, omega arith, omega arith)
files-IsOpen (suc (suc zero)) d at =
    subst (Reads MemFile.bytes files) (some-eq at)
      (refl, 1 ∷ 2 ∷ 3 ∷ [], refl, omega arith, omega arith)
files-IsOpen (suc (suc (suc n))) d at = absurd (cc)

read_run-Streamed_example :
    Streamed mem_ops MemFile.bytes MemFile.cursor mem-IsFile ((0, 2) ∷ (1, 1) ∷ (0, 5) ∷ []) files
read_run-Streamed_example =
    read_run-Streamed mem_ops MemFile.bytes MemFile.cursor mem-IsFile
      ((0, 2) ∷ (1, 1) ∷ (0, 5) ∷ []) files (omega arith, (omega arith, (omega arith, tt)))
      files-IsOpen

abbrev ends : Ends
ends = record { in_fd = 0; out = 2; in_flags = 2; out_flags = 2; in_vnode = 0; out_vnode = 1 }

-- The same files on a disk of 1000 bytes: a read stops at the end of a sector, and a write fails that crosses
-- one or for which there is no room.
abbrev read_sector_of : ℕ → MemFile → IoResult (List ℕ) × MemFile
read_sector_of n i =
    let m = if leb (i.cursor % 512 + n) 512 then n else 512 - i.cursor % 512 in
    (ok (take m (drop i.cursor i.bytes)), record i { cursor = i.cursor + m })

abbrev write_sector_of : List ℕ → MemFile → IoResult ℕ × MemFile
write_sector_of given i =
    if leb (i.cursor % 512 + length given) 512 && leb (i.cursor + length given) 1000
    then (
      ok (length given),
      record { bytes = overwrite i.cursor given i.bytes; cursor = i.cursor + length given },
    )
    else (err other, i)

abbrev disk_ops : Inode MemFile
disk_ops = record mem_ops { read_inode = read_sector_of; write_inode = write_sector_of }
