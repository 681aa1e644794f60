-- ===== src/Fs/File/Copy.antt =====
-- sys_sendfile copies one file to another.
use hecto_os.Base.{
  ℕ, ◌+◌, ◌%◌, ◌^◌, ◌≤◌, ◌<◌, ◌≡◌, refl, ap, ◌∙◌, true, some, List, length, get_elem?, set, take,
  drop,
}
use hecto_os.Base.Word.{checked_add-some}
use hecto_os.Fs.File.Slices.{map-get_elem?, map-set, map-set_at, overwrite}
use hecto_os.Fs.File.{
  ok, start, Inode, FileDescriptor, Vnode, Files, readable, writable, read, write, advance,
}
use hecto_os.Fs.File.Streams.{contents}

-- What the driver of a file does, as far as the copy relies on it, without an error of the disk: within one
-- sector of 512 bytes, and so within one cluster, a read gives all the bytes that are asked for, up to the end
-- of the file, and a write takes all that it is given while the file stays within `capacity`, the bytes that
-- the disk has room for. Of a read or a write that crosses sectors nothing is said: it may stop at the end of a cluster.
pub record IsWhole {I : Type 0} (ops : Inode I) (content : I → List ℕ) (cursor : I → ℕ)
    (capacity : ℕ) : Type 0 where
  pub seek_start :
      (p : ℕ) (i : I)
      → p ≤ length (content i)
      → (i' : I) × (ops.seek_inode (start p) i ≡ (ok p, i'))
        × (content i' ≡ content i)
        × (cursor i' ≡ p)
  pub read_all :
      (n : ℕ) (i : I)
      → cursor i % 512 + n ≤ 512
      → (i' : I) × (ops.read_inode n i ≡ (ok (take n (drop (cursor i) (content i))), i'))
        × (content i' ≡ content i)
  pub write_all :
      (bytes : List ℕ) (i : I)
      → cursor i ≤ length (content i)
      → cursor i % 512 + length bytes ≤ 512
      → cursor i + length bytes ≤ capacity
      → (i' : I) × (ops.write_inode bytes i ≡ (ok (length bytes), i'))
        × (content i' ≡ overwrite (cursor i) bytes (content i))

module _ {I : Type 0} (ops : Inode I) (content : I → List ℕ) (cursor : I → ℕ) (capacity : ℕ)
    (whole : IsWhole ops content cursor capacity) where
  -- A seek to a place, and a read or a write there
  read_there :
      (p n : ℕ) (i : I)
      → p ≤ length (content i)
      → p % 512 + n ≤ 512
      → (i1 : I) × (i2 : I) × (ops.seek_inode (start p) i ≡ (ok p, i1))
        × (ops.read_inode n i1 ≡ (ok (take n (drop p (content i))), i2))
        × (content i2 ≡ content i)
  read_there p n i le sector =
      let (i1, sought, same, cur) = whole.seek_start p i le in
      let (i2, got, same2) = whole.read_all n i1 (rw cur sector) in
      (i1, i2, sought, rw (same, cur) at got, same2 ∙ same)

  write_there :
      (p : ℕ) (bytes : List ℕ) (i : I)
      → p ≤ length (content i)
      → p % 512 + length bytes ≤ 512
      → p + length bytes ≤ capacity
      → (i1 : I) × (i2 : I) × (ops.seek_inode (start p) i ≡ (ok p, i1))
        × (ops.write_inode bytes i1 ≡ (ok (length bytes), i2))
        × (content i2 ≡ overwrite p bytes (content i))
  write_there p bytes i le sector room =
      let (i1, sought, same, cur) = whole.seek_start p i le in
      let (i2, got, same2) =
        whole.write_all bytes i1 (rw (same, cur) le) (rw cur sector) (rw cur room) in
      (i1, i2, sought, got, rw (same, cur) at same2)

  pub read_lem :
      (fd n : ℕ) (s : Files I) (d : FileDescriptor) (bytes : List ℕ)
      → get_elem? s.descriptors fd ≡ some d
      → readable d.flags ≡ true
      → get_elem? (contents content s) d.vnode ≡ some bytes
      → d.position ≤ length bytes
      → d.position % 512 + n ≤ 512
      → d.position + length (take n (drop d.position bytes)) < 2 ^ 64
      → (s' : Files I) × (read ops fd n s ≡ some (ok (take n (drop d.position bytes)), s'))
        × (s'.descriptors
            ≡ set s.descriptors fd
                (record d { position = d.position + length (take n (drop d.position bytes)) }))
        × (contents content s' ≡ contents content s)
  unfolding read advance
  read_lem fd n s d bytes at may held le sector small =
      let (v, there, same) =
        map-get_elem? (λ (v : Vnode I). content v.inode) s.vnodes d.vnode bytes held in
      let (i1, i2, sought, got, kept) = read_there d.position n v.inode (rw same le) sector in
      let got' = rw same at got in
      (
        record s {
          descriptors =
              set s.descriptors fd
                (record d { position = d.position + length (take n (drop d.position bytes)) });
          vnodes = set s.vnodes d.vnode (record v { inode = i2 });
        },
        rw
            (
              at,
              may,
              there,
              sought,
              got',
              checked_add-some d.position (length (take n (drop d.position bytes))) small,
            )
            refl,
        refl,
        map-set (λ (v : Vnode I). content v.inode) s.vnodes d.vnode v _ there kept,
      )

  pub write_lem :
      (fd : ℕ) (given : List ℕ) (s : Files I) (d : FileDescriptor) (bytes : List ℕ)
      → get_elem? s.descriptors fd ≡ some d
      → writable d.flags ≡ true
      → get_elem? (contents content s) d.vnode ≡ some bytes
      → d.position ≤ length bytes
      → d.position % 512 + length given ≤ 512
      → d.position + length given ≤ capacity
      → d.position + length given < 2 ^ 64
      → (s' : Files I) × (write ops fd given s ≡ some (ok (length given), s'))
        × (s'.descriptors
            ≡ set s.descriptors fd (record d { position = d.position + length given }))
        × (contents content s'
            ≡ set (contents content s) d.vnode (overwrite d.position given bytes))
  unfolding write advance
  write_lem fd given s d bytes at may held le sector room small =
      let (v, there, same) =
        map-get_elem? (λ (v : Vnode I). content v.inode) s.vnodes d.vnode bytes held in
      let (i1, i2, sought, got, written) =
        write_there d.position given v.inode (rw same le) sector room in
      let written' = rw same at written in
      (
        record s {
          descriptors = set s.descriptors fd (record d { position = d.position + length given });
          vnodes = set s.vnodes d.vnode (record v { inode = i2 });
        },
        rw (at, may, there, sought, got, checked_add-some d.position (length given) small) refl,
        refl,
        map-set_at (λ (v : Vnode I). content v.inode) s.vnodes d.vnode _
            ∙ ap (set (contents content s) d.vnode) written',
      )
