-- ===== src/Fs/File/Streams.antt =====
-- Descriptors that read one file.
use hecto_os.Base.{
  ℕ, ◌+◌, ◌^◌, ◌≤◌, ◌<◌, ◌≡◌, refl, subst, ◌∙◌, true, Option, some, List, [], ◌∷◌, ◌++◌, ◌==◌,
  if◌then◌else◌, ◌>>=◌, length, get_elem?, set, take, drop, map, arith,
}
use hecto_os.Base.Word.{checked_add-some}
use hecto_os.Fs.File.Slices.{length-take-drop, map-get_elem?, map-set}
use hecto_os.Fs.File.{
  ok, start, Inode, FileDescriptor, Vnode, Files, readable, read, advance, unwrap_ok,
}

-- What the driver of a file does, as far as it is relied on: a seek to a place in the file goes there, and a read
-- gives some of the bytes from there on, not necessarily all that are asked for.
pub record IsFile {I : Type 0} (ops : Inode I) (content : I → List ℕ) (cursor : I → ℕ)
    : Type 0 where
  pub seek_start :
      (p : ℕ) (i : I)
      → p ≤ length (content i)
      → (i' : I) × (ops.seek_inode (start p) i ≡ (ok p, i'))
        × (content i' ≡ content i)
        × (cursor i' ≡ p)
  pub read_at :
      (n : ℕ) (i : I)
      → cursor i ≤ length (content i)
      → (k : ℕ) × (i' : I) × (k ≤ n)
        × (cursor i + k ≤ length (content i))
        × (ops.read_inode n i ≡ (ok (take k (drop (cursor i) (content i))), i'))
        × (content i' ≡ content i)

-- The bytes of every vnode
abbrev pub contents : {I : Type 0} → (I → List ℕ) → Files I → List (List ℕ)
contents content s = map (λ v. content v.inode) s.vnodes

-- The descriptors stand in files, and may read them.
abbrev pub Reads : {I : Type 0} → (I → List ℕ) → Files I → FileDescriptor → Type 0
Reads content s d =
    (readable d.flags ≡ true)
    × (bytes : List ℕ) × (get_elem? (contents content s) d.vnode ≡ some bytes)
    × (d.position ≤ length bytes)
    × (length bytes < 2 ^ 64)

-- Reads, one after the other, by any descriptors: what each gave
unfoldable pub read_run :
    {I : Type 0} → Inode I → List (ℕ × ℕ) → Files I → Option (List (ℕ × List ℕ) × Files I)
read_run ops [] s = some ([], s)
read_run ops (turn ∷ turns) s = do
  (r, s') ← read ops turn.0 turn.1 s
  bytes ← unwrap_ok r
  (log, s'') ← read_run ops turns s'
  some ((turn.0, bytes) ∷ log, s'')

-- The bytes that one descriptor was given
unfoldable pub stream : ℕ → List (ℕ × List ℕ) → List ℕ
stream fd [] = []
stream fd (given ∷ log) = if given.0 == fd then given.1 ++ stream fd log else stream fd log

module _ {I : Type 0} (ops : Inode I) (content : I → List ℕ) (cursor : I → ℕ)
    (file : IsFile ops content cursor) where
  -- What one read gives, and what it leaves.
  pub record Given (fd count : ℕ) (d : FileDescriptor) (bytes : List ℕ) (s : Files I) : Type 0 where
    pub k : ℕ
    pub after : Files I
    pub enough : k ≤ count
    pub inside : d.position + k ≤ length bytes
    pub done : read ops fd count s ≡ some (ok (take k (drop d.position bytes)), after)
    pub moved : after.descriptors ≡ set s.descriptors fd (record d { position = d.position + k })
    pub kept : contents content after ≡ contents content s

  -- A seek and the read after it
  pub record Piece (p n : ℕ) (i : I) : Type 0 where
    pub k : ℕ
    pub i1 : I
    pub i2 : I
    pub few : k ≤ n
    pub inside : p + k ≤ length (content i)
    pub sought : ops.seek_inode (start p) i ≡ (ok p, i1)
    pub got : ops.read_inode n i1 ≡ (ok (take k (drop p (content i))), i2)
    pub kept : content i2 ≡ content i

  read-Piece : (p n : ℕ) (i : I) → p ≤ length (content i) → Piece p n i
  read-Piece p n i le =
      let (i1, sought, same, cur) = file.seek_start p i le in
      let (k, i2, few, inside, got, same2) = file.read_at n i1 (rw (same, cur) le) in
      record {
        k = k;
        i1 = i1;
        i2 = i2;
        few = few;
        inside = rw (same, cur) at inside;
        sought = sought;
        got = rw (same, cur) at got;
        kept = same2 ∙ same;
      }

  read-Given_in :
      (fd count : ℕ) (s : Files I) (d : FileDescriptor) (v : Vnode I)
      → get_elem? s.descriptors fd ≡ some d
      → readable d.flags ≡ true
      → get_elem? s.vnodes d.vnode ≡ some v
      → length (content v.inode) < 2 ^ 64
      → Piece d.position count v.inode
      → Given fd count d (content v.inode) s
  unfolding read advance
  read-Given_in fd count s d v at may there small p = record {
    k = p.k;
    after = record s {
      descriptors = set s.descriptors fd (record d { position = d.position + p.k });
      vnodes = set s.vnodes d.vnode (record v { inode = p.i2 });
    };
    enough = p.few;
    inside = p.inside;
    done =
        rw
          (
            at,
            may,
            there,
            p.sought,
            p.got,
            length-take-drop p.k d.position (content v.inode) p.inside,
            checked_add-some d.position p.k (omega (arith, p.inside)),
          )
          refl;
    moved = refl;
    kept = map-set (λ (v : Vnode I). content v.inode) s.vnodes d.vnode v _ there p.kept;
  }

  -- Where a descriptor may read, a read gives some of the bytes from its own position on, whatever
  -- the position that the inode was left at.
  pub read-Given :
      (fd count : ℕ) (s : Files I) (d : FileDescriptor)
      → get_elem? s.descriptors fd ≡ some d
      → (reads : Reads content s d) → Given fd count d reads.1 s
  read-Given fd count s d at (may, bytes, held, le, small) =
      let (v, there, same) =
        map-get_elem? (λ (v : Vnode I). content v.inode) s.vnodes d.vnode bytes held in
      subst (λ b. Given fd count d b s) same
        (read-Given_in fd count s d v at may there (rw same small)
          (read-Piece d.position count v.inode (rw same le)))
