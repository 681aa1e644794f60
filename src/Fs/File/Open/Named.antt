-- ===== src/Fs/File/Open/Named.antt =====
-- One vnode for a path, however often it is opened.
use hecto_os.Base.{
  ℕ, ◌≡◌, ◌⊎◌, inl, inr, refl, sym, ap, subst, ◌∙◌, false, Bool-cases, Option, none, some, some-eq,
  List, [], ◌∷◌, ◌++◌, >>=-eq-some, length, get_elem?, set,
}
use hecto_os.Base.Int.{pos}
use hecto_os.Fs.Mounts.{Str, FileSystemTable, slash}
use hecto_os.Fs.File.{IoResult, Error, ok, err, end, Inode, FileDescriptor, Files, unwrap_ok}
use hecto_os.Fs.File.Open.Lists.{
  same_path-eq, same_path_self, get_elem?-append, get_elem?_last, get_elem?_snoc, paths, paths-set,
  paths-append, length-paths,
}
use hecto_os.Fs.File.Open.{
  FileSystems, Kernel, append, contains, same_path, find, lookup_fs, inode_of, new_descriptor,
  with_descriptor, new_vnode, open_missing, open_found, file_open, open_run,
}

-- The path of a file is absolute; the vnodes of the console and of the pipes have other names.
abbrev pub IsFilePath : Str → Type 0
IsFilePath p = (rest : Str) × (p ≡ slash ∷ rest)

-- Every vnode of a file is in the set under its path, and what the set gives is a vnode of that path.
pub record IsNamed {I F : Type 0} (k : Kernel I F) : Type 0 where
  pub named :
      (i : ℕ) (p : Str)
      → IsFilePath p
      → get_elem? (paths k.files.vnodes) i ≡ some p
      → find p k.vnode_hashset ≡ some i
  pub listed :
      (p : Str) (i : ℕ)
      → find p k.vnode_hashset ≡ some i
      → get_elem? (paths k.files.vnodes) i ≡ some p
  pub opened :
      (fd : ℕ) (d : FileDescriptor)
      → get_elem? k.files.descriptors fd ≡ some d
      → (p : Str) × (get_elem? (paths k.files.vnodes) d.vnode ≡ some p)

-- The path that a descriptor was opened by
pub PathOf : {I F : Type 0} → Kernel I F → ℕ → Str → Type 0
PathOf k fd p =
    (d : FileDescriptor) × (get_elem? k.files.descriptors fd ≡ some d)
    × (get_elem? (paths k.files.vnodes) d.vnode ≡ some p)

-- What an open of a path gives
abbrev pub Open : {I F : Type 0} → Kernel I F → Str → IoResult ℕ → Type 0
Open k p r = (fd : ℕ) × (r ≡ ok fd) × PathOf k fd p

abbrev pub IsError : IoResult ℕ → Type 0
IsError r = (x : Error) × (r ≡ err x)

pub Opened : {I F : Type 0} → Str → Kernel I F → IoResult ℕ → Type 0
Opened p k r = IsNamed k × (Open k p r ⊎ IsError r)

module _ {I F : Type 0} (ops : Inode I) (fs : FileSystems I F) (table : FileSystemTable) where
  -- A new descriptor on a vnode
  new_descriptor-on :
      (flags vnode : ℕ) (s : Files I) (fd : ℕ) (s' : Files I)
      → new_descriptor ops fs table flags vnode s ≡ some (fd, s')
      → (position : ℕ) × (paths s'.vnodes ≡ paths s.vnodes)
        × (fd ≡ length s.descriptors)
        × (s'.descriptors
            ≡ s.descriptors ++ record { flags = flags; position = position; vnode = vnode } ∷ [])
  unfolding new_descriptor
  new_descriptor-on flags vnode s fd s' e = elim (Bool-cases (contains flags append)) [
    | inl at_end ↦
        let (v, there, e1) = >>=-eq-some (get_elem? s.vnodes vnode) _ (rw at_end at e) in
        let sought = ops.seek_inode (end (pos 0)) v.inode in
        let (position, _, done) = >>=-eq-some (unwrap_ok sought.0) _ e1 in
        let made = some-eq done in
        (
          position,
          ap (λ (q : ℕ × Files I). paths q.1.vnodes) (sym made)
              ∙ paths-set s.vnodes vnode v sought.1 there,
          ap (λ (q : ℕ × Files I). q.0) (sym made),
          ap (λ (q : ℕ × Files I). q.1.descriptors) (sym made),
        )
    | inr at_start ↦
        let made = some-eq (rw at_start at e) in
        (
          0,
          ap (λ (q : ℕ × Files I). paths q.1.vnodes) (sym made),
          ap (λ (q : ℕ × Files I). q.0) (sym made),
          ap (λ (q : ℕ × Files I). q.1.descriptors) (sym made),
        )
  ]

  with_descriptor-IsNamed :
      (flags vnode : ℕ) (p : Str) (k : Kernel I F) (r : IoResult ℕ) (k' : Kernel I F)
      → IsNamed k
      → get_elem? (paths k.files.vnodes) vnode ≡ some p
      → with_descriptor ops fs table flags vnode k ≡ some (r, k')
      → IsNamed k' × (fd : ℕ) × (r ≡ ok fd) × PathOf k' fd p
  unfolding with_descriptor PathOf
  with_descriptor-IsNamed flags vnode p k r k' v at e =
      let ((fd, files), made, done) =
        >>=-eq-some (new_descriptor ops fs table flags vnode k.files) _ e in
      let (position, same, is, grown) = new_descriptor-on flags vnode k.files fd files made in
      let d : FileDescriptor = record { flags = flags; position = position; vnode = vnode } in
      let last : get_elem? files.descriptors fd ≡ some d =
        ap (get_elem? files.descriptors) is
        ∙ (ap (λ l. get_elem? l (length k.files.descriptors)) grown
            ∙ get_elem?_last k.files.descriptors d) in
      let at' : get_elem? (paths files.vnodes) vnode ≡ some p =
        ap (λ l. get_elem? l vnode) same ∙ at in
      subst
        (λ (q : IoResult ℕ × Kernel I F). IsNamed q.1 × (fd : ℕ) × (q.0 ≡ ok fd) × PathOf q.1 fd p)
        (some-eq done)
        (
          record {
            named = λ i q absolute there.
                v.named i q absolute (ap (λ l. get_elem? l i) (sym same) ∙ there);
            listed = λ q i found. ap (λ l. get_elem? l i) same ∙ v.listed q i found;
            opened = λ fd' d' there.
                elim (get_elem?_snoc k.files.descriptors d fd' d'
                  (ap (λ l. get_elem? l fd') (sym grown) ∙ there)) [
                    | inl before ↦
                        let (q, named) = v.opened fd' d' before in
                        (q, ap (λ l. get_elem? l d'.vnode) same ∙ named)
                    | inr (_, this) ↦ (
                      p,
                      ap (λ (t : FileDescriptor). get_elem? (paths files.vnodes) t.vnode) (sym this)
                          ∙ at',
                    )
                  ];
          },
          fd,
          refl,
          (d, last, at'),
        )

  -- The kernel with one more vnode, of a path that the set does not have
  abbrev with_vnode : Str → I → Kernel I F → Kernel I F
  with_vnode p inode k = record k {
    files = record k.files {
      vnodes = k.files.vnodes ++ record { full_path = p; inode = inode } ∷ [];
    };
    vnode_hashset = (p, length k.files.vnodes) ∷ k.vnode_hashset;
  }

  find_other :
      (p q : Str) (i : ℕ) (set : List (Str × ℕ))
      → find p set ≡ none
      → find q set ≡ some i
      → same_path p q ≡ false
  find_other p q i set missing found = elim (Bool-cases (same_path p q)) [
    | inl same ↦ let is = ap (λ t. find t set) (same_path-eq p q same) in absurd (cc)
    | inr other ↦ other
  ]

  with_vnode-IsNamed :
      (p : Str) (inode : I) (k : Kernel I F)
      → find p k.vnode_hashset ≡ none
      → IsNamed k
      → IsNamed (with_vnode p inode k)
  unfolding find
  with_vnode-IsNamed p inode k missing v =
      let old = paths k.files.vnodes in
      let grown : paths (k.files.vnodes ++ record { full_path = p; inode = inode } ∷ [])
          ≡ old ++ p ∷ [] =
        paths-append k.files.vnodes _ in
      let len = length-paths k.files.vnodes in
      record {
        named = λ i q absolute there.
            elim (get_elem?_snoc old p i q (ap (λ l. get_elem? l i) (sym grown) ∙ there)) [
              | inl before ↦
                  let found = v.named i q absolute before in
                  rw (find_other p q i k.vnode_hashset missing found) found
              | inr (is, same) ↦ rw (sym same, same_path_self p) (ap some (sym len ∙ sym is))
            ];
        listed = λ q i found. elim (Bool-cases (same_path p q)) [
          | inl same ↦
              let is : length k.files.vnodes ≡ i = some-eq (rw same at found) in
              ap (λ l. get_elem? l i) grown
              ∙ (ap (get_elem? (old ++ p ∷ [])) (sym is ∙ sym len)
                  ∙ (get_elem?_last old p ∙ ap some (same_path-eq p q same)))
          | inr other ↦
              ap (λ l. get_elem? l i) grown
              ∙ get_elem?-append old (p ∷ []) i q (v.listed q i (rw other at found))
        ];
        opened = λ fd d there.
            let (q, named) = v.opened fd d there in
            (
              q,
              ap (λ l. get_elem? l d.vnode) grown ∙ get_elem?-append old (p ∷ []) d.vnode q named,
            );
      }

  new_vnode-IsNamed :
      (flags : ℕ) (p : Str) (opened : IoResult I) (k : Kernel I F) (r : IoResult ℕ)
      (k' : Kernel I F)
      → IsNamed k
      → find p k.vnode_hashset ≡ none
      → new_vnode ops fs table flags p opened k ≡ some (r, k')
      → Opened p k' r
  unfolding new_vnode Opened
  new_vnode-IsNamed flags p (err x) k r k' v missing e =
      subst (λ (q : IoResult ℕ × Kernel I F). IsNamed q.1 × (Open q.1 p q.0 ⊎ IsError q.0))
        (some-eq e) (v, inr (x, refl))
  new_vnode-IsNamed flags p (ok inode) k r k' v missing e =
      let last =
        ap (λ l. get_elem? l (length k.files.vnodes))
          (paths-append k.files.vnodes (record { full_path = p; inode = inode } ∷ []))
        ∙ (ap (get_elem? (paths k.files.vnodes ++ p ∷ [])) (sym (length-paths k.files.vnodes))
            ∙ get_elem?_last (paths k.files.vnodes) p) in
      let (named, fd, is, on) =
        with_descriptor-IsNamed flags (length k.files.vnodes) p (with_vnode p inode k) r k'
          (with_vnode-IsNamed p inode k missing v) last e in
      (named, inl (fd, is, on))

  open_found-IsNamed :
      (p : Str) (flags : ℕ) (found : Option ℕ) (k : Kernel I F) (r : IoResult ℕ) (k' : Kernel I F)
      → IsNamed k
      → find p k.vnode_hashset ≡ found
      → open_found ops fs table p flags found k ≡ some (r, k')
      → Opened p k' r
  unfolding open_found open_missing Opened
  open_found-IsNamed p flags none k r k' v is e =
      let (i, _, e1) = >>=-eq-some (lookup_fs ops fs table p) _ e in
      let opened = inode_of ops fs table flags i p k.disk in
      new_vnode-IsNamed flags p opened.0 (record k { disk = opened.1 }) r k'
        (record { named = v.named; listed = v.listed; opened = v.opened }) is e1
  open_found-IsNamed p flags (some vnode) k r k' v is e =
      let (named, fd, done, on) =
        with_descriptor-IsNamed flags vnode p k r k' v (v.listed p vnode is) e in
      (named, inl (fd, done, on))

  -- An open that does not panic keeps the set of vnodes right, and gives an error or a descriptor whose
  -- vnode has the path that was asked for.
  pub file_open-Opened :
      (p : Str) (flags : ℕ) (k : Kernel I F) (r : IoResult ℕ) (k' : Kernel I F)
      → IsNamed k
      → file_open ops fs table p flags k ≡ some (r, k')
      → Opened p k' r
  unfolding file_open
  file_open-Opened p flags k r k' v e =
      open_found-IsNamed p flags (find p k.vnode_hashset) k r k' v refl e

  open_run-IsNamed :
      (requests : List (Str × ℕ)) (k k' : Kernel I F)
      → IsNamed k
      → open_run ops fs table requests k ≡ some k'
      → IsNamed k'
  unfolding open_run Opened
  open_run-IsNamed [] k k' v e = subst IsNamed (some-eq e) v
  open_run-IsNamed (request ∷ requests) k k' v e =
      let ((r, k1), first, e1) = >>=-eq-some (file_open ops fs table request.0 request.1 k) _ e in
      let (v1, _) = file_open-Opened request.0 request.1 k r k1 v first in
      open_run-IsNamed requests k1 k' v1 e1

  -- Where every vnode of a file is in the set under its path, beside vnodes of the console and of pipes that
  -- are not: after any opens, two descriptors whose vnodes have one absolute path have the same vnode.
  pub open_run-OneVnode :
      (requests : List (Str × ℕ)) (k k' : Kernel I F) (p : Str) (fd fd' : ℕ) (d d' : FileDescriptor)
      → IsNamed k
      → IsFilePath p
      → open_run ops fs table requests k ≡ some k'
      → get_elem? k'.files.descriptors fd ≡ some d
      → get_elem? k'.files.descriptors fd' ≡ some d'
      → get_elem? (paths k'.files.vnodes) d.vnode ≡ some p
      → get_elem? (paths k'.files.vnodes) d'.vnode ≡ some p
      → d.vnode ≡ d'.vnode
  open_run-OneVnode requests k k' p fd fd' d d' v absolute e at at' on on' =
      let v' = open_run-IsNamed requests k k' v e in
      some-eq (sym (v'.named d.vnode p absolute on) ∙ v'.named d'.vnode p absolute on')
