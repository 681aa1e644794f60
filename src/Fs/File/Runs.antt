-- ===== src/Fs/File/Runs.antt =====
-- Reads by several descriptors, in any order.
use hecto_os.Base.{
  ℕ, zero, suc, ◌+◌, ◌^◌, ◌≤◌, ◌<◌, ◌≡◌, ◌≢◌, refl, sym, ap, subst, ◌∙◌, inl, inr, true, false,
  Bool-cases, some, some-eq, List, [], ◌∷◌, ◌==◌, ==_iff, length, get_elem?, take, drop, All,
  length-set, get_elem?-set_self, get_elem?-set_ne, arith,
}
use hecto_os.Fs.File.Slices.{take-drop_append}
use hecto_os.Fs.File.{Inode, FileDescriptor, Files}
use hecto_os.Fs.File.Streams.{IsFile, contents, Reads, read_run, stream, Given, read-Given}

get_elem?_below :
    {A : Type 0} (xs : List A) (i : ℕ) → i < length xs → (x : A) × (get_elem? xs i ≡ some x)
get_elem?_below [] i h = absurd (omega arith)
get_elem?_below (x ∷ xs) zero h = (x, refl)
get_elem?_below (x ∷ xs) (suc i) h = get_elem?_below xs i (omega arith)

pub get_elem?-lt :
    {A : Type 0} (xs : List A) (i : ℕ) (x : A) → get_elem? xs i ≡ some x → i < length xs
get_elem?-lt [] i x e = absurd (cc)
get_elem?-lt (y ∷ xs) zero x e = omega arith
get_elem?-lt (y ∷ xs) (suc i) x e = omega (arith, get_elem?-lt xs i x e)

module _ {I : Type 0} (ops : Inode I) (content : I → List ℕ) (cursor : I → ℕ)
    (file : IsFile ops content cursor) where
  -- Every descriptor stands in a file and may read it.
  abbrev pub IsOpen : Files I → Type 0
  IsOpen s = (fd : ℕ) (d : FileDescriptor) → get_elem? s.descriptors fd ≡ some d → Reads content s d

  -- A descriptor goes on by `n` bytes, those that it was given.
  pub Followed : Files I → List (ℕ × List ℕ) → ℕ → FileDescriptor → List ℕ → Type 0
  Followed after log fd d bytes =
      (n : ℕ) × (get_elem? after.descriptors fd ≡ some (record d { position = d.position + n }))
      × (d.position + n ≤ length bytes)
      × (stream fd log ≡ take n (drop d.position bytes))

  pub record Streamed (turns : List (ℕ × ℕ)) (s : Files I) : Type 0 where
    pub log : List (ℕ × List ℕ)
    pub after : Files I
    pub done : read_run ops turns s ≡ some (log, after)
    pub kept : contents content after ≡ contents content s
    pub each :
        (fd : ℕ) (d : FileDescriptor) (bytes : List ℕ)
        → get_elem? s.descriptors fd ≡ some d
        → get_elem? (contents content s) d.vnode ≡ some bytes
        → Followed after log fd d bytes

  -- After a read the descriptors still stand in their files.
  Given-IsOpen :
      (fd count : ℕ) (s : Files I) (d : FileDescriptor)
      → get_elem? s.descriptors fd ≡ some d
      → IsOpen s
      → (bytes : List ℕ) → get_elem? (contents content s) d.vnode ≡ some bytes
      → (g : Given ops content cursor file fd count d bytes s) → IsOpen g.after
  Given-IsOpen fd count s d at ready bytes held g fd' d' at' =
      let lt = get_elem?-lt s.descriptors fd d at in
      elim (Bool-cases (fd == fd')) [
        | inl same ↦
            let e : fd ≡ fd' = (==_iff fd fd').0 same in
            let d-eq : record d { position = d.position + g.k } ≡ d' = some-eq (
              sym (get_elem?-set_self s.descriptors fd _ lt)
              ∙ (sym (ap (λ l. get_elem? l fd) g.moved)
                  ∙ (ap (get_elem? g.after.descriptors) e ∙ at'))) in
            let (may, bytes', held', le, small) = ready fd d at in
            let b : bytes' ≡ bytes = some-eq (sym held' ∙ held) in
            subst (Reads content g.after) d-eq (
              may,
              bytes,
              ap (λ c. get_elem? c d.vnode) g.kept ∙ held,
              g.inside,
              subst (λ t. length t < 2 ^ 64) b small,
            )
        | inr other ↦
            let ne : fd ≢ fd' = λ e. let yes = (==_iff fd fd').1 e in absurd (cc) in
            let before : get_elem? s.descriptors fd' ≡ some d' =
              sym (get_elem?-set_ne s.descriptors fd fd' _ ne)
              ∙ (sym (ap (λ l. get_elem? l fd') g.moved) ∙ at') in
            let (may, bytes', held', le, small) = ready fd' d' before in
            (may, bytes', ap (λ c. get_elem? c d'.vnode) g.kept ∙ held', le, small)
      ]

  -- The descriptor that reads first
  Followed-self :
      (fd : ℕ) (d : FileDescriptor) (bytes : List ℕ) (k : ℕ) (after : Files I)
      (log : List (ℕ × List ℕ))
      → d.position + k ≤ length bytes
      → Followed after log fd (record d { position = d.position + k }) bytes
      → Followed after ((fd, take k (drop d.position bytes)) ∷ log) fd d bytes
  unfolding Followed stream
  Followed-self fd d bytes k after log inside (n, there, fits, read) =
      let more : d.position + k + n ≡ d.position + (k + n) = omega arith in
      let same : (fd == fd) ≡ true = (==_iff fd fd).1 refl in
      (
        k + n,
        subst (λ p. get_elem? after.descriptors fd ≡ some (record d { position = p })) more there,
        omega arith,
        rw same (rw read (take-drop_append k n d.position bytes inside)),
      )

  Followed-other :
      (fd fd' : ℕ) (d : FileDescriptor) (bytes given : List ℕ) (after : Files I)
      (log : List (ℕ × List ℕ))
      → (fd == fd') ≡ false
      → Followed after log fd' d bytes
      → Followed after ((fd, given) ∷ log) fd' d bytes
  unfolding Followed stream
  Followed-other fd fd' d bytes given after log ne (n, there, fits, read) =
      (n, there, fits, rw ne read)

  Followed-none :
      (s : Files I) (fd : ℕ) (d : FileDescriptor) (bytes : List ℕ)
      → get_elem? s.descriptors fd ≡ some d
      → Reads content s d
      → get_elem? (contents content s) d.vnode ≡ some bytes
      → Followed s [] fd d bytes
  unfolding Followed stream
  Followed-none s fd d bytes at (_, bytes', held', le, _) held =
      let same : bytes' ≡ bytes = some-eq (sym held' ∙ held) in
      let none_more : d.position ≡ d.position + 0 = omega arith in
      (
        0,
        subst (λ p. get_elem? s.descriptors fd ≡ some (record d { position = p })) none_more at,
        omega (arith, ap length same),
        refl,
      )

  read_first :
      (fd count : ℕ) (turns : List (ℕ × ℕ)) (s : Files I) (d : FileDescriptor) (bytes : List ℕ)
      → get_elem? s.descriptors fd ≡ some d
      → get_elem? (contents content s) d.vnode ≡ some bytes
      → (g : Given ops content cursor file fd count d bytes s) → Streamed turns g.after
      → Streamed ((fd, count) ∷ turns) s
  unfolding read_run
  read_first fd count turns s d bytes at held g rest = record {
    log = (fd, take g.k (drop d.position bytes)) ∷ rest.log;
    after = rest.after;
    done = rw (g.done, rest.done) refl;
    kept = rest.kept ∙ g.kept;
    each = λ fd' d' bytes' at' held'. elim (Bool-cases (fd == fd')) [
      | inl same ↦
          let e : fd ≡ fd' = (==_iff fd fd').0 same in
          let d-eq : d ≡ d' = some-eq (sym at ∙ (ap (get_elem? s.descriptors) e ∙ at')) in
          let b-eq : bytes ≡ bytes' = some-eq (
            sym held
            ∙ (ap (λ (t : FileDescriptor). get_elem? (contents content s) t.vnode) d-eq ∙ held')) in
          let lt = get_elem?-lt s.descriptors fd d at in
          let moved = ap (λ l. get_elem? l fd) g.moved ∙ get_elem?-set_self s.descriptors fd _ lt in
          let first = Followed-self fd d bytes g.k rest.after rest.log g.inside (
            rest.each fd (record d { position = d.position + g.k }) bytes moved
              (ap (λ c. get_elem? c d.vnode) g.kept ∙ held)) in
          let log = (fd, take g.k (drop d.position bytes)) ∷ rest.log in
          subst (λ b. Followed rest.after log fd' d' b) b-eq
            (subst (λ t. Followed rest.after log fd' t bytes) d-eq
              (subst (λ f. Followed rest.after log f d bytes) e first))
      | inr other ↦
          let ne : fd ≢ fd' = λ e. let yes = (==_iff fd fd').1 e in absurd (cc) in
          let moved =
            ap (λ l. get_elem? l fd') g.moved
            ∙ (get_elem?-set_ne s.descriptors fd fd' _ ne ∙ at') in
          Followed-other fd fd' d' bytes' _ rest.after rest.log other
            (rest.each fd' d' bytes' moved (ap (λ c. get_elem? c d'.vnode) g.kept ∙ held'))
    ];
  }

  -- Where every descriptor stands in a file and may read it: reads by any of them, in any order, come to an
  -- end, change no file, and give each descriptor the bytes of its own file from its position on,
  -- without a gap, also where several descriptors read one file.
  pub read_run-Streamed :
      (turns : List (ℕ × ℕ)) (s : Files I)
      → All (λ turn. turn.0 < length s.descriptors) turns
      → IsOpen s
      → Streamed turns s
  unfolding read_run
  read_run-Streamed [] s valid ready = record {
    log = [];
    after = s;
    done = refl;
    kept = refl;
    each = λ fd d bytes at held. Followed-none s fd d bytes at (ready fd d at) held;
  }
  read_run-Streamed ((fd, count) ∷ turns) s (lt, valid) ready =
      let (d, at) = get_elem?_below s.descriptors fd lt in
      let reads = ready fd d at in
      let g = read-Given ops content cursor file fd count s d at reads in
      let same : length g.after.descriptors ≡ length s.descriptors =
        ap length g.moved ∙ length-set s.descriptors fd _ in
      read_first fd count turns s d reads.1 at reads.2 g (
        read_run-Streamed turns g.after
          (subst (λ n. All (λ (turn : ℕ × ℕ). turn.0 < n) turns) (sym same) valid)
          (Given-IsOpen fd count s d at ready reads.1 reads.2 g))
