-- ===== src/Fs/File/Ends.antt =====
-- The two ends of a copy between files.
use hecto_os.Base.{
  ℕ, ◌+◌, ◌≤◌, ◌<◌, ◌≡◌, ◌≢◌, sym, ap, ◌∙◌, true, some, List, length, get_elem?, set, take, drop,
  length-set, get_elem?-set_self, get_elem?-set_ne, arith,
}
use hecto_os.Fs.File.Slices.{take-drop_append, length-take-drop, overwrite, overwrite-append}
use hecto_os.Fs.File.{Files, readable, writable}
use hecto_os.Fs.File.Streams.{contents}
use hecto_os.Fs.File.Runs.{get_elem?-lt}

-- Two descriptors, and the two files that they stand in
pub record Ends : Type 0 where
  pub in_fd : ℕ
  pub out : ℕ
  pub in_flags : ℕ
  pub out_flags : ℕ
  pub in_vnode : ℕ
  pub out_vnode : ℕ

-- The two descriptors are two, as are the two files, and one may be read and the other written.
pub record IsPair (e : Ends) : Type 0 where
  pub apart : e.in_fd ≢ e.out
  pub two_files : e.in_vnode ≢ e.out_vnode
  pub may_read : readable e.in_flags ≡ true
  pub may_write : writable e.out_flags ≡ true

module _ {I : Type 0} (content : I → List ℕ) (e : Ends) where
  -- The descriptor read from is at `p` in a file of bytes `a`, and the one written to at `q` in `b`.
  pub record At (a : List ℕ) (p q : ℕ) (b : List ℕ) (s : Files I) : Type 0 where
    pub in_at :
        get_elem? s.descriptors e.in_fd
        ≡ some (record { flags = e.in_flags; position = p; vnode = e.in_vnode })
    pub out_at :
        get_elem? s.descriptors e.out
        ≡ some (record { flags = e.out_flags; position = q; vnode = e.out_vnode })
    pub in_bytes : get_elem? (contents content s) e.in_vnode ≡ some a
    pub out_bytes : get_elem? (contents content s) e.out_vnode ≡ some b

  pub At-same :
      (a : List ℕ) {p p' q q' : ℕ} {b b' : List ℕ} {s : Files I}
      → p ≡ p'
      → q ≡ q'
      → b ≡ b'
      → At a p q b s
      → At a p' q' b' s
  At-same a p-eq q-eq b-eq at = rw (sym p-eq, sym q-eq, sym b-eq) at

  -- After a read and a write
  pub At-moved :
      (a : List ℕ) (p q k : ℕ) (b b' : List ℕ) (s s1 s2 : Files I)
      → IsPair e
      → At a p q b s
      → s1.descriptors
        ≡ set s.descriptors e.in_fd
            (record { flags = e.in_flags; position = p + k; vnode = e.in_vnode })
      → contents content s1 ≡ contents content s
      → s2.descriptors
        ≡ set s1.descriptors e.out
            (record { flags = e.out_flags; position = q + k; vnode = e.out_vnode })
      → contents content s2 ≡ set (contents content s1) e.out_vnode b'
      → At a (p + k) (q + k) b' s2
  At-moved a p q k b b' s s1 s2 two at d1 c1 d2 c2 =
      let in_lt = get_elem?-lt s.descriptors e.in_fd _ at.in_at in
      let out_lt = get_elem?-lt s.descriptors e.out _ at.out_at in
      let lt : e.out < length s1.descriptors = omega (
        arith,
        ap length d1,
        length-set s.descriptors e.in_fd
            (record { flags = e.in_flags; position = p + k; vnode = e.in_vnode }),
      ) in
      let bytes_lt = get_elem?-lt (contents content s) e.out_vnode b at.out_bytes in
      record {
        in_at =
            ap (λ l. get_elem? l e.in_fd) d2
            ∙ (get_elem?-set_ne s1.descriptors e.out e.in_fd _ (λ q. two.apart (sym q))
                ∙ (ap (λ l. get_elem? l e.in_fd) d1
                    ∙ get_elem?-set_self s.descriptors e.in_fd _ in_lt));
        out_at = ap (λ l. get_elem? l e.out) d2 ∙ get_elem?-set_self s1.descriptors e.out _ lt;
        in_bytes =
            ap (λ l. get_elem? l e.in_vnode) c2
            ∙ (get_elem?-set_ne (contents content s1) e.out_vnode e.in_vnode _
                  (λ q. two.two_files (sym q))
                ∙ (ap (λ l. get_elem? l e.in_vnode) c1 ∙ at.in_bytes));
        out_bytes =
            ap (λ l. get_elem? l e.out_vnode) (c2 ∙ ap (λ l. set l e.out_vnode b') c1)
            ∙ get_elem?-set_self (contents content s) e.out_vnode b' bytes_lt;
      }

pub joined_bytes :
    (a b : List ℕ) (p q k n : ℕ)
    → p + k ≤ length a
    → q ≤ length b
    → overwrite (q + k) (take n (drop (p + k) a)) (overwrite q (take k (drop p a)) b)
      ≡ overwrite q (take (k + n) (drop p a)) b
joined_bytes a b p q k n inside le =
    let len = length-take-drop k p a inside in
    let both = overwrite-append q (take k (drop p a)) (take n (drop (p + k) a)) b le in
    ap (λ i. overwrite (q + i) (take n (drop (p + k) a)) (overwrite q (take k (drop p a)) b))
      (sym len)
    ∙ (both ∙ ap (λ t. overwrite q t b) (take-drop_append k n p a inside))
