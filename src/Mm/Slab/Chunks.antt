-- ===== src/Mm/Slab/Chunks.antt =====
-- The chunks of one zone: which are out, and which are free.
use hecto_os.Base.{
  ℕ, suc, ◌+◌, ◌*◌, ◌-◌, ◌≤◌, ◌<◌, ◌≡◌, ◌≢◌, refl, sym, ap, subst, inl, inr, true, Bool-cases, List,
  [], ◌∷◌, ◌==◌, ==_iff, length, count, All, arith,
}
use native.Mathlib.Nat.{mul-le-mul_right, suc-mul}
use hecto_os.Mm.FrameAllocator.{holds, forget}
use hecto_os.Mm.FrameAllocator.Counts.{count-forget, All-forget, All-holds}
use hecto_os.Mm.Slab.Zones.{SlabZone}

-- The chunk of an index
abbrev pub chunk_at : ℕ → ℕ → ℕ → ℕ
chunk_at base size i = base + i * size

abbrev pub Below : ℕ → ℕ → ℕ → ℕ → Type 0
Below base size u c = (i : ℕ) × (i < u) × (c ≡ chunk_at base size i)

-- The chunks of a zone, `live` of which are out: each chunk that was ever used is out or in the list of
-- free chunks, once.
pub record IsZone (size : ℕ) (live : List ℕ) (z : SlabZone) : Type 0 where
  pub used : z.z_uindex ≤ z.z_nmax
  pub free_count : length z.z_freechunk + (z.z_nmax - z.z_uindex) ≡ z.z_nfree
  pub live_count : length live + z.z_nfree ≡ z.z_nmax
  pub live_at : All (Below z.z_baseptr size z.z_uindex) live
  pub free_at : All (Below z.z_baseptr size z.z_uindex) z.z_freechunk
  pub once :
      (i : ℕ)
      → i < z.z_uindex
      → count (chunk_at z.z_baseptr size i) live + count (chunk_at z.z_baseptr size i) z.z_freechunk
        ≡ 1

chunk_at-lt : (base size i j : ℕ) → 0 < size → i < j → chunk_at base size i < chunk_at base size j
chunk_at-lt base size i j pos lt =
    omega (arith, mul-le-mul_right {m = suc i} {n = j} size (omega arith), suc-mul i size)

chunk_at-ne : (base size i j : ℕ) → 0 < size → i < j → chunk_at base size i ≢ chunk_at base size j
chunk_at-ne base size i j pos lt e = absurd (omega (arith, chunk_at-lt base size i j pos lt))

-- A chunk that was never used is in no list.
pub count_unused :
    (base size u : ℕ) (l : List ℕ)
    → 0 < size
    → All (Below base size u) l
    → count (chunk_at base size u) l ≡ 0
count_unused base size u [] pos all = refl
count_unused base size u (c ∷ l) pos ((i, lt, is), all) =
    let ne = chunk_at-lt base size i u pos lt in ground (arith, count_unused base size u l pos all)

All-Below-suc :
    (base size u : ℕ) (l : List ℕ) → All (Below base size u) l → All (Below base size (suc u)) l
All-Below-suc base size u [] all = tt
All-Below-suc base size u (c ∷ l) ((i, lt, is), all) =
    ((i, omega arith, is), All-Below-suc base size u l all)

once_new :
    (c : ℕ) (live free : List ℕ)
    → count c live ≡ 0
    → count c free ≡ 0
    → count c (c ∷ live) + count c free ≡ 1
once_new c live free a b = ground (arith, a, b)

once_old :
    (c d : ℕ) (live free : List ℕ)
    → d < c
    → count d live + count d free ≡ 1
    → count d (c ∷ live) + count d free ≡ 1
once_old c d live free lt h = ground (arith, h)

length-forget :
    (c : ℕ) (live : List ℕ) → holds c live ≡ true → suc (length (forget c live)) ≡ length live
unfolding holds forget
length-forget c [] out = absurd (cc)
length-forget c (x ∷ live) out = ground (arith, length-forget c live)

-- One more chunk of those that were never used
pub grow_zone :
    (size : ℕ) (live : List ℕ) (z : SlabZone)
    → 0 < size
    → IsZone size live z
    → z.z_uindex < z.z_nmax
    → IsZone size
        (chunk_at z.z_baseptr size z.z_uindex ∷ live)
        (record z { z_nfree = z.z_nfree - 1; z_uindex = z.z_uindex + 1 })
grow_zone size live z pos v more =
    let up : suc z.z_uindex ≡ z.z_uindex + 1 = omega arith in
    record {
      used = omega arith;
      free_count = omega (arith, v.free_count);
      live_count = omega (arith, v.live_count, v.free_count);
      live_at = (
        (z.z_uindex, omega arith, refl),
        subst (λ u. All (Below z.z_baseptr size u) live) up
            (All-Below-suc z.z_baseptr size z.z_uindex live v.live_at),
      );
      free_at =
          subst (λ u. All (Below z.z_baseptr size u) z.z_freechunk) up
            (All-Below-suc z.z_baseptr size z.z_uindex z.z_freechunk v.free_at);
      once = λ i lt. grow_once i lt;
    }
  where
    grow_once :
        (i : ℕ)
        → i < z.z_uindex + 1
        → count (chunk_at z.z_baseptr size i) (chunk_at z.z_baseptr size z.z_uindex ∷ live)
            + count (chunk_at z.z_baseptr size i) z.z_freechunk
          ≡ 1
    grow_once i lt = elim (Bool-cases (i == z.z_uindex)) [
      | inl same ↦
          let e : i ≡ z.z_uindex = (==_iff i z.z_uindex).0 same in
          subst
            (λ j.
              count (chunk_at z.z_baseptr size j) (chunk_at z.z_baseptr size z.z_uindex ∷ live)
                + count (chunk_at z.z_baseptr size j) z.z_freechunk
              ≡ 1)
            (sym e)
            (once_new (chunk_at z.z_baseptr size z.z_uindex) live z.z_freechunk
              (count_unused z.z_baseptr size z.z_uindex live pos v.live_at)
              (count_unused z.z_baseptr size z.z_uindex z.z_freechunk pos v.free_at))
      | inr other ↦
          let ne : i ≢ z.z_uindex = λ e. let yes = (==_iff i z.z_uindex).1 e in absurd (cc) in
          let below : i < z.z_uindex = omega arith in
          once_old (chunk_at z.z_baseptr size z.z_uindex) (chunk_at z.z_baseptr size i) live
            z.z_freechunk (chunk_at-lt z.z_baseptr size i z.z_uindex pos below) (v.once i below)
    ]

first_free :
    (c : ℕ) (live rest free : List ℕ)
    → free ≡ c ∷ rest
    → count c live + count c free ≡ 1
    → count c live ≡ 0
first_free c live rest free is here = let counted = ap (count c) is in ground (arith, here, counted)

-- The first of the free chunks
pub pop_zone :
    (size c : ℕ) (live rest : List ℕ) (z : SlabZone)
    → IsZone size live z
    → z.z_uindex ≡ z.z_nmax
    → z.z_freechunk ≡ c ∷ rest
    → (count c live ≡ 0)
      × IsZone size (c ∷ live) (record z { z_nfree = z.z_nfree - 1; z_freechunk = rest })
pop_zone size c live rest z v full is =
    let all = subst (All (Below z.z_baseptr size z.z_uindex)) is v.free_at in
    let (i, lt, at) = all.0 in
    let len = ap length is in
    (
      first_free c live rest z.z_freechunk is
          (subst (λ a. count a live + count a z.z_freechunk ≡ 1) (sym at) (v.once i lt)),
      record {
        used = v.used;
        free_count = omega (arith, v.free_count, len);
        live_count = omega (arith, v.live_count, v.free_count, len);
        live_at = (all.0, v.live_at);
        free_at = all.1;
        once = λ j below.
            let counted = ap (count (chunk_at z.z_baseptr size j)) is in
            omega (arith, v.once j below, counted);
      },
    )

-- A chunk that comes back
pub return_zone :
    (size c : ℕ) (live : List ℕ) (z : SlabZone)
    → IsZone size live z
    → holds c live ≡ true
    → IsZone size
        (forget c live)
        (record z { z_freechunk = c ∷ z.z_freechunk; z_nfree = z.z_nfree + 1 })
return_zone size c live z v out = record {
  used = v.used;
  free_count = omega (arith, v.free_count);
  live_count = omega (arith, v.live_count, length-forget c live out);
  live_at = All-forget (Below z.z_baseptr size z.z_uindex) c live v.live_at;
  free_at = (All-holds (Below z.z_baseptr size z.z_uindex) c live v.live_at out, v.free_at);
  once = λ i lt. omega (arith, v.once i lt, count-forget c (chunk_at z.z_baseptr size i) live out);
}
