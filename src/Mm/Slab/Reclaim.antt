-- ===== src/Mm/Slab/Reclaim.antt =====
-- free of a chunk of a zone.
use hecto_os.Base.{
  ℕ, ◌+◌, ◌≡◌, ◌≢◌, ◌⊎◌, refl, ap, ◌∙◌, fun_ext, inl, inr, Bool, true, false, not, ◌&&◌, ◌||◌,
  Bool-cases, some, List, [], ◌∷◌, ◌==◌, ==_iff, ltb, if◌then◌else◌, length, arith,
}
use hecto_os.Mm.FrameAllocator.{holds, forget}
use hecto_os.Mm.Slab.Zones.{SlabZone, Slab, magic, zone_free_cnt_limit, set_zone, set_list}
use hecto_os.Mm.Slab.Free.{free_chunk, remove_zone, is_head, has_next_zone, retire_zone}
use hecto_os.Mm.Slab.Chunks.{IsZone, return_zone}
use hecto_os.Mm.Slab.Handout.{self, differs}

-- What the return of a chunk leaves: the zone with that chunk back, and the other zones as they were; a
-- zone is given up only if all of its chunks are back.
pub record Returned (size stale chunk zn : ℕ) (live : List ℕ) (s : Slab) : Type 0 where
  pub after : Slab
  pub done : free_chunk stale chunk zn s ≡ some after
  pub zone : IsZone size (forget chunk live) (after.zones zn)
  pub others : (m : ℕ) → m ≢ zn → after.zones m ≡ s.zones m
  pub kept : ((after.zones zn).z_magic ≡ magic) ⊎ (forget chunk live ≡ [])

abbrev back : ℕ → SlabZone → SlabZone
back chunk z = record z { z_freechunk = chunk ∷ z.z_freechunk; z_nfree = z.z_nfree + 1 }

returned :
    (size stale chunk zn : ℕ) (live : List ℕ) (s after : Slab) (z' : SlabZone)
    → free_chunk stale chunk zn s ≡ some after
    → after.zones ≡ (λ m. if m == zn then z' else s.zones m)
    → IsZone size (forget chunk live) z'
    → (z'.z_magic ≡ magic) ⊎ (forget chunk live ≡ [])
    → Returned size stale chunk zn live s
returned size stale chunk zn live s after z' done zones zone kept =
    let here : after.zones zn ≡ z' = ap (λ zs. zs zn) zones ∙ rw (self zn) refl in
    record {
      after = after;
      done = done;
      zone = rw here zone;
      others = λ m ne. ap (λ zs. zs m) zones ∙ rw (differs m zn ne) refl;
      kept = rw here kept;
    }

retire_zone-zones : (stale zn : ℕ) (s : Slab) → (retire_zone stale zn s).zones ≡ s.zones
unfolding retire_zone
retire_zone-zones stale zn s = elim (Bool-cases (ltb (length s.zone_free) zone_free_cnt_limit)) [
  | inl room ↦ rw room refl
  | inr full ↦ rw full refl
]

set_twice :
    (zn : ℕ) (z z' : SlabZone) (s : Slab)
    → (set_zone zn z' (set_zone zn z s)).zones ≡ (λ m. if m == zn then z' else s.zones m)
set_twice zn z z' s =
    fun_ext
      (λ m. elim (Bool-cases (m == zn)) [ inl this ↦ rw this refl | inr other ↦ rw other refl ])

-- The zone is in the list of its class, or has no free chunk.
abbrev pub Listed : ℕ → Slab → Type 0
Listed zn s =
    ((list : List ℕ) × (remove_zone zn (s.zone_array (s.zones zn).z_zoneindex) ≡ some list))
    ⊎ ((s.zones zn).z_nfree ≡ 0)

-- All of its chunks are back with this one, and there is another zone in the list.
abbrev whole_and_spare : ℕ → Slab → Bool
whole_and_spare zn s =
    let z = s.zones zn in
    (z.z_nfree + 1 == z.z_nmax)
    && (has_next_zone zn (s.zone_array z.z_zoneindex)
        || not (is_head zn (s.zone_array z.z_zoneindex)))

all_back : (live : List ℕ) (n m : ℕ) → length live + n ≡ m → n ≡ m → live ≡ []
all_back [] n m e f = refl
all_back (c ∷ live) n m e f = absurd (omega arith)

-- The zone does not depend on the number that marks it.
unmark :
    {size : ℕ} {live : List ℕ} {z : SlabZone} (mark : ℕ)
    → IsZone size live z
    → IsZone size live (record z { z_magic = mark })
unmark mark v = record {
  used = v.used;
  free_count = v.free_count;
  live_count = v.live_count;
  live_at = v.live_at;
  free_at = v.free_at;
  once = v.once;
}

both_true : (a b : Bool) → (a && b) ≡ true → a ≡ true
both_true true b h = refl
both_true false b h = absurd (cc)

retired :
    (size stale chunk zn : ℕ) (live : List ℕ) (s : Slab)
    → IsZone size live (s.zones zn)
    → (s.zones zn).z_magic ≡ magic
    → holds chunk live ≡ true
    → Listed zn s
    → ((s.zones zn).z_magic == magic) ≡ true
    → ((s.zones zn).z_nfree + 1 == 1) ≡ false
    → whole_and_spare zn s ≡ true
    → Returned size stale chunk zn live s
unfolding free_chunk
retired size stale chunk zn live s v is_magic out (inr empty) tested later whole =
    absurd (let yes = (==_iff ((s.zones zn).z_nfree + 1) 1).1 (omega arith) in cc)
retired size stale chunk zn live s v is_magic out (inl (list, removed)) tested later whole =
    let z = s.zones zn in
    let zone = return_zone size chunk live z v out in
    let s2 =
      set_list z.z_zoneindex list
        (set_zone zn (record (back chunk z) { z_magic = 0 }) (set_zone zn (back chunk z) s)) in
    let full : z.z_nfree + 1 ≡ z.z_nmax =
      (==_iff (z.z_nfree + 1) z.z_nmax).0 (both_true _ _ whole) in
    returned size stale chunk zn live s (retire_zone stale zn s2)
      (record (back chunk z) { z_magic = 0 }) (rw (tested, later, whole, removed) refl)
      (retire_zone-zones stale zn s2
        ∙ set_twice zn (back chunk z) (record (back chunk z) { z_magic = 0 }) s)
      (unmark 0 zone)
      (inr (all_back (forget chunk live) (z.z_nfree + 1) z.z_nmax zone.live_count full))

-- A zone that is in the list of its class where it has a free chunk, and a chunk of it that is out: free
-- does not panic, the chunk is back, and the other zones stay. The zone is given up only where all of its
-- chunks are back.
pub free_chunk-Returned :
    (size stale chunk zn : ℕ) (live : List ℕ) (s : Slab)
    → IsZone size live (s.zones zn)
    → (s.zones zn).z_magic ≡ magic
    → holds chunk live ≡ true
    → Listed zn s
    → Returned size stale chunk zn live s
unfolding free_chunk
free_chunk-Returned size stale chunk zn live s v is_magic out listed =
    let z = s.zones zn in
    let zone = return_zone size chunk live z v out in
    let tested : (z.z_magic == magic) ≡ true = (==_iff z.z_magic magic).1 is_magic in
    elim (Bool-cases (z.z_nfree + 1 == 1)) [
      | inl first ↦
          returned size stale chunk zn live s
            (set_list z.z_zoneindex (zn ∷ s.zone_array z.z_zoneindex)
              (set_zone zn (back chunk z) s))
            (back chunk z) (rw (tested, first) refl) refl zone (inl is_magic)
      | inr later ↦ elim (Bool-cases (whole_and_spare zn s)) [
        | inl whole ↦ retired size stale chunk zn live s v is_magic out listed tested later whole
        | inr part ↦
            returned size stale chunk zn live s (set_zone zn (back chunk z) s) (back chunk z)
              (rw (tested, later, part) refl) refl zone (inl is_magic)
      ]
    ]
