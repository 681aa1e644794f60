-- ===== src/Mm/Slab/Handout.antt =====
-- malloc and free on a zone: no chunk is out twice.
use hecto_os.Base.{
  ℕ, ◌+◌, ◌-◌, ◌<◌, ◌≡◌, ◌≢◌, refl, ap, inl, inr, true, false, Bool-cases, some, List, [], ◌∷◌,
  ◌==◌, ==_iff, if◌then◌else◌, length, count, arith,
}
use hecto_os.Mm.Slab.Zones.{SlabZone, Slab, magic, set_zone, set_list, malloc_zone, pop_chunk}
use hecto_os.Mm.Slab.Chunks.{IsZone, chunk_at, count_unused, grow_zone, pop_zone}

-- What a chunk from a zone leaves: the zone with one more chunk out, which was not out, and the other
-- zones as they were.
pub record Handed (size zi zn : ℕ) (live rest : List ℕ) (s : Slab) : Type 0 where
  pub chunk : ℕ
  pub after : Slab
  pub done : malloc_zone size zi zn rest s ≡ some (chunk, after)
  pub fresh : count chunk live ≡ 0
  pub zone : IsZone size (chunk ∷ live) (after.zones zn)
  pub others : (m : ℕ) → m ≢ zn → after.zones m ≡ s.zones m
  pub listed : after.zone_array zi ≡ (if (s.zones zn).z_nfree == 1 then rest else s.zone_array zi)

pub self : (n : ℕ) → (n == n) ≡ true
self n = (==_iff n n).1 refl

pub differs : (m n : ℕ) → m ≢ n → (m == n) ≡ false
differs m n ne = ground (arith, ne)

-- The slab with the list of the zone's class as malloc leaves it
abbrev unlisted : ℕ → SlabZone → List ℕ → Slab → Slab
unlisted zi z rest s = if z.z_nfree - 1 == 0 then set_list zi rest s else s

unlisted-zones :
    (zi : ℕ) (z : SlabZone) (rest : List ℕ) (s : Slab) → (unlisted zi z rest s).zones ≡ s.zones
unlisted-zones zi z rest s = elim (Bool-cases (z.z_nfree - 1 == 0)) [
  | inl last ↦ rw last refl
  | inr more ↦ rw more refl
]

unlisted-array :
    (zi : ℕ) (z : SlabZone) (rest : List ℕ) (s : Slab)
    → 0 < z.z_nfree
    → (unlisted zi z rest s).zone_array zi ≡ (if z.z_nfree == 1 then rest else s.zone_array zi)
unlisted-array zi z rest s some_free = elim (Bool-cases (z.z_nfree - 1 == 0)) [
  | inl last ↦ let one : (z.z_nfree == 1) ≡ true = ground arith in rw (last, one, self zi) refl
  | inr more ↦ let many : (z.z_nfree == 1) ≡ false = ground arith in rw (more, many) refl
]

handed :
    (size zi zn : ℕ) (live rest : List ℕ) (s : Slab) (chunk : ℕ) (z' : SlabZone)
    → 0 < (s.zones zn).z_nfree
    → malloc_zone size zi zn rest s ≡ some (chunk, set_zone zn z' (unlisted zi (s.zones zn) rest s))
    → count chunk live ≡ 0
    → IsZone size (chunk ∷ live) z'
    → Handed size zi zn live rest s
handed size zi zn live rest s chunk z' some_free done fresh zone = record {
  chunk = chunk;
  after = set_zone zn z' (unlisted zi (s.zones zn) rest s);
  done = done;
  fresh = fresh;
  zone = rw (self zn) zone;
  others =
      λ m ne. rw (differs m zn ne) (ap (λ zones. zones m) (unlisted-zones zi (s.zones zn) rest s));
  listed = unlisted-array zi (s.zones zn) rest s some_free;
}

Handed-free :
    (size zi zn : ℕ) (live rest free : List ℕ) (s : Slab)
    → IsZone size live (s.zones zn)
    → 0 < (s.zones zn).z_nfree
    → (s.zones zn).z_uindex ≡ (s.zones zn).z_nmax
    → (s.zones zn).z_freechunk ≡ free
    → Handed size zi zn live rest s
unfolding malloc_zone pop_chunk
Handed-free size zi zn live rest [] s v some_free full is =
    absurd (omega (arith, v.free_count, ap length is))
Handed-free size zi zn live rest (c ∷ free) s v some_free full is =
    let (fresh, zone) = pop_zone size c live free (s.zones zn) v full is in
    let nonzero : ((s.zones zn).z_nfree == 0) ≡ false = ground arith in
    let all_used : ((s.zones zn).z_uindex == (s.zones zn).z_nmax) ≡ true = ground (arith, full) in
    handed size zi zn live rest s c
      (record (s.zones zn) { z_nfree = (s.zones zn).z_nfree - 1; z_freechunk = free }) some_free
      (rw (nonzero, all_used, is) refl) fresh zone

-- A zone of a list has a free chunk; then a chunk of it is given out, without a panic: one that was not
-- out, so that no chunk is out twice. The other zones stay, and the zone leaves its list with its last
-- free chunk.
pub malloc_zone-Handed :
    (size zi zn : ℕ) (live rest : List ℕ) (s : Slab)
    → 0 < size
    → IsZone size live (s.zones zn)
    → 0 < (s.zones zn).z_nfree
    → Handed size zi zn live rest s
unfolding malloc_zone
malloc_zone-Handed size zi zn live rest s pos v some_free =
    let z = s.zones zn in
    elim (Bool-cases (z.z_uindex == z.z_nmax)) [
      | inl full ↦
          Handed-free size zi zn live rest z.z_freechunk s v some_free
            ((==_iff z.z_uindex z.z_nmax).0 full) refl
      | inr room ↦
          let nonzero : (z.z_nfree == 0) ≡ false = ground arith in
          let more : z.z_uindex < z.z_nmax = ground (arith, v.used) in
          handed size zi zn live rest s (chunk_at z.z_baseptr size z.z_uindex)
            (record z { z_nfree = z.z_nfree - 1; z_uindex = z.z_uindex + 1 }) some_free
            (rw (nonzero, room) refl) (count_unused z.z_baseptr size z.z_uindex live pos v.live_at)
            (grow_zone size live z pos v more)
    ]

-- A zone that malloc makes has its first chunk out and all others free.
pub new_zone-IsZone :
    (size base nmax zi : ℕ)
    → 0 < nmax
    → IsZone size (base ∷ []) (record {
      z_magic = magic;
      z_nfree = nmax - 1;
      z_nmax = nmax;
      z_uindex = 1;
      z_baseptr = base;
      z_zoneindex = zi;
      z_freechunk = [];
    })
new_zone-IsZone size base nmax zi some_chunk = record {
  used = omega arith;
  free_count = omega arith;
  live_count = omega arith;
  live_at = ((0, omega arith, omega arith), tt);
  free_at = tt;
  once = λ i lt. let first : i ≡ 0 = omega arith in rw first (ground arith);
}
