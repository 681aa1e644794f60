-- ===== src/Mm/FrameAllocator/Counts.antt =====
-- How the trackers of one frame are counted when one is added or dropped, and the free pages.
use hecto_os.Base.{ℕ, ◌+◌, ◌<◌, ◌≡◌, true, List, [], ◌∷◌, ◌==◌, if◌then◌else◌, count, All, arith}
use hecto_os.Mm.FrameAllocator.{holds, forget}

pub holds-count : (p : ℕ) (held : List ℕ) → holds p held ≡ true → 0 < count p held
unfolding holds
holds-count p [] h = cc
holds-count p (q ∷ qs) h = ground (arith, holds-count p qs)

pub count-holds : (p : ℕ) (held : List ℕ) → 0 < count p held → holds p held ≡ true
unfolding holds
count-holds p [] h = absurd (omega arith)
count-holds p (q ∷ qs) h = ground (arith, count-holds p qs)

pub count-forget :
    (p q : ℕ) (held : List ℕ)
    → holds p held ≡ true
    → count q (forget p held) + (if p == q then 1 else 0) ≡ count q held
unfolding holds forget
count-forget p q [] h = cc
count-forget p q (x ∷ xs) h = ground (arith, count-forget p q xs)

module _ {ℓ} (P : ℕ → Type ℓ) where
  pub All-forget : (p : ℕ) (held : List ℕ) → All P held → All P (forget p held)
  unfolding forget
  All-forget p [] h = h
  All-forget p (x ∷ xs) h = ground (arith, All-forget p xs h.1)

  pub All-holds : (p : ℕ) (held : List ℕ) → All P held → holds p held ≡ true → P p
  unfolding holds
  All-holds p [] h e = absurd (cc)
  All-holds p (x ∷ xs) h e = ground (arith, All-holds p xs h.1)
