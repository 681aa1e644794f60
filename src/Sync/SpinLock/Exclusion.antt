-- ===== src/Sync/SpinLock/Exclusion.antt =====
-- One guard for a lock, and interrupts off below a guard.
use hecto_os.Base.{
  ℕ, ◌+◌, ◌≤◌, ◌≡◌, ◌≢◌, refl, sym, ap, subst, inl, inr, Bool, false, not, Bool-cases, some,
  some-eq, List, [], ◌∷◌, ◌==◌, ==_iff, if◌then◌else◌, >>=-eq-some, >>-eq-some, arith,
}
use hecto_os.Sync.SpinLock.{
  LockGuard, Harts, LockOp, take_lock, leave, lock, drop_first, drop_guard, lock_step, lock_run,
}

-- How many of the guards are for a lock
abbrev pub guards_of : ℕ → List LockGuard → ℕ
guards_of l [] = 0
guards_of l (g ∷ gs) = (if g.of_lock == l then 1 else 0) + guards_of l gs

-- Interrupts are off while there is a guard, and the guards have kept what they were before.
abbrev pub Nested : Bool → List LockGuard → Bool → Type 0
Nested before [] sie = sie ≡ before
Nested before (g ∷ gs) sie = (sie ≡ false) × Nested before gs g.sstatus

pub record IsExclusive (before : ℕ → Bool) (s : Harts) : Type 0 where
  pub counted : (l h : ℕ) → guards_of l (s.guards h) ≤ (if s.taken l then 1 else 0)
  pub exclusive : (l h h' : ℕ) → h ≢ h' → guards_of l (s.guards h) + guards_of l (s.guards h') ≤ 1
  pub nested : (h : ℕ) → Nested (before h) (s.guards h) (s.sie h)

lock_lem :
    (before : ℕ → Bool) (hart l : ℕ) (s s' : Harts)
    → IsExclusive before s
    → lock hart l s ≡ some s'
    → IsExclusive before s'
unfolding lock
lock_lem before hart l s s' v e =
    let (free, done) = >>-eq-some (not (s.taken l)) _ e in
    subst (IsExclusive before) (some-eq done) (record {
      counted = λ k h. ground (arith, free, v.counted k h, v.counted k hart);
      exclusive = λ k h h' ne.
          ground (
            arith,
            free,
            ne,
            v.counted k h,
            v.counted k h',
            v.counted k hart,
            v.exclusive k h h' ne,
          );
      nested = λ h. elim (Bool-cases (h == hart)) [
        | inl this ↦
            let is : h ≡ hart = (==_iff h hart).0 this in
            rw this (refl, subst (λ j. Nested (before h) (s.guards j) (s.sie j)) is (v.nested h))
        | inr other ↦ rw other (v.nested h)
      ];
    })

drop_first_lem :
    (before : ℕ → Bool) (hart : ℕ) (gs : List LockGuard) (s s' : Harts)
    → IsExclusive before s
    → s.guards hart ≡ gs
    → drop_first hart gs s ≡ some s'
    → IsExclusive before s'
unfolding drop_first
drop_first_lem before hart [] s s' v is e = absurd (cc)
drop_first_lem before hart (g ∷ gs) s s' v is e =
    let one =
      subst (λ l. guards_of g.of_lock l ≤ (if s.taken g.of_lock then 1 else 0)) is
        (v.counted g.of_lock hart) in
    let (off, saved) = subst (λ l. Nested (before hart) l (s.sie hart)) is (v.nested hart) in
    let counts : (k : ℕ)
        → guards_of k (s.guards hart) ≡ (if g.of_lock == k then 1 else 0) + guards_of k gs =
      λ k. ap (guards_of k) is in
    subst (IsExclusive before) (some-eq e) (record {
      counted = λ k h. dropped_counted before hart g gs s v counts k h;
      exclusive = λ k h h' ne. ground (arith, ne, counts k, v.exclusive k h h' ne);
      nested = λ h. elim (Bool-cases (h == hart)) [
        | inl this ↦
            let at : h ≡ hart = (==_iff h hart).0 this in
            rw (this, off) (subst (λ j. Nested (before j) gs g.sstatus) (sym at) saved)
        | inr other ↦ rw other (v.nested h)
      ];
    })
  where
    dropped_counted :
        (before : ℕ → Bool) (hart : ℕ) (g : LockGuard) (gs : List LockGuard) (s : Harts)
        → IsExclusive before s
        → ((k : ℕ)
            → guards_of k (s.guards hart) ≡ (if g.of_lock == k then 1 else 0) + guards_of k gs)
        → (k h : ℕ)
        → guards_of k (if h == hart then gs else s.guards h)
          ≤ (if (if k == g.of_lock then false else s.taken k) then 1 else 0)
    dropped_counted before hart g gs s v counts k h = elim (Bool-cases (h == hart)) [
      | inl this ↦ ground (arith, this, counts k, v.counted k hart)
      | inr other ↦
          let ne : h ≢ hart = λ e. let yes = (==_iff h hart).1 e in absurd (cc) in
          ground (arith, other, counts k, v.counted k h, v.exclusive k h hart ne)
    ]

lock_step_lem :
    (before : ℕ → Bool) (op : LockOp) (s s' : Harts)
    → IsExclusive before s
    → lock_step op s ≡ some s'
    → IsExclusive before s'
unfolding lock_step drop_guard
lock_step_lem before (take_lock hart l) s s' v e = lock_lem before hart l s s' v e
lock_step_lem before (leave hart) s s' v e =
    drop_first_lem before hart (s.guards hart) s s' v refl e

-- Whatever harts take and leave locks, in any order of their steps, each leaving the lock that it took last:
-- no lock has two guards, on one hart or on two; while a hart has a guard, its interrupts are off; and when
-- it has none, they are as they were before the first.
pub lock_run-IsExclusive :
    (before : ℕ → Bool) (ops : List LockOp) (s s' : Harts)
    → IsExclusive before s
    → lock_run ops s ≡ some s'
    → IsExclusive before s'
unfolding lock_run
lock_run-IsExclusive before [] s s' v e = subst (IsExclusive before) (some-eq e) v
lock_run-IsExclusive before (op ∷ ops) s s' v e =
    let (s1, first, rest) = >>=-eq-some (lock_step op s) _ e in
    lock_run-IsExclusive before ops s1 s' (lock_step_lem before op s s1 v first) rest
