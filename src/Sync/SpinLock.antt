-- ===== src/Sync/SpinLock.antt =====
-- kernel/src/sync/spinlock.rs: locks that are taken with the interrupts of the hart off. A lock and a hart
-- are numbers. The mutex inside (the vendored crate spin) is whether it is taken: `lock` of one that is taken spins, so
-- that it has no step, here `none`. The guards of a hart are a list, the last one first.
pub mod Exclusion
mod Tests
use hecto_os.Base.{
  ℕ, Bool, true, false, not, ◌||◌, Option, none, some, List, [], ◌∷◌, ◌==◌, if◌then◌else◌, ◌>>=◌,
  ◌>>◌,
}

-- A guard has its lock, and the bit SIE of sstatus from before.
pub record LockGuard : Type 0 where
  pub of_lock : ℕ
  pub sstatus : Bool

pub record Harts : Type 0 where
  pub taken : ℕ → Bool
  pub sie : ℕ → Bool
  pub guards : ℕ → List LockGuard

abbrev pub update {ℓ} : {A : Type ℓ} → (ℕ → A) → ℕ → A → ℕ → A
update f n a = λ m. if m == n then a else f m

-- SpinLock::lock on a hart
unfoldable pub lock : (hart of_lock : ℕ) → Harts → Option Harts
lock hart of_lock s = do
  not (s.taken of_lock)
  some (record {
    taken = update s.taken of_lock true;
    sie = update s.sie hart false;
    guards =
        update s.guards hart (record { of_lock = of_lock; sstatus = s.sie hart } ∷ s.guards hart);
  })

-- The drop of the last guard of a hart
drop_first : ℕ → List LockGuard → Harts → Option Harts
drop_first hart [] s = none
drop_first hart (guard ∷ rest) s = some (record {
  taken = update s.taken guard.of_lock false;
  sie = update s.sie hart (s.sie hart || guard.sstatus);
  guards = update s.guards hart rest;
})

unfoldable pub drop_guard : ℕ → Harts → Option Harts
unfolding drop_first
drop_guard hart s = drop_first hart (s.guards hart) s

pub data LockOp : Type 0 where
  take_lock : ℕ → ℕ → LockOp
  leave : ℕ → LockOp

unfoldable pub lock_step : LockOp → Harts → Option Harts
unfolding lock drop_guard
lock_step (take_lock hart of_lock) s = lock hart of_lock s
lock_step (leave hart) s = drop_guard hart s

unfoldable pub lock_run : List LockOp → Harts → Option Harts
unfolding lock_step
lock_run [] s = some s
lock_run (op ∷ ops) s = do s' ← lock_step op s; lock_run ops s'
