-- ===== src/Sync/SpinLock/Tests.antt =====
-- Two harts and two locks.
use hecto_os.Base.{◌≡◌, refl, false, Option, none, some, List, [], ◌∷◌, ◌==◌, arith}
use hecto_os.Sync.SpinLock.{Harts, LockOp, take_lock, leave, lock_run}
use hecto_os.Sync.SpinLock.Exclusion.{IsExclusive, lock_run-IsExclusive}

abbrev idle : Harts
idle = record { taken = λ l. false; sie = λ h. h == 1; guards = λ h. [] }

idle-IsExclusive : IsExclusive (λ h. h == 1) idle
idle-IsExclusive = record {
  counted = λ l h. omega arith;
  exclusive = λ l h h' ne. omega arith;
  nested = λ h. refl;
}

abbrev turns : List LockOp
turns = take_lock 1 5 ∷ take_lock 0 6 ∷ take_lock 1 7 ∷ leave 1 ∷ leave 0 ∷ take_lock 0 7 ∷ []

abbrev or_idle : Option Harts → Harts
or_idle none = idle
or_idle (some s) = s

unfoldable reached : Harts
unfolding lock_run
reached = or_idle (lock_run turns idle)

turns-reached : lock_run turns idle ≡ some reached
unfolding reached
turns-reached = refl

lock_run-IsExclusive_example : IsExclusive (λ h. h == 1) reached
lock_run-IsExclusive_example =
    lock_run-IsExclusive (λ h. h == 1) turns idle reached idle-IsExclusive turns-reached
