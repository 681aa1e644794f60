-- ===== src/Process/Wait/Reap.antt =====
-- Every exit reaches the parent once.
use hecto_os.Base.{
  ℕ, zero, suc, ◌+◌, ◌≤◌, ◌≡◌, refl, ap, ◌∙◌, inl, inr, Option, none, some, List, [], ◌∷◌, ◌==◌,
  if◌then◌else◌, Bool-cases, count, count-append, All, false, arith,
}
use hecto_os.Base.Int.{ℤ, pos, negsuc}
use hecto_os.Process.Wait.{
  Exited, Family, FamilyOp, child_exits, parent_waits, wake, tell_parent, drain_filter, reap,
  reap_any, reap_pid, take_exited, sleep, wait_turn, reaped_pid, family_step, family_run,
}

abbrev pub exits_of : ℕ → List Exited → ℕ
exits_of p [] = 0
exits_of p (e ∷ rest) = (if e.pid == p then 1 else 0) + exits_of p rest

-- How often the child `p` exits in a history.
abbrev pub exits_in : ℕ → List FamilyOp → ℕ
exits_in p [] = 0
exits_in p (child_exits q status ∷ ops) = (if q == p then 1 else 0) + exits_in p ops
exits_in p (parent_waits cur q ∷ ops) = exits_in p ops

drain_filter-exits_of :
    (pid p : ℕ) (list : List Exited)
    → exits_of p (drain_filter pid list).0 + exits_of p (drain_filter pid list).1 ≡ exits_of p list
unfolding drain_filter
drain_filter-exits_of pid p [] = refl
drain_filter-exits_of pid p (e ∷ rest) = elim (Bool-cases (e.pid == pid)) [
  | inl same ↦ rw same (omega (arith, drain_filter-exits_of pid p rest))
  | inr other ↦ rw other (omega (arith, drain_filter-exits_of pid p rest))
]

-- What is drained has the pid asked for.
drain_filter-All : (pid : ℕ) (list : List Exited) → All (λ e. e.pid ≡ pid) (drain_filter pid list).0
unfolding drain_filter
drain_filter-All pid [] = tt
drain_filter-All pid (e ∷ rest) = elim (Bool-cases (e.pid == pid)) [
  | inl same ↦ rw same (ground (arith, same), drain_filter-All pid rest)
  | inr other ↦ rw other (drain_filter-All pid rest)
]

exits_of-other :
    (pid p : ℕ) (list : List Exited)
    → All (λ e. e.pid ≡ pid) list
    → (pid == p) ≡ false
    → exits_of p list ≡ 0
exits_of-other pid p [] all ne = refl
exits_of-other pid p (e ∷ rest) (is, all) ne =
    let not_p : (e.pid == p) ≡ false = rw is ne in
    rw not_p (omega (arith, exits_of-other pid p rest all ne))

-- The child that a turn gives out and those that still wait to be asked for.
abbrev outcome : ℕ → Option (ℕ × ℕ) × Family → ℕ
unfolding reaped_pid
outcome p r = count p (reaped_pid r).0 + exits_of p (reaped_pid r).1.child_exited

sleep-outcome : (cur p : ℕ) (r : Option (ℕ × ℕ) × Family) → outcome p (sleep cur r) ≡ outcome p r
unfolding outcome sleep reaped_pid
sleep-outcome cur p (some found, s) = refl
sleep-outcome cur p (none, s) = refl

reap-outcome :
    (pid p : ℕ) (taken left : List Exited) (s : Family)
    → All (λ e. e.pid ≡ pid) taken
    → exits_of p taken ≤ 1
    → outcome p (reap taken left s) ≡ exits_of p taken + exits_of p left
unfolding outcome reap reaped_pid
reap-outcome pid p [] left s all once = omega arith
reap-outcome pid p (e ∷ more) left s (is, all) once = elim (Bool-cases (e.pid == p)) [
  | inl same ↦
      let no_more : exits_of p more ≡ 0 = ground (arith, same) in rw same (omega (arith, no_more))
  | inr other ↦
      let ne : (pid == p) ≡ false = rw (← is) other in
      rw other (omega (arith, exits_of-other pid p more all ne))
]

take_exited-outcome :
    (pid : ℤ) (p : ℕ) (s : Family)
    → exits_of p s.child_exited ≤ 1
    → outcome p (take_exited pid s) ≡ exits_of p s.child_exited
unfolding take_exited reap_pid reap_any
take_exited-outcome (pos pid) p s once =
    let sum = drain_filter-exits_of pid p s.child_exited in
    reap-outcome pid p (drain_filter pid s.child_exited).0 (drain_filter pid s.child_exited).1 s
      (drain_filter-All pid s.child_exited) (omega (arith, sum))
    ∙ sum
take_exited-outcome (negsuc zero) p s once = any s.child_exited refl
  where
    any :
        (list : List Exited)
        → s.child_exited ≡ list
        → outcome p (reap_any list s) ≡ exits_of p s.child_exited
    any [] is = unfold reaped_pid in omega arith
    any (e ∷ rest) is =
        let one : exits_of p (e ∷ []) ≤ 1 = ground arith in
        reap-outcome e.pid p (e ∷ []) rest s (refl, tt) one ∙ omega (arith, ap (exits_of p) is)
take_exited-outcome (negsuc (suc n)) p s once = unfold reaped_pid in omega arith

exits_in-cons :
    (p : ℕ) (op : FamilyOp) (ops : List FamilyOp)
    → exits_in p (op ∷ ops) ≡ exits_in p (op ∷ []) + exits_in p ops
exits_in-cons p (child_exits q status) ops = omega arith
exits_in-cons p (parent_waits cur q) ops = omega arith

wake-child_exited :
    (callbacks : List ℕ) (s : Family) → (wake callbacks s).child_exited ≡ s.child_exited
unfolding wake
wake-child_exited [] s = refl
wake-child_exited (t ∷ callbacks) s = refl

family_step-outcome :
    (op : FamilyOp) (p : ℕ) (s : Family)
    → exits_of p s.child_exited ≤ 1
    → count p (family_step op s).0 + exits_of p (family_step op s).1.child_exited
      ≡ exits_of p s.child_exited + exits_in p (op ∷ [])
unfolding family_step tell_parent wait_turn
family_step-outcome (child_exits q status) p s once =
    omega (arith, ap (exits_of p) (wake-child_exited s.wake_callbacks _))
family_step-outcome (parent_waits cur pid) p s once =
    omega (arith, sleep-outcome cur p (take_exited pid s), take_exited-outcome pid p s once)

-- Of a child that exits at most once: over any history of exits and waits it is given to a waiting
-- thread or still there to be waited for, and never both or twice.
pub family_run-outcome :
    (ops : List FamilyOp) (p : ℕ) (s : Family)
    → exits_of p s.child_exited + exits_in p ops ≤ 1
    → count p (family_run ops s).0 + exits_of p (family_run ops s).1.child_exited
      ≡ exits_of p s.child_exited + exits_in p ops
unfolding family_run
family_run-outcome [] p s once = omega arith
family_run-outcome (op ∷ ops) p s once =
    let s' = (family_step op s).1 in
    let split = exits_in-cons p op ops in
    let here = family_step-outcome op p s (omega arith) in
    let rest = family_run-outcome ops p s' (omega (arith, here, split)) in
    omega (arith, here, rest, split, count-append p (family_step op s).0 (family_run ops s').0)
