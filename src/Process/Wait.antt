-- ===== src/Process/Wait.antt =====
-- kernel/src/syscall/process.rs: a process that exits and the parent that waits for it. The `Vec`s are
-- lists, last to first. A child is its pid; a status is a 32-bit word. One turn of sys_wait4 is one pass
-- through its loop, up to where the thread sleeps.
pub mod Reap
mod Tests
use hecto_os.Base.{
  ℕ, zero, suc, ◌+◌, ◌*◌, ◌^◌, Bool, not, Option, none, some, List, [], ◌∷◌, ◌++◌, ◌==◌,
  if◌then◌else◌, bit_and,
}
use hecto_os.Base.Int.{ℤ, pos, negsuc}
use hecto_os.Fs.Pipe.{ThreadStatus, ready, waiting, set_status}

pub record Exited : Type 0 where
  pub pid : ℕ
  pub exit_status : ℕ

-- What the parent keeps of its children, and the status of its threads. A wake callback is the thread
-- that it makes ready.
pub record Family : Type 0 where
  pub child : List ℕ
  pub child_exited : List Exited
  pub wake_callbacks : List ℕ
  pub tms_cutime : ℕ
  pub tms_cstime : ℕ
  pub status : ℕ → ThreadStatus

unfoldable pub wake : List ℕ → Family → Family
unfolding set_status
wake [] s = s
wake (t ∷ callbacks) s = record s {
  wake_callbacks = callbacks;
  status = set_status s.status t ready;
}

-- The part of sys_exit that tells the parent.
unfoldable pub tell_parent : ℕ → ℕ → ℕ → ℕ → Family → Family
unfolding wake
tell_parent pid status utime stime s = wake s.wake_callbacks (record s {
  tms_cutime = s.tms_cutime + utime;
  tms_cstime = s.tms_cstime + stime;
  child_exited = record { pid = pid; exit_status = bit_and status 0xFF } ∷ s.child_exited;
})

-- `child.retain(|c| !c.ptr_eq(&child))`
unfoldable pub retain_child : ℕ → List ℕ → List ℕ
retain_child pid [] = []
retain_child pid (c ∷ rest) = if c == pid then retain_child pid rest else c ∷ retain_child pid rest

-- `drain_filter(|c| c.0 == pid)`: those taken out, and those left
unfoldable pub drain_filter : ℕ → List Exited → List Exited × List Exited
drain_filter pid [] = ([], [])
drain_filter pid (e ∷ rest) =
    let (taken, left) = drain_filter pid rest in
    if e.pid == pid then (e ∷ taken, left) else (taken, e ∷ left)

-- The end of the critical section: the child and its status word, where one was found.
reap : List Exited → List Exited → Family → Option (ℕ × ℕ) × Family
unfolding retain_child
reap [] left s = (none, record s { child_exited = left })
reap (e ∷ taken) left s = (
  some (e.pid, e.exit_status * 2 ^ 8),
  record s { child = retain_child e.pid s.child; child_exited = left },
)

-- `child_exited.pop()`
reap_any : List Exited → Family → Option (ℕ × ℕ) × Family
unfolding reap
reap_any [] s = (none, s)
reap_any (e ∷ rest) s = reap (e ∷ []) rest s

reap_pid : List Exited × List Exited → Family → Option (ℕ × ℕ) × Family
unfolding reap
reap_pid (taken, left) s = reap taken left s

-- A negative pid other than -1 is a number that no child has.
take_exited : ℤ → Family → Option (ℕ × ℕ) × Family
unfolding reap_any reap_pid drain_filter
take_exited (pos pid) s = reap_pid (drain_filter pid s.child_exited) s
take_exited (negsuc zero) s = reap_any s.child_exited s
take_exited (negsuc (suc n)) s = (none, s)

sleep : ℕ → Option (ℕ × ℕ) × Family → Option (ℕ × ℕ) × Family
unfolding set_status
sleep cur (some found, s) = (some found, s)
sleep cur (none, s) = (
  none,
  record s { wake_callbacks = cur ∷ s.wake_callbacks; status = set_status s.status cur waiting },
)

-- One turn: what it returns and writes to *wstatus, or nothing where the thread sleeps.
unfoldable pub wait_turn : ℕ → ℤ → Family → Option (ℕ × ℕ) × Family
unfolding take_exited sleep
wait_turn cur pid s = sleep cur (take_exited pid s)

pub data FamilyOp : Type 0 where
  child_exits : ℕ → ℕ → FamilyOp
  parent_waits : ℕ → ℤ → FamilyOp

reaped_pid : Option (ℕ × ℕ) × Family → List ℕ × Family
reaped_pid (none, s) = ([], s)
reaped_pid (some (pid, status), s) = (pid ∷ [], s)

-- The pids that the step gives to a waiting thread.
unfoldable pub family_step : FamilyOp → Family → List ℕ × Family
unfolding tell_parent wait_turn reaped_pid
family_step (child_exits pid status) s = ([], tell_parent pid status 0 0 s)
family_step (parent_waits cur pid) s = reaped_pid (wait_turn cur pid s)

unfoldable pub family_run : List FamilyOp → Family → List ℕ × Family
unfolding family_step
family_run [] s = ([], s)
family_run (op ∷ ops) s =
    let (reaped, s') = family_step op s in
    let (more, s'') = family_run ops s' in (reaped ++ more, s'')
