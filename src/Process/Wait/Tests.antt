-- ===== src/Process/Wait/Tests.antt =====
-- A parent with two children: one exits, thread 1 waits for any child, then for the other.
use hecto_os.Base.{◌+◌, ◌≡◌, refl, List, [], ◌∷◌, count, arith}
use hecto_os.Base.Int.{pos, negsuc}
use hecto_os.Fs.Pipe.{running}
use hecto_os.Process.Wait.{Family, FamilyOp, child_exits, parent_waits, family_run}
use hecto_os.Process.Wait.Reap.{exits_of, exits_in, family_run-outcome}

abbrev parent : Family
parent = record {
  child = 7 ∷ 8 ∷ [];
  child_exited = [];
  wake_callbacks = [];
  tms_cutime = 0;
  tms_cstime = 0;
  status = λ t. running;
}

abbrev ops : List FamilyOp
ops =
    child_exits 7 3
    ∷ parent_waits 1 (negsuc 0)
    ∷ parent_waits 1 (pos 8)
    ∷ child_exits 8 0
    ∷ parent_waits 1 (pos 8)
    ∷ []

family_run-outcome_example :
    count 8 (family_run ops parent).0 + exits_of 8 (family_run ops parent).1.child_exited
    ≡ exits_of 8 parent.child_exited + exits_in 8 ops
family_run-outcome_example = family_run-outcome ops 8 parent (omega arith)

both_reaped : (family_run ops parent).0 ≡ 7 ∷ 8 ∷ []
unfolding family_run
both_reaped = refl
