-- ===== src/Os/Branches.antt =====
-- The three things that a CPU with a process does in a round.
use os_assignment_nhom.Base.{ℕ, suc, ◌≡◌, arith, true, false, some, ◌==◌, length}
use os_assignment_nhom.Queue.{Proc}
use os_assignment_nhom.Sched.{get_mlq_proc, put_mlq_proc, finish_proc}
use os_assignment_nhom.Os.{Machine, exec, switch_to, cpu_slot}

pub cpu_slot_finishes :
    (junk : ℕ → ℕ) (m : Machine) (left : ℕ) (p : Proc)
    → ((m.pcbs p.pid).pc == length (m.pcbs p.pid).code) ≡ true
    → cpu_slot junk m left (some p)
      ≡ switch_to junk m 0 (get_mlq_proc (finish_proc (some p) m.krnl.sched))
unfolding cpu_slot
cpu_slot_finishes junk m left p e = rw e

pub cpu_slot_preempts :
    (junk : ℕ → ℕ) (m : Machine) (p : Proc)
    → ((m.pcbs p.pid).pc == length (m.pcbs p.pid).code) ≡ false
    → cpu_slot junk m 0 (some p)
      ≡ switch_to junk m 0 (get_mlq_proc (put_mlq_proc (some p) m.krnl.sched))
unfolding cpu_slot
cpu_slot_preempts junk m p e = rw e

pub cpu_slot_goes_on :
    (junk : ℕ → ℕ) (m : Machine) (left : ℕ) (p : Proc)
    → ((m.pcbs p.pid).pc == length (m.pcbs p.pid).code) ≡ false
    → cpu_slot junk m (suc left) (some p) ≡ exec junk m (suc left) p
unfolding cpu_slot
cpu_slot_goes_on junk m left p e = let z : (suc left == 0) ≡ false = ground arith in rw (e, z)
