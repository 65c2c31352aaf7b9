-- ===== src/Os/Rule.antt =====
-- A proof rule for one round of the loop of a CPU.
use os_assignment_nhom.Base.{
  ℕ, zero, suc, ◌≡◌, ◌≢◌, arith, false, Option, none, some, ◌==◌, length, Bool-cases, inl, inr,
}
use os_assignment_nhom.Queue.{Proc}
use os_assignment_nhom.Sched.{Sched, get_mlq_proc, put_mlq_proc, finish_proc}
use os_assignment_nhom.Os.{Machine, exec, idle_with, switch_to, cpu_slot, with_sched}
use os_assignment_nhom.Os.Branches.{cpu_slot_finishes, cpu_slot_preempts, cpu_slot_goes_on}

-- What is shared and the process that the CPU holds are kept in relation `P` by each of the four
-- things that a round is made of.
pub record CpuRule (junk : ℕ → ℕ) (P : Machine → Option Proc → Type 0) : Type 0 where
  pub dispatch :
      (m : Machine)
      → P m none
      → P (with_sched m (get_mlq_proc m.krnl.sched).1) (get_mlq_proc m.krnl.sched).0
  pub finish :
      (m : Machine) (p : Proc)
      → P m (some p)
      → (m.pcbs p.pid).pc ≡ length (m.pcbs p.pid).code
      → P (with_sched m (finish_proc (some p) m.krnl.sched)) none
  pub put :
      (m : Machine) (p : Proc)
      → P m (some p)
      → (m.pcbs p.pid).pc ≢ length (m.pcbs p.pid).code
      → P (with_sched m (put_mlq_proc (some p) m.krnl.sched)) none
  pub instruction :
      (m : Machine) (left : ℕ) (p : Proc) → P m (some p) → P (exec junk m left p).1 (some p)

-- One of the parts of a round, of a CPU that holds the first process before it and the second one
-- after it. Each of the first three is one function of the scheduler, which takes its lock once; the
-- last one changes nothing of the scheduler.
pub data Part (junk : ℕ → ℕ) (m : Machine) : Option Proc → Machine → Option Proc → Type 0 where
  dispatches :
      Part junk m none (with_sched m (get_mlq_proc m.krnl.sched).1) (get_mlq_proc m.krnl.sched).0
  finishes :
      (p : Proc)
      → (m.pcbs p.pid).pc ≡ length (m.pcbs p.pid).code
      → Part junk m (some p) (with_sched m (finish_proc (some p) m.krnl.sched)) none
  puts :
      (p : Proc)
      → (m.pcbs p.pid).pc ≢ length (m.pcbs p.pid).code
      → Part junk m (some p) (with_sched m (put_mlq_proc (some p) m.krnl.sched)) none
  executes : (left : ℕ) (p : Proc) → Part junk m (some p) (exec junk m left p).1 (some p)

pub Part_rule :
    {junk : ℕ → ℕ} {P : Machine → Option Proc → Type 0} {m m' : Machine} {o o' : Option Proc}
    → CpuRule junk P
    → Part junk m o m' o'
    → P m o
    → P m' o'
Part_rule {m = m} rule dispatches h = rule.dispatch m h
Part_rule {m = m} rule (finishes p e) h = rule.finish m p h e
Part_rule {m = m} rule (puts p e) h = rule.put m p h e
Part_rule {m = m} rule (executes left p) h = rule.instruction m left p h

module _ {junk : ℕ → ℕ} {P : Machine → Option Proc → Type 0} (rule : CpuRule junk P) where
  exec_proc :
      (m : Machine) (left : ℕ) (p : Proc)
      → P m (some p)
      → P (exec junk m left p).1 (exec junk m left p).2.proc
  unfolding exec
  exec_proc m left p h = rule.instruction m left p h

  idle_with_rule :
      (m : Machine) (left : ℕ) (o : Option Proc) (s : Sched)
      → P (with_sched m s) o
      → P (idle_with junk m left (o, s)).1 (idle_with junk m left (o, s)).2.proc
  unfolding idle_with
  idle_with_rule m left none s h = h
  idle_with_rule m left (some p) s h = exec_proc (with_sched m s) left p h

  switch_to_rule :
      (m : Machine) (left : ℕ) (o : Option Proc) (s : Sched)
      → P (with_sched m s) o
      → P (switch_to junk m left (o, s)).1 (switch_to junk m left (o, s)).2.proc
  unfolding switch_to
  switch_to_rule m left none s h = h
  switch_to_rule m left (some p) s h = exec_proc (with_sched m s) left p h

  -- The CPU gives its process up and takes the next one.
  switches :
      (m : Machine) (s : Sched)
      → P (with_sched m s) none
      → P (switch_to junk m 0 (get_mlq_proc s)).1 (switch_to junk m 0 (get_mlq_proc s)).2.proc
  switches m s h = switch_to_rule m 0 _ _ (rule.dispatch (with_sched m s) h)

  busy_rule :
      (m : Machine) (left : ℕ) (p : Proc)
      → P m (some p)
      → P (cpu_slot junk m left (some p)).1 (cpu_slot junk m left (some p)).2.proc
  busy_rule m left p h = elim (Bool-cases ((m.pcbs p.pid).pc == length (m.pcbs p.pid).code)) [
    | inl t ↦
        rw (cpu_slot_finishes junk m left p t) (switches m _ (rule.finish m p h (ground arith)))
    | inr t ↦ goes_on left t
  ]
    where
      goes_on :
          (left : ℕ)
          → ((m.pcbs p.pid).pc == length (m.pcbs p.pid).code) ≡ false
          → P (cpu_slot junk m left (some p)).1 (cpu_slot junk m left (some p)).2.proc
      goes_on zero t =
          rw (cpu_slot_preempts junk m p t) (switches m _ (rule.put m p h (ground arith)))
      goes_on (suc k) t = rw (cpu_slot_goes_on junk m k p t) (exec_proc m (suc k) p h)

  -- A relation that the four keep is kept by the whole round.
  pub cpu_slot_rule :
      (m : Machine) (left : ℕ) (o : Option Proc)
      → P m o
      → P (cpu_slot junk m left o).1 (cpu_slot junk m left o).2.proc
  unfolding cpu_slot
  cpu_slot_rule m left none h = idle_with_rule m left _ _ (rule.dispatch m h)
  cpu_slot_rule m left (some p) h = busy_rule m left p h
