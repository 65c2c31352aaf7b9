-- ===== src/Os/Exclusion.antt =====
-- A slot of a CPU keeps it that no process is held by two CPUs.
use os_assignment_nhom.Base.{ℕ, ◌<◌, ◌≡◌, arith, Option, none, some, update, fun_ext}
use os_assignment_nhom.Queue.{Proc}
use os_assignment_nhom.Sched.{get_mlq_proc}
use os_assignment_nhom.Sched.Exclusion.{
  Exclusive, get_mlq_proc-Exclusive, finish_proc-Exclusive, put_mlq_proc-Exclusive,
}
use os_assignment_nhom.Cpu.Isolation.{run-sched}
use os_assignment_nhom.Os.{Machine, Thread, exec, cpu_slot}
use os_assignment_nhom.Os.Rule.{CpuRule, cpu_slot_rule}

update_twice :
    (held : ℕ → Option Proc) (i : ℕ) (x y : Option Proc)
    → update (update held i x) i y ≡ update held i y
update_twice held i x y = fun_ext (λ j. ground arith)

pub update_same :
    (held : ℕ → Option Proc) (i : ℕ) (x : Option Proc) → held i ≡ x → update held i x ≡ held
update_same held i x e = fun_ext (λ j. ground arith)

-- The four parts of a round of CPU `i` keep mutual exclusion.
pub Exclusive-rule :
    (junk : ℕ → ℕ) (n i : ℕ) (held : ℕ → Option Proc)
    → i < n
    → CpuRule junk (λ m o. Exclusive n m.krnl.sched (update held i o))
unfolding exec
Exclusive-rule junk n i held h = record {
  dispatch = λ m x.
      (let t : update held i none i ≡ none = ground arith in
        rw (← update_twice held i none (get_mlq_proc m.krnl.sched).0)
          (get_mlq_proc-Exclusive n m.krnl.sched (update held i none) i x t));
  finish = λ m p x e.
      (let t : update held i (some p) i ≡ some p = ground arith in
        rw (← update_twice held i (some p) none)
          (finish_proc-Exclusive n m.krnl.sched (update held i (some p)) i p x h t));
  put = λ m p x e.
      (let t : update held i (some p) i ≡ some p = ground arith in
        rw (← update_twice held i (some p) none)
          (put_mlq_proc-Exclusive n m.krnl.sched (update held i (some p)) i p x h t));
  instruction = λ m left p x. rw (run-sched junk m.krnl (m.pcbs p.pid)) x;
}

pub cpu_slot-Exclusive :
    (junk : ℕ → ℕ) (n : ℕ) (m : Machine) (left i : ℕ) (o : Option Proc) (held : ℕ → Option Proc)
    → i < n
    → held i ≡ o
    → Exclusive n m.krnl.sched held
    → Exclusive n
        (cpu_slot junk m left o).1.krnl.sched
        (update held i (cpu_slot junk m left o).2.proc)
cpu_slot-Exclusive junk n m left i o held h e x =
    cpu_slot_rule (Exclusive-rule junk n i held h) m left o (rw (update_same held i o e) x)

pub update_proc :
    (t : ℕ → Thread) (i : ℕ) (r : Thread)
    → (λ (j : ℕ). (update t i r j).proc) ≡ update (λ j. (t j).proc) i r.proc
update_proc t i r = fun_ext (λ j. ground arith)
