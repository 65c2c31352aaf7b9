-- ===== src/Os/Ownership.antt =====
-- The running list holds as many processes as the CPUs do.
use os_assignment_nhom.Base.{
  ℕ, ◌+◌, ◌<◌, ◌≤◌, ◌≡◌, refl, arith, Option, none, some, update, update_self, update_ne,
}
use os_assignment_nhom.Base.Sums.{sum_range, sum_range_change}
use os_assignment_nhom.Queue.{Proc}
use os_assignment_nhom.Queue.Contents.{find_pid, erase_pid}
use os_assignment_nhom.Queue.Refine.{live}
use os_assignment_nhom.Sched.{Sched, get_mlq_proc, put_mlq_proc, finish_proc}
use os_assignment_nhom.Sched.Dispatch.{idle, found, get_mlq_proc-Outcome}
use os_assignment_nhom.Sched.Operations.{put_mlq_proc_lem, finish_proc_lem}
use os_assignment_nhom.Sched.Conservation.{weigh, tally, each, weigh-push, weigh-erase_pid}
use os_assignment_nhom.Sched.Exclusion.{Exclusive}
use os_assignment_nhom.Cpu.Isolation.{run-sched}
use os_assignment_nhom.Os.{Machine, exec, cpu_slot}
use os_assignment_nhom.Os.Rule.{CpuRule, cpu_slot_rule}
use os_assignment_nhom.Os.Exclusion.{Exclusive-rule, update_same}

-- Whether a process is held, as a number.
abbrev pub holds : Option Proc → ℕ
holds none = 0
holds (some p) = 1

-- The number of CPUs that hold a process, and that of the processes on the running list.
unfoldable pub busy : ℕ → (ℕ → Option Proc) → ℕ
busy n held = sum_range 0 n (λ i. holds (held i))

unfoldable pub running : Sched → ℕ
running s = weigh each (live s.running_list)

running-le : (s : Sched) → running s ≤ tally each s
unfolding running tally
running-le s = omega arith

busy-update :
    (n i : ℕ) (held : ℕ → Option Proc) (p : Proc)
    → i < n
    → busy n (update held i (some p)) ≡ busy n (update held i none) + 1
unfolding busy
busy-update n i held p h =
    let c =
      sum_range_change 0 n i (λ j. holds (update held i (some p) j))
        (λ j. holds (update held i none j)) (omega arith) (omega (arith, h))
        (λ j ne. rw (update_ne held i j (some p) ne, update_ne held i j none ne) refl) in
    let a : holds (update held i (some p) i) ≡ 1 = rw (update_self held i (some p)) refl in
    let b : holds (update held i none i) ≡ 0 = rw (update_self held i none) refl in
    omega (arith, c, a, b)

erased :
    (s s' : Sched) (p : Proc)
    → find_pid p.pid (live s.running_list) ≡ some p
    → live s'.running_list ≡ erase_pid p.pid (live s.running_list)
    → running s' + 1 ≡ running s
unfolding running
erased s s' p e r = rw r (weigh-erase_pid each p.pid (live s.running_list) p e)

module _ (junk : ℕ → ℕ) (n i : ℕ) (held : ℕ → Option Proc) (h : i < n) where
  abbrev Owned : Machine → Option Proc → Type 0
  Owned m o =
      Exclusive n m.krnl.sched (update held i o) × (running m.krnl.sched ≡ busy n (update held i o))

  dispatched :
      (s : Sched)
      → Exclusive n s (update held i none)
      → running s ≡ busy n (update held i none)
      → running (get_mlq_proc s).1 ≡ busy n (update held i (get_mlq_proc s).0)
  unfolding running
  dispatched s x e = elim (get_mlq_proc-Outcome s x.sched) [
    | idle s' eq w ↦ rw (eq, w.running) e
    | found p s' eq w ↦
        let r = weigh-push each (live s.running_list) p (omega (arith, running-le s, x.room)) in
        rw (eq, w.joined, busy-update n i held p h) (omega (arith, r, e))
  ]

  Owned-rule : CpuRule junk Owned
  unfolding exec
  Owned-rule =
      let r = Exclusive-rule junk n i held h in
      let here = λ (p : Proc). update_self held i (some p) in
      record {
        dispatch = λ m x. (r.dispatch m x.0, dispatched m.krnl.sched x.0 x.1);
        finish = λ m p x e.
            (let on = (x.0.running i p h (here p)).0 in
              let d = (finish_proc_lem p m.krnl.sched x.0.sched).0 in
              (
                r.finish m p x.0 e,
                omega (
                  arith,
                  erased m.krnl.sched (finish_proc (some p) m.krnl.sched) p on d,
                  x.1,
                  busy-update n i held p h,
                ),
              ));
        put = λ m p x e.
            (let on = x.0.running i p h (here p) in
              let d = (put_mlq_proc_lem p m.krnl.sched x.0.sched on.1).0 in
              (
                r.put m p x.0 e,
                omega (
                  arith,
                  erased m.krnl.sched (put_mlq_proc (some p) m.krnl.sched) p on.0 d,
                  x.1,
                  busy-update n i held p h,
                ),
              ));
        instruction = λ m left p x.
            (r.instruction m left p x.0, rw (run-sched junk m.krnl (m.pcbs p.pid)) x.1);
      }

  -- Between two slots of a CPU the two numbers are equal.
  pub cpu_slot-busy :
      (m : Machine) (left : ℕ) (o : Option Proc)
      → held i ≡ o
      → Exclusive n m.krnl.sched held
      → running m.krnl.sched ≡ busy n held
      → running (cpu_slot junk m left o).1.krnl.sched
        ≡ busy n (update held i (cpu_slot junk m left o).2.proc)
  cpu_slot-busy m left o e x b =
      (cpu_slot_rule Owned-rule m left o (rw (update_same held i o e) (x, b))).1
