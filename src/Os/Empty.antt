-- ===== src/Os/Empty.antt =====
-- When no process waits any more: what a slot of a CPU leaves, and when it stops.
use os_assignment_nhom.Base.{
  ℕ, zero, suc, ◌+◌, ◌-◌, ◌%◌, ◌<◌, ◌≡◌, refl, sym, arith, true, false, Option, none, some, ◌==◌,
  length, Bool-cases, inl, inr,
}
use mathlib.Core.Path.{subst}
use os_assignment_nhom.Queue.{Proc}
use os_assignment_nhom.Sched.{Sched, max_prio, get_mlq_proc, put_mlq_proc, finish_proc}
use os_assignment_nhom.Sched.Invariant.{IsValid}
use os_assignment_nhom.Sched.Dispatch.{idle, found, level_at, get_mlq_proc-Outcome}
use os_assignment_nhom.Sched.Operations.{finish_proc_lem, put_mlq_proc_lem}
use os_assignment_nhom.Cpu.Isolation.{run-sched}
use os_assignment_nhom.Os.{
  Machine, Status, waits, stops, Thread, exec, idle_with, switch_to, cpu_slot, with_sched,
}
use os_assignment_nhom.Os.Branches.{cpu_slot_finishes, cpu_slot_preempts, cpu_slot_goes_on}
use os_assignment_nhom.Os.Rule.{cpu_slot_rule}
use os_assignment_nhom.Os.Dispatching.{AllEmpty, get_mlq_proc-AllEmpty, get_mlq_proc-put_mlq_proc}

-- A dispatch that finds nothing has seen every level empty.
get_none-AllEmpty :
    (s : Sched) → IsValid s → (get_mlq_proc s).0 ≡ none → AllEmpty (get_mlq_proc s).1
get_none-AllEmpty s v e = elim (get_mlq_proc-Outcome s v) [
  | idle s' eq w ↦
      rw (eq, w.ready)
        (λ i h.
          let j : ℕ = (i + 140 - s.current_prio) % 140 in
          let at : level_at s.current_prio j ≡ i = omega (arith, v.prio_in, h) in
          rw at at (w.nothing j (omega arith)))
  | found p s' eq w ↦ cc (rw eq at e)
]

exec-sched :
    (junk : ℕ → ℕ) (m : Machine) (left : ℕ) (p : Proc)
    → (exec junk m left p).1.krnl.sched ≡ m.krnl.sched
unfolding exec
exec-sched junk m left p = run-sched junk m.krnl (m.pcbs p.pid)

idle_with-sched :
    (junk : ℕ → ℕ) (m : Machine) (left : ℕ) (r : Option Proc × Sched)
    → (idle_with junk m left r).1.krnl.sched ≡ r.1
unfolding idle_with
idle_with-sched junk m left (none, s) = refl
idle_with-sched junk m left (some p, s) = exec-sched junk (with_sched m s) left p

switch_to-sched :
    (junk : ℕ → ℕ) (m : Machine) (left : ℕ) (r : Option Proc × Sched)
    → (switch_to junk m left r).1.krnl.sched ≡ r.1
unfolding switch_to
switch_to-sched junk m left (none, s) = refl
switch_to-sched junk m left (some p, s) = exec-sched junk (with_sched m s) left p

-- Once no process waits, none waits after a slot of any CPU either.
pub cpu_slot-AllEmpty :
    (junk : ℕ → ℕ) (m : Machine) (left : ℕ) (o : Option Proc)
    → IsValid m.krnl.sched
    → ((p : Proc) → o ≡ some p → p.prio < max_prio)
    → AllEmpty m.krnl.sched
    → AllEmpty (cpu_slot junk m left o).1.krnl.sched
unfolding cpu_slot
cpu_slot-AllEmpty junk m left none v l a =
    let (s, g, v', a') = get_mlq_proc-AllEmpty m.krnl.sched v a in
    rw (idle_with-sched junk m left (get_mlq_proc m.krnl.sched), g) a'
cpu_slot-AllEmpty junk m left (some p) v l a =
    elim (Bool-cases ((m.pcbs p.pid).pc == length (m.pcbs p.pid).code)) [
      | inl t ↦
          let f = finish_proc_lem p m.krnl.sched v in
          let (s, g, v', a') =
            get_mlq_proc-AllEmpty (finish_proc (some p) m.krnl.sched) f.2 (rw f.1 a) in
          rw
            (
              cpu_slot_finishes junk m left p t,
              switch_to-sched junk m 0 (get_mlq_proc (finish_proc (some p) m.krnl.sched)),
              g,
            )
            a'
      | inr t ↦ held_on left t
    ]
  where
    held_on :
        (left : ℕ)
        → ((m.pcbs p.pid).pc == length (m.pcbs p.pid).code) ≡ false
        → AllEmpty (cpu_slot junk m left (some p)).1.krnl.sched
    held_on zero t =
        let (s, g, v', a') = get_mlq_proc-put_mlq_proc m.krnl.sched p v a (l p refl) in
        rw
          (
            cpu_slot_preempts junk m p t,
            switch_to-sched junk m 0 (get_mlq_proc (put_mlq_proc (some p) m.krnl.sched)),
            g,
          )
          a'
    held_on (suc k) t = rw (cpu_slot_goes_on junk m k p t, exec-sched junk m (suc k) p) a

-- A slot in which the CPU stops: it holds nothing, the loader has ended, and no process waits.
pub record Stops (m : Machine) (r : Status × Machine × Thread) : Type 0 where
  pub proc : r.2.proc ≡ none
  pub ended : m.done ≡ true
  pub waiting : AllEmpty r.1.krnl.sched

exec-waits : (junk : ℕ → ℕ) (m : Machine) (left : ℕ) (p : Proc) → (exec junk m left p).0 ≡ waits
unfolding exec
exec-waits junk m left p = refl

idle_with-waits :
    (junk : ℕ → ℕ) (m : Machine) (left : ℕ) (r : Option Proc × Sched)
    → (idle_with junk m left r).0 ≡ waits
unfolding idle_with
idle_with-waits junk m left (none, s) = refl
idle_with-waits junk m left (some p, s) = exec-waits junk (with_sched m s) left p

switch_to-Stops :
    (junk : ℕ → ℕ) (m : Machine) (r : Option Proc × Sched)
    → (r.0 ≡ none → AllEmpty r.1)
    → (switch_to junk m 0 r).0 ≡ stops
    → Stops m (switch_to junk m 0 r)
unfolding switch_to
switch_to-Stops junk m (none, s) a e = elim (Bool-cases m.done) [
  | inl t ↦ record { proc = refl; ended = t; waiting = a refl }
  | inr t ↦ cc (rw t at e)
]
switch_to-Stops junk m (some p, s) a e = cc (e, exec-waits junk (with_sched m s) 0 p)

pub cpu_slot-Stops :
    (junk : ℕ → ℕ) (m : Machine) (left : ℕ) (o : Option Proc)
    → IsValid m.krnl.sched
    → ((p : Proc) → o ≡ some p → p.prio < max_prio)
    → (cpu_slot junk m left o).0 ≡ stops
    → Stops m (cpu_slot junk m left o)
unfolding cpu_slot
cpu_slot-Stops junk m left none v l e =
    cc (e, idle_with-waits junk m left (get_mlq_proc m.krnl.sched))
cpu_slot-Stops junk m left (some p) v l e =
    elim (Bool-cases ((m.pcbs p.pid).pc == length (m.pcbs p.pid).code)) [
      | inl t ↦
          let q = cpu_slot_finishes junk m left p t in
          let a = get_none-AllEmpty _ (finish_proc_lem p m.krnl.sched v).2 in
          subst (λ r. Stops m r) (sym q) (switch_to-Stops junk m _ a (rw q at e))
      | inr t ↦ held_on left t e
    ]
  where
    held_on :
        (left : ℕ)
        → ((m.pcbs p.pid).pc == length (m.pcbs p.pid).code) ≡ false
        → (cpu_slot junk m left (some p)).0 ≡ stops
        → Stops m (cpu_slot junk m left (some p))
    held_on zero t e =
        let q = cpu_slot_preempts junk m p t in
        let a = get_none-AllEmpty _ (put_mlq_proc_lem p m.krnl.sched v (l p refl)).1.valid in
        subst (λ r. Stops m r) (sym q) (switch_to-Stops junk m _ a (rw q at e))
    held_on (suc k) t e = cc (rw (cpu_slot_goes_on junk m k p t) at e, exec-waits junk m (suc k) p)

-- No slot of a CPU changes the static `done`.
pub cpu_slot-done :
    (junk : ℕ → ℕ) (m : Machine) (left : ℕ) (o : Option Proc)
    → (cpu_slot junk m left o).1.done ≡ m.done
unfolding exec
cpu_slot-done junk m left o =
    cpu_slot_rule {P = λ m' o'. m'.done ≡ m.done}
      (record {
        dispatch = λ m' e. e;
        finish = λ m' p e t. e;
        put = λ m' p e t. e;
        instruction = λ m' left p e. e;
      })
      m left o refl
