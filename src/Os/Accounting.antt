-- ===== src/Os/Accounting.antt =====
-- A slot of a CPU and what is counted of the processes: none comes or goes but by its end.
use os_assignment_nhom.Base.{
  ℕ, ◌+◌, ◌<◌, ◌≤◌, ◌≡◌, ◌⊎◌, refl, arith, Option, some, List, [], ◌∷◌, ◌==◌, length, update,
  update_self, Bool-cases, inl, inr,
}
use os_assignment_nhom.Queue.{Proc}
use os_assignment_nhom.Queue.Contents.{find_pid}
use os_assignment_nhom.Queue.Refine.{live}
use os_assignment_nhom.Sched.{Sched, get_mlq_proc, put_mlq_proc, finish_proc}
use os_assignment_nhom.Sched.Conservation.{
  weigh, tally, of_pid, get_mlq_proc-tally, finish_proc-tally, conserved,
}
use os_assignment_nhom.Sched.Exclusion.{Exclusive}
use os_assignment_nhom.Cpu.{Pcb}
use os_assignment_nhom.Cpu.Isolation.{run-sched}
use os_assignment_nhom.Os.{Machine, exec, cpu_slot}
use os_assignment_nhom.Os.Rule.{CpuRule, cpu_slot_rule}
use os_assignment_nhom.Os.Exclusion.{update_same, Exclusive-rule}

weigh-find_pid :
    (pid : ℕ) (l : List Proc) (p : Proc) → find_pid pid l ≡ some p → 1 ≤ weigh (of_pid pid) l
unfolding find_pid weigh
weigh-find_pid pid [] p e = cc e
weigh-find_pid pid (r ∷ l) p e = elim (Bool-cases (r.pid == pid)) [
  | inl t ↦ rw t (omega arith)
  | inr t ↦ rw t (omega (arith, weigh-find_pid pid l p (rw t at e)))
]

-- The pid of a process that a CPU holds is that of just one process in the system.
held-tally :
    (n i : ℕ) (s : Sched) (held : ℕ → Option Proc) (p : Proc)
    → Exclusive n s held
    → i < n
    → held i ≡ some p
    → tally (of_pid p.pid) s ≡ 1
unfolding tally
held-tally n i s held p x h e =
    let w = weigh-find_pid p.pid (live s.running_list) p (x.running i p h e).0 in
    omega (arith, w, x.unique p.pid)

-- What the four parts of a slot do to the sum of a weight.
module _ (n i : ℕ) (f : Proc → ℕ) (s : Sched) (held : ℕ → Option Proc) where
  dispatch-tally : Exclusive n s held → tally f (get_mlq_proc s).1 ≡ tally f s
  dispatch-tally x = get_mlq_proc-tally f s x.sched (omega (arith, x.room))

  finish-tally :
      (p : Proc)
      → Exclusive n s held
      → i < n
      → held i ≡ some p
      → tally f (finish_proc (some p) s) + f p ≡ tally f s
  finish-tally p x h e = finish_proc-tally f s p x.sched (x.running i p h e).0

  put-tally :
      (p : Proc)
      → Exclusive n s held
      → i < n
      → held i ≡ some p
      → tally f (put_mlq_proc (some p) s) ≡ tally f s
  put-tally p x h e = let r = x.running i p h e in (conserved f s p p x.sched x.room r.0 r.1 r.1).1

-- The process of this pid is in the system, once, or has left it at the end of its code.
abbrev pub Accounted : Sched → (ℕ → Pcb) → ℕ → Type 0
Accounted s pcbs pid =
    (tally (of_pid pid) s ≡ 1)
    ⊎ ((tally (of_pid pid) s ≡ 0) × ((pcbs pid).pc ≡ length (pcbs pid).code))

finish-Accounted :
    (s s' : Sched) (pcbs : ℕ → Pcb) (p : Proc) (pid : ℕ)
    → (pcbs p.pid).pc ≡ length (pcbs p.pid).code
    → tally (of_pid p.pid) s ≡ 1
    → tally (of_pid pid) s' + of_pid pid p ≡ tally (of_pid pid) s
    → Accounted s pcbs pid
    → Accounted s' pcbs pid
finish-Accounted s s' pcbs p pid e one t a = elim (Bool-cases (p.pid == pid)) [
  | inl y ↦
      let same : p.pid ≡ pid = ground arith in
      let w : of_pid pid p ≡ 1 = rw y refl in
      let u : tally (of_pid pid) s ≡ 1 = rw (← same) one in
      inr (omega (arith, t, w, u), rw (← same) e)
  | inr y ↦
      let w : of_pid pid p ≡ 0 = rw y refl in
      let same : tally (of_pid pid) s' ≡ tally (of_pid pid) s = omega (arith, t, w) in rw same a
]

update-Accounted :
    (s : Sched) (pcbs : ℕ → Pcb) (p : Proc) (b : Pcb) (pid : ℕ)
    → tally (of_pid p.pid) s ≡ 1
    → Accounted s pcbs pid
    → Accounted s (update pcbs p.pid b) pid
update-Accounted s pcbs p b pid one a = elim (Bool-cases (pid == p.pid)) [
  | inl y ↦ let same : pid ≡ p.pid = ground arith in inl (rw same one)
  | inr y ↦ rw y a
]

module _ (junk : ℕ → ℕ) (n i : ℕ) (held : ℕ → Option Proc) (h : i < n) where
  -- CPU `i` holds `o`, and the others what they did.
  abbrev Apart : Machine → Option Proc → Type 0
  Apart m o = Exclusive n m.krnl.sched (update held i o)

  held_now : (p : Proc) → update held i (some p) i ≡ some p
  held_now p = update_self held i (some p)

  pub bounded_rule :
      (f : Proc → ℕ) (b : ℕ) → CpuRule junk (λ m o. Apart m o × (tally f m.krnl.sched ≤ b))
  unfolding exec
  bounded_rule f b =
      let r = Exclusive-rule junk n i held h in
      record {
        dispatch = λ m x. (r.dispatch m x.0, rw (dispatch-tally n i f _ _ x.0) x.1);
        finish = λ m p x e.
            (r.finish m p x.0 e, omega (arith, finish-tally n i f _ _ p x.0 h (held_now p), x.1));
        put = λ m p x e. (r.put m p x.0 e, rw (put-tally n i f _ _ p x.0 h (held_now p)) x.1);
        instruction = λ m left p x.
            (r.instruction m left p x.0, rw (run-sched junk m.krnl (m.pcbs p.pid)) x.1);
      }

  pub Accounted-rule :
      (pid : ℕ) → CpuRule junk (λ m o. Apart m o × Accounted m.krnl.sched m.pcbs pid)
  unfolding exec
  Accounted-rule pid =
      let r = Exclusive-rule junk n i held h in
      record {
        dispatch = λ m x. (r.dispatch m x.0, rw (dispatch-tally n i (of_pid pid) _ _ x.0) x.1);
        finish = λ m p x e. (
          r.finish m p x.0 e,
          finish-Accounted m.krnl.sched _ m.pcbs p pid e (held-tally n i _ _ p x.0 h (held_now p))
              (finish-tally n i (of_pid pid) _ _ p x.0 h (held_now p)) x.1,
        );
        put = λ m p x e.
            (r.put m p x.0 e, rw (put-tally n i (of_pid pid) _ _ p x.0 h (held_now p)) x.1);
        instruction = λ m left p x. (
          r.instruction m left p x.0,
          rw (run-sched junk m.krnl (m.pcbs p.pid)) (
              update-Accounted m.krnl.sched m.pcbs p _ pid (held-tally n i _ _ p x.0 h (held_now p))
                x.1),
        );
      }

module _ (junk : ℕ → ℕ) (n i left : ℕ) (m : Machine) (o : Option Proc) (held : ℕ → Option Proc)
    (h : i < n) (e : held i ≡ o) (x : Exclusive n m.krnl.sched held) where
  -- A slot of a CPU brings no process into the system.
  pub cpu_slot-tally :
      (f : Proc → ℕ) → tally f (cpu_slot junk m left o).1.krnl.sched ≤ tally f m.krnl.sched
  cpu_slot-tally f =
      let b : tally f m.krnl.sched ≤ tally f m.krnl.sched = omega arith in
      (cpu_slot_rule (bounded_rule junk n i held h f (tally f m.krnl.sched)) m left o
        (rw (update_same held i o e) x, b)).1

  pub cpu_slot-Accounted :
      (pid : ℕ)
      → Accounted m.krnl.sched m.pcbs pid
      → Accounted (cpu_slot junk m left o).1.krnl.sched (cpu_slot junk m left o).1.pcbs pid
  cpu_slot-Accounted pid a =
      (cpu_slot_rule (Accounted-rule junk n i held h pid) m left o
        (rw (update_same held i o e) x, a)).1
