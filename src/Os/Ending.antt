-- ===== src/Os/Ending.antt =====
-- A CPU that is alone with its process runs it to the end and stops; one without never does.
use os_assignment_nhom.Base.{
  ℕ, zero, suc, ◌+◌, ◌-◌, ◌<◌, ◌≤◌, ◌≡◌, refl, sym, ◌∙◌, ap, arith, Bool, true, false, none, some,
  List, All, ◌==◌, if◌then◌else◌, update_self, length,
}
use mathlib.Core.Path.{subst}
use os_assignment_nhom.Queue.{Proc}
use os_assignment_nhom.Sched.{Sched, max_prio, finish_proc}
use os_assignment_nhom.Sched.Invariant.{IsValid}
use os_assignment_nhom.Sched.Operations.{finish_proc_lem}
use os_assignment_nhom.Cpu.{Inst, read_ins, run}
use os_assignment_nhom.Cpu.Progress.{run_lem}
use os_assignment_nhom.Cpu.Isolation.{run-sched}
use os_assignment_nhom.Os.{
  Machine, Thread, Status, waits, stops, with_sched, exec, idle_with, switch_to, cpu_slot, ended,
  cpu_routine,
}
use os_assignment_nhom.Os.Branches.{cpu_slot_finishes, cpu_slot_preempts, cpu_slot_goes_on}
use os_assignment_nhom.Os.Dispatching.{AllEmpty, get_mlq_proc-AllEmpty, get_mlq_proc-put_mlq_proc}

-- No other process waits, and the loader has ended.
pub record Alone (m : Machine) (p : Proc) : Type 0 where
  pub sched : IsValid m.krnl.sched
  pub others : AllEmpty m.krnl.sched
  pub prio : p.prio < max_prio
  pub done : m.done ≡ true

-- A round that lets the process run an instruction.
record Ran (m : Machine) (p : Proc) (r : Status × Machine × Thread) : Type 0 where
  left : ℕ
  status : r.0 ≡ waits
  thread : r.2 ≡ record { proc = some p; time_left = left }
  alone : Alone r.1 p
  pc : (r.1.pcbs p.pid).pc ≡ (m.pcbs p.pid).pc + 1
  code : (r.1.pcbs p.pid).code ≡ (m.pcbs p.pid).code

exec-Ran :
    (junk : ℕ → ℕ) (m : Machine) (left : ℕ) (p : Proc)
    → Alone m p
    → (m.pcbs p.pid).pc < length (m.pcbs p.pid).code
    → Ran m p (exec junk m left p)
unfolding exec
exec-Ran junk m left p a h =
    let w = (run_lem junk m.krnl (m.pcbs p.pid)).1 h in
    let q = update_self m.pcbs p.pid (run junk m.krnl (m.pcbs p.pid)).1 in
    record {
      left = _;
      status = refl;
      thread = refl;
      alone = record {
        sched = rw (run-sched junk m.krnl (m.pcbs p.pid)) a.sched;
        others = rw (run-sched junk m.krnl (m.pcbs p.pid)) a.others;
        prio = a.prio;
        done = a.done;
      };
      pc = rw q w.0;
      code = rw q w.1;
    }

switch_to-Ran :
    (junk : ℕ → ℕ) (m : Machine) (s : Sched) (p : Proc)
    → Alone (with_sched m s) p
    → (m.pcbs p.pid).pc < length (m.pcbs p.pid).code
    → Ran m p (switch_to junk m 0 (some p, s))
unfolding switch_to
switch_to-Ran junk m s p a h =
    let r = exec-Ran junk (with_sched m s) 0 p a h in
    record {
      left = r.left;
      status = r.status;
      thread = r.thread;
      alone = r.alone;
      pc = r.pc;
      code = r.code;
    }

cpu_slot-Ran :
    (junk : ℕ → ℕ) (m : Machine) (left : ℕ) (p : Proc)
    → Alone m p
    → (m.pcbs p.pid).pc < length (m.pcbs p.pid).code
    → Ran m p (cpu_slot junk m left (some p))
cpu_slot-Ran junk m zero p a h =
    let e : ((m.pcbs p.pid).pc == length (m.pcbs p.pid).code) ≡ false = ground arith in
    let (s, g, v, o) = get_mlq_proc-put_mlq_proc m.krnl.sched p a.sched a.others a.prio in
    let c : cpu_slot junk m 0 (some p) ≡ switch_to junk m 0 (some p, s) =
      cpu_slot_preempts junk m p e ∙ ap (λ x. switch_to junk m 0 x) g in
    subst (λ r. Ran m p r) (sym c)
      (switch_to-Ran junk m s p (record { sched = v; others = o; prio = a.prio; done = a.done }) h)
cpu_slot-Ran junk m (suc left) p a h =
    let e : ((m.pcbs p.pid).pc == length (m.pcbs p.pid).code) ≡ false = ground arith in
    subst (λ r. Ran m p r) (sym (cpu_slot_goes_on junk m left p e))
      (exec-Ran junk m (suc left) p a h)

-- The round in which the process has ended: the CPU stops.
cpu_slot_stops :
    (junk : ℕ → ℕ) (m : Machine) (left : ℕ) (p : Proc)
    → Alone m p
    → (m.pcbs p.pid).pc ≡ length (m.pcbs p.pid).code
    → (s : Sched) × (cpu_slot junk m left (some p)
        ≡ (stops, with_sched m s, record { proc = none; time_left = 0 }))
unfolding switch_to
cpu_slot_stops junk m left p a h =
    let e : ((m.pcbs p.pid).pc == length (m.pcbs p.pid).code) ≡ true = ground arith in
    let f = finish_proc_lem p m.krnl.sched a.sched in
    let (s, g, v, o) =
      get_mlq_proc-AllEmpty (finish_proc (some p) m.krnl.sched) f.2 (rw f.1 a.others) in
    (
      s,
      cpu_slot_finishes junk m left p e
          ∙ ap (λ x. switch_to junk m 0 x) g
          ∙ ap
              (λ (d : Bool).
                (if d then stops else waits, with_sched m s, record { proc = none; time_left = 0 }))
              a.done,
    )

-- One round of the loop more.
cpu_routine-suc :
    (junk : ℕ → ℕ) (n : ℕ) (m : Machine) (t : Thread)
    → let r = cpu_slot junk m t.time_left t.proc in
      cpu_routine junk (suc n) m t ≡ ended r.0 r.1 (cpu_routine junk n r.1 r.2)
unfolding cpu_routine
cpu_routine-suc junk n m t = refl

runs_out :
    (junk : ℕ → ℕ) (n : ℕ) (m : Machine) (left : ℕ) (p : Proc)
    → Alone m p
    → (m.pcbs p.pid).pc + n ≡ length (m.pcbs p.pid).code
    → (m' : Machine) × (cpu_routine junk (suc n) m (record { proc = some p; time_left = left })
        ≡ some m')
      × ((m'.pcbs p.pid).pc ≡ length (m.pcbs p.pid).code)
unfolding ended
runs_out junk zero m left p a h =
    let (s, e) = cpu_slot_stops junk m left p a (omega (arith, h)) in
    (
      with_sched m s,
      cpu_routine-suc junk 0 m _ ∙ ap (λ r. ended r.0 r.1 (cpu_routine junk 0 r.1 r.2)) e,
      omega (arith, h),
    )
runs_out junk (suc n) m left p a h =
    let r = cpu_slot junk m left (some p) in
    let w = cpu_slot-Ran junk m left p a (omega (arith, h)) in
    let c : length (r.1.pcbs p.pid).code ≡ length (m.pcbs p.pid).code =
      ap (λ (x : List Inst). length x) w.code in
    let (m', e, f) = runs_out junk n r.1 w.left p w.alone (omega (arith, h, w.pc, c)) in
    (
      m',
      cpu_routine-suc junk (suc n) m _
          ∙ ap (λ (x : Status). ended x r.1 (cpu_routine junk (suc n) r.1 r.2)) w.status
          ∙ ap (λ (x : Thread). cpu_routine junk (suc n) r.1 x) w.thread
          ∙ e,
      f ∙ c,
    )

-- An instruction that stores to a register stores to one of the ten. In the code another index
-- overwrites what follows the registers in the process control block, the program counter first.
abbrev pub NamesRegister : Inst → Type 0
NamesRegister i = i.opcode ≡ read_ins → i.arg_2 < 10

-- A CPU that holds the only process, with the loader ended and nothing else running, runs the
-- process to the end of its code and stops, whatever the time slot and the instructions, if those
-- that read name one of the ten registers: one round for each instruction left and one more are enough. The process is put back and dispatched anew
-- at every end of its slot.
pub cpu_routine_stops :
    (junk : ℕ → ℕ) (m : Machine) (left : ℕ) (p : Proc)
    → Alone m p
    → All NamesRegister (m.pcbs p.pid).code
    → (m.pcbs p.pid).pc ≤ length (m.pcbs p.pid).code
    → (m' : Machine) × (cpu_routine junk
          (suc (length (m.pcbs p.pid).code - (m.pcbs p.pid).pc))
          m
          (record { proc = some p; time_left = left })
        ≡ some m')
      × ((m'.pcbs p.pid).pc ≡ length (m.pcbs p.pid).code)
cpu_routine_stops junk m left p a regs h =
    runs_out junk (length (m.pcbs p.pid).code - (m.pcbs p.pid).pc) m left p a (omega (arith, h))

idle_round :
    (junk : ℕ → ℕ) (m : Machine) (left : ℕ)
    → IsValid m.krnl.sched
    → AllEmpty m.krnl.sched
    → (s : Sched) × (cpu_slot junk m left none
        ≡ (waits, with_sched m s, record { proc = none; time_left = left }))
      × IsValid s
      × AllEmpty s
unfolding cpu_slot idle_with
idle_round junk m left v h =
    let (s, g, w, o) = get_mlq_proc-AllEmpty m.krnl.sched v h in
    (s, ap (λ x. idle_with junk m left x) g, w, o)

-- A CPU without a process never stops while no process is waiting, however many rounds it makes and
-- even though the loader has ended and `done` is set: the test for `done` is not reached from there.
pub idle_never_stops :
    (junk : ℕ → ℕ) (n : ℕ) (m : Machine) (left : ℕ)
    → IsValid m.krnl.sched
    → AllEmpty m.krnl.sched
    → cpu_routine junk n m (record { proc = none; time_left = left }) ≡ none
unfolding ended cpu_routine
idle_never_stops junk zero m left v h = refl
idle_never_stops junk (suc n) m left v h =
    let (s, e, w, o) = idle_round junk m left v h in
    ap (λ r. ended r.0 r.1 (cpu_routine junk n r.1 r.2)) e
    ∙ idle_never_stops junk n (with_sched m s) left w o
