-- ===== src/System/Invariant.antt =====
-- What holds of the whole program in every state that its threads can bring it to.
use os_assignment_nhom.Base.{ℕ, ◌+◌, ◌<◌, ◌≤◌, ◌≡◌, refl, arith, Option, length, All, ◌^◌}
use os_assignment_nhom.Queue.{Proc, max_queue_size}
use os_assignment_nhom.Sched.{max_prio}
use os_assignment_nhom.Sched.Conservation.{tally, each, of_pid}
use os_assignment_nhom.Sched.Exclusion.{Exclusive}
use os_assignment_nhom.Os.{Machine, Loading, cpu_slot}
use os_assignment_nhom.Os.Exclusion.{update_proc, cpu_slot-Exclusive}
use os_assignment_nhom.Os.Accounting.{Accounted, cpu_slot-tally, cpu_slot-Accounted}
use os_assignment_nhom.System.{System, cpu_turn}

-- The state shared with the loader: no pid from the next one on is in use; the processes in the
-- system and those still to come are fewer than 50 and have priorities below 140; and every process
-- that has been loaded is in the system or has left it at the end of its code.
pub record Loaded (m : Machine) (ld : Loading) : Type 0 where
  pub unborn : (pid : ℕ) → ld.avail_pid ≤ pid → tally (of_pid pid) m.krnl.sched ≡ 0
  pub room : tally each m.krnl.sched + length ld.left < max_queue_size
  pub range : ld.avail_pid + length ld.left < 2 ^ 32
  pub prios : All (λ e. e.prio < max_prio) ld.left
  pub accounted : (pid : ℕ) → 1 ≤ pid → pid < ld.avail_pid → Accounted m.krnl.sched m.pcbs pid

abbrev pub held : System → ℕ → Option Proc
held s i = (s.threads i).proc

pub record Running (n : ℕ) (s : System) : Type 0 where
  pub exclusive : Exclusive n s.machine.krnl.sched (held s)
  pub load : Loaded s.machine s.loading

pub cpu_turn-Running :
    (junk : ℕ → ℕ) (n i : ℕ) (s : System) → i < n → Running n s → Running n (cpu_turn junk i s)
unfolding cpu_turn
cpu_turn-Running junk n i s h r =
    let t = s.threads i in
    let g = cpu_slot-tally junk n i t.time_left s.machine t.proc (held s) h refl r.exclusive in
    let a = cpu_slot-Accounted junk n i t.time_left s.machine t.proc (held s) h refl r.exclusive in
    record {
      exclusive =
          rw (update_proc s.threads i (cpu_slot junk s.machine t.time_left t.proc).2)
            (cpu_slot-Exclusive junk n s.machine t.time_left i t.proc (held s) h refl r.exclusive);
      load = record {
        unborn = λ pid k. omega (arith, g (of_pid pid), r.load.unborn pid k);
        room = omega (arith, g each, r.load.room);
        range = r.load.range;
        prios = r.load.prios;
        accounted = λ pid k l. a pid (r.load.accounted pid k l);
      };
    }
