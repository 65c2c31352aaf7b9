-- ===== src/System/Interleaving.antt =====
-- The program in steps as small as the scheduler's lock allows: between two calls of the scheduler by a
-- CPU, the other CPUs and the loader can take any steps. A CPU holds a process from the return of
-- `get_proc` to its next call of `put_proc` or `finish_proc`; what `proc` points to between these and
-- the next `get_proc` it does not use. The parts of a CPU may follow in any order that what it holds
-- allows, so those of `cpu_routine` are among them.
use os_assignment_nhom.Base.{ℕ, ◌<◌, ◌≡◌, ◌≢◌, refl, arith, false, Option, some, List, update}
use os_assignment_nhom.Queue.{Proc}
use os_assignment_nhom.Mm.{Region}
use os_assignment_nhom.Sched.Conservation.{tally, each, of_pid}
use os_assignment_nhom.Sched.Exclusion.{Exclusive}
use os_assignment_nhom.Loader.{Token, Uninit}
use os_assignment_nhom.Config.{Config}
use os_assignment_nhom.Os.{Machine, Thread}
use os_assignment_nhom.Os.Rule.{Part, Part_rule}
use os_assignment_nhom.Os.Exclusion.{update_same, update_proc, Exclusive-rule}
use os_assignment_nhom.Os.Accounting.{bounded_rule, Accounted-rule}
use os_assignment_nhom.Os.Slots.{ld_slot-Arrival}
use os_assignment_nhom.System.{System, Image, boot, ld_turn}
use os_assignment_nhom.System.Invariant.{held, Running}
use os_assignment_nhom.System.Boot.{Sized, Small, boot-Running}
use os_assignment_nhom.System.Steps.{Arrival-Running}

-- The program after a part of a round of CPU `i`.
abbrev pub part_done : System → ℕ → Machine → Option Proc → System
part_done s i m o = record s {
  machine = m;
  threads = update s.threads i (record (s.threads i) { proc = o });
}

-- A part of a round of one of `n` CPUs, or a slot of the loader, which calls the scheduler once.
pub data Move (n : ℕ) (s : System) : System → Type 0 where
  cpu :
      (junk : ℕ → ℕ) (i : ℕ) (o : Option Proc) {m : Machine} {o' : Option Proc}
      → i < n
      → held s i ≡ o
      → Part junk s.machine o m o'
      → Move n s (part_done s i m o')
  ld :
      (uninit : Uninit) (free_rg : List Region) (now : ℕ) {t : System}
      → s.ld_stopped ≡ false
      → ld_turn uninit free_rg now s ≡ some t
      → Move n s t

-- Any interleaving of such steps from the state `b`.
pub data Interleaved (n : ℕ) (b : System) : System → Type 0 where
  start : Interleaved n b b
  later : {s t : System} → Interleaved n b s → Move n s t → Interleaved n b t

Part-Running :
    (junk : ℕ → ℕ) (n i : ℕ) (s : System) (o : Option Proc) {m : Machine} {o' : Option Proc}
    → i < n
    → held s i ≡ o
    → Part junk s.machine o m o'
    → Running n s
    → Running n (part_done s i m o')
Part-Running junk n i s o {m} {o'} h e part r =
    let x : Exclusive n s.machine.krnl.sched (update (held s) i o) =
      rw (update_same (held s) i o e) r.exclusive in
    let fewer = λ (f : Proc → ℕ).
      (Part_rule (bounded_rule junk n i (held s) h f (tally f s.machine.krnl.sched)) part
        (x, omega arith)).1 in
    let t : Thread = record (s.threads i) { proc = o' } in
    record {
      exclusive =
          rw (update_proc s.threads i t) (Part_rule (Exclusive-rule junk n i (held s) h) part x);
      load = record {
        unborn = λ pid k. omega (arith, fewer (of_pid pid), r.load.unborn pid k);
        room = omega (arith, fewer each, r.load.room);
        range = r.load.range;
        prios = r.load.prios;
        accounted = λ pid k l.
            (Part_rule (Accounted-rule junk n i (held s) h pid) part
              (x, r.load.accounted pid k l)).1;
      };
    }

Interleaved-Running : {n : ℕ} {b s : System} → Running n b → Interleaved n b s → Running n s
unfolding ld_turn
Interleaved-Running w start = w
Interleaved-Running w (later {s} r (cpu junk i o h e part)) =
    Part-Running junk _ i s o h e part (Interleaved-Running w r)
Interleaved-Running w (later {s} {t} r (ld uninit free_rg now k e)) =
    Arrival-Running _ s t _ (Interleaved-Running w r)
      (ld_slot-Arrival uninit free_rg now s.machine s.loading s.loading.left refl) e

-- Mutual exclusion for the whole program: from the start on a configuration of fewer than 50
-- processes, of priorities below 140, however the calls of the scheduler by the CPUs and by the
-- loader, each of which is atomic by its lock, and the instructions of the processes, each of them a
-- step, are interleaved, and whatever the files and the programs in them are, no two CPUs hold processes of
-- one pid.
pub mutual_exclusion :
    {s : System} (image : Image) (files : Token → Option (List Token)) (c : Config) (i j : ℕ)
    (p q : Proc)
    → Sized image.sched
    → Small c
    → Interleaved c.num_cpus (boot image files c) s
    → i < c.num_cpus
    → j < c.num_cpus
    → i ≢ j
    → held s i ≡ some p
    → held s j ≡ some q
    → p.pid ≢ q.pid
mutual_exclusion image files c i j p q z h r =
    (Interleaved-Running (boot-Running c.num_cpus image files c z h) r).exclusive.apart i j p q
