-- ===== src/Os.antt =====
-- ossim_lamiaatrium/src/os.c: the threads of the CPUs and of the loader. A step below is what a thread
-- does between two calls of `next_slot`, with no other thread in between; it ends in waiting for
-- the next slot or in stopping. The scheduler's pointer to a process is its pid and priority; the
-- rest of the process block is found by the pid. The memory structure is found in the same way and
-- is never NULL, so the failsafe test of `cpu_routine` has no model; printing is left out.
pub mod Dispatching
pub mod Branches
pub mod Rounds
pub mod Ending
pub mod Arrival
pub mod Slots
pub mod Codes
pub mod Rule
pub mod Exclusion
pub mod Accounting
pub mod Ownership
pub mod Empty
pub mod Frames
use os_assignment_nhom.Base.{
  ℕ, zero, suc, ◌+◌, ◌-◌, ◌^◌, Bool, true, false, not, ◌&&◌, Option, none, some, List, [], ◌∷◌, ltb,
  ◌==◌, if◌then◌else◌, update, length,
}
use os_assignment_nhom.Base.Word.{u32}
use os_assignment_nhom.Mm.{Mm, Region}
use os_assignment_nhom.Region.{init_mm}
use os_assignment_nhom.Queue.{Proc}
use os_assignment_nhom.Sched.{Sched, get_mlq_proc, put_mlq_proc, add_mlq_proc, finish_proc}
use os_assignment_nhom.Kernel.{Krnl}
use os_assignment_nhom.Cpu.{Pcb, run}
use os_assignment_nhom.Loader.{Token, Uninit, load}

-- What the threads share: the kernel, the process blocks, and the statics `done` and `time_slot`.
pub record Machine : Type 0 where
  pub krnl : Krnl
  pub pcbs : ℕ → Pcb
  pub done : Bool
  pub time_slot : ℕ

-- The locals of `cpu_routine`; `time_left` is an `int`.
pub record Thread : Type 0 where
  pub proc : Option Proc
  pub time_left : ℕ

pub data Status : Type 0 where
  waits : Status
  stops : Status

abbrev pub with_sched : Machine → Sched → Machine
with_sched m s = record m { krnl = record (m.krnl) { sched = s } }

-- `run(proc); time_left--;` with the full slot first if no time was left.
pub exec : (ℕ → ℕ) → Machine → ℕ → Proc → Status × Machine × Thread
exec junk m time_left p =
    let left : ℕ = if time_left == 0 then m.time_slot else time_left in
    let r = run junk m.krnl (m.pcbs p.pid) in
    (
      waits,
      record m { krnl = r.2; pcbs = update m.pcbs p.pid r.1 },
      record { proc = some p; time_left = u32 (left + (2 ^ 32 - 1)) },
    )

-- A CPU without a process, on the result of `get_proc`: without one it goes to the next slot.
pub idle_with : (ℕ → ℕ) → Machine → ℕ → Option Proc × Sched → Status × Machine × Thread
unfolding exec
idle_with junk m time_left (none, s) =
    (waits, with_sched m s, record { proc = none; time_left = time_left })
idle_with junk m time_left (some p, s) = exec junk (with_sched m s) time_left p

-- A CPU that has given its process up, on the result of `get_proc`.
pub switch_to : (ℕ → ℕ) → Machine → ℕ → Option Proc × Sched → Status × Machine × Thread
unfolding exec
switch_to junk m time_left (none, s) =
    (if m.done then stops else waits, with_sched m s, record { proc = none; time_left = time_left })
switch_to junk m time_left (some p, s) = exec junk (with_sched m s) time_left p

-- One round of the loop of `cpu_routine`.
unfoldable pub cpu_slot : (ℕ → ℕ) → Machine → ℕ → Option Proc → Status × Machine × Thread
unfolding exec idle_with switch_to
cpu_slot junk m time_left none = idle_with junk m time_left (get_mlq_proc m.krnl.sched)
cpu_slot junk m time_left (some p) =
    if (m.pcbs p.pid).pc == length (m.pcbs p.pid).code
    then switch_to junk m 0 (get_mlq_proc (finish_proc (some p) m.krnl.sched))
    else if time_left == 0
    then switch_to junk m 0 (get_mlq_proc (put_mlq_proc (some p) m.krnl.sched))
    else exec junk m time_left p

-- One entry of `ld_processes`, with the text of the file at its path.
pub record LdProcess : Type 0 where
  pub file : Option (List Token)
  pub start_time : ℕ
  pub prio : ℕ

-- The locals of `ld_routine`: the entries from `i` on; and the loader's `avail_pid`.
pub record Loading : Type 0 where
  pub left : List LdProcess
  pub avail_pid : ℕ

-- The process that `load` made is given its priority and memory and added.
pub admit :
    Machine
    → List LdProcess
    → ℕ
    → List Region
    → Option (Pcb × ℕ × ℕ)
    → Option (Status × Machine × Loading)
admit m rest prio uninit none = none
admit m rest prio uninit (some (pcb, priority, next_pid)) =
    let k : Krnl = record (m.krnl) { mm = update m.krnl.mm pcb.pid (init_mm uninit) } in
    let p : Proc = record { pid = pcb.pid; prio = u32 prio } in
    some (
      waits,
      record m {
        krnl = record k { sched = add_mlq_proc (some p) k.sched };
        pcbs = update m.pcbs pcb.pid pcb;
      },
      record { left = rest; avail_pid = next_pid },
    )

-- One slot of `ld_routine` at `current_time`; `none` where the program exits.
unfoldable pub ld_slot :
    Uninit → List Region → ℕ → Machine → Loading → Option (Status × Machine × Loading)
unfolding admit
ld_slot uninit free_rg now m ld = elim ld.left [
  | [] ↦ some (stops, record m { done = true }, ld)
  | e ∷ rest ↦
      if ltb now e.start_time
      then some (waits, m, ld)
      else admit m rest e.prio free_rg (load uninit ld.avail_pid e.file)
]

-- What a round that ended in this way makes of the loop.
unfoldable pub ended : Status → Machine → Option Machine → Option Machine
ended waits m rest = rest
ended stops m rest = some m

-- The loop of `cpu_routine` on a CPU that no other thread disturbs, for at most `fuel` rounds: the
-- state in which it ends, `none` if it still runs.
pub cpu_routine : (ℕ → ℕ) → ℕ → Machine → Thread → Option Machine
unfolding cpu_slot ended
cpu_routine junk zero m t = none
cpu_routine junk (suc fuel) m t =
    let r = cpu_slot junk m t.time_left t.proc in ended r.0 r.1 (cpu_routine junk fuel r.1 r.2)
