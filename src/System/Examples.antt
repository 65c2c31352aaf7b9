-- ===== src/System/Examples.antt =====
-- The whole program on a small configuration: two CPUs and two processes of one instruction each.
use os_assignment_nhom.Base.{
  ℕ, zero, suc, ◌<◌, ◌≡◌, ◌⊎◌, refl, ap, arith, true, false, Bool, Option, none, some, List, [],
  ◌∷◌, length,
}
use os_assignment_nhom.Cpu.{Inst, Opcode, run}
use os_assignment_nhom.Loader.{Uninit, Token, word, num, line_end, load, get_opcode}
use os_assignment_nhom.Config.{Config, Entry}
use os_assignment_nhom.LoadExamples.{zeroes}
use os_assignment_nhom.Loader.Print.{print_program, filled_from}
use os_assignment_nhom.MemExamples.{system}
use os_assignment_nhom.Sched.Examples.{zeroed}
use os_assignment_nhom.Queue.{empty, enqueue, dequeue, shift_down}
use os_assignment_nhom.Sched.Conservation.{tally, of_pid}
use os_assignment_nhom.Os.{cpu_slot, ld_slot}
use os_assignment_nhom.Sched.{
  get_mlq_proc, dispatch, serve, add_mlq_proc, enqueue_ready, init_scheduler, refill, finish_proc,
  charge,
}
use os_assignment_nhom.System.Invariant.{held}
use os_assignment_nhom.System.Boot.{Sized, Small}
use os_assignment_nhom.System.Safety.{nothing_lost, Completed, completed, programs_run}
use os_assignment_nhom.System.{System, Image, boot, cpu, ld, Reach, start, later, cpu_turn, ld_turn}

abbrev code : List Inst
code = record { opcode = Opcode.calc_ins; arg_0 = 0; arg_1 = 0; arg_2 = 0; arg_3 = 0 } ∷ []

abbrev file : List Token
file = num 1 ∷ num 1 ∷ line_end ∷ word (99 ∷ 97 ∷ 108 ∷ 99 ∷ []) ∷ line_end ∷ []

abbrev pub files : Token → Option (List Token)
files path = some file

abbrev pub image : Image
image = record {
  sched = zeroed;
  mm = system.mm;
  pcbs = λ _. record { pid = 0; code = []; regs = λ _. 0; pc = 0 };
  mram = system.mram;
  mswp = λ _. system.active_mswp;
  uninit = [];
}

-- Two processes of the same level for two CPUs, each to start at once.
abbrev pub config : Config
config = record {
  time_slot = 2;
  num_cpus = 2;
  num_processes = 2;
  memramsz = 8192;
  memswpsz = 8192 ∷ 0 ∷ 0 ∷ 0 ∷ [];
  ld_processes =
      record { start_time = 0; path = word []; prio = 5 }
      ∷ record { start_time = 0; path = word []; prio = 5 }
      ∷ [];
}

abbrev pub booted : System
booted = boot image files config

-- What a slot of the loader that does not exit the program leaves.
abbrev pub after : System → Option System → System
after s none = s
after s (some t) = t

abbrev pub goes_on : Option System → Bool
goes_on none = false
goes_on (some t) = true

pub some-after : (s : System) (o : Option System) → goes_on o ≡ true → o ≡ some (after s o)
some-after s none e = cc e
some-after s (some t) e = refl

abbrev pub load_next : System → System
load_next s = after s (ld_turn zeroes [] 0 s)

abbrev pub turn_of : ℕ → System → System
turn_of i s = cpu_turn (λ _. 0) i s

-- The first process is loaded and runs, then the second one.
abbrev first_runs : System
first_runs = turn_of 0 (load_next booted)

abbrev both_run : System
both_run = turn_of 1 (load_next first_runs)

-- The loader ends, and then the CPUs do.
abbrev one_left : System
one_left = turn_of 0 (load_next both_run)

abbrev ended : System
ended = turn_of 1 one_left

-- What each of these states shows, by evaluation.
record Shown : Type 0 where
  loads_1 : goes_on (ld_turn zeroes [] 0 booted) ≡ true
  working_0 : booted.ld_stopped ≡ false
  cpu_0 : (load_next booted).stopped 0 ≡ false
  loads_2 : goes_on (ld_turn zeroes [] 0 first_runs) ≡ true
  working_1 : first_runs.ld_stopped ≡ false
  cpu_1 : (load_next first_runs).stopped 1 ≡ false
  held_0 : held both_run 0 ≡ some (record { pid = 1; prio = 5 })
  held_1 : held both_run 1 ≡ some (record { pid = 2; prio = 5 })
  loads_3 : goes_on (ld_turn zeroes [] 0 both_run) ≡ true
  working_2 : both_run.ld_stopped ≡ false
  cpu_2 : (load_next both_run).stopped 0 ≡ false
  loaded : one_left.loading.avail_pid ≡ 3
  cpu_3 : one_left.stopped 1 ≡ false
  stopped_0 : ended.stopped 0 ≡ true
  stopped_1 : ended.stopped 1 ≡ true
  ld_stopped : ended.ld_stopped ≡ true

shown : Shown
unfolding ld_turn boot cpu_turn cpu_slot ld_slot load get_opcode get_mlq_proc dispatch serve empty
    add_mlq_proc enqueue_ready init_scheduler refill enqueue dequeue run finish_proc charge
    shift_down
shown = record {
  loads_1 = refl;
  working_0 = refl;
  cpu_0 = refl;
  loads_2 = refl;
  working_1 = refl;
  cpu_1 = refl;
  held_0 = refl;
  held_1 = refl;
  loads_3 = refl;
  working_2 = refl;
  cpu_2 = refl;
  loaded = refl;
  cpu_3 = refl;
  stopped_0 = refl;
  stopped_1 = refl;
  ld_stopped = refl;
}

pub sized : Sized image.sched
sized = record { levels = λ i. refl; running = refl }

pub small : Small config
small = record { few = omega arith; prios = (omega arith, (omega arith, tt)) }

first_runs-Reach : Reach 2 booted first_runs
first_runs-Reach =
    later (later start (ld zeroes [] 0 shown.working_0 (some-after _ _ shown.loads_1)))
      (cpu (λ _. 0) 0 (omega arith) shown.cpu_0)

both_run-Reach : Reach 2 booted both_run
both_run-Reach =
    later (later first_runs-Reach (ld zeroes [] 0 shown.working_1 (some-after _ _ shown.loads_2)))
      (cpu (λ _. 0) 1 (omega arith) shown.cpu_1)

one_left-Reach : Reach 2 booted one_left
one_left-Reach =
    later (later both_run-Reach (ld zeroes [] 0 shown.working_2 (some-after _ _ shown.loads_3)))
      (cpu (λ _. 0) 0 (omega arith) shown.cpu_2)

ended-Reach : Reach 2 booted ended
ended-Reach = later one_left-Reach (cpu (λ _. 0) 1 (omega arith) shown.cpu_3)

nothing_lost_example :
    (tally (of_pid 2) one_left.machine.krnl.sched ≡ 1)
    ⊎ ((tally (of_pid 2) one_left.machine.krnl.sched ≡ 0)
        × ((one_left.machine.pcbs 2).pc ≡ length (one_left.machine.pcbs 2).code))
nothing_lost_example =
    nothing_lost image files config 2 sized small one_left-Reach (omega arith)
      (omega (arith, shown.loaded))

stopped : (i : ℕ) → i < 2 → ended.stopped i ≡ true
stopped zero h = shown.stopped_0
stopped (suc zero) h = shown.stopped_1
stopped (suc (suc i)) h = absurd (omega (arith, h))

-- The second entry.
abbrev second : Entry
second = record { start_time = 0; path = word []; prio = 5 }

completed_example : Completed (files second.path) 2 (ended.machine.pcbs 2)
completed_example =
    completed image files config (second ∷ []) [] second sized small ended-Reach (omega arith)
      stopped shown.ld_stopped refl

-- The file is the text of its one instruction.
file_text : file ≡ print_program 1 code
unfolding print_program
file_text = refl

programs_run_example :
    let b = ended.machine.pcbs 2 in
    (uninit : Uninit) × (b.code ≡ filled_from 0 uninit.inst code) × (b.pc ≡ length b.code)
programs_run_example =
    programs_run image files config (second ∷ []) [] second 1 code sized small ended-Reach
      (omega arith) stopped shown.ld_stopped refl (ap (λ (x : List Token). some x) file_text)
      (omega arith) (omega arith) ((omega arith, omega arith, omega arith, omega arith), tt)
