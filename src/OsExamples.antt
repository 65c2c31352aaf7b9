-- ===== src/OsExamples.antt =====
-- The theorems on the timer, the threads and the memory of a process at small inputs: a timer with
-- two devices, a CPU in a freshly started system, and a history of five calls.
use os_assignment_nhom.Base.{
  ℕ, ◌⊎◌, ◌^◌, suc, ◌+◌, ◌-◌, ◌<◌, ◌≤◌, ◌≡◌, refl, arith, true, false, none, some, List, [], ◌∷◌,
  length,
}
use os_assignment_nhom.Base.Word.{u32, u64}
use os_assignment_nhom.Sched.Examples.{
  booted, booted-IsValid, booted_empty, patient, one_ready, one_ready-Queued,
}
use os_assignment_nhom.Cpu.{Pcb}
use os_assignment_nhom.Loader.Print.{print_program, filled_from}
use os_assignment_nhom.Timer.{
  Timer, Step, enter, stopped, attach_all, start_timer, attach_event, after_attach, set_device,
  enter_slot, Reachable, started, stepped,
}
use os_assignment_nhom.Timer.Lockstep.{lockstep, no_deadlock}
use os_assignment_nhom.Os.{Machine, waits, LdProcess, cpu_slot, cpu_routine, ld_slot}
use os_assignment_nhom.Os.Rounds.{Kept, cpu_slot-Kept}
use os_assignment_nhom.Os.Ending.{cpu_routine_stops, idle_never_stops}
use os_assignment_nhom.Os.Arrival.{Entered, ld_slot-Entered}
use os_assignment_nhom.Mm.{Vma}
use os_assignment_nhom.Region.{init_mm}
use os_assignment_nhom.Region.Cover.{holds}
use os_assignment_nhom.Region.Apart.{Apart}
use os_assignment_nhom.Region.Fresh.{init_mm-Apart}
use os_assignment_nhom.Libmem.Calls.{liballoc}
use os_assignment_nhom.Libmem.Calls.Disjoint.{Allocated}
use os_assignment_nhom.Libmem.Calls.Safety.{liballoc-Allocated}
use os_assignment_nhom.Libmem.Calls.History.{
  Call, alloc_call, free_call, calls, demand, regions_apart,
}
use os_assignment_nhom.Kernel.{Krnl}
use os_assignment_nhom.MemExamples.{system}
use os_assignment_nhom.LoadExamples.{program, zeroes}

abbrev two_devices : Timer
two_devices = start_timer (attach_all 2)

-- The first device has entered its slot.
first_enters : Step two_devices (set_device two_devices 0 (enter_slot (two_devices.dev_list 0)))
unfolding start_timer attach_all attach_event after_attach
first_enters = enter two_devices 0 (omega arith) refl refl

abbrev one_done : Timer
one_done = set_device two_devices 0 (enter_slot (two_devices.dev_list 0))

one_done-Reachable : Reachable 2 one_done
one_done-Reachable = stepped started first_enters

one_done_flags :
    (1 < one_done.count) × ((one_done.dev_list 0).fsh ≡ false) × ((one_done.dev_list 1).fsh ≡ false)
unfolding start_timer attach_all attach_event after_attach enter_slot
one_done_flags = (omega arith, refl, refl)

lockstep_example :
    (one_done.time ≡ u64 one_done.rounds)
    × ((one_done.dev_list 0).passed ≤ one_done.rounds)
    × (one_done.rounds ≤ (one_done.dev_list 0).passed + 1)
    × ((one_done.dev_list 0).passed ≤ (one_done.dev_list 1).passed + 1)
lockstep_example =
    lockstep 2 one_done 0 1 one_done-Reachable (omega (arith, one_done_flags.0)) one_done_flags.0
      one_done_flags.1 one_done_flags.2

no_deadlock_example :
    ((t' : Timer) × Step one_done t')
    ⊎ ((one_done.pc ≡ stopped) × ((i : ℕ) → i < one_done.count → (one_done.dev_list i).fsh ≡ true))
no_deadlock_example = no_deadlock 2 one_done one_done-Reachable

abbrev loaded_pcb : Pcb
loaded_pcb = record { pid = 2; code = program; regs = λ _. 0; pc = 0 }

-- The system after its start, with the loader ended.
abbrev machine : Machine
machine = record {
  krnl = record system { sched = booted };
  pcbs = λ _. loaded_pcb;
  done = true;
  time_slot = 2;
}

cpu_slot-Kept_example : Kept 2 (cpu_slot (λ _. 0) machine 1 (some patient))
cpu_slot-Kept_example =
    cpu_slot-Kept (λ _. 0) machine 1 (some patient)
      (record {
        sched = booted-IsValid;
        prio = λ p e. (let same : patient ≡ p = cc e in rw (← same) (omega arith));
        slice = omega arith;
        unused = λ e. cc e;
      })
      (omega arith) (omega arith)

cpu_routine_stops_example :
    (m' : Machine) × (cpu_routine
        (λ _. 0)
        (suc (length program - 0))
        machine
        (record { proc = some patient; time_left = 0 })
      ≡ some m')
    × ((m'.pcbs 2).pc ≡ length program)
cpu_routine_stops_example =
    cpu_routine_stops (λ _. 0) machine 0 patient
      (record { sched = booted-IsValid; others = booted_empty; prio = omega arith; done = refl })
      (λ e. cc e, (λ e. cc e, tt)) (omega arith)

idle_never_stops_example :
    cpu_routine (λ _. 0) 1000 machine (record { proc = none; time_left = 0 }) ≡ none
idle_never_stops_example = idle_never_stops (λ _. 0) 1000 machine 0 booted-IsValid booted_empty

abbrev due : LdProcess
due = record { file = some (print_program 20 program); start_time = 3; prio = 5 }

ld_slot-Entered_example :
    (m' : Machine) × (ld_slot zeroes [] 4 machine (record { left = due ∷ []; avail_pid = 7 })
      ≡ some (waits, m', record { left = []; avail_pid = u32 (7 + 1) }))
    × Entered machine 7 5 (filled_from 0 zeroes.inst program) [] m'
ld_slot-Entered_example =
    ld_slot-Entered zeroes [] 4 20 machine (record { left = due ∷ []; avail_pid = 7 }) due []
      program booted-IsValid refl (omega arith) (omega arith) refl (omega arith) (omega arith)
      (
        (omega arith, omega arith, omega arith, omega arith),
        ((omega arith, omega arith, omega arith, omega arith), tt),
      )

-- Process 2 at its start, waiting for a CPU.
abbrev fresh_system : Krnl
fresh_system = record system { sched = one_ready; mm = λ _. init_mm [] }

abbrev history : List Call
history =
    alloc_call 300 0 ∷ alloc_call 100 1 ∷ free_call 0 ∷ alloc_call 200 2 ∷ alloc_call 80 0 ∷ []

history-demand : demand history < 2 ^ 31
unfolding demand
history-demand = omega arith

regions_apart_example :
    holds (((calls (λ _. 0) 2 history fresh_system).mm 2).symrgtbl 0) 210
      + holds (((calls (λ _. 0) 2 history fresh_system).mm 2).symrgtbl 2) 210
    ≤ 1
regions_apart_example =
    regions_apart (λ _. 0) 2 history fresh_system 0 2 210 one_ready-Queued.valid refl
      (omega arith, (omega arith, (omega arith, (omega arith, (omega arith, tt))))) history-demand
      (omega arith) (omega arith) (omega arith)

fresh-Apart : (v : Vma) × Apart (fresh_system.mm 2) v × (v.sbrk ≡ 0)
fresh-Apart = init_mm-Apart

liballoc-Allocated_example :
    Allocated fresh_system 2 300 0 fresh-Apart.0 (liballoc (λ _. 0) fresh_system 2 300 0)
liballoc-Allocated_example =
    liballoc-Allocated (λ _. 0) fresh_system 2 300 0 fresh-Apart.0 one_ready-Queued.valid
      fresh-Apart.1 (omega (arith, fresh-Apart.2)) (omega arith)
