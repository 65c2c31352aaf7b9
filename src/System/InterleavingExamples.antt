-- ===== src/System/InterleavingExamples.antt =====
-- Two CPUs, each of which has been given a process.
use os_assignment_nhom.Base.{ℕ, ◌≡◌, ◌≢◌, refl, arith, true, false, none, some, []}
use os_assignment_nhom.Loader.{load, get_opcode}
use os_assignment_nhom.LoadExamples.{zeroes}
use os_assignment_nhom.Queue.{empty, enqueue, dequeue, shift_down}
use os_assignment_nhom.Os.{ld_slot, with_sched}
use os_assignment_nhom.Os.Rule.{dispatches}
use os_assignment_nhom.Sched.{
  get_mlq_proc, dispatch, serve, add_mlq_proc, enqueue_ready, init_scheduler, refill, charge,
}
use os_assignment_nhom.System.{System, boot, ld_turn}
use os_assignment_nhom.System.Invariant.{held}
use os_assignment_nhom.System.Interleaving.{
  Interleaved, start, later, cpu, ld, part_done, mutual_exclusion,
}
use os_assignment_nhom.System.Examples.{
  image, files, config, booted, sized, small, goes_on, load_next, some-after,
}

-- CPU `i` calls `get_proc`.
abbrev given : ℕ → System → System
given i s =
    let r = get_mlq_proc s.machine.krnl.sched in part_done s i (with_sched s.machine r.1) r.0

-- The loader takes the first entry up, the first CPU its process, and so on.
abbrev first_given : System
first_given = given 0 (load_next booted)

abbrev both_given : System
both_given = given 1 (load_next first_given)

record Seen : Type 0 where
  loads_1 : goes_on (ld_turn zeroes [] 0 booted) ≡ true
  working_1 : booted.ld_stopped ≡ false
  idle_1 : held (load_next booted) 0 ≡ none
  loads_2 : goes_on (ld_turn zeroes [] 0 first_given) ≡ true
  working_2 : first_given.ld_stopped ≡ false
  idle_2 : held (load_next first_given) 1 ≡ none
  held_1 : held both_given 0 ≡ some (record { pid = 1; prio = 5 })
  held_2 : held both_given 1 ≡ some (record { pid = 2; prio = 5 })

seen : Seen
unfolding ld_turn boot ld_slot load get_opcode get_mlq_proc dispatch serve empty add_mlq_proc
    enqueue_ready init_scheduler refill enqueue dequeue charge shift_down
seen = record {
  loads_1 = refl;
  working_1 = refl;
  idle_1 = refl;
  loads_2 = refl;
  working_2 = refl;
  idle_2 = refl;
  held_1 = refl;
  held_2 = refl;
}

both_given-Interleaved : Interleaved 2 booted both_given
both_given-Interleaved =
    later
      (later
        (later (later start (ld zeroes [] 0 seen.working_1 (some-after _ _ seen.loads_1)))
          (cpu (λ _. 0) 0 none (omega arith) seen.idle_1 dispatches))
        (ld zeroes [] 0 seen.working_2 (some-after _ _ seen.loads_2)))
      (cpu (λ _. 0) 1 none (omega arith) seen.idle_2 dispatches)

mutual_exclusion_example : ◌≢◌ {A = ℕ} 1 2
mutual_exclusion_example =
    mutual_exclusion image files config 0 1 (record { pid = 1; prio = 5 })
      (record { pid = 2; prio = 5 }) sized small both_given-Interleaved (omega arith) (omega arith)
      (omega arith) seen.held_1 seen.held_2
