-- ===== src/Sched/Examples.antt =====
-- The scheduler's theorems at a small system: a process at level 0 and one at level 5.
use os_assignment_nhom.Base.{
  ℕ, sym, ap, Option, ◌+◌, ◌<◌, ◌≤◌, ◌≡◌, refl, ◌∙◌, arith, some, none, [], ◌∷◌, replicate, ◌*◌,
  length,
}
use os_assignment_nhom.Queue.{Proc, Queue}
use os_assignment_nhom.Queue.Refine.{live, push}
use os_assignment_nhom.Sched.{
  Sched, max_prio, init_scheduler, finish_proc, charge, get_mlq_proc, put_mlq_proc, add_mlq_proc,
  find_process_by_pid,
}
use os_assignment_nhom.Sched.Invariant.{charge-Served, Served, IsValid, dequeued, serve_cons}
use os_assignment_nhom.Sched.Dispatch.{Outcome, dispatch-some, get_mlq_proc-Outcome}
use os_assignment_nhom.Sched.Operations.{Queued, add_mlq_proc_lem, init_scheduler-IsValid}
use os_assignment_nhom.Sched.Search.{Located, find_process_by_pid-Located}
use os_assignment_nhom.Sched.Conservation.{
  weigh, tally, each, of_pid, get_mlq_proc-tally, Queued-tally, conserved,
}
use os_assignment_nhom.Base.Sums.{sum_range}
use os_assignment_nhom.Queue.Contents.{find_pid}
use os_assignment_nhom.Queue.Refine.{contents}
use os_assignment_nhom.Sched.Fairness.Weight.{wait}
use os_assignment_nhom.Sched.Fairness.Bypass.{Bypass, no_starvation}

abbrev no_procs : Queue
no_procs = record { proc = replicate 50 none; size = 0 }

-- The statics of the program.
abbrev pub zeroed : Sched
zeroed = record {
  ready_queue = no_procs;
  run_queue = no_procs;
  running_list = no_procs;
  mlq_ready_queue = λ _. no_procs;
  slot = λ _. 0;
  current_slot = λ _. 0;
  current_prio = 0;
}

abbrev pub urgent : Proc
urgent = record { pid = 1; prio = 0 }

abbrev pub patient : Proc
patient = record { pid = 2; prio = 5 }

abbrev pub booted : Sched
booted = init_scheduler zeroed

abbrev pub one_ready : Sched
one_ready = add_mlq_proc (some patient) booted

abbrev two_ready : Sched
two_ready = add_mlq_proc (some urgent) one_ready

pub booted-IsValid : IsValid booted
booted-IsValid = (init_scheduler-IsValid zeroed (λ i. refl) refl).0

pub booted_empty : (i : ℕ) → i < max_prio → live (booted.mlq_ready_queue i) ≡ []
booted_empty = (init_scheduler-IsValid zeroed (λ i. refl) refl).1

pub one_ready-Queued : Queued booted patient one_ready
one_ready-Queued = add_mlq_proc_lem patient booted booted-IsValid (omega arith)

two_ready-Queued : Queued one_ready urgent two_ready
two_ready-Queued = add_mlq_proc_lem urgent one_ready one_ready-Queued.valid (omega arith)

two_ready-IsValid : IsValid two_ready
two_ready-IsValid = two_ready-Queued.valid

push_empty : (p : Proc) → push [] p ≡ p ∷ []
unfolding push
push_empty p = refl

level_0 : live (two_ready.mlq_ready_queue 0) ≡ urgent ∷ []
level_0 =
    two_ready-Queued.appended
    ∙ rw (one_ready-Queued.others 0 (omega arith), booted_empty 0 (omega arith)) (push_empty urgent)

level_5 : live (two_ready.mlq_ready_queue 5) ≡ patient ∷ []
level_5 =
    rw
      (
        two_ready-Queued.others 5 (omega arith),
        one_ready-Queued.appended,
        booted_empty 5 (omega arith),
      )
      (push_empty patient)

level_5-nonempty : 0 < length (live (two_ready.mlq_ready_queue 5))
level_5-nonempty = rw level_5 (omega arith)

get_mlq_proc-Outcome_example :
    Outcome max_prio two_ready.current_prio two_ready (get_mlq_proc two_ready)
get_mlq_proc-Outcome_example = get_mlq_proc-Outcome two_ready two_ready-IsValid

-- The state after the urgent process is dispatched.
abbrev urgent_runs : Sched
urgent_runs = charge 0 (some urgent) (dequeued 0 two_ready)

starts_at_0 : two_ready.current_prio ≡ 0
unfolding init_scheduler
starts_at_0 = two_ready-Queued.current_prio ∙ one_ready-Queued.current_prio

urgent_first : get_mlq_proc two_ready ≡ (some urgent, urgent_runs)
unfolding get_mlq_proc add_mlq_proc os_assignment_nhom.Sched.enqueue_ready init_scheduler
urgent_first = rw starts_at_0 (
    dispatch-some 139 0 two_ready urgent_runs urgent
      (serve_cons two_ready 0 urgent [] two_ready-IsValid (omega arith) level_0))

no_starvation_example : (1 ≤ wait 5 two_ready + 19741 * 0) × (1 ≤ 19740 + 19741 * 0)
no_starvation_example =
    no_starvation 5 0 1 two_ready urgent_runs (omega arith) two_ready-IsValid
      (Bypass.bypass urgent level_5-nonempty urgent_first (omega arith) (Bypass.stop 0 urgent_runs))

find_process_by_pid-Located_example : Located two_ready 2 (find_process_by_pid two_ready 2)
find_process_by_pid-Located_example = find_process_by_pid-Located two_ready 2 two_ready-IsValid

-- A system in which the patient process runs.
abbrev pub patient_runs : Sched
patient_runs = record zeroed {
  running_list = record { proc = some patient ∷ replicate 49 none; size = 1 };
}

pub patient_found : find_process_by_pid patient_runs 2 ≡ some patient
unfolding find_process_by_pid os_assignment_nhom.Sched.find_in os_assignment_nhom.Queue.find_index
    os_assignment_nhom.Queue.same_pid
patient_found = refl

-- A system in which both processes run.
abbrev pub both_run : Sched
both_run = record zeroed {
  running_list = record { proc = some patient ∷ some urgent ∷ replicate 48 none; size = 2 };
}

pub both_found :
    (find_process_by_pid both_run 2 ≡ some patient) × (find_process_by_pid both_run 1 ≡ some urgent)
unfolding find_process_by_pid os_assignment_nhom.Sched.find_in os_assignment_nhom.Queue.find_index
    os_assignment_nhom.Queue.same_pid
both_found = (refl, refl)

-- No process is in the system after its start, and two are once they have been added.
booted-tally : tally each booted ≡ 0
unfolding tally weigh sum_range init_scheduler contents
booted-tally = refl

two_ready-tally : tally each two_ready ≡ 2
two_ready-tally =
    let a =
      Queued-tally each booted one_ready patient (omega arith) (omega (arith, booted-tally))
        one_ready-Queued in
    let b =
      Queued-tally each one_ready two_ready urgent (omega arith) (omega (arith, a, booted-tally))
        two_ready-Queued in
    omega (arith, a, b, booted-tally)

-- The urgent process runs and the other one waits.
urgent_runs-Served : Served two_ready 0 urgent urgent_runs
urgent_runs-Served = charge-Served two_ready 0 urgent [] two_ready-IsValid (omega arith) level_0

urgent_runs-tally : tally each urgent_runs ≡ 2
urgent_runs-tally =
    ap (λ (r : Option Proc × Sched). tally each r.1) (sym urgent_first)
    ∙ get_mlq_proc-tally each two_ready two_ready-IsValid (omega (arith, two_ready-tally))
    ∙ two_ready-tally

urgent_found : find_pid 1 (live urgent_runs.running_list) ≡ some urgent
unfolding find_pid
urgent_found =
    let none_runs : live two_ready.running_list ≡ [] =
      ap (λ (q : Queue). live q) (two_ready-Queued.running_list ∙ one_ready-Queued.running_list)
      ∙ (init_scheduler-IsValid zeroed (λ i. refl) refl).2 in
    rw (urgent_runs-Served.joined, none_runs, push_empty urgent) refl

abbrev third : Proc
third = record { pid = 3; prio = 5 }

conserved_example :
    (tally (of_pid 1) (get_mlq_proc urgent_runs).1 ≡ tally (of_pid 1) urgent_runs)
    × (tally (of_pid 1) (put_mlq_proc (some urgent) urgent_runs) ≡ tally (of_pid 1) urgent_runs)
    × (tally (of_pid 1) (finish_proc (some urgent) urgent_runs) + 1 ≡ tally (of_pid 1) urgent_runs)
    × (tally (of_pid 1) (add_mlq_proc (some third) urgent_runs) ≡ tally (of_pid 1) urgent_runs + 0)
conserved_example =
    conserved (of_pid 1) urgent_runs urgent third urgent_runs-Served.valid
      (omega (arith, urgent_runs-tally)) urgent_found (omega arith) (omega arith)
