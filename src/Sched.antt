-- ===== src/Sched.antt =====
-- ossim_lamiaatrium/src/sched.c, as configured by MLQ_SCHED: one ready queue for each of 140
-- priorities, a slot budget for each, and the list of the processes that a CPU runs.
-- An array indexed by priority is a function of its index; every access is below MAX_PRIO
-- (`Sched.Invariant`). The two mutexes make each function atomic, so it is a function on states.
-- `put` and `add` also store the addresses of the static queues in the kernel structure, which
-- `find_process_by_pid` follows: they are the queues of this state.
pub mod Invariant
pub mod Dispatch
pub mod Fairness
pub mod Search
pub mod Conservation
pub mod Exclusion
pub mod Operations
pub mod Examples
use os_assignment_nhom.Base.{
  ℕ, zero, suc, ◌+◌, ◌-◌, ◌%◌, Bool, true, false, not, ◌&&◌, Option, none, some, ltb, leb, ◌==◌,
  if◌then◌else◌, get_or, update, write_below,
}
use os_assignment_nhom.Queue.{Proc, Queue, empty, enqueue, dequeue, purgequeue, find_index}

-- MAX_PRIO
abbrev pub max_prio : ℕ
max_prio = 140

pub record Sched : Type 0 where
  pub ready_queue : Queue
  pub run_queue : Queue
  pub running_list : Queue
  pub mlq_ready_queue : ℕ → Queue
  pub slot : ℕ → ℕ
  pub current_slot : ℕ → ℕ
  pub current_prio : ℕ

-- `init_scheduler`: the sizes are reset, the arrays keep what they held.
unfoldable pub init_scheduler : Sched → Sched
init_scheduler s = record {
  ready_queue = record (s.ready_queue) { size = 0 };
  run_queue = record (s.run_queue) { size = 0 };
  running_list = record (s.running_list) { size = 0 };
  mlq_ready_queue =
      write_below max_prio (λ i. record (s.mlq_ready_queue i) { size = 0 }) s.mlq_ready_queue;
  slot = write_below max_prio (λ i. max_prio - i) s.slot;
  current_slot = write_below max_prio (λ i. 0) s.current_slot;
  current_prio = 0;
}

-- The loop of `queue_empty` over the ready queues, with the priorities that are left.
pub all_ready_empty : ℕ → ℕ → (ℕ → Queue) → Bool
all_ready_empty zero prio qs = true
all_ready_empty (suc n) prio qs = empty (qs prio) && all_ready_empty n (suc prio) qs

unfoldable pub finish_proc : Option Proc → Sched → Sched
finish_proc none s = s
finish_proc (some p) s = record s { running_list = (purgequeue s.running_list (some p)).1 }

-- After a dispatch: the slot is charged, the process joins the running list, and a level that
-- has used up its slots is reset and hands over to the next one.
unfoldable pub charge : ℕ → Option Proc → Sched → Sched
charge prio p s =
    let used = s.current_slot prio + 1 in
    let s' = record s {
      current_slot = update s.current_slot prio used;
      running_list = enqueue s.running_list p;
    } in
    if leb (s.slot prio) used
    then record s' {
      current_slot = update s'.current_slot prio 0;
      current_prio = (prio + 1) % max_prio;
    }
    else s'

-- The body of the dispatch loop at one level, down to the `return`; `none` goes on.
unfoldable pub serve : ℕ → Sched → Option Proc × Sched
serve prio s =
    if not (empty (s.mlq_ready_queue prio)) && ltb (s.current_slot prio) (s.slot prio)
    then (let (p, q) = dequeue (s.mlq_ready_queue prio) in
        let s' = record s { mlq_ready_queue = update s.mlq_ready_queue prio q } in
        elim p [ none ↦ (none, s') | some r ↦ (some r, charge prio (some r) s') ])
    else (none, s)

-- When the search comes round to level 0 every level gets its slots back.
unfoldable pub refill : ℕ → Sched → Sched
refill prio s =
    if prio == 0
    then record s { current_slot = write_below max_prio (λ i. 0) s.current_slot; current_prio = 0 }
    else s

-- The loop of `get_mlq_proc`, with the attempts that are left.
unfoldable pub dispatch : ℕ → ℕ → Sched → Option Proc × Sched
dispatch zero prio s = (none, s)
dispatch (suc n) prio s =
    let (p, s') = serve prio s in
    let next : ℕ = (prio + 1) % max_prio in
    elim p [ some r ↦ (some r, s') | none ↦ dispatch n next (refill next s') ]

unfoldable pub get_mlq_proc : Sched → Option Proc × Sched
get_mlq_proc s = dispatch max_prio s.current_prio s

-- What `put` and `add` share: a process whose priority is out of range is dropped.
unfoldable pub enqueue_ready : Proc → Sched → Sched
enqueue_ready p s =
    if ltb p.prio max_prio
    then record s {
      mlq_ready_queue =
          update s.mlq_ready_queue p.prio (enqueue (s.mlq_ready_queue p.prio) (some p));
    }
    else s

pub put_mlq_proc : Option Proc → Sched → Sched
put_mlq_proc none s = s
put_mlq_proc (some p) s =
    enqueue_ready p (record s { running_list = (purgequeue s.running_list (some p)).1 })

unfoldable pub add_mlq_proc : Option Proc → Sched → Sched
add_mlq_proc none s = s
add_mlq_proc (some p) s = enqueue_ready p s

-- The search of one queue for a pid.
pub find_in : Queue → ℕ → Option Proc
find_in q pid = elim (find_index q.size 0 q.proc pid) [
  | none ↦ none
  | some i ↦ get_or q.proc i none
]

-- The search of the ready queues, with the priorities that are left.
pub find_ready : ℕ → ℕ → (ℕ → Queue) → ℕ → Option Proc
find_ready zero prio qs pid = none
find_ready (suc n) prio qs pid = elim (find_in (qs prio) pid) [
  | some p ↦ some p
  | none ↦ find_ready n (suc prio) qs pid
]

-- `find_process_by_pid`, and `get_proc_by_pid`, which reads the same queues by name.
pub find_process_by_pid : Sched → ℕ → Option Proc
find_process_by_pid s pid = elim (find_in s.running_list pid) [
  | some p ↦ some p
  | none ↦ find_ready max_prio 0 s.mlq_ready_queue pid
]
