-- ===== src/SingleQueue.antt =====
-- ossim_lamiaatrium/src/sched.c and queue.c without MLQ_SCHED: the scheduler of one ready queue, with
-- `get_proc`, `put_proc` and `add_proc` on the same static variables, and the `dequeue` that takes
-- the process of highest priority. `prio` is the field `priority` here. The configuration of the
-- repository compiles the multi-level scheduler instead.
pub mod Highest
pub mod Calls
pub mod Examples
use os_assignment_nhom.Base.{
  ℕ, zero, suc, ◌-◌, Option, none, some, List, ◌==◌, ltb, if◌then◌else◌, get_or,
}
use os_assignment_nhom.Queue.{Proc, Queue, empty, enqueue, purgequeue, shift_down}
use os_assignment_nhom.Sched.{Sched}

-- `proc[i]->priority`; a NULL pointer, which a valid queue does not have there, reads as 0.
pub priority_of : Option Proc → ℕ
priority_of none = 0
priority_of (some p) = p.prio

-- The search loop, with the rounds that are left, the best priority so far and where it stands.
pub find_highest : ℕ → ℕ → List (Option Proc) → ℕ → ℕ → ℕ
unfolding priority_of
find_highest zero i xs highest_prio highest_prio_idx = highest_prio_idx
find_highest (suc n) i xs highest_prio highest_prio_idx =
    let prio : ℕ = priority_of (get_or xs i none) in
    find_highest n (suc i) xs (if ltb prio highest_prio then prio else highest_prio)
      (if ltb prio highest_prio then i else highest_prio_idx)

-- `dequeue` without MLQ_SCHED
pub dequeue_highest : Queue → Option Proc × Queue
unfolding priority_of find_highest
dequeue_highest q =
    if q.size == 0
    then (none, q)
    else (let i : ℕ = find_highest (q.size - 1) 1 q.proc (priority_of (get_or q.proc 0 none)) 0 in
        (
          get_or q.proc i none,
          record q { proc = shift_down (q.size - 1 - i) i q.proc; size = q.size - 1 },
        ))

-- What is done with the process that the ready queue gave, if any.
pub to_running : Option Proc → Sched → Option Proc × Sched
to_running none s = (none, s)
to_running (some p) s = (some p, record s { running_list = enqueue s.running_list (some p) })

pub get_proc : Sched → Option Proc × Sched
unfolding dequeue_highest to_running
get_proc s =
    if empty s.ready_queue
    then (none, s)
    else (let (p, q) = dequeue_highest s.ready_queue in to_running p (record s { ready_queue = q }))

pub put_proc : Option Proc → Sched → Sched
put_proc none s = s
put_proc (some p) s = record s {
  running_list = (purgequeue s.running_list (some p)).1;
  run_queue = enqueue s.run_queue (some p);
}

pub add_proc : Option Proc → Sched → Sched
add_proc none s = s
add_proc (some p) s = record s { ready_queue = enqueue s.ready_queue (some p) }
