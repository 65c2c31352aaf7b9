-- ===== src/SingleQueue/Examples.antt =====
-- The single queue with a process of priority 5 and one of priority 0.
use os_assignment_nhom.Base.{◌+◌, ◌≤◌, ◌≡◌, refl, arith, List, [], ◌∷◌}
use os_assignment_nhom.Queue.{max_queue_size}
use os_assignment_nhom.Queue.Refine.{live, reset-Holds, Holds-IsValid, live-eq}
use os_assignment_nhom.Sched.Conservation.{weigh, each, of_pid}
use os_assignment_nhom.Sched.Examples.{zeroed, patient, urgent}
use os_assignment_nhom.SingleQueue.{get_proc}
use os_assignment_nhom.SingleQueue.Calls.{
  Call, get_call, put_call, add_call, calls, added, Given, get_proc_once,
}

-- The one of priority 5 is dispatched and put back, and then the other one is added.
abbrev preempted : List Call
preempted = add_call patient ∷ get_call ∷ put_call patient ∷ add_call urgent ∷ []

none_waiting : live zeroed.ready_queue ≡ []
none_waiting = live-eq zeroed.ready_queue [] (reset-Holds zeroed.ready_queue refl)

there_is_room : weigh each (live zeroed.ready_queue) + weigh each (added preempted) ≤ max_queue_size
unfolding weigh
there_is_room = rw none_waiting (omega arith)

get_proc_once_example :
    let r = calls preempted zeroed in
    (weigh (of_pid 2) r.0 + weigh (of_pid 2) (live r.1.ready_queue)
      ≡ weigh (of_pid 2) (live zeroed.ready_queue) + weigh (of_pid 2) (added preempted))
    × Given r.1 (get_proc r.1)
get_proc_once_example =
    get_proc_once (of_pid 2) preempted zeroed
      (Holds-IsValid zeroed.ready_queue [] (reset-Holds zeroed.ready_queue refl)) there_is_room
