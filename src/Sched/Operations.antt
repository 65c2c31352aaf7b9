-- ===== src/Sched/Operations.antt =====
-- Adding, putting back and finishing a process, and the start state.
use os_assignment_nhom.Base.{
  ℕ, ◌-◌, ◌<◌, ◌≤◌, ◌≡◌, refl, true, false, some, ltb, leb, ◌==◌, arith, update, update_self,
  update_ne, write_below_lt, List, [], ◌∷◌, length, inl, inr, ◌≢◌, All, All-append, Bool-cases,
}
use os_assignment_nhom.Queue.{Proc, max_queue_size, enqueue}
use os_assignment_nhom.Queue.Contents.{erase_pid}
use os_assignment_nhom.Queue.Refine.{
  live, live-eq, Holds-IsValid, reset-Holds, push, enqueue_refines, purgequeue_refines,
}
use os_assignment_nhom.Sched.{
  Sched, max_prio, init_scheduler, finish_proc, enqueue_ready, put_mlq_proc, add_mlq_proc,
}
use os_assignment_nhom.Sched.Invariant.{Level, IsValid}

-- Process `p` has been queued at its own level, and nothing else has changed.
pub record Queued (s : Sched) (p : Proc) (s' : Sched) : Type 0 where
  pub appended : live (s'.mlq_ready_queue p.prio) ≡ push (live (s.mlq_ready_queue p.prio)) p
  pub others : (i : ℕ) → i ≢ p.prio → s'.mlq_ready_queue i ≡ s.mlq_ready_queue i
  pub running_list : s'.running_list ≡ s.running_list
  pub slot : s'.slot ≡ s.slot
  pub current_slot : s'.current_slot ≡ s.current_slot
  pub current_prio : s'.current_prio ≡ s.current_prio
  pub valid : IsValid s'

abbrev queued_state : Proc → Sched → Sched
queued_state p s = record s {
  mlq_ready_queue = update s.mlq_ready_queue p.prio (enqueue (s.mlq_ready_queue p.prio) (some p));
}

All-push :
    (i : ℕ) (l : List Proc) (p : Proc)
    → All (λ q. q.prio ≡ i) l
    → p.prio ≡ i
    → All (λ q. q.prio ≡ i) (push l p)
unfolding push
All-push i l p h e = elim (Bool-cases (leb max_queue_size (length l))) [
  | inl full ↦ rw full h
  | inr room ↦ rw room (All-append (λ q. q.prio ≡ i) l (p ∷ []) h (e, tt))
]

queued-Level :
    (s : Sched) (p : Proc) (i : ℕ) → Level s p.prio → Level s i → Level (queued_state p s) i
queued-Level s p i w u = elim (Bool-cases (i == p.prio)) [
  | inl e ↦
      let q = enqueue_refines _ p w.queue in
      let same : i ≡ p.prio = ground arith in
      record {
        queue = rw e q.1;
        prios = rw (e, q.0, same) (All-push p.prio _ p w.prios refl);
        budget = u.budget;
        charged = u.charged;
      }
  | inr e ↦ record {
    queue = rw e u.queue;
    prios = rw e u.prios;
    budget = u.budget;
    charged = u.charged;
  }
]

enqueue_ready-Queued :
    (p : Proc) (s : Sched) → IsValid s → p.prio < max_prio → Queued s p (enqueue_ready p s)
unfolding enqueue_ready
enqueue_ready-Queued p s v h =
    let t : ltb p.prio max_prio ≡ true = ground arith in
    let here : update s.mlq_ready_queue p.prio (enqueue (s.mlq_ready_queue p.prio) (some p)) p.prio
        ≡ enqueue (s.mlq_ready_queue p.prio) (some p) =
      update_self s.mlq_ready_queue p.prio _ in
    rw t (record {
      appended = rw here (enqueue_refines _ p (v.levels p.prio h).queue).0;
      others = λ i ne. update_ne s.mlq_ready_queue p.prio i _ ne;
      running_list = refl;
      slot = refl;
      current_slot = refl;
      current_prio = refl;
      valid = record {
        levels = λ i k. queued-Level s p i (v.levels p.prio h) (v.levels i k);
        prio_in = v.prio_in;
        running = v.running;
      };
    })

-- A new process of a priority below 140 is appended to the level of its priority, if that has
-- room; the other levels, the running list, the budgets and the current level stay as they are.
pub add_mlq_proc_lem :
    (p : Proc) (s : Sched) → IsValid s → p.prio < max_prio → Queued s p (add_mlq_proc (some p) s)
unfolding add_mlq_proc
add_mlq_proc_lem p s v h = enqueue_ready-Queued p s v h

-- A process of any other priority is dropped: neither `add` nor `put` queues it.
enqueue_ready_dropped : (p : Proc) (s : Sched) → max_prio ≤ p.prio → enqueue_ready p s ≡ s
unfolding enqueue_ready
enqueue_ready_dropped p s h = let t : ltb p.prio max_prio ≡ false = ground arith in rw t

-- `finish_proc` takes the first process of the pid off the running list and touches no ready
-- queue; the invariant holds afterwards.
pub finish_proc_lem :
    (p : Proc) (s : Sched)
    → IsValid s
    → (live (finish_proc (some p) s).running_list ≡ erase_pid p.pid (live s.running_list))
      × ((finish_proc (some p) s).mlq_ready_queue ≡ s.mlq_ready_queue)
      × IsValid (finish_proc (some p) s)
unfolding finish_proc
finish_proc_lem p s v =
    let q = purgequeue_refines s.running_list p v.running in
    (
      q.1,
      refl,
      record {
        levels = λ i h.
            (let u : Level s i = v.levels i h in
              record { queue = u.queue; prios = u.prios; budget = u.budget; charged = u.charged });
        prio_in = v.prio_in;
        running = q.2;
      },
    )

-- Putting a process back takes it off the running list and appends it to the level of its
-- priority, if that has room; the other levels, the budgets and the current level stay as they
-- are.
pub put_mlq_proc_lem :
    (p : Proc) (s : Sched)
    → IsValid s
    → p.prio < max_prio
    → (live (put_mlq_proc (some p) s).running_list ≡ erase_pid p.pid (live s.running_list))
      × Queued (finish_proc (some p) s) p (put_mlq_proc (some p) s)
unfolding put_mlq_proc finish_proc
put_mlq_proc_lem p s v h =
    let f : Sched = finish_proc (some p) s in
    let q = finish_proc_lem p s v in
    let e = enqueue_ready-Queued p f q.2 h in (rw e.running_list q.0, e)

-- From the zeroed statics of the program, `init_scheduler` makes a valid state with every queue
-- empty; more generally it does so from any state whose arrays have their 50 slots.
pub init_scheduler-IsValid :
    (s : Sched)
    → ((i : ℕ) → length (s.mlq_ready_queue i).proc ≡ max_queue_size)
    → length s.running_list.proc ≡ max_queue_size
    → IsValid (init_scheduler s)
      × ((i : ℕ) → i < max_prio → live ((init_scheduler s).mlq_ready_queue i) ≡ [])
      × (live (init_scheduler s).running_list ≡ [])
unfolding init_scheduler
init_scheduler-IsValid s hq hr = (
  record {
    levels = λ i h. init-Level i h;
    prio_in = omega arith;
    running = Holds-IsValid _ _ (reset-Holds s.running_list hr);
  },
  λ i h. rw (at_level i h) (live-eq _ _ (reset-Holds (s.mlq_ready_queue i) (hq i))),
  live-eq _ _ (reset-Holds s.running_list hr),
)
  where
    at_level :
        (i : ℕ)
        → i < max_prio
        → (init_scheduler s).mlq_ready_queue i ≡ record (s.mlq_ready_queue i) { size = 0 }
    at_level i h =
        write_below_lt max_prio (λ j. record (s.mlq_ready_queue j) { size = 0 }) s.mlq_ready_queue i
          h

    init-Level : (i : ℕ) → i < max_prio → Level (init_scheduler s) i
    init-Level i h =
        let z = reset-Holds (s.mlq_ready_queue i) (hq i) in
        let b = write_below_lt max_prio (λ j. max_prio - j) s.slot i h in
        let c = write_below_lt max_prio (λ j. 0) s.current_slot i h in
        record {
          queue = rw (at_level i h) (Holds-IsValid _ _ z);
          prios = rw (at_level i h, live-eq _ _ z) tt;
          budget = b;
          charged = rw (b, c) (omega arith);
        }
