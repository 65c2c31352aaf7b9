-- ===== src/Sched/Invariant.antt =====
-- The invariant of the scheduler state, and what serving one level does to it.
use os_assignment_nhom.Base.{
  ℕ, ◌-◌, ◌<◌, ◌≡◌, true, false, Option, none, some, ltb, ◌==◌, arith, update, update_self,
  update_ne, All, All-tail, List, [], ◌∷◌, Bool-cases, inl, inr, ◌≢◌,
}
use os_assignment_nhom.Queue.{Proc, empty, enqueue, dequeue}
use os_assignment_nhom.Queue.Refine
use os_assignment_nhom.Queue.Refine.{
  live, push, is_nil, empty-live, enqueue_refines, dequeue_refines, purgequeue_refines,
}
use os_assignment_nhom.Sched.{Sched, max_prio, serve, charge}

-- Level `i` is a well-formed queue of processes of priority `i`, with slots left.
pub record Level (s : Sched) (i : ℕ) : Type 0 where
  pub queue : Refine.IsValid (s.mlq_ready_queue i)
  pub prios : All (λ p. p.prio ≡ i) (live (s.mlq_ready_queue i))
  pub budget : s.slot i ≡ max_prio - i
  pub charged : s.current_slot i < s.slot i

pub record IsValid (s : Sched) : Type 0 where
  pub levels : (i : ℕ) → i < max_prio → Level s i
  pub prio_in : s.current_prio < max_prio
  pub running : Refine.IsValid s.running_list

-- What serving a level whose first process is `p` makes of the state.
pub record Served (s : Sched) (prio : ℕ) (p : Proc) (s' : Sched) : Type 0 where
  pub taken : live (s.mlq_ready_queue prio) ≡ p ∷ live (s'.mlq_ready_queue prio)
  pub others : (i : ℕ) → i ≢ prio → s'.mlq_ready_queue i ≡ s.mlq_ready_queue i
  pub joined : live s'.running_list ≡ push (live s.running_list) p
  pub valid : IsValid s'

pub serve_nil :
    (s : Sched) (prio : ℕ)
    → IsValid s
    → prio < max_prio
    → live (s.mlq_ready_queue prio) ≡ []
    → serve prio s ≡ (none, s)
unfolding serve
serve_nil s prio v h e =
    let z : empty (s.mlq_ready_queue prio) ≡ true = rw (empty-live _ (v.levels prio h).queue, e) in
    rw z

-- Serving a level: the dequeue, as it stands before the slot is charged.
abbrev pub dequeued : ℕ → Sched → Sched
dequeued prio s = record s {
  mlq_ready_queue = update s.mlq_ready_queue prio (dequeue (s.mlq_ready_queue prio)).1;
}

pub serve_cons :
    (s : Sched) (prio : ℕ) (p : Proc) (l : List Proc)
    → IsValid s
    → prio < max_prio
    → live (s.mlq_ready_queue prio) ≡ p ∷ l
    → serve prio s ≡ (some p, charge prio (some p) (dequeued prio s))
unfolding serve
serve_cons s prio p l v h e =
    let w : Level s prio = v.levels prio h in
    let z : empty (s.mlq_ready_queue prio) ≡ false = rw (empty-live _ w.queue, e) in
    let c : ltb (s.current_slot prio) (s.slot prio) ≡ true = ground (arith, w.charged) in
    let f : (dequeue (s.mlq_ready_queue prio)).0 ≡ some p = rw ((dequeue_refines _ w.queue).0, e) in
    rw (z, c, f)

charge-mlq_ready_queue :
    (prio : ℕ) (p : Option Proc) (s : Sched) → (charge prio p s).mlq_ready_queue ≡ s.mlq_ready_queue
unfolding charge
charge-mlq_ready_queue prio p s = ground arith

charge-running_list :
    (prio : ℕ) (p : Option Proc) (s : Sched)
    → (charge prio p s).running_list ≡ enqueue s.running_list p
unfolding charge
charge-running_list prio p s = ground arith

charge-slot : (prio : ℕ) (p : Option Proc) (s : Sched) → (charge prio p s).slot ≡ s.slot
unfolding charge
charge-slot prio p s = ground arith

charge-current_slot :
    (prio : ℕ) (p : Option Proc) (s : Sched) (i : ℕ)
    → s.current_slot i < s.slot i
    → (charge prio p s).current_slot i < s.slot i
unfolding charge
charge-current_slot prio p s i h = ground arith

charge-current_prio :
    (prio : ℕ) (p : Option Proc) (s : Sched)
    → s.current_prio < max_prio
    → (charge prio p s).current_prio < max_prio
unfolding charge
charge-current_prio prio p s h = ground arith

dequeued-Level : (s : Sched) (prio i : ℕ) → Level s prio → Level s i → Level (dequeued prio s) i
dequeued-Level s prio i w u = elim (Bool-cases (i == prio)) [
  | inl e ↦
      let q = dequeue_refines _ w.queue in
      let same : i ≡ prio = ground arith in
      record {
        queue = rw e q.2;
        prios =
            rw (e, q.1, same)
              (All-tail (λ p. p.prio ≡ prio) (live (s.mlq_ready_queue prio)) w.prios);
        budget = u.budget;
        charged = u.charged;
      }
  | inr e ↦ record {
    queue = rw e u.queue;
    prios = rw e u.prios;
    budget = u.budget;
    charged = u.charged;
  }
]

charge-IsValid : (prio : ℕ) (p : Proc) (s : Sched) → IsValid s → IsValid (charge prio (some p) s)
charge-IsValid prio p s v = record {
  levels = λ i h.
      (let u : Level s i = v.levels i h in
        record {
          queue = rw (charge-mlq_ready_queue prio (some p) s) u.queue;
          prios = rw (charge-mlq_ready_queue prio (some p) s) u.prios;
          budget = rw (charge-slot prio (some p) s) u.budget;
          charged =
              rw (charge-slot prio (some p) s) (charge-current_slot prio (some p) s i u.charged);
        });
  prio_in = charge-current_prio prio (some p) s v.prio_in;
  running = rw (charge-running_list prio (some p) s) (enqueue_refines s.running_list p v.running).1;
}

dequeued-IsValid : (s : Sched) (prio : ℕ) → prio < max_prio → IsValid s → IsValid (dequeued prio s)
dequeued-IsValid s prio h v = record {
  levels = λ i k. dequeued-Level s prio i (v.levels prio h) (v.levels i k);
  prio_in = v.prio_in;
  running = v.running;
}

pub charge-Served :
    (s : Sched) (prio : ℕ) (p : Proc) (l : List Proc)
    → IsValid s
    → prio < max_prio
    → live (s.mlq_ready_queue prio) ≡ p ∷ l
    → Served s prio p (charge prio (some p) (dequeued prio s))
charge-Served s prio p l v h e =
    let w : Level s prio = v.levels prio h in
    let d : Sched = dequeued prio s in
    let here : d.mlq_ready_queue prio ≡ (dequeue (s.mlq_ready_queue prio)).1 =
      update_self s.mlq_ready_queue prio _ in
    record {
      taken = rw (charge-mlq_ready_queue prio (some p) d, here, (dequeue_refines _ w.queue).1, e);
      others = λ i ne.
          rw (charge-mlq_ready_queue prio (some p) d) (update_ne s.mlq_ready_queue prio i _ ne);
      joined =
          rw (charge-running_list prio (some p) d) (enqueue_refines s.running_list p v.running).0;
      valid = charge-IsValid prio p d (dequeued-IsValid s prio h v);
    }
