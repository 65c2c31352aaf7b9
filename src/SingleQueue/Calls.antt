-- ===== src/SingleQueue/Calls.antt =====
-- What the scheduler of one queue hands out over any sequence of calls.
use os_assignment_nhom.Base.{
  ℕ, ◌+◌, ◌≤◌, ◌≡◌, refl, ap, ◌∙◌, arith, true, false, Option, none, some, List, [], ◌∷◌, ◌++◌,
}
use os_assignment_nhom.Queue.{Proc, max_queue_size, empty, enqueue}
use os_assignment_nhom.Queue.Refine.{IsValid, live, empty-live, enqueue_refines}
use os_assignment_nhom.Sched.{Sched}
use os_assignment_nhom.Sched.Conservation.{weigh, each, weigh-push}
use os_assignment_nhom.SingleQueue.{dequeue_highest, to_running, get_proc, put_proc, add_proc}
use os_assignment_nhom.SingleQueue.Highest.{Highest, Dequeued, dequeue_highest-Dequeued}

-- A call of a CPU or of the loader.
pub data Call : Type 0 where
  get_call : Call
  put_call : Proc → Call
  add_call : Proc → Call

-- The processes that the calls add, in order.
abbrev pub added : List Call → List Proc
added [] = []
added (get_call ∷ cs) = added cs
added (put_call p ∷ cs) = added cs
added (add_call p ∷ cs) = p ∷ added cs

-- What `get_proc` hands out, before what is handed out later.
abbrev pub handed : Option Proc → List Proc → List Proc
handed none l = l
handed (some p) l = p ∷ l

-- The processes that the calls hand out, in order, and the state after them.
abbrev pub calls : List Call → Sched → List Proc × Sched
calls [] s = ([], s)
calls (get_call ∷ cs) s =
    let r = get_proc s in let rest = calls cs r.1 in (handed r.0 rest.0, rest.1)
calls (put_call p ∷ cs) s = calls cs (put_proc (some p) s)
calls (add_call p ∷ cs) s = calls cs (add_proc (some p) s)

-- What a call of `get_proc` makes of the state: with no process ready it returns NULL and changes
-- nothing; otherwise it returns the oldest of the processes of highest priority, leaves the other
-- ready ones in order, and puts it on the running list.
pub data Given (s : Sched) (r : Option Proc × Sched) : Type 0 where
  none_ready : live s.ready_queue ≡ [] → r ≡ (none, s) → Given s r
  given :
      (p : Proc) (before after : List Proc)
      → Highest (live s.ready_queue) p before after
      → r.0 ≡ some p
      → live r.1.ready_queue ≡ before ++ after
      → r.1.running_list ≡ enqueue s.running_list (some p)
      → r.1.run_queue ≡ s.run_queue
      → IsValid r.1.ready_queue
      → Given s r

dequeued-Given :
    (s : Sched) (l : List Proc)
    → live s.ready_queue ≡ l
    → (d : Dequeued l (dequeue_highest s.ready_queue))
    → Given s (
        to_running
          (dequeue_highest s.ready_queue).0
          (record s { ready_queue = (dequeue_highest s.ready_queue).1 }))
unfolding to_running
dequeued-Given s l e d =
    rw d.given (given d.p d.before d.after (rw e d.highest) refl d.left refl refl d.valid)

get_proc-Given :
    (s : Sched) (l : List Proc)
    → IsValid s.ready_queue
    → live s.ready_queue ≡ l
    → Given s (get_proc s)
unfolding get_proc
get_proc-Given s [] v e =
    let z : empty s.ready_queue ≡ true = rw (empty-live s.ready_queue v, e) refl in
    rw z (none_ready e refl)
get_proc-Given s (p ∷ l) v e =
    let z : empty s.ready_queue ≡ false = rw (empty-live s.ready_queue v, e) refl in
    rw z (dequeued-Given s (p ∷ l) e (dequeue_highest-Dequeued s.ready_queue p l (rw e at v)))

weigh-without :
    (f : Proc → ℕ) (before : List Proc) (p : Proc) (after : List Proc)
    → weigh f (before ++ (p ∷ after)) ≡ f p + weigh f (before ++ after)
unfolding weigh
weigh-without f [] p after = refl
weigh-without f (q ∷ l) p after = omega (arith, weigh-without f l p after)

-- No process comes or goes by a call of `get_proc`.
record Passed (f : Proc → ℕ) (s : Sched) (r : Option Proc × Sched) : Type 0 where
  valid : IsValid r.1.ready_queue
  total :
      (l : List Proc)
      → weigh f (handed r.0 l) + weigh f (live r.1.ready_queue)
        ≡ weigh f (live s.ready_queue) + weigh f l

Given-Passed :
    (f : Proc → ℕ) (s : Sched) (r : Option Proc × Sched)
    → IsValid s.ready_queue
    → Given s r
    → Passed f s r
unfolding weigh
Given-Passed f s r v (none_ready e same) = rw same (record { valid = v; total = λ l. omega arith })
Given-Passed f s r v (given p before after h g left running run w) =
    let t = ap (λ (l : List Proc). weigh f l) h.split ∙ weigh-without f before p after in
    record { valid = w; total = λ l. rw (g, left) (omega (arith, t)) }

passed : (f : Proc → ℕ) (s : Sched) → IsValid s.ready_queue → Passed f s (get_proc s)
passed f s v = Given-Passed f s (get_proc s) v (get_proc-Given s (live s.ready_queue) v refl)

-- The ready queue after any calls is well-formed, and nothing is lost or doubled.
calls-total :
    (f : Proc → ℕ) (cs : List Call) (s : Sched)
    → IsValid s.ready_queue
    → weigh each (live s.ready_queue) + weigh each (added cs) ≤ max_queue_size
    → let r = calls cs s in
      IsValid r.1.ready_queue
      × (weigh f r.0 + weigh f (live r.1.ready_queue)
          ≡ weigh f (live s.ready_queue) + weigh f (added cs))
unfolding weigh put_proc add_proc
calls-total f [] s v h = (v, omega arith)
calls-total f (get_call ∷ cs) s v h =
    let r : Option Proc × Sched = get_proc s in
    let w = passed f s v in
    let size = (passed each s v).total [] in
    let fewer : weigh each (live r.1.ready_queue) ≤ weigh each (live s.ready_queue) =
      omega (arith, size) in
    let rest = calls-total f cs r.1 w.valid (omega (arith, h, fewer)) in
    (rest.0, omega (arith, rest.1, w.total (calls cs r.1).0, w.total []))
calls-total f (put_call p ∷ cs) s v h = calls-total f cs (put_proc (some p) s) v h
calls-total f (add_call p ∷ cs) s v h =
    let e = enqueue_refines s.ready_queue p v in
    let t = λ (g : Proc → ℕ).
      ap (λ (l : List Proc). weigh g l) e.0
      ∙ weigh-push g (live s.ready_queue) p (omega (arith, h)) in
    let rest = calls-total f cs (add_proc (some p) s) e.1 (omega (arith, h, t each)) in
    (rest.0, omega (arith, rest.1, t f))

-- The scheduler without levels serves the most urgent process, and each only once: over any
-- sequence of calls, with room in the ready queue for all processes that are added, and for any
-- weight of processes, those handed out and those still ready weigh as much as those ready at first
-- and those added, so that one which is put back is not handed out again unless it is added again.
-- The next call of `get_proc` then returns the oldest of the ready processes of the highest
-- priority (the least number) and leaves the others in order, or NULL if there is none.
pub get_proc_once :
    (f : Proc → ℕ) (cs : List Call) (s : Sched)
    → IsValid s.ready_queue
    → weigh each (live s.ready_queue) + weigh each (added cs) ≤ max_queue_size
    → let r = calls cs s in
      (weigh f r.0 + weigh f (live r.1.ready_queue)
        ≡ weigh f (live s.ready_queue) + weigh f (added cs))
      × Given r.1 (get_proc r.1)
get_proc_once f cs s v h =
    let w = calls-total f cs s v h in
    (w.1, get_proc-Given (calls cs s).1 (live (calls cs s).1.ready_queue) w.0 refl)
