-- ===== src/Sched/Conservation.antt =====
-- No process is lost or doubled on its way through the scheduler.
use os_assignment_nhom.Base.{
  ℕ, ◌+◌, ◌<◌, ◌≤◌, ◌≡◌, ◌≢◌, refl, ◌∙◌, ap, arith, false, some, List, [], ◌∷◌, ◌++◌, length, ◌==◌,
  leb, if◌then◌else◌, Bool-cases, inl, inr,
}
use os_assignment_nhom.Base.Sums.{sum_range, sum_range_change, sum_range_term}
use os_assignment_nhom.Queue.{Proc, Queue, max_queue_size}
use os_assignment_nhom.Queue.Contents.{find_pid, erase_pid}
use os_assignment_nhom.Queue.Refine.{live, push}
use os_assignment_nhom.Sched.{
  Sched, max_prio, get_mlq_proc, put_mlq_proc, add_mlq_proc, finish_proc,
}
use os_assignment_nhom.Sched.Invariant.{IsValid}
use os_assignment_nhom.Sched.Dispatch.{idle, found, Dispatched, level_at, get_mlq_proc-Outcome}
use os_assignment_nhom.Sched.Operations.{
  Queued, add_mlq_proc_lem, put_mlq_proc_lem, finish_proc_lem,
}

-- The sum of a weight over the processes of a list.
unfoldable pub weigh : (Proc → ℕ) → List Proc → ℕ
weigh f [] = 0
weigh f (p ∷ l) = f p + weigh f l

-- The same over all that are ready or running.
unfoldable pub tally : (Proc → ℕ) → Sched → ℕ
tally f s =
    sum_range 0 max_prio (λ i. weigh f (live (s.mlq_ready_queue i))) + weigh f (live s.running_list)

-- The number of processes, and that of one pid.
abbrev pub each : Proc → ℕ
each p = 1

abbrev pub of_pid : ℕ → Proc → ℕ
of_pid pid p = if p.pid == pid then 1 else 0

weigh-append : (f : Proc → ℕ) (l : List Proc) (p : Proc) → weigh f (l ++ (p ∷ [])) ≡ weigh f l + f p
unfolding weigh
weigh-append f [] p = omega arith
weigh-append f (q ∷ l) p = omega (arith, weigh-append f l p)

pub weigh-each : (l : List Proc) → weigh each l ≡ length l
unfolding weigh
weigh-each [] = refl
weigh-each (p ∷ l) = omega (arith, weigh-each l)

pub weigh-push :
    (f : Proc → ℕ) (l : List Proc) (p : Proc)
    → weigh each l < max_queue_size
    → weigh f (push l p) ≡ weigh f l + f p
unfolding push
weigh-push f l p h =
    let w = weigh-each l in
    let r : leb max_queue_size (length l) ≡ false = ground (arith, h, w) in
    rw r (weigh-append f l p)

pub weigh-erase_pid :
    (f : Proc → ℕ) (pid : ℕ) (l : List Proc) (p : Proc)
    → find_pid pid l ≡ some p
    → weigh f (erase_pid pid l) + f p ≡ weigh f l
unfolding weigh find_pid erase_pid
weigh-erase_pid f pid [] p e = cc e
weigh-erase_pid f pid (q ∷ l) p e = elim (Bool-cases (q.pid == pid)) [
  | inl t ↦ let same : q ≡ p = cc (rw t at e) in rw (t, same) (omega arith)
  | inr t ↦ rw t (omega (arith, weigh-erase_pid f pid l p (rw t at e)))
]

-- One level changes.
level_changes :
    (f : Proc → ℕ) (s s' : Sched) (n : ℕ)
    → n < max_prio
    → ((i : ℕ) → i ≢ n → s'.mlq_ready_queue i ≡ s.mlq_ready_queue i)
    → sum_range 0 max_prio (λ i. weigh f (live (s'.mlq_ready_queue i)))
        + weigh f (live (s.mlq_ready_queue n))
      ≡ sum_range 0 max_prio (λ i. weigh f (live (s.mlq_ready_queue i)))
        + weigh f (live (s'.mlq_ready_queue n))
level_changes f s s' n h o =
    sum_range_change 0 max_prio n (λ i. weigh f (live (s'.mlq_ready_queue i)))
      (λ i. weigh f (live (s.mlq_ready_queue i))) (omega arith) (omega (arith, h))
      (λ i ne. ap (λ (q : Queue). weigh f (live q)) (o i ne))

pub level-tally :
    (s : Sched) (n : ℕ)
    → n < max_prio
    → weigh each (live (s.mlq_ready_queue n)) + weigh each (live s.running_list) ≤ tally each s
unfolding tally
level-tally s n h =
    let t =
      sum_range_term 0 max_prio n (λ i. weigh each (live (s.mlq_ready_queue i))) (omega arith)
        (omega (arith, h)) in
    omega (arith, t)

found-tally :
    (f : Proc → ℕ) (s s' : Sched) (p : Proc)
    → tally each s ≤ max_queue_size
    → Dispatched max_prio s.current_prio s p s'
    → tally f s' ≡ tally f s
unfolding tally weigh
found-tally f s s' p h w =
    let n : ℕ = level_at s.current_prio w.skipped in
    let c = level_changes f s s' n (omega arith) w.others in
    let t = ap (λ (l : List Proc). weigh f l) w.taken in
    let t1 = ap (λ (l : List Proc). weigh each l) w.taken in
    let r : weigh each (live s.running_list) < max_queue_size =
      omega (arith, level-tally s n (omega arith), t1, h) in
    let j = ap (λ (l : List Proc). weigh f l) w.joined ∙ weigh-push f (live s.running_list) p r in
    omega (arith, c, t, j)

pub get_mlq_proc-tally :
    (f : Proc → ℕ) (s : Sched)
    → IsValid s
    → tally each s ≤ max_queue_size
    → tally f (get_mlq_proc s).1 ≡ tally f s
unfolding tally
get_mlq_proc-tally f s v h = elim (get_mlq_proc-Outcome s v) [
  | idle s' e w ↦ rw (e, w.ready, w.running)
  | found p s' e w ↦ rw e (found-tally f s s' p h w)
]

pub finish_proc-tally :
    (f : Proc → ℕ) (s : Sched) (p : Proc)
    → IsValid s
    → find_pid p.pid (live s.running_list) ≡ some p
    → tally f (finish_proc (some p) s) + f p ≡ tally f s
unfolding tally
finish_proc-tally f s p v e =
    let q = finish_proc_lem p s v in
    let w = weigh-erase_pid f p.pid (live s.running_list) p e in rw (q.0, q.1) (omega (arith, w))

pub Queued-tally :
    (f : Proc → ℕ) (s s' : Sched) (p : Proc)
    → p.prio < max_prio
    → tally each s < max_queue_size
    → Queued s p s'
    → tally f s' ≡ tally f s + f p
unfolding tally
Queued-tally f s s' p l h q =
    let c = level_changes f s s' p.prio l q.others in
    let r : weigh each (live (s.mlq_ready_queue p.prio)) < max_queue_size =
      omega (arith, level-tally s p.prio l, h) in
    let a =
      ap (λ (x : List Proc). weigh f x) q.appended
      ∙ weigh-push f (live (s.mlq_ready_queue p.prio)) p r in
    let e = ap (λ (x : Queue). weigh f (live x)) q.running_list in omega (arith, c, a, e)

-- With fewer than 50 processes in the system, none is lost or doubled: whatever is counted of the
-- ready and running processes together (their number, those of one pid, or any other weight), a
-- dispatch leaves the sum as it is, and so does putting back a process `p` that is on the running
-- list; finishing it takes just that one out, and adding a process `q` puts just that one in.
pub conserved :
    (f : Proc → ℕ) (s : Sched) (p q : Proc)
    → IsValid s
    → tally each s < max_queue_size
    → find_pid p.pid (live s.running_list) ≡ some p
    → p.prio < max_prio
    → q.prio < max_prio
    → (tally f (get_mlq_proc s).1 ≡ tally f s)
      × (tally f (put_mlq_proc (some p) s) ≡ tally f s)
      × (tally f (finish_proc (some p) s) + f p ≡ tally f s)
      × (tally f (add_mlq_proc (some q) s) ≡ tally f s + f q)
conserved f s p q v h e l k =
    let w = put_mlq_proc_lem p s v l in
    let t = finish_proc-tally f s p v e in
    let t1 = finish_proc-tally each s p v e in
    (
      get_mlq_proc-tally f s v (omega (arith, h)),
      Queued-tally f (finish_proc (some p) s) _ p l (omega (arith, t1, h)) w.1 ∙ t,
      t,
      Queued-tally f s _ q k h (add_mlq_proc_lem q s v k),
    )
