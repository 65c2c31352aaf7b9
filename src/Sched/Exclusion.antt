-- ===== src/Sched/Exclusion.antt =====
-- No process is held by two CPUs.
use os_assignment_nhom.Base.{
  ℕ, ◌+◌, ◌<◌, ◌≤◌, ◌≡◌, ◌≢◌, refl, sym, ◌∙◌, ap, arith, false, Option, none, some, List, [], ◌∷◌,
  ◌++◌, length, ◌==◌, leb, update, Bool-cases, inl, inr, ◌⊎◌,
}
use os_assignment_nhom.Base.Sums.{sum_range_term}
use os_assignment_nhom.Queue.{Proc, max_queue_size}
use os_assignment_nhom.Queue.Contents.{find_pid, erase_pid}
use os_assignment_nhom.Queue.Lookup.{find_pid-append, find_pid-append_new, find_pid-erase_pid}
use os_assignment_nhom.Queue.Refine.{live, push}
use os_assignment_nhom.Sched.{
  Sched, max_prio, get_mlq_proc, put_mlq_proc, add_mlq_proc, finish_proc,
}
use os_assignment_nhom.Sched.Invariant.{IsValid}
use os_assignment_nhom.Sched.Dispatch.{idle, found, Dispatched, level_at, get_mlq_proc-Outcome}
use os_assignment_nhom.Sched.Operations.{add_mlq_proc_lem, put_mlq_proc_lem, finish_proc_lem}
use os_assignment_nhom.Sched.Conservation.{
  weigh, tally, each, of_pid, weigh-each, level-tally, get_mlq_proc-tally, finish_proc-tally,
  Queued-tally, conserved,
}

weigh-absent : (pid : ℕ) (l : List Proc) → weigh (of_pid pid) l ≡ 0 → find_pid pid l ≡ none
unfolding find_pid weigh
weigh-absent pid [] e = refl
weigh-absent pid (r ∷ l) e = elim (Bool-cases (r.pid == pid)) [
  | inl t ↦ absurd (omega (arith, rw t at e))
  | inr t ↦ rw t (weigh-absent pid l (omega (arith, rw t at e)))
]

push_room : (l : List Proc) (p : Proc) → weigh each l < max_queue_size → push l p ≡ l ++ (p ∷ [])
unfolding push
push_room l p h =
    let r : leb max_queue_size (length l) ≡ false = ground (arith, h, weigh-each l) in rw r refl

-- The processes are fewer than 50 and of different pids; each of the `n` CPUs that holds one finds
-- it on the running list, and no two hold processes of one pid.
pub record Exclusive (n : ℕ) (s : Sched) (held : ℕ → Option Proc) : Type 0 where
  pub sched : IsValid s
  pub room : tally each s < max_queue_size
  pub unique : (pid : ℕ) → tally (of_pid pid) s ≤ 1
  pub running :
      (i : ℕ) (p : Proc)
      → i < n
      → held i ≡ some p
      → (find_pid p.pid (live s.running_list) ≡ some p) × (p.prio < max_prio)
  pub apart :
      (i j : ℕ) (p q : Proc)
      → i < n
      → j < n
      → i ≢ j
      → held i ≡ some p
      → held j ≡ some q
      → p.pid ≢ q.pid

-- A process that waits at a level runs nowhere.
waiting-absent :
    (s : Sched) (k : ℕ) (p : Proc) (l : List Proc)
    → k < max_prio
    → ((pid : ℕ) → tally (of_pid pid) s ≤ 1)
    → live (s.mlq_ready_queue k) ≡ p ∷ l
    → find_pid p.pid (live s.running_list) ≡ none
unfolding tally weigh
waiting-absent s k p l h u e =
    let t =
      sum_range_term 0 max_prio k (λ i. weigh (of_pid p.pid) (live (s.mlq_ready_queue i)))
        (omega arith) (omega (arith, h)) in
    let w = ap (λ (x : List Proc). weigh (of_pid p.pid) x) e in
    let one : of_pid p.pid p ≡ 1 = ground arith in
    weigh-absent p.pid (live s.running_list) (omega (arith, t, w, one, u p.pid))

unheld :
    (held : ℕ → Option Proc) (j i : ℕ) (q : Proc)
    → update held j none i ≡ some q
    → (i ≢ j) × (held i ≡ some q)
unheld held j i q e = elim (Bool-cases (i == j)) [
  | inl t ↦ cc (rw t at e)
  | inr t ↦ (ground arith, rw t at e)
]

-- The CPU `j` lets its process go, and the running list loses it.
released :
    (n : ℕ) (s s' : Sched) (held : ℕ → Option Proc) (j : ℕ) (p : Proc)
    → Exclusive n s held
    → j < n
    → held j ≡ some p
    → IsValid s'
    → ((f : Proc → ℕ) → tally f s' ≤ tally f s)
    → live s'.running_list ≡ erase_pid p.pid (live s.running_list)
    → Exclusive n s' (update held j none)
released n s s' held j p x h e v t r = record {
  sched = v;
  room = omega (arith, t each, x.room);
  unique = λ pid. omega (arith, t (of_pid pid), x.unique pid);
  running = λ i q k g.
      (let u = unheld held j i q g in
        let w = x.running i q k u.1 in
        (rw (r, find_pid-erase_pid q.pid p.pid _ (x.apart i j q p k h u.0 u.1 e)) w.0, w.1));
  apart = λ i k q q' hi hk ne g g'.
      x.apart i k q q' hi hk ne (unheld held j i q g).1 (unheld held j k q' g').1;
}

pub finish_proc-Exclusive :
    (n : ℕ) (s : Sched) (held : ℕ → Option Proc) (j : ℕ) (p : Proc)
    → Exclusive n s held
    → j < n
    → held j ≡ some p
    → Exclusive n (finish_proc (some p) s) (update held j none)
finish_proc-Exclusive n s held j p x h e =
    let w = finish_proc_lem p s x.sched in
    released n s (finish_proc (some p) s) held j p x h e w.2
      (λ f. omega (arith, finish_proc-tally f s p x.sched (x.running j p h e).0)) w.0

pub put_mlq_proc-Exclusive :
    (n : ℕ) (s : Sched) (held : ℕ → Option Proc) (j : ℕ) (p : Proc)
    → Exclusive n s held
    → j < n
    → held j ≡ some p
    → Exclusive n (put_mlq_proc (some p) s) (update held j none)
put_mlq_proc-Exclusive n s held j p x h e =
    let r = x.running j p h e in
    let w = put_mlq_proc_lem p s x.sched r.1 in
    released n s (put_mlq_proc (some p) s) held j p x h e w.1.valid
      (λ f. omega (arith, (conserved f s p p x.sched x.room r.0 r.1 r.1).1)) w.0

pub add_mlq_proc-Exclusive :
    (n : ℕ) (s : Sched) (held : ℕ → Option Proc) (q : Proc)
    → Exclusive n s held
    → q.prio < max_prio
    → tally (of_pid q.pid) s ≡ 0
    → tally each s + 1 < max_queue_size
    → Exclusive n (add_mlq_proc (some q) s) held
add_mlq_proc-Exclusive n s held q x k z r =
    let w = add_mlq_proc_lem q s x.sched k in
    let t = λ (f : Proc → ℕ). Queued-tally f s _ q k x.room w in
    record {
      sched = w.valid;
      room = omega (arith, t each, r);
      unique = λ pid. elim (Bool-cases (q.pid == pid)) [
        | inl y ↦
            let same : q.pid ≡ pid = ground arith in
            let one : of_pid pid q ≡ 1 = rw y refl in
            let none_yet : tally (of_pid pid) s ≡ 0 = rw (← same) z in
            omega (arith, t (of_pid pid), one, none_yet)
        | inr y ↦
            let no : of_pid pid q ≡ 0 = rw y refl in omega (arith, t (of_pid pid), no, x.unique pid)
      ];
      running = rw w.running_list x.running;
      apart = x.apart;
    }

-- What a CPU holds after the dispatch to CPU `i`.
taken_by :
    (held : ℕ → Option Proc) (i j : ℕ) (p q : Proc)
    → update held i (some p) j ≡ some q
    → ((j ≡ i) × (p ≡ q)) ⊎ ((j ≢ i) × (held j ≡ some q))
taken_by held i j p q e = elim (Bool-cases (j == i)) [
  | inl t ↦ inl (ground arith, cc (rw t at e))
  | inr t ↦ inr (ground arith, rw t at e)
]

found-Exclusive :
    (n : ℕ) (s s' : Sched) (held : ℕ → Option Proc) (i : ℕ) (p : Proc)
    → Exclusive n s held
    → ((f : Proc → ℕ) → tally f s' ≡ tally f s)
    → Dispatched max_prio s.current_prio s p s'
    → Exclusive n s' (update held i (some p))
found-Exclusive n s s' held i p x t w =
    let k : ℕ = level_at s.current_prio w.skipped in
    let h : k < max_prio = omega arith in
    let prio : p.prio ≡ k = (rw w.taken at (x.sched.levels k h).prios).0 in
    let new = waiting-absent s k p _ h x.unique w.taken in
    let fits : weigh each (live s.running_list) < max_queue_size =
      omega (arith, level-tally s k h, x.room) in
    let joined = w.joined ∙ push_room (live s.running_list) p fits in
    record {
      sched = w.valid;
      room = rw (t each) x.room;
      unique = λ pid. rw (t (of_pid pid)) (x.unique pid);
      running = λ j q hj g. elim (taken_by held i j p q g) [
        | inl e ↦ rw (joined, ← e.1) (find_pid-append_new _ p new, omega (arith, prio, h))
        | inr e ↦ let r = x.running j q hj e.1 in rw joined (find_pid-append q.pid _ q p r.0, r.1)
      ];
      apart = λ j l q q' hj hl ne g g'. elim (taken_by held i j p q g) [
        | inl e ↦ elim (taken_by held i l p q' g') [
          | inl e' ↦ absurd (ne (e.0 ∙ sym e'.0))
          | inr e' ↦
              let r = (x.running l q' hl e'.1).0 in
              λ y. cc (new, r, y, ap (λ (z : Proc). z.pid) e.1)
        ]
        | inr e ↦ elim (taken_by held i l p q' g') [
          | inl e' ↦
              let r = (x.running j q hj e.1).0 in λ y. cc (new, r, y, ap (λ (z : Proc). z.pid) e'.1)
          | inr e' ↦ x.apart j l q q' hj hl ne e.1 e'.1
        ]
      ];
    }

pub get_mlq_proc-Exclusive :
    (n : ℕ) (s : Sched) (held : ℕ → Option Proc) (i : ℕ)
    → Exclusive n s held
    → held i ≡ none
    → Exclusive n (get_mlq_proc s).1 (update held i (get_mlq_proc s).0)
get_mlq_proc-Exclusive n s held i x e =
    let t = λ (f : Proc → ℕ). get_mlq_proc-tally f s x.sched (omega (arith, x.room)) in
    elim (get_mlq_proc-Outcome s x.sched) [
      | idle s' eq w ↦
          let t' : (f : Proc → ℕ) → tally f s' ≡ tally f s = λ f. (rw eq at t f) in
          rw eq (record {
            sched = w.valid;
            room = rw (t' each) x.room;
            unique = λ pid. rw (t' (of_pid pid)) (x.unique pid);
            running = λ j q hj g. rw w.running (x.running j q hj (unheld held i j q g).1);
            apart = λ j l q q' hj hl ne g g'.
                x.apart j l q q' hj hl ne (unheld held i j q g).1 (unheld held i l q' g').1;
          })
      | found p s' eq w ↦ rw eq (found-Exclusive n s s' held i p x (λ f. (rw eq at t f)) w)
    ]
