-- ===== src/Sched/Search.antt =====
-- The search for a process by its pid.
use os_assignment_nhom.Base.{
  ℕ, zero, suc, ◌+◌, ◌<◌, ◌≡◌, Option, none, some, ◌≢◌, ◌⊎◌, inl, inr, All, arith, Option-cases,
  Bool-cases, sym, ◌≤◌, ◌==◌,
}
use os_assignment_nhom.Queue.{Proc, Queue}
use os_assignment_nhom.Queue.Contents.{
  find_pid, index_of, index_of-Removes, index_of-none, Has, find_pid-some, find_pid-none,
}
use os_assignment_nhom.Queue.Refine
use os_assignment_nhom.Queue.Refine.{live, find_index-Holds}
use os_assignment_nhom.Sched.{Sched, max_prio, find_in, find_ready, find_process_by_pid}
use os_assignment_nhom.Sched.Invariant.{IsValid}

-- Searching a queue's array finds the first of its processes with the pid.
find_in-eq-find_pid :
    (q : Queue) (pid : ℕ) → Refine.IsValid q → find_in q pid ≡ find_pid pid (live q)
unfolding find_in
find_in-eq-find_pid q pid v = elim (Option-cases (index_of pid (live q))) [
  | inl e ↦
      rw (find_index-Holds q (live q) pid v, e, find_in) (sym (index_of-none pid (live q) e).0)
  | inr (i, e) ↦
      rw (find_index-Holds q (live q) pid v, e, find_in)
        (index_of-Removes q.proc (live q) pid i v.starts e).found
]

-- What a search of the `n` levels from `prio` on returned.
abbrev InLevels : ℕ → ℕ → (ℕ → Queue) → ℕ → Option Proc → Type 0
InLevels n prio qs pid none = (i : ℕ) → prio ≤ i → i < prio + n → find_pid pid (live (qs i)) ≡ none
InLevels n prio qs pid (some p) =
    (i : ℕ) × (prio ≤ i) × (i < prio + n) × (find_pid pid (live (qs i)) ≡ some p)

InLevels-suc :
    (n prio : ℕ) (qs : ℕ → Queue) (pid : ℕ) (r : Option Proc)
    → find_pid pid (live (qs prio)) ≡ none
    → InLevels n (suc prio) qs pid r
    → InLevels (suc n) prio qs pid r
InLevels-suc n prio qs pid none e h = λ i lo hi. elim (Bool-cases (i == prio)) [
  | inl t ↦ (let same : i ≡ prio = ground arith in rw same e)
  | inr t ↦ h i (ground arith) (omega arith)
]
InLevels-suc n prio qs pid (some p) e (i, lo, hi, f) = (i, omega arith, omega arith, f)

find_ready-InLevels :
    (n prio : ℕ) (qs : ℕ → Queue) (pid : ℕ)
    → ((i : ℕ) → i < prio + n → Refine.IsValid (qs i))
    → InLevels n prio qs pid (find_ready n prio qs pid)
unfolding find_ready
find_ready-InLevels zero prio qs pid v = λ i lo hi. absurd (omega arith)
find_ready-InLevels (suc n) prio qs pid v =
    let here = find_in-eq-find_pid (qs prio) pid (v prio (omega arith)) in
    elim (Option-cases (find_pid pid (live (qs prio)))) [
      | inl e ↦
          rw (here, e, find_ready)
            (InLevels-suc n prio qs pid _ e
              (find_ready-InLevels n (suc prio) qs pid (λ i h. v i (omega arith))))
      | inr (p, e) ↦ rw (here, e, find_ready) (prio, omega arith, omega arith, e)
    ]

-- What the search for a pid may return: NULL only if no process of that pid runs or waits at any
-- level; otherwise a process of that pid which runs or waits at a level below 140.
abbrev pub Located : Sched → ℕ → Option Proc → Type 0
Located s pid none =
    All (λ p. p.pid ≢ pid) (live s.running_list)
    × ((i : ℕ) → i < max_prio → All (λ p. p.pid ≢ pid) (live (s.mlq_ready_queue i)))
Located s pid (some p) =
    (p.pid ≡ pid)
    × (Has p (live s.running_list)
        ⊎ ((i : ℕ) × (i < max_prio) × Has p (live (s.mlq_ready_queue i))))

Located-ready :
    (s : Sched) (pid : ℕ) (r : Option Proc)
    → find_pid pid (live s.running_list) ≡ none
    → InLevels max_prio 0 s.mlq_ready_queue pid r
    → Located s pid r
Located-ready s pid none e h =
    (find_pid-none pid _ e, λ i k. find_pid-none pid _ (h i (omega arith) (omega arith)))
Located-ready s pid (some p) e (i, lo, hi, f) =
    let g = find_pid-some pid _ p f in (g.0, inr (i, omega arith, g.1))

-- `find_process_by_pid` is exact on a valid state: a process that it returns has the pid and is
-- running or ready, and it returns NULL only if there is no such process.
pub find_process_by_pid-Located :
    (s : Sched) (pid : ℕ) → IsValid s → Located s pid (find_process_by_pid s pid)
unfolding find_process_by_pid
find_process_by_pid-Located s pid v =
    let here = find_in-eq-find_pid s.running_list pid v.running in
    elim (Option-cases (find_pid pid (live s.running_list))) [
      | inl e ↦
          rw (here, e, find_process_by_pid)
            (Located-ready s pid _ e (
              find_ready-InLevels max_prio 0 s.mlq_ready_queue pid
                (λ i h. (v.levels i (omega arith)).queue)))
      | inr (p, e) ↦
          rw (here, e, find_process_by_pid) (let g = find_pid-some pid _ p e in (g.0, inl g.1))
    ]
