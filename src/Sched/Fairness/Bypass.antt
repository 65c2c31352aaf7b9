-- ===== src/Sched/Fairness/Bypass.antt =====
-- How often a waiting process can be passed over, whatever the CPUs and the loader do meanwhile.
use os_assignment_nhom.Base.{
  ℕ, suc, ◌+◌, ◌*◌, ◌<◌, ◌≤◌, ◌≡◌, refl, Option, some, sym, ap, ◌∙◌, arith, ◌≢◌, inl, inr, List, [],
  ◌∷◌, length,
}
use os_assignment_nhom.Queue.{Proc}
use os_assignment_nhom.Queue.Refine.{live}
use os_assignment_nhom.Sched.{
  Sched, max_prio, get_mlq_proc, add_mlq_proc, put_mlq_proc, finish_proc,
}
use os_assignment_nhom.Sched.Invariant.{IsValid}
use os_assignment_nhom.Sched.Operations.{
  Queued, add_mlq_proc_lem, put_mlq_proc_lem, finish_proc_lem,
}
use os_assignment_nhom.Sched.Fairness.Weight.{wait, wait-eq, wait-le}
use os_assignment_nhom.Sched.Fairness.Progress.{Progress, progress, get_mlq_proc-Progress}

-- A run of the scheduler in which `n` dispatches pass over the process that waits at level `k` with
-- `j` others of the level before it, while processes are added, put back and finished in between in
-- any order. A dispatch of the level takes the first of those before it.
pub data Bypass (k : ℕ) : ℕ → ℕ → Sched → Sched → Type 0 where
  stop : (j : ℕ) (s : Sched) → Bypass k j 0 s s
  bypass :
      {j n : ℕ} {s t u : Sched} (p : Proc)
      → j < length (live (s.mlq_ready_queue k))
      → get_mlq_proc s ≡ (some p, t)
      → p.prio ≢ k
      → Bypass k j n t u
      → Bypass k j (suc n) s u
  serve :
      {j n : ℕ} {s t u : Sched} (p : Proc)
      → suc j < length (live (s.mlq_ready_queue k))
      → get_mlq_proc s ≡ (some p, t)
      → p.prio ≡ k
      → Bypass k j n t u
      → Bypass k (suc j) (suc n) s u
  add :
      {j n : ℕ} {s u : Sched} (p : Proc)
      → p.prio < max_prio
      → Bypass k j n (add_mlq_proc (some p) s) u
      → Bypass k j n s u
  put :
      {j n : ℕ} {s u : Sched} (p : Proc)
      → p.prio < max_prio
      → Bypass k j n (put_mlq_proc (some p) s) u
      → Bypass k j n s u
  finish :
      {j n : ℕ} {s u : Sched} (p : Proc)
      → Bypass k j n (finish_proc (some p) s) u
      → Bypass k j n s u

Queued-wait : (k : ℕ) (s : Sched) (p : Proc) (s' : Sched) → Queued s p s' → wait k s' ≡ wait k s
Queued-wait k s p s' q = wait-eq k s s' q.slot q.current_slot q.current_prio

finish_proc-wait : (k : ℕ) (p : Proc) (s : Sched) → wait k (finish_proc (some p) s) ≡ wait k s
unfolding finish_proc
finish_proc-wait k p s = wait-eq k s _ refl refl refl

prio_of : (q p : Proc) (k : ℕ) → some q ≡ some p → q.prio ≡ k → p.prio ≡ k
prio_of q p k e c = ground arith

bypassed :
    (k n : ℕ) (s t : Sched) (p : Proc)
    → Progress k s (get_mlq_proc s)
    → get_mlq_proc s ≡ (some p, t)
    → p.prio ≢ k
    → IsValid t × (wait k t < wait k s)
bypassed k n s t p (progress q s' e v w) f ne =
    let same : s' ≡ t = ap (λ (r : Option Proc × Sched). r.1) (sym e ∙ f) in
    let proc : some q ≡ some p = ap (λ (r : Option Proc × Sched). r.0) (sym e ∙ f) in
    let other : q.prio ≢ k = λ c. ne (prio_of q p k proc c) in
    rw (← same) (v, elim w [ inl c ↦ absurd (other c) | inr d ↦ d ])

dispatched-IsValid :
    (k : ℕ) (s t : Sched) (p : Proc)
    → Progress k s (get_mlq_proc s)
    → get_mlq_proc s ≡ (some p, t)
    → IsValid t
dispatched-IsValid k s t p (progress q s' e v w) f =
    let same : s' ≡ t = ap (λ (r : Option Proc × Sched). r.1) (sym e ∙ f) in rw (← same) v

waits_there : (j : ℕ) (l : List Proc) → j < length l → l ≢ []
waits_there j [] h = absurd (omega (arith, h))
waits_there j (p ∷ l) h = λ e. cc e

Bypass-le-wait :
    (k j n : ℕ) (s u : Sched)
    → k < max_prio
    → IsValid s
    → Bypass k j n s u
    → n ≤ wait k s + 19741 * j
Bypass-le-wait k j n s u h v (stop _ _) = omega arith
Bypass-le-wait k j n s u h v (bypass {n = m} {t = t} p ne e o r) =
    let g = get_mlq_proc-Progress k s v h (waits_there j _ ne) in
    let b = bypassed k m s t p g e o in omega (arith, b.1, Bypass-le-wait k j m t u h b.0 r)
Bypass-le-wait k (suc j) n s u h v (serve {n = m} {t = t} p ne e o r) =
    let w =
      dispatched-IsValid k s t p (get_mlq_proc-Progress k s v h (waits_there (suc j) _ ne)) e in
    omega (arith, wait-le k t w, Bypass-le-wait k j m t u h w r)
Bypass-le-wait k j n s u h v (add p b r) =
    let q = add_mlq_proc_lem p s v b in
    omega (arith, Queued-wait k s p _ q, Bypass-le-wait k j n _ u h q.valid r)
Bypass-le-wait k j n s u h v (put p b r) =
    let q = put_mlq_proc_lem p s v b in
    omega (
      arith,
      Queued-wait k _ p _ q.1,
      finish_proc-wait k p s,
      Bypass-le-wait k j n _ u h q.1.valid r,
    )
Bypass-le-wait k j n s u h v (finish p r) =
    let q = finish_proc_lem p s v in
    omega (arith, finish_proc-wait k p s, Bypass-le-wait k j n _ u h q.2 r)

-- No process starves. From a valid state at most `wait k s + 19741 * j` dispatches, and so never
-- more than `19740 + 19741 * j`, pass over the process that waits at level `k` with `j` others of
-- the level before it, whatever is added, put back or finished between them.
pub no_starvation :
    (k j n : ℕ) (s u : Sched)
    → k < max_prio
    → IsValid s
    → Bypass k j n s u
    → (n ≤ wait k s + 19741 * j) × (n ≤ 19740 + 19741 * j)
no_starvation k j n s u h v b =
    let w = Bypass-le-wait k j n s u h v b in (w, omega (arith, w, wait-le k s v))
