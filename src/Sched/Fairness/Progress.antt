-- ===== src/Sched/Fairness/Progress.antt =====
-- A dispatch serves the level that waits, or uses up some of what it has to wait for.
use os_assignment_nhom.Base.{
  ℕ, zero, suc, ◌+◌, ◌%◌, ◌<◌, ◌≤◌, ◌≡◌, refl, Option, some, ◌==◌, leb, arith, ◌≢◌, ◌⊎◌, inl, inr,
  Bool-cases, List, [], ◌∷◌, List-cases,
}
use os_assignment_nhom.Queue.{Proc}
use os_assignment_nhom.Queue.Refine.{live}
use os_assignment_nhom.Sched.{Sched, max_prio, charge, refill, dispatch, get_mlq_proc}
use os_assignment_nhom.Sched.Invariant.{
  Level, IsValid, Served, dequeued, serve_nil, serve_cons, charge-Served,
}
use os_assignment_nhom.Sched.Dispatch.{
  dispatch-none, dispatch-some, refill-IsValid, refill-mlq_ready_queue,
}
use os_assignment_nhom.Sched.Fairness.Weight.{wait, wait-charge, wait-refill, wait-eq}

-- A dispatch returned a process, of level `k` or at the cost of some waiting.
pub data Progress (k : ℕ) (s : Sched) (r : Option Proc × Sched) : Type 0 where
  progress :
      (p : Proc) (s' : Sched)
      → r ≡ (some p, s')
      → IsValid s'
      → (p.prio ≡ k) ⊎ (wait k s' < wait k s)
      → Progress k s r

-- The search stands at `prio`, ahead of level `k`, and `n` attempts reach `k`.
record Ahead (k n prio : ℕ) (s : Sched) : Type 0 where
  level : k < max_prio
  prio_in : prio < max_prio
  from : s.current_prio ≤ prio
  before : s.current_prio ≤ k → prio ≤ k
  enough : (prio ≤ k) × (k < prio + n) ⊎ (k < prio) × (k + max_prio < prio + n)

Progress-le :
    (k : ℕ) (s t : Sched) (r : Option Proc × Sched)
    → wait k s ≤ wait k t
    → Progress k s r
    → Progress k t r
Progress-le k s t r h (progress p s' e v (inl a)) = progress p s' e v (inl a)
Progress-le k s t r h (progress p s' e v (inr b)) = progress p s' e v (inr (omega arith))

head_prio :
    (s : Sched) (prio : ℕ) (p : Proc) (l : List Proc)
    → Level s prio
    → live (s.mlq_ready_queue prio) ≡ p ∷ l
    → p.prio ≡ prio
head_prio s prio p l u e = (rw e at u.prios).0

-- A level with a process is served: it is `k`, or the waiting for `k` gets shorter.
served :
    (k n prio : ℕ) (s : Sched) (p : Proc) (l : List Proc)
    → IsValid s
    → Ahead k (suc n) prio s
    → live (s.mlq_ready_queue prio) ≡ p ∷ l
    → Progress k s (dispatch (suc n) prio s)
served k n prio s p l v a e =
    let u : Level s prio = v.levels prio a.prio_in in
    let t : Sched = charge prio (some p) (dequeued prio s) in
    let w : Served s prio p t = charge-Served s prio p l v a.prio_in e in
    progress p t (dispatch-some n prio s t p (serve_cons s prio p l v a.prio_in e)) w.valid
      (elim (Bool-cases (prio == k)) [
        | inl same ↦ inl (ground (arith, head_prio s prio p l u e))
        | inr other ↦
            let less : wait k t < wait k (dequeued prio s) =
              wait-charge k prio (some p) (dequeued prio s) a.level a.prio_in u.charged a.from
                (ground arith) (λ c. ground (arith, a.before c)) in
            inr (rw (wait-eq k s (dequeued prio s) refl refl refl) at less)
      ])

refill_zero : (s : Sched) → (refill 0 s).current_prio ≡ 0
unfolding refill
refill_zero s = refl

refill_ne_zero : (prio : ℕ) (s : Sched) → prio ≢ 0 → refill prio s ≡ s
unfolding refill
refill_ne_zero prio s h = ground arith

-- The step past an empty level: to the next one, or round to level 0.
Ahead-next :
    (k n prio : ℕ) (s : Sched)
    → Ahead k (suc n) prio s
    → prio ≢ k
    → prio + 1 < max_prio
    → Ahead k n (prio + 1) s
Ahead-next k n prio s a ne h = record {
  level = a.level;
  prio_in = h;
  from = omega (arith, a.from);
  before = λ c. omega (arith, a.before c);
  enough = ground (arith, a.enough);
}

Ahead-round :
    (k n prio : ℕ) (s : Sched)
    → Ahead k (suc n) prio s
    → prio ≢ k
    → prio ≡ 139
    → Ahead k n 0 (refill 0 s)
Ahead-round k n prio s a ne h = record {
  level = a.level;
  prio_in = omega arith;
  from = rw (refill_zero s) (omega arith);
  before = λ c. omega arith;
  enough = inl (omega arith, ground (arith, a.enough));
}

past_before :
    (k n prio : ℕ) (s : Sched) → Ahead k n prio s → prio ≢ k → prio ≡ 139 → k < s.current_prio
past_before k n prio s a ne h = ground (arith, a.level, a.before)

next_level :
    (k n prio : ℕ) (s : Sched)
    → prio + 1 < max_prio
    → Progress k s (dispatch n (prio + 1) s)
    → Progress k s (dispatch n ((prio + 1) % max_prio) (refill ((prio + 1) % max_prio) s))
next_level k n prio s h w =
    let c : (prio + 1) % max_prio ≡ prio + 1 = omega arith in
    rw (c, refill_ne_zero (prio + 1) s (omega arith)) w

-- The search from ahead of a level with a process finds one, and wastes no waiting.
search-Progress :
    (k n prio : ℕ) (s : Sched)
    → IsValid s
    → Ahead k n prio s
    → live (s.mlq_ready_queue k) ≢ []
    → Progress k s (dispatch n prio s)
search-Progress k zero prio s v a ne = absurd (ground (arith, a.enough))
search-Progress k (suc n) prio s v a ne = elim (List-cases (live (s.mlq_ready_queue prio))) [
  | inr (p, l, e) ↦ served k n prio s p l v a e
  | inl e ↦
      let other : prio ≢ k = λ same. ne (rw same at e) in
      rw (dispatch-none n prio s s (serve_nil s prio v a.prio_in e))
        (elim (Bool-cases (prio == 139)) [
          | inr t ↦
              let h : prio + 1 < max_prio = ground (arith, a.prio_in) in
              next_level k n prio s h
                (search-Progress k n (prio + 1) s v (Ahead-next k n prio s a other h) ne)
          | inl t ↦
              let last : prio ≡ 139 = ground arith in
              let c : (prio + 1) % max_prio ≡ 0 = omega arith in
              let b = past_before k (suc n) prio s a other last in
              let u = v.levels s.current_prio v.prio_in in
              rw c (
                Progress-le k (refill 0 s) s _ (le_of_lt (wait-refill k s v.prio_in u.charged b)) (
                  search-Progress k n 0 (refill 0 s) (refill-IsValid 0 s v)
                    (Ahead-round k n prio s a other last) (rw (refill-mlq_ready_queue 0 s) ne)))
        ])
]
  where
    le_of_lt : {a b : ℕ} → a < b → a ≤ b
    le_of_lt h = omega arith

-- While a process waits at level `k`, `get_mlq_proc` returns a process: one of level `k`, or
-- another one, and then fewer dispatches than before can still pass over level `k`.
pub get_mlq_proc-Progress :
    (k : ℕ) (s : Sched)
    → IsValid s
    → k < max_prio
    → live (s.mlq_ready_queue k) ≢ []
    → Progress k s (get_mlq_proc s)
unfolding get_mlq_proc
get_mlq_proc-Progress k s v h ne =
    search-Progress k max_prio s.current_prio s v
      (record {
        level = h;
        prio_in = v.prio_in;
        from = omega arith;
        before = λ c. c;
        enough = elim (Bool-cases (leb s.current_prio k)) [
          | inl t ↦ inl (ground arith, ground arith)
          | inr t ↦ inr (ground arith, ground arith)
        ];
      })
      ne
