-- ===== src/Os/Dispatching.antt =====
-- What the scheduler gives a CPU, and what one round of its loop makes of it.
use os_assignment_nhom.Base.{
  ℕ, ◌+◌, ◌-◌, ◌%◌, ◌<◌, ◌≡◌, ◌≢◌, refl, sym, ◌∙◌, arith, none, some, [], ◌∷◌, ◌==◌, Bool-cases,
  inl, inr,
}
use os_assignment_nhom.Queue.{Proc}
use os_assignment_nhom.Queue.Refine.{live, push}
use os_assignment_nhom.Sched.{Sched, max_prio, get_mlq_proc, put_mlq_proc}
use os_assignment_nhom.Sched.Invariant.{IsValid}
use os_assignment_nhom.Sched.Dispatch.{
  Outcome, idle, found, Dispatched, level_at, get_mlq_proc-Outcome,
}
use os_assignment_nhom.Sched.Operations.{put_mlq_proc_lem, finish_proc_lem}

-- A dispatch keeps the invariant, and a process that it finds has a priority in range.
pub get_mlq_proc-InRange :
    (s : Sched)
    → IsValid s
    → IsValid (get_mlq_proc s).1 × ((p : Proc) → (get_mlq_proc s).0 ≡ some p → p.prio < max_prio)
get_mlq_proc-InRange s v = elim (get_mlq_proc-Outcome s v) [
  | idle s' e w ↦ rw e (w.valid, λ p h. cc h)
  | found q s' e w ↦
      let i : ℕ = level_at s.current_prio w.skipped in
      let lt : i < max_prio = omega arith in
      let a = rw w.taken at (v.levels i lt).prios in
      rw e (w.valid, λ p h. (let same : q ≡ p = cc h in rw (← same) (omega (arith, a.0, lt))))
]

-- No process waits at any level.
abbrev pub AllEmpty : Sched → Type 0
AllEmpty s = (i : ℕ) → i < max_prio → live (s.mlq_ready_queue i) ≡ []

pub get_mlq_proc-AllEmpty :
    (s : Sched)
    → IsValid s
    → AllEmpty s
    → (s' : Sched) × (get_mlq_proc s ≡ (none, s')) × IsValid s' × AllEmpty s'
get_mlq_proc-AllEmpty s v h = elim (get_mlq_proc-Outcome s v) [
  | idle s' e w ↦ (s', e, w.valid, λ i l. rw w.ready (h i l))
  | found q s' e w ↦ cc (w.taken, h (level_at s.current_prio w.skipped) (omega arith))
]

-- Only process `p` waits, at its own level.
record Only (p : Proc) (s : Sched) : Type 0 where
  here : live (s.mlq_ready_queue p.prio) ≡ p ∷ []
  others : (i : ℕ) → i < max_prio → i ≢ p.prio → live (s.mlq_ready_queue i) ≡ []

put_mlq_proc-Only :
    (s : Sched) (p : Proc)
    → IsValid s
    → AllEmpty s
    → p.prio < max_prio
    → IsValid (put_mlq_proc (some p) s) × Only p (put_mlq_proc (some p) s)
unfolding push
put_mlq_proc-Only s p v h l =
    let f = finish_proc_lem p s v in
    let q = (put_mlq_proc_lem p s v l).1 in
    (
      q.valid,
      record {
        here = rw (q.appended, f.1, h p.prio l) refl;
        others = λ i k ne. rw (q.others i ne, f.1) (h i k);
      },
    )

Dispatched-Only :
    (s : Sched) (p q : Proc) (s' : Sched)
    → Only p s
    → Dispatched max_prio s.current_prio s q s'
    → (q ≡ p) × AllEmpty s'
Dispatched-Only s p q s' o w =
    let n : ℕ = level_at s.current_prio w.skipped in
    let lt : n < max_prio = omega arith in
    elim (Bool-cases (n == p.prio)) [
      | inl e ↦
          let same : n ≡ p.prio = ground arith in
          let t : p ∷ [] ≡ q ∷ live (s'.mlq_ready_queue n) = sym o.here ∙ rw (← same) w.taken in
          (
            cc t,
            λ i k. elim (Bool-cases (i == n)) [
              | inl z ↦ let at : i ≡ n = ground arith in rw at (cc t)
              | inr z ↦
                  let ne : i ≢ n = ground arith in
                  rw (w.others i ne) (o.others i k (λ y. ne (y ∙ sym same)))
            ],
          )
      | inr e ↦ cc (w.taken, o.others n lt (ground arith))
    ]

Only-Outcome :
    (s : Sched) (p : Proc)
    → IsValid s
    → Only p s
    → p.prio < max_prio
    → Outcome max_prio s.current_prio s (get_mlq_proc s)
    → (s' : Sched) × (get_mlq_proc s ≡ (some p, s')) × IsValid s' × AllEmpty s'
Only-Outcome s p v o l (idle s' e w) =
    let j : ℕ = (p.prio + 140 - s.current_prio) % 140 in
    let at : level_at s.current_prio j ≡ p.prio = omega (arith, v.prio_in, l) in
    cc (rw at at (w.nothing j (omega arith)), o.here)
Only-Outcome s p v o l (found q s' e w) =
    let d = Dispatched-Only s p q s' o w in (s', rw (← d.0) e, w.valid, d.1)

-- A process that is put back while no other waits is dispatched again at once.
pub get_mlq_proc-put_mlq_proc :
    (s : Sched) (p : Proc)
    → IsValid s
    → AllEmpty s
    → p.prio < max_prio
    → (s' : Sched) × (get_mlq_proc (put_mlq_proc (some p) s) ≡ (some p, s'))
      × IsValid s'
      × AllEmpty s'
get_mlq_proc-put_mlq_proc s p v h l =
    let o = put_mlq_proc-Only s p v h l in Only-Outcome _ p o.0 o.1 l (get_mlq_proc-Outcome _ o.0)
