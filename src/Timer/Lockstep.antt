-- ===== src/Timer/Lockstep.antt =====
-- The threads move from slot to slot together.
use os_assignment_nhom.Base.{
  ℕ, ◌+◌, ◌<◌, ◌≤◌, ◌≡◌, refl, sym, arith, true, false, ◌||◌, some, ltb, Bool-cases, inl, inr, ◌⊎◌,
  ◌≢◌,
}
use mathlib.Core.Path.{subst}
use os_assignment_nhom.Base.Word.{u64}
use os_assignment_nhom.Timer.{
  Device, Pc, scanning, releasing, stopped, Timer, timer_step, Step, enter, leave, tick, Reachable,
}
use os_assignment_nhom.Timer.Barrier.{Sound, ValidAt}
use os_assignment_nhom.Timer.Rounds.{
  timer_step-scan, timer_step-advance, timer_step-release, timer_step-after,
}
use os_assignment_nhom.Timer.Reach.{Reachable-IsValid}

-- How far a thread that has not ended can be from the clock.
passed_bounds :
    (r : ℕ) (pc : Pc) (i : ℕ) (d : Device)
    → Sound r pc i d
    → d.fsh ≡ false
    → (d.passed ≤ r) × (r ≤ d.passed + 1)
passed_bounds r (scanning j f e) i d s h = let p = s.place in ground (arith, s.behind, p)
passed_bounds r (releasing j f e) i d s h = (
  s.behind,
  elim (Bool-cases (ltb i j)) [
    | inl l ↦ let p = s.place.0 (ground arith) h in ground (arith, p)
    | inr l ↦ let p = s.place.1 (ground arith) h in omega (arith, p.1)
  ],
)
passed_bounds r stopped i d s h = cc (s.place, h)

-- The barrier keeps the threads in step: in every state that can be reached, `_time` is the number
-- of rounds of the timer, and every device that is not detached has left as many slots behind, or
-- one fewer; so any two of them are at most one slot apart.
pub lockstep :
    (n : ℕ) (t : Timer) (i j : ℕ)
    → Reachable n t
    → i < t.count
    → j < t.count
    → (t.dev_list i).fsh ≡ false
    → (t.dev_list j).fsh ≡ false
    → (t.time ≡ u64 t.rounds)
      × ((t.dev_list i).passed ≤ t.rounds)
      × (t.rounds ≤ (t.dev_list i).passed + 1)
      × ((t.dev_list i).passed ≤ (t.dev_list j).passed + 1)
lockstep n t i j r hi hj fi fj =
    let v = Reachable-IsValid n r in
    let a = passed_bounds t.rounds t.pc i _ (v.devices i hi) fi in
    let b = passed_bounds t.rounds t.pc j _ (v.devices j hj) fj in
    (v.clock, a.0, a.1, omega (arith, a, b))

stopped_all :
    (t : Timer) (pc : Pc)
    → ValidAt t pc
    → pc ≡ stopped
    → (i : ℕ) → i < t.count
    → (t.dev_list i).fsh ≡ true
stopped_all t (scanning j f e) v h i l = cc h
stopped_all t (releasing j f e) v h i l = cc h
stopped_all t stopped v h i l = (v.devices i l).place

can_go :
    (t : Timer) (j f e : ℕ)
    → ValidAt t (scanning j f e)
    → j < t.count
    → ((t.dev_list j).done || (t.dev_list j).fsh) ≡ false
    → (t' : Timer) × Step t t'
can_go t j f e v l b = elim (Bool-cases (t.dev_list j).waiting) [
  | inl w ↦ (_, leave t j l w (ground arith))
  | inr w ↦ (_, enter t j l (ground arith) w)
]

ticks :
    (t : Timer) (pc : Pc) (t' : Timer)
    → t.pc ≡ pc
    → timer_step t pc ≡ some t'
    → (t'' : Timer) × Step t t''
ticks t pc t' q h = (t', tick t t' (subst (λ p. timer_step t p ≡ some t') (sym q) h))

moves : (t : Timer) (pc : Pc) → t.pc ≡ pc → ValidAt t pc → pc ≢ stopped → (t' : Timer) × Step t t'
moves t (scanning j f e) q v h = elim (Bool-cases (ltb j t.count)) [
  | inl l ↦
      let k : j < t.count = ground arith in
      elim (Bool-cases ((t.dev_list j).done || (t.dev_list j).fsh)) [
        | inl b ↦ ticks t _ _ q (timer_step-scan t j f e k b)
        | inr b ↦ can_go t j f e v k b
      ]
  | inr l ↦ ticks t _ _ q (timer_step-advance t j f e (ground arith))
]
moves t (releasing j f e) q v h = elim (Bool-cases (ltb j t.count)) [
  | inl l ↦ ticks t _ _ q (timer_step-release t j f e (ground arith))
  | inr l ↦ ticks t _ _ q (timer_step-after t j f e (ground arith))
]
moves t stopped q v h = absurd (h refl)

-- The barrier never deadlocks: in every state that can be reached, either some thread can take a
-- step, or the timer has stopped and every device is detached.
pub no_deadlock :
    (n : ℕ) (t : Timer)
    → Reachable n t
    → ((t' : Timer) × Step t t')
      ⊎ ((t.pc ≡ stopped) × ((i : ℕ) → i < t.count → (t.dev_list i).fsh ≡ true))
no_deadlock n t r =
    let v = Reachable-IsValid n r in
    elim (halts t.pc) [
      | inl e ↦ inr (e, stopped_all t t.pc v e)
      | inr ne ↦ inl (moves t t.pc refl v ne)
    ]
  where
    halts : (pc : Pc) → (pc ≡ stopped) ⊎ (pc ≢ stopped)
    halts (scanning j f e) = inr (λ z. cc z)
    halts (releasing j f e) = inr (λ z. cc z)
    halts stopped = inl refl
