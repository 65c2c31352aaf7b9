-- ===== src/Timer/Reach.antt =====
-- Every state that the threads can bring about is valid.
use os_assignment_nhom.Base.{
  ℕ, zero, suc, ◌-◌, ◌<◌, ◌≤◌, ◌≡◌, refl, sym, arith, true, false, ◌||◌, Option, some, ltb, ◌==◌,
  Bool-cases, inl, inr,
}
use mathlib.Core.Path.{subst}
use os_assignment_nhom.Timer.{
  Pc, scanning, releasing, stopped, Timer, set_device, enter_slot, leave_slot, detach_event,
  next_round, timer_step, Step, enter, leave, detach, tick, stop, initial, with_fresh, after_attach,
  attach_event, attach_all, start_timer, Reachable, started, stepped,
}
use os_assignment_nhom.Timer.Barrier.{
  ValidAt, IsValid, set_device-IsValid, enter_slot-Place, leave_slot-Place, detach_event-Place,
}
use os_assignment_nhom.Timer.Rounds.{
  timer_step-scan, timer_step-wait, timer_step-advance, timer_step-release, timer_step-after,
  scanned-ValidAt, advanced-IsValid, released-IsValid, after_release-ValidAt,
}

enter-IsValid :
    (t : Timer) (i : ℕ)
    → IsValid t
    → i < t.count
    → (t.dev_list i).fsh ≡ false
    → (t.dev_list i).waiting ≡ false
    → IsValid (set_device t i (enter_slot (t.dev_list i)))
unfolding enter_slot
enter-IsValid t i v l a b =
    let s = v.devices i l in
    set_device-IsValid t i _ v
      (record {
        in_slot = λ _. refl;
        gone = λ z. cc (a, z);
        behind = s.behind;
        place = enter_slot-Place t.rounds t.pc i _ a b s.in_slot s.place;
      })
      (λ z. z)

leave-IsValid :
    (t : Timer) (i : ℕ)
    → IsValid t
    → i < t.count
    → (t.dev_list i).waiting ≡ true
    → (t.dev_list i).done ≡ false
    → IsValid (set_device t i (leave_slot (t.dev_list i)))
unfolding leave_slot
leave-IsValid t i v l a b =
    let s = v.devices i l in
    let p = leave_slot-Place t.rounds t.pc i _ a b s.gone s.place in
    set_device-IsValid t i _ v
      (record { in_slot = λ z. cc (b, z); gone = λ _. refl; behind = p.1; place = p.0 }) (λ z. z)

detach-IsValid :
    (t : Timer) (i : ℕ)
    → IsValid t
    → i < t.count
    → (t.dev_list i).waiting ≡ false
    → IsValid (set_device t i (detach_event (t.dev_list i)))
unfolding detach_event
detach-IsValid t i v l a =
    let s = v.devices i l in
    set_device-IsValid t i _ v
      (record {
        in_slot = s.in_slot;
        gone = λ _. a;
        behind = s.behind;
        place = detach_event-Place t.rounds t.pc i _ s.place;
      })
      (λ _. refl)

-- The state after a step that is known.
reached : (t : Option Timer) (u t' : Timer) → t ≡ some u → t ≡ some t' → IsValid u → IsValid t'
reached t u t' e h v = let same : u ≡ t' = cc (e, h) in rw (← same) v

with_pc-IsValid : (t : Timer) (pc : Pc) → ValidAt t pc → IsValid (record t { pc = pc })
with_pc-IsValid t pc v = record {
  devices = v.devices;
  counted = v.counted;
  clock = v.clock;
  halted = v.halted;
}

tick-IsValid : (t t' : Timer) (pc : Pc) → ValidAt t pc → timer_step t pc ≡ some t' → IsValid t'
unfolding timer_step
tick-IsValid t t' (scanning j f e) v h = elim (Bool-cases (ltb j t.count)) [
  | inl l ↦
      let k : j < t.count = ground arith in
      elim (Bool-cases ((t.dev_list j).done || (t.dev_list j).fsh)) [
        | inl b ↦
            reached _ _ t' (timer_step-scan t j f e k b) h
              (with_pc-IsValid t _ (scanned-ValidAt t j f e v k b))
        | inr b ↦ cc (timer_step-wait t j f e k b, h)
      ]
  | inr l ↦
      let k : t.count ≤ j = ground arith in
      reached _ _ t' (timer_step-advance t j f e k) h (advanced-IsValid t j f e v k)
]
tick-IsValid t t' (releasing j f e) v h = elim (Bool-cases (ltb j t.count)) [
  | inl l ↦
      let k : j < t.count = ground arith in
      reached _ _ t' (timer_step-release t j f e k) h (released-IsValid t j f e v k)
  | inr l ↦
      let k : t.count ≤ j = ground arith in
      reached _ _ t' (timer_step-after t j f e k) h
        (with_pc-IsValid t _ (after_release-ValidAt t j f e v k))
]
tick-IsValid t t' stopped v h = cc h

Step-IsValid : {t t' : Timer} → Step t t' → IsValid t → IsValid t'
Step-IsValid (enter t i l a b) v = enter-IsValid t i v l a b
Step-IsValid (leave t i l a b) v = leave-IsValid t i v l a b
Step-IsValid (detach t i l a b) v = detach-IsValid t i v l b
Step-IsValid (tick t t' h) v = tick-IsValid t t' t.pc v h
Step-IsValid (stop t h) v = record {
  devices = v.devices;
  counted = v.counted;
  clock = v.clock;
  halted = λ _. h;
}

attach_all-suc :
    (n : ℕ) → (attach_all n).timer_started ≡ false → attach_all (suc n) ≡ with_fresh (attach_all n)
unfolding attach_all attach_event after_attach
attach_all-suc n h = rw (attach_event, h)

-- The timer before it is started.
pub record AtRest (t : Timer) (n : ℕ) : Type 0 where
  pub count : t.count ≡ n
  pub timer_started : t.timer_started ≡ false
  pub timer_stop : t.timer_stop ≡ false
  pub time : t.time ≡ 0
  pub rounds : t.rounds ≡ 0
  pub fresh : (i : ℕ) → t.dev_list i ≡ initial.dev_list 0

with_fresh-AtRest : (t : Timer) (n : ℕ) → AtRest t n → AtRest (with_fresh t) (suc n)
with_fresh-AtRest t n r = record {
  count = omega (arith, r.count);
  timer_started = r.timer_started;
  timer_stop = r.timer_stop;
  time = r.time;
  rounds = r.rounds;
  fresh = λ i. elim (Bool-cases (i == 0)) [ inl e ↦ rw e refl | inr e ↦ rw e (r.fresh (i - 1)) ];
}

-- `n` calls of `attach_event` make `n` devices, with all flags down.
attach_all-AtRest : (n : ℕ) → AtRest (attach_all n) n
unfolding attach_all
attach_all-AtRest zero = record {
  count = refl;
  timer_started = refl;
  timer_stop = refl;
  time = refl;
  rounds = refl;
  fresh = λ i. refl;
}
attach_all-AtRest (suc n) =
    let r = attach_all-AtRest n in
    subst (λ u. AtRest u (suc n)) (sym (attach_all-suc n r.timer_started))
      (with_fresh-AtRest (attach_all n) n r)

start_timer-ValidAt : (t : Timer) (n : ℕ) → AtRest t n → ValidAt (start_timer t) (scanning 0 0 0)
unfolding start_timer
start_timer-ValidAt t n r = record {
  devices = λ i k.
      rw (r.rounds, r.fresh i)
        (record {
          in_slot = λ z. cc z;
          gone = λ _. refl;
          behind = omega arith;
          place = (λ _. refl, λ z. absurd (omega (arith, z)));
        });
  counted = (omega arith, refl, omega arith, λ _ i z. absurd (omega (arith, z)));
  clock = rw (r.time, r.rounds) refl;
  halted = λ z. cc (r.timer_stop, z);
}

start_timer-IsValid : (n : ℕ) → IsValid (start_timer (attach_all n))
unfolding start_timer next_round
start_timer-IsValid n =
    let r = attach_all-AtRest n in
    let e : next_round (attach_all n).timer_stop ≡ scanning 0 0 0 = rw r.timer_stop in
    subst (λ p. ValidAt (start_timer (attach_all n)) p) (sym e)
      (start_timer-ValidAt (attach_all n) n r)

pub Reachable-IsValid : (n : ℕ) {t : Timer} → Reachable n t → IsValid t
Reachable-IsValid n started = start_timer-IsValid n
Reachable-IsValid n (stepped r s) = Step-IsValid s (Reachable-IsValid n r)
