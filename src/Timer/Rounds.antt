-- ===== src/Timer/Rounds.antt =====
-- The steps of the timer thread, and that they keep the invariant.
use os_assignment_nhom.Base.{
  ℕ, ◌+◌, ◌<◌, ◌≤◌, ◌≡◌, refl, arith, true, false, ◌||◌, none, some, ltb, ◌==◌, if◌then◌else◌,
  update, Bool-cases, inl, inr,
}
use os_assignment_nhom.Base.Word.{u64}
use os_assignment_nhom.Timer.{
  Device, Pc, scanning, releasing, stopped, Timer, scan, after_release, next_round, timer_step,
}
use os_assignment_nhom.Timer.Barrier.{Sound, Counted, finished_below, ValidAt, IsValid}

-- The four steps of the timer, and the wait.
pub timer_step-scan :
    (t : Timer) (j f e : ℕ)
    → j < t.count
    → ((t.dev_list j).done || (t.dev_list j).fsh) ≡ true
    → timer_step t (scanning j f e)
      ≡ some (record t { pc = scanning (j + 1) (if (t.dev_list j).fsh then f + 1 else f) (e + 1) })
unfolding timer_step scan
timer_step-scan t j f e l b = let w : ltb j t.count ≡ true = ground arith in rw (w, b)

pub timer_step-wait :
    (t : Timer) (j f e : ℕ)
    → j < t.count
    → ((t.dev_list j).done || (t.dev_list j).fsh) ≡ false
    → timer_step t (scanning j f e) ≡ none
unfolding timer_step scan
timer_step-wait t j f e l b = let w : ltb j t.count ≡ true = ground arith in rw (w, b)

pub advanced : Timer → ℕ → ℕ → Timer
advanced t f e = record t { time = u64 (t.time + 1); rounds = t.rounds + 1; pc = releasing 0 f e }

pub timer_step-advance :
    (t : Timer) (j f e : ℕ) → t.count ≤ j → timer_step t (scanning j f e) ≡ some (advanced t f e)
unfolding timer_step advanced
timer_step-advance t j f e l = let w : ltb j t.count ≡ false = ground arith in rw w

pub released : Timer → ℕ → ℕ → ℕ → Timer
released t j f e = record t {
  dev_list = update t.dev_list j (record (t.dev_list j) { done = false });
  pc = releasing (j + 1) f e;
}

pub timer_step-release :
    (t : Timer) (j f e : ℕ) → j < t.count → timer_step t (releasing j f e) ≡ some (released t j f e)
unfolding timer_step released
timer_step-release t j f e l = let w : ltb j t.count ≡ true = ground arith in rw w

pub timer_step-after :
    (t : Timer) (j f e : ℕ)
    → t.count ≤ j
    → timer_step t (releasing j f e) ≡ some (record t { pc = after_release t.timer_stop f e })
unfolding timer_step
timer_step-after t j f e l = let w : ltb j t.count ≡ false = ground arith in rw w

below_suc : (P : ℕ → Type 0) (j : ℕ) → ((i : ℕ) → i < j → P i) → P j → (i : ℕ) → i < j + 1 → P i
below_suc P j h p i l = elim (Bool-cases (i == j)) [
  | inl e ↦ let same : i ≡ j = ground arith in rw same p
  | inr e ↦ h i (ground arith)
]

scanned-Counted :
    (t : Timer) (j f e : ℕ)
    → Counted t (scanning j f e)
    → j < t.count
    → Counted t (scanning (j + 1) (if (t.dev_list j).fsh then f + 1 else f) (e + 1))
scanned-Counted t j f e c l = elim (Bool-cases (t.dev_list j).fsh) [
  | inl z ↦ rw z (
    omega (arith, l),
    omega (arith, c.1),
    omega (arith, c.2),
    λ q. below_suc (λ i. (t.dev_list i).fsh ≡ true) j (c.3 (omega (arith, q))) z,
  )
  | inr z ↦ rw z (
    omega (arith, l),
    omega (arith, c.1),
    omega (arith, c.2),
    λ q. absurd (omega (arith, q, c.2)),
  )
]

-- The scan of one device that has ended its slot.
pub scanned-ValidAt :
    (t : Timer) (j f e : ℕ)
    → ValidAt t (scanning j f e)
    → j < t.count
    → ((t.dev_list j).done || (t.dev_list j).fsh) ≡ true
    → ValidAt t (scanning (j + 1) (if (t.dev_list j).fsh then f + 1 else f) (e + 1))
scanned-ValidAt t j f e v l b = record {
  devices = λ i k.
      (let s = v.devices i k in
        record {
          in_slot = s.in_slot;
          gone = s.gone;
          behind = s.behind;
          place = (
            s.place.0,
            below_suc (λ n. ((t.dev_list n).done || (t.dev_list n).fsh) ≡ true) j
                (λ n z. (v.devices n (omega (arith, z, l))).place.1 z) b i,
          );
        });
  counted = scanned-Counted t j f e v.counted l;
  clock = v.clock;
  halted = v.halted;
}

advanced-Sound :
    (r j f e i : ℕ) (d : Device)
    → i < j
    → Sound r (scanning j f e) i d
    → Sound (r + 1) (releasing 0 f e) i d
advanced-Sound r j f e i d l s = record {
  in_slot = s.in_slot;
  gone = s.gone;
  behind = omega (arith, s.behind);
  place = (λ z. absurd (omega (arith, z)), λ _ z. ground (arith, s.place, s.in_slot));
}

-- All devices have ended the slot: the time moves on.
pub advanced-IsValid :
    (t : Timer) (j f e : ℕ) → ValidAt t (scanning j f e) → t.count ≤ j → IsValid (advanced t f e)
unfolding advanced
advanced-IsValid t j f e v l =
    let c = v.counted in
    let all : j ≡ t.count = omega (arith, c.0) in
    record {
      devices = λ i k. advanced-Sound t.rounds j f e i _ (omega (arith, k, l)) (v.devices i k);
      counted = (omega arith, λ q i k. c.3 q i (omega (arith, k, l)));
      clock = omega (arith, v.clock);
      halted = v.halted;
    }

released-Sound :
    (r j f e i : ℕ) (d : Device)
    → (i == j) ≡ false
    → Sound r (releasing j f e) i d
    → Sound r (releasing (j + 1) f e) i d
released-Sound r j f e i d ne s = record {
  in_slot = s.in_slot;
  gone = s.gone;
  behind = s.behind;
  place = (λ l. s.place.0 (ground arith), λ l. s.place.1 (omega (arith, l)));
}

released_self :
    (r j f e : ℕ) (d : Device)
    → Sound r (releasing j f e) j d
    → Sound r (releasing (j + 1) f e) j (record d { done = false })
released_self r j f e d s = record {
  in_slot = λ z. cc z;
  gone = s.gone;
  behind = s.behind;
  place = (λ _ z. ground (arith, s.place, s.in_slot), λ l. absurd (omega (arith, l)));
}

pub released-IsValid :
    (t : Timer) (j f e : ℕ) → ValidAt t (releasing j f e) → j < t.count → IsValid (released t j f e)
unfolding released
released-IsValid t j f e v l =
    let d : Device = record (t.dev_list j) { done = false } in
    let c = v.counted in
    record {
      devices = λ i k. elim (Bool-cases (i == j)) [
        | inl z ↦
            let same : i ≡ j = ground arith in
            rw (z, same) (released_self t.rounds j f e _ (v.devices j l))
        | inr z ↦ rw z (released-Sound t.rounds j f e i _ z (v.devices i k))
      ];
      counted = (omega (arith, l), λ q. finished_below t j d t.count (λ z. z) (c.1 q));
      clock = v.clock;
      halted = λ z. finished_below t j d t.count (λ y. y) (v.halted z);
    }

stopped-ValidAt :
    (t : Timer) (pc : Pc)
    → ValidAt t pc
    → ((i : ℕ) → i < t.count → (t.dev_list i).fsh ≡ true)
    → ValidAt t stopped
stopped-ValidAt t pc v all = record {
  devices = λ i k.
      (let s = v.devices i k in
        record { in_slot = s.in_slot; gone = s.gone; behind = s.behind; place = all i k });
  counted = tt;
  clock = v.clock;
  halted = v.halted;
}

restarted-ValidAt :
    (t : Timer) (j f e : ℕ) → ValidAt t (releasing j f e) → t.count ≤ j → ValidAt t (scanning 0 0 0)
restarted-ValidAt t j f e v l = record {
  devices = λ i k.
      (let s = v.devices i k in
        record {
          in_slot = s.in_slot;
          gone = s.gone;
          behind = s.behind;
          place = (s.place.0 (omega (arith, k, l)), λ z. absurd (omega (arith, z)));
        });
  counted = (omega arith, refl, omega arith, λ _ i z. absurd (omega (arith, z)));
  clock = v.clock;
  halted = v.halted;
}

pub after_release-ValidAt :
    (t : Timer) (j f e : ℕ)
    → ValidAt t (releasing j f e)
    → t.count ≤ j
    → ValidAt t (after_release t.timer_stop f e)
unfolding after_release next_round
after_release-ValidAt t j f e v l = elim (Bool-cases (f == e)) [
  | inl q ↦ rw q (stopped-ValidAt t _ v (v.counted.1 (ground arith)))
  | inr q ↦ elim (Bool-cases t.timer_stop) [
    | inl z ↦ simp (q, z) (stopped-ValidAt t _ v (v.halted z))
    | inr z ↦ simp (q, z) (restarted-ValidAt t j f e v l)
  ]
]
