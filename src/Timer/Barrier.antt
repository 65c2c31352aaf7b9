-- ===== src/Timer/Barrier.antt =====
-- The invariant of the barrier.
use os_assignment_nhom.Base.{
  ℕ, ◌+◌, ◌<◌, ◌≤◌, ◌≡◌, refl, arith, true, false, not, ◌&&◌, ◌||◌, ◌==◌, if◌then◌else◌, Bool-cases,
  inl, inr,
}
use os_assignment_nhom.Base.Word.{u64}
use os_assignment_nhom.Timer.{
  Device, Pc, scanning, releasing, stopped, Timer, set_device, enter_slot, leave_slot, detach_event,
}

-- The slots that a thread has been let out of.
abbrev pub turn : Device → ℕ
turn d = if d.waiting && not d.done then d.passed + 1 else d.passed

-- Where the thread at place `i` stands while the timer is at `pc` after `r` rounds: during the scan
-- it has been let out of `r` slots, and has ended its slot if it was scanned; during the release
-- the same holds of those released, and the others have ended the slot before.
abbrev pub Place : ℕ → Pc → ℕ → Device → Type 0
Place r (scanning j f e) i d = (d.fsh ≡ false → turn d ≡ r) × (i < j → (d.done || d.fsh) ≡ true)
Place r (releasing j f e) i d =
    (i < j → d.fsh ≡ false → turn d ≡ r)
    × (j ≤ i → d.fsh ≡ false → (d.done ≡ true) × (d.passed + 1 ≡ r))
Place r stopped i d = d.fsh ≡ true

pub record Sound (r : ℕ) (pc : Pc) (i : ℕ) (d : Device) : Type 0 where
  pub in_slot : d.done ≡ true → d.waiting ≡ true
  pub gone : d.fsh ≡ true → d.waiting ≡ false
  pub behind : d.passed ≤ r
  pub place : Place r pc i d

-- The counts agree with the flags: they are equal only if every device scanned had ended.
abbrev pub Counted : Timer → Pc → Type 0
Counted t (scanning j f e) =
    (j ≤ t.count) × (e ≡ j) × (f ≤ e) × (f ≡ e → (i : ℕ) → i < j → (t.dev_list i).fsh ≡ true)
Counted t (releasing j f e) =
    (j ≤ t.count) × (f ≡ e → (i : ℕ) → i < t.count → (t.dev_list i).fsh ≡ true)
Counted t stopped = Unit

pub record ValidAt (t : Timer) (pc : Pc) : Type 0 where
  pub devices : (i : ℕ) → i < t.count → Sound t.rounds pc i (t.dev_list i)
  pub counted : Counted t pc
  pub clock : t.time ≡ u64 t.rounds
  pub halted : t.timer_stop ≡ true → (i : ℕ) → i < t.count → (t.dev_list i).fsh ≡ true

abbrev pub IsValid : Timer → Type 0
IsValid t = ValidAt t t.pc

pub enter_slot-Place :
    (r : ℕ) (pc : Pc) (i : ℕ) (d : Device)
    → d.fsh ≡ false
    → d.waiting ≡ false
    → (d.done ≡ true → d.waiting ≡ true)
    → Place r pc i d
    → Place r pc i (enter_slot d)
unfolding enter_slot
enter_slot-Place r (scanning j f e) i d a b c h = ground arith
enter_slot-Place r (releasing j f e) i d a b c h = ground arith
enter_slot-Place r stopped i d a b c h = h

pub leave_slot-Place :
    (r : ℕ) (pc : Pc) (i : ℕ) (d : Device)
    → d.waiting ≡ true
    → d.done ≡ false
    → (d.fsh ≡ true → d.waiting ≡ false)
    → Place r pc i d
    → Place r pc i (leave_slot d) × (d.passed + 1 ≤ r)
unfolding leave_slot
leave_slot-Place r (scanning j f e) i d a b c h = ground arith
leave_slot-Place r (releasing j f e) i d a b c h = ground arith
leave_slot-Place r stopped i d a b c h = ground arith

pub detach_event-Place :
    (r : ℕ) (pc : Pc) (i : ℕ) (d : Device) → Place r pc i d → Place r pc i (detach_event d)
unfolding detach_event
detach_event-Place r (scanning j f e) i d h = ground arith
detach_event-Place r (releasing j f e) i d h = ground arith
detach_event-Place r stopped i d h = refl

-- Flags that stay raised when one device changes and keeps its flag.
pub finished_below :
    (t : Timer) (i : ℕ) (d : Device) (n : ℕ)
    → ((t.dev_list i).fsh ≡ true → d.fsh ≡ true)
    → ((k : ℕ) → k < n → (t.dev_list k).fsh ≡ true)
    → (k : ℕ) → k < n
    → ((set_device t i d).dev_list k).fsh ≡ true
finished_below t i d n keep h k l = elim (Bool-cases (k == i)) [
  | inl e ↦ let same : k ≡ i = ground arith in rw e (keep (rw same at (h k l)))
  | inr e ↦ rw e (h k l)
]

set_device-Counted :
    (t : Timer) (i : ℕ) (d : Device) (pc : Pc)
    → ((t.dev_list i).fsh ≡ true → d.fsh ≡ true)
    → Counted t pc
    → Counted (set_device t i d) pc
set_device-Counted t i d (scanning j f e) keep c =
    (c.0, c.1, c.2, λ q. finished_below t i d j keep (c.3 q))
set_device-Counted t i d (releasing j f e) keep c =
    (c.0, λ q. finished_below t i d t.count keep (c.1 q))
set_device-Counted t i d stopped keep c = tt

pub set_device-IsValid :
    (t : Timer) (i : ℕ) (d : Device)
    → IsValid t
    → Sound t.rounds t.pc i d
    → ((t.dev_list i).fsh ≡ true → d.fsh ≡ true)
    → IsValid (set_device t i d)
set_device-IsValid t i d v s keep = record {
  devices = λ k l. elim (Bool-cases (k == i)) [
    | inl e ↦ let same : k ≡ i = ground arith in rw (e, same) s
    | inr e ↦ rw e (v.devices k l)
  ];
  counted = set_device-Counted t i d t.pc keep v.counted;
  clock = v.clock;
  halted = λ z. finished_below t i d t.count keep (v.halted z);
}
