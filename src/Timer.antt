-- ===== src/Timer.antt =====
-- ossim_lamiaatrium/src/timer.c: the barrier that moves the threads from one time slot to the next. A
-- device is a thread with its two flags; each step below is what one thread does while it holds a
-- lock, so a schedule of steps is an interleaving of the threads. The signals only wake waiters,
-- whose conditions are the guards of the steps. `attach_event` puts a device at the head of the
-- list: device `i` is the one at place `i`. `passed` and `rounds` count, for the proofs, the slots
-- that a thread has left behind and the increments of `_time`.
pub mod Barrier
pub mod Rounds
pub mod Reach
pub mod Lockstep
use os_assignment_nhom.Base.{
  ℕ, zero, suc, ◌+◌, ◌-◌, ◌<◌, ◌≡◌, Bool, true, false, not, ◌&&◌, ◌||◌, Option, none, some, ltb,
  ◌==◌, if◌then◌else◌, update,
}
use os_assignment_nhom.Base.Word.{u64}

-- `timer_id_t`, and where its thread is: `waiting` inside `next_slot`, after its first half.
pub record Device : Type 0 where
  pub done : Bool
  pub fsh : Bool
  pub waiting : Bool
  pub passed : ℕ

-- Where the timer thread is: the place in the list, and the counts `fsh` and `event`.
pub data Pc : Type 0 where
  scanning : ℕ → ℕ → ℕ → Pc
  releasing : ℕ → ℕ → ℕ → Pc
  stopped : Pc

pub record Timer : Type 0 where
  pub count : ℕ
  pub dev_list : ℕ → Device
  pub time : ℕ
  pub rounds : ℕ
  pub timer_started : Bool
  pub timer_stop : Bool
  pub pc : Pc

-- The statics of the program.
abbrev pub initial : Timer
initial = record {
  count = 0;
  dev_list = λ _. record { done = false; fsh = false; waiting = false; passed = 0 };
  time = 0;
  rounds = 0;
  timer_started = false;
  timer_stop = false;
  pc = stopped;
}

-- A device with its flags down at the head of the list.
abbrev pub with_fresh : Timer → Timer
with_fresh t =
    let fresh : Device = record { done = false; fsh = false; waiting = false; passed = 0 } in
    record t { count = t.count + 1; dev_list = λ i. if i == 0 then fresh else t.dev_list (i - 1) }

-- `attach_event`: NULL once the timer runs.
unfoldable pub attach_event : Timer → Option Timer
attach_event t = if t.timer_started then none else some (with_fresh t)

-- Where a round of the timer starts: the test of `while (!timer_stop)`.
unfoldable pub next_round : Bool → Pc
next_round stop = if stop then stopped else scanning 0 0 0

unfoldable pub start_timer : Timer → Timer
unfolding next_round
start_timer t = record t { timer_started = true; pc = next_round t.timer_stop }

abbrev pub set_device : Timer → ℕ → Device → Timer
set_device t i d = record t { dev_list = update t.dev_list i d }

-- The first half of `next_slot`, by a thread that is at work.
unfoldable pub enter_slot : Device → Device
enter_slot d = record d { done = true; waiting = true }

-- The second half, when `done` has been reset.
unfoldable pub leave_slot : Device → Device
leave_slot d = record d { waiting = false; passed = d.passed + 1 }

-- `detach_event`, after which the thread ends.
unfoldable pub detach_event : Device → Device
detach_event d = record d { fsh = true }

-- The wait of the timer for the device at one place; `none` while it has to wait.
unfoldable pub scan : Device → ℕ → ℕ → ℕ → Option Pc
scan d i fsh event =
    if d.done || d.fsh
    then some (scanning (i + 1) (if d.fsh then fsh + 1 else fsh) (event + 1))
    else none

-- What follows the last release: the `break` or the test of the loop.
unfoldable pub after_release : Bool → ℕ → ℕ → Pc
unfolding next_round
after_release stop fsh event = if fsh == event then stopped else next_round stop

-- One step of `timer_routine`; `none` where the thread waits or has ended.
pub timer_step : Timer → Pc → Option Timer
unfolding scan after_release
timer_step t (scanning i fsh event) =
    if ltb i t.count
    then (elim (scan (t.dev_list i) i fsh event) [
      | none ↦ none
      | some pc ↦ some (record t { pc = pc })
    ])
    else some
        (record t { time = u64 (t.time + 1); rounds = t.rounds + 1; pc = releasing 0 fsh event })
timer_step t (releasing i fsh event) =
    if ltb i t.count
    then some (record t {
      dev_list = update t.dev_list i (record (t.dev_list i) { done = false });
      pc = releasing (i + 1) fsh event;
    })
    else some (record t { pc = after_release t.timer_stop fsh event })
timer_step t stopped = none

-- One step of one of the threads. `main` stops the timer once it has joined the threads of all
-- devices.
pub data Step : Timer → Timer → Type 0 where
  enter :
      (t : Timer) (i : ℕ)
      → i < t.count
      → (t.dev_list i).fsh ≡ false
      → (t.dev_list i).waiting ≡ false
      → Step t (set_device t i (enter_slot (t.dev_list i)))
  leave :
      (t : Timer) (i : ℕ)
      → i < t.count
      → (t.dev_list i).waiting ≡ true
      → (t.dev_list i).done ≡ false
      → Step t (set_device t i (leave_slot (t.dev_list i)))
  detach :
      (t : Timer) (i : ℕ)
      → i < t.count
      → (t.dev_list i).fsh ≡ false
      → (t.dev_list i).waiting ≡ false
      → Step t (set_device t i (detach_event (t.dev_list i)))
  tick : (t t' : Timer) → timer_step t t.pc ≡ some t' → Step t t'
  stop :
      (t : Timer)
      → ((i : ℕ) → i < t.count → (t.dev_list i).fsh ≡ true)
      → Step t (record t { timer_stop = true })

-- What `main` has after a call of `attach_event`, whose result it does not look at.
unfoldable pub after_attach : Timer → Option Timer → Timer
after_attach t none = t
after_attach t (some t') = t'

-- `n` calls of `attach_event` at the start of the program.
unfoldable pub attach_all : ℕ → Timer
unfolding attach_event after_attach
attach_all zero = initial
attach_all (suc n) = after_attach (attach_all n) (attach_event (attach_all n))

-- The states that the threads can bring about from a start with `n` devices.
pub data Reachable (n : ℕ) : Timer → Type 0 where
  started : Reachable n (start_timer (attach_all n))
  stepped : {t t' : Timer} → Reachable n t → Step t t' → Reachable n t'
