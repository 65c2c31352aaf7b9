-- ===== src/Os/Rounds.antt =====
-- The loop of a CPU: its invariant, how it runs a process to the end, and how it idles.
use os_assignment_nhom.Base.{
  ℕ, zero, suc, ◌+◌, ◌-◌, ◌^◌, ◌<◌, ◌≤◌, ◌≡◌, ◌≢◌, refl, sym, arith, false, Option, none, some,
  ◌==◌, if◌then◌else◌, length, Bool-cases, inl, inr,
}
use mathlib.Core.Path.{subst}
use os_assignment_nhom.Base.Word.{u32}
use os_assignment_nhom.Queue.{Proc}
use os_assignment_nhom.Sched.{Sched, max_prio}
use os_assignment_nhom.Sched.Invariant.{IsValid}
use os_assignment_nhom.Sched.Operations.{put_mlq_proc_lem, finish_proc_lem}
use os_assignment_nhom.Cpu.Isolation.{run-sched}
use os_assignment_nhom.Os.{
  Machine, Thread, Status, with_sched, exec, idle_with, switch_to, cpu_slot,
}
use os_assignment_nhom.Os.Branches.{cpu_slot_finishes, cpu_slot_preempts, cpu_slot_goes_on}
use os_assignment_nhom.Os.Dispatching.{get_mlq_proc-InRange}

-- The scheduler's state is valid, the process held has a priority in range, no more time is left
-- than one slot, and none without a process.
pub record Sound (m : Machine) (t : Thread) : Type 0 where
  pub sched : IsValid m.krnl.sched
  pub prio : (p : Proc) → t.proc ≡ some p → p.prio < max_prio
  pub slice : t.time_left ≤ m.time_slot
  pub unused : t.proc ≡ none → t.time_left ≡ 0

-- The time left after a round, which never passes 0.
left_after :
    (slot left : ℕ)
    → 0 < slot
    → slot < 2 ^ 31
    → left ≤ slot
    → u32 ((if left == 0 then slot else left) + (2 ^ 32 - 1)) < slot
left_after slot left h k l = elim (Bool-cases (left == 0)) [
  | inl e ↦ rw e (omega (arith, h, k))
  | inr e ↦ let ne : left ≢ 0 = ground arith in rw e (omega (arith, ne, k, l))
]

exec-Sound :
    (junk : ℕ → ℕ) (m : Machine) (left : ℕ) (p : Proc)
    → IsValid m.krnl.sched
    → p.prio < max_prio
    → 0 < m.time_slot
    → m.time_slot < 2 ^ 31
    → left ≤ m.time_slot
    → let r = exec junk m left p in
      Sound r.1 r.2 × (r.2.time_left < m.time_slot) × (r.1.time_slot ≡ m.time_slot)
unfolding exec
exec-Sound junk m left p v l h k s =
    let b = left_after m.time_slot left h k s in
    (
      record {
        sched = rw (run-sched junk m.krnl (m.pcbs p.pid)) v;
        prio = λ q e. (let same : p ≡ q = cc e in rw (← same) l);
        slice = omega (arith, b);
        unused = λ e. cc e;
      },
      b,
      refl,
    )

-- What a round may leave: everything in order, and less than a full slot left.
abbrev pub Kept : ℕ → Status × Machine × Thread → Type 0
Kept slot r = Sound r.1 r.2 × (r.2.time_left < slot) × (r.1.time_slot ≡ slot)

idle_with-Sound :
    (junk : ℕ → ℕ) (m : Machine) (o : Option Proc) (s : Sched)
    → IsValid s
    → ((p : Proc) → o ≡ some p → p.prio < max_prio)
    → 0 < m.time_slot
    → m.time_slot < 2 ^ 31
    → Kept m.time_slot (idle_with junk m 0 (o, s))
unfolding idle_with
idle_with-Sound junk m none s v l h k =
    (record { sched = v; prio = λ p e. cc e; slice = omega arith; unused = λ _. refl }, h, refl)
idle_with-Sound junk m (some p) s v l h k =
    exec-Sound junk (with_sched m s) 0 p v (l p refl) h k (omega arith)

switch_to-Sound :
    (junk : ℕ → ℕ) (m : Machine) (o : Option Proc) (s : Sched)
    → IsValid s
    → ((p : Proc) → o ≡ some p → p.prio < max_prio)
    → 0 < m.time_slot
    → m.time_slot < 2 ^ 31
    → Kept m.time_slot (switch_to junk m 0 (o, s))
unfolding switch_to
switch_to-Sound junk m none s v l h k =
    (record { sched = v; prio = λ p e. cc e; slice = omega arith; unused = λ _. refl }, h, refl)
switch_to-Sound junk m (some p) s v l h k =
    exec-Sound junk (with_sched m s) 0 p v (l p refl) h k (omega arith)

-- A round of a CPU keeps the scheduler's invariant and the CPU's own: whatever it does, of a slot
-- of between 1 and 2^31 - 1 rounds less than the whole is left afterwards, so the counter never
-- wraps round below 0, and a process that it holds has a priority in range.
pub cpu_slot-Kept :
    (junk : ℕ → ℕ) (m : Machine) (left : ℕ) (o : Option Proc)
    → Sound m (record { proc = o; time_left = left })
    → 0 < m.time_slot
    → m.time_slot < 2 ^ 31
    → Kept m.time_slot (cpu_slot junk m left o)
unfolding cpu_slot
cpu_slot-Kept junk m left none s h k =
    let g = get_mlq_proc-InRange m.krnl.sched s.sched in
    rw (s.unused refl) (idle_with-Sound junk m _ _ g.0 g.1 h k)
cpu_slot-Kept junk m left (some p) s h k =
    elim (Bool-cases ((m.pcbs p.pid).pc == length (m.pcbs p.pid).code)) [
      | inl e ↦
          let g = get_mlq_proc-InRange _ (finish_proc_lem p m.krnl.sched s.sched).2 in
          subst (λ r. Kept m.time_slot r) (sym (cpu_slot_finishes junk m left p e))
            (switch_to-Sound junk m _ _ g.0 g.1 h k)
      | inr e ↦ held_on left e s
    ]
  where
    held_on :
        (left : ℕ)
        → ((m.pcbs p.pid).pc == length (m.pcbs p.pid).code) ≡ false
        → Sound m (record { proc = some p; time_left = left })
        → Kept m.time_slot (cpu_slot junk m left (some p))
    held_on zero e s =
        let q = (put_mlq_proc_lem p m.krnl.sched s.sched (s.prio p refl)).1 in
        let g = get_mlq_proc-InRange _ q.valid in
        subst (λ r. Kept m.time_slot r) (sym (cpu_slot_preempts junk m p e))
          (switch_to-Sound junk m _ _ g.0 g.1 h k)
    held_on (suc n) e s =
        subst (λ r. Kept m.time_slot r) (sym (cpu_slot_goes_on junk m n p e))
          (exec-Sound junk m (suc n) p s.sched (s.prio p refl) h k s.slice)
