-- ===== src/System/Settled.antt =====
-- What more holds of the whole program as its threads end.
use os_assignment_nhom.Base.{
  ℕ, ◌+◌, ◌<◌, ◌≡◌, refl, sym, ap, ◌∙◌, arith, true, false, Option, none, some, List, [], ◌∷◌, ◌==◌,
  length, Bool-cases, inl, inr,
}
use mathlib.Core.Option.{map}
use os_assignment_nhom.Base.Word.{u32}
use os_assignment_nhom.Queue.{Proc}
use os_assignment_nhom.Sched.{max_prio}
use os_assignment_nhom.Sched.Operations.{add_mlq_proc_lem}
use os_assignment_nhom.Os.{Machine, Thread, Status, waits, stops, LdProcess, Loading, cpu_slot}
use os_assignment_nhom.Os.Slots.{Admitted, Arrival, exits, ends, not_due, enters}
use os_assignment_nhom.Os.Dispatching.{AllEmpty}
use os_assignment_nhom.Os.Exclusion.{update_proc}
use os_assignment_nhom.Os.Ownership.{busy, running, cpu_slot-busy}
use os_assignment_nhom.Os.Empty.{cpu_slot-AllEmpty, cpu_slot-Stops, cpu_slot-done}
use os_assignment_nhom.System.{System, has_stopped, cpu_turn, ld_result}
use os_assignment_nhom.System.Invariant.{held, Running}

-- The running list is what the CPUs hold. A CPU that has ended holds nothing, and then the loader
-- has ended and no process waits. When the loader has ended, all `total` entries have been taken up.
pub record Settled (n total : ℕ) (s : System) : Type 0 where
  pub owners : running s.machine.krnl.sched ≡ busy n (held s)
  pub free : (i : ℕ) → s.stopped i ≡ true → held s i ≡ none
  pub over : (i : ℕ) → s.stopped i ≡ true → (s.ld_stopped ≡ true) × AllEmpty s.machine.krnl.sched
  pub done_ld : s.machine.done ≡ true → s.ld_stopped ≡ true
  pub spent : s.ld_stopped ≡ true → s.loading.left ≡ []
  pub born : s.loading.avail_pid + length s.loading.left ≡ total + 1

stops_of : (x : Status) → has_stopped x ≡ true → x ≡ stops
unfolding has_stopped
stops_of waits e = cc e
stops_of stops e = refl

pub cpu_turn-Settled :
    (junk : ℕ → ℕ) (n total i : ℕ) (s : System)
    → i < n
    → Running n s
    → Settled n total s
    → Settled n total (cpu_turn junk i s)
unfolding cpu_turn
cpu_turn-Settled junk n total i s h r w =
    let t : Thread = s.threads i in
    let m : Machine = s.machine in
    let next : Status × Machine × Thread = cpu_slot junk m t.time_left t.proc in
    let v = r.exclusive.sched in
    let k = λ (p : Proc) (e : t.proc ≡ some p). (r.exclusive.running i p h e).1 in
    let d = cpu_slot-done junk m t.time_left t.proc in
    let last = λ (e : has_stopped next.0 ≡ true).
      cpu_slot-Stops junk m t.time_left t.proc v k (stops_of next.0 e) in
    record {
      owners =
          rw (update_proc s.threads i next.2)
            (cpu_slot-busy junk n i (held s) h m t.time_left t.proc refl r.exclusive w.owners);
      free = λ j e. elim (Bool-cases (j == i)) [
        | inl y ↦ rw (y, held) (last (rw y at e)).proc
        | inr y ↦ rw (y, held) (w.free j (rw y at e))
      ];
      over = λ j e. elim (Bool-cases (j == i)) [
        | inl y ↦ let z = last (rw y at e) in (w.done_ld z.ended, z.waiting)
        | inr y ↦
            let z = w.over j (rw y at e) in
            (z.0, cpu_slot-AllEmpty junk m t.time_left t.proc v k z.1)
      ];
      done_ld = λ e. w.done_ld (sym d ∙ e);
      spent = w.spent;
      born = w.born;
    }

-- While the loader works no CPU has ended.
not_over :
    (n total : ℕ) (s : System) (i : ℕ) {A : Type 0}
    → Settled n total s
    → s.ld_stopped ≡ false
    → s.stopped i ≡ true
    → A
not_over n total s i w e h = cc ((w.over i h).0, e)

Admitted-Settled :
    (n total : ℕ) (s : System) (e : LdProcess) (rest : List LdProcess) (m' : Machine)
    → Running n s
    → Settled n total s
    → s.ld_stopped ≡ false
    → s.loading.left ≡ e ∷ rest
    → Admitted s.machine s.loading.avail_pid e m'
    → Settled n total
        (ld_result s (waits, m', record { left = rest; avail_pid = u32 (s.loading.avail_pid + 1) }))
unfolding ld_result has_stopped running
Admitted-Settled n total s e rest m' r w z l a =
    let k = ap (λ (x : List LdProcess). length x) l in
    let u : u32 (s.loading.avail_pid + 1) ≡ s.loading.avail_pid + 1 =
      omega (arith, r.load.range, k) in
    let prio : e.prio < max_prio = (rw l at r.load.prios).0 in
    let same : u32 e.prio ≡ e.prio = omega (arith, prio) in
    let q =
      add_mlq_proc_lem (record { pid = s.loading.avail_pid; prio = u32 e.prio })
        s.machine.krnl.sched r.exclusive.sched (omega (arith, same, prio)) in
    record {
      owners = rw (a.added, q.running_list) w.owners;
      free = w.free;
      over = λ i h. not_over n total s i w z h;
      done_ld = λ h. cc (w.done_ld (sym a.done ∙ h), z);
      spent = λ h. cc h;
      born = omega (arith, u, k, w.born);
    }

pub Arrival-Settled :
    (n total : ℕ) (s t : System) (r : Option (Status × Machine × Loading))
    → Running n s
    → Settled n total s
    → s.ld_stopped ≡ false
    → Arrival s.machine s.loading r
    → map (ld_result s) r ≡ some t
    → Settled n total t
unfolding ld_result has_stopped
Arrival-Settled n total s t r v w z (exits e) h = cc (rw e at h)
Arrival-Settled n total s t r v w z (ends l e) h =
    let same : ld_result s (stops, record (s.machine) { done = true }, s.loading) ≡ t =
      cc (rw e at h) in
    rw (← same) (record {
      owners = w.owners;
      free = w.free;
      over = λ i y. not_over n total s i w z y;
      done_ld = λ y. refl;
      spent = λ y. l;
      born = w.born;
    })
Arrival-Settled n total s t r v w z (not_due e) h =
    let same : ld_result s (waits, s.machine, s.loading) ≡ t = cc (rw e at h) in
    rw (← same) (record {
      owners = w.owners;
      free = w.free;
      over = λ i y. not_over n total s i w z y;
      done_ld = λ y. cc (w.done_ld y, z);
      spent = λ y. cc y;
      born = w.born;
    })
Arrival-Settled n total s t r v w z (enters e rest m' l eq a) h =
    let ld' : Loading = record { left = rest; avail_pid = u32 (s.loading.avail_pid + 1) } in
    let same : ld_result s (waits, m', ld') ≡ t = cc (rw eq at h) in
    rw (← same) (Admitted-Settled n total s e rest m' v w z l a)
