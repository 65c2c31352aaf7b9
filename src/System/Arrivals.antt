-- ===== src/System/Arrivals.antt =====
-- A new process keeps what holds of the whole program.
use os_assignment_nhom.Base.{
  ℕ, ◌+◌, ◌<◌, ◌≡◌, ◌≢◌, ap, arith, Option, some, List, ◌∷◌, ◌==◌, length, update_ne, Bool-cases,
  inl, inr,
}
use os_assignment_nhom.Base.Word.{u32}
use os_assignment_nhom.Queue.{Proc, max_queue_size}
use os_assignment_nhom.Sched.{max_prio, add_mlq_proc}
use os_assignment_nhom.Sched.Operations.{add_mlq_proc_lem}
use os_assignment_nhom.Sched.Conservation.{tally, each, of_pid, Queued-tally}
use os_assignment_nhom.Sched.Exclusion.{Exclusive, add_mlq_proc-Exclusive}
use os_assignment_nhom.Os.{Machine, LdProcess, Loading}
use os_assignment_nhom.Os.Slots.{Admitted}
use os_assignment_nhom.System.Invariant.{Loaded}

module _ (n : ℕ) (m m' : Machine) (ld : Loading) (e : LdProcess) (rest : List LdProcess)
    (held : ℕ → Option Proc) (x : Exclusive n m.krnl.sched held) (w : Loaded m ld)
    (el : ld.left ≡ e ∷ rest) (a : Admitted m ld.avail_pid e m') where
  newcomer : Proc
  newcomer = record { pid = ld.avail_pid; prio = e.prio }

  few : tally each m.krnl.sched + (length rest + 1) < max_queue_size
  few = let k = ap (λ (l : List LdProcess). length l) el in omega (arith, w.room, k)

  in_range : e.prio < max_prio
  in_range = (rw el at w.prios).0

  sched_then : m'.krnl.sched ≡ add_mlq_proc (some newcomer) m.krnl.sched
  unfolding newcomer
  sched_then = let u : u32 e.prio ≡ e.prio = omega (arith, in_range) in rw (← u) a.added

  grown : (f : Proc → ℕ) → tally f m'.krnl.sched ≡ tally f m.krnl.sched + f newcomer
  unfolding newcomer
  grown f = rw sched_then (
      Queued-tally f m.krnl.sched _ newcomer in_range (omega (arith, few))
        (add_mlq_proc_lem newcomer m.krnl.sched x.sched in_range))

  others_same :
      (pid : ℕ)
      → pid ≢ ld.avail_pid
      → tally (of_pid pid) m'.krnl.sched ≡ tally (of_pid pid) m.krnl.sched
  unfolding newcomer
  others_same pid ne =
      let z : of_pid pid newcomer ≡ 0 = ground (arith, ne) in omega (arith, grown (of_pid pid), z)

  pub Admitted-Exclusive : Exclusive n m'.krnl.sched held
  unfolding newcomer
  Admitted-Exclusive = rw sched_then (
      add_mlq_proc-Exclusive n m.krnl.sched held newcomer x in_range
        (w.unborn ld.avail_pid (omega arith)) (omega (arith, few)))

  pub Admitted-Loaded : Loaded m' (record { left = rest; avail_pid = u32 (ld.avail_pid + 1) })
  unfolding newcomer
  Admitted-Loaded =
      let k = ap (λ (l : List LdProcess). length l) el in
      let u : u32 (ld.avail_pid + 1) ≡ ld.avail_pid + 1 = omega (arith, w.range, k) in
      record {
        unborn = λ pid l.
            (let ne : pid ≢ ld.avail_pid = omega (arith, u, l) in
              omega (arith, others_same pid ne, w.unborn pid (omega (arith, u, l))));
        room = omega (arith, grown each, few);
        range = omega (arith, u, w.range, k);
        prios = (rw el at w.prios).1;
        accounted = λ pid l b. elim (Bool-cases (pid == ld.avail_pid)) [
          | inl y ↦
              let same : pid ≡ ld.avail_pid = ground arith in
              let one : of_pid pid newcomer ≡ 1 = rw same (ground arith) in
              inl (omega (arith, grown (of_pid pid), one, same, w.unborn pid (omega (arith, same))))
          | inr y ↦
              let ne : pid ≢ ld.avail_pid = ground arith in
              rw (others_same pid ne, a.blocks, update_ne m.pcbs ld.avail_pid pid a.block ne)
                (w.accounted pid l (omega (arith, b, u, ne)))
        ];
      }
