-- ===== src/Os/Arrival.antt =====
-- The loader thread: what a due entry of the configuration becomes.
use os_assignment_nhom.Base.{
  ℕ, ◌+◌, ◌^◌, ◌<◌, ◌≤◌, ◌≡◌, ◌≢◌, refl, sym, arith, false, some, List, ◌∷◌, ltb, update,
  update_self, update_ne, length, All,
}
use os_assignment_nhom.Base.Word.{u32}
use os_assignment_nhom.Mm.{Region}
use os_assignment_nhom.Region.{init_mm}
use os_assignment_nhom.Queue.{Proc}
use os_assignment_nhom.Sched.{max_prio, add_mlq_proc}
use os_assignment_nhom.Sched.Invariant.{IsValid}
use os_assignment_nhom.Sched.Operations.{Queued, add_mlq_proc_lem}
use os_assignment_nhom.Cpu.{Inst, Pcb}
use os_assignment_nhom.Loader.{Uninit}
use os_assignment_nhom.Loader.Print.{print_program, filled_from, InRange, load-print_program}
use os_assignment_nhom.Os.{Machine, waits, LdProcess, Loading, admit, ld_slot}

-- The process of pid `pid` and priority `prio` has entered the machine with this code, at its
-- start and with the memory that `init_mm` makes; the others are as they were.
pub record Entered (m : Machine) (pid prio : ℕ) (code : List Inst) (uninit : List Region)
    (m' : Machine) : Type 0 where
  pub queued : Queued m.krnl.sched (record { pid = pid; prio = prio }) m'.krnl.sched
  pub code_of : (m'.pcbs pid).code ≡ code
  pub pid_of : (m'.pcbs pid).pid ≡ pid
  pub start : (m'.pcbs pid).pc ≡ 0
  pub memory : m'.krnl.mm pid ≡ init_mm uninit
  pub others : (i : ℕ) → i ≢ pid → (m'.pcbs i ≡ m.pcbs i) × (m'.krnl.mm i ≡ m.krnl.mm i)
  pub mram : m'.krnl.mram ≡ m.krnl.mram
  pub active_mswp : m'.krnl.active_mswp ≡ m.krnl.active_mswp
  pub done : m'.done ≡ m.done

admit-Entered :
    (m : Machine) (rest : List LdProcess) (prio priority next : ℕ) (uninit : List Region)
    (pcb : Pcb)
    → IsValid m.krnl.sched
    → prio < max_prio
    → pcb.pc ≡ 0
    → (m' : Machine) × (admit m rest prio uninit (some (pcb, priority, next))
        ≡ some (waits, m', record { left = rest; avail_pid = next }))
      × Entered m pcb.pid prio pcb.code uninit m'
unfolding admit
admit-Entered m rest prio priority next uninit pcb v h z =
    let u : u32 prio ≡ prio = omega (arith, h) in
    let p : Proc = record { pid = pcb.pid; prio = prio } in
    let q = add_mlq_proc_lem p m.krnl.sched v h in
    let s : pcb ≡ update m.pcbs pcb.pid pcb pcb.pid = sym (update_self m.pcbs pcb.pid pcb) in
    let m' : Machine = record m {
      krnl = record (m.krnl) {
        mm = update m.krnl.mm pcb.pid (init_mm uninit);
        sched = add_mlq_proc (some p) m.krnl.sched;
      };
      pcbs = update m.pcbs pcb.pid pcb;
    } in
    (
      m',
      rw u,
      record {
        queued = q;
        code_of = rw (← s) refl;
        pid_of = rw (← s) refl;
        start = rw (← s) z;
        memory = update_self m.krnl.mm pcb.pid (init_mm uninit);
        others = λ i ne.
            (update_ne m.pcbs pcb.pid i pcb ne, update_ne m.krnl.mm pcb.pid i (init_mm uninit) ne);
        mram = refl;
        active_mswp = refl;
        done = refl;
      },
    )

-- At the start time of the next entry of the configuration, or later, the loader takes that entry
-- up: if its file is the text of a program, a process enters the machine under the next pid, with
-- that program and at its start, with a memory of its own, queued at the end of the level of the
-- entry's priority (if 50 wait there already, it is in no queue); the loader goes on to the entries left and to the pid after it.
pub ld_slot-Entered :
    (uninit : Uninit) (free_rg : List Region) (now prio : ℕ) (m : Machine) (ld : Loading)
    (e : LdProcess) (rest : List LdProcess) (l : List Inst)
    → IsValid m.krnl.sched
    → ld.left ≡ e ∷ rest
    → e.start_time ≤ now
    → e.prio < max_prio
    → e.file ≡ some (print_program prio l)
    → prio < 2 ^ 32
    → length l < 2 ^ 32
    → All InRange l
    → (m' : Machine) × (ld_slot uninit free_rg now m ld
        ≡ some (waits, m', record { left = rest; avail_pid = u32 (ld.avail_pid + 1) }))
      × Entered m ld.avail_pid e.prio (filled_from 0 uninit.inst l) free_rg m'
unfolding ld_slot
ld_slot-Entered uninit free_rg now prio m ld e rest l v el due h f p n r =
    let t : ltb now e.start_time ≡ false = ground arith in
    let pcb : Pcb = record {
      pid = ld.avail_pid;
      code = filled_from 0 uninit.inst l;
      regs = uninit.regs;
      pc = 0;
    } in
    let w = admit-Entered m rest e.prio prio (u32 (ld.avail_pid + 1)) free_rg pcb v h refl in
    let o = load-print_program uninit ld.avail_pid prio l r n p in (w.0, rw (el, t, f, o) w.1, w.2)
