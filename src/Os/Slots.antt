-- ===== src/Os/Slots.antt =====
-- What a slot of the loader does, whatever the files hold.
use os_assignment_nhom.Base.{
  ℕ, ◌+◌, ◌≡◌, ◌⊎◌, refl, sym, ap, true, Option, none, some, List, [], ◌∷◌, ltb, update, Bool-cases,
  inl, inr,
}
use os_assignment_nhom.Base.Word.{u32}
use mathlib.Core.Path.{subst}
use os_assignment_nhom.Mm.{Region}
use os_assignment_nhom.Region.{init_mm}
use os_assignment_nhom.Kernel.{Krnl}
use os_assignment_nhom.Queue.{Proc}
use os_assignment_nhom.Sched.{add_mlq_proc}
use os_assignment_nhom.Cpu.{Inst, Pcb}
use os_assignment_nhom.Loader.{Token, Uninit, load}
use os_assignment_nhom.Loader.Fresh.{Fresh, load-Fresh}
use os_assignment_nhom.Os.{Machine, Status, waits, stops, LdProcess, Loading, admit, ld_slot}

-- The code is what `load` makes of the file under the pid.
pub record Source (file : Option (List Token)) (pid : ℕ) (code : List Inst) : Type 0 where
  pub uninit : Uninit
  pub block : Pcb
  pub priority : ℕ
  pub next : ℕ
  pub loads : load uninit pid file ≡ some (block, priority, next)
  pub same : code ≡ block.code

-- The process of entry `e` has been added to the machine under the pid `pid`, at its start and with
-- a fresh memory structure; no other process, and nothing else of the scheduler, has changed.
pub record Admitted (m : Machine) (pid : ℕ) (e : LdProcess) (m' : Machine) : Type 0 where
  pub added :
      m'.krnl.sched ≡ add_mlq_proc (some (record { pid = pid; prio = u32 e.prio })) m.krnl.sched
  pub block : Pcb
  pub at_start : block.pc ≡ 0
  pub source : Source e.file pid block.code
  pub blocks : m'.pcbs ≡ update m.pcbs pid block
  pub done : m'.done ≡ m.done
  pub free_rg : List Region
  pub memory : m'.krnl.mm ≡ update m.krnl.mm pid (init_mm free_rg)
  pub mram : m'.krnl.mram ≡ m.krnl.mram

-- The four ways in which a slot of the loader can end.
pub data Arrival (m : Machine) (ld : Loading) (r : Option (Status × Machine × Loading))
    : Type 0 where
  exits : r ≡ none → Arrival m ld r
  ends : ld.left ≡ [] → r ≡ some (stops, record m { done = true }, ld) → Arrival m ld r
  not_due : r ≡ some (waits, m, ld) → Arrival m ld r
  enters :
      (e : LdProcess) (rest : List LdProcess) (m' : Machine)
      → ld.left ≡ e ∷ rest
      → r ≡ some (waits, m', record { left = rest; avail_pid = u32 (ld.avail_pid + 1) })
      → Admitted m ld.avail_pid e m'
      → Arrival m ld r

loaded-Arrival :
    (free_rg : List Region) (m : Machine) (ld : Loading) (e : LdProcess) (rest : List LdProcess)
    (r : Pcb × ℕ × ℕ) (uninit : Uninit)
    → load uninit ld.avail_pid e.file ≡ some r
    → ld.left ≡ e ∷ rest
    → Fresh ld.avail_pid r
    → Arrival m ld (admit m rest e.prio free_rg (some r))
unfolding admit
loaded-Arrival free_rg m ld e rest (pcb, priority, next) uninit origin h f =
    let k : Krnl = record (m.krnl) { mm = update m.krnl.mm pcb.pid (init_mm free_rg) } in
    let p : Proc = record { pid = pcb.pid; prio = u32 e.prio } in
    let m' : Machine = record m {
      krnl = record k { sched = add_mlq_proc (some p) k.sched };
      pcbs = update m.pcbs pcb.pid pcb;
    } in
    enters e rest m' h (ap (λ (x : ℕ). some (waits, m', record { left = rest; avail_pid = x })) f.2)
      (record {
        added = rw f.0 refl;
        block = pcb;
        at_start = f.1;
        source = record {
          uninit = uninit;
          block = pcb;
          priority = priority;
          next = next;
          loads = origin;
          same = refl;
        };
        blocks = rw f.0 refl;
        done = refl;
        free_rg = free_rg;
        memory = rw f.0 refl;
        mram = refl;
      })

due-Arrival :
    (free_rg : List Region) (m : Machine) (ld : Loading) (e : LdProcess) (rest : List LdProcess)
    (o : Option (Pcb × ℕ × ℕ)) (uninit : Uninit)
    → load uninit ld.avail_pid e.file ≡ o
    → ld.left ≡ e ∷ rest
    → (o ≡ none) ⊎ ((r : Pcb × ℕ × ℕ) × (o ≡ some r) × Fresh ld.avail_pid r)
    → Arrival m ld (admit m rest e.prio free_rg o)
unfolding admit
due-Arrival free_rg m ld e rest none uninit origin h f = exits refl
due-Arrival free_rg m ld e rest (some r) uninit origin h (inl x) = cc x
due-Arrival free_rg m ld e rest (some r) uninit origin h (inr (r', x, f)) =
    let same : r' ≡ r = cc x in loaded-Arrival free_rg m ld e rest r uninit origin h (rw same at f)

pub ld_slot-Arrival :
    (uninit : Uninit) (free_rg : List Region) (now : ℕ) (m : Machine) (ld : Loading)
    (l : List LdProcess)
    → ld.left ≡ l
    → Arrival m ld (ld_slot uninit free_rg now m ld)
unfolding ld_slot
ld_slot-Arrival uninit free_rg now m ld [] h = ends h (rw h)
ld_slot-Arrival uninit free_rg now m ld (e ∷ rest) h = elim (Bool-cases (ltb now e.start_time)) [
  | inl t ↦ not_due (rw (h, t))
  | inr t ↦
      let due : ld_slot uninit free_rg now m ld
          ≡ admit m rest e.prio free_rg (load uninit ld.avail_pid e.file) =
        rw (h, t) in
      subst (λ r. Arrival m ld r) (sym due)
        (due-Arrival free_rg m ld e rest _ uninit refl h (load-Fresh uninit ld.avail_pid e.file))
]
