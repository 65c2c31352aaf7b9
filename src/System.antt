-- ===== src/System.antt =====
-- ossim_lamiaatrium/src/os.c: `main` and the program as a whole. `main` reads the configuration, sets the
-- devices, the scheduler and the threads up and waits for them. A step below is one slot of one of
-- the threads, taken whole and at any time: the timer (Timer.antt) only lines the slots up. Slots that
-- overlap are in System/Interleaving.antt, as far as the scheduler goes. `setbuf`, the
-- usage message and joining the threads have no part in the state.
pub mod Boot
pub mod Invariant
pub mod Arrivals
pub mod Settled
pub mod Steps
pub mod Origins
pub mod Interleaving
pub mod Safety
pub mod Frames
pub mod Examples
pub mod FrameExamples
pub mod InterleavingExamples
use os_assignment_nhom.Base.{
  ℕ, suc, ◌<◌, ◌≡◌, Bool, true, false, Option, none, some, List, [], ◌∷◌, update, if◌then◌else◌,
  ltb,
}
use mathlib.Core.Option.{map}
use mathlib.Core.List as List
use os_assignment_nhom.Mm.{Mm, Region}
use os_assignment_nhom.Memphy.{Memphy, init_memphy}
use os_assignment_nhom.Sched.{Sched, init_scheduler}
use os_assignment_nhom.Cpu.{Pcb}
use os_assignment_nhom.Loader.{Token, Uninit}
use os_assignment_nhom.Config.{Config, Entry}
use os_assignment_nhom.Os.{
  Machine, Thread, Status, waits, stops, LdProcess, Loading, cpu_slot, ld_slot,
}

-- The state of the program: what is shared, the locals of every thread, and which have ended.
pub record System : Type 0 where
  pub machine : Machine
  pub threads : ℕ → Thread
  pub stopped : ℕ → Bool
  pub loading : Loading
  pub ld_stopped : Bool

-- What the memory of the program holds before `main`; `fifo` is what is left in a new free list node.
pub record Image : Type 0 where
  pub sched : Sched
  pub mm : ℕ → Mm
  pub pcbs : ℕ → Pcb
  pub mram : Memphy
  pub mswp : ℕ → Memphy
  pub uninit : List ℕ

-- `for (sit = 0; sit < PAGING_MAX_MMSWP; sit++) init_memphy(&mswp[sit], memswpsz[sit], rdmflag);`
pub init_mswp : List ℕ → ℕ → (ℕ → Memphy) → List ℕ → (ℕ → Memphy)
init_mswp uninit sit mswp [] = mswp
init_mswp uninit sit mswp (size ∷ sizes) =
    init_mswp uninit (suc sit) (update mswp sit (init_memphy uninit (mswp sit) size true)) sizes

-- The loader's view of an entry of the configuration, with the files below input/proc/.
pub ld_process : (Token → Option (List Token)) → Entry → LdProcess
ld_process files e = record { file = files e.path; start_time = e.start_time; prio = e.prio }

-- `main` up to the threads it creates: each starts with no process and no time left.
pub boot : Image → (Token → Option (List Token)) → Config → System
unfolding init_mswp ld_process
boot image files c = record {
  machine = record {
    krnl = record {
      sched = init_scheduler image.sched;
      mm = image.mm;
      mram = init_memphy image.uninit image.mram c.memramsz true;
      active_mswp = init_mswp image.uninit 0 image.mswp c.memswpsz 0;
    };
    pcbs = image.pcbs;
    done = false;
    time_slot = c.time_slot;
  };
  threads = λ i. record { proc = none; time_left = 0 };
  stopped = λ i. false;
  loading = record { left = List.map (ld_process files) c.ld_processes; avail_pid = 1 };
  ld_stopped = false;
}

unfoldable pub has_stopped : Status → Bool
has_stopped waits = false
has_stopped stops = true

-- A slot of CPU `i`.
pub cpu_turn : (ℕ → ℕ) → ℕ → System → System
unfolding has_stopped
cpu_turn junk i s =
    let r = cpu_slot junk s.machine (s.threads i).time_left (s.threads i).proc in
    record s {
      machine = r.1;
      threads = update s.threads i r.2;
      stopped = update s.stopped i (has_stopped r.0);
    }

-- What a slot of the loader makes of the program.
unfoldable pub ld_result : System → Status × Machine × Loading → System
unfolding has_stopped
ld_result s r = record s { machine = r.1; loading = r.2; ld_stopped = has_stopped r.0 }

-- A slot of the loader at time `now`; `none` where the program exits.
pub ld_turn : Uninit → List Region → ℕ → System → Option System
unfolding ld_result
ld_turn uninit free_rg now s = map (ld_result s) (ld_slot uninit free_rg now s.machine s.loading)

-- One slot of one of `n` CPUs, or of the loader, that has not ended. What is uninitialised at that
-- time, and the time, are any.
pub data Turn (n : ℕ) (s : System) : System → Type 0 where
  cpu : (junk : ℕ → ℕ) (i : ℕ) → i < n → s.stopped i ≡ false → Turn n s (cpu_turn junk i s)
  ld :
      (uninit : Uninit) (free_rg : List Region) (now : ℕ) {t : System}
      → s.ld_stopped ≡ false
      → ld_turn uninit free_rg now s ≡ some t
      → Turn n s t

-- What the `n` CPUs and the loader make of the state `b`.
pub data Reach (n : ℕ) (b : System) : System → Type 0 where
  start : Reach n b b
  later : {s t : System} → Reach n b s → Turn n s t → Reach n b t
