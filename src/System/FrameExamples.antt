-- ===== src/System/FrameExamples.antt =====
-- The frames of the RAM under a program whose one process allocates memory.
use os_assignment_nhom.Base.{◌≡◌, refl, arith, true, false, Option, some, List, [], ◌∷◌}
use os_assignment_nhom.Region.{init_mm}
use os_assignment_nhom.Region.Tables.{init_mm-IsBlank}
use os_assignment_nhom.Kernel.Ownership.{FramesOwned}
use os_assignment_nhom.Examples.{ram, swap_device}
use os_assignment_nhom.Sched.Examples.{zeroed}
use os_assignment_nhom.Memphy.{format, frames_from, init_memphy}
use os_assignment_nhom.Queue.{empty, enqueue, dequeue, shift_down}
use os_assignment_nhom.Sched.{
  get_mlq_proc, dispatch, serve, add_mlq_proc, enqueue_ready, init_scheduler, refill,
}
use os_assignment_nhom.Loader.{Token, word, num, line_end, opt_alloc, load, get_opcode}
use os_assignment_nhom.LoadExamples.{zeroes}
use os_assignment_nhom.Config.{Config}
use os_assignment_nhom.Os.{ld_slot}
use os_assignment_nhom.System.{System, Image, boot, cpu, ld, ld_turn}
use os_assignment_nhom.System.Frames.{Roomy, start, later, unshared}
use os_assignment_nhom.System.Examples.{goes_on, load_next, turn_of, some-after}

-- The program's file holds `alloc 300 0`.
abbrev alloc_file : List Token
alloc_file = num 1 ∷ num 1 ∷ line_end ∷ word opt_alloc ∷ num 300 ∷ num 0 ∷ []

abbrev alloc_files : Token → Option (List Token)
alloc_files path = some alloc_file

abbrev image : Image
image = record {
  sched = zeroed;
  mm = λ _. init_mm [];
  pcbs = λ _. record { pid = 0; code = []; regs = λ _. 0; pc = 0 };
  mram = ram;
  mswp = λ _. swap_device;
  uninit = [];
}

-- A RAM of two pages.
abbrev config : Config
config = record {
  time_slot = 2;
  num_cpus = 1;
  num_processes = 1;
  memramsz = 8192;
  memswpsz = 8192 ∷ 0 ∷ 0 ∷ 0 ∷ [];
  ld_processes = record { start_time = 0; path = word []; prio = 5 } ∷ [];
}

abbrev started : System
started = boot image alloc_files config

abbrev loaded : System
loaded = load_next started

-- Both frames are free until the process runs.
record Frees : Type 0 where
  working : started.ld_stopped ≡ false
  loads : goes_on (ld_turn zeroes [] 0 started) ≡ true
  all_free : started.machine.krnl.mram.free_fp_list ≡ 0 ∷ 1 ∷ []
  still_free : loaded.machine.krnl.mram.free_fp_list ≡ 0 ∷ 1 ∷ []
  idle : loaded.stopped 0 ≡ false

frees : Frees
unfolding ld_turn boot init_memphy format frames_from ld_slot load get_opcode get_mlq_proc dispatch
    serve empty add_mlq_proc enqueue_ready init_scheduler refill enqueue dequeue shift_down
frees = record { working = refl; loads = refl; all_free = refl; still_free = refl; idle = refl }

-- The loader runs, and then the CPU.
allocated-Roomy : Roomy 1 started (turn_of 0 loaded)
allocated-Roomy =
    later 0 (1 ∷ [])
      (later 0 (1 ∷ []) start frees.all_free
        (ld zeroes [] 0 frees.working (some-after _ _ frees.loads)))
      frees.still_free (cpu (λ _. 0) 0 (omega arith) frees.idle)

unshared_example : FramesOwned (turn_of 0 loaded).machine.krnl
unshared_example =
    unshared image alloc_files config (λ _. init_mm-IsBlank []) (omega arith) (omega arith)
      allocated-Roomy
