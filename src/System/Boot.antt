-- ===== src/System/Boot.antt =====
-- The state that `main` sets up.
use os_assignment_nhom.Base.{ℕ, ◌<◌, ◌≡◌, refl, sym, arith, Option, List, [], ◌∷◌, length, All}
use mathlib.Core.List as List
use os_assignment_nhom.Base.Sums.{sum_range_zero}
use os_assignment_nhom.Queue.{max_queue_size, Proc}
use os_assignment_nhom.Queue.Refine.{live}
use os_assignment_nhom.Sched.{Sched, max_prio, init_scheduler}
use os_assignment_nhom.Sched.Operations.{init_scheduler-IsValid}
use os_assignment_nhom.Sched.Conservation.{weigh, tally, each, of_pid}
use os_assignment_nhom.Loader.{Token}
use os_assignment_nhom.Config.{Config, Entry}
use os_assignment_nhom.System.{Image, ld_process, boot}
use os_assignment_nhom.Os.Ownership.{running, busy}
use os_assignment_nhom.System.Invariant.{Running}
use os_assignment_nhom.System.Settled.{Settled}
use os_assignment_nhom.System.Steps.{Sound}

-- The arrays of the scheduler's queues have their 50 slots.
pub record Sized (s : Sched) : Type 0 where
  pub levels : (i : ℕ) → length (s.mlq_ready_queue i).proc ≡ max_queue_size
  pub running : length s.running_list.proc ≡ max_queue_size

-- The configuration names fewer than 50 processes, of priorities below 140.
pub record Small (c : Config) : Type 0 where
  pub few : length c.ld_processes < max_queue_size
  pub prios : All (λ e. e.prio < max_prio) c.ld_processes

-- A started scheduler has no process.
init_scheduler-tally : (f : Proc → ℕ) (s : Sched) → Sized s → tally f (init_scheduler s) ≡ 0
unfolding tally weigh
init_scheduler-tally f s z =
    let w = init_scheduler-IsValid s z.levels z.running in
    let t =
      sum_range_zero 0 max_prio (λ i. weigh f (live ((init_scheduler s).mlq_ready_queue i)))
        (λ i h. rw (w.1 i (omega (arith, h))) refl) in
    rw w.2 (omega (arith, t))

pub length-ld_processes :
    (files : Token → Option (List Token)) (l : List Entry)
    → length (List.map (ld_process files) l) ≡ length l
length-ld_processes files [] = refl
length-ld_processes files (e ∷ l) = omega (arith, length-ld_processes files l)

prios-ld_processes :
    (files : Token → Option (List Token)) (l : List Entry)
    → All (λ e. e.prio < max_prio) l
    → All (λ e. e.prio < max_prio) (List.map (ld_process files) l)
unfolding ld_process
prios-ld_processes files [] h = tt
prios-ld_processes files (e ∷ l) h = (h.0, prios-ld_processes files l h.1)

pub boot-Running :
    (n : ℕ) (image : Image) (files : Token → Option (List Token)) (c : Config)
    → Sized image.sched
    → Small c
    → Running n (boot image files c)
unfolding boot
boot-Running n image files c z h =
    let v = init_scheduler-IsValid image.sched z.levels z.running in
    let t = λ (f : Proc → ℕ). init_scheduler-tally f image.sched z in
    let k = length-ld_processes files c.ld_processes in
    record {
      exclusive = record {
        sched = v.0;
        room = omega (arith, t each);
        unique = λ pid. omega (arith, t (of_pid pid));
        running = λ i p l e. cc e;
        apart = λ i j p q l m ne e. cc e;
      };
      load = record {
        unborn = λ pid l. t (of_pid pid);
        room = omega (arith, t each, k, h.few);
        range = omega (arith, k, h.few);
        prios = prios-ld_processes files c.ld_processes h.prios;
        accounted = λ pid l m. absurd (omega (arith, l, m));
      };
    }

boot-Settled :
    (n : ℕ) (image : Image) (files : Token → Option (List Token)) (c : Config)
    → Sized image.sched
    → Settled n (length c.ld_processes) (boot image files c)
unfolding boot running busy weigh
boot-Settled n image files c z =
    let v = init_scheduler-IsValid image.sched z.levels z.running in
    let none_busy = sum_range_zero 0 n (λ i. 0) (λ i h. refl) in
    let k = length-ld_processes files c.ld_processes in
    record {
      owners = rw v.2 (sym none_busy);
      free = λ i e. refl;
      over = λ i e. cc e;
      done_ld = λ e. cc e;
      spent = λ e. cc e;
      born = omega (arith, k);
    }

pub boot-Sound :
    (n : ℕ) (image : Image) (files : Token → Option (List Token)) (c : Config)
    → Sized image.sched
    → Small c
    → Sound n (length c.ld_processes) (boot image files c)
boot-Sound n image files c z h = record {
  runs = boot-Running n image files c z h;
  settled = boot-Settled n image files c z;
}
