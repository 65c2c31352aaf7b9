-- ===== src/System/Safety.antt =====
-- What the whole program promises, from its start and in any order of its threads.
use os_assignment_nhom.Base.{
  ℕ, All, ◌^◌, ◌++◌, ◌+◌, sym, length-append, ◌<◌, ◌≤◌, ◌≡◌, ◌⊎◌, refl, ap, ◌∙◌, arith, true,
  Option, some, List, [], ◌∷◌, length, inl, inr,
}
use os_assignment_nhom.Base.Sums.{sum_range_zero}
use os_assignment_nhom.Queue.Refine.{live}
use os_assignment_nhom.Sched.{max_prio}
use os_assignment_nhom.Os.{LdProcess}
use os_assignment_nhom.Os.Ownership.{holds, running, busy}
use os_assignment_nhom.System.Settled.{Settled}
use os_assignment_nhom.Queue.{Proc}
use os_assignment_nhom.Sched.Conservation.{weigh, tally, each, of_pid}
use os_assignment_nhom.Loader.{Token, Uninit, load}
use os_assignment_nhom.Loader.Print.{print_program, filled_from, InRange, load-print_program}
use os_assignment_nhom.Config.{Config, Entry}
use os_assignment_nhom.System.{System, Image, ld_process, boot, Reach}
use os_assignment_nhom.System.Invariant.{held}
use os_assignment_nhom.System.Boot.{Sized, Small, boot-Sound, length-ld_processes}
use os_assignment_nhom.System.Origins.{Traced, Reach-Traced, Origins-Source}
use mathlib.Core.List as List
use mathlib.Core.List.{append-nil}
use os_assignment_nhom.Cpu.{Inst, Pcb}
use os_assignment_nhom.Os.Slots.{Source}
use os_assignment_nhom.System.Steps.{Reach-Sound}

-- No process is lost: from the start on a configuration of fewer than 50 processes, of priorities
-- below 140, in any state that the slots of the threads, in any order, come to, each process that
-- the loader has created is just once among the ready and the running ones, or is in no queue
-- any more and has run to the end of its code.
pub nothing_lost :
    {s : System} (image : Image) (files : Token → Option (List Token)) (c : Config) (pid : ℕ)
    → Sized image.sched
    → Small c
    → Reach c.num_cpus (boot image files c) s
    → 1 ≤ pid
    → pid < s.loading.avail_pid
    → (tally (of_pid pid) s.machine.krnl.sched ≡ 1)
      ⊎ ((tally (of_pid pid) s.machine.krnl.sched ≡ 0)
          × ((s.machine.pcbs pid).pc ≡ length (s.machine.pcbs pid).code))
nothing_lost image files c pid z h r =
    (Reach-Sound _ (boot-Sound c.num_cpus image files c z h) r).runs.load.accounted pid

weigh_nil : (l : List Proc) → weigh each l ≡ 0 → l ≡ []
unfolding weigh
weigh_nil [] e = refl
weigh_nil (p ∷ l) e = absurd (omega (arith, e))

-- No level and no CPU holds a process.
deserted :
    (n total : ℕ) (s : System) (f : Proc → ℕ)
    → Settled n total s
    → 0 < n
    → ((i : ℕ) → i < n → s.stopped i ≡ true)
    → tally f s.machine.krnl.sched ≡ 0
unfolding tally weigh running busy
deserted n total s f w h e =
    let levels =
      sum_range_zero 0 max_prio (λ i. weigh f (live (s.machine.krnl.sched.mlq_ready_queue i)))
        (λ i k. rw ((w.over 0 (e 0 h)).1 i (omega (arith, k))) refl) in
    let cpus =
      sum_range_zero 0 n (λ i. holds (held s i))
        (λ i k. rw (w.free i (e i (omega (arith, k)))) refl) in
    let runs : live s.machine.krnl.sched.running_list ≡ [] =
      weigh_nil (live s.machine.krnl.sched.running_list) (w.owners ∙ cpus) in
    rw runs (omega (arith, levels))

boot-Traced :
    (image : Image) (files : Token → Option (List Token)) (c : Config)
    → Traced
        (List.map (ld_process files) c.ld_processes)
        (boot image files c).machine
        (boot image files c).loading
unfolding boot
boot-Traced image files c = record { past = []; split = refl; count = refl; origins = tt }

map-append :
    (files : Token → Option (List Token)) (before after : List Entry) (e : Entry)
    → List.map (ld_process files) (before ++ (e ∷ after))
      ≡ List.map (ld_process files) before
        ++ (ld_process files e ∷ List.map (ld_process files) after)
map-append files [] after e = refl
map-append files (f ∷ l) after e =
    ap (λ (x : List LdProcess). ld_process files f ∷ x) (map-append files l after e)

-- What the loader made of entry `e`, as a process that has run to its end.
pub record Completed (file : Option (List Token)) (pid : ℕ) (b : Pcb) : Type 0 where
  pub source : Source file pid b.code
  pub ended : b.pc ≡ length b.code

-- When the program ends it has done its work: from the start on a configuration of fewer than 50
-- processes, of priorities below 140, with at least one CPU, whatever the order of the slots, in any
-- state in which every CPU and the loader have stopped, each entry of the configuration has become a
-- process, the first one of pid 1, the next of pid 2 and so on: its code is what `load` makes of the
-- entry's file, and it has run to the end of this code.
pub completed :
    {s : System} (image : Image) (files : Token → Option (List Token)) (c : Config)
    (before after : List Entry) (e : Entry)
    → Sized image.sched
    → Small c
    → Reach c.num_cpus (boot image files c) s
    → 0 < c.num_cpus
    → ((i : ℕ) → i < c.num_cpus → s.stopped i ≡ true)
    → s.ld_stopped ≡ true
    → c.ld_processes ≡ before ++ (e ∷ after)
    → Completed (files e.path) (1 + length before) (s.machine.pcbs (1 + length before))
unfolding ld_process
completed {s} image files c before after e z h r k stop l eq =
    let sound = boot-Sound c.num_cpus image files c z h in
    let w = Reach-Sound _ sound r in
    let spent = w.settled.spent l in
    let none_left = ap (λ (x : List LdProcess). length x) spent in
    let size = ap (λ (x : List Entry). length x) eq ∙ length-append before (e ∷ after) in
    let pid : ℕ = 1 + length before in
    let gone = deserted c.num_cpus _ s (of_pid pid) w.settled k stop in
    let t = Reach-Traced _ _ sound (boot-Traced image files c) r in
    let all : t.past
        ≡ List.map (ld_process files) before
          ++ (ld_process files e ∷ List.map (ld_process files) after) =
      sym (append-nil t.past)
      ∙ ap (λ (x : List LdProcess). t.past ++ x) (sym spent)
      ∙ sym t.split
      ∙ ap (λ (x : List Entry). List.map (ld_process files) x) eq
      ∙ map-append files before after e in
    let o =
      Origins-Source 1 (List.map (ld_process files) before) (List.map (ld_process files) after)
        (ld_process files e) s.machine.pcbs (rw (← all) t.origins) in
    record {
      source = rw (length-ld_processes files before) at o;
      ended =
          elim (w.runs.load.accounted pid (omega arith)
            (omega (arith, w.settled.born, none_left, size))) [
              | inl one ↦ absurd (omega (arith, one, gone))
              | inr done ↦ done.1
            ];
    }

block_code :
    (x y : Pcb × ℕ × ℕ) → ◌≡◌ {A = Option (Pcb × ℕ × ℕ)} (some x) (some y) → x.0.code ≡ y.0.code
block_code x y e = cc e

-- Every program of the configuration is run: from the same start as for `completed`, in any state
-- in which every CPU and the loader have stopped, if the file of an entry is the printed text of
-- the program `l`, with numbers in range, then the process of the entry has that program as its
-- code (an operand that an instruction does not have is what `malloc` left there), and its program
-- counter stands behind the last instruction.
pub programs_run :
    {s : System} (image : Image) (files : Token → Option (List Token)) (c : Config)
    (before after : List Entry) (e : Entry) (prio : ℕ) (l : List Inst)
    → Sized image.sched
    → Small c
    → Reach c.num_cpus (boot image files c) s
    → 0 < c.num_cpus
    → ((i : ℕ) → i < c.num_cpus → s.stopped i ≡ true)
    → s.ld_stopped ≡ true
    → c.ld_processes ≡ before ++ (e ∷ after)
    → files e.path ≡ some (print_program prio l)
    → prio < 2 ^ 32
    → length l < 2 ^ 32
    → All InRange l
    → let b = s.machine.pcbs (1 + length before) in
      (uninit : Uninit) × (b.code ≡ filled_from 0 uninit.inst l) × (b.pc ≡ length b.code)
programs_run {s} image files c before after e prio l z h r k stop spent eq text p n a =
    let w = completed image files c before after e z h r k stop spent eq in
    let o = w.source in
    let loads = load-print_program o.uninit (1 + length before) prio l a n p in
    let same : files e.path ≡ some (print_program prio l) = text in
    let made = sym o.loads ∙ ap (λ x. load o.uninit (1 + length before) x) same ∙ loads in
    (o.uninit, o.same ∙ block_code _ _ made, w.ended)
