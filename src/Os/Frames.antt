-- ===== src/Os/Frames.antt =====
-- A slot of a CPU or of the loader keeps every frame with one owner.
use os_assignment_nhom.Base.{
  ℕ, zero, suc, ◌≡◌, false, Option, none, some, List, ◌∷◌, ◌==◌, length, Bool-cases, inl, inr,
}
use os_assignment_nhom.Queue.{Proc}
use os_assignment_nhom.Sched.{Sched}
use os_assignment_nhom.Kernel.Ownership.{FramesOwned}
use os_assignment_nhom.Cpu.Ownership.{run-FramesOwned}
use os_assignment_nhom.Os.{Machine, exec, idle_with, switch_to, cpu_slot, with_sched}
use os_assignment_nhom.Os.Branches.{cpu_slot_finishes, cpu_slot_preempts, cpu_slot_goes_on}

module _ (junk : ℕ → ℕ) (f : ℕ) (l : List ℕ) where
  exec-FramesOwned :
      (m : Machine) (left : ℕ) (p : Proc)
      → m.krnl.mram.free_fp_list ≡ f ∷ l
      → FramesOwned m.krnl
      → FramesOwned (exec junk m left p).1.krnl
  unfolding exec
  exec-FramesOwned m left p n w = run-FramesOwned junk m.krnl (m.pcbs p.pid) f l n w

  idle_with-FramesOwned :
      (m : Machine) (left : ℕ) (r : Option Proc × Sched)
      → m.krnl.mram.free_fp_list ≡ f ∷ l
      → FramesOwned m.krnl
      → FramesOwned (idle_with junk m left r).1.krnl
  unfolding idle_with
  idle_with-FramesOwned m left (none, s) n w = w
  idle_with-FramesOwned m left (some p, s) n w = exec-FramesOwned (with_sched m s) left p n w

  switch_to-FramesOwned :
      (m : Machine) (left : ℕ) (r : Option Proc × Sched)
      → m.krnl.mram.free_fp_list ≡ f ∷ l
      → FramesOwned m.krnl
      → FramesOwned (switch_to junk m left r).1.krnl
  unfolding switch_to
  switch_to-FramesOwned m left (none, s) n w = w
  switch_to-FramesOwned m left (some p, s) n w = exec-FramesOwned (with_sched m s) left p n w

  held_on :
      (m : Machine) (left : ℕ) (p : Proc)
      → ((m.pcbs p.pid).pc == length (m.pcbs p.pid).code) ≡ false
      → m.krnl.mram.free_fp_list ≡ f ∷ l
      → FramesOwned m.krnl
      → FramesOwned (cpu_slot junk m left (some p)).1.krnl
  held_on m zero p t n w = rw (cpu_slot_preempts junk m p t) (switch_to-FramesOwned m 0 _ n w)
  held_on m (suc k) p t n w = rw (cpu_slot_goes_on junk m k p t) (exec-FramesOwned m (suc k) p n w)

  pub cpu_slot-FramesOwned :
      (m : Machine) (left : ℕ) (o : Option Proc)
      → m.krnl.mram.free_fp_list ≡ f ∷ l
      → FramesOwned m.krnl
      → FramesOwned (cpu_slot junk m left o).1.krnl
  unfolding cpu_slot
  cpu_slot-FramesOwned m left none n w = idle_with-FramesOwned m left _ n w
  cpu_slot-FramesOwned m left (some p) n w =
      elim (Bool-cases ((m.pcbs p.pid).pc == length (m.pcbs p.pid).code)) [
        | inl t ↦ rw (cpu_slot_finishes junk m left p t) (switch_to-FramesOwned m 0 _ n w)
        | inr t ↦ held_on m left p t n w
      ]
