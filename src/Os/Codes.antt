-- ===== src/Os/Codes.antt =====
-- A slot of a CPU changes the code of no process.
use os_assignment_nhom.Base.{ℕ, ◌≡◌, refl, ◌∙◌, arith, Option, ◌==◌, Bool-cases, inl, inr}
use os_assignment_nhom.Queue.{Proc}
use os_assignment_nhom.Cpu.{Pcb}
use os_assignment_nhom.Cpu.Progress.{run_code}
use os_assignment_nhom.Os.{Machine, exec, cpu_slot}
use os_assignment_nhom.Os.Rule.{CpuRule, cpu_slot_rule}

code_rule :
    (junk : ℕ → ℕ) (pcbs : ℕ → Pcb) (j : ℕ) → CpuRule junk (λ m o. (m.pcbs j).code ≡ (pcbs j).code)
unfolding exec
code_rule junk pcbs j = record {
  dispatch = λ m x. x;
  finish = λ m p x e. x;
  put = λ m p x e. x;
  instruction = λ m left p x. elim (Bool-cases (j == p.pid)) [
    | inl y ↦
        let same : j ≡ p.pid = ground arith in
        rw y (run_code junk m.krnl (m.pcbs p.pid) ∙ rw (← same) x)
    | inr y ↦ rw y x
  ];
}

pub cpu_slot-code :
    (junk : ℕ → ℕ) (m : Machine) (left : ℕ) (o : Option Proc) (j : ℕ)
    → ((cpu_slot junk m left o).1.pcbs j).code ≡ (m.pcbs j).code
cpu_slot-code junk m left o j = cpu_slot_rule (code_rule junk m.pcbs j) m left o refl
