-- ===== src/Cpu/Progress.antt =====
-- One instruction of a process, at the end of its code and before it.
use os_assignment_nhom.Base.{
  ℕ, ◌+◌, ◌<◌, ◌≤◌, ◌≡◌, refl, arith, true, false, length, leb, Bool-cases, inl, inr,
}
use os_assignment_nhom.Kernel.{Krnl}
use os_assignment_nhom.Cpu.{Pcb, run}

-- Running past the end of the code fails and changes nothing; before it, whatever the instruction
-- does, the program counter moves on by one and code and pid stay.
pub run_lem :
    (junk : ℕ → ℕ) (k : Krnl) (p : Pcb)
    → (length p.code ≤ p.pc → run junk k p ≡ (false, p, k))
      × (p.pc < length p.code
          → let p' : Pcb = (run junk k p).1 in
            (p'.pc ≡ p.pc + 1) × (p'.code ≡ p.code) × (p'.pid ≡ p.pid))
unfolding run
run_lem junk k p = (
  λ h. (let t : leb (length p.code) p.pc ≡ true = ground arith in rw t),
  λ h. (let t : leb (length p.code) p.pc ≡ false = ground arith in rw t (refl, refl, refl)),
)

-- No instruction changes the code.
pub run_code : (junk : ℕ → ℕ) (k : Krnl) (p : Pcb) → (run junk k p).1.code ≡ p.code
unfolding run
run_code junk k p = elim (Bool-cases (leb (length p.code) p.pc)) [
  | inl e ↦ rw e refl
  | inr e ↦ rw e refl
]
