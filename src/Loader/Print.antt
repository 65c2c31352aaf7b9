-- ===== src/Loader/Print.antt =====
-- The text of a program, and that it is read back.
use os_assignment_nhom.Base.{
  ℕ, suc, ◌+◌, ◌^◌, ◌<◌, ◌≡◌, refl, ap, arith, some, List, [], ◌∷◌, ◌⊎◌, inl, inr, length, All,
}
use os_assignment_nhom.Loader.Names.{name_of, get_opcode-name_of}
use os_assignment_nhom.Base.Word.{u32}
use os_assignment_nhom.Cpu.{
  Opcode, calc_ins, alloc_ins, free_ins, read_ins, write_ins, syscall_ins, Inst,
}
use os_assignment_nhom.Loader.{
  Token, word, num, line_end, ulong, scan_num, scan_word, split_line, fgets, Scan, scan_args,
  scan_three, scan_decoded, scan_inst, scan_code, Uninit, loaded, load,
}

-- The rest of an instruction's line: the operands that its opcode has.
abbrev pub operands : Opcode → Inst → List Token → List Token
operands calc_ins ins l = line_end ∷ l
operands alloc_ins ins l = num ins.arg_0 ∷ num ins.arg_1 ∷ line_end ∷ l
operands free_ins ins l = num ins.arg_0 ∷ line_end ∷ l
operands read_ins ins l = num ins.arg_0 ∷ num ins.arg_1 ∷ num ins.arg_2 ∷ line_end ∷ l
operands write_ins ins l = num ins.arg_0 ∷ num ins.arg_1 ∷ num ins.arg_2 ∷ line_end ∷ l
operands syscall_ins ins l =
    num ins.arg_0 ∷ num ins.arg_1 ∷ num ins.arg_2 ∷ num ins.arg_3 ∷ line_end ∷ l

unfoldable pub print_code : List Inst → List Token
print_code [] = []
print_code (ins ∷ l) = word (name_of ins.opcode) ∷ operands ins.opcode ins (print_code l)

-- The text of a program: the default priority, the number of instructions, and a line for each.
unfoldable pub print_program : ℕ → List Inst → List Token
unfolding print_code
print_program prio l = num prio ∷ num (length l) ∷ line_end ∷ print_code l

-- The instruction with the operands that its opcode does not have taken from `fresh`.
abbrev pub filled : Opcode → Inst → Inst → Inst
filled calc_ins fresh ins = record fresh { opcode = calc_ins }
filled alloc_ins fresh ins = record fresh {
  opcode = alloc_ins;
  arg_0 = ins.arg_0;
  arg_1 = ins.arg_1;
}
filled free_ins fresh ins = record fresh { opcode = free_ins; arg_0 = ins.arg_0 }
filled read_ins fresh ins = record ins { opcode = read_ins; arg_3 = fresh.arg_3 }
filled write_ins fresh ins = record ins { opcode = write_ins; arg_3 = fresh.arg_3 }
filled syscall_ins fresh ins = record ins { opcode = syscall_ins }

unfoldable pub filled_from : ℕ → (ℕ → Inst) → List Inst → List Inst
filled_from i fresh [] = []
filled_from i fresh (ins ∷ l) = filled ins.opcode (fresh i) ins ∷ filled_from (suc i) fresh l

-- Every operand is a number that `%lu` reads as it stands.
abbrev pub InRange : Inst → Type 0
InRange ins =
    (ins.arg_0 < 2 ^ 64) × (ins.arg_1 < 2 ^ 64) × (ins.arg_2 < 2 ^ 64) × (ins.arg_3 < 2 ^ 64)

ulong-small : (n : ℕ) → n < 2 ^ 64 → ulong n ≡ n
unfolding ulong
ulong-small n h = ground arith

-- What is left after an instruction: the next line, from its start or from the end before it.
AtLine : List Token → List Token → Type 0
AtLine text l = (text ≡ l) ⊎ (text ≡ line_end ∷ l)

scan_args-operands :
    (op : Opcode) (fresh ins : Inst) (o : List ℕ) (b l : List Token)
    → InRange ins
    → let r = scan_args op fresh (record { opcode = o; buf = b; text = operands op ins l }) in
      (r.0 ≡ filled op fresh ins) × AtLine r.1.text l
unfolding scan_args scan_three scan_num fgets split_line AtLine
scan_args-operands calc_ins fresh ins o b l h = (refl, inr refl)
scan_args-operands alloc_ins fresh ins o b l h =
    (simp (ulong-small ins.arg_0 h.0, ulong-small ins.arg_1 h.1), inr refl)
scan_args-operands free_ins fresh ins o b l h = (simp (ulong-small ins.arg_0 h.0), inr refl)
scan_args-operands read_ins fresh ins o b l h = (
  simp (ulong-small ins.arg_0 h.0, ulong-small ins.arg_1 h.1, ulong-small ins.arg_2 h.2),
  inr refl,
)
scan_args-operands write_ins fresh ins o b l h = (
  simp (ulong-small ins.arg_0 h.0, ulong-small ins.arg_1 h.1, ulong-small ins.arg_2 h.2),
  inr refl,
)
scan_args-operands syscall_ins fresh ins o b l h = (
  simp (
    ulong-small ins.arg_0 h.0,
    ulong-small ins.arg_1 h.1,
    ulong-small ins.arg_2 h.2,
    ulong-small ins.arg_3 h.3,
  ),
  inl refl,
)

-- The opcode is read past a line end.
scan_word-AtLine :
    (o w : List ℕ) (text l : List Token) → AtLine text (word w ∷ l) → scan_word o text ≡ (w, l)
unfolding AtLine scan_word
scan_word-AtLine o w text l (inl e) = rw e
scan_word-AtLine o w text l (inr e) = rw e

scan_inst-print :
    (fresh ins : Inst) (o : List ℕ) (b text l : List Token)
    → InRange ins
    → AtLine text (word (name_of ins.opcode) ∷ operands ins.opcode ins l)
    → (sc : Scan) × (scan_inst fresh (record { opcode = o; buf = b; text = text })
        ≡ some (filled ins.opcode fresh ins, sc))
      × AtLine sc.text l
unfolding scan_inst
scan_inst-print fresh ins o b text l h t =
    let n : List ℕ = name_of ins.opcode in
    let line : Scan = record { opcode = n; buf = b; text = operands ins.opcode ins l } in
    let w = scan_word-AtLine o n text (operands ins.opcode ins l) t in
    let r = scan_args-operands ins.opcode fresh ins n b l h in
    (
      (scan_args ins.opcode fresh line).1,
      rw (w, get_opcode-name_of ins.opcode, scan_decoded)
          (ap (λ (x : Inst). some (x, (scan_args ins.opcode fresh line).1)) r.0),
      r.1,
    )

scan_code-step :
    (n i : ℕ) (fresh : ℕ → Inst) (sc : Scan) (r : Inst × Scan) (l : List Inst)
    → scan_inst (fresh i) sc ≡ some r
    → scan_code n (suc i) fresh r.1 ≡ some l
    → scan_code (suc n) i fresh sc ≡ some (r.0 ∷ l)
unfolding scan_code
scan_code-step n i fresh sc r l e f = rw (scan_code, e, f)

scan_code-print :
    (l : List Inst) (i : ℕ) (fresh : ℕ → Inst) (sc : Scan)
    → All InRange l
    → AtLine sc.text (print_code l)
    → scan_code (length l) i fresh sc ≡ some (filled_from i fresh l)
unfolding scan_code filled_from print_code
scan_code-print [] i fresh sc h t = refl
scan_code-print (ins ∷ l) i fresh sc h t =
    let r = scan_inst-print (fresh i) ins sc.opcode sc.buf sc.text (print_code l) h.0 t in
    scan_code-step (length l) i fresh sc _ _ r.1 (scan_code-print l (suc i) fresh r.0 h.1 r.2)

-- Loading the text that a program is printed to gives a process of that program: the pid is the
-- next one, the program counter 0 and the default priority the one printed; the code has the same
-- instructions in the same order, each with its operands, while an operand that its opcode does
-- not have is whatever the memory held. Numbers must be in range of what they are read into.
pub load-print_program :
    (uninit : Uninit) (pid prio : ℕ) (l : List Inst)
    → All InRange l
    → length l < 2 ^ 32
    → prio < 2 ^ 32
    → load uninit pid (some (print_program prio l))
      ≡ some (
        record { pid = pid; code = filled_from 0 uninit.inst l; regs = uninit.regs; pc = 0 },
        prio,
        u32 (pid + 1),
      )
unfolding load loaded print_program scan_num AtLine
load-print_program uninit pid prio l h n p =
    let start : Scan = record {
      opcode = uninit.opcode;
      buf = uninit.buf;
      text = line_end ∷ print_code l;
    } in
    let a : ulong prio ≡ prio = ulong-small prio (omega (arith, p)) in
    let b : ulong (length l) ≡ length l = ulong-small (length l) (omega (arith, n)) in
    let c : u32 (length l) ≡ length l = omega (arith, n) in
    let d : u32 prio ≡ prio = omega (arith, p) in
    rw (a, b, c, d, scan_code-print l 0 uninit.inst start h (inr refl))
