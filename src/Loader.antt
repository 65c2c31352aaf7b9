-- ===== src/Loader.antt =====
-- ossim_lamiaatrium/src/loader.c: a program is read from the text of its file. The text is what `scanf`
-- sees of it: words of letters, decimal numbers, and line ends; blanks only part these. What a
-- conversion does not reach keeps the content it had, `uninit` for fresh memory; `exit` is `none`.
-- Words longer than the buffer of `opcode` and lines longer than `buf` are not modelled.
pub mod Print
pub mod Names
pub mod Fresh
use os_assignment_nhom.Base.{
  ℕ, zero, suc, ◌+◌, ◌-◌, ◌^◌, Bool, true, false, ◌&&◌, Option, none, some, List, [], ◌∷◌, ◌==◌,
  ltb, if◌then◌else◌,
}
use mathlib.Core.Option.{map}
use os_assignment_nhom.Base.Word.{u32, u64}
use os_assignment_nhom.Cpu.{
  Opcode, calc_ins, alloc_ins, free_ins, read_ins, write_ins, syscall_ins, Inst, Pcb,
}

-- One piece of the text; `neg` is a number with a minus sign.
pub data Token : Type 0 where
  word : List ℕ → Token
  num : ℕ → Token
  neg : ℕ → Token
  line_end : Token

-- `strcmp(a, b) == 0`
unfoldable pub str_eq : List ℕ → List ℕ → Bool
str_eq [] [] = true
str_eq [] (y ∷ ys) = false
str_eq (x ∷ xs) [] = false
str_eq (x ∷ xs) (y ∷ ys) = (x == y) && str_eq xs ys

abbrev pub opt_calc : List ℕ
opt_calc = 99 ∷ 97 ∷ 108 ∷ 99 ∷ []

abbrev pub opt_alloc : List ℕ
opt_alloc = 97 ∷ 108 ∷ 108 ∷ 111 ∷ 99 ∷ []

abbrev pub opt_free : List ℕ
opt_free = 102 ∷ 114 ∷ 101 ∷ 101 ∷ []

abbrev pub opt_read : List ℕ
opt_read = 114 ∷ 101 ∷ 97 ∷ 100 ∷ []

abbrev pub opt_write : List ℕ
opt_write = 119 ∷ 114 ∷ 105 ∷ 116 ∷ 101 ∷ []

abbrev pub opt_syscall : List ℕ
opt_syscall = 115 ∷ 121 ∷ 115 ∷ 99 ∷ 97 ∷ 108 ∷ 108 ∷ []

-- `none` where the code exits.
unfoldable pub get_opcode : List ℕ → Option Opcode
unfolding str_eq
get_opcode opt =
    if str_eq opt opt_calc
    then some calc_ins
    else if str_eq opt opt_alloc
    then some alloc_ins
    else if str_eq opt opt_free
    then some free_ins
    else if str_eq opt opt_read
    then some read_ins
    else if str_eq opt opt_write
    then some write_ins
    else if str_eq opt opt_syscall
    then some syscall_ins
    else none

-- What `%lu` makes of a decimal number, with and without a sign: one out of range gives ULONG_MAX.
unfoldable pub ulong : ℕ → ℕ
ulong n = if ltb n (2 ^ 64) then n else 2 ^ 64 - 1

unfoldable pub negated : ℕ → ℕ
negated n = if ltb n (2 ^ 64) then u64 (2 ^ 64 - n) else 2 ^ 64 - 1

-- The conversion `%lu`: the number, or what the variable held, and the text left.
unfoldable pub scan_num : ℕ → List Token → ℕ × List Token
unfolding ulong negated
scan_num old [] = (old, [])
scan_num old (line_end ∷ l) = scan_num old l
scan_num old (num n ∷ l) = (ulong n, l)
scan_num old (neg n ∷ l) = (negated n, l)
scan_num old (word w ∷ l) = (old, word w ∷ l)

-- The conversion `%s` into the buffer that the last one filled. A number where an opcode should
-- stand is a word that is none; it is left as the empty word.
unfoldable pub scan_word : List ℕ → List Token → List ℕ × List Token
scan_word old [] = (old, [])
scan_word old (line_end ∷ l) = scan_word old l
scan_word old (word w ∷ l) = (w, l)
scan_word old (num n ∷ l) = ([], l)
scan_word old (neg n ∷ l) = ([], l)

-- The rest of the line, its end included, and the text after it.
unfoldable pub split_line : List Token → List Token × List Token
split_line [] = ([], [])
split_line (line_end ∷ l) = (line_end ∷ [], l)
split_line (word w ∷ l) = let r = split_line l in (word w ∷ r.0, r.1)
split_line (num n ∷ l) = let r = split_line l in (num n ∷ r.0, r.1)
split_line (neg n ∷ l) = let r = split_line l in (neg n ∷ r.0, r.1)

-- `fgets(buf, ...)`: at the end of the file the buffer stays as it is.
unfoldable pub fgets : List Token → List Token → List Token × List Token
unfolding split_line
fgets buf [] = (buf, [])
fgets buf (t ∷ l) = split_line (t ∷ l)

-- What the loop of `load` carries from line to line.
pub record Scan : Type 0 where
  pub opcode : List ℕ
  pub buf : List Token
  pub text : List Token

-- The three operands that `read` and `write` have.
unfoldable pub scan_three : Opcode → Inst → Scan → Inst × Scan
unfolding scan_num
scan_three op ins sc =
    let a0 = scan_num ins.arg_0 sc.text in
    let a1 = scan_num ins.arg_1 a0.1 in
    let a2 = scan_num ins.arg_2 a1.1 in
    (
      record ins { opcode = op; arg_0 = a0.0; arg_1 = a1.0; arg_2 = a2.0 },
      record sc { text = a2.1 },
    )

-- The operands of one instruction, into the memory `ins`. A conversion that fails does so for the
-- ones after it too.
pub scan_args : Opcode → Inst → Scan → Inst × Scan
unfolding scan_num fgets scan_three
scan_args calc_ins ins sc = (record ins { opcode = calc_ins }, sc)
scan_args alloc_ins ins sc =
    let a0 = scan_num ins.arg_0 sc.text in
    let a1 = scan_num ins.arg_1 a0.1 in
    (record ins { opcode = alloc_ins; arg_0 = a0.0; arg_1 = a1.0 }, record sc { text = a1.1 })
scan_args free_ins ins sc =
    let a0 = scan_num ins.arg_0 sc.text in
    (record ins { opcode = free_ins; arg_0 = a0.0 }, record sc { text = a0.1 })
scan_args read_ins ins sc = scan_three read_ins ins sc
scan_args write_ins ins sc = scan_three write_ins ins sc
scan_args syscall_ins ins sc =
    let line = fgets sc.buf sc.text in
    let a0 = scan_num ins.arg_0 line.0 in
    let a1 = scan_num ins.arg_1 a0.1 in
    let a2 = scan_num ins.arg_2 a1.1 in
    let a3 = scan_num ins.arg_3 a2.1 in
    (
      record { opcode = syscall_ins; arg_0 = a0.0; arg_1 = a1.0; arg_2 = a2.0; arg_3 = a3.0 },
      record sc { buf = line.0; text = line.1 },
    )

-- The part of the loop body after the opcode was looked up.
pub scan_decoded : Option Opcode → Inst → Scan → Option (Inst × Scan)
unfolding scan_args
scan_decoded none ins sc = none
scan_decoded (some op) ins sc = some (scan_args op ins sc)

-- One round of the loop.
pub scan_inst : Inst → Scan → Option (Inst × Scan)
unfolding scan_decoded scan_word
scan_inst ins sc =
    let w = scan_word sc.opcode sc.text in
    scan_decoded (get_opcode w.0) ins (record sc { opcode = w.0; text = w.1 })

-- The loop: `n` instructions from index `i` on, into the memory `fresh`.
pub scan_code : ℕ → ℕ → (ℕ → Inst) → Scan → Option (List Inst)
unfolding scan_inst
scan_code zero i fresh sc = some []
scan_code (suc n) i fresh sc = elim (scan_inst (fresh i) sc) [
  | none ↦ none
  | some r ↦ map (λ (l : List Inst). r.0 ∷ l) (scan_code n (suc i) fresh r.1)
]

-- What fresh memory holds, field by field.
pub record Uninit : Type 0 where
  pub inst : ℕ → Inst
  pub regs : ℕ → ℕ
  pub opcode : List ℕ
  pub buf : List Token
  pub priority : ℕ
  pub size : ℕ

-- The process that the code is stored in, with the default priority and the next `avail_pid`.
pub loaded : Uninit → ℕ → ℕ → Option (List Inst) → Option (Pcb × ℕ × ℕ)
loaded uninit avail_pid priority none = none
loaded uninit avail_pid priority (some code) = some (
  record { pid = avail_pid; code = code; regs = uninit.regs; pc = 0 },
  priority,
  u32 (avail_pid + 1),
)

-- `load` on the text of the file, `none` for one that cannot be opened.
unfoldable pub load : Uninit → ℕ → Option (List Token) → Option (Pcb × ℕ × ℕ)
unfolding scan_code scan_num loaded
load uninit avail_pid none = none
load uninit avail_pid (some text) =
    let p = scan_num uninit.priority text in
    let s = scan_num uninit.size p.1 in
    let start : Scan = record { opcode = uninit.opcode; buf = uninit.buf; text = s.1 } in
    loaded uninit avail_pid (u32 p.0) (scan_code (u32 s.0) 0 uninit.inst start)
