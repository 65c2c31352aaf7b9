-- ===== src/Loader/Names.antt =====
-- The names of the opcodes.
use os_assignment_nhom.Base.{
  ℕ, ◌≡◌, ◌↔◌, refl, ap₂, arith, Bool, true, false, Option, none, some, List, [], ◌∷◌,
  if◌then◌else◌,
}
use os_assignment_nhom.Cpu.{Opcode, calc_ins, alloc_ins, free_ins, read_ins, write_ins, syscall_ins}
use os_assignment_nhom.Loader.{
  str_eq, opt_calc, opt_alloc, opt_free, opt_read, opt_write, opt_syscall, get_opcode,
}

-- The name of an opcode.
abbrev pub name_of : Opcode → List ℕ
name_of calc_ins = opt_calc
name_of alloc_ins = opt_alloc
name_of free_ins = opt_free
name_of read_ins = opt_read
name_of write_ins = opt_write
name_of syscall_ins = opt_syscall

pub get_opcode-name_of : (op : Opcode) → get_opcode (name_of op) ≡ some op
unfolding get_opcode str_eq
get_opcode-name_of calc_ins = refl
get_opcode-name_of alloc_ins = refl
get_opcode-name_of free_ins = refl
get_opcode-name_of read_ins = refl
get_opcode-name_of write_ins = refl
get_opcode-name_of syscall_ins = refl

str_eq-cons :
    (x y : ℕ) (xs ys : List ℕ) → str_eq (x ∷ xs) (y ∷ ys) ≡ true → (x ≡ y) × (str_eq xs ys ≡ true)
unfolding str_eq
str_eq-cons x y xs ys h = (ground arith, ground arith)

str_eq_sound : (a b : List ℕ) → str_eq a b ≡ true → a ≡ b
unfolding str_eq
str_eq_sound [] [] h = refl
str_eq_sound [] (y ∷ ys) h = cc h
str_eq_sound (x ∷ xs) [] h = cc h
str_eq_sound (x ∷ xs) (y ∷ ys) h =
    let (e, t) = str_eq-cons x y xs ys h in
    ap₂ (λ (u : ℕ) (v : List ℕ). u ∷ v) e (str_eq_sound xs ys t)

-- One test of the chain: the opcode is this one, or a later test found it.
test_of :
    (w : List ℕ) (b : Bool) (o op : Opcode) (rest : Option Opcode)
    → (b ≡ true → w ≡ name_of o)
    → (rest ≡ some op → w ≡ name_of op)
    → (if b then some o else rest) ≡ some op
    → w ≡ name_of op
test_of w true o op rest here later h = let e : o ≡ op = cc h in rw (← e) (here refl)
test_of w false o op rest here later h = later h

get_opcode_sound : (w : List ℕ) (op : Opcode) → get_opcode w ≡ some op → w ≡ name_of op
unfolding get_opcode
get_opcode_sound w op h =
    test_of w _ calc_ins op _ (str_eq_sound w opt_calc)
      (test_of w _ alloc_ins op _ (str_eq_sound w opt_alloc) (
        test_of w _ free_ins op _ (str_eq_sound w opt_free) (
          test_of w _ read_ins op _ (str_eq_sound w opt_read) (
            test_of w _ write_ins op _ (str_eq_sound w opt_write)
              (test_of w _ syscall_ins op none (str_eq_sound w opt_syscall) (λ n. cc n))))))
      h

-- The chain of comparisons is the table of names: a word is decoded to an opcode exactly if it is
-- that opcode's name, and every other word is refused.
pub get_opcode_iff : (w : List ℕ) (op : Opcode) → (get_opcode w ≡ some op) ↔ (w ≡ name_of op)
get_opcode_iff w op = (get_opcode_sound w op, λ e. rw e (get_opcode-name_of op))
