-- ===== src/LoadExamples.antt =====
-- The theorems on reading programs and configurations at small inputs.
use os_assignment_nhom.Base.{◌+◌, ◌≡◌, ◌↔◌, refl, arith, some, List, [], ◌∷◌}
use os_assignment_nhom.Base.Word.{u32}
use os_assignment_nhom.Cpu.{alloc_ins, calc_ins, Inst}
use os_assignment_nhom.Loader.{opt_alloc, get_opcode, Uninit, load}
use os_assignment_nhom.Loader.Names.{name_of, get_opcode_iff}
use os_assignment_nhom.Loader.Print.{print_program, filled_from, load-print_program}
use os_assignment_nhom.Loader.{word}
use os_assignment_nhom.Config.{Entry, Config, read_config}
use os_assignment_nhom.Config.Print.{print_config, read_config-print_config}

abbrev zeroed_inst : Inst
zeroed_inst = record { opcode = calc_ins; arg_0 = 0; arg_1 = 0; arg_2 = 0; arg_3 = 0 }

-- `calc` and `alloc 300 4`
abbrev pub program : List Inst
program = zeroed_inst ∷ record zeroed_inst { opcode = alloc_ins; arg_0 = 300; arg_1 = 4 } ∷ []

abbrev pub zeroes : Uninit
zeroes = record {
  inst = λ _. zeroed_inst;
  regs = λ _. 0;
  opcode = [];
  buf = [];
  priority = 0;
  size = 0;
}

get_opcode_iff_example : (get_opcode opt_alloc ≡ some alloc_ins) ↔ (opt_alloc ≡ name_of alloc_ins)
get_opcode_iff_example = get_opcode_iff opt_alloc alloc_ins

load-print_program_example :
    load zeroes 1 (some (print_program 20 program))
    ≡ some (
      record { pid = 1; code = filled_from 0 zeroes.inst program; regs = zeroes.regs; pc = 0 },
      20,
      u32 (1 + 1),
    )
load-print_program_example =
    load-print_program zeroes 1 20 program
      (
        (omega arith, omega arith, omega arith, omega arith),
        ((omega arith, omega arith, omega arith, omega arith), tt),
      )
      (omega arith) (omega arith)

-- Two programs on one CPU, one of them to start later.
abbrev small_config : Config
small_config = record {
  time_slot = 2;
  num_cpus = 1;
  num_processes = 2;
  memramsz = 1048576;
  memswpsz = 16777216 ∷ 0 ∷ 0 ∷ 0 ∷ [];
  ld_processes =
      record { start_time = 0; path = word (112 ∷ 48 ∷ []); prio = 3 }
      ∷ record { start_time = 5; path = word (112 ∷ 49 ∷ []); prio = 0 }
      ∷ [];
}

abbrev no_entry : Entry
no_entry = record { start_time = 0; path = word []; prio = 0 }

abbrev zeroed_config : Config
zeroed_config = record {
  time_slot = 0;
  num_cpus = 0;
  num_processes = 0;
  memramsz = 0;
  memswpsz = 0 ∷ 0 ∷ 0 ∷ 0 ∷ [];
  ld_processes = [];
}

read_config-print_config_example :
    read_config (λ _. no_entry) zeroed_config (some (print_config small_config)) ≡ some small_config
read_config-print_config_example =
    read_config-print_config (λ _. no_entry) zeroed_config small_config refl
      (record {
        time_slot = omega arith;
        num_cpus = omega arith;
        num_processes = omega arith;
        memramsz = omega arith;
        swap_count = refl;
        memswpsz = (omega arith, (omega arith, (omega arith, (omega arith, tt))));
        count = refl;
        entries = ((omega arith, omega arith, tt), ((omega arith, omega arith, tt), tt));
      })
