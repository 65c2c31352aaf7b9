-- ===== src/Config.antt =====
-- ossim_lamiaatrium/src/os.c: `read_config`, which reads the file that says what is simulated, in the
-- MLQ_SCHED and MM_PAGING configuration without MM_FIXED_MEMSZ. The text is taken as in the loader;
-- a path is the word that stands for the file below input/proc/.
pub mod Print
use os_assignment_nhom.Base.{
  ℕ, zero, suc, ◌+◌, ◌-◌, ◌^◌, Option, none, some, List, [], ◌∷◌, ltb, if◌then◌else◌,
}
use os_assignment_nhom.Base.Word.{u32, rounds}
use os_assignment_nhom.Loader.{Token, word, num, neg, line_end, scan_num}

-- What `%d` makes of a decimal number, with and without a sign: one out of the range of `long` is
-- cut off there, and the low 32 bits are stored.
unfoldable pub int_of : ℕ → ℕ
int_of n = if ltb n (2 ^ 63) then u32 n else u32 (2 ^ 63 - 1)

unfoldable pub int_of_neg : ℕ → ℕ
int_of_neg n = if ltb n (2 ^ 63) then u32 (2 ^ 64 - n) else u32 (2 ^ 63)

-- The conversion `%d`: the number, or what the variable held, and the text left.
unfoldable pub scan_int : ℕ → List Token → ℕ × List Token
unfolding int_of int_of_neg
scan_int old [] = (old, [])
scan_int old (line_end ∷ l) = scan_int old l
scan_int old (num n ∷ l) = (int_of n, l)
scan_int old (neg n ∷ l) = (int_of_neg n, l)
scan_int old (word w ∷ l) = (old, word w ∷ l)

-- The conversion `%s` of a file name, which may be a number.
unfoldable pub scan_name : Token → List Token → Token × List Token
scan_name old [] = (old, [])
scan_name old (line_end ∷ l) = scan_name old l
scan_name old (word w ∷ l) = (word w, l)
scan_name old (num n ∷ l) = (num n, l)
scan_name old (neg n ∷ l) = (neg n, l)

-- One process of `ld_processes`.
pub record Entry : Type 0 where
  pub start_time : ℕ
  pub path : Token
  pub prio : ℕ

-- The statics that the file sets; `memswpsz` has PAGING_MAX_MMSWP entries.
pub record Config : Type 0 where
  pub time_slot : ℕ
  pub num_cpus : ℕ
  pub num_processes : ℕ
  pub memramsz : ℕ
  pub memswpsz : List ℕ
  pub ld_processes : List Entry

-- The loop over the swap sizes, on what the array holds before.
unfoldable pub scan_sizes : List ℕ → List Token → List ℕ × List Token
unfolding scan_int
scan_sizes [] l = ([], l)
scan_sizes (old ∷ olds) l =
    let r = scan_int old l in let rest = scan_sizes olds r.1 in (r.0 ∷ rest.0, rest.1)

-- One round of the loop over the processes, on what the fresh arrays and the buffer hold.
unfoldable pub scan_entry : Entry → List Token → Entry × List Token
unfolding scan_num scan_name
scan_entry old l =
    let s = scan_num old.start_time l in
    let n = scan_name old.path s.1 in
    let p = scan_num old.prio n.1 in (record { start_time = s.0; path = n.0; prio = p.0 }, p.1)

-- The loop, with the rounds that are left, from index `i` on.
unfoldable pub scan_entries : ℕ → ℕ → (ℕ → Entry) → List Token → List Entry
unfolding scan_entry
scan_entries zero i fresh l = []
scan_entries (suc n) i fresh l =
    let r = scan_entry (fresh i) l in r.0 ∷ scan_entries n (suc i) fresh r.1

-- `read_config` on the statics and the text of the file; `none` where the code exits.
pub read_config : (ℕ → Entry) → Config → Option (List Token) → Option Config
unfolding scan_int scan_sizes scan_entries
read_config fresh c none = none
read_config fresh c (some text) =
    let slot = scan_int c.time_slot text in
    let cpus = scan_int c.num_cpus slot.1 in
    let procs = scan_int c.num_processes cpus.1 in
    let ram = scan_int c.memramsz procs.1 in
    let swp = scan_sizes c.memswpsz ram.1 in
    some (record {
      time_slot = slot.0;
      num_cpus = cpus.0;
      num_processes = procs.0;
      memramsz = ram.0;
      memswpsz = swp.0;
      ld_processes = scan_entries (rounds procs.0) 0 fresh swp.1;
    })
