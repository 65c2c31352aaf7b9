-- ===== src/Config/Print.antt =====
-- The text of a configuration, and that it is read back.
use os_assignment_nhom.Base.{
  ℕ, suc, ◌^◌, ◌<◌, ◌≡◌, refl, sym, ◌∙◌, ap, arith, some, List, [], ◌∷◌, length, All,
}
use os_assignment_nhom.Base.Word.{rounds}
use os_assignment_nhom.Loader.{Token, word, num, neg, line_end, ulong, scan_num}
use os_assignment_nhom.Config.{
  int_of, scan_int, scan_name, Entry, Config, scan_sizes, scan_entry, scan_entries, read_config,
}

unfoldable pub print_sizes : List ℕ → List Token → List Token
print_sizes [] l = l
print_sizes (n ∷ ns) l = num n ∷ print_sizes ns l

unfoldable pub print_entries : List Entry → List Token
print_entries [] = []
print_entries (e ∷ l) = num e.start_time ∷ e.path ∷ num e.prio ∷ line_end ∷ print_entries l

-- The text of a configuration: three numbers, the sizes of the memories, a line for each process.
unfoldable pub print_config : Config → List Token
unfolding print_sizes print_entries
print_config c =
    num c.time_slot
    ∷ num c.num_cpus
    ∷ num c.num_processes
    ∷ line_end
    ∷ num c.memramsz
    ∷ print_sizes c.memswpsz (line_end ∷ print_entries c.ld_processes)

-- A path is one word of the text.
abbrev pub IsName : Token → Type 0
IsName (word w) = Unit
IsName (num n) = Unit
IsName (neg n) = Unit
IsName line_end = ⊥

abbrev pub InRange : Entry → Type 0
InRange e = (e.start_time < 2 ^ 64) × (e.prio < 2 ^ 64) × IsName e.path

ulong-small : (n : ℕ) → n < 2 ^ 64 → ulong n ≡ n
unfolding ulong
ulong-small n h = ground arith

int_of-small : (n : ℕ) → n < 2 ^ 31 → int_of n ≡ n
unfolding int_of
int_of-small n h = ground arith

scan_name-IsName : (old t : Token) (l : List Token) → IsName t → scan_name old (t ∷ l) ≡ (t, l)
unfolding scan_name
scan_name-IsName old (word w) l h = refl
scan_name-IsName old (num n) l h = refl
scan_name-IsName old (neg n) l h = refl
scan_name-IsName old line_end l h = absurd h

scan_sizes-print_sizes :
    (olds ns : List ℕ) (l : List Token)
    → length olds ≡ length ns
    → All (λ n. n < 2 ^ 31) ns
    → scan_sizes olds (print_sizes ns l) ≡ (ns, l)
unfolding scan_sizes print_sizes scan_int
scan_sizes-print_sizes [] [] l e h = refl
scan_sizes-print_sizes [] (n ∷ ns) l e h = absurd (omega (arith, e))
scan_sizes-print_sizes (o ∷ olds) [] l e h = absurd (omega (arith, e))
scan_sizes-print_sizes (o ∷ olds) (n ∷ ns) l e h =
    rw (int_of-small n h.0, scan_sizes-print_sizes olds ns l (omega (arith, e)) h.1)

-- The line end before an entry is skipped.
scan_entry-print :
    (old e : Entry) (l : List Token)
    → InRange e
    → (scan_entry old (num e.start_time ∷ e.path ∷ num e.prio ∷ line_end ∷ l) ≡ (e, line_end ∷ l))
      × (scan_entry old (line_end ∷ num e.start_time ∷ e.path ∷ num e.prio ∷ line_end ∷ l)
          ≡ (e, line_end ∷ l))
unfolding scan_entry scan_num
scan_entry-print old e l h =
    let n = scan_name-IsName old.path e.path (num e.prio ∷ line_end ∷ l) h.2 in
    (
      rw (n, ulong-small e.start_time h.0, ulong-small e.prio h.1),
      rw (n, ulong-small e.start_time h.0, ulong-small e.prio h.1),
    )

scan_entries-step :
    (n i : ℕ) (fresh : ℕ → Entry) (text : List Token) (e : Entry) (rest : List Token)
    → scan_entry (fresh i) text ≡ (e, rest)
    → scan_entries (suc n) i fresh text ≡ e ∷ scan_entries n (suc i) fresh rest
unfolding scan_entries
scan_entries-step n i fresh text e rest h =
    ap (λ (r : Entry × List Token). r.0 ∷ scan_entries n (suc i) fresh r.1) h

scan_entries-print :
    (es : List Entry) (i : ℕ) (fresh : ℕ → Entry)
    → All InRange es
    → (scan_entries (length es) i fresh (print_entries es) ≡ es)
      × (scan_entries (length es) i fresh (line_end ∷ print_entries es) ≡ es)
unfolding scan_entries print_entries
scan_entries-print [] i fresh h = (refl, refl)
scan_entries-print (e ∷ es) i fresh h =
    let s = scan_entry-print (fresh i) e (print_entries es) h.0 in
    let line : List Token = num e.start_time ∷ e.path ∷ num e.prio ∷ line_end ∷ print_entries es in
    let rest = ap (λ (x : List Entry). e ∷ x) (scan_entries-print es (suc i) fresh h.1).1 in
    (
      scan_entries-step (length es) i fresh line e _ s.0 ∙ rest,
      scan_entries-step (length es) i fresh (line_end ∷ line) e _ s.1 ∙ rest,
    )

-- What a configuration holds is in range: the numbers are nonnegative `int`s or `unsigned long`s,
-- it has a size for each swap device, and as many processes as it says.
pub record WellFormed (c : Config) : Type 0 where
  pub time_slot : c.time_slot < 2 ^ 31
  pub num_cpus : c.num_cpus < 2 ^ 31
  pub num_processes : c.num_processes < 2 ^ 31
  pub memramsz : c.memramsz < 2 ^ 31
  pub swap_count : length c.memswpsz ≡ 4
  pub memswpsz : All (λ n. n < 2 ^ 31) c.memswpsz
  pub count : c.num_processes ≡ length c.ld_processes
  pub entries : All InRange c.ld_processes

-- Reading the text that a well-formed configuration is printed to gives the configuration back,
-- whatever the statics and the fresh memory held, with PAGING_MAX_MMSWP swap sizes.
pub read_config-print_config :
    (fresh : ℕ → Entry) (old c : Config)
    → length old.memswpsz ≡ 4
    → WellFormed c
    → read_config fresh old (some (print_config c)) ≡ some c
unfolding read_config print_config scan_int
read_config-print_config fresh old c n w =
    let a = int_of-small c.time_slot w.time_slot in
    let b = int_of-small c.num_cpus w.num_cpus in
    let d = int_of-small c.num_processes w.num_processes in
    let e = int_of-small c.memramsz w.memramsz in
    let r : rounds c.num_processes ≡ length c.ld_processes =
      ground (arith, w.num_processes, w.count) in
    let s =
      scan_sizes-print_sizes old.memswpsz c.memswpsz (line_end ∷ print_entries c.ld_processes)
        (n ∙ sym w.swap_count) w.memswpsz in
    let t = (scan_entries-print c.ld_processes 0 fresh w.entries).1 in simp (a, b, d, e, r, s, t)
