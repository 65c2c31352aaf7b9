-- ===== src/FixedMem.antt =====
-- ossim_lamiaatrium/src/mem.c, the memory of the configuration without MM_PAGING, most of whose code
-- has been taken out, and the functions of cpu.c that use it. `dump` only prints.
use Prim.Native.Nat.{bit_and}
use os_assignment_nhom.Base.{
  ℕ, zero, suc, ◌+◌, ◌-◌, ◌*◌, ◌/◌, ◌%◌, ◌^◌, ◌<◌, ◌≡◌, refl, arith, Bool, true, false, Option,
  none, some, List, [], ◌∷◌, ◌==◌, if◌then◌else◌, update, write_below,
}
use os_assignment_nhom.Base.Bits.{bit_and-ones}
use os_assignment_nhom.Base.Word.{u32, u64}
use os_assignment_nhom.Cpu.{Pcb}

-- An entry of `_mem_stat`.
pub record MemStat : Type 0 where
  pub proc : ℕ
  pub index : ℕ
  pub next : ℕ

-- The statics: `_ram` of 2^20 bytes and `_mem_stat` of 2^10 entries.
pub record FixedRam : Type 0 where
  pub ram : ℕ → ℕ
  pub mem_stat : ℕ → MemStat

pub init_mem : FixedRam → FixedRam
init_mem m = record {
  ram = write_below (2 ^ 20) (λ _. 0) m.ram;
  mem_stat = write_below (2 ^ 10) (λ _. record { proc = 0; index = 0; next = 0 }) m.mem_stat;
}

pub get_offset : ℕ → ℕ
get_offset addr = bit_and addr (2 ^ 32 - 1 - u32 ((2 ^ 32 - 1) * 2 ^ 10))

pub get_first_lv : ℕ → ℕ
get_first_lv addr = addr / 2 ^ (10 + 5)

pub get_second_lv : ℕ → ℕ
unfolding get_first_lv
get_second_lv addr = u64 (addr / 2 ^ 10 + (2 ^ 64 - u64 (get_first_lv addr * 2 ^ 5)))

-- The virtual indices of a second-level table.
abbrev pub TransTable : Type 0
TransTable = List ℕ

-- `get_trans_table`, whose loop of `size` rounds has an empty body.
pub get_trans_table : ℕ → ℕ → Option TransTable
get_trans_table index zero = none
get_trans_table index (suc size) = get_trans_table index size

-- The search of the second level.
unfoldable pub holds_index : TransTable → ℕ → Bool
holds_index [] second_lv = false
holds_index (v ∷ l) second_lv = if v == second_lv then true else holds_index l second_lv

unfoldable pub translate_in : Option TransTable → ℕ → Bool
unfolding holds_index
translate_in none second_lv = false
translate_in (some t) second_lv = holds_index t second_lv

-- Whether `translate` returns 1; it never stores an address.
pub translate : ℕ → ℕ → Bool
unfolding translate_in get_trans_table get_second_lv get_first_lv
translate virtual_addr size =
    translate_in (get_trans_table (get_first_lv virtual_addr) size) (get_second_lv virtual_addr)

-- `num_pages` of `alloc_mem`, where the two cases of the conditional are the wrong way round.
pub num_pages : ℕ → ℕ
num_pages size = if size % 1024 == 0 then u32 (size / 1024 + 1) else size / 1024

-- `alloc_mem`: the address and the break pointer, with `mem_avail` as it is set.
unfoldable pub alloc_with : ℕ → ℕ → ℕ → ℕ × ℕ
unfolding num_pages
alloc_with mem_avail size bp =
    if mem_avail == 0 then (0, bp) else (bp, u32 (bp + num_pages size * 1024))

pub alloc_mem : ℕ → ℕ → ℕ × ℕ
unfolding alloc_with
alloc_mem size bp = alloc_with 0 size bp

pub free_mem : ℕ → ℕ
free_mem address = 0

-- `read_mem`: what it returns, and the byte if it stores one. The physical address is one that was
-- never set, `junk`.
pub read_mem : ℕ → FixedRam → ℕ → ℕ → ℕ × Option ℕ
unfolding translate
read_mem junk m address size = if translate address size then (0, some (m.ram junk)) else (1, none)

pub write_mem : ℕ → FixedRam → ℕ → ℕ → ℕ → ℕ × FixedRam
unfolding translate
write_mem junk m address size byte =
    if translate address size then (0, record m { ram = update m.ram junk byte }) else (1, m)

-- `alloc` of cpu.c: what it returns, and the registers.
pub legacy_alloc : Pcb → ℕ → ℕ → ℕ → ℕ × (ℕ → ℕ)
unfolding alloc_mem
legacy_alloc p bp size reg_index =
    let a = (alloc_mem size bp).0 in if a == 0 then (1, p.regs) else (0, update p.regs reg_index a)

pub free_data : Pcb → ℕ → ℕ
unfolding free_mem
free_data p reg_index = free_mem (p.regs reg_index)

-- `read` of cpu.c, whose test takes an error for success; `fresh` is what its variable holds.
pub legacy_read : ℕ → ℕ → FixedRam → Pcb → ℕ → ℕ → ℕ → ℕ → ℕ × (ℕ → ℕ)
unfolding read_mem
legacy_read junk fresh m p size source offset destination =
    let r = read_mem junk m (u64 (p.regs source + offset)) size in
    let value : ℕ = elim r.1 [ none ↦ fresh | some b ↦ b ] in
    if r.0 == 0 then (1, p.regs) else (0, update p.regs destination value)

pub legacy_write : ℕ → FixedRam → Pcb → ℕ → ℕ → ℕ → ℕ → ℕ × FixedRam
unfolding write_mem
legacy_write junk m p size byte destination offset =
    write_mem junk m (u64 (p.regs destination + offset)) size byte

get_trans_table-none : (index size : ℕ) → get_trans_table index size ≡ none
unfolding get_trans_table
get_trans_table-none index zero = refl
get_trans_table-none index (suc size) = get_trans_table-none index size

translate-false : (addr size : ℕ) → translate addr size ≡ false
unfolding translate
translate-false addr size = rw (get_trans_table-none (get_first_lv addr) size) refl

get_offset-eq : (addr : ℕ) → get_offset addr ≡ addr % 2 ^ 10
unfolding get_offset
get_offset-eq addr = bit_and-ones 10 addr

-- An address of 20 bits is its two indices and its offset put together.
get_offset_lem :
    (addr : ℕ)
    → addr < 2 ^ 20
    → (get_first_lv addr * 2 ^ 5 + get_second_lv addr) * 2 ^ 10 + get_offset addr ≡ addr
unfolding get_first_lv get_second_lv
get_offset_lem addr h = omega (arith, h, get_offset-eq addr)

-- Nothing can be allocated, read or written: an allocation fails and moves nothing, a write fails
-- and changes nothing, while a read reports success and hands out what its variable held.
fixed_memory_dead :
    (junk fresh : ℕ) (m : FixedRam) (p : Pcb) (bp size source offset destination byte : ℕ)
    → (legacy_alloc p bp size destination ≡ (1, p.regs))
      × (legacy_write junk m p size byte destination offset ≡ (1, m))
      × (legacy_read junk fresh m p size source offset destination
          ≡ (0, update p.regs destination fresh))
unfolding legacy_alloc legacy_write legacy_read alloc_mem alloc_with read_mem write_mem
fixed_memory_dead junk fresh m p bp size source offset destination byte = (
  refl,
  rw (translate-false (u64 (p.regs destination + offset)) size) refl,
  rw (translate-false (u64 (p.regs source + offset)) size) refl,
)
