-- ===== src/Memphy.antt =====
-- ossim_lamiaatrium/src/mm-memphy.c: a physical device, the RAM or a swap, with its list of free
-- frames. `storage` is a function of the address; every access that the code makes is checked
-- against `maxsz` first. A byte is its value below 256, and is only moved. `mp` is never NULL:
-- the callers pass the address of a device that `main` owns.
pub mod FreeList
pub mod Storage
pub mod Frames
use os_assignment_nhom.Base.{
  ℕ, zero, suc, ◌+◌, ◌/◌, ◌%◌, ◌^◌, Bool, true, false, not, ◌&&◌, ◌||◌, Option, none, some, List,
  [], ◌∷◌, ltb, leb, ◌==◌, if◌then◌else◌, update,
}

pub record Memphy : Type 0 where
  pub storage : ℕ → ℕ
  pub maxsz : ℕ
  pub rdmflg : Bool
  pub cursor : ℕ
  pub free_fp_list : List ℕ

-- The loop of `MEMPHY_mv_csr`, on `maxsz` rounds of fuel: the test stops it by then.
mv_csr_loop : ℕ → ℕ → ℕ → Memphy → Memphy
mv_csr_loop zero numstep offset mp = mp
mv_csr_loop (suc n) numstep offset mp =
    if ltb numstep offset && ltb numstep mp.maxsz
    then mv_csr_loop n (suc numstep) offset (record mp { cursor = (mp.cursor + 1) % mp.maxsz })
    else mp

pub mv_csr : Memphy → ℕ → Memphy
unfolding mv_csr_loop
mv_csr mp offset = mv_csr_loop mp.maxsz 0 offset (record mp { cursor = 0 })

-- A read returns the byte, or `none` for the code's -1, and the device.
pub seq_read : Memphy → ℕ → Option ℕ × Memphy
seq_read mp addr = if not mp.rdmflg then (none, mp) else (some (mp.storage addr), mv_csr mp addr)

pub read : Memphy → ℕ → Option ℕ × Memphy
read mp addr =
    if mp.rdmflg
    then (if leb mp.maxsz addr then (none, mp) else (some (mp.storage addr), mp))
    else seq_read mp addr

-- A write returns whether it succeeded, the code's 0 or -1, and the device.
pub seq_write : Memphy → ℕ → ℕ → Bool × Memphy
seq_write mp addr value =
    if not mp.rdmflg
    then (false, mp)
    else (let mp' = mv_csr mp addr in
        (true, record mp' { storage = update mp'.storage addr value }))

pub write : Memphy → ℕ → ℕ → Bool × Memphy
write mp addr value =
    if mp.rdmflg
    then (if leb mp.maxsz addr
        then (false, mp)
        else (true, record mp { storage = update mp.storage addr value }))
    else seq_write mp addr value

-- The frames that the loop of `MEMPHY_format` links behind one another.
unfoldable pub frames_from : ℕ → ℕ → List ℕ
frames_from zero iter = []
frames_from (suc n) iter = iter ∷ frames_from n (suc iter)

-- `numfp` is an `int`: a quotient that does not fit is cut to 32 bits, and is negative from 2^31.
-- The loop sets the next pointer of every node it adds, and that of the node before. With one
-- frame there is no round, and the one node keeps the pointer that `malloc` left in it: `uninit`
-- is the list that this pointer leads to.
unfoldable pub format : List ℕ → Memphy → ℕ → Bool × Memphy
unfolding frames_from
format uninit mp pagesz =
    let numfp : ℕ = mp.maxsz / pagesz % 2 ^ 32 in
    if numfp == 0 || leb (2 ^ 31) numfp
    then (false, mp)
    else (true, record mp { free_fp_list = if numfp == 1 then 0 ∷ uninit else frames_from numfp 0 })

pub get_freefp : Memphy → Option ℕ × Memphy
get_freefp mp = elim mp.free_fp_list [
  | [] ↦ (none, mp)
  | f ∷ l ↦ (some f, record mp { free_fp_list = l })
]

pub put_freefp : Memphy → ℕ → Memphy
put_freefp mp fpn = record mp { free_fp_list = fpn ∷ mp.free_fp_list }

-- PAGING64_PAGESZ
abbrev pub pagesz64 : ℕ
pagesz64 = 4096

-- `init_memphy`; the result of `MEMPHY_format` is not looked at.
unfoldable pub init_memphy : List ℕ → Memphy → ℕ → Bool → Memphy
init_memphy uninit mp max_size randomflg =
    let fresh = record mp { storage = λ (_ : ℕ). 0; maxsz = max_size; free_fp_list = [] } in
    let mp' = (format uninit fresh pagesz64).1 in
    record mp' { rdmflg = randomflg; cursor = if randomflg then mp'.cursor else 0 }
