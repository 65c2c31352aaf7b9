-- ===== src/Libmem/Isolation.antt =====
-- Paging leaves the scheduler's state as it is.
use os_assignment_nhom.Base.{
  ℕ, ◌≡◌, refl, ◌∙◌, Bool, true, false, not, ◌&&◌, Option, none, some, List, ◌==◌, Bool-cases, inl,
  inr,
}
use os_assignment_nhom.Base.Word.{sign_extend}
use os_assignment_nhom.Memphy.{Memphy, get_freefp}
use os_assignment_nhom.Pte.{page_present, page_swapped}
use os_assignment_nhom.PageTable.{pte_get_entry}
use os_assignment_nhom.Kernel.{Krnl, ScRegs, syscall}
use os_assignment_nhom.Kernel.Isolation.{syscall-sched}
use os_assignment_nhom.Libmem.{
  get_pgn_offset, get_phyaddr, swap_call, swap_in, bring_online, evict_to, evict, fault,
  page_result, pg_getpage, byte_result, getval_at, setval_at, pg_getval, pg_setval,
}

swap_call-sched :
    (junk : ℕ → ℕ) (k : Krnl) (pid a2 a3 : ℕ) → (swap_call junk k pid a2 a3).sched ≡ k.sched
unfolding swap_call
swap_call-sched junk k pid a2 a3 = syscall-sched junk k pid 17 _

swap_in-sched :
    (junk : ℕ → ℕ) (k : Krnl) (pid pte f : ℕ) → (swap_in junk k pid pte f).sched ≡ k.sched
unfolding swap_in
swap_in-sched junk k pid pte f = elim (Bool-cases (not (pte == 0) && page_swapped pte)) [
  | inl e ↦ rw e (swap_call-sched junk k pid _ _)
  | inr e ↦ rw e
]

bring_online-sched : (k : Krnl) (pid pgn fpn : ℕ) → (bring_online k pid pgn fpn).sched ≡ k.sched
unfolding bring_online
bring_online-sched k pid pgn fpn = refl

evict_to-sched :
    (junk : ℕ → ℕ) (k : Krnl) (pid pgn pte vicpgn : ℕ) (f : Option ℕ) (m : Memphy)
    → (evict_to junk k pid pgn pte vicpgn (f, m)).1.sched ≡ k.sched
unfolding evict_to bring_online
evict_to-sched junk k pid pgn pte vicpgn none m = refl
evict_to-sched junk k pid pgn pte vicpgn (some s) m =
    swap_in-sched junk _ pid pte _ ∙ swap_call-sched junk _ pid _ _

evict-sched :
    (junk : ℕ → ℕ) (k : Krnl) (pid pgn pte : ℕ) (v : Option (ℕ × List ℕ))
    → (evict junk k pid pgn pte v).1.sched ≡ k.sched
unfolding evict
evict-sched junk k pid pgn pte none = refl
evict-sched junk k pid pgn pte (some (vicpgn, rest)) =
    evict_to-sched junk _ pid pgn pte vicpgn (get_freefp k.active_mswp).0
      (get_freefp k.active_mswp).1

fault-sched :
    (junk : ℕ → ℕ) (k : Krnl) (pid pgn pte : ℕ) (f : Option ℕ) (m : Memphy)
    → (fault junk k pid pgn pte (f, m)).1.sched ≡ k.sched
unfolding fault bring_online
fault-sched junk k pid pgn pte (some f) m = swap_in-sched junk _ pid pte f
fault-sched junk k pid pgn pte none m = evict-sched junk k pid pgn pte _

page_result-sched :
    (pid page : ℕ) (ok : Bool) (k : Krnl) → (page_result pid page (ok, k)).1.sched ≡ k.sched
unfolding page_result
page_result-sched pid page true k = refl
page_result-sched pid page false k = refl

pg_getpage-sched :
    (junk : ℕ → ℕ) (k : Krnl) (pid pgn : ℕ) → (pg_getpage junk k pid pgn).1.sched ≡ k.sched
unfolding pg_getpage
pg_getpage-sched junk k pid pgn =
    let page : ℕ = sign_extend pgn in
    let pte : ℕ = pte_get_entry (k.mm pid) page in
    elim (Bool-cases (page_present pte)) [
      | inl e ↦ rw e (page_result-sched pid page true k)
      | inr e ↦
          let r = fault junk k pid page pte (get_freefp k.mram) in
          rw e (
            page_result-sched pid page r.0 r.1
            ∙ fault-sched junk k pid page pte (get_freefp k.mram).0 (get_freefp k.mram).1)
    ]

byte_result-sched :
    (ok : Bool) (regs : ScRegs) (k : Krnl) → (byte_result (ok, regs, k)).1.sched ≡ k.sched
unfolding byte_result
byte_result-sched true regs k = refl
byte_result-sched false regs k = refl

getval_at-sched :
    (junk : ℕ → ℕ) (f : Option ℕ) (k : Krnl) (pid off : ℕ)
    → (getval_at junk (f, k) pid off).1.sched ≡ k.sched
unfolding getval_at
getval_at-sched junk none k pid off = refl
getval_at-sched junk (some f) k pid off =
    let r : ScRegs = record { a1 = 4; a2 = sign_extend (get_phyaddr f off); a3 = 0 } in
    let c = syscall junk k pid 17 r in byte_result-sched c.0 c.1 c.2 ∙ syscall-sched junk k pid 17 r

setval_at-sched :
    (junk : ℕ → ℕ) (f : Option ℕ) (k : Krnl) (pid off value : ℕ)
    → (setval_at junk (f, k) pid off value).1.sched ≡ k.sched
unfolding setval_at
setval_at-sched junk none k pid off value = refl
setval_at-sched junk (some f) k pid off value = syscall-sched junk k pid 17 _

pub pg_getval-sched :
    (junk : ℕ → ℕ) (k : Krnl) (pid addr : ℕ) → (pg_getval junk k pid addr).1.sched ≡ k.sched
unfolding pg_getval
pg_getval-sched junk k pid addr =
    let po = get_pgn_offset addr in
    let r = pg_getpage junk k pid po.0 in
    getval_at-sched junk r.0 r.1 pid po.1 ∙ pg_getpage-sched junk k pid (get_pgn_offset addr).0

pub pg_setval-sched :
    (junk : ℕ → ℕ) (k : Krnl) (pid addr value : ℕ)
    → (pg_setval junk k pid addr value).1.sched ≡ k.sched
unfolding pg_setval
pg_setval-sched junk k pid addr value =
    let po = get_pgn_offset addr in
    let r = pg_getpage junk k pid po.0 in
    setval_at-sched junk r.0 r.1 pid po.1 value
    ∙ pg_getpage-sched junk k pid (get_pgn_offset addr).0
