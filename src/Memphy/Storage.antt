-- ===== src/Memphy/Storage.antt =====
-- Reading and writing a device's bytes.
use os_assignment_nhom.Base.{
  ℕ, zero, suc, ◌+◌, ◌%◌, ◌<◌, ◌≤◌, ◌≡◌, refl, true, false, none, some, ltb, ◌==◌, if◌then◌else◌,
  update, arith, Bool-cases, inl, inr,
}
use os_assignment_nhom.Memphy.{Memphy, mv_csr_loop, mv_csr, seq_read, read, seq_write, write}

-- On a random-access device a read returns the byte last written at that address, and any other
-- address reads as before: in range a write succeeds, and reads after it see `update`.
read-write :
    (mp : Memphy) (a b v : ℕ)
    → mp.rdmflg ≡ true
    → a < mp.maxsz
    → ((write mp a v).0 ≡ true)
      × ((read (write mp a v).1 b).0 ≡ (if b == a then some v else (read mp b).0))
unfolding read write
read-write mp a b v r h = ground arith

-- Out of range a random-access device refuses both, and neither changes it.
pub out_of_range :
    (mp : Memphy) (a v : ℕ)
    → mp.rdmflg ≡ true
    → mp.maxsz ≤ a
    → (read mp a ≡ (none, mp)) × (write mp a v ≡ (false, mp))
unfolding read write
out_of_range mp a v r h = ground arith

-- A sequential device serves no access at all: `MEMPHY_read` and `MEMPHY_write` hand over to the
-- sequential routines exactly when `rdmflg` is 0, and those return -1 exactly then.
sequential_dead :
    (mp : Memphy) (a v : ℕ)
    → mp.rdmflg ≡ false
    → (read mp a ≡ (none, mp)) × (write mp a v ≡ (false, mp))
unfolding read write seq_read seq_write
sequential_dead mp a v r = ground arith

next_cursor : (c m n : ℕ) → c ≡ n → suc n < m → (c + 1) % m ≡ suc n
next_cursor c m n e h = grind arith

mv_csr_loop-cursor :
    (n numstep offset : ℕ) (mp : Memphy)
    → mp.maxsz ≤ numstep + n
    → numstep ≤ offset
    → offset < mp.maxsz
    → mp.cursor ≡ numstep
    → (mv_csr_loop n numstep offset mp).cursor ≡ offset
unfolding mv_csr_loop
mv_csr_loop-cursor zero numstep offset mp f lo hi e = absurd (omega arith)
mv_csr_loop-cursor (suc n) numstep offset mp f lo hi e = elim (Bool-cases (ltb numstep offset)) [
  | inl t ↦
      let u : ltb numstep mp.maxsz ≡ true = ground arith in
      rw (t, u)
        (mv_csr_loop-cursor n (suc numstep) offset
          (record mp { cursor = (mp.cursor + 1) % mp.maxsz }) (omega arith) (ground arith) hi
          (next_cursor mp.cursor mp.maxsz numstep e (ground arith)))
  | inr t ↦ rw t (ground arith)
]

-- `MEMPHY_mv_csr` ends, within `maxsz` rounds, with the cursor at an offset in range.
mv_csr-cursor : (mp : Memphy) (offset : ℕ) → offset < mp.maxsz → (mv_csr mp offset).cursor ≡ offset
unfolding mv_csr
mv_csr-cursor mp offset h =
    mv_csr_loop-cursor mp.maxsz 0 offset (record mp { cursor = 0 }) (omega arith) (omega arith) h
      refl

-- In range a random-access device gives the byte, and stores it.
pub read_in_range :
    (mp : Memphy) (a : ℕ) → mp.rdmflg ≡ true → a < mp.maxsz → read mp a ≡ (some (mp.storage a), mp)
unfolding read
read_in_range mp a r h = ground arith

pub write_in_range :
    (mp : Memphy) (a v : ℕ)
    → mp.rdmflg ≡ true
    → a < mp.maxsz
    → write mp a v ≡ (true, record mp { storage = update mp.storage a v })
unfolding write
write_in_range mp a v r h = ground arith
