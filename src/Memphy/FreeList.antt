-- ===== src/Memphy/FreeList.antt =====
-- Reading and writing a device leaves its list of free frames alone.
use os_assignment_nhom.Base.{ℕ, ◌≡◌, arith}
use os_assignment_nhom.Memphy.{Memphy, seq_read, read, seq_write, write}

pub read-free_fp_list : (mp : Memphy) (addr : ℕ) → (read mp addr).1.free_fp_list ≡ mp.free_fp_list
unfolding read seq_read
read-free_fp_list mp addr = ground arith

pub write-free_fp_list :
    (mp : Memphy) (addr v : ℕ) → (write mp addr v).1.free_fp_list ≡ mp.free_fp_list
unfolding write seq_write
write-free_fp_list mp addr v = ground arith
