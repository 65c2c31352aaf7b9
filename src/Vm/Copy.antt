-- ===== src/Vm/Copy.antt =====
-- Copying a frame between two devices: `__swap_cp_page`.
use os_assignment_nhom.Base.{
  ℕ, zero, suc, ◌+◌, ◌-◌, ◌*◌, ◌/◌, ◌^◌, ◌<◌, ◌≤◌, ◌≡◌, ◌⊎◌, refl, inr, arith, true, ◌&&◌, ltb, leb,
  if◌then◌else◌, update,
}
use os_assignment_nhom.Base.Word.{u64}
use os_assignment_nhom.Memphy.{Memphy}
use os_assignment_nhom.Memphy.Storage.{read_in_range, write_in_range}
use os_assignment_nhom.Vm.{copy_loop, swap_cp_page}

-- Two random-access devices, with the 256 bytes at each place in range.
pub record InRange (src : Memphy) (srcfpn : ℕ) (dst : Memphy) (dstfpn : ℕ) : Type 0 where
  pub src_random : src.rdmflg ≡ true
  pub dst_random : dst.rdmflg ≡ true
  pub src_fits : srcfpn * 256 + 256 ≤ src.maxsz
  pub dst_fits : dstfpn * 256 + 256 ≤ dst.maxsz
  pub src_small : src.maxsz < 2 ^ 64
  pub dst_small : dst.maxsz < 2 ^ 64

-- One round.
copied : Memphy → ℕ → Memphy → ℕ → ℕ → Memphy
copied src srcfpn dst dstfpn c = record dst {
  storage = update dst.storage (dstfpn * 256 + c) (src.storage (srcfpn * 256 + c));
}

copied-InRange :
    (src : Memphy) (srcfpn : ℕ) (dst : Memphy) (dstfpn c : ℕ)
    → InRange src srcfpn dst dstfpn
    → InRange src srcfpn (copied src srcfpn dst dstfpn c) dstfpn
unfolding copied
copied-InRange src srcfpn dst dstfpn c r = record {
  src_random = r.src_random;
  dst_random = r.dst_random;
  src_fits = r.src_fits;
  dst_fits = r.dst_fits;
  src_small = r.src_small;
  dst_small = r.dst_small;
}

copy_loop-suc :
    (junk : ℕ → ℕ) (n c : ℕ) (src : Memphy) (srcfpn : ℕ) (dst : Memphy) (dstfpn : ℕ)
    → InRange src srcfpn dst dstfpn
    → c < 256
    → copy_loop junk (suc n) c src srcfpn dst dstfpn
      ≡ copy_loop junk n (suc c) src srcfpn (copied src srcfpn dst dstfpn c) dstfpn
unfolding copy_loop copied
copy_loop-suc junk n c src srcfpn dst dstfpn r h =
    let a : u64 (srcfpn * 256 + c) ≡ srcfpn * 256 + c = omega (arith, r.src_fits, r.src_small) in
    let b : u64 (dstfpn * 256 + c) ≡ dstfpn * 256 + c = omega (arith, r.dst_fits, r.dst_small) in
    let x = read_in_range src (srcfpn * 256 + c) r.src_random (omega (arith, r.src_fits)) in
    let y =
      write_in_range dst (dstfpn * 256 + c) (src.storage (srcfpn * 256 + c)) r.dst_random
        (omega (arith, r.dst_fits)) in
    rw (a, b, x, y)

-- What the rounds from `c` on leave.
record Copied (n c : ℕ) (src : Memphy) (srcfpn : ℕ) (dst : Memphy) (dstfpn : ℕ)
    (r : Memphy × Memphy) : Type 0 where
  source : r.0 ≡ src
  rdmflg : r.1.rdmflg ≡ dst.rdmflg
  maxsz : r.1.maxsz ≡ dst.maxsz
  free_fp_list : r.1.free_fp_list ≡ dst.free_fp_list
  bytes :
      (a : ℕ)
      → r.1.storage a ≡ (
          if leb (dstfpn * 256 + c) a && ltb a (dstfpn * 256 + c + n)
          then src.storage (srcfpn * 256 + (a - dstfpn * 256))
          else dst.storage a)

copy_loop-Copied :
    (junk : ℕ → ℕ) (n c : ℕ) (src : Memphy) (srcfpn : ℕ) (dst : Memphy) (dstfpn : ℕ)
    → InRange src srcfpn dst dstfpn
    → c + n ≤ 256
    → Copied n c src srcfpn dst dstfpn (copy_loop junk n c src srcfpn dst dstfpn)
unfolding copy_loop copied
copy_loop-Copied junk zero c src srcfpn dst dstfpn r h = record {
  source = refl;
  rdmflg = refl;
  maxsz = refl;
  free_fp_list = refl;
  bytes = λ a. ground arith;
}
copy_loop-Copied junk (suc n) c src srcfpn dst dstfpn r h =
    let w =
      copy_loop-Copied junk n (suc c) src srcfpn (copied src srcfpn dst dstfpn c) dstfpn
        (copied-InRange src srcfpn dst dstfpn c r) (omega arith) in
    rw (copy_loop-suc junk n c src srcfpn dst dstfpn r (omega arith)) (record {
      source = w.source;
      rdmflg = w.rdmflg;
      maxsz = w.maxsz;
      free_fp_list = w.free_fp_list;
      bytes = λ a. ground (arith, w.bytes a);
    })

-- Between two random-access devices, with the 256 bytes from `256 * fpn` in range on both, the
-- copy leaves the source as it was, and on the destination writes exactly those 256 bytes, each
-- with the byte at the same place of the source.
swap_cp_page_copies :
    (junk : ℕ → ℕ) (src : Memphy) (srcfpn : ℕ) (dst : Memphy) (dstfpn : ℕ)
    → InRange src srcfpn dst dstfpn
    → let (src', dst') = swap_cp_page junk src srcfpn dst dstfpn in
      (src' ≡ src)
      × ((k : ℕ) → k < 256 → dst'.storage (dstfpn * 256 + k) ≡ src.storage (srcfpn * 256 + k))
      × ((a : ℕ) → (a < dstfpn * 256) ⊎ (dstfpn * 256 + 256 ≤ a) → dst'.storage a ≡ dst.storage a)
unfolding swap_cp_page
swap_cp_page_copies junk src srcfpn dst dstfpn r =
    let w = copy_loop-Copied junk 256 0 src srcfpn dst dstfpn r (omega arith) in
    (
      w.source,
      λ k h.
          (let e : dstfpn * 256 + k - dstfpn * 256 ≡ k = omega arith in
            ground (arith, w.bytes (dstfpn * 256 + k), e)),
      λ a h. ground (arith, w.bytes a, h),
    )

-- A frame of the devices has 4096 bytes: no byte of a destination frame from 1 on is written.
pub swap_cp_page_misses :
    (junk : ℕ → ℕ) (src : Memphy) (srcfpn : ℕ) (dst : Memphy) (dstfpn : ℕ)
    → InRange src srcfpn dst dstfpn
    → 0 < dstfpn
    → (a : ℕ) → a / 4096 ≡ dstfpn
    → (swap_cp_page junk src srcfpn dst dstfpn).1.storage a ≡ dst.storage a
swap_cp_page_misses junk src srcfpn dst dstfpn r p a h =
    (swap_cp_page_copies junk src srcfpn dst dstfpn r).2 a (inr (omega arith))
