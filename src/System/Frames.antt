-- ===== src/System/Frames.antt =====
-- The frames of the RAM under the whole program, while there are free ones.
use os_assignment_nhom.Base.{
  ℕ, ◌+◌, ◌*◌, ◌/◌, ◌^◌, ◌<◌, ◌≤◌, ◌≡◌, refl, arith, true, Option, some, List, [], ◌∷◌, All,
}
use mathlib.Core.Option.{map}
use os_assignment_nhom.Base.Word.{u32}
use os_assignment_nhom.Memphy.{Memphy, pagesz64, init_memphy}
use os_assignment_nhom.Memphy.Frames.{init_memphy_frames, init_memphy-maxsz}
use os_assignment_nhom.PageTable.Fresh.{IsBlank, fresh-Owned, blank-Owned}
use os_assignment_nhom.Region.Tables.{init_mm-IsBlank}
use os_assignment_nhom.Kernel.Ownership.{FramesOwned}
use os_assignment_nhom.Loader.{Token}
use os_assignment_nhom.Config.{Config}
use os_assignment_nhom.Os.{Machine, Status, waits, stops, Loading}
use os_assignment_nhom.Os.Slots.{Arrival, exits, ends, not_due, enters, ld_slot-Arrival}
use os_assignment_nhom.Os.Frames.{cpu_slot-FramesOwned}
use os_assignment_nhom.System.{System, Image, boot, Turn, cpu, ld, cpu_turn, ld_turn, ld_result}

-- What the threads make of the state `b` while some frame of the RAM is free before each slot.
pub data Roomy (n : ℕ) (b : System) : System → Type 0 where
  start : Roomy n b b
  later :
      (f : ℕ) (l : List ℕ) {s t : System}
      → Roomy n b s
      → s.machine.krnl.mram.free_fp_list ≡ f ∷ l
      → Turn n s t
      → Roomy n b t

Arrival-FramesOwned :
    (s t : System) (r : Option (Status × Machine × Loading))
    → FramesOwned s.machine.krnl
    → Arrival s.machine s.loading r
    → map (ld_result s) r ≡ some t
    → FramesOwned t.machine.krnl
unfolding ld_result
Arrival-FramesOwned s t r w (exits e) h = cc (rw e at h)
Arrival-FramesOwned s t r w (ends l e) h =
    let same : ld_result s (stops, record (s.machine) { done = true }, s.loading) ≡ t =
      cc (rw e at h) in
    rw (← same) w
Arrival-FramesOwned s t r w (not_due e) h =
    let same : ld_result s (waits, s.machine, s.loading) ≡ t = cc (rw e at h) in rw (← same) w
Arrival-FramesOwned s t r w (enters e rest m' l eq a) h =
    let ld' : Loading = record { left = rest; avail_pid = u32 (s.loading.avail_pid + 1) } in
    let same : ld_result s (waits, m', ld') ≡ t = cc (rw eq at h) in
    rw (← same, a.memory, a.mram)
      (blank-Owned s.machine.krnl.mm s.loading.avail_pid _ s.machine.krnl.mram.free_fp_list
        (init_mm-IsBlank a.free_rg) w)

Roomy-FramesOwned :
    {n : ℕ} {b s : System} → FramesOwned b.machine.krnl → Roomy n b s → FramesOwned s.machine.krnl
unfolding cpu_turn ld_turn
Roomy-FramesOwned w start = w
Roomy-FramesOwned w (later f l {s} r n (cpu junk i h k)) =
    cpu_slot-FramesOwned junk f l s.machine (s.threads i).time_left (s.threads i).proc n
      (Roomy-FramesOwned w r)
Roomy-FramesOwned w (later f l {s} {t} r n (ld uninit free_rg now k e)) =
    Arrival-FramesOwned s t _ (Roomy-FramesOwned w r)
      (ld_slot-Arrival uninit free_rg now s.machine s.loading s.loading.left refl) e

frames_fit :
    (n : ℕ) (l : List ℕ)
    → n ≤ 2 ^ 25
    → All (λ f. (f + 1) * pagesz64 ≤ n) l
    → All (λ f. f < 2 ^ 13) l
frames_fit n [] b a = tt
frames_fit n (f ∷ l) b a = (omega (arith, a.0, b), frames_fit n l b a.1)

boot-FramesOwned :
    (image : Image) (files : Token → Option (List Token)) (c : Config)
    → ((pid : ℕ) → IsBlank (image.mm pid))
    → 2 ≤ c.memramsz / pagesz64
    → c.memramsz ≤ 2 ^ 25
    → FramesOwned (boot image files c).machine.krnl
unfolding boot
boot-FramesOwned image files c z lo hi =
    let d : Memphy = init_memphy image.uninit image.mram c.memramsz true in
    let w = init_memphy_frames image.uninit image.mram c.memramsz true lo (omega (arith, hi)) in
    let size : d.maxsz ≡ c.memramsz = init_memphy-maxsz image.uninit image.mram c.memramsz true in
    fresh-Owned image.mm d.free_fp_list z w.1
      (frames_fit d.maxsz d.free_fp_list (omega (arith, size, hi)) w.2)

-- With one CPU no two pages share a frame: with a RAM of at least two pages and at most 2^25 bytes,
-- and no page set in the memory structures before the start, at every state that the CPU and the
-- loader reach, in any order of their slots, as long as some frame was free before each slot, every
-- frame of the RAM is free, once, or the frame of one page of one process that is present and not
-- marked swapped, or of no such page. (Pages marked swapped, which an access takes for present, are
-- not counted.) The programs are any, and their allocations may run out of frames.
pub unshared :
    (image : Image) (files : Token → Option (List Token)) (c : Config) {s : System}
    → ((pid : ℕ) → IsBlank (image.mm pid))
    → 2 ≤ c.memramsz / pagesz64
    → c.memramsz ≤ 2 ^ 25
    → Roomy 1 (boot image files c) s
    → FramesOwned s.machine.krnl
unshared image files c z lo hi r = Roomy-FramesOwned (boot-FramesOwned image files c z lo hi) r
