-- ===== src/Mapping/Ownership.antt =====
-- Mapping pages to frames taken off the free list keeps every frame with one owner.
use os_assignment_nhom.Base.{
  ℕ, zero, suc, ◌+◌, ◌*◌, ◌%◌, ◌≤◌, ◌≡◌, refl, ap, ◌∙◌, arith, true, Option, List, [], ◌∷◌, ◌++◌,
  length, take, drop, leb, update, ◌==◌, Bool-cases, inl, inr,
}
use Prim.Native.Nat.{bit_or}
use os_assignment_nhom.Base.Word.{u32, u64}
use os_assignment_nhom.Pte.{present_mask, page_swapped}
use os_assignment_nhom.Pte.Fields.{page_swapped-eq}
use os_assignment_nhom.Pte.Codec.{Online}
use os_assignment_nhom.Mm.{Mm, Table}
use os_assignment_nhom.Memphy.{Memphy}
use os_assignment_nhom.PageTable.{pte_get_entry, table_of, get_pd_from_address}
use os_assignment_nhom.PageTable.Entry.{pte_get_entry-eq}
use os_assignment_nhom.PageTable.Ownership.{
  Owned, replaced-Owned, Fewer, same-Fewer, lost-Owned, given_to-Owned,
}
use os_assignment_nhom.Mapping.{
  put_entry, memset_loop, vmap_pgd_memset, page_at, with_tables, map_loop, vmap_page_range,
  vm_map_ram,
}
use os_assignment_nhom.Mapping.Loop.{mapped, map_loop-suc, mapped_entry}
use os_assignment_nhom.Mapping.Pages.{with_tables-entry}
use os_assignment_nhom.Mapping.Alloc.{vm_map_ram_enough, vm_map_ram_short}

one_mapped :
    (mms : ℕ → Mm) (pid pgit addr f : ℕ) (pool : List ℕ) (mm : Mm)
    → Owned (update mms pid mm) (f ∷ pool)
    → Owned (update mms pid (mapped pgit addr f mm)) pool
one_mapped mms pid pgit addr f pool mm w =
    let e = λ (q : ℕ). mapped_entry pgit addr f mm q in
    given_to-Owned mms f pool pid (page_at addr pgit) mm (mapped pgit addr f mm) w (e 0).0
      (λ q. (e q).1)

map_loop-Owned :
    (mms : ℕ → Mm) (pid pgit addr : ℕ) (frames pool : List ℕ) (mm : Mm)
    → Owned (update mms pid mm) (frames ++ pool)
    → Owned (update mms pid (map_loop (length frames) pgit addr frames mm).1) pool
unfolding map_loop
map_loop-Owned mms pid pgit addr [] pool mm w = w
map_loop-Owned mms pid pgit addr (f ∷ fs) pool mm w =
    rw (map_loop-suc (length fs) pgit addr (f ∷ fs) mm) (
      map_loop-Owned mms pid (suc pgit) addr fs pool (mapped pgit addr f mm)
        (one_mapped mms pid pgit addr f (fs ++ pool) mm w))

vmap_page_range-Owned :
    (mms : ℕ → Mm) (pid addr : ℕ) (frames pool : List ℕ) (mm : Mm)
    → Owned (update mms pid mm) (frames ++ pool)
    → Owned (update mms pid (vmap_page_range mm addr (length frames) frames).1) pool
unfolding vmap_page_range
vmap_page_range-Owned mms pid addr frames pool mm w =
    map_loop-Owned mms pid 0 addr frames pool (with_tables mm) (
      replaced-Owned mms pid mm (with_tables mm) (frames ++ pool)
        (same-Fewer mm (with_tables mm) (with_tables-entry mm)) w)

dropped-Owned : (mms : ℕ → Mm) (n : ℕ) (l : List ℕ) → Owned mms l → Owned mms (drop n l)
dropped-Owned mms zero l w = w
dropped-Owned mms (suc n) [] w = w
dropped-Owned mms (suc n) (f ∷ l) w = dropped-Owned mms n l (lost-Owned mms f l w)

take-drop : (n : ℕ) (l : List ℕ) → take n l ++ drop n l ≡ l
take-drop zero l = refl
take-drop (suc n) [] = refl
take-drop (suc n) (x ∷ l) = ap (λ (r : List ℕ). x ∷ r) (take-drop n l)

length-take_le : (n : ℕ) (l : List ℕ) → n ≤ length l → length (take n l) ≡ n
length-take_le zero l h = refl
length-take_le (suc n) [] h = absurd (omega (arith, h))
length-take_le (suc n) (x ∷ l) h = ap suc (length-take_le n l (omega (arith, h)))

-- Whether there are enough frames or not.
pub vm_map_ram-Owned :
    (mms : ℕ → Mm) (pid mapstart n : ℕ) (mm : Mm) (mram : Memphy)
    → Owned (update mms pid mm) mram.free_fp_list
    → let (ret, mm', mram') = vm_map_ram mm mram mapstart n in
      Owned (update mms pid mm') mram'.free_fp_list
vm_map_ram-Owned mms pid mapstart n mm mram w =
    let l : List ℕ = mram.free_fp_list in
    elim (Bool-cases (leb n (length l))) [
      | inl y ↦
          let enough : n ≤ length l = ground arith in
          let k = length-take_le n l enough in
          let v =
            vmap_page_range-Owned mms pid mapstart (take n l) (drop n l) mm
              (rw (take-drop n l) w) in
          rw (vm_map_ram_enough mm mram mapstart n enough) (rw k at v)
      | inr y ↦
          rw (vm_map_ram_short mm mram mapstart n (ground arith))
            (dropped-Owned (update mms pid mm) n l w)
    ]

-- What `vmap_pgd_memset` stores reads as swapped.
pattern-not_Online : (f : ℕ) → Online (u32 (bit_or 0xdeadbeef present_mask)) f → ⊥
pattern-not_Online f m =
    let z : page_swapped (u32 (bit_or 0xdeadbeef present_mask)) ≡ true =
      page_swapped-eq (u32 (bit_or 0xdeadbeef present_mask)) ∙ ground arith in
    cc (z, m.unswapped)

memset_round-Fewer :
    (mm mm' : Mm) (i : ℕ)
    → mm'.pt ≡ put_entry mm.pt i (bit_or 0xdeadbeef present_mask)
    → Fewer mm mm'
memset_round-Fewer mm mm' i e q f o =
    let here : pte_get_entry mm' q
        ≡ u32 (update (table_of mm.pt) i (bit_or 0xdeadbeef present_mask) (q % 512)) =
      pte_get_entry-eq mm' q ∙ ap (λ (t : Option Table). u32 (table_of t (q % 512))) e in
    elim (Bool-cases (q % 512 == i)) [
      | inl y ↦ absurd (pattern-not_Online f (rw y at (rw here at o)))
      | inr y ↦ rw (pte_get_entry-eq mm q) (rw y at (rw here at o))
    ]

memset_loop-Fewer : (n pgit addr : ℕ) (mm : Mm) → Fewer mm (memset_loop n pgit addr mm).1
unfolding memset_loop
memset_loop-Fewer zero pgit addr mm q f o = o
memset_loop-Fewer (suc n) pgit addr mm q f o =
    let a = get_pd_from_address (u64 (addr + pgit * 4096)) in
    let pattern : ℕ = bit_or 0xdeadbeef present_mask in
    let mm' : Mm = record mm {
      pgd = put_entry mm.pgd a.1.pgd pattern;
      p4d = put_entry mm.p4d a.1.p4d pattern;
      pud = put_entry mm.pud a.1.pud pattern;
      pmd = put_entry mm.pmd a.1.pmd pattern;
      pt = put_entry mm.pt a.1.pt pattern;
    } in
    elim (Bool-cases a.0) [
      | inl y ↦
          memset_round-Fewer mm mm' a.1.pt refl q f
            (memset_loop-Fewer n (suc pgit) addr mm' q f (rw y at o))
      | inr y ↦ rw y at o
    ]

pub vmap_pgd_memset-Owned :
    (mms : ℕ → Mm) (pid addr n : ℕ) (mm : Mm) (pool : List ℕ)
    → Owned (update mms pid mm) pool
    → Owned (update mms pid (vmap_pgd_memset mm addr n).1) pool
unfolding vmap_pgd_memset
vmap_pgd_memset-Owned mms pid addr n mm pool w =
    replaced-Owned mms pid (with_tables mm) _ pool (memset_loop-Fewer n 0 addr (with_tables mm)) (
      replaced-Owned mms pid mm (with_tables mm) pool
        (same-Fewer mm (with_tables mm) (with_tables-entry mm)) w)
