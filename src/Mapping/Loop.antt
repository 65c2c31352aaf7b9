-- ===== src/Mapping/Loop.antt =====
-- Which entries the mapping loop writes, round by round.
use os_assignment_nhom.Base.{
  ℕ, zero, suc, ◌+◌, ◌*◌, ◌%◌, ◌^◌, ◌<◌, ◌≤◌, ◌≡◌, ◌≢◌, refl, ◌∙◌, ap, Bool, List, [], ◌∷◌, ◌++◌,
  arith,
}
use os_assignment_nhom.Mm.{Mm}
use os_assignment_nhom.Pte.Codec.{Online}
use os_assignment_nhom.PageTable.{pte_set_fpn, pte_get_entry}
use os_assignment_nhom.PageTable.Entry.{pte_get_entry-pt, pte_set_fpn-pt, pte_get_entry-pte_set_fpn}
use os_assignment_nhom.Mapping.{frame_or, next_frames, page_at, enlist_pgn_node, map_loop}

-- The frame that the loop takes `k` rounds on, which is then round `pgit`.
abbrev pub frame_for : ℕ → List ℕ → ℕ → ℕ
frame_for zero frames pgit = frame_or frames pgit
frame_for (suc k) frames pgit = frame_for k (next_frames frames) pgit

-- The pages of rounds `pgit` to `pgit + n - 1`, the last one first.
abbrev pub pages_from : ℕ → ℕ → ℕ → List ℕ
pages_from zero pgit addr = []
pages_from (suc n) pgit addr = pages_from n (suc pgit) addr ++ (page_at addr pgit ∷ [])

page_at-base : (base j : ℕ) → base + j < 2 ^ 52 → page_at (4096 * base) j ≡ base + j
page_at-base base j h = omega arith

-- One round of the loop.
unfoldable pub mapped : ℕ → ℕ → ℕ → Mm → Mm
unfolding enlist_pgn_node
mapped pgit addr f mm =
    let mm' = (pte_set_fpn mm (page_at addr pgit) f).1 in
    record mm' { fifo_pgn = enlist_pgn_node mm'.fifo_pgn (page_at addr pgit) }

mapped-entry :
    (pgit addr f : ℕ) (mm : Mm) (q : ℕ)
    → pte_get_entry (mapped pgit addr f mm) q
      ≡ pte_get_entry (pte_set_fpn mm (page_at addr pgit) f).1 q
unfolding mapped
mapped-entry pgit addr f mm q = pte_get_entry-pt _ _ q refl

pub map_loop-suc :
    (n pgit addr : ℕ) (frames : List ℕ) (mm : Mm)
    → map_loop (suc n) pgit addr frames mm
      ≡ map_loop n (suc pgit) addr (next_frames frames) (mapped pgit addr (frame_or frames pgit) mm)
unfolding map_loop mapped
map_loop-suc n pgit addr frames mm =
    let s = (pte_set_fpn-pt mm (page_at addr pgit) (frame_or frames pgit)).0 in rw s

pub mapped_entry :
    (pgit addr f : ℕ) (mm : Mm) (q : ℕ)
    → Online (pte_get_entry (mapped pgit addr f mm) (page_at addr pgit)) (f % 2 ^ 13)
      × (q % 512 ≢ page_at addr pgit % 512
          → pte_get_entry (mapped pgit addr f mm) q ≡ pte_get_entry mm q)
mapped_entry pgit addr f mm q =
    let w = pte_get_entry-pte_set_fpn mm (page_at addr pgit) f q in
    (
      rw (mapped-entry pgit addr f mm (page_at addr pgit)) w.0,
      λ ne. mapped-entry pgit addr f mm q ∙ w.1 ne,
    )

-- A page that no round maps keeps its entry.
pub map_loop_other :
    (n pgit base : ℕ) (frames : List ℕ) (mm : Mm) (q : ℕ)
    → base + (pgit + n) ≤ 2 ^ 52
    → ((j : ℕ) → pgit ≤ j → j < pgit + n → q % 512 ≢ (base + j) % 512)
    → pte_get_entry (map_loop n pgit (4096 * base) frames mm).1 q ≡ pte_get_entry mm q
unfolding map_loop
map_loop_other zero pgit base frames mm q b ne = refl
map_loop_other (suc n) pgit base frames mm q b ne =
    let p : page_at (4096 * base) pgit ≡ base + pgit = page_at-base base pgit (omega arith) in
    let m : Mm = mapped pgit (4096 * base) (frame_or frames pgit) mm in
    ap (λ (r : Bool × Mm). pte_get_entry r.1 q) (map_loop-suc n pgit (4096 * base) frames mm)
    ∙ map_loop_other n (suc pgit) base (next_frames frames) m q (omega arith)
        (λ j lo hi. ne j (omega arith) (omega arith))
    ∙ (mapped_entry pgit (4096 * base) (frame_or frames pgit) mm q).1
        (rw p (ne pgit (omega arith) (omega arith)))

-- The round that maps a page puts it online, and no later round touches it.
pub map_loop-Online :
    (n k pgit base : ℕ) (frames : List ℕ) (mm : Mm)
    → base + (pgit + n) ≤ 2 ^ 52
    → n ≤ 512
    → k < n
    → Online
        (pte_get_entry (map_loop n pgit (4096 * base) frames mm).1 (base + (pgit + k)))
        (frame_for k frames (pgit + k) % 2 ^ 13)
map_loop-Online zero k pgit base frames mm b s h = absurd (omega arith)
map_loop-Online (suc n) zero pgit base frames mm b s h =
    let p : page_at (4096 * base) pgit ≡ base + pgit = page_at-base base pgit (omega arith) in
    let z : pgit + 0 ≡ pgit = omega arith in
    let m : Mm = mapped pgit (4096 * base) (frame_or frames pgit) mm in
    let w = (mapped_entry pgit (4096 * base) (frame_or frames pgit) mm (base + pgit)).0 in
    rw (map_loop-suc n pgit (4096 * base) frames mm, z)
      (rw
        (map_loop_other n (suc pgit) base (next_frames frames) m (base + pgit) (omega arith)
          (λ j lo hi. omega arith))
        (rw p at w))
map_loop-Online (suc n) (suc k) pgit base frames mm b s h =
    let c : pgit + suc k ≡ suc pgit + k = omega arith in
    rw (map_loop-suc n pgit (4096 * base) frames mm, c)
      (map_loop-Online n k (suc pgit) base (next_frames frames) _ (omega arith) (omega arith)
        (omega arith))
