-- ===== src/PageTable/Fresh.antt =====
-- Processes without a page.
use os_assignment_nhom.Base.{
  ℕ, ◌^◌, ◌<◌, ◌≡◌, refl, ◌∙◌, some, List, All, update, ◌==◌, Bool-cases, inl, inr,
}
use os_assignment_nhom.Mm.{Mm}
use os_assignment_nhom.Memphy.Frames.{Distinct}
use os_assignment_nhom.Pte.Fields.{page_present-eq}
use os_assignment_nhom.Pte.Codec.{Online}
use os_assignment_nhom.PageTable.{pte_get_entry}
use os_assignment_nhom.PageTable.Entry.{pte_get_entry-eq}
use os_assignment_nhom.PageTable.Ownership.{Owned, Fewer-Owned}

-- No entry of the page table is set.
abbrev pub IsBlank : Mm → Type 0
IsBlank mm = (q : ℕ) → pte_get_entry mm q ≡ 0

blank-not_Online : (mm : Mm) (q f : ℕ) → IsBlank mm → Online (pte_get_entry mm q) f → ⊥
blank-not_Online mm q f e o = cc (page_present-eq 0, rw (e q) at o.present)

pub zeroes-IsBlank : (mm : Mm) → mm.pt ≡ some (λ _. 0) → IsBlank mm
zeroes-IsBlank mm e q = pte_get_entry-eq mm q ∙ rw e refl

-- Before any process has a page, a list of different frames is all there is.
pub fresh-Owned :
    (mms : ℕ → Mm) (pool : List ℕ)
    → ((pid : ℕ) → IsBlank (mms pid))
    → Distinct pool
    → All (λ f. f < 2 ^ 13) pool
    → Owned mms pool
fresh-Owned mms pool e d a = record {
  distinct = d;
  fit = a;
  unmapped = λ pid q f h m. absurd (blank-not_Online (mms pid) q f (e pid) m);
  unique = λ pid q pid' q' f h h' m m'. absurd (blank-not_Online (mms pid) q f (e pid) m);
}

-- A process starts over with no page.
pub blank-Owned :
    (mms : ℕ → Mm) (pid : ℕ) (mm : Mm) (pool : List ℕ)
    → IsBlank mm
    → Owned mms pool
    → Owned (update mms pid mm) pool
blank-Owned mms pid mm pool e w =
    Fewer-Owned mms (update mms pid mm) pool
      (λ i q f m. elim (Bool-cases (i == pid)) [
        | inl y ↦ absurd (blank-not_Online mm q f e (rw y at m))
        | inr y ↦ rw y at m
      ])
      w
