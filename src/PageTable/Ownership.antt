-- ===== src/PageTable/Ownership.antt =====
-- Which page holds which frame, over the memory structures of all processes.
use os_assignment_nhom.Base.{
  ℕ, ◌%◌, ◌^◌, ◌<◌, ◌≡◌, ◌≢◌, sym, ◌∙◌, arith, List, [], ◌∷◌, ◌==◌, All, update, update_self,
  fun_ext, ap, ◌⊎◌, Bool-cases, inl, inr,
}
use mathlib.Core.Path.{subst}
use os_assignment_nhom.Mm.{Mm}
use os_assignment_nhom.Memphy.Frames.{Distinct}
use os_assignment_nhom.Pte.Codec.{Online}
use os_assignment_nhom.PageTable.{pte_get_entry}
use os_assignment_nhom.PageTable.Entry.{pte_get_entry-eq, pte_get_entry-pt}

-- Entry `q` of the page table of process `pid` is online in frame `f`.
abbrev pub Maps : (ℕ → Mm) → ℕ → ℕ → ℕ → Type 0
Maps mms pid q f = Online (pte_get_entry (mms pid) q) f

-- Every frame has at most one owner: it is free, once, or the frame of one page of one process.
-- The numbers of free frames fit the field of an entry.
pub record Owned (mms : ℕ → Mm) (pool : List ℕ) : Type 0 where
  pub distinct : Distinct pool
  pub fit : All (λ f. f < 2 ^ 13) pool
  pub unmapped : (pid q f : ℕ) → q < 512 → Maps mms pid q f → All (λ g. f ≢ g) pool
  pub unique :
      (pid q pid' q' f : ℕ)
      → q < 512
      → q' < 512
      → Maps mms pid q f
      → Maps mms pid' q' f
      → (pid ≡ pid') × (q ≡ q')

-- No entry is online in `mm'` that was not so in `mm`.
abbrev pub Fewer : Mm → Mm → Type 0
Fewer mm mm' = (q f : ℕ) → Online (pte_get_entry mm' q) f → Online (pte_get_entry mm q) f

pub Fewer-Owned :
    (mms mms' : ℕ → Mm) (pool : List ℕ)
    → ((pid : ℕ) → Fewer (mms pid) (mms' pid))
    → Owned mms pool
    → Owned mms' pool
Fewer-Owned mms mms' pool s w = record {
  distinct = w.distinct;
  fit = w.fit;
  unmapped = λ pid q f h m. w.unmapped pid q f h (s pid q f m);
  unique =
      λ pid q pid' q' f h h' m m'. w.unique pid q pid' q' f h h' (s pid q f m) (s pid' q' f m');
}

update_mm : (mms : ℕ → Mm) (pid : ℕ) (a b : Mm) → update (update mms pid a) pid b ≡ update mms pid b
update_mm mms pid a b = fun_ext (λ j. ground arith)

-- A memory structure takes the place of another one.
pub replaced-Owned :
    (mms : ℕ → Mm) (pid : ℕ) (mm mm' : Mm) (pool : List ℕ)
    → Fewer mm mm'
    → Owned (update mms pid mm) pool
    → Owned (update mms pid mm') pool
replaced-Owned mms pid mm mm' pool e w =
    Fewer-Owned (update mms pid mm) (update mms pid mm') pool
      (λ i q f m. elim (Bool-cases (i == pid)) [
        | inl y ↦ rw y (e q f (rw y at m))
        | inr y ↦ rw y (rw y at m)
      ])
      w

pub same-Fewer : (mm mm' : Mm) → ((q : ℕ) → pte_get_entry mm' q ≡ pte_get_entry mm q) → Fewer mm mm'
same-Fewer mm mm' e q f m = rw (e q) at m

-- A free frame is lost.
pub lost-Owned : (mms : ℕ → Mm) (f : ℕ) (pool : List ℕ) → Owned mms (f ∷ pool) → Owned mms pool
lost-Owned mms f pool w = record {
  distinct = w.distinct.1;
  fit = w.fit.1;
  unmapped = λ pid q g h m. (w.unmapped pid q g h m).1;
  unique = w.unique;
}

apart_sym : (f : ℕ) (pool : List ℕ) → All (λ g. g ≢ f) pool → All (λ g. f ≢ g) pool
apart_sym f [] h = tt
apart_sym f (g ∷ l) h = (λ e. h.0 (sym e), apart_sym f l h.1)

module _ (mms : ℕ → Mm) (f : ℕ) (pool : List ℕ) (pid p : ℕ) (mm : Mm) (w : Owned mms (f ∷ pool))
    (on : Online (pte_get_entry mm p) (f % 2 ^ 13))
    (same : (q : ℕ) → q % 512 ≢ p % 512 → pte_get_entry mm q ≡ pte_get_entry (mms pid) q) where
  -- A page that is online after the change is the one given the frame, or was online before.
  after_map :
      (i q g : ℕ)
      → q < 512
      → Maps (update mms pid mm) i q g
      → ((i ≡ pid) × (q ≡ p % 512) × (g ≡ f)) ⊎ Maps mms i q g
  after_map i q g h m = elim (Bool-cases (i == pid)) [
    | inl y ↦ elim (Bool-cases (q == p % 512)) [
      | inl z ↦
          let r : q % 512 ≡ p % 512 = ground (arith, h) in
          let e : pte_get_entry mm q ≡ pte_get_entry mm p =
            pte_get_entry-eq mm q ∙ rw r (sym (pte_get_entry-eq mm p)) in
          let m' = (rw (y, e) at m) in
          let v = w.fit.0 in
          inl (ground arith, ground arith, sym m'.frame ∙ on.frame ∙ omega (arith, v))
      | inr z ↦
          let i_is : i ≡ pid = ground arith in
          let ne : q % 512 ≢ p % 512 = ground (arith, h) in inr (rw i_is (rw (y, same q ne) at m))
    ]
    | inr y ↦ inr (rw y at m)
  ]

  -- A free frame becomes the frame of one page, whatever the page's entry was.
  pub given-Owned : Owned (update mms pid mm) pool
  given-Owned = record {
    distinct = w.distinct.1;
    fit = w.fit.1;
    unmapped = λ i q g h m. elim (after_map i q g h m) [
      | inl (a, b, c) ↦ rw c (apart_sym f pool w.distinct.0)
      | inr o ↦ (w.unmapped i q g h o).1
    ];
    unique = λ i q i' q' g h h' m m'. elim (after_map i q g h m) [
      | inl (a, b, c) ↦ elim (after_map i' q' g h' m') [
        | inl (a', b', c') ↦ (a ∙ sym a', b ∙ sym b')
        | inr o ↦ absurd ((w.unmapped i' q' g h' o).0 c)
      ]
      | inr o ↦ elim (after_map i' q' g h' m') [
        | inl (a', b', c') ↦ absurd ((w.unmapped i q g h o).0 c')
        | inr o' ↦ w.unique i q i' q' g h h' o o'
      ]
    ];
  }

-- The same, for a process whose memory structure has just been replaced.
pub given_to-Owned :
    (mms : ℕ → Mm) (f : ℕ) (pool : List ℕ) (pid p : ℕ) (mm mm' : Mm)
    → Owned (update mms pid mm) (f ∷ pool)
    → Online (pte_get_entry mm' p) (f % 2 ^ 13)
    → ((q : ℕ) → q % 512 ≢ p % 512 → pte_get_entry mm' q ≡ pte_get_entry mm q)
    → Owned (update mms pid mm') pool
given_to-Owned mms f pool pid p mm mm' w on same =
    let here : update mms pid mm pid ≡ mm = update_self mms pid mm in
    subst (λ (u : ℕ → Mm). Owned u pool) (update_mm mms pid mm mm')
      (given-Owned (update mms pid mm) f pool pid p mm' w on
        (λ q ne. same q ne ∙ ap (λ (m : Mm). pte_get_entry m q) (sym here)))

-- A process gets a memory structure with the same last table.
pub with-Owned :
    (mms : ℕ → Mm) (pid : ℕ) (mm : Mm) (pool : List ℕ)
    → mm.pt ≡ (mms pid).pt
    → Owned mms pool
    → Owned (update mms pid mm) pool
with-Owned mms pid mm pool e w =
    Fewer-Owned mms (update mms pid mm) pool
      (λ i q f m. elim (Bool-cases (i == pid)) [
        | inl y ↦
            let same : i ≡ pid = ground arith in
            rw (same, ← pte_get_entry-pt (mms pid) mm q e) (rw y at m)
        | inr y ↦ rw y at m
      ])
      w
