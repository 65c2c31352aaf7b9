-- ===== src/SingleQueue/Highest.antt =====
-- The search of the single queue finds the oldest of the processes of highest priority.
use os_assignment_nhom.Base.{
  ℕ, suc, ◌-◌, ◌<◌, ◌≤◌, ◌≡◌, refl, sym, ap, ◌∙◌, arith, false, Option, none, some, List, [], ◌∷◌,
  ◌++◌, ◌==◌, ltb, if◌then◌else◌, get_or, length, length-append, All, All-append, Bool-cases, inl,
  inr,
}
use mathlib.Core.Path.{subst}
use mathlib.Core.List.{append_assoc, append-nil}
use os_assignment_nhom.Queue.{Proc, Queue, shift_down}
use os_assignment_nhom.Queue.Contents.{
  StartsWith, length-shift_down, shift_down-StartsWith, shift_down-cons,
}
use os_assignment_nhom.Queue.Refine.{Holds, IsValid, live, live-eq, Holds-IsValid}
use os_assignment_nhom.SingleQueue.{priority_of, find_highest, dequeue_highest}

-- `p` is the first of the list that no other is more urgent than; `before` and `after` are the others.
pub record Highest (l : List Proc) (p : Proc) (before after : List Proc) : Type 0 where
  pub split : l ≡ before ++ (p ∷ after)
  pub urgent : All (λ q. p.prio < q.prio) before
  pub no_less : All (λ q. p.prio ≤ q.prio) after

-- What the search has found among the processes looked at so far.
record Best (seen : List Proc) (best idx : ℕ) : Type 0 where
  p : Proc
  before : List Proc
  after : List Proc
  highest : Highest seen p before after
  prio : best ≡ p.prio
  place : idx ≡ length before

less_than_all :
    (r p : Proc) (l : List Proc)
    → r.prio < p.prio
    → All (λ q. p.prio ≤ q.prio) l
    → All (λ q. r.prio < q.prio) l
less_than_all r p [] h a = tt
less_than_all r p (q ∷ l) h a = (omega (arith, h, a.0), less_than_all r p l h a.1)

weaken : (p : Proc) (l : List Proc) → All (λ q. p.prio < q.prio) l → All (λ q. p.prio ≤ q.prio) l
weaken p [] a = tt
weaken p (q ∷ l) a = (omega (arith, a.0), weaken p l a.1)

better :
    (seen : List Proc) (best idx : ℕ) (r : Proc)
    → Best seen best idx
    → Best
        (seen ++ (r ∷ []))
        (if ltb r.prio best then r.prio else best)
        (if ltb r.prio best then length seen else idx)
better seen best idx r b = elim (Bool-cases (ltb r.prio best)) [
  | inl t ↦
      let h : r.prio < b.p.prio = ground (arith, b.prio) in
      let old = less_than_all r b.p b.before h (weaken b.p b.before b.highest.urgent) in
      let new = less_than_all r b.p b.after h b.highest.no_less in
      rw t (record {
        p = r;
        before = seen;
        after = [];
        highest = record {
          split = refl;
          urgent = rw b.highest.split (All-append _ b.before (b.p ∷ b.after) old (h, new));
          no_less = tt;
        };
        prio = refl;
        place = refl;
      })
  | inr t ↦
      let h : b.p.prio ≤ r.prio = ground (arith, b.prio) in
      rw t (record {
        p = b.p;
        before = b.before;
        after = b.after ++ (r ∷ []);
        highest = record {
          split =
              ap (λ (l : List Proc). l ++ (r ∷ [])) b.highest.split
              ∙ append_assoc b.before (b.p ∷ b.after) (r ∷ []);
          urgent = b.highest.urgent;
          no_less = All-append _ b.after (r ∷ []) b.highest.no_less (h, tt);
        };
        prio = b.prio;
        place = b.place;
      })
]

slot_after :
    (xs : List (Option Proc)) (l : List Proc) (r : Proc) (rest : List Proc)
    → StartsWith xs (l ++ (r ∷ rest))
    → get_or xs (length l) none ≡ some r
slot_after [] [] r rest h = absurd h
slot_after (x ∷ xs) [] r rest h = h.0
slot_after [] (q ∷ l) r rest h = absurd h
slot_after (x ∷ xs) (q ∷ l) r rest h = slot_after xs l r rest h.1

find_highest-suc :
    (n i : ℕ) (xs : List (Option Proc)) (best idx : ℕ) (r : Proc)
    → get_or xs i none ≡ some r
    → find_highest (suc n) i xs best idx
      ≡ find_highest n
          (suc i)
          xs
          (if ltb r.prio best then r.prio else best)
          (if ltb r.prio best then i else idx)
unfolding find_highest priority_of
find_highest-suc n i xs best idx r e =
    ap
      (λ (o : Option Proc).
        find_highest n (suc i) xs (if ltb (priority_of o) best then priority_of o else best)
          (if ltb (priority_of o) best then i else idx))
      e

-- The loop over the processes of `rest`, when those of `seen` have been looked at.
find_highest-Best :
    (xs : List (Option Proc)) (rest seen : List Proc) (best idx : ℕ)
    → StartsWith xs (seen ++ rest)
    → Best seen best idx
    → (b : ℕ) × Best (seen ++ rest) b (find_highest (length rest) (length seen) xs best idx)
unfolding find_highest
find_highest-Best xs [] seen best idx h b = (best, rw (append-nil seen) b)
find_highest-Best xs (r ∷ rest) seen best idx h b =
    let e = slot_after xs seen r rest h in
    let a : (seen ++ (r ∷ [])) ++ rest ≡ seen ++ (r ∷ rest) = append_assoc seen (r ∷ []) rest in
    let n : length (seen ++ (r ∷ [])) ≡ suc (length seen) =
      omega (arith, length-append seen (r ∷ [])) in
    let w =
      find_highest-Best xs rest (seen ++ (r ∷ [])) (if ltb r.prio best then r.prio else best)
        (if ltb r.prio best then length seen else idx) (rw a h) (better seen best idx r b) in
    let step = find_highest-suc (length rest) (length seen) xs best idx r e in
    (w.0, subst (λ (i : ℕ). Best (seen ++ (r ∷ rest)) w.0 i) (sym step) (rw (a, n) at w.1))

-- The slots behind the process move down.
closes_gap :
    (xs : List (Option Proc)) (before : List Proc) (p : Proc) (after : List Proc)
    → StartsWith xs (before ++ (p ∷ after))
    → StartsWith (shift_down (length after) (length before) xs) (before ++ after)
closes_gap xs [] p after h = shift_down-StartsWith xs p after h
closes_gap [] (q ∷ l) p after h = absurd h
closes_gap (x ∷ xs) (q ∷ l) p after h =
    rw (shift_down-cons (length after) (length l) x xs) (h.0, closes_gap xs l p after h.1)

-- What `dequeue` made of a queue with a process.
pub record Dequeued (l : List Proc) (r : Option Proc × Queue) : Type 0 where
  pub p : Proc
  pub before : List Proc
  pub after : List Proc
  pub highest : Highest l p before after
  pub given : r.0 ≡ some p
  pub left : live r.1 ≡ before ++ after
  pub valid : IsValid r.1

first_Best : (p : Proc) → Best (p ∷ []) p.prio 0
first_Best p = record {
  p = p;
  before = [];
  after = [];
  highest = record { split = refl; urgent = tt; no_less = tt };
  prio = refl;
  place = refl;
}

-- `dequeue` takes the oldest process of highest priority out, and leaves the others in order.
pub dequeue_highest-Dequeued :
    (q : Queue) (p : Proc) (l : List Proc) → Holds q (p ∷ l) → Dequeued (p ∷ l) (dequeue_highest q)
unfolding dequeue_highest priority_of
dequeue_highest-Dequeued q p l h =
    let z : (q.size == 0) ≡ false = ground (arith, h.count) in
    let c : q.size - 1 ≡ length l = omega (arith, h.count) in
    let head : get_or q.proc 0 none ≡ some p = slot_after q.proc [] p l h.starts in
    let b = (find_highest-Best q.proc l (p ∷ []) p.prio 0 h.starts (first_Best p)).1 in
    let s =
      ap (λ (x : List Proc). length x) b.highest.split ∙ length-append b.before (b.p ∷ b.after) in
    let there : StartsWith q.proc (b.before ++ (b.p ∷ b.after)) = rw b.highest.split at h.starts in
    let gap : length l - length b.before ≡ length b.after = omega (arith, s) in
    let holds : Holds
        (record q { proc = shift_down (length b.after) (length b.before) q.proc; size = length l })
        (b.before ++ b.after) =
      record {
        slots = length-shift_down (length b.after) (length b.before) q.proc ∙ h.slots;
        count = omega (arith, s, length-append b.before b.after);
        fits = omega (arith, s, length-append b.before b.after, h.fits);
        starts = closes_gap q.proc b.before b.p b.after there;
      } in
    rw (z, c, head, b.place, gap)
      (record {
        p = b.p;
        before = b.before;
        after = b.after;
        highest = b.highest;
        given = slot_after q.proc b.before b.p b.after there;
        left = live-eq _ _ holds;
        valid = Holds-IsValid _ _ holds;
      })
