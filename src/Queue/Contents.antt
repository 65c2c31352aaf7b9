-- ===== src/Queue/Contents.antt =====
-- What a queue's array holds: the processes in the slots below `size`, and the loops on slots.
use os_assignment_nhom.Base.{
  ℕ, zero, suc, ◌-◌, ◌<◌, ◌≡◌, refl, false, Option, none, some, List, [], ◌∷◌, ◌++◌, arith, ◌==◌,
  if◌then◌else◌, length, get_or, set, length-set, Bool-cases, Option-cases, ◌∙◌, inl, inr, All, ◌≢◌,
  ◌⊎◌,
}
use os_assignment_nhom.Queue.{Proc, shift_down, same_pid, find_index}

-- The first slots of the array are these processes, none of them NULL.
abbrev pub StartsWith : List (Option Proc) → List Proc → Type 0
StartsWith xs [] = Unit
StartsWith [] (p ∷ l) = ⊥
StartsWith (x ∷ xs) (p ∷ l) = (x ≡ some p) × StartsWith xs l

-- The first process of a pid.
unfoldable pub find_pid : ℕ → List Proc → Option Proc
find_pid pid [] = none
find_pid pid (p ∷ l) = if p.pid == pid then some p else find_pid pid l

-- The list without the first process of a pid.
unfoldable pub erase_pid : ℕ → List Proc → List Proc
erase_pid pid [] = []
erase_pid pid (p ∷ l) = if p.pid == pid then l else p ∷ erase_pid pid l

-- Where the first process of a pid stands.
unfoldable pub index_of : ℕ → List Proc → Option ℕ
index_of pid [] = none
index_of pid (p ∷ l) =
    if p.pid == pid then some 0 else elim (index_of pid l) [ none ↦ none | some i ↦ some (suc i) ]

pub length-shift_down : (n i : ℕ) (xs : List (Option Proc)) → length (shift_down n i xs) ≡ length xs
unfolding shift_down
length-shift_down zero i xs = refl
length-shift_down (suc n) i xs =
    length-shift_down n (suc i) (set xs i (get_or xs (suc i) none)) ∙ length-set xs i _

pub shift_down-cons :
    (n i : ℕ) (x : Option Proc) (xs : List (Option Proc))
    → shift_down n (suc i) (x ∷ xs) ≡ x ∷ shift_down n i xs
unfolding shift_down
shift_down-cons zero i x xs = refl
shift_down-cons (suc n) i x xs = shift_down-cons n (suc i) x (set xs i (get_or xs (suc i) none))

-- The shift loop from slot 0 drops the first process.
pub shift_down-StartsWith :
    (xs : List (Option Proc)) (p : Proc) (l : List Proc)
    → StartsWith xs (p ∷ l)
    → StartsWith (shift_down (length l) 0 xs) l
unfolding shift_down
shift_down-StartsWith xs p [] h = tt
shift_down-StartsWith [] p (q ∷ l) h = absurd h
shift_down-StartsWith (x ∷ []) p (q ∷ l) h = absurd h.1
shift_down-StartsWith (x ∷ y ∷ xs) p (q ∷ l) h =
    rw (shift_down-cons (length l) 0 y (y ∷ xs)) (h.1.0, shift_down-StartsWith (y ∷ xs) q l h.1)

-- A write into the slot after the last process appends it.
pub set-StartsWith :
    (xs : List (Option Proc)) (l : List Proc) (p : Proc)
    → StartsWith xs l
    → length l < length xs
    → StartsWith (set xs (length l) (some p)) (l ++ (p ∷ []))
set-StartsWith [] [] p h lt = absurd (omega arith)
set-StartsWith (x ∷ xs) [] p h lt = (refl, tt)
set-StartsWith [] (q ∷ l) p h lt = h
set-StartsWith (x ∷ xs) (q ∷ l) p h lt = (h.0, set-StartsWith xs l p h.1 (omega arith))

find_index-cons :
    (n i : ℕ) (x : Option Proc) (xs : List (Option Proc)) (pid : ℕ)
    → find_index n (suc i) (x ∷ xs) pid
      ≡ elim (find_index n i xs pid) [ none ↦ none | some j ↦ some (suc j) ]
unfolding find_index
find_index-cons zero i x xs pid = refl
find_index-cons (suc n) i x xs pid = elim (Bool-cases (same_pid (get_or xs i none) pid)) [
  | inl e ↦ rw e refl
  | inr e ↦ rw e (find_index-cons n (suc i) x xs pid)
]

-- The search loop finds the index of the first process of the pid.
pub find_index-eq-index_of :
    (xs : List (Option Proc)) (l : List Proc) (pid : ℕ)
    → StartsWith xs l
    → find_index (length l) 0 xs pid ≡ index_of pid l
unfolding find_index index_of same_pid
find_index-eq-index_of xs [] pid h = refl
find_index-eq-index_of [] (p ∷ l) pid h = absurd h
find_index-eq-index_of (x ∷ xs) (p ∷ l) pid h =
    rw (h.0, find_index-cons (length l) 0 (some p) xs pid, find_index-eq-index_of xs l pid h.1) refl

-- What stands at the index of a pid, and what is left when the slots behind it move down.
pub record Removes (xs : List (Option Proc)) (l : List Proc) (pid i : ℕ) : Type 0 where
  pub within : i < length l
  pub found : get_or xs i none ≡ find_pid pid l
  pub present : (p : Proc) × (find_pid pid l ≡ some p)
  pub shorter : suc (length (erase_pid pid l)) ≡ length l
  pub rest : StartsWith (shift_down (length l - 1 - i) i xs) (erase_pid pid l)

index_of_tail :
    (pid : ℕ) (p : Proc) (l : List Proc) (i : ℕ)
    → (p.pid == pid) ≡ false
    → index_of pid (p ∷ l) ≡ some i
    → (j : ℕ) × (index_of pid l ≡ some j) × (i ≡ suc j)
unfolding index_of
index_of_tail pid p l i e h = elim (Option-cases (index_of pid l)) [
  | inl o ↦ ground arith
  | inr (j, o) ↦ (j, o, ground arith)
]

Removes-cons :
    (x : Option Proc) (xs : List (Option Proc)) (p : Proc) (l : List Proc) (pid i : ℕ)
    → x ≡ some p
    → (p.pid == pid) ≡ false
    → Removes xs l pid i
    → Removes (x ∷ xs) (p ∷ l) pid (suc i)
unfolding find_pid erase_pid
Removes-cons x xs p l pid i h t r = record {
  within = omega (arith, r.within);
  found = rw t r.found;
  present = rw t r.present;
  shorter = rw t (omega (arith, r.shorter));
  rest =
      let c : suc (length l) - 1 - suc i ≡ length l - 1 - i = omega arith in
      rw (t, c, shift_down-cons (length l - 1 - i) i x xs) (h, r.rest);
}

pub index_of-Removes :
    (xs : List (Option Proc)) (l : List Proc) (pid i : ℕ)
    → StartsWith xs l
    → index_of pid l ≡ some i
    → Removes xs l pid i
unfolding index_of find_pid erase_pid
index_of-Removes xs [] pid i h e = cc
index_of-Removes [] (p ∷ l) pid i h e = absurd h
index_of-Removes (x ∷ xs) (p ∷ l) pid i h e = elim (Bool-cases (p.pid == pid)) [
  | inl t ↦
      let z : i ≡ 0 = ground arith in
      let c : suc (length l) - 1 - 0 ≡ length l = omega arith in
      rw z (record {
        within = omega arith;
        found = rw t h.0;
        present = (p, rw t);
        shorter = rw t;
        rest = rw (t, c) (shift_down-StartsWith (x ∷ xs) p l h);
      })
  | inr t ↦
      let (j, o, s) = index_of_tail pid p l i t e in
      rw s (Removes-cons x xs p l pid j h.0 t (index_of-Removes xs l pid j h.1 o))
]

-- A pid that the search does not find stands nowhere in the list.
pub index_of-none :
    (pid : ℕ) (l : List Proc)
    → index_of pid l ≡ none
    → (find_pid pid l ≡ none) × (erase_pid pid l ≡ l)
unfolding index_of find_pid erase_pid
index_of-none pid [] e = (refl, refl)
index_of-none pid (p ∷ l) e = ground (arith, index_of-none pid l)

-- The process is one of the list.
abbrev pub Has : Proc → List Proc → Type 0
Has p [] = ⊥
Has p (q ∷ l) = (p ≡ q) ⊎ Has p l

pub find_pid-some :
    (pid : ℕ) (l : List Proc) (p : Proc) → find_pid pid l ≡ some p → (p.pid ≡ pid) × Has p l
unfolding find_pid
find_pid-some pid [] p e = cc
find_pid-some pid (q ∷ l) p e = elim (Bool-cases (q.pid == pid)) [
  | inl t ↦ (ground arith, inl (ground arith))
  | inr t ↦ let ih = find_pid-some pid l p (rw t at e) in (ih.0, inr ih.1)
]

pub find_pid-none : (pid : ℕ) (l : List Proc) → find_pid pid l ≡ none → All (λ p. p.pid ≢ pid) l
unfolding find_pid
find_pid-none pid [] e = tt
find_pid-none pid (q ∷ l) e = elim (Bool-cases (q.pid == pid)) [
  | inl t ↦ cc (rw t at e)
  | inr t ↦ (ground arith, find_pid-none pid l (rw t at e))
]
