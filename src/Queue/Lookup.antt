-- ===== src/Queue/Lookup.antt =====
-- The search of a list for a pid, when the list has grown at its end or lost another pid.
use os_assignment_nhom.Base.{
  ℕ, ◌≡◌, ◌≢◌, refl, arith, true, false, none, some, List, [], ◌∷◌, ◌++◌, ◌==◌, Bool-cases, inl,
  inr,
}
use os_assignment_nhom.Queue.{Proc}
use os_assignment_nhom.Queue.Contents.{find_pid, erase_pid}

pub find_pid-append :
    (pid : ℕ) (l : List Proc) (p q : Proc)
    → find_pid pid l ≡ some p
    → find_pid pid (l ++ (q ∷ [])) ≡ some p
unfolding find_pid
find_pid-append pid [] p q e = cc e
find_pid-append pid (r ∷ l) p q e = elim (Bool-cases (r.pid == pid)) [
  | inl t ↦ rw t (rw t at e)
  | inr t ↦ rw t (find_pid-append pid l p q (rw t at e))
]

pub find_pid-append_new :
    (l : List Proc) (p : Proc) → find_pid p.pid l ≡ none → find_pid p.pid (l ++ (p ∷ [])) ≡ some p
unfolding find_pid
find_pid-append_new [] p e = let t : (p.pid == p.pid) ≡ true = ground arith in rw t refl
find_pid-append_new (r ∷ l) p e = elim (Bool-cases (r.pid == p.pid)) [
  | inl t ↦ cc (rw t at e)
  | inr t ↦ rw t (find_pid-append_new l p (rw t at e))
]

pub find_pid-erase_pid :
    (pid other : ℕ) (l : List Proc)
    → pid ≢ other
    → find_pid pid (erase_pid other l) ≡ find_pid pid l
unfolding find_pid erase_pid
find_pid-erase_pid pid other [] ne = refl
find_pid-erase_pid pid other (r ∷ l) ne = elim (Bool-cases (r.pid == other)) [
  | inl t ↦ let z : (r.pid == pid) ≡ false = ground (arith, ne) in rw (t, z) refl
  | inr t ↦ elim (Bool-cases (r.pid == pid)) [
    | inl z ↦ rw (t, z) refl
    | inr z ↦ rw (t, z) (find_pid-erase_pid pid other l ne)
  ]
]
