-- ===== src/Queue/Refine.antt =====
-- The array queue of queue.c against the plain list of the processes that it holds.
use os_assignment_nhom.Base.{
  ℕ, zero, suc, ◌-◌, ◌≤◌, ◌<◌, ◌≡◌, refl, sym, Bool, true, false, Option, none, some, List, [], ◌∷◌,
  ◌++◌, arith, leb, ◌==◌, if◌then◌else◌, length, get_or, length-set, head?, tail, Bool-cases,
  Option-cases, ◌∙◌, inl, inr, length-append,
}
use os_assignment_nhom.Queue.{
  Proc, Queue, max_queue_size, empty, enqueue, dequeue, purgequeue, purge_at, find_index,
}
use os_assignment_nhom.Queue.Contents.{
  StartsWith, find_pid, erase_pid, index_of, length-shift_down, shift_down-StartsWith,
  set-StartsWith, find_index-eq-index_of, Removes, index_of-Removes, index_of-none,
}

-- The processes in the first `n` slots.
unfoldable pub contents : ℕ → List (Option Proc) → List Proc
contents zero xs = []
contents (suc n) [] = []
contents (suc n) (none ∷ xs) = contents n xs
contents (suc n) (some p ∷ xs) = p ∷ contents n xs

abbrev pub live : Queue → List Proc
live q = contents q.size q.proc

contents-eq :
    (xs : List (Option Proc)) (l : List Proc) → StartsWith xs l → contents (length l) xs ≡ l
unfolding contents
contents-eq xs [] h = refl
contents-eq [] (p ∷ l) h = absurd h
contents-eq (none ∷ xs) (p ∷ l) h = cc h.0
contents-eq (some q ∷ xs) (p ∷ l) h = ground (arith, h.0, contents-eq xs l h.1)

-- The queue stores exactly these processes, in this order.
pub record Holds (q : Queue) (l : List Proc) : Type 0 where
  pub slots : length q.proc ≡ max_queue_size
  pub count : q.size ≡ length l
  pub fits : length l ≤ max_queue_size
  pub starts : StartsWith q.proc l

-- A well-formed queue has 50 slots, a size within them, and no NULL below the size.
abbrev pub IsValid : Queue → Type 0
IsValid q = Holds q (live q)

pub live-eq : (q : Queue) (l : List Proc) → Holds q l → live q ≡ l
live-eq q l h = rw h.count (contents-eq q.proc l h.starts)

pub Holds-IsValid : (q : Queue) (l : List Proc) → Holds q l → IsValid q
Holds-IsValid q l h = rw (live-eq q l h) h

-- The specification of `enqueue`: append, unless there are 50 processes already.
unfoldable pub push : List Proc → Proc → List Proc
push l p = if leb max_queue_size (length l) then l else l ++ (p ∷ [])

enqueue-Holds :
    (q : Queue) (l : List Proc) (p : Proc) → Holds q l → Holds (enqueue q (some p)) (push l p)
unfolding enqueue push
enqueue-Holds q l p h = elim (Bool-cases (leb max_queue_size q.size)) [
  | inl full ↦ let e : leb 50 (length l) ≡ true = rw (← h.count) full in rw (full, e) h
  | inr room ↦
      let e : leb 50 (length l) ≡ false = rw (← h.count) room in
      rw (room, e)
        (record {
          slots = length-set q.proc q.size (some p) ∙ h.slots;
          count = omega (arith, length-append l (p ∷ []), h.count);
          fits = omega (arith, length-append l (p ∷ []), below e);
          starts =
              rw h.count (set-StartsWith q.proc l p h.starts (omega (arith, h.slots, below e)));
        })
]
  where
    below : leb 50 (length l) ≡ false → length l < 50
    below e = ground arith

dequeue-Holds :
    (q : Queue) (l : List Proc)
    → Holds q l
    → ((dequeue q).0 ≡ head? l) × Holds (dequeue q).1 (tail l)
unfolding dequeue
dequeue-Holds q [] h = let z : (q.size == 0) ≡ true = ground arith in rw z (refl, h)
dequeue-Holds q (p ∷ l) h =
    let z : (q.size == 0) ≡ false = ground arith in
    let m : q.size - 1 ≡ length l = omega (arith, h.count) in
    rw z (
      head_of q.proc h.starts,
      record {
        slots = length-shift_down (q.size - 1) 0 q.proc ∙ h.slots;
        count = m;
        fits = omega (arith, h.fits);
        starts = rw m (shift_down-StartsWith q.proc p l h.starts);
      },
    )
  where
    head_of : (xs : List (Option Proc)) → StartsWith xs (p ∷ l) → get_or xs 0 none ≡ some p
    head_of [] s = absurd s
    head_of (x ∷ xs) s = s.0

-- The search loop of `purgequeue`, and of the searches by pid, on a queue.
pub find_index-Holds :
    (q : Queue) (l : List Proc) (pid : ℕ)
    → Holds q l
    → find_index q.size 0 q.proc pid ≡ index_of pid l
find_index-Holds q l pid h = rw h.count (find_index-eq-index_of q.proc l pid h.starts)

purge_at-Holds :
    (q : Queue) (l : List Proc) (pid i : ℕ)
    → Holds q l
    → Removes q.proc l pid i
    → ((purge_at q (some i)).0 ≡ find_pid pid l) × Holds (purge_at q (some i)).1 (erase_pid pid l)
unfolding purge_at
purge_at-Holds q l pid i h r = (
  r.found,
  record {
    slots = length-shift_down (q.size - 1 - i) i q.proc ∙ h.slots;
    count = omega (arith, h.count, r.shorter);
    fits = omega (arith, h.fits, r.shorter);
    starts = rw h.count r.rest;
  },
)

purgequeue-Holds :
    (q : Queue) (l : List Proc) (p : Proc)
    → Holds q l
    → ((purgequeue q (some p)).0 ≡ find_pid p.pid l)
      × Holds (purgequeue q (some p)).1 (erase_pid p.pid l)
unfolding purgequeue
purgequeue-Holds q l p h = elim (Option-cases (index_of p.pid l)) [
  | inl e ↦
      rw (find_index-Holds q l p.pid h, e, purge_at)
        (sym (index_of-none p.pid l e).0, rw (index_of-none p.pid l e).1 h)
  | inr (i, e) ↦
      rw (find_index-Holds q l p.pid h, e)
        (purge_at-Holds q l p.pid i h (index_of-Removes q.proc l p.pid i h.starts e))
]

-- A queue whose size is reset holds nothing.
pub reset-Holds : (q : Queue) → length q.proc ≡ max_queue_size → Holds (record q { size = 0 }) []
reset-Holds q h = record { slots = h; count = refl; fits = omega arith; starts = tt }

abbrev pub is_nil : List Proc → Bool
is_nil [] = true
is_nil (p ∷ l) = false

empty_of : (q : Queue) (l : List Proc) → q.size ≡ length l → empty q ≡ is_nil l
unfolding empty
empty_of q [] h = ground arith
empty_of q (p ∷ l) h = ground arith

-- `empty` is true of exactly the queues that hold no process.
pub empty-live : (q : Queue) → IsValid q → empty q ≡ is_nil (live q)
empty-live q v = empty_of q (live q) v.count

-- Enqueueing a process appends it, or changes nothing when 50 processes wait already; the queue
-- stays well-formed either way.
pub enqueue_refines :
    (q : Queue) (p : Proc)
    → IsValid q
    → (live (enqueue q (some p)) ≡ push (live q) p) × IsValid (enqueue q (some p))
enqueue_refines q p v =
    let h : Holds (enqueue q (some p)) (push (live q) p) = enqueue-Holds q (live q) p v in
    (live-eq _ _ h, Holds-IsValid _ _ h)

-- Dequeueing returns the oldest process, NULL on an empty queue, and leaves the others in order.
pub dequeue_refines :
    (q : Queue)
    → IsValid q
    → ((dequeue q).0 ≡ head? (live q))
      × (live (dequeue q).1 ≡ tail (live q))
      × IsValid (dequeue q).1
dequeue_refines q v =
    let h = dequeue-Holds q (live q) v in (h.0, live-eq _ _ h.1, Holds-IsValid _ _ h.1)

-- Purging returns the first process of the pid, NULL if there is none, and takes that one out.
pub purgequeue_refines :
    (q : Queue) (p : Proc)
    → IsValid q
    → ((purgequeue q (some p)).0 ≡ find_pid p.pid (live q))
      × (live (purgequeue q (some p)).1 ≡ erase_pid p.pid (live q))
      × IsValid (purgequeue q (some p)).1
purgequeue_refines q p v =
    let h = purgequeue-Holds q (live q) p v in (h.0, live-eq _ _ h.1, Holds-IsValid _ _ h.1)

-- With MLQ_SCHED the array queue implements a list of at most 50 processes: enqueueing appends, or changes nothing
-- when 50 wait already; dequeueing returns the oldest, NULL if there is none, and leaves the others
-- in order; purging returns the first process of the pid, NULL if there is none, and takes that one
-- out. Each keeps the queue well-formed.
pub queue_refines :
    (q : Queue) (p : Proc)
    → IsValid q
    → ((live (enqueue q (some p)) ≡ push (live q) p) × IsValid (enqueue q (some p)))
      × (((dequeue q).0 ≡ head? (live q))
          × (live (dequeue q).1 ≡ tail (live q))
          × IsValid (dequeue q).1)
      × (((purgequeue q (some p)).0 ≡ find_pid p.pid (live q))
          × (live (purgequeue q (some p)).1 ≡ erase_pid p.pid (live q))
          × IsValid (purgequeue q (some p)).1)
queue_refines q p v = (enqueue_refines q p v, dequeue_refines q v, purgequeue_refines q p v)
