-- ===== src/Queue.antt =====
-- ossim_lamiaatrium/src/queue.c: the bounded process queue, an array of 50 slots and a size.
-- A process pointer is the pair of fields that the queues and the scheduler read of it, the pid
-- and the priority; neither is written once a process is queued. `none` is the NULL pointer.
-- Every caller passes the address of a static queue, so the tests `q == NULL` have no model.
pub mod Contents
pub mod Lookup
pub mod Refine
use os_assignment_nhom.Base.{
  ℕ, zero, suc, ◌+◌, ◌-◌, Bool, true, false, Option, none, some, List, ltb, leb, ◌==◌,
  if◌then◌else◌, get_or, set,
}

pub record Proc : Type 0 where
  pub pid : ℕ
  pub prio : ℕ

-- MAX_QUEUE_SIZE
abbrev pub max_queue_size : ℕ
max_queue_size = 50

pub record Queue : Type 0 where
  pub proc : List (Option Proc)
  pub size : ℕ

unfoldable pub empty : Queue → Bool
empty q = q.size == 0

unfoldable pub enqueue : Queue → Option Proc → Queue
enqueue q none = q
enqueue q (some p) =
    if leb max_queue_size q.size
    then q
    else record q { proc = set q.proc q.size (some p); size = q.size + 1 }

-- `for (; i < size - 1; i++) proc[i] = proc[i + 1]`, with the rounds that are left.
unfoldable pub shift_down : ℕ → ℕ → List (Option Proc) → List (Option Proc)
shift_down zero i xs = xs
shift_down (suc n) i xs = shift_down n (suc i) (set xs i (get_or xs (suc i) none))

unfoldable pub dequeue : Queue → Option Proc × Queue
dequeue q = if q.size == 0 then (none, q) else (
  get_or q.proc 0 none,
  record q { proc = shift_down (q.size - 1) 0 q.proc; size = q.size - 1 },
)

-- `proc[i]->pid == pid`. The code would follow a NULL pointer where this says `false`;
-- `IsValid` keeps NULL out of the slots below `size`.
unfoldable pub same_pid : Option Proc → ℕ → Bool
same_pid none pid = false
same_pid (some p) pid = p.pid == pid

-- The search loop: the first index in the next `n` slots whose process has the pid.
unfoldable pub find_index : ℕ → ℕ → List (Option Proc) → ℕ → Option ℕ
find_index zero i xs pid = none
find_index (suc n) i xs pid =
    if same_pid (get_or xs i none) pid then some i else find_index n (suc i) xs pid

purge_at : Queue → Option ℕ → Option Proc × Queue
purge_at q none = (none, q)
purge_at q (some i) = (
  get_or q.proc i none,
  record q { proc = shift_down (q.size - 1 - i) i q.proc; size = q.size - 1 },
)

pub purgequeue : Queue → Option Proc → Option Proc × Queue
unfolding purge_at
purgequeue q none = (none, q)
purgequeue q (some p) = purge_at q (find_index q.size 0 q.proc p.pid)
