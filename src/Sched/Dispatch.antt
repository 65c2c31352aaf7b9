-- ===== src/Sched/Dispatch.antt =====
-- The search of `get_mlq_proc` over the levels, from the current one and round once.
use os_assignment_nhom.Base.{
  ℕ, zero, suc, ◌+◌, ◌%◌, ◌<◌, ◌≡◌, refl, Option, none, some, arith, [], ◌∷◌, inl, inr, ◌≢◌,
  List-cases, ap,
}
use os_assignment_nhom.Queue.{Proc, Queue}
use os_assignment_nhom.Queue.Refine.{live, push}
use os_assignment_nhom.Sched.{Sched, max_prio, serve, refill, dispatch, get_mlq_proc}
use os_assignment_nhom.Sched.Invariant.{
  Level, IsValid, Served, serve_nil, serve_cons, charge-Served,
}

pub refill-mlq_ready_queue :
    (prio : ℕ) (s : Sched) → (refill prio s).mlq_ready_queue ≡ s.mlq_ready_queue
unfolding refill
refill-mlq_ready_queue prio s = ground arith

refill-running_list : (prio : ℕ) (s : Sched) → (refill prio s).running_list ≡ s.running_list
unfolding refill
refill-running_list prio s = ground arith

refill-slot : (prio : ℕ) (s : Sched) → (refill prio s).slot ≡ s.slot
unfolding refill
refill-slot prio s = ground arith

refill-current_slot :
    (prio : ℕ) (s : Sched) (i : ℕ)
    → s.current_slot i < s.slot i
    → (refill prio s).current_slot i < s.slot i
unfolding refill
refill-current_slot prio s i h = ground arith

refill-current_prio :
    (prio : ℕ) (s : Sched) → s.current_prio < max_prio → (refill prio s).current_prio < max_prio
unfolding refill
refill-current_prio prio s h = ground arith

pub refill-IsValid : (prio : ℕ) (s : Sched) → IsValid s → IsValid (refill prio s)
refill-IsValid prio s v = record {
  levels = λ i h.
      (let u : Level s i = v.levels i h in
        record {
          queue = rw (refill-mlq_ready_queue prio s) u.queue;
          prios = rw (refill-mlq_ready_queue prio s) u.prios;
          budget = rw (refill-slot prio s) u.budget;
          charged = rw (refill-slot prio s) (refill-current_slot prio s i u.charged);
        });
  prio_in = refill-current_prio prio s v.prio_in;
  running = rw (refill-running_list prio s) v.running;
}

-- The level that stands `j` places after `prio`, going round.
abbrev pub level_at : ℕ → ℕ → ℕ
level_at prio j = (prio + j) % max_prio

-- No process was found: the `n` levels from `prio` on are empty, and no queue has changed.
pub record Idle (n prio : ℕ) (s s' : Sched) : Type 0 where
  pub nothing : (j : ℕ) → j < n → live (s.mlq_ready_queue (level_at prio j)) ≡ []
  pub ready : s'.mlq_ready_queue ≡ s.mlq_ready_queue
  pub running : s'.running_list ≡ s.running_list
  pub valid : IsValid s'

-- Process `p` was found: it was the first of its level, the levels searched before are empty, and
-- it has moved to the running list.
pub record Dispatched (n prio : ℕ) (s : Sched) (p : Proc) (s' : Sched) : Type 0 where
  pub skipped : ℕ
  pub within : skipped < n
  pub earlier : (j : ℕ) → j < skipped → live (s.mlq_ready_queue (level_at prio j)) ≡ []
  pub taken :
      live (s.mlq_ready_queue (level_at prio skipped))
      ≡ p ∷ live (s'.mlq_ready_queue (level_at prio skipped))
  pub others : (i : ℕ) → i ≢ level_at prio skipped → s'.mlq_ready_queue i ≡ s.mlq_ready_queue i
  pub joined : live s'.running_list ≡ push (live s.running_list) p
  pub valid : IsValid s'

-- Either outcome of the search.
pub data Outcome (n prio : ℕ) (s : Sched) (r : Option Proc × Sched) : Type 0 where
  idle : (s' : Sched) → r ≡ (none, s') → Idle n prio s s' → Outcome n prio s r
  found : (p : Proc) (s' : Sched) → r ≡ (some p, s') → Dispatched n prio s p s' → Outcome n prio s r

level_at-zero : (prio : ℕ) → prio < max_prio → level_at prio 0 ≡ prio
level_at-zero prio h = omega arith

level_at-suc : (prio j : ℕ) → level_at ((prio + 1) % max_prio) j ≡ level_at prio (suc j)
level_at-suc prio j = omega arith

Served-Outcome :
    (n prio : ℕ) (s : Sched) (p : Proc) (s' : Sched) (r : Option Proc × Sched)
    → prio < max_prio
    → r ≡ (some p, s')
    → Served s prio p s'
    → Outcome (suc n) prio s r
Served-Outcome n prio s p s' r h e w = found p s' e (record {
  skipped = 0;
  within = omega arith;
  earlier = λ j k. absurd (omega arith);
  taken = rw (level_at-zero prio h) w.taken;
  others = rw (level_at-zero prio h) w.others;
  joined = w.joined;
  valid = w.valid;
})

-- The empty level in front of a search.
earlier_cons :
    (prio m : ℕ) (qs : ℕ → Queue)
    → prio < max_prio
    → live (qs prio) ≡ []
    → ((j : ℕ) → j < m → live (qs (level_at ((prio + 1) % max_prio) j)) ≡ [])
    → (j : ℕ) → j < suc m
    → live (qs (level_at prio j)) ≡ []
earlier_cons prio m qs h e ih zero k = rw (level_at-zero prio h) e
earlier_cons prio m qs h e ih (suc j) k = rw (← level_at-suc prio j) (ih j (omega arith))

Outcome-suc :
    (n prio : ℕ) (s : Sched) (r : Option Proc × Sched)
    → prio < max_prio
    → live (s.mlq_ready_queue prio) ≡ []
    → Outcome n ((prio + 1) % max_prio) (refill ((prio + 1) % max_prio) s) r
    → Outcome (suc n) prio s r
Outcome-suc n prio s r h e (idle s' eq w) =
    let next : ℕ = (prio + 1) % max_prio in
    idle s' eq (record {
      nothing =
          earlier_cons prio n s.mlq_ready_queue h e
            (rw (refill-mlq_ready_queue next s) at w.nothing);
      ready = rw (refill-mlq_ready_queue next s) at w.ready;
      running = rw (refill-running_list next s) at w.running;
      valid = w.valid;
    })
Outcome-suc n prio s r h e (found p s' eq w) =
    let next : ℕ = (prio + 1) % max_prio in
    found p s' eq (record {
      skipped = suc w.skipped;
      within = omega (arith, w.within);
      earlier =
          earlier_cons prio w.skipped s.mlq_ready_queue h e
            (rw (refill-mlq_ready_queue next s) at w.earlier);
      taken = rw (← level_at-suc prio w.skipped) (rw (refill-mlq_ready_queue next s) at w.taken);
      others = rw (← level_at-suc prio w.skipped) (rw (refill-mlq_ready_queue next s) at w.others);
      joined = rw (refill-running_list next s) at w.joined;
      valid = w.valid;
    })

pub dispatch-none :
    (n prio : ℕ) (s s' : Sched)
    → serve prio s ≡ (none, s')
    → dispatch (suc n) prio s
      ≡ dispatch n ((prio + 1) % max_prio) (refill ((prio + 1) % max_prio) s')
unfolding dispatch
dispatch-none n prio s s' e =
    let next : ℕ = (prio + 1) % max_prio in
    rw (e, dispatch) (ap (λ (x : Option Proc × Sched). dispatch n next (refill next x.1)) e)

pub dispatch-some :
    (n prio : ℕ) (s s' : Sched) (p : Proc)
    → serve prio s ≡ (some p, s')
    → dispatch (suc n) prio s ≡ (some p, s')
unfolding dispatch
dispatch-some n prio s s' p e = rw (e, dispatch) (ap (λ (x : Option Proc × Sched). (some p, x.1)) e)

dispatch-Outcome :
    (n prio : ℕ) (s : Sched) → IsValid s → prio < max_prio → Outcome n prio s (dispatch n prio s)
unfolding dispatch
dispatch-Outcome zero prio s v h =
    idle s refl
      (record { nothing = λ j k. absurd (omega arith); ready = refl; running = refl; valid = v })
dispatch-Outcome (suc n) prio s v h = elim (List-cases (live (s.mlq_ready_queue prio))) [
  | inl e ↦
      let next : ℕ = (prio + 1) % max_prio in
      rw (dispatch-none n prio s s (serve_nil s prio v h e)) (
        Outcome-suc n prio s _ h e
          (dispatch-Outcome n next (refill next s) (refill-IsValid next s v) (omega arith)))
  | inr (p, l, e) ↦
      rw (dispatch-some n prio s _ p (serve_cons s prio p l v h e))
        (Served-Outcome n prio s p _ _ h refl (charge-Served s prio p l v h e))
]

-- `get_mlq_proc` searches all levels once, from the current one (and not from level 0) round to the
-- one before it. It returns NULL only
-- if every level is empty, and then no queue changes. Otherwise it returns the oldest process of
-- the first level that is not empty, takes it out of that level, leaves the other levels alone and
-- appends it to the running list (if that has room). The invariant holds afterwards.
pub get_mlq_proc-Outcome :
    (s : Sched) → IsValid s → Outcome max_prio s.current_prio s (get_mlq_proc s)
unfolding get_mlq_proc
get_mlq_proc-Outcome s v = dispatch-Outcome max_prio s.current_prio s v v.prio_in
