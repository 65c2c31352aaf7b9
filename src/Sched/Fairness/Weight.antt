-- ===== src/Sched/Fairness/Weight.antt =====
-- The number of dispatches that may still go to other levels before level `k` is served.
use os_assignment_nhom.Base.{
  ℕ, ◌+◌, ◌-◌, ◌*◌, ◌<◌, ◌≤◌, ◌≡◌, refl, ◌&&◌, Option, ltb, leb, if◌then◌else◌, arith, ◌≢◌,
}
use os_assignment_nhom.Base.Sums.{sum_range, sum_range_mono, sum_range_strict}
use os_assignment_nhom.Queue.{Proc}
use os_assignment_nhom.Sched.{Sched, max_prio, charge, refill}
use os_assignment_nhom.Sched.Invariant.{Level, IsValid}

-- What level `m` may still take: its slots that are left if the search comes by `m` before `k`,
-- and a fresh budget if the search goes round before it comes to `k`.
abbrev weight : ℕ → ℕ → (ℕ → ℕ) → (ℕ → ℕ) → ℕ → ℕ
weight k current slot used m =
    if leb current k
    then (if leb current m && ltb m k then slot m - used m else 0)
    else (if leb current m then slot m - used m else 0) + (if ltb m k then slot m else 0)

pub wait : ℕ → Sched → ℕ
wait k s = sum_range 0 max_prio (weight k s.current_prio s.slot s.current_slot)

wait_lt :
    (k j : ℕ) (s s' : Sched)
    → ((m : ℕ)
        → m < max_prio
        → weight k s'.current_prio s'.slot s'.current_slot m
          ≤ weight k s.current_prio s.slot s.current_slot m)
    → j < max_prio
    → weight k s'.current_prio s'.slot s'.current_slot j
      < weight k s.current_prio s.slot s.current_slot j
    → wait k s' < wait k s
unfolding wait
wait_lt k j s s' h b d =
    sum_range_strict 0 max_prio j _ _ (λ m r. h m (omega arith)) (omega arith) (omega arith) d

weight-charge :
    (k j : ℕ) (p : Option Proc) (s : Sched) (m : ℕ)
    → k < max_prio
    → j < max_prio
    → m < max_prio
    → s.current_prio ≤ j
    → j ≢ k
    → (s.current_prio ≤ k → j < k)
    → weight k (charge j p s).current_prio (charge j p s).slot (charge j p s).current_slot m
      ≤ weight k s.current_prio s.slot s.current_slot m
unfolding charge
weight-charge k j p s m hk hj hm c ne b = ground arith

charge-weight_lt :
    (k j : ℕ) (p : Option Proc) (s : Sched)
    → k < max_prio
    → j < max_prio
    → s.current_slot j < s.slot j
    → s.current_prio ≤ j
    → j ≢ k
    → (s.current_prio ≤ k → j < k)
    → weight k (charge j p s).current_prio (charge j p s).slot (charge j p s).current_slot j
      < weight k s.current_prio s.slot s.current_slot j
unfolding charge
charge-weight_lt k j p s hk hj u c ne b = ground arith

-- Serving another level than `k`, one that the search meets before `k`, uses up waiting.
pub wait-charge :
    (k j : ℕ) (p : Option Proc) (s : Sched)
    → k < max_prio
    → j < max_prio
    → s.current_slot j < s.slot j
    → s.current_prio ≤ j
    → j ≢ k
    → (s.current_prio ≤ k → j < k)
    → wait k (charge j p s) < wait k s
wait-charge k j p s hk hj u c ne b =
    wait_lt k j s (charge j p s) (λ m h. weight-charge k j p s m hk hj h c ne b) hj
      (charge-weight_lt k j p s hk hj u c ne b)

weight-refill :
    (k : ℕ) (s : Sched) (m : ℕ)
    → m < max_prio
    → k < s.current_prio
    → weight k (refill 0 s).current_prio (refill 0 s).slot (refill 0 s).current_slot m
      ≤ weight k s.current_prio s.slot s.current_slot m
unfolding refill
weight-refill k s m h c = ground arith

refill-weight_lt :
    (k : ℕ) (s : Sched)
    → s.current_prio < max_prio
    → s.current_slot s.current_prio < s.slot s.current_prio
    → k < s.current_prio
    → weight k (refill 0 s).current_prio (refill 0 s).slot (refill 0 s).current_slot s.current_prio
      < weight k s.current_prio s.slot s.current_slot s.current_prio
unfolding refill
refill-weight_lt k s h u c = ground arith

-- Going round to level 0 uses up waiting too, although it refills every budget.
pub wait-refill :
    (k : ℕ) (s : Sched)
    → s.current_prio < max_prio
    → s.current_slot s.current_prio < s.slot s.current_prio
    → k < s.current_prio
    → wait k (refill 0 s) < wait k s
wait-refill k s h u c =
    wait_lt k s.current_prio s (refill 0 s) (λ m r. weight-refill k s m r c) h
      (refill-weight_lt k s h u c)

-- Waiting depends on the budgets and the current level only.
pub wait-eq :
    (k : ℕ) (s s' : Sched)
    → s'.slot ≡ s.slot
    → s'.current_slot ≡ s.current_slot
    → s'.current_prio ≡ s.current_prio
    → wait k s' ≡ wait k s
unfolding wait
wait-eq k s s' a b c = rw (a, b, c)

weight-le :
    (k : ℕ) (s : Sched) (m : ℕ)
    → Level s m
    → weight k s.current_prio s.slot s.current_slot m ≤ 2 * (max_prio - m)
weight-le k s m u = ground arith

budgets : sum_range 0 max_prio (λ m. 2 * (max_prio - m)) ≡ 19740
unfolding sum_range
budgets = refl

pub wait-le : (k : ℕ) (s : Sched) → IsValid s → wait k s ≤ 19740
unfolding wait
wait-le k s v =
    let b : wait k s ≤ sum_range 0 max_prio (λ m. 2 * (max_prio - m)) =
      sum_range_mono 0 max_prio _ _ (λ m h. weight-le k s m (v.levels m (omega arith))) in
    rw budgets at b
