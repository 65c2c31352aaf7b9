-- ===== src/Sched/Fairness.antt =====
-- No level starves: the slots that the levels before level `k` have left bound how often a
-- dispatch can pass over a process that waits at level `k`.
pub mod Weight
pub mod Progress
pub mod Bypass
