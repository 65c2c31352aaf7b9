-- ===== src/System/Steps.antt =====
-- Every slot of every thread keeps what holds of the whole program.
use os_assignment_nhom.Base.{ℕ, ◌+◌, ◌≡◌, refl, true, Option, some}
use os_assignment_nhom.Base.Word.{u32}
use os_assignment_nhom.Os.{Machine, Loading}
use os_assignment_nhom.System.{System}
use mathlib.Core.Option.{map}
use os_assignment_nhom.Os.{Status, waits, stops}
use os_assignment_nhom.Os.Slots.{Arrival, exits, ends, not_due, enters, ld_slot-Arrival}
use os_assignment_nhom.System.{Turn, cpu, ld, Reach, start, later, ld_result, ld_turn}
use os_assignment_nhom.System.Invariant.{held, Running, cpu_turn-Running}
use os_assignment_nhom.System.Settled.{Settled, cpu_turn-Settled, Arrival-Settled}
use os_assignment_nhom.System.Arrivals.{Admitted-Exclusive, Admitted-Loaded}

pub Arrival-Running :
    (n : ℕ) (s t : System) (r : Option (Status × Machine × Loading))
    → Running n s
    → Arrival s.machine s.loading r
    → map (ld_result s) r ≡ some t
    → Running n t
unfolding ld_result
Arrival-Running n s t r w (exits e) h = cc (rw e at h)
Arrival-Running n s t r w (ends l e) h =
    let same : ld_result s (stops, record (s.machine) { done = true }, s.loading) ≡ t =
      cc (rw e at h) in
    rw (← same) (record {
      exclusive = w.exclusive;
      load = record {
        unborn = w.load.unborn;
        room = w.load.room;
        range = w.load.range;
        prios = w.load.prios;
        accounted = w.load.accounted;
      };
    })
Arrival-Running n s t r w (not_due e) h =
    let same : ld_result s (waits, s.machine, s.loading) ≡ t = cc (rw e at h) in
    rw (← same) (record { exclusive = w.exclusive; load = w.load })
Arrival-Running n s t r w (enters e rest m' l eq a) h =
    let ld' : Loading = record { left = rest; avail_pid = u32 (s.loading.avail_pid + 1) } in
    let same : ld_result s (waits, m', ld') ≡ t = cc (rw eq at h) in
    rw (← same) (record {
      exclusive =
          Admitted-Exclusive n s.machine m' s.loading e rest (held s) w.exclusive w.load l a;
      load = Admitted-Loaded n s.machine m' s.loading e rest (held s) w.exclusive w.load l a;
    })

-- Both invariants at once.
pub record Sound (n total : ℕ) (s : System) : Type 0 where
  pub runs : Running n s
  pub settled : Settled n total s

Turn-Sound : {n : ℕ} {s t : System} (total : ℕ) → Turn n s t → Sound n total s → Sound n total t
unfolding ld_turn
Turn-Sound {n} {s} total (cpu junk i h k) w = record {
  runs = cpu_turn-Running junk n i s h w.runs;
  settled = cpu_turn-Settled junk n total i s h w.runs w.settled;
}
Turn-Sound {n} {s} {t} total (ld uninit free_rg now k e) w =
    let a = ld_slot-Arrival uninit free_rg now s.machine s.loading s.loading.left refl in
    record {
      runs = Arrival-Running n s t _ w.runs a e;
      settled = Arrival-Settled n total s t _ w.runs w.settled k a e;
    }

pub Reach-Sound :
    {n : ℕ} {b s : System} (total : ℕ) → Sound n total b → Reach n b s → Sound n total s
Reach-Sound total w start = w
Reach-Sound total w (later r st) = Turn-Sound total st (Reach-Sound total w r)
