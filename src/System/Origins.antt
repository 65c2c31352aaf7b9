-- ===== src/System/Origins.antt =====
-- Every process runs the program of its entry of the configuration.
use os_assignment_nhom.Base.{
  ℕ, suc, ◌+◌, ◌<◌, ◌≡◌, refl, sym, ap, ◌∙◌, arith, true, Option, some, List, [], ◌∷◌, ◌++◌, length,
  length-append, update_ne, update_self,
}
use mathlib.Core.Option.{map}
use mathlib.Core.List.{append_assoc}
use os_assignment_nhom.Base.Word.{u32}
use os_assignment_nhom.Cpu.{Pcb}
use os_assignment_nhom.Os.{Machine, Status, waits, stops, LdProcess, Loading}
use os_assignment_nhom.Os.Codes.{cpu_slot-code}
use os_assignment_nhom.Os.Slots.{
  Source, Admitted, Arrival, exits, ends, not_due, enters, ld_slot-Arrival,
}
use os_assignment_nhom.System.{
  System, Turn, cpu, ld, Reach, start, later, cpu_turn, ld_turn, ld_result,
}
use os_assignment_nhom.System.Invariant.{Loaded}
use os_assignment_nhom.System.Steps.{Sound, Reach-Sound}

-- The processes from pid `i` on have the code of these entries, in order.
abbrev pub Origins : ℕ → List LdProcess → (ℕ → Pcb) → Type 0
Origins i [] pcbs = Unit
Origins i (e ∷ l) pcbs = Source e.file i (pcbs i).code × Origins (suc i) l pcbs

kept-Origins :
    (i : ℕ) (l : List LdProcess) (pcbs pcbs' : ℕ → Pcb)
    → ((j : ℕ) → j < i + length l → (pcbs' j).code ≡ (pcbs j).code)
    → Origins i l pcbs
    → Origins i l pcbs'
kept-Origins i [] pcbs pcbs' k o = tt
kept-Origins i (e ∷ l) pcbs pcbs' k o = (
  rw (k i (omega arith)) o.0,
  kept-Origins (suc i) l pcbs pcbs' (λ j h. k j (omega (arith, h))) o.1,
)

snoc-Origins :
    (i : ℕ) (l : List LdProcess) (e : LdProcess) (pcbs : ℕ → Pcb)
    → Origins i l pcbs
    → Source e.file (i + length l) (pcbs (i + length l)).code
    → Origins i (l ++ (e ∷ [])) pcbs
snoc-Origins i [] e pcbs o h = let z : i + 0 ≡ i = omega arith in (rw z at h, tt)
snoc-Origins i (f ∷ l) e pcbs o h =
    let z : i + suc (length l) ≡ suc i + length l = omega arith in
    (o.0, snoc-Origins (suc i) l e pcbs o.1 (rw z at h))

pub Origins-Source :
    (i : ℕ) (before after : List LdProcess) (e : LdProcess) (pcbs : ℕ → Pcb)
    → Origins i (before ++ (e ∷ after)) pcbs
    → Source e.file (i + length before) (pcbs (i + length before)).code
Origins-Source i [] after e pcbs o = let z : i + 0 ≡ i = omega arith in rw z o.0
Origins-Source i (f ∷ l) after e pcbs o =
    let z : i + suc (length l) ≡ suc i + length l = omega arith in
    rw z (Origins-Source (suc i) l after e pcbs o.1)

-- The entries taken up so far have become the processes of pid 1, 2 and so on.
pub record Traced (all : List LdProcess) (m : Machine) (ld : Loading) : Type 0 where
  pub past : List LdProcess
  pub split : all ≡ past ++ ld.left
  pub count : ld.avail_pid ≡ 1 + length past
  pub origins : Origins 1 past m.pcbs

Admitted-Traced :
    (all : List LdProcess) (m m' : Machine) (loading : Loading) (e : LdProcess)
    (rest : List LdProcess)
    → Loaded m loading
    → loading.left ≡ e ∷ rest
    → Admitted m loading.avail_pid e m'
    → Traced all m loading
    → Traced all m' (record { left = rest; avail_pid = u32 (loading.avail_pid + 1) })
Admitted-Traced all m m' loading e rest r l a w =
    let k = ap (λ (x : List LdProcess). length x) l in
    let u : u32 (loading.avail_pid + 1) ≡ loading.avail_pid + 1 = omega (arith, r.range, k) in
    let here : (m'.pcbs loading.avail_pid) ≡ a.block =
      rw a.blocks (update_self m.pcbs loading.avail_pid a.block) in
    let apart = λ (j : ℕ) (h : j < 1 + length w.past).
      ap (λ (b : ℕ → Pcb). (b j).code) a.blocks
      ∙ ap (λ (b : Pcb). b.code)
          (update_ne m.pcbs loading.avail_pid j a.block (omega (arith, h, w.count))) in
    record {
      past = w.past ++ (e ∷ []);
      split =
          w.split
          ∙ ap (λ (x : List LdProcess). w.past ++ x) l
          ∙ sym (append_assoc w.past (e ∷ []) rest);
      count = omega (arith, u, w.count, length-append w.past (e ∷ []));
      origins =
          snoc-Origins 1 w.past e m'.pcbs (kept-Origins 1 w.past m.pcbs m'.pcbs apart w.origins)
            (rw (← w.count, here) a.source);
    }

Arrival-Traced :
    (all : List LdProcess) (s t : System) (r : Option (Status × Machine × Loading))
    → Loaded s.machine s.loading
    → Traced all s.machine s.loading
    → Arrival s.machine s.loading r
    → map (ld_result s) r ≡ some t
    → Traced all t.machine t.loading
unfolding ld_result
Arrival-Traced all s t r w z (exits e) h = cc (rw e at h)
Arrival-Traced all s t r w z (ends l e) h =
    let same : ld_result s (stops, record (s.machine) { done = true }, s.loading) ≡ t =
      cc (rw e at h) in
    rw (← same) (record { past = z.past; split = z.split; count = z.count; origins = z.origins })
Arrival-Traced all s t r w z (not_due e) h =
    let same : ld_result s (waits, s.machine, s.loading) ≡ t = cc (rw e at h) in rw (← same) z
Arrival-Traced all s t r w z (enters e rest m' l eq a) h =
    let ld' : Loading = record { left = rest; avail_pid = u32 (s.loading.avail_pid + 1) } in
    let same : ld_result s (waits, m', ld') ≡ t = cc (rw eq at h) in
    rw (← same) (Admitted-Traced all s.machine m' s.loading e rest w l a z)

Turn-Traced :
    {n : ℕ} {s t : System} (all : List LdProcess)
    → Turn n s t
    → Loaded s.machine s.loading
    → Traced all s.machine s.loading
    → Traced all t.machine t.loading
unfolding cpu_turn ld_turn
Turn-Traced {n} {s} all (cpu junk i h k) w z = record {
  past = z.past;
  split = z.split;
  count = z.count;
  origins =
      kept-Origins 1 z.past s.machine.pcbs _
        (λ j l. cpu_slot-code junk s.machine (s.threads i).time_left (s.threads i).proc j)
        z.origins;
}
Turn-Traced {n} {s} {t} all (ld uninit free_rg now k e) w z =
    Arrival-Traced all s t _ w z
      (ld_slot-Arrival uninit free_rg now s.machine s.loading s.loading.left refl) e

pub Reach-Traced :
    {n : ℕ} {b s : System} (total : ℕ) (all : List LdProcess)
    → Sound n total b
    → Traced all b.machine b.loading
    → Reach n b s
    → Traced all s.machine s.loading
Reach-Traced total all v w start = w
Reach-Traced total all v w (later r st) =
    Turn-Traced all st (Reach-Sound total v r).runs.load (Reach-Traced total all v w r)
