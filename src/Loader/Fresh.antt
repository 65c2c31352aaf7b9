-- ===== src/Loader/Fresh.antt =====
-- What `load` makes of any file that it can read.
use os_assignment_nhom.Base.{ℕ, ◌+◌, ◌≡◌, refl, Option, none, some, List, inl, inr, ◌⊎◌}
use os_assignment_nhom.Base.Word.{u32}
use os_assignment_nhom.Cpu.{Inst, Pcb}
use os_assignment_nhom.Loader.{Token, Uninit, load, loaded}

-- What `load` makes: a process of the given pid at its start, and the pid to use next.
abbrev pub Fresh : ℕ → Pcb × ℕ × ℕ → Type 0
Fresh pid r = (r.0.pid ≡ pid) × (r.0.pc ≡ 0) × (r.2 ≡ u32 (pid + 1))

loaded-Fresh :
    (uninit : Uninit) (pid priority : ℕ) (o : Option (List Inst))
    → (loaded uninit pid priority o ≡ none)
      ⊎ ((r : Pcb × ℕ × ℕ) × (loaded uninit pid priority o ≡ some r) × Fresh pid r)
unfolding loaded
loaded-Fresh uninit pid priority none = inl refl
loaded-Fresh uninit pid priority (some code) = inr (_, refl, (refl, refl, refl))

pub load-Fresh :
    (uninit : Uninit) (pid : ℕ) (file : Option (List Token))
    → (load uninit pid file ≡ none)
      ⊎ ((r : Pcb × ℕ × ℕ) × (load uninit pid file ≡ some r) × Fresh pid r)
unfolding load
load-Fresh uninit pid none = inl refl
load-Fresh uninit pid (some text) = loaded-Fresh uninit pid _ _
