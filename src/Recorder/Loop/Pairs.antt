-- ===== src/Recorder/Loop/Pairs.antt =====
-- Stops that are neither of a system call nor the program's end.
use os_ai_assisted_determini.Base.{ℕ, zero, suc, ◌≡◌, refl, List, ◌∷◌, Bytes}
use os_ai_assisted_determini.Base.Int.{ℤ}
use os_ai_assisted_determini.Recorder.Loop.{Stop, other_stop, Loop, run}

abbrev pub others : ℕ → List Stop → List Stop
others zero stops = stops
others (suc n) stops = other_stop ∷ others n stops

module _ (pid : ℤ) (target : Bytes) where
  pub run-others :
      (n : ℕ) (s : Loop) (stops : List Stop)
      → run pid target s (others n stops) ≡ run pid target s stops
  unfolding run
  run-others zero s stops = refl
  run-others (suc n) s stops = run-others n s stops
