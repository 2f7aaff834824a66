-- ===== src/Replayer/Loop/Drift.antt =====
-- The flag `drifted` of the replayer.
use os_ai_assisted_determini.Base.{
  ℕ, ◌≡◌, refl, ap, ◌∙◌, inl, inr, Bool, true, false, List, [], ◌∷◌, Bool-cases, Option-cases,
  Bytes,
}
use os_ai_assisted_determini.Base.Int.{ℤ}
use os_ai_assisted_determini.Recorder.Loop.{Regs}
use os_ai_assisted_determini.Recorder.Payload.{read_payload}
use os_ai_assisted_determini.Replayer.Events.{ReplayEvent}
use os_ai_assisted_determini.Replayer.Loop.{
  Answers, Stop, lost, other_stop, exited, signaled, syscall_stop, Loop, at_enter, finish_exit,
  at_exit, run, exit_status, start,
}
use os_ai_assisted_determini.Trace.Writer.{TraceWriter}

module _ (pid : ℤ) (target : Bytes) (items : List ReplayEvent) where
  at_exit-drifted :
      (s : Loop) (regs : Regs) (answers : Answers)
      → (at_exit pid target items s regs answers).drifted ≡ s.drifted
  unfolding at_exit finish_exit
  at_exit-drifted s regs answers = elim (Option-cases s.active) [
    | inl idle ↦ rw (at_exit, idle)
    | inr (ev, active) ↦ elim (Option-cases (read_payload answers.source answers.has_memory ev)) [
      | inl failed ↦ rw (at_exit, active, failed)
      | inr (buf, got) ↦ rw (at_exit, active, got)
    ]
  ]

  run_outside :
      (s : Loop) (regs : Regs) (answers : Answers) (stops : List Stop)
      → s.in_syscall ≡ false
      → run pid target items s (syscall_stop regs answers ∷ stops)
        ≡ run pid target items (at_enter pid target items s regs) stops
  unfolding run
  run_outside s regs answers stops outside = simp (run, outside)

  -- The end of a call.
  run_inside :
      (s : Loop) (regs : Regs) (answers : Answers) (stops : List Stop)
      → s.in_syscall ≡ true
      → run pid target items s (syscall_stop regs answers ∷ stops) ≡ (elim s.drifted [
        | true ↦ at_exit pid target items s regs answers
        | false ↦ run pid target items (at_exit pid target items s regs answers) stops
      ])
  unfolding run
  run_inside s regs answers stops inside = rw (run, inside) refl

  branch-drifted :
      (test flag : Bool) (last next : Loop)
      → last.drifted ≡ flag
      → next.drifted ≡ flag
      → (elim test as (λ t. Loop) [ true ↦ last | false ↦ next ]).drifted ≡ flag
  branch-drifted true flag last next l n = l
  branch-drifted false flag last next l n = n

  run-drifted : (stops : List Stop) (s : Loop) → (run pid target items s stops).drifted ≡ s.drifted
  unfolding run at_enter
  run-drifted [] s = refl
  run-drifted (lost ∷ stops) s = refl
  run-drifted (other_stop ∷ stops) s = run-drifted stops s
  run-drifted (exited code time ∷ stops) s = refl
  run-drifted (signaled signal time ∷ stops) s = refl
  run-drifted (syscall_stop regs answers ∷ stops) s = elim (Bool-cases s.in_syscall) [
    | inr outside ↦
        ap (λ l. l.drifted) (run_outside s regs answers stops outside)
        ∙ run-drifted stops (at_enter pid target items s regs)
    | inl inside ↦
        ap (λ l. l.drifted) (run_inside s regs answers stops inside)
        ∙ branch-drifted s.drifted s.drifted (at_exit pid target items s regs answers)
            (run pid target items (at_exit pid target items s regs answers) stops)
            (at_exit-drifted s regs answers)
            (run-drifted stops (at_exit pid target items s regs answers)
              ∙ at_exit-drifted s regs answers)
  ]

  -- Whatever the replayed program does, and however far its calls are from the loaded events, the
  -- replayer never sets `drifted`: its exit status is never the 3 of a drift, but 0.
  pub run_never_drifts :
      (tw : TraceWriter) (time : ℕ) (stops : List Stop)
      → ((run pid target items (start pid target items tw time) stops).drifted ≡ false)
        × (exit_status (run pid target items (start pid target items tw time) stops) ≡ 0)
  unfolding exit_status start
  run_never_drifts tw time stops =
      let steady = run-drifted stops (start pid target items tw time) in (steady, rw steady)
