-- ===== src/Agent/Tests/Stopping.antt =====
-- The emergency stop.
use mathlib.Core.List.{Memᴰ}
use hadron_desktop.Base.{◌≡◌, refl, true, false, none, some, [], ◌∷◌}
use hadron_desktop.Agent.Control.{
  Controller, new_controller, enter, pause, resume, ready, status, health, probe,
}
use hadron_desktop.Agent.Control.Admission.{Orderly, pauses, pause_cancels, resume_orphans}

-- One call, a pause and a resume, and one more call.
abbrev controller : Controller
controller = resume (pause (new_controller 2))

calls : Orderly controller (1 ∷ 0 ∷ [])
unfolding new_controller enter pause resume
calls =
    Orderly.called
      (Orderly.resuming (Orderly.pausing (Orderly.called (Orderly.started 2) refl)) refl) refl

pause_cancels_example : Memᴰ 1 (pause controller).cancelled × (enter (pause controller) ≡ none)
pause_cancels_example = pause_cancels 1 calls (Memᴰ.head refl)

resume_orphans_example : ¬ Memᴰ 1 (pauses 3 (resume controller)).cancelled
unfolding new_controller enter pause resume
resume_orphans_example = resume_orphans 1 3 calls refl

not_ready : ready (status none (some true) (pause controller)) ≡ false
unfolding ready status probe pause
not_ready = refl

paused_health : health none none (pause controller) ≡ (false, true)
unfolding health probe pause
paused_health = refl
