-- ===== src/Agent/Tests/Guarding.antt =====
-- The watchdog with a grace of 10, and at most one restart in 100.
use hadron_desktop.Base.{
  ℕ, ◌+◌, ◌≤◌, ◌<◌, ◌≡◌, refl, true, false, none, some, List, [], ◌∷◌, length, inl, inr, arith,
}
use hadron_desktop.Agent.Watchdog.{
  Watchdog, new_watchdog, Observation, restart_ly, prune, evaluate, tick, run, is_ok,
}
use hadron_desktop.Agent.Watchdog.Window.{count_within, restarts_limited}
use hadron_desktop.Agent.Watchdog.Grace.{
  AbsentSince, Watched, restart_after_grace, ComesTo, restarts_eventually,
}

abbrev missing : ℕ → Observation
missing t = record { at_time = t; answer = some false }

abbrev found : ℕ → Observation
found t = record { at_time = t; answer = some true }

abbrev unreadable : ℕ → Observation
unreadable t = record { at_time = t; answer = none }

abbrev dog : Watchdog
dog = new_watchdog 10 1 100

abbrev outage : List Observation
outage = missing 1 ∷ unreadable 6 ∷ missing 12 ∷ missing 20 ∷ missing 40 ∷ missing 113 ∷ []

-- Restarted at 12, held back at 40 for the limit, and restarted again at 113, when the first restart
-- is out of the window; the readiness stays degraded.
two_restarts : (run outage dog).history ≡ 113 ∷ 12 ∷ []
unfolding run new_watchdog
two_restarts = refl

stays_degraded : is_ok (run outage dog) ≡ false
unfolding run new_watchdog is_ok
stays_degraded = refl

restarts_limited_example :
    count_within 11 (new_watchdog 10 1 100).rate_window (run outage (new_watchdog 10 1 100)).history
    ≤ (new_watchdog 10 1 100).rate_limit
restarts_limited_example = restarts_limited 10 1 100 outage 11 (omega arith)

restart_after_grace_example :
    (t : ℕ) × AbsentSince t (missing 12 ∷ missing 1 ∷ [])
    × (t + (tick (missing 1) dog).0.grace ≤ 12)
restart_after_grace_example =
    restart_after_grace (missing 12) fresh_dog (Watched.observed (missing 1) Watched.fresh)
      is_restart
  where
    fresh_dog : dog.absent_since ≡ none
    fresh_dog = unfold new_watchdog in refl

    is_restart : (tick (missing 12) (tick (missing 1) dog).0).1 ≡ restart_ly
    is_restart = unfold tick evaluate prune new_watchdog in refl

restarts_eventually_example :
    length dog.history < length (run (missing 1 ∷ missing 8 ∷ missing 11 ∷ []) dog).history
restarts_eventually_example =
    restarts_eventually (missing 1) (missing 8 ∷ missing 11 ∷ []) dog fresh_dog is_room
      (omega arith) (refl, (refl, (refl, tt))) comes
  where
    fresh_dog : dog.absent_since ≡ none
    fresh_dog = unfold new_watchdog in refl

    is_room : length (prune dog.rate_window 1 dog.restarts) < dog.rate_limit
    is_room = unfold prune new_watchdog in omega arith

    comes : ComesTo (1 + dog.grace) (missing 8 ∷ missing 11 ∷ [])
    comes = unfold new_watchdog in inr (inl (omega arith))
