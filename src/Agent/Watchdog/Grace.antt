-- ===== src/Agent/Watchdog/Grace.antt =====
-- When a restart comes: only behind a whole grace of absence, and then for sure.
use mathlib.Core.Path.{subst}
use hadron_desktop.Base.{
  ℕ, ◌+◌, ◌≤◌, ◌<◌, ◌≡◌, ◌⊎◌, inl, inr, refl, sym, Bool, true, false, Option, none, some, List, [],
  ◌∷◌, All, length, ltb, leb, if_cases, Bool-cases, arith,
}
use hadron_desktop.Agent.Watchdog.Window.{Ascending}
use hadron_desktop.Agent.Watchdog.{
  Watchdog, prune, enforce, absent, evaluate, Action, restart_ly, Observation, is_present, tick,
  run,
}

-- The newest observations, back to one at the instant, show no session.
abbrev pub AbsentSince : ℕ → List Observation → Type 0
AbsentSince t [] = ⊥
AbsentSince t (o ∷ seen) = (is_present o.answer ≡ false) × ((o.at_time ≡ t) ⊎ AbsentSince t seen)

-- The observations that a watchdog has made, newest first.
pub data Watched (w : Watchdog) : Watchdog → List Observation → Type 0 where
  fresh : Watched w w []
  observed :
      {v : Watchdog} {seen : List Observation} (o : Observation)
      → Watched w v seen
      → Watched w (tick o v).0 (o ∷ seen)

abbrev Timed : Option ℕ → List Observation → Type 0
Timed none seen = Unit
Timed (some t) seen = AbsentSince t seen

absent-Timed :
    (o : Observation) (since : Option ℕ) (v : Watchdog) (seen : List Observation)
    → is_present o.answer ≡ false
    → v.absent_since ≡ since
    → Timed since seen
    → Timed (absent since o.at_time v).0.absent_since (o ∷ seen)
unfolding absent enforce
absent-Timed o none v seen e k h = (e, inl refl)
absent-Timed o (some t) v seen e k h =
    if_cases (λ (r : Watchdog × Action). Timed r.0.absent_since (o ∷ seen))
      (ltb o.at_time (t + v.grace)) _ _ (λ f. rw k (e, inr h))
      (λ f.
        if_cases (λ (r : Watchdog × Action). Timed r.0.absent_since (o ∷ seen))
          (leb v.rate_limit (length (prune v.rate_window o.at_time v.restarts))) _ _
          (λ g. rw k (e, inr h)) (λ g. tt))

evaluate-Timed :
    (o : Observation) (present : Bool) (v : Watchdog) (seen : List Observation)
    → is_present o.answer ≡ present
    → Timed v.absent_since seen
    → Timed (evaluate o.at_time present v).0.absent_since (o ∷ seen)
unfolding evaluate
evaluate-Timed o true v seen e h = tt
evaluate-Timed o false v seen e h = absent-Timed o v.absent_since v seen e refl h

Watched-Timed :
    {w v : Watchdog} {seen : List Observation}
    → w.absent_since ≡ none
    → Watched w v seen
    → Timed v.absent_since seen
unfolding tick
Watched-Timed e fresh = rw e tt
Watched-Timed e (observed {v} {seen} o k) =
    evaluate-Timed o (is_present o.answer) v seen refl (Watched-Timed e k)

restarting :
    (now : ℕ) (since : Option ℕ) (present : Bool) (v : Watchdog)
    → v.absent_since ≡ since
    → (evaluate now present v).1 ≡ restart_ly
    → (t : ℕ) × (since ≡ some t) × (present ≡ false) × (t + v.grace ≤ now)
unfolding evaluate absent enforce
restarting now since true v e h = absurd (cc h)
restarting now none false v e h = absurd (cc (rw e at h))
restarting now (some t) false v e h = (t, refl, refl, ground arith)

-- A restart comes only with an observation that, with those before it back to a whole grace earlier,
-- shows no session.
pub restart_after_grace :
    {w v : Watchdog} {seen : List Observation} (o : Observation)
    → w.absent_since ≡ none
    → Watched w v seen
    → (tick o v).1 ≡ restart_ly
    → (t : ℕ) × AbsentSince t (o ∷ seen) × (t + v.grace ≤ o.at_time)
unfolding tick
restart_after_grace {v = v} {seen = seen} o e k h =
    let (t, since, away, late) =
      restarting o.at_time v.absent_since (is_present o.answer) v refl h in
    (t, (away, inr (shown since (Watched-Timed e k))), late)
  where
    shown : {t : ℕ} → v.absent_since ≡ some t → Timed v.absent_since seen → AbsentSince t seen
    shown f m = rw f at m

-- Some observation is at the instant or later.
abbrev pub ComesTo : ℕ → List Observation → Type 0
ComesTo t [] = ⊥
ComesTo t (o ∷ os) = (t ≤ o.at_time) ⊎ ComesTo t os

prune-older :
    (window now later : ℕ) (ts : List ℕ)
    → now ≤ later
    → length (prune window later ts) ≤ length (prune window now ts)
unfolding prune
prune-older window now later [] h = omega arith
prune-older window now later (t ∷ ts) h = ground (arith, prune-older window now later ts h)

history_grows :
    (os : List Observation) (w : Watchdog) → length w.history ≤ length (run os w).history
unfolding run
history_grows [] w = omega arith
history_grows (o ∷ os) w = omega (arith, history_grows os (tick o w).0, one_tick)
  where
    one_tick : length w.history ≤ length (tick o w).0.history
    one_tick = unfold tick evaluate absent enforce in ground arith

tick_waits :
    (o : Observation) (w : Watchdog) (t : ℕ)
    → is_present o.answer ≡ false
    → w.absent_since ≡ some t
    → o.at_time < t + w.grace
    → (tick o w).0 ≡ w
unfolding tick evaluate absent
tick_waits o w t e k h = rw (e, k) (ground arith)

tick_restarts :
    (o : Observation) (w : Watchdog) (t : ℕ)
    → is_present o.answer ≡ false
    → w.absent_since ≡ some t
    → t + w.grace ≤ o.at_time
    → length (prune w.rate_window o.at_time w.restarts) < w.rate_limit
    → length w.history < length (tick o w).0.history
unfolding tick evaluate absent enforce
tick_restarts o w t e k h room = ground arith

tick_notes :
    (o : Observation) (w : Watchdog)
    → is_present o.answer ≡ false
    → w.absent_since ≡ none
    → (tick o w).0 ≡ record w { absent_since = some o.at_time }
unfolding tick evaluate absent
tick_notes o w e k = ground arith

waiting_restarts :
    (last t : ℕ) (os : List Observation) (w : Watchdog)
    → w.absent_since ≡ some t
    → length (prune w.rate_window last w.restarts) < w.rate_limit
    → Ascending last os
    → All (λ (o : Observation). is_present o.answer ≡ false) os
    → ComesTo (t + w.grace) os
    → length w.history < length (run os w).history
unfolding run
waiting_restarts last t [] w k room up away far = absurd far
waiting_restarts last t (o ∷ os) w k room (le, up) (e, away) far =
    elim (Bool-cases (ltb o.at_time (t + w.grace))) [
      | inr late ↦ omega (
        arith,
        history_grows os (tick o w).0,
        tick_restarts o w t e k (ground arith)
            (omega (arith, prune-older w.rate_window last o.at_time w.restarts le)),
      )
      | inl early ↦
          subst (λ (v : Watchdog). length w.history < length (run os v).history)
            (sym (tick_waits o w t e k (ground arith)))
            (waiting_restarts o.at_time t os w k
              (omega (arith, prune-older w.rate_window last o.at_time w.restarts le)) up away
              (further far (ground arith)))
    ]
  where
    further :
        (t + w.grace ≤ o.at_time) ⊎ ComesTo (t + w.grace) os
        → o.at_time < t + w.grace
        → ComesTo (t + w.grace) os
    further (inl h) early = absurd (omega arith)
    further (inr h) early = h

-- A session that is missed at every tick, in the order of time, is restarted by the first tick that
-- comes a whole grace later, if fewer restarts than the limit lie in the window before the first.
pub restarts_eventually :
    (o : Observation) (os : List Observation) (w : Watchdog)
    → w.absent_since ≡ none
    → length (prune w.rate_window o.at_time w.restarts) < w.rate_limit
    → Ascending o.at_time os
    → All (λ (p : Observation). is_present p.answer ≡ false) (o ∷ os)
    → ComesTo (o.at_time + w.grace) os
    → length w.history < length (run (o ∷ os) w).history
unfolding run
restarts_eventually o os w k room up (e, away) far =
    subst (λ (v : Watchdog). length w.history < length (run os v).history)
      (sym (tick_notes o w e k))
      (waiting_restarts o.at_time o.at_time os (record w { absent_since = some o.at_time }) refl
        room up away far)
