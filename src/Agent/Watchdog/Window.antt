-- ===== src/Agent/Watchdog/Window.antt =====
-- The rate limit over every run.
use hadron_desktop.Base.{
  ℕ, ◌+◌, ◌≤◌, ◌<◌, ◌≡◌, refl, ◌∙◌, Bool, true, false, ◌&&◌, Option, none, some, List, [], ◌∷◌,
  ◌++◌, All, length, ltb, leb, if◌then◌else◌, if_cases, arith,
}
use hadron_desktop.Base.Picks.{All-mono}
use hadron_desktop.Agent.Watchdog.{
  Watchdog, new_watchdog, prune, enforce, absent, evaluate, Action, Observation, is_present, tick,
  run,
}

-- The instants after `c`, and those in the window behind it.
pub count_after : ℕ → List ℕ → ℕ
count_after c [] = 0
count_after c (t ∷ ts) = (if ltb c t then 1 else 0) + count_after c ts

pub count_within : ℕ → ℕ → List ℕ → ℕ
count_within c n [] = 0
count_within c n (t ∷ ts) = (if ltb c t && leb t (c + n) then 1 else 0) + count_within c n ts

-- The ticks are in the order of time.
abbrev pub Ascending : ℕ → List Observation → Type 0
Ascending last [] = Unit
Ascending last (o ∷ os) = (last ≤ o.at_time) × Ascending o.at_time os

pub record Inv (last : ℕ) (w : Watchdog) : Type 0 where
  pub positive : 0 < w.rate_limit
  pub past : All (λ (t : ℕ). t ≤ last) w.history
  pub remembered :
      (c : ℕ) → last ≤ c + w.rate_window → count_after c w.history ≤ count_after c w.restarts
  pub limited : (c : ℕ) → count_within c w.rate_window w.history ≤ w.rate_limit

count_after-le-length : (c : ℕ) (ts : List ℕ) → count_after c ts ≤ length ts
unfolding count_after
count_after-le-length c [] = omega arith
count_after-le-length c (t ∷ ts) = ground (arith, count_after-le-length c ts)

count_after-append :
    (c : ℕ) (ts us : List ℕ) → count_after c (ts ++ us) ≡ count_after c ts + count_after c us
unfolding count_after
count_after-append c [] us = omega arith
count_after-append c (t ∷ ts) us = omega (arith, count_after-append c ts us)

-- What a prune drops is before the window.
count_after-prune :
    (c window now : ℕ) (ts : List ℕ)
    → now ≤ c + window
    → count_after c (prune window now ts) ≡ count_after c ts
unfolding count_after prune
count_after-prune c window now [] h = refl
count_after-prune c window now (t ∷ ts) h = ground (arith, count_after-prune c window now ts h)

count_within-le-after : (c n : ℕ) (ts : List ℕ) → count_within c n ts ≤ count_after c ts
unfolding count_after count_within
count_within-le-after c n [] = omega arith
count_within-le-after c n (t ∷ ts) = ground (arith, count_within-le-after c n ts)

-- A restart that the limit allows keeps the limit in every window.
restart_fits :
    (last now : ℕ) (w : Watchdog) (c : ℕ)
    → Inv last w
    → last ≤ now
    → length (prune w.rate_window now w.restarts) < w.rate_limit
    → count_within c w.rate_window (now ∷ w.history) ≤ w.rate_limit
unfolding count_within
restart_fits last now w c inv h room = ground (
  arith,
  inv.limited c,
  inv.remembered c,
  count_within-le-after c w.rate_window w.history,
  count_after-prune c w.rate_window now w.restarts,
  count_after-le-length c (prune w.rate_window now w.restarts),
)

later_past :
    (last now : ℕ) (ts : List ℕ)
    → last ≤ now
    → All (λ (t : ℕ). t ≤ last) ts
    → All (λ (t : ℕ). t ≤ now) ts
later_past last now ts h =
    All-mono (λ (t : ℕ). t ≤ last) (λ (t : ℕ). t ≤ now) (λ t k. omega arith) ts

-- What is remembered survives a prune.
pruned_remembered :
    (last now : ℕ) (w : Watchdog) (c : ℕ)
    → Inv last w
    → last ≤ now
    → now ≤ c + w.rate_window
    → count_after c w.history ≤ count_after c (prune w.rate_window now w.restarts)
pruned_remembered last now w c inv h k =
    omega
      (arith, inv.remembered c (omega arith), count_after-prune c w.rate_window now w.restarts k)

-- A change of the absence alone.
same_restarts :
    (last now : ℕ) (w : Watchdog) (since : Option ℕ)
    → Inv last w
    → last ≤ now
    → Inv now (record w { absent_since = since })
same_restarts last now w since inv h = record {
  positive = inv.positive;
  past = later_past last now w.history h inv.past;
  remembered = λ c k. inv.remembered c (omega arith);
  limited = inv.limited;
}

enforce-Inv : (last now : ℕ) (w : Watchdog) → Inv last w → last ≤ now → Inv now (enforce now w).0
unfolding enforce count_after
enforce-Inv last now w inv h =
    if_cases (λ (r : Watchdog × Action). Inv now r.0)
      (leb w.rate_limit (length (prune w.rate_window now w.restarts))) _ _
      (λ e. record {
        positive = inv.positive;
        past = later_past last now w.history h inv.past;
        remembered = λ c k. pruned_remembered last now w c inv h k;
        limited = inv.limited;
      })
      (λ e. record {
        positive = inv.positive;
        past = (omega arith, later_past last now w.history h inv.past);
        remembered = λ c k. omega (
          arith,
          pruned_remembered last now w c inv h k,
          count_after-append c (prune w.rate_window now w.restarts) (now ∷ []),
        );
        limited = λ c. restart_fits last now w c inv h (ground arith);
      })

absent-Inv :
    (last now : ℕ) (o : Option ℕ) (w : Watchdog)
    → Inv last w
    → last ≤ now
    → Inv now (absent o now w).0
unfolding absent
absent-Inv last now none w inv h = same_restarts last now w (some now) inv h
absent-Inv last now (some since) w inv h =
    if_cases (λ (r : Watchdog × Action). Inv now r.0) (ltb now (since + w.grace)) _ _
      (λ e. same_restarts last now w w.absent_since inv h) (λ e. enforce-Inv last now w inv h)

evaluate-Inv :
    (last now : ℕ) (present : Bool) (w : Watchdog)
    → Inv last w
    → last ≤ now
    → Inv now (evaluate now present w).0
unfolding evaluate
evaluate-Inv last now true w inv h = same_restarts last now w none inv h
evaluate-Inv last now false w inv h = absent-Inv last now w.absent_since w inv h

tick_keeps :
    (o : Observation) (w : Watchdog)
    → ((tick o w).0.rate_limit ≡ w.rate_limit) × ((tick o w).0.rate_window ≡ w.rate_window)
unfolding tick evaluate absent enforce
tick_keeps o w = ground arith

run-limited :
    (last limit window : ℕ) (os : List Observation) (w : Watchdog) (c : ℕ)
    → Inv last w
    → Ascending last os
    → w.rate_limit ≡ limit
    → w.rate_window ≡ window
    → count_within c window (run os w).history ≤ limit
unfolding run
run-limited last limit window [] w c inv h e f = rw (← e, ← f) (inv.limited c)
run-limited last limit window (o ∷ os) w c inv (h, hs) e f =
    let (same_limit, same_window) = tick_keeps o w in
    run-limited o.at_time limit window os (tick o w).0 c
      (unfold tick in evaluate-Inv last o.at_time (is_present o.answer) w inv h) hs (same_limit ∙ e)
      (same_window ∙ f)

-- Over every run of a new watchdog, with ticks in the order of time, at most the configured number of
-- restarts lies in any window of the configured length.
pub restarts_limited :
    (grace limit window : ℕ) (os : List Observation) (c : ℕ)
    → Ascending 0 os
    → count_within c
        (new_watchdog grace limit window).rate_window
        (run os (new_watchdog grace limit window)).history
      ≤ (new_watchdog grace limit window).rate_limit
unfolding new_watchdog count_within count_after
restarts_limited grace limit window os c h =
    run-limited 0 _ _ os (new_watchdog grace limit window) c
      (record {
        positive = ground arith;
        past = tt;
        remembered = λ c k. omega arith;
        limited = λ c. ground arith;
      })
      h refl refl
