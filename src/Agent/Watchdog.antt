-- ===== src/Agent/Watchdog.antt =====
-- agent/internal/watchdog/watchdog.go: the recovery of the graphical session. An instant stands for
-- its nanoseconds; comparisons with a difference are written as sums. Configured numbers are natural
-- ones, 0 if unset.
pub mod Window
pub mod Grace
use hadron_desktop.Base.{
  ℕ, ◌+◌, ◌*◌, ◌^◌, Bool, true, false, not, Option, none, some, List, [], ◌∷◌, ◌++◌, length, ltb,
  leb, ◌==◌, if◌then◌else◌,
}

abbrev pub default_grace : ℕ
default_grace = 30 * 10 ^ 9

abbrev pub default_rate_limit : ℕ
default_rate_limit = 3

abbrev pub default_rate_window : ℕ
default_rate_window = 300 * 10 ^ 9

-- The policy and the state machine, and the instants of all restarts, newest first.
pub record Watchdog : Type 0 where
  pub grace : ℕ
  pub rate_limit : ℕ
  pub rate_window : ℕ
  pub absent_since : Option ℕ
  pub restarts : List ℕ
  pub degraded : Bool
  pub history : List ℕ

abbrev or_default : ℕ → ℕ → ℕ
or_default n d = if n == 0 then d else n

-- `New`
unfoldable pub new_watchdog : ℕ → ℕ → ℕ → Watchdog
new_watchdog grace limit window = record {
  grace = or_default grace default_grace;
  rate_limit = or_default limit default_rate_limit;
  rate_window = or_default window default_rate_window;
  absent_since = none;
  restarts = [];
  degraded = false;
  history = [];
}

-- `pruneRestarts`, the restarts that are kept.
unfoldable pub prune : ℕ → ℕ → List ℕ → List ℕ
prune window now [] = []
prune window now (t ∷ ts) =
    if ltb now (t + window) then t ∷ prune window now ts else prune window now ts

pub data Action : Type 0 where
  no_action restart_ly : Action

-- `evaluate`, behind the grace and behind the start of an absence.
enforce : ℕ → Watchdog → Watchdog × Action
unfolding prune
enforce now w =
    let kept = prune w.rate_window now w.restarts in
    if leb w.rate_limit (length kept)
    then (record w { restarts = kept; degraded = true }, no_action)
    else (
      record w { restarts = kept ++ (now ∷ []); absent_since = none; history = now ∷ w.history },
      restart_ly,
    )

absent : Option ℕ → ℕ → Watchdog → Watchdog × Action
unfolding enforce
absent none now w = (record w { absent_since = some now }, no_action)
absent (some since) now w = if ltb now (since + w.grace) then (w, no_action) else enforce now w

unfoldable pub evaluate : ℕ → Bool → Watchdog → Watchdog × Action
unfolding absent
evaluate now present w =
    if present then (record w { absent_since = none }, no_action) else absent w.absent_since now w

-- What a tick observes: an instant, and the detector's answer, `none` for an error.
pub record Observation : Type 0 where
  pub at_time : ℕ
  pub answer : Option Bool

abbrev pub is_present : Option Bool → Bool
is_present none = false
is_present (some present) = present

-- `tick`, with the restart that it performs; a failed restart is only logged.
unfoldable pub tick : Observation → Watchdog → Watchdog × Action
unfolding evaluate
tick o w = evaluate o.at_time (is_present o.answer) w

-- `Run` on the ticks until its context is cancelled.
unfoldable pub run : List Observation → Watchdog → Watchdog
unfolding tick
run [] w = w
run (o ∷ os) w = run os (tick o w).0

-- `Readiness`
unfoldable pub is_ok : Watchdog → Bool
is_ok w = not w.degraded
