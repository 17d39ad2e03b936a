-- ===== src/Agent/Control.antt =====
-- agent/internal/control/controller.go: the emergency controller, which runs every admitted call
-- under a generation, rejects calls while it is paused and fans pause and resume out to the
-- brokers. A generation is its number, a context is cancelled when its number is in the list; each
-- method runs as one step.
pub mod Admission
use hadron_desktop.Base.{
  ℕ, zero, suc, ◌+◌, Bool, true, false, ◌&&◌, not, Option, none, some, List, [], ◌∷◌, ◌++◌, length,
  if◌then◌else◌,
}

-- `Status`, without the version string.
pub record Status : Type 0 where
  pub gateway : Bool
  pub session : Bool
  pub cua : Bool
  pub paused : Bool

unfoldable pub ready : Status → Bool
ready s = s.gateway && (s.session && (s.cua && not s.paused))

-- What a broker was told, the first argument its index.
pub data Told : Type 0 where
  told_pause : ℕ → Told
  told_resume : ℕ → Told

-- The controller with its brokers' number, the cancelled generations, the number the next
-- generation gets, what the brokers were told and the status lines written, newest first.
pub record Controller : Type 0 where
  pub brokers : ℕ
  pub paused : Bool
  pub gen : ℕ
  pub next_gen : ℕ
  pub cancelled : List ℕ
  pub told : List Told
  pub lines : List Bool

-- `New`.
unfoldable pub new_controller : ℕ → Controller
new_controller n = record {
  brokers = n;
  paused = false;
  gen = 0;
  next_gen = 1;
  cancelled = [];
  told = [];
  lines = [];
}

-- `Enter`: the generation that the call's context hangs on, or a rejection.
unfoldable pub enter : Controller → Option ℕ
enter c = if c.paused then none else some c.gen

-- The loop over the brokers, whose errors are only logged.
abbrev pub tell : (ℕ → Told) → ℕ → List Told → List Told
tell word zero told = told
tell word (suc n) told = word n ∷ tell word n told

-- `Pause`.
unfoldable pub pause : Controller → Controller
pause c = record c {
  paused = true;
  cancelled = c.gen ∷ c.cancelled;
  told = tell Told.told_pause c.brokers c.told;
  lines = if c.paused then c.lines else true ∷ c.lines;
}

-- `Resume`.
unfoldable pub resume : Controller → Controller
resume c = record c {
  paused = false;
  gen = c.next_gen;
  next_gen = suc c.next_gen;
  told = tell Told.told_resume c.brokers c.told;
  lines = if c.paused then false ∷ c.lines else c.lines;
}

-- `probe`: the answer of a health function, none for a nil one.
unfoldable pub probe : Option Bool → Bool
probe none = true
probe (some healthy) = healthy

-- `Controller.Status`, the arguments what the two health functions answer.
unfoldable pub status : Option Bool → Option Bool → Controller → Status
status session cua c = record {
  gateway = true;
  session = probe session;
  cua = probe cua;
  paused = c.paused;
}

-- `SocketHandler.Health`: whether the runtime is ready, and whether it is paused.
unfoldable pub health : Option Bool → Option Bool → Controller → Bool × Bool
unfolding ready status
health session cua c = let s = status session cua c in (ready s, s.paused)
