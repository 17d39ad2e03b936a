-- ===== src/Agent/Session/System.antt =====
-- The broker among its calls: where each call stands in `guard`, what its semaphore holds, and the
-- steps that calls and the operator take.
use hadron_desktop.Base.{ℕ, ◌+◌, ◌-◌, ◌<◌, Bool, true, false, List, [], ◌∷◌, if◌then◌else◌}
use hadron_desktop.Base.Picks.{Pick}
use hadron_desktop.Agent.Session.{
  Broker, new_broker, Gate, live, gate_paused, gate_closed, enter, pause, resume, close, is_done,
}

-- A call waits for a slot, has one and has not looked at its generation again, or executes.
pub data Call : Type 0 where
  waiting : ℕ → Call
  holding : ℕ → Call
  running : ℕ → Bool → Call

-- `taken` is the number of entries in the channel `sem`.
pub record System : Type 0 where
  pub broker : Broker
  pub taken : ℕ
  pub calls : List Call

abbrev pub gen_of : Call → ℕ
gen_of (waiting g) = g
gen_of (holding g) = g
gen_of (running g slot) = g

abbrev pub weight : Call → ℕ
weight (waiting g) = 0
weight (holding g) = 1
weight (running g true) = 1
weight (running g false) = 0

-- The calls that have a slot.
unfoldable pub used : List Call → ℕ
used [] = 0
used (c ∷ cs) = weight c + used cs

abbrev pub admit_call : Gate → Bool → List Call → List Call
admit_call (live g) true calls = waiting g ∷ calls
admit_call (live g) false calls = running g false ∷ calls
admit_call gate_paused slot calls = calls
admit_call gate_closed slot calls = calls

-- The second look at the generation.
abbrev pub recheck : ℕ → Broker → List Call → List Call
recheck g b rest = if is_done g b.cancelled then rest else running g true ∷ rest

-- The deferred receive from the channel: behind the second look only if the call leaves there, and
-- at the end of a call only if it took a slot.
abbrev pub taken_at_recheck : ℕ → Broker → ℕ → ℕ
taken_at_recheck g b taken = if is_done g b.cancelled then taken - 1 else taken

abbrev pub taken_at_end : Bool → ℕ → ℕ
taken_at_end true taken = taken - 1
taken_at_end false taken = taken

pub data Step : System → System → Type 0 where
  enters :
      (s : System) (slot : Bool)
      → Step s (record s { calls = admit_call (enter s.broker) slot s.calls })
  takes_slot :
      (s : System) (g : ℕ) (rest : List Call)
      → Pick (waiting g) s.calls rest
      → s.taken < s.broker.slots
      → Step s (record s { taken = s.taken + 1; calls = holding g ∷ rest })
  leaves_queue :
      (s : System) (g : ℕ) (rest : List Call)
      → Pick (waiting g) s.calls rest
      → Step s (record s { calls = rest })
  rechecks :
      (s : System) (g : ℕ) (rest : List Call)
      → Pick (holding g) s.calls rest
      → Step s (record s {
        taken = taken_at_recheck g s.broker s.taken;
        calls = recheck g s.broker rest;
      })
  ends :
      (s : System) (g : ℕ) (slot : Bool) (rest : List Call)
      → Pick (running g slot) s.calls rest
      → Step s (record s { taken = taken_at_end slot s.taken; calls = rest })
  pauses : (s : System) → Step s (record s { broker = pause s.broker })
  resumes : (s : System) → Step s (record s { broker = resume s.broker })
  closes : (s : System) → Step s (record s { broker = close s.broker })

pub data Reach (s : System) : System → Type 0 where
  begin_here : Reach s s
  next_step : {t u : System} → Reach s t → Step t u → Reach s u

abbrev pub started : ℕ → System
started n = record { broker = new_broker n; taken = 0; calls = [] }
