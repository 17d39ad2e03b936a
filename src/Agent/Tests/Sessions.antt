-- ===== src/Agent/Tests/Sessions.antt =====
-- The session broker with one slot: a call that waits, gets the slot and is overtaken by a pause.
use hadron_desktop.Base.{◌≤◌, ◌≡◌, ◌↔◌, refl, true, false, none, some, [], ◌∷◌, All, arith}
use hadron_desktop.Base.Text.{text}
use hadron_desktop.Base.Picks.{Pick}
use hadron_desktop.Agent.Wire.{
  bash, browser, other_tool, ResultMeta, Identity, served, internal, invalid_argument, error_meta,
}
use hadron_desktop.Agent.Session.{
  new_broker, enter, pause, resume, close, live, guard, finish, Race, got_slot, rejected, executed,
  uses_slot, call, paused_meta, closed_meta,
}
use hadron_desktop.Agent.Session.System.{
  waiting, holding, System, Step, Reach, started, used, admit_call,
}
use hadron_desktop.Agent.Session.Stopped.{stopped, IsOver, session_slots, session_stopped}
use hadron_desktop.Agent.Session.Guard.{MayRun, session_call_iff}

abbrev entered : System
entered = record (started 1) { calls = waiting 0 ∷ [] }

abbrev holds : System
holds = record (started 1) { taken = 1; calls = holding 0 ∷ [] }

abbrev overtaken : System
overtaken = record holds { broker = pause (new_broker 1) }

enters_queue : Reach (started 1) entered
unfolding enter new_broker
enters_queue = Reach.next_step Reach.begin_here (Step.enters (started 1) true)

gets_slot : Reach (started 1) holds
unfolding new_broker used
gets_slot = Reach.next_step enters_queue (Step.takes_slot entered 0 [] Pick.here (omega arith))

is_paused : Reach (started 1) overtaken
is_paused = Reach.next_step gets_slot (Step.pauses holds)

session_slots_example : (used holds.calls ≡ holds.taken) × (holds.taken ≤ holds.broker.slots)
session_slots_example = session_slots 1 gets_slot

session_stopped_example :
    (admit_call (enter overtaken.broker) true overtaken.calls ≡ overtaken.calls)
    × All (IsOver overtaken.broker []) overtaken.calls
session_stopped_example = session_stopped 1 true [] is_paused is_stopped
  where
    is_stopped : stopped overtaken.broker ≡ true
    is_stopped = unfold pause new_broker in refl

is_admitted : enter holds.broker ≡ live 0
unfolding enter new_broker
is_admitted = refl

-- One call's way through the broker.
abbrev agent : Identity
agent = record { user = text "agent"; uid = 1_000; pid = 7 }

abbrev done : ResultMeta
done = record { code = served; retryable = false; identity = none }

abbrev in_time : Race
in_time = record { wait = got_slot; done_at_slot = false; done_at_end = false; caller_done = false }

abbrev interrupted : Race
interrupted = record {
  wait = got_slot;
  done_at_slot = false;
  done_at_end = true;
  caller_done = false;
}

session_call_iff_example :
    (call bash true (new_broker 1) in_time agent done
      ≡ executed (record done { identity = some agent }))
    ↔ (MayRun bash true (new_broker 1) in_time
        × (record done { identity = some agent } ≡ finish false false agent done))
session_call_iff_example =
    session_call_iff bash true (new_broker 1) in_time agent done
      (record done { identity = some agent })

runs :
    call bash true (new_broker 1) in_time agent done
    ≡ executed (record done { identity = some agent })
unfolding call guard enter new_broker finish uses_slot
runs = refl

-- A pause turns the error of an interrupted tool into its own.
pause_shows :
    call browser true (new_broker 1) interrupted agent (error_meta internal false)
    ≡ executed paused_meta
unfolding call guard enter new_broker finish
pause_shows = refl

is_closed_then : call bash true (close (new_broker 1)) in_time agent done ≡ rejected closed_meta
unfolding call guard enter new_broker close
is_closed_then = refl

unknown :
    call (other_tool (text "sudo")) true (new_broker 1) in_time agent done
    ≡ rejected (error_meta invalid_argument false)
unfolding call
unknown = refl

-- A resume after a close changes nothing.
stays_closed : resume (close (pause (new_broker 1))) ≡ close (pause (new_broker 1))
unfolding resume close pause new_broker
stays_closed = refl
