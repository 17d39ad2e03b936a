-- ===== src/Agent/Session.antt =====
-- agent/internal/session/service.go: the unprivileged broker. A method is the section that it runs
-- under the mutex; a generation is its number, and its context is done when the number is in the
-- list.
pub mod Guard
pub mod System
pub mod Stopped
use hadron_desktop.Base.{
  ℕ, suc, Bool, true, false, not, ◌&&◌, ◌||◌, Option, none, some, List, [], ◌∷◌, ◌==◌,
  if◌then◌else◌,
}
use hadron_desktop.Agent.Wire.{
  Tool, computer_use, bash, read_file, search_files, write_file, patch, browser, other_tool,
  ErrorCode, served, invalid_argument, session_unavailable, deadline_exceeded, output_truncated,
  paused, internal, Identity, ResultMeta, error_meta,
}

-- What the broker tells its backends.
pub data Order : Type 0 where
  stop_computer close_process close_computer : Order

pub record Broker : Type 0 where
  pub slots : ℕ
  pub is_paused : Bool
  pub is_closed : Bool
  pub gen : ℕ
  pub next_gen : ℕ
  pub cancelled : List ℕ
  pub orders : List Order

abbrev pub default_os_concurrency : ℕ
default_os_concurrency = 8

-- `New`, by the configured concurrency.
unfoldable pub new_broker : ℕ → Broker
new_broker n = record {
  slots = if n == 0 then default_os_concurrency else n;
  is_paused = false;
  is_closed = false;
  gen = 0;
  next_gen = 1;
  cancelled = [];
  orders = [];
}

-- `enter()`: the generation that a call may run under.
pub data Gate : Type 0 where
  live : ℕ → Gate
  gate_paused gate_closed : Gate

unfoldable pub enter : Broker → Gate
enter b = if b.is_closed then gate_closed else if b.is_paused then gate_paused else live b.gen

-- `Pause`
unfoldable pub pause : Broker → Broker
pause b =
    if b.is_closed || b.is_paused
    then b
    else record b { is_paused = true; cancelled = b.gen ∷ b.cancelled }

-- `Resume`
unfoldable pub resume : Broker → Broker
resume b = if b.is_closed || not b.is_paused then b else record b {
  is_paused = false;
  gen = b.next_gen;
  next_gen = suc b.next_gen;
  orders = stop_computer ∷ b.orders;
}

-- `Close`. The cancelled base context cancels every generation, of which the older ones are.
unfoldable pub close : Broker → Broker
close b = if b.is_closed then b else record b {
  is_closed = true;
  cancelled = b.gen ∷ b.cancelled;
  orders = close_computer ∷ close_process ∷ b.orders;
}

pub is_done : ℕ → List ℕ → Bool
is_done g [] = false
is_done g (h ∷ hs) = g == h || is_done g hs

abbrev pub paused_meta : ResultMeta
paused_meta = error_meta paused true

abbrev pub closed_meta : ResultMeta
closed_meta = error_meta session_unavailable false

abbrev pub queued_cancel_meta : ResultMeta
queued_cancel_meta = error_meta deadline_exceeded true

pub is_served : ErrorCode → Bool
is_served served = true
is_served output_truncated = true
is_served c = false

pub is_interrupt_code : ErrorCode → Bool
is_interrupt_code deadline_exceeded = true
is_interrupt_code internal = true
is_interrupt_code c = false

-- `finish`, by whether the generation and the caller's context are done.
abbrev or_identity : Option Identity → Identity → Option Identity
or_identity none id = some id
or_identity (some i) id = some i

unfoldable pub finish : Bool → Bool → Identity → ResultMeta → ResultMeta
unfolding is_interrupt_code is_served
finish gen_done ctx_done id meta =
    if gen_done && (not ctx_done && is_interrupt_code meta.code)
    then paused_meta
    else if is_served meta.code
    then record meta { identity = or_identity meta.identity id }
    else meta

-- How `guard` goes on behind `enter`, and behind the wait for a slot.
pub gate_meta : Gate → Option ResultMeta
gate_meta (live g) = none
gate_meta gate_paused = some paused_meta
gate_meta gate_closed = some closed_meta

pub data Wait : Type 0 where
  got_slot caller_done generation_done : Wait

pub wait_meta : Wait → Bool → Option ResultMeta
wait_meta caller_done gen_done = some queued_cancel_meta
wait_meta generation_done gen_done = some paused_meta
wait_meta got_slot gen_done = if gen_done then some paused_meta else none

-- Whether a call of the tool takes a slot; `none` for a tool that is not known.
unfoldable pub uses_slot : Tool → Option Bool
uses_slot computer_use = some false
uses_slot browser = some false
uses_slot bash = some true
uses_slot read_file = some true
uses_slot search_files = some true
uses_slot write_file = some true
uses_slot patch = some true
uses_slot (other_tool name) = none

-- What a call meets on its way through `guard`: how the wait for a slot ends, whether its generation
-- is done then and when the tool returns, and whether its caller has gone away.
pub record Race : Type 0 where
  pub wait : Wait
  pub done_at_slot : Bool
  pub done_at_end : Bool
  pub caller_done : Bool

pub data Outcome : Type 0 where
  rejected executed : ResultMeta → Outcome

-- `guard`, with the result that the tool would return.
after_wait : Option ResultMeta → Race → Identity → ResultMeta → Outcome
unfolding finish
after_wait (some m) r id out = rejected m
after_wait none r id out = executed (finish r.done_at_end r.caller_done id out)

after_gate : Option ResultMeta → Bool → Race → Identity → ResultMeta → Outcome
unfolding after_wait wait_meta
after_gate (some m) use_sem r id out = rejected m
after_gate none use_sem r id out =
    after_wait (if use_sem then wait_meta r.wait r.done_at_slot else none) r id out

unfoldable pub guard : Bool → Gate → Race → Identity → ResultMeta → Outcome
unfolding after_gate gate_meta
guard use_sem g r id out = after_gate (gate_meta g) use_sem r id out

-- `Call`, by whether the arguments decode.
abbrev unknown_tool : ResultMeta
unknown_tool = error_meta invalid_argument false

call_known : Option Bool → Bool → Broker → Race → Identity → ResultMeta → Outcome
unfolding guard enter
call_known none decodes b r id out = rejected unknown_tool
call_known (some use_sem) decodes b r id out =
    if decodes
    then guard use_sem (enter b) r id out
    else rejected (error_meta invalid_argument false)

unfoldable pub call : Tool → Bool → Broker → Race → Identity → ResultMeta → Outcome
unfolding call_known uses_slot
call tool decodes b r id out = call_known (uses_slot tool) decodes b r id out
