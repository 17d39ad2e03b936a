-- ===== src/Agent/Tests/Fronts.antt =====
-- The gateway and the root helper behind it, with the verifier of Credentials.
use mathlib.Core.Option
use hadron_desktop.Base.{
  ◌+◌, ◌*◌, ◌^◌, ◌≤◌, ◌<◌, ◌≡◌, ◌≢◌, ◌↔◌, refl, Bool, true, false, Option, none, some, [], ◌∷◌,
  ◌++◌, length,
}
use hadron_desktop.Base.Text.{Text, text, text_eq, hex_encode, cut, is_empty, trim_space, to_lower}
use hadron_desktop.Agent.Wire.{
  bash, browser, computer_use, ResultMeta, served, paused, forbidden, unauthenticated,
  resource_exhausted, session_unavailable, deadline_exceeded, error_meta,
}
use hadron_desktop.Agent.Auth.{user, admin, prefix_by_class, parse_bearer_class, verify}
use hadron_desktop.Agent.Auth.Verify.{token_of}
use hadron_desktop.Agent.Control.{Controller, Status, new_controller}
use hadron_desktop.Agent.Control
use hadron_desktop.Agent.Session.{Race, got_slot, guard, finish, executed, rejected}
use hadron_desktop.Agent.Helper.{
  Helper, new_helper, raw_bearer, verify_admin, is_os_tool, root_identity,
}
use hadron_desktop.Agent.Helper
use hadron_desktop.Agent.Helper.Admin.{IsOsTool, IsAdmin, call-IsAdmin, helper_pause_blocks}
use hadron_desktop.Agent.Gateway.{
  Config, Gateway, made, new_gateway, validate_listen, call_deadline, Stamped, verify_bearer,
  root_helper, session_broker, forwarded, refused, start_call, count_in, count_out, is_computer_use,
  computer_use_active, end_call, map_call_error, answered, failed, cancelled, open_context,
  past_deadline, too_large, status_error, other_failure, is_degraded,
}
use hadron_desktop.Agent.Gateway.Door.{Presents, stamped, root_needs_admin}
use hadron_desktop.Agent.Gateway.Flights.{Front, Step, Reach, count, gateway_flights}
use hadron_desktop.Agent.Tests.Credentials.{
  sha256, order, order-IsOrder, user_bearer, admin_bearer, verifier,
}

-- A configuration for plain HTTP, and readings of the two addresses.
config : Config
unfolding text
config = record {
  listen_addr = text "127.0.0.1:7443";
  has_tls = false;
  insecure_loopback = true;
  has_session = true;
  has_root = true;
  verifier = some verifier;
  controller = some (new_controller 2);
  max_response_bytes = 0;
  max_concurrent_calls = 2;
  request_timeout = 0;
  token_ttl = 7;
}

host_of : Text → Option Text
host_of addr = elim (cut addr b':') [ none ↦ none | some (host, port) ↦ some host ]

is_loopback_ip : Text → Bool
unfolding text
is_loopback_ip host = text_eq host (text "127.0.0.1")

front : Gateway
unfolding text verifier
front = record {
  listen_addr = text "127.0.0.1:7443";
  has_tls = false;
  has_root = true;
  verifier = verifier;
  controller = new_controller 2;
  max_response_bytes = 16 * 2 ^ 20;
  max_calls = 2;
  request_timeout = 60 * 10 ^ 9;
  token_ttl = 7;
  in_use = 0;
  computer_use_calls = 0;
}

makes_front : new_gateway host_of is_loopback_ip config ≡ made front
unfolding new_gateway config front host_of is_loopback_ip validate_listen text_eq text cut is_empty
makes_front = refl

-- The administrator's bearer, and the header that carries it.
abbrev header : Text
header = text "Bearer " ++ admin_bearer

abbrev admin_stamp : Stamped
admin_stamp = stamped sha256 5 front admin admin_bearer

admits_admin : verify_bearer sha256 order 5 front admin_bearer ≡ some admin_stamp
unfolding verify_bearer verify verifier front admin_bearer parse_bearer_class prefix_by_class
    hex_encode
admits_admin = refl

root_needs_admin_example :
    Presents sha256 5 front admin admin_bearer
    × (bash ≢ computer_use)
    × (bash ≢ browser)
    × (header ≡ header)
root_needs_admin_example =
    root_needs_admin sha256 order 5 front admin_bearer admin_stamp bash header header 0
      order-IsOrder admits_admin to_root
  where
    to_root : start_call front (some admin_stamp.token) bash header ≡ forwarded root_helper header 0
    to_root = unfold start_call front Control.enter new_controller in refl

-- The same call with the user's bearer, and with the administrator's for the browser.
stays_unprivileged :
    start_call front (some (token_of sha256 user user_bearer)) bash header
    ≡ forwarded session_broker [] 0
unfolding start_call front Control.enter new_controller
stays_unprivileged = refl

browser_unprivileged :
    start_call front (some admin_stamp.token) browser header ≡ forwarded session_broker [] 0
unfolding start_call front Control.enter new_controller
browser_unprivileged = refl

no_credential : start_call front none bash header ≡ refused (error_meta unauthenticated false)
unfolding start_call
no_credential = refl

-- A computer_use call in flight, and a second one that ends.
abbrev one_call : Front
one_call = record { gateway = count_in computer_use front; flights = computer_use ∷ [] }

in_flight : Reach (record { gateway = front; flights = [] }) one_call
unfolding start_call front Control.enter new_controller
in_flight =
    Reach.next_step Reach.begin_here
      (Step.begins _ (some admin_stamp.token) computer_use header [] session_broker 0 refl)

gateway_flights_example :
    (one_call.gateway.in_use ≡ length one_call.flights)
    × (length one_call.flights ≤ one_call.gateway.max_calls)
    × ((computer_use_active one_call.gateway ≡ true) ↔ (0 < count one_call.flights))
gateway_flights_example = gateway_flights one_call front idle no_computer in_flight
  where
    idle : front.in_use ≡ 0
    idle = unfold front in refl

    no_computer : front.computer_use_calls ≡ 0
    no_computer = unfold front in refl

released : count_out computer_use (count_in computer_use front) ≡ front
unfolding count_out count_in is_computer_use front
released = refl

-- The helper runs a call under the header, and after a pause it does nothing any more.
abbrev helper : Helper
helper = new_helper verifier

abbrev done : ResultMeta
done = record { code = served; retryable = false; identity = none }

abbrev race : Race
race = record { wait = got_slot; done_at_slot = false; done_at_end = false; caller_done = false }

verified : verify_admin sha256 order 5 helper.verifier header ≡ none
unfolding verify_admin raw_bearer new_helper verify verifier admin_bearer parse_bearer_class
    prefix_by_class hex_encode text trim_space to_lower is_empty
verified = refl

call-IsAdmin_example :
    IsOsTool bash
    × IsAdmin sha256 5 helper.verifier header
    × (helper.is_paused ≡ false)
    × (helper.is_closed ≡ false)
    × (record done { identity = some root_identity } ≡ finish false false root_identity done)
call-IsAdmin_example =
    call-IsAdmin sha256 order 5 order-IsOrder bash true header helper race done
      (record done { identity = some root_identity }) runs
  where
    runs :
        Helper.call sha256 order 5 bash true header helper race done
        ≡ some (executed (record done { identity = some root_identity }))
    runs = unfold Helper.call Helper.enter guard finish new_helper is_os_tool in (rw verified refl)

helper_pause_blocks_example :
    (after : Helper) × (Helper.pause helper ≡ some after)
    × (Helper.pause after ≡ none)
    × (Helper.resume after ≡ none)
    × (Helper.close after ≡ none)
    × (Helper.status after ≡ none)
    × (Helper.call sha256 order 5 bash true header after race done ≡ none)
helper_pause_blocks_example =
    helper_pause_blocks sha256 order 5 helper bash header race done is_free is_open is_running
      is_tool verified
  where
    is_free : helper.is_locked ≡ false
    is_free = unfold new_helper in refl

    is_open : helper.is_closed ≡ false
    is_open = unfold new_helper in refl

    is_running : helper.is_paused ≡ false
    is_running = unfold new_helper in refl

    is_tool : is_os_tool bash ≡ true
    is_tool = unfold is_os_tool in refl

-- The order of the helper's checks: the tool first, then the bearer, then the state.
refuses_computer :
    Helper.call sha256 order 5 computer_use true [] helper race done
    ≡ some (rejected (error_meta forbidden false))
unfolding Helper.call is_os_tool
refuses_computer = refl

closed_helper : Option.map (λ h. Helper.status h) (Helper.close helper) ≡ some (some false)
unfolding Helper.close Helper.status new_helper
closed_helper = refl

still_running : Helper.resume helper ≡ some helper
unfolding Helper.resume new_helper
still_running = refl

-- What the gateway answers behind a broker.
answers :
    (end_call front (failed past_deadline too_large) ≡ error_meta deadline_exceeded false)
    × (end_call front (failed cancelled too_large) ≡ error_meta paused false)
    × (end_call front (failed open_context (status_error 403)) ≡ error_meta forbidden false)
    × (end_call front (failed open_context other_failure) ≡ error_meta session_unavailable true)
    × (end_call front (answered (2 ^ 24 + 1) done) ≡ error_meta resource_exhausted false)
    × (end_call front (answered 9 done) ≡ done)
unfolding end_call map_call_error front
answers = (refl, refl, refl, refl, refl, refl)

no_deadline : call_deadline front bash ≡ none
unfolding call_deadline
no_deadline = refl

degraded :
    is_degraded (record { gateway = true; session = false; cua = true; paused = false }) ≡ true
unfolding is_degraded
degraded = refl
