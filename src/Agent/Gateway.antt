-- ===== src/Agent/Gateway.antt =====
-- agent/internal/gateway/server.go and status.go: the public front door. The HTTP and MCP library is
-- not modelled: a call starts with the token that the library's middleware stored for it, and ends
-- with what the client of the broker returns. Configured numbers are natural ones, 0 if unset.
pub mod Door
pub mod Flights
use hadron_desktop.Base.{
  ℕ, ◌+◌, ◌-◌, ◌*◌, ◌^◌, Bool, true, false, not, ◌&&◌, Option, none, some, List, [], ltb, ◌==◌,
  if◌then◌else◌,
}
use hadron_desktop.Base.Text.{Text, text, text_eq, is_empty}
use hadron_desktop.Agent.Wire.{
  Tool, computer_use, bash, read_file, search_files, write_file, patch, browser, other_tool,
  ErrorCode, served, unauthenticated, forbidden, session_unavailable, resource_exhausted,
  deadline_exceeded, paused, internal, ResultMeta, error_meta,
}
use hadron_desktop.Agent.Auth.{
  Class, user, admin, unknown, Verifier, TokenInfo, Verified, ok, err, verify,
}
use hadron_desktop.Agent.Control.{Controller, Status}
use hadron_desktop.Agent.Control

abbrev default_max_response_bytes : ℕ
default_max_response_bytes = 16 * 2 ^ 20

abbrev pub default_max_concurrent_calls : ℕ
default_max_concurrent_calls = 16

abbrev default_request_timeout : ℕ
default_request_timeout = 60 * 10 ^ 9

abbrev default_token_ttl : ℕ
default_token_ttl = 300 * 10 ^ 9

abbrev default_listen_addr : Text
default_listen_addr = text "0.0.0.0:7443"

abbrev or_int : ℕ → ℕ → ℕ
or_int v def = if v == 0 then def else v

pub record Config : Type 0 where
  pub listen_addr : Text
  pub has_tls : Bool
  pub insecure_loopback : Bool
  pub has_session : Bool
  pub has_root : Bool
  pub verifier : Option Verifier
  pub controller : Option Controller
  pub max_response_bytes : ℕ
  pub max_concurrent_calls : ℕ
  pub request_timeout : ℕ
  pub token_ttl : ℕ

-- The gateway, with the slots in use and the counter of running computer_use calls.
pub record Gateway : Type 0 where
  pub listen_addr : Text
  pub has_tls : Bool
  pub has_root : Bool
  pub verifier : Verifier
  pub controller : Controller
  pub max_response_bytes : ℕ
  pub max_calls : ℕ
  pub request_timeout : ℕ
  pub token_ttl : ℕ
  pub in_use : ℕ
  pub computer_use_calls : ℕ

pub data NewError : Type 0 where
  no_verifier no_controller no_session bad_address not_loopback no_tls : NewError

pub data Made : Type 0 where
  made : Gateway → Made
  not_made : NewError → Made

-- `net.SplitHostPort`, by the host, and `net.ParseIP` with `IsLoopback` are arguments.
module _ (host_of : Text → Option Text) (is_loopback_ip : Text → Bool) where
  pub is_loopback_host : Text → Bool
  unfolding is_empty text_eq
  is_loopback_host host =
      if is_empty host
      then false
      else if text_eq host (text "localhost")
      then true
      else is_loopback_ip host

  validate_host : Option Text → Bool → Option NewError
  unfolding is_loopback_host
  validate_host none insecure = some bad_address
  validate_host (some host) insecure =
      if insecure && not (is_loopback_host host) then some not_loopback else none

  -- `validateListen`
  unfoldable pub validate_listen : Text → Bool → Option NewError
  unfolding validate_host
  validate_listen addr insecure = validate_host (host_of addr) insecure

-- `New`
abbrev listen_of : Config → Text
listen_of cfg = if is_empty cfg.listen_addr then default_listen_addr else cfg.listen_addr

abbrev gateway_of : Config → Verifier → Controller → Gateway
gateway_of cfg v c = record {
  listen_addr = listen_of cfg;
  has_tls = cfg.has_tls;
  has_root = cfg.has_root;
  verifier = v;
  controller = c;
  max_response_bytes = or_int cfg.max_response_bytes default_max_response_bytes;
  max_calls = or_int cfg.max_concurrent_calls default_max_concurrent_calls;
  request_timeout = or_int cfg.request_timeout default_request_timeout;
  token_ttl = or_int cfg.token_ttl default_token_ttl;
  in_use = 0;
  computer_use_calls = 0;
}

new_listening : Option NewError → Config → Gateway → Made
new_listening (some e) cfg g = not_made e
new_listening none cfg g =
    if not cfg.has_tls && not cfg.insecure_loopback then not_made no_tls else made g

new_with :
    (Text → Option Text) → (Text → Bool) → Config → Option Verifier → Option Controller → Made
unfolding new_listening
new_with host_of is_loopback_ip cfg none c = not_made no_verifier
new_with host_of is_loopback_ip cfg (some v) none = not_made no_controller
new_with host_of is_loopback_ip cfg (some v) (some c) =
    if not cfg.has_session
    then not_made no_session
    else new_listening
        (validate_listen host_of is_loopback_ip (listen_of cfg) cfg.insecure_loopback) cfg
        (gateway_of cfg v c)

unfoldable pub new_gateway : (Text → Option Text) → (Text → Bool) → Config → Made
unfolding new_with
new_gateway host_of is_loopback_ip cfg =
    new_with host_of is_loopback_ip cfg cfg.verifier cfg.controller

-- `callDeadline`
unfoldable pub call_deadline : Gateway → Tool → Option ℕ
call_deadline g bash = none
call_deadline g tool = some g.request_timeout

-- `verifyBearer`: the user class, then the admin class, with an expiration.
pub record Stamped : Type 0 where
  pub token : TokenInfo
  pub expiration : ℕ

first_ok : Gateway → ℕ → Verified → Option Stamped → Option Stamped
first_ok g now (ok t) next = some (record { token = t; expiration = now + g.token_ttl })
first_ok g now (err e) next = next

unfoldable pub verify_bearer : (Text → List ℕ) → List Class → ℕ → Gateway → Text → Option Stamped
unfolding first_ok
verify_bearer sha256 order now g token =
    first_ok g now (verify sha256 order now g.verifier token user)
      (first_ok g now (verify sha256 order now g.verifier token admin) none)

-- `pick`
pub data Target : Type 0 where
  session_broker root_helper : Target

pub is_privileged : Class → Tool → Bool
is_privileged admin computer_use = false
is_privileged admin browser = false
is_privileged admin tool = true
is_privileged user tool = false
is_privileged (unknown s) tool = false

pub pick : Bool → Class → Tool → Text → Option (Target × Text)
unfolding is_privileged
pick has_root class tool header =
    if is_privileged class tool
    then (if has_root then some (root_helper, header) else none)
    else some (session_broker, [])

-- The first half of `route`: what it answers at once, or the call that it forwards to a broker, under
-- a generation and with a header.
pub data Start : Type 0 where
  refused : ResultMeta → Start
  forwarded : Target → Text → ℕ → Start

dispatch : Option (Target × Text) → ℕ → Start
dispatch none gen = refused (error_meta internal false)
dispatch (some (t, header)) gen = forwarded t header gen

admit : Option ℕ → Gateway → Class → Tool → Text → Start
unfolding dispatch pick
admit none g class tool header = refused (error_meta paused false)
admit (some gen) g class tool header =
    if not (ltb g.in_use g.max_calls)
    then refused (error_meta resource_exhausted true)
    else dispatch (pick g.has_root class tool header) gen

unfoldable pub start_call : Gateway → Option TokenInfo → Tool → Text → Start
unfolding admit
start_call g none tool header = refused (error_meta unauthenticated false)
start_call g (some t) tool header = admit (Control.enter g.controller) g t.class tool header

-- The counters while a forwarded call runs, and behind its deferred releases.
unfoldable pub is_computer_use : Tool → Bool
is_computer_use computer_use = true
is_computer_use tool = false

unfoldable pub count_in : Tool → Gateway → Gateway
unfolding is_computer_use
count_in tool g = record g {
  in_use = g.in_use + 1;
  computer_use_calls =
      if is_computer_use tool then g.computer_use_calls + 1 else g.computer_use_calls;
}

unfoldable pub count_out : Tool → Gateway → Gateway
unfolding is_computer_use
count_out tool g = record g {
  in_use = g.in_use - 1;
  computer_use_calls =
      if is_computer_use tool then g.computer_use_calls - 1 else g.computer_use_calls;
}

pub computer_use_active : Gateway → Bool
computer_use_active g = ltb 0 g.computer_use_calls

-- `mapCallError`, by how the call's context ended and what the client returned.
pub data ContextEnd : Type 0 where
  open_context cancelled past_deadline : ContextEnd

pub data CallError : Type 0 where
  too_large : CallError
  status_error : ℕ → CallError
  other_failure : CallError

status_code : ℕ → ErrorCode
status_code n =
    if n == 401
    then unauthenticated
    else if n == 403
    then forbidden
    else if n == 413
    then resource_exhausted
    else internal

unfoldable pub map_call_error : ContextEnd → CallError → ErrorCode × Bool
unfolding status_code
map_call_error past_deadline e = (deadline_exceeded, true)
map_call_error cancelled e = (paused, false)
map_call_error open_context too_large = (resource_exhausted, false)
map_call_error open_context (status_error n) = (status_code n, false)
map_call_error open_context other_failure = (session_unavailable, false)

-- The second half of `route`: the client's answer, with the size of its JSON.
pub data Answer : Type 0 where
  failed : ContextEnd → CallError → Answer
  answered : ℕ → ResultMeta → Answer

is_unavailable : ErrorCode → Bool
is_unavailable session_unavailable = true
is_unavailable c = false

unfoldable pub end_call : Gateway → Answer → ResultMeta
unfolding map_call_error is_unavailable
end_call g (failed ctx e) =
    let (code, timed_out) = map_call_error ctx e in error_meta code (is_unavailable code)
end_call g (answered size out) =
    if ltb g.max_response_bytes size then error_meta resource_exhausted false else out

-- `redactedStatus`, by its derived fields.
unfoldable pub is_degraded : Status → Bool
unfolding Control.ready
is_degraded s = s.gateway && (not (Control.ready s) && not s.paused)
