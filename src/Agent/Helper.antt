-- ===== src/Agent/Helper.antt =====
-- agent/internal/roothelper/service.go: the root helper. A method that waits for the mutex of a
-- helper whose mutex is held for good does not return, which is `none`; elsewhere a method is the
-- section that it runs under the mutex, as for the broker. A text stands for its code points.
pub mod Admin
use hadron_desktop.Base.{
  ℕ, suc, Bool, true, false, not, ◌||◌, Option, none, some, List, [], ◌∷◌, take, drop, length, ltb,
  if◌then◌else◌,
}
use hadron_desktop.Base.Text.{Text, text, text_eq, to_lower, trim_space, is_empty}
use hadron_desktop.Agent.Wire.{
  Tool, computer_use, bash, read_file, search_files, write_file, patch, browser, other_tool,
  ErrorCode, forbidden, invalid_argument, Identity, ResultMeta, error_meta,
}
use hadron_desktop.Agent.Auth.{
  Class, admin, Verifier, Verified, ok, err, VerifyError, malformed_bearer, verify, AuthError,
  of_verify, other_error, code,
}
use hadron_desktop.Agent.Session.{
  Gate, live, gate_paused, gate_closed, Race, Outcome, rejected, executed, guard,
}

-- `osTools`, `isOSTool`
unfoldable pub is_os_tool : Tool → Bool
is_os_tool bash = true
is_os_tool read_file = true
is_os_tool search_files = true
is_os_tool write_file = true
is_os_tool patch = true
is_os_tool computer_use = false
is_os_tool browser = false
is_os_tool (other_tool name) = false

abbrev pub root_identity : Identity
root_identity = record { user = text "root"; uid = 0; pid = 0 }

pub record Helper : Type 0 where
  pub verifier : Verifier
  pub is_locked : Bool
  pub is_paused : Bool
  pub is_closed : Bool
  pub gen : ℕ
  pub next_gen : ℕ
  pub cancelled : List ℕ

-- `New`, with its three services.
unfoldable pub new_helper : Verifier → Helper
new_helper v = record {
  verifier = v;
  is_locked = false;
  is_paused = false;
  is_closed = false;
  gen = 0;
  next_gen = 1;
  cancelled = [];
}

-- A section under the mutex.
abbrev locking {ℓ} : {A : Type ℓ} → Helper → A → Option A
locking h a = if h.is_locked then none else some a

unfoldable pub enter : Helper → Option Gate
enter h =
    locking h (if h.is_closed then gate_closed else if h.is_paused then gate_paused else live h.gen)

-- `Pause`, which returns without an unlock once it has paused.
unfoldable pub pause : Helper → Option Helper
pause h = locking h (
    if h.is_closed || h.is_paused
    then h
    else record h { is_locked = true; is_paused = true; cancelled = h.gen ∷ h.cancelled })

unfoldable pub resume : Helper → Option Helper
resume h = locking h (
    if h.is_closed || not h.is_paused
    then h
    else record h { is_paused = false; gen = h.next_gen; next_gen = suc h.next_gen })

unfoldable pub close : Helper → Option Helper
close h =
    locking h
      (if h.is_closed then h else record h { is_closed = true; cancelled = h.gen ∷ h.cancelled })

-- `Status`
unfoldable pub status : Helper → Option Bool
status h = locking h h.is_paused

-- `rawBearer`
non_empty : Text → Option Text
unfolding is_empty
non_empty tok = if is_empty tok then none else some tok

token_of_header : Text → Option Text
unfolding non_empty
token_of_header h =
    if ltb (length h) 7 || not (text_eq (to_lower (take 7 h)) (text "bearer "))
    then none
    else non_empty (trim_space (drop 7 h))

unfoldable pub raw_bearer : Text → Option Text
unfolding token_of_header
raw_bearer header = token_of_header (trim_space header)

error_of : Verified → Option AuthError
error_of (ok t) = none
error_of (err e) = some (of_verify e)

-- `authErrorMeta`
abbrev auth_error_meta : AuthError → ResultMeta
auth_error_meta e = error_meta (code (some e)) false

-- A method of a tool, which `guard` runs with the shared slots.
guarded : Option Gate → Race → ResultMeta → Option Outcome
guarded none r out = none
guarded (some g) r out = some (guard true g r root_identity out)

dispatch_call : Bool → Helper → Race → ResultMeta → Option Outcome
unfolding guarded
dispatch_call decodes h r out =
    if decodes then guarded (enter h) r out else some (rejected (error_meta invalid_argument false))

dispatch : Tool → Bool → Helper → Race → ResultMeta → Option Outcome
unfolding dispatch_call
dispatch bash decodes h r out = dispatch_call decodes h r out
dispatch read_file decodes h r out = dispatch_call decodes h r out
dispatch search_files decodes h r out = dispatch_call decodes h r out
dispatch write_file decodes h r out = dispatch_call decodes h r out
dispatch patch decodes h r out = dispatch_call decodes h r out
dispatch tool decodes h r out = some (rejected (error_meta invalid_argument false))

not_served : Tool → ResultMeta
not_served computer_use = error_meta forbidden false
not_served tool = error_meta invalid_argument false

after_verify : Option AuthError → Tool → Bool → Helper → Race → ResultMeta → Option Outcome
unfolding dispatch
after_verify (some e) tool decodes h r out = some (rejected (auth_error_meta e))
after_verify none tool decodes h r out = dispatch tool decodes h r out

module _ (sha256 : Text → List ℕ) (order : List Class) (now : ℕ) where
  verify_raw : Verifier → Option Text → Option AuthError
  unfolding error_of
  verify_raw v none = some (of_verify malformed_bearer)
  verify_raw v (some raw) = error_of (verify sha256 order now v raw admin)

  -- `verifyAdmin`
  unfoldable pub verify_admin : Verifier → Text → Option AuthError
  unfolding verify_raw is_empty
  verify_admin v header =
      if is_empty (trim_space header) then some other_error else verify_raw v (raw_bearer header)

  -- `Call`, by whether the arguments decode and by what the tool would return.
  unfoldable pub call : Tool → Bool → Text → Helper → Race → ResultMeta → Option Outcome
  unfolding not_served after_verify is_os_tool
  call tool decodes header h r out =
      if not (is_os_tool tool)
      then some (rejected (not_served tool))
      else after_verify (verify_admin h.verifier header) tool decodes h r out
