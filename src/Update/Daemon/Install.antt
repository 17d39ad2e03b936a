-- ===== src/Update/Daemon/Install.antt =====
-- update/daemon.go: `evaluate`, `Inspect`, `Apply` and the install job that it starts.
pub mod Sections
pub mod Evaluate
use hadron_desktop.Base.{
  ℕ, Bool, true, false, not, ◌&&◌, ◌||◌, Option, none, some, List, [], ◌∷◌, ◌++◌, ◌==◌,
  if◌then◌else◌,
}
use hadron_desktop.Base.Text.{Text, text, text_eq, is_empty}
use hadron_desktop.Base.Regex.{full_match}
use hadron_desktop.Update.Release.{Release}
use hadron_desktop.Update.Ref.{ImageRef, Parsed, parse_ref, digest_re, repo}
use hadron_desktop.Update.Ref
use hadron_desktop.Update.Policy.{
  ImageInfo, Latest, Verdict, no_verdict, PolicyError, agent_image, not_hadron, not_release,
  Classified, classify,
}
use hadron_desktop.Update.Policy
use hadron_desktop.Update.Pin.{Outcome, save_pin, clear_pin}
use hadron_desktop.Update.Daemon.{
  State, inspecting, applying, error, reboot_pending, Pending, started, installed, failed, Err,
  busy, is_rebooting, is_unmanaged, bad_digest, bad_ref, resolve_failed, list_failed, refused,
  moved, no_marker, backend_failed, Detail, blank, of_error, of_pending, output_line, pin_note,
  pending_detail, Job, Event, progress_line, Daemon, Disk, is_advanced, is_busy, is_reboot_pending,
  reboot_pending_err, queue, set_state, set_latest, newest,
}
use hadron_desktop.Update.Daemon.Marker.{write_marker}
use hadron_desktop.Update.Daemon.Check.{Fetched, fetched, no_fetch, is_job}

-- What `Resolve` answers.
pub data Resolved : Type 0 where
  resolved : ImageInfo → Resolved
  no_resolve : Text → Resolved

-- `ImageInfo{}`
abbrev no_info : ImageInfo
no_info = record {
  ref = record { host = []; name = []; tag = []; digest = [] };
  digest = [];
  os = [];
  arch = [];
  labels = [];
}

pub record Evaluation : Type 0 where
  pub info : ImageInfo
  pub verdict : Verdict
  pub published : List Latest
  pub error : Option Err

-- The verdict and the error of `Classify`, with `ErrNotRelease` for an untrusted image.
judge : Classified → Verdict × Option PolicyError
judge (Policy.ok v) = (v, if v.trusted then none else some not_release)
judge (Policy.err e) = (no_verdict, some e)

-- The refusals that advanced mode overrides.
is_overridable : Option PolicyError → Bool
is_overridable none = false
is_overridable (some agent_image) = false
is_overridable (some not_hadron) = true
is_overridable (some not_release) = true

refusal : Option PolicyError → Option Err
refusal none = none
refusal (some e) = some (refused e)

judged : ImageInfo → List Latest → Bool → Verdict × Option PolicyError → Evaluation
unfolding is_overridable refusal
judged info published override (v, e) = record {
  info = info;
  verdict = v;
  published = published;
  error = if is_overridable e && override then none else refusal e;
}

-- `evaluate`: `advanced` is what the caller asked for, `conf` what update.conf allows.
evaluate_with : ImageInfo → Fetched → Release → Bool → Evaluation
unfolding judged judge
evaluate_with info (no_fetch e) rel override = record {
  info = info;
  verdict = no_verdict;
  published = [];
  error = some (list_failed e);
}
evaluate_with info (fetched published) rel override =
    judged info published override (judge (classify info rel published))

unfoldable pub evaluate : Resolved → Fetched → Disk → Release → Bool → Evaluation
unfolding evaluate_with
evaluate (no_resolve e) f disk rel advanced = record {
  info = no_info;
  verdict = no_verdict;
  published = [];
  error = some (resolve_failed e);
}
evaluate (resolved info) f disk rel advanced =
    evaluate_with info f rel (advanced && is_advanced disk.conf)

-- `Inspect`: the information and the verdict, or the error. What the registry and the release list
-- answer for the reference are functions of it.
inspect_ref : Parsed → (ImageRef → Resolved) → Fetched → Disk → Release → Bool → Evaluation
unfolding evaluate
inspect_ref (Ref.err e) resolve f disk rel advanced = record {
  info = no_info;
  verdict = no_verdict;
  published = [];
  error = some (bad_ref e);
}
inspect_ref (Ref.ok r) resolve f disk rel advanced = evaluate (resolve r) f disk rel advanced

unfoldable pub inspect : Text → (ImageRef → Resolved) → Fetched → Disk → Daemon → Bool → Evaluation
unfolding inspect_ref
inspect ref resolve f disk d advanced =
    if d.managed
    then inspect_ref (parse_ref ref) resolve f disk d.rel advanced
    else record { info = no_info; verdict = no_verdict; published = []; error = some is_unmanaged }

-- What `Apply` hands to its job.
pub record Request : Type 0 where
  pub target : ImageRef
  pub ref : Text
  pub digest : Text
  pub advanced : Bool

pub data Applied : Type 0 where
  accepted : Request → Applied
  rejected : Err → Applied

-- The section of `Apply` under the mutex. The job's number must be new.
admit : ℕ → Request → Disk → Daemon → Daemon × Applied
unfolding set_state
admit id q disk d =
    if not d.managed
    then (d, rejected is_unmanaged)
    else if d.rebooting
    then (d, rejected is_rebooting)
    else if is_reboot_pending d.state
    then (d, rejected (reboot_pending_err d.pending))
    else if is_busy d.state
    then (d, rejected busy)
    else (
      set_state inspecting blank disk
          (record d { job = some (record { id = id; prev = d.state; prev_detail = d.detail }) }),
      accepted q,
    )

admit_parsed : ℕ → Parsed → Text → Text → Bool → Disk → Daemon → Daemon × Applied
unfolding admit
admit_parsed id (Ref.err e) ref digest advanced disk d = (d, rejected (bad_ref e))
admit_parsed id (Ref.ok r) ref digest advanced disk d =
    if full_match digest_re digest
    then admit id (record { target = r; ref = ref; digest = digest; advanced = advanced }) disk d
    else (d, rejected bad_digest)

-- `Apply(ctx, ref, digest, advanced)`
unfoldable pub apply : ℕ → Text → Text → Bool → Disk → Daemon → Daemon × Applied
unfolding admit_parsed
apply id ref digest advanced disk d = admit_parsed id (parse_ref ref) ref digest advanced disk d

-- What the job knows when it has started kairos-agent.
pub record Upgrade : Type 0 where
  pub source : Text
  pub ref : Text
  pub verdict : Verdict
  pub published : List Latest

-- How the job goes on after its first section.
pub data Started : Type 0 where
  abandoned : Started
  gave_up : Err → Started
  upgrading : Upgrade → Started

-- `"oci:" + info.Ref.Repo() + "@" + info.Digest`
unfoldable pub source_of : ImageInfo → Text
unfolding repo text
source_of info = text "oci:" ++ (repo info.ref ++ (b'@' ∷ info.digest))

-- The errors that are found before the marker is written, in the order of the source.
start_error : Request → Evaluation → Bool → Option Err
start_error q e rebooting = elim e.error [
  | some x ↦ some x
  | none ↦
      if text_eq e.info.digest q.digest
      then if rebooting then some is_rebooting else none
      else some (moved e.info.digest q.digest)
]

give_up : Err → Disk → Daemon → Disk × Daemon × Started
unfolding set_state
give_up x disk d = (disk, set_state error (of_error x) disk (record d { job = none }), gave_up x)

-- The newest published tag is recorded if there is one.
record_newest : Outcome → Text → Disk → Daemon → Disk × Daemon
unfolding is_empty set_latest
record_newest o tag disk d = if is_empty tag then (disk, d) else set_latest o tag disk d

launch : Outcome → Request → Evaluation → Disk → Daemon → Disk × Daemon × Started
unfolding record_newest set_state
launch latest_write q e disk d =
    let (disk', d') = record_newest latest_write (newest e.published) disk d in
    (
      disk',
      set_state applying blank disk' d',
      upgrading (record {
        source = source_of e.info;
        ref = q.ref;
        verdict = e.verdict;
        published = e.published;
      }),
    )

mark_and_launch : Outcome → Outcome → Request → Evaluation → Disk → Daemon → Disk × Daemon × Started
unfolding launch give_up write_marker
mark_and_launch (some x) latest_write q e disk d = give_up (no_marker x) disk d
mark_and_launch none latest_write q e disk d =
    launch latest_write q e (write_marker none started (source_of e.info) disk) d

start_checked :
    Option Err → Outcome → Outcome → Request → Evaluation → Disk → Daemon → Disk × Daemon × Started
unfolding mark_and_launch
start_checked (some x) marker_write latest_write q e disk d = give_up x disk d
start_checked none marker_write latest_write q e disk d =
    mark_and_launch marker_write latest_write q e disk d

-- The first section of `run`, with the evaluation and how the writes of the marker and of the
-- newest tag went.
unfoldable pub start :
    ℕ → Outcome → Outcome → Request → Evaluation → Disk → Daemon → Disk × Daemon × Started
unfolding start_checked start_error
start id marker_write latest_write q e disk d =
    if is_job id d.job
    then start_checked (start_error q e d.rebooting) marker_write latest_write q e disk d
    else (disk, d, abandoned)

-- `progress(line)`
unfoldable pub progress : Text → Daemon → Daemon
unfolding queue
progress l d = queue (progress_line l) (record d { detail = output_line l })

-- The pin after an install: none for the newest release, else the reference.
update_pin : Upgrade → Outcome → Disk → Disk × Outcome
unfolding clear_pin save_pin text_eq
update_pin u o disk =
    let (pin', result) =
      (if u.verdict.trusted && text_eq u.verdict.version (newest u.published)
        then clear_pin o disk.pin
        else save_pin o u.ref disk.pin) in
    (record disk { pin = pin' }, result)

final_detail : Outcome → Detail → Detail
final_detail none last = last
final_detail (some e) last = pin_note e

-- The end of `run`: kairos-agent has answered; the writes of the marker and the pin may fail. They
-- and the last section are one step: nothing else in the daemon writes the marker or the pin
-- meanwhile, and a daemon that stops between two of them leaves what this step leaves when the later
-- write fails.
unfoldable pub complete : Upgrade → Outcome → Outcome → Outcome → Disk → Daemon → Disk × Daemon
unfolding write_marker set_state update_pin final_detail
complete u (some e) marker_write pin_write disk d =
    let disk' = write_marker marker_write failed u.source disk in
    (
      disk',
      set_state reboot_pending (pending_detail failed) disk'
          (record d { job = none; pending = some failed }),
    )
complete u none marker_write pin_write disk d =
    let (disk', noted) =
      update_pin u pin_write (write_marker marker_write installed u.source disk) in
    (
      disk',
      set_state reboot_pending (final_detail noted d.detail) disk'
          (record d { job = none; pending = some installed }),
    )
