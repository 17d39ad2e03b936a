-- ===== src/Update/Daemon.antt =====
-- update/daemon.go: the state of the update daemon and the helpers that its methods share. A method
-- is the sections that it runs under the mutex, each a function of its own; what it learns between
-- two of them (from the network, the disk, kairos-agent) is an argument of the next. The wording of
-- `Detail` is kept as the error or the line that it words.
pub mod Marker
pub mod Check
pub mod Install
pub mod Power
pub mod Effects
pub mod System
pub mod Safety
pub mod Laws
use hadron_desktop.Base.{
  ℕ, Bool, true, false, ◌&&◌, ◌||◌, Option, none, some, List, [], ◌∷◌, ◌++◌, if◌then◌else◌,
}
use hadron_desktop.Base.Text.{Text, text, text_eq, trim_space, cut}
use hadron_desktop.Base.Regex.{full_match}
use hadron_desktop.Update.Semver.{cut_or}
use hadron_desktop.Update.Release.{
  Release, File, missing, unreadable, contents, LoadError, Loaded, Key, load_release,
}
use hadron_desktop.Update.Release
use hadron_desktop.Update.Ref.{ImageRef, RefError}
use hadron_desktop.Update.Policy.{Latest, PolicyError, strict_tag}
use hadron_desktop.Update.Pin.{Outcome, pin_or_empty, advanced_enabled}

pub data State : Type 0 where
  idle checking up_to_date update_available inspecting applying : State
  reboot_pending error unmanaged : State

-- The reboot marker's first word.
pub data Pending : Type 0 where
  started installed failed : Pending

pub data Err : Type 0 where
  busy waits_for_reboot unfinished_pending not_cancellable is_rebooting : Err
  is_unmanaged nothing_to_cancel previous_after_install bad_digest : Err
  bad_ref : RefError → Err
  resolve_failed : Text → Err
  fetch_failed : Text → Err
  list_failed : Text → Err
  refused : PolicyError → Err
  moved : Text → Text → Err
  no_marker : Text → Err
  cancelled : Err
  backend_failed : Text → Err

pub data Detail : Type 0 where
  blank : Detail
  release_error : LoadError → Detail
  of_error : Err → Detail
  check_error : Err → Detail
  of_pending : Pending → Detail
  output_line : Text → Detail
  pin_note : Text → Detail

-- `pendingDetail(word)`
abbrev pub pending_detail : Pending → Detail
pending_detail installed = blank
pending_detail failed = of_pending failed
pending_detail started = of_pending started

pub record Status : Type 0 where
  pub state : State
  pub installed_version : Text
  pub latest : Text
  pub pin : Text
  pub detail : Detail
  pub advanced : Bool
  pub pending : Option Pending

-- A job is known by a number that no other job has; the source compares pointers.
pub record Job : Type 0 where
  pub id : ℕ
  pub prev : State
  pub prev_detail : Detail

pub data Event : Type 0 where
  change : Status → Event
  progress_line : Text → Event

pub record Daemon : Type 0 where
  pub rel : Release
  pub managed : Bool
  pub state : State
  pub pending : Option Pending
  pub latest : Text
  pub detail : Detail
  pub job : Option Job
  pub events : List Event
  pub rebooting : Bool

-- The files that the daemon reads and writes; those of the run directory do not survive a boot.
pub record Disk : Type 0 where
  pub release : File
  pub marker : File
  pub latest : File
  pub pin : File
  pub conf : File

-- `AdvancedEnabled()`, of which the daemon uses only the answer.
unfoldable pub is_advanced : File → Bool
is_advanced conf = (advanced_enabled conf (record { last = []; logged = [] })).0

abbrev pub is_reboot_pending : State → Bool
is_reboot_pending reboot_pending = true
is_reboot_pending s = false

-- `busyLocked()`
abbrev pub is_busy : State → Bool
is_busy checking = true
is_busy inspecting = true
is_busy applying = true
is_busy s = false

-- The states in which an install runs, which `Reboot` refuses.
abbrev pub is_installing : State → Bool
is_installing inspecting = true
is_installing applying = true
is_installing s = false

abbrev pub is_some {ℓ} : {A : Type ℓ} → Option A → Bool
is_some none = false
is_some (some a) = true

-- `Busy()`
unfoldable pub busy_now : Daemon → Bool
busy_now d = is_busy d.state || is_some d.job

-- `pendingLocked()`
unfoldable pub pending_of : Daemon → Option Pending
pending_of d = if is_reboot_pending d.state then d.pending else none

-- `statusLocked()`
unfoldable pub status_of : Disk → Daemon → Status
status_of disk d = record {
  state = d.state;
  installed_version = d.rel.version;
  latest = d.latest;
  pin = pin_or_empty disk.pin;
  detail = d.detail;
  advanced = is_advanced disk.conf;
  pending = pending_of d;
}

-- `queueLocked(ev)`; the delivering goroutine is `deliver`.
unfoldable pub queue : Event → Daemon → Daemon
queue ev d = record d { events = d.events ++ (ev ∷ []) }

-- `setLocked(s, detail)`
unfoldable pub set_state : State → Detail → Disk → Daemon → Daemon
unfolding queue
set_state s detail disk d =
    let d' = record d { state = s; detail = detail } in queue (change (status_of disk d')) d'

-- `rebootPendingErrLocked()`
abbrev pub reboot_pending_err : Option Pending → Err
reboot_pending_err (some installed) = waits_for_reboot
reboot_pending_err (some failed) = unfinished_pending
reboot_pending_err (some started) = unfinished_pending
reboot_pending_err none = unfinished_pending

-- The effect of `writeRunFile`: the content is replaced, or the file stays as it was.
abbrev pub write_file : Outcome → Text → File → File
write_file none content f = contents content
write_file (some e) content f = f

-- `setLatestLocked(tag)`; a write that fails is only logged.
unfoldable pub set_latest : Outcome → Text → Disk → Daemon → Disk × Daemon
unfolding text_eq
set_latest o tag disk d = if text_eq tag d.latest then (disk, d) else (
  record disk { latest = write_file o (tag ++ (b'\n' ∷ [])) disk.latest },
  record d { latest = tag },
)

-- `newest(published)`
abbrev pub newest : List Latest → Text
newest [] = []
newest (p ∷ published) = p.tag

-- One round of `deliver`: it takes the queue, in order.
unfoldable pub deliver : Daemon → List Event × Daemon
deliver d = (d.events, record d { events = [] })
