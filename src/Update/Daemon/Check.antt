-- ===== src/Update/Daemon/Check.antt =====
-- update/daemon.go: `Check`, and the cache of the release list.
pub mod Ending
use hadron_desktop.Base.{
  ℕ, ◌-◌, ◌*◌, ◌^◌, Bool, true, false, not, ◌&&◌, Option, none, some, List, ltb, ◌==◌,
  if◌then◌else◌,
}
use hadron_desktop.Base.Text.{Text, is_empty}
use hadron_desktop.Update.Semver.{newer}
use hadron_desktop.Update.Policy.{Latest}
use hadron_desktop.Update.Pin.{Outcome, pin_or_empty}
use hadron_desktop.Update.Daemon.{
  State, checking, up_to_date, update_available, error, Err, busy, cancelled, fetch_failed,
  is_unmanaged, blank, check_error, Job, change, Daemon, Disk, is_busy, is_reboot_pending,
  status_of, queue, set_state, set_latest, newest,
}

-- What `FetchReleases` answers.
pub data Fetched : Type 0 where
  fetched : List Latest → Fetched
  no_fetch : Text → Fetched

pub record Cache : Type 0 where
  pub items : List Latest
  pub filled : Bool
  pub at : ℕ

-- `releasesTTL`, in nanoseconds
abbrev pub releases_ttl : ℕ
releases_ttl = 60 * 10 ^ 9

store : ℕ → Fetched → Cache → Cache
store later (fetched published) c = record { items = published; filled = true; at = later }
store later (no_fetch e) c = c

-- `fetchReleases`, with the time at which it looks at the cache, the answer that it gets if it has
-- to ask, and the time at which it stores one.
unfoldable pub fetch_releases : ℕ → Fetched → ℕ → Cache → Cache × Fetched
unfolding store
fetch_releases now answer later c =
    if c.filled && ltb (now - c.at) releases_ttl
    then (c, fetched c.items)
    else (store later answer c, answer)

-- `Releases(ctx)`
pub data Listing : Type 0 where
  listed : Fetched → Listing
  not_listed : Err → Listing

unfoldable pub releases : ℕ → Fetched → ℕ → Daemon → Cache → Cache × Listing
unfolding fetch_releases
releases now answer later d c =
    if d.managed
    then (let (c', f) = fetch_releases now answer later c in (c', listed f))
    else (c, not_listed is_unmanaged)

-- How `Check` goes on after its first section.
pub data Begun : Type 0 where
  skipped : Begun
  rejected : Err → Begun
  proceeds : Bool → Begun

-- The first section of `Check`. The job's number must be new.
unfoldable pub begin : ℕ → Disk → Daemon → Daemon × Begun
unfolding set_state
begin id disk d =
    if not d.managed
    then (d, skipped)
    else if is_busy d.state
    then (d, rejected busy)
    else if is_reboot_pending d.state
    then (d, proceeds true)
    else (
      set_state checking blank disk
          (record d { job = some (record { id = id; prev = d.state; prev_detail = d.detail }) }),
      proceeds false,
    )

-- `d.job == j`
abbrev pub is_job : ℕ → Option Job → Bool
is_job id none = false
is_job id (some j) = j.id == id

-- The state that a check ends in: a pin keeps an update quiet.
checked : Disk → Daemon → State
checked disk d =
    if is_empty (pin_or_empty disk.pin) && newer d.latest d.rel.version
    then update_available
    else up_to_date

-- The last section of `Check`, with what the fetch answered and how the write of the tag went.
finish_pending : Outcome → Fetched → Disk → Daemon → Disk × Daemon × Option Err
finish_pending o (no_fetch e) disk d = (disk, d, some (fetch_failed e))
finish_pending o (fetched published) disk d =
    let (disk', d') = set_latest o (newest published) disk d in
    (disk', queue (change (status_of disk' d')) d', none)

finish_job : Outcome → Fetched → Disk → Daemon → Disk × Daemon × Option Err
unfolding checked
finish_job o (no_fetch e) disk d =
    (disk, set_state error (check_error (fetch_failed e)) disk d, some (fetch_failed e))
finish_job o (fetched published) disk d =
    let (disk', d') = set_latest o (newest published) disk d in
    (disk', set_state (checked disk' d') blank disk' d', none)

unfoldable pub finish : Bool → ℕ → Outcome → Fetched → Disk → Daemon → Disk × Daemon × Option Err
unfolding finish_pending finish_job
finish true id o f disk d = finish_pending o f disk d
finish false id o f disk d =
    if is_job id d.job
    then finish_job o f disk (record d { job = none })
    else (disk, d, some cancelled)
