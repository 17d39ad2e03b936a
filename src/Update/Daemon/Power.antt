-- ===== src/Update/Daemon/Power.antt =====
-- update/daemon.go: `Cancel`, `Reboot` and `RebootPrevious`.
use hadron_desktop.Base.{true, false, Option, none, some, if◌then◌else◌}
use hadron_desktop.Update.Daemon.{
  State, idle, checking, inspecting, applying, error, Err, busy, is_rebooting, unfinished_pending,
  not_cancellable, nothing_to_cancel, previous_after_install, Pending, installed, Detail, blank,
  Job, Daemon, Disk, is_installing, is_reboot_pending, set_state,
}

-- The error of the last job is not restored as news.
abbrev pub restored : State → Detail → State × Detail
restored error detail = (idle, blank)
restored s detail = (s, detail)

cancel_job : Option Job → Disk → Daemon → Daemon × Option Err
unfolding set_state
cancel_job none disk d = (d, none)
cancel_job (some j) disk d =
    let (prev, detail) = restored j.prev j.prev_detail in
    (set_state prev detail disk (record d { job = none }), none)

cancel_in : State → Disk → Daemon → Daemon × Option Err
unfolding cancel_job
cancel_in checking disk d = cancel_job d.job disk d
cancel_in inspecting disk d = cancel_job d.job disk d
cancel_in applying disk d = (d, some not_cancellable)
cancel_in s disk d = (d, some nothing_to_cancel)

-- `Cancel()`. Without a job the source would fault; a checking or inspecting daemon has one.
unfoldable pub cancel : Disk → Daemon → Daemon × Option Err
unfolding cancel_in
cancel disk d = cancel_in d.state disk d

-- The section of `Reboot` in front of the call of the backend.
unfoldable pub reboot : Daemon → Daemon × Option Err
reboot d = if is_installing d.state then (d, some busy) else (record d { rebooting = true }, none)

abbrev previous_err : Option Pending → Err
previous_err (some installed) = previous_after_install
previous_err p = unfinished_pending

-- The section of `RebootPrevious` in front of the call of the backend.
unfoldable pub reboot_previous : Daemon → Daemon × Option Err
reboot_previous d =
    if d.rebooting
    then (d, some is_rebooting)
    else if is_installing d.state
    then (d, some busy)
    else if is_reboot_pending d.state
    then (d, some (previous_err d.pending))
    else (record d { rebooting = true }, none)

-- The section behind a call of the backend that failed, in both methods.
unfoldable pub reboot_failed : Daemon → Daemon
reboot_failed d = record d { rebooting = false }
