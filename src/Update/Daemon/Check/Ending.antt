-- ===== src/Update/Daemon/Check/Ending.antt =====
-- What a check ends in.
use hadron_desktop.Base.{ℕ, ◌≡◌, ◌↔◌, true, false, none, List, [], arith}
use hadron_desktop.Base.Text.{text_eq_iff, is_empty_iff}
use hadron_desktop.Update.Semver.{newer}
use hadron_desktop.Update.Policy.{Latest}
use hadron_desktop.Update.Pin.{Outcome, pin_or_empty}
use hadron_desktop.Update.Daemon.{
  Daemon, Disk, update_available, newest, set_latest, set_state, queue,
}
use hadron_desktop.Update.Daemon.Check.{fetched, finish, finish_job, checked, is_job}

-- A check that began without a pending reboot, was not cancelled and whose fetch succeeded ends without a job and without an error,
-- and reports an update exactly if nothing is pinned and the newest published release is newer than
-- the running version.
pub finish-update :
    (id : ℕ) (o : Outcome) (ps : List Latest) (disk : Disk) (d : Daemon)
    → is_job id d.job ≡ true
    → let (disk', d', e) = finish false id o (fetched ps) disk d in
      (e ≡ none)
      × (d'.job ≡ none)
      × (d'.latest ≡ newest ps)
      × ((d'.state ≡ update_available)
          ↔ ((pin_or_empty disk.pin ≡ []) × (newer (newest ps) d.rel.version ≡ true)))
unfolding finish finish_job checked set_latest set_state queue
finish-update id o ps disk d h =
    ground (arith, h, text_eq_iff (newest ps) d.latest, is_empty_iff (pin_or_empty disk.pin))
