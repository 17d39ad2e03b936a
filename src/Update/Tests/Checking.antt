-- ===== src/Update/Tests/Checking.antt =====
-- A check that finds a newer release.
use hadron_desktop.Base.{◌≡◌, ◌↔◌, refl, true, false, none, some, []}
use hadron_desktop.Base.Text.{text}
use hadron_desktop.Update.Semver.{newer}
use hadron_desktop.Update.Release.{missing, contents}
use hadron_desktop.Update.Pin.{pin_or_empty}
use hadron_desktop.Update.Daemon.{Daemon, Disk, idle, checking, update_available, blank, newest}
use hadron_desktop.Update.Daemon.Check.{fetched, finish}
use hadron_desktop.Update.Daemon.Check.Ending.{finish-update}
use hadron_desktop.Update.Tests.{release, published}

abbrev disk : Disk
disk = record {
  release = missing;
  marker = missing;
  latest = missing;
  pin = contents (text "x\n");
  conf = missing;
}

abbrev daemon : Daemon
daemon = record {
  rel = release;
  managed = true;
  state = checking;
  pending = none;
  latest = [];
  detail = blank;
  job = some (record { id = 3; prev = idle; prev_detail = blank });
  events = [];
  rebooting = false;
}

finish-update_example :
    let (disk', d', e) = finish false 3 none (fetched published) disk daemon in
    (e ≡ none)
    × (d'.job ≡ none)
    × (d'.latest ≡ newest published)
    × ((d'.state ≡ update_available)
        ↔ ((pin_or_empty disk.pin ≡ []) × (newer (newest published) daemon.rel.version ≡ true)))
finish-update_example = finish-update 3 none published disk daemon refl
