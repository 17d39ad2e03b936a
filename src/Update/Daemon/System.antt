-- ===== src/Update/Daemon/System.antt =====
-- The daemon among what runs beside it: the goroutines in flight, the disk, restarts of the daemon
-- and boots. A step is one section under the mutex, or something that the environment does. Every
-- answer of the environment (the registry, GitHub, writes, kairos-agent) is free.
use hadron_desktop.Base.{ℕ, suc, Bool, Option, none, some, List, [], ◌∷◌}
use hadron_desktop.Base.Text.{Text}
use hadron_desktop.Update.Release.{File, missing, Key}
use hadron_desktop.Update.Pin.{Outcome}
use hadron_desktop.Update.Daemon.{Daemon, Disk, Err, deliver}
use hadron_desktop.Update.Daemon.Marker.{new_daemon}
use hadron_desktop.Update.Daemon.Check.{Fetched, Begun, skipped, proceeds, begin, finish}
use hadron_desktop.Update.Daemon.Check
use hadron_desktop.Update.Daemon.Install.{
  Request, Resolved, Evaluation, evaluate, Applied, accepted, apply, Upgrade, Started, abandoned,
  gave_up, upgrading, start, progress, complete,
}
use hadron_desktop.Update.Daemon.Install
use hadron_desktop.Update.Daemon.Power.{cancel, reboot, reboot_previous, reboot_failed}

-- A goroutine between two sections, with what it keeps.
pub data Task : Type 0 where
  check : ℕ → Bool → Task
  install : ℕ → Request → Task
  upgrade : ℕ → Upgrade → Task
  power : Task

pub record System : Type 0 where
  pub daemon : Daemon
  pub disk : Disk
  pub tasks : List Task
  pub next : ℕ
  -- The sources that kairos-agent was started for since the last boot, the newest first.
  pub upgrades : List Text

abbrev pub add_check : ℕ → Begun → List Task → List Task
add_check id skipped ts = ts
add_check id (Check.rejected e) ts = ts
add_check id (proceeds pending) ts = check id pending ∷ ts

unfoldable pub on_check : System → System
on_check s =
    let (d, b) = begin s.next s.disk s.daemon in
    record s { daemon = d; tasks = add_check s.next b s.tasks; next = suc s.next }

unfoldable pub on_finish : ℕ → Bool → Outcome → Fetched → List Task → System → System
on_finish id pending o f rest s =
    let (disk, d, e) = finish pending id o f s.disk s.daemon in
    record s { daemon = d; disk = disk; tasks = rest }

abbrev pub add_install : ℕ → Applied → List Task → List Task
add_install id (accepted q) ts = install id q ∷ ts
add_install id (Install.rejected e) ts = ts

unfoldable pub on_apply : Text → Text → Bool → System → System
on_apply ref digest advanced s =
    let (d, a) = apply s.next ref digest advanced s.disk s.daemon in
    record s { daemon = d; tasks = add_install s.next a s.tasks; next = suc s.next }

abbrev pub add_upgrade : ℕ → Started → List Task → List Task
add_upgrade id abandoned ts = ts
add_upgrade id (gave_up e) ts = ts
add_upgrade id (upgrading u) ts = upgrade id u ∷ ts

abbrev pub add_source : Started → List Text → List Text
add_source abandoned us = us
add_source (gave_up e) us = us
add_source (upgrading u) us = u.source ∷ us

unfoldable pub on_start :
    ℕ → Request → Outcome → Outcome → Resolved → Fetched → List Task → System → System
on_start id q marker_write latest_write r f rest s =
    let e = evaluate r f s.disk s.daemon.rel q.advanced in
    let (disk, d, started) = start id marker_write latest_write q e s.disk s.daemon in
    record s {
      daemon = d;
      disk = disk;
      tasks = add_upgrade id started rest;
      upgrades = add_source started s.upgrades;
    }

unfoldable pub on_complete : Upgrade → Outcome → Outcome → Outcome → List Task → System → System
on_complete u result marker_write pin_write rest s =
    let (disk, d) = complete u result marker_write pin_write s.disk s.daemon in
    record s { daemon = d; disk = disk; tasks = rest }

abbrev pub add_power : Option Err → List Task → List Task
add_power none ts = power ∷ ts
add_power (some e) ts = ts

unfoldable pub on_reboot : (Daemon → Daemon × Option Err) → System → System
on_reboot method s =
    let (d, e) = method s.daemon in record s { daemon = d; tasks = add_power e s.tasks }

-- A boot clears the run directory; the system that boots brings its own release file.
abbrev pub booted : List Key → Disk → ℕ → System
booted order disk next =
    let clean : Disk = record disk { marker = missing; latest = missing } in
    record { daemon = new_daemon order clean; disk = clean; tasks = []; next = next; upgrades = [] }

-- One task of the list, and the others.
pub data Take (t : Task) : List Task → List Task → Type 0 where
  here : {ts : List Task} → Take t (t ∷ ts) ts
  there : {u : Task} {ts rest : List Task} → Take t ts rest → Take t (u ∷ ts) (u ∷ rest)

pub data Step : System → System → Type 0 where
  checks : (s : System) → Step s (on_check s)
  check_answers :
      (s : System) (id : ℕ) (pending : Bool) (rest : List Task)
      → Take (check id pending) s.tasks rest
      → (o : Outcome) (f : Fetched) → Step s (on_finish id pending o f rest s)
  applies :
      (s : System) (ref digest : Text) (advanced : Bool) → Step s (on_apply ref digest advanced s)
  install_starts :
      (s : System) (id : ℕ) (q : Request) (rest : List Task)
      → Take (install id q) s.tasks rest
      → (marker_write latest_write : Outcome) (r : Resolved) (f : Fetched)
      → Step s (on_start id q marker_write latest_write r f rest s)
  agent_prints :
      (s : System) (id : ℕ) (u : Upgrade) (rest : List Task) (line : Text)
      → Take (upgrade id u) s.tasks rest
      → Step s (record s { daemon = progress line s.daemon })
  agent_ends :
      (s : System) (id : ℕ) (u : Upgrade) (rest : List Task)
      → Take (upgrade id u) s.tasks rest
      → (result marker_write pin_write : Outcome)
      → Step s (on_complete u result marker_write pin_write rest s)
  cancels : (s : System) → Step s (record s { daemon = (cancel s.disk s.daemon).0 })
  reboots : (s : System) → Step s (on_reboot reboot s)
  reboots_previous : (s : System) → Step s (on_reboot reboot_previous s)
  reboot_fails :
      (s : System) (rest : List Task)
      → Take power s.tasks rest
      → Step s (record s { daemon = reboot_failed s.daemon; tasks = rest })
  delivers : (s : System) → Step s (record s { daemon = (deliver s.daemon).1 })
  -- The files that are not the daemon's own change by hand.
  edits :
      (s : System) (release pin conf : File)
      → Step s (record s { disk = record s.disk { release = release; pin = pin; conf = conf } })
  -- The daemon dies or exits at any time, and is started again.
  restarts :
      (s : System) (order : List Key)
      → Step s (record s { daemon = new_daemon order s.disk; tasks = [] })
  boots :
      (s : System) (order : List Key) (release : File)
      → Step s (booted order (record s.disk { release = release }) s.next)

pub data Reach (s : System) : System → Type 0 where
  begin_here : Reach s s
  next_step : {t u : System} → Reach s t → Step t u → Reach s u
