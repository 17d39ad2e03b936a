-- ===== src/Update/Daemon/Safety.antt =====
-- The invariant of the update system.
pub mod Tasks
pub mod Sections
pub mod Steps
pub mod Reached
use hadron_desktop.Base.{
  ℕ, suc, ◌<◌, ◌≤◌, ◌≡◌, ◌≢◌, Bool, true, false, Option, none, some, List, [], ◌∷◌, ◌==◌, length,
  All,
}
use hadron_desktop.Update.Daemon.{
  State, checking, inspecting, applying, reboot_pending, Job, Daemon, Disk,
}
use hadron_desktop.Update.Daemon.Marker.{is_present}
use hadron_desktop.Update.Daemon.Check.{is_job}
use hadron_desktop.Update.Daemon.System.{Task, check, install, upgrade, power, System}

-- The states behind the start of kairos-agent.
abbrev pub is_late : State → Bool
is_late applying = true
is_late reboot_pending = true
is_late s = false

abbrev pub Below : ℕ → Task → Type 0
Below n (check id pending) = id < n
Below n (install id q) = id < n
Below n (upgrade id u) = id < n
Below n power = Unit

abbrev pub Differs : ℕ → Task → Type 0
Differs n (check id pending) = (n == id) ≡ false
Differs n (install id q) = (n == id) ≡ false
Differs n (upgrade id u) = (n == id) ≡ false
Differs n power = Unit

abbrev pub DiffersFrom : Task → Task → Type 0
DiffersFrom (check id pending) t = Differs id t
DiffersFrom (install id q) t = Differs id t
DiffersFrom (upgrade id u) t = Differs id t
DiffersFrom power t = Unit

-- No two tasks belong to one job.
abbrev pub Distinct : List Task → Type 0
Distinct [] = Unit
Distinct (t ∷ ts) = All (DiffersFrom t) ts × Distinct ts

-- A task that the daemon still waits for finds it in the state that it left.
abbrev pub Agrees : Bool → Option Job → State → Task → Type 0
Agrees managed job state (check id false) = is_job id job ≡ true → state ≡ checking
Agrees managed job state (check id true) = Unit
Agrees managed job state (install id q) =
    (managed ≡ true) × (is_job id job ≡ true → state ≡ inspecting)
Agrees managed job state (upgrade id u) = Unit
Agrees managed job state power = Unit

pub record Inv (s : System) : Type 0 where
  pub one : length s.upgrades ≤ 1
  pub marked : 0 < length s.upgrades → is_present s.disk.marker ≡ true
  pub late : 0 < length s.upgrades → s.daemon.managed ≡ true → is_late s.daemon.state ≡ true
  pub below : All (Below s.next) s.tasks
  pub distinct : Distinct s.tasks
  pub agrees : All (Agrees s.daemon.managed s.daemon.job s.daemon.state) s.tasks
