-- ===== src/Update/Daemon/Marker.antt =====
-- update/daemon.go: the reboot marker, and the daemon that starts over what the disk holds.
use hadron_desktop.Base.{
  ◌≡◌, refl, Bool, true, false, Option, none, some, List, [], ◌∷◌, ◌++◌, arith, if◌then◌else◌,
}
use hadron_desktop.Base.Text.{Text, text, text_eq, trim_space, cut}
use hadron_desktop.Base.Regex.{full_match}
use hadron_desktop.Update.Semver.{cut_or}
use hadron_desktop.Update.Release.{
  Release, File, missing, unreadable, contents, Loaded, Key, load_release,
}
use hadron_desktop.Update.Release
use hadron_desktop.Update.Policy.{strict_tag}
use hadron_desktop.Update.Pin.{Outcome}
use hadron_desktop.Update.Daemon.{
  idle, reboot_pending, unmanaged, Pending, started, installed, failed, blank, release_error,
  pending_detail, Daemon, Disk, write_file,
}

pub word : Pending → Text
word started = text "started"
word installed = text "installed"
word failed = text "failed"

-- `writeRebootMarker(word, source)`
unfoldable pub write_marker : Outcome → Pending → Text → Disk → Disk
write_marker o w source disk = record disk {
  marker = write_file o (word w ++ (b' ' ∷ (source ++ (b'\n' ∷ [])))) disk.marker;
}

first_word : Text → Text
first_word s = (cut_or (cut s b' ') s).0

pending_word : Text → Pending
unfolding word
pending_word w =
    if text_eq w (text "installed")
    then installed
    else if text_eq w (text "failed")
    then failed
    else started

-- `readRebootMarker()`
pub read_marker : File → Option Pending
unfolding pending_word first_word trim_space
read_marker missing = none
read_marker (unreadable e) = some started
read_marker (contents s) = some (pending_word (first_word (trim_space s)))

-- The tag that an earlier run of the daemon recorded.
pub stored_latest : File → Text
unfolding trim_space full_match strict_tag
stored_latest missing = []
stored_latest (unreadable e) = []
stored_latest (contents s) = let tag = trim_space s in if full_match strict_tag tag then tag else []

abbrev no_release : Release
no_release = record {
  flavor = [];
  version = [];
  hadron_version = [];
  image_repo = [];
  github_repo = [];
  gpu = [];
}

managed_daemon : Release → Text → Option Pending → Daemon
managed_daemon rel tag marked = elim marked [
  | none ↦ record {
    rel = rel;
    managed = true;
    state = idle;
    pending = none;
    latest = tag;
    detail = blank;
    job = none;
    events = [];
    rebooting = false;
  }
  | some w ↦ record {
    rel = rel;
    managed = true;
    state = reboot_pending;
    pending = some w;
    latest = tag;
    detail = pending_detail w;
    job = none;
    events = [];
    rebooting = false;
  }
]

daemon_of : Loaded Release → Disk → Daemon
unfolding managed_daemon read_marker stored_latest
daemon_of (Release.err e) disk = record {
  rel = no_release;
  managed = false;
  state = unmanaged;
  pending = none;
  latest = [];
  detail = release_error e;
  job = none;
  events = [];
  rebooting = false;
}
daemon_of (Release.ok rel) disk =
    managed_daemon rel (stored_latest disk.latest) (read_marker disk.marker)

-- `NewDaemon(b)`
unfoldable pub new_daemon : List Key → Disk → Daemon
unfolding daemon_of load_release
new_daemon order disk = daemon_of (load_release order disk.release) disk

-- A file that is there, readable or not.
abbrev pub is_present : File → Bool
is_present missing = false
is_present (unreadable e) = true
is_present (contents s) = true

-- What a new daemon is like: without a job, and waiting for a reboot if there is a marker.
pub record IsFresh (disk : Disk) (d : Daemon) : Type 0 where
  pub no_job : d.job ≡ none
  pub not_rebooting : d.rebooting ≡ false
  pub waits : d.managed ≡ true → is_present disk.marker ≡ true → d.state ≡ reboot_pending
  pub idles : d.managed ≡ true → is_present disk.marker ≡ false → d.state ≡ idle
  pub refuses : d.managed ≡ false → d.state ≡ unmanaged

daemon_of-IsFresh :
    (o : Loaded Release) (disk : Disk) (f : File)
    → disk.marker ≡ f
    → IsFresh disk (daemon_of o disk)
unfolding daemon_of read_marker
daemon_of-IsFresh (Release.err e) disk f h = ground arith
daemon_of-IsFresh (Release.ok rel) disk missing h = ground arith
daemon_of-IsFresh (Release.ok rel) disk (unreadable e) h = ground arith
daemon_of-IsFresh (Release.ok rel) disk (contents s) h = ground arith

pub new_daemon-IsFresh : (order : List Key) (disk : Disk) → IsFresh disk (new_daemon order disk)
unfolding new_daemon
new_daemon-IsFresh order disk =
    daemon_of-IsFresh (load_release order disk.release) disk disk.marker refl
