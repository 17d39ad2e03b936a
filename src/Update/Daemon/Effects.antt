-- ===== src/Update/Daemon/Effects.antt =====
-- What each section does to the fields that the daemon's states and jobs are kept in.
use hadron_desktop.Base.{
  ℕ, ◌≡◌, ◌≢◌, ◌⊎◌, inl, inr, refl, Bool, true, false, Option, none, some, arith, ==_self, if_cases,
  not,
}
use hadron_desktop.Base.Text.{Text, text_eq}
use hadron_desktop.Update.Pin.{Outcome}
use hadron_desktop.Update.Daemon.{
  State, checking, inspecting, applying, reboot_pending, Err, Daemon, Disk, is_busy,
  is_reboot_pending, set_state, set_latest, queue, newest,
}
use hadron_desktop.Update.Daemon.Marker.{is_present}
use hadron_desktop.Update.Daemon.Check.{
  Fetched, fetched, no_fetch, Begun, skipped, proceeds, begin, finish, is_job,
}
use hadron_desktop.Update.Daemon.Install.{
  Request, Evaluation, Applied, accepted, rejected, Upgrade, Started, upgrading, complete,
  source_of,
}
use hadron_desktop.Update.Daemon.Power.{cancel, reboot, reboot_previous}

-- The same job in the same state, and as managed as before.
abbrev pub Keeps : Daemon → Daemon → Type 0
Keeps d d' = (d'.managed ≡ d.managed) × (d'.job ≡ d.job) × (d'.state ≡ d.state)

-- The job is over, and the daemon is as managed as before.
abbrev pub Drops : Daemon → Daemon → Type 0
Drops d d' = (d'.managed ≡ d.managed) × (d'.job ≡ none)

-- Neither busy nor waiting for a reboot, and managed.
abbrev pub IsReady : Daemon → Type 0
IsReady d = (d.managed ≡ true) × (is_busy d.state ≡ false) × (is_reboot_pending d.state ≡ false)

-- A new job in a new state.
abbrev pub Begins : ℕ → State → Daemon → Daemon → Type 0
Begins id state d d' = (d'.managed ≡ d.managed) × (is_job id d'.job ≡ true) × (d'.state ≡ state)

pub data BeginEffect (id : ℕ) (d : Daemon) : Daemon × Begun → Type 0 where
  not_begun : (b : Begun) → b ≢ proceeds false → BeginEffect id d (d, b)
  begun :
      (d' : Daemon) → IsReady d → Begins id checking d d' → BeginEffect id d (d', proceeds false)

pub begin-effect : (id : ℕ) (disk : Disk) (d : Daemon) → BeginEffect id d (begin id disk d)
unfolding begin
begin-effect id disk d =
    if_cases (BeginEffect id d) (not d.managed) _ _ (λ e. not_begun skipped (λ h. cc))
      (λ m.
        if_cases (BeginEffect id d) (is_busy d.state) _ _ (λ e. not_begun _ (λ h. cc))
          (λ b.
            if_cases (BeginEffect id d) (is_reboot_pending d.state) _ _
              (λ e. not_begun (proceeds true) (λ h. cc))
              (λ p. begun _ (ground arith, b, p) (refl, ==_self id, refl))))

pub data ApplyEffect (id : ℕ) (d : Daemon) : Daemon × Applied → Type 0 where
  refused : (e : Err) → ApplyEffect id d (d, rejected e)
  admitted :
      (d' : Daemon) (q : Request)
      → IsReady d
      → d.rebooting ≡ false
      → Begins id inspecting d d'
      → d'.job ≡ some (record { id = id; prev = d.state; prev_detail = d.detail })
      → ApplyEffect id d (d', accepted q)

abbrev pub SameMarker : Disk → Daemon → Disk × Daemon → Type 0
SameMarker disk d (disk', d') = (disk'.marker ≡ disk.marker) × Keeps d d'

pub set_latest-effect :
    (o : Outcome) (tag : Text) (disk : Disk) (d : Daemon)
    → SameMarker disk d (set_latest o tag disk d)
unfolding set_latest
set_latest-effect o tag disk d =
    if_cases (SameMarker disk d) (text_eq tag d.latest) _ _ (λ e. (refl, (refl, refl, refl)))
      (λ e. (refl, (refl, refl, refl)))

abbrev pub FinishEffect : Bool → ℕ → Disk → Daemon → Disk × Daemon × Option Err → Type 0
FinishEffect pending id disk d (disk', d', e) =
    (disk'.marker ≡ disk.marker)
    × (Keeps d d' ⊎ ((pending ≡ false) × (is_job id d.job ≡ true) × Drops d d'))

pub finish-effect :
    (pending : Bool) (id : ℕ) (o : Outcome) (f : Fetched) (disk : Disk) (d : Daemon)
    → FinishEffect pending id disk d (finish pending id o f disk d)
unfolding finish set_state queue
finish-effect true id o (no_fetch e) disk d = (refl, inl (refl, refl, refl))
finish-effect true id o (fetched published) disk d =
    let (same, keeps) = set_latest-effect o (newest published) disk d in (same, inl keeps)
finish-effect false id o (no_fetch e) disk d =
    if_cases (FinishEffect false id disk d) (is_job id d.job) _ _
      (λ k. (refl, inr (refl, k, (refl, refl)))) (λ k. (refl, inl (refl, refl, refl)))
finish-effect false id o (fetched published) disk d =
    if_cases (FinishEffect false id disk d) (is_job id d.job) _ _
      (λ k.
        let (same, keeps) = set_latest-effect o (newest published) disk (record d { job = none }) in
        (same, inr (refl, k, (keeps.0, keeps.1))))
      (λ k. (refl, inl (refl, refl, refl)))

-- kairos-agent is started only by the daemon's own job, when nothing stands against it, with the
-- marker on the disk.
pub data StartEffect (id : ℕ) (q : Request) (e : Evaluation) (disk : Disk) (d : Daemon)
    : Disk × Daemon × Started → Type 0 where
  not_started :
      (d' : Daemon) (st : Started)
      → ((u : Upgrade) → st ≢ upgrading u)
      → Keeps d d' ⊎ ((is_job id d.job ≡ true) × Drops d d')
      → StartEffect id q e disk d (disk, d', st)
  launched :
      (disk' : Disk) (d' : Daemon) (u : Upgrade)
      → is_job id d.job ≡ true
      → d.rebooting ≡ false
      → is_present disk'.marker ≡ true
      → (d'.managed ≡ d.managed) × (d'.job ≡ d.job) × (d'.state ≡ applying)
      → (e.error ≡ none) × (e.info.digest ≡ q.digest) × (u.source ≡ source_of e.info)
      → StartEffect id q e disk d (disk', d', upgrading u)

pub complete-effect :
    (u : Upgrade) (r m p : Outcome) (disk : Disk) (d : Daemon)
    → let (disk', d') = complete u r m p disk d in
      (is_present disk.marker ≡ true → is_present disk'.marker ≡ true)
      × Drops d d'
      × (d'.state ≡ reboot_pending)
unfolding complete
complete-effect u r m p disk d = ground arith

pub cancel-effect :
    (disk : Disk) (d : Daemon)
    → let d' = (cancel disk d).0 in
      Keeps d d' ⊎ (((d.state ≡ checking) ⊎ (d.state ≡ inspecting)) × Drops d d')
unfolding cancel
cancel-effect disk d = ground arith

pub reboot-effect : (d : Daemon) → Keeps d (reboot d).0 × Keeps d (reboot_previous d).0
unfolding reboot reboot_previous
reboot-effect d = ground arith
