-- ===== src/Update/Daemon/Safety/Reached.antt =====
-- What holds of every system that can be reached from a boot.
use hadron_desktop.Base.{
  ℕ, ◌<◌, ◌≤◌, ◌≡◌, ◌⊎◌, inl, inr, refl, ◌∷◌, Bool, true, List, [], length, arith,
}
use hadron_desktop.Base.Text.{Text}
use hadron_desktop.Update.Release.{Key}
use hadron_desktop.Update.Daemon.{Err, Daemon, Disk, deliver}
use hadron_desktop.Update.Daemon.Marker.{is_present, new_daemon, new_daemon-IsFresh}
use hadron_desktop.Update.Daemon.Install.{Applied, rejected, apply, progress}
use hadron_desktop.Update.Daemon.Install.Sections.{apply-effect}
use hadron_desktop.Update.Daemon.Power.{reboot, reboot_previous, reboot_failed}
use hadron_desktop.Update.Daemon.Effects.{ApplyEffect, refused, admitted, reboot-effect}
use hadron_desktop.Update.Daemon.System.{System, Step, Reach, booted, power}
use hadron_desktop.Update.Daemon.Safety.{Inv, is_late}
use hadron_desktop.Update.Daemon.Safety.Sections.{on_check-Inv, on_apply-Inv, quiet_section}
use hadron_desktop.Update.Daemon.Safety.Steps.{
  on_finish-Inv, on_start-Inv, on_complete-Inv, cancel-Inv, kept_section, on_reboot-Inv,
}

-- A boot, and a daemon that is started again, satisfy the invariant.
booted-Inv : (order : List Key) (disk : Disk) (n : ℕ) → Inv (booted order disk n)
booted-Inv order disk n = record {
  one = omega arith;
  marked = λ h. absurd (omega arith);
  late = λ h. absurd (omega arith);
  below = tt;
  distinct = tt;
  agrees = tt;
}

restarted-Inv :
    (s : System) (order : List Key)
    → Inv s
    → Inv (record s { daemon = new_daemon order s.disk; tasks = [] })
restarted-Inv s order inv =
    let fresh = new_daemon-IsFresh order s.disk in
    record {
      one = inv.one;
      marked = inv.marked;
      late = λ h m. rw (fresh.waits m (inv.marked h));
      below = tt;
      distinct = tt;
      agrees = tt;
    }

Step-Inv : {s t : System} → Step s t → Inv s → Inv t
unfolding deliver progress reboot_failed
Step-Inv (Step.checks s) inv = on_check-Inv s inv
Step-Inv (Step.check_answers s id pending rest k o f) inv =
    on_finish-Inv s inv id pending rest k o f
Step-Inv (Step.applies s ref digest advanced) inv = on_apply-Inv s inv ref digest advanced
Step-Inv (Step.install_starts s id q rest k m l r f) inv = on_start-Inv s inv id q rest k m l r f
Step-Inv (Step.agent_prints s id u rest line k) inv =
    kept_section s inv (progress line s.daemon) s.disk (refl, refl, refl) refl
Step-Inv (Step.agent_ends s id u rest k r m p) inv = on_complete-Inv s inv id u rest k r m p
Step-Inv (Step.cancels s) inv = cancel-Inv s inv
Step-Inv (Step.reboots s) inv = on_reboot-Inv s inv reboot (reboot-effect s.daemon).0
Step-Inv (Step.reboots_previous s) inv =
    on_reboot-Inv s inv reboot_previous (reboot-effect s.daemon).1
Step-Inv (Step.reboot_fails s rest k) inv =
    quiet_section s inv s.disk (reboot_failed s.daemon) power rest k (λ h. h)
      (inl (refl, refl, refl))
Step-Inv (Step.delivers s) inv =
    kept_section s inv (deliver s.daemon).1 s.disk (refl, refl, refl) refl
Step-Inv (Step.edits s release pin conf) inv =
    kept_section s inv s.daemon (record s.disk { release = release; pin = pin; conf = conf })
      (refl, refl, refl) refl
Step-Inv (Step.restarts s order) inv = restarted-Inv s order inv
Step-Inv (Step.boots s order release) inv =
    booted-Inv order (record s.disk { release = release }) s.next

Reach-Inv : {s t : System} → Inv s → Reach s t → Inv t
Reach-Inv inv Reach.begin_here = inv
Reach-Inv inv (Reach.next_step r st) = Step-Inv st (Reach-Inv inv r)

-- From a boot on, through any sequence of calls, answers, failures, cancels and restarts of the
-- daemon, kairos-agent is started at most once before the next boot, and if it was started, then
-- the reboot marker is on the disk.
pub upgrade_once :
    (order : List Key) (disk : Disk) (n : ℕ) (s : System)
    → Reach (booted order disk n) s
    → (s.upgrades ≡ [])
      ⊎ ((source : Text) × (s.upgrades ≡ source ∷ []) × (is_present s.disk.marker ≡ true))
upgrade_once order disk n s r =
    let inv = Reach-Inv (booted-Inv order disk n) r in by_length s.upgrades inv.one inv.marked
  where
    by_length :
        (us : List Text)
        → length us ≤ 1
        → (0 < length us → is_present s.disk.marker ≡ true)
        → (us ≡ []) ⊎ ((u : Text) × (us ≡ u ∷ []) × (is_present s.disk.marker ≡ true))
    by_length [] one marked = inl refl
    by_length (u ∷ []) one marked = inr (u, refl, marked (omega arith))
    by_length (u ∷ v ∷ us) one marked = absurd (omega arith)

-- Once kairos-agent was started, every `Apply` before the next boot is refused and changes
-- nothing, also one that a daemon which was started again answers.
pub apply_after_upgrade :
    (order order' : List Key) (disk : Disk) (n : ℕ) (s : System)
    → Reach (booted order disk n) s
    → 0 < length s.upgrades
    → (id : ℕ) (ref digest : Text) (advanced : Bool)
    → ((e : Err) × (apply id ref digest advanced s.disk s.daemon ≡ (s.daemon, rejected e)))
      × (let d = new_daemon order' s.disk in
          (e : Err) × (apply id ref digest advanced s.disk d ≡ (d, rejected e)))
apply_after_upgrade order order' disk n s r h id ref digest advanced = (
  late_refuses s.disk s.daemon (inv.late h) (apply id ref digest advanced s.disk s.daemon)
      (apply-effect id ref digest advanced s.disk s.daemon),
  late_refuses s.disk (new_daemon order' s.disk)
      (λ m. rw ((new_daemon-IsFresh order' s.disk).waits m (inv.marked h)))
      (apply id ref digest advanced s.disk (new_daemon order' s.disk))
      (apply-effect id ref digest advanced s.disk (new_daemon order' s.disk)),
)
  where
    inv : Inv s
    inv = Reach-Inv (booted-Inv order disk n) r

    late_refuses :
        (disk : Disk) (d : Daemon)
        → (d.managed ≡ true → is_late d.state ≡ true)
        → (r : Daemon × Applied) → ApplyEffect id d r
        → (e : Err) × (r ≡ (d, rejected e))
    late_refuses disk d late r (refused e) = (e, refl)
    late_refuses disk d late r (admitted d' q ready calm b own) =
        absurd (ground (arith, late, ready))
