-- ===== src/Update/Tests/Running.antt =====
-- The update daemon, from a boot through an upgrade.
use hadron_desktop.Base.{◌≡◌, ◌⊎◌, refl, true, false, ◌&&◌, none, [], ◌∷◌, ◌++◌, arith}
use hadron_desktop.Base.Text.{Text, text, text_eq}
use hadron_desktop.Base.Regex.{full_match}
use hadron_desktop.Update.Release.{missing, contents, gpu_full}
use hadron_desktop.Update.Ref.{repo, parse_ref, host_re, name_re, tag_re, digest_re}
use hadron_desktop.Update.Policy.{ImageInfo}
use hadron_desktop.Update.Daemon.{Daemon, Disk, Err, is_rebooting, is_advanced, busy_now}
use hadron_desktop.Update.Daemon.Marker.{is_present, new_daemon}
use hadron_desktop.Update.Daemon.Check.{fetched, no_fetch, releases, listed}
use hadron_desktop.Update.Daemon.Install.{
  Request, resolved, evaluate, inspect, accepted, rejected, apply, start, Upgrade, upgrading,
  abandoned, source_of,
}
use hadron_desktop.Update.Daemon.Install.Evaluate.{IsInstallable}
use hadron_desktop.Update.Daemon.Power.{cancel, reboot, reboot_failed}
use hadron_desktop.Update.Daemon.System.{
  System, Step, Reach, Take, install, booted, on_apply, on_start,
}
use hadron_desktop.Update.Daemon.Safety.Reached.{upgrade_once, apply_after_upgrade}
use hadron_desktop.Update.Daemon.Laws.{
  IsBack, upgrade_is_reviewed, apply_then_cancel, failed_reboot_unblocks,
}
use hadron_desktop.Update.Tests.{release_text, release, order, digest, info, published}
use hadron_desktop.Update.Policy.Trust.{named}
use hadron_desktop.Update.Tests.Trusting.{classified}

abbrev disk : Disk
disk = record {
  release = contents release_text;
  marker = missing;
  latest = missing;
  pin = missing;
  conf = missing;
}

abbrev ref : Text
ref = text "quay.io/k/h:sway-v0.2.0"

abbrev request : Request
request = record { target = info.ref; ref = ref; digest = digest; advanced = false }

-- A boot, an install that is asked for, and the start of kairos-agent.
abbrev at_boot : System
at_boot = booted order disk 0

abbrev at_apply : System
at_apply = on_apply ref digest false at_boot

abbrev at_start : System
at_start = on_start 0 request none none (resolved info) (fetched published) [] at_apply

waiting : at_apply.tasks ≡ install 0 request ∷ []
unfolding on_apply apply new_daemon release_text text parse_ref full_match host_re name_re tag_re
    digest_re
waiting = refl

taken : Take (install 0 request) at_apply.tasks []
taken = rw waiting Take.here

reached : Reach at_boot at_start
reached =
    Reach.next_step (Reach.next_step Reach.begin_here (Step.applies at_boot ref digest false)) (
      Step.install_starts at_apply 0 request [] taken none none (resolved info) (fetched published))

-- The daemon that the job finds, after the boot and the call of `Apply`.
abbrev ready : Daemon
ready = at_apply.daemon

evaluated : evaluate (resolved info) (fetched published) disk release false ≡ record {
  info = info;
  verdict = named (text "sway") gpu_full (text "v0.2.0");
  published = published;
  error = none;
}
unfolding evaluate
evaluated = rw classified refl

started : at_start.upgrades ≡ source_of info ∷ []
unfolding on_start on_apply apply new_daemon release_text text parse_ref full_match host_re name_re
    tag_re digest_re start text_eq
started = rw evaluated refl

upgrade_once_example :
    (at_start.upgrades ≡ [])
    ⊎ ((source : Text) × (at_start.upgrades ≡ source ∷ [])
        × (is_present at_start.disk.marker ≡ true))
upgrade_once_example = upgrade_once order disk 0 at_start reached

apply_after_upgrade_example :
    ((e : Err) × (apply 1 ref digest false at_start.disk at_start.daemon
        ≡ (at_start.daemon, rejected e)))
    × (let d = new_daemon order at_start.disk in
        (e : Err) × (apply 1 ref digest false at_start.disk d ≡ (d, rejected e)))
apply_after_upgrade_example =
    apply_after_upgrade order order disk 0 at_start reached (rw started (omega arith)) 1 ref digest
      false

failed_reboot_unblocks_example :
    let first = (reboot at_boot.daemon).0 in
    let second = (reboot first).0 in
    (apply 0 ref digest false disk first ≡ (first, rejected is_rebooting))
    × ((reboot first).1 ≡ none)
    × (apply 0 ref digest false disk (reboot_failed second) ≡ (at_apply.daemon, accepted request))
unfolding on_apply apply new_daemon release_text text parse_ref full_match host_re name_re tag_re
    digest_re
failed_reboot_unblocks_example =
    failed_reboot_unblocks 0 ref digest false disk at_boot.daemon at_apply.daemon request refl refl
      refl

apply_then_cancel_example :
    let q = request in
    let e = evaluate (resolved info) (fetched published) disk release false in
    let c = cancel disk at_apply.daemon in
    (c.1 ≡ none)
    × IsBack at_boot.daemon.state at_boot.daemon.detail c.0
    × (start 0 none none q e disk c.0 ≡ (disk, c.0, abandoned))
unfolding on_apply apply new_daemon release_text text parse_ref full_match host_re name_re tag_re
    digest_re
apply_then_cancel_example =
    apply_then_cancel 0 ref digest false disk disk at_boot.daemon at_apply.daemon request none none
      (evaluate (resolved info) (fetched published) disk release false) refl

abbrev upgrade : Upgrade
upgrade = record {
  source = source_of info;
  ref = ref;
  verdict = named (text "sway") gpu_full (text "v0.2.0");
  published = published;
}

run_starts :
    start 0 none none request
      (evaluate (resolved info) (fetched published) disk at_apply.daemon.rel request.advanced)
      disk
      at_apply.daemon
    ≡ (at_start.disk, at_start.daemon, upgrading upgrade)
unfolding on_start on_apply apply new_daemon release_text text parse_ref full_match host_re name_re
    tag_re digest_re start text_eq
run_starts = rw evaluated refl

upgrade_is_reviewed_example :
    (i : ImageInfo) × (resolved info ≡ resolved i)
    × (i.digest ≡ digest)
    × (upgrade.source ≡ text "oci:" ++ (repo i.ref ++ (b'@' ∷ digest)))
    × (at_apply.daemon.rebooting ≡ false)
    × IsInstallable (fetched published) at_apply.daemon.rel (false && is_advanced disk.conf) i
upgrade_is_reviewed_example =
    upgrade_is_reviewed 0 none none request (resolved info) (fetched published) disk at_start.disk
      at_apply.daemon at_start.daemon upgrade run_starts

busy_while_installing : busy_now at_apply.daemon ≡ true
unfolding busy_now on_apply apply new_daemon release_text text parse_ref full_match host_re name_re
    tag_re digest_re
busy_while_installing = refl

inspected :
    (inspect ref (λ r. resolved info) (fetched published) disk at_boot.daemon false).error ≡ none
unfolding inspect evaluate new_daemon release_text text parse_ref full_match host_re name_re tag_re
inspected = rw classified refl

-- The second listing comes from the cache.
listed_again :
    let c =
      (releases 5
        (fetched published)
        6
        at_boot.daemon
        (record { items = []; filled = false; at = 0 })).0 in
    (releases 7 (no_fetch []) 8 at_boot.daemon c).1 ≡ listed (fetched published)
unfolding releases new_daemon release_text text
listed_again = refl
