-- ===== src/Update/Tests/Offering.antt =====
-- The tray menu.
use hadron_desktop.Base.{◌≡◌, ◌↔◌, ◌⊎◌, refl, true, false, none, List, []}
use hadron_desktop.Base.Text.{text, text_eq, is_empty}
use hadron_desktop.Base.Regex.{full_match}
use hadron_desktop.Update.Semver.{newer, parse_semver}
use hadron_desktop.Update.Release.{missing, contents, gpu_full}
use hadron_desktop.Update.Ref.{parse_ref, host_re, name_re, tag_re, digest_re}
use hadron_desktop.Update.Policy.{strict_tag}
use hadron_desktop.Update.Pin.{pin_or_empty}
use hadron_desktop.Update.Daemon.{Daemon, Disk, status_of}
use hadron_desktop.Update.Daemon.Marker.{new_daemon}
use hadron_desktop.Update.Daemon.Install.{Request, accepted, apply}
use hadron_desktop.Update.Daemon.Power.{cancel, reboot, reboot_previous}
use hadron_desktop.Update.Menu.{MenuItem, build_menu, installs_allowed}
use hadron_desktop.Update.Menu.Offers.{offers, menu_agrees}
use hadron_desktop.Update.Tests.{release_text, order, target, digest, published}

abbrev disk : Disk
disk = record {
  release = contents release_text;
  marker = missing;
  latest = contents (text "v0.2.0\n");
  pin = missing;
  conf = missing;
}

abbrev daemon : Daemon
daemon = new_daemon order disk

abbrev menu : List MenuItem
menu = build_menu (λ detail. []) (status_of disk daemon) published (text "sway") gpu_full

latest_offered : offers (text "install-latest") menu ≡ true
unfolding build_menu offers installs_allowed status_of new_daemon release_text text newer
    parse_semver full_match strict_tag text_eq is_empty pin_or_empty
latest_offered = refl

menu_agrees_example :
    ((offers (text "switch") menu ≡ true) ↔ (
      (d : Daemon) × (q : Request) × (apply 0
          (text "quay.io/k/h:sway-v0.2.0")
          digest
          false
          disk
          daemon
        ≡ (d, accepted q))))
    × ((offers (text "cancel") menu ≡ false) ⊎ ((cancel disk daemon).1 ≡ none))
    × ((offers (text "restart") menu ≡ false) ⊎ ((reboot daemon).1 ≡ none))
    × ((offers (text "rollback") menu ≡ false) ⊎ ((reboot_previous daemon).1 ≡ none))
unfolding new_daemon release_text text parse_ref full_match host_re name_re tag_re digest_re
menu_agrees_example =
    menu_agrees (λ detail. []) published (text "sway") gpu_full disk daemon 0
      (text "quay.io/k/h:sway-v0.2.0") digest false target refl refl refl refl refl
